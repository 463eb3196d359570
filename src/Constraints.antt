-- ===== src/Constraints.antt =====
-- worklist-ai/worklistai.cpp: the rules on must-happen-before, on reordering and on infeasible
-- reads-from pairs, with the source's numbering of the bound variables.
pub mod Reorder
pub mod Pruning
pub mod Weak
pub mod Runs
pub mod Executions
use watts.Prelude.{Bool, true, false, if◌then◌else◌, [], ◌∷◌}
use watts.Horn.{
  Rel, ld, st, mhb, fence, dom, not_reach, not_rf, rf, no_reorder, Term, bound, constant, app1,
  app2, Fixedpoint, add_rule, register_relation, implies, add_trans_rule_bvbv,
}

-- The relations.

unfoldable pub add_dom_rel : Fixedpoint → Fixedpoint
unfolding register_relation add_trans_rule_bvbv
add_dom_rel zfp = add_trans_rule_bvbv dom (register_relation dom zfp)

unfoldable pub add_load_store_rels : Fixedpoint → Fixedpoint
unfolding register_relation
add_load_store_rels zfp = register_relation ld (register_relation st zfp)

unfoldable pub add_mhb_rel : Fixedpoint → Fixedpoint
unfolding register_relation
add_mhb_rel zfp = register_relation mhb zfp

unfoldable pub add_fence_rel : Fixedpoint → Fixedpoint
unfolding register_relation
add_fence_rel zfp = register_relation fence zfp

-- It registers the fence relation again.
unfoldable pub add_lw_sync_rel : Fixedpoint → Fixedpoint
unfolding register_relation
add_lw_sync_rel zfp = register_relation fence zfp

unfoldable pub add_not_reach_rel : Fixedpoint → Fixedpoint
unfolding register_relation
add_not_reach_rel zfp = register_relation not_reach zfp

unfoldable pub add_reads_from_rel : Fixedpoint → Fixedpoint
unfolding register_relation
add_reads_from_rel zfp = register_relation rf zfp

unfoldable pub add_no_reorder_rel : Fixedpoint → Fixedpoint
unfolding register_relation
add_no_reorder_rel zfp = register_relation no_reorder zfp

unfoldable pub add_not_reads_from_rel : Fixedpoint → Fixedpoint
unfolding register_relation
add_not_reads_from_rel zfp = register_relation not_rf zfp

-- The rules on must-happen-before.

unfoldable pub add_dom_not_reach_rule : Fixedpoint → Fixedpoint
unfolding add_rule
add_dom_not_reach_rule zfp =
    let a = bound 0 in
    let b = bound 1 in
    add_rule (implies (app2 dom a b ∷ app2 not_reach b a ∷ []) (app2 mhb a b)) zfp

unfoldable pub add_dom_not_reach_reorder_rule : Fixedpoint → Fixedpoint
unfolding add_rule
add_dom_not_reach_reorder_rule zfp =
    let a = bound 0 in
    let b = bound 1 in
    add_rule (implies (app2 dom a b ∷ app2 not_reach b a ∷ app2 no_reorder a b ∷ []) (app2 mhb a b))
      zfp

unfoldable pub add_reads_from_mhb : Fixedpoint → Fixedpoint
unfolding add_rule
add_reads_from_mhb zfp =
    let s1 = bound 0 in
    let s2 = bound 1 in
    let l = bound 2 in
    let v = bound 3 in
    add_rule
      (implies (app2 rf l s1 ∷ app2 mhb s1 s2 ∷ app2 ld l v ∷ app2 st s1 v ∷ app2 st s2 v ∷ [])
        (app2 mhb l s2))
      zfp

unfoldable pub add_mhb_trans : Fixedpoint → Fixedpoint
unfolding add_trans_rule_bvbv
add_mhb_trans zfp = add_trans_rule_bvbv mhb zfp

unfoldable pub add_overwrite_not_reads : Fixedpoint → Fixedpoint
unfolding add_rule
add_overwrite_not_reads zfp =
    let l1 = bound 0 in
    let l2 = bound 1 in
    let s1 = bound 2 in
    let s2 = bound 3 in
    let v = bound 4 in
    add_rule
      (implies
        (app2 rf l1 s1
          ∷ app2 mhb l1 s2
          ∷ app2 mhb s2 l2
          ∷ app2 ld l1 v
          ∷ app2 ld l2 v
          ∷ app2 st s2 v
          ∷ [])
        (app2 not_rf l2 s1))
      zfp

unfoldable pub add_mhb_not_reads : Fixedpoint → Fixedpoint
unfolding add_rule
add_mhb_not_reads zfp =
    let a = bound 0 in
    let b = bound 1 in add_rule (implies (app2 mhb a b ∷ []) (app2 not_rf a b)) zfp

unfoldable pub add_mhb_nrf_rule : Fixedpoint → Fixedpoint
unfolding add_rule
add_mhb_nrf_rule zfp =
    let a = bound 0 in let b = bound 1 in add_rule (implies (app2 rf a b ∷ []) (app2 mhb b a)) zfp

unfoldable pub add_reads_from_is_mhb : Fixedpoint → Fixedpoint
unfolding add_rule
add_reads_from_is_mhb zfp =
    let a = bound 2 in let b = bound 3 in add_rule (implies (app2 rf b a ∷ []) (app2 mhb a b)) zfp

unfoldable pub add_pruning_rules : Fixedpoint → Fixedpoint
unfolding add_reads_from_rel add_not_reads_from_rel add_mhb_nrf_rule add_dom_not_reach_rule
    add_reads_from_mhb add_mhb_trans add_mhb_not_reads add_overwrite_not_reads
add_pruning_rules zfp =
    let registered = add_not_reads_from_rel (add_reads_from_rel zfp) in
    let ordered = add_dom_not_reach_rule (add_mhb_nrf_rule registered) in
    add_overwrite_not_reads (add_mhb_not_reads (add_mhb_trans (add_reads_from_mhb ordered)))

unfoldable pub add_no_reorder_rules : Fixedpoint → Fixedpoint
unfolding add_reads_from_rel add_not_reads_from_rel add_mhb_nrf_rule add_dom_not_reach_reorder_rule
    add_reads_from_mhb add_mhb_trans add_mhb_not_reads add_overwrite_not_reads
add_no_reorder_rules zfp =
    let registered = add_not_reads_from_rel (add_reads_from_rel zfp) in
    let ordered = add_mhb_nrf_rule (add_dom_not_reach_reorder_rule registered) in
    add_overwrite_not_reads (add_mhb_not_reads (add_mhb_trans (add_reads_from_mhb ordered)))
