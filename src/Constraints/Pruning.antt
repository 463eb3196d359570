-- ===== src/Constraints/Pruning.antt =====
-- worklist-ai/worklistai.cpp: the rules for TSO and PSO that order accesses by program order, without
-- the relation on reordering.
pub mod Levels
use watts.Prelude.{Bool, true, false, if◌then◌else◌, [], ◌∷◌}
use watts.Horn.{
  Rel, ld, st, mhb, fence, dom, not_reach, Term, bound, app1, app2, Fixedpoint, add_rule, implies,
}
use watts.Constraints.{
  add_reads_from_rel, add_not_reads_from_rel, add_mhb_nrf_rule, add_reads_from_mhb, add_mhb_trans,
  add_mhb_not_reads, add_overwrite_not_reads,
}

unfoldable pub add_po_func2_func2_mhb : Rel → Rel → Term → Term → Fixedpoint → Fixedpoint
unfolding add_rule
add_po_func2_func2_mhb fd1 fd2 v1 v2 zfp =
    let a = bound 0 in
    let b = bound 1 in
    add_rule
      (implies (app2 dom a b ∷ app2 not_reach b a ∷ app2 fd1 a v1 ∷ app2 fd2 b v2 ∷ [])
        (app2 mhb a b))
      zfp

unfoldable pub add_store_load_mhb : Fixedpoint → Fixedpoint
unfolding add_po_func2_func2_mhb
add_store_load_mhb zfp = let v = bound 2 in add_po_func2_func2_mhb st ld v v zfp

unfoldable pub add_load_store_mhb : Fixedpoint → Fixedpoint
unfolding add_po_func2_func2_mhb
add_load_store_mhb zfp = let v = bound 2 in add_po_func2_func2_mhb ld st v v zfp

unfoldable pub add_load_load_mhb : Fixedpoint → Fixedpoint
unfolding add_po_func2_func2_mhb
add_load_load_mhb zfp = let v = bound 2 in add_po_func2_func2_mhb ld ld v v zfp

unfoldable pub add_store_store_mhb : Bool → Fixedpoint → Fixedpoint
unfolding add_po_func2_func2_mhb
add_store_store_mhb same_var zfp =
    let v1 = bound 2 in
    let v2 = if same_var then v1 else bound 3 in add_po_func2_func2_mhb st st v1 v2 zfp

unfoldable pub add_dom_store_store_tso : Fixedpoint → Fixedpoint
unfolding add_store_store_mhb
add_dom_store_store_tso zfp = add_store_store_mhb false zfp

unfoldable pub add_dom_store_store_pso : Fixedpoint → Fixedpoint
unfolding add_store_store_mhb
add_dom_store_store_pso zfp = add_store_store_mhb true zfp

unfoldable pub add_dom_fence_func2 : Rel → Fixedpoint → Fixedpoint
unfolding add_rule
add_dom_fence_func2 fd zfp =
    let a = bound 0 in
    let b = bound 1 in
    let v = bound 2 in
    add_rule
      (implies (app2 dom a b ∷ app2 not_reach b a ∷ app1 fence a ∷ app2 fd b v ∷ []) (app2 mhb a b))
      zfp

unfoldable pub add_dom_func2_fence : Rel → Fixedpoint → Fixedpoint
unfolding add_rule
add_dom_func2_fence fd zfp =
    let a = bound 0 in
    let b = bound 1 in
    let v = bound 2 in
    add_rule
      (implies (app2 dom a b ∷ app2 not_reach b a ∷ app1 fence b ∷ app2 fd a v ∷ []) (app2 mhb a b))
      zfp

unfoldable pub add_po_load_store_fence : Fixedpoint → Fixedpoint
unfolding add_dom_fence_func2 add_dom_func2_fence
add_po_load_store_fence zfp =
    let before = add_dom_fence_func2 st (add_dom_fence_func2 ld zfp) in
    add_dom_func2_fence st (add_dom_func2_fence ld before)

unfoldable pub add_tso_pruning_rules : Fixedpoint → Fixedpoint
unfolding add_reads_from_rel add_not_reads_from_rel add_mhb_nrf_rule add_reads_from_mhb
    add_mhb_trans add_mhb_not_reads add_overwrite_not_reads add_dom_store_store_tso
    add_load_store_mhb add_store_load_mhb add_load_load_mhb add_po_load_store_fence
add_tso_pruning_rules zfp =
    let registered = add_not_reads_from_rel (add_reads_from_rel zfp) in
    let general =
      add_overwrite_not_reads
        (add_mhb_not_reads (add_mhb_trans (add_reads_from_mhb (add_mhb_nrf_rule registered)))) in
    let ordered = add_load_store_mhb (add_dom_store_store_tso general) in
    add_po_load_store_fence (add_load_load_mhb (add_store_load_mhb ordered))

unfoldable pub add_pso_pruning_rules : Fixedpoint → Fixedpoint
unfolding add_reads_from_rel add_not_reads_from_rel add_mhb_nrf_rule add_reads_from_mhb
    add_mhb_trans add_mhb_not_reads add_overwrite_not_reads add_dom_store_store_pso
    add_load_store_mhb add_store_load_mhb add_load_load_mhb add_po_load_store_fence
add_pso_pruning_rules zfp =
    let registered = add_not_reads_from_rel (add_reads_from_rel zfp) in
    let general =
      add_overwrite_not_reads
        (add_mhb_not_reads (add_mhb_trans (add_reads_from_mhb (add_mhb_nrf_rule registered)))) in
    let ordered = add_load_store_mhb (add_dom_store_store_pso general) in
    add_po_load_store_fence (add_load_load_mhb (add_store_load_mhb ordered))
