-- ===== src/Constraints/Reorder.antt =====
-- worklist-ai/worklistai.cpp: which accesses each memory model keeps in order. The variables `v1` and
-- `v2` of a model's rules are both the bound variable 2, as in the source.
use watts.Prelude.{Bool, true, false, [], ◌∷◌}
use watts.Horn.{
  Rel, ld, st, fence, no_reorder, Term, bound, app1, app2, Fixedpoint, add_rule, implies,
}
use watts.Constraints.{
  add_no_reorder_rel, add_no_reorder_rules, add_pruning_rules, add_reads_from_is_mhb,
}

unfoldable pub add_no_reo_func2_func2 : Rel → Rel → Term → Term → Fixedpoint → Fixedpoint
unfolding add_rule
add_no_reo_func2_func2 fd1 fd2 v1 v2 zfp =
    let a = bound 0 in
    let b = bound 1 in
    add_rule (implies (app2 fd1 a v1 ∷ app2 fd2 b v2 ∷ []) (app2 no_reorder a b)) zfp

-- `v` is the bound variable of `b`.
unfoldable pub add_no_reo_func1_func2 : Rel → Rel → Fixedpoint → Fixedpoint
unfolding add_rule
add_no_reo_func1_func2 fd1 fd2 zfp =
    let a = bound 0 in
    let b = bound 1 in
    let v = bound 1 in add_rule (implies (app1 fd1 a ∷ app2 fd2 b v ∷ []) (app2 no_reorder a b)) zfp

unfoldable pub add_no_reo_func2_func1 : Rel → Rel → Fixedpoint → Fixedpoint
unfolding add_rule
add_no_reo_func2_func1 fd1 fd2 zfp =
    let a = bound 0 in
    let b = bound 1 in
    let v = bound 1 in add_rule (implies (app2 fd1 a v ∷ app1 fd2 b ∷ []) (app2 no_reorder a b)) zfp

unfoldable pub add_fence_reorder_rules : Fixedpoint → Fixedpoint
unfolding add_no_reo_func1_func2 add_no_reo_func2_func1
add_fence_reorder_rules zfp =
    let before = add_no_reo_func1_func2 fence ld (add_no_reo_func1_func2 fence st zfp) in
    add_no_reo_func2_func1 ld fence (add_no_reo_func2_func1 st fence before)

unfoldable pub add_sc_reorder_rules : Fixedpoint → Fixedpoint
unfolding add_no_reorder_rel add_no_reo_func2_func2
add_sc_reorder_rules zfp =
    let v1 = bound 2 in
    let v2 = bound 2 in
    let from = add_no_reorder_rel zfp in
    let loads = add_no_reo_func2_func2 ld st v1 v1 (add_no_reo_func2_func2 ld ld v1 v1 from) in
    let one = add_no_reo_func2_func2 st st v1 v1 (add_no_reo_func2_func2 st ld v1 v1 loads) in
    let more = add_no_reo_func2_func2 ld st v1 v2 (add_no_reo_func2_func2 ld ld v1 v2 one) in
    add_no_reo_func2_func2 st st v1 v2 (add_no_reo_func2_func2 st ld v1 v2 more)

unfoldable pub add_tso_reorder_rules : Fixedpoint → Fixedpoint
unfolding add_no_reorder_rel add_no_reo_func2_func2 add_fence_reorder_rules
add_tso_reorder_rules zfp =
    let v1 = bound 2 in
    let v2 = bound 2 in
    let from = add_no_reorder_rel zfp in
    let loads = add_no_reo_func2_func2 ld st v1 v1 (add_no_reo_func2_func2 ld ld v1 v1 from) in
    let one = add_no_reo_func2_func2 st st v1 v1 loads in
    let more = add_no_reo_func2_func2 ld st v1 v2 (add_no_reo_func2_func2 ld ld v1 v2 one) in
    add_fence_reorder_rules (add_no_reo_func2_func2 st st v1 v2 more)

unfoldable pub add_pso_reorder_rules : Fixedpoint → Fixedpoint
unfolding add_no_reorder_rel add_no_reo_func2_func2 add_fence_reorder_rules
add_pso_reorder_rules zfp =
    let v1 = bound 2 in
    let v2 = bound 2 in
    let from = add_no_reorder_rel zfp in
    let loads = add_no_reo_func2_func2 ld st v1 v1 (add_no_reo_func2_func2 ld ld v1 v1 from) in
    let one = add_no_reo_func2_func2 st st v1 v1 loads in
    let more = add_no_reo_func2_func2 ld st v1 v2 (add_no_reo_func2_func2 ld ld v1 v2 one) in
    add_fence_reorder_rules more

unfoldable pub add_rmo_reorder_rules : Fixedpoint → Fixedpoint
unfolding add_no_reorder_rel add_no_reo_func2_func2 add_fence_reorder_rules
add_rmo_reorder_rules zfp =
    let v1 = bound 2 in
    let from = add_no_reorder_rel zfp in
    let loads = add_no_reo_func2_func2 ld st v1 v1 (add_no_reo_func2_func2 ld ld v1 v1 from) in
    add_fence_reorder_rules (add_no_reo_func2_func2 st st v1 v1 loads)

-- `runOnModule` picks the rules by the flags `tsoConstrG`, `psoConstrG` and `rmoConstrG`.
unfoldable pub add_model_rules : Bool → Bool → Bool → Fixedpoint → Fixedpoint
unfolding add_no_reorder_rules add_tso_reorder_rules add_pso_reorder_rules add_rmo_reorder_rules
    add_pruning_rules add_reads_from_is_mhb
add_model_rules true pso rmo zfp =
    add_reads_from_is_mhb (add_tso_reorder_rules (add_no_reorder_rules zfp))
add_model_rules false true rmo zfp =
    add_reads_from_is_mhb (add_pso_reorder_rules (add_no_reorder_rules zfp))
add_model_rules false false true zfp =
    add_reads_from_is_mhb (add_rmo_reorder_rules (add_no_reorder_rules zfp))
add_model_rules false false false zfp = add_reads_from_is_mhb (add_pruning_rules zfp)
