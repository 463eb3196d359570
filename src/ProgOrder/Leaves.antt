-- ===== src/ProgOrder/Leaves.antt =====
-- `violatesProgOrder` leaves the rules of the solver as they are, and the numbers that it gave out.
use watts.Prelude.{ℕ, ◌≡◌, ap, subst, Bool, [], ◌∷◌, ok, ok-inj, >>=-eq-ok}
use watts.Prelude.Map.{Map}
use watts.Llvm.{Kind}
use watts.Horn.{Fixedpoint, Ground}
use watts.Solver.{Solver}
use watts.Solver.Numbers.{IsNumbering}
use watts.Solver.Bits.{Grows, Grows-refl, Grows-trans}
use watts.ProgOrder.Sound.{add_reads_from-Grows, query_not_reads-asks, next_check}
use watts.ProgOrder.{
  Answer, l_true, l_false, l_undef, query_not_reads, add_reads_from, check_reads,
  violates_prog_order,
}

module _ (query : Fixedpoint → Ground → Answer) (kind_of : ℕ → Kind) where
  check_reads-Grows :
      (interfs : Map ℕ) (s t : Solver) (v : Bool)
      → IsNumbering s.value_cache
      → check_reads query kind_of interfs s ≡ ok (t, v)
      → Grows s.value_cache t.value_cache
  unfolding check_reads next_check
  check_reads-Grows [] s t v n h =
      subst (λ (x : Solver). Grows s.value_cache x.value_cache)
        (ap (λ (p : Solver × Bool). p.0) (ok-inj _ (t, v) h)) (Grows-refl s.value_cache n)
  check_reads-Grows ((l, st) ∷ interfs) s t v n h =
      let ((u, res), e, f) =
        >>=-eq-ok (query_not_reads query kind_of l st s)
          (λ p. next_check query kind_of interfs p.0 p.1) h in
      let g = (query_not_reads-asks query kind_of l st s u res n e).grows in
      Grows-trans s.value_cache u.value_cache t.value_cache g
        (rest u res g.numbering f (check_reads-Grows interfs u t v g.numbering))
    where
      rest :
          (u : Solver) (res : Answer)
          → IsNumbering u.value_cache
          → next_check query kind_of interfs u res ≡ ok (t, v)
          → (check_reads query kind_of interfs u ≡ ok (t, v) → Grows u.value_cache t.value_cache)
          → Grows u.value_cache t.value_cache
      rest u l_true m f more =
          subst (λ (x : Solver). Grows u.value_cache x.value_cache)
            (ap (λ (p : Solver × Bool). p.0) (ok-inj _ (t, v) f)) (Grows-refl u.value_cache m)
      rest u l_false m f more = more f
      rest u l_undef m f more = more f

  pub violates_prog_order-Leaves :
      (interfs rfs : Map ℕ) (s t : Solver) (v : Bool)
      → IsNumbering s.value_cache
      → violates_prog_order query kind_of interfs rfs s ≡ ok (t, v)
      → Grows s.value_cache t.value_cache × (s.zfp ≡ t.zfp)
  unfolding violates_prog_order
  violates_prog_order-Leaves [] rfs s t v n h =
      let same = ap (λ (p : Solver × Bool). p.0) (ok-inj _ (t, v) h) in
      (
        subst (λ (x : Solver). Grows s.value_cache x.value_cache) same (Grows-refl s.value_cache n),
        ap (λ (x : Solver). x.zfp) same,
      )
  violates_prog_order-Leaves (r ∷ interfs) rfs s t v n h =
      let (one, e, f) = >>=-eq-ok (add_reads_from query kind_of (r ∷ interfs) s) _ h in
      let (two, e', f') = >>=-eq-ok (add_reads_from query kind_of rfs one) _ f in
      let ((three, b), e'', f'') = >>=-eq-ok (check_reads query kind_of (r ∷ interfs) two) _ f' in
      let g = add_reads_from-Grows query kind_of (r ∷ interfs) s one n e in
      let g' = add_reads_from-Grows query kind_of rfs one two g.numbering e' in
      let g'' = check_reads-Grows (r ∷ interfs) two three b g'.numbering e'' in
      let same = ap (λ (p : Solver × Bool). p.0) (ok-inj _ (t, v) f'') in
      (
        subst (λ (x : Solver). Grows s.value_cache x.value_cache) same
            (Grows-trans s.value_cache two.value_cache three.value_cache
              (Grows-trans s.value_cache one.value_cache two.value_cache g g') g''),
        ap (λ (x : Solver). x.zfp) same,
      )
