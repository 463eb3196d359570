-- ===== src/ProgOrder/Sound.antt =====
-- `violatesProgOrder`: reads that it refuses happen together in no run.
use watts.Prelude.{
  arith, ℕ, ◌≡◌, inl, inr, refl, sym, subst, ap, ◌∙◌, Bool, true, false, if◌then◌else◌, some, List,
  [], ◌∷◌, ◌++◌, In, In-append, Result, ok, err, ok-inj, assertion, ◌>>=◌, >>=-eq-ok,
}
use watts.Prelude.Map.{Map}
use watts.Llvm.{Kind}
use watts.Horn.{rf, not_rf, constant, app2, Fixedpoint, Rule, Ground, ground2, implies}
use watts.Horn.Models.{Valid, Derives-Holds}
use watts.Constraints.Reorder.{add_model_rules}
use watts.Constraints.Runs.{Run, Consistent, Holds}
use watts.Constraints.Executions.{add_model_rules-Valid}
use watts.Solver.{Solver, add_fact2_sz}
use watts.Solver.Numbers.{IsNumbering}
use watts.Solver.Bits.{InBits, Grows, Grows-refl, Grows-trans, InBits-Grows, add_fact2_sz-adds}
use watts.ProgOrder.Asks.{AnswersDerived, RulesHold, Reads, Asked, ask, asked, Asked-after, Found}
use watts.ProgOrder.{
  Answer, l_true, l_false, l_undef, z3_bv_size, is_some_load, query_not_reads, add_reads_from_fact,
  add_reads_from, check_reads, violates_prog_order,
}

module _ (query : Fixedpoint → Ground → Answer) (kind_of : ℕ → Kind) where
  asserted :
      {A : Type 0} (b : Bool) (r : Result A) (a : A)
      → (if b then r else err assertion) ≡ ok a
      → r ≡ ok a
  asserted true r a h = h
  asserted false r a h = cc

  added_fact :
      (l st : ℕ) (s t : Solver)
      → IsNumbering s.value_cache
      → add_reads_from_fact query kind_of l st s ≡ ok t
      → (i : ℕ) × (j : ℕ) × Grows s.value_cache t.value_cache
        × InBits z3_bv_size t.value_cache l i
        × InBits z3_bv_size t.value_cache st j
        × (t.zfp.rules ≡ implies [] (app2 rf (constant i) (constant j)) ∷ s.zfp.rules)
  unfolding add_reads_from_fact
  added_fact l st s t n h =
      add_fact2_sz-adds z3_bv_size (omega arith) rf l st s t n
        (asserted (is_some_load (kind_of l)) (add_fact2_sz rf l st z3_bv_size s) t h)

  pub add_reads_from-Grows :
      (rfs : Map ℕ) (s t : Solver)
      → IsNumbering s.value_cache
      → add_reads_from query kind_of rfs s ≡ ok t
      → Grows s.value_cache t.value_cache
  unfolding add_reads_from
  add_reads_from-Grows [] s t n h =
      subst (λ (x : Solver). Grows s.value_cache x.value_cache) (ok-inj s t h)
        (Grows-refl s.value_cache n)
  add_reads_from-Grows ((l, st) ∷ rfs) s t n h =
      let (u, e, f) =
        >>=-eq-ok (add_reads_from_fact query kind_of l st s) (add_reads_from query kind_of rfs) h in
      let (i, j, g, x, y, q) = added_fact l st s u n e in
      Grows-trans s.value_cache u.value_cache t.value_cache g
        (add_reads_from-Grows rfs u t g.numbering f)

  module _ (run : Run) (last : Map ℕ) where
    -- The facts that are added hold in a run with these reads.
    add_reads_from-RulesHold :
        (rfs : Map ℕ) (s t : Solver)
        → IsNumbering s.value_cache
        → add_reads_from query kind_of rfs s ≡ ok t
        → Grows t.value_cache last
        → ((l st : ℕ) → In (l, st) rfs → Reads run last l st)
        → RulesHold run s
        → RulesHold run t
    unfolding add_reads_from
    add_reads_from-RulesHold [] s t n h g reads rules =
        subst (λ (x : Solver). RulesHold run x) (ok-inj s t h) rules
    add_reads_from-RulesHold ((l, st) ∷ rfs) s t n h grows reads rules =
        let (u, e, f) =
          >>=-eq-ok (add_reads_from_fact query kind_of l st s) (add_reads_from query kind_of rfs)
            h in
        let (i, j, g, x, y, q) = added_fact l st s u n e in
        let later =
          Grows-trans u.value_cache t.value_cache last (add_reads_from-Grows rfs u t g.numbering f)
            grows in
        let read =
          reads l st (inl refl) i j (InBits-Grows z3_bv_size u.value_cache last l i later x)
            (InBits-Grows z3_bv_size u.value_cache last st j later y) in
        add_reads_from-RulesHold rfs u t g.numbering f grows (λ k w m. reads k w (inr m))
          (λ r m. with_fact i j read r (subst (λ (rs : List Rule). In r rs) q m))
      where
        with_fact :
            (i j : ℕ)
            → run.source i ≡ some j
            → (r : Rule) → In r (implies [] (app2 rf (constant i) (constant j)) ∷ s.zfp.rules)
            → Valid (Holds run) r
        with_fact i j p r (inl e) = subst (Valid (Holds run)) (sym e) (λ σ b. p)
        with_fact i j p r (inr m) = rules r m

  pub query_not_reads-asks :
      (l st : ℕ) (s t : Solver) (res : Answer)
      → IsNumbering s.value_cache
      → query_not_reads query kind_of l st s ≡ ok (t, res)
      → Asked query not_rf l st s t res
  unfolding query_not_reads
  query_not_reads-asks l st s t res n h =
      asked query not_rf l st s t res n
        (asserted (is_some_load (kind_of l)) (ask query not_rf l st s) (t, res) h)

  unfoldable pub next_check : Map ℕ → Solver → Answer → Result (Solver × Bool)
  unfolding check_reads
  next_check interfs u l_true = ok (u, true)
  next_check interfs u l_false = check_reads query kind_of interfs u
  next_check interfs u l_undef = check_reads query kind_of interfs u

  -- A check that fails has found a pair that the solver calls infeasible.
  check_reads-Found :
      (interfs : Map ℕ) (s t : Solver)
      → IsNumbering s.value_cache
      → check_reads query kind_of interfs s ≡ ok (t, true)
      → Found query not_rf s t interfs
  unfolding check_reads next_check
  check_reads-Found [] s t n h = cc
  check_reads-Found ((l, st) ∷ interfs) s t n h =
      let ((u, res), e, f) =
        >>=-eq-ok (query_not_reads query kind_of l st s) (λ p. next_check interfs p.0 p.1) h in
      let a = query_not_reads-asks l st s u res n e in
      found u res a f (check_reads-Found interfs u t a.grows.numbering)
    where
      onward :
          (u : Solver) (res : Answer)
          → Asked query not_rf l st s u res
          → Found query not_rf u t interfs
          → Found query not_rf s t ((l, st) ∷ interfs)
      onward u res a (k, w, m, b) = (k, w, inr m, Asked-after query not_rf l st k w s u t res a b)

      found :
          (u : Solver) (res : Answer)
          → Asked query not_rf l st s u res
          → next_check interfs u res ≡ ok (t, true)
          → (check_reads query kind_of interfs u ≡ ok (t, true) → Found query not_rf u t interfs)
          → Found query not_rf s t ((l, st) ∷ interfs)
      found u l_true a f more = (
        l,
        st,
        inl refl,
        subst (λ (x : Solver). Asked query not_rf l st s x l_true)
            (ap (λ (p : Solver × Bool). p.0) (ok-inj (u, true) (t, true) f)) a,
      )
      found u l_false a f more = onward u l_false a (more f)
      found u l_undef a f more = onward u l_undef a (more f)

  -- The reads whose facts were added do not all happen where the check has failed.
  refuted :
      (run : Run) (interfs rfs : Map ℕ) (s one two three : Solver)
      → AnswersDerived query
      → IsNumbering s.value_cache
      → RulesHold run s
      → add_reads_from query kind_of interfs s ≡ ok one
      → add_reads_from query kind_of rfs one ≡ ok two
      → check_reads query kind_of interfs two ≡ ok (three, true)
      → ¬ ((l st : ℕ) → In (l, st) (interfs ++ rfs) → Reads run three.value_cache l st)
  refuted run interfs rfs s one two three law n rules e e' e'' reads =
      let g = add_reads_from-Grows interfs s one n e in
      let g' = add_reads_from-Grows rfs one two g.numbering e' in
      let (l, st, m, a) = check_reads-Found interfs two three g'.numbering e'' in
      let held =
        add_reads_from-RulesHold run three.value_cache interfs s one n e
          (Grows-trans one.value_cache two.value_cache three.value_cache g' a.grows)
          (λ k w o. reads k w ((In-append (k, w) interfs rfs).1 (inl o))) rules in
      let held' =
        add_reads_from-RulesHold run three.value_cache rfs one two g.numbering e' a.grows
          (λ k w o. reads k w ((In-append (k, w) interfs rfs).1 (inr o))) held in
      Derives-Holds (Holds run) two.zfp.rules (ground2 not_rf a.left a.right) held'
        (law two.zfp (ground2 not_rf a.left a.right) a.answer)
        (reads l st ((In-append (l, st) interfs rfs).1 (inl m)) a.left a.right a.left_bits
          a.right_bits)

  -- Take a solver whose true answers are in the least model of its rules, a well-formed cache of
  -- numbers, the rules of a memory model on top of rules that hold in a run, and let the run be one
  -- under a memory that all threads share, in which each instruction runs at most once. When
  -- `violatesProgOrder` returns true, it is not the case that in the run every load of `interfs` and
  -- of `rfs` reads its store: what it prunes does not happen.
  pub violates_prog_order-infeasible :
      (run : Run) (tso pso rmo : Bool) (interfs rfs : Map ℕ) (cache : Map ℕ) (base : Fixedpoint)
      (t : Solver)
      → AnswersDerived query
      → Consistent run
      → IsNumbering cache
      → ((r : Rule) → In r base.rules → Valid (Holds run) r)
      → violates_prog_order query kind_of interfs rfs
          (record { value_cache = cache; zfp = add_model_rules tso pso rmo base })
        ≡ ok (t, true)
      → ¬ ((l st : ℕ) → In (l, st) (interfs ++ rfs) → Reads run t.value_cache l st)
  unfolding violates_prog_order
  violates_prog_order-infeasible run tso pso rmo [] rfs cache base t law c n rules h reads = cc
  violates_prog_order-infeasible run tso pso rmo (r ∷ interfs) rfs cache base t law c n rules h
        reads =
      let s : Solver = record { value_cache = cache; zfp = add_model_rules tso pso rmo base } in
      let (one, e, f) =
        >>=-eq-ok (add_reads_from query kind_of (r ∷ interfs) s)
          (λ one. add_reads_from query kind_of rfs one >>= (λ two.
            check_reads query kind_of (r ∷ interfs) two
            >>= (λ p. ok (record { value_cache = p.0.value_cache; zfp = s.zfp }, p.1))))
          h in
      let (two, e', f') =
        >>=-eq-ok (add_reads_from query kind_of rfs one)
          (λ two.
            check_reads query kind_of (r ∷ interfs) two
            >>= (λ p. ok (record { value_cache = p.0.value_cache; zfp = s.zfp }, p.1)))
          f in
      let ((three, b), e'', f'') =
        >>=-eq-ok (check_reads query kind_of (r ∷ interfs) two)
          (λ p. ok (record { value_cache = p.0.value_cache; zfp = s.zfp }, p.1)) f' in
      let q = ok-inj (record { value_cache = three.value_cache; zfp = s.zfp }, b) (t, true) f'' in
      refuted run (r ∷ interfs) rfs s one two three law n
        (add_model_rules-Valid run c tso pso rmo base rules) e e'
        (e'' ∙ ap (λ (p : Solver × Bool). ok (three, p.1)) q)
        (subst (λ (m : Map ℕ). (l st : ℕ) → In (l, st) ((r ∷ interfs) ++ rfs) → Reads run m l st)
          (sym (ap (λ (p : Solver × Bool). p.0.value_cache) q)) reads)
