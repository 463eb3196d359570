-- ===== src/Explore/Keeps.antt =====
-- `analyzeThreadInterf` takes no error off the books, whatever the solver answers.
use watts.Prelude.{
  ℕ, zero, suc, ◌≡◌, inl, inr, ap, subst, ◌∙◌, Bool, true, false, Bool-cases, Option-cases, none,
  some, List, [], ◌∷◌, All, Result, Result-cases, Failure, ok, err, ok-inj, >>=-eq-ok,
  if◌then◌else◌,
}
use watts.Prelude.Map.{Map}
use watts.Apron.{Apron}
use watts.Apron.Laws.{Sound}
use watts.Solver.{Solver}
use watts.ProgOrder.{violates_prog_order}
use watts.BbOps.Transfer.{Books}
use watts.BbOps.Transfer.Concrete.{Addressed}
use watts.BbOps.Transfer.Notes.{Reported}
use watts.Analysis.Kept.{analyze_func-keeps}
use watts.Interference.{join_interfs}
use watts.CartesianProduct.{CartesianProduct, make, at_end, increment}
use watts.Choices.{choices_per_load}
use watts.Explore.{
  PermCache, find_perm, cur_interf_store_map, cur_self_store_map, Thread, Explored, analyze_with,
  check_perm, test_cur_perm, counted, explore, with_result, explore_from, analyze_thread_interf,
}
use watts.Explore.Tested.{Checks}
use watts.Explore.Reports.{test-Leaves, counted-Leaves}

module _ (a : Apron) (t : Thread a) (interfs : Map (List ℕ)) (st_facts : Map (a.Fact)) where
  open t use {use_constraints, query, kind_of, previous_stores}

  abbrev answered : Explored a → Bool → Result (Explored a × Bool)
  answered next v = ok (next, v)

  same_books :
      (s next : Explored a) (w v : Bool) → answered s w ≡ answered next v → s.books ≡ next.books
  same_books s next w v h = ap (λ (p : Explored a × Bool). p.0.books) (ok-inj (s, w) (next, v) h)

  check_perm-books :
      (perm : List ℕ) (s next : Explored a) (v : Bool)
      → check_perm a t interfs st_facts perm s ≡ ok (next, v)
      → s.books ≡ next.books
  unfolding check_perm
  check_perm-books perm s next v h = elim (Bool-cases use_constraints) [
    | inr off ↦ same_books s next false v (rw (off, check_perm) at h)
    | inl on ↦ elim (Option-cases (find_perm perm s.perm_cache)) [
      | inr (w, k) ↦ same_books s next w v (rw (on, k, check_perm) at h)
      | inl k ↦
          let ((u, w), e, f) =
            >>=-eq-ok
              (violates_prog_order query kind_of (cur_interf_store_map perm interfs [])
                (cur_self_store_map previous_stores perm interfs []) s.solver)
              _ (rw (on, k, check_perm) at h) in
          same_books (record s { solver = u; perm_cache = (perm, w) ∷ s.perm_cache }) next w v f
    ]
  ]

  abbrev Anything : Solver → PermCache → Type 0
  Anything σ cache = Unit

  abbrev Never : Solver → List ℕ → Type 0
  Never σ perm = ⊥

  all-Checks : Checks a t interfs st_facts Anything Never
  all-Checks perm s next v i h = record {
    good = tt;
    before = λ q x. x;
    same_books = check_perm-books perm s next v h;
    refused = λ e x. x;
  }

  module _ (l : Sound a) (off : t.flags.assert_slice ≡ false) (w : All Addressed t.blocks)
      (n : ℕ) where
    explore-keeps :
        (rounds : ℕ) (cp : CartesianProduct) (s last : Explored a)
        → explore a t interfs st_facts rounds cp s ≡ some (ok last)
        → Reported a n s.books
        → Reported a n last.books
    unfolding explore
    explore-keeps zero cp s last h r = cc
    explore-keeps (suc rounds) cp s last h r = elim (Bool-cases (at_end cp)) [
      | inl e ↦ subst (λ (x : Explored a). Reported a n x.books) (state_of (rw (e, explore) at h)) r
      | inr e ↦ elim (Option-cases (test_cur_perm a t interfs st_facts cp.permutation s)) [
        | inl q ↦ absurd (ended (rw (e, q, explore) at h))
        | inr (o, q) ↦ elim (Result-cases o) [
          | inr (x, k) ↦ absurd (failed x (rw (e, q, k, explore) at h))
          | inl ((next, ran), k) ↦ elim (Result-cases (increment cp)) [
            | inr (x, z) ↦ absurd (failed x (rw (e, q, k, z, explore) at h))
            | inl (cp', z) ↦
                let (left, said) =
                  test-Leaves a t interfs st_facts l Anything Never all-Checks off w cp.permutation
                    s next ran tt (q ∙ ap some k) in
                let now =
                  counted-Leaves a t interfs st_facts l Anything Never all-Checks off w s next ran
                    left in
                explore-keeps rounds cp' (counted a t interfs st_facts ran next) last
                  (rw (e, q, k, z, explore) at h) (now.errors_kept n r)
          ]
        ]
      ]
    ]
      where
        state_of : some (ok s) ≡ some (ok last) → s ≡ last
        state_of e = cc

        failed : (x : Failure) → ¬ (some (err x) ≡ some (ok last))
        failed x e = cc

        ended : ¬ (none ≡ some (ok last))
        ended e = cc

    explore_from-keeps :
        (rounds : ℕ) (s last : Explored a)
        → explore_from a t rounds interfs st_facts s ≡ some (ok last)
        → Reported a n s.books
        → Reported a n last.books
    unfolding explore_from
    explore_from-keeps rounds s last h r = elim (Result-cases (make (choices_per_load interfs))) [
      | inr (x, e) ↦ absurd (failed x (rw (e, explore_from) at h))
      | inl (cp, e) ↦
          explore-keeps rounds cp (record s { res = []; count = 1 }) last
            (rw (e, explore_from) at h) r
    ]
      where
        failed : (x : Failure) → ¬ (some (err x) ≡ some (ok last))
        failed x e = cc

module _ (a : Apron) (l : Sound a) (t : Thread a) (off : t.flags.assert_slice ≡ false)
    (w : All Addressed t.blocks) (n : ℕ) where
  open a use {Fact}

  result-keeps :
      (cur : Map Fact) (s last : Explored a)
      → with_result a t (analyze_with a t cur s.books) s ≡ some (ok last)
      → Reported a n s.books
      → Reported a n last.books
  unfolding with_result analyze_with
  result-keeps cur s last h r = elim (Option-cases (analyze_with a t cur s.books)) [
    | inl e ↦ absurd (ended (rw (e, with_result, analyze_with) at h))
    | inr (o, e) ↦ elim (Result-cases o) [
      | inr (x, k) ↦ absurd (failed x (rw (e, k, with_result, analyze_with) at h))
      | inl ((m, b), k) ↦
          subst (Reported a n) (books_of m b (rw (e, k, with_result, analyze_with) at h)) (
            analyze_func-keeps a l t.flags t.ctx cur t.slices off t.fuel t.blocks t.entry_fact
              s.books b m n w (e ∙ ap some k) r)
    ]
  ]
    where
      books_of :
          (m : Map Fact) (b : Books a)
          → some (ok (record s { books = b; res = m })) ≡ some (ok last)
          → b ≡ last.books
      books_of m b e = cc

      failed : (x : Failure) → ¬ (some (err x) ≡ some (ok last))
      failed x e = cc

      ended : ¬ (none ≡ some (ok last))
      ended e = cc

  by_branch :
      {A : Type 0} (b : Bool) (x y z : A) {P : Type 0}
      → (if b then x else y) ≡ z
      → (x ≡ z → P)
      → (y ≡ z → P)
      → P
  by_branch true x y z h f g = f h
  by_branch false x y z h f g = g h

  joined-keeps :
      (q : Result (Map Fact)) (s last : Explored a)
      → elim q [ err e ↦ some (err e) | ok cur ↦ with_result a t (analyze_with a t cur s.books) s ]
        ≡ some (ok last)
      → Reported a n s.books
      → Reported a n last.books
  joined-keeps (err e) s last h r = cc
  joined-keeps (ok cur) s last h r = result-keeps cur s last h r

  -- Without the assertion slice, errors that were reported before are reported afterwards.
  pub analyze_thread_interf-keeps :
      (rounds : ℕ) (interfs : Map (List ℕ)) (st_facts : Map Fact) (s last : Explored a)
      → analyze_thread_interf a t rounds interfs st_facts s ≡ some (ok last)
      → Reported a n s.books
      → Reported a n last.books
  unfolding analyze_thread_interf
  analyze_thread_interf-keeps rounds [] st_facts s last h r = result-keeps [] s last h r
  analyze_thread_interf-keeps rounds (i ∷ interfs) st_facts s last h r =
      by_branch (t.flags.no_combins) _ _ _ h
        (λ k. joined-keeps (join_interfs a (i ∷ interfs) st_facts) s last k r)
        (λ k. explore_from-keeps a t (i ∷ interfs) st_facts l off w n rounds s last k r)
