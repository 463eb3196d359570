-- ===== src/Explore/Reports.antt =====
-- A run over permutations reports what comes of each of them, unless it does not happen.
use watts.Prelude.{
  ℕ, zero, suc, ◌≡◌, inl, inr, sym, ap, subst, ◌∙◌, Bool, true, false, Option-cases, none, some,
  List, [], ◌∷◌, get_elem?, All, Result-cases, Failure, ok, err,
}
use watts.Prelude.Map.{Map}
use watts.Apron.{Apron}
use watts.Apron.Laws.{Sound}
use watts.Solver.{Solver}
use watts.BbOps.Transfer.{Books}
use watts.BbOps.Transfer.Concrete.{Addressed}
use watts.BbOps.Transfer.Notes.{Reported}
use watts.Analysis.Kept.{analyze_func-keeps}
use watts.Choices.{cur_interf_map}
use watts.Explore.{PermCache, Thread, Explored, analyze_with, test_cur_perm, counted}
use watts.Explore.Tested.{tested, Tested, test-Tested, Checks}
use watts.Explore.Visited.{run_all}

module _ (a : Apron) (t : Thread a) (interfs : Map (List ℕ)) (st_facts : Map (a.Fact)) where
  open a use {Fact}
  open t use {query}

  module _ (l : Sound a) (Good : Solver → PermCache → Type 0) (Happens : Solver → List ℕ → Type 0)
      (check : Checks a t interfs st_facts Good Happens) (off : t.flags.assert_slice ≡ false)
      (w : All Addressed t.blocks) where
    abbrev pub IsGood : Explored a → Type 0
    IsGood s = Good s.solver s.perm_cache

    -- What a test or the run of several leaves as it was.
    pub record Leaves (s next : Explored a) : Type 0 where
      pub good : IsGood next
      pub before : (q : List ℕ) → Happens next.solver q → Happens s.solver q
      pub errors_kept : (n : ℕ) → Reported a n s.books → Reported a n next.books

    -- An assertion that the analysis with the facts of these stores reports.
    abbrev pub Comes : ℕ → List ℕ → Type 0
    Comes n perm =
        (cur r : Map Fact) (b b' : Books a)
        → cur_interf_map a perm interfs st_facts ≡ ok cur
        → analyze_with a t cur b ≡ some (ok (r, b'))
        → Reported a n b'

    analysis_keeps :
        (n : ℕ) (cur r : Map Fact) (b b' : Books a)
        → analyze_with a t cur b ≡ some (ok (r, b'))
        → Reported a n b
        → Reported a n b'
    unfolding analyze_with
    analysis_keeps n cur r b b' h k =
        analyze_func-keeps a l t.flags t.ctx cur t.slices off t.fuel t.blocks t.entry_fact b b' r n
          w h k

    -- One test: what it leaves, and what it reports of a permutation that happens.
    pub test-Leaves :
        (perm : List ℕ) (s next : Explored a) (ran : Bool)
        → IsGood s
        → test_cur_perm a t interfs st_facts perm s ≡ tested a t interfs st_facts next ran
        → Leaves s next
          × ((n : ℕ) → Comes n perm → Happens next.solver perm → Reported a n next.books)
    test-Leaves perm s next ran i h =
        let d = test-Tested a t interfs st_facts perm s next ran h in
        let k = check perm s d.middle d.verdict i d.checked in
        (
          record {
            good = rw (sym d.same_solver, sym d.same_cache) k.good;
            before = rw (sym d.same_solver) k.before;
            errors_kept = λ n r. later d n (rw k.same_books at r);
          },
          λ n comes happens. elim (d.outcome) [
            | inl (v, e) ↦ absurd (k.refused v (rw (sym d.same_solver) at happens))
            | inr (r, e) ↦ comes d.cur r d.middle.books next.books d.chosen e
          ],
        )
      where
        later :
            (d : Tested a t interfs st_facts perm s next) (n : ℕ)
            → Reported a n d.middle.books
            → Reported a n next.books
        later d n r = elim (d.outcome) [
          | inl (v, e) ↦ subst (Reported a n) e r
          | inr (m, e) ↦ analysis_keeps n d.cur m d.middle.books next.books e r
        ]

    pub counted-Leaves :
        (s next : Explored a) (ran : Bool)
        → Leaves s next
        → Leaves s (counted a t interfs st_facts ran next)
    unfolding counted
    counted-Leaves s next false v = v
    counted-Leaves s next true v = record {
      good = v.good;
      before = v.before;
      errors_kept = v.errors_kept;
    }

    Leaves-trans : (s m last : Explored a) → Leaves s m → Leaves m last → Leaves s last
    Leaves-trans s m last x y = record {
      good = y.good;
      before = λ q h. x.before q (y.before q h);
      errors_kept = λ n r. y.errors_kept n (x.errors_kept n r);
    }

    -- What the state says of a permutation: it does not happen, or what it comes to is reported.
    abbrev pub Reports : List ℕ → Explored a → Type 0
    Reports perm s = (n : ℕ) → Comes n perm → Happens s.solver perm → Reported a n s.books

    Reports-later :
        (perm : List ℕ) (s last : Explored a) → Leaves s last → Reports perm s → Reports perm last
    Reports-later perm s last x r n comes happens =
        x.errors_kept n (r n comes (x.before perm happens))

    counted-Reports :
        (perm : List ℕ) (s : Explored a) (ran : Bool)
        → Reports perm s
        → Reports perm (counted a t interfs st_facts ran s)
    unfolding counted
    counted-Reports perm s false r = r
    counted-Reports perm s true r = r

    pub run_all-Reports :
        (perms : List (List ℕ)) (s last : Explored a)
        → IsGood s
        → run_all a t interfs st_facts perms s ≡ some (ok last)
        → Leaves s last
          × ((i : ℕ) (perm : List ℕ) → get_elem? perms i ≡ some perm → Reports perm last)
    unfolding run_all
    run_all-Reports [] s last i h = (
      subst (Leaves s) (state_of h)
          (record { good = i; before = λ q h. h; errors_kept = λ n r. r }),
      λ k perm e. cc,
    )
      where
        state_of : some (ok s) ≡ some (ok last) → s ≡ last
        state_of h = cc
    run_all-Reports (perm ∷ perms) s last i h =
        elim (Option-cases (test_cur_perm a t interfs st_facts perm s)) [
          | inl e ↦ absurd (ended (rw (e, run_all) at h))
          | inr (o, e) ↦ elim (Result-cases o) [
            | inr (x, k) ↦ absurd (failed x (rw (e, k, run_all) at h))
            | inl ((next, ran), k) ↦
                let m = counted a t interfs st_facts ran next in
                let (left, said) = test-Leaves perm s next ran i (e ∙ ap some k) in
                let now = counted-Leaves s next ran left in
                let (later, others) =
                  run_all-Reports perms m last now.good (rw (e, k, run_all) at h) in
                (
                  Leaves-trans s m last now later,
                  λ j q at. at_place m later others (counted-Reports perm next ran said) j q at,
                )
          ]
        ]
      where
        failed : (x : Failure) → ¬ (some (err x) ≡ some (ok last))
        failed x h = cc

        ended : ¬ (none ≡ some (ok last))
        ended h = cc

        at_place :
            (m : Explored a)
            → Leaves m last
            → ((j : ℕ) (q : List ℕ) → get_elem? perms j ≡ some q → Reports q last)
            → Reports perm m
            → (j : ℕ) (q : List ℕ) → get_elem? (perm ∷ perms) j ≡ some q
            → Reports q last
        at_place m later others r zero q at =
            subst (λ (x : List ℕ). Reports x last) (here at) (Reports-later perm m last later r)
          where
            here : some perm ≡ some q → perm ≡ q
            here e = cc
        at_place m later others r (suc j) q at = others j q at
