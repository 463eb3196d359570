-- ===== src/Explore/Tested.antt =====
-- `testCurPerm` where it returned: the permutation was refused, or analysed.
use watts.Prelude.{
  ℕ, ◌≡◌, ◌⊎◌, inl, inr, ap, ◌∙◌, Bool, true, false, Bool-cases, Option, Option-cases, none, some,
  List, Result, Result-cases, Failure, ok, err,
}
use watts.Prelude.Map.{Map}
use watts.Apron.{Apron}
use watts.Interference.{merge_fact_maps}
use watts.Choices.{cur_interf_map}
use watts.Solver.{Solver}
use watts.Explore.{PermCache, Thread, Explored, analyze_with, check_perm, test_cur_perm}

module _ (a : Apron) (t : Thread a) (interfs : Map (List ℕ)) (st_facts : Map (a.Fact)) where
  open a use {Fact}
  open t use {query}

  abbrev pub tested : Explored a → Bool → Option (Result (Explored a × Bool))
  tested next ran = some (ok (next, ran))

  -- A test that returned: the permutation was refused, or analysed.
  pub record Tested (perm : List ℕ) (s next : Explored a) : Type 0 where
    pub cur : Map Fact
    pub chosen : cur_interf_map a perm interfs st_facts ≡ ok cur
    pub middle : Explored a
    pub verdict : Bool
    pub checked : check_perm a t interfs st_facts perm s ≡ ok (middle, verdict)
    pub same_solver : middle.solver ≡ next.solver
    pub same_cache : middle.perm_cache ≡ next.perm_cache
    pub outcome :
        (verdict ≡ true) × (middle.books ≡ next.books)
        ⊎ ((r : Map Fact) × (analyze_with a t cur middle.books ≡ some (ok (r, next.books))))

  pub test-Tested :
      (perm : List ℕ) (s next : Explored a) (ran : Bool)
      → test_cur_perm a t interfs st_facts perm s ≡ tested next ran
      → Tested perm s next
  unfolding test_cur_perm
  test-Tested perm s next ran h = elim (Result-cases (cur_interf_map a perm interfs st_facts)) [
    | inr (x, e) ↦ absurd (failed x (rw (e, test_cur_perm) at h))
    | inl (cur, e) ↦ elim (Result-cases (check_perm a t interfs st_facts perm s)) [
      | inr (x, k) ↦ absurd (failed x (rw (e, k, test_cur_perm) at h))
      | inl ((middle, v), k) ↦ elim (Bool-cases v) [
        | inl y ↦
            let same = state_of middle false (rw (e, k, y, test_cur_perm) at h) in
            record {
              cur = cur;
              chosen = e;
              middle = middle;
              verdict = v;
              checked = k;
              same_solver = ap (λ (x : Explored a). x.solver) same;
              same_cache = ap (λ (x : Explored a). x.perm_cache) same;
              outcome = inl (y, ap (λ (x : Explored a). x.books) same);
            }
        | inr y ↦ elim (Option-cases (analyze_with a t cur middle.books)) [
          | inl q ↦ absurd (ended (rw (e, k, y, q, test_cur_perm) at h))
          | inr (o, q) ↦ elim (Result-cases o) [
            | inr (x, z) ↦ absurd (failed x (rw (e, k, y, q, z, test_cur_perm) at h))
            | inl ((r, b), z) ↦
                let same =
                  state_of (record middle { books = b; res = merge_fact_maps a middle.res r }) true
                    (rw (e, k, y, q, z, test_cur_perm) at h) in
                record {
                  cur = cur;
                  chosen = e;
                  middle = middle;
                  verdict = v;
                  checked = k;
                  same_solver = ap (λ (x : Explored a). x.solver) same;
                  same_cache = ap (λ (x : Explored a). x.perm_cache) same;
                  outcome =
                      inr (r, q ∙ ap some (z ∙ ap (λ (x : Explored a). ok (r, x.books)) same));
                }
          ]
        ]
      ]
    ]
  ]
    where
      failed : (x : Failure) → ¬ (some (err x) ≡ tested next ran)
      failed x h = cc

      ended : ¬ (none ≡ tested next ran)
      ended h = cc

      state_of : (last : Explored a) (v : Bool) → tested last v ≡ tested next ran → last ≡ next
      state_of last v h = cc

  -- What a check of a permutation comes to, for what is known of the solver and the cache, and for
  -- the permutations that happen as far as the solver's numbers tell.
  module _ (Good : Solver → PermCache → Type 0) (Happens : Solver → List ℕ → Type 0) where
    pub record IsChecked (perm : List ℕ) (s next : Explored a) (v : Bool) : Type 0 where
      pub good : Good next.solver next.perm_cache
      pub before : (q : List ℕ) → Happens next.solver q → Happens s.solver q
      pub same_books : s.books ≡ next.books
      pub refused : v ≡ true → ¬ Happens next.solver perm

    abbrev pub Checks : Type 0
    Checks =
        (perm : List ℕ) (s next : Explored a) (v : Bool)
        → Good s.solver s.perm_cache
        → check_perm a t interfs st_facts perm s ≡ ok (next, v)
        → IsChecked perm s next v
