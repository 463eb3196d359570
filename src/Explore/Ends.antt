-- ===== src/Explore/Ends.antt =====
-- That the exploration ends, on a thread whose blocks form no cycle.
use watts.Prelude.{
  if◌then◌else◌, ◌<◌, ℕ, suc, ◌≤◌, ◌≡◌, inl, inr, refl, ◌∙◌, Bool, true, false, Bool-cases, none,
  some, List, [], ◌∷◌, length, Option, Result, Result-cases, ok, err,
}
use watts.Prelude.Map.{Map}
use watts.Apron.{Apron}
use watts.Llvm.{Block}
use watts.BbOps.Transfer.{Books}
use watts.Analysis.Ends.{Descends, analyze_func-ends}
use watts.Interference.{join_interfs, merge_fact_maps}
use watts.CartesianProduct.{zeros}
use watts.CartesianProduct.Value.{product, zeros-InRange}
use watts.CartesianProduct.Visits.{visits_every, product-pos}
use watts.Choices.{choices_per_load, cur_interf_map}
use watts.Explore.{
  Thread, Explored, analyze_with, check_perm, test_cur_perm, counted, with_result, explore_from,
  analyze_thread_interf,
}
use watts.Explore.Reported.{choices-positive}
use watts.Explore.Visited.{run_all, explore-run_all}

-- The fuel was enough.
abbrev Ends {ℓ} : {A : Type ℓ} → Option A → Type ℓ
Ends {A = A} o = (r : A) × (o ≡ some r)

either : {A : Type 0} (b : Bool) {x y : Option A} → Ends x → Ends y → Ends (if b then x else y)
either true p q = p
either false p q = q

module _ (a : Apron) (t : Thread a) where
  open a use {Fact}

  module _ (analysis : (cur : Map Fact) (b : Books a) → Ends (analyze_with a t cur b)) where
    test-Ends :
        (interfs : Map (List ℕ)) (st_facts : Map Fact) (perm : List ℕ) (s : Explored a)
        → Ends (test_cur_perm a t interfs st_facts perm s)
    unfolding test_cur_perm
    test-Ends interfs st_facts perm s =
        elim (Result-cases (cur_interf_map a perm interfs st_facts)) [
          | inr (x, e) ↦ (err x, rw (e, test_cur_perm) refl)
          | inl (cur, e) ↦ elim (Result-cases (check_perm a t interfs st_facts perm s)) [
            | inr (x, k) ↦ (err x, rw (e, k, test_cur_perm) refl)
            | inl ((next, v), k) ↦ elim (Bool-cases v) [
              | inl y ↦ (ok (next, false), rw (e, k, y, test_cur_perm) refl)
              | inr y ↦
                  let (o, q) = analysis cur next.books in
                  elim (Result-cases o) [
                    | inr (x, z) ↦ (err x, rw (e, k, y, q, z, test_cur_perm) refl)
                    | inl ((r, b), z) ↦ (
                      ok (record next { books = b; res = merge_fact_maps a next.res r }, true),
                      rw (e, k, y, q, z, test_cur_perm) refl,
                    )
                  ]
            ]
          ]
        ]

    run_all-Ends :
        (interfs : Map (List ℕ)) (st_facts : Map Fact) (perms : List (List ℕ)) (s : Explored a)
        → Ends (run_all a t interfs st_facts perms s)
    unfolding run_all
    run_all-Ends interfs st_facts [] s = (ok s, refl)
    run_all-Ends interfs st_facts (perm ∷ perms) s =
        let (o, e) = test-Ends interfs st_facts perm s in
        elim (Result-cases o) [
          | inr (x, k) ↦ (err x, rw (e, k, run_all) refl)
          | inl ((next, ran), k) ↦
              let (r, q) =
                run_all-Ends interfs st_facts perms (counted a t interfs st_facts ran next) in
              (r, rw (e, k, run_all) q)
        ]

    with_result-Ends :
        (o : Option (Result (Map Fact × Books a))) (s : Explored a)
        → Ends o
        → Ends (with_result a t o s)
    unfolding with_result
    with_result-Ends none s (r, e) = cc
    with_result-Ends (some (err x)) s h = (err x, refl)
    with_result-Ends (some (ok (r, b))) s h = (ok (record s { books = b; res = r }), refl)

    explore_from-Ends :
        (load : ℕ) (sts : List ℕ) (more : Map (List ℕ)) (st_facts : Map Fact) (s : Explored a)
        → product (choices_per_load ((load, sts) ∷ more)) < 2147483647
        → Ends (
            explore_from a t
              (suc (product (choices_per_load ((load, sts) ∷ more))))
              ((load, sts) ∷ more)
              st_facts
              s)
    unfolding explore_from choices_per_load
    explore_from-Ends load sts more st_facts s fits =
        let interfs : Map (List ℕ) = (load, sts) ∷ more in
        let (cp, perms, made, visited, count, place) =
          visits_every (suc (length sts)) (choices_per_load more) (zeros (choices_per_load interfs))
            (choices-positive interfs) fits
            (zeros-InRange (choices_per_load interfs)
              (product-pos (choices_per_load interfs) (choices-positive interfs))) in
        let begin : Explored a = record s { res = []; count = 1 } in
        let (r, e) = run_all-Ends interfs st_facts perms begin in
        (
          r,
          rw (made, explore_from, choices_per_load)
              (explore-run_all a t interfs st_facts (suc (product (choices_per_load interfs))) cp
                  perms begin visited
                ∙ e),
        )

    joined :
        (interfs : Map (List ℕ)) (st_facts : Map Fact) (s : Explored a) (r : Result (Map Fact))
        → Ends (elim r [
          | err e ↦ some (err e)
          | ok cur ↦ with_result a t (analyze_with a t cur s.books) s
        ])
    joined interfs st_facts s (err e) = (err e, refl)
    joined interfs st_facts s (ok cur) =
        with_result-Ends (analyze_with a t cur s.books) s (analysis cur s.books)

    analyze_thread_interf-Ends :
        (interfs : Map (List ℕ)) (st_facts : Map Fact) (s : Explored a)
        → product (choices_per_load interfs) < 2147483647
        → Ends (
            analyze_thread_interf a t (suc (product (choices_per_load interfs))) interfs st_facts s)
    unfolding analyze_thread_interf
    analyze_thread_interf-Ends [] st_facts s fits =
        with_result-Ends (analyze_with a t [] s.books) s (analysis [] s.books)
    analyze_thread_interf-Ends ((load, sts) ∷ more) st_facts s fits =
        either (t.flags.no_combins)
          (joined ((load, sts) ∷ more) st_facts s (join_interfs a ((load, sts) ∷ more) st_facts))
          (explore_from-Ends load sts more st_facts s fits)

  -- On a thread whose blocks can be given weights, each at least one and more than those of its
  -- successors together, with the weight of the entry block for the fuel of an analysis, and for
  -- choices that number less than the greatest `int`, `analyzeThreadInterf` ends, with or without
  -- interferences, merged or not: its loop needs one round for each choice, and one more.
  pub analyze_thread_interf-ends :
      (weights : ℕ → ℕ) (first : Block) (rest : List Block) (interfs : Map (List ℕ))
      (st_facts : Map Fact) (s : Explored a)
      → ((k : ℕ) → 1 ≤ weights k)
      → Descends weights (first ∷ rest)
      → weights first.id ≤ t.fuel
      → t.blocks ≡ first ∷ rest
      → product (choices_per_load interfs) < 2147483647
      → (r : Result (Explored a)) × (analyze_thread_interf a t
            (suc (product (choices_per_load interfs)))
            interfs
            st_facts
            s
          ≡ some r)
  unfolding analyze_with
  analyze_thread_interf-ends weights first rest interfs st_facts s heavy d enough same fits =
      analyze_thread_interf-Ends
        (λ cur b. rw same (
          analyze_func-ends a t.flags t.ctx cur t.slices weights t.fuel first rest t.entry_fact b
            heavy d enough))
        interfs st_facts s fits
