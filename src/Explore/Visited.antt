-- ===== src/Explore/Visited.antt =====
-- The loop over the permutations is a run over those that the odometer visits, in order.
use watts.Prelude.{
  ℕ, zero, suc, ◌≡◌, inl, inr, refl, sym, true, false, Bool-cases, Option, Option-cases, none, some,
  List, [], ◌∷◌, Result, Result-cases, Failure, ok, err,
}
use watts.Prelude.Map.{Map}
use watts.Apron.{Apron}
use watts.CartesianProduct.{CartesianProduct, at_end, increment, visits}
use watts.Explore.{Thread, Explored, test_cur_perm, counted, explore}

module _ (a : Apron) (t : Thread a) (interfs : Map (List ℕ)) (st_facts : Map (a.Fact)) where
  -- The permutations of a list, one after the other.
  unfoldable pub run_all : List (List ℕ) → Explored a → Option (Result (Explored a))
  run_all [] s = some (ok s)
  run_all (perm ∷ perms) s = elim (test_cur_perm a t interfs st_facts perm s) [
    | none ↦ none
    | some (err e) ↦ some (err e)
    | some (ok (next, ran)) ↦ run_all perms (counted a t interfs st_facts ran next)
  ]

  abbrev visited : List (List ℕ) → Option (Result (List (List ℕ)))
  visited perms = some (ok perms)

  -- The first visit, and the others.
  visits_parts :
      (rounds : ℕ) (cp : CartesianProduct) (perms : List (List ℕ))
      → at_end cp ≡ false
      → visits (suc rounds) cp ≡ visited perms
      → (next : CartesianProduct) × (rest : List (List ℕ)) × (increment cp ≡ ok next)
        × (visits rounds next ≡ visited rest)
        × (cp.permutation ∷ rest ≡ perms)
  unfolding visits
  visits_parts rounds cp perms e h = elim (Result-cases (increment cp)) [
    | inr (x, q) ↦ absurd (failed x (rw (e, q, visits) at h))
    | inl (next, q) ↦ elim (Option-cases (visits rounds next)) [
      | inl r ↦ absurd (ended (rw (e, q, r, visits) at h))
      | inr (o, r) ↦ elim (Result-cases o) [
        | inr (x, k) ↦ absurd (failed x (rw (e, q, r, k, visits) at h))
        | inl (rest, k) ↦ (next, rest, q, rw (r, k) refl, same rest (rw (e, q, r, k, visits) at h))
      ]
    ]
  ]
    where
      failed : (x : Failure) → ¬ (some (err x) ≡ visited perms)
      failed x h = cc

      ended : ¬ (none ≡ visited perms)
      ended h = cc

      same :
          (rest : List (List ℕ))
          → visited (cp.permutation ∷ rest) ≡ visited perms
          → cp.permutation ∷ rest ≡ perms
      same rest h = cc

  last_visit :
      (rounds : ℕ) (cp : CartesianProduct) (perms : List (List ℕ))
      → at_end cp ≡ true
      → visits (suc rounds) cp ≡ visited perms
      → [] ≡ perms
  unfolding visits
  last_visit rounds cp perms e h = none_left (rw (e, visits) at h)
    where
      none_left : visited [] ≡ visited perms → [] ≡ perms
      none_left h = cc

  pub explore-run_all :
      (rounds : ℕ) (cp : CartesianProduct) (perms : List (List ℕ)) (s : Explored a)
      → visits rounds cp ≡ some (ok perms)
      → explore a t interfs st_facts rounds cp s ≡ run_all perms s
  unfolding explore run_all visits
  explore-run_all zero cp perms s h = cc
  explore-run_all (suc rounds) cp perms s h = elim (Bool-cases (at_end cp)) [
    | inl e ↦ rw (sym (last_visit rounds cp perms e h), e, explore, run_all) refl
    | inr e ↦
        let (next, rest, q, r, same) = visits_parts rounds cp perms e h in
        elim (Option-cases (test_cur_perm a t interfs st_facts cp.permutation s)) [
          | inl n ↦ rw (sym same, e, n, explore, run_all) refl
          | inr (o, n) ↦ elim (Result-cases o) [
            | inr (x, k) ↦ rw (sym same, e, n, k, explore, run_all) refl
            | inl ((more, ran), k) ↦
                rw (sym same, e, n, k, q, explore, run_all)
                  (explore-run_all rounds next rest (counted a t interfs st_facts ran more) r)
          ]
        ]
  ]
