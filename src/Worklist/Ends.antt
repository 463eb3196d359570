-- ===== src/Worklist/Ends.antt =====
-- That the fixpoint loop ends where no block can come back to itself: each block has a weight
-- that is above the sum of the weights of the blocks that its run passes facts on to.
use watts.Prelude.{
  ℕ, zero, suc, ◌+◌, ◌≤◌, ◌≡◌, inl, inr, refl, Option, some, List, [], ◌∷◌, Result, ok, err,
  assertion, arith, Bool-cases, Option-cases, Result-cases,
}
use watts.Prelude.Map.{Map, find, erase, emplace}
use watts.Apron.{Apron}
use watts.Worklist.{init_bbs, merge_one, merge_worklist, fixpoint, analyze_from}

abbrev pub total : {V : Type 0} → (ℕ → ℕ) → List (ℕ × V) → ℕ
total w [] = 0
total w ((k, f) ∷ m) = w k + total w m

module _ {V : Type 0} (w : ℕ → ℕ) where
  total-emplace : (k : ℕ) (f : V) (m : Map V) → total w (emplace k f m) ≤ w k + total w m
  unfolding emplace
  total-emplace k f [] = omega arith
  total-emplace k f ((j, g) ∷ m) = ground (arith, total-emplace k f m)

  total-erase : (k : ℕ) (m : Map V) → total w (erase k m) ≤ total w m
  unfolding erase
  total-erase k [] = omega arith
  total-erase k ((j, g) ∷ m) = ground (arith, total-erase k m)

module _ (a : Apron) (w : ℕ → ℕ) where
  open a use {Fact, join, is_leq, bottom}

  total-merge_one :
      (k : ℕ) (f : Fact) (wl : Map Fact) → total w (merge_one a k f wl) ≤ w k + total w wl
  unfolding merge_one
  total-merge_one k f wl = elim (Option-cases (find k wl)) [
    | inl q ↦ rw (q, merge_one) (total-emplace w k f wl)
    | inr (g, q) ↦
        rw (q, merge_one)
          (omega (arith, total-emplace w k (join g f) (erase k wl), total-erase w k wl))
  ]

  total-merge :
      (wl : Map Fact) (ps : List (ℕ × Fact))
      → total w (merge_worklist a wl ps) ≤ total w ps + total w wl
  unfolding merge_worklist
  total-merge wl [] = omega arith
  total-merge wl ((k, f) ∷ ps) =
      omega (arith, total-merge (merge_one a k f wl) ps, total-merge_one k f wl)

  module _ {B : Type 0} (run : ℕ → Fact → B → Result (List (ℕ × Fact) × B))
      (descends : (k : ℕ) (f : Fact) (b : B) (outs : List (ℕ × Fact)) (b' : B)
        → run k f b ≡ ok (outs, b')
        → suc (total w outs) ≤ w k)
      (heavy : (k : ℕ) → 1 ≤ w k) where
    abbrev Returns : Option (Result (Map Fact × B)) → Type 0
    Returns o = (r : Result (Map Fact × B)) × (o ≡ some r)

    fixpoint-ends :
        (fuel : ℕ) (wl state : Map Fact) (b : B)
        → total w wl ≤ fuel
        → Returns (fixpoint a run fuel wl state b)
    unfolding fixpoint
    fixpoint-ends fuel [] state b h = (ok (state, b), refl)
    fixpoint-ends zero ((k, f) ∷ wl) state b h = absurd (omega (arith, heavy k))
    fixpoint-ends (suc fuel) ((k, f) ∷ wl) state b h = elim (Option-cases (find k state)) [
      | inl q ↦ (err assertion, rw (q, fixpoint) refl)
      | inr (old, q) ↦ elim (Bool-cases (is_leq f old)) [
        | inl le ↦ rw (q, le, fixpoint) (fixpoint-ends fuel wl state b (omega (arith, heavy k)))
        | inr gt ↦ elim (Result-cases (run k f b)) [
          | inr (x, r) ↦ (err x, rw (q, gt, r, fixpoint) refl)
          | inl ((outs, b'), r) ↦
              rw (q, gt, r, fixpoint)
                (fixpoint-ends fuel (merge_worklist a wl outs) (emplace k f (erase k state)) b'
                  (omega (arith, total-merge wl outs, descends k f b outs b' r)))
        ]
      ]
    ]

    -- With as much fuel as the weight of the entry block, the loop ends: it returns or it fails.
    pub analyze_from-ends :
        (fuel : ℕ) (blocks : List ℕ) (entry : ℕ) (f : Fact) (b : B)
        → w entry ≤ fuel
        → (r : Result (Map Fact × B)) × (analyze_from a run fuel blocks entry f b ≡ some r)
    unfolding analyze_from
    analyze_from-ends fuel blocks entry f b h =
        fixpoint-ends fuel ((entry, f) ∷ []) (init_bbs a bottom blocks) b (omega arith)
