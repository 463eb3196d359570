-- ===== src/CartesianProduct/Value.antt =====
-- The permutations as numbers in the mixed base of the sizes: incrementing adds one.
use watts.Prelude.{
  ℕ, zero, suc, ◌+◌, ◌-◌, ◌*◌, ◌≤◌, ◌<◌, ◌≡◌, ◌⊎◌, inl, inr, refl, ap, true, false, Bool-cases, ltb,
  List, [], ◌∷◌, ok, arith,
}
use native.Mathlib.Nat.{mul-le-mul_left, mul-zero}
use watts.CartesianProduct.{zeros, increment_and_test}

abbrev pub value : List ℕ → List ℕ → ℕ
value (p ∷ ps) (s ∷ ss) = p + s * value ps ss
value _ _ = 0

abbrev pub product : List ℕ → ℕ
product [] = 1
product (s ∷ ss) = s * product ss

-- One choice for each row, below the size of the row.
abbrev pub InRange : List ℕ → List ℕ → Type 0
InRange [] [] = Unit
InRange (p ∷ ps) (s ∷ ss) = (p < s) × InRange ps ss
InRange [] (s ∷ ss) = ⊥
InRange (p ∷ ps) [] = ⊥

pub zeros-InRange : (ss : List ℕ) → 1 ≤ product ss → InRange (zeros ss) ss
unfolding zeros
zeros-InRange [] h = tt
zeros-InRange (zero ∷ ss) h = absurd (omega arith)
zeros-InRange (suc s ∷ ss) h = (omega arith, zeros-InRange ss (rest (product ss) h))
  where
    rest : (q : ℕ) → 1 ≤ suc s * q → 1 ≤ q
    rest zero h = omega (arith, mul-zero s)
    rest (suc q) h = omega arith

pub value-zeros : (ss : List ℕ) → value (zeros ss) ss ≡ 0
unfolding zeros
value-zeros [] = refl
value-zeros (s ∷ ss) = rw (value-zeros ss) (omega arith)

-- A place that is not full, or is full and carries.
step_le : (p s v w : ℕ) → p < s → v < w → p + s * v < s * w
step_le p s v w h k = omega (arith, mul-le-mul_left s k)

pub value-lt-product : (ps ss : List ℕ) → InRange ps ss → value ps ss < product ss
value-lt-product [] [] h = omega arith
value-lt-product (p ∷ ps) (s ∷ ss) h =
    step_le p s (value ps ss) (product ss) h.0 (value-lt-product ps ss h.1)
value-lt-product [] (s ∷ ss) h = absurd h
value-lt-product (p ∷ ps) [] h = absurd h

lt_of_step : (s v w : ℕ) → s * v + s < s * w → suc v < w
lt_of_step s v w h = elim (lt_or_ge (suc v) w) [
  | inl lt ↦ lt
  | inr ge ↦ absurd (omega (arith, mul-le-mul_left s ge))
]
  where
    lt_or_ge : (m n : ℕ) → (m < n) ⊎ (n ≤ m)
    lt_or_ge m n = omega arith

-- Incrementing a permutation that is not the last adds one to its number.
pub increment_and_test-value :
    (ps ss : List ℕ)
    → InRange ps ss
    → suc (value ps ss) < product ss
    → (qs : List ℕ) × (increment_and_test ps ss ≡ ok qs)
      × InRange qs ss
      × (value qs ss ≡ suc (value ps ss))
unfolding increment_and_test
increment_and_test-value [] [] r h = absurd (omega arith)
increment_and_test-value [] (s ∷ ss) r h = absurd r
increment_and_test-value (p ∷ ps) [] r h = absurd r
increment_and_test-value (p ∷ ps) (s ∷ ss) r h = elim (Bool-cases (ltb (s - 1) (suc p))) [
  | inl t ↦
      let full : suc p ≡ s = full_of t r.0 in
      let (qs, q, i, v) =
        increment_and_test-value ps ss r.1
          (lt_of_step s (value ps ss) (product ss) (omega arith)) in
      (0 ∷ qs, rw (t, q) refl, (omega arith, i), rw v (omega arith))
  | inr t ↦ (suc p ∷ ps, rw t refl, (room_of t r.0, r.1), omega arith)
]
  where
    full_of : ltb (s - 1) (suc p) ≡ true → p < s → suc p ≡ s
    full_of t h = ground arith

    room_of : ltb (s - 1) (suc p) ≡ false → p < s → suc p < s
    room_of t h = ground arith

-- Two numbers with remainders below `s` are equal in both parts.
same_places : (s p v q w : ℕ) → p < s → q < s → p + s * v ≡ q + s * w → v ≡ w
same_places s p v q w h k e = elim (compare_places v w) [
  | inl lt ↦ absurd (omega (arith, mul-le-mul_left s lt))
  | inr (inl gt) ↦ absurd (omega (arith, mul-le-mul_left s gt))
  | inr (inr same) ↦ same
]
  where
    compare_places : (v w : ℕ) → (v < w) ⊎ ((w < v) ⊎ (v ≡ w))
    compare_places v w = omega arith

-- A permutation is known by its number.
pub value-inj :
    (ps qs ss : List ℕ) → InRange ps ss → InRange qs ss → value ps ss ≡ value qs ss → ps ≡ qs
value-inj [] [] [] r i h = refl
value-inj (p ∷ ps) (q ∷ qs) (s ∷ ss) r i h =
    let rest = same_places s p (value ps ss) q (value qs ss) r.0 i.0 h in
    let first : p ≡ q = omega (arith, ap (λ (v : ℕ). s * v) rest) in
    rw (first, value-inj ps qs ss r.1 i.1 rest) refl
value-inj [] (q ∷ qs) [] r i h = absurd i
value-inj [] (q ∷ qs) (s ∷ ss) r i h = absurd r
value-inj [] [] (s ∷ ss) r i h = absurd r
value-inj (p ∷ ps) qs [] r i h = absurd r
value-inj (p ∷ ps) [] (s ∷ ss) r i h = absurd i
