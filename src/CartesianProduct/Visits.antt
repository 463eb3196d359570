-- ===== src/CartesianProduct/Visits.antt =====
-- That the loop over the permutations ends, and visits every choice exactly once.
use watts.Prelude.{
  ℕ, zero, suc, ◌+◌, ◌-◌, ◌*◌, ◌≤◌, ◌<◌, ◌≡◌, refl, sym, ap, subst, ◌∙◌, true, false, ltb, ◌==◌,
  some, List, [], ◌∷◌, length, get_elem?, All, ok, arith,
}
use native.Mathlib.Nat.{mul_assoc, mul-le-mul, mul-le-mul_left}
use watts.CartesianProduct.{
  CartesianProduct, zeros, multiply, make, at_end, increment, increment_and_test, visits,
}
use watts.CartesianProduct.Value.{
  value, product, InRange, zeros-InRange, value-zeros, value-lt-product, increment_and_test-value,
  value-inj,
}

-- The state in which the given permutation is the `n`-th.
abbrev state : ℕ → List ℕ → List ℕ → CartesianProduct
state n ps ss = record {
  num_permutations_processed = n;
  permutation = ps;
  num_max_permutations = product ss;
  sizes_of_rows = ss;
}

-- The permutations of the numbers from `from` on, each at its place.
abbrev Counts : List (List ℕ) → ℕ → ℕ → List ℕ → Type 0
Counts qs from k ss =
    (length qs ≡ k)
    × ((i : ℕ)
        → i < k
        → (c : List ℕ) × (get_elem? qs i ≡ some c) × InRange c ss × (value c ss ≡ from + i))

module _ (ss : List ℕ) (fits : product ss < 2147483647) where
  visits_end :
      (fuel n : ℕ) (ps : List ℕ) → product ss < n → visits (suc fuel) (state n ps ss) ≡ some (ok [])
  unfolding visits at_end
  visits_end fuel n ps h = rw (over h) refl
    where
      over : product ss < n → ltb (product ss) n ≡ true
      over h = ground arith

  increment_more :
      (n : ℕ) (ps qs : List ℕ)
      → suc n ≤ product ss
      → increment_and_test ps ss ≡ ok qs
      → increment (state n ps ss) ≡ ok (state (suc n) qs ss)
  unfolding increment at_end
  increment_more n ps qs h q = rw (counts h, under h, q) refl
    where
      counts : suc n ≤ product ss → ltb 2147483647 (suc n) ≡ false
      counts h = ground (arith, fits)

      under : suc n ≤ product ss → ltb (product ss) (suc n) ≡ false
      under h = ground arith

  increment_last :
      (ps : List ℕ) → increment (state (product ss) ps ss) ≡ ok (state (suc (product ss)) ps ss)
  unfolding increment at_end
  increment_last ps = rw (counts, over) refl
    where
      counts : ltb 2147483647 (suc (product ss)) ≡ false
      counts = ground (arith, fits)

      over : ltb (product ss) (suc (product ss)) ≡ true
      over = ground arith

  visits_next :
      (fuel n : ℕ) (ps : List ℕ) (next : CartesianProduct) (qs : List (List ℕ))
      → n ≤ product ss
      → increment (state n ps ss) ≡ ok next
      → visits fuel next ≡ some (ok qs)
      → visits (suc fuel) (state n ps ss) ≡ some (ok (ps ∷ qs))
  unfolding visits at_end
  visits_next fuel n ps next qs h p q = rw (under h, p, q) refl
    where
      under : n ≤ product ss → ltb (product ss) n ≡ false
      under h = ground arith

  Counts-next :
      (ps : List ℕ) (qs : List (List ℕ)) (k : ℕ)
      → InRange ps ss
      → Counts qs (suc (value ps ss)) k ss
      → Counts (ps ∷ qs) (value ps ss) (suc k) ss
  Counts-next ps qs k r (len, at) = (ap suc len, place)
    where
      place :
          (i : ℕ)
          → i < suc k
          → (c : List ℕ) × (get_elem? (ps ∷ qs) i ≡ some c)
            × InRange c ss
            × (value c ss ≡ value ps ss + i)
      place zero h = (ps, refl, r, omega arith)
      place (suc i) h = let (c, p, q, v) = at i (omega arith) in (c, p, q, omega (arith, v))

  visits_from :
      (k fuel : ℕ) (ps : List ℕ)
      → InRange ps ss
      → value ps ss + suc k ≡ product ss
      → suc k < fuel
      → (qs : List (List ℕ)) × (visits fuel (state (suc (value ps ss)) ps ss) ≡ some (ok qs))
        × Counts qs (value ps ss) (suc k) ss
  visits_from k zero ps r h lt = absurd (omega arith)
  visits_from k (suc zero) ps r h lt = absurd (omega arith)
  visits_from zero (suc (suc fuel)) ps r h lt =
      let last : suc (value ps ss) ≡ product ss = omega arith in
      (
        ps ∷ [],
        rw last (
            visits_next (suc fuel) (product ss) ps (state (suc (product ss)) ps ss) [] (omega arith)
              (increment_last ps) (visits_end fuel (suc (product ss)) ps (omega arith))),
        Counts-next ps [] 0 r (refl, λ i lt. absurd (omega arith)),
      )
  visits_from (suc k) (suc (suc fuel)) ps r h lt =
      let (next, p, i, v) = increment_and_test-value ps ss r (omega arith) in
      let (qs, q, c) = visits_from k (suc fuel) next i (omega arith) (omega arith) in
      (
        ps ∷ qs,
        visits_next (suc fuel) (suc (value ps ss)) ps (state (suc (suc (value ps ss))) next ss) qs
            (omega arith) (increment_more (suc (value ps ss)) ps next (omega arith) p)
            (subst (λ (m : ℕ). visits (suc fuel) (state (suc m) next ss) ≡ some (ok qs)) v q),
        Counts-next ps qs (suc k) r (subst (λ (m : ℕ). Counts qs m (suc k) ss) v c),
      )

pub product-pos : (ss : List ℕ) → All (λ (s : ℕ). 1 ≤ s) ss → 1 ≤ product ss
product-pos [] h = omega arith
product-pos (s ∷ ss) h = omega (arith, mul-le-mul h.0 (product-pos ss h.1))

multiply-product :
    (acc : ℕ) (ss : List ℕ)
    → All (λ (s : ℕ). 1 ≤ s) ss
    → acc * product ss ≤ 2147483647
    → multiply acc ss ≡ ok (acc * product ss)
unfolding multiply
multiply-product acc [] h fits = ap ok (omega arith)
multiply-product acc (s ∷ ss) h fits =
    let grouped : acc * s * product ss ≡ acc * (s * product ss) = mul_assoc acc s (product ss) in
    let small : acc * s ≤ 2147483647 =
      omega (arith, mul-le-mul_left (acc * s) (product-pos ss h.1)) in
    rw (nonzero h.0, below (acc * s) small, sym grouped)
      (multiply-product (acc * s) ss h.1 (omega arith))
  where
    nonzero : 1 ≤ s → (s == 0) ≡ false
    nonzero h = ground arith

    below : (m : ℕ) → m ≤ 2147483647 → ltb 2147483647 m ≡ false
    below m h = ground arith

-- For rows that are not empty, at least one of them, whose product is below the greatest `int`, the constructor
-- returns, the loop ends, and it visits as many permutations as the product: each has its choices in
-- range, and the permutation at a place has that place as its number; so each choice in range is
-- visited, and nowhere but at its number.
visits-Counts :
    (s : ℕ) (ss : List ℕ)
    → All (λ (r : ℕ). 1 ≤ r) (s ∷ ss)
    → product (s ∷ ss) < 2147483647
    → (cp : CartesianProduct) × (qs : List (List ℕ)) × (make (s ∷ ss) ≡ ok cp)
      × (visits (suc (product (s ∷ ss))) cp ≡ some (ok qs))
      × (length qs ≡ product (s ∷ ss))
      × ((i : ℕ)
          → i < product (s ∷ ss)
          → (c : List ℕ) × (get_elem? qs i ≡ some c) × InRange c (s ∷ ss) × (value c (s ∷ ss) ≡ i))
      × ((c : List ℕ) → InRange c (s ∷ ss) → get_elem? qs (value c (s ∷ ss)) ≡ some c)
unfolding make
visits-Counts s ss h fits =
    let positive = product-pos (s ∷ ss) h in
    let start : List ℕ = zeros (s ∷ ss) in
    let zero_value = value-zeros (s ∷ ss) in
    let (qs, ran, (len, place)) =
      visits_from (s ∷ ss) fits (product (s ∷ ss) - 1) (suc (product (s ∷ ss))) start
        (zeros-InRange (s ∷ ss) positive) (omega arith) (omega arith) in
    (
      state 1 start (s ∷ ss),
      qs,
      rw (made positive) refl,
      subst
          (λ (m : ℕ). visits (suc (product (s ∷ ss))) (state (suc m) start (s ∷ ss)) ≡ some (ok qs))
          zero_value ran,
      omega arith,
      λ i lt. let (c, p, r, v) = place i (omega arith) in (c, p, r, omega arith),
      λ c r. found qs c r place (omega arith),
    )
  where
    made : 1 ≤ product (s ∷ ss) → multiply 1 (s ∷ ss) ≡ ok (product (s ∷ ss))
    made p = multiply-product 1 (s ∷ ss) h (omega arith) ∙ ap ok (omega arith)

    found :
        (qs : List (List ℕ)) (c : List ℕ)
        → InRange c (s ∷ ss)
        → ((i : ℕ)
            → i < suc (product (s ∷ ss) - 1)
            → (d : List ℕ) × (get_elem? qs i ≡ some d)
              × InRange d (s ∷ ss)
              × (value d (s ∷ ss) ≡ value (zeros (s ∷ ss)) (s ∷ ss) + i))
        → 1 ≤ product (s ∷ ss)
        → get_elem? qs (value c (s ∷ ss)) ≡ some c
    found qs c r place positive =
        let (d, p, i, v) =
          place (value c (s ∷ ss)) (omega (arith, value-lt-product c (s ∷ ss) r)) in
        rw (value-inj d c (s ∷ ss) i r (omega (arith, v, value-zeros (s ∷ ss)))) at p

-- For rows that are not empty, at least one of them, whose product is below the greatest `int`, the constructor
-- returns, the loop ends, and it visits as many permutations as the product; a choice in range is
-- visited at the place that is its number.
pub visits_every :
    (s : ℕ) (ss c : List ℕ)
    → All (λ (r : ℕ). 1 ≤ r) (s ∷ ss)
    → product (s ∷ ss) < 2147483647
    → InRange c (s ∷ ss)
    → (cp : CartesianProduct) × (qs : List (List ℕ)) × (make (s ∷ ss) ≡ ok cp)
      × (visits (suc (product (s ∷ ss))) cp ≡ some (ok qs))
      × (length qs ≡ product (s ∷ ss))
      × (get_elem? qs (value c (s ∷ ss)) ≡ some c)
visits_every s ss c h fits r =
    let (cp, qs, m, ran, len, at, found) = visits-Counts s ss h fits in
    (cp, qs, m, ran, len, found c r)

-- Under the conditions of `visits_every`, the permutation at a place has its choices in range and that place as
-- its number, so none is visited twice.
visits_once :
    (s : ℕ) (ss : List ℕ) (i : ℕ)
    → All (λ (r : ℕ). 1 ≤ r) (s ∷ ss)
    → product (s ∷ ss) < 2147483647
    → i < product (s ∷ ss)
    → (cp : CartesianProduct) × (qs : List (List ℕ)) × (c : List ℕ) × (make (s ∷ ss) ≡ ok cp)
      × (visits (suc (product (s ∷ ss))) cp ≡ some (ok qs))
      × (get_elem? qs i ≡ some c)
      × InRange c (s ∷ ss)
      × (value c (s ∷ ss) ≡ i)
visits_once s ss i h fits lt =
    let (cp, qs, m, ran, len, at, found) = visits-Counts s ss h fits in
    let (c, p, r, v) = at i lt in (cp, qs, c, m, ran, p, r, v)
