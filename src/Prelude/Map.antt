-- ===== src/Prelude/Map.antt =====
-- `std::map` with pointer keys: entries in ascending order of their keys, which are numbers.
use mathlib.Core.Path.{◌≡◌, refl}
use mathlib.Core.List.{List, [], ◌∷◌}
use mathlib.Core.Logic.{◌⊎◌, inl, inr}
use mathlib.Core.Bool.{Bool, false, ◌||◌}
use mathlib.Core.Option.{Option, none, some}
use native.Mathlib.Omega.{arith}
use Prim.Native.Nat.{ℕ, suc}
use watts.Prelude.Lists.{length, In}
use watts.Prelude.Tests.{Bool-cases, ==_iff, ◌==◌, ltb, if◌then◌else◌}

abbrev pub Map {ℓ} : Type ℓ → Type ℓ
Map V = List (ℕ × V)

module _ {ℓ} {V : Type ℓ} where
  -- `m.find(k)`, with `none` for `m.end()`
  unfoldable pub find : ℕ → Map V → Option V
  find k [] = none
  find k ((j, v) ∷ m) = if j == k then some v else find k m

  unfoldable pub erase : ℕ → Map V → Map V
  erase k [] = []
  erase k ((j, v) ∷ m) = if j == k then erase k m else (j, v) ∷ erase k m

  -- `m.emplace(k, v)` leaves an entry that is there
  unfoldable pub emplace : ℕ → V → Map V → Map V
  emplace k v [] = (k, v) ∷ []
  emplace k v ((j, w) ∷ m) =
      if j == k then (j, w) ∷ m else if ltb k j then (k, v) ∷ (j, w) ∷ m else (j, w) ∷ emplace k v m

  -- `m[k] = v`
  unfoldable pub assign : ℕ → V → Map V → Map V
  assign k v [] = (k, v) ∷ []
  assign k v ((j, w) ∷ m) =
      if j == k then (j, v) ∷ m else if ltb k j then (k, v) ∷ (j, w) ∷ m else (j, w) ∷ assign k v m

  pub find-assign :
      (k j : ℕ) (v : V) (m : Map V) → find j (assign k v m) ≡ (if k == j then some v else find j m)
  unfolding find assign
  find-assign k j v [] = refl
  find-assign k j v ((i, w) ∷ m) = ground (arith, find-assign k j v m)

  pub length-assign :
      (k : ℕ) (v : V) (m : Map V) → find k m ≡ none → length (assign k v m) ≡ suc (length m)
  unfolding find assign
  length-assign k v [] h = refl
  length-assign k v ((j, w) ∷ m) h = ground (arith, length-assign k v m)

  pub find-erase : (k j : ℕ) (m : Map V) → find j (erase k m) ≡ (if k == j then none else find j m)
  unfolding find erase
  find-erase k j [] = ground arith
  find-erase k j ((i, v) ∷ m) = ground (arith, find-erase k j m)

  pub find-emplace :
      (k j : ℕ) (v : V) (m : Map V)
      → find k m ≡ none
      → find j (emplace k v m) ≡ (if k == j then some v else find j m)
  unfolding find emplace
  find-emplace k j v [] h = refl
  find-emplace k j v ((i, w) ∷ m) h = ground (arith, find-emplace k j v m)

  -- What is found after an `emplace` is the new value or was there before.
  pub find-emplace_cases :
      (k j : ℕ) (v w : V) (m : Map V)
      → find j (emplace k v m) ≡ some w
      → (w ≡ v) ⊎ (find j m ≡ some w)
  unfolding find emplace
  find-emplace_cases k j v w [] h = ground arith
  find-emplace_cases k j v w ((i, u) ∷ m) h = ground (arith, find-emplace_cases k j v w m)

module _ {V : Type 0} where
  -- No key has two entries.
  abbrev pub IsMap : Map V → Type 0
  IsMap m = (k : ℕ) (v : V) → In (k, v) m → find k m ≡ some v

  pub In-assign :
      (k j : ℕ) (v w : V) (m : Map V) → In (j, w) (assign k v m) → ((k ≡ j) × (v ≡ w)) ⊎ In (j, w) m
  unfolding assign
  In-assign k j v w [] (inl e) = inl (cc, cc)
  In-assign k j v w [] (inr x) = absurd x
  In-assign k j v w ((i, u) ∷ m) x = elim (Bool-cases (i == k)) [
    | inl b ↦ elim (rw (b, assign) at x) [
      | inl e ↦ inl (ground (arith, ==_iff i k), cc)
      | inr y ↦ inr (inr y)
    ]
    | inr b ↦ elim (Bool-cases (ltb k i)) [
      | inl c ↦ elim (rw (b, c, assign) at x) [ inl e ↦ inl (cc, cc) | inr y ↦ inr y ]
      | inr c ↦ elim (rw (b, c, assign) at x) [
        | inl e ↦ inr (inl e)
        | inr y ↦ elim (In-assign k j v w m y) [ inl z ↦ inl z | inr z ↦ inr (inr z) ]
      ]
    ]
  ]

  pub assign-IsMap : (k : ℕ) (v : V) (m : Map V) → find k m ≡ none → IsMap m → IsMap (assign k v m)
  assign-IsMap k v m h x j w i = elim (In-assign k j v w m i) [
    | inl (p, q) ↦ ground (arith, find-assign k j v m, ==_iff k j)
    | inr y ↦ ground (arith, find-assign k j v m, ==_iff k j, x j w y)
  ]

-- `std::set` of pointers, in ascending order.
unfoldable pub insert : ℕ → List ℕ → List ℕ
insert k [] = k ∷ []
insert k (j ∷ s) = if j == k then j ∷ s else if ltb k j then k ∷ j ∷ s else j ∷ insert k s

-- `s.count(k)`
unfoldable pub count : ℕ → List ℕ → Bool
count k [] = false
count k (j ∷ s) = (j == k) || count k s

pub count-insert : (k j : ℕ) (s : List ℕ) → count j (insert k s) ≡ (k == j) || count j s
unfolding count insert
count-insert k j [] = refl
count-insert k j (i ∷ s) = ground (arith, count-insert k j s)
