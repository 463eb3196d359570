-- ===== src/Solver/Hex/RoundTrip.antt =====
-- The literal of `to_const_bitvec` is read back, and its width is right.
use native.Mathlib.Nat.{pow-le-pow_right, pow-suc}
use watts.Prelude.{
  ℕ, zero, suc, ◌+◌, ◌-◌, ◌*◌, ◌/◌, ◌%◌, ◌^◌, ◌≤◌, ◌<◌, ◌≡◌, ◌∙◌, inl, inr, refl, ap, if◌then◌else◌,
  ltb, Bool-cases, List, [], ◌∷◌, ◌++◌, length, length-append, ok, err, assertion, arith,
}
use watts.Solver.Hex.{digit, hex, fill, padded, to_const_bitvec}

-- The value of a digit, and of the digits of a literal of SMT-LIB.
abbrev pub digit_value : ℕ → ℕ
digit_value c = if ltb c 58 then c - 48 else c - 87

abbrev pub read_digits : ℕ → List ℕ → ℕ
read_digits acc [] = acc
read_digits acc (c ∷ cs) = read_digits (acc * 16 + digit_value c) cs

abbrev pub read_literal : List ℕ → ℕ
read_literal (a ∷ b ∷ cs) = read_digits 0 cs
read_literal _ = 0

digit_value-digit : (d : ℕ) → d < 16 → digit_value (digit d) ≡ d
unfolding digit
digit_value-digit d h = ground arith

read_digits-append :
    (acc c : ℕ) (cs : List ℕ)
    → read_digits acc (cs ++ (c ∷ [])) ≡ read_digits acc cs * 16 + digit_value c
read_digits-append acc c [] = refl
read_digits-append acc c (d ∷ cs) = read_digits-append (acc * 16 + digit_value d) c cs

read_digits-fill : (n : ℕ) (cs : List ℕ) → read_digits 0 (fill n ++ cs) ≡ read_digits 0 cs
unfolding fill
read_digits-fill zero cs = refl
read_digits-fill (suc n) cs = read_digits-fill n cs

read-digit : (i : ℕ) → i < 16 → read_digits 0 (digit i ∷ []) ≡ i
read-digit i h = omega (arith, digit_value-digit i h)

read_digits-hex : (fuel i : ℕ) → i ≤ fuel → read_digits 0 (hex fuel i) ≡ i
unfolding hex
read_digits-hex zero i h = read-digit i (omega arith)
read_digits-hex (suc fuel) i h = elim (Bool-cases (ltb i 16)) [
  | inl b ↦ rw (b) (read-digit i (ground arith))
  | inr b ↦
      rw
        (
          b,
          read_digits-append 0 (digit (i % 16)) (hex fuel (i / 16)),
          read_digits-hex fuel (i / 16) (ground arith),
        )
        (omega (arith, digit_value-digit (i % 16) (omega arith)))
]

length-hex : (fuel i k : ℕ) → i ≤ fuel → i < 16 ^ suc k → length (hex fuel i) ≤ suc k
unfolding hex
length-hex zero i k h l = omega arith
length-hex (suc fuel) i zero h l = ground arith
length-hex (suc fuel) i (suc k) h l = elim (Bool-cases (ltb i 16)) [
  | inl b ↦ rw (b) (omega arith)
  | inr b ↦ rw (b) (
      omega (
        arith,
        length-append (hex fuel (i / 16)) (digit (i % 16) ∷ []),
        length-hex fuel (i / 16) k (ground arith) (omega (arith, pow-suc 16 (suc k))),
      ))
]

sixteen : (k : ℕ) → 16 ^ k ≡ 2 ^ (k * 4)
sixteen zero = refl
sixteen (suc k) = omega (arith, sixteen k, pow-suc 16 k, four (k * 4), next)
  where
    next : 2 ^ (suc k * 4) ≡ 2 ^ (k * 4 + 4)
    next = ap (λ (m : ℕ). 2 ^ m) (omega arith)

    counted : (n : ℕ) → n + 4 ≡ suc (suc (suc (suc n)))
    counted n = omega arith

    four : (n : ℕ) → 2 ^ (n + 4) ≡ 2 ^ n * 16
    four n =
        ap (λ (m : ℕ). 2 ^ m) (counted n)
        ∙ omega (
          arith,
          pow-suc 2 n,
          pow-suc 2 (suc n),
          pow-suc 2 (suc (suc n)),
          pow-suc 2 (suc (suc (suc n))),
        )

length-fill : (n : ℕ) → length (fill n) ≡ n
unfolding fill
length-fill zero = refl
length-fill (suc n) = ap suc (length-fill n)

length-padded : (width : ℕ) (s : List ℕ) → length s ≤ width → length (padded width s) ≡ width
unfolding padded
length-padded width s h =
    omega (arith, length-append (fill (width - length s)) s, length-fill (width - length s))

fits : (i sz : ℕ) → 1 ≤ sz → i < 2 ^ sz → length (hex i i) ≤ (sz + 3) / 4
fits i sz h l =
    let k = (sz + 3) / 4 - 1 in
    omega (
      arith,
      length-hex i i k (omega arith) (
          omega (
            arith,
            sixteen (suc k),
            pow-le-pow_right {n = 2} (omega arith) {i = sz} {j = suc k * 4} (omega arith),
          )),
    )

-- For a width of one bit or more, `to_const_bitvec` returns exactly for the numbers below two to the
-- width, and fails its assertion for others. What it returns has two characters and one for every
-- four bits begun, and read as a hexadecimal literal it is the number.
pub to_const_bitvec_round_trip :
    (i sz : ℕ)
    → 1 ≤ sz
    → (i < 2 ^ sz
        → (s : List ℕ) × (to_const_bitvec i sz ≡ ok s)
          × (length s ≡ 2 + (sz + 3) / 4)
          × (read_literal s ≡ i))
      × (2 ^ sz ≤ i → to_const_bitvec i sz ≡ err assertion)
unfolding to_const_bitvec padded
to_const_bitvec_round_trip i sz h = (
  λ l. (
    35 ∷ 120 ∷ padded ((sz + 3) / 4) (hex i i),
    accepted l,
    ap (λ (n : ℕ). suc (suc n)) (length-padded ((sz + 3) / 4) (hex i i) (fits i sz h l))
        ∙ two ((sz + 3) / 4),
    read_digits-fill ((sz + 3) / 4 - length (hex i i)) (hex i i)
        ∙ read_digits-hex i i (omega arith),
  ),
  λ l. ground arith,
)
  where
    accepted : i < 2 ^ sz → to_const_bitvec i sz ≡ ok (35 ∷ 120 ∷ padded ((sz + 3) / 4) (hex i i))
    accepted l = ground arith

    two : (n : ℕ) → suc (suc n) ≡ 2 + n
    two n = omega arith
