-- ===== src/ValToStrDb/Texts/Digits.antt =====
-- What the digits of a text say: the number in an identifier is read back.
use watts.Prelude.{
  ℕ, zero, suc, ◌+◌, ◌-◌, ◌*◌, ◌/◌, ◌%◌, ◌≤◌, ◌≡◌, ◌==◌, inl, inr, refl, if◌then◌else◌, ltb,
  Bool-cases, [], ◌∷◌, ◌++◌, arith,
}
use watts.ValToStrDb.Texts.{Text, decimal, to_string, Ty, pointer_to, other_type, stars}

abbrev pub read_decimal : ℕ → Text → ℕ
read_decimal acc [] = acc
read_decimal acc (c ∷ s) = read_decimal (acc * 10 + (c - b'0')) s

-- The number behind the stars.
abbrev pub number_in : Text → ℕ
number_in [] = 0
number_in (c ∷ s) = let rest = number_in s in if c == b'*' then rest else read_decimal 0 (c ∷ s)

read_decimal-append :
    (acc c : ℕ) (s : Text) → read_decimal acc (s ++ (c ∷ [])) ≡ read_decimal acc s * 10 + (c - b'0')
read_decimal-append acc c [] = refl
read_decimal-append acc c (d ∷ s) = read_decimal-append (acc * 10 + (d - b'0')) c s

read_decimal-decimal : (fuel n : ℕ) → n ≤ fuel → read_decimal 0 (decimal fuel n) ≡ n
unfolding decimal
read_decimal-decimal zero n h = omega arith
read_decimal-decimal (suc fuel) n h = elim (Bool-cases (ltb n 10)) [
  | inl b ↦ rw b (ground arith)
  | inr b ↦
      rw
        (
          b,
          read_decimal-append 0 (b'0' + n % 10) (decimal fuel (n / 10)),
          read_decimal-decimal fuel (n / 10) (ground arith),
        )
        (omega arith)
]

abbrev pub IsDigit : ℕ → Type 0
IsDigit c = (b'0' ≤ c) × (c ≤ b'9')

-- A number starts with a digit.
abbrev Starts : Text → Type 0
Starts [] = ⊥
Starts (c ∷ s) = IsDigit c

Starts-append : (s t : Text) → Starts s → Starts (s ++ t)
Starts-append [] t h = absurd h
Starts-append (c ∷ s) t h = h

Starts-decimal : (fuel n : ℕ) → n ≤ fuel → Starts (decimal fuel n)
unfolding decimal
Starts-decimal zero n h = ground arith
Starts-decimal (suc fuel) n h = elim (Bool-cases (ltb n 10)) [
  | inl b ↦ rw b (ground arith)
  | inr b ↦ rw b (
      Starts-append (decimal fuel (n / 10)) ((b'0' + n % 10) ∷ [])
        (Starts-decimal fuel (n / 10) (ground arith)))
]

number_in-digits : (s : Text) → Starts s → number_in s ≡ read_decimal 0 s
number_in-digits [] h = absurd h
number_in-digits (c ∷ s) h = ground arith

pub number_in-id : (t : Ty) (n : ℕ) → number_in (stars t ++ to_string n) ≡ n
unfolding stars to_string
number_in-id other_type n =
    rw (number_in-digits (decimal n n) (Starts-decimal n n (omega arith)))
      (read_decimal-decimal n n (omega arith))
number_in-id (pointer_to t) n = number_in-id t n

-- The last character, which tells an identifier from the text of a constant.
abbrev pub last_of : Text → ℕ
last_of [] = 0
last_of (c ∷ []) = c
last_of (c ∷ d ∷ s) = last_of (d ∷ s)

pub last_of-append : (s : Text) (c : ℕ) (t : Text) → last_of (s ++ (c ∷ t)) ≡ last_of (c ∷ t)
last_of-append [] c t = refl
last_of-append (d ∷ []) c t = refl
last_of-append (d ∷ e ∷ s) c t = last_of-append (e ∷ s) c t

last_of-decimal : (fuel n : ℕ) → n ≤ fuel → IsDigit (last_of (decimal fuel n))
unfolding decimal
last_of-decimal zero n h = ground arith
last_of-decimal (suc fuel) n h = elim (Bool-cases (ltb n 10)) [
  | inl b ↦ rw b (ground arith)
  | inr b ↦ rw (b, last_of-append (decimal fuel (n / 10)) (b'0' + n % 10) []) (ground arith)
]

pub last_of-id : (t : Ty) (n : ℕ) → IsDigit (last_of (stars t ++ to_string n))
unfolding stars to_string
last_of-id other_type n = last_of-decimal n n (omega arith)
last_of-id (pointer_to t) n = after (stars t ++ decimal n n) (last_of-id t n)
  where
    after : (s : Text) → IsDigit (last_of s) → IsDigit (last_of (b'*' ∷ s))
    after [] h = absurd (omega (arith, h.0))
    after (c ∷ s) h = h
