-- ===== src/Solver/Hex.antt =====
-- utils/z3_fp_helpers.cpp: `to_const_bitvec`, a number as a hexadecimal literal. Characters are their
-- codes in ASCII.
pub mod RoundTrip
use watts.Prelude.{
  ℕ, zero, suc, ◌+◌, ◌-◌, ◌/◌, ◌%◌, ◌^◌, Bool, true, false, if◌then◌else◌, ltb, List, [], ◌∷◌, ◌++◌,
  length, Result, ok, err, assertion,
}

unfoldable pub digit : ℕ → ℕ
digit d = if ltb d 10 then 48 + d else 87 + d

-- `std::hex`, whose fuel is the number itself.
unfoldable pub hex : ℕ → ℕ → List ℕ
unfolding digit
hex zero i = digit i ∷ []
hex (suc fuel) i =
    let rest = hex fuel (i / 16) in if ltb i 16 then digit i ∷ [] else rest ++ (digit (i % 16) ∷ [])

-- `std::setfill('0')` and `std::setw(width)`
unfoldable pub fill : ℕ → List ℕ
fill zero = []
fill (suc n) = 48 ∷ fill n

unfoldable pub padded : ℕ → List ℕ → List ℕ
unfolding fill
padded width s = fill (width - length s) ++ s

unfoldable pub to_const_bitvec : ℕ → ℕ → Result (List ℕ)
unfolding hex padded
to_const_bitvec i sz =
    let num_nibbles = (sz + 3) / 4 in
    if ltb i (2 ^ sz) then ok (35 ∷ 120 ∷ padded num_nibbles (hex i i)) else err assertion
