-- ===== src/Examples/Numbers.antt =====
-- The numbers of values in the solver, at concrete inputs.
use watts.Prelude.{ℕ, ◌%◌, ◌^◌, ◌≡◌, refl, List, [], ◌∷◌, ok, err, assertion, length, ◌<◌, arith}
use watts.Prelude.Map.{Map, find, emplace}
use watts.Solver.{get_value_bvid_sz}
use watts.Solver.Hex.{to_const_bitvec}
use watts.Solver.Hex.RoundTrip.{read_literal, to_const_bitvec_round_trip}
use watts.Prelude.{◌≤◌, ◌+◌, ◌/◌}
use watts.Solver.Numbers.{IsNumbering, IsNumbering-IsApart, Numbered}
use watts.Solver.Width.{
  get_value_bvid_sz-Numbered, get_value_bvid_sz-distinct, get_value_bvid_sz-wraps,
}

-- Values 40 and 50 have the numbers 0 and 1, of a width of one bit.
abbrev two_numbers : Map ℕ
two_numbers = (40, 0) ∷ (50, 1) ∷ []

two_numbers-IsNumbering : IsNumbering two_numbers
unfolding find
two_numbers-IsNumbering = record {
  bounded = λ v i h. ground arith;
  distinct = λ v w i g h. ground arith;
  room = omega arith;
}

get_value_bvid_sz-Numbered_example :
    (id : ℕ) × IsNumbering ((40, 0) ∷ (45, 2) ∷ (50, 1) ∷ [])
    × Numbered 45 two_numbers ((40, 0) ∷ (45, 2) ∷ (50, 1) ∷ []) id
    × (0 ≡ id % 2 ^ 1)
unfolding get_value_bvid_sz find emplace
get_value_bvid_sz-Numbered_example =
    get_value_bvid_sz-Numbered 1 45 two_numbers ((40, 0) ∷ (45, 2) ∷ (50, 1) ∷ []) 0 (omega arith)
      two_numbers-IsNumbering refl

get_value_bvid_sz-distinct_example : ◌≡◌ {A = ℕ} 50 50
unfolding get_value_bvid_sz find emplace
get_value_bvid_sz-distinct_example =
    get_value_bvid_sz-distinct 1 50 50 two_numbers two_numbers two_numbers 1 1
      (IsNumbering-IsApart two_numbers two_numbers-IsNumbering) refl refl (omega arith) refl

get_value_bvid_sz-wraps_example :
    (next : Map ℕ) × (get_value_bvid_sz 1 45 two_numbers ≡ ok (next, 0))
    × (get_value_bvid_sz 1 40 next ≡ ok (next, 0))
unfolding find
get_value_bvid_sz-wraps_example =
    get_value_bvid_sz-wraps 1 45 40 two_numbers (omega arith) (λ e. omega arith) (λ e. omega arith)
      (IsNumbering-IsApart two_numbers two_numbers-IsNumbering) refl refl refl

to_const_bitvec_round_trip_example :
    (45 < 2 ^ 16
      → (s : List ℕ) × (to_const_bitvec 45 16 ≡ ok s)
        × (length s ≡ 2 + (16 + 3) / 4)
        × (read_literal s ≡ 45))
    × (2 ^ 16 ≤ 45 → to_const_bitvec 45 16 ≡ err assertion)
to_const_bitvec_round_trip_example = to_const_bitvec_round_trip 45 16 (omega arith)
