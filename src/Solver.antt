-- ===== src/Solver.antt =====
-- utils/z3_fp_helpers.cpp: the numbers of LLVM values (`getValueBVIDSz` and its cache) and the facts
-- about values. A value is its address, and the cache is a map from addresses.
pub mod Numbers
pub mod Hex
pub mod Width
pub mod Bits
use watts.Prelude.{
  ℕ, ◌%◌, ◌^◌, ◌==◌, ◌&&◌, ◌||◌, Bool, true, false, if◌then◌else◌, ltb, Option, none, some, List,
  [], ◌∷◌, length, Result, ok, err, assertion, exit_failure, ◌>>=◌,
}
use watts.Prelude.Map.{Map, find, emplace}
use watts.Horn.{Rel, Term, constant, Ground, ground2, Fixedpoint, add_fact1, add_fact2}

-- The global `value_cacheG` and the fixed point.
pub record Solver : Type 0 where
  pub value_cache : Map ℕ
  pub zfp : Fixedpoint

-- The guard `ceil(log(id) / log(2)) > bvSize` in doubles. It is exact but for the numbers 2^29 and
-- 2^31, where the quotient comes out above 29 and 31; the logarithm of 0 is below every width.
unfoldable pub exceeds : ℕ → ℕ → Bool
exceeds bv_size id = ltb (2 ^ bv_size) id || (id == 2 ^ bv_size && (bv_size == 29 || bv_size == 31))

-- The number of a value that has none is the size of the cache, as an `unsigned`.
unfoldable pub number_of : ℕ → ℕ → Map ℕ → Result (Map ℕ × ℕ)
unfolding exceeds
number_of bv_size v cache = elim (find v cache) [
  | some id ↦ ok (cache, id)
  | none ↦
      let id = length cache % 2 ^ 32 in
      if exceeds bv_size id then err exit_failure else ok (emplace v id cache, id)
]

-- The width is at most that of an `unsigned`, and `bv_val` keeps the low bits of the number.
unfoldable pub get_value_bvid_sz : ℕ → ℕ → Map ℕ → Result (Map ℕ × ℕ)
unfolding number_of
get_value_bvid_sz bv_size v cache =
    if ltb 32 bv_size
    then err assertion
    else (do (next, id) ← number_of bv_size v cache; ok (next, id % 2 ^ bv_size))

unfoldable pub add_fact2_sz : Rel → ℕ → ℕ → ℕ → Solver → Result Solver
unfolding get_value_bvid_sz add_fact2
add_fact2_sz fd v1 v2 bv_size s = do
  (one, i) ← get_value_bvid_sz bv_size v1 s.value_cache
  (two, j) ← get_value_bvid_sz bv_size v2 one
  ok (record { value_cache = two; zfp = add_fact2 fd (constant i) (constant j) s.zfp })

unfoldable pub add_fact1_sz : Rel → ℕ → ℕ → Solver → Result Solver
unfolding get_value_bvid_sz add_fact1
add_fact1_sz fd v bv_size s = do
  (one, i) ← get_value_bvid_sz bv_size v s.value_cache
  ok (record { value_cache = one; zfp = add_fact1 fd (constant i) s.zfp })
