-- ===== src/CartesianProduct.antt =====
-- worklist-ai/cartesianprod.h: the odometer over the choices of the loads, and the loop of
-- `analyzeThreadInterf` in worklist-ai/worklistai.cpp that runs it. Rows and sizes are not negative
-- there; the product of the sizes and the count of the permutations are `int`s, whose overflow C++ leaves undefined.
pub mod Value
pub mod Visits
use watts.Prelude.{
  ℕ, zero, suc, ◌+◌, ◌-◌, ◌*◌, ◌==◌, ltb, if◌then◌else◌, Bool, true, false, Option, none, some,
  List, [], ◌∷◌, length, Result, ok, err, assertion, undefined, ◌>>=◌,
}

pub record CartesianProduct : Type 0 where
  pub num_permutations_processed : ℕ
  pub permutation : List ℕ
  pub num_max_permutations : ℕ
  pub sizes_of_rows : List ℕ

-- The zeros that `ZeroOutPermutation` pushes.
unfoldable pub zeros : List ℕ → List ℕ
zeros [] = []
zeros (s ∷ ss) = 0 ∷ zeros ss

-- The product of the sizes, in the constructor's loop.
unfoldable multiply : ℕ → List ℕ → Result ℕ
multiply acc [] = ok acc
multiply acc (s ∷ ss) =
    if s == 0
    then err assertion
    else if ltb 2147483647 (acc * s)
    then err undefined
    else multiply (acc * s) ss

-- The constructor.
unfoldable pub make : List ℕ → Result CartesianProduct
unfolding zeros multiply
make [] = err assertion
make (s ∷ ss) = do
  m ← multiply 1 (s ∷ ss)
  ok (record {
    num_permutations_processed = 1;
    permutation = zeros (s ∷ ss);
    num_max_permutations = m;
    sizes_of_rows = s ∷ ss;
  })

unfoldable has_next : CartesianProduct → Bool
has_next cp = if cp.num_permutations_processed == cp.num_max_permutations then false else true

unfoldable pub at_end : CartesianProduct → Bool
at_end cp = ltb cp.num_max_permutations cp.num_permutations_processed

-- From the row that is incremented on; past the last row the vector is indexed out of range.
unfoldable pub increment_and_test : List ℕ → List ℕ → Result (List ℕ)
increment_and_test (p ∷ ps) (s ∷ ss) =
    if ltb (s - 1) (suc p)
    then (increment_and_test ps ss >>= λ qs. ok (0 ∷ qs))
    else ok (suc p ∷ ps)
increment_and_test _ _ = err undefined

unfoldable pub increment : CartesianProduct → Result CartesianProduct
unfolding at_end increment_and_test
increment cp =
    let next = record cp { num_permutations_processed = suc cp.num_permutations_processed } in
    if ltb 2147483647 (suc cp.num_permutations_processed)
    then err undefined
    else if at_end next
    then ok next
    else (increment_and_test cp.permutation cp.sizes_of_rows >>= λ ps.
        ok (record next { permutation = ps }))

-- What the loop tests, in order: `for (; !cp.AtEnd(); cp.Increment())`, on fuel.
unfoldable pub visits : ℕ → CartesianProduct → Option (Result (List (List ℕ)))
unfolding at_end increment
visits zero cp = none
visits (suc fuel) cp = if at_end cp then some (ok []) else elim (increment cp) [
  | err e ↦ some (err e)
  | ok next ↦ elim (visits fuel next) [
    | none ↦ none
    | some (err e) ↦ some (err e)
    | some (ok ps) ↦ some (ok (cp.permutation ∷ ps))
  ]
]
