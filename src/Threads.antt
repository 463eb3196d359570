-- ===== src/Threads.antt =====
-- worklist-ai/worklistai.cpp: the tree of threads, `sortByCreation`, `getParents` and
-- `getParentNotRead`. Threads are numbers. The loops take fuel, and are `none` when that is used up.
pub mod Order
pub mod Chain
use watts.Prelude.{
  ℕ, zero, suc, Option, none, some, List, [], ◌∷◌, ◌++◌, Result, ok, err, assertion,
}
use watts.Prelude.Map.{Map, find}

-- The children of a thread; one without an entry has none.
unfoldable pub children_of : Map (List ℕ) → ℕ → List ℕ
unfolding find
children_of parent2child p = elim (find p parent2child) [ none ↦ [] | some cs ↦ cs ]

-- The loop of `sortByCreation` over the threads `to_process`.
unfoldable pub process : ℕ → Map (List ℕ) → List ℕ → List ℕ → Option (List ℕ)
unfolding children_of
process fuel parent2child [] ret = some ret
process zero parent2child (cur ∷ to_process) ret = none
process (suc fuel) parent2child (cur ∷ to_process) ret =
    process fuel parent2child (to_process ++ children_of parent2child cur) (ret ++ (cur ∷ []))

unfoldable pub sort_by_creation : ℕ → ℕ → Map (List ℕ) → Option (Result (List ℕ))
unfolding process
sort_by_creation fuel main parent2child = elim (process fuel parent2child (main ∷ []) []) [
  | none ↦ none
  | some [] ↦ some (err assertion)
  | some (f ∷ ret) ↦ some (ok (f ∷ ret))
]

-- The loop of `getParents`.
unfoldable pub follow : ℕ → Map ℕ → Option ℕ → List ℕ → Option (List ℕ)
unfolding find
follow fuel child2parent none ret = some ret
follow zero child2parent (some parent) ret = none
follow (suc fuel) child2parent (some parent) ret =
    follow fuel child2parent (find parent child2parent) (ret ++ (parent ∷ []))

unfoldable pub get_parents : ℕ → Map ℕ → ℕ → Option (List ℕ)
unfolding follow find
get_parents fuel child2parent child = follow fuel child2parent (find child child2parent) []

-- The stores that the parents cannot read, in the parents' order.
unfoldable pub not_read_of : Map (List ℕ) → List ℕ → List ℕ
unfolding find
not_read_of not_read_from [] = []
not_read_of not_read_from (par ∷ parents) =
    elim (find par not_read_from) [ none ↦ [] | some nr ↦ nr ] ++ not_read_of not_read_from parents

unfoldable pub get_parent_not_read : ℕ → ℕ → Map ℕ → Map (List ℕ) → Option (List ℕ)
unfolding get_parents not_read_of
get_parent_not_read fuel f child2parent not_read_from = elim (get_parents fuel child2parent f) [
  | none ↦ none
  | some parents ↦ some (not_read_of not_read_from parents)
]
