-- ===== src/Interference.antt =====
-- worklist-ai/worklistai.cpp: the maps of facts of the thread-modular iteration, `mergeFactMaps` and
-- `joinInterfs`. A load that no store interferes with fails an assertion of the latter.
pub mod Sound
pub mod Stores
use watts.Prelude.{
  ℕ, ◌==◌, Bool, true, false, if◌then◌else◌, Option, none, some, List, [], ◌∷◌, Result, ok, err,
  assertion, ◌>>=◌,
}
use watts.Prelude.Map.{Map, find, erase, emplace}
use watts.Apron.{Apron}
use watts.Llvm.Const.{map_at}

module _ (a : Apron) where
  open a use {Fact, join}

  -- One round of the loop of `mergeFactMaps`.
  unfoldable merge_fact : ℕ → Fact → Map Fact → Map Fact
  merge_fact b f ret = elim (find b ret) [
    | none ↦ emplace b f ret
    | some other ↦ emplace b (join f other) (erase b ret)
  ]

  unfoldable pub merge_fact_maps : Map Fact → Map Fact → Map Fact
  unfolding merge_fact
  merge_fact_maps m₁ [] = m₁
  merge_fact_maps m₁ ((b, f) ∷ m₂) = merge_fact_maps (merge_fact b f m₁) m₂

  -- The facts of the stores after the first, joined to that of the first.
  join_stores : Map Fact → Fact → List ℕ → Result Fact
  join_stores facts f [] = ok f
  join_stores facts f (s ∷ ss) = do g ← map_at (find s facts); join_stores facts (join f g) ss

  join_load : Map Fact → List ℕ → Result Fact
  unfolding join_stores
  join_load facts [] = err assertion
  join_load facts (s ∷ ss) = do f ← map_at (find s facts); join_stores facts f ss

  -- A load that is met twice fails an assertion.
  put_load : ℕ → Fact → Map Fact → Result (Map Fact)
  put_load l f joined = elim (find l joined) [
    | none ↦ ok (emplace l f joined)
    | some g ↦ err assertion
  ]

  join_from : Map Fact → Map (List ℕ) → Map Fact → Result (Map Fact)
  unfolding join_load put_load
  join_from facts [] joined = ok joined
  join_from facts ((l, ss) ∷ loads) joined = do
    f ← join_load facts ss
    next ← put_load l f joined
    join_from facts loads next

  unfoldable pub join_interfs : Map (List ℕ) → Map Fact → Result (Map Fact)
  unfolding join_from
  join_interfs loads facts = join_from facts loads []
