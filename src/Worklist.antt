-- ===== src/Worklist.antt =====
-- worklist-ai/worklistai.cpp: `initBBs`, `merge_worklist` and the fixpoint loop of `analyzeFunc`.
-- The loop runs over the transfer of a block, a parameter here; `Analysis` puts in that of
-- bbops.cpp. The `while` loop takes fuel, and is `none` when it is used up.
pub mod Pending
pub mod Coverage
pub mod Ends
pub mod Keeps
use watts.Prelude.{
  ℕ, zero, suc, ◌==◌, Bool, true, false, if◌then◌else◌, Option, some, none, List, [], ◌∷◌, Result,
  ok, err, assertion, ◌>>=◌, or_fail,
}
use watts.Prelude.Map.{Map, find, erase, emplace}
use watts.Apron.{Apron}

module _ (a : Apron) where
  open a use {Fact, join, is_leq, bottom}

  -- Every block starts at the given fact.
  unfoldable pub init_bbs : Fact → List ℕ → Map Fact
  init_bbs f [] = []
  init_bbs f (b ∷ bs) = emplace b f (init_bbs f bs)

  unfoldable pub merge_one : ℕ → Fact → Map Fact → Map Fact
  merge_one k f wl = elim (find k wl) [
    | none ↦ emplace k f wl
    | some g ↦ emplace k (join g f) (erase k wl)
  ]

  unfoldable pub merge_worklist : Map Fact → List (ℕ × Fact) → Map Fact
  unfolding merge_one
  merge_worklist wl [] = wl
  merge_worklist wl ((k, f) ∷ ps) = merge_worklist (merge_one k f wl) ps

  module _ {B : Type 0} (run : ℕ → Fact → B → Result (List (ℕ × Fact) × B)) where
    -- The loop takes the first block of the worklist. A fact that the state has already is dropped;
    -- any other replaces the old one, and the block is run on it.
    unfoldable pub fixpoint : ℕ → Map Fact → Map Fact → B → Option (Result (Map Fact × B))
    unfolding merge_worklist
    fixpoint fuel [] state b = some (ok (state, b))
    fixpoint zero ((k, f) ∷ wl) state b = none
    fixpoint (suc fuel) ((k, f) ∷ wl) state b = elim (find k state) [
      | none ↦ some (err assertion)
      | some old ↦ elim (is_leq f old) [
        | true ↦ fixpoint fuel wl state b
        | false ↦ elim (run k f b) [
          | err e ↦ some (err e)
          | ok (outs, b') ↦ fixpoint fuel (merge_worklist wl outs) (emplace k f (erase k state)) b'
        ]
      ]
    ]

    -- The start: the entry block with the fact at the entry, all blocks at bottom.
    unfoldable pub analyze_from : ℕ → List ℕ → ℕ → Fact → B → Option (Result (Map Fact × B))
    unfolding fixpoint init_bbs
    analyze_from fuel blocks entry f b = fixpoint fuel ((entry, f) ∷ []) (init_bbs bottom blocks) b
