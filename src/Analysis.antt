-- ===== src/Analysis.antt =====
-- worklist-ai/worklistai.cpp: `analyzeFunc`, the fixpoint loop over the blocks of a function with
-- the transfer of bbops.cpp. A function is the list of its blocks; block addresses are their ids.
pub mod Ends
pub mod Sound
pub mod Kept
use watts.Prelude.{
  ℕ, ◌==◌, Bool, if◌then◌else◌, Option, none, some, List, [], ◌∷◌, map, Result, ok, err, assertion,
  exit_failure, or_fail, ◌>>=◌,
}
use watts.Prelude.Map.{Map}
use watts.Apron.{Apron}
use watts.Llvm.{Block, Context}
use watts.BbOps.Transfer.{Flags, Slices, Books, run_transfer_funcs}
use watts.Worklist.{analyze_from}

unfoldable pub block_at : ℕ → List Block → Option Block
block_at k [] = none
block_at k (bb ∷ bbs) = if bb.id == k then some bb else block_at k bbs

module _ (a : Apron) (fl : Flags) (ctx : Context) (interf : Map (a.Fact)) (sl : Slices) where
  open a use {Fact}

  pub run_block : List Block → ℕ → Fact → Books a → Result (List (ℕ × Fact) × Books a)
  run_block bbs k f b = do
    bb ← or_fail (block_at k bbs) assertion
    run_transfer_funcs a fl ctx interf sl bb f b

  -- The entry is the first block; a function without blocks is refused.
  unfoldable pub analyze_func :
      ℕ → List Block → Fact → Books a → Option (Result (Map Fact × Books a))
  unfolding run_block
  analyze_func fuel [] f b = some (err exit_failure)
  analyze_func fuel (bb ∷ bbs) f b =
      analyze_from a (run_block (bb ∷ bbs)) fuel (map (λ (x : Block). x.id) (bb ∷ bbs)) bb.id f b
