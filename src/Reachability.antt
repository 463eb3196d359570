-- ===== src/Reachability.antt =====
-- worklist-ai/worklistai.cpp: `forwardDfs`, the blocks that a block reaches, over the successors of
-- each block, which `getSuccsFromBB` reads from LLVM's terminators and which are a parameter. The `while` loop takes fuel, and is `none` when that is used up.
pub mod Paths
pub mod Ends
use watts.Prelude.{ℕ, zero, suc, Bool, true, false, Option, none, some, List, [], ◌∷◌}
use watts.Prelude.Map.{insert, count}

-- `s.insert(s.end(), ...)` on a stack whose top is its back: the last one comes first here.
unfoldable push_all : List ℕ → List ℕ → List ℕ
push_all [] s = s
push_all (x ∷ xs) s = push_all xs (x ∷ s)

module _ (succs : ℕ → List ℕ) where
  dfs : ℕ → List ℕ → List ℕ → List ℕ → Option (List ℕ)
  unfolding push_all
  dfs fuel [] visited reached = some reached
  dfs zero (cur ∷ s) visited reached = none
  dfs (suc fuel) (cur ∷ s) visited reached = elim (count cur visited) [
    | true ↦ dfs fuel s visited reached
    | false ↦ dfs fuel (push_all (succs cur) s) (insert cur visited) (insert cur reached)
  ]

  unfoldable pub forward_dfs : ℕ → ℕ → Option (List ℕ)
  unfolding dfs
  forward_dfs fuel b = dfs fuel (push_all (succs b) []) [] []
