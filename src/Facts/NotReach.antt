-- ===== src/Facts/NotReach.antt =====
-- `addNotReachableFacts`: the facts that an instruction does not reach another, from the blocks that
-- `forwardDfs` finds. A set of blocks is in the order of their addresses, as the set of the blocks
-- that are reached is.
pub mod Loops
pub mod Sets
pub mod Reached
pub mod Exact
use watts.Prelude.{
  ℕ, ◌≡◌, ◌==◌, ==_iff, ltb, ◌⊎◌, inl, inr, refl, sym, subst, Bool, true, false, if◌then◌else◌, not,
  Bool-cases, Option, none, some, List, [], ◌∷◌, ◌++◌, In, Result, ok, err, assertion, ok-inj,
  ◌>>=◌, >>=-eq-ok, arith,
}
use watts.Prelude.Map.{Map, find, emplace, count}
use watts.Llvm.{Kind, load, store, call, Inst, Block}
use watts.Horn.{not_reach, constant, app2, Rule, implies}
use watts.Constraints.{add_not_reach_rel}
use watts.Reachability.{forward_dfs}
use watts.Reachability.Paths.{Reach, forward_dfs-Reach}
use watts.Solver.{Solver, add_fact2_sz}
use watts.Solver.Numbers.{IsNumbering}
use watts.Solver.Bits.{InBits, Grows, Grows-refl, Grows-trans, InBits-Grows, add_fact2_sz-adds}
use watts.ProgOrder.{z3_bv_size}

unfoldable pub add_not_reach_fact : ℕ → ℕ → Solver → Result Solver
unfolding add_fact2_sz
add_not_reach_fact a b s = add_fact2_sz not_reach a b z3_bv_size s

-- Of the instructions that are no terminators.
unfoldable pub isa_store_load_call_or_term : Kind → Bool
isa_store_load_call_or_term (store v p) = true
isa_store_load_call_or_term (load p) = true
isa_store_load_call_or_term (call c) = true
isa_store_load_call_or_term _ = false

unfoldable pub stores_loads_calls : List Inst → List ℕ
unfolding isa_store_load_call_or_term
stores_loads_calls [] = []
stores_loads_calls (i ∷ body) =
    let rest = stores_loads_calls body in
    if isa_store_load_call_or_term i.kind then i.id ∷ rest else rest

-- The instructions of a block that the two inner loops do not skip.
unfoldable pub not_skipped : Block → List ℕ
unfolding stores_loads_calls
not_skipped b = stores_loads_calls b.body ++ (b.term_id ∷ [])

unfoldable pub insert_block : Block → List Block → List Block
insert_block b [] = b ∷ []
insert_block b (c ∷ s) =
    if c.id == b.id then c ∷ s else if ltb b.id c.id then b ∷ c ∷ s else c ∷ insert_block b s

unfoldable pub get_all_bbs : List Block → List Block
unfolding insert_block
get_all_bbs [] = []
get_all_bbs (b ∷ f) = insert_block b (get_all_bbs f)

-- `set_difference`
unfoldable pub not_in : List Block → List ℕ → List Block
unfolding count
not_in [] reach = []
not_in (b ∷ all_bbs) reach =
    let rest = not_in all_bbs reach in if count b.id reach then rest else b ∷ rest

unfoldable pub add_from : ℕ → List ℕ → Solver → Result Solver
unfolding add_not_reach_fact
add_from bi [] s = ok s
add_from bi (nr ∷ rest) s = do next ← add_not_reach_fact bi nr s; add_from bi rest next

unfoldable pub add_between : List ℕ → List ℕ → Solver → Result Solver
unfolding add_from
add_between [] nrs s = ok s
add_between (bi ∷ rest) nrs s = do next ← add_from bi nrs s; add_between rest nrs next

unfoldable pub add_not_reached : Block → List Block → Solver → Result Solver
unfolding add_between not_skipped
add_not_reached b [] s = ok s
add_not_reached b (nr ∷ rest) s = do
  next ← add_between (not_skipped b) (not_skipped nr) s
  add_not_reached b rest next

unfoldable pub add_not_reach_blocks :
    List Block → Map (List ℕ) → List Block → Solver → Result Solver
unfolding add_not_reached not_in find
add_not_reach_blocks all_bbs reach_map [] s = ok s
add_not_reach_blocks all_bbs reach_map (b ∷ f) s = do
  next ← elim (find b.id reach_map) [
    | none ↦ err assertion
    | some reach ↦ add_not_reached b (not_in all_bbs reach) s
  ]
  add_not_reach_blocks all_bbs reach_map f next

module _ (succs : ℕ → List ℕ) (fuel : ℕ) where
  -- The loop of `getReachability`, with the map so far.
  unfoldable pub reachability_from : List Block → Map (List ℕ) → Option (Map (List ℕ))
  unfolding forward_dfs emplace
  reachability_from [] ret = some ret
  reachability_from (b ∷ f) ret = elim (forward_dfs succs fuel b.id) [
    | none ↦ none
    | some reach ↦ reachability_from f (emplace b.id reach ret)
  ]

  unfoldable pub get_reachability : List Block → Option (Map (List ℕ))
  unfolding reachability_from
  get_reachability f = reachability_from f []

  -- The facts of one function; `none` when the fuel is used up.
  unfoldable pub add_not_reach_function : List Block → Solver → Option (Result Solver)
  unfolding get_reachability get_all_bbs add_not_reach_blocks
  add_not_reach_function f s = elim (get_reachability f) [
    | none ↦ none
    | some reach_map ↦ some (add_not_reach_blocks (get_all_bbs f) reach_map f s)
  ]

  unfoldable pub add_not_reach_functions : List (List Block) → Solver → Option (Result Solver)
  unfolding add_not_reach_function
  add_not_reach_functions [] s = some (ok s)
  add_not_reach_functions (f ∷ m) s = elim (add_not_reach_function f s) [
    | none ↦ none
    | some (err e) ↦ some (err e)
    | some (ok next) ↦ add_not_reach_functions m next
  ]

  unfoldable pub add_not_reachable_facts : List (List Block) → Solver → Option (Result Solver)
  unfolding add_not_reach_rel add_not_reach_functions
  add_not_reachable_facts m s =
      add_not_reach_functions m
        (record { value_cache = s.value_cache; zfp = add_not_reach_rel s.zfp })
