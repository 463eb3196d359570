-- ===== src/Facts.antt =====
-- worklist-ai/worklistai.cpp: the facts for the ordering constraints, read off the instructions of
-- the threads. `address` is the address of a value, and `dom_children` the blocks that LLVM's
-- dominator tree puts below a block, `none` for a block that is not in the tree.
pub mod Chain
pub mod Create
pub mod NotReach
use watts.Prelude.{
  ℕ, Bool, true, false, if◌then◌else◌, Option, none, some, List, [], ◌∷◌, ◌++◌, Result, ok, err,
  undefined, assertion, ◌>>=◌, ◌==◌, not,
}
use watts.Llvm.{
  Value, Kind, load, store, call, atomic_rmw, atomic_cmpxchg, mfence, msync, mlwsync, Inst, Block,
}
use watts.Horn.{ld, dom, fence, mhb, not_rf, bound, constant, app2, Rule, implies, add_rule}
use watts.Constraints.{add_dom_rel, add_load_store_rels, add_fence_rel, add_lw_sync_rel}
use watts.Solver.{Solver, get_value_bvid_sz, add_fact1_sz, add_fact2_sz}
use watts.ProgOrder.{z3_bv_size, is_some_load}

unfoldable pub add_dom_fact : ℕ → ℕ → Solver → Result Solver
unfolding add_fact2_sz
add_dom_fact a b s = add_fact2_sz dom a b z3_bv_size s

unfoldable pub add_load_fact : ℕ → ℕ → Solver → Result Solver
unfolding add_fact2_sz
add_load_fact l v s = add_fact2_sz ld l v z3_bv_size s

unfoldable pub add_store_fact : ℕ → ℕ → Solver → Result Solver
unfolding add_fact2_sz
add_store_fact i v s = add_fact2_sz watts.Horn.st i v z3_bv_size s

unfoldable pub add_fence_fact : ℕ → Solver → Result Solver
unfolding add_fact1_sz
add_fence_fact f s = add_fact1_sz fence f z3_bv_size s

-- A load, a store or a call.
unfoldable pub is_load_store_call : Kind → Bool
is_load_store_call (load p) = true
is_load_store_call (store v p) = true
is_load_store_call (call c) = true
is_load_store_call _ = false

unfoldable pub get_load_store_call_ordered : List Inst → List ℕ
unfolding is_load_store_call
get_load_store_call_ordered [] = []
get_load_store_call_ordered (i ∷ body) =
    let rest = get_load_store_call_ordered body in
    if is_load_store_call i.kind then i.id ∷ rest else rest

unfoldable pub first_of : List Inst → ℕ → ℕ
unfolding is_load_store_call
first_of [] term = term
first_of (i ∷ body) term = if is_load_store_call i.kind then i.id else first_of body term

unfoldable pub get_first_load_store_call_term : Block → ℕ
unfolding first_of
get_first_load_store_call_term b = first_of b.body b.term_id

-- The first instruction of a block.
unfoldable pub front : Block → ℕ
front b = elim b.body [ [] ↦ b.term_id | i ∷ body ↦ i.id ]

-- The loop of `addInternalDomFacts`, with the instruction before.
unfoldable pub add_chain : ℕ → List ℕ → Solver → Result Solver
unfolding add_dom_fact
add_chain prev [] s = ok s
add_chain prev (cur ∷ rest) s = do next ← add_dom_fact prev cur s; add_chain cur rest next

-- The loads, stores and calls of a block in order, and its terminator.
unfoldable pub loads_n_stores : Block → List ℕ
unfolding get_load_store_call_ordered
loads_n_stores b = get_load_store_call_ordered b.body ++ (b.term_id ∷ [])

unfoldable pub add_internal_dom_facts : Block → Solver → Result Solver
unfolding loads_n_stores add_chain
add_internal_dom_facts b s = elim (loads_n_stores b) [
  | [] ↦ ok s
  | first ∷ rest ↦ add_chain first rest s
]

unfoldable pub is_fence : Kind → Bool
is_fence (call mfence) = true
is_fence (call msync) = true
is_fence (call _) = false
is_fence (atomic_rmw o p v) = true
is_fence (atomic_cmpxchg p) = true
is_fence _ = false

unfoldable pub is_lw_sync : Kind → Bool
is_lw_sync (call mlwsync) = true
is_lw_sync _ = false

-- An instruction that is a fence and one that is an lwsync both give a fence fact.
unfoldable pub add_fence_body : List Inst → Solver → Result Solver
unfolding is_fence is_lw_sync add_fence_fact
add_fence_body [] s = ok s
add_fence_body (i ∷ body) s = do
  one ← (if is_fence i.kind then add_fence_fact i.id s else ok s)
  two ← (if is_lw_sync i.kind then add_fence_fact i.id one else ok one)
  add_fence_body body two

unfoldable pub add_fence_blocks : List Block → Solver → Result Solver
unfolding add_fence_body
add_fence_blocks [] s = ok s
add_fence_blocks (b ∷ blocks) s = do next ← add_fence_body b.body s; add_fence_blocks blocks next

unfoldable pub add_fence_threads : List (List Block) → Solver → Result Solver
unfolding add_fence_blocks
add_fence_threads [] s = ok s
add_fence_threads (f ∷ thread_funcs) s = do
  next ← add_fence_blocks f s
  add_fence_threads thread_funcs next

unfoldable pub add_fence_facts : List (List Block) → Solver → Result Solver
unfolding add_fence_rel add_lw_sync_rel add_fence_threads
add_fence_facts thread_funcs s =
    add_fence_threads thread_funcs
      (record { value_cache = s.value_cache; zfp = add_lw_sync_rel (add_fence_rel s.zfp) })

-- The rule on the stores before a thread is created, for the call `ci` and the load `l`.
abbrev pub create_rule : ℕ → ℕ → Rule
create_rule ci l =
    implies (app2 watts.Horn.st (bound 0) (bound 1) ∷ app2 mhb (bound 0) (constant ci) ∷ [])
      (app2 not_rf (bound 0) (constant l))

module _ (kind_of : ℕ → Kind) where
  unfoldable pub add_store_create_load_fact : ℕ → ℕ → Solver → Result Solver
  unfolding is_some_load get_value_bvid_sz add_rule
  add_store_create_load_fact ci l s =
      if is_some_load (kind_of l)
      then (do
        (one, i) ← get_value_bvid_sz z3_bv_size ci s.value_cache
        (two, j) ← get_value_bvid_sz z3_bv_size l one
        ok (record { value_cache = two; zfp = add_rule (create_rule i j) s.zfp }))
      else err assertion

  unfoldable pub add_create_store_load_facts : ℕ → List ℕ → Solver → Result Solver
  unfolding add_store_create_load_fact
  add_create_store_load_facts ci [] s = ok s
  add_create_store_load_facts ci (l ∷ lds) s = do
    next ← add_store_create_load_fact ci l s
    add_create_store_load_facts ci lds next

module _ (address : Value → ℕ) where
  unfoldable pub add_load_store_facts : List Inst → Solver → Result Solver
  unfolding add_load_fact add_store_fact
  add_load_store_facts [] s = ok s
  add_load_store_facts (i ∷ body) s = do
    next ← elim i.kind [
      | load p ↦ add_load_fact i.id (address p) s
      | store v p ↦ add_store_fact i.id (address p) s
      | _ ↦ ok s
    ]
    add_load_store_facts body next

  module _ (dom_children : ℕ → Option (List Block)) where
    unfoldable pub add_children : ℕ → List Block → Solver → Result Solver
    unfolding add_dom_fact get_first_load_store_call_term
    add_children from [] s = ok s
    add_children from (c ∷ children) s = do
      next ← add_dom_fact from (get_first_load_store_call_term c) s
      add_children from children next

    unfoldable pub add_blocks : List Block → Solver → Result Solver
    unfolding add_internal_dom_facts add_load_store_facts add_children
    add_blocks [] s = ok s
    add_blocks (b ∷ blocks) s = do
      one ← add_internal_dom_facts b s
      two ← add_load_store_facts b.body one
      three ← elim (dom_children b.id) [
        | none ↦ ok two
        | some children ↦ add_children b.term_id children two
      ]
      add_blocks blocks three

    -- The first instruction of a thread, and the first one that matters.
    unfoldable pub add_entry : Block → Solver → Result Solver
    unfolding add_dom_fact get_first_load_store_call_term front
    add_entry b s =
        let first = front b in
        let lst = get_first_load_store_call_term b in
        if not (first == lst) then add_dom_fact first lst s else ok s

    -- `front()` of a function without blocks is undefined.
    unfoldable pub add_threads : List (List Block) → Solver → Result Solver
    unfolding add_entry add_blocks
    add_threads [] s = ok s
    add_threads ([] ∷ thread_funcs) s = err undefined
    add_threads ((b ∷ blocks) ∷ thread_funcs) s = do
      one ← add_entry b s
      two ← add_blocks (b ∷ blocks) one
      add_threads thread_funcs two

    unfoldable pub add_dom_load_store_facts : List (List Block) → Solver → Result Solver
    unfolding add_dom_rel add_load_store_rels add_threads
    add_dom_load_store_facts thread_funcs s =
        add_threads thread_funcs
          (record { value_cache = s.value_cache; zfp = add_load_store_rels (add_dom_rel s.zfp) })
