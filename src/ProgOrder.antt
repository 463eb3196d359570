-- ===== src/ProgOrder.antt =====
-- worklist-ai/worklistai.cpp: the queries that `violatesProgOrder` and `filterMHBInterfs` ask of muZ.
-- Its answer, `Z3_fixedpoint_query`, is the parameter `query`; `kind_of` reads an instruction.
pub mod Asks
pub mod Sound
pub mod Leaves
pub mod Kept
pub mod Filter
use watts.Prelude.{
  ℕ, ◌==◌, ◌&&◌, Bool, true, false, if◌then◌else◌, Option, none, some, List, [], ◌∷◌, ◌++◌, Result,
  ok, err, assertion, ◌>>=◌,
}
use watts.Prelude.Map.{Map, emplace}
use watts.Llvm.{Kind, load, store, atomic_rmw, atomic_cmpxchg}
use watts.Horn.{rf, not_rf, mhb, Ground, ground2, Fixedpoint}
use watts.Solver.{Solver, get_value_bvid_sz, add_fact2_sz}

-- `Z3_L_TRUE`, `Z3_L_FALSE` and `Z3_L_UNDEF`
pub data Answer : Type 0 where
  l_true l_false l_undef : Answer

-- `Z3_BV_SIZE`
abbrev pub z3_bv_size : ℕ
z3_bv_size = 16

unfoldable pub is_some_load : Kind → Bool
is_some_load (load p) = true
is_some_load (atomic_rmw o p v) = true
is_some_load (atomic_cmpxchg p) = true
is_some_load _ = false

-- The answers that `filterMHBInterfs` keeps between its calls, by the load and the store.
abbrev pub Answers : Type 0
Answers = List ((ℕ × ℕ) × Answer)

unfoldable pub find_answer : ℕ → ℕ → Answers → Option Answer
find_answer l st [] = none
find_answer l st (((k, s), r) ∷ cache) =
    if (k == l) && (s == st) then some r else find_answer l st cache

-- A store is dropped on a yes only; `lInterfs` is built from its back here.
unfoldable pub keep : Answer → ℕ → List ℕ → List ℕ
keep l_true st rest = rest
keep l_false st rest = st ∷ rest
keep l_undef st rest = st ∷ rest

module _ (query : Fixedpoint → Ground → Answer) where
  unfoldable pub query_mhb : ℕ → ℕ → Solver → Result (Solver × Answer)
  unfolding get_value_bvid_sz
  query_mhb l st s = do
    (one, i) ← get_value_bvid_sz z3_bv_size l s.value_cache
    (two, j) ← get_value_bvid_sz z3_bv_size st one
    ok (record { value_cache = two; zfp = s.zfp }, query s.zfp (ground2 mhb i j))

  -- The answer for a pair, from the cache or from the solver.
  unfoldable pub cached_mhb : ℕ → ℕ → Solver × Answers → Result ((Solver × Answers) × Answer)
  unfolding find_answer query_mhb
  cached_mhb l st (s, cache) = elim (find_answer l st cache) [
    | some r ↦ ok ((s, cache), r)
    | none ↦ do (next, r) ← query_mhb l st s; ok ((next, ((l, st), r) ∷ cache), r)
  ]

  -- The stores of one load: those that the load must happen before are left out.
  unfoldable pub filter_stores :
      ℕ → List ℕ → Solver × Answers → Result ((Solver × Answers) × List ℕ)
  unfolding cached_mhb keep
  filter_stores l [] state = ok (state, [])
  filter_stores l (st ∷ stores) state = do
    (next, r) ← cached_mhb l st state
    (last, rest) ← filter_stores l stores next
    ok (last, keep r st rest)

  unfoldable pub filter_mhb_interfs :
      Map (List ℕ) → Solver × Answers → Result ((Solver × Answers) × Map (List ℕ))
  unfolding filter_stores
  filter_mhb_interfs [] state = ok (state, [])
  filter_mhb_interfs ((l, stores) ∷ interfs) state = do
    (next, kept) ← filter_stores l stores state
    (last, rest) ← filter_mhb_interfs interfs next
    ok (last, (l, kept) ∷ rest)

  module _ (kind_of : ℕ → Kind) where
    unfoldable pub query_not_reads : ℕ → ℕ → Solver → Result (Solver × Answer)
    unfolding is_some_load get_value_bvid_sz
    query_not_reads l st s =
        if is_some_load (kind_of l)
        then (do
          (one, i) ← get_value_bvid_sz z3_bv_size l s.value_cache
          (two, j) ← get_value_bvid_sz z3_bv_size st one
          ok (record { value_cache = two; zfp = s.zfp }, query s.zfp (ground2 not_rf i j)))
        else err assertion

    unfoldable pub add_reads_from_fact : ℕ → ℕ → Solver → Result Solver
    unfolding is_some_load add_fact2_sz
    add_reads_from_fact l v s =
        if is_some_load (kind_of l) then add_fact2_sz rf l v z3_bv_size s else err assertion

    unfoldable pub add_reads_from : Map ℕ → Solver → Result Solver
    unfolding add_reads_from_fact
    add_reads_from [] s = ok s
    add_reads_from ((l, st) ∷ rfs) s = do next ← add_reads_from_fact l st s; add_reads_from rfs next

    -- The loop over the queries stops at the first pair that is infeasible.
    unfoldable pub check_reads : Map ℕ → Solver → Result (Solver × Bool)
    unfolding query_not_reads
    check_reads [] s = ok (s, false)
    check_reads ((l, st) ∷ interfs) s = do
      (next, res) ← query_not_reads l st s
      elim res [ l_true ↦ ok (next, true) | _ ↦ check_reads interfs next ]

    -- What is added after `Z3_fixedpoint_push` goes with `Z3_fixedpoint_pop`.
    unfoldable pub violates_prog_order : Map ℕ → Map ℕ → Solver → Result (Solver × Bool)
    unfolding add_reads_from check_reads
    violates_prog_order [] rfs s = ok (s, false)
    violates_prog_order (r ∷ interfs) rfs s = do
      one ← add_reads_from (r ∷ interfs) s
      two ← add_reads_from rfs one
      (three, violates) ← check_reads (r ∷ interfs) two
      ok (record { value_cache = three.value_cache; zfp = s.zfp }, violates)
