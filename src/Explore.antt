-- ===== src/Explore.antt =====
-- worklist-ai/worklistai.cpp: `analyzeThreadInterf` and `testCurPerm`, which analyse a thread under
-- every choice of the stores that its loads read, but for those that the ordering constraints refuse.
-- The stores that `getPreviousStoresWithCreate` finds for a load at the thread's creation are an
-- argument.
pub mod Cache
pub mod Visited
pub mod Tested
pub mod Reports
pub mod Reported
pub mod Ends
pub mod Keeps
use watts.Prelude.{
  ℕ, zero, suc, ◌==◌, ◌&&◌, ltb, if◌then◌else◌, Bool, true, false, Option, none, some, List, [],
  ◌∷◌, get_elem?, Result, ok, err, ◌>>=◌,
}
use watts.Prelude.Map.{Map, emplace}
use watts.Apron.{Apron}
use watts.Llvm.{Kind, Block, Context}
use watts.Horn.{Fixedpoint, Ground}
use watts.Solver.{Solver}
use watts.ProgOrder.{Answer, violates_prog_order}
use watts.BbOps.Transfer.{Flags, Slices, Books}
use watts.Analysis.{analyze_func}
use watts.Interference.{merge_fact_maps, join_interfs}
use watts.CartesianProduct.{CartesianProduct, make, at_end, increment}
use watts.Choices.{choices_per_load, cur_interf_map}

-- `permCache`, a static variable: every thread and every round shares it.
abbrev pub PermCache : Type 0
PermCache = List (List ℕ × Bool)

unfoldable pub same_perm : List ℕ → List ℕ → Bool
same_perm [] [] = true
same_perm (p ∷ ps) (q ∷ qs) = (p == q) && same_perm ps qs
same_perm _ _ = false

unfoldable pub find_perm : List ℕ → PermCache → Option Bool
unfolding same_perm
find_perm perm [] = none
find_perm perm ((q, v) ∷ cache) = if same_perm q perm then some v else find_perm perm cache

-- The one loop of `testCurPerm` fills three maps: `cur_interf_map`, and the two that follow, which are
-- only read where that one did not fail. The store that each load reads, where it is of another thread:
unfoldable pub cur_interf_store_map : List ℕ → Map (List ℕ) → Map ℕ → Map ℕ
unfolding emplace
cur_interf_store_map (zero ∷ perm) ((l, sts) ∷ interfs) cur = cur_interf_store_map perm interfs cur
cur_interf_store_map (suc idx ∷ perm) ((l, sts) ∷ interfs) cur =
    cur_interf_store_map perm interfs
      (elim (get_elem? sts idx) [ none ↦ cur | some st ↦ emplace l st cur ])
cur_interf_store_map _ _ cur = cur

-- the store is known where there is exactly one before
unfoldable pub add_self : ℕ → List ℕ → Map ℕ → Map ℕ
unfolding emplace
add_self l (st ∷ []) cur = emplace l st cur
add_self l _ cur = cur

module _ (previous_stores : ℕ → List ℕ) where
  -- and the store of its own thread, for a load that reads its own memory.
  unfoldable pub cur_self_store_map : List ℕ → Map (List ℕ) → Map ℕ → Map ℕ
  unfolding add_self
  cur_self_store_map (zero ∷ perm) ((l, sts) ∷ interfs) cur =
      cur_self_store_map perm interfs (add_self l (previous_stores l) cur)
  cur_self_store_map (suc idx ∷ perm) ((l, sts) ∷ interfs) cur = cur_self_store_map perm interfs cur
  cur_self_store_map _ _ cur = cur

module _ (a : Apron) where
  open a use {Fact}

  -- What is given: the flags, `useConstraintsG` among them, muZ's query, the thread, and its fuel.
  pub record Thread : Type 0 where
    pub flags : Flags
    pub use_constraints : Bool
    pub query : Fixedpoint → Ground → Answer
    pub kind_of : ℕ → Kind
    pub previous_stores : ℕ → List ℕ
    pub ctx : Context
    pub slices : Slices
    pub blocks : List Block
    pub entry_fact : Fact
    pub fuel : ℕ

  -- What the exploration changes: the books, the results of the permutations, the solver with the
  -- cache of its answers, and the counts of the permutations that were analysed.
  pub record Explored : Type 0 where
    pub books : Books a
    pub res : Map Fact
    pub solver : Solver
    pub perm_cache : PermCache
    pub count : ℕ
    pub max_comb_perms : ℕ

module _ (a : Apron) (t : Thread a) where
  open a use {Fact}
  open t use {
    flags, use_constraints, query, kind_of, previous_stores, ctx, slices, blocks, entry_fact, fuel,
  }

  -- The analysis of the thread with the facts that its loads read. `analyzeFunc` does not look at
  -- `mergeInterfs`, but at `noCombinsG`, which is among the flags.
  unfoldable pub analyze_with : Map Fact → Books a → Option (Result (Map Fact × Books a))
  unfolding analyze_func
  analyze_with cur b = analyze_func a flags ctx cur slices fuel blocks entry_fact b

  module _ (interfs : Map (List ℕ)) (st_facts : Map Fact) where
    -- Whether the permutation violates the program order: from the cache, or from the solver.
    unfoldable pub check_perm : List ℕ → Explored a → Result (Explored a × Bool)
    unfolding find_perm cur_interf_store_map cur_self_store_map violates_prog_order
    check_perm perm s =
        if use_constraints
        then elim (find_perm perm s.perm_cache) [
          | some v ↦ ok (s, v)
          | none ↦ do
            (next, v) ←
                violates_prog_order query kind_of (cur_interf_store_map perm interfs [])
                  (cur_self_store_map previous_stores perm interfs []) s.solver
            ok (record s { solver = next; perm_cache = (perm, v) ∷ s.perm_cache }, v)
        ]
        else ok (s, false)

    -- `true` where the permutation was analysed.
    unfoldable pub test_cur_perm : List ℕ → Explored a → Option (Result (Explored a × Bool))
    unfolding cur_interf_map check_perm analyze_with merge_fact_maps
    test_cur_perm perm s = elim (cur_interf_map a perm interfs st_facts) [
      | err e ↦ some (err e)
      | ok cur ↦ elim (check_perm perm s) [
        | err e ↦ some (err e)
        | ok (next, true) ↦ some (ok (next, false))
        | ok (next, false) ↦ elim (analyze_with cur next.books) [
          | none ↦ none
          | some (err e) ↦ some (err e)
          | some (ok (new_res, b)) ↦
              some (ok (record next { books = b; res = merge_fact_maps a next.res new_res }, true))
        ]
      ]
    ]

    unfoldable pub counted : Bool → Explored a → Explored a
    counted false s = s
    counted true s = record s {
      max_comb_perms = if ltb s.max_comb_perms s.count then s.count else s.max_comb_perms;
      count = suc s.count;
    }

    -- The loop over the permutations; its own fuel is the first argument.
    unfoldable pub explore : ℕ → CartesianProduct → Explored a → Option (Result (Explored a))
    unfolding at_end test_cur_perm counted increment
    explore zero cp s = none
    explore (suc rounds) cp s = elim (at_end cp) [
      | true ↦ some (ok s)
      | false ↦ elim (test_cur_perm cp.permutation s) [
        | none ↦ none
        | some (err e) ↦ some (err e)
        | some (ok (next, ran)) ↦ elim (increment cp) [
          | err e ↦ some (err e)
          | ok cp' ↦ explore rounds cp' (counted ran next)
        ]
      ]
    ]

  unfoldable pub with_result :
      Option (Result (Map Fact × Books a)) → Explored a → Option (Result (Explored a))
  with_result none s = none
  with_result (some (err e)) s = some (err e)
  with_result (some (ok (r, b))) s = some (ok (record s { books = b; res = r }))

  -- The results start empty, and the count at one.
  unfoldable pub explore_from :
      ℕ → Map (List ℕ) → Map Fact → Explored a → Option (Result (Explored a))
  unfolding make choices_per_load explore
  explore_from rounds interfs st_facts s = elim (make (choices_per_load interfs)) [
    | err e ↦ some (err e)
    | ok cp ↦ explore interfs st_facts rounds cp (record s { res = []; count = 1 })
  ]

  unfoldable pub analyze_thread_interf :
      ℕ → Map (List ℕ) → Map Fact → Explored a → Option (Result (Explored a))
  unfolding join_interfs with_result analyze_with explore_from
  analyze_thread_interf rounds [] st_facts s = with_result (analyze_with [] s.books) s
  analyze_thread_interf rounds (i ∷ interfs) st_facts s =
      if flags.no_combins
      then elim (join_interfs a (i ∷ interfs) st_facts) [
        | err e ↦ some (err e)
        | ok cur ↦ with_result (analyze_with cur s.books) s
      ]
      else explore_from rounds (i ∷ interfs) st_facts s
