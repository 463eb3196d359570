-- ===== src/Driver.antt =====
-- worklist-ai/worklistai.cpp: the loops of `runOnModule`, which analyse the threads until the facts at
-- their stores have settled. A site is the call that creates a thread, `none` for `main`. Explore has
-- the analysis of one thread.
pub mod Analysed
pub mod Monotone
pub mod Settled
use watts.Prelude.{
  ℕ, zero, suc, ◌&&◌, ◌||◌, not, Bool, true, false, if◌then◌else◌, Option, none, some, List, [],
  ◌∷◌, ◌++◌, map, Result, ok, err, undefined, exit_failure, or_fail, ◌>>=◌,
}
use watts.Prelude.Map.{Map, find, erase, emplace, assign, insert, count}
use watts.Apron.{Apron}
use watts.Llvm.{Kind}
use watts.Llvm.Const.{map_at}
use watts.Horn.{Fixedpoint, Ground}
use watts.Solver.{Solver}
use watts.ProgOrder.{Answer, Answers, filter_mhb_interfs}
use watts.Interference.Stores.{get_interfering_stores, flatten_reach_stores, stable_stores}
use watts.Choices.{choices_per_load}
use watts.CartesianProduct.Value.{product}
use watts.Explore.{PermCache, Thread, Explored, analyze_thread_interf}

pub record Options : Type 0 where
  pub dyn_init : Bool
  pub filter_mhb : Bool
  pub assert_slice : Bool
  pub impact : Bool

-- What the analyses of the threads share: the reachable errors, the solver, the answers that
-- `filterMHBInterfs` keeps, and what `testCurPerm` keeps.
pub record Shared : Type 0 where
  pub errors : List ℕ
  pub solver : Solver
  pub answers : Answers
  pub perm_cache : PermCache
  pub max_comb_perms : ℕ

module _ (a : Apron) where
  open a use {Fact}

  -- What the analysis of a thread finds: facts at blocks, at stores and at creations of threads.
  pub record Found : Type 0 where
    pub res : Map Fact
    pub new_stores : Map Fact
    pub reach_thread_create : Map Fact

  -- The variables of `runOnModule`.
  pub record State : Type 0 where
    pub thread_funcs : List ℕ
    pub all_reach_stores : Map (Map Fact)
    pub new_reach_stores : Map (Map Fact)
    pub interfs : Map (Map (List ℕ))
    pub thread_res : Map (Map Fact)
    pub thread_entry_facts : Map Fact
    pub shared : Shared

  -- `interfs[f]`, where a missing entry is an empty map.
  unfoldable pub interfs_at : ℕ → Map (Map (List ℕ)) → Map (List ℕ)
  unfolding find
  interfs_at f m = elim (find f m) [ none ↦ [] | some cur ↦ cur ]

  -- What the driver is given: its flags, the query of muZ, the program as LLVM has it, the initial
  -- state, the thread of a function and a site, and the statements off and on the slices.
  pub record Program : Type 0 where
    pub opts : Options
    pub query : Fixedpoint → Ground → Answer
    pub kind_of : ℕ → Kind
    pub main : ℕ
    pub thread_operand : ℕ → Option ℕ
    pub loads_of : ℕ → List ℕ
    pub prog_init_state : Fact
    pub thread_of : ℕ → Option ℕ → Thread a
    pub assert_slice : List ℕ
    pub impacted : List ℕ
    pub may_impact : List ℕ

module _ (a : Apron) (p : Program a) where
  open a use {Fact}
  open p use {
    opts, query, kind_of, main, thread_operand, loads_of, prog_init_state, thread_of, assert_slice,
    impacted, may_impact,
  }

  -- `thread_operand` is the function that a creation names, `none` for another value.
  unfoldable pub get_pthread_thread_func : ℕ → Result ℕ
  get_pthread_thread_func ci = or_fail (thread_operand ci) exit_failure

  unfoldable pub func_of : Option ℕ → Result ℕ
  unfolding get_pthread_thread_func
  func_of none = ok main
  func_of (some ci) = get_pthread_thread_func ci

  unfoldable pub entry_of : Option ℕ → Map Fact → Result Fact
  unfolding find
  entry_of none entry_facts = ok prog_init_state
  entry_of (some ci) entry_facts =
      if opts.dyn_init then map_at (find ci entry_facts) else ok prog_init_state

  -- The thread of a function that is created at a site.
  unfoldable pub thread_at : ℕ → Option ℕ → Fact → Thread a
  thread_at f ci entry = record (thread_of f ci) {
    query = query;
    kind_of = kind_of;
    entry_fact = entry;
  }

  unfoldable pub begin_site : Shared → Explored a
  begin_site s = record {
    books = record { errors = s.errors; stores = []; creates = [] };
    res = [];
    solver = s.solver;
    perm_cache = s.perm_cache;
    count = 1;
    max_comb_perms = s.max_comb_perms;
  }

  unfoldable pub end_site :
      Shared → Option (Result (Explored a)) → Option (Result (Found a × Shared))
  end_site s none = none
  end_site s (some (err e)) = some (err e)
  end_site s (some (ok last)) = some (
      ok (
        record {
          res = last.res;
          new_stores = last.books.stores;
          reach_thread_create = last.books.creates;
        },
        record s {
          errors = last.books.errors;
          solver = last.solver;
          perm_cache = last.perm_cache;
          max_comb_perms = last.max_comb_perms;
        },
      ))

  -- `analyzeThreadInterf` on the stores of all threads, with fuel for every permutation.
  unfoldable pub analyze_site :
      ℕ
      → Option ℕ
      → Map (List ℕ)
      → Map (Map Fact)
      → Fact
      → Shared
      → Option (Result (Found a × Shared))
  unfolding flatten_reach_stores analyze_thread_interf choices_per_load thread_at begin_site
      end_site
  analyze_site f ci interfs f_interfs entry s = elim (flatten_reach_stores f_interfs) [
    | err e ↦ some (err e)
    | ok store_to_interf ↦ end_site s (
        analyze_thread_interf a (thread_at f ci entry) (suc (product (choices_per_load interfs)))
          interfs store_to_interf (begin_site s))
  ]

  -- The interferences that the thread is analysed with.
  unfoldable pub cur_interfs : ℕ → Map (Map (List ℕ)) → Shared → Result (Shared × Map (List ℕ))
  unfolding interfs_at filter_mhb_interfs
  cur_interfs f interfs s =
      if opts.filter_mhb
      then (do
        (next, cur) ← filter_mhb_interfs query (interfs_at a f interfs) (s.solver, s.answers)
        ok (record s { solver = next.0; answers = next.1 }, cur))
      else ok (s, interfs_at a f interfs)

  -- The creations that were reached, each with the sites that are still to be analysed.
  unfoldable pub found_threads :
      Map Fact → List (Option ℕ) → State a → Result (List (Option ℕ) × State a)
  unfolding get_pthread_thread_func erase emplace insert
  found_threads [] sites st = ok (sites, st)
  found_threads ((call, fact) ∷ creates) sites st = do
    f ← get_pthread_thread_func call
    found_threads creates (sites ++ (some call ∷ [])) (record st {
      thread_funcs = insert f st.thread_funcs;
      thread_entry_facts = emplace call fact (erase call st.thread_entry_facts);
    })

  -- What is kept of one analysis.
  unfoldable pub save : ℕ → Found a → Shared → State a → State a
  unfolding assign erase emplace
  save f found s st = record st {
    thread_res = assign f found.res st.thread_res;
    new_reach_stores = emplace f found.new_stores (erase f st.new_reach_stores);
    shared = s;
  }

  unfoldable pub next_sites :
      Found a → List (Option ℕ) → State a → Result (List (Option ℕ) × State a)
  unfolding found_threads
  next_sites found sites st =
      if opts.dyn_init then found_threads found.reach_thread_create sites st else ok (sites, st)

  -- Up to the analysis of one thread.
  unfoldable pub prepare : Option ℕ → State a → Result (ℕ × Fact × Shared × Map (List ℕ))
  unfolding func_of entry_of cur_interfs
  prepare ci st = do
    f ← func_of ci
    entry ← entry_of ci st.thread_entry_facts
    (s, cur) ← cur_interfs f st.interfs st.shared
    ok (f, entry, s, cur)

  -- The loop over the sites; `none` when the fuel is used up here or in an analysis.
  unfoldable pub process_threads : ℕ → List (Option ℕ) → State a → Option (Result (State a))
  unfolding prepare analyze_site save next_sites
  process_threads fuel [] st = some (ok st)
  process_threads zero (ci ∷ sites) st = none
  process_threads (suc fuel) (ci ∷ sites) st = elim (prepare ci st) [
    | err e ↦ some (err e)
    | ok (f, entry, s, cur) ↦ elim (analyze_site f ci cur st.new_reach_stores entry s) [
      | none ↦ none
      | some (err e) ↦ some (err e)
      | some (ok (found, later)) ↦ elim (next_sites found sites (save f found later st)) [
        | err e ↦ some (err e)
        | ok (more, next) ↦ process_threads fuel more next
      ]
    ]
  ]

  -- A load off the slice: erasing its entry leaves the iterator of the loop invalid.
  unfoldable pub is_off_slice : ℕ → Bool
  unfolding count
  is_off_slice l =
      (opts.assert_slice && count l assert_slice)
      || (opts.impact && (not (count l may_impact) && not (count l impacted)))

  unfoldable pub on_slice : Map (List ℕ) → Result (Map (List ℕ))
  unfolding is_off_slice
  on_slice [] = ok []
  on_slice ((l, sts) ∷ interf_stores) = do
    rest ← on_slice interf_stores
    if is_off_slice l then err undefined else ok ((l, sts) ∷ rest)

  -- The loop that sets `interfs` for the next round.
  unfoldable pub next_interfs :
      List ℕ → Map (Map Fact) → Map (Map (List ℕ)) → Result (Map (Map (List ℕ)))
  unfolding get_interfering_stores on_slice assign
  next_interfs [] new_stores interfs = ok interfs
  next_interfs (f ∷ funcs) new_stores interfs = do
    interf_stores ← get_interfering_stores kind_of f (loads_of f) new_stores
    kept ← on_slice interf_stores
    next_interfs funcs new_stores (assign f kept interfs)

  module _ (no_threads : Bool) (thread_sites : List (Option ℕ)) (fuel : ℕ) where
    -- The rounds; a round starts with the stores of the last one.
    unfoldable pub rounds : ℕ → State a → Option (Result (State a))
    unfolding process_threads stable_stores next_interfs
    rounds zero st = none
    rounds (suc iters) st =
        elim (process_threads fuel thread_sites
          (record st { new_reach_stores = st.all_reach_stores })) [
            | none ↦ none
            | some (err e) ↦ some (err e)
            | some (ok done) ↦
                if no_threads
                then some (ok done)
                else elim (stable_stores a.is_eq a.is_leq a.is_bottom done.all_reach_stores
                    done.new_reach_stores) [
                      | err e ↦ some (err e)
                      | ok true ↦ some (ok done)
                      | ok false ↦
                          elim (next_interfs done.thread_funcs done.new_reach_stores done.interfs) [
                            | err e ↦ some (err e)
                            | ok interfs ↦ rounds iters (record done {
                              interfs = interfs;
                              all_reach_stores = done.new_reach_stores;
                            })
                          ]
                    ]
          ]

  -- The set-up of the loop. Without sites there is one thread only; with `dynInitG` the analysis
  -- starts with `main` alone.
  unfoldable pub start_funcs : List ℕ → List ℕ
  unfolding insert
  start_funcs funcs = if opts.dyn_init then main ∷ [] else insert main funcs

  unfoldable pub start_sites : List ℕ → List (Option ℕ)
  start_sites calls =
      if opts.dyn_init then none ∷ [] else map (λ (ci : ℕ). some ci) calls ++ (none ∷ [])

  unfoldable pub is_empty : List ℕ → Bool
  is_empty [] = true
  is_empty (ci ∷ calls) = false

  unfoldable pub start : List ℕ → Shared → State a
  unfolding start_funcs
  start funcs s = record {
    thread_funcs = start_funcs funcs;
    all_reach_stores = [];
    new_reach_stores = [];
    interfs = [];
    thread_res = [];
    thread_entry_facts = [];
    shared = s;
  }

  unfoldable pub analyze_threads : List ℕ → List ℕ → ℕ → ℕ → Shared → Option (Result (State a))
  unfolding is_empty start_sites rounds start
  analyze_threads funcs calls fuel iters s =
      rounds (is_empty calls) (start_sites calls) fuel iters (start funcs s)
