-- ===== src/Examples/Rounds.antt =====
-- The rounds of the driver, at a program of two threads: the load 10 of `main`, which is the function 1,
-- reads what the store 20 of the function 2 writes, and `main` then comes to the error 9.
use watts.Prelude.{
  ℕ, ◌≡◌, ◌==◌, if◌then◌else◌, refl, Bool, true, false, Option, some, none, List, [], ◌∷◌, ok,
  arith,
}
use watts.Prelude.Map.{Map, find, emplace}
use watts.Apron.Reachability.{reachability, reachability_sound}
use watts.Llvm.{Value, local, Kind, Block, load, store, global, other_inst, assert_fail, ret}
use watts.ProgOrder.{l_undef}
use watts.Driver.{Shared, State, Program, start_sites, analyze_threads}
use watts.Driver.Monotone.{IsWhole}
use watts.BbOps.Transfer.Concrete.{Addressed}
use watts.Explore.{Thread}
use watts.Examples.Facts.{ctx}
use watts.Examples.Blocks.{flags, no_slices}
use watts.Driver.Settled.{IsSettled, analyze_threads-IsSettled}

abbrev kinds : ℕ → Kind
kinds k =
    if k == 10 then load (global 1) else if k == 20 then store (global 3) (global 1) else other_inst

abbrev places : Value → Option ℕ
places (local i) = some 0
places _ = some 1

-- The function 1 loads and comes to the error, and the function 2 stores.
abbrev main_block : Block
main_block = record {
  id = 30;
  body = record { id = 10; kind = kinds 10 } ∷ record { id = 9; kind = Kind.call assert_fail } ∷ [];
  term_id = 31;
  term = ret;
}

abbrev other_block : Block
other_block = record {
  id = 40;
  body = record { id = 20; kind = kinds 20 } ∷ [];
  term_id = 41;
  term = ret;
}

abbrev thread_of : ℕ → Option ℕ → Thread reachability
thread_of f ci = record {
  flags = flags;
  use_constraints = false;
  query = λ zfp g. l_undef;
  kind_of = kinds;
  previous_stores = λ l. [];
  ctx = record ctx { v2n = places };
  slices = no_slices;
  blocks = (if f == 1 then main_block else other_block) ∷ [];
  entry_fact = true;
  fuel = 2;
}

abbrev two_threads : Program reachability
two_threads = record {
  opts = record { dyn_init = false; filter_mhb = false; assert_slice = false; impact = false };
  query = λ zfp g. l_undef;
  kind_of = kinds;
  main = 1;
  thread_operand = λ ci. if ci == 5 then some 2 else none;
  loads_of = λ f. if f == 1 then 10 ∷ [] else [];
  prog_init_state = true;
  thread_of = thread_of;
  assert_slice = [];
  impacted = [];
  may_impact = [];
}

abbrev no_errors : Shared
no_errors = record {
  errors = [];
  solver = record { value_cache = []; zfp = record { relations = []; rules = [] } };
  answers = [];
  perm_cache = [];
  max_comb_perms = 0;
}

abbrev after_rounds : State reachability
after_rounds = record {
  thread_funcs = 1 ∷ 2 ∷ [];
  all_reach_stores = (1, []) ∷ (2, (20, true) ∷ []) ∷ [];
  new_reach_stores = (1, []) ∷ (2, (20, true) ∷ []) ∷ [];
  interfs = (1, (10, 20 ∷ []) ∷ []) ∷ (2, []) ∷ [];
  thread_res = (1, (30, true) ∷ []) ∷ (2, (40, true) ∷ []) ∷ [];
  thread_entry_facts = [];
  shared = record {
    errors = 9 ∷ [];
    solver = record { value_cache = []; zfp = record { relations = []; rules = [] } };
    answers = [];
    perm_cache = [];
    max_comb_perms = 2;
  };
}

rounds_run :
    analyze_threads reachability two_threads (2 ∷ []) (5 ∷ []) 2 3 no_errors
    ≡ some (ok after_rounds)
unfolding analyze_threads find emplace watts.Llvm.value_eq watts.Analysis.block_at
    watts.BbOps.Transfer.run_transfer_funcs watts.BbOps.Transfer.transfer_func
    watts.BbOps.Assign.assign_interf watts.LatticeFact.Assign.assign_var watts.Prelude.Map.erase
    watts.Prelude.Map.insert watts.Worklist.analyze_from watts.Llvm.Const.get_constant_int
    watts.LatticeFact.Assign.assign_interval
rounds_run = refl

two_threads-IsWhole : IsWhole reachability reachability_sound two_threads
two_threads-IsWhole f ci = (refl, (addressed (f == 1), tt))
  where
    addressed : (b : Bool) → Addressed (if b then main_block else other_block)
    addressed true = (λ e. omega arith, (λ e. omega arith, tt))
    addressed false = (λ e. omega arith, tt)

analyze_threads-IsSettled_example :
    IsSettled reachability two_threads (start_sites reachability two_threads (5 ∷ [])) after_rounds
analyze_threads-IsSettled_example =
    analyze_threads-IsSettled reachability two_threads reachability_sound (2 ∷ []) 5 [] 2 3
      no_errors after_rounds refl two_threads-IsWhole rounds_run
