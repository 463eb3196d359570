-- ===== src/Examples/Explored.antt =====
-- The exploration of a thread, at a load 0 that reads the thread's own memory, the store 40, or the
-- store 41, which the solver refuses. The thread fails the assertion 13 if the number is over 3.
use native.Mathlib.Decide.{ℕ_discrete}
use watts.Prelude.{
  ◌<◌, ℕ, suc, ◌≤◌, ◌≡◌, ◌==◌, if◌then◌else◌, refl, inl, inr, true, false, some, none, List, [],
  ◌∷◌, All, In, Result, ok, arith, Option, Bool, ap, subst, ◌%◌, ◌^◌,
}
use watts.Prelude.Int.{pos}
use watts.Prelude.Map.{Map, find, emplace}
use watts.Apron.{Env, update}
use watts.Apron.Reachability.{reachability, reachability_sound, true-Covers}
use watts.Llvm.{
  Value, Kind, Block, Context, local, global, const_int, icmp_sgt, cond_br, assert_fail,
}
use watts.BbOps.Transfer.{Books}
use watts.BbOps.Transfer.Concrete.{Addressed}
use watts.BbOps.Transfer.Notes.{Reported}
use watts.Constraints.Reorder.{add_model_rules}
use watts.ProgOrder.{z3_bv_size}
use watts.Solver.Bits.{InBits}
use watts.Worklist.Coverage.{here, step}
use watts.Analysis.{block_at}
use watts.Analysis.Sound.{GoesOn}
use watts.Choices.{choices_per_load, cur_interf_map}
use watts.CartesianProduct.Value.{product, InRange}
use watts.Explore.{PermCache, find_perm, Thread, Explored, analyze_thread_interf}
use watts.Explore.Cache.{IsChecking, Happens}
use watts.Explore.Reported.{ComesTo, analyze_thread_interf-Reported}
use watts.Explore.Ends.{analyze_thread_interf-ends}
use watts.Examples.Facts.{over_three, ctx, three-Negatable}
use watts.Examples.Blocks.{flags, no_slices, no_books, bb21, bb22, weights, weights_pos}
use watts.Examples.Orders.{
  two_stores, two_stores-Consistent, base, base-Valid, facts_only, facts_only-derived, all_loads,
}

abbrev names : Value → Option ℕ
names (local i) = if i == 0 then some 0 else if i == 11 then some 1 else none
names (global i) = some 2
names _ = none

abbrev first : Block
first = record {
  id = 20;
  body =
      record { id = 0; kind = Kind.load (global 7) }
      ∷ record { id = 11; kind = Kind.icmp icmp_sgt (local 0) (const_int 32 3) }
      ∷ [];
  term_id = 12;
  term = cond_br (local 11) 21 22;
}

abbrev thread : Thread reachability
thread = record {
  flags = flags;
  use_constraints = true;
  query = facts_only;
  kind_of = all_loads;
  previous_stores = λ l. [];
  ctx = record ctx { v2n = names };
  slices = no_slices;
  blocks = first ∷ bb21 ∷ bb22 ∷ [];
  entry_fact = true;
  fuel = 4;
}

abbrev load_stores : Map (List ℕ)
load_stores = (0, 40 ∷ 41 ∷ []) ∷ []

abbrev facts : Map Bool
facts = (40, true) ∷ (41, true) ∷ []

-- The load and its stores have the numbers of the run.
abbrev numbers : Map ℕ
numbers = (0, 0) ∷ (40, 2) ∷ (41, 1) ∷ []

abbrev before : Explored reachability
before = record {
  books = no_books;
  res = [];
  solver = record { value_cache = numbers; zfp = add_model_rules true false false base };
  perm_cache = [];
  count = 1;
  max_comb_perms = 0;
}

abbrev after : Explored reachability
after = record {
  books = record { errors = 13 ∷ []; stores = []; creates = [] };
  res = (20, true) ∷ (21, true) ∷ (22, true) ∷ [];
  solver = record { value_cache = numbers; zfp = add_model_rules true false false base };
  perm_cache = (2 ∷ [], true) ∷ (1 ∷ [], false) ∷ (0 ∷ [], false) ∷ [];
  count = 3;
  max_comb_perms = 2;
}

thread_run : analyze_thread_interf reachability thread 4 load_stores facts before ≡ some (ok after)
unfolding analyze_thread_interf find emplace facts_only add_model_rules block_at
    watts.BbOps.Transfer.run_transfer_funcs watts.BbOps.Assign.perform_assign_cmp
    watts.Llvm.Const.get_constant_int watts.BbOps.Transfer.transfer_func
    watts.BbOps.Assign.assign_interf watts.LatticeFact.Query.is_gt watts.LatticeFact.Query.is_leq
    watts.LatticeFact.Constrain.constrain_tf watts.Prelude.Map.erase watts.Prelude.Map.insert
    watts.Horn.Compare.Atom-discrete watts.Horn.Compare.Rel-discrete
    watts.Horn.Compare.Term-discrete ℕ_discrete watts.LatticeFact.Meet.meet_constr_ty
    watts.Worklist.analyze_from watts.LatticeFact.Assign.icmp_gt watts.LatticeFact.Assign.assign_var
thread_run = refl

numbers-IsChecking :
    IsChecking reachability thread load_stores facts two_stores
      (add_model_rules true false false base)
      (before.solver)
      (before.perm_cache)
unfolding find find_perm
numbers-IsChecking = record {
  numbering = record {
    bounded = λ v i h. ground arith;
    distinct = λ v w i g h. ground arith;
    room = omega arith;
  };
  model = refl;
  cache_right = λ perm h happens. cc;
}

constant_of :
    (cache : Map ℕ) (v id k : ℕ)
    → find v cache ≡ some id
    → InBits z3_bv_size cache v k
    → k ≡ id % 2 ^ z3_bv_size
constant_of cache v id k f (other, g, e) = cc

-- In the run, the load reads the store 40.
reads_forty : Happens reachability thread load_stores facts two_stores numbers (1 ∷ [])
unfolding watts.Explore.cur_interf_store_map watts.Explore.cur_self_store_map emplace find
reads_forty l st (inl m) i j x y =
    let (p, q) = key l st m in
    let source : i ≡ 0 =
      constant_of numbers 0 0 i refl (subst (λ (v : ℕ). InBits z3_bv_size numbers v i) p x) in
    let store : j ≡ 2 =
      constant_of numbers 40 2 j refl (subst (λ (v : ℕ). InBits z3_bv_size numbers v j) q y) in
    rw (source, store) refl
  where
    key : (l st : ℕ) → ◌≡◌ {A = ℕ × ℕ} (l, st) (0, 40) → (l ≡ 0) × (st ≡ 40)
    key l st m = (ap (λ (p : ℕ × ℕ). p.0) m, ap (λ (p : ℕ × ℕ). p.1) m)
reads_forty l st (inr m) i j x y = absurd m

choices_fit : product (choices_per_load load_stores) < 2147483647
unfolding choices_per_load
choices_fit = omega arith

in_range : InRange (1 ∷ []) (choices_per_load load_stores)
unfolding choices_per_load
in_range = (omega arith, tt)

chosen : cur_interf_map reachability (1 ∷ []) load_stores facts ≡ ok ((0, true) ∷ [])
unfolding cur_interf_map find emplace
chosen = refl

abbrev start : Env
start x = pos 0

abbrev loaded : Env
loaded = update (update start 2 (pos 5)) 0 (pos 5)

abbrev compared : Env
compared = update loaded 1 (pos 1)

thread_step :
    GoesOn reachability reachability_sound flags
      (record ctx { v2n = names })
      ((0, true) ∷ [])
      no_slices
      thread.blocks
      20
      start
      21
      compared
unfolding block_at find watts.Llvm.Const.signed watts.LatticeFact.Constrain.sides_of
    watts.Llvm.Const.get_constant_int
thread_step = (
  first,
  refl,
  (
    loaded,
    (0, 2, (λ x. pos 5), refl, refl, inl (true-Covers (λ x. pos 5)), (2, refl, refl), refl),
    (compared, (1, pos 5, pos 3, refl, (0, refl, refl), refl, tt, three-Negatable, refl), refl),
  ),
  (1, true, refl, refl, (over_three, refl, three-Negatable, refl), refl),
)

bb21_at : block_at 21 (thread.blocks) ≡ some bb21
unfolding block_at
bb21_at = refl

thread-Addressed : All Addressed (thread.blocks)
thread-Addressed = ((λ h. omega arith, (λ h. omega arith, tt)), ((λ h. omega arith, tt), (tt, tt)))

forty_ComesTo : ComesTo reachability reachability_sound thread ((0, true) ∷ []) 13
forty_ComesTo = record {
  first = first;
  rest = bb21 ∷ bb22 ∷ [];
  blocks_are = refl;
  start = start;
  covered = true-Covers start;
  block = 21;
  env = compared;
  reached = step here thread_step;
  bb = bb21;
  at = bb21_at;
  fails = inl (refl, refl);
}

analyze_thread_interf-Reported_example : Reported reachability 13 after.books
unfolding choices_per_load
analyze_thread_interf-Reported_example =
    analyze_thread_interf-Reported reachability reachability_sound thread refl refl thread-Addressed
      load_stores facts before after two_stores true false false base (1 ∷ []) ((0, true) ∷ []) 13
      facts_only-derived two_stores-Consistent base-Valid choices_fit numbers-IsChecking thread_run
      in_range chosen reads_forty forty_ComesTo

analyze_thread_interf-ends_example :
    (r : Result (Explored reachability)) × (analyze_thread_interf reachability thread 4 load_stores
        facts before
      ≡ some r)
unfolding choices_per_load
analyze_thread_interf-ends_example =
    analyze_thread_interf-ends reachability thread weights first (bb21 ∷ bb22 ∷ []) load_stores
      facts before weights_pos (omega arith, (omega arith, (omega arith, tt))) (omega arith) refl
      choices_fit
