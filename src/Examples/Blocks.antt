-- ===== src/Examples/Blocks.antt =====
-- A function of three blocks that fails an assertion, analysed over the two-point domain.
use watts.Prelude.{
  All, ℕ, suc, ◌≤◌, ◌≡◌, ◌≢◌, ◌↔◌, ◌⊎◌, inl, inr, refl, Bool, true, false, Option, none, some, List,
  [], ◌∷◌, ◌==◌, In, Result, ok, ok-inj, subst, ap, err, arith, if◌then◌else◌,
}
use watts.Prelude.Int.{pos, negsuc}
use watts.Prelude.Map.{Map}
use watts.Apron.{update, Env}
use watts.Apron.Reachability.{reachability, reachability_sound, true-Covers}
use watts.Llvm.{
  Value, const_int, local, Predicate, icmp_sgt, Kind, Inst, Terminator, br, cond_br, ret, Block,
  Context, assert_fail,
}
use watts.LatticeFact.Meet.{meet_constr_ty}
use watts.LatticeFact.Assign.{icmp_eq, icmp_neq, icmp_gt, icmp_leq, icmp_lt, icmp_geq}
use watts.LatticeFact.Constrain.{constrain_tf}
use watts.BbOps.Transfer.{Flags, Slices, Books}
use watts.Worklist.{analyze_from}
use watts.Worklist.Coverage.{here, step, RunSound, analyze_from-Noted}
use watts.LatticeFact.Assign.Sound.{truth}
use watts.LatticeFact.Constrain.Sound.{compare_ℤ}
use watts.Llvm.{add, mul}
use watts.BbOps.Assign.{perform_bin_op_mod, perform_assign_cmp}
use watts.BbOps.Assign.Sound.{perform_bin_op_mod_sound}
use watts.BbOps.Assign.Compare.{perform_assign_cmp_sound}
use watts.BbOps.Transfer.{transfer_func}
use watts.BbOps.Transfer.Sound.{transfer_func_sound}
use watts.Prelude.{length, get_elem?}
use watts.Prelude.Map.{count, find, emplace}
use watts.Prelude.{◌+◌}
use watts.Analysis.{analyze_func, block_at}
use watts.Analysis.Sound.{GoesOn, analyze_func-Reported}
use watts.BbOps.Transfer.Concrete.{Addressed}
use watts.BbOps.Transfer.Notes.{Reported}
use watts.Analysis.Ends.{analyze_func-ends}
use watts.Examples.Facts.{five, over_three, ctx, three-Negatable}

-- Block 20 compares and branches to block 21, which fails an assertion, or to block 22.
abbrev bb20 : Block
bb20 = record {
  id = 20;
  body = record { id = 11; kind = Kind.icmp icmp_sgt (local 0) (const_int 32 3) } ∷ [];
  term_id = 12;
  term = cond_br (local 11) 21 22;
}

abbrev pub bb21 : Block
bb21 = record {
  id = 21;
  body = record { id = 13; kind = Kind.call assert_fail } ∷ [];
  term_id = 14;
  term = br 22;
}

abbrev pub bb22 : Block
bb22 = record { id = 22; body = []; term_id = 15; term = ret }

abbrev pub flags : Flags
flags = record {
  use_oct = false;
  constr_icmp = true;
  no_combins = false;
  assert_slice = false;
  impact = false;
}

abbrev pub no_slices : Slices
no_slices = record { assert_slice_inv = []; impacted = []; may_impact = [] }

abbrev pub no_books : Books reachability
no_books = record { errors = []; stores = []; creates = [] }

abbrev pub weights : ℕ → ℕ
weights k = if k == 20 then 4 else if k == 21 then 2 else 1

pub weights_pos : (k : ℕ) → 1 ≤ weights k
weights_pos k = ground arith

analyze_func-ends_example :
    (r : Result (Map Bool × Books reachability)) × (analyze_func reachability flags ctx [] no_slices
        4
        (bb20 ∷ bb21 ∷ bb22 ∷ [])
        true
        no_books
      ≡ some r)
analyze_func-ends_example =
    analyze_func-ends reachability flags ctx [] no_slices weights 4 bb20 (bb21 ∷ bb22 ∷ []) true
      no_books weights_pos (omega arith, (omega arith, (omega arith, tt))) (omega arith)

-- The blocks 20, 21 and 22 with no books but the list of blocks that were run.
abbrev passes_on : ℕ → Bool → List ℕ → Result (List (ℕ × Bool) × List ℕ)
passes_on k f seen = ok (if k == 20 then (21, f) ∷ [] else [], k ∷ seen)

abbrev Continues : ℕ → Env → ℕ → Env → Type 0
Continues k e j d = (k ≡ 20) × (j ≡ 21) × (d ≡ e)

abbrev IsSeen : ℕ → Env → List ℕ → Type 0
IsSeen k e seen = In k seen

abbrev Passed : Type 0
Passed = List (ℕ × Bool) × List ℕ

outs_of :
    (k : ℕ) (f : Bool) (b : List ℕ) (outs : List (ℕ × Bool)) (b' : List ℕ)
    → passes_on k f b ≡ ok (outs, b')
    → ((if k == 20 then (21, f) ∷ [] else []) ≡ outs) × (k ∷ b ≡ b')
outs_of k f b outs b' h =
    let same = ok-inj {A = Passed} ((if k == 20 then (21, f) ∷ [] else []), k ∷ b) (outs, b') h in
    (ap (λ (p : Passed). p.0) same, ap (λ (p : Passed). p.1) same)

passes_on-RunSound : RunSound reachability reachability_sound passes_on Continues IsSeen
passes_on-RunSound = record {
  forward = λ k f b outs b' e j d ran c (p, q, r). (
    f,
    subst (λ (x : List (ℕ × Bool)). In (j, f) x) (outs_of k f b outs b' ran).0
        (rw (p, q) (inl refl)),
    rw r c,
  );
  notes = λ k f b outs b' e ran c. subst (In k) (outs_of k f b outs b' ran).1 (inl refl);
  keeps = λ k f b outs b' j e ran m. subst (In j) (outs_of k f b outs b' ran).1 (inr m);
}

analyze_from-Noted_example : IsSeen 21 five (21 ∷ 20 ∷ [])
unfolding watts.Worklist.analyze_from watts.Worklist.fixpoint watts.Worklist.init_bbs
    watts.Worklist.merge_worklist watts.Worklist.merge_one watts.Prelude.Map.find
    watts.Prelude.Map.erase watts.Prelude.Map.emplace
analyze_from-Noted_example =
    analyze_from-Noted reachability reachability_sound passes_on Continues IsSeen passes_on-RunSound
      3 (20 ∷ 21 ∷ []) 20 true [] (21 ∷ 20 ∷ []) ((20, true) ∷ (21, true) ∷ []) refl five
      (true-Covers five) 21 five (step here (refl, refl, refl))

abbrev program : List Block
program = bb20 ∷ bb21 ∷ bb22 ∷ []

-- Block 20 goes to block 21 because 5 is over 3.
abbrev reached : Env
reached = update five 1 (pos 1)

abbrev one_reported : Books reachability
one_reported = record { errors = 13 ∷ []; stores = []; creates = [] }

program_run :
    analyze_func reachability flags ctx [] no_slices 4 program true no_books
    ≡ some (ok ((20, true) ∷ (21, true) ∷ (22, true) ∷ [], one_reported))
unfolding analyze_func analyze_from watts.Prelude.Map.find watts.Prelude.Map.emplace block_at
    watts.BbOps.Transfer.run_transfer_funcs watts.BbOps.Assign.perform_assign_cmp
    watts.Llvm.Const.get_constant_int icmp_gt watts.LatticeFact.Query.is_gt
    watts.LatticeFact.Query.is_leq constrain_tf meet_constr_ty watts.Prelude.Map.erase
    watts.Prelude.Map.insert
program_run = refl

program_step :
    GoesOn reachability reachability_sound flags ctx [] no_slices program 20 five 21 reached
unfolding block_at watts.Llvm.Const.signed watts.LatticeFact.Constrain.sides_of
    watts.Llvm.Const.get_constant_int
program_step = (
  bb20,
  refl,
  (reached, (1, pos 5, pos 3, refl, (0, refl, refl), refl, tt, three-Negatable, refl), refl),
  (1, true, refl, refl, (over_three, refl, three-Negatable, refl), refl),
)

bb21_at : block_at 21 program ≡ some bb21
unfolding block_at
bb21_at = refl

program-Addressed : All Addressed program
program-Addressed = ((λ h. omega arith, tt), ((λ h. omega arith, tt), (tt, tt)))

analyze_func-Reported_example : Reported reachability 13 one_reported
analyze_func-Reported_example =
    analyze_func-Reported reachability reachability_sound flags ctx [] no_slices 4 bb20
      (bb21 ∷ bb22 ∷ []) true no_books one_reported ((20, true) ∷ (21, true) ∷ (22, true) ∷ []) five
      21 reached bb21 13 refl program-Addressed program_run (true-Covers five)
      (step here program_step) bb21_at (inl (refl, refl))

-- Instruction 11 compares, instruction 16 doubles variable 0.
abbrev doubled : Inst
doubled = record { id = 16; kind = Kind.binary mul (local 0) (const_int 32 2) }

doubled_run : transfer_func reachability flags ctx [] doubled true no_books ≡ ok (true, no_books)
unfolding transfer_func watts.Llvm.Const.get_constant_int perform_bin_op_mod
    watts.LatticeFact.Assign.mod_int watts.LatticeFact.Assign.mul_int
doubled_run = refl

transfer_func_sound_example : reachability_sound.Covers true (update five 16 (pos 10))
unfolding watts.Llvm.Const.signed watts.Prelude.Int.◌*ℤ◌
transfer_func_sound_example =
    transfer_func_sound reachability reachability_sound flags ctx [] doubled true true no_books
      no_books five (update five 16 (pos 10)) (true-Covers five)
      (
        16,
        32,
        pos 5,
        pos 2,
        pos 10,
        refl,
        refl,
        (0, refl, refl),
        refl,
        refl,
        (omega arith, omega arith),
        refl,
      )
      doubled_run

bin_op_run :
    perform_bin_op_mod reachability true ctx add (local 16) (local 0) (const_int 32 4294967295) true
    ≡ ok true
unfolding perform_bin_op_mod watts.Llvm.Const.get_constant_int watts.LatticeFact.Assign.mod_int
    watts.LatticeFact.Assign.add_int
bin_op_run = refl

-- Adding the 32-bit constant -1 to 5.
perform_bin_op_mod_sound_example : reachability_sound.Covers true (update five 16 (pos 4))
unfolding watts.Llvm.Const.signed watts.Prelude.Int.◌+ℤ◌
perform_bin_op_mod_sound_example =
    perform_bin_op_mod_sound reachability reachability_sound true ctx add (local 16) (local 0)
      (const_int 32 4294967295) 16 32 (pos 5) (negsuc 0) (pos 4) true true five refl refl
      (0, refl, refl) refl refl (omega arith, omega arith) (true-Covers five) bin_op_run

cmp_run :
    perform_assign_cmp reachability true ctx (local 11) (local 0) (const_int 32 3) icmp_sgt true
    ≡ ok true
unfolding perform_assign_cmp watts.Llvm.Const.get_constant_int icmp_gt watts.LatticeFact.Query.is_gt
    watts.LatticeFact.Query.is_leq
cmp_run = refl

perform_assign_cmp_sound_example :
    reachability_sound.Covers true (update five 1 (truth (compare_ℤ icmp_sgt (pos 5) (pos 3))))
unfolding watts.Llvm.Const.signed
perform_assign_cmp_sound_example =
    perform_assign_cmp_sound reachability reachability_sound true ctx true true five
      (true-Covers five) 1 (local 11) (local 0) (const_int 32 3) icmp_sgt (pos 5) (pos 3) refl
      (0, refl, refl) refl tt three-Negatable cmp_run
