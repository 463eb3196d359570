-- ===== src/BbOps/Assign.antt =====
-- bbops.cpp: `performAssign` to `performNonCombinAssign`, one function for each method. Where the
-- source prints an error and gives up, an assertion fails first unless only `exit` is reached.
pub mod Copies
pub mod Sound
pub mod Compare
use watts.Prelude.{
  ℕ, ◌^◌, ◌-◌, ◌==◌, ltb, ◌&&◌, ◌||◌, not, Bool, true, false, if◌then◌else◌, some, none, List, [],
  ◌∷◌, Result, ok, err, assertion, exit_failure, undefined, ◌>>=◌,
}
use watts.Prelude.Int.{ℤ, pos, negsuc, eq_ℤ}
use watts.Apron.{Apron}
use watts.Llvm.{
  Value, const_int, null_ptr, const_expr, local, value_eq, Predicate, icmp_eq, icmp_ne, icmp_sgt,
  icmp_sge, icmp_slt, icmp_sle, Opcode, add, mul, xor, Context,
}
use watts.Llvm.Const.{get_constant_int, map_at}
use watts.LatticeFact.Constr.{Sides, int_var, var_int}
use watts.LatticeFact.Query.{is_eq}
use watts.LatticeFact.Assign
use watts.LatticeFact.Assign.{
  assign_int, assign_var, add_int, add_var, mod_int, mul_int, assign_interval, set_bottom,
  assign_true_false,
}

-- `(long)(unsigned long)std::pow(2.0, bw)`: 2^63 becomes negative, and from 2^64 on the
-- conversion from `double` is undefined.
modulus : ℕ → Result ℤ
modulus bw =
    if ltb bw 63
    then ok (pos (2 ^ bw))
    else if bw == 63
    then ok (negsuc (2 ^ 63 - 1))
    else err undefined

module _ (a : Apron) (oct : Bool) (ctx : Context) where
  open a use {Fact, join, bound_variable}
  open ctx use {v2n, width, fold}

  -- A folded constant that is a null pointer is refused: the source tests the value before folding.
  assign_folded : ℕ → Value → Fact → Result Fact
  assign_folded to (const_int w u) f = do val ← get_constant_int w u; ok (assign_int a to val f)
  assign_folded to v f = err assertion

  assign_from : ℕ → Value → Fact → Result Fact
  unfolding assign_folded
  assign_from to (const_int w u) f = do val ← get_constant_int w u; ok (assign_int a to val f)
  assign_from to null_ptr f = ok (assign_int a to (pos 0) f)
  assign_from to (const_expr i) f = assign_folded to (fold i) f
  assign_from to from f = do x ← map_at (v2n from); ok (assign_var a to x f)

  pub perform_assign : Value → Value → Fact → Result Fact
  unfolding assign_from
  perform_assign to from f = do x ← map_at (v2n to); assign_from x from f

  unfoldable pub perform_cast : Value → Value → Fact → Result Fact
  unfolding perform_assign
  perform_cast dst val f = perform_assign dst val f

  -- One round of the loop over the incoming values. The source handles constants and the results
  -- of comparisons only.
  join_incoming : ℕ → Value → Fact → Result Fact
  join_incoming to (const_int w u) f = do
    val ← get_constant_int w u
    ok (join f (assign_int a to val f))
  join_incoming to v f = elim (ctx.compare_of v) [
    | none ↦ err exit_failure
    | some c ↦ do x ← map_at (v2n v); ok (join f (assign_var a to x f))
  ]

  join_all : ℕ → List Value → Fact → Result Fact
  unfolding join_incoming
  join_all to [] f = ok f
  join_all to (v ∷ vs) f = do g ← join_incoming to v f; join_all to vs g

  pub perform_phi_inst : Value → List Value → Fact → Result Fact
  unfolding join_all
  perform_phi_inst phi incoming f = do
    to ← map_at (v2n phi)
    join_all to incoming (set_bottom a to f)

  binop_const : Opcode → ℕ → ℕ → ℤ → Fact → Result Fact
  binop_const add to x c f = ok (add_int a to x c f)
  binop_const mul to x c f = ok (mul_int a to x c f)
  binop_const op to x c f = err assertion

  binop_vars : Opcode → ℕ → Value → Value → Fact → Result Fact
  binop_vars add to v w f = do x ← map_at (v2n v); y ← map_at (v2n w); ok (add_var a to x y f)
  binop_vars op to v w f = err assertion

  const_first : Opcode → ℕ → ℕ → ℕ → Value → Fact → Result Fact
  unfolding binop_const
  const_first op to w u (const_int w' u') f = err assertion
  const_first op to w u op1 f = do
    c ← get_constant_int w u
    x ← map_at (v2n op1)
    binop_const op to x c f

  var_first : Opcode → ℕ → Value → Value → Fact → Result Fact
  unfolding binop_const binop_vars
  var_first op to op0 (const_int w u) f = do
    c ← get_constant_int w u
    x ← map_at (v2n op0)
    binop_const op to x c f
  var_first op to op0 op1 f = binop_vars op to op0 op1 f

  binop_at : Opcode → ℕ → Value → Value → Fact → Result Fact
  unfolding const_first var_first
  binop_at op to (const_int w u) op1 f = const_first op to w u op1 f
  binop_at op to op0 op1 f = var_first op to op0 op1 f

  pub perform_bin_op : Opcode → Value → Value → Value → Fact → Result Fact
  unfolding binop_at
  perform_bin_op op to op0 op1 f = do x ← map_at (v2n to); binop_at op x op0 op1 f

  unfoldable pub perform_bin_op_mod : Opcode → Value → Value → Value → Fact → Result Fact
  unfolding perform_bin_op modulus
  perform_bin_op_mod op to op0 op1 f = do
    tmp ← perform_bin_op op to op0 op1 f
    bw ← map_at (width to)
    bw2 ← modulus bw
    x ← map_at (v2n to)
    ok (mod_int a x x bw2 tmp)

  -- Which of 0 and 1 a one-bit operand may be.
  abbrev pub Bits : Type 0
  Bits = record { zero : Bool; one : Bool }

  -- `isEq` for 0 and for 1; with neither known, both are possible.
  operand_var : ℕ → Fact → Bits
  operand_var x f =
      let z = is_eq a oct (var_int x (pos 0)) f in
      let o = is_eq a oct (var_int x (pos 1)) f in
      record { zero = not (z || o) || z; one = not (z || o) || o }

  -- A constant first operand is 0 or 1, a constant second operand 0 or -1.
  operand_const : ℤ → ℤ → Result Bits
  operand_const one c =
      if eq_ℤ c (pos 0)
      then ok (record { zero = true; one = false })
      else if eq_ℤ c one
      then ok (record { zero = false; one = true })
      else err assertion

  pub operand : ℤ → Value → Fact → Result Bits
  unfolding operand_var operand_const
  operand one (const_int w u) f = do c ← get_constant_int w u; operand_const one c
  operand one v f = do x ← map_at (v2n v); ok (operand_var x f)

  abbrev is_i1 : Value → Bool
  is_i1 (const_int w u) = w == 1
  is_i1 v = elim (width v) [ none ↦ false | some w ↦ w == 1 ]

  xor_bits : ℕ → Bits → Bits → Fact → Result Fact
  xor_bits to p q f =
      assign_true_false a to ((p.one && q.zero) || (p.zero && q.one))
        ((p.zero && q.zero) || (p.one && q.one)) f

  -- Only the exclusive or of one-bit values is handled, and that of a value with itself.
  pub perform_logic_op : Opcode → Value → Value → Value → Fact → Result Fact
  unfolding operand xor_bits
  perform_logic_op xor to op0 op1 f = do
    x ← map_at (v2n to)
    if not (is_i1 op0) || not (is_i1 op1)
        then if value_eq op0 op1 then ok (assign_int a x (pos 0) f) else err assertion
        else do p ← operand (pos 1) op0 f; q ← operand (negsuc 0) op1 f; xor_bits x p q f
  perform_logic_op op to op0 op1 f = err assertion

  pub cmp_at : Predicate → ℕ → Sides → Fact → Result Fact
  cmp_at icmp_ne to s f = Assign.icmp_neq a oct to s f
  cmp_at icmp_eq to s f = Assign.icmp_eq a oct to s f
  cmp_at icmp_sgt to s f = Assign.icmp_gt a oct to s f
  cmp_at icmp_sge to s f = Assign.icmp_geq a oct to s f
  cmp_at icmp_slt to s f = Assign.icmp_lt a oct to s f
  cmp_at icmp_sle to s f = Assign.icmp_leq a oct to s f
  cmp_at p to s f = err assertion

  -- The variable side of a comparison: `isa<Constant>` holds of globals too.
  pub cmp_var : Value → Result ℕ
  cmp_var (local i) = map_at (v2n (local i))
  cmp_var v = err undefined

  pub cmp_sides : Value → Value → Result Sides
  unfolding cmp_var
  cmp_sides (const_int w u) op1 = do c ← get_constant_int w u; x ← cmp_var op1; ok (int_var c x)
  cmp_sides op0 (const_int w u) = do c ← get_constant_int w u; x ← cmp_var op0; ok (var_int x c)
  cmp_sides op0 op1 = err assertion

  unfoldable pub perform_assign_cmp : Value → Value → Value → Predicate → Fact → Result Fact
  unfolding cmp_at cmp_sides
  perform_assign_cmp to op0 op1 p f = do s ← cmp_sides op0 op1; x ← map_at (v2n to); cmp_at p x s f

  -- The value of `ptr` in the interference replaces that in the state, and is then loaded.
  unfoldable pub perform_assign_with_interf : Value → Value → Fact → Fact → Result Fact
  unfolding perform_assign
  perform_assign_with_interf to ptr f interf = do
    p ← map_at (v2n ptr)
    perform_assign to ptr (assign_interval a p (bound_variable interf p) f)

  -- The same with the interference and the state joined.
  unfoldable pub perform_non_combin_assign : Value → Value → Fact → Fact → Result Fact
  unfolding perform_assign
  perform_non_combin_assign to ptr f interf = do
    p ← map_at (v2n ptr)
    perform_assign to ptr (assign_interval a p (bound_variable (join f interf) p) f)

  unfoldable pub assign_interf : Bool → Value → Value → Fact → Fact → Result Fact
  unfolding perform_assign_with_interf perform_non_combin_assign
  assign_interf non_combin to ptr f interf =
      if non_combin
      then perform_non_combin_assign to ptr f interf
      else perform_assign_with_interf to ptr f interf

  rmw_write : Opcode → Value → Value → Value → Fact → Result Fact
  unfolding perform_bin_op
  rmw_write add ptr old v f = perform_bin_op add ptr old v f
  rmw_write op ptr old v f = err exit_failure

  -- The old value is the result, read with the interference if there is one.
  pub perform_atomic_rmw_interf : Bool → Value → Opcode → Value → Value → Fact → Fact → Result Fact
  unfolding assign_interf rmw_write
  perform_atomic_rmw_interf non_combin rmw op ptr v f interf = do
    with_ret ← assign_interf non_combin rmw ptr f interf
    rmw_write op ptr rmw v with_ret

  pub perform_atomic_rmw : Value → Opcode → Value → Value → Fact → Result Fact
  unfolding perform_assign rmw_write
  perform_atomic_rmw rmw op ptr v f = do
    with_ret ← perform_assign rmw ptr f
    rmw_write op ptr ptr v with_ret
