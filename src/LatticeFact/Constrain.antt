-- ===== src/LatticeFact/Constrain.antt =====
-- latticefact.cpp: `constrainTF`, `constrainICmp` and `constrainFact`, which narrow a fact by the
-- condition of a branch. `constr_icmp` is the flag `constrICmp`.
pub mod Sound
use watts.Prelude.{ℕ, Bool, true, false, not, if◌then◌else◌, Option, some, none}
use watts.Prelude.{Result, ok, err, assertion, ◌>>=◌}
use watts.Prelude.Int.{pos}
use watts.Apron.{Apron, Constyp, eq, supeq, sup, diseq}
use watts.Llvm.{
  Value, const_int, null_ptr, const_expr, global, local, Predicate, icmp_eq, icmp_ne, icmp_ugt,
  icmp_uge, icmp_ult, icmp_ule, icmp_sgt, icmp_sge, icmp_slt, icmp_sle, Context,
}
use watts.Llvm.Const.{get_constant_int, map_at}
use watts.LatticeFact.Constr.{Sides, var_var, int_var, var_int}
use watts.LatticeFact.Meet.{meet_eq, meet_constr_ty}

module _ (ctx : Context) where
  -- The operands that `constrainFact` on values picks. Two constants fail its assertion.
  unfoldable pub sides_of : Value → Value → Result Sides
  sides_of (const_int w u) (const_int w' u') = err assertion
  sides_of (const_int w u) op1 = do
    val0 ← get_constant_int w u
    x ← map_at (ctx.v2n op1)
    ok (int_var val0 x)
  sides_of op0 (const_int w u) = do
    val1 ← get_constant_int w u
    x ← map_at (ctx.v2n op0)
    ok (var_int x val1)
  sides_of op0 op1 = do x ← map_at (ctx.v2n op0); y ← map_at (ctx.v2n op1); ok (var_var x y)

module _ (a : Apron) (oct : Bool) (ctx : Context) where
  open a use {Fact}

  pub constrain_fact : Value → Value → Constyp → Fact → Result Fact
  unfolding sides_of
  constrain_fact op0 op1 t f = do s ← sides_of ctx op0 op1; meet_constr_ty a oct s t f

  -- The signedness of a predicate is ignored.
  pub constrain_icmp : Predicate → Value → Value → Bool → Fact → Result Fact
  unfolding constrain_fact
  constrain_icmp icmp_ne op0 op1 tf f = constrain_fact op0 op1 (if tf then diseq else eq) f
  constrain_icmp icmp_eq op0 op1 tf f = constrain_fact op0 op1 (if tf then eq else diseq) f
  constrain_icmp icmp_ugt op0 op1 tf f =
      if tf then constrain_fact op0 op1 sup f else constrain_fact op1 op0 supeq f
  constrain_icmp icmp_sgt op0 op1 tf f =
      if tf then constrain_fact op0 op1 sup f else constrain_fact op1 op0 supeq f
  constrain_icmp icmp_ult op0 op1 tf f =
      if tf then constrain_fact op1 op0 sup f else constrain_fact op0 op1 supeq f
  constrain_icmp icmp_slt op0 op1 tf f =
      if tf then constrain_fact op1 op0 sup f else constrain_fact op0 op1 supeq f
  constrain_icmp icmp_uge op0 op1 tf f =
      if tf then constrain_fact op0 op1 supeq f else constrain_fact op1 op0 sup f
  constrain_icmp icmp_sge op0 op1 tf f =
      if tf then constrain_fact op0 op1 supeq f else constrain_fact op1 op0 sup f
  constrain_icmp icmp_ule op0 op1 tf f =
      if tf then constrain_fact op1 op0 supeq f else constrain_fact op0 op1 sup f
  constrain_icmp icmp_sle op0 op1 tf f =
      if tf then constrain_fact op1 op0 supeq f else constrain_fact op0 op1 sup f

  -- `b` is 1 on the true branch, and 0 on the false one.
  pub constrain_name : ℕ → Bool → Fact → Fact
  constrain_name b tf f = meet_eq a oct (var_int b (if tf then pos 1 else pos 0)) f

  pub constrain_by : Option (Predicate × Value × Value) → ℕ → Bool → Fact → Result Fact
  unfolding constrain_icmp constrain_name
  constrain_by none vstr tf f = ok (constrain_name vstr tf f)
  constrain_by (some (p, op0, op1)) vstr tf f = do
    g ← constrain_icmp p op0 op1 tf f
    ok (constrain_name vstr tf g)

  unfoldable pub constrain_tf : Bool → Value → Bool → Fact → Result Fact
  unfolding constrain_by
  constrain_tf constr_icmp v tf f = do
    vstr ← map_at (ctx.v2n v)
    constrain_by (if constr_icmp then ctx.compare_of v else none) vstr tf f
