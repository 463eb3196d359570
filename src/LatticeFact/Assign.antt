-- ===== src/LatticeFact/Assign.antt =====
-- latticefact.cpp: the assignments, and the comparisons `icmpEq` to `icmpLeq` that assign their
-- result. The source compares a name with a constant only. A comparison that Apron leaves open in both directions may give 0 and 1.
pub mod Sound
use watts.Prelude.{ℕ, ◌&&◌, not, Bool, true, false, if◌then◌else◌, Option, some, none, [], ◌∷◌}
use watts.Prelude.{Result, ok, err, assertion}
use watts.Prelude.Int.{ℤ, pos}
use watts.Apron.{Apron, LinExpr, Interval, empty, range, Texpr, var, cst, add, mul, rem}
use watts.LatticeFact.Constr.{Sides}
use watts.LatticeFact.Query.{is_eq, is_neq, is_geq, is_leq, is_gt, is_lt}

module _ (a : Apron) where
  open a use {Fact, assign_linexpr, assign_texpr, top}

  pub assign_int : ℕ → ℤ → Fact → Fact
  assign_int to c f = assign_linexpr f to (record { terms = []; cst = c })

  unfoldable pub assign_var : ℕ → ℕ → Fact → Fact
  assign_var to from f = assign_linexpr f to (record { terms = (pos 1, from) ∷ []; cst = pos 0 })

  unfoldable pub add_int : ℕ → ℕ → ℤ → Fact → Fact
  add_int to op c f = assign_linexpr f to (record { terms = (pos 1, op) ∷ []; cst = c })

  pub add_var : ℕ → ℕ → ℕ → Fact → Fact
  add_var to op1 op2 f = assign_texpr f to (add (var op1) (var op2))

  unfoldable pub mod_int : ℕ → ℕ → ℤ → Fact → Fact
  mod_int to op c f = assign_texpr f to (rem (var op) (cst c))

  unfoldable pub mul_int : ℕ → ℕ → ℤ → Fact → Fact
  mul_int to op c f = assign_texpr f to (mul (cst c) (var op))

  unfoldable pub assign_interval : ℕ → Interval → Fact → Fact
  assign_interval v i f = a.assign_interval f v i

  pub set_bottom : ℕ → Fact → Fact
  unfolding assign_interval
  set_bottom to f = assign_interval to empty f

  pub assign_true_false : ℕ → Bool → Bool → Fact → Result Fact
  unfolding assign_interval assign_int
  assign_true_false to set_true set_false f =
      if set_true && set_false
      then ok (assign_interval to (range (some (pos 0)) (some (pos 1))) f)
      else if set_true
      then ok (assign_int to (pos 1) f)
      else if set_false
      then ok (assign_int to (pos 0) f)
      else err assertion

  -- The end that the comparisons share: with neither direction known, both are possible.
  pub settle : ℕ → Bool → Bool → Fact → Result Fact
  unfolding assign_true_false
  settle to sat unsat f =
      if not sat && not unsat
      then assign_true_false to true true f
      else assign_true_false to sat unsat f

module _ (a : Apron) (oct : Bool) where
  open a use {Fact}

  pub icmp_eq : ℕ → Sides → Fact → Result Fact
  unfolding settle
  icmp_eq to s f = settle a to (is_eq a oct s f) (is_neq a oct s f) f

  -- The overload for a constant on the left is `assert(0 && "unimplemented")`.
  unfoldable pub icmp_neq : ℕ → Sides → Fact → Result Fact
  unfolding settle
  icmp_neq to (Sides.int_var c x) f = err assertion
  icmp_neq to (Sides.var_int x c) f =
      settle a to (is_neq a oct (Sides.var_int x c) f) (is_eq a oct (Sides.var_int x c) f) f
  icmp_neq to (Sides.var_var x y) f =
      settle a to (is_neq a oct (Sides.var_var x y) f) (is_eq a oct (Sides.var_var x y) f) f

  unfoldable pub icmp_gt : ℕ → Sides → Fact → Result Fact
  unfolding settle
  icmp_gt to s f = settle a to (is_gt a oct s f) (is_leq a oct s f) f

  pub icmp_leq : ℕ → Sides → Fact → Result Fact
  unfolding settle
  icmp_leq to s f = settle a to (is_leq a oct s f) (is_gt a oct s f) f

  pub icmp_lt : ℕ → Sides → Fact → Result Fact
  unfolding settle
  icmp_lt to s f = settle a to (is_lt a oct s f) (is_geq a oct s f) f

  pub icmp_geq : ℕ → Sides → Fact → Result Fact
  unfolding settle
  icmp_geq to s f = settle a to (is_geq a oct s f) (is_lt a oct s f) f
