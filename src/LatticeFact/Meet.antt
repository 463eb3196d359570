-- ===== src/LatticeFact/Meet.antt =====
-- latticefact.cpp: the meets with a constraint, `meetEq` to `meetConstrTy`, and `constrainFact`
-- on names and constants, which is the same call.
pub mod Sound
use watts.Prelude.{Bool, if◌then◌else◌, Result, ok, err, assertion}
use watts.Apron.{Apron, Constyp, eq, supeq, sup, eqmod, diseq}
use watts.LatticeFact.Constr.{Sides, swap, create_sub_constr}

module _ (a : Apron) (oct : Bool) where
  open a use {Fact, meet_lincons, join}

  pub meet_geq : Sides → Fact → Fact
  unfolding create_sub_constr
  meet_geq s f = meet_lincons f (create_sub_constr s supeq)

  pub meet_gt : Sides → Fact → Fact
  unfolding create_sub_constr
  meet_gt s f = meet_lincons f (create_sub_constr s sup)

  pub meet_lt : Sides → Fact → Fact
  unfolding create_sub_constr swap
  meet_lt s f = meet_lincons f (create_sub_constr (swap s) sup)

  pub meet_leq : Sides → Fact → Fact
  unfolding create_sub_constr swap
  meet_leq s f = meet_lincons f (create_sub_constr (swap s) supeq)

  pub meet_eq : Sides → Fact → Fact
  unfolding create_sub_constr meet_geq meet_leq
  meet_eq s f = if oct then meet_geq s (meet_leq s f) else meet_lincons f (create_sub_constr s eq)

  pub meet_neq : Sides → Fact → Fact
  unfolding create_sub_constr meet_lt meet_gt
  meet_neq s f =
      if oct then join (meet_lt s f) (meet_gt s f) else meet_lincons f (create_sub_constr s diseq)

  unfoldable pub meet_constr_ty : Sides → Constyp → Fact → Result Fact
  unfolding meet_eq meet_neq meet_geq meet_gt
  meet_constr_ty s eq f = ok (meet_eq s f)
  meet_constr_ty s supeq f = ok (meet_geq s f)
  meet_constr_ty s sup f = ok (meet_gt s f)
  meet_constr_ty s eqmod f = err assertion
  meet_constr_ty s diseq f = ok (meet_neq s f)
