-- ===== src/LatticeFact/Query.antt =====
-- latticefact.cpp: the tests `isEq` to `isLT`, which ask Apron whether a fact satisfies a
-- constraint. `oct` is the flag `-oct`: octagons have no (dis)equalities.
pub mod Sound
use watts.Prelude.{◌&&◌, Bool, true, if◌then◌else◌}
use watts.Apron.{Apron, Constyp, eq, supeq, sup, diseq}
use watts.LatticeFact.Constr.{Sides, swap, create_sub_constr}

module _ (a : Apron) (oct : Bool) where
  open a use {Fact, sat_lincons}

  pub is_geq : Sides → Fact → Bool
  unfolding create_sub_constr
  is_geq s f = sat_lincons f (create_sub_constr s supeq)

  unfoldable pub is_leq : Sides → Fact → Bool
  unfolding is_geq swap
  is_leq s f = is_geq (swap s) f

  unfoldable pub is_gt : Sides → Fact → Bool
  unfolding create_sub_constr
  is_gt s f = sat_lincons f (create_sub_constr s sup)

  pub is_lt : Sides → Fact → Bool
  unfolding is_gt swap
  is_lt s f = is_gt (swap s) f

  pub is_eq : Sides → Fact → Bool
  unfolding is_geq is_leq create_sub_constr
  is_eq s f = if oct then is_geq s f && is_leq s f else sat_lincons f (create_sub_constr s eq)

  pub is_neq : Sides → Fact → Bool
  unfolding is_gt is_lt create_sub_constr
  is_neq s f =
      if oct
      then if is_lt s f then true else is_gt s f
      else sat_lincons f (create_sub_constr s diseq)
