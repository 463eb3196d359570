-- ===== src/Examples/Facts.antt =====
-- The theorems on facts and branches at a concrete valuation, over the two-point domain.
use watts.Prelude.{
  ℕ, ◌≡◌, ◌≢◌, refl, Bool, true, false, Option, none, some, ◌==◌, ok, if◌then◌else◌,
}
use watts.Prelude.Int.{pos, negsuc}
use watts.Apron.{Env, diseq}
use watts.Apron.Reachability.{reachability, reachability_sound, true-Covers}
use watts.Llvm.{
  Value, const_int, local, Predicate, icmp_sgt, Kind, Inst, Terminator, br, cond_br, ret, Block,
  Context, assert_fail,
}
use watts.LatticeFact.Constr.{Sides, var_int}
use watts.LatticeFact.Meet.{meet_constr_ty}
use watts.LatticeFact.Meet.Sound.{meet_constr_ty_sound}
use watts.LatticeFact.Assign.Sound.{
  Decides, icmp_gt_sound, icmp_leq_sound, icmp_lt_sound, icmp_geq_sound,
}
use watts.LatticeFact.Assign.{icmp_gt, icmp_leq, icmp_lt, icmp_geq}
use watts.LatticeFact.Constrain.{constrain_tf}
use watts.LatticeFact.Constrain.Sound.{Narrows, constrain_tf_sound}
use watts.Llvm.{add, mul}

-- Variable 0 is 5 and variable 1 is 1.
abbrev pub five : Env
five x = if x == 0 then pos 5 else if x == 1 then pos 1 else pos 0

abbrev pub over_three : Sides
over_three = var_int 0 (pos 3)

pub three-Negatable : pos 3 ≢ negsuc 2147483647
three-Negatable h = cc

meet_constr_ty_sound_example :
    (g : Bool) × (meet_constr_ty reachability true over_three diseq true ≡ ok g)
    × reachability_sound.Covers g five
meet_constr_ty_sound_example =
    meet_constr_ty_sound reachability reachability_sound over_three five three-Negatable true diseq
      true (true-Covers five) (λ h. three≢five h)
  where
    three≢five : pos 5 ≢ pos 3
    three≢five h = cc

icmp_gt_sound_example :
    Decides reachability reachability_sound true 1 over_three true five
      (icmp_gt reachability true 1 over_three true)
      true
icmp_gt_sound_example =
    icmp_gt_sound reachability reachability_sound true 1 over_three true five three-Negatable
      (true-Covers five)

icmp_leq_sound_example :
    Decides reachability reachability_sound true 1 over_three true five
      (icmp_leq reachability true 1 over_three true)
      false
icmp_leq_sound_example =
    icmp_leq_sound reachability reachability_sound true 1 over_three true five three-Negatable
      (true-Covers five)

icmp_lt_sound_example :
    Decides reachability reachability_sound true 1 over_three true five
      (icmp_lt reachability true 1 over_three true)
      false
icmp_lt_sound_example =
    icmp_lt_sound reachability reachability_sound true 1 over_three true five three-Negatable
      (true-Covers five)

icmp_geq_sound_example :
    Decides reachability reachability_sound true 1 over_three true five
      (icmp_geq reachability true 1 over_three true)
      true
icmp_geq_sound_example =
    icmp_geq_sound reachability reachability_sound true 1 over_three true five three-Negatable
      (true-Covers five)

-- The value of instruction 11 is the comparison `v0 > 3`; each value is its own variable, and 11
-- is variable 1.
abbrev pub names : Value → Option ℕ
names (local i) = some (if i == 11 then 1 else i)
names _ = none

abbrev pub compared : Value → Option (Predicate × Value × Value)
compared (local i) = if i == 11 then some (icmp_sgt, local 0, const_int 32 3) else none
compared _ = none

abbrev pub ctx : Context
ctx = record {
  v2n = names;
  width = λ v. some 32;
  compare_of = compared;
  fold = λ i. const_int 32 i;
}

constrain_tf_sound_example :
    Narrows reachability reachability_sound true ctx
      (constrain_tf reachability true ctx true (local 11) true true)
      five
unfolding watts.LatticeFact.Constrain.sides_of watts.Llvm.Const.get_constant_int
constrain_tf_sound_example =
    constrain_tf_sound reachability reachability_sound true ctx true (local 11) 1 true true five
      refl (true-Covers five) refl (over_three, refl, three-Negatable, refl)
