-- ===== src/Apron.antt =====
-- The part of the Apron library that worklist-ai/latticefact.cpp calls: expressions, constraints,
-- intervals, and the operations on abstract values as an interface that the analysis takes as a
-- parameter. Apron's variables are names that are only compared, so a number stands for a name.
pub mod Laws
pub mod Reachability
use watts.Prelude.{ℕ, ◌==◌, ◌%◌, ◌+◌, ◌≡◌, Bool, List, [], ◌∷◌, Option, none, some, if◌then◌else◌}
use watts.Prelude.Int.{ℤ, pos, negsuc, pos_part, neg_part, sub_ℕ, ◌+ℤ◌, ◌*ℤ◌, ◌≤ℤ◌, ◌<ℤ◌}

-- A valuation of the program's variables.
abbrev pub Env : Type 0
Env = ℕ → ℤ

abbrev pub update : Env → ℕ → ℤ → Env
update e x v y = if y == x then v else e y

-- A linear expression: coefficients of variables, and a constant.
pub record LinExpr : Type 0 where
  pub terms : List (ℤ × ℕ)
  pub cst : ℤ

pub eval_terms : Env → List (ℤ × ℕ) → ℤ → ℤ
eval_terms e [] c = c
eval_terms e ((k, x) ∷ ts) c = k *ℤ e x +ℤ eval_terms e ts c

unfoldable pub eval : Env → LinExpr → ℤ
unfolding eval_terms
eval e l = eval_terms e l.terms l.cst

-- `ap_constyp_t`
pub data Constyp : Type 0 where
  eq supeq sup eqmod diseq : Constyp

-- `ap_lincons1_t`: an expression compared with zero.
pub record Lincons : Type 0 where
  pub constyp : Constyp
  pub expr : LinExpr

-- What a constraint says of the value of its expression. `eqmod` is never built.
abbrev pub Holds : Constyp → ℤ → Type 0
Holds eq v = v ≡ pos 0
Holds supeq v = pos 0 ≤ℤ v
Holds sup v = pos 0 <ℤ v
Holds eqmod v = ⊥
Holds diseq v = ¬ (v ≡ pos 0)

-- `ap_interval_t`; a bound that is `none` is infinite.
pub data Interval : Type 0 where
  empty : Interval
  range : Option ℤ → Option ℤ → Interval

abbrev LowerOk : Option ℤ → ℤ → Type 0
LowerOk none v = Unit
LowerOk (some a) v = a ≤ℤ v

abbrev UpperOk : Option ℤ → ℤ → Type 0
UpperOk none v = Unit
UpperOk (some b) v = v ≤ℤ b

abbrev pub Within : ℤ → Interval → Type 0
Within v empty = ⊥
Within v (range a b) = LowerOk a v × UpperOk b v

-- Tree expressions over integers, rounded towards zero.
pub data Texpr : Type 0 where
  var : ℕ → Texpr
  cst : ℤ → Texpr
  add mul rem : Texpr → Texpr → Texpr

-- The remainder of a division that rounds towards zero; it has the sign of the dividend.
unfoldable pub trunc_rem : ℤ → ℤ → Option ℤ
trunc_rem a b =
    let m = pos_part b + neg_part b in
    if m == 0 then none else some (sub_ℕ (pos_part a % m) (neg_part a % m))

lift₂ : (ℤ → ℤ → Option ℤ) → Option ℤ → Option ℤ → Option ℤ
lift₂ f none b = none
lift₂ f (some a) none = none
lift₂ f (some a) (some b) = f a b

unfoldable pub eval_texpr : Env → Texpr → Option ℤ
unfolding lift₂
eval_texpr e (Texpr.var x) = some (e x)
eval_texpr e (Texpr.cst c) = some c
eval_texpr e (Texpr.add s t) = lift₂ (λ a b. some (a +ℤ b)) (eval_texpr e s) (eval_texpr e t)
eval_texpr e (Texpr.mul s t) = lift₂ (λ a b. some (a *ℤ b)) (eval_texpr e s) (eval_texpr e t)
eval_texpr e (Texpr.rem s t) = lift₂ trunc_rem (eval_texpr e s) (eval_texpr e t)

-- `assign_interval` is `ap_abstract1_assign_linexpr` of an expression that is one interval.
pub record Apron : Type 1 where
  pub Fact : Type 0
  pub bottom : Fact
  pub top : Fact
  pub is_leq : Fact → Fact → Bool
  pub is_eq : Fact → Fact → Bool
  pub is_bottom : Fact → Bool
  pub join : Fact → Fact → Fact
  pub assign_linexpr : Fact → ℕ → LinExpr → Fact
  pub assign_interval : Fact → ℕ → Interval → Fact
  pub assign_texpr : Fact → ℕ → Texpr → Fact
  pub meet_lincons : Fact → Lincons → Fact
  pub sat_lincons : Fact → Lincons → Bool
  pub bound_variable : Fact → ℕ → Interval
