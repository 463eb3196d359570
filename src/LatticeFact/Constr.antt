-- ===== src/LatticeFact/Constr.antt =====
-- latticefact.cpp: the operands of a comparison, and `createSubConstr`.
pub mod Sound
use watts.Prelude.{ℕ, ◌==◌, ◌≢◌, [], ◌∷◌, Bool, if◌then◌else◌}
use watts.Prelude.Int.{ℤ, pos, negsuc, neg}
use watts.Apron.{Apron, Env, LinExpr, Lincons, Constyp}

-- The operands of a comparison: a name against a name or an `int`.
pub data Sides : Type 0 where
  var_var : ℕ → ℕ → Sides
  int_var : ℤ → ℕ → Sides
  var_int : ℕ → ℤ → Sides

unfoldable pub swap : Sides → Sides
swap (var_var x y) = var_var y x
swap (int_var c x) = var_int x c
swap (var_int x c) = int_var c x

-- `-1 * c` of a 32-bit `int`; the least one wraps to itself.
pub neg_int : ℤ → ℤ
neg_int (pos n) = neg (pos n)
neg_int (negsuc n) = if n == 2147483647 then negsuc n else neg (negsuc n)

-- `createSubConstr`: the left side less the right side.
pub sub_expr : Sides → LinExpr
unfolding neg_int
sub_expr (var_var x y) = record { terms = (pos 1, x) ∷ (negsuc 0, y) ∷ []; cst = pos 0 }
sub_expr (int_var c y) = record { terms = (negsuc 0, y) ∷ []; cst = c }
sub_expr (var_int x c) = record { terms = (pos 1, x) ∷ []; cst = neg_int c }

unfoldable pub create_sub_constr : Sides → Constyp → Lincons
unfolding sub_expr
create_sub_constr s t = record { constyp = t; expr = sub_expr s }

abbrev pub left : Sides → Env → ℤ
left (var_var x y) e = e x
left (int_var c y) e = c
left (var_int x c) e = e x

abbrev pub right : Sides → Env → ℤ
right (var_var x y) e = e y
right (int_var c y) e = e y
right (var_int x c) e = c

-- The constant is not the `int` whose negation overflows.
abbrev pub Negatable : Sides → Type 0
Negatable (var_var x y) = Unit
Negatable (int_var c y) = c ≢ negsuc 2147483647
Negatable (var_int x c) = c ≢ negsuc 2147483647
