-- ===== src/LatticeFact/Constr/Sound.antt =====
-- What the constraint that `createSubConstr` builds says of the two operands.
use watts.Prelude.{◌≡◌, ◌+◌, ◌≢◌, ◌↔◌, refl, arith, ap}
use watts.Prelude.Int.{
  ℤ, pos, negsuc, pos_part, neg_part, neg, ◌≤ℤ◌, ◌<ℤ◌, one_mul, neg_one_mul, int_laws, eq_of_parts,
}
use watts.Apron.{Env, Constyp, eq, supeq, sup, eqmod, diseq, Holds, eval}
use watts.LatticeFact.Constr.{
  Sides, var_var, int_var, var_int, swap, neg_int, sub_expr, create_sub_constr, left, right,
  Negatable,
}

neg_int-neg : (c : ℤ) → c ≢ negsuc 2147483647 → neg_int c ≡ neg c
unfolding neg_int
neg_int-neg (pos n) h = refl
neg_int-neg (negsuc n) h = ground (arith, λ (e : n ≡ 2147483647). h (ap negsuc e))

-- The value of the expression, in parts that `omega` reads.
pub eval-sub :
    (s : Sides) (e : Env)
    → Negatable s
    → pos_part (eval e (sub_expr s)) + neg_part (left s e) + pos_part (right s e)
      ≡ neg_part (eval e (sub_expr s)) + pos_part (left s e) + neg_part (right s e)
unfolding eval sub_expr
eval-sub (var_var x y) e h = rw (one_mul, neg_one_mul) (omega int_laws)
eval-sub (int_var c y) e h = rw neg_one_mul (omega int_laws)
eval-sub (var_int x c) e h = rw (one_mul, neg_int-neg c h) (omega int_laws)

-- The relation that a type of constraint stands for.
abbrev pub Relates : Constyp → ℤ → ℤ → Type 0
Relates eq a b = a ≡ b
Relates supeq a b = b ≤ℤ a
Relates sup a b = b <ℤ a
Relates eqmod a b = ⊥
Relates diseq a b = a ≢ b

abbrev IsDifference : ℤ → ℤ → ℤ → Type 0
IsDifference v a b = pos_part v + neg_part a + pos_part b ≡ neg_part v + pos_part a + neg_part b

zero_iff_eq : (v a b : ℤ) → IsDifference v a b → (v ≡ pos 0) ↔ (a ≡ b)
zero_iff_eq v a b d = (
  λ p. eq_of_parts a b (omega (arith, ap pos_part p, ap neg_part p)),
  λ p. eq_of_parts v (pos 0) (omega (arith, ap pos_part p, ap neg_part p)),
)

Holds-Relates : (t : Constyp) (v a b : ℤ) → IsDifference v a b → Holds t v ↔ Relates t a b
Holds-Relates eq v a b d = zero_iff_eq v a b d
Holds-Relates supeq v a b d = (λ p. omega arith, λ p. omega arith)
Holds-Relates sup v a b d = (λ p. omega arith, λ p. omega arith)
Holds-Relates eqmod v a b d = (λ p. p, λ p. p)
Holds-Relates diseq v a b d =
    let (to, from) = zero_iff_eq v a b d in (λ p q. p (from q), λ p q. p (to q))

-- The constraint built from two operands holds if and only if their values are in the relation of
-- its type, when a constant operand is not the least 32-bit integer.
pub Holds-sub :
    (t : Constyp) (s : Sides) (e : Env)
    → Negatable s
    → Holds t (eval e (create_sub_constr s t).expr) ↔ Relates t (left s e) (right s e)
unfolding create_sub_constr
Holds-sub t s e h = Holds-Relates t (eval e (sub_expr s)) (left s e) (right s e) (eval-sub s e h)

-- Exchanging the operands exchanges their values.
pub swap_lem : (s : Sides) (e : Env) → (left (swap s) e ≡ right s e) × (right (swap s) e ≡ left s e)
unfolding swap
swap_lem (var_var x y) e = (refl, refl)
swap_lem (int_var c y) e = (refl, refl)
swap_lem (var_int x c) e = (refl, refl)

pub swap-Negatable : (s : Sides) → Negatable s → Negatable (swap s)
unfolding swap
swap-Negatable (var_var x y) h = tt
swap-Negatable (int_var c y) h = h
swap-Negatable (var_int x c) h = h
