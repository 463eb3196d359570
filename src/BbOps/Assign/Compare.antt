-- ===== src/BbOps/Assign/Compare.antt =====
-- bbops.cpp: the comparison that `performAssignCmp` assigns is the truth value of the operands.
use watts.Prelude.{
  ℕ, ◌≡◌, ◌≢◌, sym, ap, subst, ◌∙◌, Bool, not, some, Result, ok, ok-inj, ◌>>=◌, >>=-eq-ok, arith,
}
use watts.Prelude.Int.{ℤ, negsuc, eq_ℤ}
use watts.Apron.{Apron, Env, update}
use watts.Apron.Laws.{Sound}
use watts.Llvm.{
  Value, const_int, null_ptr, const_expr, global, local, Predicate, icmp_eq, icmp_ne, icmp_ugt,
  icmp_uge, icmp_ult, icmp_ule, icmp_sgt, icmp_sge, icmp_slt, icmp_sle, Context,
}
use watts.Llvm.Const.{signed, get_constant_int, get_constant_int-signed}
use watts.LatticeFact.Constr.{Sides, int_var, var_int, var_var, left, right, Negatable}
use watts.LatticeFact.Assign.{icmp_neq}
use watts.LatticeFact.Assign.Sound.{
  truth, Decides, icmp_eq_sound, icmp_neq_sound, icmp_gt_sound, icmp_geq_sound, icmp_lt_sound,
  icmp_leq_sound,
}
use watts.LatticeFact.Constrain.Sound.{compare_ℤ}
use watts.BbOps.Assign.{perform_assign_cmp, cmp_at, cmp_sides, cmp_var}
use watts.BbOps.Assign.Copies.{IntOperand}

-- The value is not the constant whose negation overflows an `int`.
abbrev pub NotLeast : Value → Type 0
NotLeast (const_int w u) = signed w u ≢ negsuc 2147483647
NotLeast v = Unit

module _ (a : Apron) (l : Sound a) (oct : Bool) (ctx : Context) where
  open a use {Fact}
  open l use {Covers}
  open ctx use {v2n}

  -- The sides are a constant and a variable, with the numbers of the operands.
  abbrev Picks : Env → ℤ → ℤ → Sides → Type 0
  Picks e m k (int_var c y) = (c ≡ m) × (e y ≡ k) × (c ≢ negsuc 2147483647)
  Picks e m k (var_int y c) = (e y ≡ m) × (c ≡ k) × (c ≢ negsuc 2147483647)
  Picks e m k (var_var y z) = ⊥

  cmp_var-IsVar :
      (e : Env) (v : Value) (n : ℤ) (y : ℕ)
      → IntOperand ctx e v n
      → cmp_var a oct ctx v ≡ ok y
      → e y ≡ n
  unfolding cmp_var
  cmp_var-IsVar e (const_int w u) n y s h = cc
  cmp_var-IsVar e null_ptr n y s h = cc
  cmp_var-IsVar e (const_expr i) n y s h = cc
  cmp_var-IsVar e (global i) n y s h = cc
  cmp_var-IsVar e (local i) n y (z, q, t) h = ap e (sym (ok-inj z y (rw q at h))) ∙ t

  module _ (e : Env) (m k : ℤ) (s : Sides) where
    const_left :
        (w u : ℕ) (v : Value)
        → signed w u ≡ m
        → IntOperand ctx e v k
        → signed w u ≢ negsuc 2147483647
        → (get_constant_int w u >>= λ c. cmp_var a oct ctx v >>= λ x. ok (int_var c x)) ≡ ok s
        → Picks e m k s
    const_left w u v p q n h =
        let (c, h₁, h₂) = >>=-eq-ok (get_constant_int w u) _ h in
        let (y, h₃, h₄) = >>=-eq-ok (cmp_var a oct ctx v) _ h₂ in
        let same = get_constant_int-signed w u c h₁ in
        subst (Picks e m k) (ok-inj (int_var c y) s h₄)
          (sym same ∙ p, cmp_var-IsVar e v k y q h₃, λ r. n (same ∙ r))

    const_right :
        (w u : ℕ) (v : Value)
        → signed w u ≡ k
        → IntOperand ctx e v m
        → signed w u ≢ negsuc 2147483647
        → (get_constant_int w u >>= λ c. cmp_var a oct ctx v >>= λ x. ok (var_int x c)) ≡ ok s
        → Picks e m k s
    const_right w u v p q n h =
        let (c, h₁, h₂) = >>=-eq-ok (get_constant_int w u) _ h in
        let (y, h₃, h₄) = >>=-eq-ok (cmp_var a oct ctx v) _ h₂ in
        let same = get_constant_int-signed w u c h₁ in
        subst (Picks e m k) (ok-inj (var_int y c) s h₄)
          (cmp_var-IsVar e v m y q h₃, sym same ∙ p, λ r. n (same ∙ r))

    cmp_sides-Picks :
        (v w : Value)
        → IntOperand ctx e v m
        → IntOperand ctx e w k
        → NotLeast v
        → NotLeast w
        → cmp_sides a oct ctx v w ≡ ok s
        → Picks e m k s
    unfolding cmp_sides
    cmp_sides-Picks (const_int w u) v p q n n' h = const_left w u v p q n h
    cmp_sides-Picks null_ptr (const_int w u) p q n n' h = const_right w u null_ptr q p n' h
    cmp_sides-Picks (const_expr i) (const_int w u) p q n n' h =
        const_right w u (const_expr i) q p n' h
    cmp_sides-Picks (global i) (const_int w u) p q n n' h = const_right w u (global i) q p n' h
    cmp_sides-Picks (local i) (const_int w u) p q n n' h = const_right w u (local i) q p n' h
    cmp_sides-Picks null_ptr v p q n n' h = ground arith
    cmp_sides-Picks (const_expr i) v p q n n' h = ground arith
    cmp_sides-Picks (global i) v p q n n' h = ground arith
    cmp_sides-Picks (local i) v p q n n' h = ground arith

    Picks-values : Picks e m k s → (left s e ≡ m) × (right s e ≡ k) × Negatable s
    Picks-values p =
        elim s as (λ t. Picks e m k t → (left t e ≡ m) × (right t e ≡ k) × Negatable t) [
          | int_var c y ↦ λ q. q
          | var_int y c ↦ λ q. q
          | var_var y z ↦ λ q. absurd q
        ]
          p

  module _ (f g : Fact) (e : Env) (c : Covers f e) (x : ℕ) where
    -- A decision that is returned covers the truth value.
    decided :
        (s : Sides) (r : Result Fact) (b : Bool)
        → Decides a l oct x s f e r b
        → r ≡ ok g
        → Covers g (update e x (truth b))
    decided s r b (h, p, q) t =
        subst (λ (y : Fact). Covers y (update e x (truth b))) (ok-inj h g (sym p ∙ t)) q

    neq_sound :
        (s : Sides) (m k : ℤ)
        → Picks e m k s
        → icmp_neq a oct x s f ≡ ok g
        → Covers g (update e x (truth (not (eq_ℤ (left s e) (right s e)))))
    unfolding icmp_neq
    neq_sound (int_var k y) m n p h = cc
    neq_sound (var_int y k) m n p h =
        decided (var_int y k) _ _ (icmp_neq_sound a l oct x y k f e p.2 c) h
    neq_sound (var_var y z) m n p h = absurd p

    cmp_at_sound :
        (p : Predicate) (s : Sides) (m k : ℤ)
        → Picks e m k s
        → cmp_at a oct ctx p x s f ≡ ok g
        → Covers g (update e x (truth (compare_ℤ p (left s e) (right s e))))
    unfolding cmp_at
    cmp_at_sound icmp_eq s m k p h =
        decided s _ _ (icmp_eq_sound a l oct x s f e (Picks-values e m k s p).2 c) h
    cmp_at_sound icmp_ne s m k p h = neq_sound s m k p h
    cmp_at_sound icmp_ugt s m k p h = cc
    cmp_at_sound icmp_uge s m k p h = cc
    cmp_at_sound icmp_ult s m k p h = cc
    cmp_at_sound icmp_ule s m k p h = cc
    cmp_at_sound icmp_sgt s m k p h =
        decided s _ _ (icmp_gt_sound a l oct x s f e (Picks-values e m k s p).2 c) h
    cmp_at_sound icmp_sge s m k p h =
        decided s _ _ (icmp_geq_sound a l oct x s f e (Picks-values e m k s p).2 c) h
    cmp_at_sound icmp_slt s m k p h =
        decided s _ _ (icmp_lt_sound a l oct x s f e (Picks-values e m k s p).2 c) h
    cmp_at_sound icmp_sle s m k p h =
        decided s _ _ (icmp_leq_sound a l oct x s f e (Picks-values e m k s p).2 c) h

    -- When the call returns, it covers the valuation in which the target has the truth value of the
    -- comparison, unless a constant operand is the least 32-bit integer.
    pub perform_assign_cmp_sound :
        (to v w : Value) (p : Predicate) (m k : ℤ)
        → v2n to ≡ some x
        → IntOperand ctx e v m
        → IntOperand ctx e w k
        → NotLeast v
        → NotLeast w
        → perform_assign_cmp a oct ctx to v w p f ≡ ok g
        → Covers g (update e x (truth (compare_ℤ p m k)))
    unfolding perform_assign_cmp
    perform_assign_cmp_sound to v w p m k q r t n n' h =
        let (s, h₁, h₂) = >>=-eq-ok (cmp_sides a oct ctx v w) _ h in
        let picks = cmp_sides-Picks e m k s v w r t n n' h₁ in
        let (eq₀, eq₁, neg) = Picks-values e m k s picks in
        rw (eq₀, eq₁) at (cmp_at_sound p s m k picks (rw q at h₂))
