-- ===== src/BbOps/Assign/Sound.antt =====
-- bbops.cpp: the methods that compute one variable cover what LLVM computes.
use watts.Prelude.{
  ℕ, ◌^◌, ◌+◌, ◌<◌, ◌≡◌, refl, sym, subst, ◌∙◌, ==_refl, Bool, some, ok, ok-inj, ◌>>=◌, >>=-eq-ok,
  arith,
}
use watts.Prelude.Int.{ℤ, pos_part, neg_part, ◌+ℤ◌, ◌*ℤ◌, sub_ℕ}
use mathlib.Core.Path.{fun_ext}
use native.Mathlib.Nat.{mul_comm, mod-eq_of_lt}
use watts.Apron.{Apron, Env, update, trunc_rem}
use watts.Apron.Laws.{Sound}
use watts.Llvm.{
  Value, const_int, null_ptr, const_expr, global, local, Opcode, add, mul, xor, other_op, Context,
}
use watts.Llvm.Const.{signed, get_constant_int, get_constant_int-signed, map_at}
use watts.LatticeFact.Assign.Sound.{add_int_sound, add_var_sound, mul_int_sound, mod_int_sound}
use watts.BbOps.Assign.{
  perform_bin_op, binop_at, const_first, var_first, binop_const, binop_vars, perform_bin_op_mod,
  modulus,
}
use watts.BbOps.Assign.Copies.{IsVar, IntOperand}

-- What an opcode computes on integers, before it is reduced to the width.
abbrev pub Computes : Opcode → ℤ → ℤ → ℤ → Type 0
Computes add m n r = m +ℤ n ≡ r
Computes mul m n r = m *ℤ n ≡ r
Computes xor m n r = ⊥
Computes other_op m n r = ⊥

+ℤ_comm : (m n : ℤ) → m +ℤ n ≡ n +ℤ m
unfolding ◌+ℤ◌
+ℤ_comm m n = ground arith

*ℤ_comm : (m n : ℤ) → m *ℤ n ≡ n *ℤ m
unfolding ◌*ℤ◌
*ℤ_comm m n =
    same_sub _ _ _ _
      (omega (arith, mul_comm (pos_part m) (pos_part n), mul_comm (neg_part m) (neg_part n)))
      (omega (arith, mul_comm (pos_part m) (neg_part n), mul_comm (neg_part m) (pos_part n)))
  where
    same_sub : (p q r s : ℕ) → p ≡ r → q ≡ s → sub_ℕ p q ≡ sub_ℕ r s
    same_sub p q r s h k = rw (h, k) refl

-- Neither the positive nor the negative part reaches 2^w.
abbrev pub Fits : ℕ → ℤ → Type 0
Fits w n = (pos_part n < 2 ^ w) × (neg_part n < 2 ^ w)

modulus_size : (w : ℕ) (m : ℤ) → modulus w ≡ ok m → pos_part m + neg_part m ≡ 2 ^ w
unfolding modulus
modulus_size w m h = ground arith

trunc_rem_small :
    (n m : ℤ) (w : ℕ) → pos_part m + neg_part m ≡ 2 ^ w → Fits w n → trunc_rem n m ≡ some n
unfolding trunc_rem
trunc_rem_small n m w h k = rw (h, mod-eq_of_lt k.0, mod-eq_of_lt k.1) (ground arith)

module _ (a : Apron) (l : Sound a) (oct : Bool) (ctx : Context) where
  open a use {Fact}
  open l use {Covers}
  open ctx use {v2n, width}

  module _ (f : Fact) (e : Env) (c : Covers f e) (x : ℕ) where
    -- A fact that covers one number also covers an equal one, under an equal name.
    moved :
        (r s : Fact) (m n : ℤ) → r ≡ s → m ≡ n → Covers r (update e x m) → Covers s (update e x n)
    moved r s m n p q h = rw (sym p, sym q) h

    binop_const_sound :
        (op : Opcode) (y : ℕ) (k n : ℤ) (g : Fact)
        → Computes op (e y) k n
        → binop_const a oct ctx op x y k f ≡ ok g
        → Covers g (update e x n)
    unfolding binop_const
    binop_const_sound add y k n g r h =
        moved _ g _ n (ok-inj _ _ h) r (add_int_sound a l f e c x y k)
    binop_const_sound mul y k n g r h =
        moved _ g _ n (ok-inj _ _ h) (*ℤ_comm k (e y) ∙ r) (mul_int_sound a l f e c x y k)
    binop_const_sound xor y k n g r h = absurd r
    binop_const_sound other_op y k n g r h = absurd r

    Computes-comm : (op : Opcode) (m k n : ℤ) → Computes op m k n → Computes op k m n
    Computes-comm add m k n r = +ℤ_comm k m ∙ r
    Computes-comm mul m k n r = *ℤ_comm k m ∙ r
    Computes-comm xor m k n r = r
    Computes-comm other_op m k n r = r

    const_var_sound :
        (op : Opcode) (w u : ℕ) (v : Value) (m k n : ℤ) (g : Fact)
        → signed w u ≡ k
        → IsVar ctx e v m
        → Computes op m k n
        → (get_constant_int w u >>= λ val.
            map_at (v2n v) >>= λ y. binop_const a oct ctx op x y val f)
          ≡ ok g
        → Covers g (update e x n)
    const_var_sound op w u v m k n g s (y, q, t) r h =
        let (val, p, h₁) = >>=-eq-ok (get_constant_int w u) _ h in
        binop_const_sound op y val n g (rw (t, sym (get_constant_int-signed w u val p), s) r)
          (rw q at h₁)

    binop_vars_sound :
        (op : Opcode) (v w : Value) (m k n : ℤ) (g : Fact)
        → IsVar ctx e v m
        → IsVar ctx e w k
        → Computes op m k n
        → binop_vars a oct ctx op x v w f ≡ ok g
        → Covers g (update e x n)
    unfolding binop_vars
    binop_vars_sound add v w m k n g (y, q, t) (z, q', t') r h =
        moved _ g _ n (ok-inj _ _ (rw (q, q') at h)) (rw (t, t') r) (add_var_sound a l f e c x y z)
    binop_vars_sound mul v w m k n g s t r h = cc
    binop_vars_sound xor v w m k n g s t r h = absurd r
    binop_vars_sound other_op v w m k n g s t r h = absurd r

    module _ (op : Opcode) (m k n : ℤ) (g : Fact) (r : Computes op m k n) where
      const_first_sound :
          (w u : ℕ) (v : Value)
          → signed w u ≡ m
          → IntOperand ctx e v k
          → const_first a oct ctx op x w u v f ≡ ok g
          → Covers g (update e x n)
      unfolding const_first
      const_first_sound w u (const_int w' u') s t h = cc
      const_first_sound w u null_ptr s t h =
          const_var_sound op w u null_ptr k m n g s t (Computes-comm op m k n r) h
      const_first_sound w u (const_expr i) s t h =
          const_var_sound op w u (const_expr i) k m n g s t (Computes-comm op m k n r) h
      const_first_sound w u (global i) s t h =
          const_var_sound op w u (global i) k m n g s t (Computes-comm op m k n r) h
      const_first_sound w u (local i) s t h =
          const_var_sound op w u (local i) k m n g s t (Computes-comm op m k n r) h

      var_first_sound :
          (v w : Value)
          → IsVar ctx e v m
          → IntOperand ctx e w k
          → var_first a oct ctx op x v w f ≡ ok g
          → Covers g (update e x n)
      unfolding var_first
      var_first_sound v (const_int w u) s t h = const_var_sound op w u v m k n g t s r h
      var_first_sound v null_ptr s t h = binop_vars_sound op v null_ptr m k n g s t r h
      var_first_sound v (const_expr i) s t h = binop_vars_sound op v (const_expr i) m k n g s t r h
      var_first_sound v (global i) s t h = binop_vars_sound op v (global i) m k n g s t r h
      var_first_sound v (local i) s t h = binop_vars_sound op v (local i) m k n g s t r h

      binop_at_sound :
          (v w : Value)
          → IntOperand ctx e v m
          → IntOperand ctx e w k
          → binop_at a oct ctx op x v w f ≡ ok g
          → Covers g (update e x n)
      unfolding binop_at
      binop_at_sound (const_int w' u) w s t h = const_first_sound w' u w s t h
      binop_at_sound null_ptr w s t h = var_first_sound null_ptr w s t h
      binop_at_sound (const_expr i) w s t h = var_first_sound (const_expr i) w s t h
      binop_at_sound (global i) w s t h = var_first_sound (global i) w s t h
      binop_at_sound (local i) w s t h = var_first_sound (local i) w s t h

  update_twice : (e : Env) (x : ℕ) (m n : ℤ) → update (update e x m) x n ≡ update e x n
  update_twice e x m n = fun_ext (λ y. same y)
    where
      same : (y : ℕ) → update (update e x m) x n y ≡ update e x n y
      same y = ground arith

  -- When an addition or a multiplication of `bw` bits returns, it covers the valuation in which the
  -- target has the exact result, if that result is below 2^bw in size.
  pub perform_bin_op_mod_sound :
      (op : Opcode) (to v w : Value) (x bw : ℕ) (m k n : ℤ) (f g : Fact) (e : Env)
      → v2n to ≡ some x
      → width to ≡ some bw
      → IntOperand ctx e v m
      → IntOperand ctx e w k
      → Computes op m k n
      → Fits bw n
      → Covers f e
      → perform_bin_op_mod a oct ctx op to v w f ≡ ok g
      → Covers g (update e x n)
  unfolding perform_bin_op_mod perform_bin_op
  perform_bin_op_mod_sound op to v w x bw m k n f g e q b s t r fits c h =
      let (tmp, p, h₁) = >>=-eq-ok (perform_bin_op a oct ctx op to v w f) _ h in
      let (m₂, p₂, h₂) = >>=-eq-ok (modulus bw) _ (rw b at h₁) in
      let before = binop_at_sound f e c x op m k n tmp r v w s t (rw q at p) in
      let after = mod_int_sound a l tmp (update e x n) before x x m₂ n (trunc_rem_here m₂ p₂) in
      subst (λ (y : Fact). Covers y (update e x n)) (ok-inj _ _ (rw q at h₂))
        (subst (Covers (watts.LatticeFact.Assign.mod_int a x x m₂ tmp)) (update_twice e x n n)
          after)
    where
      own : update e x n x ≡ n
      own = rw (==_refl x) refl

      trunc_rem_here : (m₂ : ℤ) → modulus bw ≡ ok m₂ → trunc_rem (update e x n x) m₂ ≡ some n
      trunc_rem_here m₂ p = rw own (trunc_rem_small n m₂ bw (modulus_size bw m₂ p) fits)
