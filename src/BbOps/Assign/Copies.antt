-- ===== src/BbOps/Assign/Copies.antt =====
-- bbops.cpp: the operands of the methods that assign one variable, and the assignment of one value.
use watts.Prelude.{ℕ, ◌≡◌, sym, subst, ◌∙◌, Bool, some, ok, ok-inj, ◌>>=◌, >>=-eq-ok}
use watts.Prelude.Int.{ℤ, pos}
use watts.Apron.{Apron, Env, update}
use watts.Apron.Laws.{Sound}
use watts.Llvm.{Value, const_int, null_ptr, const_expr, global, local, Context}
use watts.Llvm.Const.{signed, get_constant_int, get_constant_int-signed, map_at}
use watts.LatticeFact.Assign.Sound.{assign_int_sound, assign_var_sound}
use watts.BbOps.Assign.{perform_assign, assign_from, assign_folded}

module _ (ctx : Context) where
  open ctx use {v2n, fold}

  -- The variable that stands for a value.
  abbrev pub IsVar : Env → Value → ℤ → Type 0
  IsVar e v n = (x : ℕ) × (v2n v ≡ some x) × (e x ≡ n)

  -- The number that a folded constant is.
  abbrev pub IsConst : Value → ℤ → Type 0
  IsConst (const_int w u) n = signed w u ≡ n
  IsConst v n = ⊥

  -- The number that is stored or cast.
  abbrev pub Operand : Env → Value → ℤ → Type 0
  Operand e (const_int w u) n = signed w u ≡ n
  Operand e null_ptr n = pos 0 ≡ n
  Operand e (const_expr i) n = IsConst (fold i) n
  Operand e v n = IsVar e v n

  -- The number that arithmetic reads.
  abbrev pub IntOperand : Env → Value → ℤ → Type 0
  IntOperand e (const_int w u) n = signed w u ≡ n
  IntOperand e v n = IsVar e v n

module _ (a : Apron) (l : Sound a) (oct : Bool) (ctx : Context) where
  open a use {Fact}
  open l use {Covers}
  open ctx use {v2n, fold}

  module _ (f : Fact) (e : Env) (c : Covers f e) (x : ℕ) (n : ℤ) (g : Fact) where
    const_sound :
        (w u : ℕ)
        → signed w u ≡ n
        → (get_constant_int w u >>= λ val. ok (watts.LatticeFact.Assign.assign_int a x val f))
          ≡ ok g
        → Covers g (update e x n)
    const_sound w u s h =
        let (val, p, q) = >>=-eq-ok (get_constant_int w u) _ h in
        subst (λ (r : Fact). Covers r (update e x n)) (ok-inj _ _ q)
          (subst (λ (m : ℤ). Covers (watts.LatticeFact.Assign.assign_int a x val f) (update e x m))
            (sym (get_constant_int-signed w u val p) ∙ s) (assign_int_sound a l f e c x val))

    folded_sound :
        (v : Value)
        → IsConst ctx v n
        → assign_folded a oct ctx x v f ≡ ok g
        → Covers g (update e x n)
    unfolding assign_folded
    folded_sound (const_int w u) s h = const_sound w u s h
    folded_sound null_ptr s h = absurd s
    folded_sound (const_expr i) s h = absurd s
    folded_sound (global i) s h = absurd s
    folded_sound (local i) s h = absurd s

    var_sound :
        (v : Value)
        → IsVar ctx e v n
        → (map_at (v2n v) >>= λ y. ok (watts.LatticeFact.Assign.assign_var a x y f)) ≡ ok g
        → Covers g (update e x n)
    var_sound v (y, q, s) h =
        subst (λ (r : Fact). Covers r (update e x n)) (ok-inj _ _ (rw q at h))
          (subst (λ (m : ℤ). Covers (watts.LatticeFact.Assign.assign_var a x y f) (update e x m)) s
            (assign_var_sound a l f e c x y))

    assign_from_sound :
        (from : Value)
        → Operand ctx e from n
        → assign_from a oct ctx x from f ≡ ok g
        → Covers g (update e x n)
    unfolding assign_from
    assign_from_sound (const_int w u) s h = const_sound w u s h
    assign_from_sound null_ptr s h =
        subst (λ (r : Fact). Covers r (update e x n)) (ok-inj _ _ h)
          (subst
            (λ (m : ℤ). Covers (watts.LatticeFact.Assign.assign_int a x (pos 0) f) (update e x m)) s
            (assign_int_sound a l f e c x (pos 0)))
    assign_from_sound (const_expr i) s h = folded_sound (fold i) s h
    assign_from_sound (global i) s h = var_sound (global i) s h
    assign_from_sound (local i) s h = var_sound (local i) s h

    -- When the call returns, it covers the valuation in which the target has the operand's number.
    pub perform_assign_sound :
        (to from : Value)
        → v2n to ≡ some x
        → Operand ctx e from n
        → perform_assign a oct ctx to from f ≡ ok g
        → Covers g (update e x n)
    unfolding perform_assign
    perform_assign_sound to from q s h = assign_from_sound from s (rw q at h)
