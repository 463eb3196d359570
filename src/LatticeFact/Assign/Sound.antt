-- ===== src/LatticeFact/Assign/Sound.antt =====
-- The assignments cover the concrete ones, and a comparison assigns its truth value.
use watts.Prelude.{
  ℕ, ◌≡◌, ◌≢◌, ◌∙◌, refl, ap, subst, Bool, true, false, some, inl, inr, Bool-cases, arith, ok,
  Result, [], ◌∷◌, not, ==_refl, ==_iff,
}
use watts.Prelude.Int.{ℤ, pos, ◌+ℤ◌, ◌*ℤ◌, ltb_ℤ, leb_ℤ, eq_ℤ, one_mul, eq_of_parts, ◌≤ℤ◌, ◌<ℤ◌}
use watts.Apron.{Apron, Env, update, eval, eval_texpr, trunc_rem, range}
use watts.Apron.Laws.{Sound}
use watts.LatticeFact.Constr.{Sides, var_int, left, right, Negatable}
use watts.LatticeFact.Query.Sound.{
  is_eq_sound, is_neq_sound, is_geq_sound, is_leq_sound, is_gt_sound, is_lt_sound,
}
use watts.LatticeFact.Assign.{
  assign_int, assign_var, add_int, add_var, mod_int, mul_int, assign_interval, assign_true_false,
  settle, icmp_eq, icmp_neq, icmp_gt, icmp_leq, icmp_lt, icmp_geq,
}

-- The value of a comparison: 1 or 0.
abbrev pub truth : Bool → ℤ
truth true = pos 1
truth false = pos 0

add_zero : (a : ℤ) → a +ℤ pos 0 ≡ a
unfolding ◌+ℤ◌
add_zero a = ground arith

eq_test : (a b : ℤ) → a ≡ b → eq_ℤ a b ≡ true
eq_test a b h = rw h (==_refl _)

ne_test : (a b : ℤ) → a ≢ b → eq_ℤ a b ≡ false
ne_test a b h = elim (Bool-cases (eq_ℤ a b)) [
  | inl t ↦ absurd (h (eq_of_parts a b ((==_iff _ _).0 t)))
  | inr t ↦ t
]

lt_test : (a b : ℤ) → a <ℤ b → ltb_ℤ a b ≡ true
lt_test a b h = ground arith

ge_test : (a b : ℤ) → b ≤ℤ a → ltb_ℤ a b ≡ false
ge_test a b h = ground arith

le_test : (a b : ℤ) → a ≤ℤ b → leb_ℤ a b ≡ true
le_test a b h = ground arith

gt_test : (a b : ℤ) → b <ℤ a → leb_ℤ a b ≡ false
gt_test a b h = ground arith

module _ (a : Apron) (l : Sound a) where
  open a use {Fact}
  open l use {Covers}

  module _ (f : Fact) (e : Env) (c : Covers f e) where
    pub assign_int_sound : (to : ℕ) (v : ℤ) → Covers (assign_int a to v f) (update e to v)
    unfolding assign_int eval
    assign_int_sound to v = l.linexpr_sound f to (record { terms = []; cst = v }) e c

    pub assign_var_sound : (to from : ℕ) → Covers (assign_var a to from f) (update e to (e from))
    unfolding assign_var eval
    assign_var_sound to from =
        subst (λ v. Covers (assign_var a to from f) (update e to v))
          (add_zero (pos 1 *ℤ e from) ∙ one_mul (e from))
          (l.linexpr_sound f to (record { terms = (pos 1, from) ∷ []; cst = pos 0 }) e c)

    pub add_int_sound : (to op : ℕ) (k : ℤ) → Covers (add_int a to op k f) (update e to (e op +ℤ k))
    unfolding add_int eval
    add_int_sound to op k =
        subst (λ v. Covers (add_int a to op k f) (update e to (v +ℤ k))) (one_mul (e op))
          (l.linexpr_sound f to (record { terms = (pos 1, op) ∷ []; cst = k }) e c)

    pub add_var_sound : (to x y : ℕ) → Covers (add_var a to x y f) (update e to (e x +ℤ e y))
    unfolding add_var eval_texpr
    add_var_sound to x y = l.texpr_sound f to _ e (e x +ℤ e y) c refl

    pub mul_int_sound : (to x : ℕ) (k : ℤ) → Covers (mul_int a to x k f) (update e to (k *ℤ e x))
    unfolding mul_int eval_texpr
    mul_int_sound to x k = l.texpr_sound f to _ e (k *ℤ e x) c refl

    pub mod_int_sound :
        (to x : ℕ) (k v : ℤ)
        → trunc_rem (e x) k ≡ some v
        → Covers (mod_int a to x k f) (update e to v)
    unfolding mod_int eval_texpr
    mod_int_sound to x k v h = l.texpr_sound f to _ e v c h

    both_sound :
        (to : ℕ) (p : Bool)
        → Covers
            (assign_interval a to (range (some (pos 0)) (some (pos 1))) f)
            (update e to (truth p))
    unfolding assign_interval
    both_sound to true = l.interval_sound f to _ e (pos 1) c (omega arith)
    both_sound to false = l.interval_sound f to _ e (pos 0) c (omega arith)

    -- With both ends wrong about nothing, the value that is left is covered.
    pub settle_sound :
        (to : ℕ) (sat unsat p : Bool)
        → (sat ≡ true → p ≡ true)
        → (unsat ≡ true → p ≡ false)
        → (g : Fact) × (settle a to sat unsat f ≡ ok g) × Covers g (update e to (truth p))
    unfolding settle assign_true_false
    settle_sound to true true p yes' no' =
        (assign_interval a to (range (some (pos 0)) (some (pos 1))) f, refl, both_sound to p)
    settle_sound to true false p yes' no' =
        (assign_int a to (pos 1) f, refl, rw (yes' refl) (assign_int_sound to (pos 1)))
    settle_sound to false true p yes' no' =
        (assign_int a to (pos 0) f, refl, rw (no' refl) (assign_int_sound to (pos 0)))
    settle_sound to false false p yes' no' =
        (assign_interval a to (range (some (pos 0)) (some (pos 1))) f, refl, both_sound to p)

  module _ (oct : Bool) (to : ℕ) (s : Sides) (f : Fact) (e : Env) where
    -- The comparison returns a fact that covers the valuation with the truth value assigned.
    abbrev pub Decides : Result Fact → Bool → Type 0
    Decides r p = (g : Fact) × (r ≡ ok g) × Covers g (update e to (truth p))

    module _ (n : Negatable s) (c : Covers f e) where
      -- Assigning an equality test returns a fact that covers each covered valuation with the test's
      -- truth value assigned, when a constant operand is not the least 32-bit integer.
      pub icmp_eq_sound : Decides (icmp_eq a oct to s f) (eq_ℤ (left s e) (right s e))
      unfolding icmp_eq
      icmp_eq_sound =
          settle_sound f e c to _ _ _
            (λ h. eq_test (left s e) (right s e) (is_eq_sound a l oct s f e n c h))
            (λ h. ne_test (left s e) (right s e) (is_neq_sound a l oct s f e n c h))

      pub icmp_gt_sound : Decides (icmp_gt a oct to s f) (ltb_ℤ (right s e) (left s e))
      unfolding icmp_gt
      icmp_gt_sound =
          settle_sound f e c to _ _ _
            (λ h. lt_test (right s e) (left s e) (is_gt_sound a l oct s f e n c h))
            (λ h. ge_test (right s e) (left s e) (is_leq_sound a l oct s f e n c h))

      pub icmp_leq_sound : Decides (icmp_leq a oct to s f) (leb_ℤ (left s e) (right s e))
      unfolding icmp_leq
      icmp_leq_sound =
          settle_sound f e c to _ _ _
            (λ h. le_test (left s e) (right s e) (is_leq_sound a l oct s f e n c h))
            (λ h. gt_test (left s e) (right s e) (is_gt_sound a l oct s f e n c h))

      pub icmp_lt_sound : Decides (icmp_lt a oct to s f) (ltb_ℤ (left s e) (right s e))
      unfolding icmp_lt
      icmp_lt_sound =
          settle_sound f e c to _ _ _
            (λ h. lt_test (left s e) (right s e) (is_lt_sound a l oct s f e n c h))
            (λ h. ge_test (left s e) (right s e) (is_geq_sound a l oct s f e n c h))

      pub icmp_geq_sound : Decides (icmp_geq a oct to s f) (leb_ℤ (right s e) (left s e))
      unfolding icmp_geq
      icmp_geq_sound =
          settle_sound f e c to _ _ _
            (λ h. le_test (right s e) (left s e) (is_geq_sound a l oct s f e n c h))
            (λ h. gt_test (right s e) (left s e) (is_lt_sound a l oct s f e n c h))

  -- Assigning an inequality test of a variable and a constant that is not the least 32-bit integer
  -- returns a fact that covers each covered valuation with the test's truth value assigned.
  pub icmp_neq_sound :
      (oct : Bool) (to x : ℕ) (k : ℤ) (f : Fact) (e : Env)
      → Negatable (var_int x k)
      → Covers f e
      → Decides oct to (var_int x k) f e (icmp_neq a oct to (var_int x k) f) (not (eq_ℤ (e x) k))
  unfolding icmp_neq
  icmp_neq_sound oct to x k f e n c =
      settle_sound f e c to _ _ _
        (λ h. ap not (ne_test (e x) k (is_neq_sound a l oct (var_int x k) f e n c h)))
        (λ h. ap not (eq_test (e x) k (is_eq_sound a l oct (var_int x k) f e n c h)))
