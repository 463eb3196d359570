-- ===== src/LatticeFact/Meet/Sound.antt =====
-- A meet with a constraint keeps every valuation at which the constraint holds.
use watts.Prelude.{◌≡◌, ◌≢◌, ◌⊎◌, inl, inr, refl, Bool, true, false, ok, arith, ap, ◌+◌}
use watts.Prelude.Int.{ℤ, pos_part, neg_part, ◌<ℤ◌, eq_of_parts}
use watts.Apron.{Apron, Env, Constyp, eq, supeq, sup, eqmod, diseq}
use watts.Apron.Laws.{Sound}
use watts.LatticeFact.Constr.{Sides, swap, create_sub_constr, left, right, Negatable}
use watts.LatticeFact.Constr.Sound.{Relates, Holds-sub, swap_lem, swap-Negatable}
use watts.LatticeFact.Meet.{meet_geq, meet_gt, meet_lt, meet_leq, meet_eq, meet_neq, meet_constr_ty}

lt_or_gt : (a b : ℤ) → a ≢ b → (a <ℤ b) ⊎ (b <ℤ a)
lt_or_gt a b h =
    omega (arith, λ (p : pos_part a + neg_part b ≡ pos_part b + neg_part a). h (eq_of_parts a b p))

module _ (a : Apron) (l : Sound a) where
  open a use {Fact, meet_lincons}
  open l use {Covers}

  meet_sound' :
      (t : Constyp) (s : Sides) (f : Fact) (e : Env)
      → Negatable s
      → Covers f e
      → Relates t (left s e) (right s e)
      → Covers (meet_lincons f (create_sub_constr s t)) e
  unfolding create_sub_constr
  meet_sound' t s f e n c r = l.meet_sound f (create_sub_constr s t) e c ((Holds-sub t s e n).1 r)

  meet_swap_sound :
      (t : Constyp) (s : Sides) (f : Fact) (e : Env)
      → Negatable s
      → Covers f e
      → Relates t (right s e) (left s e)
      → Covers (meet_lincons f (create_sub_constr (swap s) t)) e
  meet_swap_sound t s f e n c r =
      let (to, from) = swap_lem s e in
      meet_sound' t (swap s) f e (swap-Negatable s n) c (rw (to, from) r)

  module _ (s : Sides) (e : Env) (n : Negatable s) where
    pub meet_eq_sound :
        (oct : Bool) (f : Fact) → Covers f e → left s e ≡ right s e → Covers (meet_eq a oct s f) e
    unfolding meet_eq meet_geq meet_leq
    meet_eq_sound false f c r = meet_sound' eq s f e n c r
    meet_eq_sound true f c r =
        meet_sound' supeq s _ e n
          (meet_swap_sound supeq s f e n c (omega (arith, ap pos_part r, ap neg_part r)))
          (omega (arith, ap pos_part r, ap neg_part r))

    pub meet_neq_sound :
        (oct : Bool) (f : Fact) → Covers f e → left s e ≢ right s e → Covers (meet_neq a oct s f) e
    unfolding meet_neq meet_lt meet_gt
    meet_neq_sound false f c r = meet_sound' diseq s f e n c r
    meet_neq_sound true f c r = elim (lt_or_gt (left s e) (right s e) r) [
      | inl lt ↦ l.join_sound _ _ e (inl (meet_swap_sound sup s f e n c lt))
      | inr gt ↦ l.join_sound _ _ e (inr (meet_sound' sup s f e n c gt))
    ]

    -- The meet with a constraint returns, and covers each covered valuation in which the operands
    -- are in the relation of the constraint, with the octagon encoding or without,
    -- when a constant operand is not the least 32-bit integer.
    pub meet_constr_ty_sound :
        (oct : Bool) (t : Constyp) (f : Fact)
        → Covers f e
        → Relates t (left s e) (right s e)
        → (g : Fact) × (meet_constr_ty a oct s t f ≡ ok g) × Covers g e
    unfolding meet_constr_ty meet_geq meet_gt
    meet_constr_ty_sound oct eq f c r = (meet_eq a oct s f, refl, meet_eq_sound oct f c r)
    meet_constr_ty_sound oct supeq f c r = (meet_geq a oct s f, refl, meet_sound' supeq s f e n c r)
    meet_constr_ty_sound oct sup f c r = (meet_gt a oct s f, refl, meet_sound' sup s f e n c r)
    meet_constr_ty_sound oct eqmod f c r = absurd r
    meet_constr_ty_sound oct diseq f c r = (meet_neq a oct s f, refl, meet_neq_sound oct f c r)
