-- ===== src/LatticeFact/Query/Sound.antt =====
-- A test that answers `true` is definite for every valuation that the fact covers.
use watts.Prelude.{◌≡◌, ◌≢◌, Bool, true, false, inl, inr, Bool-cases, arith, ap}
use watts.Prelude.Int.{pos_part, neg_part, ◌≤ℤ◌, ◌<ℤ◌, eq_of_parts}
use watts.Apron.{Apron, Env, Constyp, eq, supeq, sup, diseq}
use watts.Apron.Laws.{Sound}
use watts.LatticeFact.Constr.{Sides, swap, create_sub_constr, left, right, Negatable}
use watts.LatticeFact.Constr.Sound.{Relates, Holds-sub, swap_lem, swap-Negatable}
use watts.LatticeFact.Query.{is_geq, is_leq, is_gt, is_lt, is_eq, is_neq}

module _ (a : Apron) (l : Sound a) where
  open a use {Fact, sat_lincons}
  open l use {Covers}

  sat_sound' :
      (t : Constyp) (s : Sides) (f : Fact) (e : Env)
      → Negatable s
      → Covers f e
      → sat_lincons f (create_sub_constr s t) ≡ true
      → Relates t (left s e) (right s e)
  unfolding create_sub_constr
  sat_sound' t s f e n c h = (Holds-sub t s e n).0 (l.sat_sound f (create_sub_constr s t) e h c)

  module _ (oct : Bool) (s : Sides) (f : Fact) (e : Env) (n : Negatable s) (c : Covers f e) where
    pub is_geq_sound : is_geq a oct s f ≡ true → right s e ≤ℤ left s e
    unfolding is_geq
    is_geq_sound h = sat_sound' supeq s f e n c h

    pub is_gt_sound : is_gt a oct s f ≡ true → right s e <ℤ left s e
    unfolding is_gt
    is_gt_sound h = sat_sound' sup s f e n c h

    pub is_leq_sound : is_leq a oct s f ≡ true → left s e ≤ℤ right s e
    unfolding is_leq is_geq
    is_leq_sound h =
        let (to, from) = swap_lem s e in
        rw (to, from) at (sat_sound' supeq (swap s) f e (swap-Negatable s n) c h)

    pub is_lt_sound : is_lt a oct s f ≡ true → left s e <ℤ right s e
    unfolding is_lt is_gt
    is_lt_sound h =
        let (to, from) = swap_lem s e in
        rw (to, from) at (sat_sound' sup (swap s) f e (swap-Negatable s n) c h)

  pub is_eq_sound :
      (oct : Bool) (s : Sides) (f : Fact) (e : Env)
      → Negatable s
      → Covers f e
      → is_eq a oct s f ≡ true
      → left s e ≡ right s e
  unfolding is_eq
  is_eq_sound false s f e n c h = sat_sound' eq s f e n c h
  is_eq_sound true s f e n c h = elim (Bool-cases (is_geq a true s f)) [
    | inl g ↦ elim (Bool-cases (is_leq a true s f)) [
      | inl l ↦
          let ge = is_geq_sound true s f e n c g in
          let le = is_leq_sound true s f e n c l in eq_of_parts _ _ (omega arith)
      | inr l ↦ ground arith
    ]
    | inr g ↦ ground arith
  ]

  pub is_neq_sound :
      (oct : Bool) (s : Sides) (f : Fact) (e : Env)
      → Negatable s
      → Covers f e
      → is_neq a oct s f ≡ true
      → left s e ≢ right s e
  unfolding is_neq
  is_neq_sound false s f e n c h q = sat_sound' diseq s f e n c h q
  is_neq_sound true s f e n c h q = elim (Bool-cases (is_lt a true s f)) [
    | inl lt ↦
        let below = is_lt_sound true s f e n c lt in omega (arith, ap pos_part q, ap neg_part q)
    | inr ge ↦
        let above = is_gt_sound true s f e n c (ground arith) in
        omega (arith, ap pos_part q, ap neg_part q)
  ]
