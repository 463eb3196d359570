-- ===== src/LatticeFact/Constrain/Sound.antt =====
-- Narrowing by a branch keeps every valuation that takes the branch.
use watts.Prelude.{
  ℕ, ◌≡◌, ◌≢◌, refl, Bool, true, false, not, some, none, Option, ok, Result, arith, ==_iff, ==_refl,
  ◌+◌,
}
use watts.Prelude.Int.{
  ℤ, pos, ltb_ℤ, leb_ℤ, eq_ℤ, ◌≤ℤ◌, ◌<ℤ◌, eq_of_parts, pos_part, neg_part, negsuc,
}
use watts.Apron.{Apron, Env, Constyp, eq, supeq, sup, diseq}
use watts.Apron.Laws.{Sound}
use watts.Llvm.{
  Value, const_int, null_ptr, const_expr, global, local, Predicate, icmp_eq, icmp_ne, icmp_ugt,
  icmp_uge, icmp_ult, icmp_ule, icmp_sgt, icmp_sge, icmp_slt, icmp_sle, Context,
}
use watts.LatticeFact.Constr.{Sides, var_int, swap, left, right, Negatable}
use watts.LatticeFact.Constr.Sound.{Relates, swap_lem, swap-Negatable}
use watts.LatticeFact.Meet.Sound.{meet_eq_sound, meet_constr_ty_sound}
use watts.LatticeFact.Assign.Sound.{truth}
use watts.LatticeFact.Constrain.{
  sides_of, constrain_fact, constrain_icmp, constrain_name, constrain_by, constrain_tf,
}

-- The integers that a predicate relates, with its signedness ignored as the source does.
abbrev pub compare_ℤ : Predicate → ℤ → ℤ → Bool
compare_ℤ icmp_eq a b = eq_ℤ a b
compare_ℤ icmp_ne a b = not (eq_ℤ a b)
compare_ℤ icmp_ugt a b = ltb_ℤ b a
compare_ℤ icmp_sgt a b = ltb_ℤ b a
compare_ℤ icmp_uge a b = leb_ℤ b a
compare_ℤ icmp_sge a b = leb_ℤ b a
compare_ℤ icmp_ult a b = ltb_ℤ a b
compare_ℤ icmp_slt a b = ltb_ℤ a b
compare_ℤ icmp_ule a b = leb_ℤ a b
compare_ℤ icmp_sle a b = leb_ℤ a b

module _ (ctx : Context) where
  sides_of-swap :
      (v w : Value) → (s : Sides) → sides_of ctx v w ≡ ok s → sides_of ctx w v ≡ ok (swap s)
  unfolding sides_of swap
  sides_of-swap (const_int w u) (const_int w' u') s h = cc
  sides_of-swap (const_int w u) null_ptr s h = ground arith
  sides_of-swap (const_int w u) (const_expr i) s h = ground arith
  sides_of-swap (const_int w u) (global i) s h = ground arith
  sides_of-swap (const_int w u) (local i) s h = ground arith
  sides_of-swap null_ptr (const_int w u) s h = ground arith
  sides_of-swap null_ptr y s h = ground arith
  sides_of-swap (const_expr i) (const_int w u) s h = ground arith
  sides_of-swap (const_expr i) y s h = ground arith
  sides_of-swap (global i) (const_int w u) s h = ground arith
  sides_of-swap (global i) y s h = ground arith
  sides_of-swap (local i) (const_int w u) s h = ground arith
  sides_of-swap (local i) y s h = ground arith

-- What a test says of the integers, as the relation of a type of constraint.
eq_of_test : (a b : ℤ) → eq_ℤ a b ≡ true → a ≡ b
eq_of_test a b h = eq_of_parts a b ((==_iff _ _).0 h)

ne_of_test : (a b : ℤ) → eq_ℤ a b ≡ false → a ≢ b
ne_of_test a b h e = ground (arith, ==_refl (pos_part b + neg_part b))

lt_of_test : (a b : ℤ) → ltb_ℤ a b ≡ true → a <ℤ b
lt_of_test a b h = ground arith

ge_of_test : (a b : ℤ) → ltb_ℤ a b ≡ false → b ≤ℤ a
ge_of_test a b h = ground arith

le_of_test : (a b : ℤ) → leb_ℤ a b ≡ true → a ≤ℤ b
le_of_test a b h = ground arith

gt_of_test : (a b : ℤ) → leb_ℤ a b ≡ false → b <ℤ a
gt_of_test a b h = ground arith

not-true : (b : Bool) → not b ≡ true → b ≡ false
not-true b h = ground arith

not-false : (b : Bool) → not b ≡ false → b ≡ true
not-false b h = ground arith

pos≢negsuc : {m n : ℕ} → pos m ≢ negsuc n
pos≢negsuc h = cc

module _ (a : Apron) (l : Sound a) (oct : Bool) (ctx : Context) where
  open a use {Fact}
  open l use {Covers}

  -- The narrowed fact is returned, and covers the valuation.
  abbrev pub Narrows : Result Fact → Env → Type 0
  Narrows r e = (g : Fact) × (r ≡ ok g) × Covers g e

  module _ (v w : Value) (s : Sides) (e : Env) (f : Fact) (h : sides_of ctx v w ≡ ok s)
      (n : Negatable s) (c : Covers f e) where
    fact_sound :
        (t : Constyp)
        → Relates t (left s e) (right s e)
        → Narrows (constrain_fact a oct ctx v w t f) e
    unfolding constrain_fact
    fact_sound t r = rw h (meet_constr_ty_sound a l s e n oct t f c r)

    fact_swap_sound :
        (t : Constyp)
        → Relates t (right s e) (left s e)
        → Narrows (constrain_fact a oct ctx w v t f) e
    unfolding constrain_fact
    fact_swap_sound t r =
        let (to, from) = swap_lem s e in
        rw (sides_of-swap ctx v w s h)
          (meet_constr_ty_sound a l (swap s) e (swap-Negatable s n) oct t f c (rw (to, from) r))

    constrain_icmp_sound :
        (p : Predicate) (tf : Bool)
        → compare_ℤ p (left s e) (right s e) ≡ tf
        → Narrows (constrain_icmp a oct ctx p v w tf f) e
    unfolding constrain_icmp
    constrain_icmp_sound icmp_eq true r = fact_sound eq (eq_of_test (left s e) (right s e) r)
    constrain_icmp_sound icmp_eq false r = fact_sound diseq (ne_of_test (left s e) (right s e) r)
    constrain_icmp_sound icmp_ne true r =
        fact_sound diseq (ne_of_test (left s e) (right s e) (not-true _ r))
    constrain_icmp_sound icmp_ne false r =
        fact_sound eq (eq_of_test (left s e) (right s e) (not-false _ r))
    constrain_icmp_sound icmp_ugt true r = fact_sound sup (lt_of_test (right s e) (left s e) r)
    constrain_icmp_sound icmp_ugt false r =
        fact_swap_sound supeq (ge_of_test (right s e) (left s e) r)
    constrain_icmp_sound icmp_sgt true r = fact_sound sup (lt_of_test (right s e) (left s e) r)
    constrain_icmp_sound icmp_sgt false r =
        fact_swap_sound supeq (ge_of_test (right s e) (left s e) r)
    constrain_icmp_sound icmp_ult true r = fact_swap_sound sup (lt_of_test (left s e) (right s e) r)
    constrain_icmp_sound icmp_ult false r = fact_sound supeq (ge_of_test (left s e) (right s e) r)
    constrain_icmp_sound icmp_slt true r = fact_swap_sound sup (lt_of_test (left s e) (right s e) r)
    constrain_icmp_sound icmp_slt false r = fact_sound supeq (ge_of_test (left s e) (right s e) r)
    constrain_icmp_sound icmp_uge true r = fact_sound supeq (le_of_test (right s e) (left s e) r)
    constrain_icmp_sound icmp_uge false r =
        fact_swap_sound sup (gt_of_test (right s e) (left s e) r)
    constrain_icmp_sound icmp_sge true r = fact_sound supeq (le_of_test (right s e) (left s e) r)
    constrain_icmp_sound icmp_sge false r =
        fact_swap_sound sup (gt_of_test (right s e) (left s e) r)
    constrain_icmp_sound icmp_ule true r =
        fact_swap_sound supeq (le_of_test (left s e) (right s e) r)
    constrain_icmp_sound icmp_ule false r = fact_sound sup (gt_of_test (left s e) (right s e) r)
    constrain_icmp_sound icmp_sle true r =
        fact_swap_sound supeq (le_of_test (left s e) (right s e) r)
    constrain_icmp_sound icmp_sle false r = fact_sound sup (gt_of_test (left s e) (right s e) r)

  constrain_name_sound :
      (b : ℕ) (tf : Bool) (f : Fact) (e : Env)
      → Covers f e
      → e b ≡ truth tf
      → Covers (constrain_name a oct ctx b tf f) e
  unfolding constrain_name
  constrain_name_sound b true f e c h = meet_eq_sound a l (var_int b (pos 1)) e pos≢negsuc oct f c h
  constrain_name_sound b false f e c h =
      meet_eq_sound a l (var_int b (pos 0)) e pos≢negsuc oct f c h

  -- The comparison that a condition is the result of agrees with the valuation.
  abbrev pub Agrees : Option (Predicate × Value × Value) → Bool → Env → Type 0
  Agrees none tf e = Unit
  Agrees (some (p, v, w)) tf e =
      (s : Sides) × (sides_of ctx v w ≡ ok s)
      × Negatable s
      × (compare_ℤ p (left s e) (right s e) ≡ tf)

  constrain_by_sound :
      (o : Option (Predicate × Value × Value)) (b : ℕ) (tf : Bool) (f : Fact) (e : Env)
      → Covers f e
      → e b ≡ truth tf
      → Agrees o tf e
      → Narrows (constrain_by a oct ctx o b tf f) e
  unfolding constrain_by
  constrain_by_sound none b tf f e c h g = (_, refl, constrain_name_sound b tf f e c h)
  constrain_by_sound (some (p, v, w)) b tf f e c h (s, picked, n, r) =
      let (g, q, c') = constrain_icmp_sound v w s e f picked n c p tf r in
      (_, rw q, constrain_name_sound b tf g e c' h)

  -- Take a valuation that the fact covers, in which the condition has the value of the branch. If
  -- the condition is a comparison, let at most one operand be a constant, which fits an int and
  -- is not -2^31, let the others have names, and let them compare in the valuation, as integers,
  -- as the branch says. Then narrowing to that branch returns a fact that still covers the
  -- valuation, with or without the comparison in use.
  pub constrain_tf_sound :
      (constr_icmp : Bool) (v : Value) (b : ℕ) (tf : Bool) (f : Fact) (e : Env)
      → ctx.v2n v ≡ some b
      → Covers f e
      → e b ≡ truth tf
      → Agrees (ctx.compare_of v) tf e
      → Narrows (constrain_tf a oct ctx constr_icmp v tf f) e
  unfolding constrain_tf
  constrain_tf_sound false v b tf f e q c h g = rw q (constrain_by_sound none b tf f e c h tt)
  constrain_tf_sound true v b tf f e q c h g = rw q (constrain_by_sound _ b tf f e c h g)
