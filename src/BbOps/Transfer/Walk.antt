-- ===== src/BbOps/Transfer/Walk.antt =====
-- bbops.cpp: `getFactInBBBefore` over the whole body of a block, without the assertion slice.
use watts.Prelude.{
  ℕ, ◌≡◌, ◌≢◌, ◌⊎◌, inl, inr, ap, subst, Bool, true, false, Result, Failure, ok, err, List, [], ◌∷◌,
  ok-inj, >>=-eq-ok, arith, if◌then◌else◌, All, ◌==◌, ==_iff, exit_failure,
}
use watts.Prelude.Map.{Map}
use watts.Apron.{Apron, Env}
use watts.Apron.Laws.{Sound}
use watts.Llvm.{assert_fail, Kind, Inst, Context}
use watts.BbOps.Transfer.{Flags, Slices, Books, transfer_func, step_before, walk}
use watts.BbOps.Transfer.Concrete.{RunsBody, Fails}
use watts.BbOps.Transfer.Sound.{transfer_func_sound}
use watts.BbOps.Transfer.Notes.{Reported, kind-Reported}

ok_of_else :
    {A : Type 0} (t : Bool) (x y : A) (s : Failure) → (if t then ok x else err s) ≡ ok y → x ≡ y
ok_of_else true x y s h = ok-inj x y h
ok_of_else false x y s h = cc

==-false : (m n : ℕ) → m ≢ n → (m == n) ≡ false
==-false m n h = ground (arith, ==_iff m n)

module _ (a : Apron) (l : Sound a) (fl : Flags) (ctx : Context) (interf : Map (a.Fact))
    (sl : Slices) (off : fl.assert_slice ≡ false) where
  open a use {Fact}
  open l use {Covers}

  abbrev returned : Fact → Books a → Result (Fact × Books a)
  returned f b = ok (f, b)

  -- The first step of a walk, and the rest.
  walk_parts :
      (before last : ℕ) (i : Inst) (is : List Inst) (f g : Fact) (b b' : Books a)
      → i.id ≢ before
      → walk a fl ctx interf sl before last (i ∷ is) f b ≡ returned g b'
      → (h : Fact) × (c : Books a) × (transfer_func a fl ctx interf i f b ≡ returned h c)
        × (walk a fl ctx interf sl before last is h c ≡ returned g b')
  unfolding walk step_before
  walk_parts before last i is f g b b' ne h =
      let (r, p, q) =
        >>=-eq-ok (step_before a fl ctx interf sl i f b) _ (rw (==-false i.id before ne) at h) in
      (r.0, r.1, rw off at p, q)

  walk_end :
      (before last : ℕ) (f g : Fact) (b b' : Books a)
      → walk a fl ctx interf sl before last [] f b ≡ returned g b'
      → (f ≡ g) × (b ≡ b')
  unfolding walk
  walk_end before last f g b b' h =
      let same = ok_of_else (last == before) (f, b) (g, b') exit_failure h in
      (ap (λ (p : Fact × Books a). p.0) same, ap (λ (p : Fact × Books a). p.1) same)

  step-Reported :
      (n : ℕ) (i : Inst) (f g : Fact) (b b' : Books a)
      → transfer_func a fl ctx interf i f b ≡ returned g b'
      → (Reported a n b ⊎ (i.id ≡ n) × (i.kind ≡ Kind.call assert_fail))
      → Reported a n b'
  unfolding transfer_func
  step-Reported n i f g b b' h r = kind-Reported a l fl ctx interf i.id n i.kind f g b b' h r

  module _ (before last : ℕ) where
    abbrev Elsewhere : List Inst → Type 0
    Elsewhere is = All (λ (i : Inst). i.id ≢ before) is

    pub walk_keeps :
        (is : List Inst) (f g : Fact) (b b' : Books a) (n : ℕ)
        → Elsewhere is
        → walk a fl ctx interf sl before last is f b ≡ returned g b'
        → Reported a n b
        → Reported a n b'
    walk_keeps [] f g b b' n w h r = subst (Reported a n) (walk_end before last f g b b' h).1 r
    walk_keeps (i ∷ is) f g b b' n w h r =
        let (f₁, b₁, p, q) = walk_parts before last i is f g b b' w.0 h in
        walk_keeps is f₁ g b₁ b' n w.1 q (step-Reported n i f f₁ b b₁ p (inl r))

    -- When the walk returns, it covers each concrete run of the instructions.
    pub walk_sound :
        (is : List Inst) (f g : Fact) (b b' : Books a) (e e' : Env)
        → Elsewhere is
        → Covers f e
        → walk a fl ctx interf sl before last is f b ≡ returned g b'
        → RunsBody a l fl ctx interf is e e'
        → Covers g e'
    walk_sound [] f g b b' e e' w c h s =
        rw s (subst (λ (y : Fact). Covers y e) (walk_end before last f g b b' h).0 c)
    walk_sound (i ∷ is) f g b b' e e' w c h (d, s, r) =
        let (f₁, b₁, p, q) = walk_parts before last i is f g b b' w.0 h in
        walk_sound is f₁ g b₁ b' d e' w.1
          (transfer_func_sound a l fl ctx interf i f f₁ b b₁ e d c s p) q r

    -- When the walk returns, each failing assertion that a concrete run comes to is reported.
    pub walk-Reported :
        (is : List Inst) (f g : Fact) (b b' : Books a) (e : Env) (n : ℕ)
        → Elsewhere is
        → Covers f e
        → walk a fl ctx interf sl before last is f b ≡ returned g b'
        → Fails a l fl ctx interf is n e
        → Reported a n b'
    walk-Reported [] f g b b' e n w c h s = absurd s
    walk-Reported (i ∷ is) f g b b' e n w c h (inl here) =
        let (f₁, b₁, p, q) = walk_parts before last i is f g b b' w.0 h in
        walk_keeps is f₁ g b₁ b' n w.1 q (step-Reported n i f f₁ b b₁ p (inr here))
    walk-Reported (i ∷ is) f g b b' e n w c h (inr (d, s, r)) =
        let (f₁, b₁, p, q) = walk_parts before last i is f g b b' w.0 h in
        walk-Reported is f₁ g b₁ b' d n w.1
          (transfer_func_sound a l fl ctx interf i f f₁ b b₁ e d c s p) q r
