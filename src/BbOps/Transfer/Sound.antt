-- ===== src/BbOps/Transfer/Sound.antt =====
-- bbops.cpp: the transfer of an instruction and of a block's body covers the concrete steps.
use watts.Prelude.{
  ℕ, ◌≡◌, ◌≢◌, ◌⊎◌, inl, inr, refl, sym, ap, subst, ◌∙◌, Bool, true, false, some, none, Option,
  Option-cases, Result, Failure, ok, err, List, [], ◌∷◌, ok-inj, ◌>>=◌, >>=-eq-ok, arith, or_fail,
  if◌then◌else◌, Bool-cases, All, In, ◌==◌, ==_iff,
}
use watts.Prelude.Map.{Map, find}
use watts.Apron.{Apron, Env, update}
use watts.Apron.Laws.{Sound}
use watts.Llvm.{
  Value, local, add, mul, xor, other_op, Callee, pthread_create, pthread_exit, pthread_join,
  assert_fail, mfence, msync, mlwsync, other_function, Kind, Inst, Context,
}
use watts.LatticeFact.Assign.{assign_interval}
use watts.BbOps.Assign.{
  perform_assign, perform_cast, assign_interf, perform_assign_with_interf,
  perform_non_combin_assign,
}
use watts.BbOps.Assign.Copies.{Operand, perform_assign_sound}
use watts.BbOps.Assign.Sound.{perform_bin_op_mod_sound}
use watts.BbOps.Assign.Compare.{perform_assign_cmp_sound}
use watts.BbOps.Transfer.{
  Flags, Books, transfer_func, transfer_kind, transfer_call, record_create, record_store,
  transfer_load, transfer_binary,
}
use watts.BbOps.Transfer.Concrete.{Loads, Executes}

pub ok_of_if :
    {A : Type 0} (t : Bool) (x y : A) (s : Failure) → (if t then err s else ok x) ≡ ok y → x ≡ y
ok_of_if true x y s h = cc
ok_of_if false x y s h = ok-inj x y h

module _ (a : Apron) (l : Sound a) (fl : Flags) (ctx : Context) (interf : Map (a.Fact)) where
  open a use {Fact, bound_variable, join}
  open l use {Covers}
  open ctx use {v2n}
  open fl use {use_oct, no_combins}

  -- The memory is replaced by that of the interference, and then read.
  interval_then_load :
      (to p : Value) (x y : ℕ) (f h g : Fact) (e d : Env)
      → v2n to ≡ some x
      → v2n p ≡ some y
      → Covers f e
      → Covers h d
      → Operand ctx (update e y (d y)) p (d y)
      → perform_assign a use_oct ctx to p (assign_interval a y (bound_variable h y) f) ≡ ok g
      → Covers g (update (update e y (d y)) x (d y))
  unfolding assign_interval
  interval_then_load to p x y f h g e d q r c k o ran =
      perform_assign_sound a l use_oct ctx (assign_interval a y (bound_variable h y) f)
        (update e y (d y))
        (l.interval_sound f y (bound_variable h y) e (d y) c (l.bound_sound h y d k)) x (d y) g to p
        q o ran

  load_sound :
      (i : ℕ) (p : Value) (o : Option Fact) (f g : Fact) (e e' : Env)
      → Covers f e
      → Loads a l fl ctx interf i p o e e'
      → transfer_load a fl ctx interf i p o f ≡ ok g
      → Covers g e'
  unfolding transfer_load assign_interf perform_assign_with_interf perform_non_combin_assign
  load_sound i p none f g e e' c (x, n, q, s, t) h =
      rw t (perform_assign_sound a l use_oct ctx f e c x n g (local i) p q s h)
  load_sound i p (some k) f g e e' c (x, y, d, q, r, m, s, t) h = elim (Bool-cases no_combins) [
    | inl b ↦
        rw t (
          interval_then_load (local i) p x y f (join f k) g e d q r c (either m) s (rw (b, r) at h))
    | inr b ↦
        rw t (interval_then_load (local i) p x y f k g e d q r c (other b m) s (rw (b, r) at h))
  ]
    where
      either : (Covers k d ⊎ (no_combins ≡ true) × (d ≡ e)) → Covers (join f k) d
      either (inl v) = l.join_sound f k d (inr v)
      either (inr (b, same)) = l.join_sound f k d (inl (rw same c))

      other : no_combins ≡ false → (Covers k d ⊎ (no_combins ≡ true) × (d ≡ e)) → Covers k d
      other b (inl v) = v
      other b (inr (b', same)) = cc

  call_sound :
      (i : ℕ) (k : Callee) (f g : Fact) (b b' : Books a)
      → transfer_call a i k f b ≡ ok (g, b')
      → f ≡ g
  unfolding transfer_call record_create
  call_sound i pthread_create f g b b' h = ap (λ (p : Fact × Books a). p.0) (ok-inj _ _ h)
  call_sound i pthread_exit f g b b' h = ap (λ (p : Fact × Books a). p.0) (ok-inj _ _ h)
  call_sound i pthread_join f g b b' h = ap (λ (p : Fact × Books a). p.0) (ok-inj _ _ h)
  call_sound i assert_fail f g b b' h =
      ap (λ (p : Fact × Books a). p.0) (ok_of_if (a.is_bottom f) _ _ watts.Prelude.assertion h)
  call_sound i mfence f g b b' h = ap (λ (p : Fact × Books a). p.0) (ok-inj _ _ h)
  call_sound i msync f g b b' h = ap (λ (p : Fact × Books a). p.0) (ok-inj _ _ h)
  call_sound i mlwsync f g b b' h = ap (λ (p : Fact × Books a). p.0) (ok-inj _ _ h)
  call_sound i other_function f g b b' h = cc

  abbrev pub done : Fact → Books a → Result (Fact × Books a)
  done f b = ok (f, b)

  -- What a transfer that keeps the books returns, and one that puts down the fact after a store.
  pub keep_out :
      (r : Result Fact) (g : Fact) (b b' : Books a)
      → ◌≡◌ {A = Result (Fact × Books a)} (r >>= λ f. done f b) (done g b')
      → (r ≡ ok g) × (b ≡ b')
  keep_out r g b b' h =
      let (f, p, q) = >>=-eq-ok r (λ (f : Fact). done f b) h in
      let same = ok-inj (f, b) (g, b') q in
      (p ∙ ap (λ (y : Fact × Books a). ok (y.0)) same, ap (λ (y : Fact × Books a). y.1) same)

  pub put_out :
      (i : ℕ) (r : Result Fact) (g : Fact) (b b' : Books a)
      → (r >>= λ f. ok (record_store a i f b)) ≡ ok (g, b')
      → (r ≡ ok g) × (b.errors ≡ b'.errors)
  unfolding record_store
  put_out i r g b b' h =
      let (f, p, q) = >>=-eq-ok r _ h in
      let same = ok-inj (record_store a i f b) (g, b') q in
      (p ∙ ap (λ (y : Fact × Books a). ok (y.0)) same, ap (λ (y : Fact × Books a). y.1.errors) same)

  -- The transfer of an instruction covers its concrete step.
  transfer_kind_sound :
      (i : ℕ) (k : Kind) (f g : Fact) (b b' : Books a) (e e' : Env)
      → Covers f e
      → Executes a l fl ctx interf i k e e'
      → transfer_kind a fl ctx interf i k f b ≡ ok (g, b')
      → Covers g e'
  unfolding transfer_kind transfer_binary perform_cast
  transfer_kind_sound i Kind.alloca f g b b' e e' c s h = rw s (
      subst (λ (y : Fact). Covers y e) (ap (λ (p : Fact × Books a). p.0) (ok-inj (f, b) (g, b') h))
        c)
  transfer_kind_sound i (Kind.store v p) f g b b' e e' c (x, n, q, s, t) h =
      rw t (perform_assign_sound a l use_oct ctx f e c x n g p v q s (put_out i _ g b b' h).0)
  transfer_kind_sound i (Kind.load p) f g b b' e e' c s h =
      load_sound i p (find i interf) f g e e' c s (keep_out _ g b b' h).0
  transfer_kind_sound i (Kind.icmp p v w) f g b b' e e' c (x, m, n, q, s, t, nv, nw, r) h = rw r (
      perform_assign_cmp_sound a l use_oct ctx f g e c x (local i) v w p m n q s t nv nw
        (keep_out _ g b b' h).0)
  transfer_kind_sound i (Kind.call k) f g b b' e e' c s h =
      rw s (subst (λ (y : Fact). Covers y e) (call_sound i k f g b b' h) c)
  transfer_kind_sound i (Kind.binary add v w) f g b b' e e' c
        (x, bw, m, k, n, q, z, s, t, r, fits, u) h =
      rw u (
        perform_bin_op_mod_sound a l use_oct ctx add (local i) v w x bw m k n f g e q z s t r fits c
          (keep_out _ g b b' h).0)
  transfer_kind_sound i (Kind.binary mul v w) f g b b' e e' c
        (x, bw, m, k, n, q, z, s, t, r, fits, u) h =
      rw u (
        perform_bin_op_mod_sound a l use_oct ctx mul (local i) v w x bw m k n f g e q z s t r fits c
          (keep_out _ g b b' h).0)
  transfer_kind_sound i (Kind.binary xor v w) f g b b' e e' c
        (x, bw, m, k, n, q, z, s, t, r, fits, u) h =
      absurd r
  transfer_kind_sound i (Kind.binary other_op v w) f g b b' e e' c
        (x, bw, m, k, n, q, z, s, t, r, fits, u) h =
      absurd r
  transfer_kind_sound i (Kind.cast v) f g b b' e e' c (x, n, q, s, t) h =
      rw t
        (perform_assign_sound a l use_oct ctx f e c x n g (local i) v q s (keep_out _ g b b' h).0)
  transfer_kind_sound i (Kind.phi vs) f g b b' e e' c s h = absurd s
  transfer_kind_sound i (Kind.atomic_rmw op p v) f g b b' e e' c s h = absurd s
  transfer_kind_sound i (Kind.atomic_cmpxchg p) f g b b' e e' c s h = absurd s
  transfer_kind_sound i Kind.other_inst f g b b' e e' c s h = absurd s

  -- When the transfer of an instruction returns, it covers each concrete step of the instruction
  -- from a covered valuation, where a load may read its own memory or that of its interference. A
  -- step is exact: arithmetic has one only if its result is below 2^width in size, a comparison
  -- only if no operand is the constant -2^31, a cast only if it keeps the number (a sign
  -- extension of a true bit does not), and phi nodes, exclusive or and atomic instructions have
  -- none.
  pub transfer_func_sound :
      (i : Inst) (f g : Fact) (b b' : Books a) (e e' : Env)
      → Covers f e
      → Executes a l fl ctx interf i.id i.kind e e'
      → transfer_func a fl ctx interf i f b ≡ ok (g, b')
      → Covers g e'
  unfolding transfer_func
  transfer_func_sound i f g b b' e e' c s h = transfer_kind_sound i.id i.kind f g b b' e e' c s h
