-- ===== src/BbOps/Transfer/Notes.antt =====
-- bbops.cpp: a run over a block covers its body, puts down the failing assertions that it comes to,
-- and takes none off the books.
use watts.Prelude.{
  ℕ, ◌≡◌, ◌⊎◌, inl, inr, refl, sym, ap, subst, true, ◌||◌, Result, ok, ok-inj, ◌>>=◌, arith, ◌==◌,
  ==_iff, assertion,
}
use watts.Prelude.Map.{Map, count, count-insert}
use watts.Apron.{Apron}
use watts.Apron.Laws.{Sound}
use watts.Llvm.{
  Callee, pthread_create, pthread_exit, pthread_join, assert_fail, mfence, msync, mlwsync,
  other_function, Kind, Context,
}
use watts.BbOps.Transfer.{Flags, Books, transfer_kind, transfer_call, record_create}
use watts.BbOps.Transfer.Sound.{done, keep_out, put_out, ok_of_if}

abbrev pub Reported : (a : Apron) → ℕ → Books a → Type 0
Reported a n b = count n b.errors ≡ true

module _ (a : Apron) (l : Sound a) (fl : Flags) (ctx : Context) (interf : Map (a.Fact)) where
  open a use {Fact}
  open l use {Covers}

  books_of :
      (f g : Fact) (b b' : Books a)
      → ◌≡◌ {A = Result (Fact × Books a)} (ok (f, b)) (ok (g, b'))
      → b ≡ b'
  books_of f g b b' h = ap (λ (p : Fact × Books a). p.1) (ok-inj (f, b) (g, b') h)

  call-Reported :
      (i n : ℕ) (k : Callee) (f g : Fact) (b b' : Books a)
      → transfer_call a i k f b ≡ ok (g, b')
      → (Reported a n b ⊎ (i ≡ n) × (k ≡ assert_fail))
      → Reported a n b'
  unfolding transfer_call record_create
  call-Reported i n pthread_create f g b b' h (inl r) =
      subst (Reported a n) (ap (λ (p : Fact × Books a). p.1) (ok-inj _ _ h)) r
  call-Reported i n pthread_create f g b b' h (inr (s, t)) = cc
  call-Reported i n pthread_exit f g b b' h (inl r) = rw (sym (books_of f g b b' h)) r
  call-Reported i n pthread_exit f g b b' h (inr (s, t)) = cc
  call-Reported i n pthread_join f g b b' h (inl r) = rw (sym (books_of f g b b' h)) r
  call-Reported i n pthread_join f g b b' h (inr (s, t)) = cc
  call-Reported i n assert_fail f g b b' h r =
      subst (Reported a n)
        (ap (λ (p : Fact × Books a). p.1) (ok_of_if (a.is_bottom f) _ _ assertion h))
        (rw (count-insert i n b.errors) (put r))
    where
      put :
          (Reported a n b ⊎ (i ≡ n) × (assert_fail ≡ assert_fail))
          → (i == n) || count n b.errors ≡ true
      put (inl s) = ground arith
      put (inr (s, t)) = ground (arith, ==_iff i n)
  call-Reported i n mfence f g b b' h (inl r) = rw (sym (books_of f g b b' h)) r
  call-Reported i n mfence f g b b' h (inr (s, t)) = cc
  call-Reported i n msync f g b b' h (inl r) = rw (sym (books_of f g b b' h)) r
  call-Reported i n msync f g b b' h (inr (s, t)) = cc
  call-Reported i n mlwsync f g b b' h (inl r) = rw (sym (books_of f g b b' h)) r
  call-Reported i n mlwsync f g b b' h (inr (s, t)) = cc
  call-Reported i n other_function f g b b' h r = cc

  -- After the transfer of an instruction, what was reported still is, and so is the instruction if
  -- it is a failing assertion.
  pub kind-Reported :
      (i n : ℕ) (k : Kind) (f g : Fact) (b b' : Books a)
      → transfer_kind a fl ctx interf i k f b ≡ ok (g, b')
      → (Reported a n b ⊎ (i ≡ n) × (k ≡ Kind.call assert_fail))
      → Reported a n b'
  unfolding transfer_kind
  kind-Reported i n k f g b b' h (inl r) = carry k h
    where
      kept :
          (t : Result Fact) → (t >>= λ y. done a l fl ctx interf y b) ≡ ok (g, b') → Reported a n b'
      kept t h = subst (Reported a n) (keep_out a l fl ctx interf t g b b' h).1 r

      carry : (k : Kind) → transfer_kind a fl ctx interf i k f b ≡ ok (g, b') → Reported a n b'
      carry Kind.alloca h = subst (Reported a n) (books_of f g b b' h) r
      carry (Kind.store v p) h = rw (sym (put_out a l fl ctx interf i _ g b b' h).1) r
      carry (Kind.load p) h = kept _ h
      carry (Kind.icmp p v w) h = kept _ h
      carry (Kind.call c) h = call-Reported i n c f g b b' h (inl r)
      carry (Kind.binary op v w) h = kept _ h
      carry (Kind.cast v) h = kept _ h
      carry (Kind.phi vs) h = kept _ h
      carry (Kind.atomic_rmw op p v) h = rw (sym (put_out a l fl ctx interf i _ g b b' h).1) r
      carry (Kind.atomic_cmpxchg p) h = cc
      carry Kind.other_inst h = cc
  kind-Reported i n k f g b b' h (inr (s, t)) =
      call-Reported i n assert_fail f g b b' (rw t at h) (inr (s, refl))
