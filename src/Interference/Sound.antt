-- ===== src/Interference/Sound.antt =====
-- The merged and the joined maps cover what their parts cover.
use watts.Prelude.{
  ℕ, ◌≡◌, ◌≢◌, ◌⊎◌, inl, inr, sym, ap, subst, some, Option-cases, List, [], ◌∷◌, In, Result, ok,
  err, ok-inj, >>=-eq-ok, arith, assertion,
}
use watts.Prelude.Map.{Map, find, erase, emplace}
use watts.Apron.{Apron, Env}
use watts.Apron.Laws.{Sound}
use watts.Llvm.Const.{map_at}
use watts.Worklist.Pending.{Pending, added, find_erased, find_self, ==-cases}
use watts.Interference.{
  merge_fact, merge_fact_maps, join_stores, join_load, put_load, join_from, join_interfs,
}

module _ (a : Apron) (l : Sound a) where
  open a use {Fact, join}
  open l use {Covers}

  merge_fact-Pending :
      (k : ℕ) (f : Fact) (j : ℕ) (e : Env) (m : Map Fact)
      → (Pending a l j e m ⊎ (j ≡ k) × Covers f e)
      → Pending a l j e (merge_fact a k f m)
  unfolding merge_fact
  merge_fact-Pending k f j e m h = elim (Option-cases (find k m)) [
    | inl q ↦ rw (q, merge_fact) (added a l f k j e m q h)
    | inr (g, q) ↦
        rw (q, merge_fact)
          (added a l (join f g) k j e (erase k m) (find_self a l k m)
            (joined g q h (==-cases a l k j)))
  ]
    where
      joined :
          (g : Fact)
          → find k m ≡ some g
          → (Pending a l j e m ⊎ (j ≡ k) × Covers f e)
          → (k ≡ j) ⊎ (k ≢ j)
          → Pending a l j e (erase k m) ⊎ (j ≡ k) × Covers (join f g) e
      joined g q (inr (eq, c)) s = inr (eq, l.join_sound f g e (inl c))
      joined g q (inl (h, p, c)) (inl same) =
          inr (sym same, l.join_sound f g e (inr (ground arith)))
      joined g q (inl (h, p, c)) (inr other) = inl (h, rw (find_erased a l k j m other) p, c)

  -- A valuation that a fact of either map covers at a block is covered at that block by the merge.
  pub merge_fact_maps-Pending :
      (m₁ m₂ : Map Fact) (k : ℕ) (e : Env) (g : Fact)
      → ((find k m₁ ≡ some g) ⊎ In (k, g) m₂)
      → Covers g e
      → Pending a l k e (merge_fact_maps a m₁ m₂)
  unfolding merge_fact_maps
  merge_fact_maps-Pending m₁ [] k e g (inl q) c = (g, q, c)
  merge_fact_maps-Pending m₁ [] k e g (inr m) c = absurd m
  merge_fact_maps-Pending m₁ ((b, f) ∷ m₂) k e g (inl q) c =
      let (h, p, d) = merge_fact-Pending b f k e m₁ (inl (g, q, c)) in
      merge_fact_maps-Pending (merge_fact a b f m₁) m₂ k e h (inl p) d
  merge_fact_maps-Pending m₁ ((b, f) ∷ m₂) k e g (inr (inl m)) c =
      let (h, p, d) = merge_fact-Pending b f k e m₁ (
        inr (
          ap (λ (p : ℕ × Fact). p.0) m,
          subst (λ (x : Fact). Covers x e) (ap (λ (p : ℕ × Fact). p.1) m) c,
        )) in
      merge_fact_maps-Pending (merge_fact a b f m₁) m₂ k e h (inl p) d
  merge_fact_maps-Pending m₁ ((b, f) ∷ m₂) k e g (inr (inr m)) c =
      merge_fact_maps-Pending (merge_fact a b f m₁) m₂ k e g (inr m) c

  -- One of the stores has a fact that covers the valuation.
  abbrev Stored : Map Fact → List ℕ → Env → Type 0
  Stored facts ss e = (s : ℕ) × (g : Fact) × In s ss × (find s facts ≡ some g) × Covers g e

  read_fact :
      (facts : Map Fact) (s : ℕ) (f g : Fact)
      → map_at (find s facts) ≡ ok f
      → find s facts ≡ some g
      → f ≡ g
  read_fact facts s f g h q = sym (ok-inj g f (rw q at h))

  join_stores-Covers :
      (facts : Map Fact) (f h : Fact) (ss : List ℕ) (e : Env)
      → join_stores a facts f ss ≡ ok h
      → (Covers f e ⊎ Stored facts ss e)
      → Covers h e
  unfolding join_stores
  join_stores-Covers facts f h [] e r (inl c) = subst (λ (x : Fact). Covers x e) (ok-inj f h r) c
  join_stores-Covers facts f h [] e r (inr (s, g, m, q, c)) = absurd m
  join_stores-Covers facts f h (s ∷ ss) e r t =
      let (g, p, q) = >>=-eq-ok (map_at (find s facts)) _ r in
      join_stores-Covers facts (join f g) h ss e q (next g p t)
    where
      next :
          (g : Fact)
          → map_at (find s facts) ≡ ok g
          → (Covers f e ⊎ Stored facts (s ∷ ss) e)
          → Covers (join f g) e ⊎ Stored facts ss e
      next g p (inl c) = inl (l.join_sound f g e (inl c))
      next g p (inr (i, k, inl same, q, c)) = inl (
          l.join_sound f g e (
            inr (rw (read_fact facts s g k p (subst (λ (x : ℕ). find x facts ≡ some k) same q)) c)))
      next g p (inr (i, k, inr m, q, c)) = inr (i, k, m, q, c)

  join_load-Covers :
      (facts : Map Fact) (h : Fact) (ss : List ℕ) (e : Env)
      → join_load a facts ss ≡ ok h
      → Stored facts ss e
      → Covers h e
  unfolding join_load
  join_load-Covers facts h [] e r t = cc
  join_load-Covers facts h (s ∷ ss) e r (i, k, m, q, c) =
      let (f, p, r') = >>=-eq-ok (map_at (find s facts)) _ r in
      join_stores-Covers facts f h ss e r' (first f p m)
    where
      first :
          (f : Fact) → map_at (find s facts) ≡ ok f → In i (s ∷ ss) → Covers f e ⊎ Stored facts ss e
      first f p (inl same) =
          inl (rw (read_fact facts s f k p (subst (λ (x : ℕ). find x facts ≡ some k) same q)) c)
      first f p (inr n) = inr (i, k, n, q, c)

  put_load-Pending :
      (ld : ℕ) (f : Fact) (m next : Map Fact) (j : ℕ) (e : Env)
      → put_load a ld f m ≡ ok next
      → (Pending a l j e m ⊎ (j ≡ ld) × Covers f e)
      → Pending a l j e next
  unfolding put_load
  put_load-Pending ld f m next j e h t = elim (Option-cases (find ld m)) [
    | inl q ↦
        subst (Pending a l j e) (ok-inj (emplace ld f m) next (rw (q, put_load) at h))
          (added a l f ld j e m q t)
    | inr (g, q) ↦ absurd (stop (rw (q, put_load) at h))
  ]
    where
      failed : Result (Map Fact)
      failed = err assertion

      stop : failed ≢ ok next
      stop h = cc

  join_from-Pending :
      (facts : Map Fact) (loads : Map (List ℕ)) (m r : Map Fact) (ld : ℕ) (e : Env)
      → join_from a facts loads m ≡ ok r
      → (Pending a l ld e m ⊎ ((ss : List ℕ) × In (ld, ss) loads × Stored facts ss e))
      → Pending a l ld e r
  unfolding join_from
  join_from-Pending facts [] m r ld e h (inl p) = subst (Pending a l ld e) (ok-inj m r h) p
  join_from-Pending facts [] m r ld e h (inr (ss, n, t)) = absurd n
  join_from-Pending facts ((i, is) ∷ loads) m r ld e h t =
      let (f, p, h₁) = >>=-eq-ok (join_load a facts is) _ h in
      let (next, q, h₂) = >>=-eq-ok (put_load a i f m) _ h₁ in
      join_from-Pending facts loads next r ld e h₂ (onward f p next q t)
    where
      Waits : Type 0
      Waits = (ss : List ℕ) × In (ld, ss) ((i, is) ∷ loads) × Stored facts ss e

      onward :
          (f : Fact)
          → join_load a facts is ≡ ok f
          → (next : Map Fact) → put_load a i f m ≡ ok next
          → (Pending a l ld e m ⊎ Waits)
          → Pending a l ld e next ⊎ ((ss : List ℕ) × In (ld, ss) loads × Stored facts ss e)
      onward f p next q (inl w) = inl (put_load-Pending i f m next ld e q (inl w))
      onward f p next q (inr (ss, inl same, t)) = inl (
          put_load-Pending i f m next ld e q (
            inr (
              ap (λ (x : ℕ × List ℕ). x.0) same,
              join_load-Covers facts f is e p
                  (subst (λ (x : List ℕ). Stored facts x e) (ap (λ (x : ℕ × List ℕ). x.1) same) t),
            )))
      onward f p next q (inr (ss, inr n, t)) = inr (ss, n, t)

  -- When `joinInterfs` returns, a valuation that the fact of some interfering store of a load covers
  -- is covered by the fact that is joined for the load.
  pub join_interfs-Pending :
      (loads : Map (List ℕ)) (facts r : Map Fact) (ld s : ℕ) (ss : List ℕ) (g : Fact) (e : Env)
      → join_interfs a loads facts ≡ ok r
      → In (ld, ss) loads
      → In s ss
      → find s facts ≡ some g
      → Covers g e
      → Pending a l ld e r
  unfolding join_interfs
  join_interfs-Pending loads facts r ld s ss g e h m n q c =
      join_from-Pending facts loads [] r ld e h (inr (ss, m, (s, g, n, q, c)))
