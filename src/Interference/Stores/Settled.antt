-- ===== src/Interference/Stores/Settled.antt =====
-- What `flattenReachStores` finds for a store, and what `stableStores` says of the facts.
use watts.Prelude.{
  ℕ, ◌≡◌, ◌↔◌, ◌⊎◌, inl, inr, sym, ap, ◌∙◌, ◌==◌, ==_iff, ◌&&◌, not, Bool, true, false,
  if◌then◌else◌, Bool-cases, Option, none, some, Option-cases, [], ◌∷◌, In, ok, err, ok-inj,
  assertion, ◌>>=◌, >>=-eq-ok, arith,
}
use watts.Prelude.Map.{Map, find, emplace, find-emplace}
use watts.Interference.Stores.{
  flatten_thread, flatten_from, flatten_reach_stores, stable_from, stable_stores,
}

module _ {A : Type 0} where
  -- The thread's map has the fact at the store.
  abbrev pub HasFact : Map A → ℕ → A → Type 0
  HasFact stores s f = In {A = ℕ × A} (s, f) stores

  abbrev pub SomeHasFact : Map (Map A) → ℕ → A → Type 0
  SomeHasFact [] s f = ⊥
  SomeHasFact ((t, stores) ∷ reach_strs) s f = HasFact stores s f ⊎ SomeHasFact reach_strs s f

  find-In : (s : ℕ) (f : A) (m : Map A) → find s m ≡ some f → In {A = ℕ × A} (s, f) m
  unfolding find
  find-In s f [] h = cc
  find-In s f ((t, g) ∷ m) h = elim (Bool-cases (t == s)) [
    | inl b ↦ inl (pair ((==_iff t s).0 b) (rw (b, find) at h))
    | inr b ↦ inr (find-In s f m (rw (b, find) at h))
  ]
    where
      pair : t ≡ s → some g ≡ some f → ◌≡◌ {A = ℕ × A} (s, f) (t, g)
      pair e y = cc

  put-HasFact :
      (s : ℕ) (f : A) (t : ℕ) (g : A) (facts : Map A)
      → find t facts ≡ none
      → (find s (emplace t g facts) ≡ some f)
        ↔ ((◌≡◌ {A = ℕ × A} (s, f) (t, g)) ⊎ (find s facts ≡ some f))
  put-HasFact s f t g facts h = elim (Bool-cases (t == s)) [
    | inl b ↦ at_key ((==_iff t s).0 b) b
    | inr b ↦
        rw (find-emplace t s g facts h, b)
          (λ x. inr x, λ x. elim x [ inl e ↦ absurd (apart b e) | inr y ↦ y ])
  ]
    where
      apart : (t == s) ≡ false → ◌≡◌ {A = ℕ × A} (s, f) (t, g) → ⊥
      apart b e = ground (arith, ==_iff t s, ap (λ (p : ℕ × A). p.0) e)

      missing : t ≡ s → find s facts ≡ some f → ⊥
      missing e y = cc

      pair : t ≡ s → some g ≡ some f → ◌≡◌ {A = ℕ × A} (s, f) (t, g)
      pair e y = cc

      value_of : ◌≡◌ {A = ℕ × A} (s, f) (t, g) → some g ≡ some f
      value_of e = ap (λ (p : ℕ × A). some p.1) (sym e)

      at_key :
          t ≡ s
          → (t == s) ≡ true
          → (find s (emplace t g facts) ≡ some f)
            ↔ ((◌≡◌ {A = ℕ × A} (s, f) (t, g)) ⊎ (find s facts ≡ some f))
      at_key e b =
          rw (find-emplace t s g facts h, b)
            (λ x. inl (pair e x), λ x. elim x [ inl y ↦ value_of y | inr y ↦ absurd (missing e y) ])

  flatten_thread-HasFact :
      (stores facts next : Map A) (s : ℕ) (f : A)
      → flatten_thread stores facts ≡ ok next
      → (find s next ≡ some f) ↔ (HasFact stores s f ⊎ (find s facts ≡ some f))
  unfolding flatten_thread
  flatten_thread-HasFact [] facts next s f h =
      rw (ok-inj next facts (sym h)) (λ x. inr x, λ x. elim x [ inl y ↦ absurd y | inr y ↦ y ])
  flatten_thread-HasFact ((t, g) ∷ stores) facts next s f h = elim (Option-cases (find t facts)) [
    | inl q ↦
        (let first = put-HasFact s f t g facts q in
          let rest =
            flatten_thread-HasFact stores (emplace t g facts) next s f
              (rw (q, flatten_thread) at h) in
          ground (arith, first, rest))
    | inr (k, q) ↦ absurd (twice (rw (q, flatten_thread) at h))
  ]
    where
      twice : err assertion ≡ ok next → ⊥
      twice e = cc

  flatten_from-HasFact :
      (reach_strs : Map (Map A)) (facts next : Map A) (s : ℕ) (f : A)
      → flatten_from reach_strs facts ≡ ok next
      → (find s next ≡ some f) ↔ (SomeHasFact reach_strs s f ⊎ (find s facts ≡ some f))
  unfolding flatten_from
  flatten_from-HasFact [] facts next s f h =
      rw (ok-inj next facts (sym h)) (λ x. inr x, λ x. elim x [ inl y ↦ absurd y | inr y ↦ y ])
  flatten_from-HasFact ((t, stores) ∷ reach_strs) facts next s f h =
      let (mid, e, g) = >>=-eq-ok (flatten_thread stores facts) (flatten_from reach_strs) h in
      let first = flatten_thread-HasFact stores facts mid s f e in
      let rest = flatten_from-HasFact reach_strs mid next s f g in ground (arith, first, rest)

  -- When `flattenReachStores` returns, the fact that it finds for a store is the one that a thread's
  -- map has there, and it finds every one.
  pub flatten_reach_stores-HasFact :
      (reach_strs : Map (Map A)) (facts : Map A) (s : ℕ) (f : A)
      → flatten_reach_stores reach_strs ≡ ok facts
      → (find s facts ≡ some f) ↔ SomeHasFact reach_strs s f
  unfolding flatten_reach_stores find
  flatten_reach_stores-HasFact reach_strs facts s f h =
      let x = flatten_from-HasFact reach_strs [] facts s f h in
      (λ y. elim (x.0 y) [ inl z ↦ z | inr z ↦ absurd (nothing z) ], λ z. x.1 (inl z))
    where
      nothing : (◌≡◌ {A = Option A} none (some f)) → ⊥
      nothing z = cc

  module _ (eq leq : A → A → Bool) (is_bottom : A → Bool) where
    -- The old fact at the store is not strictly below the new one.
    abbrev pub NotBelow : A → A → Type 0
    NotBelow old_f new_f = (not (eq new_f old_f) && leq old_f new_f) ≡ false

    stable_from-NotBelow :
        (flat_old flat_new : Map A) (s : ℕ) (f : A)
        → stable_from eq leq is_bottom flat_old flat_new ≡ ok true
        → In {A = ℕ × A} (s, f) flat_new
        → (g : A) × (find s flat_old ≡ some g) × NotBelow g f
    unfolding stable_from
    stable_from-NotBelow flat_old [] s f h m = absurd m
    stable_from-NotBelow flat_old ((t, new_f) ∷ flat_new) s f h m =
        elim (Option-cases (find t flat_old)) [
          | inl q ↦ absurd (unknown (is_bottom new_f) (rw (q, stable_from) at h))
          | inr (old_f, q) ↦ elim (Bool-cases (not (eq new_f old_f) && leq old_f new_f)) [
            | inl b ↦ absurd (below (rw (q, b, stable_from) at h))
            | inr b ↦ elim m [
              | inl e ↦ here old_f e q b
              | inr n ↦ stable_from-NotBelow flat_old flat_new s f (rw (q, b, stable_from) at h) n
            ]
          ]
        ]
      where
        unknown : (b : Bool) → (if b then err assertion else ok false) ≡ ok true → ⊥
        unknown true e = cc
        unknown false e = cc

        below : ok false ≡ ok true → ⊥
        below e = cc

        here :
            (old_f : A)
            → ◌≡◌ {A = ℕ × A} (s, f) (t, new_f)
            → find t flat_old ≡ some old_f
            → NotBelow old_f new_f
            → (g : A) × (find s flat_old ≡ some g) × NotBelow g f
        here old_f e q b = (
          old_f,
          ap (λ (p : ℕ × A). find p.0 flat_old) e ∙ q,
          ap (λ (p : ℕ × A). not (eq p.1 old_f) && leq old_f p.1) e ∙ b,
        )

    -- When `stableStores` returns true, every store with a fact in a thread's new map has one in some
    -- thread's old map, and the old fact is not strictly below the new one.
    pub stable_stores-NotBelow :
        (old_i new_i : Map (Map A)) (s : ℕ) (f : A)
        → stable_stores eq leq is_bottom old_i new_i ≡ ok true
        → SomeHasFact new_i s f
        → (g : A) × SomeHasFact old_i s g × NotBelow g f
    unfolding stable_stores
    stable_stores-NotBelow old_i new_i s f h m =
        let (flat_old, e, h') =
          >>=-eq-ok (flatten_reach_stores old_i)
            (λ o. flatten_reach_stores new_i >>= (λ n. stable_from eq leq is_bottom o n)) h in
        let (flat_new, e', h'') =
          >>=-eq-ok (flatten_reach_stores new_i) (λ n. stable_from eq leq is_bottom flat_old n)
            h' in
        let at = (flatten_reach_stores-HasFact new_i flat_new s f e').1 m in
        let (g, q, n) = stable_from-NotBelow flat_old flat_new s f h'' (find-In s f flat_new at) in
        (g, (flatten_reach_stores-HasFact old_i flat_old s g e).0 q, n)
