-- ===== src/Interference/Stores/Listed.antt =====
-- Which stores `getInterferingStores` lists for a load.
use watts.Prelude.{
  ℕ, ◌≡◌, ◌≢◌, ◌↔◌, ◌⊎◌, inl, inr, refl, sym, subst, ◌∙◌, ◌==◌, ==_iff, ==_refl, Bool, true, false,
  if◌then◌else◌, Bool-cases, none, some, Option-cases, List, [], ◌∷◌, ◌++◌, In, In-append, ok,
  ok-inj, >>=-eq-ok, arith,
}
use watts.Prelude.Map.{Map, find, erase, find-emplace, find-erase}
use watts.Llvm.{Kind}
use watts.Interference.Stores.{
  map_insert_to_vector, load_store_same_val, interfere_load, interfere_thread, interfere_from,
  get_interfering_stores,
}

-- The vector of a load; a load without an entry has no stores.
abbrev pub vector_at : ℕ → Map (List ℕ) → List ℕ
vector_at l ret = elim (find l ret) [ none ↦ [] | some sts ↦ sts ]

abbrev pub Listed : Map (List ℕ) → ℕ → ℕ → Type 0
Listed ret l s = In s (vector_at l ret)

erased : (k j : ℕ) (m : Map (List ℕ)) → find j (erase k m) ≡ (if k == j then none else find j m)
erased k j m = find-erase k j m

vector_at-insert :
    (k v j : ℕ) (m : Map (List ℕ))
    → vector_at j (map_insert_to_vector k v m)
      ≡ (if k == j then vector_at k m ++ (v ∷ []) else vector_at j m)
unfolding map_insert_to_vector
vector_at-insert k v j m = elim (Option-cases (find k m)) [
  | inl q ↦ ground (arith, q, find-emplace k j (v ∷ []) m q)
  | inr (old, q) ↦ ground (
    arith,
    q,
    find-emplace k j (old ++ (v ∷ [])) (erase k m) (find-erase k k m ∙ self k m),
    find-erase k j m,
  )
]
  where
    self : (k : ℕ) (m : Map (List ℕ)) → (if k == k then none else find k m) ≡ none
    self k m = ground arith

grown :
    (k v j : ℕ) (m : Map (List ℕ))
    → k ≡ j
    → vector_at j (map_insert_to_vector k v m) ≡ vector_at j m ++ (v ∷ [])
grown k v j m e =
    subst (λ (i : ℕ). vector_at i (map_insert_to_vector k v m) ≡ vector_at i m ++ (v ∷ [])) e
      (rw (vector_at-insert k v k m, ==_refl k) refl)

Listed-insert :
    (k v j s : ℕ) (m : Map (List ℕ))
    → Listed (map_insert_to_vector k v m) j s ↔ ((j ≡ k) × (s ≡ v) ⊎ Listed m j s)
Listed-insert k v j s m = elim (Bool-cases (k == j)) [
  | inl b ↦ at_key ((==_iff k j).0 b)
  | inr b ↦ elsewhere b
]
  where
    at_key : k ≡ j → Listed (map_insert_to_vector k v m) j s ↔ ((j ≡ k) × (s ≡ v) ⊎ Listed m j s)
    at_key e = rw (grown k v j m e) (ground (arith, In-append s (vector_at j m) (v ∷ []), e))

    elsewhere :
        (k == j) ≡ false
        → Listed (map_insert_to_vector k v m) j s ↔ ((j ≡ k) × (s ≡ v) ⊎ Listed m j s)
    elsewhere b =
        rw (vector_at-insert k v j m, b)
          (λ x. inr x, λ x. elim x [ inl p ↦ absurd (apart p.0) | inr y ↦ y ])
      where
        apart : j ≡ k → ⊥
        apart e = ground (arith, ==_iff k j)

-- The store and the load are to one pointer.
abbrev pub Same : (ℕ → Kind) → ℕ → ℕ → Type 0
Same kind_of l s = load_store_same_val (kind_of s) (kind_of l) ≡ ok true

-- The store is a key of the map.
abbrev pub Stored : {A : Type 0} → Map A → ℕ → Type 0
Stored [] s = ⊥
Stored ((t, fact) ∷ stores) s = (s ≡ t) ⊎ Stored stores s

module _ (kind_of : ℕ → Kind) where
  -- What one store does to the vector of the load.
  step-Listed :
      (l t j s : ℕ) (same : Bool) (ret : Map (List ℕ))
      → load_store_same_val (kind_of t) (kind_of l) ≡ ok same
      → Listed (if same then map_insert_to_vector l t ret else ret) j s
        ↔ (((j ≡ l) × (s ≡ t) × Same kind_of l s) ⊎ Listed ret j s)
  step-Listed l t j s true ret e = (
    λ x. elim ((Listed-insert l t j s ret).0 x) [
      | inl (p, q) ↦ inl (p, q, subst (λ (u : ℕ). Same kind_of l u) (sym q) e)
      | inr y ↦ inr y
    ],
    λ x. elim x [
      | inl (p, q, r) ↦ (Listed-insert l t j s ret).1 (inl (p, q))
      | inr y ↦ (Listed-insert l t j s ret).1 (inr y)
    ],
  )
  step-Listed l t j s false ret e =
      (λ x. inr x, λ x. elim x [ inl (p, q, r) ↦ absurd (differ q r) | inr y ↦ y ])
    where
      differ : s ≡ t → Same kind_of l s → ⊥
      differ q r = cc

module _ {A : Type 0} (kind_of : ℕ → Kind) where
  interfere_load-Listed :
      (l : ℕ) (stores : Map A) (ret next : Map (List ℕ)) (j s : ℕ)
      → interfere_load kind_of l stores ret ≡ ok next
      → Listed next j s ↔ (((j ≡ l) × Stored stores s × Same kind_of l s) ⊎ Listed ret j s)
  unfolding interfere_load
  interfere_load-Listed l [] ret next j s h =
      rw (ok-inj next ret (sym h))
        (λ x. inr x, λ x. elim x [ inl (p, q, r) ↦ absurd q | inr y ↦ y ])
  interfere_load-Listed l ((t, fact) ∷ stores) ret next j s h =
      let (same, e, f) =
        >>=-eq-ok (load_store_same_val (kind_of t) (kind_of l))
          (λ b. interfere_load kind_of l stores (if b then map_insert_to_vector l t ret else ret))
          h in
      let first = step-Listed kind_of l t j s same ret e in
      let rest =
        interfere_load-Listed l stores (if same then map_insert_to_vector l t ret else ret) next j s
          f in
      ground (arith, first, rest)

  interfere_thread-Listed :
      (loads : List ℕ) (stores : Map A) (ret next : Map (List ℕ)) (j s : ℕ)
      → interfere_thread kind_of loads stores ret ≡ ok next
      → Listed next j s ↔ ((In j loads × Stored stores s × Same kind_of j s) ⊎ Listed ret j s)
  unfolding interfere_thread
  interfere_thread-Listed [] stores ret next j s h =
      rw (ok-inj next ret (sym h))
        (λ x. inr x, λ x. elim x [ inl (p, q, r) ↦ absurd p | inr y ↦ y ])
  interfere_thread-Listed (l ∷ loads) stores ret next j s h =
      let (mid, e, f) =
        >>=-eq-ok (interfere_load kind_of l stores ret) (interfere_thread kind_of loads stores) h in
      let first = interfere_load-Listed l stores ret mid j s e in
      let rest = interfere_thread-Listed loads stores mid next j s f in
      let here : j ≡ l → Same kind_of l s ↔ Same kind_of j s = λ p. (
        λ r. subst (λ (u : ℕ). Same kind_of u s) (sym p) r,
        λ r. subst (λ (u : ℕ). Same kind_of u s) p r,
      ) in
      ground (arith, first, rest, here)

  -- The store is among those of another thread.
  abbrev pub Elsewhere : ℕ → Map (Map A) → ℕ → Type 0
  Elsewhere f [] s = ⊥
  Elsewhere f ((other, stores) ∷ r_stores) s =
      ((other ≢ f) × Stored stores s) ⊎ Elsewhere f r_stores s

  other_thread :
      (f other : ℕ) (loads : List ℕ) (stores : Map A) (ret next : Map (List ℕ)) (j s : ℕ)
      → (if other == f then ok ret else interfere_thread kind_of loads stores ret) ≡ ok next
      → Listed next j s
        ↔ ((In j loads × ((other ≢ f) × Stored stores s) × Same kind_of j s) ⊎ Listed ret j s)
  other_thread f other loads stores ret next j s h = elim (Bool-cases (other == f)) [
    | inl b ↦ own ((==_iff other f).0 b) (ok-inj ret next (rw (b) at h))
    | inr b ↦
        (let x = interfere_thread-Listed loads stores ret next j s (rw (b) at h) in
          let apart = ==_iff other f in ground (arith, x, apart, b))
  ]
    where
      own :
          other ≡ f
          → ret ≡ next
          → Listed next j s
            ↔ ((In j loads × ((other ≢ f) × Stored stores s) × Same kind_of j s) ⊎ Listed ret j s)
      own e q =
          rw (sym q) (λ x. inr x, λ x. elim x [ inl (p, (n, m), r) ↦ absurd (n e) | inr y ↦ y ])

  interfere_from-Listed :
      (f : ℕ) (loads : List ℕ) (r_stores : Map (Map A)) (ret next : Map (List ℕ)) (j s : ℕ)
      → interfere_from kind_of f loads r_stores ret ≡ ok next
      → Listed next j s
        ↔ ((In j loads × Elsewhere f r_stores s × Same kind_of j s) ⊎ Listed ret j s)
  unfolding interfere_from
  interfere_from-Listed f loads [] ret next j s h =
      rw (ok-inj next ret (sym h))
        (λ x. inr x, λ x. elim x [ inl (p, q, r) ↦ absurd q | inr y ↦ y ])
  interfere_from-Listed f loads ((other, stores) ∷ r_stores) ret next j s h =
      let (mid, e, g) =
        >>=-eq-ok (if other == f then ok ret else interfere_thread kind_of loads stores ret)
          (interfere_from kind_of f loads r_stores) h in
      let first = other_thread f other loads stores ret mid j s e in
      let rest = interfere_from-Listed f loads r_stores mid next j s g in
      ground (arith, first, rest)

  -- When `getInterferingStores` returns for a thread, it lists a store for a load exactly when the load
  -- is one of the thread's, the store is among those of another thread, and the two are to one
  -- pointer.
  pub get_interfering_stores-Listed :
      (f : ℕ) (loads : List ℕ) (r_stores : Map (Map A)) (ret : Map (List ℕ)) (l s : ℕ)
      → get_interfering_stores kind_of f loads r_stores ≡ ok ret
      → Listed ret l s ↔ (In l loads × Elsewhere f r_stores s × Same kind_of l s)
  unfolding get_interfering_stores find
  get_interfering_stores-Listed f loads r_stores ret l s h =
      let x = interfere_from-Listed f loads r_stores [] ret l s h in
      (λ y. elim (x.0 y) [ inl z ↦ z | inr z ↦ absurd (nothing z) ], λ z. x.1 (inl z))
    where
      nothing : Listed [] l s → ⊥
      nothing z = z
