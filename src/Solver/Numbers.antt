-- ===== src/Solver/Numbers.antt =====
-- What `getValueBVIDSz` keeps true of the cache of numbers.
use native.Mathlib.Nat.{mod-eq_of_lt}
use watts.Prelude.{
  ℕ, suc, ◌%◌, ◌⊎◌, ap, ◌^◌, ◌<◌, ◌≡◌, inl, inr, refl, sym, subst, Bool-cases, ◌∙◌, false, ◌==◌,
  ==_iff, none, some, Option-cases, [], ◌∷◌, length, ok, err, ok-inj, exit_failure, arith,
}
use watts.Prelude.Map.{Map, find, emplace, find-emplace, find-emplace_cases}
use watts.Solver.{exceeds, number_of}

-- The numbers are below the size of the cache, and no two values have the same.
pub record IsApart (cache : Map ℕ) : Type 0 where
  pub bounded : (v i : ℕ) → find v cache ≡ some i → i < length cache
  pub distinct : (v w i : ℕ) → find v cache ≡ some i → find w cache ≡ some i → v ≡ w

-- The size of the cache is an `unsigned`, too.
pub record IsNumbering (cache : Map ℕ) : Type 0 where
  pub bounded : (v i : ℕ) → find v cache ≡ some i → i < length cache
  pub distinct : (v w i : ℕ) → find v cache ≡ some i → find w cache ≡ some i → v ≡ w
  pub room : length cache < 2 ^ 32

pub IsNumbering-IsApart : (cache : Map ℕ) → IsNumbering cache → IsApart cache
IsNumbering-IsApart cache n = record { bounded = n.bounded; distinct = n.distinct }

length-emplace : (k v : ℕ) (m : Map ℕ) → find k m ≡ none → length (emplace k v m) ≡ suc (length m)
unfolding find emplace
length-emplace k v [] h = refl
length-emplace k v ((j, w) ∷ m) h = ground (arith, length-emplace k v m)

module _ (cache : Map ℕ) (n : IsApart cache) where
  open n use {bounded, distinct}

  fresh : (v : ℕ) → ¬ (find v cache ≡ some (length cache))
  fresh v h = omega (arith, bounded v (length cache) h)

  emplaced :
      (v w : ℕ)
      → find v cache ≡ none
      → (v == w) ≡ false
      → find w (emplace v (length cache) cache) ≡ find w cache
  emplaced v w h b = ground (arith, find-emplace v w (length cache) cache h)

  emplaced_itself :
      (v : ℕ) → find v cache ≡ none → find v (emplace v (length cache) cache) ≡ some (length cache)
  emplaced_itself v h = ground (arith, find-emplace v v (length cache) cache h)

  emplace-IsApart : (v : ℕ) → find v cache ≡ none → IsApart (emplace v (length cache) cache)
  emplace-IsApart v h = record {
    bounded = λ w i e.
        rw (length-emplace v (length cache) cache h)
          (elim (find-emplace_cases v w (length cache) i cache e) [
            | inl x ↦ omega arith
            | inr x ↦ omega (arith, bounded w i x)
          ]);
    distinct = apart;
  }
    where
      apart :
          (w u i : ℕ)
          → find w (emplace v (length cache) cache) ≡ some i
          → find u (emplace v (length cache) cache) ≡ some i
          → w ≡ u
      apart w u i e f = elim (Bool-cases (v == w)) [
        | inl a ↦ elim (Bool-cases (v == u)) [
          | inl b ↦ sym ((==_iff v w).0 a) ∙ (==_iff v u).0 b
          | inr b ↦ absurd (
              fresh u (
                ground (
                  arith,
                  find-emplace v w (length cache) cache h,
                  find-emplace v u (length cache) cache h,
                )))
        ]
        | inr a ↦ elim (Bool-cases (v == u)) [
          | inl b ↦ absurd (
              fresh w (
                ground (
                  arith,
                  find-emplace v w (length cache) cache h,
                  find-emplace v u (length cache) cache h,
                )))
          | inr b ↦ distinct w u i (sym (emplaced v w h a) ∙ e) (sym (emplaced v u h b) ∙ f)
        ]
      ]

-- What the number of a value is afterwards, and that the others keep theirs.
pub record Numbered (v : ℕ) (cache next : Map ℕ) (id : ℕ) : Type 0 where
  pub numbering : IsApart next
  pub found : find v next ≡ some id
  pub kept : (w i : ℕ) → find w cache ≡ some i → find w next ≡ some i

module _ (cache : Map ℕ) (n : IsApart cache) (v : ℕ) where
  old-Numbered : (id : ℕ) → find v cache ≡ some id → Numbered v cache cache id
  old-Numbered id f = record { numbering = n; found = f; kept = λ w i e. e }

  pub new-Numbered :
      find v cache ≡ none → Numbered v cache (emplace v (length cache) cache) (length cache)
  new-Numbered f = record {
    numbering = emplace-IsApart cache n v f;
    found = emplaced_itself cache n v f;
    kept = λ w i e. elim (Bool-cases (v == w)) [
      | inl b ↦ absurd (taken w i ((==_iff v w).0 b) e)
      | inr b ↦ emplaced cache n v w f b ∙ e
    ];
  }
    where
      taken : (w i : ℕ) → v ≡ w → find w cache ≡ some i → ⊥
      taken w i q e = cc

  pub number_of-Numbered :
      (bv_size : ℕ) (next : Map ℕ) (id : ℕ)
      → (find v cache ≡ none → length cache < 2 ^ 32)
      → number_of bv_size v cache ≡ ok (next, id)
      → Numbered v cache next id
  unfolding number_of
  number_of-Numbered bv_size next id small h = elim (Option-cases (find v cache)) [
    | inl f ↦
        let whole : length cache % 2 ^ 32 ≡ length cache = mod-eq_of_lt (small f) in
        elim (Bool-cases (exceeds bv_size (length cache))) [
          | inl b ↦ absurd (refused (rw (f, whole, b, number_of) at h))
          | inr b ↦ moved (new-Numbered f) (
              ok-inj (emplace v (length cache) cache, length cache) (next, id)
                (rw (f, whole, b, number_of) at h))
        ]
    | inr (i, f) ↦ moved (old-Numbered i f) (ok-inj (cache, i) (next, id) (rw (f, number_of) at h))
  ]
    where
      refused : {p : Map ℕ × ℕ} → err exit_failure ≡ ok p → ⊥
      refused q = cc

      moved : {p q : Map ℕ × ℕ} → Numbered v cache p.0 p.1 → p ≡ q → Numbered v cache q.0 q.1
      moved x q = subst (λ (r : Map ℕ × ℕ). Numbered v cache r.0 r.1) q x

-- The size grows by one where the guard lets a new value through.
abbrev pub Sized : ℕ → Map ℕ → ℕ → Map ℕ → Type 0
Sized v cache bv_size next =
    ((find v cache ≡ none)
      × (length next ≡ suc (length cache))
      × (exceeds bv_size (length cache % 2 ^ 32) ≡ false))
    ⊎ ((i : ℕ) × (find v cache ≡ some i) × (length next ≡ length cache))

pub number_of-length :
    (v : ℕ) (cache : Map ℕ) (bv_size : ℕ) (next : Map ℕ) (id : ℕ)
    → number_of bv_size v cache ≡ ok (next, id)
    → Sized v cache bv_size next
unfolding number_of
number_of-length v cache bv_size next id h = elim (Option-cases (find v cache)) [
  | inl f ↦ elim (Bool-cases (exceeds bv_size (length cache % 2 ^ 32))) [
    | inl b ↦ absurd (refused (rw (f, b, number_of) at h))
    | inr b ↦
        let same =
          ok-inj (emplace v (length cache % 2 ^ 32) cache, length cache % 2 ^ 32) (next, id)
            (rw (f, b, number_of) at h) in
        inl (
          f,
          ap (λ (p : Map ℕ × ℕ). length (p.0)) (sym same)
              ∙ length-emplace v (length cache % 2 ^ 32) cache f,
          b,
        )
  ]
  | inr (i, f) ↦ inr (
    i,
    f,
    ap (λ (p : Map ℕ × ℕ). length (p.0))
        (sym (ok-inj (cache, i) (next, id) (rw (f, number_of) at h))),
  )
]
  where
    refused : {p : Map ℕ × ℕ} → err exit_failure ≡ ok p → ⊥
    refused q = cc
