-- ===== src/Threads/Order.antt =====
-- `sortByCreation`: it ends on a tree, and a thread's creator comes before it.
use watts.Prelude.{
  ℕ, zero, suc, ◌+◌, ◌≤◌, ◌≡◌, ◌⊎◌, ◌∙◌, inl, inr, refl, sym, subst, ap, Option, Option-cases, err,
  assertion, none, some, List, [], ◌∷◌, ◌++◌, In, In-append, Result, ok, arith,
}
use watts.Prelude.Map.{Map}
use watts.Threads.{children_of, process, sort_by_creation}

append_nil : (xs : List ℕ) → xs ++ [] ≡ xs
append_nil [] = refl
append_nil (x ∷ xs) = ap (λ (ys : List ℕ). x ∷ ys) (append_nil xs)

append_assoc : (xs ys zs : List ℕ) → (xs ++ ys) ++ zs ≡ xs ++ (ys ++ zs)
append_assoc [] ys zs = refl
append_assoc (x ∷ xs) ys zs = ap (λ (us : List ℕ). x ∷ us) (append_assoc xs ys zs)

module _ (parent2child : Map (List ℕ)) (main : ℕ) where
  -- The thread is the main one, or has been created by one of `seen`.
  abbrev pub Created : List ℕ → ℕ → Type 0
  Created seen x = (x ≡ main) ⊎ ((p : ℕ) × In p seen × In x (children_of parent2child p))

  -- Each thread has been created by one before it.
  abbrev pub ParentsFirst : List ℕ → List ℕ → Type 0
  ParentsFirst seen [] = Unit
  ParentsFirst seen (x ∷ xs) = Created seen x × ParentsFirst (seen ++ (x ∷ [])) xs

  Created-more : (seen more : List ℕ) (x : ℕ) → Created seen x → Created (seen ++ more) x
  Created-more seen more x (inl e) = inl e
  Created-more seen more x (inr (p, m, n)) = inr (p, (In-append p seen more).1 (inl m), n)

  -- What the loop adds to `ret`.
  abbrev Added : List ℕ → List ℕ → List ℕ → Type 0
  Added to_process ret r =
      (rest : List ℕ) × (r ≡ ret ++ rest)
      × ParentsFirst ret rest
      × ((x : ℕ) → In x to_process → In x rest)
      × ((x y : ℕ) → In x rest → In y (children_of parent2child x) → In y rest)

  process-Added :
      (fuel : ℕ) (to_process ret r : List ℕ)
      → ((x : ℕ) → In x to_process → Created ret x)
      → process fuel parent2child to_process ret ≡ some r
      → Added to_process ret r
  unfolding process
  process-Added fuel [] ret r hq h =
      ([], sym (some_inj h ∙ refl) ∙ sym (append_nil ret), tt, λ x m. m, λ x y m n. m)
    where
      some_inj : {a b : List ℕ} → some a ≡ some b → a ≡ b
      some_inj e = cc
  process-Added zero (cur ∷ to_process) ret r hq h = cc
  process-Added (suc fuel) (cur ∷ to_process) ret r hq h =
      let (rest, e, first, all, closed) =
        process-Added fuel (to_process ++ children_of parent2child cur) (ret ++ (cur ∷ [])) r later
          h in
      (
        cur ∷ rest,
        e ∙ append_assoc ret (cur ∷ []) rest,
        (hq cur (inl refl), first),
        λ x m. elim m [
          | inl q ↦ inl q
          | inr n ↦ inr (all x ((In-append x to_process (children_of parent2child cur)).1 (inl n)))
        ],
        λ x y m n. elim m [
          | inl q ↦ inr (
              all y (
                (In-append y to_process (children_of parent2child cur)).1
                  (inr (subst (λ (z : ℕ). In y (children_of parent2child z)) q n))))
          | inr k ↦ inr (closed x y k n)
        ],
      )
    where
      later :
          (x : ℕ)
          → In x (to_process ++ children_of parent2child cur)
          → Created (ret ++ (cur ∷ [])) x
      later x m = elim ((In-append x to_process (children_of parent2child cur)).0 m) [
        | inl n ↦ Created-more ret (cur ∷ []) x (hq x (inr n))
        | inr n ↦ inr (cur, (In-append cur ret (cur ∷ [])).1 (inr (inl refl)), n)
      ]

process-of :
    (fuel main : ℕ) (parent2child : Map (List ℕ)) (r : List ℕ)
    → sort_by_creation fuel main parent2child ≡ some (ok r)
    → process fuel parent2child (main ∷ []) [] ≡ some r
unfolding sort_by_creation
process-of fuel main parent2child r h =
    elim (Option-cases (process fuel parent2child (main ∷ []) [])) [
      | inl e ↦ absurd (stuck (rw (e, sort_by_creation) at h))
      | inr (xs, e) ↦ e ∙ listed xs (rw (e, sort_by_creation) at h)
    ]
  where
    stuck : ◌≡◌ {A = Option (Result (List ℕ))} none (some (ok r)) → ⊥
    stuck e = cc

    listed :
        (xs : List ℕ)
        → elim xs [ [] ↦ some (err assertion) | f ∷ ret ↦ some (ok (f ∷ ret)) ] ≡ some (ok r)
        → some xs ≡ some r
    listed [] e = cc
    listed (f ∷ xs) e = cc

-- When `sortByCreation` returns, the main thread is in the result, with a thread all its children are
-- there, and each thread but the main one stands behind one that has it as a child.
pub sort_by_creation-ParentsFirst :
    (fuel main : ℕ) (parent2child : Map (List ℕ)) (r : List ℕ)
    → sort_by_creation fuel main parent2child ≡ some (ok r)
    → In main r
      × ((x y : ℕ) → In x r → In y (children_of parent2child x) → In y r)
      × ParentsFirst parent2child main [] r
unfolding sort_by_creation
sort_by_creation-ParentsFirst fuel main parent2child r h =
    let (rest, e, first, all, closed) =
      process-Added parent2child main fuel (main ∷ []) [] r
        (λ x m. elim m [ inl q ↦ inl q | inr n ↦ absurd n ])
        (process-of fuel main parent2child r h) in
    subst
      (λ (xs : List ℕ).
        In main xs
        × ((x y : ℕ) → In x xs → In y (children_of parent2child x) → In y xs)
        × ParentsFirst parent2child main [] xs)
      (sym e) (all main (inl refl), closed, first)

abbrev pub total : (ℕ → ℕ) → List ℕ → ℕ
total size [] = 0
total size (x ∷ xs) = size x + total size xs

total-append :
    (size : ℕ → ℕ) (xs ys : List ℕ) → total size (xs ++ ys) ≡ total size xs + total size ys
total-append size [] ys = omega arith
total-append size (x ∷ xs) ys = omega (arith, total-append size xs ys)

-- A thread is larger than its children together.
abbrev pub Sized : (ℕ → ℕ) → Map (List ℕ) → Type 0
Sized size parent2child = (p : ℕ) → suc (total size (children_of parent2child p)) ≤ size p

process-ends :
    (size : ℕ → ℕ) (parent2child : Map (List ℕ)) (fuel : ℕ) (to_process ret : List ℕ)
    → Sized size parent2child
    → total size to_process ≤ fuel
    → (r : List ℕ) × (process fuel parent2child to_process ret ≡ some r)
unfolding process
process-ends size parent2child fuel [] ret w h = (ret, refl)
process-ends size parent2child zero (cur ∷ to_process) ret w h = absurd (omega (arith, w cur))
process-ends size parent2child (suc fuel) (cur ∷ to_process) ret w h =
    process-ends size parent2child fuel (to_process ++ children_of parent2child cur)
      (ret ++ (cur ∷ [])) w
      (omega (arith, w cur, total-append size to_process (children_of parent2child cur)))

-- When each thread can be given a size above that of its children together, `sortByCreation` returns
-- in as many rounds as the size of the main thread, and it does not fail its assertion.
pub sort_by_creation-ends :
    (size : ℕ → ℕ) (main : ℕ) (parent2child : Map (List ℕ))
    → Sized size parent2child
    → (r : List ℕ) × (sort_by_creation (size main) main parent2child ≡ some (ok r))
unfolding sort_by_creation
sort_by_creation-ends size main parent2child w =
    let (r, e) = process-ends size parent2child (size main) (main ∷ []) [] w (omega arith) in
    let (rest, q, first, all, closed) =
      process-Added parent2child main (size main) (main ∷ []) [] r
        (λ x m. elim m [ inl p ↦ inl p | inr n ↦ absurd n ]) e in
    returned r e (subst (λ (xs : List ℕ). In main xs) (sym q) (all main (inl refl)))
  where
    returned :
        (r : List ℕ)
        → process (size main) parent2child (main ∷ []) [] ≡ some r
        → In main r
        → (r : List ℕ) × (sort_by_creation (size main) main parent2child ≡ some (ok r))
    returned [] e m = absurd m
    returned (f ∷ r) e m = (f ∷ r, rw (e, sort_by_creation) refl)
