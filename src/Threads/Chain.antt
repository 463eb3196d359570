-- ===== src/Threads/Chain.antt =====
-- `getParents` and `getParentNotRead`: the threads above a thread, and what they hand down.
use watts.Prelude.{
  ℕ, zero, suc, ◌<◌, ◌≡◌, ◌↔◌, ◌⊎◌, ◌∙◌, inl, inr, refl, sym, subst, ap, Option, none, some,
  Option-cases, List, [], ◌∷◌, ◌++◌, In, In-append, arith,
}
use watts.Prelude.Map.{Map, find}
use watts.Threads.{follow, get_parents, not_read_of, get_parent_not_read}

-- `p` has created the thread, or created a thread above it.
pub data Ancestor (child2parent : Map ℕ) (child : ℕ) : ℕ → Type 0 where
  creator : {p : ℕ} → find child child2parent ≡ some p → Ancestor child2parent child p
  above :
      {p q : ℕ}
      → Ancestor child2parent child p
      → find p child2parent ≡ some q
      → Ancestor child2parent child q

some_inj : {A : Type 0} {x y : A} → some x ≡ some y → x ≡ y
some_inj e = cc

clash : {A : Type 0} {x : A} → ◌≡◌ {A = Option A} none (some x) → ⊥
clash e = cc

module _ (child2parent : Map ℕ) (child : ℕ) where
  abbrev Next : Option ℕ → Type 0
  Next o = (p : ℕ) → o ≡ some p → Ancestor child2parent child p

  -- The loop adds ancestors only, the next one first, and with one also the one above it.
  follow-Ancestor :
      (fuel : ℕ) (o : Option ℕ) (ret r : List ℕ)
      → Next o
      → follow fuel child2parent o ret ≡ some r
      → (rest : List ℕ) × (r ≡ ret ++ rest)
        × ((p : ℕ) → In p rest → Ancestor child2parent child p)
        × ((p : ℕ) → o ≡ some p → In p rest)
        × ((p q : ℕ) → In p rest → find p child2parent ≡ some q → In q rest)
  unfolding follow
  follow-Ancestor fuel none ret r n h = (
    [],
    sym (some_inj h) ∙ sym (append_nil ret),
    λ p m. absurd m,
    λ p e. absurd (clash e),
    λ p q m. absurd m,
  )
    where
      append_nil : (xs : List ℕ) → xs ++ [] ≡ xs
      append_nil [] = refl
      append_nil (x ∷ xs) = ap (λ (ys : List ℕ). x ∷ ys) (append_nil xs)
  follow-Ancestor zero (some parent) ret r n h = cc
  follow-Ancestor (suc fuel) (some parent) ret r n h =
      let (rest, e, anc, first, closed) =
        follow-Ancestor fuel (find parent child2parent) (ret ++ (parent ∷ [])) r
          (λ p q. above (n parent refl) q) h in
      (
        parent ∷ rest,
        e ∙ assoc ret rest,
        λ p m. elim m [
          | inl q ↦ subst (Ancestor child2parent child) (sym q) (n parent refl)
          | inr k ↦ anc p k
        ],
        λ p q. inl (sym (some_inj q)),
        λ p q m g. elim m [
          | inl k ↦ inr (first q (sym (ap (λ (x : ℕ). find x child2parent) k) ∙ g))
          | inr k ↦ inr (closed p q k g)
        ],
      )
    where
      assoc : (xs rest : List ℕ) → (xs ++ (parent ∷ [])) ++ rest ≡ xs ++ (parent ∷ rest)
      assoc [] rest = refl
      assoc (x ∷ xs) rest = ap (λ (us : List ℕ). x ∷ us) (assoc xs rest)

-- When `getParents` returns, it lists exactly the thread's creator, that one's creator and so on.
pub get_parents-Ancestor :
    (fuel : ℕ) (child2parent : Map ℕ) (child : ℕ) (r : List ℕ) (p : ℕ)
    → get_parents fuel child2parent child ≡ some r
    → In p r ↔ Ancestor child2parent child p
unfolding get_parents
get_parents-Ancestor fuel child2parent child r p h =
    let (rest, e, anc, first, closed) =
      follow-Ancestor child2parent child fuel (find child child2parent) [] r (λ p q. creator q) h in
    (
      λ m. anc p (subst (λ (xs : List ℕ). In p xs) e m),
      λ a. subst (λ (xs : List ℕ). In p xs) (sym e) (listed rest first closed p a),
    )
  where
    listed :
        (rest : List ℕ)
        → ((p : ℕ) → find child child2parent ≡ some p → In p rest)
        → ((p q : ℕ) → In p rest → find p child2parent ≡ some q → In q rest)
        → (p : ℕ) → Ancestor child2parent child p
        → In p rest
    listed rest first closed p (creator e) = first p e
    listed rest first closed p (above {p = k} a e) = closed k p (listed rest first closed k a) e

abbrev HandedDown : Map (List ℕ) → List ℕ → ℕ → Type 0
HandedDown not_read_from parents s =
    (p : ℕ) × (nr : List ℕ) × In p parents × (find p not_read_from ≡ some nr) × In s nr

-- The stores of one of the threads.
not_read_of-In :
    (not_read_from : Map (List ℕ)) (parents : List ℕ) (s : ℕ)
    → In s (not_read_of not_read_from parents) ↔ HandedDown not_read_from parents s
unfolding not_read_of
not_read_of-In not_read_from [] s = (λ m. absurd m, λ x. let (p, nr, m, e, k) = x in absurd m)
not_read_of-In not_read_from (par ∷ parents) s =
    split (Option-cases (find par not_read_from)) (not_read_of-In not_read_from parents s)
  where
    more : HandedDown not_read_from parents s → HandedDown not_read_from (par ∷ parents) s
    more (p, nr, m, e, k) = (p, nr, inr m, e, k)

    here :
        (nr : List ℕ)
        → find par not_read_from ≡ some nr
        → (p : ℕ) → p ≡ par
        → (ns : List ℕ) → find p not_read_from ≡ some ns
        → In s ns
        → In s nr
    here nr o p q ns e k =
        subst (λ (xs : List ℕ). In s xs)
          (some_inj (sym e ∙ ap (λ (x : ℕ). find x not_read_from) q ∙ o)) k

    skip :
        find par not_read_from ≡ none
        → HandedDown not_read_from (par ∷ parents) s
        → HandedDown not_read_from parents s
    skip o (p, ns, inl q, e, k) =
        absurd (clash (sym o ∙ sym (ap (λ (x : ℕ). find x not_read_from) q) ∙ e))
    skip o (p, ns, inr m, e, k) = (p, ns, m, e, k)

    either :
        (nr : List ℕ)
        → find par not_read_from ≡ some nr
        → HandedDown not_read_from (par ∷ parents) s
        → In s nr ⊎ HandedDown not_read_from parents s
    either nr o (p, ns, inl q, e, k) = inl (here nr o p q ns e k)
    either nr o (p, ns, inr m, e, k) = inr (p, ns, m, e, k)

    split :
        (find par not_read_from ≡ none) ⊎ ((nr : List ℕ) × (find par not_read_from ≡ some nr))
        → In s (not_read_of not_read_from parents) ↔ HandedDown not_read_from parents s
        → In s (not_read_of not_read_from (par ∷ parents))
          ↔ HandedDown not_read_from (par ∷ parents) s
    split (inl o) rest = rw (o) (λ m. more (rest.0 m), λ x. rest.1 (skip o x))
    split (inr (nr, o)) rest = rw (o) (
      λ m. elim ((In-append s nr (not_read_of not_read_from parents)).0 m) [
        | inl k ↦ (par, nr, inl refl, o, k)
        | inr k ↦ more (rest.0 k)
      ],
      λ x.
          (In-append s nr (not_read_of not_read_from parents)).1
            (elim (either nr o x) [ inl k ↦ inl k | inr y ↦ inr (rest.1 y) ]),
    )

-- When `getParentNotRead` returns, it lists a store exactly when some thread above the thread has it
-- among the stores that it cannot read.
pub get_parent_not_read-Ancestor :
    (fuel f : ℕ) (child2parent : Map ℕ) (not_read_from : Map (List ℕ)) (r : List ℕ) (s : ℕ)
    → get_parent_not_read fuel f child2parent not_read_from ≡ some r
    → In s r ↔ (
        (p : ℕ) × (nr : List ℕ) × Ancestor child2parent f p
        × (find p not_read_from ≡ some nr)
        × In s nr)
unfolding get_parent_not_read
get_parent_not_read-Ancestor fuel f child2parent not_read_from r s h =
    elim (Option-cases (get_parents fuel child2parent f)) [
      | inl o ↦ absurd (clash (rw (o, get_parent_not_read) at h))
      | inr (parents, o) ↦ from parents o (some_inj (rw (o, get_parent_not_read) at h))
    ]
  where
    from :
        (parents : List ℕ)
        → get_parents fuel child2parent f ≡ some parents
        → not_read_of not_read_from parents ≡ r
        → In s r ↔ (
            (p : ℕ) × (nr : List ℕ) × Ancestor child2parent f p
            × (find p not_read_from ≡ some nr)
            × In s nr)
    from parents o q = rw (sym q) (
      λ m.
          (let (p, nr, k, e, x) = (not_read_of-In not_read_from parents s).0 m in
            (p, nr, (get_parents-Ancestor fuel child2parent f parents p o).0 k, e, x)),
      λ y.
          (let (p, nr, a, e, x) = y in
            (not_read_of-In not_read_from parents s).1
              (p, nr, (get_parents-Ancestor fuel child2parent f parents p o).1 a, e, x)),
    )

follow-ends :
    (rank : ℕ → ℕ) (child2parent : Map ℕ) (fuel : ℕ) (o : Option ℕ) (ret : List ℕ)
    → ((c p : ℕ) → find c child2parent ≡ some p → rank p < rank c)
    → ((p : ℕ) → o ≡ some p → rank p < fuel)
    → (r : List ℕ) × (follow fuel child2parent o ret ≡ some r)
unfolding follow
follow-ends rank child2parent fuel none ret w h = (ret, refl)
follow-ends rank child2parent zero (some parent) ret w h = absurd (omega (arith, h parent refl))
follow-ends rank child2parent (suc fuel) (some parent) ret w h =
    follow-ends rank child2parent fuel (find parent child2parent) (ret ++ (parent ∷ [])) w
      (λ p e. omega (arith, w parent p e, h parent refl))

-- When each creator ranks below its children, `getParents` returns in as many rounds as the rank of
-- the thread.
get_parents-ends :
    (rank : ℕ → ℕ) (child2parent : Map ℕ) (child : ℕ)
    → ((c p : ℕ) → find c child2parent ≡ some p → rank p < rank c)
    → (r : List ℕ) × (get_parents (rank child) child2parent child ≡ some r)
unfolding get_parents
get_parents-ends rank child2parent child w =
    follow-ends rank child2parent (rank child) (find child child2parent) [] w (λ p e. w child p e)
