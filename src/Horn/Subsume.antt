-- ===== src/Horn/Subsume.antt =====
-- A rule that another makes superfluous: the other has the same head and asks for less, once its
-- bound variables are renamed. Found by evaluation.
use watts.Prelude.{
  ℕ, ◌≡◌, ◌∙◌, inl, inr, refl, sym, subst, ap, Bool, true, false, ◌&&◌, ◌||◌, Bool-cases, List, [],
  ◌∷◌, ◌++◌, In, In-append, All, All-In, arith,
}
use watts.Horn.{
  Term, bound, constant, Atom, app1, app2, Rule, Ground, ground1, ground2, instantiate, Derives,
}
use watts.Horn.Compare.{Atom-discrete}
use watts.Horn.Models.{Valid, Derives-Holds, Derives-Valid}

abbrev rename_term : (ℕ → ℕ) → Term → Term
rename_term ρ (bound n) = bound (ρ n)
rename_term ρ (constant c) = constant c

abbrev rename : (ℕ → ℕ) → Atom → Atom
rename ρ (app1 fd a) = app1 fd (rename_term ρ a)
rename ρ (app2 fd a b) = app2 fd (rename_term ρ a) (rename_term ρ b)

value-rename :
    (ρ σ : ℕ → ℕ) (a : Term)
    → watts.Horn.value σ (rename_term ρ a) ≡ watts.Horn.value (λ n. σ (ρ n)) a
value-rename ρ σ (bound n) = refl
value-rename ρ σ (constant c) = refl

instantiate-rename :
    (ρ σ : ℕ → ℕ) (b : Atom) → instantiate σ (rename ρ b) ≡ instantiate (λ n. σ (ρ n)) b
instantiate-rename ρ σ (app1 fd a) = ap (λ (x : ℕ). ground1 fd x) (value-rename ρ σ a)
instantiate-rename ρ σ (app2 fd a b) = rw (value-rename ρ σ a, value-rename ρ σ b) refl

unfoldable pub same_atom : Atom → Atom → Bool
unfolding Atom-discrete
same_atom a b = elim (Atom-discrete a b) [ yes e ↦ true | no d ↦ false ]

same_atom_eq : (a b : Atom) → same_atom a b ≡ true → a ≡ b
unfolding same_atom
same_atom_eq a b h = decided (Atom-discrete a b) h
  where
    decided : (d : Dec (a ≡ b)) → elim d [ yes e ↦ true | no f ↦ false ] ≡ true → a ≡ b
    decided (yes e) h = e
    decided (no f) h = cc

unfoldable pub asked_for : Atom → List Atom → Bool
unfolding same_atom
asked_for a [] = false
asked_for a (b ∷ bs) = same_atom a b || asked_for a bs

asked_for-In : (a : Atom) (bs : List Atom) → asked_for a bs ≡ true → In a bs
unfolding asked_for
asked_for-In a [] h = cc
asked_for-In a (b ∷ bs) h = elim (Bool-cases (same_atom a b)) [
  | inl t ↦ inl (same_atom_eq a b t)
  | inr t ↦ inr (asked_for-In a bs (ground arith))
]

unfoldable pub asks_less : (ℕ → ℕ) → List Atom → List Atom → Bool
unfolding asked_for
asks_less ρ [] bs = true
asks_less ρ (a ∷ as') bs = asked_for (rename ρ a) bs && asks_less ρ as' bs

unfoldable pub subsumes : (ℕ → ℕ) → Rule → Rule → Bool
unfolding same_atom asks_less
subsumes ρ r q = same_atom (rename ρ r.head) q.head && asks_less ρ r.body q.body

-- One of the rules makes `q` superfluous, as it is or renamed.
unfoldable pub superfluous : (ℕ → ℕ) → Rule → List Rule → Bool
unfolding subsumes
superfluous ρ q [] = false
superfluous ρ q (r ∷ rs) = (subsumes (λ n. n) r q || subsumes ρ r q) || superfluous ρ q rs

unfoldable pub all_superfluous : (ℕ → ℕ) → List Rule → List Rule → Bool
unfolding superfluous
all_superfluous ρ [] rs = true
all_superfluous ρ (q ∷ qs) rs = superfluous ρ q rs && all_superfluous ρ qs rs

module _ (Holds : Ground → Type 0) where
  body-Holds :
      (ρ σ : ℕ → ℕ) (as' bs : List Atom)
      → asks_less ρ as' bs ≡ true
      → All (λ (b : Atom). Holds (instantiate σ b)) bs
      → All (λ (b : Atom). Holds (instantiate (λ n. σ (ρ n)) b)) as'
  unfolding asks_less
  body-Holds ρ σ [] bs h x = tt
  body-Holds ρ σ (a ∷ as') bs h x = (
    subst Holds (instantiate-rename ρ σ a) (
        All-In (λ (b : Atom). Holds (instantiate σ b)) bs (rename ρ a) x
          (asked_for-In (rename ρ a) bs (ground arith))),
    body-Holds ρ σ as' bs (ground arith) x,
  )

  subsumes-Valid : (ρ : ℕ → ℕ) (r q : Rule) → subsumes ρ r q ≡ true → Valid Holds r → Valid Holds q
  unfolding subsumes
  subsumes-Valid ρ r q h v σ x =
      subst Holds
        (sym (instantiate-rename ρ σ r.head)
          ∙ ap (instantiate σ) (same_atom_eq (rename ρ r.head) q.head (ground arith)))
        (v (λ n. σ (ρ n)) (body-Holds ρ σ r.body q.body (ground arith) x))

  superfluous-Valid :
      (ρ : ℕ → ℕ) (q : Rule) (rs : List Rule)
      → superfluous ρ q rs ≡ true
      → ((r : Rule) → In r rs → Valid Holds r)
      → Valid Holds q
  unfolding superfluous
  superfluous-Valid ρ q [] h v = absurd (ground arith)
  superfluous-Valid ρ q (r ∷ rs) h v = elim (Bool-cases (subsumes (λ n. n) r q)) [
    | inl t ↦ subsumes-Valid (λ n. n) r q t (v r (inl refl))
    | inr t ↦ elim (Bool-cases (subsumes ρ r q)) [
      | inl u ↦ subsumes-Valid ρ r q u (v r (inl refl))
      | inr u ↦ superfluous-Valid ρ q rs (ground arith) (λ r m. v r (inr m))
    ]
  ]

  all_superfluous-Valid :
      (ρ : ℕ → ℕ) (qs rs : List Rule)
      → all_superfluous ρ qs rs ≡ true
      → ((r : Rule) → In r rs → Valid Holds r)
      → (q : Rule) → In q qs
      → Valid Holds q
  unfolding all_superfluous
  all_superfluous-Valid ρ [] rs h v q m = absurd m
  all_superfluous-Valid ρ (p ∷ qs) rs h v q (inl e) =
      subst (Valid Holds) (sym e) (superfluous-Valid ρ p rs (ground arith) v)
  all_superfluous-Valid ρ (p ∷ qs) rs h v q (inr m) =
      all_superfluous-Valid ρ qs rs (ground arith) v q m

-- Two sets that share `base`: what the first derives, the second does, when each rule of the first is
-- superfluous beside the second.
pub Derives-superfluous :
    (ρ : ℕ → ℕ) (qs rs base : List Rule) (g : Ground)
    → all_superfluous ρ qs rs ≡ true
    → Derives (qs ++ base) g
    → Derives (rs ++ base) g
Derives-superfluous ρ qs rs base g h = Derives-Holds (Derives (rs ++ base)) (qs ++ base) g (λ q m.
    elim ((In-append q qs base).0 m) [
      | inl n ↦
          all_superfluous-Valid (Derives (rs ++ base)) ρ qs rs h
            (λ r o. Derives-Valid (rs ++ base) r ((In-append r rs base).1 (inl o))) q n
      | inr n ↦ Derives-Valid (rs ++ base) q ((In-append q rs base).1 (inr n))
    ])
