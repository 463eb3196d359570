-- ===== src/Horn/Compare.antt =====
-- Sets of rules compared by evaluation: which rules stand in both, and which do once the atoms of one
-- relation are taken out of their bodies.
use native.Mathlib.Decide.{ℕ_discrete}
use watts.Prelude.{
  ℕ, ◌≡◌, ◌⊎◌, inl, inr, ◌∙◌, refl, sym, subst, Bool, true, false, ◌&&◌, ◌||◌, if◌then◌else◌,
  Bool-cases, List, [], ◌∷◌, ◌++◌, In, In-append, All, All-In, arith,
}
use watts.Horn.{
  Rel, Term, Atom, app1, app2, Rule, Ground, ground1, ground2, instantiate, Derives, by_rule,
  implies,
}
use watts.Horn.Models.{Valid, Derives-Holds, Derives-Valid, Derives-more}

unfoldable pub Rel-discrete : Discrete Rel
Rel-discrete = hlevel

unfoldable pub Term-discrete : Discrete Term
Term-discrete = hlevel (ℕ_discrete)

unfoldable pub Atom-discrete : Discrete Atom
Atom-discrete = hlevel (Rel-discrete, Term-discrete)

unfoldable pub Rule-discrete : Discrete Rule
Rule-discrete = hlevel (Atom-discrete)

unfoldable pub same_rule : Rule → Rule → Bool
unfolding Rule-discrete
same_rule r q = elim (Rule-discrete r q) [ yes e ↦ true | no d ↦ false ]

same_rule_eq : (r q : Rule) → same_rule r q ≡ true → r ≡ q
unfolding same_rule
same_rule_eq r q h = decided (Rule-discrete r q) h
  where
    decided : (d : Dec (r ≡ q)) → elim d [ yes e ↦ true | no f ↦ false ] ≡ true → r ≡ q
    decided (yes e) h = e
    decided (no f) h = cc

unfoldable pub same_rel : Rel → Rel → Bool
unfolding Rel-discrete
same_rel fd1 fd2 = elim (Rel-discrete fd1 fd2) [ yes e ↦ true | no d ↦ false ]

same_rel_eq : (fd1 fd2 : Rel) → same_rel fd1 fd2 ≡ true → fd1 ≡ fd2
unfolding same_rel
same_rel_eq fd1 fd2 h = decided (Rel-discrete fd1 fd2) h
  where
    decided : (d : Dec (fd1 ≡ fd2)) → elim d [ yes e ↦ true | no f ↦ false ] ≡ true → fd1 ≡ fd2
    decided (yes e) h = e
    decided (no f) h = cc

same_rel_neq : (fd1 fd2 : Rel) → same_rel fd1 fd2 ≡ false → ¬ (fd1 ≡ fd2)
unfolding same_rel
same_rel_neq fd1 fd2 h = decided (Rel-discrete fd1 fd2) h
  where
    decided : (d : Dec (fd1 ≡ fd2)) → elim d [ yes e ↦ true | no f ↦ false ] ≡ false → ¬ (fd1 ≡ fd2)
    decided (yes e) h = cc
    decided (no f) h = f

unfoldable pub listed : Rule → List Rule → Bool
unfolding same_rule
listed r [] = false
listed r (q ∷ rs) = same_rule r q || listed r rs

pub listed-In : (r : Rule) (rs : List Rule) → listed r rs ≡ true → In r rs
unfolding listed
listed-In r [] h = cc
listed-In r (q ∷ rs) h = elim (Bool-cases (same_rule r q)) [
  | inl t ↦ inl (same_rule_eq r q t)
  | inr t ↦ inr (listed-In r rs (ground arith))
]

unfoldable pub included : List Rule → List Rule → Bool
unfolding listed
included [] rs = true
included (r ∷ qs) rs = listed r rs && included qs rs

included-In : (qs rs : List Rule) → included qs rs ≡ true → (r : Rule) → In r qs → In r rs
unfolding included
included-In [] rs h r m = absurd m
included-In (q ∷ qs) rs h r (inl e) =
    subst (λ (x : Rule). In x rs) (ground arith) (listed-In q rs (ground arith))
included-In (q ∷ qs) rs h r (inr m) = included-In qs rs (ground arith) r m

-- Two sets that share `base` derive the same when the rest of the one stands in the other.
pub Derives-included :
    (qs rs base : List Rule) (g : Ground)
    → included qs rs ≡ true
    → Derives (qs ++ base) g
    → Derives (rs ++ base) g
Derives-included qs rs base g h = Derives-more (qs ++ base) (rs ++ base) g (λ r m.
    elim ((In-append r qs base).0 m) [
      | inl n ↦ (In-append r rs base).1 (inl (included-In qs rs h r n))
      | inr n ↦ (In-append r rs base).1 (inr n)
    ])

abbrev pub rel_of : Atom → Rel
rel_of (app1 fd a) = fd
rel_of (app2 fd a b) = fd

abbrev pub ground_rel : Ground → Rel
ground_rel (ground1 fd a) = fd
ground_rel (ground2 fd a b) = fd

pub ground_rel-instantiate : (σ : ℕ → ℕ) (b : Atom) → ground_rel (instantiate σ b) ≡ rel_of b
ground_rel-instantiate σ (app1 fd a) = refl
ground_rel-instantiate σ (app2 fd a b) = refl

-- The atoms of the other relations.
unfoldable pub without : Rel → List Atom → List Atom
unfolding same_rel
without fd [] = []
without fd (b ∷ bs) = if same_rel (rel_of b) fd then without fd bs else b ∷ without fd bs

-- Every rule of the first list has the relation in its head or, with the relation's atoms taken out
-- of its body, stands in the second list.
unfoldable pub carried : Rel → List Rule → List Rule → Bool
unfolding same_rel listed without
carried fd [] rs = true
carried fd (q ∷ qs) rs =
    (same_rel (rel_of q.head) fd || listed (implies (without fd q.body) q.head) rs)
    && carried fd qs rs

-- No body asks for an atom of the relation.
abbrev pub Unasked : Rel → List Rule → Type 0
Unasked fd rs = (r : Rule) → In r rs → (b : Atom) → In b r.body → ¬ (rel_of b ≡ fd)

module _ (fd : Rel) (rules : List Rule) where
  abbrev Kept : Ground → Type 0
  Kept g = (ground_rel g ≡ fd) ⊎ Derives rules g

  module _ (σ : ℕ → ℕ) where
    derived :
        (b : Atom) → ¬ (rel_of b ≡ fd) → Kept (instantiate σ b) → Derives rules (instantiate σ b)
    derived b d (inl e) = absurd (d (sym (ground_rel-instantiate σ b) ∙ e))
    derived b d (inr x) = x

    All-without :
        (bs : List Atom)
        → All (λ (b : Atom). Kept (instantiate σ b)) bs
        → All (λ (b : Atom). Derives rules (instantiate σ b)) (without fd bs)
    unfolding without
    All-without [] h = tt
    All-without (b ∷ bs) h = elim (Bool-cases (same_rel (rel_of b) fd)) [
      | inl t ↦ rw (t, without) (All-without bs h.1)
      | inr t ↦ rw (t, without) (derived b (same_rel_neq (rel_of b) fd t) h.0, All-without bs h.1)
    ]

  -- A rule whose body is free of the relation holds in the rest of the model.
  Valid-Unasked :
      (r : Rule) → In r rules → ((b : Atom) → In b r.body → ¬ (rel_of b ≡ fd)) → Valid Kept r
  Valid-Unasked r m free σ h = inr (
      by_rule r σ m refl (λ b n.
        derived σ b (free b n) (All-In (λ (b : Atom). Kept (instantiate σ b)) r.body b h n)))

  Valid-carried :
      (qs rs : List Rule)
      → carried fd qs rs ≡ true
      → ((r : Rule) → In r rs → In r rules)
      → (r : Rule) → In r qs
      → Valid Kept r
  unfolding carried
  Valid-carried [] rs h more r m = absurd m
  Valid-carried (q ∷ qs) rs h more r (inr m) = Valid-carried qs rs (ground arith) more r m
  Valid-carried (q ∷ qs) rs h more r (inl e) =
      subst (Valid Kept) (sym e) (elim (Bool-cases (same_rel (rel_of q.head) fd)) [
        | inl t ↦ λ σ body. inl (ground_rel-instantiate σ q.head ∙ same_rel_eq (rel_of q.head) fd t)
        | inr t ↦ λ σ body. inr (
            Derives-Valid rules (implies (without fd q.body) q.head)
              (more (implies (without fd q.body) q.head)
                (listed-In (implies (without fd q.body) q.head) rs (ground arith)))
              σ (All-without σ q.body body))
      ])

-- What is derived, but for atoms of the relation, is derived by the rules that it is carried to.
pub Derives-carried :
    (fd : Rel) (qs rs base : List Rule) (g : Ground)
    → carried fd qs rs ≡ true
    → Unasked fd base
    → Derives (qs ++ base) g
    → (ground_rel g ≡ fd) ⊎ Derives (rs ++ base) g
Derives-carried fd qs rs base g h free d =
    Derives-Holds (Kept fd (rs ++ base)) (qs ++ base) g
      (λ r m. elim ((In-append r qs base).0 m) [
        | inl n ↦ Valid-carried fd (rs ++ base) qs rs h (λ r n. (In-append r rs base).1 (inl n)) r n
        | inr n ↦ Valid-Unasked fd (rs ++ base) r ((In-append r rs base).1 (inr n)) (free r n)
      ])
      d
