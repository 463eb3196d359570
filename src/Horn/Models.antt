-- ===== src/Horn/Models.antt =====
-- What holds of every derivable atom, and when one set of rules derives what another does.
use watts.Prelude.{ℕ, inl, inr, refl, sym, subst, List, [], ◌∷◌, In, All, All-In}
use watts.Horn.{Atom, Rule, Ground, instantiate, Derives, by_rule}

-- A rule holds in a model: with its body true, its head is.
abbrev pub Valid : (Ground → Type 0) → Rule → Type 0
Valid Holds r =
    (σ : ℕ → ℕ) → All (λ (b : Atom). Holds (instantiate σ b)) r.body → Holds (instantiate σ r.head)

pub All-of : {A : Type 0} (P : A → Type 0) (xs : List A) → ((a : A) → In a xs → P a) → All P xs
All-of P [] f = tt
All-of P (x ∷ xs) f = (f x (inl refl), All-of P xs (λ a m. f a (inr m)))

module _ (Holds : Ground → Type 0) (rules : List Rule) where
  -- The least model lies in every model of the rules.
  pub Derives-Holds :
      (g : Ground) → ((r : Rule) → In r rules → Valid Holds r) → Derives rules g → Holds g
  Derives-Holds g valid (by_rule r σ m e body) = subst Holds (sym e) (
      valid r m σ (
        All-of (λ (b : Atom). Holds (instantiate σ b)) r.body
          (λ b n. Derives-Holds (instantiate σ b) valid (body b n))))

pub Derives-more :
    (rules rules' : List Rule) (g : Ground)
    → ((r : Rule) → In r rules → In r rules')
    → Derives rules g
    → Derives rules' g
Derives-more rules rules' g more (by_rule r σ m e body) =
    by_rule r σ (more r m) e (λ b n. Derives-more rules rules' (instantiate σ b) more (body b n))

-- A rule of the set carries over to what it derives.
pub Derives-Valid : (rules : List Rule) (r : Rule) → In r rules → Valid (Derives rules) r
Derives-Valid rules r m σ body =
    by_rule r σ m refl
      (λ b n. All-In (λ (b : Atom). Derives rules (instantiate σ b)) r.body b body n)
