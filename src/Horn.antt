-- ===== src/Horn.antt =====
-- utils/z3_fp_helpers.cpp: relations, facts and Horn rules as they are handed to muZ, Z3's engine for
-- fixed points, whose answer is the least model of the rules: `Derives`.
pub mod Models
pub mod Compare
pub mod Subsume
use watts.Prelude.{ℕ, ◌≡◌, Bool, true, false, List, [], ◌∷◌, In}

-- The relations that worklist-ai/worklistai.cpp declares by name.
pub data Rel : Type 0 where
  ld st mhb no_reorder fence lwsync dom not_reach not_rf rf : Rel

-- `Z3_mk_bound(ctx, n, bvSort)` or the number of an LLVM value.
pub data Term : Type 0 where
  bound constant : ℕ → Term

-- `fd(1, args)` and `fd(2, args)`
pub data Atom : Type 0 where
  app1 : Rel → Term → Atom
  app2 : Rel → Term → Term → Atom

-- `z3::implies(b1 && b2 && ..., head)`, for all values of its bound variables; a fact has no body.
pub record Rule : Type 0 where
  pub body : List Atom
  pub head : Atom

-- The state of the solver that the source changes: what is registered, and the rules, last first.
pub record Fixedpoint : Type 0 where
  pub relations : List Rel
  pub rules : List Rule

-- An atom about numbers.
pub data Ground : Type 0 where
  ground1 : Rel → ℕ → Ground
  ground2 : Rel → ℕ → ℕ → Ground

abbrev pub value : (ℕ → ℕ) → Term → ℕ
value σ (bound n) = σ n
value σ (constant c) = c

abbrev pub instantiate : (ℕ → ℕ) → Atom → Ground
instantiate σ (app1 r a) = ground1 r (value σ a)
instantiate σ (app2 r a b) = ground2 r (value σ a) (value σ b)

-- The least model of the rules.
pub data Derives (rules : List Rule) : Ground → Type 0 where
  by_rule :
      {g : Ground} (r : Rule) (σ : ℕ → ℕ)
      → In r rules
      → g ≡ instantiate σ r.head
      → ((b : Atom) → In b r.body → Derives rules (instantiate σ b))
      → Derives rules g

-- `Z3_fixedpoint_add_rule`
unfoldable pub add_rule : Rule → Fixedpoint → Fixedpoint
add_rule r zfp = record { relations = zfp.relations; rules = r ∷ zfp.rules }

-- `Z3_fixedpoint_register_relation`
unfoldable pub register_relation : Rel → Fixedpoint → Fixedpoint
register_relation fd zfp = record { relations = fd ∷ zfp.relations; rules = zfp.rules }

abbrev pub implies : List Atom → Atom → Rule
implies body head = record { body = body; head = head }

unfoldable pub add_fact2 : Rel → Term → Term → Fixedpoint → Fixedpoint
unfolding add_rule
add_fact2 fd v1 v2 zfp = add_rule (implies [] (app2 fd v1 v2)) zfp

unfoldable pub add_fact1 : Rel → Term → Fixedpoint → Fixedpoint
unfolding add_rule
add_fact1 fd v zfp = add_rule (implies [] (app1 fd v)) zfp

unfoldable pub add_trans_rule_bvbv : Rel → Fixedpoint → Fixedpoint
unfolding add_rule
add_trans_rule_bvbv fd zfp =
    add_rule
      (implies (app2 fd (bound 0) (bound 1) ∷ app2 fd (bound 1) (bound 2) ∷ [])
        (app2 fd (bound 0) (bound 2)))
      zfp

-- The head is made of `fd1`, as in the source.
unfoldable pub add_rel_implication_rule : Rel → Rel → Fixedpoint → Fixedpoint
unfolding add_rule
add_rel_implication_rule fd1 fd2 zfp =
    let fd1AB = app2 fd1 (bound 0) (bound 1) in
    let fd2AB = app2 fd1 (bound 0) (bound 1) in add_rule (implies (fd1AB ∷ []) fd2AB) zfp
