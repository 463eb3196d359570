-- ===== src/Constraints/Weak.antt =====
-- worklist-ai/worklistai.cpp: the rules of the memory models compared.
use watts.Prelude.{
  ◌≡◌, ◌≢◌, ◌↔◌, inl, inr, refl, subst, sym, Bool, true, false, ◌||◌, List, [], ◌++◌,
}
use watts.Horn.{Rel, no_reorder, Rule, Fixedpoint, Ground, Derives}
use native.Mathlib.Decide.{ℕ_discrete}
use watts.Horn.Compare.{carried, included, Unasked, Derives-carried, Derives-included, ground_rel}
use watts.Constraints.Reorder.{add_model_rules}

abbrev pub no_rules : Fixedpoint
no_rules = record { relations = []; rules = [] }

-- The rules that are added for the flags.
abbrev pub model_rules : Bool → Bool → Bool → List Rule
model_rules tso pso rmo = (add_model_rules tso pso rmo no_rules).rules

pub added :
    (tso pso rmo : Bool) (zfp : Fixedpoint)
    → (add_model_rules tso pso rmo zfp).rules ≡ model_rules tso pso rmo ++ zfp.rules
unfolding add_model_rules watts.Horn.add_rule
added true pso rmo zfp = refl
added false true rmo zfp = refl
added false false true zfp = refl
added false false false zfp = refl

weak-carried :
    (tso pso rmo : Bool)
    → carried no_reorder (model_rules tso pso rmo) (model_rules false false false) ≡ true
unfolding add_model_rules carried watts.Horn.Compare.Atom-discrete watts.Horn.Compare.Term-discrete
    ℕ_discrete
weak-carried true pso rmo = refl
weak-carried false true rmo = refl
weak-carried false false true = refl
weak-carried false false false = refl

-- Take a state of the solver none of whose rules asks for a no-reorder atom. Whatever the flags for
-- TSO, PSO and RMO are, an atom of another relation that is derived from that state and the rules of
-- the flags is derived from that state and the rules of the default, sequential consistency. So a
-- weaker model never rules out a read that the default does not.
pub weak_models-refine :
    (tso pso rmo : Bool) (zfp : Fixedpoint) (g : Ground)
    → Unasked no_reorder zfp.rules
    → ground_rel g ≢ no_reorder
    → Derives (add_model_rules tso pso rmo zfp).rules g
    → Derives (add_model_rules false false false zfp).rules g
weak_models-refine tso pso rmo zfp g free d h =
    subst (λ (rs : List Rule). Derives rs g) (sym (added false false false zfp))
      (elim (Derives-carried no_reorder (model_rules tso pso rmo) (model_rules false false false)
        zfp.rules g (weak-carried tso pso rmo) free
        (subst (λ (rs : List Rule). Derives rs g) (added tso pso rmo zfp) h)) [
          | inl e ↦ absurd (d e)
          | inr x ↦ x
        ])

agree-included :
    (tso pso rmo : Bool)
    → (tso || pso || rmo) ≡ true
    → (included (model_rules tso pso rmo) (model_rules true false false) ≡ true)
      × (included (model_rules true false false) (model_rules tso pso rmo) ≡ true)
unfolding add_model_rules included watts.Horn.Compare.Atom-discrete watts.Horn.Compare.Term-discrete
    ℕ_discrete watts.Horn.Compare.Rel-discrete
agree-included true pso rmo h = (refl, refl)
agree-included false true rmo h = (refl, refl)
agree-included false false true h = (refl, refl)
agree-included false false false h = cc

-- Whichever of the flags for TSO, PSO and RMO are set, when one is, the rules that they add derive
-- the same atoms from any state of the solver: the three memory models are not told apart.
pub weak_models-agree :
    (tso pso rmo : Bool) (zfp : Fixedpoint) (g : Ground)
    → (tso || pso || rmo) ≡ true
    → Derives (add_model_rules tso pso rmo zfp).rules g
      ↔ Derives (add_model_rules true false false zfp).rules g
weak_models-agree tso pso rmo zfp g h = (
  λ d.
      over (added tso pso rmo zfp) (added true false false zfp)
        (Derives-included (model_rules tso pso rmo) (model_rules true false false) zfp.rules g
          (agree-included tso pso rmo h).0)
        d,
  λ d.
      over (added true false false zfp) (added tso pso rmo zfp)
        (Derives-included (model_rules true false false) (model_rules tso pso rmo) zfp.rules g
          (agree-included tso pso rmo h).1)
        d,
)
  where
    over :
        {qs rs qs' rs' : List Rule}
        → qs ≡ qs'
        → rs ≡ rs'
        → (Derives qs' g → Derives rs' g)
        → Derives qs g
        → Derives rs g
    over e f k d =
        subst (λ (rs : List Rule). Derives rs g) (sym f)
          (k (subst (λ (rs : List Rule). Derives rs g) e d))
