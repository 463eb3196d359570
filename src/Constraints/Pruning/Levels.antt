-- ===== src/Constraints/Pruning/Levels.antt =====
-- The rules for PSO derive no more than those for TSO, and these no more than the default ones.
use native.Mathlib.Decide.{ℕ_discrete}
use watts.Prelude.{ℕ, ◌≡◌, refl, true, if◌then◌else◌, ◌==◌, List}
use watts.Horn.{Rule, Fixedpoint, Ground, Derives}
use watts.Horn.Subsume.{all_superfluous, Derives-superfluous}
use watts.Constraints.{add_pruning_rules}
use watts.Constraints.Weak.{no_rules}
use watts.Constraints.Pruning.{add_tso_pruning_rules, add_pso_pruning_rules}

abbrev rules_of : (Fixedpoint → Fixedpoint) → List Rule
rules_of add = (add no_rules).rules

-- Stores to any two variables, taken at one variable.
abbrev one_variable : ℕ → ℕ
one_variable n = if n == 3 then 2 else n

tso-default :
    all_superfluous one_variable (rules_of add_tso_pruning_rules) (rules_of add_pruning_rules)
    ≡ true
unfolding add_pruning_rules add_tso_pruning_rules all_superfluous watts.Horn.Compare.Rel-discrete
    watts.Horn.Compare.Term-discrete ℕ_discrete
tso-default = refl

pso-tso :
    all_superfluous one_variable (rules_of add_pso_pruning_rules) (rules_of add_tso_pruning_rules)
    ≡ true
unfolding add_pso_pruning_rules add_tso_pruning_rules all_superfluous
    watts.Horn.Compare.Rel-discrete watts.Horn.Compare.Term-discrete ℕ_discrete
pso-tso = refl

-- From any state of the solver, an atom that is derived with the pruning rules for PSO is derived
-- with those for TSO, and one that is derived with those for TSO is derived with the default rules.
pub pruning_rules-nested :
    (zfp : Fixedpoint) (g : Ground)
    → (Derives (add_pso_pruning_rules zfp).rules g → Derives (add_tso_pruning_rules zfp).rules g)
      × (Derives (add_tso_pruning_rules zfp).rules g → Derives (add_pruning_rules zfp).rules g)
unfolding add_pruning_rules add_tso_pruning_rules add_pso_pruning_rules watts.Horn.add_rule
pruning_rules-nested zfp g = (
  Derives-superfluous one_variable (rules_of add_pso_pruning_rules) (rules_of add_tso_pruning_rules)
      zfp.rules g pso-tso,
  Derives-superfluous one_variable (rules_of add_tso_pruning_rules) (rules_of add_pruning_rules)
      zfp.rules g tso-default,
)
