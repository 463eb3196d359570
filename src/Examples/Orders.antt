-- ===== src/Examples/Orders.antt =====
-- The ordering constraints, at concrete inputs.
use native.Mathlib.Decide.{ℕ_discrete}
use watts.Prelude.{
  ℕ, ◌≡◌, ◌↔◌, ◌⊎◌, inl, inr, refl, sym, subst, Bool, true, false, if◌then◌else◌, none, some, List,
  [], ◌∷◌, ◌==◌, In, ok, arith,
}
use watts.Prelude.Map.{Map, find, emplace}
use watts.Llvm.{Kind, load, global}
use watts.Horn.{
  mhb, not_rf, rf, no_reorder, constant, app2, Rule, Fixedpoint, Ground, ground1, ground2, Derives,
  by_rule, implies, bound, Atom, instantiate,
}
use watts.Horn.Models.{Valid}
use watts.Horn.Compare.{listed, listed-In, Unasked}
use watts.Constraints.{add_pruning_rules}
use watts.Constraints.Pruning.{add_tso_pruning_rules, add_pso_pruning_rules}
use watts.Constraints.Pruning.Levels.{pruning_rules-nested}
use watts.Constraints.Reorder.{add_model_rules}
use watts.Constraints.Weak.{weak_models-refine, weak_models-agree}
use watts.Constraints.Runs.{Run, Consistent, Before, Holds}
use watts.Constraints.Executions.{model_rules-Holds}
use watts.Solver.{Solver}
use watts.Solver.Numbers.{IsNumbering}
use watts.ProgOrder.{
  Answer, Answers, l_true, l_undef, violates_prog_order, filter_mhb_interfs, find_answer,
}
use watts.ProgOrder.Asks.{AnswersDerived, Reads}
use watts.ProgOrder.Sound.{violates_prog_order-infeasible}
use watts.ProgOrder.Kept.{KeptRight}
use watts.ProgOrder.Filter.{Entry, filter_mhb_interfs-keeps}

-- A thread stores 1 and then 2; the load 0 of another thread reads the latter.
abbrev pub two_stores : Run
two_stores = record {
  time = λ k. if k == 0 then some 2 else if k == 1 then some 0 else if k == 2 then some 1 else none;
  source = λ k. if k == 0 then some 2 else none;
  Loads = λ l v. l ≡ 0;
  Stores = λ s v. (s ≡ 1) ⊎ (s ≡ 2);
  Dominates = λ a b. (a ≡ 1) × (b ≡ 2);
  NoPath = λ a b. Unit {0};
}

read_is : (l s : ℕ) → two_stores.source l ≡ some s → (l ≡ 0) × (s ≡ 2)
read_is l s h = ground arith

time_is :
    (l t : ℕ)
    → two_stores.time l ≡ some t
    → (l ≡ 0) × (t ≡ 2) ⊎ (l ≡ 1) × (t ≡ 0) ⊎ (l ≡ 2) × (t ≡ 1)
time_is l t h = ground arith

runs_at :
    (l t : ℕ)
    → (l ≡ 1) × (t ≡ 0) ⊎ (l ≡ 2) × (t ≡ 1) ⊎ (l ≡ 0) × (t ≡ 2)
    → two_stores.time l ≡ some t
runs_at l t h = ground arith

pub two_stores-Consistent : Consistent two_stores
two_stores-Consistent = record {
  read_before = λ l s h j hj. (
    1,
    runs_at s 1 (inr (inl ((read_is l s h).1, refl))),
    ground (arith, read_is l s h, time_is l j hj),
  );
  read_runs = λ l s h. (2, runs_at l 2 (inr (inr ((read_is l s h).0, refl))));
  read_latest = λ l s s' v i j k h p q hi hj hk.
      ground (arith, read_is l s h, time_is s' k hk, time_is s i hi, q);
  program_order =
      λ a b d n j hj. (0, runs_at a 0 (inl (d.0, refl)), ground (arith, time_is b j hj, d));
}

abbrev reads_fact : Rule
reads_fact = implies [] (app2 rf (constant 0) (constant 2))

abbrev not_reads_fact : Rule
not_reads_fact = implies [] (app2 not_rf (constant 0) (constant 1))

abbrev order_fact : Rule
order_fact = implies [] (app2 mhb (constant 0) (constant 3))

-- The facts that the rules are added to.
abbrev pub base : Fixedpoint
base = record { relations = []; rules = reads_fact ∷ not_reads_fact ∷ order_fact ∷ [] }

base-Unasked : Unasked no_reorder base.rules
base-Unasked r (inl e) b m = absurd (subst (λ (q : Rule). In b q.body) e m)
base-Unasked r (inr (inl e)) b m = absurd (subst (λ (q : Rule). In b q.body) e m)
base-Unasked r (inr (inr (inl e))) b m = absurd (subst (λ (q : Rule). In b q.body) e m)
base-Unasked r (inr (inr (inr m'))) b m = absurd m'

pub base-Valid : (r : Rule) → In r base.rules → Valid (Holds two_stores) r
base-Valid r (inl e) = subst (Valid (Holds two_stores)) (sym e) (λ σ h. refl)
base-Valid r (inr (inl e)) =
    subst (Valid (Holds two_stores)) (sym e) (λ σ h p. absurd (ground arith))
base-Valid r (inr (inr (inl e))) =
    subst (Valid (Holds two_stores)) (sym e) (λ σ h j hj. absurd (ground (arith, time_is 3 j hj)))
base-Valid r (inr (inr (inr m))) = absurd m

abbrev read_rule : Rule
read_rule = implies (app2 rf (bound 3) (bound 2) ∷ []) (app2 mhb (bound 2) (bound 3))

read_then :
    (rules : List Rule) → In read_rule rules → In reads_fact rules → Derives rules (ground2 mhb 2 0)
read_then rules m n =
    by_rule read_rule (λ k. if k == 2 then 2 else 0) m refl
      (λ b o. elim o [
        | inl e ↦
            subst (λ (c : Atom). Derives rules (instantiate (λ k. if k == 2 then 2 else 0) c))
              (sym e) (by_rule reads_fact (λ k. k) n refl (λ c x. absurd x))
        | inr x ↦ absurd x
      ])

read_order :
    (tso pso rmo : Bool) → Derives (add_model_rules tso pso rmo base).rules (ground2 mhb 2 0)
unfolding add_model_rules watts.Horn.add_rule
read_order true pso rmo = read_then _ (inl refl) (
    inr (
      inr (
        inr (
          inr (
            inr (
              inr (inr (inr (inr (inr (inr (inr (inr (inr (inr (inr (inr (inl refl))))))))))))))))))
read_order false true rmo = read_then _ (inl refl) (
    inr (
      inr (
        inr (
          inr (inr (inr (inr (inr (inr (inr (inr (inr (inr (inr (inr (inr (inl refl)))))))))))))))))
read_order false false true =
    read_then _ (inl refl)
      (inr (inr (inr (inr (inr (inr (inr (inr (inr (inr (inr (inr (inr (inr (inl refl)))))))))))))))
read_order false false false =
    read_then _ (inl refl) (inr (inr (inr (inr (inr (inr (inr (inl refl))))))))

weak_models-refine_example :
    Derives (add_model_rules false false false base).rules (ground2 mhb 2 0)
weak_models-refine_example =
    weak_models-refine true false false base (ground2 mhb 2 0) base-Unasked (λ e. cc)
      (read_order true false false)

weak_models-agree_example :
    Derives (add_model_rules false false true base).rules (ground2 mhb 2 0)
    ↔ Derives (add_model_rules true false false base).rules (ground2 mhb 2 0)
weak_models-agree_example = weak_models-agree false false true base (ground2 mhb 2 0) refl

model_rules-Holds_example : Before two_stores 2 0
model_rules-Holds_example =
    model_rules-Holds two_stores two_stores-Consistent false true false base (ground2 mhb 2 0)
      base-Valid (read_order false true false)

-- A solver that only looks a fact up.
unfoldable pub facts_only : Fixedpoint → Ground → Answer
unfolding listed
facts_only zfp (ground1 fd a) = l_undef
facts_only zfp (ground2 fd a b) =
    if listed (implies [] (app2 fd (constant a) (constant b))) zfp.rules then l_true else l_undef

pub facts_only-derived : AnswersDerived facts_only
unfolding facts_only
facts_only-derived zfp (ground1 fd a) h = cc
facts_only-derived zfp (ground2 fd a b) h =
    by_rule (implies [] (app2 fd (constant a) (constant b))) (λ k. k)
      (listed-In (implies [] (app2 fd (constant a) (constant b))) zfp.rules (ground arith)) refl
      (λ c m. absurd m)

empty-IsNumbering : IsNumbering []
unfolding find
empty-IsNumbering = record { bounded = λ v i h. cc; distinct = λ v w i g h. cc; room = omega arith }

abbrev pub all_loads : ℕ → Kind
all_loads k = load (global 0)

abbrev after_check : Solver
after_check = record {
  value_cache = (5, 0) ∷ (7, 1) ∷ [];
  zfp = add_model_rules true false false base;
}

check_run :
    violates_prog_order facts_only all_loads
      ((5, 7) ∷ [])
      []
      (record { value_cache = []; zfp = add_model_rules true false false base })
    ≡ ok (after_check, true)
unfolding violates_prog_order facts_only find emplace watts.Horn.Compare.Atom-discrete
    watts.Horn.Compare.Rel-discrete add_model_rules watts.Horn.Compare.Term-discrete ℕ_discrete
check_run = refl

violates_prog_order-infeasible_example : ¬ (
    (l st : ℕ)
    → In {A = ℕ × ℕ} (l, st) ((5, 7) ∷ [])
    → Reads two_stores ((5, 0) ∷ (7, 1) ∷ []) l st)
violates_prog_order-infeasible_example =
    violates_prog_order-infeasible facts_only all_loads two_stores true false false ((5, 7) ∷ []) []
      [] base after_check facts_only-derived two_stores-Consistent empty-IsNumbering base-Valid
      check_run

-- The load 5 must come before the store 9, which does not run.
abbrev three_stores : Map (List ℕ)
three_stores = (5, 7 ∷ 8 ∷ 9 ∷ []) ∷ []

abbrev after_filter : Solver × Answers
after_filter = (
  record {
    value_cache = (5, 0) ∷ (7, 1) ∷ (8, 2) ∷ (9, 3) ∷ [];
    zfp = add_model_rules false false false base;
  },
  ((5, 9), l_true) ∷ ((5, 8), l_undef) ∷ ((5, 7), l_undef) ∷ [],
)

filter_run :
    filter_mhb_interfs facts_only three_stores
      (record { value_cache = []; zfp = add_model_rules false false false base }, [])
    ≡ ok (after_filter, (5, 7 ∷ 8 ∷ []) ∷ [])
unfolding filter_mhb_interfs facts_only find emplace watts.Horn.Compare.Atom-discrete
    watts.Horn.Compare.Rel-discrete add_model_rules watts.Horn.Compare.Term-discrete ℕ_discrete
filter_run = refl

none-KeptRight : KeptRight two_stores [] []
unfolding find_answer
none-KeptRight l st h = cc

filter_mhb_interfs-keeps_example :
    KeptRight two_stores after_filter.0.value_cache after_filter.1
    × ((l : ℕ) (sts : List ℕ)
        → In {A = ℕ × List ℕ} (l, sts) three_stores
        → Entry two_stores after_filter.0.value_cache ((5, 7 ∷ 8 ∷ []) ∷ []) l sts)
filter_mhb_interfs-keeps_example =
    filter_mhb_interfs-keeps facts_only two_stores false false false three_stores
      ((5, 7 ∷ 8 ∷ []) ∷ []) [] base [] after_filter.1 after_filter.0 facts_only-derived
      two_stores-Consistent empty-IsNumbering base-Valid none-KeptRight filter_run

pruning_rules-nested_example :
    (Derives (add_pso_pruning_rules base).rules (ground2 mhb 2 0)
      → Derives (add_tso_pruning_rules base).rules (ground2 mhb 2 0))
    × (Derives (add_tso_pruning_rules base).rules (ground2 mhb 2 0)
        → Derives (add_pruning_rules base).rules (ground2 mhb 2 0))
pruning_rules-nested_example = pruning_rules-nested base (ground2 mhb 2 0)
