-- ===== src/Constraints/Executions.antt =====
-- worklist-ai/worklistai.cpp: the rules read as claims on one run of the program.
use watts.Prelude.{
  ℕ, ◌≡◌, inl, inr, subst, Bool, true, false, some, List, In, In-append, All, All-In,
}
use watts.Horn.{
  Rel, ld, st, mhb, dom, not_reach, not_rf, rf, Rule, Fixedpoint, Ground, ground1, ground2, Derives,
}
use watts.Horn.Models.{Valid, Derives-Holds}
use watts.Constraints.Reorder.{add_model_rules}
use watts.Constraints.Weak.{model_rules, added}
use watts.Constraints.Runs.{
  Run, Consistent, Before, Holds, Before-trans, not_later, read-Before_next, overwritten,
}

module _ (run : Run) (c : Consistent run) where
  open run use {source, Loads, Stores, Dominates, NoPath}
  open c use {read_before, program_order}

  is_mhb : (σ : ℕ → ℕ) → (source (σ 3) ≡ some (σ 2)) × Unit {0} → Before run (σ 2) (σ 3)
  is_mhb σ h = read_before (σ 3) (σ 2) h.0

  overwrite :
      (σ : ℕ → ℕ)
      → (source (σ 0) ≡ some (σ 2))
        × (Before run (σ 0) (σ 3)
            × (Before run (σ 3) (σ 1)
                × (Loads (σ 0) (σ 4) × (Loads (σ 1) (σ 4) × (Stores (σ 3) (σ 4) × Unit {0})))))
      → ¬ (source (σ 1) ≡ some (σ 2))
  overwrite σ (h, (p, (q, (k, (hl, (hs, t)))))) =
      overwritten run c (σ 0) (σ 1) (σ 2) (σ 3) (σ 4) h p q hl hs

  from_read :
      (σ : ℕ → ℕ)
      → (source (σ 2) ≡ some (σ 0))
        × (Before run (σ 0) (σ 1)
            × (Loads (σ 2) (σ 3) × (Stores (σ 0) (σ 3) × (Stores (σ 1) (σ 3) × Unit {0}))))
      → Before run (σ 2) (σ 1)
  from_read σ (h, (p, (hl, (k, (hs, t))))) =
      read-Before_next run c (σ 2) (σ 0) (σ 1) (σ 3) h p hl hs

  not_reads : (σ : ℕ → ℕ) → Before run (σ 0) (σ 1) × Unit {0} → ¬ (source (σ 0) ≡ some (σ 1))
  not_reads σ h = not_later run c (σ 0) (σ 1) h.0

  trans :
      (σ : ℕ → ℕ)
      → Before run (σ 0) (σ 1) × (Before run (σ 1) (σ 2) × Unit {0})
      → Before run (σ 0) (σ 2)
  trans σ (p, (q, t)) = Before-trans run (σ 0) (σ 1) (σ 2) p q

  reads : (σ : ℕ → ℕ) → (source (σ 0) ≡ some (σ 1)) × Unit {0} → Before run (σ 1) (σ 0)
  reads σ h = read_before (σ 0) (σ 1) h.0

  ordered :
      (σ : ℕ → ℕ) → Dominates (σ 0) (σ 1) × (NoPath (σ 1) (σ 0) × Unit {0}) → Before run (σ 0) (σ 1)
  ordered σ (p, (q, t)) = program_order (σ 0) (σ 1) p q

  reordered :
      (σ : ℕ → ℕ)
      → Dominates (σ 0) (σ 1) × (NoPath (σ 1) (σ 0) × (Unit {0} × Unit {0}))
      → Before run (σ 0) (σ 1)
  reordered σ (p, (q, t)) = program_order (σ 0) (σ 1) p q

  model_rules-Valid : (tso pso rmo : Bool) → All (Valid (Holds run)) (model_rules tso pso rmo)
  unfolding add_model_rules watts.Horn.add_rule
  model_rules-Valid true pso rmo = (
    is_mhb,
    (
      λ σ h. tt,
      (
        λ σ h. tt,
        (
          λ σ h. tt,
          (
            λ σ h. tt,
            (
              λ σ h. tt,
              (
                λ σ h. tt,
                (
                  λ σ h. tt,
                  (
                    λ σ h. tt,
                    (
                      λ σ h. tt,
                      (
                        λ σ h. tt,
                        (overwrite, (not_reads, (trans, (from_read, (reads, (reordered, tt)))))),
                      ),
                    ),
                  ),
                ),
              ),
            ),
          ),
        ),
      ),
    ),
  )
  model_rules-Valid false true rmo = (
    is_mhb,
    (
      λ σ h. tt,
      (
        λ σ h. tt,
        (
          λ σ h. tt,
          (
            λ σ h. tt,
            (
              λ σ h. tt,
              (
                λ σ h. tt,
                (
                  λ σ h. tt,
                  (
                    λ σ h. tt,
                    (
                      λ σ h. tt,
                      (overwrite, (not_reads, (trans, (from_read, (reads, (reordered, tt)))))),
                    ),
                  ),
                ),
              ),
            ),
          ),
        ),
      ),
    ),
  )
  model_rules-Valid false false true = (
    is_mhb,
    (
      λ σ h. tt,
      (
        λ σ h. tt,
        (
          λ σ h. tt,
          (
            λ σ h. tt,
            (
              λ σ h. tt,
              (
                λ σ h. tt,
                (
                  λ σ h. tt,
                  (overwrite, (not_reads, (trans, (from_read, (reads, (reordered, tt)))))),
                ),
              ),
            ),
          ),
        ),
      ),
    ),
  )
  model_rules-Valid false false false =
      (is_mhb, (overwrite, (not_reads, (trans, (from_read, (ordered, (reads, tt)))))))

  pub add_model_rules-Valid :
      (tso pso rmo : Bool) (zfp : Fixedpoint)
      → ((r : Rule) → In r zfp.rules → Valid (Holds run) r)
      → (r : Rule) → In r (add_model_rules tso pso rmo zfp).rules
      → Valid (Holds run) r
  add_model_rules-Valid tso pso rmo zfp base r m =
      elim ((In-append r (model_rules tso pso rmo) zfp.rules).0
        (subst (λ (rs : List Rule). In r rs) (added tso pso rmo zfp) m)) [
          | inl n ↦
              All-In (Valid (Holds run)) (model_rules tso pso rmo) r (model_rules-Valid tso pso rmo)
                n
          | inr n ↦ base r n
        ]

  -- Take a run of the program under one shared memory in which each instruction runs at most once,
  -- and a state of the solver whose rules hold in it. Whatever the flags for TSO, PSO and RMO are,
  -- every atom that is derived from the state and the rules of the flags holds in the run: what
  -- must happen before has happened before, and a load does not read a store that it must not read.
  pub model_rules-Holds :
      (tso pso rmo : Bool) (zfp : Fixedpoint) (g : Ground)
      → ((r : Rule) → In r zfp.rules → Valid (Holds run) r)
      → Derives (add_model_rules tso pso rmo zfp).rules g
      → Holds run g
  model_rules-Holds tso pso rmo zfp g base =
      Derives-Holds (Holds run) (add_model_rules tso pso rmo zfp).rules g
        (add_model_rules-Valid tso pso rmo zfp base)
