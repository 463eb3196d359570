-- ===== src/Constraints/Runs.antt =====
-- One run of the program under a memory that all threads share, in which every instruction runs once
-- or not at all and a load reads the latest store to its variable.
use watts.Prelude.{ℕ, ◌≡◌, ◌⊎◌, ◌<◌, ◌≤◌, Option, some, arith}
use watts.Horn.{ld, st, mhb, dom, not_reach, not_rf, rf, Ground, ground2}

-- `time i` is when the instruction `i` runs, `source l` the store that the load `l` reads, and the
-- relations are the facts about the program text.
pub record Run : Type 1 where
  pub time : ℕ → Option ℕ
  pub source : ℕ → Option ℕ
  pub Loads : ℕ → ℕ → Type 0
  pub Stores : ℕ → ℕ → Type 0
  pub Dominates : ℕ → ℕ → Type 0
  pub NoPath : ℕ → ℕ → Type 0

module _ (run : Run) where
  open run use {time, source, Loads, Stores, Dominates, NoPath}

  -- If `b` runs, then `a` has run before.
  abbrev pub Before : ℕ → ℕ → Type 0
  Before a b = (j : ℕ) → time b ≡ some j → (i : ℕ) × (time a ≡ some i) × (i < j)

  -- The order of one memory that all threads share.
  pub record Consistent : Type 0 where
    -- what a load reads was stored before
    pub read_before : (l s : ℕ) → source l ≡ some s → Before s l
    pub read_runs : (l s : ℕ) → source l ≡ some s → (j : ℕ) × (time l ≡ some j)
    -- and no store to the variable lies between
    pub read_latest :
        (l s s' v i j k : ℕ)
        → source l ≡ some s
        → Loads l v
        → Stores s' v
        → time s ≡ some i
        → time l ≡ some j
        → time s' ≡ some k
        → (k ≤ i) ⊎ (j < k)
    -- a thread runs its instructions in program order
    pub program_order : (a b : ℕ) → Dominates a b → NoPath b a → Before a b

  -- What an atom claims of the run.
  abbrev pub Holds : Ground → Type 0
  Holds (ground2 ld l v) = Loads l v
  Holds (ground2 st s v) = Stores s v
  Holds (ground2 mhb a b) = Before a b
  Holds (ground2 dom a b) = Dominates a b
  Holds (ground2 not_reach a b) = NoPath a b
  Holds (ground2 not_rf l s) = ¬ (source l ≡ some s)
  Holds (ground2 rf l s) = source l ≡ some s
  Holds _ = Unit

  pub Before-trans : (a b c : ℕ) → Before a b → Before b c → Before a c
  Before-trans a b c p q k hk =
      let (j, hj, jk) = q k hk in let (i, hi, ij) = p j hj in (i, hi, omega arith)

  not-Before_itself : (a : ℕ) → Before a a → (j : ℕ) → time a ≡ some j → ⊥
  not-Before_itself a p j h = let (i, hi, ij) = p j h in omega (arith, same i hi)
    where
      same : (i : ℕ) → time a ≡ some i → i ≡ j
      same i hi = ground (arith, h)

  module _ (c : Consistent) where
    open c use {read_before, read_runs, read_latest, program_order}

    pub not_later : (a b : ℕ) → Before a b → ¬ (source a ≡ some b)
    not_later a b p h =
        let (j, hj) = read_runs a b h in
        not-Before_itself a (Before-trans a b a p (read_before a b h)) j hj

    pub read-Before_next :
        (l s s' v : ℕ) → source l ≡ some s → Before s s' → Loads l v → Stores s' v → Before l s'
    read-Before_next l s s' v h p hl hs k hk =
        let (j, hj) = read_runs l s h in
        let (i, hi, ik) = p k hk in
        (j, hj, ground (arith, read_latest l s s' v i j k h hl hs hi hj hk))

    pub overwritten :
        (l l' s s' v : ℕ)
        → source l ≡ some s
        → Before l s'
        → Before s' l'
        → Loads l' v
        → Stores s' v
        → ¬ (source l' ≡ some s)
    overwritten l l' s s' v h p q hl hs h' =
        let (j', hj) = read_runs l' s h' in
        let (k, hk, kj) = q j' hj in
        let (m, hm, mk) = p k hk in
        let (i, hi, im) = read_before l s h m hm in
        ground (arith, read_latest l' s s' v i j' k h' hl hs hi hj hk)
