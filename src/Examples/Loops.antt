-- ===== src/Examples/Loops.antt =====
-- The loops over permutations, blocks and maps of facts, at concrete inputs.
use watts.Choices.{cur_interf_map, choices_per_load}
use watts.Choices.Total.{AllChosen, cur_interf_map-AllChosen}
use watts.Prelude.{
  All, ℕ, suc, ◌≤◌, ◌≡◌, ◌≢◌, ◌↔◌, ◌⊎◌, inl, inr, refl, Bool, true, false, Option, none, some, List,
  [], ◌∷◌, ◌==◌, In, Result, ok, ok-inj, subst, ap, err, arith, if◌then◌else◌,
}
use watts.Prelude.Map.{Map}
use watts.Apron.Reachability.{reachability, reachability_sound, true-Covers}
use watts.Prelude.{length, get_elem?}
use watts.CartesianProduct.{CartesianProduct, make, visits}
use watts.CartesianProduct.Visits.{visits_every}
use watts.Prelude.Map.{count, find, emplace}
use watts.Worklist.Pending.{Pending}
use watts.Interference.{join_interfs}
use watts.Interference.Sound.{join_interfs-Pending}
use watts.Prelude.{◌+◌}
use watts.Reachability.{forward_dfs}
use watts.Reachability.Paths.{Reach, forward_dfs-Reach}
use watts.Reachability.Ends.{forward_dfs-ends}
use watts.Examples.Facts.{five}

-- Three loads with two, three and two choices; the load of the first row reads its second choice.
abbrev row_sizes : List ℕ
row_sizes = 2 ∷ 3 ∷ 2 ∷ []

abbrev choice : List ℕ
choice = 1 ∷ 2 ∷ 0 ∷ []

visits_every_example :
    (cp : CartesianProduct) × (qs : List (List ℕ)) × (make row_sizes ≡ ok cp)
    × (visits 13 cp ≡ some (ok qs))
    × (length qs ≡ 12)
    × (get_elem? qs 5 ≡ some choice)
visits_every_example =
    visits_every 2 (3 ∷ 2 ∷ []) choice (omega arith, (omega arith, (omega arith, tt))) (omega arith)
      (omega arith, (omega arith, (omega arith, tt)))

-- Blocks 1 and 2 are a cycle that block 0 leads into.
abbrev cycle : ℕ → List ℕ
cycle k = if k == 0 then 1 ∷ 2 ∷ [] else if k == 1 then 2 ∷ [] else if k == 2 then 1 ∷ [] else []

cycle_run : forward_dfs cycle 6 0 ≡ some (1 ∷ 2 ∷ [])
unfolding forward_dfs count watts.Prelude.Map.insert
cycle_run = refl

forward_dfs-Reach_example : (count 1 (1 ∷ 2 ∷ []) ≡ true) ↔ Reach cycle 0 1
forward_dfs-Reach_example = forward_dfs-Reach cycle 0 6 (1 ∷ 2 ∷ []) 1 cycle_run

cycle_known : (k : ℕ) → In k (0 ∷ 1 ∷ 2 ∷ []) ⊎ (length (cycle k) ≡ 0)
cycle_known k = ground arith

forward_dfs-ends_example : (r : List ℕ) × (forward_dfs cycle 6 0 ≡ some r)
forward_dfs-ends_example = forward_dfs-ends cycle (0 ∷ 1 ∷ 2 ∷ []) cycle_known 6 0 (omega arith)

second_found : find 21 ((20, true) ∷ (21, true) ∷ []) ≡ some true
unfolding find
second_found = refl

-- Loads 30 and 31 may read from stores 40 and 41.
abbrev loads : Map (List ℕ)
loads = (30, 40 ∷ 41 ∷ []) ∷ (31, 41 ∷ []) ∷ []

abbrev store_facts : Map Bool
store_facts = (40, false) ∷ (41, true) ∷ []

join_run : join_interfs reachability loads store_facts ≡ ok ((30, true) ∷ (31, true) ∷ [])
unfolding join_interfs find emplace
join_run = refl

at_41 : find 41 store_facts ≡ some true
unfolding find
at_41 = refl

join_interfs-Pending_example :
    Pending reachability reachability_sound 30 five ((30, true) ∷ (31, true) ∷ [])
join_interfs-Pending_example =
    join_interfs-Pending reachability reachability_sound loads store_facts
      ((30, true) ∷ (31, true) ∷ []) 30 41 (40 ∷ 41 ∷ []) true five join_run (inl refl)
      (inr (inl refl)) at_41 (true-Covers five)

cur_interf_map-AllChosen_example :
    (r : Map Bool) × (cur_interf_map reachability (2 ∷ 0 ∷ []) loads store_facts ≡ ok r)
    × AllChosen reachability store_facts (2 ∷ 0 ∷ []) loads r
unfolding choices_per_load find
cur_interf_map-AllChosen_example =
    cur_interf_map-AllChosen reachability store_facts (2 ∷ 0 ∷ []) loads
      (omega arith, (omega arith, tt))
      (((false, refl), ((true, refl), tt)), (((true, refl), tt), tt))
      (((λ h. omega arith), tt), (tt, tt))
