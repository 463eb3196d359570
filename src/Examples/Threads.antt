-- ===== src/Examples/Threads.antt =====
-- The flags of the command line, the stores that interfere and the tree of threads, at concrete inputs.
use watts.Prelude.{
  ℕ, suc, ◌+◌, ◌≤◌, ◌<◌, ◌≡◌, ◌≢◌, ◌↔◌, ◌⊎◌, inl, inr, refl, ◌==◌, ◌||◌, Bool, true, false,
  if◌then◌else◌, ltb, leb, Option, none, some, List, [], ◌∷◌, In, Result, ok, err, exit_failure,
  arith,
}
use watts.Prelude.Map.{Map, find}
use watts.Llvm.{Kind, load, store, global, value_eq}
use watts.Args.{Flags, check_command_line_args}
use watts.Args.Valid.{IsValid, check_command_line_args-IsValid}
use watts.Interference.Stores.{get_interfering_stores, flatten_reach_stores, stable_stores}
use watts.Interference.Stores.Listed.{Listed, Elsewhere, Same, get_interfering_stores-Listed}
use watts.Interference.Stores.Settled.{SomeHasFact, NotBelow, stable_stores-NotBelow}
use watts.Threads.{children_of, sort_by_creation, get_parents, get_parent_not_read}
use watts.Threads.Order.{ParentsFirst, Sized, sort_by_creation-ParentsFirst, sort_by_creation-ends}
use watts.Threads.Chain.{Ancestor, get_parent_not_read-Ancestor}

-- Boxes, with constraints and a path of Z3.
abbrev boxes : Flags
boxes = record {
  use_box = true;
  use_oct = false;
  use_poly = false;
  use_lin_eq = false;
  tso_constr = true;
  pso_constr = false;
  use_constraints = true;
  no_combins = false;
  dyn_init = false;
  z3_bin_loc = 11;
}

check_command_line_args-IsValid_example :
    ((check_command_line_args boxes ≡ ok (record boxes { dyn_init = true })) ↔ (
      IsValid boxes
      × ◌≡◌ {A = Flags}
          (record boxes { dyn_init = true })
          (record boxes { dyn_init = true || false })))
    × ((check_command_line_args boxes ≡ err exit_failure) ↔ ¬ (IsValid boxes))
check_command_line_args-IsValid_example =
    check_command_line_args-IsValid boxes (record boxes { dyn_init = true })

-- Instruction 5 loads the global 1; 7 and 8 store into it, and 9 into the global 2.
abbrev kinds : ℕ → Kind
kinds k =
    if k == 5
    then load (global 1)
    else if k == 9
    then store (global 3) (global 2)
    else store (global 3) (global 1)

-- Thread 20 has the load; its own store is 7.
abbrev stores : Map (Map ℕ)
stores = (20, (7, 0) ∷ []) ∷ (30, (8, 4) ∷ (9, 5) ∷ []) ∷ []

interfering_run : get_interfering_stores kinds 20 (5 ∷ []) stores ≡ ok ((5, 8 ∷ []) ∷ [])
unfolding get_interfering_stores find value_eq watts.Prelude.Map.emplace
interfering_run = refl

get_interfering_stores-Listed_example :
    Listed ((5, 8 ∷ []) ∷ []) 5 8
    ↔ (In {A = ℕ} 5 (5 ∷ []) × Elsewhere kinds 20 stores 8 × Same kinds 5 8)
get_interfering_stores-Listed_example =
    get_interfering_stores-Listed kinds 20 (5 ∷ []) stores ((5, 8 ∷ []) ∷ []) 5 8 interfering_run

flatten_run : flatten_reach_stores stores ≡ ok ((7, 0) ∷ (8, 4) ∷ (9, 5) ∷ [])
unfolding flatten_reach_stores find
flatten_run = refl

-- The facts are numbers in their order, and 0 is bottom.
abbrev later_stores : Map (Map ℕ)
later_stores = (30, (8, 3) ∷ []) ∷ []

stable_run : stable_stores ◌==◌ leb (λ k. k == 0) stores later_stores ≡ ok true
unfolding stable_stores find
stable_run = refl

stable_stores-NotBelow_example :
    (g : ℕ) × SomeHasFact stores 8 g × NotBelow ◌==◌ leb (λ k. k == 0) g 3
stable_stores-NotBelow_example =
    stable_stores-NotBelow ◌==◌ leb (λ k. k == 0) stores later_stores 8 3 stable_run
      (inl (inl refl))

-- Thread 1 creates 2 and 3, and 2 creates 4.
abbrev tree : Map (List ℕ)
tree = (1, 2 ∷ 3 ∷ []) ∷ (2, 4 ∷ []) ∷ []

sort_run : sort_by_creation 4 1 tree ≡ some (ok (1 ∷ 2 ∷ 3 ∷ 4 ∷ []))
unfolding sort_by_creation find
sort_run = refl

sort_by_creation-ParentsFirst_example :
    In {A = ℕ} 1 (1 ∷ 2 ∷ 3 ∷ 4 ∷ [])
    × ((x y : ℕ)
        → In {A = ℕ} x (1 ∷ 2 ∷ 3 ∷ 4 ∷ [])
        → In {A = ℕ} y (children_of tree x)
        → In {A = ℕ} y (1 ∷ 2 ∷ 3 ∷ 4 ∷ []))
    × ParentsFirst tree 1 [] (1 ∷ 2 ∷ 3 ∷ 4 ∷ [])
sort_by_creation-ParentsFirst_example =
    sort_by_creation-ParentsFirst 4 1 tree (1 ∷ 2 ∷ 3 ∷ 4 ∷ []) sort_run

abbrev sizes : ℕ → ℕ
sizes k = if k == 1 then 4 else if k == 2 then 2 else 1

sizes-Sized : Sized sizes tree
unfolding children_of find
sizes-Sized p = ground arith

sort_by_creation-ends_example : (r : List ℕ) × (sort_by_creation 4 1 tree ≡ some (ok r))
sort_by_creation-ends_example = sort_by_creation-ends sizes 1 tree sizes-Sized

abbrev creators : Map ℕ
creators = (2, 1) ∷ (3, 1) ∷ (4, 2) ∷ []

parents_run : get_parents 2 creators 4 ≡ some (2 ∷ 1 ∷ [])
unfolding get_parents find
parents_run = refl

-- Stores 60 and 61 come before thread 2 is created, and 62 before thread 4.
abbrev unread : Map (List ℕ)
unread = (2, 60 ∷ 61 ∷ []) ∷ (4, 62 ∷ []) ∷ []

not_read_run : get_parent_not_read 2 4 creators unread ≡ some (60 ∷ 61 ∷ [])
unfolding get_parent_not_read find
not_read_run = refl

get_parent_not_read-Ancestor_example : In {A = ℕ} 61 (60 ∷ 61 ∷ []) ↔ (
    (p : ℕ) × (nr : List ℕ) × Ancestor creators 4 p × (find p unread ≡ some nr) × In {A = ℕ} 61 nr)
get_parent_not_read-Ancestor_example =
    get_parent_not_read-Ancestor 2 4 creators unread (60 ∷ 61 ∷ []) 61 not_read_run
