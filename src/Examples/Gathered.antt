-- ===== src/Examples/Gathered.antt =====
-- The facts that are gathered from instructions, at concrete inputs.
use watts.Prelude.{
  ℕ, ◌≡◌, ◌==◌, if◌then◌else◌, inl, inr, refl, sym, subst, ◌∙◌, ap, List, [], ◌∷◌, In, ok, some,
  arith,
}
use watts.Prelude.Map.{find, emplace}
use watts.Llvm.{load, store, alloca, global, Block, ret}
use watts.Horn.{
  mhb, not_rf, not_reach, rf, dom, bound, constant, app2, Rule, Ground, ground2, Derives, by_rule,
  implies,
}
use watts.Horn.Compare.{Unasked}
use watts.Solver.{Solver}
use watts.Solver.Numbers.{IsNumbering}
use watts.Facts.{add_internal_dom_facts, loads_n_stores, add_create_store_load_facts, create_rule}
use watts.Facts.Chain.{transitive, Precedes, Dominates, add_internal_dom_facts-Dominates}
use watts.Facts.NotReach.{add_not_reachable_facts}
use watts.Facts.NotReach.Loops.{Adds, not_reach_fact}
use watts.Facts.NotReach.Reached.{Unreached, DistinctBlocks}
use watts.Facts.NotReach.Exact.{add_not_reachable_facts-Adds}
use watts.Facts.Create.{Known, add_create_store_load_facts-Known}

-- An allocation, a store, a load, and the return.
abbrev block : Block
block = record {
  id = 1;
  body =
      record { id = 10; kind = alloca }
      ∷ record { id = 11; kind = store (global 3) (global 1) }
      ∷ record { id = 12; kind = load (global 1) }
      ∷ [];
  term_id = 13;
  term = ret;
}

abbrev before : Solver
before = record { value_cache = []; zfp = record { relations = []; rules = transitive ∷ [] } }

abbrev dom_fact : ℕ → ℕ → Rule
dom_fact i j = implies [] (app2 dom (constant i) (constant j))

abbrev after : Solver
after = record {
  value_cache = (11, 0) ∷ (12, 1) ∷ (13, 2) ∷ [];
  zfp = record { relations = []; rules = dom_fact 1 2 ∷ dom_fact 0 1 ∷ transitive ∷ [] };
}

gather_run : add_internal_dom_facts block before ≡ ok after
unfolding add_internal_dom_facts find emplace watts.Horn.add_rule
gather_run = refl

no_numbers : IsNumbering []
unfolding find
no_numbers = record { bounded = λ v i h. cc; distinct = λ v w i g h. cc; room = omega arith }

store_first : Precedes (loads_n_stores block) 11 13
unfolding loads_n_stores
store_first = inl (refl, inr (inl refl))

add_internal_dom_facts-Dominates_example : Dominates after 11 13
add_internal_dom_facts-Dominates_example =
    add_internal_dom_facts-Dominates block before after 11 13 no_numbers (inl refl) gather_run
      store_first

-- A fact that the load 1 does not read the store 2.
abbrev known_fact : Rule
known_fact = implies [] (app2 not_rf (constant 1) (constant 2))

abbrev one_fact : Solver
one_fact = record { value_cache = []; zfp = record { relations = []; rules = known_fact ∷ [] } }

abbrev with_rule : Solver
with_rule = record {
  value_cache = (3, 0) ∷ (5, 1) ∷ [];
  zfp = record { relations = []; rules = create_rule 0 1 ∷ known_fact ∷ [] };
}

create_run : add_create_store_load_facts (λ k. load (global 1)) 3 (5 ∷ []) one_fact ≡ ok with_rule
unfolding add_create_store_load_facts find emplace watts.Horn.add_rule
create_run = refl

one_fact-Unasked : Unasked not_rf (one_fact.zfp.rules)
one_fact-Unasked r (inl e) b m = absurd (subst (λ (q : Rule). In b q.body) e m)
one_fact-Unasked r (inr n) b m = absurd n

add_create_store_load_facts-Known_example : Known (one_fact.zfp.rules) (ground2 not_rf 1 2)
add_create_store_load_facts-Known_example =
    add_create_store_load_facts-Known (λ k. load (global 1)) 3 (5 ∷ []) one_fact with_rule
      (ground2 not_rf 1 2) one_fact-Unasked create_run
      (by_rule known_fact (λ k. k) (inr (inl refl)) refl (λ b m. absurd m))

-- A block with a store leads to one that only returns.
abbrev store_block : Block
store_block = record {
  id = 1;
  body =
      record { id = 10; kind = alloca }
      ∷ record { id = 11; kind = store (global 3) (global 1) }
      ∷ [];
  term_id = 13;
  term = ret;
}

abbrev last_block : Block
last_block = record { id = 2; body = []; term_id = 22; term = ret }

abbrev in_line : ℕ → List ℕ
in_line k = if k == 1 then 2 ∷ [] else []

abbrev empty_solver : Solver
empty_solver = record { value_cache = []; zfp = record { relations = []; rules = [] } }

abbrev not_reached : Solver
not_reached = record {
  value_cache = (11, 0) ∷ (13, 1) ∷ (22, 2) ∷ [];
  zfp = record {
    relations = not_reach ∷ [];
    rules =
        not_reach_fact 2 2
        ∷ not_reach_fact 2 1
        ∷ not_reach_fact 2 0
        ∷ not_reach_fact 1 1
        ∷ not_reach_fact 1 0
        ∷ not_reach_fact 0 1
        ∷ not_reach_fact 0 0
        ∷ [];
  };
}

not_reach_run :
    add_not_reachable_facts in_line 3 ((store_block ∷ last_block ∷ []) ∷ []) empty_solver
    ≡ some (ok not_reached)
unfolding add_not_reachable_facts find emplace watts.Horn.add_rule
    watts.Constraints.add_not_reach_rel watts.Horn.register_relation watts.Prelude.Map.insert
not_reach_run = refl

two_blocks-DistinctBlocks : DistinctBlocks (store_block ∷ last_block ∷ [])
two_blocks-DistinctBlocks b d (inl e) (inl f) same = e ∙ sym f
two_blocks-DistinctBlocks b d (inr (inl e)) (inr (inl f)) same = e ∙ sym f
two_blocks-DistinctBlocks b d (inl e) (inr (inl f)) same =
    absurd (one_is_two (sym (ap (λ (x : Block). x.id) e) ∙ (same ∙ ap (λ (x : Block). x.id) f)))
  where
    one_is_two : ¬ (◌≡◌ {A = ℕ} 1 2)
    one_is_two e = omega arith
two_blocks-DistinctBlocks b d (inr (inl e)) (inl f) same =
    absurd (two_is_one (sym (ap (λ (x : Block). x.id) e) ∙ (same ∙ ap (λ (x : Block). x.id) f)))
  where
    two_is_one : ¬ (◌≡◌ {A = ℕ} 2 1)
    two_is_one e = omega arith
two_blocks-DistinctBlocks b d (inr (inr m)) n same = absurd m
two_blocks-DistinctBlocks b d (inl e) (inr (inr n)) same = absurd n
two_blocks-DistinctBlocks b d (inr (inl e)) (inr (inr n)) same = absurd n

program-DistinctBlocks :
    (f : List Block) → In f ((store_block ∷ last_block ∷ []) ∷ []) → DistinctBlocks f
program-DistinctBlocks f (inl e) = subst DistinctBlocks (sym e) two_blocks-DistinctBlocks
program-DistinctBlocks f (inr m) = absurd m

add_not_reachable_facts-Adds_example :
    Adds (Unreached in_line ((store_block ∷ last_block ∷ []) ∷ [])) empty_solver not_reached
add_not_reachable_facts-Adds_example =
    add_not_reachable_facts-Adds in_line 3 ((store_block ∷ last_block ∷ []) ∷ []) empty_solver
      not_reached program-DistinctBlocks no_numbers not_reach_run
