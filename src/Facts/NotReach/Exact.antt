-- ===== src/Facts/NotReach/Exact.antt =====
-- `addNotReachableFacts`: it returns, and what it adds, for all functions of a program.
use watts.Prelude.{
  ℕ, ◌≡◌, ◌+◌, ◌≤◌, ◌⊎◌, ◌↔◌, inl, inr, refl, subst, Option-cases, Result-cases, none, some, List,
  [], ◌∷◌, In, Result, ok, err, Failure, length,
}
use watts.Prelude.Map.{Map, emplace}
use watts.Llvm.{Block}
use watts.Reachability.{forward_dfs}
use watts.Reachability.Ends.{edges, forward_dfs-ends}
use watts.Solver.{Solver}
use watts.Solver.Numbers.{IsNumbering}
use watts.Facts.NotReach.{
  reachability_from, get_reachability, add_not_reach_blocks, get_all_bbs, add_not_reach_function,
  add_not_reach_functions, add_not_reachable_facts,
}
use watts.Facts.NotReach.Loops.{Adds, Adds-none, Adds-then}
use watts.Facts.NotReach.Reached.{
  PairOf, Unreached, DistinctBlocks, in_set, add_not_reach_function-Adds,
}

module _ (succs : ℕ → List ℕ) (fuel : ℕ) where
  next_pairs :
      (f : List Block) (m : List (List Block))
      → DistinctBlocks f
      → (a c : ℕ)
      → Unreached succs (f ∷ m) a c ↔ (PairOf succs (get_all_bbs f) f a c ⊎ Unreached succs m a c)
  next_pairs f m same a c = (
    λ (g, x, p). elim x [
      | inr k ↦ inr (g, k, p)
      | inl e ↦
          inl (
            (in_set succs fuel f a c same).0 (subst (λ (v : List Block). PairOf succs v v a c) e p))
    ],
    elim [
      | inl p ↦ (f, inl refl, (in_set succs fuel f a c same).1 p)
      | inr (g, k, p) ↦ (g, inr k, p)
    ],
  )

  add_not_reach_functions-Adds :
      (m : List (List Block)) (s t : Solver)
      → ((f : List Block) → In f m → DistinctBlocks f)
      → IsNumbering s.value_cache
      → add_not_reach_functions succs fuel m s ≡ some (ok t)
      → Adds (Unreached succs m) s t
  unfolding add_not_reach_functions
  add_not_reach_functions-Adds [] s t same n h =
      Adds-none (Unreached succs []) s t n (returned h) (λ a c (f, k, p). k)
    where
      returned : some (ok s) ≡ some (ok t) → s ≡ t
      returned e = cc
  add_not_reach_functions-Adds (f ∷ m) s t same n h =
      elim (Option-cases (add_not_reach_function succs fuel f s)) [
        | inl q ↦ absurd (ended (rw (q, add_not_reach_functions) at h))
        | inr (x, q) ↦ elim (Result-cases x) [
          | inr (e, r) ↦ absurd (failed e (rw (q, r, add_not_reach_functions) at h))
          | inl (u, r) ↦
              let first = add_not_reach_function-Adds succs fuel f s u n (rw r at q) in
              Adds-then (PairOf succs (get_all_bbs f) f) (Unreached succs m)
                (Unreached succs (f ∷ m)) s u t (next_pairs f m (same f (inl refl))) first
                (add_not_reach_functions-Adds m u t (λ g k. same g (inr k)) first.grows.numbering
                  (rw (q, r, add_not_reach_functions) at h))
        ]
      ]
    where
      ended : ¬ (none ≡ some (ok t))
      ended e = cc

      failed : (e : Failure) → ¬ (some (err e) ≡ some (ok t))
      failed e k = cc

  -- Take a program in each of whose functions no two blocks share an identifier, and a solver with a
  -- well-formed cache. When `addNotReachableFacts` returns, every value has kept its number and every
  -- rule is still there; for every two stores, loads, calls or terminators of one function there is a
  -- fact that the first does not reach the second, if no path of one edge or more leads from the
  -- block of the first to that of the second; and every rule that is new is such a fact.
  pub add_not_reachable_facts-Adds :
      (m : List (List Block)) (s t : Solver)
      → ((f : List Block) → In f m → DistinctBlocks f)
      → IsNumbering s.value_cache
      → add_not_reachable_facts succs fuel m s ≡ some (ok t)
      → Adds (Unreached succs m) s t
  unfolding add_not_reachable_facts watts.Constraints.add_not_reach_rel watts.Horn.register_relation
  add_not_reachable_facts-Adds m s t same n h =
      let a = add_not_reach_functions-Adds m _ t same n h in
      record { grows = a.grows; more = a.more; each = a.each; only = a.only }

  reachability_from-ends :
      (f : List Block) (ret : Map (List ℕ))
      → ((b : Block) → In b f → (r : List ℕ) × (forward_dfs succs fuel b.id ≡ some r))
      → (m : Map (List ℕ)) × (reachability_from succs fuel f ret ≡ some m)
  unfolding reachability_from
  reachability_from-ends [] ret h = (ret, refl)
  reachability_from-ends (b ∷ f) ret h =
      let (r, q) = h b (inl refl) in
      let (m, e) = reachability_from-ends f (emplace b.id r ret) (λ d k. h d (inr k)) in
      (m, rw (q, reachability_from) e)

  add_not_reach_functions-ends :
      (m : List (List Block)) (s : Solver)
      → ((f : List Block)
          → In f m
          → (b : Block) → In b f
          → (r : List ℕ) × (forward_dfs succs fuel b.id ≡ some r))
      → (r : Result Solver) × (add_not_reach_functions succs fuel m s ≡ some r)
  unfolding add_not_reach_functions add_not_reach_function get_reachability
  add_not_reach_functions-ends [] s h = (ok s, refl)
  add_not_reach_functions-ends (f ∷ m) s h =
      let (reach_map, q) = reachability_from-ends f [] (h f (inl refl)) in
      elim (Result-cases (add_not_reach_blocks (get_all_bbs f) reach_map f s)) [
        | inr (e, r) ↦ (err e, rw (q, r, add_not_reach_functions, add_not_reach_function) refl)
        | inl (u, r) ↦
            let (x, p) = add_not_reach_functions-ends m u (λ g k. h g (inr k)) in
            (x, rw (q, r, add_not_reach_functions, add_not_reach_function) p)
      ]

  -- When each block with successors is one of `blocks`, with as much fuel as the edges of these and
  -- those of any one block together, `addNotReachableFacts` returns or fails, whatever the program.
  add_not_reachable_facts-ends :
      (blocks : List ℕ) (m : List (List Block)) (s : Solver)
      → ((k : ℕ) → In k blocks ⊎ (length (succs k) ≡ 0))
      → ((f : List Block)
          → In f m
          → (b : Block) → In b f
          → length (succs b.id) + edges succs blocks ≤ fuel)
      → (r : Result Solver) × (add_not_reachable_facts succs fuel m s ≡ some r)
  unfolding add_not_reachable_facts
  add_not_reachable_facts-ends blocks m s known enough =
      add_not_reach_functions-ends m _
        (λ f k b n. forward_dfs-ends succs blocks known fuel b.id (enough f k b n))
