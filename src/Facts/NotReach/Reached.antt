-- ===== src/Facts/NotReach/Reached.antt =====
-- `addNotReachableFacts`: its facts are those on the blocks that do not reach each other.
use watts.Prelude.{
  ℕ, ◌≡◌, ==_iff, ◌⊎◌, ◌↔◌, inl, inr, refl, sym, subst, true, Option-cases, none, some, List, [],
  ◌∷◌, In, ok, err, ok-inj, >>=-eq-ok, arith, assertion,
}
use watts.Prelude.Map.{Map, find, emplace, count}
use watts.Llvm.{Block}
use watts.Reachability.{forward_dfs}
use watts.Reachability.Paths.{Reach, forward_dfs-Reach}
use watts.Solver.{Solver}
use watts.Solver.Numbers.{IsNumbering}
use watts.Facts.NotReach.{
  not_skipped, get_all_bbs, not_in, add_not_reached, add_not_reach_blocks, reachability_from,
  get_reachability, add_not_reach_function,
}
use watts.Facts.NotReach.Loops.{Adds, Adds-none, Adds-then, Between, ToBlocks, add_not_reached-Adds}
use watts.Facts.NotReach.Sets.{not_in-In, get_all_bbs-In, get_all_bbs-HasId}

-- Blocks of one function with the same identifier are one block.
abbrev pub DistinctBlocks : List Block → Type 0
DistinctBlocks f = (b d : Block) → In b f → In d f → b.id ≡ d.id → b ≡ d

module _ (succs : ℕ → List ℕ) where
  -- Two instructions of blocks of which the second is in the set and not reached from the first.
  abbrev pub PairOf : List Block → List Block → ℕ → ℕ → Type 0
  PairOf all_bbs f a c =
      (b : Block) × (d : Block) × In b f
      × In d all_bbs
      × (¬ Reach succs b.id d.id)
      × Between (not_skipped b) (not_skipped d) a c

  -- Two of the instructions that are not skipped, of one function, where no path of one edge or more
  -- leads from the block of the first to that of the second.
  abbrev pub Unreached : List (List Block) → ℕ → ℕ → Type 0
  Unreached m a c = (f : List Block) × In f m × PairOf f f a c

module _ (succs : ℕ → List ℕ) (fuel : ℕ) where
  -- What the map holds are the results of `forwardDfs`.
  abbrev FromDfs : Map (List ℕ) → Type 0
  FromDfs m = (k : ℕ) (r : List ℕ) → find k m ≡ some r → forward_dfs succs fuel k ≡ some r

  emplaced :
      (k j : ℕ) (v w : List ℕ) (m : Map (List ℕ))
      → find j (emplace k v m) ≡ some w
      → ((k ≡ j) × (v ≡ w)) ⊎ (find j m ≡ some w)
  unfolding find emplace
  emplaced k j v w [] h = ground (arith, ==_iff k j)
  emplaced k j v w ((i, u) ∷ m) h = ground (arith, emplaced k j v w m, ==_iff k j)

  reachability_from-FromDfs :
      (f : List Block) (ret m : Map (List ℕ))
      → FromDfs ret
      → reachability_from succs fuel f ret ≡ some m
      → FromDfs m
  unfolding reachability_from
  reachability_from-FromDfs [] ret m old h = subst FromDfs (some_inj h) old
    where
      some_inj : some ret ≡ some m → ret ≡ m
      some_inj e = cc
  reachability_from-FromDfs (b ∷ f) ret m old h =
      elim (Option-cases (forward_dfs succs fuel b.id)) [
        | inl q ↦ absurd (ended (rw (q, reachability_from) at h))
        | inr (reach, q) ↦
            reachability_from-FromDfs f (emplace b.id reach ret) m
              (λ k r e. elim (emplaced b.id k reach r ret e) [
                | inl (x, y) ↦
                    subst (λ (i : ℕ). forward_dfs succs fuel i ≡ some r) x
                      (subst (λ (v : List ℕ). forward_dfs succs fuel b.id ≡ some v) y q)
                | inr o ↦ old k r o
              ])
              (rw (q, reachability_from) at h)
      ]
    where
      ended : ¬ (none ≡ some m)
      ended e = cc

  module _ (all_bbs : List Block) (m : Map (List ℕ)) (from : FromDfs m) where
    step_pairs :
        (b : Block) (f : List Block) (reach : List ℕ)
        → find b.id m ≡ some reach
        → (a c : ℕ)
        → PairOf succs all_bbs (b ∷ f) a c
          ↔ (ToBlocks b (not_in all_bbs reach) a c ⊎ PairOf succs all_bbs f a c)
    step_pairs b f reach q a c = (
      λ (g, d, x, y, z, p). elim x [
        | inr k ↦ inr (g, d, k, y, z, p)
        | inl e ↦ inl (
          d,
          (not_in-In d all_bbs reach).1 (
            y,
            λ k. z (subst (λ (v : Block). Reach succs v.id d.id) (sym e) ((reached d.id).0 k)),
          ),
          subst (λ (v : Block). Between (not_skipped v) (not_skipped d) a c) e p,
        )
      ],
      elim [
        | inl (d, y, p) ↦
            let (k, n) = (not_in-In d all_bbs reach).0 y in
            (b, d, inl refl, k, λ r. n ((reached d.id).1 r), p)
        | inr (g, d, k, y, z, p) ↦ (g, d, inr k, y, z, p)
      ],
    )
      where
        reached : (k : ℕ) → (count k reach ≡ true) ↔ Reach succs b.id k
        reached k = forward_dfs-Reach succs b.id fuel reach k (from b.id reach q)

    add_not_reach_blocks-Adds :
        (f : List Block) (s t : Solver)
        → IsNumbering s.value_cache
        → add_not_reach_blocks all_bbs m f s ≡ ok t
        → Adds (PairOf succs all_bbs f) s t
    unfolding add_not_reach_blocks
    add_not_reach_blocks-Adds [] s t n h =
        Adds-none (PairOf succs all_bbs []) s t n (ok-inj s t h) (λ a c (b, d, k, x, z, p). k)
    add_not_reach_blocks-Adds (b ∷ f) s t n h = elim (Option-cases (find b.id m)) [
      | inl q ↦ absurd (failed (rw q at h))
      | inr (reach, q) ↦
          let (u, e, r) =
            >>=-eq-ok (add_not_reached b (not_in all_bbs reach) s)
              (add_not_reach_blocks all_bbs m f) (rw q at h) in
          let first = add_not_reached-Adds b (not_in all_bbs reach) s u n e in
          Adds-then (ToBlocks b (not_in all_bbs reach)) (PairOf succs all_bbs f)
            (PairOf succs all_bbs (b ∷ f)) s u t (step_pairs b f reach q) first
            (add_not_reach_blocks-Adds f u t first.grows.numbering r)
    ]
      where
        failed : ¬ (err assertion ≡ ok t)
        failed e = cc

  pub in_set :
      (f : List Block) (a c : ℕ)
      → DistinctBlocks f
      → PairOf succs f f a c ↔ PairOf succs (get_all_bbs f) f a c
  in_set f a c same = (
    λ (b, d, x, y, z, p).
        let (g, k, e) = get_all_bbs-HasId d f y in
        let q = same d g y (get_all_bbs-In g f k) (sym e) in
        (b, d, x, subst (λ (v : Block). In v (get_all_bbs f)) (sym q) k, z, p),
    λ (b, d, x, y, z, p). (b, d, x, get_all_bbs-In d f y, z, p),
  )

  pub add_not_reach_function-Adds :
      (f : List Block) (s t : Solver)
      → IsNumbering s.value_cache
      → add_not_reach_function succs fuel f s ≡ some (ok t)
      → Adds (PairOf succs (get_all_bbs f) f) s t
  unfolding add_not_reach_function get_reachability find
  add_not_reach_function-Adds f s t n h = elim (Option-cases (reachability_from succs fuel f [])) [
    | inl q ↦ absurd (ended (rw (q, add_not_reach_function) at h))
    | inr (m, q) ↦
        add_not_reach_blocks-Adds (get_all_bbs f) m
          (reachability_from-FromDfs f [] m (λ k r e. absurd (nothing k r e)) q) f s t n
          (returned m (rw (q, add_not_reach_function) at h))
  ]
    where
      ended : ¬ (none ≡ some (ok t))
      ended e = cc

      nothing : (k : ℕ) (r : List ℕ) → ¬ (find k [] ≡ some r)
      nothing k r e = cc

      returned :
          (m : Map (List ℕ))
          → some (add_not_reach_blocks (get_all_bbs f) m f s) ≡ some (ok t)
          → add_not_reach_blocks (get_all_bbs f) m f s ≡ ok t
      returned m e = cc
