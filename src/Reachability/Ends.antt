-- ===== src/Reachability/Ends.antt =====
-- That `forwardDfs` ends: each block is expanded once, so the stack takes as many entries as the
-- function has edges.
use watts.Prelude.{
  ℕ, zero, suc, ◌+◌, ◌≤◌, ◌≡◌, ◌⊎◌, inl, inr, refl, sym, false, Bool-cases, ==_refl, some, List, [],
  ◌∷◌, In, length, arith, if◌then◌else◌,
}
use watts.Prelude.Map.{insert, count, count-insert}
use watts.Reachability.{push_all, dfs, forward_dfs}

length-push_all : (xs s : List ℕ) → length (push_all xs s) ≡ length xs + length s
unfolding push_all
length-push_all [] s = omega arith
length-push_all (x ∷ xs) s = omega (arith, length-push_all xs (x ∷ s))

module _ (succs : ℕ → List ℕ) where
  -- The edges out of the blocks that were not visited.
  abbrev edges_left : List ℕ → List ℕ → ℕ
  edges_left [] v = 0
  edges_left (k ∷ ks) v = (if count k v then 0 else length (succs k)) + edges_left ks v

  -- The edges of the function.
  abbrev pub edges : List ℕ → ℕ
  edges [] = 0
  edges (k ∷ ks) = length (succs k) + edges ks

  edges_left-insert : (c : ℕ) (ks v : List ℕ) → edges_left ks (insert c v) ≤ edges_left ks v
  edges_left-insert c [] v = omega arith
  edges_left-insert c (k ∷ ks) v =
      rw (count-insert c k v) (ground (arith, edges_left-insert c ks v))

  edges_left-visit :
      (c : ℕ) (ks v : List ℕ)
      → In c ks
      → count c v ≡ false
      → edges_left ks (insert c v) + length (succs c) ≤ edges_left ks v
  edges_left-visit c [] v m h = absurd m
  edges_left-visit c (k ∷ ks) v (inl e) h =
      rw (sym e, count-insert c c v, ==_refl c, h) (omega (arith, edges_left-insert c ks v))
  edges_left-visit c (k ∷ ks) v (inr m) h =
      rw (count-insert c k v) (ground (arith, edges_left-visit c ks v m h))

  module _ (blocks : List ℕ) (known : (k : ℕ) → In k blocks ⊎ (length (succs k) ≡ 0)) where
    visit_edges :
        (c : ℕ) (v : List ℕ)
        → count c v ≡ false
        → edges_left blocks (insert c v) + length (succs c) ≤ edges_left blocks v
    visit_edges c v h = elim (known c) [
      | inl m ↦ edges_left-visit c blocks v m h
      | inr e ↦ omega (arith, edges_left-insert c blocks v)
    ]

    dfs-ends :
        (fuel : ℕ) (s v r : List ℕ)
        → length s + edges_left blocks v ≤ fuel
        → (t : List ℕ) × (dfs succs fuel s v r ≡ some t)
    unfolding dfs
    dfs-ends fuel [] v r h = (r, refl)
    dfs-ends zero (c ∷ s) v r h = absurd (omega arith)
    dfs-ends (suc fuel) (c ∷ s) v r h = elim (Bool-cases (count c v)) [
      | inl t ↦ rw (t, dfs) (dfs-ends fuel s v r (omega arith))
      | inr t ↦
          rw (t, dfs)
            (dfs-ends fuel (push_all (succs c) s) (insert c v) (insert c r)
              (omega (arith, length-push_all (succs c) s, visit_edges c v t)))
    ]

    edges_left-none : (ks : List ℕ) → edges_left ks [] ≤ edges ks
    unfolding count
    edges_left-none [] = omega arith
    edges_left-none (k ∷ ks) = omega (arith, edges_left-none ks)

    -- With as much fuel as the function has edges, and the block's own once more, `forwardDfs`
    -- returns, if each block with successors is one of the function's blocks.
    pub forward_dfs-ends :
        (fuel b : ℕ)
        → length (succs b) + edges blocks ≤ fuel
        → (r : List ℕ) × (forward_dfs succs fuel b ≡ some r)
    unfolding forward_dfs
    forward_dfs-ends fuel b h =
        dfs-ends fuel (push_all (succs b) []) [] []
          (omega (arith, length-push_all (succs b) [], edges_left-none blocks))
