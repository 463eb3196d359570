-- ===== src/Reachability/Paths.antt =====
-- What `forwardDfs` returns: the blocks at the end of a path of one edge or more.
use watts.Prelude.{
  ℕ, zero, suc, ◌≡◌, ◌≢◌, ◌⊎◌, ◌↔◌, inl, inr, refl, sym, subst, true, Bool-cases, ==_iff, some,
  List, [], ◌∷◌, In, arith,
}
use watts.Prelude.Map.{insert, count, count-insert}
use watts.Reachability.{push_all, dfs, forward_dfs}

-- A path of at least one edge.
pub data Reach (succs : ℕ → List ℕ) (b : ℕ) : ℕ → Type 0 where
  one : {k : ℕ} → In k (succs b) → Reach succs b k
  more : {j k : ℕ} → Reach succs b j → In k (succs j) → Reach succs b k

In-push_all : (k : ℕ) (xs s : List ℕ) → (In k xs ⊎ In k s) → In k (push_all xs s)
unfolding push_all
In-push_all k [] s (inr m) = m
In-push_all k [] s (inl m) = absurd m
In-push_all k (x ∷ xs) s (inl (inl e)) = In-push_all k xs (x ∷ s) (inr (inl e))
In-push_all k (x ∷ xs) s (inl (inr m)) = In-push_all k xs (x ∷ s) (inl m)
In-push_all k (x ∷ xs) s (inr m) = In-push_all k xs (x ∷ s) (inr (inr m))

push_all-In : (k : ℕ) (xs s : List ℕ) → In k (push_all xs s) → In k xs ⊎ In k s
unfolding push_all
push_all-In k [] s m = inr m
push_all-In k (x ∷ xs) s m = elim (push_all-In k xs (x ∷ s) m) [
  | inl n ↦ inl (inr n)
  | inr (inl e) ↦ inl (inl e)
  | inr (inr n) ↦ inr n
]

-- What is in a set after an insertion.
inserted : (c k : ℕ) (v : List ℕ) → count k (insert c v) ≡ true → (c ≡ k) ⊎ (count k v ≡ true)
inserted c k v h = ground (arith, ==_iff c k, count-insert c k v)

keeps : (c k : ℕ) (v : List ℕ) → (c ≡ k) ⊎ (count k v ≡ true) → count k (insert c v) ≡ true
keeps c k v (inl e) = rw (count-insert c k v) (ground (arith, ==_iff c k))
keeps c k v (inr h) = rw (count-insert c k v) (ground (arith, ==_iff c k))

module _ (succs : ℕ → List ℕ) (b : ℕ) where
  dfs-Reach :
      (fuel : ℕ) (s v r : List ℕ)
      → ((k : ℕ) → In k s → Reach succs b k)
      → ((k : ℕ) → count k v ≡ true → Reach succs b k)
      → dfs succs fuel s v v ≡ some r
      → (k : ℕ) → count k r ≡ true
      → Reach succs b k
  unfolding dfs
  dfs-Reach fuel [] v r hs hv h k m =
      hv k (subst (λ (x : List ℕ). count k x ≡ true) (ground arith) m)
  dfs-Reach zero (c ∷ s) v r hs hv h k m = cc
  dfs-Reach (suc fuel) (c ∷ s) v r hs hv h k m = elim (Bool-cases (count c v)) [
    | inl t ↦ dfs-Reach fuel s v r (λ j n. hs j (inr n)) hv (rw (t, dfs) at h) k m
    | inr t ↦
        dfs-Reach fuel (push_all (succs c) s) (insert c v) r
          (λ j n. stacked j (push_all-In j (succs c) s n)) (λ j n. seen j (inserted c j v n))
          (rw (t, dfs) at h) k m
  ]
    where
      stacked : (j : ℕ) → (In j (succs c) ⊎ In j s) → Reach succs b j
      stacked j (inl n) = more (hs c (inl refl)) n
      stacked j (inr n) = hs j (inr n)

      seen : (j : ℕ) → (c ≡ j) ⊎ (count j v ≡ true) → Reach succs b j
      seen j (inl e) = subst (Reach succs b) e (hs c (inl refl))
      seen j (inr n) = hv j n

  -- An edge from the start or from a block that was visited.
  abbrev Edge : List ℕ → ℕ → Type 0
  Edge v y = In y (succs b) ⊎ ((x : ℕ) × (count x v ≡ true) × In y (succs x))

  dfs-closed :
      (fuel : ℕ) (s v r : List ℕ)
      → ((y : ℕ) → Edge v y → (count y v ≡ true) ⊎ In y s)
      → dfs succs fuel s v v ≡ some r
      → (y : ℕ) → Edge r y
      → count y r ≡ true
  unfolding dfs
  dfs-closed fuel [] v r inv h y e =
      let same : v ≡ r = ground arith in
      elim (inv y (subst (λ (x : List ℕ). Edge x y) (sym same) e)) [
        | inl m ↦ subst (λ (x : List ℕ). count y x ≡ true) same m
        | inr m ↦ absurd m
      ]
  dfs-closed zero (c ∷ s) v r inv h y e = cc
  dfs-closed (suc fuel) (c ∷ s) v r inv h y e = elim (Bool-cases (count c v)) [
    | inl t ↦ dfs-closed fuel s v r (λ z d. drop z t (inv z d)) (rw (t, dfs) at h) y e
    | inr t ↦
        dfs-closed fuel (push_all (succs c) s) (insert c v) r (λ z d. visit z d) (rw (t, dfs) at h)
          y e
  ]
    where
      drop :
          (z : ℕ)
          → count c v ≡ true
          → (count z v ≡ true) ⊎ In z (c ∷ s)
          → (count z v ≡ true) ⊎ In z s
      drop z t (inl m) = inl m
      drop z t (inr (inl same)) = inl (rw same t)
      drop z t (inr (inr m)) = inr m

      grow :
          (z : ℕ)
          → (count z v ≡ true) ⊎ In z (c ∷ s)
          → (count z (insert c v) ≡ true) ⊎ In z (push_all (succs c) s)
      grow z (inl m) = inl (keeps c z v (inr m))
      grow z (inr (inl same)) = inl (keeps c z v (inl (sym same)))
      grow z (inr (inr m)) = inr (In-push_all z (succs c) s (inr m))

      visit :
          (z : ℕ)
          → Edge (insert c v) z
          → (count z (insert c v) ≡ true) ⊎ In z (push_all (succs c) s)
      visit z (inl m) = grow z (inv z (inl m))
      visit z (inr (x, n, m)) = elim (inserted c x v n) [
        | inl same ↦ inr (In-push_all z (succs c) s (inl (rw same m)))
        | inr n' ↦ grow z (inv z (inr (x, n', m)))
      ]

  none_counted : (k : ℕ) → count k [] ≢ true
  unfolding count
  none_counted k h = cc

  -- When `forwardDfs` returns, it holds exactly the blocks at the end of a path of at least one edge.
  pub forward_dfs-Reach :
      (fuel : ℕ) (r : List ℕ) (k : ℕ)
      → forward_dfs succs fuel b ≡ some r
      → (count k r ≡ true) ↔ Reach succs b k
  unfolding forward_dfs
  forward_dfs-Reach fuel r k h = (
    dfs-Reach fuel (push_all (succs b) []) [] r (λ j m. first j (push_all-In j (succs b) [] m))
        (λ j m. absurd (none_counted j m)) h k,
    complete k,
  )
    where
      first : (j : ℕ) → (In j (succs b) ⊎ In j []) → Reach succs b j
      first j (inl m) = one m
      first j (inr m) = absurd m

      start : (y : ℕ) → Edge [] y → (count y [] ≡ true) ⊎ In y (push_all (succs b) [])
      start y (inl m) = inr (In-push_all y (succs b) [] (inl m))
      start y (inr (x, n, m)) = absurd (none_counted x n)

      complete : (j : ℕ) → Reach succs b j → count j r ≡ true
      complete j (one m) = dfs-closed fuel (push_all (succs b) []) [] r start h j (inl m)
      complete j (more {j = i} p m) =
          dfs-closed fuel (push_all (succs b) []) [] r start h j (inr (i, complete i p, m))
