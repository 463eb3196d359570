-- ===== src/Worklist/Pending.antt =====
-- What waits on a worklist: valuations that some fact at a block covers, kept by every merge.
use watts.Prelude.{
  ℕ, ◌≡◌, ◌≢◌, ◌⊎◌, inl, inr, refl, sym, ap, subst, ==_iff, ==_refl, some, none, List, [], ◌∷◌, In,
  arith, Option-cases,
}
use watts.Prelude.Map.{Map, find, erase, emplace, find-erase, find-emplace}
use watts.Apron.{Apron, Env}
use watts.Apron.Laws.{Sound}
use watts.Worklist.{merge_one, merge_worklist}

module _ (a : Apron) (l : Sound a) where
  open a use {Fact, join, is_leq, bottom}
  open l use {Covers}

  -- Some fact of the worklist at block `k` covers the valuation.
  abbrev pub Pending : ℕ → Env → Map Fact → Type 0
  Pending k e wl = (g : Fact) × (find k wl ≡ some g) × Covers g e

  pub find_erased : (k j : ℕ) (m : Map Fact) → k ≢ j → find j (erase k m) ≡ find j m
  find_erased k j m h = rw (find-erase k j m) (ground (arith, ==_iff k j))

  pub ==-cases : (k j : ℕ) → (k ≡ j) ⊎ (k ≢ j)
  ==-cases k j = ground arith

  pub added :
      (f : Fact) (k j : ℕ) (e : Env) (m : Map Fact)
      → find k m ≡ none
      → (Pending j e m ⊎ (j ≡ k) × Covers f e)
      → Pending j e (emplace k f m)
  added f k j e m q (inl (g, p, c)) =
      (g, rw (find-emplace k j f m q) (ground (arith, ==_iff k j)), c)
  added f k j e m q (inr (same, c)) =
      (f, rw (find-emplace k j f m q) (ground (arith, ==_iff k j)), c)

  pub find_self : (k : ℕ) (m : Map Fact) → find k (erase k m) ≡ none
  find_self k m = rw (find-erase k k m, ==_refl k) refl

  -- Merging keeps what is pending, and adds what a new fact covers.
  merge_one-Pending :
      (k : ℕ) (f : Fact) (j : ℕ) (e : Env) (wl : Map Fact)
      → (Pending j e wl ⊎ (j ≡ k) × Covers f e)
      → Pending j e (merge_one a k f wl)
  unfolding merge_one
  merge_one-Pending k f j e wl h = elim (Option-cases (find k wl)) [
    | inl q ↦ rw (q, merge_one) (added f k j e wl q (kept q h))
    | inr (g, q) ↦
        rw (q, merge_one)
          (added (join g f) k j e (erase k wl) (find_self k wl) (joined g q h (==-cases k j)))
  ]
    where
      kept :
          find k wl ≡ none
          → (Pending j e wl ⊎ (j ≡ k) × Covers f e)
          → Pending j e wl ⊎ (j ≡ k) × Covers f e
      kept q h = h

      joined :
          (g : Fact)
          → find k wl ≡ some g
          → (Pending j e wl ⊎ (j ≡ k) × Covers f e)
          → (k ≡ j) ⊎ (k ≢ j)
          → Pending j e (erase k wl) ⊎ (j ≡ k) × Covers (join g f) e
      joined g q (inr (eq, c)) s = inr (eq, l.join_sound g f e (inr c))
      joined g q (inl (h, p, c)) (inl same) =
          inr (sym same, l.join_sound g f e (inl (ground arith)))
      joined g q (inl (h, p, c)) (inr other) = inl (h, rw (find_erased k j wl other) p, c)

  pub merge-Pending :
      (ps : List (ℕ × Fact)) (wl : Map Fact) (j : ℕ) (e : Env)
      → (Pending j e wl ⊎ ((g : Fact) × In (j, g) ps × Covers g e))
      → Pending j e (merge_worklist a wl ps)
  unfolding merge_worklist
  merge-Pending [] wl j e (inl p) = p
  merge-Pending [] wl j e (inr (g, m, c)) = absurd m
  merge-Pending ((k, f) ∷ ps) wl j e (inl p) =
      merge-Pending ps (merge_one a k f wl) j e (inl (merge_one-Pending k f j e wl (inl p)))
  merge-Pending ((k, f) ∷ ps) wl j e (inr (g, inl m, c)) =
      merge-Pending ps (merge_one a k f wl) j e (
        inl (
          merge_one-Pending k f j e wl (
            inr (
              ap (λ (p : ℕ × Fact). p.0) m,
              subst (λ (x : Fact). Covers x e) (ap (λ (p : ℕ × Fact). p.1) m) c,
            ))))
  merge-Pending ((k, f) ∷ ps) wl j e (inr (g, inr m, c)) =
      merge-Pending ps (merge_one a k f wl) j e (inr (g, m, c))
