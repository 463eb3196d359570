-- ===== src/Choices/Total.antt =====
-- A permutation in range fails no assertion, and gives each load the fact of the store it chooses.
use watts.Prelude.{
  ℕ, zero, suc, ◌<◌, ◌≡◌, ◌≢◌, refl, sym, ap, subst, ◌∙◌, ==_iff, ==_refl, none, some, List, [],
  ◌∷◌, length, get_elem?, All, ok, arith,
}
use watts.Prelude.Map.{Map, find, emplace, find-emplace}
use watts.Apron.{Apron}
use watts.CartesianProduct.Value.{InRange}
use watts.Choices.{choices_per_load, choose, gather, cur_interf_map}

-- The loads are different.
abbrev Elsewhere : ℕ → Map (List ℕ) → Type 0
Elsewhere k m = All (λ (p : ℕ × List ℕ). p.0 ≢ k) m

abbrev pub Distinct : Map (List ℕ) → Type 0
Distinct [] = Unit
Distinct ((l, sts) ∷ m) = Elsewhere l m × Distinct m

element : (xs : List ℕ) (i : ℕ) → i < length xs → (x : ℕ) × (get_elem? xs i ≡ some x)
element [] i h = absurd (omega arith)
element (x ∷ xs) zero h = (x, refl)
element (x ∷ xs) (suc i) h = element xs i (omega arith)

All-elem : (P : ℕ → Type 0) (xs : List ℕ) (i x : ℕ) → All P xs → get_elem? xs i ≡ some x → P x
All-elem P [] i x h e = cc
All-elem P (y ∷ xs) zero x h e = subst P (ground arith) h.0
All-elem P (y ∷ xs) (suc i) x h e = All-elem P xs i x h.1 e

module _ (a : Apron) (facts : Map (a.Fact)) where
  open a use {Fact}

  abbrev HasFact : ℕ → Type 0
  HasFact s = (g : Fact) × (find s facts ≡ some g)

  -- Each store that may be chosen has a fact.
  abbrev pub HasFacts : Map (List ℕ) → Type 0
  HasFacts m = All (λ (p : ℕ × List ℕ). All HasFact p.1) m

  -- What the map holds for one load.
  abbrev pub Chosen : ℕ → ℕ → List ℕ → Map Fact → Type 0
  Chosen zero l sts r = find l r ≡ none
  Chosen (suc i) l sts r =
      (s : ℕ) × (g : Fact) × (get_elem? sts i ≡ some s)
      × (find s facts ≡ some g)
      × (find l r ≡ some g)

  abbrev pub AllChosen : List ℕ → Map (List ℕ) → Map Fact → Type 0
  AllChosen [] m r = Unit
  AllChosen (p ∷ ps) [] r = ⊥
  AllChosen (p ∷ ps) ((l, sts) ∷ m) r = Chosen p l sts r × AllChosen ps m r

  abbrev Fresh : Map Fact → Map (List ℕ) → Type 0
  Fresh cur m = All (λ (p : ℕ × List ℕ). find p.0 cur ≡ none) m

  -- One step: it returns, gives the load its entry, and leaves the others alone.
  choose-Chosen :
      (p l : ℕ) (sts : List ℕ) (cur : Map Fact)
      → p < suc (length sts)
      → All HasFact sts
      → find l cur ≡ none
      → (r : Map Fact) × (choose a p l sts facts cur ≡ ok r)
        × Chosen p l sts r
        × ((k : ℕ) → k ≢ l → find k r ≡ find k cur)
  unfolding choose
  choose-Chosen zero l sts cur h w n = (cur, refl, n, λ k ne. refl)
  choose-Chosen (suc i) l sts cur h w n =
      let (s, q) = element sts i (omega arith) in
      let (g, t) = All-elem HasFact sts i s w q in
      (
        emplace l g cur,
        rw (q, t, n) refl,
        (s, g, q, t, rw (find-emplace l l g cur n, ==_refl l) refl),
        λ k ne. rw (find-emplace l k g cur n) (ground (arith, ==_iff l k)),
      )

  Fresh-keeps :
      (l : ℕ) (cur r : Map Fact) (m : Map (List ℕ))
      → ((k : ℕ) → k ≢ l → find k r ≡ find k cur)
      → Elsewhere l m
      → Fresh cur m
      → Fresh r m
  Fresh-keeps l cur r [] h e f = tt
  Fresh-keeps l cur r ((k, sts) ∷ m) h e f = (h k e.0 ∙ f.0, Fresh-keeps l cur r m h e.1 f.1)

  gather-AllChosen :
      (perm : List ℕ) (m : Map (List ℕ)) (cur : Map Fact)
      → InRange perm (choices_per_load m)
      → HasFacts m
      → Distinct m
      → Fresh cur m
      → (r : Map Fact) × (gather a perm m facts cur ≡ ok r)
        × AllChosen perm m r
        × ((k : ℕ) → Elsewhere k m → find k r ≡ find k cur)
  unfolding gather choices_per_load
  gather-AllChosen [] [] cur i w d f = (cur, refl, tt, λ k e. refl)
  gather-AllChosen (p ∷ ps) [] cur i w d f = absurd i
  gather-AllChosen [] ((l, sts) ∷ m) cur i w d f = absurd i
  gather-AllChosen (p ∷ ps) ((l, sts) ∷ m) cur i w d f =
      let (next, q, c, other) = choose-Chosen p l sts cur i.0 w.0 f.0 in
      let (r, q', cs, others) =
        gather-AllChosen ps m next i.1 w.1 d.1 (Fresh-keeps l cur next m other d.0 f.1) in
      (
        r,
        rw (q, q') refl,
        (carry next r p c (others l d.0), cs),
        λ k e. others k e.1 ∙ other k (λ same. e.0 (sym same)),
      )
    where
      carry :
          (next r : Map Fact) (p : ℕ)
          → Chosen p l sts next
          → find l r ≡ find l next
          → Chosen p l sts r
      carry next r zero n same = same ∙ n
      carry next r (suc i) (s, g, q, t, n) same = (s, g, q, t, same ∙ n)

  nothing_found : (m : Map (List ℕ)) → Fresh [] m
  unfolding find
  nothing_found [] = tt
  nothing_found ((l, sts) ∷ m) = (refl, nothing_found m)

  same_length :
      (perm : List ℕ) (m : Map (List ℕ))
      → InRange perm (choices_per_load m)
      → length perm ≡ length m
  unfolding choices_per_load
  same_length [] [] i = refl
  same_length (p ∷ ps) ((l, sts) ∷ m) i = ap suc (same_length ps m i.1)
  same_length [] ((l, sts) ∷ m) i = absurd i
  same_length (p ∷ ps) [] i = absurd i

  -- For a permutation in range, loads that are different, and stores that all have facts, no
  -- assertion fails: the map has the fact of the chosen store for each load, and no entry for a load
  -- that reads its own memory.
  pub cur_interf_map-AllChosen :
      (perm : List ℕ) (m : Map (List ℕ))
      → InRange perm (choices_per_load m)
      → HasFacts m
      → Distinct m
      → (r : Map Fact) × (cur_interf_map a perm m facts ≡ ok r) × AllChosen perm m r
  unfolding cur_interf_map
  cur_interf_map-AllChosen perm m i w d =
      let (r, q, c, others) = gather-AllChosen perm m [] i w d (nothing_found m) in
      (r, rw (same_length perm m i, ==_refl (length m)) q, c)
