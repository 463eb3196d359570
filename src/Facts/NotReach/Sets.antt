-- ===== src/Facts/NotReach/Sets.antt =====
-- `getAllBBs` and the difference of sets in `addNotReachableFacts`: what they hold.
use watts.Prelude.{
  ℕ, ◌≡◌, ◌≢◌, ◌==◌, ==_iff, ltb, ◌⊎◌, ◌↔◌, inl, inr, refl, sym, ap, ◌∙◌, true, false, Bool-cases,
  List, [], ◌∷◌, In,
}
use watts.Prelude.Map.{count}
use watts.Llvm.{Block}
use watts.Facts.NotReach.{insert_block, get_all_bbs, not_in}

pub not_in-In :
    (d : Block) (all_bbs : List Block) (reach : List ℕ)
    → In d (not_in all_bbs reach) ↔ (In d all_bbs × ¬ (count d.id reach ≡ true))
unfolding not_in
not_in-In d [] reach = (λ m. absurd m, λ p. absurd p.0)
not_in-In d (b ∷ all_bbs) reach = elim (Bool-cases (count b.id reach)) [
  | inl y ↦ rw y (
    λ m. (inr ((not_in-In d all_bbs reach).0 m).0, ((not_in-In d all_bbs reach).0 m).1),
    λ p. elim p.0 [
      | inl e ↦ absurd (p.1 (ap (λ (x : Block). count x.id reach) e ∙ y))
      | inr m ↦ (not_in-In d all_bbs reach).1 (m, p.1)
    ],
  )
  | inr n ↦ rw n (
    λ m. elim m [
      | inl e ↦ (inl e, λ y. different (sym y ∙ (ap (λ (x : Block). count x.id reach) e ∙ n)))
      | inr k ↦ (inr ((not_in-In d all_bbs reach).0 k).0, ((not_in-In d all_bbs reach).0 k).1)
    ],
    λ p. elim p.0 [ inl e ↦ inl e | inr m ↦ inr ((not_in-In d all_bbs reach).1 (m, p.1)) ],
  )
]
  where
    different : true ≢ false
    different e = cc

-- The set holds blocks of the list, and one with the identifier of each.
insert_block-In : (b d : Block) (s : List Block) → In d (insert_block b s) → (d ≡ b) ⊎ In d s
unfolding insert_block
insert_block-In b d [] (inl e) = inl e
insert_block-In b d [] (inr m) = absurd m
insert_block-In b d (c ∷ s) m = elim (Bool-cases (c.id == b.id)) [
  | inl y ↦ inr (rw y at m)
  | inr n ↦ elim (Bool-cases (ltb b.id c.id)) [
    | inl y ↦ elim (rw (n, y) at m) [ inl e ↦ inl e | inr k ↦ inr k ]
    | inr k ↦ elim (rw (n, k) at m) [
      | inl e ↦ inr (inl e)
      | inr i ↦ elim (insert_block-In b d s i) [ inl e ↦ inl e | inr j ↦ inr (inr j) ]
    ]
  ]
]

abbrev pub HasId : ℕ → List Block → Type 0
HasId i s = (d : Block) × In d s × (d.id ≡ i)

insert_block-HasId :
    (b : Block) (i : ℕ) (s : List Block) → (b.id ≡ i) ⊎ HasId i s → HasId i (insert_block b s)
unfolding insert_block
insert_block-HasId b i [] (inl e) = (b, inl refl, e)
insert_block-HasId b i [] (inr (d, m, e)) = absurd m
insert_block-HasId b i (c ∷ s) h = elim (Bool-cases (c.id == b.id)) [
  | inl y ↦ rw y (elim h [ inl e ↦ (c, inl refl, (==_iff c.id b.id).0 y ∙ e) | inr k ↦ k ])
  | inr n ↦ elim (Bool-cases (ltb b.id c.id)) [
    | inl y ↦ rw (n, y) (elim h [ inl e ↦ (b, inl refl, e) | inr (d, m, e) ↦ (d, inr m, e) ])
    | inr k ↦
        rw (n, k)
          (elim h [
            | inl e ↦ let (d, m, q) = insert_block-HasId b i s (inl e) in (d, inr m, q)
            | inr (d, inl x, e) ↦ (d, inl x, e)
            | inr (d, inr x, e) ↦
                let (g, m, q) = insert_block-HasId b i s (inr (d, x, e)) in (g, inr m, q)
          ])
  ]
]

pub get_all_bbs-In : (d : Block) (f : List Block) → In d (get_all_bbs f) → In d f
unfolding get_all_bbs
get_all_bbs-In d [] m = m
get_all_bbs-In d (b ∷ f) m = elim (insert_block-In b d (get_all_bbs f) m) [
  | inl e ↦ inl e
  | inr k ↦ inr (get_all_bbs-In d f k)
]

pub get_all_bbs-HasId : (d : Block) (f : List Block) → In d f → HasId d.id (get_all_bbs f)
unfolding get_all_bbs
get_all_bbs-HasId d [] m = absurd m
get_all_bbs-HasId d (b ∷ f) (inl e) =
    insert_block-HasId b d.id (get_all_bbs f) (inl (ap (λ (x : Block). x.id) (sym e)))
get_all_bbs-HasId d (b ∷ f) (inr m) =
    insert_block-HasId b d.id (get_all_bbs f) (inr (get_all_bbs-HasId d f m))
