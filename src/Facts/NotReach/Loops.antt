-- ===== src/Facts/NotReach/Loops.antt =====
-- What the loops of `addNotReachableFacts` add: one fact for each pair that they come by.
use watts.Prelude.{
  arith, ℕ, ◌≡◌, ◌⊎◌, ◌↔◌, inl, inr, refl, sym, subst, List, [], ◌∷◌, In, ok, ok-inj, >>=-eq-ok,
}
use watts.Llvm.{Block}
use watts.Horn.{not_reach, constant, app2, Rule, implies}
use watts.Solver.{Solver}
use watts.Solver.Numbers.{IsNumbering}
use watts.Solver.Bits.{InBits, Grows, Grows-refl, Grows-trans, InBits-Grows, add_fact2_sz-adds}
use watts.ProgOrder.{z3_bv_size}
use watts.Facts.NotReach.{add_not_reach_fact, add_from, add_between, add_not_reached, not_skipped}

-- The fact on two constants.
abbrev pub not_reach_fact : ℕ → ℕ → Rule
not_reach_fact i j = implies [] (app2 not_reach (constant i) (constant j))

-- The constants of two instructions, and the fact on them.
abbrev pub Claims : Solver → ℕ → ℕ → Rule → Type 0
Claims s a c r =
    (i : ℕ) × (j : ℕ) × InBits z3_bv_size s.value_cache a i
    × InBits z3_bv_size s.value_cache c j
    × (r ≡ not_reach_fact i j)

-- The later solver has the numbers and rules of the earlier one and a fact for each pair, no more.
pub record Adds (Pair : ℕ → ℕ → Type 0) (s t : Solver) : Type 0 where
  pub grows : Grows s.value_cache t.value_cache
  pub more : (r : Rule) → In r s.zfp.rules → In r t.zfp.rules
  pub each : (a c : ℕ) → Pair a c → (r : Rule) × In r t.zfp.rules × Claims t a c r
  pub only :
      (r : Rule)
      → In r t.zfp.rules
      → In r s.zfp.rules ⊎ ((a : ℕ) × (c : ℕ) × Pair a c × Claims t a c r)

Claims-Grows :
    (s t : Solver) (a c : ℕ) (r : Rule)
    → Grows s.value_cache t.value_cache
    → Claims s a c r
    → Claims t a c r
Claims-Grows s t a c r g (i, j, p, q, e) = (
  i,
  j,
  InBits-Grows z3_bv_size s.value_cache t.value_cache a i g p,
  InBits-Grows z3_bv_size s.value_cache t.value_cache c j g q,
  e,
)

pub Adds-none :
    (Pair : ℕ → ℕ → Type 0) (s t : Solver)
    → IsNumbering s.value_cache
    → s ≡ t
    → ((a c : ℕ) → Pair a c → ⊥)
    → Adds Pair s t
Adds-none Pair s t n e empty = subst (Adds Pair s) e (record {
  grows = Grows-refl s.value_cache n;
  more = λ r m. m;
  each = λ a c p. absurd (empty a c p);
  only = λ r m. inl m;
})

-- What is added first, and then what is added next.
pub Adds-then :
    (P Q R : ℕ → ℕ → Type 0) (s t u : Solver)
    → ((a c : ℕ) → R a c ↔ (P a c ⊎ Q a c))
    → Adds P s t
    → Adds Q t u
    → Adds R s u
Adds-then P Q R s t u same p q = record {
  grows = Grows-trans s.value_cache t.value_cache u.value_cache p.grows q.grows;
  more = λ r m. q.more r (p.more r m);
  each = λ a c x. elim ((same a c).0 x) [
    | inl y ↦ let (r, m, d) = p.each a c y in (r, q.more r m, Claims-Grows t u a c r q.grows d)
    | inr y ↦ q.each a c y
  ];
  only = λ r m. elim (q.only r m) [
    | inr (a, c, y, d) ↦ inr (a, c, (same a c).1 (inr y), d)
    | inl k ↦ elim (p.only r k) [
      | inl o ↦ inl o
      | inr (a, c, y, d) ↦ inr (a, c, (same a c).1 (inl y), Claims-Grows t u a c r q.grows d)
    ]
  ];
}

abbrev Same : ℕ → ℕ → ℕ → ℕ → Type 0
Same b d a c = (a ≡ b) × (c ≡ d)

add_not_reach_fact-Adds :
    (b d : ℕ) (s t : Solver)
    → IsNumbering s.value_cache
    → add_not_reach_fact b d s ≡ ok t
    → Adds (Same b d) s t
unfolding add_not_reach_fact
add_not_reach_fact-Adds b d s t n h =
    let (i, j, g, x, y, q) = add_fact2_sz-adds z3_bv_size (omega arith) not_reach b d s t n h in
    let claims : Claims t b d (not_reach_fact i j) = (i, j, x, y, refl) in
    record {
      grows = g;
      more = λ r m. subst (λ (rs : List Rule). In r rs) (sym q) (inr m);
      each = λ a c (e, f). (
        not_reach_fact i j,
        subst (λ (rs : List Rule). In (not_reach_fact i j) rs) (sym q) (inl refl),
        subst (λ (v : ℕ). Claims t v c (not_reach_fact i j)) (sym e)
            (subst (λ (w : ℕ). Claims t b w (not_reach_fact i j)) (sym f) claims),
      );
      only = λ r m. elim (subst (λ (rs : List Rule). In r rs) q m) [
        | inl e ↦ inr (b, d, (refl, refl), (i, j, x, y, e))
        | inr k ↦ inl k
      ];
    }

abbrev FromOne : ℕ → List ℕ → ℕ → ℕ → Type 0
FromOne b nrs a c = (a ≡ b) × In c nrs

add_from-Adds :
    (b : ℕ) (nrs : List ℕ) (s t : Solver)
    → IsNumbering s.value_cache
    → add_from b nrs s ≡ ok t
    → Adds (FromOne b nrs) s t
unfolding add_from
add_from-Adds b [] s t n h = Adds-none (FromOne b []) s t n (ok-inj s t h) (λ a c p. p.1)
add_from-Adds b (d ∷ nrs) s t n h =
    let (u, e, f) = >>=-eq-ok (add_not_reach_fact b d s) (add_from b nrs) h in
    let first = add_not_reach_fact-Adds b d s u n e in
    Adds-then (Same b d) (FromOne b nrs) (FromOne b (d ∷ nrs)) s u t
      (λ a c. (
        λ (x, m). elim m [ inl k ↦ inl (x, k) | inr k ↦ inr (x, k) ],
        elim [ inl (x, k) ↦ (x, inl k) | inr (x, k) ↦ (x, inr k) ],
      ))
      first (add_from-Adds b nrs u t first.grows.numbering f)

abbrev pub Between : List ℕ → List ℕ → ℕ → ℕ → Type 0
Between bis nrs a c = In a bis × In c nrs

add_between-Adds :
    (bis nrs : List ℕ) (s t : Solver)
    → IsNumbering s.value_cache
    → add_between bis nrs s ≡ ok t
    → Adds (Between bis nrs) s t
unfolding add_between
add_between-Adds [] nrs s t n h = Adds-none (Between [] nrs) s t n (ok-inj s t h) (λ a c p. p.0)
add_between-Adds (b ∷ bis) nrs s t n h =
    let (u, e, f) = >>=-eq-ok (add_from b nrs s) (add_between bis nrs) h in
    let first = add_from-Adds b nrs s u n e in
    Adds-then (FromOne b nrs) (Between bis nrs) (Between (b ∷ bis) nrs) s u t
      (λ a c. (
        λ (x, m). elim x [ inl k ↦ inl (k, m) | inr k ↦ inr (k, m) ],
        elim [ inl (k, m) ↦ (inl k, m) | inr (k, m) ↦ (inr k, m) ],
      ))
      first (add_between-Adds bis nrs u t first.grows.numbering f)

abbrev pub ToBlocks : Block → List Block → ℕ → ℕ → Type 0
ToBlocks b rest a c = (d : Block) × In d rest × Between (not_skipped b) (not_skipped d) a c

pub add_not_reached-Adds :
    (b : Block) (rest : List Block) (s t : Solver)
    → IsNumbering s.value_cache
    → add_not_reached b rest s ≡ ok t
    → Adds (ToBlocks b rest) s t
unfolding add_not_reached
add_not_reached-Adds b [] s t n h =
    Adds-none (ToBlocks b []) s t n (ok-inj s t h) (λ a c (d, m, p). m)
add_not_reached-Adds b (d ∷ rest) s t n h =
    let (u, e, f) =
      >>=-eq-ok (add_between (not_skipped b) (not_skipped d) s) (add_not_reached b rest) h in
    let first = add_between-Adds (not_skipped b) (not_skipped d) s u n e in
    Adds-then (Between (not_skipped b) (not_skipped d)) (ToBlocks b rest) (ToBlocks b (d ∷ rest)) s
      u t
      (λ a c. (
        λ (g, m, p). elim m [
          | inl k ↦ inl (subst (λ (x : Block). Between (not_skipped b) (not_skipped x) a c) k p)
          | inr k ↦ inr (g, k, p)
        ],
        elim [ inl p ↦ (d, inl refl, p) | inr (g, k, p) ↦ (g, inr k, p) ],
      ))
      first (add_not_reached-Adds b rest u t first.grows.numbering f)
