-- ===== src/Facts/Chain.antt =====
-- `addInternalDomFacts`: with the transitivity of dominance, the order of a block is derived.
use watts.Prelude.{
  arith, ℕ, ◌≡◌, ◌⊎◌, inl, inr, refl, sym, subst, List, [], ◌∷◌, In, ok, ok-inj, >>=-eq-ok, ◌==◌,
  if◌then◌else◌,
}
use watts.Llvm.{Block}
use watts.Horn.{dom, bound, constant, app2, Rule, ground2, Derives, by_rule, implies}
use watts.Horn.Models.{Derives-more, Derives-Valid}
use watts.Solver.{Solver}
use watts.Solver.Numbers.{IsNumbering}
use watts.Solver.Bits.{
  InBits, Grows, Grows-refl, Grows-trans, InBits-Grows, InBits-unique, add_fact2_sz-adds,
}
use watts.ProgOrder.{z3_bv_size}
use watts.Facts.{add_dom_fact, add_chain, loads_n_stores, add_internal_dom_facts}

-- The rule of `addDomRel`.
abbrev pub transitive : Rule
transitive =
    implies (app2 dom (bound 0) (bound 1) ∷ app2 dom (bound 1) (bound 2) ∷ [])
      (app2 dom (bound 0) (bound 2))

-- `a` stands before `c` in the list.
abbrev pub Precedes : List ℕ → ℕ → ℕ → Type 0
Precedes [] a c = ⊥
Precedes (x ∷ xs) a c = ((a ≡ x) × In c xs) ⊎ Precedes xs a c

-- That `a` dominates `c` is derived, for the constants of the two.
abbrev pub Dominates : Solver → ℕ → ℕ → Type 0
Dominates s a c =
    (x : ℕ) × (y : ℕ) × InBits z3_bv_size s.value_cache a x
    × InBits z3_bv_size s.value_cache c y
    × Derives s.zfp.rules (ground2 dom x y)

-- The later solver has the numbers and the rules of the earlier one.
record Later (s t : Solver) : Type 0 where
  grows : Grows s.value_cache t.value_cache
  more : (r : Rule) → In r s.zfp.rules → In r t.zfp.rules

Dominates-Later : (s t : Solver) (a c : ℕ) → Later s t → Dominates s a c → Dominates t a c
Dominates-Later s t a c l (x, y, p, q, d) = (
  x,
  y,
  InBits-Grows z3_bv_size s.value_cache t.value_cache a x l.grows p,
  InBits-Grows z3_bv_size s.value_cache t.value_cache c y l.grows q,
  Derives-more s.zfp.rules t.zfp.rules (ground2 dom x y) l.more d,
)

abbrev pick : ℕ → ℕ → ℕ → ℕ → ℕ
pick x y z k = if k == 0 then x else if k == 1 then y else z

Dominates-through :
    (s : Solver) (a b c : ℕ)
    → In transitive s.zfp.rules
    → Dominates s a b
    → Dominates s b c
    → Dominates s a c
Dominates-through s a b c m (x, y, p, q, d) (y', z, q', r, e) = (
  x,
  z,
  p,
  r,
  Derives-Valid s.zfp.rules transitive m (pick x y z) (
    d,
    (
      subst (λ (k : ℕ). Derives s.zfp.rules (ground2 dom k z))
          (InBits-unique z3_bv_size s.value_cache b y' y q' q) e,
      tt,
    ),
  ),
)

add_dom_fact-Dominates :
    (a b : ℕ) (s t : Solver)
    → IsNumbering s.value_cache
    → add_dom_fact a b s ≡ ok t
    → Dominates t a b × Later s t
unfolding add_dom_fact
add_dom_fact-Dominates a b s t n h =
    let (i, j, g, x, y, q) = add_fact2_sz-adds z3_bv_size (omega arith) dom a b s t n h in
    (
      (
        i,
        j,
        x,
        y,
        subst (λ (rs : List Rule). Derives rs (ground2 dom i j)) (sym q)
            (by_rule (implies [] (app2 dom (constant i) (constant j))) (λ k. k) (inl refl) refl
              (λ c m. absurd m)),
      ),
      record { grows = g; more = λ r m. subst (λ (rs : List Rule). In r rs) (sym q) (inr m) },
    )

add_chain-Dominates :
    (prev : ℕ) (rest : List ℕ) (s t : Solver)
    → IsNumbering s.value_cache
    → In transitive s.zfp.rules
    → add_chain prev rest s ≡ ok t
    → ((a c : ℕ) → Precedes (prev ∷ rest) a c → Dominates t a c) × Later s t
unfolding add_chain
add_chain-Dominates prev [] s t n m h = (
  λ a c p. elim p [ inl k ↦ absurd k.1 | inr k ↦ absurd k ],
  subst (Later s) (ok-inj s t h) (record { grows = Grows-refl s.value_cache n; more = λ r k. k }),
)
add_chain-Dominates prev (cur ∷ rest) s t n m h =
    let (u, e, f) = >>=-eq-ok (add_dom_fact prev cur s) (add_chain cur rest) h in
    let (d, l) = add_dom_fact-Dominates prev cur s u n e in
    let (after, later) =
      add_chain-Dominates cur rest u t l.grows.numbering (l.more transitive m) f in
    let linked = Dominates-Later u t prev cur later d in
    (
      λ a c p. elim p [
        | inl (q, inl k) ↦
            subst (λ (x : ℕ). Dominates t x c) (sym q)
              (subst (λ (y : ℕ). Dominates t prev y) (sym k) linked)
        | inl (q, inr k) ↦
            subst (λ (x : ℕ). Dominates t x c) (sym q)
              (Dominates-through t prev cur c (later.more transitive (l.more transitive m)) linked
                (after cur c (inl (refl, k))))
        | inr k ↦ after a c k
      ],
      record {
        grows = Grows-trans s.value_cache u.value_cache t.value_cache l.grows later.grows;
        more = λ r k. later.more r (l.more r k);
      },
    )

-- Take a solver with a well-formed cache and with the rule that dominance is transitive. When
-- `addInternalDomFacts` returns for a block, it is derived for any two of the block's loads, stores,
-- calls and its terminator that the one before dominates the other.
pub add_internal_dom_facts-Dominates :
    (b : Block) (s t : Solver) (a c : ℕ)
    → IsNumbering s.value_cache
    → In transitive s.zfp.rules
    → add_internal_dom_facts b s ≡ ok t
    → Precedes (loads_n_stores b) a c
    → Dominates t a c
unfolding add_internal_dom_facts
add_internal_dom_facts-Dominates b s t a c n m h p = from (loads_n_stores b) h p
  where
    from :
        (ids : List ℕ)
        → elim ids [ [] ↦ ok s | first ∷ rest ↦ add_chain first rest s ] ≡ ok t
        → Precedes ids a c
        → Dominates t a c
    from [] h p = absurd p
    from (first ∷ rest) h p = (add_chain-Dominates first rest s t n m h).0 a c p
