-- ===== src/Solver/Bits.antt =====
-- The constants that stand for values, and that later calls leave them as they are.
use watts.Prelude.{
  ℕ, ◌≤◌, ◌%◌, ◌^◌, ◌≡◌, sym, subst, ap, some, [], ◌∷◌, Result, ok, ok-inj, ◌>>=◌, >>=-eq-ok,
}
use watts.Prelude.Map.{Map, find}
use watts.Horn.{Rel, constant, app2, add_rule, add_fact2, implies}
use watts.Solver.{Solver, get_value_bvid_sz, add_fact2_sz}
use watts.Solver.Numbers.{IsNumbering}
use watts.Solver.Width.{get_value_bvid_sz-Numbered}

-- `k` is the constant of the value `v`.
abbrev pub InBits : ℕ → Map ℕ → ℕ → ℕ → Type 0
InBits bv_size cache v k = (id : ℕ) × (find v cache ≡ some id) × (k ≡ id % 2 ^ bv_size)

-- The later cache is well formed and has the numbers of the earlier one.
pub record Grows (cache next : Map ℕ) : Type 0 where
  pub numbering : IsNumbering next
  pub kept : (w i : ℕ) → find w cache ≡ some i → find w next ≡ some i

pub Grows-refl : (cache : Map ℕ) → IsNumbering cache → Grows cache cache
Grows-refl cache n = record { numbering = n; kept = λ w i e. e }

pub Grows-trans : (a b c : Map ℕ) → Grows a b → Grows b c → Grows a c
Grows-trans a b c g h = record {
  numbering = h.numbering;
  kept = λ w i e. h.kept w i (g.kept w i e);
}

module _ (bv_size : ℕ) where
  pub InBits-Grows :
      (cache next : Map ℕ) (v k : ℕ)
      → Grows cache next
      → InBits bv_size cache v k
      → InBits bv_size next v k
  InBits-Grows cache next v k g (id, f, e) = (id, g.kept v id f, e)

  pub InBits-unique :
      (cache : Map ℕ) (v i j : ℕ) → InBits bv_size cache v i → InBits bv_size cache v j → i ≡ j
  InBits-unique cache v i j (a, f, p) (b, g, q) = cc

module _ (bv_size : ℕ) (narrow : bv_size ≤ 31) where
  pub get_value_bvid_sz-Grows :
      (v k : ℕ) (cache next : Map ℕ)
      → IsNumbering cache
      → get_value_bvid_sz bv_size v cache ≡ ok (next, k)
      → Grows cache next × InBits bv_size next v k
  get_value_bvid_sz-Grows v k cache next n h =
      let (id, m, x, e) = get_value_bvid_sz-Numbered bv_size v cache next k narrow n h in
      (record { numbering = m; kept = x.kept }, (id, x.found, e))

  -- Two values in turn, as in every fact and query about two.
  pub two_values :
      {A : Type 0} (v w : ℕ) (cache : Map ℕ) (rest : Map ℕ → ℕ → ℕ → Result A) (a : A)
      → IsNumbering cache
      → (do
        (one, i) ← get_value_bvid_sz bv_size v cache
        (two, j) ← get_value_bvid_sz bv_size w one
        rest two i j)
        ≡ ok a
      → (two : Map ℕ) × (i : ℕ) × (j : ℕ) × Grows cache two
        × InBits bv_size two v i
        × InBits bv_size two w j
        × (rest two i j ≡ ok a)
  two_values v w cache rest a n h =
      let ((one, i), e, f) =
        >>=-eq-ok (get_value_bvid_sz bv_size v cache)
          (λ p. (get_value_bvid_sz bv_size w p.0 >>= (λ q. rest q.0 p.1 q.1))) h in
      let ((two, j), e', f') =
        >>=-eq-ok (get_value_bvid_sz bv_size w one) (λ q. rest q.0 i q.1) f in
      let (g, x) = get_value_bvid_sz-Grows v i cache one n e in
      let (g', y) = get_value_bvid_sz-Grows w j one two g.numbering e' in
      (two, i, j, Grows-trans cache one two g g', InBits-Grows bv_size one two v i g' x, y, f')

  pub add_fact2_sz-adds :
      (fd : Rel) (v w : ℕ) (s t : Solver)
      → IsNumbering s.value_cache
      → add_fact2_sz fd v w bv_size s ≡ ok t
      → (i : ℕ) × (j : ℕ) × Grows s.value_cache t.value_cache
        × InBits bv_size t.value_cache v i
        × InBits bv_size t.value_cache w j
        × (t.zfp.rules ≡ implies [] (app2 fd (constant i) (constant j)) ∷ s.zfp.rules)
  unfolding add_fact2_sz add_fact2 add_rule
  add_fact2_sz-adds fd v w s t n h =
      let (two, i, j, g, x, y, e) =
        two_values v w s.value_cache
          (λ c i j.
            ok (record { value_cache = c; zfp = add_fact2 fd (constant i) (constant j) s.zfp }))
          t n h in
      let q =
        ok-inj (record { value_cache = two; zfp = add_fact2 fd (constant i) (constant j) s.zfp }) t
          e in
      let c = ap (λ (r : Solver). r.value_cache) q in
      (
        i,
        j,
        subst (λ (m : Map ℕ). Grows s.value_cache m) c g,
        subst (λ (m : Map ℕ). InBits bv_size m v i) c x,
        subst (λ (m : Map ℕ). InBits bv_size m w j) c y,
        ap (λ (r : Solver). r.zfp.rules) (sym q),
      )
