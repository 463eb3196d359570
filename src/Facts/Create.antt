-- ===== src/Facts/Create.antt =====
-- `addCreateStoreLoadFacts`: the rules that it adds name the store first, and the queries the load.
use watts.Prelude.{
  ℕ, ◌≡◌, ◌⊎◌, ◌∙◌, inl, inr, refl, sym, subst, ap, Bool-cases, List, [], ◌∷◌, In, All-In, ok, err,
  ok-inj, assertion, ◌>>=◌, >>=-eq-ok,
}
use watts.Llvm.{Kind}
use watts.Horn.{
  Rel, mhb, not_rf, bound, constant, Atom, app2, Rule, Ground, ground2, instantiate, Derives,
  by_rule, add_rule,
}
use watts.Horn.Compare.{rel_of, Unasked, ground_rel, ground_rel-instantiate}
use watts.Horn.Models.{Valid, Derives-Holds}
use watts.Solver.{Solver, get_value_bvid_sz}
use watts.ProgOrder.{z3_bv_size, is_some_load}
use watts.Facts.{create_rule, add_store_create_load_fact, add_create_store_load_facts}

-- Derived before, or about the reads of something that is a store.
abbrev pub Known : List Rule → Ground → Type 0
Known rules g =
    Derives rules g
    ⊎ ((x : ℕ) × (y : ℕ) × (v : ℕ) × (g ≡ ground2 not_rf x y)
        × Derives rules (ground2 watts.Horn.st x v))

module _ (rules : List Rule) where
  -- What is not about reads was derived before.
  Known-before : (g : Ground) → ¬ (ground_rel g ≡ not_rf) → Known rules g → Derives rules g
  Known-before g n (inl d) = d
  Known-before g n (inr (x, y, v, e, d)) = absurd (n (ap ground_rel e))

  Valid-old : Unasked not_rf rules → (r : Rule) → In r rules → Valid (Known rules) r
  Valid-old free r m σ body = inl (
      by_rule r σ m refl (λ b n.
        Known-before (instantiate σ b) (λ e. free r m b n (sym (ground_rel-instantiate σ b) ∙ e))
          (All-In (λ (b : Atom). Known rules (instantiate σ b)) r.body b body n)))

  Valid-create_rule : (i j : ℕ) → Valid (Known rules) (create_rule i j)
  Valid-create_rule i j σ (k, rest) =
      inr (σ 0, j, σ 1, refl, Known-before (ground2 watts.Horn.st (σ 0) (σ 1)) (λ e. cc) k)

  create_rule-Known :
      (i j : ℕ) (g : Ground)
      → Unasked not_rf rules
      → Derives (create_rule i j ∷ rules) g
      → Known rules g
  create_rule-Known i j g free = Derives-Holds (Known rules) (create_rule i j ∷ rules) g (λ r m.
      elim m [
        | inl e ↦ subst (Valid (Known rules)) (sym e) (Valid-create_rule i j)
        | inr n ↦ Valid-old free r n
      ])

create_rule-Unasked :
    (i j : ℕ) (rules : List Rule) → Unasked not_rf rules → Unasked not_rf (create_rule i j ∷ rules)
create_rule-Unasked i j rules free r (inr m) b n = free r m b n
create_rule-Unasked i j rules free r (inl e) b n = asks (subst (λ (q : Rule). In b q.body) e n)
  where
    asks : In b (create_rule i j).body → ¬ (rel_of b ≡ not_rf)
    asks (inl k) q = stores (sym (ap rel_of k) ∙ q)
      where
        stores : watts.Horn.st ≡ not_rf → ⊥
        stores x = cc
    asks (inr (inl k)) q = orders (sym (ap rel_of k) ∙ q)
      where
        orders : mhb ≡ not_rf → ⊥
        orders x = cc
    asks (inr (inr k)) q = k

module _ (kind_of : ℕ → Kind) where
  added :
      (ci l : ℕ) (s t : Solver)
      → add_store_create_load_fact kind_of ci l s ≡ ok t
      → (i : ℕ) × (j : ℕ) × (t.zfp.rules ≡ create_rule i j ∷ s.zfp.rules)
  unfolding add_store_create_load_fact watts.Horn.add_rule
  added ci l s t h = elim (Bool-cases (is_some_load (kind_of l))) [
    | inr b ↦ absurd (refused (rw (b) at h))
    | inl b ↦
        (let ((one, i), e, f) =
            >>=-eq-ok (get_value_bvid_sz z3_bv_size ci s.value_cache)
              (λ p. get_value_bvid_sz z3_bv_size l p.0 >>= (λ q.
                ok (record { value_cache = q.0; zfp = add_rule (create_rule p.1 q.1) s.zfp })))
              (rw (b) at h) in
          let ((two, j), e', f') =
            >>=-eq-ok (get_value_bvid_sz z3_bv_size l one)
              (λ q. ok (record { value_cache = q.0; zfp = add_rule (create_rule i q.1) s.zfp }))
              f in
          (
            i,
            j,
            ap (λ (x : Solver). x.zfp.rules)
                (sym (
                  ok-inj (record { value_cache = two; zfp = add_rule (create_rule i j) s.zfp }) t
                    f')),
          ))
  ]
    where
      refused : err assertion ≡ ok t → ⊥
      refused e = cc

  -- When `addCreateStoreLoadFacts` returns, from a solver none of whose rules asks for a not-reads
  -- atom, then a derived atom that a load does not read a store was derived before, unless what
  -- stands for the load is derived to be a store itself: no read of a load that is no store is ruled
  -- out.
  pub add_create_store_load_facts-Known :
      (ci : ℕ) (lds : List ℕ) (s t : Solver) (g : Ground)
      → Unasked not_rf s.zfp.rules
      → add_create_store_load_facts kind_of ci lds s ≡ ok t
      → Derives t.zfp.rules g
      → Known s.zfp.rules g
  unfolding add_create_store_load_facts
  add_create_store_load_facts-Known ci [] s t g free h d =
      inl (subst (λ (x : Solver). Derives x.zfp.rules g) (sym (ok-inj s t h)) d)
  add_create_store_load_facts-Known ci (l ∷ lds) s t g free h d =
      let (u, e, f) =
        >>=-eq-ok (add_store_create_load_fact kind_of ci l s)
          (add_create_store_load_facts kind_of ci lds) h in
      let (i, j, q) = added ci l s u e in
      let free_u =
        subst (λ (rs : List Rule). Unasked not_rf rs) (sym q)
          (create_rule-Unasked i j s.zfp.rules free) in
      back i j u q (add_create_store_load_facts-Known ci lds u t g free_u f d)
    where
      before :
          (i j : ℕ) (u : Solver)
          → u.zfp.rules ≡ create_rule i j ∷ s.zfp.rules
          → (a : Ground) → Derives u.zfp.rules a
          → Known s.zfp.rules a
      before i j u q a x =
          create_rule-Known s.zfp.rules i j a free (subst (λ (rs : List Rule). Derives rs a) q x)

      back :
          (i j : ℕ) (u : Solver)
          → u.zfp.rules ≡ create_rule i j ∷ s.zfp.rules
          → Known u.zfp.rules g
          → Known s.zfp.rules g
      back i j u q (inl x) = before i j u q g x
      back i j u q (inr (x, y, v, k, p)) = inr (
        x,
        y,
        v,
        k,
        Known-before s.zfp.rules (ground2 watts.Horn.st x v) (λ z. cc)
            (before i j u q (ground2 watts.Horn.st x v) p),
      )
