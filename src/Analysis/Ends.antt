-- ===== src/Analysis/Ends.antt =====
-- That `analyzeFunc` ends on a function whose blocks form no cycle.
use watts.Prelude.{
  ℕ, suc, ◌+◌, ◌≤◌, ◌≡◌, ◌==◌, ==_iff, subst, ap, ok-inj, true, false, Bool-cases, inl, inr,
  if◌then◌else◌, some, List, [], ◌∷◌, All, Result, ok, err, arith, >>=-eq-ok, assertion, or_fail,
  map,
}
use watts.Prelude.Map.{Map}
use watts.Apron.{Apron}
use watts.Llvm.{Block, Context, Terminator, br, cond_br, ret, unreachable, other_term}
use watts.LatticeFact.Constrain.{constrain_tf}
use watts.BbOps.Transfer.{
  Flags, Slices, Books, out_facts, run_transfer_funcs, get_fact_in_bb_before,
}
use watts.Worklist.Ends.{total, analyze_from-ends}
use watts.Analysis.{block_at, run_block, analyze_func}

-- The sum of the weights of the successors that a terminator names.
abbrev pub total_targets : (ℕ → ℕ) → Terminator → ℕ
total_targets w (br s) = w s
total_targets w (cond_br v s t) = w s + w t
total_targets w ret = 0
total_targets w unreachable = 0
total_targets w other_term = 0

-- Each block weighs more than its successors together.
abbrev pub Descends : (ℕ → ℕ) → List Block → Type 0
Descends w = All (λ (bb : Block). suc (total_targets w bb.term) ≤ w bb.id)

module _ (a : Apron) (fl : Flags) (ctx : Context) (interf : Map (a.Fact)) (sl : Slices)
    (w : ℕ → ℕ) where
  open a use {Fact}

  out_facts-total :
      (t : Terminator) (f : Fact) (outs : List (ℕ × Fact))
      → out_facts a fl ctx interf sl t f ≡ ok outs
      → total w outs ≤ total_targets w t
  unfolding out_facts
  out_facts-total (br s) f outs h = ground arith
  out_facts-total (cond_br v s t) f outs h =
      let (true_f, p, h₁) = >>=-eq-ok (constrain_tf a fl.use_oct ctx fl.constr_icmp v true f) _ h in
      let (false_f, q, h₂) =
        >>=-eq-ok (constrain_tf a fl.use_oct ctx fl.constr_icmp v false f) _ h₁ in
      two s t true_f false_f outs h₂
    where
      two :
          (s t : ℕ) (g₀ g₁ : Fact) (outs : List (ℕ × Fact))
          → (if s == t then err assertion else ok ((s, g₀) ∷ (t, g₁) ∷ [])) ≡ ok outs
          → total w outs ≤ w s + w t
      two s t g₀ g₁ outs h = ground arith
  out_facts-total ret f outs h = ground arith
  out_facts-total unreachable f outs h = ground arith
  out_facts-total other_term f outs h = cc

  some-inj : (c d : Block) → some c ≡ some d → c ≡ d
  some-inj c d h = cc

  block_at-Descends :
      (bbs : List Block) (k : ℕ) (bb : Block)
      → Descends w bbs
      → block_at k bbs ≡ some bb
      → suc (total_targets w bb.term) ≤ w k
  unfolding block_at
  block_at-Descends [] k bb d h = cc
  block_at-Descends (c ∷ bbs) k bb d h = elim (Bool-cases (c.id == k)) [
    | inl t ↦
        let same : c ≡ bb = some-inj c bb (rw t at h) in
        subst (λ (x : Block). suc (total_targets w x.term) ≤ w k) same
          (subst (λ (i : ℕ). suc (total_targets w c.term) ≤ w i) ((==_iff _ _).0 t) d.0)
    | inr f ↦ block_at-Descends bbs k bb d.1 (rw f at h)
  ]

  run_block-Descends :
      (bbs : List Block) (k : ℕ) (f : Fact) (b : Books a) (outs : List (ℕ × Fact)) (b' : Books a)
      → Descends w bbs
      → run_block a fl ctx interf sl bbs k f b ≡ ok (outs, b')
      → suc (total w outs) ≤ w k
  unfolding run_block run_transfer_funcs
  run_block-Descends bbs k f b outs b' d h =
      let (bb, p, h₁) = >>=-eq-ok (or_fail (block_at k bbs) assertion) _ h in
      let (r, q, h₂) =
        >>=-eq-ok (get_fact_in_bb_before a fl ctx interf sl bb bb.term_id f b) _ h₁ in
      let (os, o, h₃) = >>=-eq-ok (out_facts a fl ctx interf sl bb.term r.0) _ h₂ in
      let same : os ≡ outs =
        ap (λ (p : List (ℕ × Fact) × Books a). p.0) (ok-inj (os, r.1) (outs, b') h₃) in
      omega (
        arith,
        block_at-Descends bbs k bb d (found k bbs bb p),
        subst (λ (x : List (ℕ × Fact)). total w x ≤ total_targets w bb.term) same
            (out_facts-total bb.term r.0 os o),
      )
    where
      found :
          (k : ℕ) (bbs : List Block) (bb : Block)
          → or_fail (block_at k bbs) assertion ≡ ok bb
          → block_at k bbs ≡ some bb
      found k bbs bb h = ground arith

  -- On a function whose blocks each weigh more than their successors together, and weigh at least
  -- one, `analyzeFunc` ends in as many rounds as the entry block weighs: it returns or it fails.
  pub analyze_func-ends :
      (fuel : ℕ) (bb : Block) (bbs : List Block) (f : Fact) (b : Books a)
      → ((k : ℕ) → 1 ≤ w k)
      → Descends w (bb ∷ bbs)
      → w bb.id ≤ fuel
      → (r : Result (Map Fact × Books a)) × (analyze_func a fl ctx interf sl fuel (bb ∷ bbs) f b
          ≡ some r)
  unfolding analyze_func
  analyze_func-ends fuel bb bbs f b heavy d h =
      analyze_from-ends a w (run_block a fl ctx interf sl (bb ∷ bbs))
        (λ k g c outs c' ran. run_block-Descends (bb ∷ bbs) k g c outs c' d ran) heavy fuel
        (map (λ (x : Block). x.id) (bb ∷ bbs)) bb.id f b h
