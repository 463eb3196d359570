-- ===== src/Analysis/Sound.antt =====
-- What `analyzeFunc` reports: each assertion that a concrete run of the function can violate.
use watts.Prelude.{
  ℕ, ◌≡◌, inl, inr, refl, sym, ap, subst, ◌∙◌, Bool, true, false, Bool-cases, some, none, Option,
  Result, ok, err, List, [], ◌∷◌, map, In, All, ok-inj, >>=-eq-ok, arith, if◌then◌else◌, ◌==◌,
  assertion, or_fail,
}
use watts.Prelude.Map.{Map}
use watts.Apron.{Apron, Env}
use watts.Apron.Laws.{Sound}
use watts.Llvm.{Terminator, br, cond_br, ret, unreachable, other_term, Block, Context}
use watts.LatticeFact.Assign.Sound.{truth}
use watts.LatticeFact.Constrain.{constrain_tf}
use watts.LatticeFact.Constrain.Sound.{Agrees, constrain_tf_sound}
use watts.BbOps.Transfer.{
  Flags, Slices, Books, run_transfer_funcs, get_fact_in_bb_before, out_facts, walk,
}
use watts.BbOps.Transfer.Concrete.{RunsBody, Fails, Takes, Addressed}
use watts.BbOps.Transfer.Notes.{Reported}
use watts.BbOps.Transfer.Walk.{walk_keeps, walk_sound, walk-Reported}
use watts.Worklist.Coverage.{Reaches, RunSound, analyze_from-Noted}
use watts.Analysis.{block_at, run_block, analyze_func}

module _ (a : Apron) (l : Sound a) (fl : Flags) (ctx : Context) (interf : Map (a.Fact))
    (sl : Slices) where
  open a use {Fact}
  open l use {Covers}

  -- A concrete step from block to block: the body runs, and the terminator goes on.
  abbrev pub GoesOn : List Block → ℕ → Env → ℕ → Env → Type 0
  GoesOn bbs k e j d =
      (bb : Block) × (block_at k bbs ≡ some bb)
      × RunsBody a l fl ctx interf bb.body e d
      × Takes a l fl ctx interf bb.term d j

  -- The fact for the successor that is taken covers the valuation.
  out_facts_sound :
      (t : Terminator) (f : Fact) (outs : List (ℕ × Fact)) (e : Env) (j : ℕ)
      → Covers f e
      → Takes a l fl ctx interf t e j
      → out_facts a fl ctx interf sl t f ≡ ok outs
      → (g : Fact) × In (j, g) outs × Covers g e
  unfolding out_facts
  out_facts_sound (br s) f outs e j c t h =
      (f, subst (In (j, f)) (ok-inj ((s, f) ∷ []) outs h) (inl (ap (λ (x : ℕ). (x, f)) t)), c)
  out_facts_sound (cond_br v s u) f outs e j c (b, tf, q, r, agrees, t) h = branch tf r agrees t
    where
      two :
          (f₀ f₁ : Fact)
          → (if s == u then err assertion else ok ((s, f₀) ∷ (u, f₁) ∷ [])) ≡ ok outs
          → (s, f₀) ∷ (u, f₁) ∷ [] ≡ outs
      two f₀ f₁ h = ground arith

      branch :
          (tf : Bool)
          → e b ≡ truth tf
          → Agrees a l fl.use_oct ctx (ctx.compare_of v) tf e
          → j ≡ (if tf then s else u)
          → (g : Fact) × In (j, g) outs × Covers g e
      branch true r agrees t =
          let (f₀, p, h₁) = >>=-eq-ok (constrain_tf a fl.use_oct ctx fl.constr_icmp v true f) _ h in
          let (f₁, p', h₂) =
            >>=-eq-ok (constrain_tf a fl.use_oct ctx fl.constr_icmp v false f) _ h₁ in
          let (g, ran, c') =
            constrain_tf_sound a l fl.use_oct ctx fl.constr_icmp v b true f e q c r agrees in
          (
            f₀,
            subst (In (j, f₀)) (two f₀ f₁ h₂) (inl (ap (λ (x : ℕ). (x, f₀)) t)),
            subst (λ (y : Fact). Covers y e) (ok-inj g f₀ (sym ran ∙ p)) c',
          )
      branch false r agrees t =
          let (f₀, p, h₁) = >>=-eq-ok (constrain_tf a fl.use_oct ctx fl.constr_icmp v true f) _ h in
          let (f₁, p', h₂) =
            >>=-eq-ok (constrain_tf a fl.use_oct ctx fl.constr_icmp v false f) _ h₁ in
          let (g, ran, c') =
            constrain_tf_sound a l fl.use_oct ctx fl.constr_icmp v b false f e q c r agrees in
          (
            f₁,
            subst (In (j, f₁)) (two f₀ f₁ h₂) (inr (inl (ap (λ (x : ℕ). (x, f₁)) t))),
            subst (λ (y : Fact). Covers y e) (ok-inj g f₁ (sym ran ∙ p')) c',
          )
  out_facts_sound ret f outs e j c t h = absurd t
  out_facts_sound unreachable f outs e j c t h = absurd t
  out_facts_sound other_term f outs e j c t h = absurd t

  abbrev ran_block : List (ℕ × Fact) → Books a → Result (List (ℕ × Fact) × Books a)
  ran_block outs b = ok (outs, b)

  -- The parts of a run of a block that returned: the walk over its body, and the facts passed on.
  pub run_block_parts :
      (bbs : List Block) (k : ℕ) (f : Fact) (b b' : Books a) (outs : List (ℕ × Fact))
      → run_block a fl ctx interf sl bbs k f b ≡ ran_block outs b'
      → (bb : Block) × (g : Fact) × (block_at k bbs ≡ some bb)
        × (walk a fl ctx interf sl bb.term_id bb.term_id bb.body f b ≡ ok (g, b'))
        × (out_facts a fl ctx interf sl bb.term g ≡ ok outs)
  unfolding run_block run_transfer_funcs get_fact_in_bb_before
  run_block_parts bbs k f b b' outs h =
      let (bb, p, h₁) = >>=-eq-ok (or_fail (block_at k bbs) assertion) _ h in
      let (r, q, h₂) =
        >>=-eq-ok (get_fact_in_bb_before a fl ctx interf sl bb bb.term_id f b) _ h₁ in
      let (os, o, h₃) = >>=-eq-ok (out_facts a fl ctx interf sl bb.term r.0) _ h₂ in
      let same = ok-inj (os, r.1) (outs, b') h₃ in
      (
        bb,
        r.0,
        found (block_at k bbs) bb p,
        q ∙ ap (λ (y : List (ℕ × Fact) × Books a). ok (r.0, y.1)) same,
        o ∙ ap (λ (y : List (ℕ × Fact) × Books a). ok (y.0)) same,
      )
    where
      found : (o : Option Block) (bb : Block) → or_fail o assertion ≡ ok bb → o ≡ some bb
      found none bb h = cc
      found (some x) bb h = ap some (ok-inj x bb h)

  -- A block notes the failing assertions of its body that a run from the valuation comes to.
  abbrev Noted : List Block → ℕ → Env → Books a → Type 0
  Noted bbs k e b =
      (bb : Block) (n : ℕ)
      → block_at k bbs ≡ some bb
      → Fails a l fl ctx interf bb.body n e
      → Reported a n b

  same_block : (o : Option Block) (bb c : Block) → o ≡ some bb → o ≡ some c → bb ≡ c
  same_block o bb c p q = cc

  pub block_at-Addressed :
      (bbs : List Block) (k : ℕ) (bb : Block)
      → All Addressed bbs
      → block_at k bbs ≡ some bb
      → Addressed bb
  unfolding block_at
  block_at-Addressed [] k bb w h = cc
  block_at-Addressed (c ∷ bbs) k bb w h = elim (Bool-cases (c.id == k)) [
    | inl t ↦ subst Addressed (same_block (some c) c bb refl (rw t at h)) w.0
    | inr t ↦ block_at-Addressed bbs k bb w.1 (rw t at h)
  ]

  run_block-RunSound :
      (bbs : List Block)
      → fl.assert_slice ≡ false
      → All Addressed bbs
      → RunSound a l (run_block a fl ctx interf sl bbs) (GoesOn bbs) (Noted bbs)
  run_block-RunSound bbs off w = record {
    forward = λ k f b outs b' e j d ran c (bb, at, body, taken).
        let (bb', g, p, q, o) = run_block_parts bbs k f b b' outs ran in
        let same = same_block (block_at k bbs) bb bb' at p in
        out_facts_sound bb'.term g outs d j
          (walk_sound a l fl ctx interf sl off bb'.term_id bb'.term_id bb'.body f g b b' e d
            (block_at-Addressed bbs k bb' w p) c q
            (subst (λ (x : Block). RunsBody a l fl ctx interf x.body e d) same body))
          (subst (λ (x : Block). Takes a l fl ctx interf x.term d j) same taken) o;
    notes = λ k f b outs b' e ran c bb n at fails.
        let (bb', g, p, q, o) = run_block_parts bbs k f b b' outs ran in
        walk-Reported a l fl ctx interf sl off bb'.term_id bb'.term_id bb'.body f g b b' e n
          (block_at-Addressed bbs k bb' w p) c q
          (subst (λ (x : Block). Fails a l fl ctx interf x.body n e)
            (same_block (block_at k bbs) bb bb' at p) fails);
    keeps = λ k f b outs b' j e ran noted bb n at fails.
        let (bb', g, p, q, o) = run_block_parts bbs k f b b' outs ran in
        walk_keeps a l fl ctx interf sl off bb'.term_id bb'.term_id bb'.body f g b b' n
          (block_at-Addressed bbs k bb' w p) q (noted bb n at fails);
  }

  -- When `analyzeFunc` returns, without the assertion slice, each failing assertion is reported
  -- that a concrete run comes to: the run starts at the entry block with a valuation that the
  -- entry fact covers, goes from block to block by the concrete steps of the instructions and
  -- terminators, and comes to the assertion in the body of a block, where no block's terminator
  -- has the address of one of its instructions. A step is exact: arithmetic has one only if its
  -- result is below 2^width in size, a comparison only if no operand is the constant -2^31, a
  -- cast only if it keeps the number (a sign extension of a true bit does not), and phi nodes,
  -- exclusive or and atomic instructions have none. A load reads its own memory, or a memory that
  -- its interference covers, and that becomes the thread's. A branch on a comparison is taken as
  -- its operands compare as integers, whatever the predicate's signedness, where at most one
  -- operand is a constant, which fits an int and is not -2^31, and the others have names.
  pub analyze_func-Reported :
      (fuel : ℕ) (first : Block) (rest : List Block) (f : Fact) (b b' : Books a) (s : Map Fact)
      (start : Env) (k : ℕ) (e : Env) (bb : Block) (n : ℕ)
      → fl.assert_slice ≡ false
      → All Addressed (first ∷ rest)
      → analyze_func a fl ctx interf sl fuel (first ∷ rest) f b ≡ some (ok (s, b'))
      → Covers f start
      → Reaches (GoesOn (first ∷ rest)) first.id start k e
      → block_at k (first ∷ rest) ≡ some bb
      → Fails a l fl ctx interf bb.body n e
      → Reported a n b'
  unfolding analyze_func
  analyze_func-Reported fuel first rest f b b' s start k e bb n off w h c r at fails =
      analyze_from-Noted a l (run_block a fl ctx interf sl (first ∷ rest)) (GoesOn (first ∷ rest))
        (Noted (first ∷ rest)) (run_block-RunSound (first ∷ rest) off w) fuel
        (map (λ (x : Block). x.id) (first ∷ rest)) first.id f b b' s h start c k e r bb n at fails
