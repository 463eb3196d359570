-- ===== src/ValToStrDb/Metadata/Nodes.antt =====
-- The nodes of instructions after the loop of `dumpIDMapToModule`.
use watts.Prelude.{
  ℕ, ◌≡◌, ◌⊎◌, ◌∙◌, inl, inr, refl, sym, ap, ◌==◌, ==_iff, Bool-cases, true, false, some, List, [],
  ◌∷◌, In, arith,
}
use watts.Prelude.Map.{Map, find, assign, find-assign}
use watts.ValToStrDb.{Object, instruction}
use watts.ValToStrDb.Texts.{Text}
use watts.ValToStrDb.Metadata.{Operand, md_string}
use watts.ValToStrDb.Metadata.Dump.{inst_step, insts_of}

module _ (object : ℕ → Object) where
  -- A node after the loop is one that was written, or one that was there.
  pub node_from :
      (es : List (ℕ × Text)) (md : Map (List Operand)) (i : ℕ) (ops : List Operand)
      → find i (insts_of object es md) ≡ some ops
      → ((s : Text) × In (i, s) es × (ops ≡ md_string s ∷ [])) ⊎ (find i md ≡ some ops)
  node_from [] md i ops h = inr h
  node_from ((v, s) ∷ es) md i ops h = elim (node_from es (inst_step object v s md) i ops h) [
    | inl (t, m, e) ↦ inl (t, inr m, e)
    | inr k ↦ step (object v) k
  ]
    where
      step :
          (o : Object)
          → find i (elim o [ instruction ↦ assign v (md_string s ∷ []) md | _ ↦ md ]) ≡ some ops
          → ((t : Text) × In (i, t) ((v, s) ∷ es) × (ops ≡ md_string t ∷ []))
            ⊎ (find i md ≡ some ops)
      step instruction k = elim (Bool-cases (v == i)) [
        | inl b ↦ inl (
          s,
          inl (pair ((==_iff v i).0 b)),
          sym (ops_of_some (sym (find-assign v i (md_string s ∷ []) md ∙ rw b refl) ∙ k)),
        )
        | inr b ↦ inr (sym (find-assign v i (md_string s ∷ []) md ∙ rw b refl) ∙ k)
      ]
        where
          pair : v ≡ i → ◌≡◌ {A = ℕ × Text} (i, s) (v, s)
          pair p = cc

          ops_of_some : some (md_string s ∷ []) ≡ some ops → md_string s ∷ [] ≡ ops
          ops_of_some z = cc
      step _ k = inr k

  -- The node of an instruction, when its entries agree.
  pub node_of :
      (es : List (ℕ × Text)) (md : Map (List Operand)) (i : ℕ) (s : Text)
      → ((t : Text) → In (i, t) es → s ≡ t)
      → object i ≡ instruction
      → (In (i, s) es ⊎ (find i md ≡ some (md_string s ∷ [])))
      → find i (insts_of object es md) ≡ some (md_string s ∷ [])
  node_of [] md i s agree k (inr h) = h
  node_of [] md i s agree k (inl m) = absurd m
  node_of ((v, t) ∷ es) md i s agree k h =
      node_of es (inst_step object v t md) i s (λ u m. agree u (inr m)) k
        (step (Bool-cases (v == i)) h)
    where
      here : v ≡ i → find i (inst_step object v t md) ≡ some (md_string s ∷ [])
      here p =
          let same_text = agree t (inl (ap (λ (z : ℕ). (z, t)) (sym p))) in
          rw (ap object p ∙ k, inst_step)
            (find-assign v i (md_string t ∷ []) md ∙ rw ((==_iff v i).1 p, same_text) refl)

      there : (v == i) ≡ false → find i (inst_step object v t md) ≡ find i md
      there b = by_class (object v)
        where
          by_class :
              (o : Object)
              → find i (elim o [ instruction ↦ assign v (md_string t ∷ []) md | _ ↦ md ])
                ≡ find i md
          by_class instruction = find-assign v i (md_string t ∷ []) md ∙ rw b refl
          by_class _ = refl

      step :
          ((v == i) ≡ true) ⊎ ((v == i) ≡ false)
          → (In (i, s) ((v, t) ∷ es) ⊎ (find i md ≡ some (md_string s ∷ [])))
          → In (i, s) es ⊎ (find i (inst_step object v t md) ≡ some (md_string s ∷ []))
      step (inl b) h = inr (here ((==_iff v i).0 b))
      step (inr b) (inr h) = inr (there b ∙ h)
      step (inr b) (inl (inr m)) = inl m
      step (inr b) (inl (inl e)) = absurd (differ (ap (λ (z : ℕ × Text). z.0) e))
        where
          differ : i ≡ v → ⊥
          differ p = ground (arith, ==_iff v i)
