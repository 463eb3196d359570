-- ===== src/ValToStrDb/Metadata/Parse.antt =====
-- What `parseIDMapFromModule` reads: the loops over operands, and the loop over instructions.
use watts.Prelude.{
  ℕ, ◌≡◌, ◌⊎◌, ◌∙◌, inl, inr, refl, sym, ap, subst, ==_iff, ==_refl, Bool-cases, true, false, Bool,
  Option, none, some, List, [], ◌∷◌, ◌++◌, In, Result, ok, arith,
}
use watts.Prelude.Map.{Map, find, assign, find-assign}
use watts.ValToStrDb.{Object}
use watts.ValToStrDb.Texts.{Text}
use watts.ValToStrDb.Metadata.Dump.{ops_of}
use watts.ValToStrDb.Metadata.{
  Operand, md_string, Function, not_empty, parse_inst, parse_insts, parse_functions,
}

-- The text of a value of the data base is not empty.
abbrev pub NotEmpty : Text → Type 0
NotEmpty s = not_empty s ≡ ok s

-- What the second map finds where the first finds something.
abbrev pub Kept : Map Text → Map Text → Type 0
Kept a b = (v : ℕ) (s : Text) → find v a ≡ some s → find v b ≡ some s

module _ (id_map : Map Text) where
  -- What was read is in the data base.
  abbrev pub Sound : Map Text → Type 0
  Sound ret = Kept ret id_map

  -- A sound map after more was read.
  abbrev pub Grown : Map Text → Map Text → Type 0
  Grown ret next = Sound next × Kept ret next

  pub Grown-trans : (a b c : Map Text) → Grown a b → Grown b c → Grown a c
  Grown-trans a b c (s, p) (t, q) = (t, λ v x h. q v x (p v x h))

  assign-Grown :
      (v : ℕ) (s : Text) (ret : Map Text)
      → Sound ret
      → find v id_map ≡ some s
      → Grown ret (assign v s ret) × (find v (assign v s ret) ≡ some s)
  assign-Grown v s ret sound f = (
    (
      λ w t h. ground (arith, find-assign v w s ret, ==_iff v w, sound w t),
      λ w t h. ground (arith, find-assign v w s ret, ==_iff v w, sound w t),
    ),
    ground (arith, find-assign v v s ret, ==_refl v),
  )

  -- A parser that reads what is written for the entries of one class of values.
  module _ (parse : List Operand → Map Text → Result (Map Text)) (ops : ℕ → Text → List Operand)
      (is_kind : ℕ → Bool) (Fine : ℕ → Text → Type 0)
      (at_end : (ret : Map Text) → parse [] ret ≡ ok ret)
      (reads : (v : ℕ) (s : Text) (rest : List Operand) (ret : Map Text)
        → Fine v s
        → is_kind v ≡ true
        → parse (ops v s ++ rest) ret ≡ parse rest (assign v s ret))
      (skips : (v : ℕ) (s : Text) → is_kind v ≡ false → ops v s ≡ []) where
    pub parse-written :
        (es : List (ℕ × Text)) (ret : Map Text)
        → ((v : ℕ) (s : Text) → In (v, s) es → Fine v s × (find v id_map ≡ some s))
        → Sound ret
        → (next : Map Text) × (parse (ops_of ops es) ret ≡ ok next)
          × Grown ret next
          × ((v : ℕ) (s : Text) → In (v, s) es → is_kind v ≡ true → find v next ≡ some s)
    parse-written [] ret fine sound = (ret, at_end ret, (sound, λ v s h. h), λ v s m k. absurd m)
    parse-written ((v, s) ∷ es) ret fine sound = elim (Bool-cases (is_kind v)) [
      | inl b ↦
          let (good, f) = fine v s (inl refl) in
          let (grown, here) = assign-Grown v s ret sound f in
          let (next, p, g, each) =
            parse-written es (assign v s ret) (λ w t m. fine w t (inr m)) grown.0 in
          (
            next,
            reads v s (ops_of ops es) ret good b ∙ p,
            Grown-trans ret (assign v s ret) next grown g,
            λ w t m k. elim m [ inl e ↦ at_pair w t e next (g.1 v s here) | inr x ↦ each w t x k ],
          )
      | inr b ↦
          let (next, p, g, each) = parse-written es ret (λ w t m. fine w t (inr m)) sound in
          (
            next,
            ap (λ (x : List Operand). parse (x ++ ops_of ops es) ret) (skips v s b) ∙ p,
            g,
            λ w t m k. elim m [ inl e ↦ absurd (differ w t e k b) | inr x ↦ each w t x k ],
          )
    ]
      where
        at_pair :
            (w : ℕ) (t : Text)
            → ◌≡◌ {A = ℕ × Text} (w, t) (v, s)
            → (next : Map Text) → find v next ≡ some s
            → find w next ≡ some t
        at_pair w t e next h = subst (λ (z : ℕ × Text). find z.0 next ≡ some z.1) (sym e) h

        differ :
            (w : ℕ) (t : Text)
            → ◌≡◌ {A = ℕ × Text} (w, t) (v, s)
            → is_kind w ≡ true
            → is_kind v ≡ false
            → ⊥
        differ w t e k b = absurd (clash (sym k ∙ (ap (λ (z : ℕ × Text). is_kind z.0) e ∙ b)))
          where
            clash : ¬ (true ≡ false)
            clash z = cc

  -- An instruction without a node, or with one that holds its text.
  abbrev pub Marked : Map (List Operand) → ℕ → Type 0
  Marked md i =
      (find i md ≡ none)
      ⊎ ((s : Text) × (find i md ≡ some (md_string s ∷ [])) × (find i id_map ≡ some s) × NotEmpty s)

  -- The texts of the instructions that have a node were read.
  abbrev ReadFrom : Map (List Operand) → List ℕ → Map Text → Type 0
  ReadFrom md insts next =
      (i : ℕ) (s : Text) → In i insts → find i md ≡ some (md_string s ∷ []) → find i next ≡ some s

  module _ (object : ℕ → Object) (md : Map (List Operand)) where
    parse_inst-ok :
        (i : ℕ) (ret : Map Text)
        → Marked md i
        → Sound ret
        → (next : Map Text) × (parse_inst object md i ret ≡ ok next)
          × Grown ret next
          × ((s : Text) → find i md ≡ some (md_string s ∷ []) → find i next ≡ some s)
    unfolding parse_inst watts.ValToStrDb.Metadata.as_string
    parse_inst-ok i ret (inl e) sound =
        (ret, rw (e, parse_inst) refl, (sound, λ v s h. h), λ s h. absurd (nothing s (sym e ∙ h)))
      where
        nothing : (s : Text) → ¬ (◌≡◌ {A = Option (List Operand)} none (some (md_string s ∷ [])))
        nothing s z = cc
    parse_inst-ok i ret (inr (s, e, f, n)) sound =
        let (grown, here) = assign-Grown i s ret sound f in
        (
          assign i s ret,
          rw (e, n, parse_inst) refl,
          grown,
          λ t h. here ∙ ap some (text_of t (sym e ∙ h)),
        )
      where
        text_of :
            (t : Text)
            → ◌≡◌ {A = Option (List Operand)} (some (md_string s ∷ [])) (some (md_string t ∷ []))
            → s ≡ t
        text_of t z = cc

    parse_insts-ok :
        (insts : List ℕ) (ret : Map Text)
        → ((i : ℕ) → In i insts → Marked md i)
        → Sound ret
        → (next : Map Text) × (parse_insts object md insts ret ≡ ok next)
          × Grown ret next
          × ReadFrom md insts next
    unfolding parse_insts
    parse_insts-ok [] ret marked sound = (ret, refl, (sound, λ v s h. h), λ i s m h. absurd m)
    parse_insts-ok (j ∷ insts) ret marked sound =
        let (one, p, g, here) = parse_inst-ok j ret (marked j (inl refl)) sound in
        let (next, q, k, each) = parse_insts-ok insts one (λ i m. marked i (inr m)) g.0 in
        (
          next,
          rw p q,
          Grown-trans ret one next g k,
          λ i s m h. elim m [
            | inl e ↦ k.1 i s (
                subst (λ (z : ℕ). find z one ≡ some s) (sym e)
                  (here s (subst (λ (z : ℕ). find z md ≡ some (md_string s ∷ [])) e h)))
            | inr x ↦ each i s x h
          ],
        )

    pub parse_functions-ok :
        (functions : List Function) (ret : Map Text)
        → ((f : Function) → In f functions → (i : ℕ) → In i f.insts → Marked md i)
        → Sound ret
        → (next : Map Text) × (parse_functions object md functions ret ≡ ok next)
          × Grown ret next
          × ((f : Function) → In f functions → ReadFrom md f.insts next)
    unfolding parse_functions
    parse_functions-ok [] ret marked sound = (ret, refl, (sound, λ v s h. h), λ f m. absurd m)
    parse_functions-ok (g ∷ functions) ret marked sound =
        let (one, p, k, here) = parse_insts-ok g.insts ret (marked g (inl refl)) sound in
        let (next, q, l, each) = parse_functions-ok functions one (λ f m. marked f (inr m)) k.0 in
        (
          next,
          rw p q,
          Grown-trans ret one next k l,
          λ f m. elim m [
            | inl e ↦ λ i s n h. l.1 i s (here i s (subst (λ (z : Function). In i z.insts) e n) h)
            | inr x ↦ each f x
          ],
        )
