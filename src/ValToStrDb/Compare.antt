-- ===== src/ValToStrDb/Compare.antt =====
-- `idMapEqual`: it tells whether two maps have the same entries.
use watts.Prelude.{
  ℕ, ◌≡◌, ◌↔◌, ◌∙◌, inl, inr, refl, sym, ap, Bool-cases, true, false, Option-cases, none, some, [],
  ◌∷◌, In, ◌==◌, ==_iff,
}
use watts.Prelude.Map.{Map, IsMap, find}
use watts.ValToStrDb.{contained, id_map_equal}
use watts.ValToStrDb.Texts.{Text, same}
use watts.ValToStrDb.Texts.Dict.{same_iff}

-- Every entry of the first is found in the second.
abbrev Within : Map Text → Map Text → Type 0
Within m n = (k : ℕ) (s : Text) → In (k, s) m → find k n ≡ some s

contained-Within : (m n : Map Text) → (contained m n ≡ true) ↔ Within m n
unfolding contained
contained-Within [] n = (λ h k s x. absurd x, λ h. refl)
contained-Within ((v, t) ∷ rest) n = elim (Option-cases (find v n)) [
  | inl e ↦ (
    λ h. absurd (no_truth (rw (e, contained) at h)),
    λ h. absurd (no_entry (sym e ∙ h v t (inl refl))),
  )
  | inr (u, e) ↦ elim (Bool-cases (same u t)) [
    | inr b ↦ (
      λ h. absurd (no_truth (rw (e, b, contained) at h)),
      λ h. absurd (differ (sym b ∙ (same_iff u t).1 (text_of (sym e ∙ h v t (inl refl))))),
    )
    | inl b ↦ (
      λ h k s x. elim x [
        | inl p ↦
            ap (λ (z : ℕ × Text). find z.0 n) p
            ∙ (e ∙ ap some ((same_iff u t).0 b ∙ ap (λ (z : ℕ × Text). z.1) (sym p)))
        | inr y ↦ (contained-Within rest n).0 (rw (e, b, contained) at h) k s y
      ],
      λ h. rw (e, b, contained) ((contained-Within rest n).1 (λ k s x. h k s (inr x))),
    )
  ]
]
  where
    no_truth : ¬ (false ≡ true)
    no_truth x = cc

    differ : ¬ (false ≡ true)
    differ x = cc

    no_entry : {s : Text} → ¬ (none ≡ some s)
    no_entry x = cc

    text_of : {a b : Text} → some a ≡ some b → a ≡ b
    text_of z = cc

pub find-In : (k : ℕ) (s : Text) (m : Map Text) → find k m ≡ some s → In (k, s) m
unfolding find
find-In k s [] h = cc
find-In k s ((j, t) ∷ m) h = elim (Bool-cases (j == k)) [
  | inl b ↦ inl (pair ((==_iff j k).0 b) (text_of (rw (b, find) at h)))
  | inr b ↦ inr (find-In k s m (rw (b, find) at h))
]
  where
    text_of : some t ≡ some s → t ≡ s
    text_of z = cc

    pair : j ≡ k → t ≡ s → ◌≡◌ {A = ℕ × Text} (k, s) (j, t)
    pair p q = cc

-- For maps in which no key has two entries, `idMapEqual` returns true exactly when every value has the
-- same identifier in both, or none in either.
pub id_map_equal_iff :
    (m n : Map Text)
    → IsMap m
    → IsMap n
    → (id_map_equal m n ≡ true) ↔ ((k : ℕ) → find k m ≡ find k n)
unfolding id_map_equal
id_map_equal_iff m n x y = (
  λ h. elim (Bool-cases (contained m n)) [
    | inr b ↦ absurd (no_truth (rw b at h))
    | inl b ↦ λ k. both k ((contained-Within m n).0 b) ((contained-Within n m).0 (rw b at h))
  ],
  λ h.
      rw ((contained-Within m n).1 (λ k s i. sym (h k) ∙ x k s i))
        ((contained-Within n m).1 (λ k s i. h k ∙ y k s i)),
)
  where
    no_truth : ¬ (false ≡ true)
    no_truth z = cc

    both : (k : ℕ) → Within m n → Within n m → find k m ≡ find k n
    both k p q = elim (Option-cases (find k m)) [
      | inr (s, e) ↦ e ∙ sym (p k s (find-In k s m e))
      | inl e ↦ elim (Option-cases (find k n)) [
        | inl f ↦ e ∙ sym f
        | inr (s, f) ↦ q k s (find-In k s n f) ∙ sym f
      ]
    ]
