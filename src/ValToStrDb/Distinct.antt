-- ===== src/ValToStrDb/Distinct.antt =====
-- The numbers of `saveAndGetIntID` tell values apart.
use watts.Prelude.{
  ℕ, ◌≡◌, ◌↔◌, ◌∙◌, inl, inr, refl, sym, ap, subst, false, Option-cases, none, some, ok,
}
use watts.Prelude.Map.{find}
use watts.ValToStrDb.{Db, Object, save_and_get_int_id, get_value_or_null_of_int}
use watts.ValToStrDb.Texts.{Text, Ty}
use watts.ValToStrDb.Texts.Dict.{lookup}
use watts.ValToStrDb.WellFormed.{IsDb, Extends, HasRoom}
use watts.ValToStrDb.Ids.{is_literal, found_again}
use watts.ValToStrDb.Found.{Handled, save_and_get_int_id-IsDb}

-- The identifier behind a number from which a value is found.
of_found :
    (db : Db) (i v : ℕ)
    → IsDb db
    → get_value_or_null_of_int i db ≡ some v
    → (t : Text) × (find v db.id_map ≡ some t) × (lookup t db.str_id_to_int ≡ some i)
unfolding get_value_or_null_of_int
of_found db i v d h = elim (Option-cases (find i db.rev_str_id_to_int)) [
  | inl n ↦ absurd (nothing (rw (n, get_value_or_null_of_int) at h))
  | inr (t, q) ↦ (t, d.of_rev v t (rw (q, get_value_or_null_of_int) at h), d.of_int t i q)
]
  where
    nothing : ¬ (none ≡ some v)
    nothing e = cc

module _ (object : ℕ → Object) (type_of : ℕ → Ty) where
  pub of_run :
      (v r : ℕ) (db next : Db) (i : ℕ)
      → IsDb db
      → HasRoom db
      → Handled object type_of v r
      → is_literal (object r) ≡ false
      → save_and_get_int_id object type_of v db ≡ ok (next, i)
      → IsDb next
        × Extends db next
        × ((t : Text) × (find r next.id_map ≡ some t) × (lookup t next.str_id_to_int ≡ some i))
  of_run v r db next i d room h b e =
      let (n, j, p, good, x, f) = save_and_get_int_id-IsDb object type_of v r db d room h in
      let same : (n, j) ≡ (next, i) = cc in
      let good_next = subst (λ (q : Db × ℕ). IsDb q.0) same good in
      let f_next =
        subst (λ (q : Db × ℕ). get_value_or_null_of_int q.1 q.0 ≡ found_again object r) same f in
      (
        good_next,
        subst (λ (q : Db × ℕ). Extends db q.0) same x,
        of_found next i r good_next (f_next ∙ rw (b, found_again) refl),
      )

  -- Take two calls of `saveAndGetIntID`, one after the other, from a well-formed data base with room
  -- for the numbers, for values that are no literals. The numbers are equal exactly when the values
  -- are, where a constant expression counts as the value that it uses.
  pub save_and_get_int_id-distinct :
      (v r w q : ℕ) (db one two : Db) (i j : ℕ)
      → IsDb db
      → HasRoom db
      → HasRoom one
      → Handled object type_of v r
      → Handled object type_of w q
      → is_literal (object r) ≡ false
      → is_literal (object q) ≡ false
      → save_and_get_int_id object type_of v db ≡ ok (one, i)
      → save_and_get_int_id object type_of w one ≡ ok (two, j)
      → (i ≡ j) ↔ (r ≡ q)
  save_and_get_int_id-distinct v r w q db one two i j d room room_one h k b c e f =
      let (good, x, (t, ft, it)) = of_run v r db one i d room h b e in
      let (good_two, y, (u, fu, iu)) = of_run w q one two j good room_one k c f in
      let ft_two = y.ids r t ft in
      let it_two = y.ints t i it in
      (
        λ p.
            let same_text = good_two.int_distinct t u j (it_two ∙ ap some p) iu in
            value_of (
              sym (good_two.rev_of r t ft_two)
              ∙ (ap (λ (z : Text). lookup z two.rev_id_map) same_text ∙ good_two.rev_of q u fu)),
        λ p.
            let same_text = text_of (sym ft_two ∙ (ap (λ (z : ℕ). find z two.id_map) p ∙ fu)) in
            value_of (sym it_two ∙ (ap (λ (z : Text). lookup z two.str_id_to_int) same_text ∙ iu)),
      )
    where
      value_of : {a b : ℕ} → some a ≡ some b → a ≡ b
      value_of z = cc

      text_of : {a b : Text} → some a ≡ some b → a ≡ b
      text_of z = cc
