-- ===== src/ValToStrDb/Ids.antt =====
-- `saveAndGetID` and `saveAndGetIntID`: the identifiers of values, and the values of identifiers.
use native.Mathlib.Nat.{mod-eq_of_lt}
use watts.Prelude.{
  ℕ, ◌<◌, ◌≡◌, ◌⊎◌, ◌∙◌, inl, inr, refl, sym, Bool, true, false, Option, Option-cases, none, some,
  [], ◌∷◌, ◌++◌, length, ok, arith,
}
use watts.Prelude.Map.{find}
use watts.ValToStrDb.{
  Db, unsigned_mod, Object, instruction, global_variable, function, constant_null, other_constant,
  other_value, argument, constant_int, constant_expr, get_str, map_insert, new_id, save_value,
  save_resolved, resolve, save_and_get_id, save_and_get_int_id_of, save_and_get_int_id,
  get_value_or_null_of_int, null_str, const_int_suffix,
}
use watts.ValToStrDb.Texts.{Text, same, Ty, pointer_to, other_type, stars, to_string}
use watts.ValToStrDb.Texts.Dict.{lookup, set_at, same_iff, lookup-set_at, length-set_at}
use watts.ValToStrDb.Texts.Digits.{number_in-id, last_of, last_of-id, IsDigit}
use watts.ValToStrDb.WellFormed.{IsDb, Extends, HasRoom, map_insert-ok}

-- The classes of values that have a text of their own, and no entry.
abbrev pub is_literal : Object → Bool
is_literal (constant_int w u) = true
is_literal constant_null = true
is_literal _ = false

pub Extends-refl : (db : Db) → Extends db db
Extends-refl db = record { ids = λ v s h. h; ints = λ s i h. h }

-- What is found again from the number of a value.
abbrev pub found_again : (ℕ → Object) → ℕ → Option ℕ
found_again object r = elim (is_literal (object r)) [ true ↦ none | false ↦ some r ]

module _ (object : ℕ → Object) (type_of : ℕ → Ty) where
  new_id-ok : (v n : ℕ) → (t : Ty) × (new_id object type_of v n ≡ ok (stars t ++ to_string n))
  unfolding new_id watts.ValToStrDb.Texts.is_pointer_ty watts.ValToStrDb.Texts.get_stars stars
  new_id-ok v n = by_type (type_of v) refl
    where
      by_type :
          (t : Ty)
          → type_of v ≡ t
          → (t : Ty) × (new_id object type_of v n ≡ ok (stars t ++ to_string n))
      by_type (pointer_to t) e = (pointer_to t, rw (e, new_id) refl)
      by_type other_type e = (other_type, rw (e, new_id) refl)

  module _ (db : Db) (d : IsDb db) (room : HasRoom db) where
    pub save_value-ok :
        (v : ℕ)
        → (next : Db) × (s : Text) × (save_value object type_of v db ≡ ok (next, s))
          × IsDb next
          × Extends db next
          × (find v next.id_map ≡ some s)
    unfolding save_value
    save_value-ok v = elim (Option-cases (find v db.id_map)) [
      | inr (s, h) ↦ (db, s, rw (h, save_value) refl, d, Extends-refl db, h)
      | inl h ↦
          let (t, e) = new_id-ok v (length db.id_map) in
          let s = stars t ++ to_string (length db.id_map) in
          let (next, p, n, x, f) =
            map_insert-ok db d v s h (number_in-id t (length db.id_map))
              (last_of-id t (length db.id_map)) room in
          (next, s, rw (h, e, p, save_value) refl, n, x, f)
    ]

-- The text of a saved value has a number, from which the value is found.
pub int_of_saved :
    (db : Db) (v : ℕ) (s : Text)
    → IsDb db
    → find v db.id_map ≡ some s
    → (i : ℕ) × (save_and_get_int_id_of s db ≡ ok (db, i))
      × (get_value_or_null_of_int i db ≡ some v)
unfolding save_and_get_int_id_of get_value_or_null_of_int
int_of_saved db v [] d h = absurd (omega (arith, (d.ends v [] h).0))
int_of_saved db v (c ∷ s) d h =
    let (i, p, q) = d.int_of v (c ∷ s) h in
    (
      i,
      rw (p, save_and_get_int_id_of) refl,
      rw (q, get_value_or_null_of_int) (d.rev_of v (c ∷ s) h),
    )

-- A text that ends in no digit stands for no value.
no_value :
    (db : Db) (s : Text) (i : ℕ)
    → IsDb db
    → lookup s db.str_id_to_int ≡ some i
    → b'9' < last_of s
    → get_value_or_null_of_int i db ≡ none
unfolding get_value_or_null_of_int
no_value db s i d h l = elim (Option-cases (find i db.rev_str_id_to_int)) [
  | inl n ↦ rw (n, get_value_or_null_of_int) refl
  | inr (t, q) ↦ elim (Option-cases (lookup t db.rev_id_map)) [
    | inl n ↦ rw (q, get_value_or_null_of_int) n
    | inr (v, r) ↦
        let same_text = d.int_distinct t s i (d.of_int t i q) h in
        absurd (ends_in (rw same_text at (d.ends v t (d.of_rev v t r))))
  ]
]
  where
    ends_in : ¬ IsDigit (last_of s)
    ends_in e = omega (arith, e.1)

module _ (db : Db) (d : IsDb db) (room : HasRoom db) (s : Text) (letter : b'9' < last_of s)
    (absent : lookup s db.str_id_to_int ≡ none) where
  abbrev numbered : Db
  numbered = record db { str_id_to_int = set_at s (length db.str_id_to_int) db.str_id_to_int }

  numbered_cases :
      (t : Text) (i : ℕ)
      → lookup t numbered.str_id_to_int ≡ some i
      → ((s ≡ t) × (length db.str_id_to_int ≡ i)) ⊎ (lookup t db.str_id_to_int ≡ some i)
  numbered_cases t i h =
      ground (arith, lookup-set_at s t (length db.str_id_to_int) db.str_id_to_int, same_iff s t)

  numbered_kept :
      (t : Text) (i : ℕ)
      → lookup t db.str_id_to_int ≡ some i
      → lookup t numbered.str_id_to_int ≡ some i
  numbered_kept t i h =
      ground
        (arith, lookup-set_at s t (length db.str_id_to_int) db.str_id_to_int, same_iff s t, absent)

  numbered-IsDb : IsDb numbered
  numbered-IsDb = record {
    entries = d.entries;
    rev_of = d.rev_of;
    of_rev = d.of_rev;
    number_bounded = d.number_bounded;
    ends = d.ends;
    int_of = λ v t h. let (i, p, q) = d.int_of v t h in (i, numbered_kept t i p, q);
    int_bounded = λ t i h.
        rw (length-set_at s (length db.str_id_to_int) db.str_id_to_int absent)
          (elim (numbered_cases t i h) [
            | inl (p, q) ↦ omega arith
            | inr k ↦ omega (arith, d.int_bounded t i k)
          ]);
    int_distinct = λ t u i h k. elim (numbered_cases t i h) [
      | inl (p, q) ↦ elim (numbered_cases u i k) [
        | inl (p', q') ↦ sym p ∙ p'
        | inr x ↦ absurd (omega (arith, d.int_bounded u i x))
      ]
      | inr x ↦ elim (numbered_cases u i k) [
        | inl (p', q') ↦ absurd (omega (arith, d.int_bounded t i x))
        | inr y ↦ d.int_distinct t u i x y
      ]
    ];
    of_int = λ t i h. numbered_kept t i (d.of_int t i h);
    known = λ t i h. elim (numbered_cases t i h) [
      | inl (p, q) ↦ inr (rw (sym p) letter)
      | inr k ↦ d.known t i k
    ];
  }

  numbered_here : lookup s numbered.str_id_to_int ≡ some (length db.str_id_to_int)
  numbered_here =
      ground (arith, lookup-set_at s s (length db.str_id_to_int) db.str_id_to_int, same_iff s s)

-- The text of a literal gets a number, from which no value is found.
pub int_of_literal :
    (db : Db) (s : Text)
    → IsDb db
    → HasRoom db
    → b'9' < last_of s
    → (next : Db) × (i : ℕ) × (save_and_get_int_id_of s db ≡ ok (next, i))
      × IsDb next
      × Extends db next
      × (lookup s next.str_id_to_int ≡ some i)
      × (get_value_or_null_of_int i next ≡ none)
unfolding save_and_get_int_id_of
int_of_literal db [] d room l = absurd (omega arith)
int_of_literal db (c ∷ s) d room l = elim (Option-cases (lookup (c ∷ s) db.str_id_to_int)) [
  | inr (i, h) ↦ (
    db,
    i,
    rw (h, save_and_get_int_id_of) refl,
    d,
    Extends-refl db,
    h,
    no_value db (c ∷ s) i d h l,
  )
  | inl h ↦
      let next = numbered db d room (c ∷ s) l h in
      let good = numbered-IsDb db d room (c ∷ s) l h in
      let here = numbered_here db d room (c ∷ s) l h in
      (
        next,
        length db.str_id_to_int,
        rw (h, mod-eq_of_lt room, save_and_get_int_id_of) refl,
        good,
        record { ids = λ v t k. k; ints = numbered_kept db d room (c ∷ s) l h },
        here,
        no_value next (c ∷ s) (length db.str_id_to_int) good here l,
      )
]
