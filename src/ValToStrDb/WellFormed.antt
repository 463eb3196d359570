-- ===== src/ValToStrDb/WellFormed.antt =====
-- What the data base keeps true of its four maps.
use native.Mathlib.Nat.{mod-eq_of_lt}
use watts.Prelude.{
  ℕ, ◌<◌, ◌≡◌, ◌≢◌, ◌⊎◌, ◌∙◌, inl, inr, refl, sym, subst, ◌==◌, ==_iff, ==_refl, Bool-cases,
  Option-cases, none, some, length, ok, arith,
}
use watts.Prelude.Map.{IsMap, find, assign, find-assign, assign-IsMap, length-assign}
use watts.ValToStrDb.{Db, map_insert, unsigned_mod}
use watts.ValToStrDb.Texts.{Text, same}
use watts.ValToStrDb.Texts.Dict.{lookup, set_at, same_iff, lookup-set_at, length-set_at}
use watts.ValToStrDb.Texts.Digits.{number_in, last_of, IsDigit}

pub record IsDb (db : Db) : Type 0 where
  pub entries : IsMap db.id_map
  -- the identifiers and their values
  pub rev_of : (v : ℕ) (s : Text) → find v db.id_map ≡ some s → lookup s db.rev_id_map ≡ some v
  pub of_rev : (v : ℕ) (s : Text) → lookup s db.rev_id_map ≡ some v → find v db.id_map ≡ some s
  -- an identifier ends in a number below the size
  pub number_bounded :
      (v : ℕ) (s : Text) → find v db.id_map ≡ some s → number_in s < length db.id_map
  pub ends : (v : ℕ) (s : Text) → find v db.id_map ≡ some s → IsDigit (last_of s)
  -- its number, and back
  pub int_of :
      (v : ℕ) (s : Text)
      → find v db.id_map ≡ some s
      → (i : ℕ) × (lookup s db.str_id_to_int ≡ some i) × (find i db.rev_str_id_to_int ≡ some s)
  pub int_bounded :
      (s : Text) (i : ℕ) → lookup s db.str_id_to_int ≡ some i → i < length db.str_id_to_int
  pub int_distinct :
      (s t : Text) (i : ℕ)
      → lookup s db.str_id_to_int ≡ some i
      → lookup t db.str_id_to_int ≡ some i
      → s ≡ t
  pub of_int :
      (s : Text) (i : ℕ) → find i db.rev_str_id_to_int ≡ some s → lookup s db.str_id_to_int ≡ some i
  -- a text with a number is an identifier, or ends in what is no digit
  pub known :
      (s : Text) (i : ℕ)
      → lookup s db.str_id_to_int ≡ some i
      → ((v : ℕ) × (find v db.id_map ≡ some s)) ⊎ (b'9' < last_of s)

-- The later data base says the same of what the earlier one knows.
pub record Extends (db next : Db) : Type 0 where
  pub ids : (v : ℕ) (s : Text) → find v db.id_map ≡ some s → find v next.id_map ≡ some s
  pub ints :
      (s : Text) (i : ℕ) → lookup s db.str_id_to_int ≡ some i → lookup s next.str_id_to_int ≡ some i

-- Room for one more number.
abbrev pub HasRoom : Db → Type 0
HasRoom db = length db.str_id_to_int < unsigned_mod

module _ (db : Db) (d : IsDb db) (v : ℕ) (s : Text) (absent : find v db.id_map ≡ none)
    (number : number_in s ≡ length db.id_map) (digit : IsDigit (last_of s))
    (room : HasRoom db) where
  open d use {
    entries, rev_of, of_rev, number_bounded, ends, int_of, int_bounded, int_distinct, of_int, known,
  }

  fresh : (w : ℕ) → find w db.id_map ≢ some s
  fresh w h = omega (arith, number_bounded w s h)

  not_reversed : lookup s db.rev_id_map ≡ none
  not_reversed = elim (Option-cases (lookup s db.rev_id_map)) [
    | inl n ↦ n
    | inr (w, h) ↦ absurd (fresh w (of_rev w s h))
  ]

  not_numbered : lookup s db.str_id_to_int ≡ none
  not_numbered = elim (Option-cases (lookup s db.str_id_to_int)) [
    | inl n ↦ n
    | inr (i, h) ↦ elim (known s i h) [
      | inl (w, k) ↦ absurd (fresh w k)
      | inr k ↦ absurd (omega (arith, digit.1))
    ]
  ]

  abbrev inserted : Db
  inserted = record {
    id_map = assign v s db.id_map;
    rev_id_map = set_at s v db.rev_id_map;
    str_id_to_int = set_at s (length db.str_id_to_int) db.str_id_to_int;
    rev_str_id_to_int = assign (length db.str_id_to_int) s db.rev_str_id_to_int;
  }

  id_cases :
      (w : ℕ) (t : Text)
      → find w inserted.id_map ≡ some t
      → ((v ≡ w) × (s ≡ t)) ⊎ (find w db.id_map ≡ some t)
  id_cases w t h = ground (arith, find-assign v w s db.id_map, ==_iff v w)

  int_cases :
      (t : Text) (i : ℕ)
      → lookup t inserted.str_id_to_int ≡ some i
      → ((s ≡ t) × (length db.str_id_to_int ≡ i)) ⊎ (lookup t db.str_id_to_int ≡ some i)
  int_cases t i h =
      ground (arith, lookup-set_at s t (length db.str_id_to_int) db.str_id_to_int, same_iff s t)

  id_here : find v inserted.id_map ≡ some s
  id_here = ground (arith, find-assign v v s db.id_map, ==_refl v)

  int_here : lookup s inserted.str_id_to_int ≡ some (length db.str_id_to_int)
  int_here =
      ground (arith, lookup-set_at s s (length db.str_id_to_int) db.str_id_to_int, same_iff s s)

  id_kept : (w : ℕ) (t : Text) → find w db.id_map ≡ some t → find w inserted.id_map ≡ some t
  id_kept w t h = ground (arith, find-assign v w s db.id_map, ==_iff v w, absent)

  int_kept :
      (t : Text) (i : ℕ)
      → lookup t db.str_id_to_int ≡ some i
      → lookup t inserted.str_id_to_int ≡ some i
  int_kept t i h = ground (
    arith,
    lookup-set_at s t (length db.str_id_to_int) db.str_id_to_int,
    same_iff s t,
    not_numbered,
  )

  rev_int_kept :
      (t : Text) (i : ℕ)
      → lookup t db.str_id_to_int ≡ some i
      → find i db.rev_str_id_to_int ≡ some t
      → find i inserted.rev_str_id_to_int ≡ some t
  rev_int_kept t i h k = ground (
    arith,
    find-assign (length db.str_id_to_int) i s db.rev_str_id_to_int,
    ==_iff (length db.str_id_to_int) i,
    int_bounded t i h,
  )

  inserted-IsDb : IsDb inserted
  inserted-IsDb = record {
    entries = assign-IsMap v s db.id_map absent entries;
    rev_of = λ w t h. elim (id_cases w t h) [
      | inl (p, q) ↦ ground (arith, lookup-set_at s t v db.rev_id_map, same_iff s t)
      | inr k ↦
          ground
            (arith, lookup-set_at s t v db.rev_id_map, same_iff s t, rev_of w t k, not_reversed)
    ];
    of_rev = λ w t h. elim (Bool-cases (same s t)) [
      | inl b ↦ ground (
        arith,
        lookup-set_at s t v db.rev_id_map,
        same_iff s t,
        find-assign v w s db.id_map,
        ==_iff v w,
      )
      | inr b ↦ id_kept w t (of_rev w t (ground (arith, lookup-set_at s t v db.rev_id_map)))
    ];
    number_bounded = λ w t h. rw (length-assign v s db.id_map absent) (elim (id_cases w t h) [
      | inl (p, q) ↦ rw (sym q) (omega arith)
      | inr k ↦ omega (arith, number_bounded w t k)
    ]);
    ends = λ w t h. elim (id_cases w t h) [ inl (p, q) ↦ rw (sym q) digit | inr k ↦ ends w t k ];
    int_of = λ w t h. elim (id_cases w t h) [
      | inl (p, q) ↦ (
        length db.str_id_to_int,
        rw (sym q) int_here,
        rw (sym q) (
            ground (
              arith,
              find-assign (length db.str_id_to_int) (length db.str_id_to_int) s
                  db.rev_str_id_to_int,
              ==_refl (length db.str_id_to_int),
            )),
      )
      | inr k ↦ let (i, x, y) = int_of w t k in (i, int_kept t i x, rev_int_kept t i x y)
    ];
    int_bounded = λ t i h.
        rw (length-set_at s (length db.str_id_to_int) db.str_id_to_int not_numbered)
          (elim (int_cases t i h) [
            | inl (p, q) ↦ omega arith
            | inr k ↦ omega (arith, int_bounded t i k)
          ]);
    int_distinct = λ t u i h k. elim (int_cases t i h) [
      | inl (p, q) ↦ elim (int_cases u i k) [
        | inl (p', q') ↦ sym p ∙ p'
        | inr x ↦ absurd (omega (arith, int_bounded u i x))
      ]
      | inr x ↦ elim (int_cases u i k) [
        | inl (p', q') ↦ absurd (omega (arith, int_bounded t i x))
        | inr y ↦ int_distinct t u i x y
      ]
    ];
    of_int = λ t i h. elim (Bool-cases (length db.str_id_to_int == i)) [
      | inl b ↦ ground (
        arith,
        find-assign (length db.str_id_to_int) i s db.rev_str_id_to_int,
        ==_iff (length db.str_id_to_int) i,
        int_here,
      )
      | inr b ↦ int_kept t i (
          of_int t i
            (ground (arith, find-assign (length db.str_id_to_int) i s db.rev_str_id_to_int)))
    ];
    known = λ t i h. elim (int_cases t i h) [
      | inl (p, q) ↦ inl (v, subst (λ (x : Text). find v inserted.id_map ≡ some x) p id_here)
      | inr k ↦ elim (known t i k) [ inl (w, x) ↦ inl (w, id_kept w t x) | inr x ↦ inr x ]
    ];
  }

  pub map_insert-ok :
      (next : Db) × (map_insert v s db ≡ ok next)
      × IsDb next
      × Extends db next
      × (find v next.id_map ≡ some s)
  unfolding map_insert
  map_insert-ok = (
    inserted,
    rw (absent, not_reversed, not_numbered, mod-eq_of_lt room, map_insert) refl,
    inserted-IsDb,
    record { ids = id_kept; ints = int_kept },
    id_here,
  )
