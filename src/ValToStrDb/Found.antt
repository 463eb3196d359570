-- ===== src/ValToStrDb/Found.antt =====
-- `saveAndGetIntID`: it returns for every value that it handles, and its numbers tell values apart.
use watts.Prelude.{
  ℕ, zero, suc, ◌<◌, ◌≡◌, ◌≢◌, inl, inr, refl, ap, Bool-cases, true, false, Result, ok, arith,
  ◌>>=◌,
}
use watts.Llvm.Const.{signed}
use watts.ValToStrDb.{
  Db, Object, instruction, global_variable, function, constant_null, other_constant, other_value,
  argument, constant_int, constant_expr, get_str, save_value, save_resolved, resolve,
  save_and_get_id, save_and_get_int_id, get_value_or_null_of_int,
}
use watts.ValToStrDb.Texts.{Text, Ty, to_string_signed}
use watts.ValToStrDb.Texts.Digits.{last_of, last_of-append}
use watts.ValToStrDb.WellFormed.{IsDb, Extends, HasRoom}
use watts.ValToStrDb.Ids.{is_literal, found_again, save_value-ok, int_of_saved, int_of_literal}

pub Extends-trans : (a b c : Db) → Extends a b → Extends b c → Extends a c
Extends-trans a b c p q = record {
  ids = λ v s h. q.ids v s (p.ids v s h);
  ints = λ s i h. q.ints s i (p.ints s i h);
}

get_str-letter :
    (o : Object) → is_literal o ≡ true → (s : Text) × (get_str o ≡ ok s) × (b'9' < last_of s)
unfolding get_str
get_str-letter constant_null h = (_, refl, omega arith)
get_str-letter (constant_int w u) h =
    (_, refl, rw (last_of-append (to_string_signed (signed w u)) b'C' _) (omega arith))
get_str-letter instruction h = cc
get_str-letter global_variable h = cc
get_str-letter function h = cc
get_str-letter other_constant h = cc
get_str-letter other_value h = cc
get_str-letter (argument f p) h = cc
get_str-letter (constant_expr e) h = cc

module _ (object : ℕ → Object) (type_of : ℕ → Ty) where
  -- What the code handles: a value, or the value that a constant expression uses.
  abbrev pub Handled : ℕ → ℕ → Type 0
  Handled v r = (v ≢ 0) × (resolve object v ≡ ok r) × (object r ≢ other_value)

  save_resolved-value :
      (r : ℕ) (db : Db)
      → is_literal (object r) ≡ false
      → object r ≢ other_value
      → save_resolved object type_of r db ≡ save_value object type_of r db
  unfolding save_resolved
  save_resolved-value r db h n = by_class (object r) refl
    where
      by_class :
          (o : Object)
          → object r ≡ o
          → save_resolved object type_of r db ≡ save_value object type_of r db
      by_class instruction e = rw (e, save_resolved) refl
      by_class global_variable e = rw (e, save_resolved) refl
      by_class function e = rw (e, save_resolved) refl
      by_class other_constant e = rw (e, save_resolved) refl
      by_class (argument f p) e = rw (e, save_resolved) refl
      by_class (constant_expr x) e = rw (e, save_resolved) refl
      by_class other_value e = absurd (n e)
      by_class constant_null e = absurd (literal (rw e at h))
        where
          literal : ¬ (true ≡ false)
          literal x = cc
      by_class (constant_int w u) e = absurd (literal (rw e at h))
        where
          literal : ¬ (true ≡ false)
          literal x = cc

  save_resolved-literal :
      (r : ℕ) (db : Db) (s : Text)
      → is_literal (object r) ≡ true
      → get_str (object r) ≡ ok s
      → save_resolved object type_of r db ≡ ok (db, s)
  unfolding save_resolved
  save_resolved-literal r db s h g = by_class (object r) refl
    where
      no_literal : ¬ (false ≡ true)
      no_literal x = cc

      by_class : (o : Object) → object r ≡ o → save_resolved object type_of r db ≡ ok (db, s)
      by_class constant_null e =
          rw (e, save_resolved) (ap (λ (x : Result Text). x >>= (λ s. ok (db, s))) (rw e at g))
      by_class (constant_int w u) e =
          rw (e, save_resolved) (ap (λ (x : Result Text). x >>= (λ s. ok (db, s))) (rw e at g))
      by_class instruction e = absurd (no_literal (rw e at h))
      by_class global_variable e = absurd (no_literal (rw e at h))
      by_class function e = absurd (no_literal (rw e at h))
      by_class other_constant e = absurd (no_literal (rw e at h))
      by_class (argument f p) e = absurd (no_literal (rw e at h))
      by_class (constant_expr x) e = absurd (no_literal (rw e at h))
      by_class other_value e = absurd (no_literal (rw e at h))

  save_and_get_id-resolved :
      (v r : ℕ) (db : Db)
      → Handled v r
      → save_and_get_id object type_of v db ≡ save_resolved object type_of r db
  unfolding save_and_get_id
  save_and_get_id-resolved zero r db (n, e, x) = absurd (n refl)
  save_and_get_id-resolved (suc v) r db (n, e, x) = rw (e, save_and_get_id) refl

  -- From a well-formed data base with room for one more number, `saveAndGetIntID` returns for every
  -- value that it handles. The data base that it leaves is well formed and keeps every identifier and
  -- every number; from the number of a literal no value is found, and from any other number the value
  -- itself, or the one that the constant expression uses.
  pub save_and_get_int_id-IsDb :
      (v r : ℕ) (db : Db)
      → IsDb db
      → HasRoom db
      → Handled v r
      → (next : Db) × (i : ℕ) × (save_and_get_int_id object type_of v db ≡ ok (next, i))
        × IsDb next
        × Extends db next
        × (get_value_or_null_of_int i next ≡ found_again object r)
  unfolding save_and_get_int_id
  save_and_get_int_id-IsDb v r db d room h = elim (Bool-cases (is_literal (object r))) [
    | inl b ↦
        let (s, g, l) = get_str-letter (object r) b in
        let (next, i, p, n, x, k, f) = int_of_literal db s d room l in
        (
          next,
          i,
          rw
              (
                save_and_get_id-resolved v r db h,
                save_resolved-literal r db s b g,
                save_and_get_int_id,
              )
              p,
          n,
          x,
          rw (b, found_again) f,
        )
    | inr b ↦
        let (next, s, p, n, x, f) = save_value-ok object type_of db d room r in
        let (i, q, g) = int_of_saved next r s n f in
        (
          next,
          i,
          rw
              (
                save_and_get_id-resolved v r db h,
                save_resolved-value r db b h.2,
                p,
                save_and_get_int_id,
              )
              q,
          n,
          x,
          rw (b, found_again) g,
        )
  ]
