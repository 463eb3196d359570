-- ===== src/ValToStrDb.antt =====
-- utils/ValToStrDB.cpp: the data base of identifiers. A value is its address, 0 for `NULL`; what LLVM
-- says of it, its class and its type, is a parameter.
pub mod Texts
pub mod WellFormed
pub mod Metadata
pub mod Ids
pub mod Found
pub mod Distinct
pub mod Compare
pub mod RoundTrip
use watts.Prelude.{
  ℕ, zero, suc, ◌%◌, ◌^◌, ◌==◌, Bool, true, false, if◌then◌else◌, Option, none, some, List, [], ◌∷◌,
  ◌++◌, length, Result, ok, err, assertion, undefined, ◌>>=◌,
}
use watts.Prelude.Map.{Map, find, assign}
use watts.Llvm.Const.{signed}
use watts.ValToStrDb.Texts.{Text, same, to_string, to_string_signed, Ty, is_pointer_ty, get_stars}
use watts.ValToStrDb.Texts.Dict.{Dict, lookup, set_at}

-- A constant expression as an instruction: what it computes an address from, or casts.
pub data Expr : Type 0 where
  gep cast_of : ℕ → Expr
  other_expr : Expr

-- The classes of values that the source tells apart. An argument has its function and its position, an
-- integer its width and its unsigned value.
pub data Object : Type 0 where
  instruction global_variable function constant_null other_constant other_value : Object
  argument : ℕ → ℕ → Object
  constant_int : ℕ → ℕ → Object
  constant_expr : Expr → Object

-- The four maps.
pub record Db : Type 0 where
  pub id_map : Map Text
  pub rev_id_map : Dict ℕ
  pub str_id_to_int : Dict ℕ
  pub rev_str_id_to_int : Map Text

-- An `unsigned`.
abbrev pub unsigned_mod : ℕ
unsigned_mod = 2 ^ 32

unfoldable pub get_const_expr_use : Expr → Result ℕ
get_const_expr_use (gep base) = ok base
get_const_expr_use (cast_of v) = ok v
get_const_expr_use other_expr = err undefined

-- `NULL_STR` and `CONST_INT_SUFFIX`
abbrev pub null_str : Text
null_str = b'N' ∷ b'U' ∷ b'L' ∷ b'L' ∷ []

abbrev pub const_int_suffix : Text
const_int_suffix = b'C' ∷ b'O' ∷ b'N' ∷ b'S' ∷ b'T' ∷ b'_' ∷ b'I' ∷ b'N' ∷ b'T' ∷ []

unfoldable pub get_str : Object → Result Text
unfolding to_string_signed signed
get_str constant_null = ok null_str
get_str (constant_int w u) = ok (to_string_signed (signed w u) ++ const_int_suffix)
get_str _ = err undefined

unfoldable pub map_insert : ℕ → Text → Db → Result Db
unfolding find assign lookup set_at
map_insert v s db = elim (find v db.id_map) [
  | some t ↦ err assertion
  | none ↦ elim (lookup s db.rev_id_map) [
    | some w ↦ err assertion
    | none ↦ elim (lookup s db.str_id_to_int) [
      | some i ↦ err assertion
      | none ↦
          let int_id = length db.str_id_to_int % unsigned_mod in
          ok (record {
            id_map = assign v s db.id_map;
            rev_id_map = set_at s v db.rev_id_map;
            str_id_to_int = set_at s int_id db.str_id_to_int;
            rev_str_id_to_int = assign int_id s db.rev_str_id_to_int;
          })
    ]
  ]
]

-- Only the map to numbers is updated here, not its reverse.
unfoldable pub save_and_get_int_id_of : Text → Db → Result (Db × ℕ)
unfolding lookup set_at
save_and_get_int_id_of [] db = err assertion
save_and_get_int_id_of (c ∷ s) db = elim (lookup (c ∷ s) db.str_id_to_int) [
  | some i ↦ ok (db, i)
  | none ↦
      let new_id = length db.str_id_to_int % unsigned_mod in
      ok (record db { str_id_to_int = set_at (c ∷ s) new_id db.str_id_to_int }, new_id)
]

unfoldable pub get_value_or_null : Text → Db → Option ℕ
unfolding lookup
get_value_or_null s db = lookup s db.rev_id_map

unfoldable pub get_value_or_null_of_int : ℕ → Db → Option ℕ
unfolding find lookup
get_value_or_null_of_int i db = elim (find i db.rev_str_id_to_int) [
  | none ↦ none
  | some s ↦ lookup s db.rev_id_map
]

module _ (object : ℕ → Object) where
  -- The value that a constant expression uses, once.
  unfoldable pub resolve : ℕ → Result ℕ
  unfolding get_const_expr_use
  resolve v = elim (object v) [ constant_expr e ↦ get_const_expr_use e | _ ↦ ok v ]

module _ (object : ℕ → Object) (type_of : ℕ → Ty) where
  -- What `saveAndGetID` does with a value that is no constant expression any more.
  unfoldable pub new_id : ℕ → ℕ → Result Text
  unfolding is_pointer_ty get_stars to_string
  new_id v id =
      if is_pointer_ty (type_of v)
      then (do stars ← get_stars (type_of v); ok (stars ++ to_string id))
      else ok (to_string id)

  unfoldable pub save_value : ℕ → Db → Result (Db × Text)
  unfolding find new_id map_insert
  save_value v db = elim (find v db.id_map) [
    | some s ↦ ok (db, s)
    | none ↦ do s ← new_id v (length db.id_map); next ← map_insert v s db; ok (next, s)
  ]

  unfoldable pub save_resolved : ℕ → Db → Result (Db × Text)
  unfolding save_value get_str
  save_resolved v db = elim (object v) [
    | other_value ↦ err undefined
    | constant_int w u ↦ (do s ← get_str (constant_int w u); ok (db, s))
    | constant_null ↦ (do s ← get_str constant_null; ok (db, s))
    | _ ↦ save_value v db
  ]

  unfoldable pub save_and_get_id : ℕ → Db → Result (Db × Text)
  unfolding resolve save_resolved
  save_and_get_id zero db = err assertion
  save_and_get_id (suc n) db = do v ← resolve object (suc n); save_resolved v db

  unfoldable pub save_and_get_int_id : ℕ → Db → Result (Db × ℕ)
  unfolding save_and_get_id save_and_get_int_id_of
  save_and_get_int_id v db = do (next, s) ← save_and_get_id v db; save_and_get_int_id_of s next

-- One of the two loops of `idMapEqual`.
unfoldable pub contained : Map Text → Map Text → Bool
unfolding find same
contained [] m = true
contained ((v, s) ∷ rest) m =
    let others = contained rest m in
    elim (find v m) [ none ↦ false | some t ↦ if same t s then others else false ]

unfoldable pub id_map_equal : Map Text → Map Text → Bool
unfolding contained
id_map_equal m1 m2 = if contained m1 m2 then contained m2 m1 else false
