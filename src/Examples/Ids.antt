-- ===== src/Examples/Ids.antt =====
-- The data base of identifiers, at concrete values: an instruction 5, which the constant expression 6
-- uses, the argument 7 of the function 9, and the integer constant 8.
use watts.Prelude.{
  ℕ, ◌≡◌, ◌⊎◌, ◌↔◌, ◌==◌, if◌then◌else◌, inl, inr, refl, sym, subst, true, false, some, none, List,
  [], ◌∷◌, In, ok, arith,
}
use watts.Prelude.Map.{Map, find}
use watts.ValToStrDb.{
  Db, Object, instruction, function, argument, constant_int, constant_expr, gep, other_value,
  save_and_get_int_id, get_value_or_null_of_int, resolve, id_map_equal,
}
use watts.ValToStrDb.Texts.{Text, Ty, pointer_to, other_type}
use watts.ValToStrDb.WellFormed.{IsDb, Extends, HasRoom}
use watts.ValToStrDb.Ids.{found_again}
use watts.ValToStrDb.Found.{Handled, save_and_get_int_id-IsDb}
use watts.ValToStrDb.Distinct.{of_run, save_and_get_int_id-distinct}
use watts.ValToStrDb.Compare.{id_map_equal_iff}
use watts.ValToStrDb.Metadata.{Function, Module, dump_id_map_to_module, parse_id_map_from_module}
use watts.ValToStrDb.Metadata.Classes.{Placed}
use watts.ValToStrDb.RoundTrip.{Fits, dump_parse_round_trip}

unfoldable objects : ℕ → Object
objects k =
    if k == 5
    then instruction
    else if k == 6
    then constant_expr (gep 5)
    else if k == 7
    then argument 9 0
    else if k == 8
    then constant_int 8 255
    else if k == 9
    then function
    else other_value

abbrev types : ℕ → Ty
types k = if k == 5 then pointer_to other_type else other_type

abbrev no_ids : Db
no_ids = record { id_map = []; rev_id_map = []; str_id_to_int = []; rev_str_id_to_int = [] }

no_ids-IsDb : IsDb no_ids
unfolding find watts.ValToStrDb.Texts.Dict.lookup
no_ids-IsDb = record {
  entries = λ k v m. absurd m;
  rev_of = λ v s h. cc;
  of_rev = λ v s h. cc;
  number_bounded = λ v s h. cc;
  ends = λ v s h. cc;
  int_of = λ v s h. cc;
  int_bounded = λ s i h. cc;
  int_distinct = λ s t i h k. cc;
  of_int = λ s i h. cc;
  known = λ s i h. cc;
}

-- "*0" and "1"
abbrev star_zero : Text
star_zero = b'*' ∷ b'0' ∷ []

abbrev one_id : Db
one_id = record {
  id_map = (5, star_zero) ∷ [];
  rev_id_map = (star_zero, 5) ∷ [];
  str_id_to_int = (star_zero, 0) ∷ [];
  rev_str_id_to_int = (0, star_zero) ∷ [];
}

abbrev two_ids : Db
two_ids = record {
  id_map = (5, star_zero) ∷ (7, b'1' ∷ []) ∷ [];
  rev_id_map = (star_zero, 5) ∷ (b'1' ∷ [], 7) ∷ [];
  str_id_to_int = (star_zero, 0) ∷ (b'1' ∷ [], 1) ∷ [];
  rev_str_id_to_int = (0, star_zero) ∷ (1, b'1' ∷ []) ∷ [];
}

six_Handled : Handled objects types 6 5
unfolding objects resolve
six_Handled = (λ e. omega arith, refl, λ e. cc)

seven_Handled : Handled objects types 7 7
unfolding objects resolve
seven_Handled = (λ e. omega arith, refl, λ e. cc)

first_run : save_and_get_int_id objects types 6 no_ids ≡ ok (one_id, 0)
unfolding objects save_and_get_int_id
first_run = refl

second_run : save_and_get_int_id objects types 7 one_id ≡ ok (two_ids, 1)
unfolding objects save_and_get_int_id
second_run = refl

room_one : HasRoom one_id
room_one = omega arith

save_and_get_int_id-IsDb_example :
    (next : Db) × (i : ℕ) × (save_and_get_int_id objects types 6 no_ids ≡ ok (next, i))
    × IsDb next
    × Extends no_ids next
    × (get_value_or_null_of_int i next ≡ found_again objects 5)
save_and_get_int_id-IsDb_example =
    save_and_get_int_id-IsDb objects types 6 5 no_ids no_ids-IsDb (omega arith) six_Handled

five_stored : watts.ValToStrDb.Ids.is_literal (objects 5) ≡ false
unfolding objects
five_stored = refl

seven_stored : watts.ValToStrDb.Ids.is_literal (objects 7) ≡ false
unfolding objects
seven_stored = refl

save_and_get_int_id-distinct_example : (◌≡◌ {A = ℕ} 0 1) ↔ (◌≡◌ {A = ℕ} 5 7)
save_and_get_int_id-distinct_example =
    save_and_get_int_id-distinct objects types 6 5 7 7 no_ids one_id two_ids 0 1 no_ids-IsDb
      (omega arith) room_one six_Handled seven_Handled five_stored seven_stored first_run second_run

two_ids-IsDb : IsDb two_ids
two_ids-IsDb =
    (of_run objects types 7 7 one_id two_ids 1
      (of_run objects types 6 5 no_ids one_id 0 no_ids-IsDb (omega arith) six_Handled five_stored
        first_run).0
      room_one seven_Handled seven_stored second_run).0

id_map_equal_iff_example :
    (id_map_equal two_ids.id_map one_id.id_map ≡ true)
    ↔ ((k : ℕ) → find k two_ids.id_map ≡ find k one_id.id_map)
id_map_equal_iff_example = id_map_equal_iff two_ids.id_map one_id.id_map two_ids-IsDb.entries (
    (of_run objects types 6 5 no_ids one_id 0 no_ids-IsDb (omega arith) six_Handled five_stored
      first_run).0.entries)

-- The function 9 with the instruction 5 and the argument 7.
abbrev one_function : Function
one_function = record { id = 9; insts = 5 ∷ [] }

abbrev small_module : Module
small_module = record {
  functions = one_function ∷ [];
  global_vars = [];
  inst_md = [];
  func_args_md = none;
  globals_md = none;
  funcs_md = none;
}

abbrev args : ℕ → List ℕ
args f = if f == 9 then 7 ∷ [] else []

two_entries : (v : ℕ) (s : Text) → find v two_ids.id_map ≡ some s → (v ≡ 5) ⊎ (v ≡ 7)
unfolding find
two_entries v s h = ground arith

small_module-Fits : Fits objects args small_module two_ids
unfolding find objects watts.ValToStrDb.Metadata.get_func_arg
small_module-Fits = record {
  placed = λ v s h. elim (two_entries v s h) [
    | inl e ↦ subst (Placed objects args small_module) (sym e) here
    | inr e ↦ subst (Placed objects args small_module) (sym e) argument_here
  ];
  instructions = λ f m i n. elim m [
    | inl e ↦ elim (subst (λ (g : Function). In i g.insts) e n) [
      | inl k ↦ subst (λ (j : ℕ). objects j ≡ instruction) (sym k) refl
      | inr k ↦ absurd k
    ]
    | inr k ↦ absurd k
  ];
  clean = λ i h. refl;
}
  where
    here : Placed objects args small_module 5
    here = (one_function, inl refl, inl refl)

    argument_here : Placed objects args small_module 7
    argument_here = (refl, refl)

dump_parse_round_trip_example :
    (next : Module) × (ret : Map Text) × (dump_id_map_to_module objects false small_module two_ids
      ≡ ok (two_ids, next))
    × (parse_id_map_from_module objects args next ≡ ok ret)
    × ((v : ℕ) → find v ret ≡ find v two_ids.id_map)
dump_parse_round_trip_example =
    dump_parse_round_trip objects args small_module two_ids two_ids-IsDb small_module-Fits
