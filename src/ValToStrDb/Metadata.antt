-- ===== src/ValToStrDb/Metadata.antt =====
-- utils/ValToStrDB.cpp: `dumpIDMapToModule` and `parseIDMapFromModule`. The metadata of a module of
-- LLVM is data here: the node of each instruction, and the nodes of three names.
pub mod Dump
pub mod Parse
pub mod Classes
pub mod Nodes
use watts.Prelude.{
  ℕ, zero, suc, ◌%◌, ◌==◌, ◌&&◌, ◌||◌, not, Bool, true, false, if◌then◌else◌, Option, none, some,
  List, [], ◌∷◌, ◌++◌, length, Result, ok, err, assertion, undefined, ◌>>=◌,
}
use watts.Prelude.Map.{Map, find, assign}
use watts.Solver.Hex.{hex, padded}
use watts.ValToStrDb.{
  Db, Object, instruction, global_variable, function, argument, save_and_get_int_id_of,
}
use watts.ValToStrDb.Texts.{Text}

pub data Operand : Type 0 where
  md_value md_int : ℕ → Operand
  md_string : Text → Operand

-- A global variable of the module: its address, and whether it has a name and local linkage.
pub record Global : Type 0 where
  pub id : ℕ
  pub has_name : Bool
  pub has_local_linkage : Bool

-- Whether `M.getGlobalVariable(gv->getName())` finds something for the global variable: LLVM looks for
-- the name, and leaves out what has local linkage. The names of a module are different.
unfoldable pub get_global_variable : ℕ → List Global → Bool
get_global_variable v [] = false
get_global_variable v (g ∷ gs) =
    (g.id == v && (g.has_name && not g.has_local_linkage)) || get_global_variable v gs

-- A function of the module: its address and its instructions.
pub record Function : Type 0 where
  pub id : ℕ
  pub insts : List ℕ

pub record Module : Type 0 where
  pub functions : List Function
  pub global_vars : List Global
  pub inst_md : Map (List Operand)
  pub func_args_md : Option (List (List Operand))
  pub globals_md : Option (List (List Operand))
  pub funcs_md : Option (List (List Operand))

-- What the loop of `dumpIDMapToModule` collects.
pub record Dumped : Type 0 where
  pub insts : Map (List Operand)
  pub func_args : List Operand
  pub globals : List Operand
  pub funcs : List Operand

-- `Utils::to_const_bitvec`: an `unsigned` of four bytes in hexadecimal digits.
unfoldable pub unsigned_bitvec : ℕ → Text
unfolding hex padded
unsigned_bitvec i = b'#' ∷ b'x' ∷ padded 8 (hex i i)

-- The text that is dumped for an identifier.
unfoldable pub label_of : Bool → Text → Db → Result (Db × Text)
unfolding save_and_get_int_id_of unsigned_bitvec
label_of use_bitvectors s db =
    if use_bitvectors
    then (do (next, i) ← save_and_get_int_id_of s db; ok (next, unsigned_bitvec i))
    else ok (db, s)

-- `assert(str.size())`
unfoldable pub not_empty : Text → Result Text
not_empty [] = err assertion
not_empty (c ∷ s) = ok (c ∷ s)

-- The argument of a function at a position, where the first has the number `k`.
unfoldable pub arg_from : ℕ → List ℕ → ℕ → Result ℕ
arg_from k [] i = err undefined
arg_from k (a ∷ args) i = let rest = arg_from (suc k) args i in if k == i then ok a else rest

unfoldable pub get_func_arg : List ℕ → ℕ → Result ℕ
unfolding arg_from
get_func_arg args i = arg_from 0 args i

-- `dyn_cast<MDString>` under an assertion.
unfoldable pub as_string : Operand → Result Text
unfolding not_empty
as_string (md_string s) = not_empty s
as_string _ = err assertion

unfoldable pub constant_int_to_uint64 : Operand → Result ℕ
constant_int_to_uint64 (md_int n) = ok n
constant_int_to_uint64 _ = err assertion

module _ (object : ℕ → Object) where
  -- One round of the loop of `dumpIDMapToModule`.
  unfoldable pub dump_entry : Module → ℕ → Text → Dumped → Result Dumped
  unfolding assign get_global_variable
  dump_entry m v mds st = elim (object v) [
    | instruction ↦ ok (record st { insts = assign v (md_string mds ∷ []) st.insts })
    | argument f p ↦
        ok (record st { func_args = st.func_args ++ (md_value f ∷ md_int p ∷ md_string mds ∷ []) })
    | global_variable ↦
        if get_global_variable v m.global_vars
        then ok (record st { globals = st.globals ++ (md_value v ∷ md_string mds ∷ []) })
        else err assertion
    | function ↦ ok (record st { funcs = st.funcs ++ (md_value v ∷ md_string mds ∷ []) })
    | _ ↦ err undefined
  ]

  unfoldable pub dump_entries : Bool → Module → List (ℕ × Text) → Db → Dumped → Result (Db × Dumped)
  unfolding label_of dump_entry
  dump_entries use_bitvectors m [] db st = ok (db, st)
  dump_entries use_bitvectors m ((v, s) ∷ rest) db st = do
    (next, mds) ← label_of use_bitvectors s db
    later ← dump_entry m v mds st
    dump_entries use_bitvectors m rest next later

  unfoldable pub dump_id_map_to_module : Bool → Module → Db → Result (Db × Module)
  unfolding dump_entries
  dump_id_map_to_module use_bitvectors m db = do
    (next, st) ←
        dump_entries use_bitvectors m db.id_map db
          (record { insts = m.inst_md; func_args = []; globals = []; funcs = [] })
    ok (
      next,
      record m {
        inst_md = st.insts;
        func_args_md = some (st.func_args ∷ []);
        globals_md = some (st.globals ∷ []);
        funcs_md = some (st.funcs ∷ []);
      },
    )

  unfoldable pub as_function : Operand → Result ℕ
  as_function (md_value v) = elim (object v) [ function ↦ ok v | _ ↦ err assertion ]
  as_function _ = err assertion

  unfoldable pub as_global : Operand → Result ℕ
  as_global (md_value v) = elim (object v) [ global_variable ↦ ok v | _ ↦ err assertion ]
  as_global _ = err assertion

  unfoldable pub parse_inst : Map (List Operand) → ℕ → Map Text → Result (Map Text)
  unfolding find as_string assign
  parse_inst md i ret = elim (find i md) [
    | none ↦ ok ret
    | some [] ↦ err assertion
    | some (val ∷ []) ↦ (do str ← as_string val; ok (assign i str ret))
    | some (val ∷ w ∷ rest) ↦ err assertion
  ]

  unfoldable pub parse_insts : Map (List Operand) → List ℕ → Map Text → Result (Map Text)
  unfolding parse_inst
  parse_insts md [] ret = ok ret
  parse_insts md (i ∷ insts) ret = do next ← parse_inst md i ret; parse_insts md insts next

  unfoldable pub parse_functions : Map (List Operand) → List Function → Map Text → Result (Map Text)
  unfolding parse_insts
  parse_functions md [] ret = ok ret
  parse_functions md (f ∷ functions) ret = do
    next ← parse_insts md f.insts ret
    parse_functions md functions next

  unfoldable pub parse_func_args : (ℕ → List ℕ) → List Operand → Map Text → Result (Map Text)
  unfolding as_function constant_int_to_uint64 as_string get_func_arg assign
  parse_func_args args_of [] ret = ok ret
  parse_func_args args_of (f_val ∷ pos_val ∷ str_val ∷ rest) ret = do
    f ← as_function f_val
    pos ← constant_int_to_uint64 pos_val
    str ← as_string str_val
    a ← get_func_arg (args_of f) pos
    parse_func_args args_of rest (assign a str ret)
  parse_func_args args_of _ ret = err assertion

  unfoldable pub parse_globals : List Operand → Map Text → Result (Map Text)
  unfolding as_global as_string assign
  parse_globals [] ret = ok ret
  parse_globals (global ∷ str_val ∷ rest) ret = do
    g ← as_global global
    str ← as_string str_val
    parse_globals rest (assign g str ret)
  parse_globals _ ret = err assertion

  unfoldable pub parse_funcs : List Operand → Map Text → Result (Map Text)
  unfolding as_function as_string assign
  parse_funcs [] ret = ok ret
  parse_funcs (func ∷ str_val ∷ rest) ret = do
    f ← as_function func
    str ← as_string str_val
    parse_funcs rest (assign f str ret)
  parse_funcs _ ret = err assertion

-- A name with one node, or no such name.
unfoldable pub parse_named :
    (List Operand → Map Text → Result (Map Text))
    → Option (List (List Operand))
    → Map Text
    → Result (Map Text)
parse_named parse none ret = ok ret
parse_named parse (some (mdn ∷ [])) ret = parse mdn ret
parse_named parse (some _) ret = err assertion

module _ (object : ℕ → Object) (args_of : ℕ → List ℕ) where
  unfoldable pub parse_id_map_from_module : Module → Result (Map Text)
  unfolding parse_functions parse_named parse_func_args parse_globals parse_funcs
  parse_id_map_from_module m = do
    one ← parse_functions object m.inst_md m.functions []
    two ← parse_named (parse_func_args object args_of) m.func_args_md one
    three ← parse_named (parse_globals object) m.globals_md two
    parse_named (parse_funcs object) m.funcs_md three
