-- ===== src/ValToStrDb/RoundTrip.antt =====
-- `parseIDMapFromModule` reads back what `dumpIDMapToModule` writes.
use watts.Prelude.{
  ℕ, ◌≡◌, ◌∙◌, inl, inr, refl, sym, false, Option-cases, none, some, List, [], ◌∷◌, In, ok, arith,
}
use watts.Prelude.Map.{Map, find}
use watts.ValToStrDb.{Db, Object, instruction}
use watts.ValToStrDb.Texts.{Text}
use watts.ValToStrDb.Texts.Digits.{last_of, IsDigit}
use watts.ValToStrDb.WellFormed.{IsDb}
use watts.ValToStrDb.Compare.{find-In}
use watts.ValToStrDb.Metadata.{
  Operand, md_string, Function, Module, Dumped, parse_functions, parse_func_args, parse_globals,
  parse_funcs, dump_id_map_to_module, parse_id_map_from_module,
}
use watts.ValToStrDb.Metadata.Dump.{
  arg_ops, global_ops, func_ops, insts_of, ops_of, IsDumpable, dump_entries-ok,
}
use watts.ValToStrDb.Metadata.Parse.{NotEmpty, Sound, Marked, parse-written, parse_functions-ok}
use watts.ValToStrDb.Metadata.Classes.{
  Placed, Fine, is_arg, is_global, is_func, Placed-cases, parse_func_args-reads,
  parse_globals-reads, parse_funcs-reads, inst_class, arg_ops-skips, global_ops-skips,
  func_ops-skips,
}
use watts.ValToStrDb.Metadata.Nodes.{node_from, node_of}

digit-NotEmpty : (s : Text) → IsDigit (last_of s) → NotEmpty s
unfolding watts.ValToStrDb.Metadata.not_empty
digit-NotEmpty [] d = absurd (omega (arith, d.0))
digit-NotEmpty (c ∷ s) d = refl

module _ (object : ℕ → Object) (args_of : ℕ → List ℕ) where
  -- What the data base and the module must be like: the module has every value of the data base,
  -- what it lists as instructions are instructions, and no other instruction has a node already.
  pub record Fits (m : Module) (db : Db) : Type 0 where
    pub placed : (v : ℕ) (s : Text) → find v db.id_map ≡ some s → Placed object args_of m v
    pub instructions :
        (f : Function) → In f m.functions → (i : ℕ) → In i f.insts → object i ≡ instruction
    pub clean : (i : ℕ) → find i db.id_map ≡ none → find i m.inst_md ≡ none

  module _ (m : Module) (db : Db) (d : IsDb db) (fits : Fits m db) where
    open fits use {placed, instructions, clean}

    fine :
        (v : ℕ) (s : Text)
        → In (v, s) db.id_map
        → Fine object args_of m v s × (find v db.id_map ≡ some s)
    fine v s x = let h = d.entries v s x in ((digit-NotEmpty s (d.ends v s h), placed v s h), h)

    dumpable : (v : ℕ) (s : Text) → In (v, s) db.id_map → IsDumpable object m v
    dumpable v s x = (Placed-cases object args_of m v (fine v s x).0.1).0

    abbrev md : Map (List Operand)
    md = insts_of object db.id_map m.inst_md

    node_here :
        (i : ℕ) (s : Text)
        → find i db.id_map ≡ some s
        → object i ≡ instruction
        → find i md ≡ some (md_string s ∷ [])
    node_here i s h k =
        node_of object db.id_map m.inst_md i s (λ t x. text_of t (sym h ∙ d.entries i t x)) k
          (inl (find-In i s db.id_map h))
      where
        text_of : (t : Text) → some s ≡ some t → s ≡ t
        text_of t z = cc

    marked : (i : ℕ) → object i ≡ instruction → Marked db.id_map md i
    marked i k = elim (Option-cases (find i db.id_map)) [
      | inr (s, h) ↦ inr (s, node_here i s h k, h, digit-NotEmpty s (d.ends i s h))
      | inl n ↦ elim (Option-cases (find i md)) [
        | inl e ↦ inl e
        | inr (ops, e) ↦ elim (node_from object db.id_map m.inst_md i ops e) [
          | inl (s, x, q) ↦ absurd (clash s (sym n ∙ d.entries i s x))
          | inr old ↦ absurd (taken ops (sym (clean i n) ∙ old))
        ]
      ]
    ]
      where
        clash : (s : Text) → ¬ (none ≡ some s)
        clash s z = cc

        taken : (ops : List Operand) → ¬ (none ≡ some ops)
        taken ops z = cc

    nothing : Sound db.id_map []
    unfolding find
    nothing v s h = absurd (no_entry h)
      where
        no_entry : ¬ (none ≡ some s)
        no_entry z = cc

    held_by :
        (v : ℕ) (s : Text)
        → find v db.id_map ≡ some s
        → object v ≡ instruction
        → (f : Function) × In f m.functions × In v f.insts
    held_by v s h k = rw (k, Placed) at (placed v s h)

    -- The four loops of `parseIDMapFromModule` over what was dumped.
    parsed :
        (ret : Map Text) × (parse_id_map_from_module object args_of (record m {
          inst_md = md;
          func_args_md = some (ops_of (arg_ops object) db.id_map ∷ []);
          globals_md = some (ops_of (global_ops object) db.id_map ∷ []);
          funcs_md = some (ops_of (func_ops object) db.id_map ∷ []);
        })
          ≡ ok ret)
        × ((v : ℕ) → find v ret ≡ find v db.id_map)
    unfolding parse_id_map_from_module watts.ValToStrDb.Metadata.parse_named
    parsed =
        let (r1, p1, g1, c1) =
          parse_functions-ok db.id_map object md m.functions []
            (λ f x i y. marked i (instructions f x i y)) nothing in
        let (r2, p2, g2, c2) =
          parse-written db.id_map (parse_func_args object args_of) (arg_ops object)
            (is_arg object args_of m) (Fine object args_of m) (λ r. refl)
            (parse_func_args-reads object args_of m) (arg_ops-skips object args_of m) db.id_map r1
            fine g1.0 in
        let (r3, p3, g3, c3) =
          parse-written db.id_map (parse_globals object) (global_ops object)
            (is_global object args_of m) (Fine object args_of m) (λ r. refl)
            (parse_globals-reads object args_of m) (global_ops-skips object args_of m) db.id_map r2
            fine g2.0 in
        let (r4, p4, g4, c4) =
          parse-written db.id_map (parse_funcs object) (func_ops object) (is_func object args_of m)
            (Fine object args_of m) (λ r. refl) (parse_funcs-reads object args_of m)
            (func_ops-skips object args_of m) db.id_map r3 fine g3.0 in
        (
          r4,
          rw (p1, p2, p3) p4,
          λ v. elim (Option-cases (find v db.id_map)) [
            | inl n ↦ elim (Option-cases (find v r4)) [
              | inl e ↦ e ∙ sym n
              | inr (s, e) ↦ e ∙ sym (g4.0 v s e)
            ]
            | inr (s, h) ↦ elim (Placed-cases object args_of m v (placed v s h)).1 [
              | inl b ↦
                  let k = inst_class object args_of m v b in
                  let (f, x, y) = held_by v s h k in
                  g4.1 v s (g3.1 v s (g2.1 v s (c1 f x v s y (node_here v s h k)))) ∙ sym h
              | inr (inl b) ↦ g4.1 v s (g3.1 v s (c2 v s (find-In v s db.id_map h) b)) ∙ sym h
              | inr (inr (inl b)) ↦ g4.1 v s (c3 v s (find-In v s db.id_map h) b) ∙ sym h
              | inr (inr (inr b)) ↦ c4 v s (find-In v s db.id_map h) b ∙ sym h
            ]
          ],
        )

    -- Take a well-formed data base whose values the module all has, as instructions, arguments,
    -- functions or named global variables without local linkage, and a module whose other
    -- instructions have no node. With texts for identifiers, `dumpIDMapToModule` returns and
    -- leaves the data base as it is, and from the module that it leaves `parseIDMapFromModule`
    -- reads a map with the same identifier for every value.
    pub dump_parse_round_trip :
        (next : Module) × (ret : Map Text) × (dump_id_map_to_module object false m db
          ≡ ok (db, next))
        × (parse_id_map_from_module object args_of next ≡ ok ret)
        × ((v : ℕ) → find v ret ≡ find v db.id_map)
    unfolding dump_id_map_to_module
    dump_parse_round_trip =
        let (ret, p, same_entries) = parsed in
        (
          _,
          ret,
          rw
              (dump_entries-ok object m db.id_map db
                (record { insts = m.inst_md; func_args = []; globals = []; funcs = [] }) dumpable)
              refl,
          p,
          same_entries,
        )
