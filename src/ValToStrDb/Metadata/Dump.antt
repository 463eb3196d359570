-- ===== src/ValToStrDb/Metadata/Dump.antt =====
-- What `dumpIDMapToModule` writes: each entry at the place for its class of values.
use mathlib.Core.List.{append-nil, append_assoc}
use watts.Prelude.{ℕ, ◌≡◌, ◌∙◌, inl, inr, refl, true, false, List, [], ◌∷◌, ◌++◌, In, ok, Result}
use watts.Prelude.Map.{Map, assign}
use watts.ValToStrDb.{
  Db, Object, instruction, global_variable, function, constant_null, other_constant, other_value,
  argument, constant_int, constant_expr,
}
use watts.ValToStrDb.Texts.{Text}
use watts.ValToStrDb.Metadata.{
  get_global_variable, Operand, md_value, md_int, md_string, Module, Dumped, dump_entry,
  dump_entries,
}

abbrev pub ops_of : (ℕ → Text → List Operand) → List (ℕ × Text) → List Operand
ops_of ops [] = []
ops_of ops ((v, s) ∷ es) = ops v s ++ ops_of ops es

module _ (object : ℕ → Object) where
  -- What is written for one entry.
  abbrev pub inst_step : ℕ → Text → Map (List Operand) → Map (List Operand)
  inst_step v s md = elim (object v) [ instruction ↦ assign v (md_string s ∷ []) md | _ ↦ md ]

  abbrev pub arg_ops : ℕ → Text → List Operand
  arg_ops v s = elim (object v) [ argument f p ↦ md_value f ∷ md_int p ∷ md_string s ∷ [] | _ ↦ [] ]

  abbrev pub global_ops : ℕ → Text → List Operand
  global_ops v s = elim (object v) [ global_variable ↦ md_value v ∷ md_string s ∷ [] | _ ↦ [] ]

  abbrev pub func_ops : ℕ → Text → List Operand
  func_ops v s = elim (object v) [ function ↦ md_value v ∷ md_string s ∷ [] | _ ↦ [] ]

  abbrev pub insts_of : List (ℕ × Text) → Map (List Operand) → Map (List Operand)
  insts_of [] md = md
  insts_of ((v, s) ∷ es) md = insts_of es (inst_step v s md)

  -- The values that the module can hold.
  abbrev pub IsDumpable : Module → ℕ → Type 0
  IsDumpable m v = elim (object v) [
    | instruction ↦ Unit
    | argument f p ↦ Unit
    | global_variable ↦ get_global_variable v m.global_vars ≡ true
    | function ↦ Unit
    | _ ↦ ⊥
  ]

  abbrev after_entry : ℕ → Text → Dumped → Dumped
  after_entry v s st = record {
    insts = inst_step v s st.insts;
    func_args = st.func_args ++ arg_ops v s;
    globals = st.globals ++ global_ops v s;
    funcs = st.funcs ++ func_ops v s;
  }

  abbrev after : List (ℕ × Text) → Dumped → Dumped
  after es st = record {
    insts = insts_of es st.insts;
    func_args = st.func_args ++ ops_of arg_ops es;
    globals = st.globals ++ ops_of global_ops es;
    funcs = st.funcs ++ ops_of func_ops es;
  }

  dump_entry-ok :
      (m : Module) (v : ℕ) (s : Text) (st : Dumped)
      → IsDumpable m v
      → dump_entry object m v s st ≡ ok (after_entry v s st)
  unfolding dump_entry
  dump_entry-ok m v s st h = by_class (object v) refl
    where
      by_class : (o : Object) → object v ≡ o → dump_entry object m v s st ≡ ok (after_entry v s st)
      by_class instruction e =
          rw
            (
              e,
              dump_entry,
              after_entry,
              inst_step,
              arg_ops,
              global_ops,
              func_ops,
              append-nil st.func_args,
              append-nil st.globals,
              append-nil st.funcs,
            )
            refl
      by_class (argument f p) e =
          rw
            (
              e,
              dump_entry,
              after_entry,
              inst_step,
              arg_ops,
              global_ops,
              func_ops,
              append-nil st.globals,
              append-nil st.funcs,
            )
            refl
      by_class global_variable e =
          rw
            (
              e,
              (rw (e, IsDumpable) at h),
              dump_entry,
              after_entry,
              inst_step,
              arg_ops,
              global_ops,
              func_ops,
              append-nil st.func_args,
              append-nil st.funcs,
            )
            refl
      by_class function e =
          rw
            (
              e,
              dump_entry,
              after_entry,
              inst_step,
              arg_ops,
              global_ops,
              func_ops,
              append-nil st.func_args,
              append-nil st.globals,
            )
            refl
      by_class constant_null e = absurd (rw (e, IsDumpable) at h)
      by_class other_constant e = absurd (rw (e, IsDumpable) at h)
      by_class other_value e = absurd (rw (e, IsDumpable) at h)
      by_class (constant_int w u) e = absurd (rw (e, IsDumpable) at h)
      by_class (constant_expr x) e = absurd (rw (e, IsDumpable) at h)

  pub dump_entries-ok :
      (m : Module) (es : List (ℕ × Text)) (db : Db) (st : Dumped)
      → ((v : ℕ) (s : Text) → In (v, s) es → IsDumpable m v)
      → dump_entries object false m es db st ≡ ok (db, after es st)
  unfolding dump_entries watts.ValToStrDb.Metadata.label_of
  dump_entries-ok m [] db st h =
      rw (append-nil st.func_args, append-nil st.globals, append-nil st.funcs) refl
  dump_entries-ok m ((v, s) ∷ es) db st h =
      rw (dump_entry-ok m v s st (h v s (inl refl)))
        (dump_entries-ok m es db (after_entry v s st) (λ w t x. h w t (inr x)) ∙ regroup)
    where
      regroup :
          ◌≡◌ {A = Result (Db × Dumped)}
            (ok (db, after es (after_entry v s st)))
            (ok (db, after ((v, s) ∷ es) st))
      regroup =
          rw
            (
              append_assoc st.func_args (arg_ops v s) (ops_of arg_ops es),
              append_assoc st.globals (global_ops v s) (ops_of global_ops es),
              append_assoc st.funcs (func_ops v s) (ops_of func_ops es),
            )
            refl
