-- ===== src/ValToStrDb/Metadata/Classes.antt =====
-- The metadata of each class of values, written and read back.
use watts.Prelude.{ℕ, ◌≡◌, ◌⊎◌, inl, inr, refl, true, false, Bool, List, [], ◌∷◌, ◌++◌, In, ok}
use watts.Prelude.Map.{Map, assign}
use watts.ValToStrDb.{
  Object, instruction, global_variable, function, constant_null, other_constant, other_value,
  argument, constant_int, constant_expr,
}
use watts.ValToStrDb.Texts.{Text}
use watts.ValToStrDb.Metadata.{
  get_global_variable, Operand, md_string, md_value, md_int, as_function, as_global, Function,
  Module, get_func_arg, parse_func_args, parse_globals, parse_funcs,
}
use watts.ValToStrDb.Metadata.Dump.{arg_ops, global_ops, func_ops, IsDumpable}
use watts.ValToStrDb.Metadata.Parse.{NotEmpty}

module _ (object : ℕ → Object) (args_of : ℕ → List ℕ) (m : Module) where
  -- Where the module has the value.
  abbrev pub Placed : ℕ → Type 0
  Placed v = elim (object v) [
    | instruction ↦ (f : Function) × In f m.functions × In v f.insts
    | argument f p ↦ (object f ≡ function) × (get_func_arg (args_of f) p ≡ ok v)
    | global_variable ↦ get_global_variable v m.global_vars ≡ true
    | function ↦ Unit
    | _ ↦ ⊥
  ]

  abbrev pub Fine : ℕ → Text → Type 0
  Fine v s = NotEmpty s × Placed v

  abbrev pub is_arg : ℕ → Bool
  is_arg v = elim (object v) [ argument f p ↦ true | _ ↦ false ]

  abbrev pub is_global : ℕ → Bool
  is_global v = elim (object v) [ global_variable ↦ true | _ ↦ false ]

  abbrev pub is_func : ℕ → Bool
  is_func v = elim (object v) [ function ↦ true | _ ↦ false ]

  abbrev pub is_inst : ℕ → Bool
  is_inst v = elim (object v) [ instruction ↦ true | _ ↦ false ]

  -- A value that the module has is of one of the four classes, and can be dumped.
  pub Placed-cases :
      (v : ℕ)
      → Placed v
      → IsDumpable object m v
        × ((is_inst v ≡ true) ⊎ (is_arg v ≡ true) ⊎ (is_global v ≡ true) ⊎ (is_func v ≡ true))
  Placed-cases v = by_class (object v) refl
    where
      by_class :
          (o : Object)
          → object v ≡ o
          → Placed v
          → IsDumpable object m v
            × ((is_inst v ≡ true) ⊎ (is_arg v ≡ true) ⊎ (is_global v ≡ true) ⊎ (is_func v ≡ true))
      by_class instruction e h = (rw (e, IsDumpable) tt, inl (rw (e, is_inst) refl))
      by_class (argument f p) e h = (rw (e, IsDumpable) tt, inr (inl (rw (e, is_arg) refl)))
      by_class global_variable e h =
          (rw (e, IsDumpable) (rw (e, Placed) at h), inr (inr (inl (rw (e, is_global) refl))))
      by_class function e h = (rw (e, IsDumpable) tt, inr (inr (inr (rw (e, is_func) refl))))
      by_class constant_null e h = absurd (rw (e, Placed) at h)
      by_class other_constant e h = absurd (rw (e, Placed) at h)
      by_class other_value e h = absurd (rw (e, Placed) at h)
      by_class (constant_int w u) e h = absurd (rw (e, Placed) at h)
      by_class (constant_expr x) e h = absurd (rw (e, Placed) at h)

  -- What the class says of the value.
  arg_class : (v : ℕ) → is_arg v ≡ true → (f : ℕ) × (p : ℕ) × (object v ≡ argument f p)
  arg_class v h = by_class (object v) refl h
    where
      by_class :
          (o : Object)
          → object v ≡ o
          → elim o [ argument f p ↦ true | _ ↦ false ] ≡ true
          → (f : ℕ) × (p : ℕ) × (object v ≡ argument f p)
      by_class (argument f p) e h = (f, p, e)
      by_class instruction e h = cc
      by_class global_variable e h = cc
      by_class function e h = cc
      by_class constant_null e h = cc
      by_class other_constant e h = cc
      by_class other_value e h = cc
      by_class (constant_int w u) e h = cc
      by_class (constant_expr x) e h = cc

  pub global_class : (v : ℕ) → is_global v ≡ true → object v ≡ global_variable
  global_class v h = by_class (object v) h
    where
      by_class :
          (o : Object) → elim o [ global_variable ↦ true | _ ↦ false ] ≡ true → o ≡ global_variable
      by_class global_variable h = refl
      by_class (argument f p) h = cc
      by_class instruction h = cc
      by_class function h = cc
      by_class constant_null h = cc
      by_class other_constant h = cc
      by_class other_value h = cc
      by_class (constant_int w u) h = cc
      by_class (constant_expr x) h = cc

  pub inst_class : (v : ℕ) → is_inst v ≡ true → object v ≡ instruction
  inst_class v h = by_class (object v) h
    where
      by_class : (o : Object) → elim o [ instruction ↦ true | _ ↦ false ] ≡ true → o ≡ instruction
      by_class instruction h = refl
      by_class global_variable h = cc
      by_class (argument f p) h = cc
      by_class function h = cc
      by_class constant_null h = cc
      by_class other_constant h = cc
      by_class other_value h = cc
      by_class (constant_int w u) h = cc
      by_class (constant_expr x) h = cc

  -- Nothing is written for the other classes.
  pub arg_ops-skips : (v : ℕ) (s : Text) → is_arg v ≡ false → arg_ops object v s ≡ []
  arg_ops-skips v s h = by_class (object v) h
    where
      by_class :
          (o : Object)
          → elim o [ argument f p ↦ true | _ ↦ false ] ≡ false
          → elim o [ argument f p ↦ md_value f ∷ md_int p ∷ md_string s ∷ [] | _ ↦ [] ] ≡ []
      by_class (argument f p) h = cc
      by_class _ h = refl

  pub global_ops-skips : (v : ℕ) (s : Text) → is_global v ≡ false → global_ops object v s ≡ []
  global_ops-skips v s h = by_class (object v) h
    where
      by_class :
          (o : Object)
          → elim o [ global_variable ↦ true | _ ↦ false ] ≡ false
          → elim o [ global_variable ↦ md_value v ∷ md_string s ∷ [] | _ ↦ [] ] ≡ []
      by_class global_variable h = cc
      by_class _ h = refl

  pub func_ops-skips : (v : ℕ) (s : Text) → is_func v ≡ false → func_ops object v s ≡ []
  func_ops-skips v s h = by_class (object v) h
    where
      by_class :
          (o : Object)
          → elim o [ function ↦ true | _ ↦ false ] ≡ false
          → elim o [ function ↦ md_value v ∷ md_string s ∷ [] | _ ↦ [] ] ≡ []
      by_class function h = cc
      by_class _ h = refl

  pub func_class : (v : ℕ) → is_func v ≡ true → object v ≡ function
  func_class v h = by_class (object v) h
    where
      by_class : (o : Object) → elim o [ function ↦ true | _ ↦ false ] ≡ true → o ≡ function
      by_class function h = refl
      by_class global_variable h = cc
      by_class (argument f p) h = cc
      by_class instruction h = cc
      by_class constant_null h = cc
      by_class other_constant h = cc
      by_class other_value h = cc
      by_class (constant_int w u) h = cc
      by_class (constant_expr x) h = cc

  as_function-ok : (v : ℕ) → object v ≡ function → as_function object (md_value v) ≡ ok v
  unfolding as_function
  as_function-ok v e = rw (e, as_function) refl

  as_global-ok : (v : ℕ) → object v ≡ global_variable → as_global object (md_value v) ≡ ok v
  unfolding as_global
  as_global-ok v e = rw (e, as_global) refl

  pub parse_func_args-reads :
      (v : ℕ) (s : Text) (rest : List Operand) (ret : Map Text)
      → Fine v s
      → is_arg v ≡ true
      → parse_func_args object args_of (arg_ops object v s ++ rest) ret
        ≡ parse_func_args object args_of rest (assign v s ret)
  unfolding parse_func_args
  parse_func_args-reads v s rest ret (n, placed) h =
      let (f, p, e) = arg_class v h in
      let (g, a) : (object f ≡ function) × (get_func_arg (args_of f) p ≡ ok v) =
        (rw (e, Placed) at placed) in
      rw (e, arg_ops, as_function-ok f g, n, a, parse_func_args) refl

  pub parse_globals-reads :
      (v : ℕ) (s : Text) (rest : List Operand) (ret : Map Text)
      → Fine v s
      → is_global v ≡ true
      → parse_globals object (global_ops object v s ++ rest) ret
        ≡ parse_globals object rest (assign v s ret)
  unfolding parse_globals
  parse_globals-reads v s rest ret (n, placed) h =
      rw (global_class v h, global_ops, as_global-ok v (global_class v h), n, parse_globals) refl

  pub parse_funcs-reads :
      (v : ℕ) (s : Text) (rest : List Operand) (ret : Map Text)
      → Fine v s
      → is_func v ≡ true
      → parse_funcs object (func_ops object v s ++ rest) ret
        ≡ parse_funcs object rest (assign v s ret)
  unfolding parse_funcs
  parse_funcs-reads v s rest ret (n, placed) h =
      rw (func_class v h, func_ops, as_function-ok v (func_class v h), n, parse_funcs) refl
