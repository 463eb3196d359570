-- ===== src/Llvm.antt =====
-- The part of the LLVM IR that the analysis reads, as data: values and instructions are known by
-- their address, a number, and what the source asks of them (kinds, operands, types) are fields.
-- LLVM itself is not modelled; `fold` stands for `ConstantFoldConstantExpression`.
pub mod Const
use watts.Prelude.{
  ℕ, ◌==◌, ◌&&◌, Bool, true, false, List, [], ◌∷◌, Option, some, none, if◌then◌else◌,
}
use watts.Prelude.Map.{Map}

-- `const_int w u` is the constant of `w` bits whose unsigned value is `u`; `local` is the result of
-- an instruction or an argument.
pub data Value : Type 0 where
  const_int : ℕ → ℕ → Value
  null_ptr : Value
  const_expr : ℕ → Value
  global : ℕ → Value
  local : ℕ → Value

-- `v == w` on pointers; LLVM keeps one object for each constant.
unfoldable pub value_eq : Value → Value → Bool
value_eq (const_int w u) (const_int w' u') = (w == w') && (u == u')
value_eq null_ptr null_ptr = true
value_eq (const_expr i) (const_expr j) = i == j
value_eq (global i) (global j) = i == j
value_eq (local i) (local j) = i == j
value_eq _ _ = false

-- `CmpInst::Predicate`
pub data Predicate : Type 0 where
  icmp_eq icmp_ne icmp_ugt icmp_uge icmp_ult icmp_ule icmp_sgt icmp_sge icmp_slt icmp_sle :
      Predicate

-- `Instruction::BinaryOps` and `AtomicRMWInst::BinOp`, as far as the source names them.
pub data Opcode : Type 0 where
  add mul xor other_op : Opcode

-- The callees that the source knows by name.
pub data Callee : Type 0 where
  pthread_create pthread_exit pthread_join assert_fail mfence msync mlwsync other_function : Callee

pub data Kind : Type 0 where
  alloca : Kind
  -- the value, and the pointer that it is written to
  store : Value → Value → Kind
  load : Value → Kind
  icmp : Predicate → Value → Value → Kind
  call : Callee → Kind
  binary : Opcode → Value → Value → Kind
  cast : Value → Kind
  phi : List Value → Kind
  atomic_rmw : Opcode → Value → Value → Kind
  atomic_cmpxchg : Value → Kind
  other_inst : Kind

pub record Inst : Type 0 where
  pub id : ℕ
  pub kind : Kind

pub data Terminator : Type 0 where
  br : ℕ → Terminator
  cond_br : Value → ℕ → ℕ → Terminator
  ret unreachable other_term : Terminator

-- A basic block: its address, the instructions before the terminator, and the terminator.
pub record Block : Type 0 where
  pub id : ℕ
  pub body : List Inst
  pub term_id : ℕ
  pub term : Terminator

-- What the analysis looks up about values: the Apron name of each variable (`v2n`), the width of
-- an integer type, the comparison that a value is the result of, and the folded constants.
pub record Context : Type 0 where
  pub v2n : Value → Option ℕ
  pub width : Value → Option ℕ
  pub compare_of : Value → Option (Predicate × Value × Value)
  pub fold : ℕ → Value
