-- ===== src/BbOps/Transfer/Concrete.antt =====
-- The concrete steps that the transfer functions stand for: what an instruction, the body of a
-- block and a terminator do to the program's variables.
use watts.Prelude.{
  ℕ, ◌≡◌, ◌≢◌, ◌⊎◌, Bool, true, if◌then◌else◌, Option, some, none, List, [], ◌∷◌, All,
}
use watts.Prelude.Int.{ℤ}
use watts.Prelude.Map.{Map, find}
use watts.Apron.{Apron, Env, update}
use watts.Apron.Laws.{Sound}
use watts.Llvm.{
  Value, local, assert_fail, Kind, Inst, Terminator, br, cond_br, ret, unreachable, other_term,
  Block, Context,
}
use watts.LatticeFact.Assign.Sound.{truth}
use watts.LatticeFact.Constrain.Sound.{compare_ℤ, Agrees}
use watts.BbOps.Assign.Copies.{Operand, IntOperand}
use watts.BbOps.Assign.Sound.{Computes, Fits}
use watts.BbOps.Assign.Compare.{NotLeast}
use watts.BbOps.Transfer.{Flags}

module _ (a : Apron) (l : Sound a) (fl : Flags) (ctx : Context) (interf : Map (a.Fact)) where
  open a use {Fact}
  open l use {Covers}
  open ctx use {v2n, width}

  -- A load reads the thread's own memory, or the memory of a valuation that its interference covers,
  -- which then is the thread's. With all interferences joined it may read its own in any case.
  abbrev pub Loads : ℕ → Value → Option Fact → Env → Env → Type 0
  Loads i p none e e' =
      (x : ℕ) × (n : ℤ) × (v2n (local i) ≡ some x) × Operand ctx e p n × (e' ≡ update e x n)
  Loads i p (some g) e e' =
      (x : ℕ) × (y : ℕ) × (d : Env) × (v2n (local i) ≡ some x)
      × (v2n p ≡ some y)
      × (Covers g d ⊎ (fl.no_combins ≡ true) × (d ≡ e))
      × Operand ctx (update e y (d y)) p (d y)
      × (e' ≡ update (update e y (d y)) x (d y))

  -- Arithmetic is exact as long as the result is below 2^width in size, a cast keeps the number, and
  -- calls touch no variable. Phi nodes, exclusive or and atomic instructions have no step.
  abbrev pub Executes : ℕ → Kind → Env → Env → Type 0
  Executes i Kind.alloca e e' = e' ≡ e
  Executes i (Kind.store v p) e e' =
      (x : ℕ) × (n : ℤ) × (v2n p ≡ some x) × Operand ctx e v n × (e' ≡ update e x n)
  Executes i (Kind.load p) e e' = Loads i p (find i interf) e e'
  Executes i (Kind.icmp p v w) e e' =
      (x : ℕ) × (m : ℤ) × (n : ℤ) × (v2n (local i) ≡ some x)
      × IntOperand ctx e v m
      × IntOperand ctx e w n
      × NotLeast v
      × NotLeast w
      × (e' ≡ update e x (truth (compare_ℤ p m n)))
  Executes i (Kind.call c) e e' = e' ≡ e
  Executes i (Kind.binary op v w) e e' =
      (x : ℕ) × (bw : ℕ) × (m : ℤ) × (k : ℤ) × (n : ℤ) × (v2n (local i) ≡ some x)
      × (width (local i) ≡ some bw)
      × IntOperand ctx e v m
      × IntOperand ctx e w k
      × Computes op m k n
      × Fits bw n
      × (e' ≡ update e x n)
  Executes i (Kind.cast v) e e' =
      (x : ℕ) × (n : ℤ) × (v2n (local i) ≡ some x) × Operand ctx e v n × (e' ≡ update e x n)
  Executes i (Kind.phi vs) e e' = ⊥
  Executes i (Kind.atomic_rmw op p v) e e' = ⊥
  Executes i (Kind.atomic_cmpxchg p) e e' = ⊥
  Executes i Kind.other_inst e e' = ⊥

  abbrev pub RunsBody : List Inst → Env → Env → Type 0
  RunsBody [] e e' = e' ≡ e
  RunsBody (i ∷ is) e e' = (d : Env) × Executes i.id i.kind e d × RunsBody is d e'

  -- The run of a body comes to the failing assertion at the address `n`.
  abbrev pub Fails : List Inst → ℕ → Env → Type 0
  Fails [] n e = ⊥
  Fails (i ∷ is) n e =
      ((i.id ≡ n) × (i.kind ≡ Kind.call assert_fail))
      ⊎ ((d : Env) × Executes i.id i.kind e d × Fails is n d)

  -- A branch is taken by the value of its condition, which is still that of its comparison.
  abbrev pub Takes : Terminator → Env → ℕ → Type 0
  Takes (br s) e j = j ≡ s
  Takes (cond_br v s t) e j =
      (b : ℕ) × (tf : Bool) × (v2n v ≡ some b)
      × (e b ≡ truth tf)
      × Agrees a l fl.use_oct ctx (ctx.compare_of v) tf e
      × (j ≡ (if tf then s else t))
  Takes ret e j = ⊥
  Takes unreachable e j = ⊥
  Takes other_term e j = ⊥

-- The address of the terminator is not that of an instruction of the body.
abbrev pub Addressed : Block → Type 0
Addressed bb = All (λ (i : Inst). i.id ≢ bb.term_id) bb.body
