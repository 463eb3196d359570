-- ===== src/BbOps/Transfer.antt =====
-- bbops.cpp: `transfer_func`, `identity_transfer_func`, the books that they keep, and the runs over
-- a basic block.
pub mod Concrete
pub mod Sound
pub mod Notes
pub mod Walk
use watts.Prelude.{
  ℕ, ◌==◌, ◌&&◌, not, Bool, true, false, if◌then◌else◌, Option, some, none, List, [], ◌∷◌, Result,
  ok, err, assertion, exit_failure, ◌>>=◌,
}
use watts.Prelude.Map.{Map, find, erase, emplace, insert, count}
use watts.Apron.{Apron}
use watts.Llvm.{
  Value, local, Opcode, add, mul, xor, other_op, Callee, pthread_create, pthread_exit, pthread_join,
  assert_fail, mfence, msync, mlwsync, other_function, Kind, Inst, Terminator, br, cond_br, ret,
  unreachable, other_term, Block, Context,
}
use watts.LatticeFact.Constrain.{constrain_tf}
use watts.BbOps.Assign.{
  perform_assign, perform_cast, perform_phi_inst, perform_bin_op_mod, perform_logic_op,
  perform_assign_cmp, assign_interf, perform_atomic_rmw, perform_atomic_rmw_interf,
}

-- The flags that the transfer functions read: `-oct`, the ICmp narrowing, `-nocombs`, `-aslice`
-- and `-impact`.
pub record Flags : Type 0 where
  pub use_oct : Bool
  pub constr_icmp : Bool
  pub no_combins : Bool
  pub assert_slice : Bool
  pub impact : Bool

-- Where `assertSlice` holds the statements that are off the slice.
pub record Slices : Type 0 where
  pub assert_slice_inv : List ℕ
  pub impacted : List ℕ
  pub may_impact : List ℕ

module _ (a : Apron) where
  open a use {Fact, join, is_bottom}

  -- The reference parameters: reachable errors, facts after stores, and facts at thread creations.
  pub record Books : Type 0 where
    pub errors : List ℕ
    pub stores : Map Fact
    pub creates : Map Fact

module _ (a : Apron) where
  open a use {Fact, join, is_bottom}

  -- `updateReachStores` and `updateReachThreadCreate`: a fact already there is joined.
  pub update_reach : ℕ → Fact → Map Fact → Map Fact
  update_reach i f m = elim (find i m) [
    | none ↦ emplace i f m
    | some g ↦ emplace i (join f g) (erase i m)
  ]

  pub record_store : ℕ → Fact → Books a → Fact × Books a
  unfolding update_reach
  record_store i f b = (f, record b { stores = update_reach i f b.stores })

  record_create : ℕ → Fact → Books a → Fact × Books a
  unfolding update_reach
  record_create i f b = (f, record b { creates = update_reach i f b.creates })

  -- Calls: `isPthreadCreate`, `skipCall`, `isError` and `isMFence` tell the callees apart.
  pub transfer_call : ℕ → Callee → Fact → Books a → Result (Fact × Books a)
  unfolding record_create
  transfer_call i pthread_create f b = ok (record_create i f b)
  transfer_call i pthread_exit f b = ok (f, b)
  transfer_call i pthread_join f b = ok (f, b)
  transfer_call i assert_fail f b =
      if is_bottom f then err assertion else ok (f, record b { errors = insert i b.errors })
  transfer_call i mfence f b = ok (f, b)
  transfer_call i msync f b = ok (f, b)
  transfer_call i mlwsync f b = ok (f, b)
  transfer_call i other_function f b = err exit_failure

  -- A transfer that leaves the books alone.
  abbrev keep : Books a → Result Fact → Result (Fact × Books a)
  keep b r = do f ← r; ok (f, b)

  -- A store: the fact after it is put down.
  abbrev put_down : ℕ → Books a → Result Fact → Result (Fact × Books a)
  put_down i b r = do f ← r; ok (record_store i f b)

  module _ (fl : Flags) (ctx : Context) (interf : Map Fact) where
    open fl use {use_oct, no_combins}

    transfer_load : ℕ → Value → Option Fact → Fact → Result Fact
    transfer_load i ptr none f = perform_assign a use_oct ctx (local i) ptr f
    transfer_load i ptr (some g) f = assign_interf a use_oct ctx no_combins (local i) ptr f g

    transfer_binary : ℕ → Opcode → Value → Value → Fact → Result Fact
    transfer_binary i add v w f = perform_bin_op_mod a use_oct ctx add (local i) v w f
    transfer_binary i mul v w f = perform_bin_op_mod a use_oct ctx mul (local i) v w f
    transfer_binary i xor v w f = perform_logic_op a use_oct ctx xor (local i) v w f
    transfer_binary i other_op v w f = err assertion

    transfer_rmw : ℕ → Opcode → Value → Value → Option Fact → Fact → Result Fact
    transfer_rmw i op ptr v none f = perform_atomic_rmw a use_oct ctx (local i) op ptr v f
    transfer_rmw i op ptr v (some g) f =
        perform_atomic_rmw_interf a use_oct ctx no_combins (local i) op ptr v f g

    pub transfer_kind : ℕ → Kind → Fact → Books a → Result (Fact × Books a)
    unfolding transfer_call record_store transfer_load transfer_binary transfer_rmw
    transfer_kind i Kind.alloca f b = ok (f, b)
    transfer_kind i (Kind.store v p) f b = put_down i b (perform_assign a use_oct ctx p v f)
    transfer_kind i (Kind.load p) f b = keep b (transfer_load i p (find i interf) f)
    transfer_kind i (Kind.icmp p v w) f b =
        keep b (perform_assign_cmp a use_oct ctx (local i) v w p f)
    transfer_kind i (Kind.call c) f b = transfer_call i c f b
    transfer_kind i (Kind.binary op v w) f b = keep b (transfer_binary i op v w f)
    transfer_kind i (Kind.cast v) f b = keep b (perform_cast a use_oct ctx (local i) v f)
    transfer_kind i (Kind.phi vs) f b = keep b (perform_phi_inst a use_oct ctx (local i) vs f)
    transfer_kind i (Kind.atomic_rmw op p v) f b =
        put_down i b (transfer_rmw i op p v (find i interf) f)
    transfer_kind i (Kind.atomic_cmpxchg p) f b = err exit_failure
    transfer_kind i Kind.other_inst f b = err exit_failure

    unfoldable pub transfer_func : Inst → Fact → Books a → Result (Fact × Books a)
    unfolding transfer_kind
    transfer_func i f b = transfer_kind i.id i.kind f b

  -- An instruction off the slice only keeps the books of creations and stores.
  identity_kind : ℕ → Kind → Fact → Books a → Fact × Books a
  unfolding record_create record_store
  identity_kind i (Kind.call pthread_create) f b = record_create i f b
  identity_kind i (Kind.store v p) f b = record_store i f b
  identity_kind i k f b = (f, b)

  pub identity_transfer_func : Inst → Fact → Books a → Fact × Books a
  unfolding identity_kind
  identity_transfer_func i f b = identity_kind i.id i.kind f b

  module _ (fl : Flags) (ctx : Context) (interf : Map Fact) (sl : Slices) where
    -- The choice that `getFactInBBBefore` makes at each instruction.
    pub step_before : Inst → Fact → Books a → Result (Fact × Books a)
    unfolding transfer_func identity_transfer_func
    step_before i f b =
        if fl.assert_slice && count i.id sl.assert_slice_inv
        then ok (identity_transfer_func i f b)
        else transfer_func fl ctx interf i f b

    -- The choice that `getFactInBBAfter` makes at its last instruction.
    pub step_after : Inst → Fact → Books a → Result (Fact × Books a)
    unfolding transfer_func identity_transfer_func
    step_after i f b =
        if fl.assert_slice && count i.id sl.assert_slice_inv
        then ok (identity_transfer_func i f b)
        else if fl.impact && not (count i.id sl.impacted) && not (count i.id sl.may_impact)
        then ok (identity_transfer_func i f b)
        else transfer_func fl ctx interf i f b

    -- The instructions before the address `before`, which has to be met: `last` is the address of
    -- the terminator that ends the list.
    pub walk : ℕ → ℕ → List Inst → Fact → Books a → Result (Fact × Books a)
    unfolding step_before
    walk before last [] f b = if last == before then ok (f, b) else err exit_failure
    walk before last (i ∷ is) f b =
        if i.id == before then ok (f, b) else step_before i f b >>= λ r. walk before last is r.0 r.1

    unfoldable pub get_fact_in_bb_before : Block → ℕ → Fact → Books a → Result (Fact × Books a)
    unfolding walk
    get_fact_in_bb_before bb before f b = walk before bb.term_id bb.body f b

    pub get_fact_in_bb_after : Block → Inst → Fact → Books a → Result (Fact × Books a)
    unfolding get_fact_in_bb_before step_after
    get_fact_in_bb_after bb after f b = do
      r ← get_fact_in_bb_before bb after.id f b
      step_after after r.0 r.1

    -- The facts that the terminator passes on to the successors.
    unfoldable pub out_facts : Terminator → Fact → Result (List (ℕ × Fact))
    out_facts (br s) f = ok ((s, f) ∷ [])
    out_facts (cond_br v s t) f = do
      true_f ← constrain_tf a fl.use_oct ctx fl.constr_icmp v true f
      false_f ← constrain_tf a fl.use_oct ctx fl.constr_icmp v false f
      if s == t then err assertion else ok ((s, true_f) ∷ (t, false_f) ∷ [])
    out_facts ret f = ok []
    out_facts unreachable f = ok []
    out_facts other_term f = err assertion

    unfoldable pub run_transfer_funcs : Block → Fact → Books a → Result (List (ℕ × Fact) × Books a)
    unfolding get_fact_in_bb_before out_facts
    run_transfer_funcs bb f b = do
      r ← get_fact_in_bb_before bb bb.term_id f b
      outs ← out_facts bb.term r.0
      ok (outs, r.1)
