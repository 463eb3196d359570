-- ===== src/Interference/Stores.antt =====
-- worklist-ai/worklistai.cpp: the stores that interfere with the loads of a thread, and the test of
-- whether the facts at the stores have settled. Threads and instructions are numbers; `kind_of` reads
-- an instruction.
pub mod Listed
pub mod Settled
use watts.Prelude.{
  ℕ, ◌==◌, ◌&&◌, not, Bool, true, false, if◌then◌else◌, Option, none, some, List, [], ◌∷◌, ◌++◌,
  Result, ok, err, assertion, ◌>>=◌,
}
use watts.Prelude.Map.{Map, find, erase, emplace}
use watts.Llvm.{Value, value_eq, Kind, load, store, atomic_rmw}

-- `Utils::mapInsertToVector`
unfoldable pub map_insert_to_vector : ℕ → ℕ → Map (List ℕ) → Map (List ℕ)
unfolding find emplace erase
map_insert_to_vector k v m = elim (find k m) [
  | none ↦ emplace k (v ∷ []) m
  | some old ↦ emplace k (old ++ (v ∷ [])) (erase k m)
]

-- Whether the store `s` and the load `l` are to one pointer; any other kinds fail an assertion.
unfoldable pub load_store_same_val : Kind → Kind → Result Bool
load_store_same_val (store v p) (load q) = ok (value_eq p q)
load_store_same_val (store v p) (atomic_rmw o q w) = ok (value_eq p q)
load_store_same_val (atomic_rmw o p v) (load q) = ok (value_eq p q)
load_store_same_val (atomic_rmw o p v) (atomic_rmw o' q w) = ok (value_eq p q)
load_store_same_val _ _ = err assertion

module _ {A : Type 0} (kind_of : ℕ → Kind) where
  -- The stores of one thread for one load.
  unfoldable pub interfere_load : ℕ → Map A → Map (List ℕ) → Result (Map (List ℕ))
  unfolding load_store_same_val map_insert_to_vector
  interfere_load l [] ret = ok ret
  interfere_load l ((s, fact) ∷ stores) ret = do
    same ← load_store_same_val (kind_of s) (kind_of l)
    interfere_load l stores (if same then map_insert_to_vector l s ret else ret)

  -- The stores of one thread for all the loads.
  unfoldable pub interfere_thread : List ℕ → Map A → Map (List ℕ) → Result (Map (List ℕ))
  unfolding interfere_load
  interfere_thread [] stores ret = ok ret
  interfere_thread (l ∷ loads) stores ret = do
    next ← interfere_load l stores ret
    interfere_thread loads stores next

  unfoldable pub interfere_from : ℕ → List ℕ → Map (Map A) → Map (List ℕ) → Result (Map (List ℕ))
  unfolding interfere_thread
  interfere_from f loads [] ret = ok ret
  interfere_from f loads ((other, stores) ∷ r_stores) ret = do
    next ← (if other == f then ok ret else interfere_thread loads stores ret)
    interfere_from f loads r_stores next

  -- The thread `f`, its loads, and the stores of all threads.
  unfoldable pub get_interfering_stores : ℕ → List ℕ → Map (Map A) → Result (Map (List ℕ))
  unfolding interfere_from
  get_interfering_stores f loads r_stores = interfere_from f loads r_stores []

module _ {A : Type 0} where
  -- The facts of one thread put into one map; a store that is met twice fails an assertion.
  unfoldable pub flatten_thread : Map A → Map A → Result (Map A)
  unfolding find emplace
  flatten_thread [] facts = ok facts
  flatten_thread ((s, f) ∷ stores) facts = elim (find s facts) [
    | none ↦ flatten_thread stores (emplace s f facts)
    | some g ↦ err assertion
  ]

  unfoldable pub flatten_from : Map (Map A) → Map A → Result (Map A)
  unfolding flatten_thread
  flatten_from [] facts = ok facts
  flatten_from ((f, stores) ∷ reach_strs) facts = do
    next ← flatten_thread stores facts
    flatten_from reach_strs next

  unfoldable pub flatten_reach_stores : Map (Map A) → Result (Map A)
  unfolding flatten_from
  flatten_reach_stores reach_strs = flatten_from reach_strs []

  -- `ap_abstract1_is_eq`, `ap_abstract1_is_leq` and `ap_abstract1_is_bottom`
  module _ (eq leq : A → A → Bool) (is_bottom : A → Bool) where
    unfoldable pub stable_from : Map A → Map A → Result Bool
    unfolding find
    stable_from flat_old [] = ok true
    stable_from flat_old ((s, new_f) ∷ flat_new) =
        let rest = stable_from flat_old flat_new in
        elim (find s flat_old) [
          | none ↦ if is_bottom new_f then err assertion else ok false
          | some old_f ↦ if not (eq new_f old_f) && leq old_f new_f then ok false else rest
        ]

    unfoldable pub stable_stores : Map (Map A) → Map (Map A) → Result Bool
    unfolding flatten_reach_stores stable_from
    stable_stores old_i new_i = do
      flat_old ← flatten_reach_stores old_i
      flat_new ← flatten_reach_stores new_i
      stable_from flat_old flat_new
