-- ===== src/ValToStrDb/Texts/Dict.antt =====
-- Maps from texts: entries in the order in which they came.
use watts.Prelude.{
  suc, ◌≡◌, ==_iff, ◌↔◌, refl, true, if◌then◌else◌, Option, none, some, List, [], ◌∷◌, length,
  arith,
}
use watts.ValToStrDb.Texts.{Text, same}

abbrev pub Dict : Type 0 → Type 0
Dict V = List (Text × V)

pub same_iff : (s t : Text) → (same s t ≡ true) ↔ (s ≡ t)
unfolding same
same_iff [] [] = ground arith
same_iff [] (d ∷ t) = ground arith
same_iff (c ∷ s) [] = ground arith
same_iff (c ∷ s) (d ∷ t) = ground (arith, ==_iff c d, same_iff s t)

module _ {V : Type 0} where
  unfoldable pub lookup : Text → Dict V → Option V
  unfolding same
  lookup k [] = none
  lookup k ((j, v) ∷ m) = if same j k then some v else lookup k m

  -- `m[k] = v`
  unfoldable pub set_at : Text → V → Dict V → Dict V
  unfolding same
  set_at k v [] = (k, v) ∷ []
  set_at k v ((j, w) ∷ m) = if same j k then (j, v) ∷ m else (j, w) ∷ set_at k v m

  pub lookup-set_at :
      (k j : Text) (v : V) (m : Dict V)
      → lookup j (set_at k v m) ≡ (if same k j then some v else lookup j m)
  unfolding lookup set_at
  lookup-set_at k j v [] = refl
  lookup-set_at k j v ((i, w) ∷ m) =
      ground (arith, same_iff k j, same_iff i k, same_iff i j, lookup-set_at k j v m)

  pub length-set_at :
      (k : Text) (v : V) (m : Dict V) → lookup k m ≡ none → length (set_at k v m) ≡ suc (length m)
  unfolding lookup set_at
  length-set_at k v [] h = refl
  length-set_at k v ((j, w) ∷ m) h = ground (arith, length-set_at k v m)
