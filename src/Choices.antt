-- ===== src/Choices.antt =====
-- worklist-ai/worklistai.cpp: the choices of `analyzeThreadInterf` and how `testCurPerm` turns a
-- permutation into the interferences of the loads. Explore has the rest of the two.
pub mod Total
use watts.Prelude.{
  ℕ, zero, suc, ◌==◌, if◌then◌else◌, Bool, true, false, Option, none, some, List, [], ◌∷◌, length,
  get_elem?, Result, ok, err, assertion, ◌>>=◌, or_fail,
}
use watts.Prelude.Map.{Map, find, emplace}
use watts.Apron.{Apron}

-- One choice more than there are stores: the load may read its own memory.
unfoldable pub choices_per_load : Map (List ℕ) → List ℕ
choices_per_load [] = []
choices_per_load ((l, sts) ∷ interfs) = suc (length sts) ∷ choices_per_load interfs

module _ (a : Apron) where
  open a use {Fact}

  -- The entry of one load: choice 0 is its own memory, and a choice out of bounds, a load that has
  -- an entry, or a store without a fact fails an assertion.
  unfoldable choose : ℕ → ℕ → List ℕ → Map Fact → Map Fact → Result (Map Fact)
  choose zero l sts facts cur = ok cur
  choose (suc idx) l sts facts cur = do
    st ← or_fail (get_elem? sts idx) assertion
    f ← or_fail (find st facts) assertion
    elim (find l cur) [ none ↦ ok (emplace l f cur) | some g ↦ err assertion ]

  unfoldable gather : List ℕ → Map (List ℕ) → Map Fact → Map Fact → Result (Map Fact)
  unfolding choose
  gather perm [] facts cur = ok cur
  gather [] ((l, sts) ∷ interfs) facts cur = err assertion
  gather (p ∷ perm) ((l, sts) ∷ interfs) facts cur = do
    next ← choose p l sts facts cur
    gather perm interfs facts next

  unfoldable pub cur_interf_map : List ℕ → Map (List ℕ) → Map Fact → Result (Map Fact)
  unfolding gather
  cur_interf_map perm interfs facts =
      if length perm == length interfs then gather perm interfs facts [] else err assertion
