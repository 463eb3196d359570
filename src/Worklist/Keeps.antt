-- ===== src/Worklist/Keeps.antt =====
-- The fixpoint loop of `analyzeFunc` keeps what every run of a block keeps on the books.
use watts.Prelude.{
  ℕ, zero, suc, ◌≡◌, inl, inr, subst, Bool-cases, Option, Option-cases, some, List, [], ◌∷◌, Result,
  Result-cases, Failure, ok, err,
}
use watts.Prelude.Map.{Map, find, erase, emplace}
use watts.Apron.{Apron}
use watts.Worklist.{init_bbs, merge_worklist, fixpoint, analyze_from}

module _ (a : Apron) {B : Type 0} (run : ℕ → a.Fact → B → Result (List (ℕ × a.Fact) × B))
    (Keeps : B → Type 0)
    (each : (k : ℕ) (f : a.Fact) (b b' : B) (outs : List (ℕ × a.Fact))
      → run k f b ≡ ok (outs, b')
      → Keeps b
      → Keeps b') where
  open a use {Fact, is_leq, bottom}

  abbrev ended : Map Fact × B → Option (Result (Map Fact × B))
  ended r = some (ok r)

  books_of : (r q : Map Fact × B) → ended r ≡ ended q → r.1 ≡ q.1
  books_of r q h = cc

  not_failed : (x : Failure) (q : Map Fact × B) → ¬ (some (err x) ≡ ended q)
  not_failed x q h = cc

  fixpoint-Keeps :
      (fuel : ℕ) (wl state last : Map Fact) (b b' : B)
      → fixpoint a run fuel wl state b ≡ ended (last, b')
      → Keeps b
      → Keeps b'
  unfolding fixpoint
  fixpoint-Keeps fuel [] state last b b' h k = subst Keeps (books_of (state, b) (last, b') h) k
  fixpoint-Keeps zero ((j, f) ∷ wl) state last b b' h k = cc
  fixpoint-Keeps (suc fuel) ((j, f) ∷ wl) state last b b' h k = elim (Option-cases (find j state)) [
    | inl e ↦ absurd (not_failed _ (last, b') (rw (e, fixpoint) at h))
    | inr (old, e) ↦ elim (Bool-cases (is_leq f old)) [
      | inl t ↦ fixpoint-Keeps fuel wl state last b b' (rw (e, t, fixpoint) at h) k
      | inr t ↦ elim (Result-cases (run j f b)) [
        | inr (x, r) ↦ absurd (not_failed x (last, b') (rw (e, t, r, fixpoint) at h))
        | inl ((outs, c), r) ↦
            fixpoint-Keeps fuel (merge_worklist a wl outs) (emplace j f (erase j state)) last c b'
              (rw (e, t, r, fixpoint) at h) (each j f b c outs r k)
      ]
    ]
  ]

  pub analyze_from-Keeps :
      (fuel : ℕ) (blocks : List ℕ) (entry : ℕ) (f : Fact) (last : Map Fact) (b b' : B)
      → analyze_from a run fuel blocks entry f b ≡ ended (last, b')
      → Keeps b
      → Keeps b'
  unfolding analyze_from
  analyze_from-Keeps fuel blocks entry f last b b' h k =
      fixpoint-Keeps fuel ((entry, f) ∷ []) (init_bbs a bottom blocks) last b b' h k
