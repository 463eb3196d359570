-- ===== src/Driver/Settled.antt =====
-- The rounds of the driver, without `dynInitG`: where they stop, the stores have settled and every
-- thread was analysed with the interferences of these stores.
use watts.Prelude.{
  ℕ, zero, suc, ◌≡◌, ◌⊎◌, ◌∙◌, inl, inr, refl, sym, ap, subst, ◌==◌, ==_iff, Bool-cases, true,
  false, Bool, Option, Option-cases, none, some, List, [], ◌∷◌, In, Result, Result-cases, Failure,
  ok, err, ok-inj, ◌>>=◌, >>=-eq-ok, if◌then◌else◌, arith,
}
use watts.Prelude.Map.{Map, find, assign, find-assign}
use watts.Apron.{Apron}
use watts.Interference.Stores.{get_interfering_stores, stable_stores}
use watts.Driver.{
  Shared, State, Program, interfs_at, on_slice, next_interfs, process_threads, rounds,
  analyze_threads, start, start_sites, is_empty,
}
use watts.Apron.Laws.{Sound}
use watts.Driver.Monotone.{IsWhole, threads-IsMonotone}
use watts.Driver.Analysed.{
  IsMonotone, Analysed, Stored, Known, Known-after, process_threads-Rounded,
}

module _ (a : Apron) (p : Program a) where
  open a use {Fact}
  open p use {opts, kind_of, loads_of}

  -- The interferences that the stores have with a function, as far as they are on the slice.
  abbrev pub interfs_of : ℕ → Map (Map Fact) → Result (Map (List ℕ))
  interfs_of f stores = do
    interf_stores ← get_interfering_stores kind_of f (loads_of f) stores
    on_slice a p interf_stores

  -- The interferences of the functions are those of the stores.
  abbrev pub Matches : List ℕ → Map (Map Fact) → Map (Map (List ℕ)) → Type 0
  Matches funcs stores interfs =
      (f : ℕ) → In f funcs → interfs_of f stores ≡ ok (interfs_at a f interfs)

  assigned :
      (f g : ℕ) (cur : Map (List ℕ)) (interfs : Map (Map (List ℕ)))
      → interfs_at a g (assign f cur interfs) ≡ (if f == g then cur else interfs_at a g interfs)
  unfolding interfs_at
  assigned f g cur interfs = rw (find-assign f g cur interfs, interfs_at) (by_key (f == g))
    where
      by_key :
          (b : Bool)
          → elim (if b then some cur else find g interfs) [ none ↦ [] | some c ↦ c ]
            ≡ (if b then cur else elim (find g interfs) [ none ↦ [] | some c ↦ c ])
      by_key true = refl
      by_key false = refl

  next_interfs-Matches :
      (funcs : List ℕ) (stores : Map (Map Fact)) (interfs last : Map (Map (List ℕ)))
      → next_interfs a p funcs stores interfs ≡ ok last
      → (g : ℕ) → (In g funcs ⊎ (interfs_of g stores ≡ ok (interfs_at a g interfs)))
      → interfs_of g stores ≡ ok (interfs_at a g last)
  unfolding next_interfs
  next_interfs-Matches [] stores interfs last h g (inl m) = absurd m
  next_interfs-Matches [] stores interfs last h g (inr k) =
      k ∙ ap (λ (x : Map (Map (List ℕ))). ok (interfs_at a g x)) (ok-inj interfs last h)
  next_interfs-Matches (f ∷ funcs) stores interfs last h g m =
      let (raw, e, h₁) = >>=-eq-ok (get_interfering_stores kind_of f (loads_of f) stores) _ h in
      let (cur, e', h₂) = >>=-eq-ok (on_slice a p raw) _ h₁ in
      next_interfs-Matches funcs stores (assign f cur interfs) last h₂ g (step cur (rw e e') m)
    where
      step :
          (cur : Map (List ℕ))
          → interfs_of f stores ≡ ok cur
          → (In g (f ∷ funcs) ⊎ (interfs_of g stores ≡ ok (interfs_at a g interfs)))
          → In g funcs ⊎ (interfs_of g stores ≡ ok (interfs_at a g (assign f cur interfs)))
      step cur e (inl (inr k)) = inl k
      step cur e (inl (inl same)) = inr (
          subst (λ (x : ℕ). interfs_of x stores ≡ ok (interfs_at a x (assign f cur interfs)))
            (sym same) (e ∙ ap ok (sym (assigned f f cur interfs ∙ here))))
        where
          here : (if f == f then cur else interfs_at a f interfs) ≡ cur
          here = ground arith
      step cur e (inr k) = elim (Bool-cases (f == g)) [
        | inl b ↦ inr (
            subst (λ (x : ℕ). interfs_of x stores ≡ ok (interfs_at a x (assign f cur interfs)))
              ((==_iff f g).0 b) (e ∙ ap ok (sym (assigned f f cur interfs ∙ here))))
        | inr b ↦ inr (k ∙ ap ok (sym (assigned f g cur interfs ∙ rw b refl)))
      ]
        where
          here : (if f == f then cur else interfs_at a f interfs) ≡ cur
          here = ground arith

  -- Where the rounds stop.
  pub record IsSettled (sites : List (Option ℕ)) (last : State a) : Type 0 where
    -- the interferences are those of the stores of the round before
    pub current : Matches last.thread_funcs last.all_reach_stores last.interfs
    -- to which the last round adds nothing
    pub stable :
        stable_stores a.is_eq a.is_leq a.is_bottom last.all_reach_stores last.new_reach_stores
        ≡ ok true
    -- every site was analysed with them, on stores of that round or found with them, the errors that
    -- this found were kept, and the stores of the site's function are what an analysis found
    pub analysed :
        (ci : Option ℕ)
        → In ci sites
        → Analysed a p last.interfs last ci × Stored a p last.interfs last ci
    -- and no other stores are kept but those of the round before
    pub known : Known a p last.all_reach_stores last.interfs last.new_reach_stores

  module _ (off : opts.dyn_init ≡ false) (mono : IsMonotone a p) (sites : List (Option ℕ))
      (fuel : ℕ) where
    rounds-IsSettled :
        (iters : ℕ) (st last : State a)
        → Matches st.thread_funcs st.all_reach_stores st.interfs
        → rounds a p false sites fuel iters st ≡ some (ok last)
        → IsSettled sites last
    unfolding rounds
    rounds-IsSettled zero st last m h = cc
    rounds-IsSettled (suc iters) st last m h =
        let begin : State a = record st { new_reach_stores = st.all_reach_stores } in
        elim (Option-cases (process_threads a p fuel sites begin)) [
          | inl q ↦ absurd (ended (rw (q, rounds) at h))
          | inr (r, q) ↦ elim (Result-cases r) [
            | inr (x, k) ↦ absurd (failed x (rw (q, k, rounds) at h))
            | inl (done, k) ↦
                let round =
                  process_threads-Rounded a p off mono fuel sites begin done (λ g m e. inl e)
                    (q ∙ ap some k) in
                let left = round.left in
                let now : Matches done.thread_funcs done.all_reach_stores done.interfs =
                  rw (sym left.funcs_left, sym left.stores_left, sym left.interfs_left) m in
                elim (Result-cases (
                  stable_stores a.is_eq a.is_leq a.is_bottom done.all_reach_stores
                    done.new_reach_stores)) [
                      | inr (x, e) ↦ absurd (failed x (rw (q, k, e, rounds) at h))
                      | inl (b, e) ↦ elim (Bool-cases b) [
                        | inl t ↦
                            let same : done ≡ last = state_of done (rw (q, k, e, t, rounds) at h) in
                            subst (IsSettled sites) same (record {
                              current = now;
                              stable = e ∙ ap ok t;
                              analysed = λ ci c.
                                  subst
                                    (λ (i : Map (Map (List ℕ))).
                                      Analysed a p i done ci × Stored a p i done ci)
                                    left.interfs_left (round.each ci c);
                              known =
                                  rw (left.stores_left, left.interfs_left) at
                                    (Known-after a p st.all_reach_stores st.interfs
                                      st.all_reach_stores done.new_reach_stores round.changed
                                      (λ g m e. inl e));
                            })
                        | inr t ↦
                            elim (Result-cases (
                              next_interfs a p done.thread_funcs done.new_reach_stores
                                done.interfs)) [
                                  | inr (x, n) ↦ absurd (failed x (rw (q, k, e, t, n, rounds) at h))
                                  | inl (interfs, n) ↦
                                      rounds-IsSettled iters
                                        (record done {
                                          interfs = interfs;
                                          all_reach_stores = done.new_reach_stores;
                                        })
                                        last
                                        (λ f c.
                                          next_interfs-Matches done.thread_funcs
                                            done.new_reach_stores done.interfs interfs n f (inl c))
                                        (rw (q, k, e, t, n, rounds) at h)
                                ]
                      ]
                    ]
          ]
        ]
      where
        failed : (x : Failure) → ¬ (some (err x) ≡ some (ok last))
        failed x e = cc

        ended : ¬ (none ≡ some (ok last))
        ended e = cc

        state_of : (done : State a) → some (ok done) ≡ some (ok last) → done ≡ last
        state_of done e = cc

  no_interfs : (f : ℕ) → interfs_of f [] ≡ ok []
  unfolding get_interfering_stores on_slice
  no_interfs f = refl

  -- Without `dynInitG`, for a program with a call that creates a thread, whose threads are
  -- analysed by `analyzeThreadInterf` without the assertion slice and have no terminator with the
  -- address of an instruction of its block: when the loop of `runOnModule` returns, the
  -- interferences are those that `getInterferingStores` has for the stores of the round before,
  -- and the stores of the last round are stable to these. Every site was analysed with these
  -- interferences, on stores of the round before or found with these interferences, with what
  -- errors this found among the errors in the end. The stores that are kept in the end for the
  -- site's function were found by an analysis of the function with these interferences, and what
  -- is kept for any other function was there the round before or was found so.
  pub analyze_threads-IsSettled :
      (l : Sound a) (funcs : List ℕ) (ci : ℕ) (calls : List ℕ) (fuel iters : ℕ) (s : Shared)
      (last : State a)
      → opts.dyn_init ≡ false
      → IsWhole a l p
      → analyze_threads a p funcs (ci ∷ calls) fuel iters s ≡ some (ok last)
      → IsSettled (start_sites a p (ci ∷ calls)) last
  unfolding analyze_threads start is_empty interfs_at find
  analyze_threads-IsSettled l funcs ci calls fuel iters s last off whole h =
      rounds-IsSettled off (threads-IsMonotone a l p whole) (start_sites a p (ci ∷ calls)) fuel
        iters (start a p funcs s) last (λ f m. no_interfs f) h
