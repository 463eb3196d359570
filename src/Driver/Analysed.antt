-- ===== src/Driver/Analysed.antt =====
-- One round of the driver, without `dynInitG`: every site is analysed.
use watts.Prelude.{
  ◌⊎◌, ◌==◌, ==_iff, if◌then◌else◌, arith, ℕ, zero, suc, ◌≡◌, ◌∙◌, inl, inr, refl, sym, ap, subst,
  Bool-cases, true, false, Option, Option-cases, none, some, List, [], ◌∷◌, In, Result-cases,
  Failure, ok, err, ok-inj, >>=-eq-ok,
}
use watts.Prelude.Map.{Map, find, count, erase, emplace, find-erase, find-emplace}
use watts.Apron.{Apron}
use watts.ProgOrder.{filter_mhb_interfs}
use watts.Driver.{
  Shared, Found, State, Program, interfs_at, func_of, entry_of, cur_interfs, save, next_sites,
  prepare, analyze_site, process_threads,
}

-- Errors are kept.
abbrev pub KeepsErrors : Shared → Shared → Type 0
KeepsErrors s t = (n : ℕ) → count n s.errors ≡ true → count n t.errors ≡ true

module _ (a : Apron) (p : Program a) where
  open a use {Fact}
  open p use {opts, prog_init_state}

  -- An analysis forgets no error.
  abbrev pub IsMonotone : Type 0
  IsMonotone =
      (f : ℕ) (ci : Option ℕ) (cur : Map (List ℕ)) (new_stores : Map (Map Fact)) (entry : Fact)
      (s later : Shared) (found : Found a)
      → analyze_site a p f ci cur new_stores entry s ≡ some (ok (found, later))
      → KeepsErrors s later

  -- The stores that an analysis of the function with these interferences finds.
  abbrev pub Produced : Map (Map (List ℕ)) → ℕ → Map Fact → Type 0
  Produced interfs f stores =
      (ci : Option ℕ) × (s : Shared) × (next : Shared) × (cur : Map (List ℕ)) × (new_stores : Map
        (Map Fact))
      × (found : Found a) × (later : Shared) × (func_of a p ci ≡ ok f)
      × (cur_interfs a p f interfs s ≡ ok (next, cur))
      × (analyze_site a p f ci cur new_stores prog_init_state next ≡ some (ok (found, later)))
      × (found.new_stores ≡ stores)

  -- The stores are those of the round before, or found with these interferences.
  abbrev pub Known : Map (Map Fact) → Map (Map (List ℕ)) → Map (Map Fact) → Type 0
  Known old interfs stores =
      (g : ℕ) (m : Map Fact) → find g stores ≡ some m → (find g old ≡ some m) ⊎ Produced interfs g m

  -- The site was analysed from the initial state with the interferences of its function and stores
  -- that are known, and the errors that this found are among those of the state.
  abbrev pub Analysed : Map (Map (List ℕ)) → State a → Option ℕ → Type 0
  Analysed interfs done ci =
      (f : ℕ) × (s : Shared) × (next : Shared) × (cur : Map (List ℕ)) × (new_stores : Map
        (Map Fact))
      × (found : Found a) × (later : Shared) × (func_of a p ci ≡ ok f)
      × (cur_interfs a p f interfs s ≡ ok (next, cur))
      × (analyze_site a p f ci cur new_stores prog_init_state next ≡ some (ok (found, later)))
      × KeepsErrors later done.shared
      × Known done.all_reach_stores interfs new_stores

  -- What is kept for the function of the site was found with these interferences.
  abbrev pub Stored : Map (Map (List ℕ)) → State a → Option ℕ → Type 0
  Stored interfs done ci =
      (f : ℕ) × (m : Map Fact) × (func_of a p ci ≡ ok f)
      × (find f done.new_reach_stores ≡ some m)
      × Produced interfs f m

  -- What a round leaves as it is.
  pub record Leaves (st done : State a) : Type 0 where
    pub stores_left : st.all_reach_stores ≡ done.all_reach_stores
    pub interfs_left : st.interfs ≡ done.interfs
    pub funcs_left : st.thread_funcs ≡ done.thread_funcs
    pub errors_kept : KeepsErrors st.shared done.shared

  -- The stores of a function are as before, or found with these interferences.
  abbrev Changed : Map (Map (List ℕ)) → Map (Map Fact) → Map (Map Fact) → Type 0
  Changed interfs before after =
      (g : ℕ)
      → (find g before ≡ find g after)
        ⊎ ((m : Map Fact) × (find g after ≡ some m) × Produced interfs g m)

  -- What the loop over the sites has done.
  pub record Rounded (sites : List (Option ℕ)) (st done : State a) : Type 0 where
    pub left : Leaves st done
    pub each :
        (ci : Option ℕ) → In ci sites → Analysed st.interfs done ci × Stored st.interfs done ci
    pub changed : Changed st.interfs st.new_reach_stores done.new_reach_stores

  pub Known-after :
      (old : Map (Map Fact)) (interfs : Map (Map (List ℕ))) (before after : Map (Map Fact))
      → Changed interfs before after
      → Known old interfs before
      → Known old interfs after
  Known-after old interfs before after c k g m h = elim (c g) [
    | inl e ↦ k g m (e ∙ h)
    | inr (m', e, x) ↦ inr (subst (Produced interfs g) (the_same m' e) x)
  ]
    where
      the_same : (m' : Map Fact) → find g after ≡ some m' → m' ≡ m
      the_same m' e = cc

  Changed-trans :
      (interfs : Map (Map (List ℕ))) (x y z : Map (Map Fact))
      → Changed interfs x y
      → Changed interfs y z
      → Changed interfs x z
  Changed-trans interfs x y z c d g = elim (d g) [
    | inr w ↦ inr w
    | inl e ↦ elim (c g) [ inl e' ↦ inl (e' ∙ e) | inr (m, q, w) ↦ inr (m, sym e ∙ q, w) ]
  ]

  put_stores :
      (f g : ℕ) (m : Map Fact) (stores : Map (Map Fact))
      → find g (emplace f m (erase f stores)) ≡ (if f == g then some m else find g stores)
  put_stores f g m stores =
      ground (arith, find-emplace f g m (erase f stores) (gone f stores), find-erase f g stores)
    where
      gone : (f : ℕ) (stores : Map (Map Fact)) → find f (erase f stores) ≡ none
      gone f stores = ground (arith, find-erase f f stores)

  put-Changed :
      (interfs : Map (Map (List ℕ))) (f : ℕ) (m : Map Fact) (stores : Map (Map Fact))
      → Produced interfs f m
      → Changed interfs stores (emplace f m (erase f stores))
  put-Changed interfs f m stores x g = elim (Bool-cases (f == g)) [
    | inl b ↦ inr (
      m,
      put_stores f g m stores ∙ rw b refl,
      subst (λ (k : ℕ). Produced interfs k m) ((==_iff f g).0 b) x,
    )
    | inr b ↦ inl (sym (put_stores f g m stores ∙ rw b refl))
  ]

  module _ (off : opts.dyn_init ≡ false) (mono : IsMonotone) where
    cur_interfs-errors :
        (f : ℕ) (interfs : Map (Map (List ℕ))) (s next : Shared) (cur : Map (List ℕ))
        → cur_interfs a p f interfs s ≡ ok (next, cur)
        → s.errors ≡ next.errors
    unfolding cur_interfs
    cur_interfs-errors f interfs s next cur h = elim (Bool-cases (opts.filter_mhb)) [
      | inl b ↦
          let (r, e, k) =
            >>=-eq-ok (filter_mhb_interfs p.query (interfs_at a f interfs) (s.solver, s.answers)) _
              (rw (b, cur_interfs) at h) in
          ap (λ (x : Shared × Map (List ℕ)). x.0.errors) (ok-inj _ _ k)
      | inr b ↦
          ap (λ (x : Shared × Map (List ℕ)). x.0.errors)
            (ok-inj (s, interfs_at a f interfs) (next, cur) (rw (b, cur_interfs) at h))
    ]

    entry_here :
        (ci : Option ℕ) (st : State a) (x : Fact)
        → entry_of a p ci st.thread_entry_facts ≡ ok x
        → prog_init_state ≡ x
    unfolding entry_of
    entry_here none st x h = ok-inj _ _ h
    entry_here (some c) st x h = ok-inj _ _ (rw (off, entry_of) at h)

    prepare_parts :
        (ci : Option ℕ) (st : State a) (f : ℕ) (entry : Fact) (s : Shared) (cur : Map (List ℕ))
        → prepare a p ci st ≡ ok (f, entry, s, cur)
        → (func_of a p ci ≡ ok f)
          × (prog_init_state ≡ entry)
          × (cur_interfs a p f st.interfs st.shared ≡ ok (s, cur))
    unfolding prepare
    prepare_parts ci st f entry s cur h =
        let (g, e₁, h₁) = >>=-eq-ok (func_of a p ci) _ h in
        let (x, e₂, h₂) = >>=-eq-ok (entry_of a p ci st.thread_entry_facts) _ h₁ in
        let ((t, c), e₃, h₃) = >>=-eq-ok (cur_interfs a p g st.interfs st.shared) _ h₂ in
        let same = ok-inj (g, x, t, c) (f, entry, s, cur) h₃ in
        let at : g ≡ f = ap (λ (z : ℕ × Fact × Shared × Map (List ℕ)). z.0) same in
        (
          e₁ ∙ ap ok at,
          entry_here ci st x e₂ ∙ ap (λ (z : ℕ × Fact × Shared × Map (List ℕ)). z.1) same,
          subst (λ (k : ℕ). cur_interfs a p k st.interfs st.shared ≡ ok (s, cur)) at
              (e₃ ∙ ap (λ (z : ℕ × Fact × Shared × Map (List ℕ)). ok (z.2, z.3)) same),
        )

    pub process_threads-Rounded :
        (fuel : ℕ) (sites : List (Option ℕ)) (st done : State a)
        → Known st.all_reach_stores st.interfs st.new_reach_stores
        → process_threads a p fuel sites st ≡ some (ok done)
        → Rounded sites st done
    unfolding process_threads save
    process_threads-Rounded fuel [] st done known h = subst (Rounded [] st) (state_of h) (record {
      left = record {
        stores_left = refl;
        interfs_left = refl;
        funcs_left = refl;
        errors_kept = λ n x. x;
      };
      each = λ ci m. absurd m;
      changed = λ g. inl refl;
    })
      where
        state_of : some (ok st) ≡ some (ok done) → st ≡ done
        state_of e = cc
    process_threads-Rounded zero (ci ∷ sites) st done known h = cc
    process_threads-Rounded (suc fuel) (ci ∷ sites) st done known h =
        elim (Result-cases (prepare a p ci st)) [
          | inr (x, e) ↦ absurd (failed x (rw (e, process_threads) at h))
          | inl ((f, entry, s, cur), e) ↦
              let (func, at_start, taken) = prepare_parts ci st f entry s cur e in
              elim (Option-cases (analyze_site a p f ci cur st.new_reach_stores entry s)) [
                | inl q ↦ absurd (ended (rw (e, q, process_threads) at h))
                | inr (r, q) ↦ elim (Result-cases r) [
                  | inr (x, k) ↦ absurd (failed x (rw (e, q, k, process_threads) at h))
                  | inl ((found, later), k) ↦
                      let ran = q ∙ ap some k in
                      let here =
                        subst
                          (λ (x : Fact).
                            analyze_site a p f ci cur st.new_reach_stores x s
                            ≡ some (ok (found, later)))
                          (sym at_start) ran in
                      let produced : Produced st.interfs f found.new_stores = (
                        ci, st.shared, s, cur, st.new_reach_stores, found, later, func, taken, here,
                        refl,
                      ) in
                      let next = save a p f found later st in
                      let put =
                        put-Changed st.interfs f found.new_stores st.new_reach_stores produced in
                      let rest =
                        process_threads-Rounded fuel sites next done
                          (Known-after st.all_reach_stores st.interfs st.new_reach_stores
                            next.new_reach_stores put known)
                          (rw (e, q, k, off, process_threads, next_sites) at h) in
                      record {
                        left = record {
                          stores_left = rest.left.stores_left;
                          interfs_left = rest.left.interfs_left;
                          funcs_left = rest.left.funcs_left;
                          errors_kept = λ n x. rest.left.errors_kept n (
                              mono f ci cur st.new_reach_stores entry s later found ran n (
                                subst (λ (es : List ℕ). count n es ≡ true)
                                  (cur_interfs-errors f st.interfs st.shared s cur taken) x));
                        };
                        each = λ c m. elim m [
                          | inl same ↦
                              subst
                                (λ (x : Option ℕ).
                                  Analysed st.interfs done x × Stored st.interfs done x)
                                (sym same)
                                (
                                  (
                                    f,
                                    st.shared,
                                    s,
                                    cur,
                                    st.new_reach_stores,
                                    found,
                                    later,
                                    func,
                                    taken,
                                    here,
                                    rest.left.errors_kept,
                                    subst
                                        (λ (x : Map (Map Fact)).
                                          Known x st.interfs st.new_reach_stores)
                                        (rest.left.stores_left) known,
                                  ),
                                  kept st.interfs f found.new_stores st.new_reach_stores
                                      done.new_reach_stores ci func produced (rest.changed f),
                                )
                          | inr k ↦ rest.each c k
                        ];
                        changed =
                            Changed-trans st.interfs st.new_reach_stores next.new_reach_stores
                              done.new_reach_stores put rest.changed;
                      }
                ]
              ]
        ]
      where
        failed : (x : Failure) → ¬ (some (err x) ≡ some (ok done))
        failed x e = cc

        ended : ¬ (none ≡ some (ok done))
        ended e = cc

        kept :
            (interfs : Map (Map (List ℕ))) (f : ℕ) (m : Map Fact) (before after : Map (Map Fact))
            (ci : Option ℕ)
            → func_of a p ci ≡ ok f
            → Produced interfs f m
            → ((find f (emplace f m (erase f before)) ≡ find f after)
                ⊎ ((m' : Map Fact) × (find f after ≡ some m') × Produced interfs f m'))
            → (g : ℕ) × (m' : Map Fact) × (func_of a p ci ≡ ok g)
              × (find g after ≡ some m')
              × Produced interfs g m'
        kept interfs f m before after ci func x (inl e) =
            (f, m, func, sym e ∙ put_stores f f m before ∙ itself f m before, x)
          where
            itself :
                (f : ℕ) (m : Map Fact) (before : Map (Map Fact))
                → (if f == f then some m else find f before) ≡ some m
            itself f m before = ground arith
        kept interfs f m before after ci func x (inr (m', e, y)) = (f, m', func, e, y)
