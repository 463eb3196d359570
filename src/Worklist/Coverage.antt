-- ===== src/Worklist/Coverage.antt =====
-- What the loop covers: every concrete run from the entry stays inside facts on which the blocks
-- were run, so whatever the runs put on the books is there for every reachable state.
use watts.Prelude.{
  ℕ, zero, suc, ◌≡◌, ◌≢◌, ◌⊎◌, inl, inr, sym, ap, subst, ==_iff, true, some, List, [], ◌∷◌, In,
  Result, Failure, ok, err, arith, Bool-cases, Option-cases, Result-cases,
}
use watts.Prelude.Map.{Map, find, erase, emplace, find-erase, find-emplace, find-emplace_cases}
use watts.Apron.{Apron, Env}
use watts.Apron.Laws.{Sound}
use watts.Worklist.{init_bbs, merge_worklist, fixpoint, analyze_from}
use watts.Worklist.Pending.{Pending, merge-Pending, find_self, ==-cases}

-- The concrete runs: from block `entry` with valuation `e₀`, block by block.
pub data Reaches (Goes : ℕ → Env → ℕ → Env → Type 0) (entry : ℕ) (start : Env)
    : ℕ → Env → Type 0 where
  here : Reaches Goes entry start entry start
  step :
      {k j : ℕ} {e d : Env}
      → Reaches Goes entry start k e
      → Goes k e j d
      → Reaches Goes entry start j d

module _ (a : Apron) (l : Sound a) {B : Type 0}
    (run : ℕ → a.Fact → B → Result (List (ℕ × a.Fact) × B)) (Goes : ℕ → Env → ℕ → Env → Type 0)
    (Noted : ℕ → Env → B → Type 0) where
  open a use {Fact, is_leq, bottom}
  open l use {Covers}

  -- The run of a block covers each concrete step, notes what it meets, and erases no note.
  pub record RunSound : Type 0 where
    pub forward :
        (k : ℕ) (f : Fact) (b : B) (outs : List (ℕ × Fact)) (b' : B) (e : Env) (j : ℕ) (d : Env)
        → run k f b ≡ ok (outs, b')
        → Covers f e
        → Goes k e j d
        → (g : Fact) × In (j, g) outs × Covers g d
    pub notes :
        (k : ℕ) (f : Fact) (b : B) (outs : List (ℕ × Fact)) (b' : B) (e : Env)
        → run k f b ≡ ok (outs, b')
        → Covers f e
        → Noted k e b'
    pub keeps :
        (k : ℕ) (f : Fact) (b : B) (outs : List (ℕ × Fact)) (b' : B) (j : ℕ) (e : Env)
        → run k f b ≡ ok (outs, b')
        → Noted j e b
        → Noted j e b'

  -- Some fact that block `k` was run on covers the valuation.
  abbrev Done : ℕ → Env → List (ℕ × Fact) → Type 0
  Done k e done = (g : Fact) × In (k, g) done × Covers g e

  record Inv (done : List (ℕ × Fact)) (wl state : Map Fact) (b : B) : Type 0 where
    noted : (k : ℕ) (e : Env) → Done k e done → Noted k e b
    onward :
        (k : ℕ) (e : Env) (j : ℕ) (d : Env)
        → Done k e done
        → Goes k e j d
        → Pending a l j d wl ⊎ Done j d done
    kept : (k : ℕ) (e : Env) → Pending a l k e state → Done k e done

  -- A pending valuation is covered by the first entry, or pending in the others.
  pop :
      (k : ℕ) (f : Fact) (wl : Map Fact) (j : ℕ) (e : Env)
      → Pending a l j e ((k, f) ∷ wl)
      → ((j ≡ k) × Covers f e) ⊎ Pending a l j e wl
  unfolding find
  pop k f wl j e (g, p, c) = elim (==-cases a l k j) [
    | inl same ↦ inl (sym same, subst (λ (x : Fact). Covers x e) (ground (arith, ==_iff k j)) c)
    | inr other ↦ inr (g, ground (arith, ==_iff k j), c)
  ]

  -- Dropping an entry that the state has already.
  Inv-drop :
      (done : List (ℕ × Fact)) (k : ℕ) (f old : Fact) (wl state : Map Fact) (b : B)
      → find k state ≡ some old
      → is_leq f old ≡ true
      → Inv done ((k, f) ∷ wl) state b
      → Inv done wl state b
  Inv-drop done k f old wl state b q le v = record {
    noted = v.noted;
    onward = λ i e j d m s. settle j d (v.onward i e j d m s);
    kept = v.kept;
  }
    where
      settle :
          (j : ℕ) (d : Env)
          → (Pending a l j d ((k, f) ∷ wl) ⊎ Done j d done)
          → Pending a l j d wl ⊎ Done j d done
      settle j d (inr m) = inr m
      settle j d (inl p) = elim (pop k f wl j d p) [
        | inl (same, c) ↦ inr (v.kept j d (old, rw same q, l.leq_sound f old d le c))
        | inr later ↦ inl later
      ]

  -- Running a block on an entry that the state does not have.
  module _ (rs : RunSound) (done : List (ℕ × Fact)) (k : ℕ) (f : Fact) (wl state : Map Fact) (b : B)
      (outs : List (ℕ × Fact)) (b' : B) (ran : run k f b ≡ ok (outs, b'))
      (v : Inv done ((k, f) ∷ wl) state b) where
    now-Done :
        (j : ℕ) (d : Env)
        → Pending a l j d ((k, f) ∷ wl)
        → Pending a l j d (merge_worklist a wl outs) ⊎ Done j d ((k, f) ∷ done)
    now-Done j d p = elim (pop k f wl j d p) [
      | inl (same, c) ↦ inr (f, inl (ap (λ (x : ℕ). (x, f)) same), c)
      | inr later ↦ inl (merge-Pending a l outs wl j d (inl later))
    ]

    Noted-after : (j : ℕ) (e : Env) → Done j e ((k, f) ∷ done) → Noted j e b'
    Noted-after j e (g, inl m, c) =
        subst (λ (x : ℕ). Noted x e b') (sym (ap (λ (p : ℕ × Fact). p.0) m))
          (rs.notes k f b outs b' e ran
            (subst (λ (x : Fact). Covers x e) (ap (λ (p : ℕ × Fact). p.1) m) c))
    Noted-after j e (g, inr m, c) = rs.keeps k f b outs b' j e ran (v.noted j e (g, m, c))

    onward_after :
        (i : ℕ) (e : Env) (j : ℕ) (d : Env)
        → Done i e ((k, f) ∷ done)
        → Goes i e j d
        → Pending a l j d (merge_worklist a wl outs) ⊎ Done j d ((k, f) ∷ done)
    onward_after i e j d (g, inl m, c) s = inl (
        merge-Pending a l outs wl j d (
          inr (
            rs.forward k f b outs b' e j d ran
              (subst (λ (x : Fact). Covers x e) (ap (λ (p : ℕ × Fact). p.1) m) c)
              (subst (λ (x : ℕ). Goes x e j d) (ap (λ (p : ℕ × Fact). p.0) m) s))))
    onward_after i e j d (g, inr m, c) s = elim (v.onward i e j d (g, m, c) s) [
      | inl p ↦ now-Done j d p
      | inr (h, n, c') ↦ inr (h, inr n, c')
    ]

    kept_after :
        (j : ℕ) (e : Env) → Pending a l j e (emplace k f (erase k state)) → Done j e ((k, f) ∷ done)
    kept_after j e (g, q, c) = elim (==-cases a l k j) [
      | inl same ↦ (
        f,
        inl (ap (λ (x : ℕ). (x, f)) (sym same)),
        subst (λ (x : Fact). Covers x e)
            (ground (arith, ==_iff k j, find-emplace k j f (erase k state) (find_self a l k state)))
            c,
      )
      | inr other ↦
          let (h, n, c') = v.kept j e (
            g,
            ground (
              arith,
              ==_iff k j,
              find-emplace k j f (erase k state) (find_self a l k state),
              find-erase k j state,
            ),
            c,
          ) in
          (h, inr n, c')
    ]

    Inv-run : Inv ((k, f) ∷ done) (merge_worklist a wl outs) (emplace k f (erase k state)) b'
    Inv-run = record { noted = Noted-after; onward = onward_after; kept = kept_after }

  -- At the end nothing is pending, so the facts that blocks were run on are closed under steps.
  abbrev Closed : List (ℕ × Fact) → B → Type 0
  Closed done b =
      ((k : ℕ) (e : Env) → Done k e done → Noted k e b)
      × ((k : ℕ) (e : Env) (j : ℕ) (d : Env) → Done k e done → Goes k e j d → Done j d done)

  find_none : (k : ℕ) (g : Fact) → find k [] ≢ some g
  unfolding find
  find_none k g h = cc

  err≢ok : {e : Failure} {r : Map Fact × B} → some (err e) ≢ some (ok r)
  err≢ok h = cc

  abbrev Ended : List (ℕ × Fact) → Map Fact → B → Type 0
  Ended done wl b =
      (all : List (ℕ × Fact)) × Closed all b
      × ((k : ℕ) (e : Env) → (Pending a l k e wl ⊎ Done k e done) → Done k e all)

  fixpoint-Ended :
      (rs : RunSound) (fuel : ℕ) (done : List (ℕ × Fact)) (wl state s : Map Fact) (b b' : B)
      → Inv done wl state b
      → fixpoint a run fuel wl state b ≡ some (ok (s, b'))
      → Ended done wl b'
  unfolding fixpoint
  fixpoint-Ended rs fuel done [] state s b b' v h =
      let same : b ≡ b' = ground arith in
      subst (Ended done []) same (
        done,
        (
          v.noted,
          λ k e j d m st. elim (v.onward k e j d m st) [
            | inl (g, q, c) ↦ absurd (find_none j g q)
            | inr n ↦ n
          ],
        ),
        λ k e. elim [ inl (g, q, c) ↦ absurd (find_none k g q) | inr m ↦ m ],
      )
  fixpoint-Ended rs zero done ((k, f) ∷ wl) state s b b' v h = cc
  fixpoint-Ended rs (suc fuel) done ((k, f) ∷ wl) state s b b' v h =
      elim (Option-cases (find k state)) [
        | inl q ↦ absurd (err≢ok (rw (q, fixpoint) at h))
        | inr (old, q) ↦ elim (Bool-cases (is_leq f old)) [
          | inl le ↦
              let (all, closed, holds) =
                fixpoint-Ended rs fuel done wl state s b b'
                  (Inv-drop done k f old wl state b q le v) (rw (q, le, fixpoint) at h) in
              (
                all,
                closed,
                λ j d. elim [
                  | inl p ↦ elim (pop k f wl j d p) [
                    | inl (same, c) ↦
                        holds j d (inr (v.kept j d (old, rw same q, l.leq_sound f old d le c)))
                    | inr later ↦ holds j d (inl later)
                  ]
                  | inr m ↦ holds j d (inr m)
                ],
              )
          | inr gt ↦ elim (Result-cases (run k f b)) [
            | inr (x, r) ↦ absurd (err≢ok (rw (q, gt, r, fixpoint) at h))
            | inl ((outs, b''), r) ↦
                let (all, closed, holds) =
                  fixpoint-Ended rs fuel ((k, f) ∷ done) (merge_worklist a wl outs)
                    (emplace k f (erase k state)) s b'' b'
                    (Inv-run rs done k f wl state b outs b'' r v) (rw (q, gt, r, fixpoint) at h) in
                (
                  all,
                  closed,
                  λ j d. elim [
                    | inl p ↦ holds j d (now-Done rs done k f wl state b outs b'' r v j d p)
                    | inr (g, m, c) ↦ holds j d (inr (g, inr m, c))
                  ],
                )
          ]
        ]
      ]

  find-init_bbs :
      (f : Fact) (bs : List ℕ) (k : ℕ) (g : Fact) → find k (init_bbs a f bs) ≡ some g → g ≡ f
  unfolding init_bbs
  find-init_bbs f [] k g h = absurd (find_none k g h)
  find-init_bbs f (b ∷ bs) k g h = elim (find-emplace_cases b k f g (init_bbs a f bs) h) [
    | inl e ↦ e
    | inr q ↦ find-init_bbs f bs k g q
  ]

  find_entry : (k : ℕ) (f : Fact) → find k ((k, f) ∷ []) ≡ some f
  unfolding find
  find_entry k f = ground arith

  Inv-start :
      (blocks : List ℕ) (entry : ℕ) (f : Fact) (b : B)
      → Inv [] ((entry, f) ∷ []) (init_bbs a bottom blocks) b
  Inv-start blocks entry f b = record {
    noted = λ k e (g, m, c). absurd m;
    onward = λ k e j d (g, m, c) s. absurd m;
    kept = λ k e (g, q, c). absurd (
        l.bottom-Covers e (subst (λ (x : Fact). Covers x e) (find-init_bbs bottom blocks k g q) c));
  }

  Reaches-Done :
      (done : List (ℕ × Fact)) (b : B) (entry : ℕ) (start : Env)
      → Closed done b
      → Done entry start done
      → (k : ℕ) (e : Env) → Reaches Goes entry start k e
      → Done k e done
  Reaches-Done done b entry start c d k e here = d
  Reaches-Done done b entry start c d k e (step {k = j} {e = d'} r s) =
      c.1 j d' k e (Reaches-Done done b entry start c d j d' r) s

  -- When the loop returns, the books hold what each block notes of each concrete state that reaches
  -- it from a start that the entry fact covers, provided that the runs of the blocks are sound.
  pub analyze_from-Noted :
      (rs : RunSound) (fuel : ℕ) (blocks : List ℕ) (entry : ℕ) (f : Fact) (b b' : B) (s : Map Fact)
      → analyze_from a run fuel blocks entry f b ≡ some (ok (s, b'))
      → (start : Env) → Covers f start
      → (k : ℕ) (e : Env) → Reaches Goes entry start k e
      → Noted k e b'
  unfolding analyze_from
  analyze_from-Noted rs fuel blocks entry f b b' s h start c k e r =
      let (all, closed, holds) =
        fixpoint-Ended rs fuel [] ((entry, f) ∷ []) (init_bbs a bottom blocks) s b b'
          (Inv-start blocks entry f b) h in
      closed.0 k e (
        Reaches-Done all b' entry start closed (holds entry start (inl (f, find_entry entry f, c)))
          k e r)
