-- ===== src/ProgOrder/Kept.antt =====
-- The answers that `filterMHBInterfs` keeps, by the load and the store, and what they say of a run.
use watts.Prelude.{
  ℕ, ◌≡◌, ◌⊎◌, inl, inr, sym, subst, ap, ◌∙◌, Bool-cases, ◌==◌, ==_iff, ◌&&◌, some, Option-cases,
  ◌∷◌, ok, ok-inj, >>=-eq-ok, arith,
}
use watts.Prelude.Map.{Map}
use watts.Horn.{mhb, Fixedpoint, Ground, ground2}
use watts.Horn.Models.{Derives-Holds}
use watts.Constraints.Runs.{Run, Holds, Before}
use watts.Solver.{Solver}
use watts.Solver.Numbers.{IsNumbering}
use watts.Solver.Bits.{InBits, Grows, Grows-refl, InBits-Grows}
use watts.ProgOrder.Asks.{AnswersDerived, RulesHold, Asked, asked}
use watts.ProgOrder.{Answer, Answers, l_true, z3_bv_size, find_answer, query_mhb, cached_mhb}

-- The load comes before the store wherever the store runs.
abbrev pub Ordered : Run → Map ℕ → ℕ → ℕ → Type 0
Ordered run cache l st =
    (i : ℕ) × (j : ℕ) × InBits z3_bv_size cache l i × InBits z3_bv_size cache st j × Before run i j

-- The answers kept are right about the run.
abbrev pub KeptRight : Run → Map ℕ → Answers → Type 0
KeptRight run cache answers =
    (l st : ℕ)
    → find_answer l st answers ≡ some l_true
    → (i : ℕ) × (j : ℕ) × InBits z3_bv_size cache l i
      × InBits z3_bv_size cache st j
      × Before run i j

pub record Fine (run : Run) (s : Solver) (answers : Answers) : Type 0 where
  pub numbering : IsNumbering s.value_cache
  pub rules : RulesHold run s
  pub right : KeptRight run s.value_cache answers

pub Ordered-Grows :
    (run : Run) (c d : Map ℕ) (l st : ℕ) → Grows c d → Ordered run c l st → Ordered run d l st
Ordered-Grows run c d l st g (i, j, x, y, b) =
    (i, j, InBits-Grows z3_bv_size c d l i g x, InBits-Grows z3_bv_size c d st j g y, b)

some_inj : (r q : Answer) → some r ≡ some q → r ≡ q
some_inj r q h = cc

-- What is found after an answer is put down.
put_down :
    (l st k w : ℕ) (res r : Answer) (answers : Answers)
    → find_answer k w (((l, st), res) ∷ answers) ≡ some r
    → ((l ≡ k) × (st ≡ w) × (res ≡ r)) ⊎ (find_answer k w answers ≡ some r)
unfolding find_answer
put_down l st k w res r answers h = elim (Bool-cases ((l == k) && (st == w))) [
  | inl b ↦ inl (
    (==_iff l k).0 (ground arith),
    (==_iff st w).0 (ground arith),
    some_inj res r (rw (b, find_answer) at h),
  )
  | inr b ↦ inr (rw (b, find_answer) at h)
]

module _ (query : Fixedpoint → Ground → Answer) (law : AnswersDerived query) (run : Run) where
  -- One look at the answers, and at the solver when there is none.
  pub record Looked (l st : ℕ) (s t : Solver) (answers : Answers) (res : Answer) : Type 0 where
    pub fine : Fine run t answers
    pub grows : Grows s.value_cache t.value_cache
    pub ordered : res ≡ l_true → Ordered run t.value_cache l st

  after_asking :
      (l st : ℕ) (s t : Solver) (answers : Answers) (res : Answer)
      → Fine run s answers
      → Asked query mhb l st s t res
      → Looked l st s t (((l, st), res) ∷ answers) res
  after_asking l st s t answers res f a = record {
    fine = record {
      numbering = a.grows.numbering;
      rules =
          subst
            (λ (z : Fixedpoint). RulesHold run (record { value_cache = t.value_cache; zfp = z }))
            (sym a.same_zfp) f.rules;
      right = λ k w h. kept k w (put_down l st k w res l_true answers h);
    };
    grows = a.grows;
    ordered = now;
  }
    where
      now : res ≡ l_true → Ordered run t.value_cache l st
      now e = (
        a.left,
        a.right,
        a.left_bits,
        a.right_bits,
        Derives-Holds (Holds run) s.zfp.rules (ground2 mhb a.left a.right) f.rules
            (law s.zfp (ground2 mhb a.left a.right) (a.answer ∙ e)),
      )

      kept :
          (k w : ℕ)
          → ((l ≡ k) × (st ≡ w) × (res ≡ l_true)) ⊎ (find_answer k w answers ≡ some l_true)
          → Ordered run t.value_cache k w
      kept k w (inl (p, q, e)) =
          subst (λ (x : ℕ). Ordered run t.value_cache x w) p
            (subst (λ (y : ℕ). Ordered run t.value_cache l y) q (now e))
      kept k w (inr h) = Ordered-Grows run s.value_cache t.value_cache k w a.grows (f.right k w h)

  pub cached_mhb-Looked :
      (l st : ℕ) (s t : Solver) (answers last : Answers) (res : Answer)
      → Fine run s answers
      → cached_mhb query l st (s, answers) ≡ ok ((t, last), res)
      → Looked l st s t last res
  unfolding cached_mhb query_mhb
  cached_mhb-Looked l st s t answers last res f h = elim (Option-cases (find_answer l st answers)) [
    | inl e ↦
        (let ((u, r), a, b) =
            >>=-eq-ok (query_mhb query l st s) (λ p. ok ((p.0, ((l, st), p.1) ∷ answers), p.1))
              (rw (e, cached_mhb) at h) in
          moved s (ok-inj ((u, ((l, st), r) ∷ answers), r) ((t, last), res) b)
            (after_asking l st s u answers r f (asked query mhb l st s u r f.numbering a)))
    | inr (r, e) ↦
        moved s (ok-inj ((s, answers), r) ((t, last), res) (rw (e, cached_mhb) at h)) (record {
          fine = f;
          grows = Grows-refl s.value_cache f.numbering;
          ordered = λ q. f.right l st (e ∙ ap (λ (x : Answer). some x) q);
        })
  ]
    where
      moved :
          (s : Solver) {p q : (Solver × Answers) × Answer}
          → p ≡ q
          → Looked l st s p.0.0 p.0.1 p.1
          → Looked l st s q.0.0 q.0.1 q.1
      moved s e x = subst (λ (p : (Solver × Answers) × Answer). Looked l st s p.0.0 p.0.1 p.1) e x
