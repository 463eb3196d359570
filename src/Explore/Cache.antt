-- ===== src/Explore/Cache.antt =====
-- The check of a permutation, `permCache` included: what is refused does not happen.
use watts.Prelude.{
  ℕ, ◌≡◌, inl, inr, refl, sym, ap, subst, ◌∙◌, ◌==◌, ==_iff, Bool, true, false, Bool-cases,
  Option-cases, some, List, [], ◌∷◌, ◌++◌, In, Result, ok, ok-inj, >>=-eq-ok,
}
use watts.Prelude.Map.{Map}
use watts.Apron.{Apron}
use watts.Horn.{Fixedpoint, Rule}
use watts.Horn.Models.{Valid}
use watts.Constraints.Reorder.{add_model_rules}
use watts.Constraints.Runs.{Run, Consistent, Holds}
use watts.Solver.{Solver}
use watts.Solver.Numbers.{IsNumbering}
use watts.Solver.Bits.{Grows, Grows-refl, InBits-Grows}
use watts.ProgOrder.{z3_bv_size, violates_prog_order}
use watts.ProgOrder.Asks.{AnswersDerived, Reads}
use watts.ProgOrder.Sound.{violates_prog_order-infeasible}
use watts.ProgOrder.Leaves.{violates_prog_order-Leaves}
use watts.Explore.Tested.{Checks}
use watts.Explore.{
  PermCache, same_perm, find_perm, cur_interf_store_map, cur_self_store_map, Thread, Explored,
  check_perm,
}

same_perm-eq : (ps qs : List ℕ) → same_perm ps qs ≡ true → ps ≡ qs
unfolding same_perm
same_perm-eq [] [] h = refl
same_perm-eq [] (q ∷ qs) h = cc
same_perm-eq (p ∷ ps) [] h = cc
same_perm-eq (p ∷ ps) (q ∷ qs) h = elim (Bool-cases (p == q)) [
  | inl e ↦ let same = same_perm-eq ps qs (rw e at h) in rw ((==_iff p q).0 e, same) refl
  | inr e ↦ absurd (no (rw e at h))
]
  where
    no : ¬ (false ≡ true)
    no e = cc

module _ (a : Apron) (t : Thread a) (interfs : Map (List ℕ)) (st_facts : Map (a.Fact)) where
  open t use {use_constraints, query, kind_of, previous_stores}

  -- In the run, the loads read what the permutation chooses, as far as the check knows.
  abbrev pub Happens : Run → Map ℕ → List ℕ → Type 0
  Happens run value_cache perm =
      (l st : ℕ)
      → In (l, st)
          (cur_interf_store_map perm interfs []
            ++ cur_self_store_map previous_stores perm interfs [])
      → Reads run value_cache l st

  Happens-before :
      (run : Run) (cache next : Map ℕ) (perm : List ℕ)
      → Grows cache next
      → Happens run next perm
      → Happens run cache perm
  Happens-before run cache next perm g h l st m i j x y =
      h l st m i j (InBits-Grows z3_bv_size cache next l i g x)
        (InBits-Grows z3_bv_size cache next st j g y)

  -- What the cache refuses does not happen.
  abbrev pub CacheRight : Run → PermCache → Map ℕ → Type 0
  CacheRight run perm_cache value_cache =
      (perm : List ℕ) → find_perm perm perm_cache ≡ some true → ¬ Happens run value_cache perm

  -- The solver has the rules of a memory model, and its caches are right.
  pub record IsChecking (run : Run) (rules : Fixedpoint) (solver : Solver) (perm_cache : PermCache)
      : Type 0 where
    pub numbering : IsNumbering solver.value_cache
    pub model : solver.zfp ≡ rules
    pub cache_right : CacheRight run perm_cache solver.value_cache

  -- What the check of a permutation says, and what it leaves as it is.
  record Checked (run : Run) (rules : Fixedpoint) (perm : List ℕ) (s next : Explored a) (v : Bool)
      : Type 0 where
    checking : IsChecking run rules next.solver next.perm_cache
    grows : Grows s.solver.value_cache next.solver.value_cache
    same_books : s.books ≡ next.books
    refused : v ≡ true → ¬ Happens run next.solver.value_cache perm

  module _ (run : Run) (tso pso rmo : Bool) (base : Fixedpoint) (law : AnswersDerived query)
      (c : Consistent run) (valid : (r : Rule) → In r base.rules → Valid (Holds run) r) where
    abbrev rules : Fixedpoint
    rules = add_model_rules tso pso rmo base

    infeasible :
        (perm : List ℕ) (s u : Solver)
        → IsNumbering s.value_cache
        → s.zfp ≡ rules
        → violates_prog_order query kind_of
            (cur_interf_store_map perm interfs [])
            (cur_self_store_map previous_stores perm interfs [])
            s
          ≡ ok (u, true)
        → ¬ Happens run u.value_cache perm
    infeasible perm s u n same h =
        violates_prog_order-infeasible query kind_of run tso pso rmo
          (cur_interf_store_map perm interfs [])
          (cur_self_store_map previous_stores perm interfs []) s.value_cache base u law c n valid
          (subst
            (λ (z : Fixedpoint).
              violates_prog_order query kind_of (cur_interf_store_map perm interfs [])
                (cur_self_store_map previous_stores perm interfs [])
                (record { value_cache = s.value_cache; zfp = z })
              ≡ ok (u, true))
            same h)

    entered :
        (perm : List ℕ) (v : Bool) (cache : PermCache) (old next : Map ℕ)
        → Grows old next
        → CacheRight run cache old
        → (v ≡ true → ¬ Happens run next perm)
        → CacheRight run ((perm, v) ∷ cache) next
    unfolding find_perm
    entered perm v cache old next g right new q h happens = elim (Bool-cases (same_perm perm q)) [
      | inl e ↦
          new (found (rw (e, find_perm) at h))
            (subst (Happens run next) (sym (same_perm-eq perm q e)) happens)
      | inr e ↦ right q (rw (e, find_perm) at h) (Happens-before run old next q g happens)
    ]
      where
        found : some v ≡ some true → v ≡ true
        found e = cc

    abbrev answered : Explored a → Bool → Result (Explored a × Bool)
    answered next v = ok (next, v)

    unchanged :
        (perm : List ℕ) (s next : Explored a) (w v : Bool)
        → IsChecking run rules s.solver s.perm_cache
        → (w ≡ true → ¬ Happens run s.solver.value_cache perm)
        → answered s w ≡ answered next v
        → Checked run rules perm s next v
    unchanged perm s next w v i r h =
        let same = ok-inj (s, w) (next, v) h in
        subst (λ (p : Explored a × Bool). Checked run rules perm s p.0 p.1) same
          (record {
            checking = i;
            grows = Grows-refl s.solver.value_cache i.numbering;
            same_books = refl;
            refused = r;
          })

    asked :
        (perm : List ℕ) (s next : Explored a) (u : Solver) (w v : Bool)
        → IsChecking run rules s.solver s.perm_cache
        → violates_prog_order query kind_of
            (cur_interf_store_map perm interfs [])
            (cur_self_store_map previous_stores perm interfs [])
            s.solver
          ≡ ok (u, w)
        → answered (record s { solver = u; perm_cache = (perm, w) ∷ s.perm_cache }) w
          ≡ answered next v
        → Checked run rules perm s next v
    asked perm s next u w v i e h =
        let (g, z) =
          violates_prog_order-Leaves query kind_of (cur_interf_store_map perm interfs [])
            (cur_self_store_map previous_stores perm interfs []) s.solver u w i.numbering e in
        let new : w ≡ true → ¬ Happens run u.value_cache perm = (λ t.
          infeasible perm s.solver u i.numbering i.model (e ∙ ap (λ (x : Bool). ok (u, x)) t)) in
        subst (λ (p : Explored a × Bool). Checked run rules perm s p.0 p.1)
          (ok-inj (record s { solver = u; perm_cache = (perm, w) ∷ s.perm_cache }, w) (next, v) h)
          (record {
            checking = record {
              numbering = g.numbering;
              model = sym z ∙ i.model;
              cache_right =
                  entered perm w s.perm_cache s.solver.value_cache u.value_cache g i.cache_right
                    new;
            };
            grows = g;
            same_books = refl;
            refused = new;
          })

    check_perm-Checked :
        (perm : List ℕ) (s next : Explored a) (v : Bool)
        → IsChecking run rules s.solver s.perm_cache
        → check_perm a t interfs st_facts perm s ≡ ok (next, v)
        → Checked run rules perm s next v
    unfolding check_perm
    check_perm-Checked perm s next v i h = elim (Bool-cases use_constraints) [
      | inr off ↦ unchanged perm s next false v i (λ e. absurd (no e)) (rw (off, check_perm) at h)
      | inl on ↦ elim (Option-cases (find_perm perm s.perm_cache)) [
        | inr (w, k) ↦
            unchanged perm s next w v i (λ e. i.cache_right perm (k ∙ ap some e))
              (rw (on, k, check_perm) at h)
        | inl k ↦
            let ((u, w), e, f) =
              >>=-eq-ok
                (violates_prog_order query kind_of (cur_interf_store_map perm interfs [])
                  (cur_self_store_map previous_stores perm interfs []) s.solver)
                _ (rw (on, k, check_perm) at h) in
            asked perm s next u w v i e f
      ]
    ]
      where
        no : ¬ (false ≡ true)
        no e = cc

    pub check_perm-Checks :
        Checks a t interfs st_facts
          (IsChecking run rules)
          (λ (σ : Solver) (perm : List ℕ). Happens run σ.value_cache perm)
    check_perm-Checks perm s next v i h =
        let k = check_perm-Checked perm s next v i h in
        record {
          good = k.checking;
          before = λ q. Happens-before run s.solver.value_cache next.solver.value_cache q k.grows;
          same_books = k.same_books;
          refused = k.refused;
        }
