-- ===== src/ProgOrder/Filter.antt =====
-- `filterMHBInterfs`: a store that a load can read is kept.
use watts.Prelude.{
  ℕ, ◌≡◌, ◌⊎◌, inl, inr, refl, sym, subst, ap, ◌∙◌, Bool, some, List, [], ◌∷◌, In, ok, ok-inj,
  ◌>>=◌, >>=-eq-ok,
}
use watts.Prelude.Map.{Map}
use watts.Horn.{Fixedpoint, Rule, Ground}
use watts.Horn.Models.{Valid}
use watts.Constraints.Reorder.{add_model_rules}
use watts.Constraints.Runs.{Run, Consistent, Holds, not_later}
use watts.Constraints.Executions.{add_model_rules-Valid}
use watts.Solver.{Solver}
use watts.Solver.Numbers.{IsNumbering}
use watts.Solver.Bits.{InBits, Grows, Grows-refl, Grows-trans, InBits-unique}
use watts.ProgOrder.Asks.{AnswersDerived}
use watts.ProgOrder.{
  Answer, Answers, l_true, l_false, l_undef, z3_bv_size, cached_mhb, keep, filter_stores,
  filter_mhb_interfs,
}
use watts.ProgOrder.Kept.{Ordered, KeptRight, Fine, Ordered-Grows, Looked, cached_mhb-Looked}

-- What becomes of the entry of one load.
abbrev pub Entry : Run → Map ℕ → Map (List ℕ) → ℕ → List ℕ → Type 0
Entry run cache ret l sts =
    (kept : List ℕ) × In (l, kept) ret
    × ((st : ℕ) → In st kept → In st sts)
    × ((st i j : ℕ)
        → In st sts
        → InBits z3_bv_size cache l i
        → InBits z3_bv_size cache st j
        → run.source i ≡ some j
        → In st kept)

module _ (query : Fixedpoint → Ground → Answer) (law : AnswersDerived query) (run : Run) where
  -- The stores that the filter keeps are among those of the load, and those that the load reads are
  -- kept.
  record Filtered (l : ℕ) (sts kept : List ℕ) (s t : Solver) (answers : Answers) : Type 0 where
    fine : Fine run t answers
    grows : Grows s.value_cache t.value_cache
    among : (st : ℕ) → In st kept → In st sts
    stays :
        (later : Map ℕ) (st i j : ℕ)
        → Grows t.value_cache later
        → In st sts
        → InBits z3_bv_size later l i
        → InBits z3_bv_size later st j
        → run.source i ≡ some j
        → In st kept

  module _ (c : Consistent run) where
    keep-among :
        (r : Answer) (st k : ℕ) (rest : List ℕ) → In k (keep r st rest) → (k ≡ st) ⊎ In k rest
    unfolding keep
    keep-among l_true st k rest m = inr m
    keep-among l_false st k rest m = m
    keep-among l_undef st k rest m = m

    keep-rest : (r : Answer) (st k : ℕ) (rest : List ℕ) → In k rest → In k (keep r st rest)
    unfolding keep
    keep-rest l_true st k rest m = m
    keep-rest l_false st k rest m = inr m
    keep-rest l_undef st k rest m = inr m

    keep-first : (r : Answer) (st : ℕ) (rest : List ℕ) → ¬ (r ≡ l_true) → In st (keep r st rest)
    unfolding keep
    keep-first l_true st rest n = absurd (n refl)
    keep-first l_false st rest n = inl refl
    keep-first l_undef st rest n = inl refl

    not-Ordered :
        (cache : Map ℕ) (l st i j : ℕ)
        → InBits z3_bv_size cache l i
        → InBits z3_bv_size cache st j
        → run.source i ≡ some j
        → ¬ (Ordered run cache l st)
    not-Ordered cache l st i j x y e (a, b, p, q, before) = not_later run c a b before (
        subst (λ (k : ℕ). run.source k ≡ some b) (InBits-unique z3_bv_size cache l i a x p)
          (e ∙ ap (λ (k : ℕ). some k) (InBits-unique z3_bv_size cache st j b y q)))

    next_store :
        (l st : ℕ) (sts rest : List ℕ) (s u t : Solver) (a b : Answers) (r : Answer)
        → Looked query law run l st s u a r
        → Filtered l sts rest u t b
        → Filtered l (st ∷ sts) (keep r st rest) s t b
    next_store l st sts rest s u t a b r x f = record {
      fine = f.fine;
      grows = Grows-trans s.value_cache u.value_cache t.value_cache x.grows f.grows;
      among = λ k m. elim (keep-among r st k rest m) [ inl e ↦ inl e | inr n ↦ inr (f.among k n) ];
      stays = stay;
    }
      where
        stay :
            (later : Map ℕ) (k i j : ℕ)
            → Grows t.value_cache later
            → In k (st ∷ sts)
            → InBits z3_bv_size later l i
            → InBits z3_bv_size later k j
            → run.source i ≡ some j
            → In k (keep r st rest)
        stay later k i j g (inl e) p q d =
            subst (λ (w : ℕ). In w (keep r st rest)) (sym e)
              (keep-first r st rest (λ yes_said. not-Ordered later l k i j p q d (
                subst (λ (w : ℕ). Ordered run later l w) (sym e)
                  (Ordered-Grows run u.value_cache later l st
                    (Grows-trans u.value_cache t.value_cache later f.grows g)
                    (x.ordered yes_said)))))
        stay later k i j g (inr m) p q d = keep-rest r st k rest (f.stays later k i j g m p q d)

    filter_stores-Filtered :
        (l : ℕ) (sts kept : List ℕ) (s t : Solver) (answers last : Answers)
        → Fine run s answers
        → filter_stores query l sts (s, answers) ≡ ok ((t, last), kept)
        → Filtered l sts kept s t last
    unfolding filter_stores
    filter_stores-Filtered l [] kept s t answers last f h =
        subst (λ (p : (Solver × Answers) × List ℕ). Filtered l [] p.1 s p.0.0 p.0.1)
          (ok-inj ((s, answers), []) ((t, last), kept) h)
          (record {
            fine = f;
            grows = Grows-refl s.value_cache f.numbering;
            among = λ st m. m;
            stays = λ d st i j g m x y e. m;
          })
    filter_stores-Filtered l (st ∷ sts) kept s t answers last f h =
        let (((u, a), r), e, g) =
          >>=-eq-ok (cached_mhb query l st (s, answers))
            (λ p. filter_stores query l sts p.0 >>= (λ q. ok (q.0, keep p.1 st q.1))) h in
        let (((v, b), rest), e', g') =
          >>=-eq-ok (filter_stores query l sts (u, a)) (λ q. ok (q.0, keep r st q.1)) g in
        let x = cached_mhb-Looked query law run l st s u answers a r f e in
        subst (λ (p : (Solver × Answers) × List ℕ). Filtered l (st ∷ sts) p.1 s p.0.0 p.0.1)
          (ok-inj ((v, b), keep r st rest) ((t, last), kept) g')
          (next_store l st sts rest s u v a b r x
            (filter_stores-Filtered l sts rest u v a b x.fine e'))

    first-Entry :
        (l : ℕ) (sts kept : List ℕ) (rest : Map (List ℕ)) (s u : Solver) (a : Answers)
        (cache : Map ℕ)
        → Filtered l sts kept s u a
        → Grows u.value_cache cache
        → Entry run cache ((l, kept) ∷ rest) l sts
    first-Entry l sts kept rest s u a cache x g =
        (kept, inl refl, x.among, λ st i j m p q d. x.stays cache st i j g m p q d)

    other-Entry :
        (cache : Map ℕ) (rest : Map (List ℕ)) (p : ℕ × List ℕ) (k : ℕ) (ss : List ℕ)
        → Entry run cache rest k ss
        → Entry run cache (p ∷ rest) k ss
    other-Entry cache rest p k ss (kept, n, among, stays) = (kept, inr n, among, stays)

    filter_all :
        (interfs ret : Map (List ℕ)) (s t : Solver) (answers last : Answers)
        → Fine run s answers
        → filter_mhb_interfs query interfs (s, answers) ≡ ok ((t, last), ret)
        → Fine run t last
          × Grows s.value_cache t.value_cache
          × ((l : ℕ) (sts : List ℕ) → In (l, sts) interfs → Entry run t.value_cache ret l sts)
    unfolding filter_mhb_interfs
    filter_all [] ret s t answers last f h = (
      subst (λ (p : Solver × Answers). Fine run p.0 p.1) q f,
      subst (λ (p : Solver × Answers). Grows s.value_cache p.0.value_cache) q
          (Grows-refl s.value_cache f.numbering),
      λ l sts m. absurd m,
    )
      where
        q : ◌≡◌ {A = Solver × Answers} (s, answers) (t, last)
        q =
            ap (λ (p : (Solver × Answers) × Map (List ℕ)). p.0)
              (ok-inj ((s, answers), []) ((t, last), ret) h)
    filter_all ((l, sts) ∷ interfs) ret s t answers last f h =
        let (((u, a), kept), e, g) =
          >>=-eq-ok (filter_stores query l sts (s, answers))
            (λ p. filter_mhb_interfs query interfs p.0 >>= (λ q. ok (q.0, (l, p.1) ∷ q.1))) h in
        let (((v, b), rest), e', g') =
          >>=-eq-ok (filter_mhb_interfs query interfs (u, a)) (λ q. ok (q.0, (l, kept) ∷ q.1)) g in
        let x = filter_stores-Filtered l sts kept s u answers a f e in
        let (fine, grows, entries) = filter_all interfs rest u v a b x.fine e' in
        subst
          (λ (p : (Solver × Answers) × Map (List ℕ)).
            Fine run p.0.0 p.0.1
            × Grows s.value_cache p.0.0.value_cache
            × ((k : ℕ) (ss : List ℕ)
                → In (k, ss) ((l, sts) ∷ interfs)
                → Entry run p.0.0.value_cache p.1 k ss))
          (ok-inj ((v, b), (l, kept) ∷ rest) ((t, last), ret) g')
          (
            fine,
            Grows-trans s.value_cache u.value_cache v.value_cache x.grows grows,
            λ k ss m. elim m [
              | inl q ↦
                  subst (λ (p : ℕ × List ℕ). Entry run v.value_cache ((l, kept) ∷ rest) p.0 p.1)
                    (sym q) (first-Entry l sts kept rest s u a v.value_cache x grows)
              | inr n ↦ other-Entry v.value_cache rest (l, kept) k ss (entries k ss n)
            ],
          )

-- Take a solver whose true answers are in the least model of its rules, a well-formed cache of
-- numbers, the rules of a memory model on top of rules that hold in a run, answers kept from earlier
-- calls that are right about the run, and let the run be one under a memory that all threads share,
-- in which each instruction runs at most once. When `filterMHBInterfs` returns, the answers that it
-- keeps are right about the run, and each load with its stores has an entry in what it returns, whose
-- stores are among them and include every one that the load reads in the run.
pub filter_mhb_interfs-keeps :
    (query : Fixedpoint → Ground → Answer) (run : Run) (tso pso rmo : Bool)
    (interfs ret : Map (List ℕ)) (cache : Map ℕ) (base : Fixedpoint) (answers last : Answers)
    (t : Solver)
    → AnswersDerived query
    → Consistent run
    → IsNumbering cache
    → ((r : Rule) → In r base.rules → Valid (Holds run) r)
    → KeptRight run cache answers
    → filter_mhb_interfs query interfs
        (record { value_cache = cache; zfp = add_model_rules tso pso rmo base }, answers)
      ≡ ok ((t, last), ret)
    → KeptRight run t.value_cache last
      × ((l : ℕ) (sts : List ℕ) → In (l, sts) interfs → Entry run t.value_cache ret l sts)
filter_mhb_interfs-keeps query run tso pso rmo interfs ret cache base answers last t law c n rules
      right h =
    let (fine, grows, entries) =
      filter_all query law run c interfs ret
        (record { value_cache = cache; zfp = add_model_rules tso pso rmo base }) t answers last
        (record {
          numbering = n;
          rules = add_model_rules-Valid run c tso pso rmo base rules;
          right = right;
        })
        h in
    (fine.right, entries)
