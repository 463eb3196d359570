-- ===== src/Explore/Reported.antt =====
-- What the exploration of the permutations reports: each assertion that fails under a choice of stores
-- that some run makes.
use watts.Prelude.{
  ◌<◌, ℕ, suc, ◌≤◌, ◌≡◌, refl, sym, ap, subst, ◌∙◌, Bool, true, false, if◌then◌else◌, Option, none,
  some, List, [], ◌∷◌, length, All, In, Result, ok, err, ok-inj, arith,
}
use watts.Prelude.Map.{Map}
use watts.Apron.{Apron, Env}
use watts.Apron.Laws.{Sound}
use watts.Llvm.{Block}
use watts.Horn.{Fixedpoint, Rule}
use watts.Horn.Models.{Valid}
use watts.Constraints.Runs.{Run, Consistent, Holds}
use watts.Constraints.Reorder.{add_model_rules}
use watts.ProgOrder.Asks.{AnswersDerived}
use watts.BbOps.Transfer.{Books}
use watts.BbOps.Transfer.Concrete.{Fails, Addressed}
use watts.BbOps.Transfer.Notes.{Reported}
use watts.Worklist.Coverage.{Reaches}
use watts.Analysis.{block_at}
use watts.Analysis.Sound.{GoesOn, analyze_func-Reported}
use watts.CartesianProduct.Value.{product, InRange, value}
use watts.CartesianProduct.Visits.{visits_every}
use watts.Choices.{choices_per_load, cur_interf_map}
use watts.Explore.{
  PermCache, Thread, Explored, analyze_with, with_result, explore_from, analyze_thread_interf,
}
use watts.Explore.Cache.{Happens, IsChecking, check_perm-Checks}
use watts.Explore.Tested.{Checks}
use watts.Solver.{Solver}
use watts.Analysis.Kept.{analyze_func-keeps}
use watts.Explore.Reports.{run_all-Reports}
use watts.Explore.Visited.{explore-run_all}

pub choices-positive : (m : Map (List ℕ)) → All (λ (r : ℕ). 1 ≤ r) (choices_per_load m)
unfolding choices_per_load
choices-positive [] = tt
choices-positive ((l, sts) ∷ m) = (omega arith, choices-positive m)

else_branch : {A : Type 0} (b : Bool) (x y z : A) → b ≡ false → (if b then x else y) ≡ z → y ≡ z
else_branch true x y z e h = cc
else_branch false x y z e h = h

-- A concrete run of the thread with these facts of its loads comes to the failing assertion `n`: it
-- starts at the entry block with a valuation that the entry fact covers, and goes from block to block.
pub record ComesTo (a : Apron) (l : Sound a) (t : Thread a) (cur : Map (a.Fact)) (n : ℕ)
    : Type 0 where
  pub first : Block
  pub rest : List Block
  pub blocks_are : t.blocks ≡ first ∷ rest
  pub start : Env
  pub covered : l.Covers t.entry_fact start
  pub block : ℕ
  pub env : Env
  pub reached : Reaches (GoesOn a l t.flags t.ctx cur t.slices t.blocks) first.id start block env
  pub bb : Block
  pub at : block_at block t.blocks ≡ some bb
  pub fails : Fails a l t.flags t.ctx cur bb.body n env

module _ (a : Apron) (l : Sound a) (t : Thread a) (off : t.flags.assert_slice ≡ false)
    (combs : t.flags.no_combins ≡ false) (w : All Addressed t.blocks) where
  open a use {Fact}

  analysed-Reported :
      (cur m : Map Fact) (n : ℕ) (b b' : Books a)
      → analyze_with a t cur b ≡ some (ok (m, b'))
      → ComesTo a l t cur n
      → Reported a n b'
  unfolding analyze_with
  analysed-Reported cur m n b b' h c =
      let same = c.blocks_are in
      analyze_func-Reported a l t.flags t.ctx cur t.slices t.fuel c.first c.rest t.entry_fact b b' m
        c.start c.block c.env c.bb n off (rw same at w) (rw same at h) c.covered
        (rw same at c.reached) (rw same at c.at) c.fails

  module _ (interfs : Map (List ℕ)) (st_facts : Map Fact) (Good : Solver → PermCache → Type 0)
      (Happens : Solver → List ℕ → Type 0) (check : Checks a t interfs st_facts Good Happens) where
    -- The errors are kept, and those of the permutation are found if it happens.
    abbrev pub Explores : Explored a → Explored a → List ℕ → Type 0
    Explores s last perm =
        ((n : ℕ) → Reported a n s.books → Reported a n last.books)
        × ((cur : Map Fact) (n : ℕ)
            → cur_interf_map a perm interfs st_facts ≡ ok cur
            → Happens last.solver perm
            → ComesTo a l t cur n
            → Reported a n last.books)

    explore_from-Explores :
        (row : ℕ) (rows : List ℕ) (s last : Explored a) (perm : List ℕ)
        → choices_per_load interfs ≡ row ∷ rows
        → product (row ∷ rows) < 2147483647
        → Good s.solver s.perm_cache
        → explore_from a t (suc (product (row ∷ rows))) interfs st_facts s ≡ some (ok last)
        → InRange perm (row ∷ rows)
        → Explores s last perm
    unfolding explore_from
    explore_from-Explores row rows s last perm is fits good h r =
        let (cp, perms, made, visited, count, place) =
          visits_every row rows perm (rw is at (choices-positive interfs)) fits r in
        let begin : Explored a = record s { res = []; count = 1 } in
        let ran =
          sym (
            explore-run_all a t interfs st_facts (suc (product (row ∷ rows))) cp perms begin
              visited)
          ∙ (rw (is, made, explore_from) at h) in
        let (left, each) =
          run_all-Reports a t interfs st_facts l Good Happens check off w perms begin last good
            ran in
        (
          left.errors_kept,
          λ cur n chosen happens comes.
              each (value perm (row ∷ rows)) perm place n
                (λ cur' m b b' chosen' analysed.
                  analysed-Reported cur m n b b'
                    (subst (λ (x : Map Fact). analyze_with a t x b ≡ some (ok (m, b')))
                      (the_same cur cur' chosen chosen') analysed)
                    comes)
                happens,
        )
      where
        the_same :
            (cur cur' : Map Fact)
            → cur_interf_map a perm interfs st_facts ≡ ok cur
            → cur_interf_map a perm interfs st_facts ≡ ok cur'
            → cur' ≡ cur
        the_same cur cur' x y = cc

  -- The result of an analysis is that of the thread.
  with_result_books :
      (o : Option (Result (Map Fact × Books a))) (s last : Explored a)
      → with_result a t o s ≡ some (ok last)
      → (m : Map Fact) × (o ≡ some (ok (m, last.books)))
  unfolding with_result
  with_result_books none s last h = cc
  with_result_books (some (err x)) s last h = cc
  with_result_books (some (ok (m, b))) s last h =
      (m, ap (λ (x : Books a). some (ok (m, x))) (books_of h))
    where
      books_of : some (ok (record s { books = b; res = m })) ≡ some (ok last) → b ≡ last.books
      books_of e = cc

  analysis_keeps :
      (cur m : Map Fact) (n : ℕ) (b b' : Books a)
      → analyze_with a t cur b ≡ some (ok (m, b'))
      → Reported a n b
      → Reported a n b'
  unfolding analyze_with
  analysis_keeps cur m n b b' h k =
      analyze_func-keeps a l t.flags t.ctx cur t.slices off t.fuel t.blocks t.entry_fact b b' m n w
        h k

  pub analyze_thread_interf-Explores :
      (interfs : Map (List ℕ)) (st_facts : Map Fact) (Good : Solver → PermCache → Type 0)
      (Happens : Solver → List ℕ → Type 0) (check : Checks a t interfs st_facts Good Happens)
      (s last : Explored a) (perm : List ℕ)
      → product (choices_per_load interfs) < 2147483647
      → Good s.solver s.perm_cache
      → analyze_thread_interf a t (suc (product (choices_per_load interfs))) interfs st_facts s
        ≡ some (ok last)
      → InRange perm (choices_per_load interfs)
      → Explores interfs st_facts Good Happens check s last perm
  unfolding analyze_thread_interf choices_per_load cur_interf_map
  analyze_thread_interf-Explores [] st_facts Good Happens check s last [] fits good h r =
      let (m, q) = with_result_books (analyze_with a t [] s.books) s last h in
      (
        λ n k. analysis_keeps [] m n s.books last.books q k,
        λ cur n chosen happens comes.
            analysed-Reported [] m n s.books last.books q
              (subst (λ (x : Map Fact). ComesTo a l t x n) (sym (ok-inj [] cur chosen)) comes),
      )
  analyze_thread_interf-Explores [] st_facts Good Happens check s last (p ∷ ps) fits good h r =
      absurd r
  analyze_thread_interf-Explores ((load, sts) ∷ more) st_facts Good Happens check s last perm fits
        good h r =
      explore_from-Explores ((load, sts) ∷ more) st_facts Good Happens check (suc (length sts))
        (choices_per_load more) s last perm refl fits good
        (else_branch (t.flags.no_combins) _ _ _ combs h) r

  -- Take a thread whose choices of stores number less than the greatest `int`, where no block's
  -- terminator has the address of one of its instructions; a solver whose true answers are in the
  -- least model of its rules, which are those of a memory model on top of rules that hold in a
  -- consistent run; and caches that are right, so that what the permutations' cache refuses from
  -- before does not happen in the run. When `analyzeThreadInterf` returns, without merged
  -- interferences and the assertion slice, and with fuel for every permutation, then for each
  -- permutation whose reads happen in the run, each failing assertion is reported that a concrete
  -- run of the thread with the facts of the chosen stores comes to, from a valuation that the
  -- entry fact covers. A step is exact: arithmetic has one only if its result is below 2^width in
  -- size, a comparison only if no operand is the constant -2^31, a cast only if it keeps the
  -- number (a sign extension of a true bit does not), and phi nodes, exclusive or and atomic
  -- instructions have none. A branch on a comparison is taken as its operands compare as
  -- integers, whatever the predicate's signedness, where at most one operand is a constant, which
  -- fits an int and is not -2^31, and the others have names.
  pub analyze_thread_interf-Reported :
      (interfs : Map (List ℕ)) (st_facts : Map Fact) (s last : Explored a) (run : Run)
      (tso pso rmo : Bool) (base : Fixedpoint) (perm : List ℕ) (cur : Map Fact) (n : ℕ)
      → AnswersDerived t.query
      → Consistent run
      → ((r : Rule) → In r base.rules → Valid (Holds run) r)
      → product (choices_per_load interfs) < 2147483647
      → IsChecking a t interfs st_facts run (add_model_rules tso pso rmo base) s.solver s.perm_cache
      → analyze_thread_interf a t (suc (product (choices_per_load interfs))) interfs st_facts s
        ≡ some (ok last)
      → InRange perm (choices_per_load interfs)
      → cur_interf_map a perm interfs st_facts ≡ ok cur
      → Happens a t interfs st_facts run last.solver.value_cache perm
      → ComesTo a l t cur n
      → Reported a n last.books
  analyze_thread_interf-Reported interfs st_facts s last run tso pso rmo base perm cur n law c valid
        fits checking h r chosen happens comes =
      (analyze_thread_interf-Explores interfs st_facts
          (IsChecking a t interfs st_facts run (add_model_rules tso pso rmo base))
          (λ (σ : Solver) (q : List ℕ). Happens a t interfs st_facts run σ.value_cache q)
          (check_perm-Checks a t interfs st_facts run tso pso rmo base law c valid) s last perm fits
          checking h r).1
        cur n chosen happens comes
