-- ===== src/Driver/Monotone.antt =====
-- The analysis of a thread forgets no error, without the assertion slice.
use watts.Prelude.{
  ℕ, suc, ◌≡◌, refl, inl, inr, ap, subst, true, false, Option, none, some, All, List, Result,
  Result-cases, Failure, ok, err,
}
use watts.Prelude.Map.{count}
use watts.Apron.{Apron}
use watts.Apron.Laws.{Sound}
use watts.BbOps.Transfer.Concrete.{Addressed}
use watts.Interference.Stores.{flatten_reach_stores}
use watts.Choices.{choices_per_load}
use watts.CartesianProduct.Value.{product}
use watts.Explore.{Explored, analyze_thread_interf}
use watts.Explore.Keeps.{analyze_thread_interf-keeps}
use watts.Driver.{Shared, Found, Program, thread_at, begin_site, end_site, analyze_site}
use watts.Driver.Analysed.{IsMonotone}

module _ (a : Apron) (l : Sound a) (p : Program a) where
  open a use {Fact}

  -- No thread has the assertion slice, or a terminator with the address of an instruction of its block.
  abbrev pub IsWhole : Type 0
  IsWhole =
      (f : ℕ) (ci : Option ℕ)
      → ((p.thread_of f ci).flags.assert_slice ≡ false) × All Addressed ((p.thread_of f ci).blocks)

  ended :
      (s later : Shared) (found : Found a) (o : Option (Result (Explored a)))
      → end_site a p s o ≡ some (ok (found, later))
      → (last : Explored a) × (o ≡ some (ok last)) × (last.books.errors ≡ later.errors)
  unfolding end_site
  ended s later found none h = cc
  ended s later found (some (err e)) h = cc
  ended s later found (some (ok last)) h = (last, refl, ap (λ (x : Shared). x.errors) (shared_of h))
    where
      shared_of :
          end_site a p s (some (ok last)) ≡ some (ok (found, later))
          → record s {
            errors = last.books.errors;
            solver = last.solver;
            perm_cache = last.perm_cache;
            max_comb_perms = last.max_comb_perms;
          }
            ≡ later
      shared_of e = cc

  abbrev failure : Failure → Option (Result (Found a × Shared))
  failure x = some (err x)

  pub threads-IsMonotone : IsWhole → IsMonotone a p
  unfolding analyze_site thread_at begin_site
  threads-IsMonotone whole f ci cur new_stores entry s later found h n k =
      elim (Result-cases (flatten_reach_stores new_stores)) [
        | inr (x, e) ↦ absurd (failed x (rw (e, analyze_site) at h))
        | inl (st_facts, e) ↦
            let (last, q, same) =
              ended s later found
                (analyze_thread_interf a (thread_at a p f ci entry)
                  (suc (product (choices_per_load cur))) cur st_facts (begin_site a p s))
                (rw (e, analyze_site) at h) in
            subst (λ (es : List ℕ). count n es ≡ true) same
              (analyze_thread_interf-keeps a l (thread_at a p f ci entry) ((whole f ci).0)
                ((whole f ci).1) n (suc (product (choices_per_load cur))) cur st_facts
                (begin_site a p s) last q k)
      ]
    where
      failed : (x : Failure) → ¬ (failure x ≡ some (ok (found, later)))
      failed x e = cc
