-- ===== src/ProgOrder/Asks.antt =====
-- Queries about two values, as `queryNotReads` and `queryMHB` ask them.
use watts.Prelude.{arith, ℕ, ◌≡◌, refl, subst, ◌∙◌, In, Result, ok, ok-inj, ◌>>=◌, some}
use watts.Prelude.Map.{Map}
use watts.Horn.{Rel, Fixedpoint, Rule, Ground, ground2, Derives}
use watts.Horn.Models.{Valid}
use watts.Constraints.Runs.{Run, Holds}
use watts.Solver.{Solver, get_value_bvid_sz}
use watts.Solver.Numbers.{IsNumbering}
use watts.Solver.Bits.{InBits, Grows, Grows-trans, two_values}
use watts.ProgOrder.{Answer, l_true, z3_bv_size}

-- A query that the solver answers with true is in the least model of the rules.
abbrev pub AnswersDerived : (Fixedpoint → Ground → Answer) → Type 0
AnswersDerived query = (zfp : Fixedpoint) (g : Ground) → query zfp g ≡ l_true → Derives zfp.rules g

abbrev pub RulesHold : Run → Solver → Type 0
RulesHold run s = (r : Rule) → In r s.zfp.rules → Valid (Holds run) r

-- In the run, the load reads the store; both are known by their constants.
abbrev pub Reads : Run → Map ℕ → ℕ → ℕ → Type 0
Reads run cache l st =
    (i j : ℕ) → InBits z3_bv_size cache l i → InBits z3_bv_size cache st j → run.source i ≡ some j

-- What a query about two values asks, and where it leaves the solver.
pub record Asked (query : Fixedpoint → Ground → Answer) (fd : Rel) (l st : ℕ) (s t : Solver)
    (res : Answer) : Type 0 where
  pub grows : Grows s.value_cache t.value_cache
  pub left : ℕ
  pub right : ℕ
  pub left_bits : InBits z3_bv_size t.value_cache l left
  pub right_bits : InBits z3_bv_size t.value_cache st right
  pub same_zfp : t.zfp ≡ s.zfp
  pub answer : query s.zfp (ground2 fd left right) ≡ res

module _ (query : Fixedpoint → Ground → Answer) (fd : Rel) (l st : ℕ) where
  abbrev pub ask : Solver → Result (Solver × Answer)
  ask s = do
    (one, i) ← get_value_bvid_sz z3_bv_size l s.value_cache
    (two, j) ← get_value_bvid_sz z3_bv_size st one
    ok (record { value_cache = two; zfp = s.zfp }, query s.zfp (ground2 fd i j))

  pub asked :
      (s t : Solver) (res : Answer)
      → IsNumbering s.value_cache
      → ask s ≡ ok (t, res)
      → Asked query fd l st s t res
  asked s t res n h =
      let (two, i, j, g, x, y, e) =
        two_values z3_bv_size (omega arith) l st s.value_cache
          (λ c i j. ok (record { value_cache = c; zfp = s.zfp }, query s.zfp (ground2 fd i j)))
          (t, res) n h in
      subst (λ (p : Solver × Answer). Asked query fd l st s p.0 p.1)
        (ok-inj (record { value_cache = two; zfp = s.zfp }, query s.zfp (ground2 fd i j)) (t, res)
          e)
        (record {
          grows = g;
          left = i;
          right = j;
          left_bits = x;
          right_bits = y;
          same_zfp = refl;
          answer = refl;
        })

pub Asked-after :
    (query : Fixedpoint → Ground → Answer) (fd : Rel) (l st k w : ℕ) (s u t : Solver) (res : Answer)
    → Asked query fd l st s u res
    → Asked query fd k w u t l_true
    → Asked query fd k w s t l_true
Asked-after query fd l st k w s u t res a b = record {
  grows = Grows-trans s.value_cache u.value_cache t.value_cache a.grows b.grows;
  left = b.left;
  right = b.right;
  left_bits = b.left_bits;
  right_bits = b.right_bits;
  same_zfp = b.same_zfp ∙ a.same_zfp;
  answer =
      subst (λ (z : Fixedpoint). query z (ground2 fd b.left b.right) ≡ l_true) a.same_zfp b.answer;
}

-- A pair that the solver says yes to.
abbrev pub Found : (Fixedpoint → Ground → Answer) → Rel → Solver → Solver → Map ℕ → Type 0
Found query fd s t pairs = (l : ℕ) × (st : ℕ) × In (l, st) pairs × Asked query fd l st s t l_true
