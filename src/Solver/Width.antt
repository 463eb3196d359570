-- ===== src/Solver/Width.antt =====
-- `getValueBVIDSz`: the numbers that it hands out are bounded and distinct, up to the one that the
-- guard on the width lets through.
use native.Mathlib.Nat.{mod-eq_of_lt, mod_self, zero-mod, pow-le-pow_right}
use watts.Prelude.{
  ℕ, suc, false, ◌%◌, ◌^◌, ◌≤◌, ◌<◌, ◌≡◌, ◌≢◌, inl, inr, sym, subst, ap, Bool-cases, ◌∙◌, ltb, none,
  some, length, ok, err, ok-inj, assertion, >>=-eq-ok, arith,
}
use watts.Prelude.Map.{Map, find, emplace}
use watts.Solver.{exceeds, number_of, get_value_bvid_sz}
use watts.Solver.Numbers.{
  IsApart, IsNumbering, IsNumbering-IsApart, Numbered, Sized, number_of-Numbered, number_of-length,
  new-Numbered,
}

guarded :
    (bv_size v : ℕ) (cache : Map ℕ) (p : Map ℕ × ℕ)
    → get_value_bvid_sz bv_size v cache ≡ ok p
    → (q : Map ℕ × ℕ) × (number_of bv_size v cache ≡ ok q) × (p ≡ (q.0, q.1 % 2 ^ bv_size))
unfolding get_value_bvid_sz
guarded bv_size v cache p h = elim (Bool-cases (ltb 32 bv_size)) [
  | inl b ↦ absurd (stopped (rw (b) at h))
  | inr b ↦
      (let (q, e, f) =
          >>=-eq-ok (number_of bv_size v cache) (λ q. ok (q.0, q.1 % 2 ^ bv_size)) (rw (b) at h) in
        (q, e, sym (ok-inj (q.0, q.1 % 2 ^ bv_size) p f)))
]
  where
    stopped : {p : Map ℕ × ℕ} → err assertion ≡ ok p → ⊥
    stopped q = cc

exceeds-under :
    (bv_size m : ℕ) → bv_size ≤ 31 → m < 2 ^ 32 → exceeds bv_size m ≡ false → suc m < 2 ^ 32
unfolding exceeds
exceeds-under bv_size m w h e =
    let small : 2 ^ bv_size ≤ 2 ^ 31 = pow-le-pow_right (omega arith) w in ground arith

-- With a width of at most 31, and a cache of less than 2^32 entries whose numbers are below its size
-- and distinct: when `getValueBVIDSz` returns, the cache that it leaves is so too, the value has a
-- number there, every value that had one has kept it, and what is returned are the low bits of the
-- value's number.
pub get_value_bvid_sz-Numbered :
    (bv_size v : ℕ) (cache next : Map ℕ) (k : ℕ)
    → bv_size ≤ 31
    → IsNumbering cache
    → get_value_bvid_sz bv_size v cache ≡ ok (next, k)
    → (id : ℕ) × IsNumbering next × Numbered v cache next id × (k ≡ id % 2 ^ bv_size)
get_value_bvid_sz-Numbered bv_size v cache next k w n h =
    let (q, e, f) = guarded bv_size v cache (next, k) h in
    let same = ap (λ (p : Map ℕ × ℕ). p.0) (sym f) in
    let x =
      subst (λ (m : Map ℕ). Numbered v cache m q.1) same
        (number_of-Numbered cache (IsNumbering-IsApart cache n) v bv_size q.0 q.1 (λ u. n.room)
          e) in
    (
      q.1,
      record {
        bounded = x.numbering.bounded;
        distinct = x.numbering.distinct;
        room =
            subst (λ (m : Map ℕ). length m < 2 ^ 32) same
              (room_after q.0 (number_of-length v cache bv_size q.0 q.1 e));
      },
      x,
      ap (λ (p : Map ℕ × ℕ). p.1) f,
    )
  where
    room_after : (m : Map ℕ) → Sized v cache bv_size m → length m < 2 ^ 32
    room_after m (inl (u, l, e)) = rw l (
        exceeds-under bv_size (length cache) w (n.room)
          (subst (λ (c : ℕ). exceeds bv_size c ≡ false) (mod-eq_of_lt (n.room)) e))
    room_after m (inr (i, f, l)) = rw l (n.room)

width_le :
    (bv_size v : ℕ) (cache : Map ℕ) (p : Map ℕ × ℕ)
    → get_value_bvid_sz bv_size v cache ≡ ok p
    → bv_size ≤ 32
unfolding get_value_bvid_sz
width_le bv_size v cache p h = elim (Bool-cases (ltb 32 bv_size)) [
  | inl b ↦ absurd (stopped (rw (b) at h))
  | inr b ↦ ground (arith, b)
]
  where
    stopped : {p : Map ℕ × ℕ} → err assertion ≡ ok p → ⊥
    stopped q = cc

call-length :
    (bv_size v : ℕ) (cache next : Map ℕ) (k : ℕ)
    → get_value_bvid_sz bv_size v cache ≡ ok (next, k)
    → length cache ≤ length next
call-length bv_size v cache next k h =
    let (q, e, f) = guarded bv_size v cache (next, k) h in
    larger q.0 (ap (λ (p : Map ℕ × ℕ). p.0) f) (number_of-length v cache bv_size q.0 q.1 e)
  where
    larger : (m : Map ℕ) → next ≡ m → Sized v cache bv_size m → length cache ≤ length next
    larger m p (inl (u, l, e)) = rw p (omega (arith, l))
    larger m p (inr (i, f, l)) = rw p (omega (arith, l))

-- One call where the cache has at most 2^32 entries afterwards.
call-Numbered :
    (bv_size v : ℕ) (cache next : Map ℕ) (k : ℕ)
    → IsApart cache
    → length next ≤ 2 ^ 32
    → get_value_bvid_sz bv_size v cache ≡ ok (next, k)
    → (id : ℕ) × Numbered v cache next id × (k ≡ id % 2 ^ bv_size)
call-Numbered bv_size v cache next k n le h =
    let (q, e, f) = guarded bv_size v cache (next, k) h in
    let same = ap (λ (p : Map ℕ × ℕ). p.0) (sym f) in
    let grown =
      subst (λ (m : Map ℕ). Sized v cache bv_size m) same
        (number_of-length v cache bv_size q.0 q.1 e) in
    (
      q.1,
      subst (λ (m : Map ℕ). Numbered v cache m q.1) same
          (number_of-Numbered cache n v bv_size q.0 q.1 (λ u. fits u grown) e),
      ap (λ (p : Map ℕ × ℕ). p.1) f,
    )
  where
    fits : find v cache ≡ none → Sized v cache bv_size next → length cache < 2 ^ 32
    fits u (inl (w, l, e)) = omega (arith, l)
    fits u (inr (i, f, l)) = cc

-- From a cache whose numbers are below its size and distinct, two calls of `getValueBVIDSz` that
-- return the same constant are for the same value, as long as the cache has at most as many entries
-- in the end as there are bit vectors of the width.
pub get_value_bvid_sz-distinct :
    (bv_size v w : ℕ) (cache one two : Map ℕ) (i j : ℕ)
    → IsApart cache
    → get_value_bvid_sz bv_size v cache ≡ ok (one, i)
    → get_value_bvid_sz bv_size w one ≡ ok (two, j)
    → length two ≤ 2 ^ bv_size
    → i ≡ j
    → v ≡ w
get_value_bvid_sz-distinct bv_size v w cache one two i j n h g le e =
    let most : length two ≤ 2 ^ 32 =
      omega (arith, pow-le-pow_right (two_pos) (width_le bv_size v cache (one, i) h)) in
    let (a, x, p) = call-Numbered bv_size v cache one i n (small_one most) h in
    let (b, y, q) = call-Numbered bv_size w one two j x.numbering most g in
    let kept = y.kept v a x.found in
    y.numbering.distinct v w b
      (kept
        ∙ ap (λ (c : ℕ). some c)
            (same (sym p ∙ e ∙ q) (y.numbering.bounded v a kept) (y.numbering.bounded w b y.found)))
      y.found
  where
    two_pos : 0 < 2
    two_pos = omega arith

    small_one : length two ≤ 2 ^ 32 → length one ≤ 2 ^ 32
    small_one m = omega (arith, m, call-length bv_size w one two j g)

    same : {a b : ℕ} → a % 2 ^ bv_size ≡ b % 2 ^ bv_size → a < length two → b < length two → a ≡ b
    same m la lb = sym (mod-eq_of_lt (omega arith)) ∙ m ∙ mod-eq_of_lt (omega arith)

-- With a width of at most 31, but neither 29 nor 31: when the numbers of a cache are below its size and
-- distinct and the cache has exactly as many entries as there are bit vectors of the width,
-- `getValueBVIDSz` does not exit for a value without a number but returns the constant 0, which the
-- value with the number 0 has too.
pub get_value_bvid_sz-wraps :
    (bv_size v w : ℕ) (cache : Map ℕ)
    → bv_size ≤ 31
    → bv_size ≢ 29
    → bv_size ≢ 31
    → IsApart cache
    → length cache ≡ 2 ^ bv_size
    → find v cache ≡ none
    → find w cache ≡ some 0
    → (next : Map ℕ) × (get_value_bvid_sz bv_size v cache ≡ ok (next, 0))
      × (get_value_bvid_sz bv_size w next ≡ ok (next, 0))
unfolding get_value_bvid_sz number_of exceeds
get_value_bvid_sz-wraps bv_size v w cache h a b n full f g =
    let next = emplace v (length cache) cache in
    let kept = (new-Numbered cache n v f).kept w 0 g in
    let small : 2 ^ bv_size ≤ 2 ^ 31 = pow-le-pow_right (omega arith) h in
    let whole : length cache % 2 ^ 32 ≡ length cache = mod-eq_of_lt (omega arith) in
    let low = ap (λ (m : ℕ). m % 2 ^ bv_size) full ∙ mod_self (2 ^ bv_size) in
    let zero_low = zero-mod (2 ^ bv_size) in
    (next, ground (arith, whole, low), ground (arith, kept, zero_low))
