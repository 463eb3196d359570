-- ===== src/Llvm/Const.antt =====
-- worklist-ai/utils.cpp: `getConstantIntUnsafe` and `mapAtUnsafe`.
use watts.Prelude.{◌≡◌, arith, ℕ, ◌+◌, ◌-◌, ◌^◌, Bool, ltb, if◌then◌else◌, Option}
use watts.Prelude.{Result, ok, err, assertion, or_fail}
use watts.Prelude.Int.{ℤ, pos, negsuc}

-- The signed reading of `w` bits: the sign bit is set from 2^(w-1) on.
unfoldable pub signed : ℕ → ℕ → ℤ
signed w u = if ltb (u + u) (2 ^ w) then pos u else negsuc (2 ^ w - u - 1)

-- `APInt::isSignedIntN(32)`
pub fits_int : ℤ → Bool
fits_int (pos n) = ltb n 2147483648
fits_int (negsuc n) = ltb n 2147483648

-- A negative value is sign extended, any other zero extended.
unfoldable pub get_constant_int : ℕ → ℕ → Result ℤ
unfolding signed fits_int
get_constant_int w u = if fits_int (signed w u) then ok (signed w u) else err assertion

abbrev pub map_at {ℓ} : {A : Type ℓ} → Option A → Result A
map_at o = or_fail o assertion

pub get_constant_int-signed : (w u : ℕ) (v : ℤ) → get_constant_int w u ≡ ok v → signed w u ≡ v
unfolding get_constant_int
get_constant_int-signed w u v h = ground arith
