-- ===== src/ValToStrDb/Texts.antt =====
-- utils/ValToStrDB.cpp: the texts that stand for values, as lists of characters, and `std::map` with
-- texts as its keys, whose order is not read.
pub mod Digits
pub mod Dict
use watts.Prelude.{
  ℕ, zero, suc, ◌+◌, ◌/◌, ◌%◌, ◌==◌, ltb, ◌&&◌, Bool, true, false, if◌then◌else◌, Option, none,
  some, List, [], ◌∷◌, ◌++◌, Result, ok, err, assertion,
}
use watts.Prelude.Int.{ℤ, pos, negsuc}

abbrev pub Text : Type 0
Text = List ℕ

unfoldable pub same : Text → Text → Bool
same [] [] = true
same [] (d ∷ t) = false
same (c ∷ s) [] = false
same (c ∷ s) (d ∷ t) = (c == d) && same s t

-- `std::to_string`, whose fuel is the number itself.
unfoldable pub decimal : ℕ → ℕ → Text
decimal zero n = (b'0' + n) ∷ []
decimal (suc fuel) n =
    let rest = decimal fuel (n / 10) in
    if ltb n 10 then (b'0' + n) ∷ [] else rest ++ ((b'0' + n % 10) ∷ [])

unfoldable pub to_string : ℕ → Text
unfolding decimal
to_string n = decimal n n

-- `APInt::toString(10, true)`
unfoldable pub to_string_signed : ℤ → Text
unfolding to_string
to_string_signed (pos n) = to_string n
to_string_signed (negsuc n) = b'-' ∷ to_string (suc n)

-- The types of values, as far as the source asks for them.
pub data Ty : Type 0 where
  pointer_to : Ty → Ty
  other_type : Ty

unfoldable pub is_pointer_ty : Ty → Bool
is_pointer_ty (pointer_to t) = true
is_pointer_ty other_type = false

-- The loop of `getStars`.
unfoldable pub stars : Ty → Text
stars (pointer_to t) = b'*' ∷ stars t
stars other_type = []

unfoldable pub get_stars : Ty → Result Text
unfolding stars
get_stars (pointer_to t) = ok (stars (pointer_to t))
get_stars other_type = err assertion

unfoldable pub rm_star : Text → Result Text
rm_star [] = err assertion
rm_star (c ∷ s) = if c == b'*' then ok s else err assertion
