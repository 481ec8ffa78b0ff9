-- ===== src/Scheduling/LocalTime.antt =====
-- apps/api/src/common/scheduling/local-time.util.ts: "HH:mm" texts as lists of character codes. The
-- functions over dates and time zones call the `luxon` package and are not modelled.
pub mod Laws
use kora_os.Common.{
  ℕ, ◌+◌, ◌-◌, ◌*◌, ◌/◌, ◌%◌, Bool, true, false, ◌&&◌, ◌||◌, Option, none, some, List, [], ◌∷◌,
  ◌++◌, ltb, leb, ◌==◌, if◌then◌else◌,
}
use kora_os.Common.Int.{ℤ, pos, negsuc}

abbrev pub is_digit : ℕ → Bool
is_digit c = leb b'0' c && leb c b'9'

-- `([01]\d|2[0-3])` on the two digits of the hour
abbrev pub is_hour : ℕ → ℕ → Bool
is_hour a b = (leb b'0' a && leb a b'1' && is_digit b) || (a == b'2' && leb b'0' b && leb b b'3')

-- `HHMM_PATTERN`
unfoldable pub is_valid_local_time : List ℕ → Bool
is_valid_local_time (a ∷ b ∷ c ∷ d ∷ e ∷ []) =
    is_hour a b && c == b':' && leb b'0' d && leb d b'5' && is_digit e
is_valid_local_time _ = false

-- JavaScript's order of strings, by code units.
unfoldable pub string_lt : List ℕ → List ℕ → Bool
string_lt [] [] = false
string_lt [] (y ∷ ys) = true
string_lt (x ∷ xs) [] = false
string_lt (x ∷ xs) (y ∷ ys) = ltb x y || (x == y && string_lt xs ys)

unfoldable pub compare_local_times : List ℕ → List ℕ → ℤ
compare_local_times a b = if string_lt a b then negsuc 0 else if string_lt b a then pos 1 else pos 0

-- `Number` on a text of decimal digits; of the other texts none is part of a valid local time.
unfoldable pub number_from : ℕ → List ℕ → Option ℕ
number_from total [] = some total
number_from total (c ∷ cs) = if is_digit c then number_from (total * 10 + (c - b'0')) cs else none

-- `split(':')`
unfoldable pub split_colon : List ℕ → List ℕ → List (List ℕ)
split_colon part [] = part ∷ []
split_colon part (c ∷ cs) =
    if c == b':' then part ∷ split_colon [] cs else split_colon (part ++ c ∷ []) cs

abbrev pub minutes_of_parts : List (List ℕ) → Option ℕ
minutes_of_parts [] = none
minutes_of_parts (h ∷ []) = none
minutes_of_parts (h ∷ m ∷ rest) = elim (number_from 0 h) [
  | none ↦ none
  | some hours ↦ elim (number_from 0 m) [ none ↦ none | some minutes ↦ some (hours * 60 + minutes) ]
]

-- `none` stands for NaN.
unfoldable pub local_time_to_minutes : List ℕ → Option ℕ
unfolding split_colon number_from
local_time_to_minutes value = minutes_of_parts (split_colon [] value)

-- `String(n).padStart(2, '0')` at a number below 100
unfoldable pub padded : ℕ → List ℕ
padded n = if ltb n 10 then b'0' ∷ (b'0' + n) ∷ [] else (b'0' + n / 10) ∷ (b'0' + n % 10) ∷ []

unfoldable pub minutes_to_local_time : ℕ → List ℕ
minutes_to_local_time total = padded (total / 60 % 24) ++ b':' ∷ padded (total % 60)
