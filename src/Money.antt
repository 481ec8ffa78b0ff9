-- ===== src/Money.antt =====
-- apps/api/src/common/money/assert-safe-money-amount.util.ts: the check of one amount of minor
-- currency units, and the checked sum of several.
mod Tests
pub mod Bounds
use kora_os.Common.{
  ℕ, ◌+◌, Bool, true, false, List, [], ◌∷◌, ltb, if◌then◌else◌, Outcome, ok, throws, bad_request,
  plain, ◌>>=◌, ◌>>◌, throw_if,
}
use kora_os.Common.Int.{ℤ, pos, negsuc, ltb_ℤ}

abbrev pub max_minor_amount : ℕ
max_minor_amount = 500000000

abbrev pub postgres_int_max : ℕ
postgres_int_max = 2147483647

-- A JavaScript number, as far as `Number.isInteger` tells them apart.
pub data JsNumber : Type 0 where
  integer : ℤ → JsNumber
  non_integer : JsNumber

unfoldable pub assert_safe_money_amount : JsNumber → ℕ → Outcome (Unit {0})
assert_safe_money_amount non_integer min = throws (bad_request plain)
assert_safe_money_amount (integer value) min = do
  throw_if (ltb_ℤ value (pos min)) (bad_request plain)
  throw_if (ltb_ℤ (pos max_minor_amount) value) (bad_request plain)
  ok tt

-- The loop of `sumMinorAmounts`, with the running total.
unfoldable pub sum_minor_from : ℕ → List ℕ → Outcome ℕ
sum_minor_from total [] = ok total
sum_minor_from total (value ∷ rest) =
    if ltb postgres_int_max (total + value)
    then throws (bad_request plain)
    else sum_minor_from (total + value) rest

unfoldable pub sum_minor_amounts : List ℕ → Outcome ℕ
unfolding sum_minor_from
sum_minor_amounts values = sum_minor_from 0 values
