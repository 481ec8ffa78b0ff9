-- ===== src/Money/Tests.antt =====
-- Amounts that the checks accept and refuse.
use kora_os.Common.{
  ℕ, ◌≤◌, ◌≡◌, refl, ◌↔◌, List, [], ◌∷◌, leb, if◌then◌else◌, sum, ok, throws, bad_request, plain,
}
use kora_os.Common.Int.{pos, negsuc}
use kora_os.Money.{
  max_minor_amount, postgres_int_max, integer, assert_safe_money_amount, sum_minor_amounts,
  sum_minor_from,
}
use kora_os.Money.Bounds.{assert_safe_money_amount_iff, sum_minor_amounts-eq-sum}

assert_safe_money_amount_iff_example :
    (assert_safe_money_amount (integer (pos 1500)) 1 ≡ ok tt)
    ↔ ((n : ℕ) × (integer (pos 1500) ≡ integer (pos n)) × (1 ≤ n) × (n ≤ max_minor_amount))
assert_safe_money_amount_iff_example = assert_safe_money_amount_iff (integer (pos 1500)) 1

negative_amount : assert_safe_money_amount (integer (negsuc 0)) 0 ≡ throws (bad_request plain)
unfolding assert_safe_money_amount
negative_amount = refl

abbrev four_large : List ℕ
four_large = 500000000 ∷ 500000000 ∷ 500000000 ∷ 500000000 ∷ []

abbrev five_large : List ℕ
five_large = 500000000 ∷ four_large

sum_minor_amounts-eq-sum_example : sum_minor_amounts five_large ≡ (
    if leb (sum five_large) postgres_int_max
    then ok (sum five_large)
    else throws (bad_request plain))
sum_minor_amounts-eq-sum_example = sum_minor_amounts-eq-sum five_large

five_overflow : sum_minor_amounts five_large ≡ throws (bad_request plain)
unfolding sum_minor_amounts sum_minor_from
five_overflow = refl
