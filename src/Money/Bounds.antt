-- ===== src/Money/Bounds.antt =====
-- assert-safe-money-amount.util.ts: the limits of amounts and of their sums.
use kora_os.Common.{
  ℕ, ◌+◌, ◌*◌, ◌≤◌, ◌≡◌, refl, ◌↔◌, List, [], ◌∷◌, All, sum, length, leb, if◌then◌else◌, ok, throws,
  bad_request, plain, arith,
}
use kora_os.Common.Int.{pos, negsuc}
use kora_os.Money.{
  JsNumber, integer, non_integer, max_minor_amount, postgres_int_max, assert_safe_money_amount,
  sum_minor_from, sum_minor_amounts,
}

-- A number passes the check exactly when it is an integer that lies between the minimum and the
-- ceiling, both included.
pub assert_safe_money_amount_iff :
    (v : JsNumber) (least : ℕ)
    → (assert_safe_money_amount v least ≡ ok tt)
      ↔ ((n : ℕ) × (v ≡ integer (pos n)) × (least ≤ n) × (n ≤ max_minor_amount))
unfolding assert_safe_money_amount
assert_safe_money_amount_iff non_integer least = (λ h. cc, λ h. let e = h.1 in cc)
assert_safe_money_amount_iff (integer (pos n)) least =
    (λ h. (n, refl, ground arith, ground arith), λ (m, e, lo, hi). ground arith)
assert_safe_money_amount_iff (integer (negsuc n)) least =
    (λ h. absurd (ground arith), λ h. let e = h.1 in ground arith)

sum_minor_from-eq :
    (total : ℕ) (xs : List ℕ)
    → total ≤ postgres_int_max
    → sum_minor_from total xs ≡ (
        if leb (total + sum xs) postgres_int_max
        then ok (total + sum xs)
        else throws (bad_request plain))
unfolding sum_minor_from
sum_minor_from-eq total [] h = ground arith
sum_minor_from-eq total (x ∷ xs) h = ground (arith, sum_minor_from-eq (total + x) xs)

-- The checked sum is the sum of the amounts where that fits the 32-bit column, and an error
-- otherwise: the running check rejects nothing that fits and lets through nothing that does not.
pub sum_minor_amounts-eq-sum :
    (xs : List ℕ)
    → sum_minor_amounts xs
      ≡ (if leb (sum xs) postgres_int_max then ok (sum xs) else throws (bad_request plain))
unfolding sum_minor_amounts
sum_minor_amounts-eq-sum xs = ground (arith, sum_minor_from-eq 0 xs)

sum-le_of_All : (b : ℕ) (xs : List ℕ) → All (λ x. x ≤ b) xs → sum xs ≤ length xs * b
sum-le_of_All b [] h = omega arith
sum-le_of_All b (x ∷ xs) h = omega (arith, sum-le_of_All b xs h.1)

-- Up to four amounts that each passed the business ceiling sum without an overflow error.
pub sum_minor_amounts_headroom :
    (xs : List ℕ)
    → All (λ x. x ≤ max_minor_amount) xs
    → length xs ≤ 4
    → sum_minor_amounts xs ≡ ok (sum xs)
sum_minor_amounts_headroom xs h l =
    ground (arith, sum_minor_amounts-eq-sum xs, sum-le_of_All max_minor_amount xs h)
