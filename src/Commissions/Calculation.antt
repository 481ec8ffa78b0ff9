-- ===== src/Commissions/Calculation.antt =====
-- commission-calculation.util.ts and commission-adjustment-calculation.util.ts
pub mod Rounding
use kora_os.Common.{
  ℕ, zero, suc, ◌+◌, ◌-◌, ◌*◌, ◌/◌, min, Option, none, some, Bool, ◌||◌, leb, if◌then◌else◌,
  Outcome, ok, throws, internal, ◌>>=◌,
}
use kora_os.Common.Int.{ℤ, pos, negsuc}

abbrev pub basis_points_denominator : ℕ
basis_points_denominator = 10000

pub data CommissionRuleType : Type 0 where
  rule_none : CommissionRuleType
  fixed : CommissionRuleType
  percentage : CommissionRuleType

pub record CommissionRuleForCalculation : Type 0 where
  pub type : CommissionRuleType
  pub rate_basis_points : Option ℕ
  pub fixed_amount_minor : Option ℕ

-- An error is thrown for a denominator that is not positive, then for a negative numerator.
unfoldable pub round_half_up_division : ℤ → ℤ → Outcome ℕ
round_half_up_division numerator (negsuc d) = throws internal
round_half_up_division numerator (pos zero) = throws internal
round_half_up_division (negsuc n) (pos (suc d)) = throws internal
round_half_up_division (pos n) (pos (suc d)) = ok ((2 * n + suc d) / (2 * suc d))

-- The product of big integers, for a rate that is not negative.
abbrev pub times : ℤ → ℕ → ℤ
times (pos basis) rate = pos (basis * rate)
times (negsuc basis) zero = pos 0
times (negsuc basis) (suc rate) = negsuc (suc basis * suc rate - 1)

-- `BigInt(null)` throws; `fixedAmountMinor!` is handed on as it is.
unfoldable pub percentage_amount : Option ℕ → ℤ → Outcome (Option ℕ)
percentage_amount none basis = throws internal
percentage_amount (some rate) basis = do
  amount ← round_half_up_division (times basis rate) (pos basis_points_denominator)
  ok (some amount)

unfoldable pub amount_by_type :
    CommissionRuleType → CommissionRuleForCalculation → ℤ → Outcome (Option ℕ)
amount_by_type rule_none rule basis = ok (some 0)
amount_by_type fixed rule basis = ok rule.fixed_amount_minor
amount_by_type percentage rule basis = percentage_amount rule.rate_basis_points basis

unfoldable pub calculate_commission_amount :
    Option CommissionRuleForCalculation → ℤ → Outcome (Option ℕ)
unfolding amount_by_type percentage_amount round_half_up_division
calculate_commission_amount none basis = ok (some 0)
calculate_commission_amount (some rule) basis = amount_by_type rule.type rule basis

unfoldable pub calculate_percentage_adjustment_basis : ℕ → ℕ → ℕ → Outcome ℕ
unfolding round_half_up_division
calculate_percentage_adjustment_basis original_basis requested original_line =
    if leb original_line 0
    then ok 0
    else round_half_up_division (pos (original_basis * requested)) (pos original_line)

unfoldable pub calculate_fixed_adjustment_amount : ℕ → ℕ → ℕ → ℕ → Outcome ℕ
unfolding round_half_up_division
calculate_fixed_adjustment_amount original already requested original_line =
    let remaining = original - already in
    if leb original_line 0 || leb original_line requested
    then ok remaining
    else round_half_up_division (pos (original * requested)) (pos original_line) >>= λ prorated.
        ok (min prorated remaining)
