-- ===== src/Commissions/Adjustment.antt =====
-- commission-adjustment.service.ts: the corrective accruals of a posted correction.
pub mod Bounds
pub mod Reversal
use kora_os.Common.{
  ℕ, ◌+◌, ◌-◌, Bool, Option, none, some, List, [], ◌∷◌, keep, map, sum, min, same_option, Outcome,
  ok, internal, ◌>>=◌, or_throw,
}
use kora_os.Common.Int.{pos}
use kora_os.Common.Store.{find_first}
use kora_os.Transactions.{TransactionLineItem, Transaction}
use kora_os.Commissions.Calculation.{
  CommissionRuleType, rule_none, fixed, percentage, calculate_commission_amount,
  calculate_percentage_adjustment_basis, calculate_fixed_adjustment_amount,
}
use kora_os.Commissions.Accrual.{
  CommissionAccrualKind, CommissionAccrual, is_of_line, create_accrual,
}

pub record CorrectiveLineItemPairing : Type 0 where
  pub corrective_line_item : TransactionLineItem
  pub original_transaction_line_item_id : ℕ
  pub original_line_amount_minor : ℕ

abbrev pub corrects : ℕ → CommissionAccrual → Bool
corrects line accrual = same_option accrual.original_accrual (some line)

-- `alreadyAdjustedMinor`
unfoldable pub already_adjusted : ℕ → List CommissionAccrual → ℕ
already_adjusted line accruals =
    sum (map (λ a. a.calculated_amount_minor) (keep (corrects line) accruals))

-- For a percentage: `Math.min(fresh, Math.max(original - already, 0))`.
unfoldable pub percentage_adjustment : CommissionAccrual → ℕ → ℕ → ℕ → Outcome ℕ
percentage_adjustment original already requested line_amount = do
  basis ← calculate_percentage_adjustment_basis original.basis_amount_minor requested line_amount
  calculated ←
      calculate_commission_amount
        (some (record {
          type = percentage;
          rate_basis_points = original.rate_basis_points_snapshot;
          fixed_amount_minor = none;
        }))
        (pos basis)
  fresh ← or_throw calculated internal
  ok (min fresh (original.calculated_amount_minor - already))

unfoldable pub adjustment_amount :
    Option CommissionRuleType → CommissionAccrual → ℕ → ℕ → ℕ → Outcome ℕ
unfolding percentage_adjustment
adjustment_amount none original already requested line_amount = ok 0
adjustment_amount (some rule_none) original already requested line_amount = ok 0
adjustment_amount (some fixed) original already requested line_amount =
    calculate_fixed_adjustment_amount original.calculated_amount_minor already requested line_amount
adjustment_amount (some percentage) original already requested line_amount =
    percentage_adjustment original already requested line_amount

abbrev pub corrective_accrual :
    Transaction
    → CommissionAccrualKind
    → CorrectiveLineItemPairing
    → CommissionAccrual
    → ℕ
    → CommissionAccrual
corrective_accrual transaction kind pairing original amount = record original {
  organization_id = transaction.organization_id;
  transaction_id = transaction.id;
  transaction_line_item_id = pairing.corrective_line_item.id;
  kind = kind;
  original_accrual = some original.transaction_line_item_id;
  basis_amount_minor = pairing.corrective_line_item.price_minor_snapshot;
  calculated_amount_minor = amount;
}

-- One round of the loop. A line without an accrual is skipped.
unfoldable pub adjust_original :
    Transaction
    → CommissionAccrualKind
    → CorrectiveLineItemPairing
    → Option CommissionAccrual
    → List CommissionAccrual
    → Outcome (List CommissionAccrual)
adjust_original transaction kind pairing none accruals = ok accruals
adjust_original transaction kind pairing (some original) accruals = do
  amount ←
      adjustment_amount original.rule_type_snapshot original
        (already_adjusted original.transaction_line_item_id accruals)
        pairing.corrective_line_item.price_minor_snapshot pairing.original_line_amount_minor
  create_accrual (corrective_accrual transaction kind pairing original amount) accruals

unfoldable pub adjust_for_correction :
    Transaction
    → CommissionAccrualKind
    → List CorrectiveLineItemPairing
    → List CommissionAccrual
    → Outcome (List CommissionAccrual)
adjust_for_correction transaction kind [] accruals = ok accruals
adjust_for_correction transaction kind (pairing ∷ pairings) accruals = do
  adjusted ←
      adjust_original transaction kind pairing
        (find_first (is_of_line pairing.original_transaction_line_item_id) accruals) accruals
  adjust_for_correction transaction kind pairings adjusted
