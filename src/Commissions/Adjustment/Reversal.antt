-- ===== src/Commissions/Adjustment/Reversal.antt =====
-- commission-adjustment.service.ts: the correction of a whole line.
use kora_os.Common.{
  ℕ, ◌-◌, ◌<◌, ◌≡◌, refl, ap, ◌∙◌, true, false, ◌||◌, Option, none, some, List, [], ◌∷◌, ◌++◌, ◌==◌,
  leb, min, any, ok, ok-injective, of_some-eq-some, arith,
}
use kora_os.Common.Int.{pos}
use kora_os.Common.Store.{find_first}
use kora_os.Transactions.{Transaction}
use kora_os.Commissions.Calculation.{
  CommissionRuleType, rule_none, fixed, percentage, amount_by_type, calculate_commission_amount,
  calculate_fixed_adjustment_amount,
}
use kora_os.Commissions.Calculation.Rounding.{percentage_adjustment_basis-le}
use kora_os.Commissions.Accrual.{
  CommissionAccrualKind, CommissionAccrual, is_of_line, create_accrual,
}
use kora_os.Commissions.Accrual.Amounts.{snapshot_by, IsEarned}
use kora_os.Commissions.Adjustment.{
  CorrectiveLineItemPairing, already_adjusted, percentage_adjustment, adjustment_amount,
  corrective_accrual, adjust_original,
}
use kora_os.Commissions.Adjustment.Bounds.{already_adjusted-append, found_line}

min_self : (a : ℕ) → min a (a - 0) ≡ a
min_self a = omega arith

whole_amount :
    (type : Option CommissionRuleType) (original : CommissionAccrual) (line : ℕ)
    → calculate_commission_amount (snapshot_by type original) (pos original.basis_amount_minor)
      ≡ ok (some original.calculated_amount_minor)
    → 0 < line
    → adjustment_amount type original 0 line line ≡ ok original.calculated_amount_minor
unfolding adjustment_amount percentage_adjustment calculate_commission_amount amount_by_type
    calculate_fixed_adjustment_amount
whole_amount none original line h positive = ap ok (of_some-eq-some (ok-injective h))
whole_amount (some rule_none) original line h positive = ap ok (of_some-eq-some (ok-injective h))
whole_amount (some fixed) original line h positive =
    let whole : (leb line 0 || leb line line) ≡ true = ground arith in
    rw whole (ap ok (omega arith))
whole_amount (some percentage) original line h positive =
    let (basis, is_basis, _, exact) =
      percentage_adjustment_basis-le original.basis_amount_minor line line (omega arith) in
    rw (is_basis, exact refl positive, h) (ap ok (min_self original.calculated_amount_minor))

-- A correction of the whole of a line with a positive price, the first for that line, takes back exactly
-- what was earned on the line, whether by a percentage, a fixed amount, or no rule at all: one corrective
-- accrual is added, and what is taken back in total is what the accrual paid.
pub adjust_original_whole :
    (transaction : Transaction) (kind : CommissionAccrualKind) (pairing : CorrectiveLineItemPairing)
    (original : CommissionAccrual) (accruals : List CommissionAccrual)
    → IsEarned original
    → find_first (is_of_line pairing.original_transaction_line_item_id) accruals ≡ some original
    → already_adjusted pairing.original_transaction_line_item_id accruals ≡ 0
    → 0 < pairing.original_line_amount_minor
    → pairing.corrective_line_item.price_minor_snapshot ≡ pairing.original_line_amount_minor
    → any (is_of_line pairing.corrective_line_item.id) accruals ≡ false
    → (row : CommissionAccrual) × (adjust_original transaction kind pairing (some original) accruals
        ≡ ok (accruals ++ row ∷ []))
      × (already_adjusted pairing.original_transaction_line_item_id (accruals ++ row ∷ [])
          ≡ original.calculated_amount_minor)
unfolding adjust_original create_accrual
adjust_original_whole transaction kind pairing original accruals earned found first positive whole
      new =
    let line = pairing.original_transaction_line_item_id in
    let at_line = found_line line original accruals found in
    let amount : adjustment_amount original.rule_type_snapshot original
          (already_adjusted original.transaction_line_item_id accruals)
          pairing.corrective_line_item.price_minor_snapshot pairing.original_line_amount_minor
        ≡ ok original.calculated_amount_minor =
      rw (ap (λ l. already_adjusted l accruals) at_line ∙ first, whole)
        (whole_amount original.rule_type_snapshot original pairing.original_line_amount_minor
          earned.computed positive) in
    let row =
      corrective_accrual transaction kind pairing original original.calculated_amount_minor in
    let itself : (original.transaction_line_item_id == line) ≡ true = ground arith in
    (
      row,
      rw (amount, new) refl,
      already_adjusted-append line accruals row ∙ rw (first, itself) (omega arith),
    )
