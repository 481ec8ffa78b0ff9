-- ===== src/Commissions/Accrual/Discounts.antt =====
-- commission-accrual.service.ts: the discount of a sale that has other lines than its services.
use kora_os.Common.{
  ℕ, suc, ◌+◌, ◌<◌, ◌≤◌, ◌≡◌, ◌≢◌, refl, ap, ◌∙◌, false, Option, none, some, List, [], ◌∷◌, throws,
  internal, arith,
}
use kora_os.Common.Int.{ℤ, pos, negsuc, ◌+ℤ◌, int_laws}
use kora_os.Transactions.{TransactionLineItem, Transaction}
use kora_os.Commissions.Calculation.{
  percentage, round_half_up_division, percentage_amount, amount_by_type,
  calculate_commission_amount,
}
use kora_os.Commissions.Precedence.{
  net_line_after_adjustments, CandidateCommissionRule, CommissionScope, select_most_specific_rule,
}
use kora_os.Commissions.Allocation.{AmountMap}
use kora_os.Commissions.Allocation.Totals.{value_or_zero, total_over}
use kora_os.Commissions.Allocation.Exact.{allocate_adjustments_exact}
use kora_os.Commissions.Accrual.{
  CommissionAccrual, CommissionRule, ServiceLine, service_line_items, allocation_line, calculation,
  basis_amount, accrue_line, accrue_lines, is_already_accrued, candidates, accrue_for_transaction,
}

abbrev pub scope_of : Transaction → ServiceLine → CommissionScope
scope_of transaction item = record {
  branch_id = transaction.branch_id;
  staff_profile_id = item.staff_profile_id;
  service_id = item.service_id;
}

-- A rule that pays a positive percentage of the net amount.
abbrev pub PaysOfNet : CandidateCommissionRule → Type 0
PaysOfNet rule =
    (rule.type ≡ percentage)
    × (rule.basis ≡ net_line_after_adjustments)
    × (rate : ℕ) × (rule.rate_basis_points ≡ some (suc rate))

negative_amount :
    (rule : CandidateCommissionRule) (b : ℕ)
    → PaysOfNet rule
    → calculate_commission_amount (calculation (some rule)) (negsuc b) ≡ throws internal
unfolding calculate_commission_amount amount_by_type percentage_amount round_half_up_division
negative_amount rule b (is_percentage, _, rate, is_rate) = rw (is_percentage, is_rate) refl

negative_line :
    (rules : List CandidateCommissionRule) (transaction : Transaction) (net : AmountMap)
    (item : ServiceLine) (rule : CandidateCommissionRule) (b : ℕ)
    → select_most_specific_rule (scope_of transaction item) transaction.currency rules ≡ some rule
    → PaysOfNet rule
    → net item.id ≡ some (negsuc b)
    → accrue_line rules transaction net item ≡ throws internal
unfolding accrue_line basis_amount
negative_line rules transaction net item rule b selected pays is_net =
    rw (selected, pays.1, is_net, negative_amount rule b pays) refl

net_of_one :
    (net : AmountMap) (line price d : ℕ)
    → total_over (line ∷ []) net ≡ pos (price + 0) +ℤ negsuc d
    → net line ≢ none
    → price ≤ d
    → (b : ℕ) × (net line ≡ some (negsuc b))
unfolding total_over
net_of_one net line price d total entry short = go (net line) refl total entry
  where
    go :
        (o : Option ℤ)
        → net line ≡ o
        → value_or_zero o +ℤ pos 0 ≡ pos (price + 0) +ℤ negsuc d
        → o ≢ none
        → (b : ℕ) × (net line ≡ some (negsuc b))
    go none e t n = absurd (n refl)
    go (some (pos n)) e t ne = absurd (grind int_laws)
    go (some (negsuc b)) e t ne = (b, e)

-- A sale with one service line, of a positive price, that a percentage of the net amount pays for, and
-- with a discount above that price, which the sale's products leave room for: the whole discount is
-- counted against the service line, its net amount is negative, and the accrual fails with an
-- internal error, so that the sale cannot be posted.
pub over_discounted_fails :
    (rules : List CommissionRule) (transaction : Transaction)
    (line_items : List TransactionLineItem) (accruals : List CommissionAccrual) (item : ServiceLine)
    (rule : CandidateCommissionRule) (discount : ℕ)
    → service_line_items line_items ≡ item ∷ []
    → is_already_accrued transaction.id accruals item.id ≡ false
    → select_most_specific_rule
        (scope_of transaction item)
        transaction.currency
        (candidates transaction rules)
      ≡ some rule
    → PaysOfNet rule
    → transaction.adjustment_total_minor ≡ negsuc discount
    → 0 < item.price_minor_snapshot
    → item.price_minor_snapshot ≤ discount
    → accrue_for_transaction rules transaction line_items accruals ≡ throws internal
unfolding accrue_for_transaction accrue_lines
over_discounted_fails rules transaction line_items accruals item rule d one new selected pays adj
      positive short =
    let (net, allocated, total, entries) =
      allocate_adjustments_exact (allocation_line item ∷ []) transaction.adjustment_total_minor
        (omega arith) (tt, tt) in
    let (b, is_net) =
      net_of_one net item.id item.price_minor_snapshot d
        (total ∙ ap (λ z. pos (item.price_minor_snapshot + 0) +ℤ z) adj) entries.0 short in
    let failed =
      negative_line (candidates transaction rules) transaction net item rule b selected pays
        is_net in
    rw (one, new, allocated, failed) refl
