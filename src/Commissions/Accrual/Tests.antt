-- ===== src/Commissions/Accrual/Tests.antt =====
-- A haircut and two bottles: with a small discount the haircut's commission is accrued once, with a
-- discount above the haircut's price the accrual fails, and a reversal takes the commission back.
use kora_os.Common.{
  ℕ, ◌≡◌, refl, none, some, List, [], ◌∷◌, ◌++◌, All, Outcome, ok, throws, internal, arith,
}
use kora_os.Common.Int.{ℤ, negsuc, ◌+ℤ◌, ◌-ℤ◌, ◌*ℤ◌}
use kora_os.Common.Store.{find_first, count_where, update_where}
use kora_os.Transactions.{
  kind_sale, kind_reversal, line_service, line_product, TransactionLineItem, Transaction,
}
use kora_os.Commissions.Calculation.{
  percentage, calculate_commission_amount, amount_by_type, percentage_amount,
  round_half_up_division,
}
use kora_os.Commissions.Precedence.{
  net_line_after_adjustments, CandidateCommissionRule, passes, score, select_loop,
  select_most_specific_rule,
}
use kora_os.Commissions.Allocation.{
  big_div, big_rem, big_int_floor_div, share_of, sum_floors, ranks_before, insert_ranked, rank,
  floor_entries, raise_entry, raise_units, net_entry, net_entries, allocate_proportionally,
  allocate_adjustments_across_lines,
}
use kora_os.Commissions.Accrual.{
  reversed, no_policy, CommissionAccrual, CommissionRule, is_candidate, ServiceLine,
  service_line_items, basis_amount, accrue_line, is_of_line, create_accrual, accrue_lines,
  accrue_for_transaction,
}
use kora_os.Commissions.Accrual.Rows.{HasOneRowPerLine, accrue_for_transaction-once}
use kora_os.Commissions.Accrual.Amounts.{IsEarned, accrue_for_transaction-IsEarned}
use kora_os.Commissions.Accrual.Discounts.{over_discounted_fails}
use kora_os.Commissions.Adjustment.{CorrectiveLineItemPairing, already_adjusted, adjust_original}
use kora_os.Commissions.Adjustment.Reversal.{adjust_original_whole}

abbrev haircut : TransactionLineItem
haircut = record {
  id = 1;
  kind = line_service;
  service_id = some 8;
  staff_profile_id = some 5;
  product_id = none;
  product_variant_id = none;
  quantity = 1;
  unit_price_minor_snapshot = 600;
  price_minor_snapshot = 600;
  display_order = 0;
}

abbrev bottles : TransactionLineItem
bottles = record haircut {
  id = 2;
  kind = line_product;
  service_id = none;
  staff_profile_id = none;
  product_id = some 20;
  product_variant_id = some 21;
  quantity = 2;
  display_order = 1;
}

abbrev line_items : List TransactionLineItem
line_items = haircut ∷ bottles ∷ []

abbrev sale : ℤ → ℕ → Transaction
sale adjustment total = record {
  id = 90;
  organization_id = 7;
  branch_id = 3;
  kind = kind_sale;
  corrected_transaction_id = none;
  currency = 1;
  subtotal_minor = 1200;
  adjustment_total_minor = adjustment;
  total_minor = total;
  posted_at = 5;
}

abbrev discounted : Transaction
discounted = sale (negsuc 99) 1100

abbrev over_discounted : Transaction
over_discounted = sale (negsuc 699) 500

abbrev tenth : CandidateCommissionRule
tenth = record {
  id = 4;
  branch_id = none;
  staff_profile_id = none;
  service_id = none;
  type = percentage;
  rate_basis_points = some 1000;
  fixed_amount_minor = none;
  fixed_currency = none;
  basis = net_line_after_adjustments;
}

abbrev rules : List CommissionRule
rules =
    record { organization_id = 7; effective_from = 1; effective_until = none; candidate = tenth }
    ∷ []

abbrev accruals_and : Outcome (List CommissionAccrual) → List CommissionAccrual
accruals_and (ok accruals) = accruals
accruals_and (throws e) = []

abbrev accrued : List CommissionAccrual
accrued = accruals_and (accrue_for_transaction rules discounted line_items [])

accrued_ok : accrue_for_transaction rules discounted line_items [] ≡ ok accrued
unfolding find_first update_where count_where ◌+ℤ◌ ◌-ℤ◌ ◌*ℤ◌ service_line_items is_candidate
    select_most_specific_rule select_loop passes score accrue_for_transaction accrue_lines
    accrue_line basis_amount create_accrual calculate_commission_amount amount_by_type
    percentage_amount round_half_up_division allocate_adjustments_across_lines
    allocate_proportionally share_of sum_floors rank insert_ranked ranks_before floor_entries
    raise_units raise_entry net_entries net_entry big_int_floor_div big_div big_rem
accrued_ok = refl

accrue_for_transaction-once_example :
    HasOneRowPerLine accrued
    × All (λ item. count_where (is_of_line item.id) accrued ≡ 1) (service_line_items line_items)
    × ((new : List CommissionAccrual) × (accrued ≡ [] ++ new))
    × (accrue_for_transaction [] discounted line_items accrued ≡ ok accrued)
unfolding count_where
accrue_for_transaction-once_example =
    accrue_for_transaction-once rules [] discounted line_items [] accrued (λ line. omega arith)
      accrued_ok

accrue_for_transaction-IsEarned_example :
    (new : List CommissionAccrual) × (accrued ≡ [] ++ new) × All IsEarned new
accrue_for_transaction-IsEarned_example =
    accrue_for_transaction-IsEarned rules discounted line_items [] accrued accrued_ok

abbrev haircut_line : ServiceLine
haircut_line = record {
  id = 1;
  staff_profile_id = 5;
  service_id = 8;
  price_minor_snapshot = 600;
  display_order = 0;
}

over_discounted_fails_example :
    accrue_for_transaction rules over_discounted line_items [] ≡ throws internal
unfolding service_line_items select_most_specific_rule select_loop passes score is_candidate
over_discounted_fails_example =
    over_discounted_fails rules over_discounted line_items [] haircut_line tenth 699 refl refl refl
      (refl, refl, 999, refl) refl (ground arith) (ground arith)

abbrev first_or : List CommissionAccrual → CommissionAccrual → CommissionAccrual
first_or [] other = other
first_or (a ∷ rest) other = a

abbrev earned_row : CommissionAccrual
earned_row = first_or accrued (record {
  organization_id = 0;
  transaction_id = 0;
  transaction_line_item_id = 0;
  staff_profile_id = 0;
  commission_rule_id = none;
  kind = reversed;
  original_accrual = none;
  source = no_policy;
  rule_type_snapshot = none;
  rate_basis_points_snapshot = none;
  fixed_amount_minor_snapshot = none;
  basis_snapshot = net_line_after_adjustments;
  basis_amount_minor = 0;
  calculated_amount_minor = 0;
})

-- A tenth of 600 less the whole discount of 100.
earned_amount : earned_row.calculated_amount_minor ≡ 50
unfolding find_first update_where count_where ◌+ℤ◌ ◌-ℤ◌ ◌*ℤ◌ service_line_items is_candidate
    select_most_specific_rule select_loop passes score accrue_for_transaction accrue_lines
    accrue_line basis_amount create_accrual calculate_commission_amount amount_by_type
    percentage_amount round_half_up_division allocate_adjustments_across_lines
    allocate_proportionally share_of sum_floors rank insert_ranked ranks_before floor_entries
    raise_units raise_entry net_entries net_entry big_int_floor_div big_div big_rem
earned_amount = refl

earned_row-IsEarned : IsEarned earned_row
unfolding find_first update_where count_where ◌+ℤ◌ ◌-ℤ◌ ◌*ℤ◌ service_line_items is_candidate
    select_most_specific_rule select_loop passes score accrue_for_transaction accrue_lines
    accrue_line basis_amount create_accrual calculate_commission_amount amount_by_type
    percentage_amount round_half_up_division allocate_adjustments_across_lines
    allocate_proportionally share_of sum_floors rank insert_ranked ranks_before floor_entries
    raise_units raise_entry net_entries net_entry big_int_floor_div big_div big_rem
earned_row-IsEarned = record {
  kind = refl;
  original = refl;
  computed = refl;
  bounded = λ _. ground arith;
}

abbrev pairing : CorrectiveLineItemPairing
pairing = record {
  corrective_line_item = record haircut { id = 11 };
  original_transaction_line_item_id = 1;
  original_line_amount_minor = 600;
}

abbrev reversal : Transaction
reversal = record (sale (negsuc 99) 1200) { id = 91; kind = kind_reversal }

adjust_original_whole_example :
    (row : CommissionAccrual) × (adjust_original reversal reversed pairing (some earned_row) accrued
      ≡ ok (accrued ++ row ∷ []))
    × (already_adjusted 1 (accrued ++ row ∷ []) ≡ earned_row.calculated_amount_minor)
unfolding find_first update_where count_where ◌+ℤ◌ ◌-ℤ◌ ◌*ℤ◌ service_line_items is_candidate
    select_most_specific_rule select_loop passes score accrue_for_transaction accrue_lines
    accrue_line basis_amount create_accrual calculate_commission_amount amount_by_type
    percentage_amount round_half_up_division allocate_adjustments_across_lines
    allocate_proportionally share_of sum_floors rank insert_ranked ranks_before floor_entries
    raise_units raise_entry net_entries net_entry big_int_floor_div big_div big_rem already_adjusted
adjust_original_whole_example =
    adjust_original_whole reversal reversed pairing earned_row accrued earned_row-IsEarned refl refl
      (ground arith) refl refl
