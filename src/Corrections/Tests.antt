-- ===== src/Corrections/Tests.antt =====
-- A sale of a service and two bottles with a discount: half of the service is refunded; in another run the
-- whole sale is reversed.
use kora_os.Common.{
  ◌≢◌, ℕ, ◌≡◌, refl, Bool, true, false, none, some, List, [], ◌∷◌, map, zero, suc, sum, Outcome, ok,
  throws, arith,
}
use kora_os.Common.Store.{find_first, update_where, count_where}
use kora_os.Common.Int.{◌+ℤ◌, negsuc}
use kora_os.Money.{sum_minor_amounts, sum_minor_from, assert_safe_money_amount}
use kora_os.Access.Tenant.{TenantContext, full, assert_membership_has_branch_access}
use kora_os.Access.Decisions.{assert_correction_decision_authorized}
use kora_os.Transactions.{kind_sale, line_service, line_product, TransactionLineItem}
use kora_os.Sales.Schema.{other_method}
use kora_os.Commissions.Calculation.{
  percentage, calculate_percentage_adjustment_basis, calculate_commission_amount, amount_by_type,
  percentage_amount, round_half_up_division,
}
use kora_os.Commissions.Precedence.{gross_line}
use kora_os.Commissions.Accrual.{earned, policy, CommissionAccrual, create_accrual}
use kora_os.Commissions.Adjustment.{
  already_adjusted, percentage_adjustment, adjustment_amount, adjust_original,
  adjust_for_correction,
}
use kora_os.Commissions.Adjustment.Bounds.{IsWithin}
use kora_os.Inventory.Stock.{
  Inventory, find_owned_variant, upsert, write_stock, apply_sale_movement,
}
use kora_os.Corrections.Schema.{
  requested, type_refund, TransactionCorrection, TransactionCorrectionPayment,
  TransactionCorrectionItem, CorrectedSale, is_correction, is_reversal, load_owned_correction,
  check_correction_replay, move_correction,
}
use kora_os.Corrections.Requests.{
  CorrectionRequest, load_correctable_sale, check_requested_lines, check_requested_line,
  repeats_line, has_zero_amount, create_correction, create_or_replay, request_refund,
  request_reversal, amounts_of,
}
use kora_os.Corrections.Decisions.{assert_decision_authorized, decide, approve}
use kora_os.Corrections.Execution.{
  execute, execute_or_replay, caught_execution, execute_transaction, check_execution_session,
}
use kora_os.Corrections.Execution.Lines.{check_items, check_item, executed_by_line, pair_items}
use kora_os.Corrections.Execution.Postings.{
  ExecuteCorrection, post_correction, restore_stock, restore_line, pay_cash,
}
use kora_os.Corrections.Refundable.{IsRefundable}
use kora_os.Corrections.Exclusive.{IsExclusive, Reachable-IsExclusive}
use kora_os.Corrections.Payout.{
  gross_of, execute_transaction-paid, Reachable-IsWithin, free_line_irreversible,
}
use kora_os.Corrections.Runs.{
  Reachable, here, next, step_request_refund, step_request_reversal, step_approve, step_execute,
  Reachable-IsRefundable,
}

abbrev member : ℕ → TenantContext
member id = record {
  membership_id = id;
  organization_id = 7;
  user_id = id;
  permission_codes = λ _. true;
  is_owner = false;
  branch_ids = 3 ∷ [];
  access_mode = full;
}

abbrev haircut : TransactionLineItem
haircut = record {
  id = 1;
  kind = line_service;
  service_id = some 8;
  staff_profile_id = some 5;
  product_id = none;
  product_variant_id = none;
  quantity = 1;
  unit_price_minor_snapshot = 600;
  price_minor_snapshot = 600;
  display_order = 0;
}

abbrev bottles : TransactionLineItem
bottles = record {
  id = 2;
  kind = line_product;
  service_id = none;
  staff_profile_id = none;
  product_id = some 20;
  product_variant_id = some 21;
  quantity = 2;
  unit_price_minor_snapshot = 200;
  price_minor_snapshot = 400;
  display_order = 1;
}

-- The commission of a tenth on the haircut.
abbrev commission : CommissionAccrual
commission = record {
  organization_id = 7;
  transaction_id = 90;
  transaction_line_item_id = 1;
  staff_profile_id = 5;
  commission_rule_id = some 4;
  kind = earned;
  original_accrual = none;
  source = policy;
  rule_type_snapshot = some percentage;
  rate_basis_points_snapshot = some 1000;
  fixed_amount_minor_snapshot = none;
  basis_snapshot = gross_line;
  basis_amount_minor = 600;
  calculated_amount_minor = 60;
}

abbrev stock : Inventory
stock = record {
  branches = record { id = 3; organization_id = 7 } ∷ [];
  variants =
      record {
        id = 21;
        organization_id = 7;
        product = record { id = 20; currency = 1; track_inventory = true; archived = false };
        selling_price_minor = 200;
        archived = false;
      }
      ∷ [];
  rows = [];
  movements = [];
}

abbrev sale_of : List TransactionLineItem → CorrectedSale
sale_of lines = record {
  transaction = record {
    id = 90;
    organization_id = 7;
    branch_id = 3;
    kind = kind_sale;
    corrected_transaction_id = none;
    currency = 1;
    subtotal_minor = 1000;
    adjustment_total_minor = negsuc 99;
    total_minor = 900;
    posted_at = 5;
  };
  line_items = lines;
  corrections = [];
  corrective_transactions = [];
  payments = [];
  status_history = [];
  idempotency_keys = [];
  accruals = commission ∷ [];
  inventory = stock;
  drawers = [];
}

abbrev posted : CorrectedSale
posted = sale_of (haircut ∷ bottles ∷ [])

abbrev request : ℕ → CorrectionRequest
request key = record {
  transaction_id = 90;
  return_method = other_method;
  idempotency_key = some key;
  request_fingerprint = key;
}

abbrev half : List TransactionCorrectionItem
half = record { original_transaction_line_item_id = 1; requested_amount_minor = 300 } ∷ []

abbrev execution : ℕ → ExecuteCorrection
execution key = record {
  cash_session_id = none;
  idempotency_key = some key;
  request_fingerprint = key;
  new_transaction_id = 91;
  meanwhile = λ inventory. inventory;
  new_line_id = λ index. elim index [ zero ↦ 11 | suc n ↦ 12 ];
  now = 6;
}

abbrev sale_and : Outcome (CorrectedSale × TransactionCorrection) → CorrectedSale
sale_and (ok p) = p.0
sale_and (throws e) = posted

abbrev correction_and :
    Outcome (CorrectedSale × TransactionCorrection) → TransactionCorrection → TransactionCorrection
correction_and (ok p) other = p.1
correction_and (throws e) other = other

abbrev sale_after : Outcome CorrectedSale → CorrectedSale
sale_after (ok sale) = sale
sale_after (throws e) = posted

abbrev no_approver : ℕ → Bool
no_approver _ = false

abbrev no_policy_session : ℕ → Bool
no_policy_session _ = false

abbrev empty_correction : CorrectionRequest → TransactionCorrection
empty_correction dto = record {
  id = 0;
  organization_id = 0;
  branch_id = 0;
  correction_type = type_refund;
  status = requested;
  version = 0;
  return_method = other_method;
  total_requested_minor = 0;
  requested_by_membership_id = 0;
  solo_owner_override = false;
  items = [];
}

abbrev refund_requested : Outcome (CorrectedSale × TransactionCorrection)
refund_requested = request_refund (member 1) (request 31) half 50 posted posted

abbrev refund_approved : CorrectedSale
refund_approved = sale_after (
    approve (member 2) no_approver 50 false (sale_and refund_requested) (sale_and refund_requested))

abbrev refund_executed : CorrectedSale
refund_executed =
    sale_after
      (execute no_policy_session (member 2) 50 (execution 32) refund_approved refund_approved)

abbrev reversal_requested : Outcome (CorrectedSale × TransactionCorrection)
reversal_requested = request_reversal (member 1) (request 33) 51 posted posted

abbrev reversal_approved : CorrectedSale
reversal_approved = sale_after (
    approve (member 2) no_approver 51 false (sale_and reversal_requested)
      (sale_and reversal_requested))

abbrev reversed_sale : CorrectedSale
reversed_sale = sale_after (execute_transaction (member 2) (execution 34) 51 34 reversal_approved)

refund_requested_ok :
    refund_requested
    ≡ ok
        (sale_and refund_requested, correction_and refund_requested (empty_correction (request 31)))
unfolding find_first update_where count_where ◌+ℤ◌ sum_minor_amounts sum_minor_from
    assert_safe_money_amount assert_membership_has_branch_access load_correctable_sale
    check_requested_lines check_requested_line repeats_line has_zero_amount create_correction
    create_or_replay request_refund request_reversal check_correction_replay load_owned_correction
    move_correction assert_correction_decision_authorized assert_decision_authorized decide approve
    execute execute_or_replay caught_execution execute_transaction check_execution_session
    check_items check_item executed_by_line post_correction pair_items restore_stock restore_line
    pay_cash adjust_for_correction adjust_original adjustment_amount percentage_adjustment
    calculate_percentage_adjustment_basis calculate_commission_amount amount_by_type
    percentage_amount round_half_up_division create_accrual already_adjusted apply_sale_movement
    find_owned_variant write_stock upsert
refund_requested_ok = refl

refund_approved_ok :
    approve (member 2) no_approver 50 false (sale_and refund_requested) (sale_and refund_requested)
    ≡ ok refund_approved
unfolding find_first update_where count_where ◌+ℤ◌ sum_minor_amounts sum_minor_from
    assert_safe_money_amount assert_membership_has_branch_access load_correctable_sale
    check_requested_lines check_requested_line repeats_line has_zero_amount create_correction
    create_or_replay request_refund request_reversal check_correction_replay load_owned_correction
    move_correction assert_correction_decision_authorized assert_decision_authorized decide approve
    execute execute_or_replay caught_execution execute_transaction check_execution_session
    check_items check_item executed_by_line post_correction pair_items restore_stock restore_line
    pay_cash adjust_for_correction adjust_original adjustment_amount percentage_adjustment
    calculate_percentage_adjustment_basis calculate_commission_amount amount_by_type
    percentage_amount round_half_up_division create_accrual already_adjusted apply_sale_movement
    find_owned_variant write_stock upsert
refund_approved_ok = refl

refund_executed_ok :
    execute no_policy_session (member 2) 50 (execution 32) refund_approved refund_approved
    ≡ ok refund_executed
unfolding find_first update_where count_where ◌+ℤ◌ sum_minor_amounts sum_minor_from
    assert_safe_money_amount assert_membership_has_branch_access load_correctable_sale
    check_requested_lines check_requested_line repeats_line has_zero_amount create_correction
    create_or_replay request_refund request_reversal check_correction_replay load_owned_correction
    move_correction assert_correction_decision_authorized assert_decision_authorized decide approve
    execute execute_or_replay caught_execution execute_transaction check_execution_session
    check_items check_item executed_by_line post_correction pair_items restore_stock restore_line
    pay_cash adjust_for_correction adjust_original adjustment_amount percentage_adjustment
    calculate_percentage_adjustment_basis calculate_commission_amount amount_by_type
    percentage_amount round_half_up_division create_accrual already_adjusted apply_sale_movement
    find_owned_variant write_stock upsert
refund_executed_ok = refl

reversal_requested_ok :
    reversal_requested
    ≡ ok (
      sale_and reversal_requested,
      correction_and reversal_requested (empty_correction (request 33)),
    )
unfolding find_first update_where count_where ◌+ℤ◌ sum_minor_amounts sum_minor_from
    assert_safe_money_amount assert_membership_has_branch_access load_correctable_sale
    check_requested_lines check_requested_line repeats_line has_zero_amount create_correction
    create_or_replay request_refund request_reversal check_correction_replay load_owned_correction
    move_correction assert_correction_decision_authorized assert_decision_authorized decide approve
    execute execute_or_replay caught_execution execute_transaction check_execution_session
    check_items check_item executed_by_line post_correction pair_items restore_stock restore_line
    pay_cash adjust_for_correction adjust_original adjustment_amount percentage_adjustment
    calculate_percentage_adjustment_basis calculate_commission_amount amount_by_type
    percentage_amount round_half_up_division create_accrual already_adjusted apply_sale_movement
    find_owned_variant write_stock upsert
reversal_requested_ok = refl

reversal_approved_ok :
    approve
      (member 2)
      no_approver
      51
      false
      (sale_and reversal_requested)
      (sale_and reversal_requested)
    ≡ ok reversal_approved
unfolding find_first update_where count_where ◌+ℤ◌ sum_minor_amounts sum_minor_from
    assert_safe_money_amount assert_membership_has_branch_access load_correctable_sale
    check_requested_lines check_requested_line repeats_line has_zero_amount create_correction
    create_or_replay request_refund request_reversal check_correction_replay load_owned_correction
    move_correction assert_correction_decision_authorized assert_decision_authorized decide approve
    execute execute_or_replay caught_execution execute_transaction check_execution_session
    check_items check_item executed_by_line post_correction pair_items restore_stock restore_line
    pay_cash adjust_for_correction adjust_original adjustment_amount percentage_adjustment
    calculate_percentage_adjustment_basis calculate_commission_amount amount_by_type
    percentage_amount round_half_up_division create_accrual already_adjusted apply_sale_movement
    find_owned_variant write_stock upsert
reversal_approved_ok = refl

reversed_sale_ok :
    execute_transaction (member 2) (execution 34) 51 34 reversal_approved ≡ ok reversed_sale
unfolding find_first update_where count_where ◌+ℤ◌ sum_minor_amounts sum_minor_from
    assert_safe_money_amount assert_membership_has_branch_access load_correctable_sale
    check_requested_lines check_requested_line repeats_line has_zero_amount create_correction
    create_or_replay request_refund request_reversal check_correction_replay load_owned_correction
    move_correction assert_correction_decision_authorized assert_decision_authorized decide approve
    execute execute_or_replay caught_execution execute_transaction check_execution_session
    check_items check_item executed_by_line post_correction pair_items restore_stock restore_line
    pay_cash adjust_for_correction adjust_original adjustment_amount percentage_adjustment
    calculate_percentage_adjustment_basis calculate_commission_amount amount_by_type
    percentage_amount round_half_up_division create_accrual already_adjusted apply_sale_movement
    find_owned_variant write_stock upsert
reversed_sale_ok = refl

-- The sale was paid with 900, and its reversal returns 1000.
reversal_amount : map (λ p. p.amount_minor) reversed_sale.payments ≡ 1000 ∷ []
unfolding find_first update_where count_where ◌+ℤ◌ sum_minor_amounts sum_minor_from
    assert_safe_money_amount assert_membership_has_branch_access load_correctable_sale
    check_requested_lines check_requested_line repeats_line has_zero_amount create_correction
    create_or_replay request_refund request_reversal check_correction_replay load_owned_correction
    move_correction assert_correction_decision_authorized assert_decision_authorized decide approve
    execute execute_or_replay caught_execution execute_transaction check_execution_session
    check_items check_item executed_by_line post_correction pair_items restore_stock restore_line
    pay_cash adjust_for_correction adjust_original adjustment_amount percentage_adjustment
    calculate_percentage_adjustment_basis calculate_commission_amount amount_by_type
    percentage_amount round_half_up_division create_accrual already_adjusted apply_sale_movement
    find_owned_variant write_stock upsert
reversal_amount = refl

-- The refund took back 30 of the commission of 60.
refund_commission : already_adjusted 1 refund_executed.accruals ≡ 30
unfolding find_first update_where count_where ◌+ℤ◌ sum_minor_amounts sum_minor_from
    assert_safe_money_amount assert_membership_has_branch_access load_correctable_sale
    check_requested_lines check_requested_line repeats_line has_zero_amount create_correction
    create_or_replay request_refund request_reversal check_correction_replay load_owned_correction
    move_correction assert_correction_decision_authorized assert_decision_authorized decide approve
    execute execute_or_replay caught_execution execute_transaction check_execution_session
    check_items check_item executed_by_line post_correction pair_items restore_stock restore_line
    pay_cash adjust_for_correction adjust_original adjustment_amount percentage_adjustment
    calculate_percentage_adjustment_basis calculate_commission_amount amount_by_type
    percentage_amount round_half_up_division create_accrual already_adjusted apply_sale_movement
    find_owned_variant write_stock upsert
refund_commission = refl

refund_run : Reachable posted refund_executed
refund_run =
    next
      (next
        (next here (
          step_request_refund (member 1) (request 31) half 50 posted
            (correction_and refund_requested (empty_correction (request 31))) refund_requested_ok))
        (step_approve (member 2) no_approver 50 false (sale_and refund_requested)
          refund_approved_ok))
      (step_execute no_policy_session (member 2) 50 (execution 32) refund_approved
        refund_executed_ok)

reversal_run : Reachable posted reversal_approved
reversal_run =
    next
      (next here (
        step_request_reversal (member 1) (request 33) 51 posted
          (correction_and reversal_requested (empty_correction (request 33))) refl
          reversal_requested_ok))
      (step_approve (member 2) no_approver 51 false (sale_and reversal_requested)
        reversal_approved_ok)

Reachable-IsRefundable_example : IsRefundable refund_executed
Reachable-IsRefundable_example = Reachable-IsRefundable posted refund_executed refl refund_run

Reachable-IsExclusive_example : IsExclusive reversal_approved
Reachable-IsExclusive_example = Reachable-IsExclusive posted reversal_approved refl reversal_run

execute_transaction-paid_example :
    (c : TransactionCorrection) × (payment : TransactionCorrectionPayment) × (find_first
        (is_correction 51)
        reversal_approved.corrections
      ≡ some c)
    × (reversed_sale.payments ≡ payment ∷ reversal_approved.payments)
    × (payment.amount_minor ≡ sum (amounts_of c.items))
    × (is_reversal c.correction_type ≡ true
        → payment.amount_minor ≡ gross_of reversal_approved.line_items)
execute_transaction-paid_example =
    execute_transaction-paid (member 2) (execution 34) 51 34 reversal_approved reversed_sale
      (Reachable-IsExclusive posted reversal_approved refl reversal_run) reversed_sale_ok

Reachable-IsWithin_example : IsWithin 1 commission refund_executed.accruals
unfolding find_first already_adjusted
Reachable-IsWithin_example =
    Reachable-IsWithin 1 commission posted refund_executed (refl, ground arith) refund_run

abbrev gift : TransactionLineItem
gift = record haircut { id = 3; price_minor_snapshot = 0; unit_price_minor_snapshot = 0 }

free_line_irreversible_example :
    request_reversal
      (member 1)
      (request 33)
      51
      (sale_of (haircut ∷ gift ∷ []))
      (sale_of (haircut ∷ gift ∷ []))
    ≢ ok (posted, empty_correction (request 33))
unfolding check_correction_replay find_first
free_line_irreversible_example =
    free_line_irreversible (member 1) (request 33) 51 33 (sale_of (haircut ∷ gift ∷ []))
      (sale_of (haircut ∷ gift ∷ [])) (posted, empty_correction (request 33)) refl refl refl
