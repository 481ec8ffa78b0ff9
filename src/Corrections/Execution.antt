-- ===== src/Corrections/Execution.antt =====
-- transaction-correction-execution.service.ts. The reads before the transaction are of `before`; the
-- transaction runs on `sale`. The new identifiers and the time are arguments, so a reference is never
-- taken twice; whether the branch's cash policy is REQUIRED is the argument `requires_cash_session`.
pub mod Lines
pub mod Postings
use kora_os.Common.{
  ℕ, suc, ◌+◌, ◌-◌, Bool, false, not, ◌&&◌, ◌||◌, Option, none, some, List, [], ◌∷◌, ◌++◌, ◌==◌,
  map, any, keep, is_empty, is_some, sum, ltb, if◌then◌else◌, Outcome, Exception, ok, throws,
  conflict, bad_request, internal, unique_violation, plain, correction_state_invalid,
  correction_already_executed, correction_exceeds_remaining_refundable,
  partial_product_refund_not_supported, ◌>>=◌, ◌>>◌, throw_if, or_throw,
}
use kora_os.Common.Int.{pos}
use kora_os.Common.Store.{find_first, update_where}
use kora_os.Money.{sum_minor_amounts}
use kora_os.Access.Tenant.{TenantContext}
use kora_os.Cash.Sessions.{record_refund_paid_entry}
use kora_os.Commissions.Accrual.{CommissionAccrualKind, refunded, reversed, CommissionAccrual}
use kora_os.Commissions.Adjustment.{CorrectiveLineItemPairing, adjust_for_correction}
use kora_os.Inventory.Stock.{
  InventoryMovementType, sale_reversal, return_movement, Inventory, apply_sale_movement,
}
use kora_os.Sales.Schema.{is_cash}
use kora_os.Transactions.{
  TransactionKind, kind_refund, kind_reversal, is_product, TransactionLineItem, Transaction,
}
use kora_os.Corrections.Schema.{
  TransactionCorrectionType, type_refund, type_reversal, is_reversal, approved, executed,
  has_correction_status, TransactionCorrectionItem, TransactionCorrection, CorrectiveTransaction,
  execute_correction, CashDrawer, CorrectedSale, is_correction, is_line, is_used_key,
  load_owned_correction, check_correction_replay, move_correction,
}
use kora_os.Corrections.Requests.{amounts_of, is_item_of}
use kora_os.Corrections.Execution.Lines.{other_executed, executed_by_line, check_items}
use kora_os.Corrections.Execution.Postings.{ExecuteCorrection, post_correction, with_execute_key}

-- The transaction of `execute`.
unfoldable pub execute_transaction :
    TenantContext → ExecuteCorrection → ℕ → ℕ → CorrectedSale → Outcome CorrectedSale
execute_transaction tenant dto correction_id key sale = do
  locked ← or_throw (find_first (is_correction correction_id) sale.corrections) internal
  throw_if (not (has_correction_status approved locked.status)) (conflict correction_state_invalid)
  let others = other_executed correction_id sale.corrections
  throw_if (is_reversal locked.correction_type && not (is_empty others))
      (conflict correction_already_executed)
  check_items sale.line_items (executed_by_line others) locked.items
  posted ← post_correction tenant dto locked (executed_by_line others) sale
  moved ← move_correction tenant locked executed locked.solo_owner_override posted
  throw_if
      (is_some (
        find_first (is_used_key tenant.membership_id execute_correction key) sale.idempotency_keys))
      unique_violation
  ok (with_execute_key tenant dto key correction_id moved)

-- The `catch`: an error is answered with the result of an earlier request of the same key and body.
unfoldable pub answered :
    Option TransactionCorrection → Exception → CorrectedSale → Outcome CorrectedSale
answered none e sale = throws e
answered (some raced) e sale = ok sale

unfoldable pub caught_execution :
    TenantContext
    → ExecuteCorrection
    → ℕ
    → CorrectedSale
    → Outcome CorrectedSale
    → Outcome CorrectedSale
caught_execution tenant dto key sale (ok after) = ok after
caught_execution tenant dto key sale (throws e) =
    check_correction_replay execute_correction tenant.membership_id key dto.request_fingerprint sale
    >>= λ raced. answered raced e sale

unfoldable pub check_execution_session :
    (ℕ → Bool) → TransactionCorrection → Option ℕ → Outcome (Unit {0})
check_execution_session requires_cash_session correction session =
    if is_cash correction.return_method
    then throw_if (requires_cash_session correction.branch_id && not (is_some session))
        (bad_request plain)
    else throw_if (is_some session) (bad_request plain)

unfoldable pub execute_or_replay :
    (ℕ → Bool)
    → TenantContext
    → ExecuteCorrection
    → TransactionCorrection
    → ℕ
    → CorrectedSale
    → Option TransactionCorrection
    → Outcome CorrectedSale
execute_or_replay requires tenant dto correction key sale (some existing) = ok sale
execute_or_replay requires tenant dto correction key sale none = do
  throw_if (not (has_correction_status approved correction.status))
      (conflict correction_state_invalid)
  check_execution_session requires correction dto.cash_session_id
  caught_execution tenant dto key sale (execute_transaction tenant dto correction.id key sale)

unfoldable pub execute :
    (ℕ → Bool)
    → TenantContext
    → ℕ
    → ExecuteCorrection
    → CorrectedSale
    → CorrectedSale
    → Outcome CorrectedSale
execute requires tenant correction_id dto before sale = do
  key ← or_throw dto.idempotency_key (bad_request plain)
  correction ← load_owned_correction tenant correction_id before
  replay ←
      check_correction_replay execute_correction tenant.membership_id key dto.request_fingerprint
        before
  execute_or_replay requires tenant dto correction key sale replay
