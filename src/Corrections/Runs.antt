-- ===== src/Corrections/Runs.antt =====
-- Runs of the requests, decisions and executions for one posted sale. A handler reads from any state
-- `before`; its transaction runs on the state that is locked.
use kora_os.Common.{ℕ, ◌≡◌, refl, ap, subst, Bool, List, [], ok, arith}
use kora_os.Common.Store.{count_where}
use kora_os.Access.Tenant.{TenantContext}
use kora_os.Inventory.Stock.{Inventory}
use kora_os.Corrections.Schema.{
  approved, rejected, executed, has_correction_status, TransactionCorrectionItem,
  TransactionCorrection, CorrectedSale, CashDrawer,
}
use kora_os.Corrections.Requests.{CorrectionRequest, request_refund, request_reversal}
use kora_os.Corrections.Decisions.{approve, reject, cancel_correction}
use kora_os.Corrections.Execution.{execute}
use kora_os.Corrections.Execution.Lines.{executed_by_line}
use kora_os.Corrections.Execution.Postings.{ExecuteCorrection}
use kora_os.Corrections.Refundable.{
  IsRefundable, move_correction-IsRefundable, create_correction-IsRefundable,
  execute_transaction-IsRefundable,
}
use kora_os.Corrections.Changes.{
  Change, change_none, change_elsewhere, change_created, change_moved, change_executed,
  request_refund-Change, request_reversal-Change, decide-Change, cancel_correction-Change,
  execute-Change,
}

-- `Step sale after`: an operation that was answered, or a change of the stock or of the cash drawers
-- by others. The lines of a posted transaction are never changed, so a reversal reads those that are
-- there.
pub data Step (sale after : CorrectedSale) : Type 0 where
  step_request_refund :
      (t : TenantContext) (dto : CorrectionRequest) (lines : List TransactionCorrectionItem)
      (new_id : ℕ) (before : CorrectedSale) (c : TransactionCorrection)
      → request_refund t dto lines new_id before sale ≡ ok (after, c)
      → Step sale after
  step_request_reversal :
      (t : TenantContext) (dto : CorrectionRequest) (new_id : ℕ) (before : CorrectedSale)
      (c : TransactionCorrection)
      → before.line_items ≡ sale.line_items
      → request_reversal t dto new_id before sale ≡ ok (after, c)
      → Step sale after
  step_approve :
      (t : TenantContext) (approver : ℕ → Bool) (id : ℕ) (reason : Bool) (before : CorrectedSale)
      → approve t approver id reason before sale ≡ ok after
      → Step sale after
  step_reject :
      (t : TenantContext) (approver : ℕ → Bool) (id : ℕ) (reason : Bool) (before : CorrectedSale)
      → reject t approver id reason before sale ≡ ok after
      → Step sale after
  step_cancel :
      (t : TenantContext) (id : ℕ) (before : CorrectedSale)
      → cancel_correction t id before sale ≡ ok after
      → Step sale after
  step_execute :
      (requires : ℕ → Bool) (t : TenantContext) (id : ℕ) (dto : ExecuteCorrection)
      (before : CorrectedSale)
      → execute requires t id dto before sale ≡ ok after
      → Step sale after
  step_elsewhere :
      (inventory : Inventory) (drawers : List CashDrawer)
      → record sale { inventory = inventory; drawers = drawers } ≡ after
      → Step sale after

pub data Reachable (init : CorrectedSale) : CorrectedSale → Type 0 where
  here : Reachable init init
  next : {sale after : CorrectedSale} → Reachable init sale → Step sale after → Reachable init after

Change-IsRefundable :
    (sale after : CorrectedSale) → IsRefundable sale → Change sale after → IsRefundable after
Change-IsRefundable sale after v (change_none same) = subst IsRefundable same v
Change-IsRefundable sale after v (change_elsewhere inventory drawers same) =
    subst IsRefundable same (record { keys = v.keys; lines = v.lines; within = v.within })
Change-IsRefundable sale after v (change_created t c key fingerprint new whole h) =
    create_correction-IsRefundable t c key fingerprint sale after
      (ap (has_correction_status executed) new) v h
Change-IsRefundable sale after v (change_moved t read status override live other h) =
    move_correction-IsRefundable t read status override sale after live other v h
Change-IsRefundable sale after v (change_executed t dto id key h) =
    execute_transaction-IsRefundable t dto id key sale after v h

pub Step-Change : (sale after : CorrectedSale) → Step sale after → Change sale after
unfolding approve reject
Step-Change sale after (step_request_refund t dto lines new_id before c h) =
    request_refund-Change t dto lines new_id before sale after c h
Step-Change sale after (step_request_reversal t dto new_id before c same h) =
    request_reversal-Change t dto new_id before sale after c same h
Step-Change sale after (step_approve t approver id reason before h) =
    decide-Change t approver id reason approved before sale after refl h
Step-Change sale after (step_reject t approver id reason before h) =
    decide-Change t approver id reason rejected before sale after refl h
Step-Change sale after (step_cancel t id before h) =
    cancel_correction-Change t id before sale after h
Step-Change sale after (step_execute requires t id dto before h) =
    execute-Change requires t id dto before sale after h
Step-Change sale after (step_elsewhere inventory drawers same) =
    change_elsewhere inventory drawers same

-- From a posted sale without corrections on, whatever is requested, decided and executed in any order,
-- by handlers that may have read older states: of every line of the sale, the executed refunds and
-- reversals together took at most its price; identifiers are unique and a correction names a line once.
pub Reachable-IsRefundable :
    (init sale : CorrectedSale) → init.corrections ≡ [] → Reachable init sale → IsRefundable sale
unfolding executed_by_line count_where
Reachable-IsRefundable init sale new here = record {
  keys = λ k. rw new (omega arith);
  lines = rw new tt;
  within = λ id line found. rw new (omega arith);
}
Reachable-IsRefundable init after new (next {sale} r s) =
    Change-IsRefundable sale after (Reachable-IsRefundable init sale new r)
      (Step-Change sale after s)
