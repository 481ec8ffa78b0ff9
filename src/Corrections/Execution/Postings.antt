-- ===== src/Corrections/Execution/Postings.antt =====
-- transaction-correction-execution.service.ts: the corrective transaction with its stock movements,
-- commission adjustments, cash entry and payment. Of the corrective receipt only the amount that is
-- left to refund is kept.
use kora_os.Common.{
  ℕ, not, Option, none, some, List, [], ◌∷◌, ◌==◌, map, if◌then◌else◌, Outcome, ok, internal, ◌>>=◌,
  ◌>>◌, throw_if, or_throw,
}
use kora_os.Common.Int.{pos}
use kora_os.Common.Store.{find_first, update_where}
use kora_os.Money.{sum_minor_amounts}
use kora_os.Access.Tenant.{TenantContext}
use kora_os.Cash.Sessions.{record_refund_paid_entry}
use kora_os.Commissions.Accrual.{CommissionAccrualKind, refunded, reversed, CommissionAccrual}
use kora_os.Commissions.Adjustment.{CorrectiveLineItemPairing, adjust_for_correction}
use kora_os.Inventory.Stock.{
  InventoryMovementType, sale_reversal, return_movement, Inventory, apply_sale_movement,
}
use kora_os.Sales.Schema.{is_cash}
use kora_os.Transactions.{
  TransactionKind, kind_refund, kind_reversal, is_product, TransactionLineItem, Transaction,
}
use kora_os.Corrections.Schema.{
  TransactionCorrectionType, type_refund, type_reversal, TransactionCorrection,
  CorrectiveTransaction, execute_correction, CashDrawer, CorrectedSale,
}
use kora_os.Corrections.Execution.Lines.{pair_items, remaining_refundable}

-- `ExecuteCorrectionDto`, with the identifiers and the time that are generated, and with what other
-- transactions commit between the read of a stock and the write of its row.
pub record ExecuteCorrection : Type 0 where
  pub cash_session_id : Option ℕ
  pub idempotency_key : Option ℕ
  pub request_fingerprint : ℕ
  pub new_transaction_id : ℕ
  pub new_line_id : ℕ → ℕ
  pub now : ℕ
  pub meanwhile : Inventory → Inventory

abbrev pub transaction_kind : TransactionCorrectionType → TransactionKind
transaction_kind type_refund = kind_refund
transaction_kind type_reversal = kind_reversal

abbrev pub restore_type : TransactionCorrectionType → InventoryMovementType
restore_type type_refund = return_movement
restore_type type_reversal = sale_reversal

abbrev pub accrual_kind : TransactionCorrectionType → CommissionAccrualKind
accrual_kind type_refund = refunded
accrual_kind type_reversal = reversed

-- The stock of one line goes back when it is a product's.
unfoldable pub restore_line :
    TenantContext
    → (Inventory → Inventory)
    → ℕ
    → InventoryMovementType
    → TransactionLineItem
    → Option ℕ
    → Option ℕ
    → Inventory
    → Outcome Inventory
restore_line tenant meanwhile branch type line none variant inventory = ok inventory
restore_line tenant meanwhile branch type line (some product) none inventory = ok inventory
restore_line tenant meanwhile branch type line (some product) (some variant) inventory =
    if not (is_product line.kind)
    then ok inventory
    else apply_sale_movement
        (record {
          organization_id = tenant.organization_id;
          branch_id = branch;
          product_variant_id = variant;
          type = type;
          quantity_delta = pos line.quantity;
          actor_membership_id = tenant.membership_id;
        })
        inventory (meanwhile inventory)

unfoldable pub restore_stock :
    TenantContext
    → (Inventory → Inventory)
    → ℕ
    → InventoryMovementType
    → List CorrectiveLineItemPairing
    → Inventory
    → Outcome Inventory
restore_stock tenant meanwhile branch type [] inventory = ok inventory
restore_stock tenant meanwhile branch type (p ∷ ps) inventory =
    restore_line tenant meanwhile branch type p.corrective_line_item
      p.corrective_line_item.product_id p.corrective_line_item.product_variant_id inventory
    >>= restore_stock tenant meanwhile branch type ps

-- The entry in the cash session, when the money is returned in cash and a session is given.
unfoldable pub pay_cash :
    TenantContext
    → TransactionCorrection
    → Option ℕ
    → Transaction
    → ℕ
    → List CashDrawer
    → Outcome (List CashDrawer)
pay_cash tenant correction none original amount drawers = ok drawers
pay_cash tenant correction (some session) original amount drawers =
    if not (is_cash correction.return_method)
    then ok drawers
    else or_throw (find_first (λ d. d.id == session) drawers) internal >>= λ found.
        record_refund_paid_entry tenant original.branch_id original.currency amount found.drawer
        >>= λ paid.
            ok (update_where (λ d. d.id == session) (λ d. record d { drawer = paid }) drawers)

abbrev pub corrective_transaction :
    TenantContext → ExecuteCorrection → TransactionCorrection → ℕ → Transaction → Transaction
corrective_transaction tenant dto correction total original = record original {
  id = dto.new_transaction_id;
  organization_id = tenant.organization_id;
  kind = transaction_kind correction.correction_type;
  corrected_transaction_id = some original.id;
  subtotal_minor = total;
  adjustment_total_minor = pos 0;
  total_minor = total;
  posted_at = dto.now;
}

-- The rows that the transaction leaves before the correction is marked as executed.
abbrev pub posted_correction :
    TransactionCorrection
    → CorrectiveTransaction
    → Inventory
    → List CommissionAccrual
    → List CashDrawer
    → CorrectedSale
    → CorrectedSale
posted_correction correction corrective inventory accruals drawers sale = record sale {
  corrective_transactions = corrective ∷ sale.corrective_transactions;
  payments =
      record {
        correction_id = correction.id;
        method = correction.return_method;
        amount_minor = corrective.transaction.total_minor;
      }
      ∷ sale.payments;
  inventory = inventory;
  accruals = accruals;
  drawers = drawers;
}

abbrev pub with_execute_key :
    TenantContext → ExecuteCorrection → ℕ → ℕ → CorrectedSale → CorrectedSale
with_execute_key tenant dto key correction_id sale = record sale {
  idempotency_keys =
      record {
        membership_id = tenant.membership_id;
        operation = execute_correction;
        idempotency_key = key;
        request_fingerprint = dto.request_fingerprint;
        resource_id = correction_id;
      }
      ∷ sale.idempotency_keys;
}

-- The postings of a correction whose items were checked. A payment of nothing violates the check
-- constraint on its amount.
unfoldable pub post_correction :
    TenantContext
    → ExecuteCorrection
    → TransactionCorrection
    → (ℕ → ℕ)
    → CorrectedSale
    → Outcome CorrectedSale
post_correction tenant dto correction by_line sale = do
  let original = sale.transaction
  pairings ← pair_items sale.line_items dto.new_line_id 0 correction.items
  let items = map (λ p. p.corrective_line_item) pairings
  total ← sum_minor_amounts (map (λ i. i.price_minor_snapshot) items)
  let corrective = corrective_transaction tenant dto correction total original
  inventory ←
      restore_stock tenant dto.meanwhile original.branch_id
        (restore_type correction.correction_type) pairings sale.inventory
  accruals ←
      adjust_for_correction corrective (accrual_kind correction.correction_type) pairings
        sale.accruals
  drawers ← pay_cash tenant correction dto.cash_session_id original total sale.drawers
  throw_if (total == 0) internal
  ok (
      posted_correction correction
        (record {
          transaction = corrective;
          items = items;
          remaining_refundable_minor =
              remaining_refundable correction.correction_type sale.line_items by_line
                correction.items;
        })
        inventory accruals drawers sale)
