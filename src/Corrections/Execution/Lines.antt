-- ===== src/Corrections/Execution/Lines.antt =====
-- transaction-correction-execution.service.ts: the items of a correction against the lines of the sale
-- and the corrections that were executed before.
use kora_os.Common.{
  ℕ, suc, ◌+◌, ◌-◌, Bool, not, ◌&&◌, Option, none, some, List, [], ◌∷◌, ◌==◌, map, keep, is_some,
  sum, ltb, Outcome, ok, conflict, internal, plain, correction_exceeds_remaining_refundable,
  partial_product_refund_not_supported, ◌>>=◌, ◌>>◌, throw_if, or_throw,
}
use kora_os.Common.Store.{find_first}
use kora_os.Commissions.Adjustment.{CorrectiveLineItemPairing}
use kora_os.Transactions.{is_product, TransactionLineItem}
use kora_os.Corrections.Schema.{
  TransactionCorrectionType, type_refund, type_reversal, executed, has_correction_status,
  TransactionCorrectionItem, TransactionCorrection, is_line,
}
use kora_os.Corrections.Requests.{amounts_of, is_item_of}

abbrev pub is_executed : TransactionCorrection → Bool
is_executed c = has_correction_status executed c.status

-- `otherExecuted`
abbrev pub other_executed : ℕ → List TransactionCorrection → List TransactionCorrection
other_executed correction_id corrections =
    keep (λ c. is_executed c && not (c.id == correction_id)) corrections

-- What the items ask for one line.
abbrev pub requested_for : ℕ → List TransactionCorrectionItem → ℕ
requested_for line items = sum (amounts_of (keep (is_item_of line) items))

-- `executedByLine`
unfoldable pub executed_by_line : List TransactionCorrection → ℕ → ℕ
executed_by_line [] line = 0
executed_by_line (c ∷ cs) line = requested_for line c.items + executed_by_line cs line

unfoldable pub check_item :
    List TransactionLineItem → (ℕ → ℕ) → TransactionCorrectionItem → Outcome (Unit {0})
check_item line_items by_line item = do
  line ←
      or_throw (find_first (is_line item.original_transaction_line_item_id) line_items)
        (conflict plain)
  throw_if
      (ltb line.price_minor_snapshot
        (by_line item.original_transaction_line_item_id + item.requested_amount_minor))
      (conflict correction_exceeds_remaining_refundable)
  throw_if
      (is_product line.kind
        && is_some line.product_variant_id
        && not (item.requested_amount_minor == line.price_minor_snapshot))
      (conflict partial_product_refund_not_supported)

unfoldable pub check_items :
    List TransactionLineItem → (ℕ → ℕ) → List TransactionCorrectionItem → Outcome (Unit {0})
check_items line_items by_line [] = ok tt
check_items line_items by_line (item ∷ items) =
    check_item line_items by_line item >> check_items line_items by_line items

-- `correctiveLineItemsData` with the pairing of each line, from the index of the first.
unfoldable pub pair_items :
    List TransactionLineItem
    → (ℕ → ℕ)
    → ℕ
    → List TransactionCorrectionItem
    → Outcome (List CorrectiveLineItemPairing)
pair_items line_items new_line_id index [] = ok []
pair_items line_items new_line_id index (item ∷ items) = do
  line ← or_throw (find_first (is_line item.original_transaction_line_item_id) line_items) internal
  pairings ← pair_items line_items new_line_id (suc index) items
  ok (
      record {
        corrective_line_item = record line {
          id = new_line_id index;
          price_minor_snapshot = item.requested_amount_minor;
          display_order = index;
        };
        original_transaction_line_item_id = item.original_transaction_line_item_id;
        original_line_amount_minor = line.price_minor_snapshot;
      }
      ∷ pairings)

-- `remainingRefundableMinor`; the subtraction stops at 0, as `Math.max` does.
abbrev pub remaining_total : List TransactionLineItem → (ℕ → ℕ) → List TransactionCorrectionItem → ℕ
remaining_total lines by_line items = sum (
    map
      (λ l. l.price_minor_snapshot - by_line l.id - (elim (find_first (is_item_of l.id) items) [
        | none ↦ 0
        | some item ↦ item.requested_amount_minor
      ]))
      lines)

abbrev pub remaining_refundable :
    TransactionCorrectionType
    → List TransactionLineItem
    → (ℕ → ℕ)
    → List TransactionCorrectionItem
    → Option ℕ
remaining_refundable type_refund lines by_line items = some (remaining_total lines by_line items)
remaining_refundable type_reversal lines by_line items = none
