-- ===== src/Corrections/Requests.antt =====
-- `requestRefund` and `requestReversal` of transaction-corrections.service.ts, for the sale's
-- transaction or a transaction that is not found. The identifier of the new correction is an
-- argument; the fingerprint is the SHA-256 text of the request.
use kora_os.Common.{
  ℕ, Bool, false, not, ◌&&◌, ◌||◌, Option, none, some, List, [], ◌∷◌, ◌++◌, ◌==◌, map, any,
  is_empty, is_some, ltb, Outcome, ok, conflict, bad_request, not_found, internal, unique_violation,
  plain, correction_already_executed, correction_line_amount_exceeds_original,
  transaction_not_correctable, ◌>>=◌, ◌>>◌, throw_if, or_throw,
}
use kora_os.Common.Int.{pos}
use kora_os.Common.Store.{find_first}
use kora_os.Money.{integer, assert_safe_money_amount, sum_minor_amounts}
use kora_os.Access.Tenant.{TenantContext, assert_membership_has_branch_access}
use kora_os.Sales.Schema.{PaymentMethod}
use kora_os.Transactions.{TransactionLineItem, is_sale}
use kora_os.Corrections.Schema.{
  TransactionCorrectionType, type_refund, type_reversal, requested, executed, has_correction_status,
  TransactionCorrectionItem, TransactionCorrection, CorrectedSale, request_correction, is_line,
  is_used_key, check_correction_replay,
}

-- `RequestRefundDto` and `RequestReversalDto`.
pub record CorrectionRequest : Type 0 where
  pub transaction_id : ℕ
  pub return_method : PaymentMethod
  pub idempotency_key : Option ℕ
  pub request_fingerprint : ℕ

unfoldable pub load_correctable_sale : TenantContext → ℕ → CorrectedSale → Outcome (Unit {0})
load_correctable_sale tenant transaction_id sale = do
  throw_if
      (not (
        sale.transaction.id == transaction_id
        && sale.transaction.organization_id == tenant.organization_id))
      not_found
  assert_membership_has_branch_access tenant sale.transaction.branch_id
  throw_if (not (is_sale sale.transaction.kind)) (conflict transaction_not_correctable)

abbrev pub amounts_of : List TransactionCorrectionItem → List ℕ
amounts_of items = map (λ i. i.requested_amount_minor) items

unfoldable pub check_requested_line :
    List TransactionLineItem → TransactionCorrectionItem → Outcome (Unit {0})
check_requested_line line_items item = do
  line ←
      or_throw (find_first (is_line item.original_transaction_line_item_id) line_items)
        (bad_request plain)
  assert_safe_money_amount (integer (pos item.requested_amount_minor)) 1
  throw_if (ltb line.price_minor_snapshot item.requested_amount_minor)
      (conflict correction_line_amount_exceeds_original)

unfoldable pub check_requested_lines :
    List TransactionLineItem → List TransactionCorrectionItem → Outcome (Unit {0})
check_requested_lines line_items [] = ok tt
check_requested_lines line_items (item ∷ items) =
    check_requested_line line_items item >> check_requested_lines line_items items

abbrev pub is_item_of : ℕ → TransactionCorrectionItem → Bool
is_item_of line item = item.original_transaction_line_item_id == line

-- The unique constraint on the correction and the line of an item.
unfoldable pub repeats_line : List TransactionCorrectionItem → Bool
repeats_line [] = false
repeats_line (item ∷ items) =
    any (is_item_of item.original_transaction_line_item_id) items || repeats_line items

-- The check constraint on the amount of an item.
unfoldable pub has_zero_amount : List TransactionCorrectionItem → Bool
has_zero_amount items = any (λ i. i.requested_amount_minor == 0) items

abbrev pub new_correction :
    TenantContext
    → CorrectionRequest
    → TransactionCorrectionType
    → ℕ
    → List TransactionCorrectionItem
    → ℕ
    → CorrectedSale
    → TransactionCorrection
new_correction tenant dto type total items new_id before = record {
  id = new_id;
  organization_id = tenant.organization_id;
  branch_id = before.transaction.branch_id;
  correction_type = type;
  status = requested;
  version = 1;
  return_method = dto.return_method;
  total_requested_minor = total;
  requested_by_membership_id = tenant.membership_id;
  solo_owner_override = false;
  items = items;
}

abbrev pub with_correction :
    TenantContext → TransactionCorrection → ℕ → ℕ → CorrectedSale → CorrectedSale
with_correction tenant correction key fingerprint sale = record sale {
  corrections = sale.corrections ++ correction ∷ [];
  status_history =
      sale.status_history
      ++ record {
        correction_id = correction.id;
        previous_status = none;
        new_status = requested;
        actor_membership_id = tenant.membership_id;
      }
        ∷ [];
  idempotency_keys =
      record {
        membership_id = tenant.membership_id;
        operation = request_correction;
        idempotency_key = key;
        request_fingerprint = fingerprint;
        resource_id = correction.id;
      }
      ∷ sale.idempotency_keys;
}

-- The transaction that creates a correction, with the constraints of its tables: the identifier is
-- new, a line is named once, amounts are positive, and the key is not used.
unfoldable pub create_correction :
    TenantContext → TransactionCorrection → ℕ → ℕ → CorrectedSale → Outcome CorrectedSale
create_correction tenant correction key fingerprint sale = do
  throw_if (any (λ c. c.id == correction.id) sale.corrections) unique_violation
  throw_if (correction.total_requested_minor == 0) internal
  throw_if (repeats_line correction.items) unique_violation
  throw_if (has_zero_amount correction.items) internal
  throw_if
      (is_some (
        find_first (is_used_key tenant.membership_id request_correction key) sale.idempotency_keys))
      unique_violation
  ok (with_correction tenant correction key fingerprint sale)

-- The sale, and the correction that is answered.
unfoldable pub create_or_replay :
    TenantContext
    → TransactionCorrection
    → ℕ
    → ℕ
    → CorrectedSale
    → Option TransactionCorrection
    → Outcome (CorrectedSale × TransactionCorrection)
create_or_replay tenant correction key fingerprint sale (some existing) = ok (sale, existing)
create_or_replay tenant correction key fingerprint sale none =
    create_correction tenant correction key fingerprint sale >>= λ after. ok (after, correction)

unfoldable pub request_refund :
    TenantContext
    → CorrectionRequest
    → List TransactionCorrectionItem
    → ℕ
    → CorrectedSale
    → CorrectedSale
    → Outcome (CorrectedSale × TransactionCorrection)
request_refund tenant dto lines new_id before sale = do
  key ← or_throw dto.idempotency_key (bad_request plain)
  load_correctable_sale tenant dto.transaction_id before
  check_requested_lines before.line_items lines
  total ← sum_minor_amounts (amounts_of lines)
  replay ←
      check_correction_replay request_correction tenant.membership_id key dto.request_fingerprint
        before
  create_or_replay tenant (new_correction tenant dto type_refund total lines new_id before) key
      dto.request_fingerprint sale replay

abbrev pub whole_line : TransactionLineItem → TransactionCorrectionItem
whole_line line = record {
  original_transaction_line_item_id = line.id;
  requested_amount_minor = line.price_minor_snapshot;
}

unfoldable pub request_reversal :
    TenantContext
    → CorrectionRequest
    → ℕ
    → CorrectedSale
    → CorrectedSale
    → Outcome (CorrectedSale × TransactionCorrection)
request_reversal tenant dto new_id before sale = do
  key ← or_throw dto.idempotency_key (bad_request plain)
  load_correctable_sale tenant dto.transaction_id before
  throw_if (any (λ c. has_correction_status executed c.status) before.corrections)
      (conflict correction_already_executed)
  throw_if (is_empty before.line_items) (bad_request plain)
  replay ←
      check_correction_replay request_correction tenant.membership_id key dto.request_fingerprint
        before
  create_or_replay tenant
      (new_correction tenant dto type_reversal before.transaction.total_minor
        (map whole_line before.line_items) new_id before)
      key dto.request_fingerprint sale replay
