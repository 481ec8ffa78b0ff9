-- ===== src/Corrections/Schema.antt =====
-- The rows that the correction of one posted sale works on (apps/api/prisma/schema.prisma). An
-- execution first locks its correction and the sale's transaction, so that the executions for one
-- sale follow each other. Reasons, times and the audit trail are left out.
use kora_os.Common.{
  ℕ, suc, Bool, true, false, not, ◌&&◌, Option, none, some, List, [], ◌∷◌, ◌++◌, ◌==◌, Outcome, ok,
  conflict, not_found, idempotency_conflict, plain, ◌>>=◌, ◌>>◌, throw_if, or_throw,
}
use kora_os.Common.Store.{find_first, count_where, update_where}
use kora_os.Access.Tenant.{TenantContext, assert_membership_has_branch_access}
use kora_os.Cash.Sessions.{Drawer}
use kora_os.Commissions.Accrual.{CommissionAccrual}
use kora_os.Inventory.Stock.{Inventory}
use kora_os.Sales.Schema.{PaymentMethod}
use kora_os.Transactions.{Transaction, TransactionLineItem}

pub data TransactionCorrectionType : Type 0 where
  type_refund type_reversal : TransactionCorrectionType

abbrev pub is_reversal : TransactionCorrectionType → Bool
is_reversal type_refund = false
is_reversal type_reversal = true

pub data TransactionCorrectionStatus : Type 0 where
  requested approved rejected cancelled executed : TransactionCorrectionStatus

abbrev pub correction_number : TransactionCorrectionStatus → ℕ
correction_number requested = 0
correction_number approved = 1
correction_number rejected = 2
correction_number cancelled = 3
correction_number executed = 4

abbrev pub has_correction_status : TransactionCorrectionStatus → TransactionCorrectionStatus → Bool
has_correction_status expected status = correction_number status == correction_number expected

pub record TransactionCorrectionItem : Type 0 where
  pub original_transaction_line_item_id : ℕ
  pub requested_amount_minor : ℕ

pub record TransactionCorrection : Type 0 where
  pub id : ℕ
  pub organization_id : ℕ
  pub branch_id : ℕ
  pub correction_type : TransactionCorrectionType
  pub status : TransactionCorrectionStatus
  pub version : ℕ
  pub return_method : PaymentMethod
  pub total_requested_minor : ℕ
  pub requested_by_membership_id : ℕ
  pub solo_owner_override : Bool
  pub items : List TransactionCorrectionItem

pub record TransactionCorrectionPayment : Type 0 where
  pub correction_id : ℕ
  pub method : PaymentMethod
  pub amount_minor : ℕ

pub record TransactionCorrectionStatusHistory : Type 0 where
  pub correction_id : ℕ
  pub previous_status : Option TransactionCorrectionStatus
  pub new_status : TransactionCorrectionStatus
  pub actor_membership_id : ℕ

-- A posted corrective transaction with its lines, and the amount that its receipt says is left to
-- refund, on a refund.
pub record CorrectiveTransaction : Type 0 where
  pub transaction : Transaction
  pub items : List TransactionLineItem
  pub remaining_refundable_minor : Option ℕ

pub data CorrectionOperation : Type 0 where
  request_correction execute_correction : CorrectionOperation

abbrev pub same_operation : CorrectionOperation → CorrectionOperation → Bool
same_operation request_correction request_correction = true
same_operation request_correction execute_correction = false
same_operation execute_correction request_correction = false
same_operation execute_correction execute_correction = true

pub record FinancialIdempotencyKey : Type 0 where
  pub membership_id : ℕ
  pub operation : CorrectionOperation
  pub idempotency_key : ℕ
  pub request_fingerprint : ℕ
  pub resource_id : ℕ

pub record CashDrawer : Type 0 where
  pub id : ℕ
  pub drawer : Drawer

-- The sale's transaction and lines, with what its corrections read and write.
pub record CorrectedSale : Type 0 where
  pub transaction : Transaction
  pub line_items : List TransactionLineItem
  pub corrections : List TransactionCorrection
  pub corrective_transactions : List CorrectiveTransaction
  pub payments : List TransactionCorrectionPayment
  pub status_history : List TransactionCorrectionStatusHistory
  pub idempotency_keys : List FinancialIdempotencyKey
  pub accruals : List CommissionAccrual
  pub inventory : Inventory
  pub drawers : List CashDrawer

abbrev pub is_correction : ℕ → TransactionCorrection → Bool
is_correction id correction = correction.id == id

abbrev pub is_line : ℕ → TransactionLineItem → Bool
is_line id line = line.id == id

abbrev pub is_used_key : ℕ → CorrectionOperation → ℕ → FinancialIdempotencyKey → Bool
is_used_key membership operation key k =
    k.membership_id == membership
    && same_operation k.operation operation
    && k.idempotency_key == key

-- `loadOwnedCorrection`
unfoldable pub load_owned_correction :
    TenantContext → ℕ → CorrectedSale → Outcome TransactionCorrection
load_owned_correction tenant correction_id sale = do
  correction ←
      or_throw
        (find_first (λ c. c.id == correction_id && c.organization_id == tenant.organization_id)
          sale.corrections)
        not_found
  assert_membership_has_branch_access tenant correction.branch_id
  ok correction

-- `checkIdempotentReplay`, for the operation of the key.
unfoldable pub check_correction_replay :
    CorrectionOperation → ℕ → ℕ → ℕ → CorrectedSale → Outcome (Option TransactionCorrection)
check_correction_replay operation membership key fingerprint sale =
    replay (find_first (is_used_key membership operation key) sale.idempotency_keys)
  where
    replay : Option FinancialIdempotencyKey → Outcome (Option TransactionCorrection)
    replay none = ok none
    replay (some k) =
        throw_if (not (k.request_fingerprint == fingerprint)) (conflict idempotency_conflict)
        >> ok (find_first (is_correction k.resource_id) sale.corrections)

abbrev pub is_same_version : TransactionCorrection → TransactionCorrection → Bool
is_same_version read row =
    row.id == read.id && has_correction_status read.status row.status && row.version == read.version

abbrev pub with_correction_status :
    TransactionCorrectionStatus → Bool → TransactionCorrection → TransactionCorrection
with_correction_status next override row = record row {
  status = next;
  version = suc row.version;
  solo_owner_override = override;
}

abbrev pub moved_correction :
    TenantContext
    → TransactionCorrection
    → TransactionCorrectionStatus
    → Bool
    → CorrectedSale
    → CorrectedSale
moved_correction tenant read next override sale = record sale {
  corrections =
      update_where (is_same_version read) (with_correction_status next override) sale.corrections;
  status_history =
      sale.status_history
      ++ record {
        correction_id = read.id;
        previous_status = some read.status;
        new_status = next;
        actor_membership_id = tenant.membership_id;
      }
        ∷ [];
}

-- The update of a correction that still has the status and the version that were read, with its
-- history.
unfoldable pub move_correction :
    TenantContext
    → TransactionCorrection
    → TransactionCorrectionStatus
    → Bool
    → CorrectedSale
    → Outcome CorrectedSale
move_correction tenant read next override sale =
    throw_if (count_where (is_same_version read) sale.corrections == 0) (conflict plain)
    >> ok (moved_correction tenant read next override sale)
