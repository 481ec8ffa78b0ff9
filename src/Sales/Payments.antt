-- ===== src/Sales/Payments.antt =====
-- The changes of a recorded payment: `void` of payments.service.ts, payment-verifications.service.ts
-- and payment-disputes.service.ts. A handler reads from `before`; its transaction, which starts by
-- locking the checkout, runs on `sale`.
use kora_os.Common.{
  ℕ, suc, Bool, not, ◌&&◌, ◌||◌, Option, some, List, [], ◌∷◌, ◌++◌, ◌==◌, same_option,
  if◌then◌else◌, Outcome, Exception, ok, conflict, internal, not_found, forbidden, plain,
  payment_state_invalid, payment_confirmation_forbidden, payment_dispute_already_resolved,
  payment_dispute_required, ◌>>=◌, ◌>>◌, throw_if, or_throw,
}
use kora_os.Common.Store.{find_first, count_where, update_where}
use kora_os.Access.Tenant.{
  TenantContext, assert_membership_has_branch_access, payments_verify_own, payments_resolve,
}
use kora_os.Access.Decisions.{assert_confirm_authorized}
use kora_os.Sales.Schema.{
  PaymentStatus, recorded, confirmed, payment_disputed, payment_voided, same_payment_status,
  Checkout, PaymentRecord, PaymentDispute, PaymentDisputeStatus, dispute_open, resolved_confirmed,
  resolved_rejected, is_open_dispute, PaymentVerificationEvent, Sale,
}
use kora_os.Sales.Settlement.{recalculate}

-- What other services answer: the derived records of a posted transaction, whether the branch wants
-- a cash session, and the entry of a payment in a cash session's ledger.
pub record Services : Type 0 where
  pub derive : Checkout → List PaymentRecord → Outcome (Unit {0})
  pub requires_cash_session : ℕ → Bool
  pub record_cash_entry : ℕ → PaymentRecord → Outcome (Unit {0})
  pub own_staff_profile : ℕ → Option ℕ

abbrev pub event : ℕ → Option PaymentStatus → PaymentStatus → ℕ → PaymentVerificationEvent
event payment previous next membership = record {
  payment_record_id = payment;
  previous_status = previous;
  new_status = next;
  actor_membership_id = membership;
}

unfoldable pub load_owned_payment : TenantContext → ℕ → Sale → Outcome PaymentRecord
load_owned_payment tenant payment_id sale = do
  throw_if (not (sale.checkout.organization_id == tenant.organization_id)) not_found
  payment ← or_throw (find_first (λ p. p.id == payment_id) sale.payments) not_found
  assert_membership_has_branch_access tenant payment.branch_id
  ok payment

abbrev pub is_version : ℕ → ℕ → PaymentRecord → Bool
is_version payment_id version row = row.id == payment_id && row.version == version

abbrev pub with_status : PaymentStatus → PaymentRecord → PaymentRecord
with_status status row = record row { status = status; version = suc row.version }

abbrev pub moved_payment :
    ℕ → PaymentRecord → PaymentStatus → List PaymentDispute → TenantContext → Sale → Sale
moved_payment payment_id fresh next disputes tenant sale = record sale {
  payments = update_where (is_version payment_id fresh.version) (with_status next) sale.payments;
  disputes = disputes;
  events = sale.events ++ event payment_id (some fresh.status) next tenant.membership_id ∷ [];
}

-- What the transactions of `void`, `confirm`, `dispute` and `resolve` share: the payment is read
-- again under the lock and must have the expected status. `disputes` is the table that they leave.
unfoldable pub move_payment :
    Services
    → TenantContext
    → ℕ
    → PaymentStatus
    → Exception
    → PaymentStatus
    → List PaymentDispute
    → Sale
    → Outcome Sale
move_payment services tenant payment_id expected wrong_status next disputes sale = do
  let locked = sale.checkout
  fresh ← or_throw (find_first (λ p. p.id == payment_id) sale.payments) internal
  throw_if (not (same_payment_status fresh.status expected)) wrong_status
  throw_if (count_where (is_version payment_id fresh.version) sale.payments == 0) (conflict plain)
  recalculate services.derive locked (moved_payment payment_id fresh next disputes tenant sale)

unfoldable pub void_payment : Services → TenantContext → ℕ → Sale → Sale → Outcome Sale
void_payment services tenant payment_id before sale = do
  payment ← load_owned_payment tenant payment_id before
  throw_if (not (same_payment_status payment.status recorded)) (conflict payment_state_invalid)
  move_payment services tenant payment_id recorded (conflict payment_state_invalid) payment_voided
      sale.disputes sale

-- `confirm`, with whether the request has a reason that is not blank.
unfoldable pub confirm_payment : Services → TenantContext → ℕ → Bool → Sale → Sale → Outcome Sale
confirm_payment services tenant payment_id has_reason before sale = do
  payment ← load_owned_payment tenant payment_id before
  override ← assert_confirm_authorized (record {
    has_verify_own = tenant.permission_codes payments_verify_own;
    has_resolve = tenant.permission_codes payments_resolve;
    is_assigned_provider =
        same_option (services.own_staff_profile tenant.membership_id)
          (some payment.confirmation_required_by);
    is_self_recorded = payment.recorded_by_membership_id == tenant.membership_id;
    has_override_reason = has_reason;
  })
  throw_if (not (same_payment_status payment.status recorded)) (conflict payment_state_invalid)
  move_payment services tenant payment_id recorded (conflict payment_state_invalid) confirmed
      sale.disputes sale

unfoldable pub dispute_payment : Services → TenantContext → ℕ → ℕ → Sale → Sale → Outcome Sale
dispute_payment services tenant payment_id new_dispute_id before sale = do
  payment ← load_owned_payment tenant payment_id before
  throw_if
      (not (tenant.permission_codes payments_verify_own)
        || not (
            same_option (services.own_staff_profile tenant.membership_id)
              (some payment.confirmation_required_by)))
      (forbidden payment_confirmation_forbidden)
  throw_if (not (same_payment_status payment.status recorded)) (conflict payment_state_invalid)
  move_payment services tenant payment_id recorded (conflict payment_state_invalid) payment_disputed
      (record {
        id = new_dispute_id;
        payment_record_id = payment_id;
        status = dispute_open;
        opened_by_membership_id = tenant.membership_id;
      }
        ∷ sale.disputes)
      sale

abbrev pub dispute_after : Bool → PaymentDisputeStatus
dispute_after is_confirming = if is_confirming then resolved_confirmed else resolved_rejected

abbrev pub payment_after : Bool → PaymentStatus
payment_after is_confirming = if is_confirming then confirmed else payment_voided

abbrev pub resolved_disputes : ℕ → Bool → List PaymentDispute → List PaymentDispute
resolved_disputes dispute_id is_confirming disputes =
    update_where (λ d. d.id == dispute_id && is_open_dispute d.status)
      (λ d. record d { status = dispute_after is_confirming }) disputes

unfoldable pub resolve_dispute : Services → TenantContext → ℕ → Bool → Sale → Sale → Outcome Sale
resolve_dispute services tenant dispute_id is_confirming before sale = do
  throw_if (not (before.checkout.organization_id == tenant.organization_id)) not_found
  dispute ← or_throw (find_first (λ d. d.id == dispute_id) before.disputes) not_found
  throw_if (not (is_open_dispute dispute.status)) (conflict payment_dispute_already_resolved)
  fresh ← or_throw (find_first (λ d. d.id == dispute_id) sale.disputes) internal
  throw_if (not (is_open_dispute fresh.status)) (conflict payment_dispute_already_resolved)
  move_payment services tenant dispute.payment_record_id payment_disputed
      (conflict payment_dispute_required) (payment_after is_confirming)
      (resolved_disputes dispute_id is_confirming sale.disputes) sale
