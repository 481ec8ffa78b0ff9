-- ===== src/Sales/Recording.antt =====
-- `PaymentsService.record` of payments.service.ts, with its idempotent replay.
use kora_os.Common.{
  ℕ, ◌+◌, Bool, not, ◌&&◌, Option, none, some, [], ◌∷◌, ◌++◌, ◌==◌, keep, is_some, ltb,
  if◌then◌else◌, Outcome, Exception, ok, throws, conflict, internal, not_found, bad_request, plain,
  checkout_already_settled, checkout_state_invalid, checkout_balance_exceeded,
  checkout_missing_operator, idempotency_conflict, ◌>>=◌, ◌>>◌, throw_if, or_throw,
  unique_violation,
}
use kora_os.Common.Int.{pos}
use kora_os.Common.Store.{find_first}
use kora_os.Money.{integer, assert_safe_money_amount, sum_minor_amounts}
use kora_os.Access.Tenant.{TenantContext, assert_membership_has_branch_access}
use kora_os.Sales.Schema.{
  settled, same_checkout_status, recorded, PaymentMethod, is_cash, PaymentRecord, IdempotencyKey,
  Sale,
}
use kora_os.Sales.Settlement.{amounts, is_active, is_terminal, recalculate}
use kora_os.Sales.Payments.{Services, event}

-- `RecordPaymentDto`; the fingerprint is the SHA-256 text of the request.
pub record RecordPayment : Type 0 where
  pub method : PaymentMethod
  pub applied_amount_minor : ℕ
  pub tendered_amount_minor : Option ℕ
  pub currency : ℕ
  pub cash_session_id : Option ℕ
  pub idempotency_key : Option ℕ
  pub request_fingerprint : ℕ

unfoldable pub check_tendered : RecordPayment → Outcome (Unit {0})
check_tendered dto = tendered dto.tendered_amount_minor
  where
    tendered : Option ℕ → Outcome (Unit {0})
    tendered none = ok tt
    tendered (some amount) =
        throw_if (not (is_cash dto.method)) (bad_request plain)
        >> assert_safe_money_amount (integer (pos amount)) 1
        >> throw_if (ltb amount dto.applied_amount_minor) (bad_request plain)

unfoldable pub check_cash_session : Services → RecordPayment → ℕ → Outcome (Unit {0})
check_cash_session services dto branch_id =
    if is_cash dto.method
    then throw_if (services.requires_cash_session branch_id && not (is_some dto.cash_session_id))
        (bad_request plain)
    else throw_if (is_some dto.cash_session_id) (bad_request plain)

abbrev pub is_key : ℕ → ℕ → IdempotencyKey → Bool
is_key membership key k = k.membership_id == membership && k.idempotency_key == key

-- `checkIdempotentReplay`
unfoldable pub check_idempotent_replay : ℕ → ℕ → ℕ → Sale → Outcome (Option PaymentRecord)
check_idempotent_replay membership key fingerprint sale =
    replay (find_first (is_key membership key) sale.idempotency_keys)
  where
    replay : Option IdempotencyKey → Outcome (Option PaymentRecord)
    replay none = ok none
    replay (some k) =
        throw_if (not (k.request_fingerprint == fingerprint)) (conflict idempotency_conflict)
        >> ok (find_first (λ p. p.id == k.resource_id) sale.payments)

abbrev pub with_payment : PaymentRecord → ℕ → ℕ → ℕ → Sale → Sale
with_payment payment membership key fingerprint sale = record sale {
  payments = payment ∷ sale.payments;
  events = sale.events ++ event payment.id none recorded membership ∷ [];
  idempotency_keys =
      record {
        membership_id = membership;
        idempotency_key = key;
        request_fingerprint = fingerprint;
        resource_id = payment.id;
      }
      ∷ sale.idempotency_keys;
}

unfoldable pub cash_entry : Services → Option ℕ → PaymentRecord → Outcome (Unit {0})
cash_entry services none payment = ok tt
cash_entry services (some session) payment = services.record_cash_entry session payment

-- The transaction of `record`. A key that is used already is a violation of the unique constraint.
unfoldable pub record_transaction :
    Services → TenantContext → RecordPayment → ℕ → ℕ → Sale → Outcome Sale
record_transaction services tenant dto key new_id sale = do
  let locked = sale.checkout
  throw_if (same_checkout_status locked.status settled) (conflict checkout_already_settled)
  throw_if (is_terminal locked.status) (conflict checkout_state_invalid)
  active_total ← sum_minor_amounts (amounts (keep is_active sale.payments))
  throw_if (ltb locked.total_minor (active_total + dto.applied_amount_minor))
      (conflict checkout_balance_exceeded)
  staff ← or_throw locked.assigned_staff_profile_id (conflict checkout_missing_operator)
  let payment : PaymentRecord = record {
    id = new_id;
    branch_id = locked.branch_id;
    method = dto.method;
    applied_amount_minor = dto.applied_amount_minor;
    status = recorded;
    version = 1;
    recorded_by_membership_id = tenant.membership_id;
    confirmation_required_by = staff;
  }
  cash_entry services dto.cash_session_id payment
  throw_if (is_some (find_first (is_key tenant.membership_id key) sale.idempotency_keys))
      unique_violation
  recalculate services.derive locked
      (with_payment payment tenant.membership_id key dto.request_fingerprint sale)

abbrev pub paired :
    Sale → Outcome (Option PaymentRecord) → Exception → Outcome (Sale × PaymentRecord)
paired sale (ok (some payment)) e = ok (sale, payment)
paired sale (ok none) e = throws e
paired sale (throws e') e = throws e'

-- The `catch`: a violation of the unique key is answered with the payment that won the race.
unfoldable pub caught :
    TenantContext → RecordPayment → ℕ → ℕ → Sale → Outcome Sale → Outcome (Sale × PaymentRecord)
caught tenant dto key new_id sale (ok after) =
    or_throw (find_first (λ p. p.id == new_id) after.payments) internal >>= λ payment.
    ok (after, payment)
caught tenant dto key new_id sale (throws unique_violation) =
    paired sale (check_idempotent_replay tenant.membership_id key dto.request_fingerprint sale)
      unique_violation
caught tenant dto key new_id sale (throws e) = throws e

unfoldable pub record_or_replay :
    Services
    → TenantContext
    → RecordPayment
    → ℕ
    → ℕ
    → Sale
    → Option PaymentRecord
    → Outcome (Sale × PaymentRecord)
record_or_replay services tenant dto key new_id sale (some payment) = ok (sale, payment)
record_or_replay services tenant dto key new_id sale none =
    caught tenant dto key new_id sale (record_transaction services tenant dto key new_id sale)

-- `PaymentsService.record`, with the identifier of the new row.
unfoldable pub record_payment :
    Services → TenantContext → RecordPayment → ℕ → Sale → Sale → Outcome (Sale × PaymentRecord)
record_payment services tenant dto new_id before sale = do
  key ← or_throw dto.idempotency_key (bad_request plain)
  throw_if (not (before.checkout.organization_id == tenant.organization_id)) not_found
  assert_membership_has_branch_access tenant before.checkout.branch_id
  throw_if (not (dto.currency == before.checkout.currency)) (bad_request plain)
  assert_safe_money_amount (integer (pos dto.applied_amount_minor)) 1
  check_tendered dto
  check_cash_session services dto before.checkout.branch_id
  replay ← check_idempotent_replay tenant.membership_id key dto.request_fingerprint before
  record_or_replay services tenant dto key new_id sale replay
