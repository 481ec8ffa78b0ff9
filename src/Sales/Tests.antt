-- ===== src/Sales/Tests.antt =====
-- A haircut of 25.00, paid in cash and confirmed by the barber who gave it.
use kora_os.Common.{
  ◌≡◌, refl, true, false, some, none, List, [], ◌∷◌, Outcome, ok, throws, arith, any, keep, ◌==◌,
}
use kora_os.Common.Store.{find_first, count_where, update_where}
use kora_os.Money.{assert_safe_money_amount, sum_minor_amounts, sum_minor_from}
use kora_os.Access.Tenant.{TenantContext, full, assert_membership_has_branch_access}
use kora_os.Access.Decisions.{assert_confirm_authorized}
use kora_os.Sales.Schema.{
  checkout_open, settled, PaymentRecord, recorded, confirmed, payment_disputed, cash, Sale,
}
use kora_os.Sales.Settlement.{
  has_status, is_active, derive_checkout_settlement, ready_to_settle, recalculate, apply_outcome,
  set_status, post_for_checkout, post_new,
}
use kora_os.Sales.Payments.{Services, load_owned_payment, confirm_payment, move_payment}
use kora_os.Sales.Recording.{
  RecordPayment, record_payment, record_or_replay, caught, record_transaction, check_tendered,
  check_cash_session, check_idempotent_replay, cash_entry,
}
use kora_os.Sales.Soundness.{IsSound, IsFinal, total_of, ready_to_settle_exact}
use kora_os.Common.{All}
use kora_os.Sales.Runs.{here, next, step_record, step_confirm, Reachable-IsSound, new-IsSound}

abbrev cashier : TenantContext
cashier = record {
  membership_id = 1;
  organization_id = 7;
  user_id = 4;
  permission_codes = λ _. true;
  is_owner = false;
  branch_ids = 3 ∷ [];
  access_mode = full;
}

abbrev barber : TenantContext
barber = record cashier { membership_id = 2; user_id = 5 }

abbrev services : Services
services = record {
  derive = λ _ _. ok tt;
  requires_cash_session = λ _. false;
  record_cash_entry = λ _ _. ok tt;
  own_staff_profile = λ _. some 6;
}

abbrev fresh : Sale
fresh = record {
  checkout = record {
    id = 40;
    organization_id = 7;
    branch_id = 3;
    status = checkout_open;
    version = 1;
    currency = 1;
    total_minor = 2500;
    assigned_staff_profile_id = some 6;
  };
  payments = [];
  disputes = [];
  events = [];
  transactions = [];
  idempotency_keys = [];
}

abbrev in_full : RecordPayment
in_full = record {
  method = cash;
  applied_amount_minor = 2500;
  tendered_amount_minor = some 3000;
  currency = 1;
  cash_session_id = none;
  idempotency_key = some 99;
  request_fingerprint = 123;
}

abbrev first_of : Outcome (Sale × PaymentRecord) → Sale
first_of (ok (sale, payment)) = sale
first_of (throws e) = fresh

abbrev paid : Sale
paid = first_of (record_payment services cashier in_full 50 fresh fresh)

abbrev payment : PaymentRecord
payment = record {
  id = 50;
  branch_id = 3;
  method = cash;
  applied_amount_minor = 2500;
  status = recorded;
  version = 1;
  recorded_by_membership_id = 1;
  confirmation_required_by = 6;
}

paid_ok : record_payment services cashier in_full 50 fresh fresh ≡ ok (paid, payment)
unfolding record_payment record_or_replay caught record_transaction check_tendered
    check_cash_session check_idempotent_replay cash_entry find_first count_where update_where
    assert_safe_money_amount sum_minor_amounts sum_minor_from assert_membership_has_branch_access
    recalculate derive_checkout_settlement apply_outcome set_status
paid_ok = refl

abbrev after : Outcome Sale → Sale
after (ok sale) = sale
after (throws e) = fresh

abbrev done : Sale
done = after (confirm_payment services barber 50 false paid paid)

done_ok : confirm_payment services barber 50 false paid paid ≡ ok done
unfolding record_payment record_or_replay caught record_transaction check_tendered
    check_cash_session check_idempotent_replay cash_entry find_first count_where update_where
    assert_safe_money_amount sum_minor_amounts sum_minor_from assert_membership_has_branch_access
    recalculate derive_checkout_settlement apply_outcome set_status confirm_payment
    load_owned_payment assert_confirm_authorized move_payment post_for_checkout post_new
done_ok = refl

done_settled : done.checkout.status ≡ settled
unfolding record_payment record_or_replay caught record_transaction check_tendered
    check_cash_session check_idempotent_replay cash_entry find_first count_where update_where
    assert_safe_money_amount sum_minor_amounts sum_minor_from assert_membership_has_branch_access
    recalculate derive_checkout_settlement apply_outcome set_status confirm_payment
    load_owned_payment assert_confirm_authorized move_payment post_for_checkout post_new
done_settled = refl

none_yet : count_where (λ (q : PaymentRecord). q.id == 50) fresh.payments ≡ 0
unfolding count_where
none_yet = refl

Reachable-IsSound_example : IsSound done
Reachable-IsSound_example = Reachable-IsSound fresh done (new-IsSound fresh refl refl refl) (
    next (next here (step_record services cashier in_full 50 fresh payment none_yet paid_ok))
      (step_confirm services barber 50 false paid done_ok))

abbrev final_payments : List PaymentRecord
final_payments = record payment { status = confirmed } ∷ []

final_ready :
    derive_checkout_settlement
      (keep is_active final_payments)
      (any (has_status payment_disputed) (keep is_active final_payments))
      2500
    ≡ ok ready_to_settle
unfolding derive_checkout_settlement sum_minor_amounts sum_minor_from
final_ready = refl

ready_to_settle_exact_example :
    (total_of (has_status confirmed) final_payments ≡ 2500) × All IsFinal final_payments
ready_to_settle_exact_example = ready_to_settle_exact final_payments 2500 (ground arith) final_ready
