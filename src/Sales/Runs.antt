-- ===== src/Sales/Runs.antt =====
-- Runs of the commands on the payments of one checkout: each transaction on the latest rows, each
-- command's reads on any rows that it likes.
use kora_os.Common.{
  ℕ, ◌≡◌, refl, ap, subst, Bool, not, ◌||◌, Option, none, some, [], ◌==◌, same_option, Outcome,
  Exception, ok, throws, conflict, internal, not_found, bad_request, forbidden, unique_violation,
  throw_if-eq-ok, >>-eq-ok, >>=-eq-ok, bind_or_throw-eq-ok, ok-injective, arith,
}
use kora_os.Common.Int.{pos}
use kora_os.Common.Store.{find_first, count_where}
use kora_os.Money.{integer, assert_safe_money_amount}
use kora_os.Access.Tenant.{TenantContext, assert_membership_has_branch_access, payments_verify_own}
use kora_os.Access.Decisions.{assert_confirm_authorized}
use kora_os.Sales.Schema.{
  checkout_open, recorded, confirmed, payment_disputed, payment_voided, same_payment_status,
  PaymentRecord, Sale, is_open_dispute,
}
use kora_os.Sales.Payments.{
  Services, void_payment, confirm_payment, dispute_payment, resolve_dispute, payment_after,
  load_owned_payment,
}
use kora_os.Sales.Recording.{
  RecordPayment, record_payment, record_or_replay, caught, paired, check_tendered,
  check_cash_session, check_idempotent_replay,
}
use kora_os.Sales.Soundness.{IsSound}
use kora_os.Sales.Moves.{record_transaction-IsSound, move_payment-IsSound}

paired-sale :
    (sale after : Sale) (replay : Outcome (Option PaymentRecord)) (e : Exception)
    (payment : PaymentRecord)
    → paired sale replay e ≡ ok (after, payment)
    → sale ≡ after
paired-sale sale after (ok (some p)) e payment h = ap (λ q. q.0) (ok-injective h)
paired-sale sale after (ok none) e payment h = cc
paired-sale sale after (throws x) e payment h = cc

caught-IsSound :
    (tenant : TenantContext) (dto : RecordPayment) (key new_id : ℕ) (sale after : Sale)
    (payment : PaymentRecord) (outcome : Outcome Sale)
    → IsSound sale
    → ((done : Sale) → outcome ≡ ok done → IsSound done)
    → caught tenant dto key new_id sale outcome ≡ ok (after, payment)
    → IsSound after
unfolding caught
caught-IsSound tenant dto key new_id sale after payment (ok done) v sound h =
    let (p, _, h1) = bind_or_throw-eq-ok (find_first (λ p. p.id == new_id) done.payments) _ _ h in
    subst IsSound (ap (λ q. q.0) (ok-injective h1)) (sound done refl)
caught-IsSound tenant dto key new_id sale after payment (throws unique_violation) v sound h =
    subst IsSound (paired-sale sale after _ unique_violation payment h) v
caught-IsSound tenant dto key new_id sale after payment (throws (bad_request c)) v sound h = cc
caught-IsSound tenant dto key new_id sale after payment (throws (forbidden c)) v sound h = cc
caught-IsSound tenant dto key new_id sale after payment (throws not_found) v sound h = cc
caught-IsSound tenant dto key new_id sale after payment (throws (conflict c)) v sound h = cc
caught-IsSound tenant dto key new_id sale after payment (throws internal) v sound h = cc

record_or_replay-IsSound :
    (services : Services) (tenant : TenantContext) (dto : RecordPayment) (key new_id : ℕ)
    (sale after : Sale) (payment : PaymentRecord) (replay : Option PaymentRecord)
    → IsSound sale
    → count_where (λ p. p.id == new_id) sale.payments ≡ 0
    → record_or_replay services tenant dto key new_id sale replay ≡ ok (after, payment)
    → IsSound after
unfolding record_or_replay
record_or_replay-IsSound services tenant dto key new_id sale after payment (some p) v fresh h =
    subst IsSound (ap (λ q. q.0) (ok-injective h)) v
record_or_replay-IsSound services tenant dto key new_id sale after payment none v fresh h =
    caught-IsSound tenant dto key new_id sale after payment _ v
      (λ done e. record_transaction-IsSound services tenant dto key new_id sale done v fresh e) h

pub record_payment-IsSound :
    (services : Services) (tenant : TenantContext) (dto : RecordPayment) (new_id : ℕ)
    (before sale after : Sale) (payment : PaymentRecord)
    → IsSound sale
    → count_where (λ p. p.id == new_id) sale.payments ≡ 0
    → record_payment services tenant dto new_id before sale ≡ ok (after, payment)
    → IsSound after
unfolding record_payment
record_payment-IsSound services tenant dto new_id before sale after payment v fresh h =
    let (key, _, h1) = bind_or_throw-eq-ok dto.idempotency_key _ _ h in
    let (_, h2) =
      throw_if-eq-ok (not (before.checkout.organization_id == tenant.organization_id)) _ _ h1 in
    let (_, h3) =
      >>-eq-ok (assert_membership_has_branch_access tenant before.checkout.branch_id) _ h2 in
    let (_, h4) = throw_if-eq-ok (not (dto.currency == before.checkout.currency)) _ _ h3 in
    let (_, h5) =
      >>-eq-ok (assert_safe_money_amount (integer (pos dto.applied_amount_minor)) 1) _ h4 in
    let (_, h6) = >>-eq-ok (check_tendered dto) _ h5 in
    let (_, h7) = >>-eq-ok (check_cash_session services dto before.checkout.branch_id) _ h6 in
    let (replay, _, h8) =
      >>=-eq-ok (check_idempotent_replay tenant.membership_id key dto.request_fingerprint before) _
        h7 in
    record_or_replay-IsSound services tenant dto key new_id sale after payment replay v fresh h8

-- `Step sale after`: a command that read some rows takes the checkout from `sale` to `after`.
pub data Step (sale after : Sale) : Type 0 where
  step_record :
      (services : Services) (t : TenantContext) (dto : RecordPayment) (new_id : ℕ) (before : Sale)
      (p : PaymentRecord)
      → count_where (λ q. q.id == new_id) sale.payments ≡ 0
      → record_payment services t dto new_id before sale ≡ ok (after, p)
      → Step sale after
  step_void :
      (services : Services) (t : TenantContext) (id : ℕ) (before : Sale)
      → void_payment services t id before sale ≡ ok after
      → Step sale after
  step_confirm :
      (services : Services) (t : TenantContext) (id : ℕ) (has_reason : Bool) (before : Sale)
      → confirm_payment services t id has_reason before sale ≡ ok after
      → Step sale after
  step_dispute :
      (services : Services) (t : TenantContext) (id new_id : ℕ) (before : Sale)
      → dispute_payment services t id new_id before sale ≡ ok after
      → Step sale after
  step_resolve :
      (services : Services) (t : TenantContext) (id : ℕ) (is_confirming : Bool) (before : Sale)
      → resolve_dispute services t id is_confirming before sale ≡ ok after
      → Step sale after

pub data Reachable (init : Sale) : Sale → Type 0 where
  here : Reachable init init
  next : {sale after : Sale} → Reachable init sale → Step sale after → Reachable init after

Step-IsSound : (sale after : Sale) → IsSound sale → Step sale after → IsSound after
unfolding void_payment confirm_payment dispute_payment resolve_dispute
Step-IsSound sale after v (step_record services t dto new_id before p fresh h) =
    record_payment-IsSound services t dto new_id before sale after p v fresh h
Step-IsSound sale after v (step_void services t id before h) =
    let (payment, _, h1) = >>=-eq-ok (load_owned_payment t id before) _ h in
    let (_, h2) = throw_if-eq-ok (not (same_payment_status payment.status recorded)) _ _ h1 in
    move_payment-IsSound services t id recorded _ payment_voided sale.disputes sale after v refl
      refl h2
Step-IsSound sale after v (step_confirm services t id has_reason before h) =
    let (payment, _, h1) = >>=-eq-ok (load_owned_payment t id before) _ h in
    let (override, _, h2) = >>=-eq-ok (assert_confirm_authorized _) _ h1 in
    let (_, h3) = throw_if-eq-ok (not (same_payment_status payment.status recorded)) _ _ h2 in
    move_payment-IsSound services t id recorded _ confirmed sale.disputes sale after v refl refl h3
Step-IsSound sale after v (step_dispute services t id new_id before h) =
    let (payment, _, h1) = >>=-eq-ok (load_owned_payment t id before) _ h in
    let (_, h2) =
      throw_if-eq-ok
        (not (t.permission_codes payments_verify_own)
          || not (
              same_option (services.own_staff_profile t.membership_id)
                (some payment.confirmation_required_by)))
        _ _ h1 in
    let (_, h3) = throw_if-eq-ok (not (same_payment_status payment.status recorded)) _ _ h2 in
    move_payment-IsSound services t id recorded _ payment_disputed _ sale after v refl refl h3
Step-IsSound sale after v (step_resolve services t id is_confirming before h) =
    let (_, h1) =
      throw_if-eq-ok (not (before.checkout.organization_id == t.organization_id)) _ _ h in
    let (dispute, _, h2) =
      bind_or_throw-eq-ok (find_first (λ d. d.id == id) before.disputes) _ _ h1 in
    let (_, h3) = throw_if-eq-ok (not (is_open_dispute dispute.status)) _ _ h2 in
    let (fresh, _, h4) = bind_or_throw-eq-ok (find_first (λ d. d.id == id) sale.disputes) _ _ h3 in
    let (_, h5) = throw_if-eq-ok (not (is_open_dispute fresh.status)) _ _ h4 in
    move_payment-IsSound services t dispute.payment_record_id payment_disputed _
      (payment_after is_confirming) _ sale after v refl refl h5

-- However payments are recorded, voided, confirmed, disputed and resolved on a sound checkout, it stays
-- sound: the active payments never exceed its total, it has no transaction before it is settled, and
-- once settled exactly one, of the checkout's total, whose allocations add up to that total and to
-- the confirmed payments, with no payment left waiting or disputed.
pub Reachable-IsSound : (init sale : Sale) → IsSound init → Reachable init sale → IsSound sale
Reachable-IsSound init sale v here = v
Reachable-IsSound init last v (next {sale} {after} r s) =
    Step-IsSound sale last (Reachable-IsSound init sale v r) s

-- A new checkout is sound, whatever its total.
pub new-IsSound :
    (sale : Sale)
    → sale.checkout.status ≡ checkout_open
    → sale.payments ≡ []
    → sale.transactions ≡ []
    → IsSound sale
unfolding count_where
new-IsSound sale is_new no_payments no_transactions = record {
  payment_keys = λ k. rw no_payments (ground arith);
  covered = rw no_payments (ground arith);
  unposted = λ _. no_transactions;
  posted = λ is_settled. ground arith;
}
