-- ===== src/Sales/Steps.antt =====
-- checkout-settlement.service.ts and transaction-posting.service.ts: the recalculation on a
-- sound checkout.
use kora_os.Common.{
  ℕ, ◌≡◌, refl, ap, ◌∙◌, subst, Bool, true, false, not, ◌&&◌, List, ◌==◌, any, keep, is_empty,
  if◌then◌else◌, All, Outcome, ok, throws, conflict, internal, plain, ◌>>=◌, ◌>>◌, throw_if,
  or_throw, throw_if-eq-ok, >>=-eq-ok, bind_or_throw-eq-ok, ok-injective, arith,
}
use kora_os.Money.{sum_minor_amounts}
use kora_os.Sales.Schema.{
  CheckoutStatus, settled, same_checkout_status, confirmed, payment_disputed, Checkout,
  PaymentRecord, Sale,
}
use kora_os.Sales.Settlement.{
  SettlementOutcome, is_disputed, is_awaiting_verification, is_open, ready_to_settle, has_status,
  is_active, amounts, derive_checkout_settlement, posted_sale, with_checkout_status, transaction_of,
  post_new, post_for_checkout, set_status, apply_outcome, is_terminal, recalculate,
}
use kora_os.Sales.Soundness.{IsSound, IsFinal, total_of, allocated, ready_to_settle_exact}

restatus-IsSound :
    (new_status : CheckoutStatus) (sale : Sale)
    → IsSound sale
    → same_checkout_status sale.checkout.status settled ≡ false
    → same_checkout_status new_status settled ≡ false
    → IsSound (with_checkout_status new_status sale)
restatus-IsSound new_status sale v live other = record {
  payment_keys = v.payment_keys;
  covered = v.covered;
  unposted = λ _. v.unposted live;
  posted = λ is_settled. ground arith;
}

set_status-IsSound :
    (new_status : CheckoutStatus) (sale after : Sale)
    → IsSound sale
    → same_checkout_status sale.checkout.status settled ≡ false
    → same_checkout_status new_status settled ≡ false
    → set_status new_status sale.checkout sale ≡ ok after
    → IsSound after
unfolding set_status
set_status-IsSound new_status sale after v live other h =
    go (same_checkout_status new_status sale.checkout.status) h
  where
    go :
        (b : Bool)
        → (if b
            then ok sale
            else throw_if (not (sale.checkout.version == sale.checkout.version)) (conflict plain)
              >> ok (with_checkout_status new_status sale))
          ≡ ok after
        → IsSound after
    go true e = subst IsSound (ok-injective e) v
    go false e =
        let (_, e') = throw_if-eq-ok (not (sale.checkout.version == sale.checkout.version)) _ _ e in
        subst IsSound (ok-injective e') (restatus-IsSound new_status sale v live other)

posted-IsSound :
    (staff : ℕ) (sale : Sale)
    → IsSound sale
    → total_of (has_status confirmed) sale.payments ≡ sale.checkout.total_minor
    → All IsFinal sale.payments
    → IsSound (posted_sale sale.checkout staff (keep (has_status confirmed) sale.payments) sale)
posted-IsSound staff sale v exact final = record {
  payment_keys = v.payment_keys;
  covered = v.covered;
  unposted = λ live. ground arith;
  posted = λ _. (
    transaction_of sale.checkout staff (keep (has_status confirmed) sale.payments),
    refl,
    refl,
    allocated (keep (has_status confirmed) sale.payments) sale.checkout staff ∙ exact,
    exact,
    final,
  );
}

post_new-IsSound :
    (derive : Checkout → List PaymentRecord → Outcome (Unit {0})) (staff : ℕ) (sale after : Sale)
    → IsSound sale
    → same_checkout_status sale.checkout.status settled ≡ false
    → total_of (has_status confirmed) sale.payments ≡ sale.checkout.total_minor
    → All IsFinal sale.payments
    → post_new derive sale.checkout staff (keep (has_status confirmed) sale.payments) sale
      ≡ ok after
    → IsSound after
unfolding post_new
post_new-IsSound derive staff sale after v live exact final h =
    go (is_empty sale.transactions) (ap is_empty (v.unposted live)) h
  where
    payments : List PaymentRecord
    payments = keep (has_status confirmed) sale.payments

    go :
        (b : Bool)
        → b ≡ true
        → (if not b
            then throws internal
            else derive sale.checkout payments
              >> throw_if (not (sale.checkout.version == sale.checkout.version)) (conflict plain)
              >> ok (posted_sale sale.checkout staff payments sale))
          ≡ ok after
        → IsSound after
    go false n e = ground arith
    go true n e =
        let (u, first, e1) =
          >>=-eq-ok
            (derive sale.checkout payments
              >> throw_if (not (sale.checkout.version == sale.checkout.version)) (conflict plain))
            (λ _. ok (posted_sale sale.checkout staff payments sale)) e in
        subst IsSound (ok-injective e1) (posted-IsSound staff sale v exact final)

post_for_checkout-IsSound :
    (derive : Checkout → List PaymentRecord → Outcome (Unit {0})) (sale after : Sale)
    → IsSound sale
    → same_checkout_status sale.checkout.status settled ≡ false
    → total_of (has_status confirmed) sale.payments ≡ sale.checkout.total_minor
    → All IsFinal sale.payments
    → post_for_checkout derive sale.checkout sale ≡ ok after
    → IsSound after
unfolding post_for_checkout
post_for_checkout-IsSound derive sale after v live exact final h =
    go (same_checkout_status sale.checkout.status settled) live h
  where
    payments : List PaymentRecord
    payments = keep (has_status confirmed) sale.payments

    go :
        (b : Bool)
        → b ≡ false
        → (if b && not (is_empty sale.transactions)
            then ok sale
            else sum_minor_amounts (amounts payments) >>= λ confirmed_total.
                throw_if (not (confirmed_total == sale.checkout.total_minor)) internal
                >> (or_throw sale.checkout.assigned_staff_profile_id internal >>= λ staff.
                    post_new derive sale.checkout staff payments sale))
          ≡ ok after
        → IsSound after
    go true n e = ground arith
    go false n e =
        let (n, _, e1) = >>=-eq-ok (sum_minor_amounts (amounts payments)) _ e in
        let (_, e2) = throw_if-eq-ok (not (n == sale.checkout.total_minor)) _ _ e1 in
        let (staff, _, e3) = bind_or_throw-eq-ok sale.checkout.assigned_staff_profile_id _ _ e2 in
        post_new-IsSound derive staff sale after v live exact final e3

apply_outcome-IsSound :
    (derive : Checkout → List PaymentRecord → Outcome (Unit {0})) (outcome : SettlementOutcome)
    (sale after : Sale)
    → IsSound sale
    → same_checkout_status sale.checkout.status settled ≡ false
    → (outcome ≡ ready_to_settle
        → (total_of (has_status confirmed) sale.payments ≡ sale.checkout.total_minor)
          × All IsFinal sale.payments)
    → apply_outcome derive sale.checkout sale outcome ≡ ok after
    → IsSound after
unfolding apply_outcome
apply_outcome-IsSound derive is_disputed sale after v live ready h =
    set_status-IsSound _ sale after v live refl h
apply_outcome-IsSound derive is_awaiting_verification sale after v live ready h =
    set_status-IsSound _ sale after v live refl h
apply_outcome-IsSound derive is_open sale after v live ready h =
    set_status-IsSound _ sale after v live refl h
apply_outcome-IsSound derive ready_to_settle sale after v live ready h =
    let (exact, final) = ready refl in
    post_for_checkout-IsSound derive sale after v live exact final h

not_settled : (s : CheckoutStatus) → is_terminal s ≡ false → same_checkout_status s settled ≡ false
not_settled s h = ground arith

pub recalculate-IsSound :
    (derive : Checkout → List PaymentRecord → Outcome (Unit {0})) (sale after : Sale)
    → IsSound sale
    → recalculate derive sale.checkout sale ≡ ok after
    → IsSound after
unfolding recalculate
recalculate-IsSound derive sale after v h = go (is_terminal sale.checkout.status) refl h
  where
    active : List PaymentRecord
    active = keep is_active sale.payments

    go :
        (b : Bool)
        → is_terminal sale.checkout.status ≡ b
        → (if b
            then ok sale
            else derive_checkout_settlement active
                (any (has_status payment_disputed) active)
                sale.checkout.total_minor
              >>= apply_outcome derive sale.checkout sale)
          ≡ ok after
        → IsSound after
    go true t e = subst IsSound (ok-injective e) v
    go false t e =
        let (outcome, derived, e1) =
          >>=-eq-ok
            (derive_checkout_settlement active (any (has_status payment_disputed) active)
              sale.checkout.total_minor)
            _ e in
        apply_outcome-IsSound derive outcome sale after v (not_settled _ t)
          (λ is_ready.
            ready_to_settle_exact sale.payments sale.checkout.total_minor v.covered
              (derived ∙ ap ok is_ready))
          e1
