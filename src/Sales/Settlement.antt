-- ===== src/Sales/Settlement.antt =====
-- checkout-settlement.util.ts, checkout-settlement.service.ts and `postForCheckout` of
-- transaction-posting.service.ts. What the inventory, commission and receipt services answer while a
-- transaction is posted is the argument `derive`.
use kora_os.Common.{
  ℕ, suc, Bool, not, ◌&&◌, ◌||◌, List, [], ◌∷◌, ◌==◌, map, any, keep, is_empty, ltb, if◌then◌else◌,
  Outcome, ok, throws, conflict, internal, plain, ◌>>=◌, ◌>>◌, throw_if, or_throw,
}
use kora_os.Money.{sum_minor_amounts}
use kora_os.Sales.Schema.{
  CheckoutStatus, checkout_open, awaiting_verification, checkout_disputed, settled, checkout_voided,
  same_checkout_status, PaymentStatus, recorded, confirmed, payment_disputed, payment_voided,
  same_payment_status, Checkout, PaymentRecord, PostedTransaction, Sale,
}

pub data SettlementOutcome : Type 0 where
  is_disputed is_awaiting_verification is_open ready_to_settle : SettlementOutcome

abbrev pub has_status : PaymentStatus → PaymentRecord → Bool
has_status status payment = same_payment_status payment.status status

abbrev pub is_active : PaymentRecord → Bool
is_active payment = not (has_status payment_voided payment)

abbrev pub amounts : List PaymentRecord → List ℕ
amounts payments = map (λ p. p.applied_amount_minor) payments

-- `deriveCheckoutSettlement`
unfoldable pub derive_checkout_settlement :
    List PaymentRecord → Bool → ℕ → Outcome SettlementOutcome
derive_checkout_settlement payments has_unresolved_dispute total =
    if has_unresolved_dispute
    then ok is_disputed
    else if any (has_status recorded) payments
    then ok is_awaiting_verification
    else sum_minor_amounts (amounts (keep (has_status confirmed) payments)) >>= λ confirmed_total.
        ok (if ltb confirmed_total total then is_open else ready_to_settle)

abbrev pub transaction_of : Checkout → ℕ → List PaymentRecord → PostedTransaction
transaction_of checkout staff payments = record {
  total_minor = checkout.total_minor;
  assigned_staff_profile_id = staff;
  allocations = map (λ p. (p.id, p.applied_amount_minor)) payments;
}

abbrev pub settled_checkout : Checkout → Checkout
settled_checkout checkout = record checkout { status = settled; version = suc checkout.version }

abbrev pub posted_sale : Checkout → ℕ → List PaymentRecord → Sale → Sale
posted_sale locked staff payments sale = record sale {
  checkout = settled_checkout sale.checkout;
  transactions = transaction_of locked staff payments ∷ [];
}

-- The transaction's row, what is derived from it and the status. A second transaction of the checkout
-- violates a unique constraint, after which the database transaction answers no query.
unfoldable pub post_new :
    (Checkout → List PaymentRecord → Outcome (Unit {0}))
    → Checkout
    → ℕ
    → List PaymentRecord
    → Sale
    → Outcome Sale
post_new derive locked staff payments sale =
    if not (is_empty sale.transactions)
    then throws internal
    else derive locked payments
      >> throw_if (not (sale.checkout.version == locked.version)) (conflict plain)
      >> ok (posted_sale locked staff payments sale)

unfoldable pub post_for_checkout :
    (Checkout → List PaymentRecord → Outcome (Unit {0})) → Checkout → Sale → Outcome Sale
post_for_checkout derive locked sale =
    if same_checkout_status locked.status settled && not (is_empty sale.transactions)
    then ok sale
    else sum_minor_amounts (amounts (keep (has_status confirmed) sale.payments))
      >>= λ confirmed_total.
          throw_if (not (confirmed_total == locked.total_minor)) internal
          >> (or_throw locked.assigned_staff_profile_id internal >>= λ staff.
              post_new derive locked staff (keep (has_status confirmed) sale.payments) sale)

abbrev pub with_checkout_status : CheckoutStatus → Sale → Sale
with_checkout_status new_status sale = record sale {
  checkout = record sale.checkout { status = new_status; version = suc sale.checkout.version };
}

-- The update of the status, when it changes.
unfoldable pub set_status : CheckoutStatus → Checkout → Sale → Outcome Sale
set_status new_status locked sale =
    if same_checkout_status new_status locked.status
    then ok sale
    else throw_if (not (sale.checkout.version == locked.version)) (conflict plain)
      >> ok (with_checkout_status new_status sale)

unfoldable pub apply_outcome :
    (Checkout → List PaymentRecord → Outcome (Unit {0}))
    → Checkout
    → Sale
    → SettlementOutcome
    → Outcome Sale
apply_outcome derive locked sale is_disputed = set_status checkout_disputed locked sale
apply_outcome derive locked sale is_awaiting_verification =
    set_status awaiting_verification locked sale
apply_outcome derive locked sale is_open = set_status checkout_open locked sale
apply_outcome derive locked sale ready_to_settle = post_for_checkout derive locked sale

abbrev pub is_terminal : CheckoutStatus → Bool
is_terminal status =
    same_checkout_status status settled || same_checkout_status status checkout_voided

unfoldable pub recalculate :
    (Checkout → List PaymentRecord → Outcome (Unit {0})) → Checkout → Sale → Outcome Sale
recalculate derive locked sale =
    let active = keep is_active sale.payments in
    if is_terminal locked.status
    then ok sale
    else derive_checkout_settlement active (any (has_status payment_disputed) active)
        locked.total_minor
      >>= apply_outcome derive locked sale
