-- ===== src/Sales/Moves.antt =====
-- payments.service.ts, payment-verifications.service.ts and payment-disputes.service.ts: what
-- their transactions do to a sound checkout.
use kora_os.Common.{
  ℕ, suc, ◌+◌, ◌≤◌, ◌≡◌, refl, sym, ap, subst, Bool, true, false, not, ◌||◌, Option, some, List, [],
  ◌∷◌, ◌==◌, keep, is_some, ltb, if◌then◌else◌, All, All-map, Exception, ok, throw_if-eq-ok,
  >>-eq-ok, >>=-eq-ok, bind_or_throw-eq-ok, arith, Bool-cases, inl, inr,
}
use kora_os.Common.Store.{find_first, count_where, update_where, find_first-All}
use kora_os.Common.Rows.{count_where-update_same, All-trivial}
use kora_os.Money.{sum_minor_amounts}
use kora_os.Access.Tenant.{TenantContext}
use kora_os.Sales.Schema.{
  CheckoutStatus, settled, same_checkout_status, PaymentStatus, recorded, confirmed, payment_voided,
  same_payment_status, PaymentRecord, PaymentDispute, Sale,
}
use kora_os.Sales.Settlement.{has_status, is_active, amounts, is_terminal}
use kora_os.Sales.Payments.{Services, is_version, with_status, moved_payment, move_payment}
use kora_os.Sales.Recording.{RecordPayment, record_transaction, with_payment, cash_entry, is_key}
use kora_os.Sales.Soundness.{IsSound, IsFinal, total_of, of_sum}
use kora_os.Sales.Steps.{recalculate-IsSound}

none_hit :
    (p : PaymentRecord → Bool) (a : PaymentRecord) (xs : List PaymentRecord)
    → count_where p xs ≡ 0
    → All (λ x. p x ≡ true → x ≡ a) xs
unfolding count_where
none_hit p a [] h = tt
none_hit p a (x ∷ xs) h = elim (Bool-cases (p x)) [
  | inl e ↦ ground arith
  | inr e ↦ (λ t. ground arith, none_hit p a xs (ground arith))
]

first_is :
    (b : Bool) (x a : PaymentRecord) (rest : Option PaymentRecord)
    → b ≡ true
    → (if b then some x else rest) ≡ some a
    → x ≡ a
first_is true x a rest t e = cc
first_is false x a rest t e = ground arith

unique_row :
    (p : PaymentRecord → Bool) (a : PaymentRecord) (xs : List PaymentRecord)
    → find_first p xs ≡ some a
    → count_where p xs ≤ 1
    → All (λ x. p x ≡ true → x ≡ a) xs
unfolding count_where find_first
unique_row p a [] e h = tt
unique_row p a (x ∷ xs) e h = elim (Bool-cases (p x)) [
  | inl t ↦ (λ _. first_is (p x) x a (find_first p xs) t e, none_hit p a xs (ground arith))
  | inr t ↦ (λ t'. ground arith, unique_row p a xs (ground arith) (ground arith))
]

-- A change of status of active payments raises no active amount.
active-update :
    (p : PaymentRecord → Bool) (next : PaymentStatus) (xs : List PaymentRecord)
    → All (λ x. p x ≡ true → is_active x ≡ true) xs
    → total_of is_active (update_where p (with_status next) xs) ≤ total_of is_active xs
unfolding update_where
active-update p next [] h = ground arith
active-update p next (x ∷ xs) h = ground (arith, active-update p next xs h.1, h.0)

under : (r n a total : ℕ) → n ≡ a → ltb total (n + r) ≡ false → r + a ≤ total
under r n a total same fits = ground arith

live_of : (s : CheckoutStatus) → is_terminal s ≡ false → same_checkout_status s settled ≡ false
live_of s h = ground arith

new_key :
    (id k : ℕ) (n m : ℕ) → n ≤ 1 → m ≡ 0 → (id ≡ k → n ≡ m) → (if id == k then suc n else n) ≤ 1
new_key id k n m few fresh same = ground arith

with_payment-IsSound :
    (payment : PaymentRecord) (membership key fingerprint : ℕ) (sale : Sale)
    → IsSound sale
    → count_where (λ p. p.id == payment.id) sale.payments ≡ 0
    → payment.status ≡ recorded
    → same_checkout_status sale.checkout.status settled ≡ false
    → payment.applied_amount_minor + total_of is_active sale.payments ≤ sale.checkout.total_minor
    → IsSound (with_payment payment membership key fingerprint sale)
unfolding count_where
with_payment-IsSound payment membership key fingerprint sale v fresh waits live fits = record {
  payment_keys = λ k.
      new_key payment.id k (count_where (λ p. p.id == k) sale.payments)
        (count_where (λ p. p.id == payment.id) sale.payments) (v.payment_keys k) fresh
        (λ same. ap (λ j. count_where (λ p. p.id == j) sale.payments) (sym same));
  covered = ground arith;
  unposted = v.unposted;
  posted = λ is_settled. ground arith;
}

-- A recorded payment keeps the checkout sound: the active payments stay within its total.
pub record_transaction-IsSound :
    (services : Services) (tenant : TenantContext) (dto : RecordPayment) (key new_id : ℕ)
    (sale after : Sale)
    → IsSound sale
    → count_where (λ p. p.id == new_id) sale.payments ≡ 0
    → record_transaction services tenant dto key new_id sale ≡ ok after
    → IsSound after
unfolding record_transaction
record_transaction-IsSound services tenant dto key new_id sale after v fresh h =
    let (_, h1) = throw_if-eq-ok (same_checkout_status sale.checkout.status settled) _ _ h in
    let (live, h2) = throw_if-eq-ok (is_terminal sale.checkout.status) _ _ h1 in
    let (n, summed, h3) =
      >>=-eq-ok (sum_minor_amounts (amounts (keep is_active sale.payments))) _ h2 in
    let (fits, h4) =
      throw_if-eq-ok (ltb sale.checkout.total_minor (n + dto.applied_amount_minor)) _ _ h3 in
    let (staff, _, h5) = bind_or_throw-eq-ok sale.checkout.assigned_staff_profile_id _ _ h4 in
    let (_, h6) = >>-eq-ok (cash_entry services dto.cash_session_id _) _ h5 in
    let (_, h7) =
      throw_if-eq-ok (is_some (find_first (is_key tenant.membership_id key) sale.idempotency_keys))
        _ _ h6 in
    recalculate-IsSound services.derive
      (with_payment _ tenant.membership_id key dto.request_fingerprint sale) after
      (with_payment-IsSound _ tenant.membership_id key dto.request_fingerprint sale v fresh refl
        (live_of _ live)
        (under dto.applied_amount_minor n _ sale.checkout.total_minor (of_sum _ n summed) fits))
      h7

active_expected :
    (s expected : PaymentStatus)
    → same_payment_status s expected ≡ true
    → same_payment_status expected payment_voided ≡ false
    → not (same_payment_status s payment_voided) ≡ true
active_expected s expected h k = ground arith

not_final :
    (p : PaymentRecord) (expected : PaymentStatus)
    → same_payment_status p.status expected ≡ true
    → same_payment_status expected payment_voided ≡ false
    → same_payment_status expected confirmed ≡ false
    → (has_status confirmed p || has_status payment_voided p) ≡ false
not_final p expected h k l = ground arith

moved_payment-IsSound :
    (payment_id : ℕ) (fresh : PaymentRecord) (expected next : PaymentStatus)
    (disputes : List PaymentDispute) (tenant : TenantContext) (sale : Sale)
    → IsSound sale
    → same_payment_status expected payment_voided ≡ false
    → same_payment_status expected confirmed ≡ false
    → find_first (λ p. p.id == payment_id) sale.payments ≡ some fresh
    → same_payment_status fresh.status expected ≡ true
    → IsSound (moved_payment payment_id fresh next disputes tenant sale)
moved_payment-IsSound payment_id fresh expected next disputes tenant sale v a b found status =
    record {
      payment_keys = λ k. omega (
        arith,
        v.payment_keys k,
        count_where-update_same (λ _. Unit {0}) (is_version payment_id fresh.version)
            (λ p. p.id == k) (with_status next) (λ x _ _. refl) sale.payments
            (All-trivial sale.payments),
      );
      covered = omega (
        arith,
        v.covered,
        active-update (is_version payment_id fresh.version) next sale.payments (
            All-map _ _
              (λ x same hit.
                subst (λ (y : PaymentRecord). is_active y ≡ true) (sym (same (ground arith)))
                  (active_expected fresh.status expected status a))
              sale.payments
              (unique_row (λ p. p.id == payment_id) fresh sale.payments found
                (v.payment_keys payment_id))),
      );
      unposted = v.unposted;
      posted = λ is_settled.
          let (t, _, _, _, _, final) = v.posted is_settled in
          let (is_final, _) =
            find_first-All IsFinal (λ p. p.id == payment_id) sale.payments fresh found final in
          let clash = not_final fresh expected status a b in ground arith;
    }

-- So does every change of a payment that is waiting or disputed.
pub move_payment-IsSound :
    (services : Services) (tenant : TenantContext) (payment_id : ℕ) (expected : PaymentStatus)
    (wrong : Exception) (next : PaymentStatus) (disputes : List PaymentDispute) (sale after : Sale)
    → IsSound sale
    → same_payment_status expected payment_voided ≡ false
    → same_payment_status expected confirmed ≡ false
    → move_payment services tenant payment_id expected wrong next disputes sale ≡ ok after
    → IsSound after
unfolding move_payment
move_payment-IsSound services tenant payment_id expected wrong next disputes sale after v a b h =
    let (fresh, found, h1) =
      bind_or_throw-eq-ok (find_first (λ p. p.id == payment_id) sale.payments) _ _ h in
    let (status, h2) = throw_if-eq-ok (not (same_payment_status fresh.status expected)) _ _ h1 in
    let (_, h3) =
      throw_if-eq-ok (count_where (is_version payment_id fresh.version) sale.payments == 0) _ _
        h2 in
    recalculate-IsSound services.derive (moved_payment payment_id fresh next disputes tenant sale)
      after
      (moved_payment-IsSound payment_id fresh expected next disputes tenant sale v a b found
        (ground arith))
      h3
