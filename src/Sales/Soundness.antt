-- ===== src/Sales/Soundness.antt =====
-- The invariant of a checkout with its payments and its transaction, and the settlement rule of
-- checkout-settlement.util.ts on it.

use kora_os.Common.{
  ℕ, ◌+◌, ◌≤◌, ◌≡◌, refl, sym, ap, ◌∙◌, Bool, true, false, ◌||◌, List, [], ◌∷◌, ◌==◌, map, any,
  keep, sum, ltb, leb, if◌then◌else◌, All, ok, throws, bad_request, plain, ◌>>=◌, >>=-eq-ok,
  ok-injective, arith,
}
use kora_os.Common.Store.{count_where}
use kora_os.Money.{sum_minor_amounts, postgres_int_max}
use kora_os.Money.Bounds.{sum_minor_amounts-eq-sum}
use kora_os.Sales.Schema.{
  settled, same_checkout_status, PaymentStatus, recorded, confirmed, payment_disputed,
  payment_voided, Checkout, PaymentRecord, PostedTransaction, Sale,
}
use kora_os.Sales.Settlement.{
  is_disputed, is_awaiting_verification, is_open, ready_to_settle, has_status, is_active, amounts,
  derive_checkout_settlement, transaction_of,
}

-- The amounts of the payments that pass the test.
abbrev pub total_of : (PaymentRecord → Bool) → List PaymentRecord → ℕ
total_of p payments = sum (amounts (keep p payments))

abbrev pub IsFinal : PaymentRecord → Type 0
IsFinal p = (has_status confirmed p || has_status payment_voided p) ≡ true

abbrev pub IsPosted : Sale → Type 0
IsPosted sale =
    (t : PostedTransaction) × (sale.transactions ≡ t ∷ [])
    × (t.total_minor ≡ sale.checkout.total_minor)
    × (sum (map (λ a. a.1) t.allocations) ≡ sale.checkout.total_minor)
    × (total_of (has_status confirmed) sale.payments ≡ sale.checkout.total_minor)
    × All IsFinal sale.payments

pub record IsSound (sale : Sale) : Type 0 where
  pub payment_keys : (k : ℕ) → count_where (λ p. p.id == k) sale.payments ≤ 1
  pub covered : total_of is_active sale.payments ≤ sale.checkout.total_minor
  pub unposted : same_checkout_status sale.checkout.status settled ≡ false → sale.transactions ≡ []
  pub posted : same_checkout_status sale.checkout.status settled ≡ true → IsPosted sale

-- With no payment waiting and none disputed, the active payments are the confirmed ones.
pub no_pending :
    (xs : List PaymentRecord)
    → any (has_status recorded) (keep is_active xs) ≡ false
    → any (has_status payment_disputed) (keep is_active xs) ≡ false
    → All IsFinal xs × (total_of is_active xs ≡ total_of (has_status confirmed) xs)
no_pending [] h k = (tt, refl)
no_pending (x ∷ xs) h k = step (no_pending xs) x.status refl
  where
    step :
        (any (has_status recorded) (keep is_active xs) ≡ false
          → any (has_status payment_disputed) (keep is_active xs) ≡ false
          → All IsFinal xs × (total_of is_active xs ≡ total_of (has_status confirmed) xs))
        → (s : PaymentStatus) → x.status ≡ s
        → All IsFinal (x ∷ xs)
          × (total_of is_active (x ∷ xs) ≡ total_of (has_status confirmed) (x ∷ xs))
    step rest recorded e = ground arith
    step rest payment_disputed e = ground arith
    step rest confirmed e =
        let (final, same) = rest (ground arith) (ground arith) in
        ((ground arith, final), ground arith)
    step rest payment_voided e =
        let (final, same) = rest (ground arith) (ground arith) in
        ((ground arith, final), ground arith)

confirmed_of_active :
    (xs : List PaymentRecord)
    → sum (amounts (keep (has_status confirmed) (keep is_active xs)))
      ≡ total_of (has_status confirmed) xs
confirmed_of_active [] = refl
confirmed_of_active (x ∷ xs) = ground (arith, confirmed_of_active xs)

pub allocated :
    (xs : List PaymentRecord) (c : Checkout) (staff : ℕ)
    → sum (map (λ a. a.1) (transaction_of c staff xs).allocations) ≡ sum (amounts xs)
allocated [] c staff = refl
allocated (x ∷ xs) c staff = ap (λ n. x.applied_amount_minor + n) (allocated xs c staff)

pub of_sum : (xs : List ℕ) (n : ℕ) → sum_minor_amounts xs ≡ ok n → n ≡ sum xs
of_sum xs n h = go (leb (sum xs) postgres_int_max) (sym (sum_minor_amounts-eq-sum xs) ∙ h)
  where
    go : (b : Bool) → (if b then ok (sum xs) else throws (bad_request plain)) ≡ ok n → n ≡ sum xs
    go true e = sym (ok-injective e)
    go false e = cc

-- When the recalculation finds a checkout ready to settle and its payments do not exceed it, the
-- confirmed payments are exactly the total, so that posting never finds the checkout not ready, and
-- every payment is confirmed or voided.
pub ready_to_settle_exact :
    (payments : List PaymentRecord) (total : ℕ)
    → total_of is_active payments ≤ total
    → derive_checkout_settlement
        (keep is_active payments)
        (any (has_status payment_disputed) (keep is_active payments))
        total
      ≡ ok ready_to_settle
    → (total_of (has_status confirmed) payments ≡ total) × All IsFinal payments
unfolding derive_checkout_settlement
ready_to_settle_exact payments total bound h =
    let (none_disputed, none_recorded, n, summed, reached) =
      ready (any (has_status payment_disputed) (keep is_active payments))
        (any (has_status recorded) (keep is_active payments)) h in
    let (final, same) = no_pending payments none_recorded none_disputed in
    let is_sum = of_sum _ n summed ∙ confirmed_of_active payments in
    (omega (arith, bound, same, is_sum, reached), final)
  where
    ready :
        (d r : Bool)
        → (if d
            then ok is_disputed
            else if r
            then ok is_awaiting_verification
            else sum_minor_amounts (amounts (keep (has_status confirmed) (keep is_active payments)))
              >>= λ n. ok (if ltb n total then is_open else ready_to_settle))
          ≡ ok ready_to_settle
        → (d ≡ false)
          × (r ≡ false)
          × (n : ℕ) × (sum_minor_amounts
                (amounts (keep (has_status confirmed) (keep is_active payments)))
              ≡ ok n)
          × (total ≤ n)
    ready true r e = cc
    ready false true e = cc
    ready false false e =
        let (n, summed, e') = >>=-eq-ok _ _ e in
        (refl, refl, n, summed, at_least n (ltb n total) refl (ok-injective e'))
      where
        at_least :
            (n : ℕ) (b : Bool)
            → ltb n total ≡ b
            → (if b then is_open else ready_to_settle) ≡ ready_to_settle
            → total ≤ n
        at_least n true l e = cc
        at_least n false l e = ground arith
