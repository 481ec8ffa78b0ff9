-- ===== src/Checkouts/Adjusting.antt =====
-- `addAdjustment` and `void` of checkouts.service.ts: the totals of the checkouts. A write of what was
-- computed from a read relies on the version of the row.
use kora_os.Common.{
  ℕ, ◌≡◌, refl, sym, ap, subst, Bool, true, false, not, ◌&&◌, ◌||◌, List, [], ◌∷◌, ◌==◌, ltb,
  if◌then◌else◌, All, ok, not_found, >>-eq-ok, >>=-eq-ok, throw_if-eq-ok, bind_or_throw-eq-ok,
  ok-injective, arith,
}
use kora_os.Common.Int.{pos, ◌+ℤ◌, ltb_ℤ}
use kora_os.Common.Store.{find_first, count_where, update_where, All-update_where, find_first-All}
use kora_os.Money.{integer, assert_safe_money_amount}
use kora_os.Access.Tenant.{TenantContext, assert_membership_has_branch_access}
use kora_os.Sales.Schema.{
  CheckoutStatus, checkout_open, awaiting_verification, checkout_disputed, same_checkout_status,
}
use kora_os.Checkouts.Schema.{CheckoutRecord, CheckoutDb}
use kora_os.Checkouts.Adjustments.{
  CreateCheckoutAdjustment, load_owned_checkout, signed_delta, is_read_version, adjusted_row,
  add_adjustment, voided_row, void,
}
use kora_os.Checkouts.Totals.{net_adjustment, IsTotalled}

-- A row with a version that was read is the row that was read.
abbrev pub SeesVersions : CheckoutDb → CheckoutDb → Type 0
SeesVersions before db =
    All (λ read. All (λ row. is_read_version read row ≡ true → row ≡ read) db.checkouts)
      before.checkouts

updated-IsTotalled :
    (p : CheckoutRecord → Bool) (f : CheckoutRecord → CheckoutRecord) (rows : List CheckoutRecord)
    → All (λ r. p r ≡ true → IsTotalled (f r)) rows
    → All IsTotalled rows
    → All IsTotalled (update_where p f rows)
unfolding update_where
updated-IsTotalled p f [] h v = tt
updated-IsTotalled p f (r ∷ rows) h v = go (p r) refl (updated-IsTotalled p f rows h.1 v.1)
  where
    go :
        (t : Bool)
        → p r ≡ t
        → All IsTotalled (update_where p f rows)
        → All IsTotalled (if t then f r ∷ update_where p f rows else r ∷ update_where p f rows)
    go true e rest = (h.0 e, rest)
    go false e rest = (v.0, rest)

adjusted_row-IsTotalled :
    (tenant : TenantContext) (dto : CreateCheckoutAdjustment) (read : CheckoutRecord)
    → ltb_ℤ
        (pos read.subtotal_minor
          +ℤ (read.adjustment_total_minor +ℤ signed_delta dto.type dto.amount_minor))
        (pos 0)
      ≡ false
    → IsTotalled read
    → IsTotalled (adjusted_row tenant dto read read)
unfolding net_adjustment
adjusted_row-IsTotalled tenant dto read enough v = record {
  subtotal = v.subtotal;
  billable = v.billable;
  adjusted = ap (λ z. z +ℤ signed_delta dto.type dto.amount_minor) v.adjusted;
  total = refl;
  payable = ground arith;
  currency = v.currency;
}

-- What is written is computed from a row that was read, and written where the version is that row's.
pub add_adjustment-rows :
    (tenant : TenantContext) (payment_count : ℕ → ℕ) (checkout_id : ℕ)
    (dto : CreateCheckoutAdjustment) (before db after : CheckoutDb)
    → SeesVersions before db
    → add_adjustment tenant payment_count checkout_id dto before db ≡ ok after
    → (read : CheckoutRecord) × All
        (λ row. is_read_version read row ≡ true → row ≡ read)
        db.checkouts
      × (ltb_ℤ
            (pos read.subtotal_minor
              +ℤ (read.adjustment_total_minor +ℤ signed_delta dto.type dto.amount_minor))
            (pos 0)
          ≡ false)
      × (after.checkouts
          ≡ update_where (is_read_version read) (adjusted_row tenant dto read) db.checkouts)
unfolding add_adjustment load_owned_checkout
add_adjustment-rows tenant payment_count checkout_id dto before db after sees h =
    let (read, loaded, h1) = >>=-eq-ok (load_owned_checkout tenant checkout_id before) _ h in
    let (found, is_found, rest) =
      bind_or_throw-eq-ok
        (find_first (λ c. c.id == checkout_id && c.organization_id == tenant.organization_id)
          before.checkouts)
        not_found _ loaded in
    let (_, is_read) =
      >>-eq-ok (assert_membership_has_branch_access tenant found.branch_id) _ rest in
    let (_, h2) = throw_if-eq-ok (not (same_checkout_status read.status checkout_open)) _ _ h1 in
    let (_, h3) = throw_if-eq-ok (ltb 0 (payment_count checkout_id)) _ _ h2 in
    let (_, h4) = >>-eq-ok (assert_safe_money_amount (integer (pos dto.amount_minor)) 1) _ h3 in
    let (enough, h5) =
      throw_if-eq-ok
        (ltb_ℤ
          (pos read.subtotal_minor
            +ℤ (read.adjustment_total_minor +ℤ signed_delta dto.type dto.amount_minor))
          (pos 0))
        _ _ h4 in
    let (_, h6) = throw_if-eq-ok (count_where (is_read_version read) db.checkouts == 0) _ _ h5 in
    let (seen, _) =
      find_first-All (λ r. All (λ row. is_read_version r row ≡ true → row ≡ r) db.checkouts)
        (λ c. c.id == checkout_id && c.organization_id == tenant.organization_id) before.checkouts
        found is_found sees in
    let sees_read =
      subst (λ r. All (λ row. is_read_version r row ≡ true → row ≡ r) db.checkouts)
        (ok-injective is_read) seen in
    (read, sees_read, enough, ap (λ d. d.checkouts) (sym (ok-injective h6)))

pub add_adjustment-IsTotalled :
    (tenant : TenantContext) (payment_count : ℕ → ℕ) (checkout_id : ℕ)
    (dto : CreateCheckoutAdjustment) (before db after : CheckoutDb)
    → SeesVersions before db
    → All IsTotalled db.checkouts
    → add_adjustment tenant payment_count checkout_id dto before db ≡ ok after
    → All IsTotalled after.checkouts
add_adjustment-IsTotalled tenant payment_count checkout_id dto before db after sees v h =
    let (read, sees_read, enough, e) =
      add_adjustment-rows tenant payment_count checkout_id dto before db after sees h in
    subst (All IsTotalled) (sym e) (
      updated-IsTotalled (is_read_version read) (adjusted_row tenant dto read) db.checkouts
        (matched read enough db.checkouts sees_read v) v)
  where
    matched :
        (read : CheckoutRecord)
        → ltb_ℤ
            (pos read.subtotal_minor
              +ℤ (read.adjustment_total_minor +ℤ signed_delta dto.type dto.amount_minor))
            (pos 0)
          ≡ false
        → (rows : List CheckoutRecord)
        → All (λ row. is_read_version read row ≡ true → row ≡ read) rows
        → All IsTotalled rows
        → All
            (λ r. is_read_version read r ≡ true → IsTotalled (adjusted_row tenant dto read r))
            rows
    matched read enough [] s t = tt
    matched read enough (r ∷ rows) s t = (
      (λ hit.
          subst (λ x. IsTotalled (adjusted_row tenant dto read x)) (sym (s.0 hit))
            (adjusted_row-IsTotalled tenant dto read enough (subst IsTotalled (s.0 hit) t.0))),
      matched read enough rows s.1 t.1,
    )

pub status_kept :
    (status : CheckoutStatus) (version : ℕ) (c : CheckoutRecord)
    → IsTotalled c
    → IsTotalled (record c { status = status; version = version })
status_kept status version c v = record {
  subtotal = v.subtotal;
  billable = v.billable;
  adjusted = v.adjusted;
  total = v.total;
  payable = v.payable;
  currency = v.currency;
}

pub void-rows :
    (tenant : TenantContext) (checkout_id : ℕ) (before db after : CheckoutDb)
    → void tenant checkout_id before db ≡ ok after
    → (read : CheckoutRecord) × (after.checkouts
        ≡ update_where (is_read_version read) voided_row db.checkouts)
unfolding void
void-rows tenant checkout_id before db after h =
    let (read, _, h1) = >>=-eq-ok (load_owned_checkout tenant checkout_id before) _ h in
    let (_, h2) =
      throw_if-eq-ok
        (not (
          same_checkout_status read.status checkout_open
          || same_checkout_status read.status awaiting_verification
          || same_checkout_status read.status checkout_disputed))
        _ _ h1 in
    let (_, h3) = throw_if-eq-ok (count_where (is_read_version read) db.checkouts == 0) _ _ h2 in
    (read, ap (λ d. d.checkouts) (sym (ok-injective h3)))

pub void-IsTotalled :
    (tenant : TenantContext) (checkout_id : ℕ) (before db after : CheckoutDb)
    → All IsTotalled db.checkouts
    → void tenant checkout_id before db ≡ ok after
    → All IsTotalled after.checkouts
void-IsTotalled tenant checkout_id before db after v h =
    let (read, e) = void-rows tenant checkout_id before db after h in
    subst (All IsTotalled) (sym e) (
      All-update_where IsTotalled (is_read_version read) voided_row (λ c _ d. status_kept _ _ c d)
        db.checkouts v)
