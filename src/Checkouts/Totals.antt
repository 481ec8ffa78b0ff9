-- ===== src/Checkouts/Totals.antt =====
-- `create` and `createForProductSale` of checkouts.service.ts: the totals of the checkouts.
use kora_os.Common.{
  any, ℕ, ◌<◌, ◌≡◌, ◌⊎◌, inl, inr, refl, sym, ap, subst, false, ◌++◌, not, ◌&&◌, Option, none, some,
  List, [], ◌∷◌, ◌==◌, sum, is_empty, is_some, length, All, All-append, ok, not_found, internal,
  >>-eq-ok, >>=-eq-ok, throw_if-eq-ok, bind_or_throw-eq-ok, ok-injective, arith,
}
use kora_os.Common.Int.{ℤ, pos, ◌+ℤ◌, ◌≤ℤ◌, int_laws}
use kora_os.Common.Store.{find_first}
use kora_os.Money.{sum_minor_amounts}
use kora_os.Access.Tenant.{TenantContext, assert_membership_has_branch_access}
use kora_os.Sales.Soundness.{of_sum}
use kora_os.Inventory.Stock.{assert_branch_owned_by_organization}
use kora_os.Checkouts.Schema.{CheckoutLineItem, CheckoutAdjustment, CheckoutRecord, CheckoutDb}
use kora_os.Checkouts.Lines.{
  CheckoutProductItem, validate_and_snapshot_product_items, session_lines, prices,
  has_other_currency,
}
use kora_os.Checkouts.Creation.{
  is_completed, is_of_session, new_checkout, insert_checkout, checkout_of_session, check_prices,
  first_currency_of, total_lines, create, resolve_operator_staff_profile_id, check_customer,
  CreateProductCheckout, create_for_product_sale,
}
use kora_os.Checkouts.Adjustments.{signed_delta}

-- The sum of the discounts and surcharges, with their signs.
unfoldable pub net_adjustment : List CheckoutAdjustment → ℤ
net_adjustment [] = pos 0
net_adjustment (a ∷ rest) = net_adjustment rest +ℤ signed_delta a.type a.amount_minor

-- The subtotal is the sum of the lines and not 0, the adjustment total the sum of the adjustments, and
-- the total both together and not negative; all lines are in the currency of the checkout.
pub record IsTotalled (c : CheckoutRecord) : Type 0 where
  pub subtotal : c.subtotal_minor ≡ sum (prices c.items)
  pub billable : 0 < c.subtotal_minor
  pub adjusted : c.adjustment_total_minor ≡ net_adjustment c.adjustments
  pub total : c.total_minor ≡ pos c.subtotal_minor +ℤ c.adjustment_total_minor
  pub payable : pos 0 ≤ℤ c.total_minor
  pub currency : has_other_currency c.currency c.items ≡ false

-- A totalled row with a new identifier was appended, or nothing was.
abbrev pub Inserts : List CheckoutRecord → List CheckoutRecord → Type 0
Inserts rows later =
    (later ≡ rows)
    ⊎ ((c : CheckoutRecord) × IsTotalled c
        × (any (λ d. d.id == c.id) rows ≡ false)
        × (later ≡ rows ++ c ∷ []))

total_lines-Inserts :
    (new_id organization branch : ℕ) (session : Option ℕ) (staff : ℕ)
    (lines : List CheckoutLineItem) (db after : CheckoutDb) (c : CheckoutRecord)
    → total_lines new_id organization branch session staff lines db ≡ ok (after, c)
    → Inserts db.checkouts after.checkouts
unfolding total_lines insert_checkout net_adjustment
total_lines-Inserts new_id organization branch session staff lines db after c h =
    let (currency, _, h1) = bind_or_throw-eq-ok (first_currency_of lines) internal _ h in
    let (same, h2) = throw_if-eq-ok (has_other_currency currency lines) _ _ h1 in
    let (subtotal, summed, h3) = >>=-eq-ok (sum_minor_amounts (prices lines)) _ h2 in
    let (nonzero, h4) = throw_if-eq-ok (subtotal == 0) _ _ h3 in
    go currency subtotal same (of_sum _ subtotal summed) nonzero (checkout_of_session session db) h4
  where
    go :
        (currency subtotal : ℕ)
        → has_other_currency currency lines ≡ false
        → subtotal ≡ sum (prices lines)
        → (subtotal == 0) ≡ false
        → (raced : Option CheckoutRecord)
        → insert_checkout
            (new_checkout new_id organization branch session staff currency subtotal lines)
            raced
            db
          ≡ ok (after, c)
        → Inserts db.checkouts after.checkouts
    go currency subtotal same is_sum nonzero (some raced) e =
        inl (ap (λ p. p.0.checkouts) (sym (ok-injective e)))
    go currency subtotal same is_sum nonzero none e =
        let (fresh, e1) = throw_if-eq-ok (any (λ d. d.id == new_id) db.checkouts) _ _ e in
        inr (
          new_checkout new_id organization branch session staff currency subtotal lines,
          record {
            subtotal = is_sum;
            billable = ground arith;
            adjusted = refl;
            total = grind int_laws;
            payable = omega arith;
            currency = same;
          },
          fresh,
          ap (λ p. p.0.checkouts) (sym (ok-injective e1)),
        )

pub create-Inserts :
    (tenant : TenantContext) (session_id : ℕ) (items : List CheckoutProductItem) (new_id : ℕ)
    (before db after : CheckoutDb) (c : CheckoutRecord)
    → create tenant session_id items new_id before db ≡ ok (after, c)
    → Inserts db.checkouts after.checkouts
unfolding create
create-Inserts tenant session_id items new_id before db after c h =
    let (session, _, h1) =
      bind_or_throw-eq-ok
        (find_first (λ s. s.id == session_id && s.organization_id == tenant.organization_id)
          before.sessions)
        not_found _ h in
    let (_, h2) = >>-eq-ok (assert_membership_has_branch_access tenant session.branch_id) _ h1 in
    let (_, h3) =
      throw_if-eq-ok (is_some (find_first (is_of_session session_id) before.checkouts)) _ _ h2 in
    let (_, h4) = throw_if-eq-ok (not (is_completed session.status)) _ _ h3 in
    let (_, h5) = throw_if-eq-ok (is_empty session.items) _ _ h4 in
    let services = session_lines session.assigned_staff_profile_id 0 session.items in
    let (currency, _, h6) = bind_or_throw-eq-ok (first_currency_of services) internal _ h5 in
    let (_, h7) = throw_if-eq-ok (has_other_currency currency services) _ _ h6 in
    let (_, h8) = >>-eq-ok (check_prices session.items) _ h7 in
    let (products, _, h9) =
      >>=-eq-ok
        (validate_and_snapshot_product_items tenant.organization_id session.branch_id
          before.inventory (length session.items) items)
        _ h8 in
    total_lines-Inserts new_id tenant.organization_id session.branch_id (some session_id)
      session.assigned_staff_profile_id _ db after c h9

pub create_for_product_sale-Inserts :
    (tenant : TenantContext) (dto : CreateProductCheckout) (new_id : ℕ)
    (before db after : CheckoutDb) (c : CheckoutRecord)
    → create_for_product_sale tenant dto new_id before db ≡ ok (after, c)
    → Inserts db.checkouts after.checkouts
unfolding create_for_product_sale
create_for_product_sale-Inserts tenant dto new_id before db after c h =
    let (_, h1) = >>-eq-ok (assert_membership_has_branch_access tenant dto.branch_id) _ h in
    let (_, h2) =
      >>-eq-ok
        (assert_branch_owned_by_organization tenant.organization_id dto.branch_id before.inventory)
        _ h1 in
    let (_, h3) = >>-eq-ok (check_customer tenant dto.customer_record_id before) _ h2 in
    let (staff, _, h4) =
      >>=-eq-ok (resolve_operator_staff_profile_id tenant dto.operator_staff_profile_id before) _
        h3 in
    let (lines, _, h5) =
      >>=-eq-ok
        (validate_and_snapshot_product_items tenant.organization_id dto.branch_id before.inventory 0
          dto.items)
        _ h4 in
    total_lines-Inserts new_id tenant.organization_id dto.branch_id none staff lines db after c h5

pub Inserts-IsTotalled :
    (rows later : List CheckoutRecord)
    → All IsTotalled rows
    → Inserts rows later
    → All IsTotalled later
Inserts-IsTotalled rows later v (inl same) = subst (All IsTotalled) (sym same) v
Inserts-IsTotalled rows later v (inr (c, totalled, _, e)) =
    subst (All IsTotalled) (sym e) (All-append IsTotalled rows (c ∷ []) v (totalled, tt))
