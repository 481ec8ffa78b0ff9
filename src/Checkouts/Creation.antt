-- ===== src/Checkouts/Creation.antt =====
-- `create` and `createForProductSale` of checkouts.service.ts. The reads are of `before`; the insertion
-- runs on `db`. The identifier of the new row is an argument, and a reference is never taken twice.
use kora_os.Common.{
  any, ℕ, Bool, true, false, not, ◌&&◌, Option, none, some, List, [], ◌∷◌, ◌++◌, ◌==◌, length,
  same_option, is_empty, is_some, Outcome, ok, bad_request, conflict, not_found, internal,
  unique_violation, plain, checkout_already_exists, checkout_total_invalid,
  service_session_not_completed, ◌>>=◌, ◌>>◌, throw_if, or_throw,
}
use kora_os.Common.Int.{pos}
use kora_os.Common.Store.{find_first}
use kora_os.Money.{integer, assert_safe_money_amount, sum_minor_amounts}
use kora_os.Access.Tenant.{TenantContext, assert_membership_has_branch_access}
use kora_os.Inventory.Stock.{assert_branch_owned_by_organization}
use kora_os.Sales.Schema.{checkout_open}
use kora_os.Visits.Schema.{
  ServiceItem, ServiceSessionStatus, in_progress, session_completed, session_cancelled,
}
use kora_os.Checkouts.Schema.{CheckoutLineItem, CheckoutRecord, CheckoutDb}
use kora_os.Checkouts.Lines.{
  CheckoutProductItem, validate_and_snapshot_product_items, session_lines, prices,
  has_other_currency,
}

abbrev pub is_completed : ServiceSessionStatus → Bool
is_completed in_progress = false
is_completed session_completed = true
is_completed session_cancelled = false

abbrev pub is_of_session : ℕ → CheckoutRecord → Bool
is_of_session session checkout = same_option checkout.service_session_id (some session)

abbrev pub new_checkout : ℕ → ℕ → ℕ → Option ℕ → ℕ → ℕ → ℕ → List CheckoutLineItem → CheckoutRecord
new_checkout new_id organization branch session staff currency subtotal items = record {
  id = new_id;
  organization_id = organization;
  branch_id = branch;
  service_session_id = session;
  assigned_staff_profile_id = staff;
  status = checkout_open;
  version = 1;
  currency = currency;
  subtotal_minor = subtotal;
  adjustment_total_minor = pos 0;
  total_minor = pos subtotal;
  items = items;
  adjustments = [];
}

-- The database and the checkout that is answered. Identifiers are unique, and a session has one checkout
-- by a unique constraint; a violation of that one is answered with the checkout that won the race.
unfoldable pub insert_checkout :
    CheckoutRecord → Option CheckoutRecord → CheckoutDb → Outcome (CheckoutDb × CheckoutRecord)
insert_checkout checkout (some raced) db = ok (db, raced)
insert_checkout checkout none db =
    throw_if (any (λ c. c.id == checkout.id) db.checkouts) unique_violation
    >> ok (record db { checkouts = db.checkouts ++ checkout ∷ [] }, checkout)

abbrev pub checkout_of_session : Option ℕ → CheckoutDb → Option CheckoutRecord
checkout_of_session none db = none
checkout_of_session (some session) db = find_first (is_of_session session) db.checkouts

unfoldable pub check_prices : List ServiceItem → Outcome (Unit {0})
check_prices [] = ok tt
check_prices (item ∷ items) =
    assert_safe_money_amount (integer (pos item.price_minor)) 0 >> check_prices items

-- The currency of a checkout is that of its first line.
abbrev pub first_currency_of : List CheckoutLineItem → Option ℕ
first_currency_of [] = none
first_currency_of (line ∷ lines) = some line.currency_snapshot

-- What both ways of creating a checkout share: one currency, and a subtotal that is not 0.
unfoldable pub total_lines :
    ℕ
    → ℕ
    → ℕ
    → Option ℕ
    → ℕ
    → List CheckoutLineItem
    → CheckoutDb
    → Outcome (CheckoutDb × CheckoutRecord)
total_lines new_id organization branch session staff lines db = do
  currency ← or_throw (first_currency_of lines) internal
  throw_if (has_other_currency currency lines) (conflict checkout_total_invalid)
  subtotal ← sum_minor_amounts (prices lines)
  throw_if (subtotal == 0) (conflict checkout_total_invalid)
  insert_checkout (new_checkout new_id organization branch session staff currency subtotal lines)
      (checkout_of_session session db) db

unfoldable pub create :
    TenantContext
    → ℕ
    → List CheckoutProductItem
    → ℕ
    → CheckoutDb
    → CheckoutDb
    → Outcome (CheckoutDb × CheckoutRecord)
create tenant session_id product_items new_id before db = do
  session ←
      or_throw
        (find_first (λ s. s.id == session_id && s.organization_id == tenant.organization_id)
          before.sessions)
        not_found
  assert_membership_has_branch_access tenant session.branch_id
  throw_if (is_some (find_first (is_of_session session_id) before.checkouts))
      (conflict checkout_already_exists)
  throw_if (not (is_completed session.status)) (conflict service_session_not_completed)
  throw_if (is_empty session.items) (bad_request plain)
  let services = session_lines session.assigned_staff_profile_id 0 session.items
  currency ← or_throw (first_currency_of services) internal
  throw_if (has_other_currency currency services) (conflict checkout_total_invalid)
  check_prices session.items
  products ←
      validate_and_snapshot_product_items tenant.organization_id session.branch_id before.inventory
        (length session.items) product_items
  total_lines new_id tenant.organization_id session.branch_id (some session_id)
      session.assigned_staff_profile_id (services ++ products) db

-- `resolveOperatorStaffProfileId`
unfoldable pub resolve_operator_staff_profile_id : TenantContext → Option ℕ → CheckoutDb → Outcome ℕ
resolve_operator_staff_profile_id tenant (some id) db = do
  staff ←
      or_throw
        (find_first
          (λ s. s.id == id && s.organization_id == tenant.organization_id && not s.archived)
          db.staff_profiles)
        not_found
  ok staff.id
resolve_operator_staff_profile_id tenant none db = do
  own ←
      or_throw
        (find_first
          (λ s.
            s.organization_id == tenant.organization_id
            && same_option s.membership_id (some tenant.membership_id))
          db.staff_profiles)
        (bad_request plain)
  throw_if own.archived (bad_request plain)
  ok own.id

unfoldable pub check_customer : TenantContext → Option ℕ → CheckoutDb → Outcome (Unit {0})
check_customer tenant none db = ok tt
check_customer tenant (some id) db =
    throw_if
      (not (
        is_some (
          find_first
            (λ c. c.id == id && c.organization_id == tenant.organization_id && not c.archived)
            db.customers)))
      not_found

-- `CreateProductCheckoutDto`
pub record CreateProductCheckout : Type 0 where
  pub branch_id : ℕ
  pub customer_record_id : Option ℕ
  pub operator_staff_profile_id : Option ℕ
  pub items : List CheckoutProductItem

unfoldable pub create_for_product_sale :
    TenantContext
    → CreateProductCheckout
    → ℕ
    → CheckoutDb
    → CheckoutDb
    → Outcome (CheckoutDb × CheckoutRecord)
create_for_product_sale tenant dto new_id before db = do
  assert_membership_has_branch_access tenant dto.branch_id
  assert_branch_owned_by_organization tenant.organization_id dto.branch_id before.inventory
  check_customer tenant dto.customer_record_id before
  staff ← resolve_operator_staff_profile_id tenant dto.operator_staff_profile_id before
  lines ←
      validate_and_snapshot_product_items tenant.organization_id dto.branch_id before.inventory 0
        dto.items
  total_lines new_id tenant.organization_id dto.branch_id none staff lines db
