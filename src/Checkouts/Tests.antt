-- ===== src/Checkouts/Tests.antt =====
-- A checkout of a haircut and two bottles, with a discount of a fifth of it.
use mathlib.Core.List.{Memᴰ}
use kora_os.Common.{
  ℕ, ◌≡◌, refl, true, false, none, some, List, [], ◌∷◌, map, All, Outcome, ok, throws, conflict,
  checkout_already_exists,
}
use kora_os.Common.Int.{pos, ◌+ℤ◌, ◌-ℤ◌}
use kora_os.Common.Store.{find_first, count_where, update_where}
use kora_os.Money.{sum_minor_amounts, sum_minor_from, assert_safe_money_amount}
use kora_os.Access.Tenant.{TenantContext, full, assert_membership_has_branch_access}
use kora_os.Inventory.Stock.{find_owned_variant}
use kora_os.Visits.Schema.{ServiceSession, session_completed}
use kora_os.Checkouts.Schema.{discount, CheckoutRecord, CheckoutDb}
use kora_os.Checkouts.Lines.{
  CheckoutProductItem, has_duplicate, snapshot_item, snapshot_items,
  validate_and_snapshot_product_items, session_lines,
}
use kora_os.Checkouts.Creation.{insert_checkout, check_prices, total_lines, create, new_checkout}
use kora_os.Checkouts.Adjustments.{CreateCheckoutAdjustment, load_owned_checkout, add_adjustment}
use kora_os.Checkouts.Totals.{IsTotalled}
use kora_os.Checkouts.Runs.{
  Reachable, here, next, step_create, step_adjustment, Reachable-IsTotalled,
}

abbrev cashier : TenantContext
cashier = record {
  membership_id = 1;
  organization_id = 7;
  user_id = 4;
  permission_codes = λ _. true;
  is_owner = false;
  branch_ids = 3 ∷ [];
  access_mode = full;
}

abbrev haircut : ServiceSession
haircut = record {
  id = 30;
  organization_id = 7;
  branch_id = 3;
  queue_entry_id = 10;
  customer_record_id = 20;
  assigned_staff_profile_id = 6;
  status = session_completed;
  version = 2;
  currency = 1;
  service_total_minor = 600;
  items = record { service_id = 8; duration_minutes = 30; price_minor = 600; currency = 1 } ∷ [];
  completed_at = some 9;
  cancelled_at = none;
  cancel_disposition = none;
}

abbrev shop : CheckoutDb
shop = record {
  sessions = haircut ∷ [];
  inventory = record {
    branches = record { id = 3; organization_id = 7 } ∷ [];
    variants =
        record {
          id = 21;
          organization_id = 7;
          product = record { id = 20; currency = 1; track_inventory = true; archived = false };
          selling_price_minor = 200;
          archived = false;
        }
        ∷ [];
    rows =
        record {
          branch_id = 3;
          product_variant_id = 21;
          quantity_on_hand = pos 5;
          reorder_level = 0;
        }
        ∷ [];
    movements = [];
  };
  staff_profiles = [];
  customers = [];
  checkouts = [];
}

abbrev bottles : List CheckoutProductItem
bottles = record { product_variant_id = 21; quantity = 2 } ∷ []

abbrev fifth : CreateCheckoutAdjustment
fifth = record { type = discount; amount_minor = 200 }

abbrev db_and : Outcome (CheckoutDb × CheckoutRecord) → CheckoutDb
db_and (ok p) = p.0
db_and (throws e) = shop

abbrev checkout_and : Outcome (CheckoutDb × CheckoutRecord) → CheckoutRecord
checkout_and (ok p) = p.1
checkout_and (throws e) = new_checkout 0 0 0 none 0 0 0 []

abbrev db_after : Outcome CheckoutDb → CheckoutDb
db_after (ok db) = db
db_after (throws e) = shop

abbrev no_payments : ℕ → ℕ
no_payments _ = 0

abbrev created : Outcome (CheckoutDb × CheckoutRecord)
created = create cashier 30 bottles 50 shop shop

abbrev discounted : CheckoutDb
discounted =
    db_after (add_adjustment cashier no_payments 50 fifth (db_and created) (db_and created))

created_ok : created ≡ ok (db_and created, checkout_and created)
unfolding find_first count_where update_where ◌+ℤ◌ ◌-ℤ◌ sum_minor_amounts sum_minor_from
    assert_safe_money_amount assert_membership_has_branch_access find_owned_variant has_duplicate
    snapshot_item snapshot_items validate_and_snapshot_product_items session_lines insert_checkout
    check_prices total_lines create load_owned_checkout add_adjustment
created_ok = refl

discounted_ok :
    add_adjustment cashier no_payments 50 fifth (db_and created) (db_and created) ≡ ok discounted
unfolding find_first count_where update_where ◌+ℤ◌ ◌-ℤ◌ sum_minor_amounts sum_minor_from
    assert_safe_money_amount assert_membership_has_branch_access find_owned_variant has_duplicate
    snapshot_item snapshot_items validate_and_snapshot_product_items session_lines insert_checkout
    check_prices total_lines create load_owned_checkout add_adjustment
discounted_ok = refl

discounted_total : map (λ c. c.total_minor) discounted.checkouts ≡ pos 800 ∷ []
unfolding find_first count_where update_where ◌+ℤ◌ ◌-ℤ◌ sum_minor_amounts sum_minor_from
    assert_safe_money_amount assert_membership_has_branch_access find_owned_variant has_duplicate
    snapshot_item snapshot_items validate_and_snapshot_product_items session_lines insert_checkout
    check_prices total_lines create load_owned_checkout add_adjustment
discounted_total = refl

created_twice :
    create cashier 30 [] 51 (db_and created) (db_and created)
    ≡ throws (conflict checkout_already_exists)
unfolding find_first count_where update_where ◌+ℤ◌ ◌-ℤ◌ sum_minor_amounts sum_minor_from
    assert_safe_money_amount assert_membership_has_branch_access find_owned_variant has_duplicate
    snapshot_item snapshot_items validate_and_snapshot_product_items session_lines insert_checkout
    check_prices total_lines create load_owned_checkout add_adjustment
created_twice = refl

run : Reachable shop (discounted ∷ db_and created ∷ shop ∷ []) discounted
run =
    next (next here (step_create cashier 30 bottles 50 shop (checkout_and created) created_ok))
      (step_adjustment cashier no_payments 50 fifth (db_and created) (Memᴰ.head refl) discounted_ok)

Reachable-IsTotalled_example : All IsTotalled discounted.checkouts
Reachable-IsTotalled_example =
    Reachable-IsTotalled shop (discounted ∷ db_and created ∷ shop ∷ []) discounted refl run
