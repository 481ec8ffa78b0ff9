-- ===== src/Checkouts/Lines.antt =====
-- `validateAndSnapshotProductItems` of checkouts.service.ts, and the lines of a checkout.
use kora_os.Common.{
  ℕ, suc, ◌*◌, Bool, false, not, ◌&&◌, ◌||◌, none, some, List, [], ◌∷◌, ◌==◌, map, any, Outcome, ok,
  bad_request, conflict, plain, insufficient_stock, ◌>>=◌, ◌>>◌, throw_if,
}
use kora_os.Common.Int.{pos, ltb_ℤ}
use kora_os.Money.{integer, assert_safe_money_amount}
use kora_os.Inventory.Stock.{ProductVariant, Inventory, on_hand, find_owned_variant}
use kora_os.Transactions.{line_service, line_product}
use kora_os.Visits.Schema.{ServiceItem}
use kora_os.Checkouts.Schema.{CheckoutLineItem}

pub record CheckoutProductItem : Type 0 where
  pub product_variant_id : ℕ
  pub quantity : ℕ

unfoldable pub has_duplicate : List CheckoutProductItem → Bool
has_duplicate [] = false
has_duplicate (item ∷ items) =
    any (λ i. i.product_variant_id == item.product_variant_id) items || has_duplicate items

abbrev pub product_line : ProductVariant → ℕ → ℕ → CheckoutLineItem
product_line variant quantity order = record {
  kind = line_product;
  service_id = none;
  staff_profile_id = none;
  product_id = some variant.product.id;
  product_variant_id = some variant.id;
  quantity = quantity;
  unit_price_minor_snapshot = variant.selling_price_minor;
  price_minor_snapshot = variant.selling_price_minor * quantity;
  currency_snapshot = variant.product.currency;
  display_order = order;
}

-- One item; the stock is tested without a lock.
unfoldable pub snapshot_item :
    ℕ → ℕ → Inventory → ℕ → CheckoutProductItem → Outcome CheckoutLineItem
snapshot_item organization_id branch_id inventory order item = do
  variant ← find_owned_variant organization_id item.product_variant_id inventory
  throw_if
      (variant.product.track_inventory
        && ltb_ℤ (on_hand branch_id variant.id inventory.rows) (pos item.quantity))
      (conflict insufficient_stock)
  assert_safe_money_amount (integer (pos variant.selling_price_minor)) 0
  assert_safe_money_amount (integer (pos (variant.selling_price_minor * item.quantity))) 0
  ok (product_line variant item.quantity order)

-- The lines take their display order from the given number on.
unfoldable pub snapshot_items :
    ℕ → ℕ → Inventory → ℕ → List CheckoutProductItem → Outcome (List CheckoutLineItem)
snapshot_items organization_id branch_id inventory order [] = ok []
snapshot_items organization_id branch_id inventory order (item ∷ items) = do
  line ← snapshot_item organization_id branch_id inventory order item
  lines ← snapshot_items organization_id branch_id inventory (suc order) items
  ok (line ∷ lines)

unfoldable pub validate_and_snapshot_product_items :
    ℕ → ℕ → Inventory → ℕ → List CheckoutProductItem → Outcome (List CheckoutLineItem)
validate_and_snapshot_product_items organization_id branch_id inventory order items =
    throw_if (has_duplicate items) (bad_request plain)
    >> snapshot_items organization_id branch_id inventory order items

-- The items of a session name its provider.
abbrev pub session_line : ℕ → ℕ → ServiceItem → CheckoutLineItem
session_line staff order item = record {
  kind = line_service;
  service_id = some item.service_id;
  staff_profile_id = some staff;
  product_id = none;
  product_variant_id = none;
  quantity = 1;
  unit_price_minor_snapshot = item.price_minor;
  price_minor_snapshot = item.price_minor;
  currency_snapshot = item.currency;
  display_order = order;
}

unfoldable pub session_lines : ℕ → ℕ → List ServiceItem → List CheckoutLineItem
session_lines staff order [] = []
session_lines staff order (item ∷ items) =
    session_line staff order item ∷ session_lines staff (suc order) items

abbrev pub prices : List CheckoutLineItem → List ℕ
prices lines = map (λ l. l.price_minor_snapshot) lines

abbrev pub has_other_currency : ℕ → List CheckoutLineItem → Bool
has_other_currency currency lines = any (λ l. not (l.currency_snapshot == currency)) lines
