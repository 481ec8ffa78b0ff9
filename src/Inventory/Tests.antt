-- ===== src/Inventory/Tests.antt =====
-- A branch that receives five bottles, sells two, and takes one back; selling seven is refused. Two sales
-- of all five that read the stock at the same time are both accepted.
use mathlib.Core.List.{Memᴰ}
use kora_os.Common.{◌≡◌, refl, true, false, [], ◌∷◌, Outcome, ok, throws, bad_request, plain}
use kora_os.Common.Int.{ℤ, pos, negsuc, ◌+ℤ◌}
use kora_os.Common.Store.{find_first, update_where}
use kora_os.Inventory.Stock.{
  InventoryMovementType, sale_movement, return_movement, Inventory, InventoryActor,
  SaleMovementParams, assert_branch_owned_by_organization, find_owned_variant, upsert, write_stock,
  move_stock, mutate_stock, receive, apply_sale_movement,
}
use kora_os.Inventory.Ledger.{stock_of, move, committed, move_stock-refines}
use kora_os.Inventory.Balance.{net, IsRecorded}
use kora_os.Inventory.Runs.{opening, next, step_receive, step_sale, Reachable-IsRecorded}

abbrev keeper : InventoryActor
keeper = record { organization_id = 7; branch_id = 3; actor_membership_id = 1 }

abbrev shop : Inventory
shop = record {
  branches = record { id = 3; organization_id = 7 } ∷ [];
  variants =
      record {
        id = 21;
        organization_id = 7;
        product = record { id = 20; currency = 1; track_inventory = true; archived = false };
        selling_price_minor = 200;
        archived = false;
      }
      ∷ [];
  rows = [];
  movements = [];
}

abbrev bottles : InventoryMovementType → ℤ → SaleMovementParams
bottles type delta = record {
  organization_id = 7;
  branch_id = 3;
  product_variant_id = 21;
  type = type;
  quantity_delta = delta;
  actor_membership_id = 1;
}

abbrev inventory_of : Outcome Inventory → Inventory
inventory_of (ok inventory) = inventory
inventory_of (throws e) = shop

abbrev stocked : Inventory
stocked = inventory_of (receive keeper 21 5 shop)

abbrev sold : Inventory
sold = inventory_of (apply_sale_movement (bottles sale_movement (negsuc 1)) stocked stocked)

abbrev returned : Inventory
returned = inventory_of (apply_sale_movement (bottles return_movement (pos 1)) sold sold)

stocked_ok : receive keeper 21 5 shop ≡ ok stocked
unfolding receive mutate_stock assert_branch_owned_by_organization find_owned_variant move_stock
    write_stock upsert find_first update_where ◌+ℤ◌
stocked_ok = refl

returned_quantity : stock_of returned 3 21 ≡ pos 4
unfolding receive mutate_stock assert_branch_owned_by_organization find_owned_variant move_stock
    write_stock upsert find_first update_where ◌+ℤ◌ apply_sale_movement
returned_quantity = refl

oversold :
    apply_sale_movement (bottles sale_movement (negsuc 6)) stocked stocked
    ≡ throws (bad_request plain)
unfolding receive mutate_stock assert_branch_owned_by_organization find_owned_variant move_stock
    write_stock upsert find_first update_where ◌+ℤ◌ apply_sale_movement
oversold = refl

move_stock-refines_example :
    committed (move_stock 3 21 sale_movement (negsuc 1) 1 stocked)
    ≡ move 3 21 (negsuc 1) (stock_of stocked)
move_stock-refines_example = move_stock-refines 3 21 sale_movement (negsuc 1) 1 stocked

abbrev sold_out : Inventory
sold_out = inventory_of (apply_sale_movement (bottles sale_movement (negsuc 4)) stocked stocked)

abbrev oversold_out : Inventory
oversold_out =
    inventory_of (apply_sale_movement (bottles sale_movement (negsuc 4)) stocked sold_out)

sold_out_ok : apply_sale_movement (bottles sale_movement (negsuc 4)) stocked stocked ≡ ok sold_out
unfolding receive mutate_stock assert_branch_owned_by_organization find_owned_variant move_stock
    write_stock upsert find_first update_where ◌+ℤ◌ apply_sale_movement
sold_out_ok = refl

oversold_out_ok :
    apply_sale_movement (bottles sale_movement (negsuc 4)) stocked sold_out ≡ ok oversold_out
unfolding receive mutate_stock assert_branch_owned_by_organization find_owned_variant move_stock
    write_stock upsert find_first update_where ◌+ℤ◌ apply_sale_movement
oversold_out_ok = refl

-- Nothing is left of the five bottles, of which ten were sold.
oversold_net : (stock_of oversold_out 3 21 ≡ pos 0) × (net 3 21 oversold_out.movements ≡ negsuc 4)
unfolding receive mutate_stock assert_branch_owned_by_organization find_owned_variant move_stock
    write_stock upsert find_first update_where ◌+ℤ◌ apply_sale_movement net
oversold_net = (refl, refl)

Reachable-IsRecorded_example : IsRecorded oversold_out
Reachable-IsRecorded_example =
    Reachable-IsRecorded false shop (oversold_out ∷ sold_out ∷ stocked ∷ shop ∷ []) oversold_out
      refl refl
      (next
        (next (next opening (step_receive keeper 21 5 stocked_ok))
          (step_sale (bottles sale_movement (negsuc 4)) stocked (Memᴰ.head refl) tt sold_out_ok))
        (step_sale (bottles sale_movement (negsuc 4)) stocked (Memᴰ.tail (Memᴰ.head refl)) tt
          oversold_out_ok))
