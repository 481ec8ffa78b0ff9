-- ===== src/Inventory/Stock.antt =====
-- branch-inventory.service.ts: receiving, adjusting and the movements of a sale or of its
-- correction. A serializable transaction is a function of the tables that it runs on, and the retries
-- after a serialization failure run it again; the movement of a sale runs in its caller's transaction,
-- whose reads can be older than the tables that it writes. The returned views and audit rows are left
-- out.
use kora_os.Common.{
  ℕ, Bool, not, ◌&&◌, ◌||◌, Option, none, some, List, [], ◌∷◌, ◌++◌, ◌==◌, is_some, if◌then◌else◌,
  Outcome, ok, bad_request, not_found, plain, ◌>>=◌, ◌>>◌, throw_if, or_throw,
}
use kora_os.Common.Int.{ℤ, pos, ◌+ℤ◌, ltb_ℤ, same_ℤ}
use kora_os.Common.Store.{find_first, update_where}

pub data InventoryMovementType : Type 0 where
  stock_received manual_adjustment sale_movement sale_reversal return_movement :
      InventoryMovementType

pub record Product : Type 0 where
  pub id : ℕ
  pub currency : ℕ
  pub track_inventory : Bool
  pub archived : Bool

pub record ProductVariant : Type 0 where
  pub id : ℕ
  pub organization_id : ℕ
  pub product : Product
  pub selling_price_minor : ℕ
  pub archived : Bool

pub record BranchInventory : Type 0 where
  pub branch_id : ℕ
  pub product_variant_id : ℕ
  pub quantity_on_hand : ℤ
  pub reorder_level : ℕ

pub record InventoryMovement : Type 0 where
  pub branch_id : ℕ
  pub product_variant_id : ℕ
  pub type : InventoryMovementType
  pub quantity_delta : ℤ
  pub quantity_before : ℤ
  pub quantity_after : ℤ
  pub actor_membership_id : ℕ

pub record Branch : Type 0 where
  pub id : ℕ
  pub organization_id : ℕ

pub record Inventory : Type 0 where
  pub branches : List Branch
  pub variants : List ProductVariant
  pub rows : List BranchInventory
  pub movements : List InventoryMovement

pub record InventoryActor : Type 0 where
  pub organization_id : ℕ
  pub branch_id : ℕ
  pub actor_membership_id : ℕ

pub record SaleMovementParams : Type 0 where
  pub organization_id : ℕ
  pub branch_id : ℕ
  pub product_variant_id : ℕ
  pub type : InventoryMovementType
  pub quantity_delta : ℤ
  pub actor_membership_id : ℕ

unfoldable pub assert_branch_owned_by_organization : ℕ → ℕ → Inventory → Outcome (Unit {0})
assert_branch_owned_by_organization organization_id branch_id inventory =
    throw_if
      (not (
        is_some (
          find_first (λ b. b.id == branch_id && b.organization_id == organization_id)
            inventory.branches)))
      not_found

-- `findOwnedVariant`, and the same lookup inside a transaction.
unfoldable pub find_owned_variant : ℕ → ℕ → Inventory → Outcome ProductVariant
find_owned_variant organization_id variant_id inventory = do
  variant ←
      or_throw
        (find_first (λ v. v.id == variant_id && v.organization_id == organization_id)
          inventory.variants)
        not_found
  throw_if (variant.archived || variant.product.archived) not_found
  ok variant

abbrev pub is_row : ℕ → ℕ → BranchInventory → Bool
is_row branch_id variant_id row = row.branch_id == branch_id && row.product_variant_id == variant_id

abbrev pub new_row : ℕ → ℕ → ℕ → BranchInventory
new_row branch_id variant_id level = record {
  branch_id = branch_id;
  product_variant_id = variant_id;
  quantity_on_hand = pos 0;
  reorder_level = level;
}

-- `branchInventory.upsert` by the unique pair of branch and variant.
unfoldable pub upsert :
    ℕ → ℕ → ℕ → (BranchInventory → BranchInventory) → List BranchInventory → List BranchInventory
upsert branch_id variant_id level update rows =
    if is_some (find_first (is_row branch_id variant_id) rows)
    then update_where (is_row branch_id variant_id) update rows
    else rows ++ new_row branch_id variant_id level ∷ []

abbrev pub quantity_of : Option BranchInventory → ℤ
quantity_of none = pos 0
quantity_of (some row) = row.quantity_on_hand

abbrev pub with_quantity : ℤ → BranchInventory → BranchInventory
with_quantity quantity row = record row { quantity_on_hand = quantity }

abbrev pub with_reorder_level : ℕ → BranchInventory → BranchInventory
with_reorder_level level row = record row { reorder_level = level }

abbrev pub ensured : ℕ → ℕ → List BranchInventory → List BranchInventory
ensured branch_id variant_id rows = upsert branch_id variant_id 0 (λ row. row) rows

abbrev pub on_hand : ℕ → ℕ → List BranchInventory → ℤ
on_hand branch_id variant_id rows = quantity_of (find_first (is_row branch_id variant_id) rows)

abbrev pub moved_inventory :
    ℕ → ℕ → InventoryMovementType → ℤ → ℕ → List BranchInventory → ℤ → Inventory → Inventory
moved_inventory branch_id variant_id type delta actor rows before inventory = record inventory {
  rows = update_where (is_row branch_id variant_id) (with_quantity (before +ℤ delta)) rows;
  movements =
      record {
        branch_id = branch_id;
        product_variant_id = variant_id;
        type = type;
        quantity_delta = delta;
        quantity_before = before;
        quantity_after = before +ℤ delta;
        actor_membership_id = actor;
      }
      ∷ inventory.movements;
}

-- What `mutateStock` and `applySaleMovement` do once the variant is found. The quantity is the one
-- that the upsert has read in `before`; the row and the movement are written in `inventory`.
unfoldable pub write_stock :
    ℕ → ℕ → InventoryMovementType → ℤ → ℕ → Inventory → Inventory → Outcome Inventory
write_stock branch_id variant_id type delta actor before inventory =
    let read = on_hand branch_id variant_id (ensured branch_id variant_id before.rows) in
    throw_if (ltb_ℤ (read +ℤ delta) (pos 0)) (bad_request plain)
    >> ok (
        moved_inventory branch_id variant_id type delta actor
          (ensured branch_id variant_id inventory.rows) read inventory)

-- The same in a serializable transaction, where nothing comes between the read and the write.
unfoldable pub move_stock : ℕ → ℕ → InventoryMovementType → ℤ → ℕ → Inventory → Outcome Inventory
unfolding write_stock
move_stock branch_id variant_id type delta actor inventory =
    write_stock branch_id variant_id type delta actor inventory inventory

unfoldable pub mutate_stock :
    InventoryActor → ℕ → InventoryMovementType → ℤ → Inventory → Outcome Inventory
mutate_stock actor variant_id type delta inventory = do
  assert_branch_owned_by_organization actor.organization_id actor.branch_id inventory
  variant ← find_owned_variant actor.organization_id variant_id inventory
  throw_if (not variant.product.track_inventory) (bad_request plain)
  move_stock actor.branch_id variant.id type delta actor.actor_membership_id inventory

unfoldable pub receive : InventoryActor → ℕ → ℕ → Inventory → Outcome Inventory
unfolding mutate_stock
receive actor variant_id quantity inventory =
    mutate_stock actor variant_id stock_received (pos quantity) inventory

unfoldable pub adjust : InventoryActor → ℕ → ℤ → Inventory → Outcome Inventory
unfolding mutate_stock
adjust actor variant_id delta inventory =
    throw_if (same_ℤ delta (pos 0)) (bad_request plain)
    >> mutate_stock actor variant_id manual_adjustment delta inventory

unfoldable pub update_reorder_level : InventoryActor → ℕ → ℕ → Inventory → Outcome Inventory
update_reorder_level actor variant_id level inventory = do
  assert_branch_owned_by_organization actor.organization_id actor.branch_id inventory
  variant ← find_owned_variant actor.organization_id variant_id inventory
  throw_if (not variant.product.track_inventory) (bad_request plain)
  ok (record inventory {
    rows = upsert actor.branch_id variant.id level (with_reorder_level level) inventory.rows;
  })

-- Nothing is written for a product whose stock is not tracked. The caller's transaction is not
-- serializable: `before` are the tables that its reads see, `inventory` those that it writes.
unfoldable pub apply_sale_movement : SaleMovementParams → Inventory → Inventory → Outcome Inventory
apply_sale_movement params before inventory =
    find_owned_variant params.organization_id params.product_variant_id before >>= λ variant.
    if variant.product.track_inventory
    then write_stock params.branch_id variant.id params.type params.quantity_delta
        params.actor_membership_id before inventory
    else ok inventory
