-- ===== src/Inventory/Ledger.antt =====
-- branch-inventory.service.ts: what a movement does to the stock and to its ledger.
use kora_os.Common.{
  throw_if-eq-ok, ok-injective, ℕ, ◌≡◌, refl, sym, ap, ◌∙◌, subst, Bool, true, false, ◌&&◌, Option,
  none, some, List, ◌∷◌, ◌==◌, if◌then◌else◌, Outcome, ok, throws, bad_request, plain, ◌>>◌,
  throw_if, arith,
}
use kora_os.Common.Int.{ℤ, pos, ◌+ℤ◌, ◌≤ℤ◌, ltb_ℤ}
use kora_os.Common.Store.{update_where}
use kora_os.Inventory.Stock.{
  InventoryMovementType, InventoryMovement, BranchInventory, Inventory, is_row, with_quantity,
  ensured, on_hand, moved_inventory, write_stock, move_stock,
}
use kora_os.Inventory.Rows.{on_hand-upsert, ensured-HasRow, same_key, on_hand-with_quantity}

-- The stock of a branch as an integer for each variant, and a movement of it.
abbrev pub moved_quantity : ℕ → ℕ → ℤ → (ℕ → ℕ → ℤ) → ℕ → ℕ → ℤ
moved_quantity branch variant delta stock b v =
    if branch == b && variant == v then stock b v +ℤ delta else stock b v

abbrev pub stock_of : Inventory → ℕ → ℕ → ℤ
stock_of inventory b v = on_hand b v inventory.rows

-- The movement of a stock that is an integer for each branch and variant: refused below zero.
abbrev pub move : ℕ → ℕ → ℤ → (ℕ → ℕ → ℤ) → Option (ℕ → ℕ → ℤ)
move branch variant delta stock =
    if ltb_ℤ (stock branch variant +ℤ delta) (pos 0)
    then none
    else some (moved_quantity branch variant delta stock)

abbrev pub committed : Outcome Inventory → Option (ℕ → ℕ → ℤ)
committed (ok after) = some (stock_of after)
committed (throws e) = none

-- The rows of the stock, which are created when they are first needed, implement a map from branches
-- and variants to integers: a movement is refused exactly when it would take its variant's stock in
-- its branch below zero, and otherwise it changes that stock by the movement's quantity and no other
-- stock.
pub move_stock-refines :
    (branch variant : ℕ) (type : InventoryMovementType) (delta : ℤ) (actor : ℕ)
    (inventory : Inventory)
    → committed (move_stock branch variant type delta actor inventory)
      ≡ move branch variant delta (stock_of inventory)
unfolding move_stock write_stock
move_stock-refines branch variant type delta actor inventory =
    go (ltb_ℤ (before +ℤ delta) (pos 0))
    ∙ ap (λ q. if ltb_ℤ (q +ℤ delta) (pos 0) then none else some moved) (unchanged branch variant)
  where
    rows : List BranchInventory
    rows = ensured branch variant inventory.rows

    before : ℤ
    before = on_hand branch variant rows

    moved : ℕ → ℕ → ℤ
    moved = moved_quantity branch variant delta (stock_of inventory)

    unchanged : (b v : ℕ) → on_hand b v rows ≡ on_hand b v inventory.rows
    unchanged b v = on_hand-upsert b v branch variant 0 (λ r. r) (λ r. (refl, refl)) inventory.rows

    at_key :
        (b v : ℕ) (t : Bool)
        → (branch == b && variant == v) ≡ t
        → (if t then before +ℤ delta else on_hand b v rows)
          ≡ (if t then on_hand b v inventory.rows +ℤ delta else on_hand b v inventory.rows)
    at_key b v true e =
        let (same_b, same_v) = same_key branch variant b v e in
        ap (λ q. q +ℤ delta)
          (unchanged branch variant
            ∙ sym (ap (λ x. on_hand x variant inventory.rows) same_b)
            ∙ sym (ap (λ x. on_hand b x inventory.rows) same_v))
    at_key b v false e = unchanged b v

    changed :
        (b v : ℕ)
        → on_hand b v (update_where (is_row branch variant) (with_quantity (before +ℤ delta)) rows)
          ≡ moved b v
    changed b v =
        on_hand-with_quantity branch variant (before +ℤ delta) b v rows
          (ensured-HasRow branch variant inventory.rows)
        ∙ at_key b v (branch == b && variant == v) refl

    go :
        (t : Bool)
        → committed (
            throw_if t (bad_request plain)
            >> ok (moved_inventory branch variant type delta actor rows before inventory))
          ≡ (if t then none else some moved)
    go true = refl
    go false = ap some (λ i b v. changed b v i)

abbrev pub movement_of : ℕ → ℕ → InventoryMovementType → ℤ → ℕ → ℤ → InventoryMovement
movement_of branch variant type delta actor before = record {
  branch_id = branch;
  product_variant_id = variant;
  type = type;
  quantity_delta = delta;
  quantity_before = before;
  quantity_after = before +ℤ delta;
  actor_membership_id = actor;
}

-- What is on hand once one quantity is written.
abbrev pub written : ℕ → ℕ → ℤ → (ℕ → ℕ → ℤ) → ℕ → ℕ → ℤ
written branch variant q stock b v = if branch == b && variant == v then q else stock b v

-- A movement whose quantity was read in `before`, written in `inventory`.
abbrev pub IsWritten :
    ℕ → ℕ → InventoryMovementType → ℤ → ℕ → Inventory → Inventory → Inventory → Type 0
IsWritten branch variant type delta actor before inventory after =
    (pos 0 ≤ℤ stock_of before branch variant +ℤ delta)
    × ((b v : ℕ)
        → stock_of after b v
          ≡ written branch variant (stock_of before branch variant +ℤ delta) (stock_of inventory) b
              v)
    × (after.movements
        ≡ movement_of branch variant type delta actor (stock_of before branch variant)
          ∷ inventory.movements)

pub write_stock-IsWritten :
    (branch variant : ℕ) (type : InventoryMovementType) (delta : ℤ) (actor : ℕ)
    (before inventory after : Inventory)
    → write_stock branch variant type delta actor before inventory ≡ ok after
    → IsWritten branch variant type delta actor before inventory after
unfolding write_stock
write_stock-IsWritten branch variant type delta actor before inventory after h =
    let (enough, h1) =
      throw_if-eq-ok
        (ltb_ℤ (on_hand branch variant (ensured branch variant before.rows) +ℤ delta) (pos 0)) _ _
        h in
    (
      subst (λ q. pos 0 ≤ℤ q +ℤ delta) (read before) (ground (arith, enough)),
      (λ b v.
          sym (ap (λ i. stock_of i b v) (ok-injective h1))
          ∙ on_hand-with_quantity branch variant _ b v (ensured branch variant inventory.rows)
              (ensured-HasRow branch variant inventory.rows)
          ∙ key b v (branch == b && variant == v)),
      sym (ap (λ i. i.movements) (ok-injective h1))
          ∙ ap (λ q. movement_of branch variant type delta actor q ∷ inventory.movements)
              (read before),
    )
  where
    unchanged :
        (i : Inventory) (b v : ℕ) → on_hand b v (ensured branch variant i.rows) ≡ stock_of i b v
    unchanged i b v = on_hand-upsert b v branch variant 0 (λ r. r) (λ r. (refl, refl)) i.rows

    read :
        (i : Inventory)
        → on_hand branch variant (ensured branch variant i.rows) ≡ stock_of i branch variant
    read i = unchanged i branch variant

    key :
        (b v : ℕ) (t : Bool)
        → (if t
            then on_hand branch variant (ensured branch variant before.rows) +ℤ delta
            else on_hand b v (ensured branch variant inventory.rows))
          ≡ (if t then stock_of before branch variant +ℤ delta else stock_of inventory b v)
    key b v true = ap (λ q. q +ℤ delta) (read before)
    key b v false = unchanged inventory b v
