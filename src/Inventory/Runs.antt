-- ===== src/Inventory/Runs.antt =====
-- Runs of the operations on the stock. Receiving and adjusting run in serializable transactions; the
-- movement of a sale or of its correction reads and writes in its caller's transaction, between whose
-- statements others commit.
use mathlib.Core.List.{Memᴰ}
use kora_os.Common.{
  ℕ, ◌≡◌, refl, sym, ap, ◌∙◌, subst, Bool, true, false, not, ◌&&◌, ◌||◌, List, [], ◌∷◌, ◌==◌,
  if◌then◌else◌, ok, not_found, >>-eq-ok, >>=-eq-ok, throw_if-eq-ok, bind_or_throw-eq-ok,
  ok-injective, arith,
}
use kora_os.Common.Int.{ℤ, pos, ◌+ℤ◌, ◌≤ℤ◌, same_ℤ, int_laws}
use kora_os.Common.Store.{find_first, find_first-All}
use kora_os.Common.Rows.{All-trivial}
use kora_os.Inventory.Stock.{
  InventoryMovementType, stock_received, manual_adjustment, ProductVariant, Branch, Inventory,
  InventoryActor, SaleMovementParams, assert_branch_owned_by_organization, find_owned_variant,
  with_reorder_level, on_hand, upsert, write_stock, move_stock, mutate_stock, receive, adjust,
  update_reorder_level, apply_sale_movement,
}
use kora_os.Inventory.Rows.{on_hand-upsert}
use kora_os.Inventory.Ledger.{stock_of, IsWritten, write_stock-IsWritten}
use kora_os.Inventory.Balance.{net, latest, missed, IsHistory, IsRecorded, IsWritten-IsRecorded}

-- Whether the upsert of `applySaleMovement`, whose update is empty, locks the row that it reads, so that
-- the row is the same where it is written. The client library and the database decide this.
abbrev pub IsLocked : Bool → SaleMovementParams → Inventory → Inventory → Type 0
IsLocked false params before inventory = Unit
IsLocked true params before inventory =
    stock_of before params.branch_id params.product_variant_id
    ≡ stock_of inventory params.branch_id params.product_variant_id

-- `Step locks log inventory after`: an operation that was accepted, or a change of the catalogue or of
-- the branches, which leaves the stock alone; a sale reads any one of the databases of the run so far.
pub data Step (locks : Bool) (log : List Inventory) (inventory after : Inventory) : Type 0 where
  step_receive :
      (actor : InventoryActor) (variant quantity : ℕ)
      → receive actor variant quantity inventory ≡ ok after
      → Step locks log inventory after
  step_adjust :
      (actor : InventoryActor) (variant : ℕ) (delta : ℤ)
      → adjust actor variant delta inventory ≡ ok after
      → Step locks log inventory after
  step_reorder_level :
      (actor : InventoryActor) (variant level : ℕ)
      → update_reorder_level actor variant level inventory ≡ ok after
      → Step locks log inventory after
  step_sale :
      (params : SaleMovementParams) (before : Inventory)
      → Memᴰ before log
      → IsLocked locks params before inventory
      → apply_sale_movement params before inventory ≡ ok after
      → Step locks log inventory after
  step_catalogue :
      (branches : List Branch) (variants : List ProductVariant)
      → record inventory { branches = branches; variants = variants } ≡ after
      → Step locks log inventory after

pub data Reachable (locks : Bool) (init : Inventory) : List Inventory → Inventory → Type 0 where
  opening : Reachable locks init (init ∷ []) init
  next :
      {log : List Inventory} {inventory after : Inventory}
      → Reachable locks init log inventory
      → Step locks log inventory after
      → Reachable locks init (after ∷ log) after

-- What an accepted operation does to the stock: nothing, or one movement, read where it is written
-- unless a sale's read is not locked.
data Change (locks : Bool) (inventory after : Inventory) : Type 0 where
  keeps :
      ((b v : ℕ) → stock_of after b v ≡ stock_of inventory b v)
      → after.movements ≡ inventory.movements
      → Change locks inventory after
  moves :
      (branch variant : ℕ) (type : InventoryMovementType) (delta : ℤ) (actor : ℕ)
      (before : Inventory)
      → (locks ≡ true → stock_of before branch variant ≡ stock_of inventory branch variant)
      → IsWritten branch variant type delta actor before inventory after
      → Change locks inventory after

of_equal :
    (locks : Bool) (inventory after : Inventory) → inventory ≡ after → Change locks inventory after
of_equal locks inventory after e =
    keeps (λ b v. ap (λ i. stock_of i b v) (sym e)) (ap (λ i. i.movements) (sym e))

mutate_stock-Change :
    (locks : Bool) (actor : InventoryActor) (variant_id : ℕ) (type : InventoryMovementType)
    (delta : ℤ) (inventory after : Inventory)
    → mutate_stock actor variant_id type delta inventory ≡ ok after
    → Change locks inventory after
unfolding mutate_stock move_stock
mutate_stock-Change locks actor variant_id type delta inventory after h =
    let (_, h1) =
      >>-eq-ok (assert_branch_owned_by_organization actor.organization_id actor.branch_id inventory)
        _ h in
    let (variant, _, h2) =
      >>=-eq-ok (find_owned_variant actor.organization_id variant_id inventory) _ h1 in
    let (_, h3) = throw_if-eq-ok (not variant.product.track_inventory) _ _ h2 in
    moves actor.branch_id variant.id type delta _ inventory (λ _. refl)
      (write_stock-IsWritten actor.branch_id variant.id type delta _ inventory inventory after h3)

find_owned_variant-id :
    (organization id : ℕ) (inventory : Inventory) (variant : ProductVariant)
    → find_owned_variant organization id inventory ≡ ok variant
    → variant.id ≡ id
unfolding find_owned_variant
find_owned_variant-id organization id inventory variant h =
    let (found, is_found, h1) =
      bind_or_throw-eq-ok
        (find_first (λ v. v.id == id && v.organization_id == organization) inventory.variants)
        not_found _ h in
    let (_, h2) = throw_if-eq-ok (found.archived || found.product.archived) _ _ h1 in
    let (_, hit) =
      find_first-All (λ v. Unit {0}) (λ v. v.id == id && v.organization_id == organization)
        inventory.variants found is_found (All-trivial inventory.variants) in
    subst (λ v. v.id ≡ id) (ok-injective h2) (ground arith)

apply_sale_movement-Change :
    (locks : Bool) (params : SaleMovementParams) (before inventory after : Inventory)
    → IsLocked locks params before inventory
    → apply_sale_movement params before inventory ≡ ok after
    → Change locks inventory after
unfolding apply_sale_movement
apply_sale_movement-Change locks params before inventory after locked h =
    let (variant, owned, h1) =
      >>=-eq-ok (find_owned_variant params.organization_id params.product_variant_id before) _ h in
    go variant
      (find_owned_variant-id params.organization_id params.product_variant_id before variant owned)
      variant.product.track_inventory h1
  where
    read :
        (l : Bool)
        → IsLocked l params before inventory
        → l ≡ true
        → stock_of before params.branch_id params.product_variant_id
          ≡ stock_of inventory params.branch_id params.product_variant_id
    read true e y = e
    read false e y = cc

    go :
        (variant : ProductVariant)
        → variant.id ≡ params.product_variant_id
        → (t : Bool)
        → (if t
            then write_stock params.branch_id variant.id params.type params.quantity_delta
                params.actor_membership_id before inventory
            else ok inventory)
          ≡ ok after
        → Change locks inventory after
    go variant same true e =
        moves params.branch_id variant.id params.type params.quantity_delta _ before
          (λ y.
            subst (λ v. stock_of before params.branch_id v ≡ stock_of inventory params.branch_id v)
              (sym same) (read locks locked y))
          (write_stock-IsWritten _ _ _ _ _ before inventory after e)
    go variant same false e = of_equal locks inventory after (ok-injective e)

update_reorder_level-Change :
    (locks : Bool) (actor : InventoryActor) (variant_id level : ℕ) (inventory after : Inventory)
    → update_reorder_level actor variant_id level inventory ≡ ok after
    → Change locks inventory after
unfolding update_reorder_level
update_reorder_level-Change locks actor variant_id level inventory after h =
    let (_, h1) =
      >>-eq-ok (assert_branch_owned_by_organization actor.organization_id actor.branch_id inventory)
        _ h in
    let (variant, _, h2) =
      >>=-eq-ok (find_owned_variant actor.organization_id variant_id inventory) _ h1 in
    let (_, h3) = throw_if-eq-ok (not variant.product.track_inventory) _ _ h2 in
    let same : (b v : ℕ)
        → on_hand b v
            (upsert actor.branch_id variant.id level (with_reorder_level level) inventory.rows)
          ≡ on_hand b v inventory.rows =
      λ b v.
        on_hand-upsert b v actor.branch_id variant.id level (with_reorder_level level)
          (λ r. (refl, refl)) inventory.rows in
    keeps (λ b v. sym (ap (λ i. stock_of i b v) (ok-injective h3)) ∙ same b v)
      (sym (ap (λ i. i.movements) (ok-injective h3)))

Step-Change :
    (locks : Bool) (log : List Inventory) (inventory after : Inventory)
    → Step locks log inventory after
    → Change locks inventory after
unfolding receive adjust
Step-Change locks log inventory after (step_receive actor variant quantity h) =
    mutate_stock-Change locks actor variant stock_received (pos quantity) inventory after h
Step-Change locks log inventory after (step_adjust actor variant delta h) =
    let (_, h1) = throw_if-eq-ok (same_ℤ delta (pos 0)) _ _ h in
    mutate_stock-Change locks actor variant manual_adjustment delta inventory after h1
Step-Change locks log inventory after (step_reorder_level actor variant level h) =
    update_reorder_level-Change locks actor variant level inventory after h
Step-Change locks log inventory after (step_sale params before m locked h) =
    apply_sale_movement-Change locks params before inventory after locked h
Step-Change locks log inventory after (step_catalogue branches variants h) =
    keeps (λ b v. sym (ap (λ i. stock_of i b v) h)) (sym (ap (λ i. i.movements) h))

Change-IsRecorded :
    (locks : Bool) (inventory after : Inventory)
    → IsRecorded inventory
    → Change locks inventory after
    → IsRecorded after
Change-IsRecorded locks inventory after i (moves branch variant type delta actor before _ w) =
    IsWritten-IsRecorded branch variant type delta actor before inventory after i w
Change-IsRecorded locks inventory after i (keeps same logged) = record {
  recorded = λ b v. same b v ∙ i.recorded b v ∙ sym (ap (latest b v) logged);
  covered = λ b v. subst (λ q. pos 0 ≤ℤ q) (sym (same b v)) (i.covered b v);
  accounted = λ b v.
      ap (net b v) logged
      ∙ i.accounted b v
      ∙ ap (λ q. q +ℤ missed b v inventory.movements) (sym (same b v))
      ∙ ap (λ ms. stock_of after b v +ℤ missed b v ms) (sym logged);
  history = subst IsHistory (sym logged) i.history;
}

empty-IsRecorded : (init : Inventory) → init.rows ≡ [] → init.movements ≡ [] → IsRecorded init
unfolding net latest missed find_first
empty-IsRecorded init rows movements = record {
  recorded = λ b v. rw (rows, movements) refl;
  covered = λ b v. rw rows (ground arith);
  accounted = λ b v. rw (rows, movements) (grind int_laws);
  history = rw movements tt;
}

-- From an empty stock on, whatever is received, adjusted, sold and returned, where the movement of a
-- sale may have read the stock in any database of the run so far, however old: the quantity on hand of
-- each variant in each branch is the one that its newest movement has left, and never negative; and the
-- sum of its movements is this quantity and exactly what the reads of its movements have missed.
pub Reachable-IsRecorded :
    (locks : Bool) (init : Inventory) (log : List Inventory) (inventory : Inventory)
    → init.rows ≡ []
    → init.movements ≡ []
    → Reachable locks init log inventory
    → IsRecorded inventory
Reachable-IsRecorded locks init _ inventory rows movements opening =
    empty-IsRecorded init rows movements
Reachable-IsRecorded locks init _ after rows movements (next {log} {inventory} r s) =
    Change-IsRecorded locks inventory after
      (Reachable-IsRecorded locks init log inventory rows movements r)
      (Step-Change locks log inventory after s)
