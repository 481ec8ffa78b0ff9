-- ===== src/Inventory/Balance.antt =====
-- branch-inventory.service.ts: the ledger of the movements, the newest first, and the stock beside it.
use kora_os.Common.{
  ℕ, ◌≡◌, refl, sym, ap, ◌∙◌, subst, Bool, true, false, ◌&&◌, List, [], ◌∷◌, ◌==◌, if◌then◌else◌,
}
use kora_os.Common.Int.{ℤ, pos, ◌+ℤ◌, ◌-ℤ◌, ◌≤ℤ◌, int_laws}
use kora_os.Inventory.Stock.{InventoryMovementType, InventoryMovement, Inventory}
use kora_os.Inventory.Rows.{same_key}
use kora_os.Inventory.Ledger.{stock_of, IsWritten}

abbrev pub moves : ℕ → ℕ → InventoryMovement → Bool
moves b v m = m.branch_id == b && m.product_variant_id == v

-- The sum of the quantities that the movements of one branch and variant have moved.
unfoldable pub net : ℕ → ℕ → List InventoryMovement → ℤ
net b v [] = pos 0
net b v (m ∷ ms) = if moves b v m then net b v ms +ℤ m.quantity_delta else net b v ms

-- The quantity that the newest movement has left.
unfoldable pub latest : ℕ → ℕ → List InventoryMovement → ℤ
latest b v [] = pos 0
latest b v (m ∷ ms) = if moves b v m then m.quantity_after else latest b v ms

-- What the reads of the movements have missed: the quantity that the movement before has left, less
-- the quantity that was read.
unfoldable pub missed : ℕ → ℕ → List InventoryMovement → ℤ
missed b v [] = pos 0
missed b v (m ∷ ms) =
    if moves b v m then missed b v ms +ℤ (latest b v ms -ℤ m.quantity_before) else missed b v ms

-- Each movement leaves what it has read and moved, and that is not negative.
abbrev pub IsHistory : List InventoryMovement → Type 0
IsHistory [] = Unit
IsHistory (m ∷ ms) =
    (m.quantity_after ≡ m.quantity_before +ℤ m.quantity_delta)
    × (pos 0 ≤ℤ m.quantity_after)
    × IsHistory ms

shift : (l m q d : ℤ) → (l +ℤ m) +ℤ d ≡ (q +ℤ d) +ℤ (m +ℤ (l -ℤ q))
shift l m q d = grind int_laws

net-missed :
    (b v : ℕ) (ms : List InventoryMovement)
    → IsHistory ms
    → net b v ms ≡ latest b v ms +ℤ missed b v ms
unfolding net latest missed
net-missed b v [] h = grind int_laws
net-missed b v (m ∷ ms) h = go (moves b v m) (net-missed b v ms h.2)
  where
    go :
        (t : Bool)
        → net b v ms ≡ latest b v ms +ℤ missed b v ms
        → (if t then net b v ms +ℤ m.quantity_delta else net b v ms)
          ≡ (if t then m.quantity_after else latest b v ms)
            +ℤ (if t then missed b v ms +ℤ (latest b v ms -ℤ m.quantity_before) else missed b v ms)
    go true e =
        ap (λ n. n +ℤ m.quantity_delta) e
        ∙ shift (latest b v ms) (missed b v ms) m.quantity_before m.quantity_delta
        ∙ ap (λ q. q +ℤ (missed b v ms +ℤ (latest b v ms -ℤ m.quantity_before))) (sym h.0)
    go false e = e

-- The stock is what the newest movement has left, and never negative; the sum of the movements is the
-- stock and what their reads have missed.
pub record IsRecorded (inventory : Inventory) : Type 0 where
  pub recorded : (b v : ℕ) → stock_of inventory b v ≡ latest b v inventory.movements
  pub covered : (b v : ℕ) → pos 0 ≤ℤ stock_of inventory b v
  pub accounted :
      (b v : ℕ)
      → net b v inventory.movements ≡ stock_of inventory b v +ℤ missed b v inventory.movements
  pub history : IsHistory inventory.movements

pub IsWritten-IsRecorded :
    (branch variant : ℕ) (type : InventoryMovementType) (delta : ℤ) (actor : ℕ)
    (before inventory after : Inventory)
    → IsRecorded inventory
    → IsWritten branch variant type delta actor before inventory after
    → IsRecorded after
unfolding latest
IsWritten-IsRecorded branch variant type delta actor before inventory after i
      (enough, changed, logged) =
    record {
      recorded = now;
      covered = λ b v.
          subst (λ q. pos 0 ≤ℤ q) (sym (changed b v)) (at_least b v (branch == b && variant == v));
      accounted = λ b v.
          net-missed b v after.movements history
          ∙ ap (λ q. q +ℤ missed b v after.movements) (sym (now b v));
      history = history;
    }
  where
    history : IsHistory after.movements
    history = subst IsHistory (sym logged) (refl, enough, i.history)

    left :
        (b v : ℕ) (t : Bool)
        → (if t then stock_of before branch variant +ℤ delta else stock_of inventory b v)
          ≡ (if t then stock_of before branch variant +ℤ delta else latest b v inventory.movements)
    left b v true = refl
    left b v false = i.recorded b v

    now : (b v : ℕ) → stock_of after b v ≡ latest b v after.movements
    now b v = changed b v ∙ left b v (branch == b && variant == v) ∙ sym (ap (latest b v) logged)

    at_least :
        (b v : ℕ) (t : Bool)
        → pos 0 ≤ℤ (if t then stock_of before branch variant +ℤ delta else stock_of inventory b v)
    at_least b v true = enough
    at_least b v false = i.covered b v

-- The stock is the sum of the movements, and each movement starts from the sum of those before it.
abbrev pub IsUnbroken : List InventoryMovement → Type 0
IsUnbroken [] = Unit
IsUnbroken (m ∷ ms) = (m.quantity_before ≡ net m.branch_id m.product_variant_id ms) × IsUnbroken ms

pub record IsBalanced (inventory : Inventory) : Type 0 where
  pub balanced : (b v : ℕ) → stock_of inventory b v ≡ net b v inventory.movements
  pub unbroken : IsUnbroken inventory.movements

-- A movement that was read where it is written.
pub IsWritten-IsBalanced :
    (branch variant : ℕ) (type : InventoryMovementType) (delta : ℤ) (actor : ℕ)
    (before inventory after : Inventory)
    → IsBalanced inventory
    → stock_of before branch variant ≡ stock_of inventory branch variant
    → IsWritten branch variant type delta actor before inventory after
    → IsBalanced after
unfolding net
IsWritten-IsBalanced branch variant type delta actor before inventory after i same
      (_, changed, logged) =
    record {
      balanced = λ b v.
          changed b v ∙ left b v (branch == b && variant == v) refl ∙ sym (ap (net b v) logged);
      unbroken = subst IsUnbroken (sym logged) (same ∙ i.balanced branch variant, i.unbroken);
    }
  where
    left :
        (b v : ℕ) (t : Bool)
        → (branch == b && variant == v) ≡ t
        → (if t then stock_of before branch variant +ℤ delta else stock_of inventory b v)
          ≡ (if t then net b v inventory.movements +ℤ delta else net b v inventory.movements)
    left b v true e =
        let (same_b, same_v) = same_key branch variant b v e in
        ap (λ q. q +ℤ delta)
          (same
            ∙ i.balanced branch variant
            ∙ sym (ap (λ x. net x variant inventory.movements) same_b)
            ∙ sym (ap (λ x. net b x inventory.movements) same_v))
    left b v false e = i.balanced b v
