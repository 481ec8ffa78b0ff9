-- ===== src/Inventory/Rows.antt =====
-- branch-inventory.service.ts: the quantities on hand after an upsert and an update of the rows of
-- the stock.
use kora_os.Common.{
  ℕ, ◌≡◌, refl, ap, ◌∙◌, Bool, true, false, ◌&&◌, some, List, [], ◌∷◌, ◌++◌, ◌==◌, is_some,
  if◌then◌else◌, arith,
}
use kora_os.Common.Int.{ℤ}
use kora_os.Common.Store.{find_first, update_where}
use kora_os.Inventory.Stock.{
  BranchInventory, is_row, new_row, upsert, with_quantity, ensured, on_hand,
}

-- An update that keeps the keys and the quantities keeps what is on hand.
on_hand-update_same :
    (b v : ℕ) (p : BranchInventory → Bool) (f : BranchInventory → BranchInventory)
    → ((r : BranchInventory)
        → (is_row b v (f r) ≡ is_row b v r) × ((f r).quantity_on_hand ≡ r.quantity_on_hand))
    → (rows : List BranchInventory) → on_hand b v (update_where p f rows) ≡ on_hand b v rows
unfolding find_first update_where
on_hand-update_same b v p f same [] = refl
on_hand-update_same b v p f same (r ∷ rs) = go (p r) (same r) (on_hand-update_same b v p f same rs)
  where
    go :
        (t : Bool)
        → (is_row b v (f r) ≡ is_row b v r) × ((f r).quantity_on_hand ≡ r.quantity_on_hand)
        → on_hand b v (update_where p f rs) ≡ on_hand b v rs
        → on_hand b v (if t then f r ∷ update_where p f rs else r ∷ update_where p f rs)
          ≡ on_hand b v (r ∷ rs)
    go true (k, q) rest = ground arith
    go false (k, q) rest = ground arith

on_hand-append_new :
    (b v branch variant level : ℕ) (rows : List BranchInventory)
    → on_hand b v (rows ++ new_row branch variant level ∷ []) ≡ on_hand b v rows
unfolding find_first
on_hand-append_new b v branch variant level [] = ground arith
on_hand-append_new b v branch variant level (r ∷ rs) =
    ground (arith, on_hand-append_new b v branch variant level rs)

pub on_hand-upsert :
    (b v branch variant level : ℕ) (f : BranchInventory → BranchInventory)
    → ((r : BranchInventory)
        → (is_row b v (f r) ≡ is_row b v r) × ((f r).quantity_on_hand ≡ r.quantity_on_hand))
    → (rows : List BranchInventory)
    → on_hand b v (upsert branch variant level f rows) ≡ on_hand b v rows
unfolding upsert
on_hand-upsert b v branch variant level f same rows =
    go (is_some (find_first (is_row branch variant) rows))
  where
    go :
        (t : Bool)
        → on_hand b v (
            if t
            then update_where (is_row branch variant) f rows
            else rows ++ new_row branch variant level ∷ [])
          ≡ on_hand b v rows
    go true = on_hand-update_same b v (is_row branch variant) f same rows
    go false = on_hand-append_new b v branch variant level rows

abbrev pub HasRow : ℕ → ℕ → List BranchInventory → Type 0
HasRow b v rows = is_some (find_first (is_row b v) rows) ≡ true

append_new-HasRow :
    (b v level : ℕ) (rows : List BranchInventory) → HasRow b v (rows ++ new_row b v level ∷ [])
unfolding find_first
append_new-HasRow b v level [] = ground arith
append_new-HasRow b v level (r ∷ rs) = ground (arith, append_new-HasRow b v level rs)

update_where-HasRow :
    (b v : ℕ) (p : BranchInventory → Bool) (f : BranchInventory → BranchInventory)
    → ((r : BranchInventory) → is_row b v (f r) ≡ is_row b v r)
    → (rows : List BranchInventory) → HasRow b v rows
    → HasRow b v (update_where p f rows)
unfolding find_first update_where
update_where-HasRow b v p f same [] h = h
update_where-HasRow b v p f same (r ∷ rs) h =
    ground (arith, same r, update_where-HasRow b v p f same rs)

pub ensured-HasRow : (b v : ℕ) (rows : List BranchInventory) → HasRow b v (ensured b v rows)
unfolding upsert
ensured-HasRow b v rows = go (is_some (find_first (is_row b v) rows)) refl
  where
    go :
        (t : Bool)
        → is_some (find_first (is_row b v) rows) ≡ t
        → HasRow b v
            (if t then update_where (is_row b v) (λ r. r) rows else rows ++ new_row b v 0 ∷ [])
    go true e = update_where-HasRow b v (is_row b v) (λ r. r) (λ r. refl) rows e
    go false e = append_new-HasRow b v 0 rows

on_hand-other :
    (branch variant : ℕ) (q : ℤ) (b v : ℕ)
    → (branch == b && variant == v) ≡ false
    → (rows : List BranchInventory)
    → on_hand b v (update_where (is_row branch variant) (with_quantity q) rows) ≡ on_hand b v rows
unfolding find_first update_where
on_hand-other branch variant q b v other [] = refl
on_hand-other branch variant q b v other (r ∷ rs) =
    go (is_row branch variant r) refl (on_hand-other branch variant q b v other rs)
  where
    updated : List BranchInventory
    updated = update_where (is_row branch variant) (with_quantity q) rs

    go :
        (t : Bool)
        → is_row branch variant r ≡ t
        → on_hand b v updated ≡ on_hand b v rs
        → on_hand b v (if t then with_quantity q r ∷ updated else r ∷ updated)
          ≡ on_hand b v (r ∷ rs)
    go true hit rest = ground arith
    go false hit rest = ground arith

on_hand-hit :
    (b v : ℕ) (q : ℤ) (rows : List BranchInventory)
    → HasRow b v rows
    → on_hand b v (update_where (is_row b v) (with_quantity q) rows) ≡ q
unfolding find_first update_where
on_hand-hit b v q [] h = ground arith
on_hand-hit b v q (r ∷ rs) h = go (is_row b v r) refl (on_hand-hit b v q rs) h
  where
    updated : List BranchInventory
    updated = update_where (is_row b v) (with_quantity q) rs

    go :
        (t : Bool)
        → is_row b v r ≡ t
        → (HasRow b v rs → on_hand b v updated ≡ q)
        → is_some (if t then some r else find_first (is_row b v) rs) ≡ true
        → on_hand b v (if t then with_quantity q r ∷ updated else r ∷ updated) ≡ q
    go true hit rest h = ground arith
    go false hit rest h = ground arith

pub same_key :
    (branch variant b v : ℕ) → (branch == b && variant == v) ≡ true → (b ≡ branch) × (v ≡ variant)
same_key branch variant b v h = ground arith

pub on_hand-with_quantity :
    (branch variant : ℕ) (q : ℤ) (b v : ℕ) (rows : List BranchInventory)
    → HasRow branch variant rows
    → on_hand b v (update_where (is_row branch variant) (with_quantity q) rows)
      ≡ (if branch == b && variant == v then q else on_hand b v rows)
on_hand-with_quantity branch variant q b v rows h = go (branch == b && variant == v) refl
  where
    go :
        (t : Bool)
        → (branch == b && variant == v) ≡ t
        → on_hand b v (update_where (is_row branch variant) (with_quantity q) rows)
          ≡ (if t then q else on_hand b v rows)
    go true e =
        let (same_b, same_v) = same_key branch variant b v e in
        ap (λ x. on_hand x v (update_where (is_row branch variant) (with_quantity q) rows)) same_b
        ∙ ap (λ x. on_hand branch x (update_where (is_row branch variant) (with_quantity q) rows))
            same_v
        ∙ on_hand-hit branch variant q rows h
    go false e = on_hand-other branch variant q b v e rows
