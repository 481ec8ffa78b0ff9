-- ===== src/Common/Store.antt =====
-- The database as the services use it (Prisma): a table is a list of rows, `findFirst` with a
-- `where` is `find_first`, `updateMany` is `update_where` with the number of rows that matched,
-- `create` appends. Rows hold their identifier in a field, and identifiers are numbers that are
-- only compared (in the source they are UUID strings).
use kora_os.Common.Tests.{if◌then◌else◌}
use kora_os.Common.Lists.{All, length}
use Prim.Native.Nat.{ℕ, suc}
use mathlib.Core.Path.{◌≡◌, refl, subst}
use mathlib.Core.Bool.{Bool, true, false}
use mathlib.Core.List.{List, [], ◌∷◌}
use mathlib.Core.Option.{Option, none, some}
use native.Mathlib.Omega.{arith}

module _ {ℓ} {A : Type ℓ} where
  unfoldable pub find_first : (A → Bool) → List A → Option A
  find_first p [] = none
  find_first p (x ∷ xs) = if p x then some x else find_first p xs

  unfoldable pub count_where : (A → Bool) → List A → ℕ
  count_where p [] = 0
  count_where p (x ∷ xs) = if p x then suc (count_where p xs) else count_where p xs

  unfoldable pub update_where : (A → Bool) → (A → A) → List A → List A
  update_where p f [] = []
  update_where p f (x ∷ xs) = if p x then f x ∷ update_where p f xs else x ∷ update_where p f xs

  pub length-update_where :
      (p : A → Bool) (f : A → A) (xs : List A) → length (update_where p f xs) ≡ length xs
  unfolding update_where
  length-update_where p f [] = refl
  length-update_where p f (x ∷ xs) = ground (arith, length-update_where p f xs)

  -- What holds of every row and is kept by the update holds of every row after it.
  pub All-update_where {κ} :
      (P : A → Type κ) (p : A → Bool) (f : A → A)
      → ((a : A) → p a ≡ true → P a → P (f a))
      → (xs : List A) → All P xs
      → All P (update_where p f xs)
  unfolding update_where
  All-update_where P p f step [] h = tt
  All-update_where P p f step (x ∷ xs) h = go (p x) refl (All-update_where P p f step xs h.1)
    where
      go :
          (b : Bool)
          → p x ≡ b
          → All P (update_where p f xs)
          → All P (if b then f x ∷ update_where p f xs else x ∷ update_where p f xs)
      go true e r = (step x e h.0, r)
      go false e r = (h.0, r)

  pub find_first-All {κ} :
      (P : A → Type κ) (p : A → Bool) (xs : List A) (a : A)
      → find_first p xs ≡ some a
      → All P xs
      → P a × (p a ≡ true)
  unfolding find_first
  find_first-All P p [] a e h = cc
  find_first-All P p (x ∷ xs) a e h = go (p x) refl (λ k. find_first-All P p xs a k h.1) e
    where
      go :
          (b : Bool)
          → p x ≡ b
          → (find_first p xs ≡ some a → P a × (p a ≡ true))
          → (if b then some x else find_first p xs) ≡ some a
          → P a × (p a ≡ true)
      go true hit rest k = let same : x ≡ a = cc in subst (λ y. P y × (p y ≡ true)) same (h.0, hit)
      go false miss rest k = rest k
