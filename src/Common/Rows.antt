-- ===== src/Common/Rows.antt =====
-- How many rows of a table pass a test, after an update of those that pass another.
use kora_os.Common.{◌+◌, ◌≤◌, ◌≡◌, refl, Bool, true, false, List, [], ◌∷◌, All, arith}
use kora_os.Common.Store.{count_where, update_where}

module _ {ℓ} {A : Type ℓ} where
  pub count_where-le :
      (p q : A → Bool)
      → ((a : A) → p a ≡ true → q a ≡ true)
      → (xs : List A) → count_where p xs ≤ count_where q xs
  unfolding count_where
  count_where-le p q f [] = omega arith
  count_where-le p q f (x ∷ xs) = ground (arith, f x, count_where-le p q f xs)

  -- The update of the rows that pass `p` does not change whether they pass `q`.
  pub count_where-update_same {κ} :
      (P : A → Type κ) (p q : A → Bool) (f : A → A)
      → ((a : A) → P a → p a ≡ true → q (f a) ≡ q a)
      → (xs : List A) → All P xs
      → count_where q (update_where p f xs) ≡ count_where q xs
  unfolding count_where update_where
  count_where-update_same P p q f same [] h = refl
  count_where-update_same P p q f same (x ∷ xs) h =
      ground (arith, same x h.0, count_where-update_same P p q f same xs h.1)

  -- Each updated row passes `q` now, and did not before.
  pub count_where-update_gain {κ} :
      (P : A → Type κ) (p q : A → Bool) (f : A → A)
      → ((a : A) → P a → p a ≡ true → (q (f a) ≡ true) × (q a ≡ false))
      → (xs : List A) → All P xs
      → count_where q (update_where p f xs) ≡ count_where q xs + count_where p xs
  unfolding count_where update_where
  count_where-update_gain P p q f gain [] h = refl
  count_where-update_gain P p q f gain (x ∷ xs) h =
      ground (arith, gain x h.0, count_where-update_gain P p q f gain xs h.1)

  -- Each updated row passed `q` before, and does not now.
  pub count_where-update_loss {κ} :
      (P : A → Type κ) (p q : A → Bool) (f : A → A)
      → ((a : A) → P a → p a ≡ true → (q (f a) ≡ false) × (q a ≡ true))
      → (xs : List A) → All P xs
      → count_where q (update_where p f xs) + count_where p xs ≡ count_where q xs
  unfolding count_where update_where
  count_where-update_loss P p q f loss [] h = refl
  count_where-update_loss P p q f loss (x ∷ xs) h =
      ground (arith, loss x h.0, count_where-update_loss P p q f loss xs h.1)

  -- No updated row passes `q` now.
  pub count_where-update_le :
      (p q : A → Bool) (f : A → A)
      → ((a : A) → p a ≡ true → q (f a) ≡ false)
      → (xs : List A) → count_where q (update_where p f xs) ≤ count_where q xs
  unfolding count_where update_where
  count_where-update_le p q f out [] = omega arith
  count_where-update_le p q f out (x ∷ xs) =
      ground (arith, out x, count_where-update_le p q f out xs)

  -- The rows of a table, with nothing said of them.
  pub All-trivial : (xs : List A) → All (λ a. Unit {0}) xs
  All-trivial [] = tt
  All-trivial (x ∷ xs) = (tt, All-trivial xs)
