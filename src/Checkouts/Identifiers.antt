-- ===== src/Checkouts/Identifiers.antt =====
-- checkouts.service.ts: the identifiers of the rows over runs of the operations.
use kora_os.Common.{
  ℕ, suc, ◌≡◌, refl, sym, subst, Bool, true, false, List, [], ◌∷◌, ◌++◌, ◌==◌, any, if◌then◌else◌,
  All, All-map, arith,
}
use kora_os.Common.Store.{update_where}
use kora_os.Checkouts.Schema.{CheckoutRecord}

-- An update that increments the version of a row and keeps its identifier.
abbrev pub Revises : (CheckoutRecord → CheckoutRecord) → Type 0
Revises f = (r : CheckoutRecord) → ((f r).id ≡ r.id) × ((f r).version ≡ suc r.version)

-- Every identifier that was read is still there.
abbrev pub KeepsIds : List CheckoutRecord → List CheckoutRecord → Type 0
KeepsIds before rows = All (λ read. any (λ c. c.id == read.id) rows ≡ true) before

same_ids :
    (k : ℕ) (p : CheckoutRecord → Bool) (f : CheckoutRecord → CheckoutRecord)
    → Revises f
    → (rows : List CheckoutRecord) → any (λ c. c.id == k) rows ≡ true
    → any (λ c. c.id == k) (update_where p f rows) ≡ true
unfolding update_where
same_ids k p f moves [] h = h
same_ids k p f moves (r ∷ rows) h = ground (arith, (moves r).0, same_ids k p f moves rows)

pub KeepsIds-update :
    (p : CheckoutRecord → Bool) (f : CheckoutRecord → CheckoutRecord)
    → Revises f
    → (before rows : List CheckoutRecord) → KeepsIds before rows
    → KeepsIds before (update_where p f rows)
KeepsIds-update p f moves before rows h =
    All-map _ _ (λ read there. same_ids read.id p f moves rows there) before h

more_ids :
    (k : ℕ) (rows : List CheckoutRecord) (c : CheckoutRecord)
    → any (λ d. d.id == k) rows ≡ true
    → any (λ d. d.id == k) (rows ++ c ∷ []) ≡ true
more_ids k [] c h = cc
more_ids k (r ∷ rows) c h = ground (arith, more_ids k rows c)

pub KeepsIds-append :
    (before rows : List CheckoutRecord) (c : CheckoutRecord)
    → KeepsIds before rows
    → KeepsIds before (rows ++ c ∷ [])
KeepsIds-append before rows c h = All-map _ _ (λ read there. more_ids read.id rows c there) before h

-- A table with unique identifiers.
abbrev pub HasUniqueIds : List CheckoutRecord → Type 0
HasUniqueIds [] = Unit
HasUniqueIds (r ∷ rows) = (any (λ c. c.id == r.id) rows ≡ false) × HasUniqueIds rows

pub KeepsIds-refl : (rows : List CheckoutRecord) → KeepsIds rows rows
KeepsIds-refl rows = go rows rows (λ k h. h)
  where
    go :
        (xs ys : List CheckoutRecord)
        → ((k : ℕ) → any (λ c. c.id == k) xs ≡ true → any (λ c. c.id == k) ys ≡ true)
        → KeepsIds xs ys
    go [] ys h = tt
    go (x ∷ xs) ys h = (h x.id (ground arith), go xs ys (λ k e. h k (ground (arith, e))))

pub HasUniqueIds-update :
    (p : CheckoutRecord → Bool) (f : CheckoutRecord → CheckoutRecord)
    → Revises f
    → (rows : List CheckoutRecord) → HasUniqueIds rows
    → HasUniqueIds (update_where p f rows)
unfolding update_where
HasUniqueIds-update p f moves [] h = tt
HasUniqueIds-update p f moves (r ∷ rows) h = go (p r) (HasUniqueIds-update p f moves rows h.1)
  where
    absent :
        (k : ℕ) (xs : List CheckoutRecord)
        → any (λ c. c.id == k) xs ≡ false
        → any (λ c. c.id == k) (update_where p f xs) ≡ false
    absent k [] e = e
    absent k (x ∷ xs) e = ground (arith, (moves x).0, absent k xs)

    go :
        (t : Bool)
        → HasUniqueIds (update_where p f rows)
        → HasUniqueIds (if t then f r ∷ update_where p f rows else r ∷ update_where p f rows)
    go true rest = (
      subst (λ k. any (λ c. c.id == k) (update_where p f rows) ≡ false) (sym (moves r).0)
          (absent r.id rows h.0),
      rest,
    )
    go false rest = (absent r.id rows h.0, rest)

pub HasUniqueIds-append :
    (rows : List CheckoutRecord) (c : CheckoutRecord)
    → any (λ d. d.id == c.id) rows ≡ false
    → HasUniqueIds rows
    → HasUniqueIds (rows ++ c ∷ [])
HasUniqueIds-append [] c fresh h = (refl, tt)
HasUniqueIds-append (r ∷ rows) c fresh h =
    (absent rows h.0, HasUniqueIds-append rows c (ground arith) h.1)
  where
    absent :
        (xs : List CheckoutRecord)
        → any (λ d. d.id == r.id) xs ≡ false
        → any (λ d. d.id == r.id) (xs ++ c ∷ []) ≡ false
    absent [] e = ground arith
    absent (x ∷ xs) e = ground (arith, absent xs)
