-- ===== src/Checkouts/Versions.antt =====
-- checkouts.service.ts: the versions of the rows over runs of the operations. The rows that a handler
-- has read are those of an earlier database of the same run.
use kora_os.Common.{
  suc, ◌<◌, ◌≡◌, ◌⊎◌, inl, inr, refl, sym, ◌∙◌, subst, Bool, true, false, List, [], ◌∷◌, ◌++◌, ◌==◌,
  any, if◌then◌else◌, All, All-append, arith,
}
use kora_os.Common.Store.{update_where}
use kora_os.Checkouts.Schema.{CheckoutRecord, CheckoutDb}
use kora_os.Checkouts.Identifiers.{
  Revises, KeepsIds, KeepsIds-update, KeepsIds-append, HasUniqueIds, HasUniqueIds-update,
  HasUniqueIds-append,
}
use kora_os.Checkouts.Totals.{Inserts}
use kora_os.Checkouts.Adjustments.{is_read_version}
use kora_os.Checkouts.Adjusting.{SeesVersions}

-- A row of an earlier table is the row of the same identifier in a later one, or has an older version.
abbrev pub IsOlder : CheckoutRecord → CheckoutRecord → Type 0
IsOlder read row = (read.version < row.version) ⊎ (row ≡ read)

abbrev pub Precedes : List CheckoutRecord → List CheckoutRecord → Type 0
Precedes before rows = All (λ read. All (λ row. read.id ≡ row.id → IsOlder read row) rows) before

updated_row :
    (p : CheckoutRecord → Bool) (f : CheckoutRecord → CheckoutRecord) (read : CheckoutRecord)
    → Revises f
    → (rows : List CheckoutRecord) → All (λ row. read.id ≡ row.id → IsOlder read row) rows
    → All (λ row. read.id ≡ row.id → IsOlder read row) (update_where p f rows)
unfolding update_where
updated_row p f read moves [] h = tt
updated_row p f read moves (r ∷ rows) h = go (p r) (updated_row p f read moves rows h.1)
  where
    newer : IsOlder read r → IsOlder read (f r)
    newer (inl older) = inl (omega (arith, older, (moves r).1))
    newer (inr same) = inl (
        subst (λ v. read.version < v) (sym (moves r).1)
          (subst (λ x. read.version < suc x.version) (sym same) (omega arith)))

    go :
        (t : Bool)
        → All (λ row. read.id ≡ row.id → IsOlder read row) (update_where p f rows)
        → All
            (λ row. read.id ≡ row.id → IsOlder read row)
            (if t then f r ∷ update_where p f rows else r ∷ update_where p f rows)
    go true rest = ((λ e. newer (h.0 (e ∙ (moves r).0))), rest)
    go false rest = (h.0, rest)

-- Reads of the table before an update precede the table after it.
pub Precedes-update :
    (p : CheckoutRecord → Bool) (f : CheckoutRecord → CheckoutRecord)
    → Revises f
    → (before rows : List CheckoutRecord) → Precedes before rows
    → Precedes before (update_where p f rows)
Precedes-update p f moves [] rows h = tt
Precedes-update p f moves (read ∷ before) rows h =
    (updated_row p f read moves rows h.0, Precedes-update p f moves before rows h.1)

pub Precedes-SeesVersions :
    (before db : CheckoutDb) → Precedes before.checkouts db.checkouts → SeesVersions before db
Precedes-SeesVersions before db h = reads before.checkouts h
  where
    same :
        (read row : CheckoutRecord)
        → (read.id ≡ row.id → IsOlder read row)
        → is_read_version read row ≡ true
        → row ≡ read
    same read row older hit = go (older (ground arith))
      where
        go : IsOlder read row → row ≡ read
        go (inl lt) = absurd (ground arith)
        go (inr e) = e

    found :
        (read : CheckoutRecord) (rows : List CheckoutRecord)
        → All (λ row. read.id ≡ row.id → IsOlder read row) rows
        → All (λ row. is_read_version read row ≡ true → row ≡ read) rows
    found read [] k = tt
    found read (row ∷ rows) k = (same read row k.0, found read rows k.1)

    reads :
        (rs : List CheckoutRecord)
        → Precedes rs db.checkouts
        → All (λ read. All (λ row. is_read_version read row ≡ true → row ≡ read) db.checkouts) rs
    reads [] k = tt
    reads (read ∷ rs) k = (found read db.checkouts k.0, reads rs k.1)

pub Precedes-append :
    (before rows : List CheckoutRecord) (c : CheckoutRecord)
    → any (λ d. d.id == c.id) rows ≡ false
    → KeepsIds before rows
    → Precedes before rows
    → Precedes before (rows ++ c ∷ [])
Precedes-append [] rows c fresh keeps h = tt
Precedes-append (read ∷ before) rows c fresh keeps h = (
  All-append (λ row. read.id ≡ row.id → IsOlder read row) rows (c ∷ []) h.0
      (new (any (λ d. d.id == c.id) rows) fresh keeps.0, tt),
  Precedes-append before rows c fresh keeps.1 h.1,
)
  where
    clash : (b : Bool) → b ≡ true → b ≡ false → ⊥
    clash true y n = cc
    clash false y n = cc

    new :
        (b : Bool)
        → any (λ d. d.id == c.id) rows ≡ false
        → any (λ d. d.id == read.id) rows ≡ true
        → read.id ≡ c.id
        → IsOlder read c
    new b f t e = absurd (clash _ (subst (λ k. any (λ d. d.id == k) rows ≡ true) e t) f)

other_id :
    (read : CheckoutRecord) (rows : List CheckoutRecord)
    → any (λ c. c.id == read.id) rows ≡ false
    → All (λ row. read.id ≡ row.id → IsOlder read row) rows
other_id read [] h = tt
other_id read (r ∷ rows) h = ((λ e. absurd (ground arith)), other_id read rows (ground arith))

with_head :
    (r : CheckoutRecord) (before rows : List CheckoutRecord)
    → any (λ c. c.id == r.id) before ≡ false
    → Precedes before rows
    → Precedes before (r ∷ rows)
with_head r [] rows h k = tt
with_head r (read ∷ before) rows h k =
    (((λ e. absurd (ground arith)), k.0), with_head r before rows (ground arith) k.1)

pub Precedes-refl : (rows : List CheckoutRecord) → HasUniqueIds rows → Precedes rows rows
Precedes-refl [] h = tt
Precedes-refl (r ∷ rows) h =
    (((λ _. inr refl), other_id r rows h.0), with_head r rows rows h.0 (Precedes-refl rows h.1))

-- The table after an operation.
pub data Change (rows later : List CheckoutRecord) : Type 0 where
  inserts : Inserts rows later → Change rows later
  updates :
      (p : CheckoutRecord → Bool) (f : CheckoutRecord → CheckoutRecord)
      → Revises f
      → later ≡ update_where p f rows
      → Change rows later

-- A database that was read before: its rows are still there, at the same versions or later ones.
abbrev pub IsFollowed : List CheckoutRecord → CheckoutDb → Type 0
IsFollowed rows before = Precedes before.checkouts rows × KeepsIds before.checkouts rows

pub Change-IsFollowed :
    (rows later : List CheckoutRecord) (before : CheckoutDb)
    → Change rows later
    → IsFollowed rows before
    → IsFollowed later before
Change-IsFollowed rows later before (inserts (inl same)) h =
    subst (λ l. IsFollowed l before) (sym same) h
Change-IsFollowed rows later before (inserts (inr (c, _, fresh, e))) h =
    subst (λ l. IsFollowed l before) (sym e)
      (
        Precedes-append before.checkouts rows c fresh h.1 h.0,
        KeepsIds-append before.checkouts rows c h.1,
      )
Change-IsFollowed rows later before (updates p f moves e) h =
    subst (λ l. IsFollowed l before) (sym e)
      (
        Precedes-update p f moves before.checkouts rows h.0,
        KeepsIds-update p f moves before.checkouts rows h.1,
      )

pub Change-HasUniqueIds :
    (rows later : List CheckoutRecord) → Change rows later → HasUniqueIds rows → HasUniqueIds later
Change-HasUniqueIds rows later (inserts (inl same)) h = subst HasUniqueIds (sym same) h
Change-HasUniqueIds rows later (inserts (inr (c, _, fresh, e))) h =
    subst HasUniqueIds (sym e) (HasUniqueIds-append rows c fresh h)
Change-HasUniqueIds rows later (updates p f moves e) h =
    subst HasUniqueIds (sym e) (HasUniqueIds-update p f moves rows h)
