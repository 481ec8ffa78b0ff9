-- ===== src/Checkouts/Runs.antt =====
-- Runs of the operations on the checkouts, from a database without checkouts.
use mathlib.Core.List.{Memᴰ}
use kora_os.Common.{ℕ, suc, ◌≡◌, refl, sym, ap, subst, Bool, List, [], ◌∷◌, All, All-map, ok}
use kora_os.Common.Store.{update_where, All-update_where}
use kora_os.Access.Tenant.{TenantContext}
use kora_os.Sales.Schema.{CheckoutStatus}
use kora_os.Checkouts.Schema.{CheckoutRecord, CheckoutDb}
use kora_os.Checkouts.Lines.{CheckoutProductItem}
use kora_os.Checkouts.Creation.{create, CreateProductCheckout, create_for_product_sale}
use kora_os.Checkouts.Adjustments.{
  CreateCheckoutAdjustment, is_read_version, adjusted_row, add_adjustment, voided_row, void,
}
use kora_os.Checkouts.Totals.{
  IsTotalled, Inserts-IsTotalled, create-Inserts, create_for_product_sale-Inserts,
}
use kora_os.Checkouts.Adjusting.{
  SeesVersions, add_adjustment-rows, add_adjustment-IsTotalled, status_kept, void-rows,
  void-IsTotalled,
}
use kora_os.Checkouts.Identifiers.{HasUniqueIds, KeepsIds-refl}
use kora_os.Checkouts.Versions.{
  Precedes-SeesVersions, Precedes-refl, Change, inserts, updates, IsFollowed, Change-IsFollowed,
  Change-HasUniqueIds,
}

abbrev pub moved_status : CheckoutStatus → CheckoutRecord → CheckoutRecord
moved_status status row = record row { status = status; version = suc row.version }

-- `Step log db after`: an operation that was answered, or the recalculation of a status by the payments,
-- where `log` are the databases of the run so far: an adjustment is computed from any one of them.
pub data Step (log : List CheckoutDb) (db after : CheckoutDb) : Type 0 where
  step_create :
      (t : TenantContext) (session_id : ℕ) (items : List CheckoutProductItem) (new_id : ℕ)
      (before : CheckoutDb) (c : CheckoutRecord)
      → create t session_id items new_id before db ≡ ok (after, c)
      → Step log db after
  step_product_sale :
      (t : TenantContext) (dto : CreateProductCheckout) (new_id : ℕ) (before : CheckoutDb)
      (c : CheckoutRecord)
      → create_for_product_sale t dto new_id before db ≡ ok (after, c)
      → Step log db after
  step_adjustment :
      (t : TenantContext) (payment_count : ℕ → ℕ) (id : ℕ) (dto : CreateCheckoutAdjustment)
      (before : CheckoutDb)
      → Memᴰ before log
      → add_adjustment t payment_count id dto before db ≡ ok after
      → Step log db after
  step_void :
      (t : TenantContext) (id : ℕ) (before : CheckoutDb)
      → void t id before db ≡ ok after
      → Step log db after
  step_status :
      (p : CheckoutRecord → Bool) (status : CheckoutStatus)
      → record db { checkouts = update_where p (moved_status status) db.checkouts } ≡ after
      → Step log db after

pub data Reachable (init : CheckoutDb) : List CheckoutDb → CheckoutDb → Type 0 where
  here : Reachable init (init ∷ []) init
  next :
      {log : List CheckoutDb} {db after : CheckoutDb}
      → Reachable init log db
      → Step log db after
      → Reachable init (after ∷ log) after

-- Every row of the log is still there, at its version or a later one.
record IsConsistent (log : List CheckoutDb) (db : CheckoutDb) : Type 0 where
  totalled : All IsTotalled db.checkouts
  unique : HasUniqueIds db.checkouts
  followed : All (IsFollowed db.checkouts) log

All-Memᴰ :
    (rows : List CheckoutRecord) (before : CheckoutDb) (log : List CheckoutDb)
    → Memᴰ before log
    → All (IsFollowed rows) log
    → IsFollowed rows before
All-Memᴰ rows before _ (Memᴰ.head e) h = subst (IsFollowed rows) (sym e) h.0
All-Memᴰ rows before (b ∷ log) (Memᴰ.tail m) h = All-Memᴰ rows before log m h.1

sees :
    (log : List CheckoutDb) (before db : CheckoutDb)
    → IsConsistent log db
    → Memᴰ before log
    → SeesVersions before db
sees log before db v m =
    Precedes-SeesVersions before db (All-Memᴰ db.checkouts before log m v.followed).0

Step-Change :
    (log : List CheckoutDb) (db after : CheckoutDb)
    → IsConsistent log db
    → Step log db after
    → Change db.checkouts after.checkouts
Step-Change log db after v (step_create t session_id items new_id before c h) =
    inserts (create-Inserts t session_id items new_id before db after c h)
Step-Change log db after v (step_product_sale t dto new_id before c h) =
    inserts (create_for_product_sale-Inserts t dto new_id before db after c h)
Step-Change log db after v (step_adjustment t payment_count id dto before m h) =
    let (read, _, _, e) =
      add_adjustment-rows t payment_count id dto before db after (sees log before db v m) h in
    updates (is_read_version read) (adjusted_row t dto read) (λ r. (refl, refl)) e
Step-Change log db after v (step_void t id before h) =
    let (read, e) = void-rows t id before db after h in
    updates (is_read_version read) voided_row (λ r. (refl, refl)) e
Step-Change log db after v (step_status p status same) =
    updates p (moved_status status) (λ r. (refl, refl)) (ap (λ d. d.checkouts) (sym same))

Step-IsTotalled :
    (log : List CheckoutDb) (db after : CheckoutDb)
    → IsConsistent log db
    → Step log db after
    → All IsTotalled after.checkouts
Step-IsTotalled log db after v (step_create t session_id items new_id before c h) =
    Inserts-IsTotalled db.checkouts after.checkouts v.totalled
      (create-Inserts t session_id items new_id before db after c h)
Step-IsTotalled log db after v (step_product_sale t dto new_id before c h) =
    Inserts-IsTotalled db.checkouts after.checkouts v.totalled
      (create_for_product_sale-Inserts t dto new_id before db after c h)
Step-IsTotalled log db after v (step_adjustment t payment_count id dto before m h) =
    add_adjustment-IsTotalled t payment_count id dto before db after (sees log before db v m)
      v.totalled h
Step-IsTotalled log db after v (step_void t id before h) =
    void-IsTotalled t id before db after v.totalled h
Step-IsTotalled log db after v (step_status p status same) =
    subst (λ d. All IsTotalled d.checkouts) same
      (All-update_where IsTotalled p (moved_status status) (λ c _ d. status_kept _ _ c d)
        db.checkouts v.totalled)

Reachable-IsConsistent :
    (init : CheckoutDb) (log : List CheckoutDb) (db : CheckoutDb)
    → init.checkouts ≡ []
    → Reachable init log db
    → IsConsistent log db
Reachable-IsConsistent init _ db new here = record {
  totalled = rw new tt;
  unique = rw new tt;
  followed = (rw new (tt, tt), tt);
}
Reachable-IsConsistent init _ after new (next {log} {db} r s) =
    let v = Reachable-IsConsistent init log db new r in
    let change = Step-Change log db after v s in
    let unique = Change-HasUniqueIds db.checkouts after.checkouts change v.unique in
    record {
      totalled = Step-IsTotalled log db after v s;
      unique = unique;
      followed = (
        (Precedes-refl after.checkouts unique, KeepsIds-refl after.checkouts),
        All-map _ _ (λ b. Change-IsFollowed db.checkouts after.checkouts b change) log v.followed,
      );
    }

-- Whatever checkouts are created from sessions and product sales, adjusted, voided and moved by their
-- payments, where an adjustment is computed from any database of the run so far, however old: the
-- subtotal of every checkout is the sum of its lines and not 0, its adjustment total is the sum of its
-- discounts and surcharges, its total is both together and never negative, and its lines are in its
-- currency.
pub Reachable-IsTotalled :
    (init : CheckoutDb) (log : List CheckoutDb) (db : CheckoutDb)
    → init.checkouts ≡ []
    → Reachable init log db
    → All IsTotalled db.checkouts
Reachable-IsTotalled init log db new r = (Reachable-IsConsistent init log db new r).totalled
