-- ===== src/Cash/Runs.antt =====
-- Runs of the commands on one cash session.
use kora_os.Common.{
  ℕ, ◌≡◌, refl, subst, true, false, not, ◌&&◌, ◌||◌, none, some, List, ◌==◌, ok, throw_if-eq-ok,
  >>-eq-ok, ok-injective, arith,
}
use kora_os.Common.Int.{ℤ, pos, ◌+ℤ◌, ◌-ℤ◌, int_laws}
use kora_os.Money.{integer, assert_safe_money_amount}
use kora_os.Access.Tenant.{TenantContext, assert_membership_has_branch_access}
use kora_os.Cash.Sessions.{
  CashLedgerEntryType, CashLedgerEntry, calculate_expected_closing_cash_minor, CashSessionStatus,
  is_open_session, is_closed, Closing, Drawer, open_drawer, load_owned_drawer, assert_can_operate,
  with_entry, record_movement, record_sale_entry, record_payment_received_entry,
  record_refund_paid_entry, closed_drawer, close, reviewed_drawer, review,
}

-- What was counted is what the ledger says and the variance.
abbrev pub Reconciles : List CashLedgerEntry → Closing → Type 0
Reconciles entries c =
    (c.expected_closing_cash_minor ≡ calculate_expected_closing_cash_minor entries)
    × (pos c.counted_cash_minor ≡ c.expected_closing_cash_minor +ℤ c.variance_minor)

pub record IsReconciled (drawer : Drawer) : Type 0 where
  pub running : is_open_session drawer.session.status ≡ true → drawer.session.closing ≡ none
  pub counted :
      is_open_session drawer.session.status ≡ false
      → (c : Closing) × (drawer.session.closing ≡ some c) × Reconciles drawer.entries c

with_entry-IsReconciled :
    (type : CashLedgerEntryType) (amount membership : ℕ) (drawer : Drawer)
    → IsReconciled drawer
    → is_open_session drawer.session.status ≡ true
    → IsReconciled (with_entry type amount membership drawer)
with_entry-IsReconciled type amount membership drawer v is_open = record {
  running = v.running;
  counted = λ closed. ground arith;
}

record_sale_entry-IsReconciled :
    (tenant : TenantContext) (type : CashLedgerEntryType) (branch_id currency amount : ℕ)
    (drawer after : Drawer)
    → IsReconciled drawer
    → record_sale_entry tenant type branch_id currency amount drawer ≡ ok after
    → IsReconciled after
unfolding record_sale_entry
record_sale_entry-IsReconciled tenant type branch_id currency amount drawer after v h =
    let (_, h1) =
      throw_if-eq-ok
        (not (drawer.session.organization_id == tenant.organization_id)
          || not (drawer.session.branch_id == branch_id))
        _ _ h in
    let (_, h2) = throw_if-eq-ok (not (drawer.session.currency == currency)) _ _ h1 in
    let (is_open, h3) = throw_if-eq-ok (not (is_open_session drawer.session.status)) _ _ h2 in
    let (_, h4) = >>-eq-ok (assert_can_operate tenant drawer) _ h3 in
    subst IsReconciled (ok-injective h4)
      (with_entry-IsReconciled type amount tenant.membership_id drawer v (ground arith))

difference : (a b : ℤ) → a ≡ b +ℤ (a -ℤ b)
difference a b = grind int_laws

closed_drawer-IsReconciled :
    (counted membership : ℕ) (drawer : Drawer)
    → IsReconciled (closed_drawer counted membership drawer)
closed_drawer-IsReconciled counted membership drawer = record {
  running = λ is_open. ground arith;
  counted = λ _. (
    _,
    refl,
    (refl, difference (pos counted) (calculate_expected_closing_cash_minor drawer.entries)),
  );
}

reviewed_drawer-IsReconciled :
    (membership : ℕ) (drawer : Drawer)
    → IsReconciled drawer
    → is_open_session drawer.session.status ≡ false
    → IsReconciled (reviewed_drawer membership drawer)
reviewed_drawer-IsReconciled membership drawer v ended = record {
  running = λ is_open. ground arith;
  counted = λ _. v.counted ended;
}

closed_is_not_open : (s : CashSessionStatus) → is_closed s ≡ true → is_open_session s ≡ false
closed_is_not_open s h = ground arith

-- `Step drawer after`: a command that read some drawer takes it from `drawer` to `after`.
pub data Step (drawer after : Drawer) : Type 0 where
  step_movement :
      (t : TenantContext) (type : CashLedgerEntryType) (amount : ℕ) (before : Drawer)
      → record_movement t type amount before drawer ≡ ok after
      → Step drawer after
  step_payment :
      (t : TenantContext) (branch_id currency amount : ℕ)
      → record_payment_received_entry t branch_id currency amount drawer ≡ ok after
      → Step drawer after
  step_refund :
      (t : TenantContext) (branch_id currency amount : ℕ)
      → record_refund_paid_entry t branch_id currency amount drawer ≡ ok after
      → Step drawer after
  step_close :
      (t : TenantContext) (counted : ℕ) (before : Drawer)
      → close t counted before drawer ≡ ok after
      → Step drawer after
  step_review :
      (t : TenantContext) (before : Drawer) → review t before drawer ≡ ok after → Step drawer after

pub data Reachable (init : Drawer) : Drawer → Type 0 where
  here : Reachable init init
  next : {drawer after : Drawer} → Reachable init drawer → Step drawer after → Reachable init after

Step-IsReconciled :
    (drawer after : Drawer) → IsReconciled drawer → Step drawer after → IsReconciled after
unfolding record_movement record_payment_received_entry record_refund_paid_entry close review
Step-IsReconciled drawer after v (step_movement t type amount before h) =
    let (_, h1) = >>-eq-ok (load_owned_drawer t before) _ h in
    let (_, h2) = >>-eq-ok (assert_can_operate t before) _ h1 in
    let (_, h3) = >>-eq-ok (assert_safe_money_amount (integer (pos amount)) 1) _ h2 in
    let (is_open, h4) = throw_if-eq-ok (not (is_open_session drawer.session.status)) _ _ h3 in
    subst IsReconciled (ok-injective h4)
      (with_entry-IsReconciled type amount t.membership_id drawer v (ground arith))
Step-IsReconciled drawer after v (step_payment t branch_id currency amount h) =
    record_sale_entry-IsReconciled t _ branch_id currency amount drawer after v h
Step-IsReconciled drawer after v (step_refund t branch_id currency amount h) =
    record_sale_entry-IsReconciled t _ branch_id currency amount drawer after v h
Step-IsReconciled drawer after v (step_close t counted before h) =
    let (_, h1) = >>-eq-ok (load_owned_drawer t before) _ h in
    let (_, h2) = >>-eq-ok (assert_can_operate t before) _ h1 in
    let (_, h3) = >>-eq-ok (assert_safe_money_amount (integer (pos counted)) 0) _ h2 in
    let (is_open, h4) = throw_if-eq-ok (not (is_open_session drawer.session.status)) _ _ h3 in
    subst IsReconciled (ok-injective h4) (closed_drawer-IsReconciled counted t.membership_id drawer)
Step-IsReconciled drawer after v (step_review t before h) =
    let (_, h1) = >>-eq-ok (load_owned_drawer t before) _ h in
    let (_, h2) = throw_if-eq-ok (not (is_closed before.session.status)) _ _ h1 in
    let (same, h3) =
      throw_if-eq-ok
        (not (is_closed drawer.session.status && drawer.session.version == before.session.version))
        _ _ h2 in
    subst IsReconciled (ok-injective h3) (
      reviewed_drawer-IsReconciled t.membership_id drawer v
        (closed_is_not_open drawer.session.status (ground arith)))

new-IsReconciled :
    (tenant : TenantContext) (branch_id currency float : ℕ) (drawer : Drawer)
    → open_drawer tenant branch_id currency float ≡ ok drawer
    → IsReconciled drawer
unfolding open_drawer
new-IsReconciled tenant branch_id currency float drawer h =
    let (_, h1) = >>-eq-ok (assert_membership_has_branch_access tenant branch_id) _ h in
    let (_, h2) = >>-eq-ok (assert_safe_money_amount (integer (pos float)) 0) _ h1 in
    subst IsReconciled (ok-injective h2)
      (record { running = λ _. refl; counted = λ closed. ground arith })

-- From an opened session on, whatever movements, payments, refunds, closes and reviews follow: an open
-- session has no closing figures, and one that was closed keeps figures that agree with its ledger
-- for good: the expected cash is that of the entries, and the cash counted is the expected cash and
-- the variance.
pub Reachable-IsReconciled :
    (tenant : TenantContext) (branch_id currency float : ℕ) (init drawer : Drawer)
    → open_drawer tenant branch_id currency float ≡ ok init
    → Reachable init drawer
    → IsReconciled drawer
Reachable-IsReconciled tenant branch_id currency float init drawer h here =
    new-IsReconciled tenant branch_id currency float init h
Reachable-IsReconciled tenant branch_id currency float init last h (next {drawer} {after} r s) =
    Step-IsReconciled drawer last
      (Reachable-IsReconciled tenant branch_id currency float init drawer h r) s
