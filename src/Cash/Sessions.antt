-- ===== src/Cash/Sessions.antt =====
-- cash-ledger-direction.util.ts, cash-expected-balance.util.ts and cash-sessions.service.ts. A handler
-- reads from `before`; its transaction runs on `drawer`.
use kora_os.Common.{
  ℕ, suc, Bool, true, false, not, ◌&&◌, ◌||◌, Option, none, some, List, [], ◌∷◌, ◌==◌, ltb,
  if◌then◌else◌, Outcome, ok, bad_request, forbidden, not_found, conflict, plain,
  cash_session_not_open, cash_session_not_closed, ◌>>◌, throw_if,
}
use kora_os.Common.Int.{ℤ, pos, negsuc, ◌+ℤ◌, ◌-ℤ◌, ◌*ℤ◌}
use kora_os.Money.{integer, assert_safe_money_amount}
use kora_os.Access.Tenant.{
  TenantContext, assert_membership_has_branch_access, cash_sessions_reconcile,
}

pub data CashLedgerEntryType : Type 0 where
  opening_float payment_received cash_in cash_out safe_drop refund_paid : CashLedgerEntryType

unfoldable pub cash_ledger_entry_direction : CashLedgerEntryType → ℤ
cash_ledger_entry_direction opening_float = pos 1
cash_ledger_entry_direction payment_received = pos 1
cash_ledger_entry_direction cash_in = pos 1
cash_ledger_entry_direction cash_out = negsuc 0
cash_ledger_entry_direction safe_drop = negsuc 0
cash_ledger_entry_direction refund_paid = negsuc 0

pub record CashLedgerEntry : Type 0 where
  pub type : CashLedgerEntryType
  pub amount_minor : ℕ
  pub actor_membership_id : ℕ

-- The `reduce`, with the running sum.
unfoldable pub expected_from : ℤ → List CashLedgerEntry → ℤ
expected_from sum [] = sum
expected_from sum (entry ∷ entries) =
    expected_from (sum +ℤ (pos entry.amount_minor *ℤ cash_ledger_entry_direction entry.type))
      entries

unfoldable pub calculate_expected_closing_cash_minor : List CashLedgerEntry → ℤ
calculate_expected_closing_cash_minor entries = expected_from (pos 0) entries

pub data CashSessionStatus : Type 0 where
  open_session closed reviewed : CashSessionStatus

abbrev pub is_open_session : CashSessionStatus → Bool
is_open_session open_session = true
is_open_session closed = false
is_open_session reviewed = false

abbrev pub is_closed : CashSessionStatus → Bool
is_closed open_session = false
is_closed closed = true
is_closed reviewed = false

-- The columns that a close fills.
pub record Closing : Type 0 where
  pub expected_closing_cash_minor : ℤ
  pub counted_cash_minor : ℕ
  pub variance_minor : ℤ
  pub closed_by_membership_id : ℕ

pub record CashSession : Type 0 where
  pub organization_id : ℕ
  pub branch_id : ℕ
  pub currency : ℕ
  pub opened_by_membership_id : ℕ
  pub status : CashSessionStatus
  pub version : ℕ
  pub closing : Option Closing

pub record Drawer : Type 0 where
  pub session : CashSession
  pub entries : List CashLedgerEntry
  pub reviewers : List ℕ

abbrev pub opening_entries : ℕ → ℕ → List CashLedgerEntry
opening_entries float membership =
    if ltb 0 float
    then record { type = opening_float; amount_minor = float; actor_membership_id = membership }
      ∷ []
    else []

-- `open`, for a register of the branch that is not archived.
unfoldable pub open_drawer : TenantContext → ℕ → ℕ → ℕ → Outcome Drawer
open_drawer tenant branch_id currency float = do
  assert_membership_has_branch_access tenant branch_id
  assert_safe_money_amount (integer (pos float)) 0
  ok (record {
    session = record {
      organization_id = tenant.organization_id;
      branch_id = branch_id;
      currency = currency;
      opened_by_membership_id = tenant.membership_id;
      status = open_session;
      version = 1;
      closing = none;
    };
    entries = opening_entries float tenant.membership_id;
    reviewers = [];
  })

unfoldable pub load_owned_drawer : TenantContext → Drawer → Outcome (Unit {0})
load_owned_drawer tenant drawer = do
  throw_if (not (drawer.session.organization_id == tenant.organization_id)) not_found
  assert_membership_has_branch_access tenant drawer.session.branch_id

unfoldable pub assert_can_operate : TenantContext → Drawer → Outcome (Unit {0})
assert_can_operate tenant drawer =
    throw_if
      (not (drawer.session.opened_by_membership_id == tenant.membership_id)
        && not (tenant.permission_codes cash_sessions_reconcile))
      (forbidden plain)

abbrev pub with_entry : CashLedgerEntryType → ℕ → ℕ → Drawer → Drawer
with_entry type amount membership drawer = record drawer {
  entries =
      record { type = type; amount_minor = amount; actor_membership_id = membership }
      ∷ drawer.entries;
}

unfoldable pub record_movement :
    TenantContext → CashLedgerEntryType → ℕ → Drawer → Drawer → Outcome Drawer
record_movement tenant type amount before drawer = do
  load_owned_drawer tenant before
  assert_can_operate tenant before
  assert_safe_money_amount (integer (pos amount)) 1
  throw_if (not (is_open_session drawer.session.status)) (conflict cash_session_not_open)
  ok (with_entry type amount tenant.membership_id drawer)

-- `recordPaymentReceivedEntry` and `recordRefundPaidEntry` differ in the type of the entry alone.
unfoldable pub record_sale_entry :
    TenantContext → CashLedgerEntryType → ℕ → ℕ → ℕ → Drawer → Outcome Drawer
record_sale_entry tenant type branch_id currency amount drawer = do
  throw_if
      (not (drawer.session.organization_id == tenant.organization_id)
        || not (drawer.session.branch_id == branch_id))
      (bad_request plain)
  throw_if (not (drawer.session.currency == currency)) (bad_request plain)
  throw_if (not (is_open_session drawer.session.status)) (conflict cash_session_not_open)
  assert_can_operate tenant drawer
  ok (with_entry type amount tenant.membership_id drawer)

unfoldable pub record_payment_received_entry : TenantContext → ℕ → ℕ → ℕ → Drawer → Outcome Drawer
unfolding record_sale_entry
record_payment_received_entry tenant branch_id currency amount drawer =
    record_sale_entry tenant payment_received branch_id currency amount drawer

unfoldable pub record_refund_paid_entry : TenantContext → ℕ → ℕ → ℕ → Drawer → Outcome Drawer
unfolding record_sale_entry
record_refund_paid_entry tenant branch_id currency amount drawer =
    record_sale_entry tenant refund_paid branch_id currency amount drawer

abbrev pub closed_drawer : ℕ → ℕ → Drawer → Drawer
closed_drawer counted membership drawer = record drawer {
  session = record drawer.session {
    status = closed;
    version = suc drawer.session.version;
    closing = some (record {
      expected_closing_cash_minor = calculate_expected_closing_cash_minor drawer.entries;
      counted_cash_minor = counted;
      variance_minor = pos counted -ℤ calculate_expected_closing_cash_minor drawer.entries;
      closed_by_membership_id = membership;
    });
  };
}

unfoldable pub close : TenantContext → ℕ → Drawer → Drawer → Outcome Drawer
close tenant counted before drawer = do
  load_owned_drawer tenant before
  assert_can_operate tenant before
  assert_safe_money_amount (integer (pos counted)) 0
  throw_if (not (is_open_session drawer.session.status)) (conflict cash_session_not_open)
  ok (closed_drawer counted tenant.membership_id drawer)

abbrev pub reviewed_drawer : ℕ → Drawer → Drawer
reviewed_drawer membership drawer = record drawer {
  session = record drawer.session { status = reviewed; version = suc drawer.session.version };
  reviewers = membership ∷ drawer.reviewers;
}

unfoldable pub review : TenantContext → Drawer → Drawer → Outcome Drawer
review tenant before drawer = do
  load_owned_drawer tenant before
  throw_if (not (is_closed before.session.status)) (conflict cash_session_not_closed)
  throw_if
      (not (is_closed drawer.session.status && drawer.session.version == before.session.version))
      (conflict plain)
  ok (reviewed_drawer tenant.membership_id drawer)
