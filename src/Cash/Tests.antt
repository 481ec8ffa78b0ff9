-- ===== src/Cash/Tests.antt =====
-- A drawer that opens with 100.00, takes 25.00, pays out 10.00, and is counted one short.
use kora_os.Common.{ℕ, ◌≡◌, refl, true, false, none, List, [], ◌∷◌, Outcome, ok, throws}
use kora_os.Common.Int.{pos, ◌-ℤ◌}
use kora_os.Money.{assert_safe_money_amount}
use kora_os.Access.Tenant.{TenantContext, full, assert_membership_has_branch_access}
use kora_os.Cash.Sessions.{
  CashLedgerEntryType, open_session, CashLedgerEntry, opening_float, payment_received, cash_out,
  calculate_expected_closing_cash_minor, Drawer, open_drawer, load_owned_drawer, assert_can_operate,
  record_movement, close,
}
use kora_os.Cash.Balance.{total_in, total_out, expected_closing_cash_lem}
use kora_os.Cash.Runs.{IsReconciled, here, next, step_movement, step_close, Reachable-IsReconciled}

abbrev cashier : TenantContext
cashier = record {
  membership_id = 1;
  organization_id = 7;
  user_id = 4;
  permission_codes = λ _. true;
  is_owner = false;
  branch_ids = 3 ∷ [];
  access_mode = full;
}

abbrev entry : CashLedgerEntryType → ℕ → CashLedgerEntry
entry type amount = record { type = type; amount_minor = amount; actor_membership_id = 1 }

abbrev ledger : List CashLedgerEntry
ledger = entry opening_float 10000 ∷ entry payment_received 2500 ∷ entry cash_out 1000 ∷ []

expected_closing_cash_lem_example :
    calculate_expected_closing_cash_minor ledger ≡ pos (total_in ledger) -ℤ pos (total_out ledger)
expected_closing_cash_lem_example = expected_closing_cash_lem ledger

abbrev drawer_of : Outcome Drawer → Drawer → Drawer
drawer_of (ok drawer) other = drawer
drawer_of (throws e) other = other

abbrev empty_drawer : Drawer
empty_drawer = record {
  session = record {
    organization_id = 7;
    branch_id = 3;
    currency = 1;
    opened_by_membership_id = 1;
    status = open_session;
    version = 1;
    closing = none;
  };
  entries = [];
  reviewers = [];
}

abbrev morning : Drawer
morning = drawer_of (open_drawer cashier 3 1 10000) empty_drawer

abbrev noon : Drawer
noon = drawer_of (record_movement cashier cash_out 1000 morning morning) empty_drawer

abbrev evening : Drawer
evening = drawer_of (close cashier 8999 noon noon) empty_drawer

morning_ok : open_drawer cashier 3 1 10000 ≡ ok morning
unfolding open_drawer assert_safe_money_amount assert_membership_has_branch_access
morning_ok = refl

noon_ok : record_movement cashier cash_out 1000 morning morning ≡ ok noon
unfolding open_drawer assert_safe_money_amount assert_membership_has_branch_access record_movement
    load_owned_drawer assert_can_operate
noon_ok = refl

evening_ok : close cashier 8999 noon noon ≡ ok evening
unfolding open_drawer assert_safe_money_amount assert_membership_has_branch_access record_movement
    load_owned_drawer assert_can_operate close
evening_ok = refl

Reachable-IsReconciled_example : IsReconciled evening
Reachable-IsReconciled_example =
    Reachable-IsReconciled cashier 3 1 10000 morning evening morning_ok (
      next (next here (step_movement cashier cash_out 1000 morning noon_ok))
        (step_close cashier 8999 noon evening_ok))
