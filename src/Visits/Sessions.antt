-- ===== src/Visits/Sessions.antt =====
-- service-sessions.service.ts. As for the queue, a handler reads from `before` and its transaction
-- runs on `db`. What the availability engine and the staff table answer are arguments.
use kora_os.Common.{
  ℕ, suc, ◌+◌, Bool, not, ◌&&◌, Option, some, List, [], ◌∷◌, ◌++◌, ◌==◌, same_option, if◌then◌else◌,
  Outcome, ok, throws, conflict, not_found, forbidden, internal, plain,
  service_session_not_in_progress, ◌>>=◌, ◌>>◌, throw_if, or_throw,
}
use kora_os.Common.Store.{find_first, count_where, update_where}
use kora_os.Access.Tenant.{
  TenantContext, assert_membership_has_branch_access, sessions_perform, sessions_manage,
}
use kora_os.Visits.Schema.{
  QueueEntryStatus, QueueEntryStatusHistory, ServiceSession, is_in_progress, ServiceItem,
  session_items_updated, Db,
}

-- What other services answer: the engine's eligibility and price list, and the caller's own staff
-- profile.
pub record Answers : Type 0 where
  pub eligible : ℕ → ℕ → List ℕ → ℕ → Bool
  pub service_items : ℕ → ℕ → List ℕ → Outcome (List ServiceItem)
  pub own_staff_profile : ℕ → ℕ → Option ℕ

abbrev pub total_price : List ServiceItem → ℕ
total_price [] = 0
total_price (item ∷ items) = item.price_minor + total_price items

-- `items[0].currency`
abbrev pub first_currency : List ServiceItem → Outcome ℕ
first_currency [] = throws internal
first_currency (item ∷ items) = ok item.currency

unfoldable pub assert_can_perform : TenantContext → Outcome Bool
assert_can_perform tenant = do
  throw_if
      (not (tenant.permission_codes sessions_manage)
        && not (tenant.permission_codes sessions_perform))
      (forbidden plain)
  ok (tenant.permission_codes sessions_manage)

unfoldable pub assert_own_session_unless_manage :
    Answers → TenantContext → Bool → ℕ → Outcome (Unit {0})
assert_own_session_unless_manage answers tenant has_manage assigned =
    if has_manage
    then ok tt
    else throw_if
        (not (
          same_option (answers.own_staff_profile tenant.organization_id tenant.membership_id)
            (some assigned)))
        (forbidden plain)

unfoldable pub load_owned_session : ℕ → ℕ → Db → Outcome ServiceSession
load_owned_session organization session_id db =
    or_throw (find_first (λ s. s.id == session_id && s.organization_id == organization) db.sessions)
      not_found

abbrev pub serves : ℕ → ServiceSession → Bool
serves staff s = is_in_progress s.status && s.assigned_staff_profile_id == staff

abbrev pub serves_entry : ℕ → ServiceSession → Bool
serves_entry entry_id s = is_in_progress s.status && s.queue_entry_id == entry_id

abbrev pub entry_moved :
    Option QueueEntryStatus → QueueEntryStatus → ℕ → ℕ → Option ℕ → QueueEntryStatusHistory
entry_moved previous new_status entry_id actor reason = record {
  queue_entry_id = entry_id;
  previous_status = previous;
  new_status = new_status;
  actor_membership_id = actor;
  reason = reason;
}

-- The session is in progress and nobody has changed it since it was read.
abbrev pub is_unchanged_session : ServiceSession → ServiceSession → Bool
is_unchanged_session session row =
    row.id == session.id && is_in_progress row.status && row.version == session.version

unfoldable pub own_session_in_progress : Answers → TenantContext → ℕ → Db → Outcome ServiceSession
own_session_in_progress answers tenant session_id before = do
  has_manage ← assert_can_perform tenant
  session ← load_owned_session tenant.organization_id session_id before
  assert_membership_has_branch_access tenant session.branch_id
  assert_own_session_unless_manage answers tenant has_manage session.assigned_staff_profile_id
  throw_if (not (is_in_progress session.status)) (conflict service_session_not_in_progress)
  ok session

abbrev pub with_items : List ServiceItem → ℕ → ServiceSession → ServiceSession
with_items items currency row = record row {
  currency = currency;
  service_total_minor = total_price items;
  version = suc row.version;
  items = items;
}

unfoldable pub replace_items : Answers → TenantContext → ℕ → List ℕ → Db → Db → Outcome Db
replace_items answers tenant session_id service_ids before db = do
  session ← own_session_in_progress answers tenant session_id before
  items ← answers.service_items tenant.organization_id session.branch_id service_ids
  currency ← first_currency items
  throw_if (count_where (is_unchanged_session session) db.sessions == 0) (conflict plain)
  ok (record db {
    sessions = update_where (is_unchanged_session session) (with_items items currency) db.sessions;
    audits =
        db.audits
        ++ record {
          action = session_items_updated;
          entity_id = session_id;
          actor_membership_id = tenant.membership_id;
        }
          ∷ [];
  })
