-- ===== src/Visits/Starting.antt =====
-- `ServiceSessionsService.start` of service-sessions.service.ts.
use kora_os.Common.{
  ℕ, suc, not, ◌&&◌, Option, none, some, List, [], ◌∷◌, ◌++◌, ◌==◌, is_empty, is_some, or_else,
  if◌then◌else◌, Outcome, ok, conflict, not_found, bad_request, forbidden, plain,
  queue_entry_already_in_service, staff_already_serving, ◌>>=◌, ◌>>◌, throw_if, or_throw,
}
use kora_os.Common.Store.{find_first, count_where, update_where}
use kora_os.Access.Tenant.{
  TenantContext, assert_membership_has_branch_access, queue_manage, sessions_start,
  sessions_perform, sessions_manage,
}
use kora_os.Access.Decisions.{assert_start_authorized}
use kora_os.Visits.Schema.{
  in_service, QueueEntry, BranchQueueDay, ServiceSession, in_progress, session_started, Db,
}
use kora_os.Visits.Queue.{bump_queue_revision, is_unchanged, is_waiting_or_called}
use kora_os.Visits.Sessions.{
  Answers, total_price, first_currency, serves, serves_entry, entry_moved,
}

abbrev pub claimed : ℕ → QueueEntry → QueueEntry
claimed now row = record row {
  status = in_service;
  service_started_at = some now;
  version = suc row.version;
}

-- What the transaction of `start` writes.
unfoldable pub started :
    TenantContext → QueueEntry → ServiceSession → ℕ → List BranchQueueDay → Db → Db
started tenant entry session now days db = record db {
  entries = update_where (is_unchanged entry) (claimed now) db.entries;
  sessions = session ∷ db.sessions;
  entry_history =
      db.entry_history
      ++ entry_moved (some entry.status) in_service entry.id tenant.membership_id none ∷ [];
  session_history =
      db.session_history
      ++ record {
        service_session_id = session.id;
        previous_status = none;
        new_status = in_progress;
        actor_membership_id = tenant.membership_id;
      }
        ∷ [];
  days = days;
  audits =
      db.audits
      ++ record {
        action = session_started;
        entity_id = session.id;
        actor_membership_id = tenant.membership_id;
      }
        ∷ [];
}

-- The transaction, with its two unique constraints: at most one session in progress for a member of
-- staff, and for a queue entry.
unfoldable pub start_transaction : TenantContext → QueueEntry → ServiceSession → ℕ → Db → Outcome Db
start_transaction tenant entry session now db = do
  throw_if (count_where (is_unchanged entry) db.entries == 0)
      (conflict queue_entry_already_in_service)
  throw_if (not (count_where (serves session.assigned_staff_profile_id) db.sessions == 0))
      (conflict staff_already_serving)
  throw_if (not (count_where (serves_entry entry.id) db.sessions == 0))
      (conflict queue_entry_already_in_service)
  days ← bump_queue_revision entry.branch_queue_day_id db.days
  ok (started tenant entry session now days db)

unfoldable pub find_entry : ℕ → ℕ → Db → Outcome QueueEntry
find_entry organization entry_id db =
    or_throw (find_first (λ e. e.id == entry_id && e.organization_id == organization) db.entries)
      not_found

-- `new_id` is the identifier of the session's row.
unfoldable pub start : Answers → TenantContext → ℕ → Option ℕ → ℕ → ℕ → Db → Db → Outcome Db
start answers tenant entry_id requested new_id now before db = do
  let has_manage = tenant.permission_codes sessions_manage
  let has_perform = tenant.permission_codes sessions_perform
  let has_start = tenant.permission_codes sessions_start
  throw_if (not has_manage && not has_perform && not has_start) (forbidden plain)
  entry ← find_entry tenant.organization_id entry_id before
  assert_membership_has_branch_access tenant entry.branch_id
  throw_if (not (is_waiting_or_called entry.status)) (conflict queue_entry_already_in_service)
  throw_if (is_empty entry.service_ids) (bad_request plain)
  provider ← or_throw (or_else requested entry.assigned_staff_profile_id) (bad_request plain)
  assert_start_authorized (record {
    has_manage = has_manage;
    has_perform = has_perform;
    has_start = has_start;
    has_change_provider_permission = tenant.permission_codes queue_manage;
    own_staff_profile_id =
        if has_manage
        then none
        else answers.own_staff_profile tenant.organization_id tenant.membership_id;
    resolved_provider_staff_profile_id = provider;
    provider_explicitly_requested = is_some requested;
    currently_assigned_staff_profile_id = entry.assigned_staff_profile_id;
  })
  throw_if
      (not (answers.eligible tenant.organization_id entry.branch_id entry.service_ids provider))
      (bad_request plain)
  items ← answers.service_items tenant.organization_id entry.branch_id entry.service_ids
  currency ← first_currency items
  start_transaction tenant entry
      (record {
        id = new_id;
        organization_id = tenant.organization_id;
        branch_id = entry.branch_id;
        queue_entry_id = entry_id;
        customer_record_id = entry.customer_record_id;
        assigned_staff_profile_id = provider;
        status = in_progress;
        version = 1;
        currency = currency;
        service_total_minor = total_price items;
        items = items;
        completed_at = none;
        cancelled_at = none;
        cancel_disposition = none;
      })
      now db
