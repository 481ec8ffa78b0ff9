-- ===== src/Visits/Queue.antt =====
-- queue-transition.util.ts, queue-ticket.util.ts and queue-commands.service.ts. A command reads its
-- entry first and writes in a later transaction: `before` is the database that it reads, `db` the
-- one that the transaction finds. An exception in the transaction leaves `db` as it is.
use kora_os.Common.{
  ℕ, suc, Bool, false, not, ◌&&◌, ◌||◌, Option, none, some, List, [], ◌∷◌, ◌++◌, ◌==◌,
  if◌then◌else◌, Outcome, ok, throws, conflict, not_found, bad_request, internal, plain,
  queue_entry_invalid_transition, ◌>>=◌, ◌>>◌, throw_if, or_throw,
}
use kora_os.Common.Store.{find_first, count_where, update_where}
use kora_os.Access.Tenant.{TenantContext, assert_membership_has_branch_access}
use kora_os.Visits.Schema.{
  QueueEntryStatus, waiting, called, in_service, completed, cancelled, no_show, same_status,
  QueueEntry, BranchQueueDay, AuditAction, entry_called, entry_returned_to_waiting, entry_cancelled,
  entry_no_show, entry_assigned, Db,
}

-- `ALLOWED_TRANSITIONS`
abbrev pub allowed_transitions : QueueEntryStatus → List QueueEntryStatus
allowed_transitions waiting = called ∷ in_service ∷ cancelled ∷ no_show ∷ []
allowed_transitions called = waiting ∷ in_service ∷ cancelled ∷ no_show ∷ []
allowed_transitions in_service = completed ∷ []
allowed_transitions completed = []
allowed_transitions cancelled = []
allowed_transitions no_show = []

abbrev pub includes_status : List QueueEntryStatus → QueueEntryStatus → Bool
includes_status [] s = false
includes_status (x ∷ xs) s = same_status x s || includes_status xs s

unfoldable pub assert_queue_transition_allowed :
    QueueEntryStatus → QueueEntryStatus → Outcome (Unit {0})
assert_queue_transition_allowed current next =
    throw_if (not (includes_status (allowed_transitions current) next))
      (conflict queue_entry_invalid_transition)

-- `allocateQueueTicket`: the upsert of the day's row, with the identifier that a new row gets. The
-- result is the days, the day's identifier and the ticket.
abbrev pub is_day : ℕ → ℕ → ℕ → BranchQueueDay → Bool
is_day organization branch date day =
    day.organization_id == organization && day.branch_id == branch && day.business_date == date

unfoldable pub allocate_queue_ticket :
    ℕ → ℕ → ℕ → ℕ → List BranchQueueDay → List BranchQueueDay × ℕ × ℕ
allocate_queue_ticket new_id organization branch date [] = (
  record {
    id = new_id;
    organization_id = organization;
    branch_id = branch;
    business_date = date;
    last_ticket_number = 1;
    revision = 1;
  }
      ∷ [],
  new_id,
  1,
)
allocate_queue_ticket new_id organization branch date (day ∷ days) =
    let (days', id, ticket) = allocate_queue_ticket new_id organization branch date days in
    if is_day organization branch date day
    then (
      record day { last_ticket_number = suc day.last_ticket_number; revision = suc day.revision }
          ∷ days,
      day.id,
      suc day.last_ticket_number,
    )
    else (day ∷ days', id, ticket)

abbrev pub bump : BranchQueueDay → BranchQueueDay
bump day = record day { revision = suc day.revision }

-- An update of a row that is not there is an error of the database client.
unfoldable pub bump_queue_revision : ℕ → List BranchQueueDay → Outcome (List BranchQueueDay)
bump_queue_revision day_id days =
    if count_where (λ day. day.id == day_id) days == 0
    then throws internal
    else ok (update_where (λ day. day.id == day_id) bump days)

unfoldable pub load_owned_entry : TenantContext → ℕ → Db → Outcome QueueEntry
load_owned_entry tenant entry_id db = do
  entry ←
      or_throw
        (find_first (λ e. e.id == entry_id && e.organization_id == tenant.organization_id)
          db.entries)
        not_found
  assert_membership_has_branch_access tenant entry.branch_id
  ok entry

-- The row is the one that was read, and nobody has changed it since.
abbrev pub is_unchanged : QueueEntry → QueueEntry → Bool
is_unchanged entry row =
    row.id == entry.id && same_status row.status entry.status && row.version == entry.version

abbrev pub moved : (QueueEntry → QueueEntry) → QueueEntryStatus → QueueEntry → QueueEntry
moved stamp new_status row = record (stamp row) { status = new_status; version = suc row.version }

-- What the transaction of `transition` writes; `stamp` sets the timestamps of `options.data`.
unfoldable pub transitioned :
    TenantContext
    → QueueEntry
    → QueueEntryStatus
    → AuditAction
    → (QueueEntry → QueueEntry)
    → Option ℕ
    → List BranchQueueDay
    → Db
    → Db
transitioned tenant entry new_status action stamp reason days db = record db {
  entries = update_where (is_unchanged entry) (moved stamp new_status) db.entries;
  entry_history =
      db.entry_history
      ++ record {
        queue_entry_id = entry.id;
        previous_status = some entry.status;
        new_status = new_status;
        actor_membership_id = tenant.membership_id;
        reason = reason;
      }
        ∷ [];
  days = days;
  audits =
      db.audits
      ++ record {
        action = action;
        entity_id = entry.id;
        actor_membership_id = tenant.membership_id;
      }
        ∷ [];
}

unfoldable pub transition :
    TenantContext
    → QueueEntry
    → QueueEntryStatus
    → AuditAction
    → (QueueEntry → QueueEntry)
    → Option ℕ
    → Db
    → Outcome Db
transition tenant entry new_status action stamp reason db = do
  assert_queue_transition_allowed entry.status new_status
  throw_if (count_where (is_unchanged entry) db.entries == 0) (conflict plain)
  days ← bump_queue_revision entry.branch_queue_day_id db.days
  ok (transitioned tenant entry new_status action stamp reason days db)

unfoldable pub call : TenantContext → ℕ → ℕ → Db → Db → Outcome Db
call tenant entry_id now before db = do
  entry ← load_owned_entry tenant entry_id before
  transition tenant entry called entry_called (λ e. record e { called_at = some now }) none db

unfoldable pub return_to_waiting : TenantContext → ℕ → ℕ → Db → Db → Outcome Db
return_to_waiting tenant entry_id now before db = do
  entry ← load_owned_entry tenant entry_id before
  transition tenant entry waiting entry_returned_to_waiting (λ e. e) none db

unfoldable pub cancel : TenantContext → ℕ → Option ℕ → ℕ → Db → Db → Outcome Db
cancel tenant entry_id reason now before db = do
  entry ← load_owned_entry tenant entry_id before
  transition tenant entry cancelled entry_cancelled (λ e. record e { cancelled_at = some now })
      reason db

unfoldable pub mark_no_show : TenantContext → ℕ → ℕ → Db → Db → Outcome Db
mark_no_show tenant entry_id now before db = do
  entry ← load_owned_entry tenant entry_id before
  transition tenant entry no_show entry_no_show (λ e. record e { no_show_at = some now }) none db

abbrev pub is_waiting_or_called : QueueEntryStatus → Bool
is_waiting_or_called s = same_status s waiting || same_status s called

abbrev pub has_version : ℕ → ℕ → QueueEntry → Bool
has_version entry_id version row = row.id == entry_id && row.version == version

abbrev pub assigned_to : ℕ → QueueEntry → QueueEntry
assigned_to staff_profile_id row = record row {
  assigned_staff_profile_id = some staff_profile_id;
  version = suc row.version;
}

-- `assign`; `eligible` says whether the availability engine finds the member of staff eligible for
-- the entry's services.
unfoldable pub assign : (QueueEntry → ℕ → Bool) → TenantContext → ℕ → ℕ → Db → Db → Outcome Db
assign eligible tenant entry_id staff_profile_id before db = do
  entry ← load_owned_entry tenant entry_id before
  throw_if (not (is_waiting_or_called entry.status)) (conflict queue_entry_invalid_transition)
  throw_if (not (eligible entry staff_profile_id)) (bad_request plain)
  throw_if (count_where (has_version entry_id entry.version) db.entries == 0) (conflict plain)
  days ← bump_queue_revision entry.branch_queue_day_id db.days
  ok (record db {
    entries =
        update_where (has_version entry_id entry.version) (assigned_to staff_profile_id) db.entries;
    days = days;
    audits =
        db.audits
        ++ record {
          action = entry_assigned;
          entity_id = entry_id;
          actor_membership_id = tenant.membership_id;
        }
          ∷ [];
  })
