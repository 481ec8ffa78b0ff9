-- ===== src/Visits/Ending.antt =====
-- `complete` and `cancel` of service-sessions.service.ts.
use kora_os.Common.{
  ℕ, suc, Bool, ◌&&◌, Option, none, some, List, [], ◌∷◌, ◌++◌, ◌==◌, is_empty, Outcome, ok,
  conflict, bad_request, internal, plain, ◌>>=◌, ◌>>◌, throw_if, or_throw,
}
use kora_os.Common.Store.{find_first, count_where, update_where}
use kora_os.Access.Tenant.{TenantContext}
use kora_os.Visits.Schema.{
  QueueEntryStatus, waiting, in_service, completed, cancelled, same_status, QueueEntry,
  BranchQueueDay, ServiceSession, ServiceSessionStatus, in_progress, session_completed,
  session_cancelled, CancelDisposition, return_to_queue, cancel_visit, session_was_completed,
  session_was_cancelled, Db,
}
use kora_os.Visits.Queue.{bump_queue_revision, moved}
use kora_os.Visits.Sessions.{Answers, entry_moved, is_unchanged_session, own_session_in_progress}

abbrev pub is_served : ℕ → QueueEntry → Bool
is_served entry_id row = row.id == entry_id && same_status row.status in_service

abbrev pub finished_session :
    (ServiceSession → ServiceSession) → ServiceSessionStatus → ServiceSession → ServiceSession
finished_session finish session_status row = record (finish row) {
  status = session_status;
  version = suc row.version;
}

-- What the transaction that `complete` and `cancel` share writes: `finish` changes the session's row,
-- `release` the timestamps of the queue entry, which moves from IN_SERVICE to `next`.
unfoldable pub finished :
    TenantContext
    → ServiceSession
    → (ServiceSession → ServiceSession)
    → (QueueEntry → QueueEntry)
    → QueueEntryStatus
    → ServiceSessionStatus
    → Option ℕ
    → List BranchQueueDay
    → Db
    → Db
finished tenant session finish release next session_status reason days db = record db {
  sessions =
      update_where (is_unchanged_session session) (finished_session finish session_status)
        db.sessions;
  entries = update_where (is_served session.queue_entry_id) (moved release next) db.entries;
  entry_history =
      db.entry_history
      ++ entry_moved (some in_service) next session.queue_entry_id tenant.membership_id reason ∷ [];
  session_history =
      db.session_history
      ++ record {
        service_session_id = session.id;
        previous_status = some in_progress;
        new_status = session_status;
        actor_membership_id = tenant.membership_id;
      }
        ∷ [];
  days = days;
}

unfoldable pub finish_transaction :
    TenantContext
    → ServiceSession
    → (ServiceSession → ServiceSession)
    → (QueueEntry → QueueEntry)
    → QueueEntryStatus
    → ServiceSessionStatus
    → Option ℕ
    → Db
    → Outcome Db
finish_transaction tenant session finish release next session_status reason db = do
  throw_if (count_where (is_unchanged_session session) db.sessions == 0) (conflict plain)
  throw_if (count_where (is_served session.queue_entry_id) db.entries == 0) (conflict plain)
  entry ← or_throw (find_first (λ e. e.id == session.queue_entry_id) db.entries) internal
  days ← bump_queue_revision entry.branch_queue_day_id db.days
  ok (finished tenant session finish release next session_status reason days db)

unfoldable pub complete : Answers → TenantContext → ℕ → ℕ → Db → Db → Outcome Db
complete answers tenant session_id now before db = do
  session ← own_session_in_progress answers tenant session_id before
  throw_if (is_empty session.items) (bad_request plain)
  after ←
      finish_transaction tenant session (λ s. record s { completed_at = some now })
        (λ e. record e { completed_at = some now }) completed session_completed none db
  ok (record after {
    audits =
        after.audits
        ++ record {
          action = session_was_completed;
          entity_id = session_id;
          actor_membership_id = tenant.membership_id;
        }
          ∷ [];
  })

abbrev pub status_after_cancel : CancelDisposition → QueueEntryStatus
status_after_cancel return_to_queue = waiting
status_after_cancel cancel_visit = cancelled

abbrev pub stamp_after_cancel : CancelDisposition → ℕ → QueueEntry → QueueEntry
stamp_after_cancel return_to_queue now e = e
stamp_after_cancel cancel_visit now e = record e { cancelled_at = some now }

unfoldable pub cancel_session :
    Answers → TenantContext → ℕ → CancelDisposition → Option ℕ → ℕ → Db → Db → Outcome Db
cancel_session answers tenant session_id disposition reason now before db = do
  session ← own_session_in_progress answers tenant session_id before
  after ←
      finish_transaction tenant session
        (λ s. record s { cancelled_at = some now; cancel_disposition = some disposition })
        (stamp_after_cancel disposition now) (status_after_cancel disposition) session_cancelled
        reason db
  ok (record after {
    audits =
        after.audits
        ++ record {
          action = session_was_cancelled;
          entity_id = session_id;
          actor_membership_id = tenant.membership_id;
        }
          ∷ [];
  })
