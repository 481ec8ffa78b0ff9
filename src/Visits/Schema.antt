-- ===== src/Visits/Schema.antt =====
-- The rows of apps/api/prisma/schema.prisma that the queue and the sessions use, and the tables.
-- Identifiers, dates and instants are numbers; texts that are only stored (notes, names) are left
-- out.
use kora_os.Common.{ℕ, ◌≡◌, Bool, true, false, Option, List, ◌==◌, arith}

pub data QueueEntryStatus : Type 0 where
  waiting called in_service completed cancelled no_show : QueueEntryStatus

abbrev pub status_number : QueueEntryStatus → ℕ
status_number waiting = 0
status_number called = 1
status_number in_service = 2
status_number completed = 3
status_number cancelled = 4
status_number no_show = 5

abbrev pub same_status : QueueEntryStatus → QueueEntryStatus → Bool
same_status a b = status_number a == status_number b

pub same_status→≡ : (a b : QueueEntryStatus) → same_status a b ≡ true → a ≡ b
same_status→≡ a b h = ground arith

pub record QueueEntry : Type 0 where
  pub id : ℕ
  pub organization_id : ℕ
  pub branch_id : ℕ
  pub branch_queue_day_id : ℕ
  pub ticket_number : ℕ
  pub status : QueueEntryStatus
  pub version : ℕ
  pub appointment_id : Option ℕ
  pub customer_record_id : ℕ
  pub assigned_staff_profile_id : Option ℕ
  pub service_ids : List ℕ
  pub called_at : Option ℕ
  pub service_started_at : Option ℕ
  pub completed_at : Option ℕ
  pub cancelled_at : Option ℕ
  pub no_show_at : Option ℕ

pub record QueueEntryStatusHistory : Type 0 where
  pub queue_entry_id : ℕ
  pub previous_status : Option QueueEntryStatus
  pub new_status : QueueEntryStatus
  pub actor_membership_id : ℕ
  pub reason : Option ℕ

pub record BranchQueueDay : Type 0 where
  pub id : ℕ
  pub organization_id : ℕ
  pub branch_id : ℕ
  pub business_date : ℕ
  pub last_ticket_number : ℕ
  pub revision : ℕ

pub data ServiceSessionStatus : Type 0 where
  in_progress session_completed session_cancelled : ServiceSessionStatus

abbrev pub is_in_progress : ServiceSessionStatus → Bool
is_in_progress in_progress = true
is_in_progress session_completed = false
is_in_progress session_cancelled = false

pub data CancelDisposition : Type 0 where
  return_to_queue cancel_visit : CancelDisposition

pub record ServiceItem : Type 0 where
  pub service_id : ℕ
  pub duration_minutes : ℕ
  pub price_minor : ℕ
  pub currency : ℕ

pub record ServiceSession : Type 0 where
  pub id : ℕ
  pub organization_id : ℕ
  pub branch_id : ℕ
  pub queue_entry_id : ℕ
  pub customer_record_id : ℕ
  pub assigned_staff_profile_id : ℕ
  pub status : ServiceSessionStatus
  pub version : ℕ
  pub currency : ℕ
  pub service_total_minor : ℕ
  pub items : List ServiceItem
  pub completed_at : Option ℕ
  pub cancelled_at : Option ℕ
  pub cancel_disposition : Option CancelDisposition

pub record ServiceSessionStatusHistory : Type 0 where
  pub service_session_id : ℕ
  pub previous_status : Option ServiceSessionStatus
  pub new_status : ServiceSessionStatus
  pub actor_membership_id : ℕ

pub data AuditAction : Type 0 where
  entry_called entry_returned_to_waiting entry_cancelled entry_no_show entry_assigned : AuditAction
  session_started session_items_updated session_was_completed session_was_cancelled : AuditAction

pub record Audit : Type 0 where
  pub action : AuditAction
  pub entity_id : ℕ
  pub actor_membership_id : ℕ

pub record Db : Type 0 where
  pub entries : List QueueEntry
  pub entry_history : List QueueEntryStatusHistory
  pub days : List BranchQueueDay
  pub sessions : List ServiceSession
  pub session_history : List ServiceSessionStatusHistory
  pub audits : List Audit
