-- ===== src/Visits/Serving/Runs.antt =====
-- Runs of the system: commands by any tenants, each one's transaction on the latest state, each one's
-- reads on any state that was reached before.
use kora_os.Common.{ℕ, ◌≡◌, Option, List, ok, Bool, ◌==◌}
use kora_os.Common.Store.{count_where}
use kora_os.Access.Tenant.{TenantContext}
use kora_os.Visits.Schema.{QueueEntry, CancelDisposition, Db}
use kora_os.Visits.Queue.{call, return_to_waiting, cancel, mark_no_show, assign}
use kora_os.Visits.Sessions.{Answers, replace_items}
use kora_os.Visits.Starting.{start}
use kora_os.Visits.Ending.{complete, cancel_session}
use kora_os.Visits.Serving.{IsConsistent}
use kora_os.Visits.Serving.Commands
use kora_os.Visits.Serving.Endings
use kora_os.Visits.Serving.Start

-- `Step link before db after`: a command that read `before` takes the database from `db` to `after`.
-- A new session gets an identifier that no session has; `link` records the entry it was made for.
pub data Step (link : ℕ → ℕ) (before db after : Db) : Type 0 where
  step_call :
      (t : TenantContext) (e now : ℕ)
      → call t e now before db ≡ ok after
      → Step link before db after
  step_return :
      (t : TenantContext) (e now : ℕ)
      → return_to_waiting t e now before db ≡ ok after
      → Step link before db after
  step_cancel :
      (t : TenantContext) (e : ℕ) (reason : Option ℕ) (now : ℕ)
      → cancel t e reason now before db ≡ ok after
      → Step link before db after
  step_no_show :
      (t : TenantContext) (e now : ℕ)
      → mark_no_show t e now before db ≡ ok after
      → Step link before db after
  step_assign :
      (eligible : QueueEntry → ℕ → Bool) (t : TenantContext) (e staff : ℕ)
      → assign eligible t e staff before db ≡ ok after
      → Step link before db after
  step_start :
      (answers : Answers) (t : TenantContext) (e : ℕ) (requested : Option ℕ) (new_id now : ℕ)
      → link new_id ≡ e
      → count_where (λ s. s.id == new_id) db.sessions ≡ 0
      → start answers t e requested new_id now before db ≡ ok after
      → Step link before db after
  step_items :
      (answers : Answers) (t : TenantContext) (s : ℕ) (services : List ℕ)
      → replace_items answers t s services before db ≡ ok after
      → Step link before db after
  step_complete :
      (answers : Answers) (t : TenantContext) (s now : ℕ)
      → complete answers t s now before db ≡ ok after
      → Step link before db after
  step_cancel_session :
      (answers : Answers) (t : TenantContext) (s : ℕ) (disposition : CancelDisposition)
      (reason : Option ℕ) (now : ℕ)
      → cancel_session answers t s disposition reason now before db ≡ ok after
      → Step link before db after

pub data Reachable (link : ℕ → ℕ) (init : Db) : Db → Type 0 where
  here : Reachable link init init
  next :
      {before db after : Db}
      → Reachable link init before
      → Reachable link init db
      → Step link before db after
      → Reachable link init after

Step-IsConsistent :
    (link : ℕ → ℕ) (before db after : Db)
    → IsConsistent link before
    → IsConsistent link db
    → Step link before db after
    → IsConsistent link after
Step-IsConsistent link before db after w v (step_call t e now h) =
    Commands.call-IsConsistent link t e now before db after v h
Step-IsConsistent link before db after w v (step_return t e now h) =
    Commands.return_to_waiting-IsConsistent link t e now before db after v h
Step-IsConsistent link before db after w v (step_cancel t e r now h) =
    Commands.cancel-IsConsistent link t e r now before db after v h
Step-IsConsistent link before db after w v (step_no_show t e now h) =
    Commands.mark_no_show-IsConsistent link t e now before db after v h
Step-IsConsistent link before db after w v (step_assign el t e staff h) =
    Commands.assign-IsConsistent link el t e staff before db after v h
Step-IsConsistent link before db after w v (step_start an t e r new_id now l f h) =
    Start.start-IsConsistent link an t e r new_id now before db after l f v h
Step-IsConsistent link before db after w v (step_items an t s services h) =
    Start.replace_items-IsConsistent link an t s services before db after v h
Step-IsConsistent link before db after w v (step_complete an t s now h) =
    Endings.complete-IsConsistent link an t s now before db after w v h
Step-IsConsistent link before db after w v (step_cancel_session an t s d r now h) =
    Endings.cancel_session-IsConsistent link an t s d r now before db after w v h

-- From a database whose queue entries in service match the sessions in progress, any interleaving of
-- the commands, with reads as stale as they like, reaches only such databases: for every entry, as many
-- sessions are in progress as rows of the entry are in service, and no member of staff has two.
pub Reachable-IsConsistent :
    (link : ℕ → ℕ) (init last : Db)
    → IsConsistent link init
    → Reachable link init last
    → IsConsistent link last
Reachable-IsConsistent link init last v here = v
Reachable-IsConsistent link init last v (next {before} {db} {after} r s step) =
    Step-IsConsistent link before db last (Reachable-IsConsistent link init before v r)
      (Reachable-IsConsistent link init db v s) step
