-- ===== src/Visits/Tests.antt =====
-- One customer in the queue of a branch: called, put in a chair, and served to the end.
use kora_os.Visits.Queue.{allocate_queue_ticket}
use kora_os.Visits.Tickets.{allocate_queue_ticket-consecutive}
use kora_os.Common.{suc, ℕ, ◌≡◌, refl, true, some, none, [], ◌∷◌, Outcome, ok, throws, arith}
use kora_os.Common.Store.{count_where, update_where, find_first}
use kora_os.Access.Tenant.{TenantContext, full, assert_membership_has_branch_access}
use kora_os.Access.Decisions.{assert_start_authorized}
use kora_os.Visits.Schema.{
  QueueEntry, waiting, called, cancelled, completed, in_service, entry_called, entry_cancelled,
  ServiceSession, in_progress, session_completed, session_cancelled, Db,
}
use kora_os.Visits.Queue.{
  call, transition, transitioned, assert_queue_transition_allowed, bump_queue_revision,
  load_owned_entry,
}
use kora_os.Visits.Sessions.{
  Answers, own_session_in_progress, load_owned_session, assert_can_perform,
  assert_own_session_unless_manage,
}
use kora_os.Visits.Starting.{start, find_entry, start_transaction, started}
use kora_os.Visits.Ending.{complete, finish_transaction, finished}
use kora_os.Visits.Races.{
  is_conflict, transition_only_once, start_after_transition, finish_only_once,
}
use kora_os.Visits.Serving.{IsConsistent}
use kora_os.Visits.Serving.Runs.{
  Reachable, here, next, step_call, step_start, step_complete, Reachable-IsConsistent,
}

abbrev manager : TenantContext
manager = record {
  membership_id = 1;
  organization_id = 7;
  user_id = 4;
  permission_codes = λ _. true;
  is_owner = true;
  branch_ids = [];
  access_mode = full;
}

abbrev customer : QueueEntry
customer = record {
  id = 10;
  organization_id = 7;
  branch_id = 3;
  branch_queue_day_id = 2;
  ticket_number = 1;
  status = waiting;
  version = 1;
  appointment_id = none;
  customer_record_id = 20;
  assigned_staff_profile_id = some 6;
  service_ids = 8 ∷ [];
  called_at = none;
  service_started_at = none;
  completed_at = none;
  cancelled_at = none;
  no_show_at = none;
}

abbrev morning : Db
morning = record {
  entries = customer ∷ [];
  entry_history = [];
  days =
      record {
        id = 2;
        organization_id = 7;
        branch_id = 3;
        business_date = 100;
        last_ticket_number = 1;
        revision = 1;
      }
      ∷ [];
  sessions = [];
  session_history = [];
  audits = [];
}

abbrev answers : Answers
answers = record {
  eligible = λ _ _ _ _. true;
  service_items = λ _ _ _.
      ok (record { service_id = 8; duration_minutes = 30; price_minor = 2500; currency = 1 } ∷ []);
  own_staff_profile = λ _ _. some 6;
}

-- The database after a command that went through.
abbrev after : Outcome Db → Db
after (ok db) = db
after (throws e) = morning

abbrev when_called : Db
when_called = after (call manager 10 50 morning morning)

abbrev when_seated : Db
when_seated = after (start answers manager 10 none 30 51 when_called when_called)

abbrev when_done : Db
when_done = after (complete answers manager 30 52 when_seated when_seated)

called_ok : call manager 10 50 morning morning ≡ ok when_called
unfolding call load_owned_entry transition transitioned assert_queue_transition_allowed
    bump_queue_revision assert_membership_has_branch_access count_where update_where find_first
called_ok = refl

seated_ok : start answers manager 10 none 30 51 when_called when_called ≡ ok when_seated
unfolding call load_owned_entry transition transitioned assert_queue_transition_allowed
    bump_queue_revision assert_membership_has_branch_access count_where update_where find_first
    start find_entry start_transaction started assert_start_authorized
seated_ok = refl

done_ok : complete answers manager 30 52 when_seated when_seated ≡ ok when_done
unfolding call load_owned_entry transition transitioned assert_queue_transition_allowed
    bump_queue_revision assert_membership_has_branch_access count_where update_where find_first
    start find_entry start_transaction started assert_start_authorized complete
    own_session_in_progress load_owned_session assert_can_perform assert_own_session_unless_manage
    finish_transaction finished
done_ok = refl

abbrev link : ℕ → ℕ
link _ = 10

morning-IsConsistent : IsConsistent link morning
unfolding count_where
morning-IsConsistent = record {
  entry_keys = λ k. ground arith;
  session_keys = λ k. ground arith;
  linked = tt;
  matched = λ k. ground arith;
  single = λ staff. ground arith;
}

to_called : Reachable link morning when_called
to_called = next here here (step_call manager 10 50 called_ok)

to_seated : Reachable link morning when_seated
unfolding call load_owned_entry transition transitioned assert_queue_transition_allowed
    bump_queue_revision assert_membership_has_branch_access count_where update_where find_first
to_seated = next to_called to_called (step_start answers manager 10 none 30 51 refl refl seated_ok)

Reachable-IsConsistent_example : IsConsistent link when_done
Reachable-IsConsistent_example =
    Reachable-IsConsistent link morning when_done morning-IsConsistent
      (next to_seated to_seated (step_complete answers manager 30 52 done_ok))

abbrev after_cancel : Db
after_cancel = after (transition manager customer cancelled entry_cancelled (λ e. e) none morning)

cancelled_ok :
    transition manager customer cancelled entry_cancelled (λ e. e) none morning ≡ ok after_cancel
unfolding transition transitioned assert_queue_transition_allowed bump_queue_revision count_where
    update_where
cancelled_ok = refl

transition_only_once_example :
    is_conflict (transition manager customer called entry_called (λ e. e) none after_cancel) ≡ true
transition_only_once_example =
    transition_only_once manager manager customer cancelled called entry_cancelled entry_called
      (λ e. e) (λ e. e) none none morning after_cancel cancelled_ok

abbrev haircut : ServiceSession
haircut = record {
  id = 30;
  organization_id = 7;
  branch_id = 3;
  queue_entry_id = 10;
  customer_record_id = 20;
  assigned_staff_profile_id = 6;
  status = in_progress;
  version = 1;
  currency = 1;
  service_total_minor = 2500;
  items = record { service_id = 8; duration_minutes = 30; price_minor = 2500; currency = 1 } ∷ [];
  completed_at = none;
  cancelled_at = none;
  cancel_disposition = none;
}

start_after_transition_example :
    is_conflict (start_transaction manager customer haircut 51 after_cancel) ≡ true
start_after_transition_example =
    start_after_transition manager manager customer cancelled entry_cancelled (λ e. e) none haircut
      51 morning after_cancel cancelled_ok

abbrev in_chair : Db
in_chair = record morning {
  entries = record customer { status = in_service; version = 2 } ∷ [];
  sessions = haircut ∷ [];
}

abbrev after_finish : Db
after_finish =
    after (
      finish_transaction manager haircut (λ s. s) (λ e. e) completed session_completed none
        in_chair)

finish_ok :
    finish_transaction manager haircut (λ s. s) (λ e. e) completed session_completed none in_chair
    ≡ ok after_finish
unfolding finish_transaction finished bump_queue_revision count_where update_where find_first
finish_ok = refl

finish_only_once_example :
    is_conflict (
      finish_transaction manager haircut
        (λ s. s)
        (λ e. e)
        waiting
        session_cancelled
        none
        after_finish)
    ≡ true
finish_only_once_example =
    finish_only_once manager manager haircut (λ s. s) (λ s. s) (λ e. e) (λ e. e) completed waiting
      session_completed session_cancelled none none in_chair after_finish (λ s. refl) finish_ok

allocate_queue_ticket-consecutive_example :
    let (days, id, ticket) = allocate_queue_ticket 5 7 3 101 morning.days in
    let (days', id', ticket') = allocate_queue_ticket 6 7 3 101 days in
    (id' ≡ id) × (ticket' ≡ suc ticket)
allocate_queue_ticket-consecutive_example =
    allocate_queue_ticket-consecutive 5 6 7 3 101 morning.days
