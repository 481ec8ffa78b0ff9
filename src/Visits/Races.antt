-- ===== src/Visits/Races.antt =====
-- queue-commands.service.ts and service-sessions.service.ts: two commands that read the same
-- version of a row.
use kora_os.Common.{
  ℕ, ◌≡◌, refl, ap, subst, Bool, true, false, not, Option, List, [], ◌∷◌, ◌==◌, arith, Bool-cases,
  inl, inr, Outcome, ok, throws, conflict, throw_if, ◌>>◌, throw_if-eq-ok, >>=-eq-ok,
  bind_or_throw-eq-ok, ok-injective,
}
use kora_os.Common.Store.{count_where, update_where, find_first}
use kora_os.Access.Tenant.{TenantContext}
use kora_os.Visits.Schema.{
  QueueEntry, QueueEntryStatus, ServiceSession, ServiceSessionStatus, AuditAction, Db,
  BranchQueueDay,
}
use kora_os.Visits.Queue.{
  transition, transitioned, assert_queue_transition_allowed, allowed_transitions, includes_status,
  is_unchanged, moved, bump_queue_revision,
}
use kora_os.Visits.Sessions.{is_unchanged_session}
use kora_os.Visits.Starting.{start_transaction}
use kora_os.Visits.Ending.{finish_transaction, finished, finished_session, is_served}

-- The request is answered with 409.
abbrev pub is_conflict {ℓ} : {A : Type ℓ} → Outcome A → Bool
is_conflict (throws (conflict code)) = true
is_conflict _ = false

none_left :
    {A : Type 0} (p : A → Bool) (f : A → A)
    → ((a : A) → p a ≡ true → p (f a) ≡ false)
    → (xs : List A) → count_where p (update_where p f xs) ≡ 0
unfolding count_where update_where
none_left p f miss [] = refl
none_left p f miss (x ∷ xs) = elim (Bool-cases (p x)) [
  | inl e ↦ rw (e, miss x e) (none_left p f miss xs)
  | inr e ↦ rw (e, e) (none_left p f miss xs)
]

stale_entry :
    (entry : QueueEntry) (stamp : QueueEntry → QueueEntry) (next : QueueEntryStatus)
    (a : QueueEntry)
    → is_unchanged entry a ≡ true
    → is_unchanged entry (moved stamp next a) ≡ false
stale_entry entry stamp next a h = ground arith

conflicts {ℓ} :
    {A : Type ℓ} (test : Bool) (code : _) (k : Outcome A)
    → test ≡ true
    → is_conflict (throw_if test (conflict code) >> k) ≡ true
conflicts test code k h = rw h refl

either_conflict {ℓ} :
    {A : Type ℓ} (first second : Bool) (code code' : _) (k : Outcome A)
    → second ≡ true
    → is_conflict (throw_if first (conflict code) >> (throw_if second (conflict code') >> k)) ≡ true
either_conflict true second code code' k h = refl
either_conflict false second code code' k h = conflicts second code' k h

-- What a successful transition leaves of the row that it read.
after_transition :
    (tenant : TenantContext) (entry : QueueEntry) (next : QueueEntryStatus) (action : AuditAction)
    (stamp : QueueEntry → QueueEntry) (reason : Option ℕ) (db after : Db)
    → transition tenant entry next action stamp reason db ≡ ok after
    → (count_where (is_unchanged entry) after.entries == 0) ≡ true
unfolding transition transitioned assert_queue_transition_allowed
after_transition tenant entry next action stamp reason db after h =
    let (_, h1) =
      throw_if-eq-ok (not (includes_status (allowed_transitions entry.status) next)) _ _ h in
    let (_, h2) = throw_if-eq-ok (count_where (is_unchanged entry) db.entries == 0) _ _ h1 in
    let (days, _, h3) = >>=-eq-ok (bump_queue_revision entry.branch_queue_day_id db.days) _ h2 in
    subst (λ (d : Db). (count_where (is_unchanged entry) d.entries == 0) ≡ true) (ok-injective h3)
      (ap (λ n. n == 0)
        (none_left (is_unchanged entry) (moved stamp next) (stale_entry entry stamp next)
          db.entries))

-- When two transitions of the queue read the same version of an entry and one commits, the other one is
-- answered with a conflict, whatever its target, its timestamps and its caller are.
pub transition_only_once :
    (tenant other : TenantContext) (entry : QueueEntry) (next next' : QueueEntryStatus)
    (action action' : AuditAction) (stamp stamp' : QueueEntry → QueueEntry)
    (reason reason' : Option ℕ) (db after : Db)
    → transition tenant entry next action stamp reason db ≡ ok after
    → is_conflict (transition other entry next' action' stamp' reason' after) ≡ true
unfolding transition assert_queue_transition_allowed
transition_only_once tenant other entry next next' action action' stamp stamp' reason reason' db
      after h =
    gone (after_transition tenant entry next action stamp reason db after h)
  where
    gone :
        (count_where (is_unchanged entry) after.entries == 0) ≡ true
        → is_conflict (transition other entry next' action' stamp' reason' after) ≡ true
    gone e = either_conflict _ _ _ _ _ e

-- A customer whose entry was moved (cancelled, called, marked as a no-show) is not put in a chair by a
-- start that read the entry before: the start is answered with a conflict.
pub start_after_transition :
    (tenant other : TenantContext) (entry : QueueEntry) (next : QueueEntryStatus)
    (action : AuditAction) (stamp : QueueEntry → QueueEntry) (reason : Option ℕ)
    (session : ServiceSession) (now : ℕ) (db after : Db)
    → transition tenant entry next action stamp reason db ≡ ok after
    → is_conflict (start_transaction other entry session now after) ≡ true
unfolding start_transaction
start_after_transition tenant other entry next action stamp reason session now db after h =
    gone (after_transition tenant entry next action stamp reason db after h)
  where
    gone :
        (count_where (is_unchanged entry) after.entries == 0) ≡ true
        → is_conflict (start_transaction other entry session now after) ≡ true
    gone e = conflicts _ _ _ e

stale_session :
    (session : ServiceSession) (finish : ServiceSession → ServiceSession)
    (status : ServiceSessionStatus) (a : ServiceSession)
    → ((s : ServiceSession) → (finish s).id ≡ s.id)
    → is_unchanged_session session a ≡ true
    → is_unchanged_session session (finished_session finish status a) ≡ false
stale_session session finish status a keeps h = ground arith

-- Of two transactions that complete or cancel the same version of a session, when one whose change
-- keeps the session's identifier commits, the other one is answered with a conflict.
pub finish_only_once :
    (tenant other : TenantContext) (session : ServiceSession)
    (finish finish' : ServiceSession → ServiceSession) (release release' : QueueEntry → QueueEntry)
    (next next' : QueueEntryStatus) (status status' : ServiceSessionStatus)
    (reason reason' : Option ℕ) (db after : Db)
    → ((s : ServiceSession) → (finish s).id ≡ s.id)
    → finish_transaction tenant session finish release next status reason db ≡ ok after
    → is_conflict (finish_transaction other session finish' release' next' status' reason' after)
      ≡ true
unfolding finish_transaction finished
finish_only_once tenant other session finish finish' release release' next next' status status'
      reason reason' db after keeps h =
    let (_, h1) =
      throw_if-eq-ok (count_where (is_unchanged_session session) db.sessions == 0) _ _ h in
    let (_, h2) =
      throw_if-eq-ok (count_where (is_served session.queue_entry_id) db.entries == 0) _ _ h1 in
    let (entry, _, h3) =
      bind_or_throw-eq-ok (find_first (λ e. e.id == session.queue_entry_id) db.entries) _ _ h2 in
    let (days, _, h4) = >>=-eq-ok (bump_queue_revision entry.branch_queue_day_id db.days) _ h3 in
    conflicts _ _ _ (
      subst (λ (d : Db). (count_where (is_unchanged_session session) d.sessions == 0) ≡ true)
        (ok-injective h4) (ended days))
  where
    ended :
        (days : List BranchQueueDay)
        → (count_where
              (is_unchanged_session session)
              (finished tenant session finish release next status reason days db).sessions
            == 0)
          ≡ true
    ended days =
        ap (λ n. n == 0)
          (none_left (is_unchanged_session session) (finished_session finish status)
            (λ a e. stale_session session finish status a keeps e) db.sessions)
