-- ===== src/Visits/Serving/Endings.antt =====
-- service-sessions.service.ts: `complete` and `cancel` and the relation of Visits/Serving.
use kora_os.Common.{
  ℕ, ◌≡◌, refl, subst, false, not, ◌&&◌, Option, none, some, List, ◌==◌, ok, throw_if-eq-ok,
  >>-eq-ok, >>=-eq-ok, bind_or_throw-eq-ok, ok-injective, is_empty,
}
use kora_os.Common.Store.{find_first, count_where, find_first-All}
use kora_os.Access.Tenant.{TenantContext, assert_membership_has_branch_access}
use kora_os.Visits.Schema.{
  QueueEntry, QueueEntryStatus, in_service, completed, same_status, ServiceSession,
  CancelDisposition, return_to_queue, cancel_visit, ServiceSessionStatus, is_in_progress,
  session_completed, session_cancelled, Db, Audit,
}
use kora_os.Visits.Queue.{bump_queue_revision}
use kora_os.Visits.Sessions.{
  Answers, is_unchanged_session, assert_can_perform, assert_own_session_unless_manage,
  own_session_in_progress, load_owned_session,
}
use kora_os.Visits.Ending.{
  is_served, finish_transaction, complete, cancel_session, stamp_after_cancel, status_after_cancel,
}
use kora_os.Visits.Serving.{IsConsistent, KeepsEntry}
use kora_os.Visits.Serving.Finish.{KeepsSession, finished-IsConsistent}

module _ (link : ℕ → ℕ) where
  finish_transaction-IsConsistent :
      (tenant : TenantContext) (session : ServiceSession) (finish : ServiceSession → ServiceSession)
      (release : QueueEntry → QueueEntry) (next : QueueEntryStatus)
      (session_status : ServiceSessionStatus) (reason : Option ℕ) (db after : Db)
      → KeepsSession finish
      → KeepsEntry release
      → same_status next in_service ≡ false
      → is_in_progress session_status ≡ false
      → session.queue_entry_id ≡ link session.id
      → IsConsistent link db
      → finish_transaction tenant session finish release next session_status reason db ≡ ok after
      → IsConsistent link after
  unfolding finish_transaction
  finish_transaction-IsConsistent tenant session finish release next session_status reason db after
        fs re into over linked v h =
      let (found, h1) =
        throw_if-eq-ok (count_where (is_unchanged_session session) db.sessions == 0) _ _ h in
      let (served, h2) =
        throw_if-eq-ok (count_where (is_served session.queue_entry_id) db.entries == 0) _ _ h1 in
      let (entry, _, h3) =
        bind_or_throw-eq-ok (find_first (λ e. e.id == session.queue_entry_id) db.entries) _ _ h2 in
      let (days, _, h4) = >>=-eq-ok (bump_queue_revision entry.branch_queue_day_id db.days) _ h3 in
      subst (IsConsistent link) (ok-injective h4) (
        finished-IsConsistent link tenant session finish release next session_status reason days db
          fs re into over linked found served v)

  -- The session that a handler works on is a row of the table that it read.
  of_own_session :
      (answers : Answers) (tenant : TenantContext) (session_id : ℕ) (before : Db)
      (session : ServiceSession)
      → IsConsistent link before
      → own_session_in_progress answers tenant session_id before ≡ ok session
      → session.queue_entry_id ≡ link session.id
  unfolding own_session_in_progress load_owned_session
  of_own_session answers tenant session_id before session w h =
      let (has_manage, _, h1) = >>=-eq-ok (assert_can_perform tenant) _ h in
      let (row, found, h2) =
        bind_or_throw-eq-ok
          (find_first (λ s. s.id == session_id && s.organization_id == tenant.organization_id)
            before.sessions)
          _ _ h1 in
      let (_, h3) = >>-eq-ok (assert_membership_has_branch_access tenant row.branch_id) _ h2 in
      let (_, h4) =
        >>-eq-ok
          (assert_own_session_unless_manage answers tenant has_manage row.assigned_staff_profile_id)
          _ h3 in
      let (_, h5) = throw_if-eq-ok (not (is_in_progress row.status)) _ _ h4 in
      subst (λ s. s.queue_entry_id ≡ link s.id) (ok-injective h5)
        (find_first-All (λ s. s.queue_entry_id ≡ link s.id) _ before.sessions row found w.linked).0

  -- The audit trail is not part of the relation.
  audited :
      (db : Db) (audits : List Audit)
      → IsConsistent link db
      → IsConsistent link (record db { audits = audits })
  audited db audits v = record {
    entry_keys = v.entry_keys;
    session_keys = v.session_keys;
    linked = v.linked;
    matched = v.matched;
    single = v.single;
  }

  pub complete-IsConsistent :
      (answers : Answers) (tenant : TenantContext) (session_id now : ℕ) (before db after : Db)
      → IsConsistent link before
      → IsConsistent link db
      → complete answers tenant session_id now before db ≡ ok after
      → IsConsistent link after
  unfolding complete
  complete-IsConsistent answers tenant session_id now before db after w v h =
      let (session, own, h1) =
        >>=-eq-ok (own_session_in_progress answers tenant session_id before) _ h in
      let (_, h2) = throw_if-eq-ok (is_empty session.items) _ _ h1 in
      let (done, finish, h3) =
        >>=-eq-ok
          (finish_transaction tenant session (λ s. record s { completed_at = some now })
            (λ e. record e { completed_at = some now }) completed session_completed none db)
          _ h2 in
      subst (IsConsistent link) (ok-injective h3) (
        audited done _ (
          finish_transaction-IsConsistent tenant session _ _ completed session_completed none db
            done (λ s. (refl, refl, refl)) (λ e. refl) refl refl
            (of_own_session answers tenant session_id before session w own) v finish))

  pub cancel_session-IsConsistent :
      (answers : Answers) (tenant : TenantContext) (session_id : ℕ)
      (disposition : CancelDisposition) (reason : Option ℕ) (now : ℕ) (before db after : Db)
      → IsConsistent link before
      → IsConsistent link db
      → cancel_session answers tenant session_id disposition reason now before db ≡ ok after
      → IsConsistent link after
  unfolding cancel_session
  cancel_session-IsConsistent answers tenant session_id disposition reason now before db after w v
        h =
      let (session, own, h1) =
        >>=-eq-ok (own_session_in_progress answers tenant session_id before) _ h in
      let (done, finish, h2) =
        >>=-eq-ok
          (finish_transaction tenant session
            (λ s. record s { cancelled_at = some now; cancel_disposition = some disposition })
            (stamp_after_cancel disposition now) (status_after_cancel disposition) session_cancelled
            reason db)
          _ h1 in
      subst (IsConsistent link) (ok-injective h2) (
        audited done _ (
          finish_transaction-IsConsistent tenant session _ _ (status_after_cancel disposition)
            session_cancelled reason db done (λ s. (refl, refl, refl)) (stamp_keeps disposition)
            (leaves disposition) refl
            (of_own_session answers tenant session_id before session w own) v finish))
    where
      stamp_keeps : (d : CancelDisposition) → KeepsEntry (stamp_after_cancel d now)
      stamp_keeps return_to_queue e = refl
      stamp_keeps cancel_visit e = refl

      leaves : (d : CancelDisposition) → same_status (status_after_cancel d) in_service ≡ false
      leaves return_to_queue = refl
      leaves cancel_visit = refl
