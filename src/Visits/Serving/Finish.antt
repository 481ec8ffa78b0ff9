-- ===== src/Visits/Serving/Finish.antt =====
-- service-sessions.service.ts: the writes that end a session and the relation of
-- Visits/Serving.
use kora_os.Common.{
  ℕ, ◌≡◌, sym, ap, ◌∙◌, Bool, true, false, ◌&&◌, Option, List, ◌==◌, arith, Bool-cases, inl, inr,
}
use kora_os.Common.Store.{count_where, update_where, All-update_where}
use kora_os.Access.Tenant.{TenantContext}
use kora_os.Visits.Schema.{
  QueueEntry, QueueEntryStatus, in_service, same_status, ServiceSession, ServiceSessionStatus,
  is_in_progress, Db, BranchQueueDay,
}
use kora_os.Visits.Queue.{moved}
use kora_os.Visits.Sessions.{serves, serves_entry, is_unchanged_session}
use kora_os.Visits.Ending.{finished_session, is_served, finished}
use kora_os.Common.Rows.{
  count_where-le, count_where-update_same, count_where-update_loss, count_where-update_le,
  All-trivial,
}
use kora_os.Visits.Serving.{IsConsistent, KeepsEntry}

-- Changes of a session that keep what it is matched by.
abbrev pub KeepsSession : (ServiceSession → ServiceSession) → Type 0
KeepsSession f =
    (s : ServiceSession)
    → ((f s).id ≡ s.id)
      × ((f s).queue_entry_id ≡ s.queue_entry_id)
      × ((f s).assigned_staff_profile_id ≡ s.assigned_staff_profile_id)

module _ (link : ℕ → ℕ) where
  one_session :
      (session : ServiceSession) (db : Db)
      → IsConsistent link db
      → (count_where (is_unchanged_session session) db.sessions == 0) ≡ false
      → count_where (is_unchanged_session session) db.sessions ≡ 1
  one_session session db v found =
      let few =
        count_where-le (is_unchanged_session session) (λ s. s.id == session.id)
          (λ a h. ground arith) db.sessions in
      ground (arith, v.session_keys session.id)

  one_served :
      (entry_id : ℕ) (db : Db)
      → IsConsistent link db
      → (count_where (is_served entry_id) db.entries == 0) ≡ false
      → count_where (is_served entry_id) db.entries ≡ 1
  one_served entry_id db v found =
      let few =
        count_where-le (is_served entry_id) (λ e. e.id == entry_id) (λ a h. ground arith)
          db.entries in
      ground (arith, v.entry_keys entry_id)

  and_false : (a b : Bool) → a ≡ false → (a && b) ≡ false
  and_false a b h = ground arith

  false_and : (a b : Bool) → b ≡ false → (a && b) ≡ false
  false_and a b h = ground arith

  -- A row of the session that finishes belongs to the session's queue entry.
  of_same_session :
      (session row : ServiceSession)
      → session.queue_entry_id ≡ link session.id
      → row.queue_entry_id ≡ link row.id
      → is_unchanged_session session row ≡ true
      → (row.queue_entry_id ≡ session.queue_entry_id) × (is_in_progress row.status ≡ true)
  of_same_session session row linked l same =
      let ids : row.id ≡ session.id = ground arith in (l ∙ ap link ids ∙ sym linked, ground arith)

  served_test :
      (row : QueueEntry) (q k : ℕ)
      → is_served q row ≡ true
      → (q == k) ≡ true
      → is_served k row ≡ true
  served_test row q k h e = ground arith

  unserved_test :
      (row : QueueEntry) (q k : ℕ)
      → is_served q row ≡ true
      → (q == k) ≡ false
      → is_served k row ≡ false
  unserved_test row q k h e = ground arith

  entry_test :
      (running : Bool) (a q k : ℕ) (b : Bool)
      → a ≡ q
      → running ≡ true
      → (q == k) ≡ b
      → (running && a == k) ≡ b
  entry_test running a q k b h r e = ground arith

  finished_matched :
      (session : ServiceSession) (finish : ServiceSession → ServiceSession)
      (release : QueueEntry → QueueEntry) (next : QueueEntryStatus)
      (session_status : ServiceSessionStatus) (k : ℕ) (db : Db)
      → KeepsSession finish
      → KeepsEntry release
      → same_status next in_service ≡ false
      → is_in_progress session_status ≡ false
      → session.queue_entry_id ≡ link session.id
      → (count_where (is_unchanged_session session) db.sessions == 0) ≡ false
      → (count_where (is_served session.queue_entry_id) db.entries == 0) ≡ false
      → IsConsistent link db
      → count_where (serves_entry k) (
          update_where
            (is_unchanged_session session)
            (finished_session finish session_status)
            db.sessions)
        ≡ count_where
            (is_served k)
            (update_where (is_served session.queue_entry_id) (moved release next) db.entries)
  finished_matched session finish release next session_status k db fs re into over linked found
        served v =
      elim (Bool-cases (session.queue_entry_id == k)) [
        | inl e ↦ omega (
          arith,
          v.matched k,
          one_session session db v found,
          one_served session.queue_entry_id db v served,
          count_where-update_loss (λ s. s.queue_entry_id ≡ link s.id) (is_unchanged_session session)
              (serves_entry k) (finished_session finish session_status)
              (λ a l same.
                let (of_q, runs_on) = of_same_session session a linked l same in
                (and_false _ _ over, entry_test _ _ _ k true of_q runs_on e))
              db.sessions v.linked,
          count_where-update_loss (λ _. Unit {0}) (is_served session.queue_entry_id) (is_served k)
              (moved release next)
              (λ a _ same. (false_and _ _ into, served_test a session.queue_entry_id k same e))
              db.entries (All-trivial db.entries),
        )
        | inr e ↦ omega (
          arith,
          v.matched k,
          count_where-update_same (λ s. s.queue_entry_id ≡ link s.id) (is_unchanged_session session)
              (serves_entry k) (finished_session finish session_status)
              (λ a l same.
                let (of_q, runs_on) = of_same_session session a linked l same in
                and_false _ _ over ∙ sym (entry_test _ _ _ k false of_q runs_on e))
              db.sessions v.linked,
          count_where-update_same (λ _. Unit {0}) (is_served session.queue_entry_id) (is_served k)
              (moved release next)
              (λ a _ same.
                false_and _ _ into ∙ sym (unserved_test a session.queue_entry_id k same e))
              db.entries (All-trivial db.entries),
        )
      ]

  pub finished-IsConsistent :
      (tenant : TenantContext) (session : ServiceSession) (finish : ServiceSession → ServiceSession)
      (release : QueueEntry → QueueEntry) (next : QueueEntryStatus)
      (session_status : ServiceSessionStatus) (reason : Option ℕ) (days : List BranchQueueDay)
      (db : Db)
      → KeepsSession finish
      → KeepsEntry release
      → same_status next in_service ≡ false
      → is_in_progress session_status ≡ false
      → session.queue_entry_id ≡ link session.id
      → (count_where (is_unchanged_session session) db.sessions == 0) ≡ false
      → (count_where (is_served session.queue_entry_id) db.entries == 0) ≡ false
      → IsConsistent link db
      → IsConsistent link
          (finished tenant session finish release next session_status reason days db)
  unfolding finished
  finished-IsConsistent tenant session finish release next session_status reason days db fs re into
        over linked found served v =
      record {
        entry_keys = λ k. omega (
          arith,
          v.entry_keys k,
          count_where-update_same (λ _. Unit {0}) (is_served session.queue_entry_id)
              (λ e. e.id == k) (moved release next) (λ a _ _. ap (λ i. i == k) (re a)) db.entries
              (All-trivial db.entries),
        );
        session_keys = λ k. omega (
          arith,
          v.session_keys k,
          count_where-update_same (λ _. Unit {0}) (is_unchanged_session session) (λ s. s.id == k)
              (finished_session finish session_status) (λ a _ _. ap (λ i. i == k) (fs a).0)
              db.sessions (All-trivial db.sessions),
        );
        linked =
            All-update_where _ (is_unchanged_session session)
              (finished_session finish session_status)
              (λ a _ l. (fs a).1 ∙ l ∙ ap link (sym (fs a).0)) db.sessions v.linked;
        matched = λ k.
            finished_matched session finish release next session_status k db fs re into over linked
              found served v;
        single = λ staff. omega (
          arith,
          v.single staff,
          count_where-update_le (is_unchanged_session session) (serves staff)
              (finished_session finish session_status) (λ a _. and_false _ _ over) db.sessions,
        );
      }
