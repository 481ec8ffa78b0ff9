-- ===== src/Visits/Serving.antt =====
-- The relation between the queue entries in service and the sessions in progress, and what the
-- writes of a transition and of a start do to it.
pub mod Finish
pub mod Commands
pub mod Endings
pub mod Start
pub mod Runs
use kora_os.Common.{
  ℕ, suc, ◌+◌, ◌≤◌, ◌≡◌, refl, sym, ap, ◌∙◌, subst, ◌≢◌, Bool, true, false, not, ◌&&◌, Option, none,
  some, List, [], ◌∷◌, ◌++◌, ◌==◌, All, if◌then◌else◌, arith, Bool-cases, inl, inr, ok, throws,
  ◌>>=◌, ◌>>◌, throw_if-eq-ok, >>-eq-ok, >>=-eq-ok, bind_or_throw-eq-ok, or_throw-eq-ok,
  ok-injective, throw_if, conflict, ==_iff,
}
use kora_os.Common.Store.{find_first, count_where, update_where, find_first-All, All-update_where}
use kora_os.Access.Tenant.{TenantContext}
use kora_os.Visits.Schema.{
  QueueEntry, QueueEntryStatus, waiting, called, in_service, completed, cancelled, no_show,
  same_status, same_status→≡, ServiceSession, ServiceSessionStatus, in_progress, is_in_progress,
  session_completed, session_cancelled, AuditAction, Db, BranchQueueDay,
}
use kora_os.Visits.Queue.{
  includes_status, allowed_transitions, assert_queue_transition_allowed, is_unchanged, moved,
  transition, transitioned, bump_queue_revision,
}
use kora_os.Visits.Sessions.{serves, serves_entry, is_unchanged_session}
use kora_os.Visits.Starting.{claimed, start_transaction, started}
use kora_os.Visits.Ending.{finished_session, is_served, finished, finish_transaction}
use kora_os.Common.Rows.{
  count_where-le, count_where-update_same, count_where-update_gain, count_where-update_loss,
  count_where-update_le, All-trivial,
}

-- `link` gives the queue entry that a session's identifier belongs to.
pub record IsConsistent (link : ℕ → ℕ) (db : Db) : Type 0 where
  pub entry_keys : (k : ℕ) → count_where (λ e. e.id == k) db.entries ≤ 1
  pub session_keys : (k : ℕ) → count_where (λ s. s.id == k) db.sessions ≤ 1
  pub linked : All (λ s. s.queue_entry_id ≡ link s.id) db.sessions
  pub matched :
      (k : ℕ) → count_where (serves_entry k) db.sessions ≡ count_where (is_served k) db.entries
  pub single : (staff : ℕ) → count_where (serves staff) db.sessions ≤ 1

-- A plain command neither takes an entry out of service nor puts it there.
pub plain_move :
    (current next : QueueEntryStatus)
    → includes_status (allowed_transitions current) next ≡ true
    → next ≢ in_service
    → next ≢ completed
    → (same_status current in_service ≡ false) × (same_status next in_service ≡ false)
plain_move waiting next h a b = ground arith
plain_move called next h a b = ground arith
plain_move in_service next h a b = ground arith
plain_move completed next h a b = ground arith
plain_move cancelled next h a b = ground arith
plain_move no_show next h a b = ground arith

no_conjunct : (a b c d : Bool) → c ≡ false → d ≡ false → (a && c) ≡ (b && d)
no_conjunct a b c d h k = ground arith

not_served :
    (s t : QueueEntryStatus)
    → same_status s t ≡ true
    → same_status t in_service ≡ false
    → same_status s in_service ≡ false
not_served s t h k = ground arith

idle_row :
    (entry : QueueEntry) (next : QueueEntryStatus) (k : ℕ) (new old : QueueEntry)
    → new.status ≡ next
    → same_status entry.status in_service ≡ false
    → same_status next in_service ≡ false
    → is_unchanged entry old ≡ true
    → is_served k new ≡ is_served k old
idle_row entry next k new old is out into same =
    let idle = not_served old.status entry.status (ground arith) out in
    let idle' : same_status new.status in_service ≡ false = rw is into in
    no_conjunct (new.id == k) (old.id == k) _ _ idle' idle

-- Timestamps are all that a stamp changes.
abbrev pub KeepsEntry : (QueueEntry → QueueEntry) → Type 0
KeepsEntry stamp = (e : QueueEntry) → (stamp e).id ≡ e.id

module _ (link : ℕ → ℕ) where
  pub transitioned-IsConsistent :
      (tenant : TenantContext) (entry : QueueEntry) (next : QueueEntryStatus) (action : AuditAction)
      (stamp : QueueEntry → QueueEntry) (reason : Option ℕ) (days : List BranchQueueDay) (db : Db)
      → KeepsEntry stamp
      → same_status entry.status in_service ≡ false
      → same_status next in_service ≡ false
      → IsConsistent link db
      → IsConsistent link (transitioned tenant entry next action stamp reason days db)
  unfolding transitioned
  transitioned-IsConsistent tenant entry next action stamp reason days db keeps out into v =
      record {
        entry_keys = λ k. omega (
          arith,
          v.entry_keys k,
          count_where-update_same (λ _. Unit {0}) (is_unchanged entry) (λ e. e.id == k)
              (moved stamp next) (λ a _ _. ap (λ i. i == k) (keeps a)) db.entries
              (All-trivial db.entries),
        );
        session_keys = v.session_keys;
        linked = v.linked;
        matched = λ k.
            v.matched k
            ∙ sym (
                count_where-update_same (λ _. Unit {0}) (is_unchanged entry) (is_served k)
                  (moved stamp next)
                  (λ a _ same. idle_row entry next k (moved stamp next a) a refl out into same)
                  db.entries (All-trivial db.entries));
        single = v.single;
      }

  -- The row that a start claims.
  claimed_row :
      (entry : QueueEntry) (now k : ℕ) (row : QueueEntry)
      → same_status entry.status in_service ≡ false
      → is_unchanged entry row ≡ true
      → (entry.id == k) ≡ true
      → (is_served k (claimed now row) ≡ true) × (is_served k row ≡ false)
  claimed_row entry now k row out same hit =
      let idle = not_served row.status entry.status (ground arith) out in
      (ground arith, no_conjunct (row.id == k) false _ false idle refl)

  other_row :
      (entry : QueueEntry) (now k : ℕ) (row : QueueEntry)
      → is_unchanged entry row ≡ true
      → (entry.id == k) ≡ false
      → is_served k (claimed now row) ≡ is_served k row
  other_row entry now k row same miss = ground arith

  one_unchanged :
      (entry : QueueEntry) (db : Db)
      → IsConsistent link db
      → (count_where (is_unchanged entry) db.entries == 0) ≡ false
      → count_where (is_unchanged entry) db.entries ≡ 1
  one_unchanged entry db v found =
      let few =
        count_where-le (is_unchanged entry) (λ e. e.id == entry.id) (λ a h. ground arith)
          db.entries in
      ground (arith, v.entry_keys entry.id)

  runs :
      (s : ServiceSessionStatus) (a b k : ℕ)
      → s ≡ in_progress
      → a ≡ b
      → (is_in_progress s && a == k) ≡ (b == k)
  runs s a b k h e = ground arith

  of_conjunct : (a b : Bool) → (a && b) ≡ true → b ≡ true
  of_conjunct a b h = ground arith

  -- A count by key stays at most one when a row is added under a key that none had.
  added_key :
      (test : Bool) (count : ℕ → ℕ) (key k : ℕ)
      → (test ≡ true → (key == k) ≡ true)
      → count k ≤ 1
      → count key ≡ 0
      → (if test then suc (count k) else count k) ≤ 1
  added_key true count key k hit few none_had =
      let same : key ≡ k = (==_iff key k).0 (hit refl) in omega (arith, ap count same, none_had)
  added_key false count key k hit few none_had = few

  pub started-IsConsistent :
      (tenant : TenantContext) (entry : QueueEntry) (session : ServiceSession) (now : ℕ)
      (days : List BranchQueueDay) (db : Db)
      → same_status entry.status in_service ≡ false
      → session.status ≡ in_progress
      → session.queue_entry_id ≡ entry.id
      → link session.id ≡ entry.id
      → count_where (λ s. s.id == session.id) db.sessions ≡ 0
      → (count_where (is_unchanged entry) db.entries == 0) ≡ false
      → count_where (serves session.assigned_staff_profile_id) db.sessions ≡ 0
      → IsConsistent link db
      → IsConsistent link (started tenant entry session now days db)
  unfolding started count_where
  started-IsConsistent tenant entry session now days db out running of_entry linked fresh found free
        v =
      record {
        entry_keys = λ k. omega (
          arith,
          v.entry_keys k,
          count_where-update_same (λ _. Unit {0}) (is_unchanged entry) (λ e. e.id == k)
              (claimed now) (λ a _ _. refl) db.entries (All-trivial db.entries),
        );
        session_keys = λ k.
            added_key (session.id == k) (λ j. count_where (λ s. s.id == j) db.sessions) session.id k
              (λ e. e) (v.session_keys k) fresh;
        linked = (of_entry ∙ sym linked, v.linked);
        matched = λ k. elim (Bool-cases (entry.id == k)) [
          | inl e ↦
              rw
                (
                  runs session.status session.queue_entry_id entry.id k running of_entry,
                  e,
                  count_where-update_gain (λ _. Unit {0}) (is_unchanged entry) (is_served k)
                      (claimed now) (λ a _ same. claimed_row entry now k a out same e) db.entries
                      (All-trivial db.entries),
                  one_unchanged entry db v found,
                )
                (omega (arith, v.matched k))
          | inr e ↦
              rw
                (
                  runs session.status session.queue_entry_id entry.id k running of_entry,
                  e,
                  count_where-update_same (λ _. Unit {0}) (is_unchanged entry) (is_served k)
                      (claimed now) (λ a _ same. other_row entry now k a same e) db.entries
                      (All-trivial db.entries),
                )
                (v.matched k)
        ];
        single = λ staff.
            added_key (serves staff session) (λ j. count_where (serves j) db.sessions)
              session.assigned_staff_profile_id staff (λ e. of_conjunct _ _ e) (v.single staff)
              free;
      }
