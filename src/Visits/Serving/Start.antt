-- ===== src/Visits/Serving/Start.antt =====
-- service-sessions.service.ts: `start` and `replaceItems` and the relation of Visits/Serving.
use kora_os.Common.{
  ℕ, ◌≡◌, refl, sym, ◌∙◌, subst, Bool, false, not, ◌&&◌, Option, List, ◌==◌, arith, ok,
  throw_if-eq-ok, >>-eq-ok, >>=-eq-ok, bind_or_throw-eq-ok, ok-injective, ==_iff, is_empty, or_else,
}
use kora_os.Common.Store.{find_first, count_where, update_where, find_first-All, All-update_where}
use kora_os.Access.Tenant.{
  sessions_start, sessions_perform, sessions_manage, TenantContext,
  assert_membership_has_branch_access,
}
use kora_os.Access.Decisions.{assert_start_authorized}
use kora_os.Visits.Schema.{
  QueueEntry, in_progress, QueueEntryStatus, in_service, same_status, ServiceSession, ServiceItem,
  Db,
}
use kora_os.Visits.Queue.{is_waiting_or_called, is_unchanged, bump_queue_revision}
use kora_os.Visits.Sessions.{
  Answers, serves, serves_entry, is_unchanged_session, replace_items, with_items, first_currency,
  own_session_in_progress,
}
use kora_os.Visits.Starting.{start, find_entry, start_transaction}
use kora_os.Common.Rows.{count_where-update_same, All-trivial}
use kora_os.Visits.Serving.{IsConsistent, started-IsConsistent}

module _ (link : ℕ → ℕ) where
  start_transaction-IsConsistent :
      (tenant : TenantContext) (entry : QueueEntry) (session : ServiceSession) (now : ℕ)
      (db after : Db)
      → same_status entry.status in_service ≡ false
      → session.status ≡ in_progress
      → session.queue_entry_id ≡ entry.id
      → link session.id ≡ entry.id
      → count_where (λ s. s.id == session.id) db.sessions ≡ 0
      → IsConsistent link db
      → start_transaction tenant entry session now db ≡ ok after
      → IsConsistent link after
  unfolding start_transaction
  start_transaction-IsConsistent tenant entry session now db after out running of_entry linked fresh
        v h =
      let (found, h1) = throw_if-eq-ok (count_where (is_unchanged entry) db.entries == 0) _ _ h in
      let (free, h2) =
        throw_if-eq-ok
          (not (count_where (serves session.assigned_staff_profile_id) db.sessions == 0)) _ _ h1 in
      let (_, h3) =
        throw_if-eq-ok (not (count_where (serves_entry entry.id) db.sessions == 0)) _ _ h2 in
      let (days, _, h4) = >>=-eq-ok (bump_queue_revision entry.branch_queue_day_id db.days) _ h3 in
      subst (IsConsistent link) (ok-injective h4) (
        started-IsConsistent link tenant entry session now days db out running of_entry linked fresh
          found (ground arith) v)

  pub replace_items-IsConsistent :
      (answers : Answers) (tenant : TenantContext) (session_id : ℕ) (service_ids : List ℕ)
      (before db after : Db)
      → IsConsistent link db
      → replace_items answers tenant session_id service_ids before db ≡ ok after
      → IsConsistent link after
  unfolding replace_items
  replace_items-IsConsistent answers tenant session_id service_ids before db after v h =
      let (session, own, h1) =
        >>=-eq-ok (own_session_in_progress answers tenant session_id before) _ h in
      let (items, _, h2) =
        >>=-eq-ok (answers.service_items tenant.organization_id session.branch_id service_ids) _
          h1 in
      let (currency, _, h3) = >>=-eq-ok (first_currency items) _ h2 in
      let (_, h4) =
        throw_if-eq-ok (count_where (is_unchanged_session session) db.sessions == 0) _ _ h3 in
      subst (IsConsistent link) (ok-injective h4) (record {
        entry_keys = v.entry_keys;
        session_keys = λ k. omega (
          arith,
          v.session_keys k,
          same_count session items currency (λ s. s.id == k) (λ a. refl),
        );
        linked =
            All-update_where (λ s. s.queue_entry_id ≡ link s.id) (is_unchanged_session session)
              (with_items items currency) (λ a _ l. l) db.sessions v.linked;
        matched = λ k. same_count session items currency (serves_entry k) (λ a. refl) ∙ v.matched k;
        single = λ staff.
            omega
              (arith, v.single staff, same_count session items currency (serves staff) (λ a. refl));
      })
    where
      same_count :
          (session : ServiceSession) (items : List ServiceItem) (currency : ℕ)
          (q : ServiceSession → Bool)
          → ((a : ServiceSession) → q (with_items items currency a) ≡ q a)
          → count_where q
              (update_where (is_unchanged_session session) (with_items items currency) db.sessions)
            ≡ count_where q db.sessions
      same_count session items currency q keeps =
          count_where-update_same (λ _. Unit {0}) (is_unchanged_session session) q
            (with_items items currency) (λ a _ _. keeps a) db.sessions (All-trivial db.sessions)

  waiting_not_served :
      (s : QueueEntryStatus)
      → not (is_waiting_or_called s) ≡ false
      → same_status s in_service ≡ false
  waiting_not_served s h = ground arith

  pub start-IsConsistent :
      (answers : Answers) (tenant : TenantContext) (entry_id : ℕ) (requested : Option ℕ)
      (new_id now : ℕ) (before db after : Db)
      → link new_id ≡ entry_id
      → count_where (λ s. s.id == new_id) db.sessions ≡ 0
      → IsConsistent link db
      → start answers tenant entry_id requested new_id now before db ≡ ok after
      → IsConsistent link after
  unfolding start find_entry
  start-IsConsistent answers tenant entry_id requested new_id now before db after linked fresh v h =
      let (_, h1) =
        throw_if-eq-ok
          (not (tenant.permission_codes sessions_manage)
            && not (tenant.permission_codes sessions_perform)
            && not (tenant.permission_codes sessions_start))
          _ _ h in
      let (entry, found, h2) =
        bind_or_throw-eq-ok
          (find_first (λ e. e.id == entry_id && e.organization_id == tenant.organization_id)
            before.entries)
          _ _ h1 in
      let (_, h3) = >>-eq-ok (assert_membership_has_branch_access tenant entry.branch_id) _ h2 in
      let (idle, h4) = throw_if-eq-ok (not (is_waiting_or_called entry.status)) _ _ h3 in
      let (_, h5) = throw_if-eq-ok (is_empty entry.service_ids) _ _ h4 in
      let (provider, _, h6) =
        bind_or_throw-eq-ok (or_else requested entry.assigned_staff_profile_id) _ _ h5 in
      let (_, h7) = >>-eq-ok (assert_start_authorized _) _ h6 in
      let (_, h8) =
        throw_if-eq-ok
          (not (answers.eligible tenant.organization_id entry.branch_id entry.service_ids provider))
          _ _ h7 in
      let (items, _, h9) =
        >>=-eq-ok (answers.service_items tenant.organization_id entry.branch_id entry.service_ids) _
          h8 in
      let (currency, _, h10) = >>=-eq-ok (first_currency items) _ h9 in
      let (_, hit) =
        find_first-All (λ _. Unit {0}) _ before.entries entry found (All-trivial before.entries) in
      let same : entry_id ≡ entry.id = sym ((==_iff entry.id entry_id).0 (ground arith)) in
      start_transaction-IsConsistent tenant entry _ now db after
        (waiting_not_served entry.status idle) refl same (linked ∙ same) fresh v h10
