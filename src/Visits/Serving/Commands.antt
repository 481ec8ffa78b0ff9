-- ===== src/Visits/Serving/Commands.antt =====
-- queue-commands.service.ts: the commands of the queue and the relation of Visits/Serving.
use kora_os.Common.{
  ℕ, ◌≡◌, refl, sym, ◌∙◌, subst, ◌≢◌, Bool, not, Option, none, ◌==◌, arith, ok, throw_if-eq-ok,
  >>=-eq-ok, ok-injective,
}
use kora_os.Common.Store.{count_where}
use kora_os.Access.Tenant.{TenantContext}
use kora_os.Visits.Schema.{
  QueueEntry, QueueEntryStatus, waiting, called, in_service, completed, cancelled, no_show,
  AuditAction, Db,
}
use kora_os.Visits.Queue.{
  includes_status, allowed_transitions, assert_queue_transition_allowed, is_unchanged, transition,
  bump_queue_revision, call, return_to_waiting, cancel, mark_no_show, assign, has_version,
  assigned_to, load_owned_entry, is_waiting_or_called,
}
use kora_os.Visits.Ending.{is_served}
use kora_os.Common.Rows.{count_where-update_same, All-trivial}
use kora_os.Visits.Serving.{IsConsistent, KeepsEntry, plain_move, transitioned-IsConsistent}

module _ (link : ℕ → ℕ) where
  pub transition-IsConsistent :
      (tenant : TenantContext) (entry : QueueEntry) (next : QueueEntryStatus) (action : AuditAction)
      (stamp : QueueEntry → QueueEntry) (reason : Option ℕ) (db after : Db)
      → KeepsEntry stamp
      → next ≢ in_service
      → next ≢ completed
      → IsConsistent link db
      → transition tenant entry next action stamp reason db ≡ ok after
      → IsConsistent link after
  unfolding transition assert_queue_transition_allowed
  transition-IsConsistent tenant entry next action stamp reason db after keeps a b v h =
      let (allowed, h1) =
        throw_if-eq-ok (not (includes_status (allowed_transitions entry.status) next)) _ _ h in
      let (present, h2) =
        throw_if-eq-ok (count_where (is_unchanged entry) db.entries == 0) _ _ h1 in
      let (days, _, h3) = >>=-eq-ok (bump_queue_revision entry.branch_queue_day_id db.days) _ h2 in
      let (out, into) = plain_move entry.status next (ground arith) a b in
      subst (IsConsistent link) (ok-injective h3) (
        transitioned-IsConsistent link tenant entry next action stamp reason days db keeps out into
          v)

  pub call-IsConsistent :
      (tenant : TenantContext) (entry_id now : ℕ) (before db after : Db)
      → IsConsistent link db
      → call tenant entry_id now before db ≡ ok after
      → IsConsistent link after
  unfolding call
  call-IsConsistent tenant entry_id now before db after v h =
      let (entry, _, h1) = >>=-eq-ok (load_owned_entry tenant entry_id before) _ h in
      transition-IsConsistent tenant entry called _ _ none db after (λ e. refl) (ground arith)
        (ground arith) v h1

  pub return_to_waiting-IsConsistent :
      (tenant : TenantContext) (entry_id now : ℕ) (before db after : Db)
      → IsConsistent link db
      → return_to_waiting tenant entry_id now before db ≡ ok after
      → IsConsistent link after
  unfolding return_to_waiting
  return_to_waiting-IsConsistent tenant entry_id now before db after v h =
      let (entry, _, h1) = >>=-eq-ok (load_owned_entry tenant entry_id before) _ h in
      transition-IsConsistent tenant entry waiting _ _ none db after (λ e. refl) (ground arith)
        (ground arith) v h1

  pub cancel-IsConsistent :
      (tenant : TenantContext) (entry_id : ℕ) (reason : Option ℕ) (now : ℕ) (before db after : Db)
      → IsConsistent link db
      → cancel tenant entry_id reason now before db ≡ ok after
      → IsConsistent link after
  unfolding cancel
  cancel-IsConsistent tenant entry_id reason now before db after v h =
      let (entry, _, h1) = >>=-eq-ok (load_owned_entry tenant entry_id before) _ h in
      transition-IsConsistent tenant entry cancelled _ _ reason db after (λ e. refl) (ground arith)
        (ground arith) v h1

  pub mark_no_show-IsConsistent :
      (tenant : TenantContext) (entry_id now : ℕ) (before db after : Db)
      → IsConsistent link db
      → mark_no_show tenant entry_id now before db ≡ ok after
      → IsConsistent link after
  unfolding mark_no_show
  mark_no_show-IsConsistent tenant entry_id now before db after v h =
      let (entry, _, h1) = >>=-eq-ok (load_owned_entry tenant entry_id before) _ h in
      transition-IsConsistent tenant entry no_show _ _ none db after (λ e. refl) (ground arith)
        (ground arith) v h1

  pub assign-IsConsistent :
      (eligible : QueueEntry → ℕ → Bool) (tenant : TenantContext) (entry_id staff : ℕ)
      (before db after : Db)
      → IsConsistent link db
      → assign eligible tenant entry_id staff before db ≡ ok after
      → IsConsistent link after
  unfolding assign
  assign-IsConsistent eligible tenant entry_id staff before db after v h =
      let (entry, _, h1) = >>=-eq-ok (load_owned_entry tenant entry_id before) _ h in
      let (_, h2) = throw_if-eq-ok (not (is_waiting_or_called entry.status)) _ _ h1 in
      let (_, h3) = throw_if-eq-ok (not (eligible entry staff)) _ _ h2 in
      let (_, h4) =
        throw_if-eq-ok (count_where (has_version entry_id entry.version) db.entries == 0) _ _ h3 in
      let (days, _, h5) = >>=-eq-ok (bump_queue_revision entry.branch_queue_day_id db.days) _ h4 in
      subst (IsConsistent link) (ok-injective h5) (record {
        entry_keys = λ k. omega (
          arith,
          v.entry_keys k,
          count_where-update_same (λ _. Unit {0}) (has_version entry_id entry.version)
              (λ e. e.id == k) (assigned_to staff) (λ a _ _. refl) db.entries
              (All-trivial db.entries),
        );
        session_keys = v.session_keys;
        linked = v.linked;
        matched = λ k.
            v.matched k
            ∙ sym (
                count_where-update_same (λ _. Unit {0}) (has_version entry_id entry.version)
                  (is_served k) (assigned_to staff) (λ a _ _. refl) db.entries
                  (All-trivial db.entries));
        single = v.single;
      })
