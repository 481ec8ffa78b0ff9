-- ===== src/Corrections/Changes.antt =====
-- transaction-corrections.service.ts and transaction-correction-execution.service.ts: what an operation
-- that answers may change.
use kora_os.Common.{
  ℕ, ◌≡◌, refl, ap, ◌∙◌, Bool, true, false, not, ◌&&◌, ◌||◌, Option, none, some, List, ◌==◌, any,
  map, is_empty, Outcome, Exception, ok, throws, bad_request, plain, >>-eq-ok, >>=-eq-ok,
  throw_if-eq-ok, bind_or_throw-eq-ok, ok-injective, arith,
}
use kora_os.Money.{sum_minor_amounts}
use kora_os.Access.Tenant.{TenantContext, refunds_approve}
use kora_os.Inventory.Stock.{Inventory}
use kora_os.Corrections.Schema.{
  requested, approved, cancelled, executed, TransactionCorrectionStatus, has_correction_status,
  TransactionCorrectionItem, TransactionCorrection, CorrectedSale, is_reversal, request_correction,
  execute_correction, CashDrawer, load_owned_correction, check_correction_replay, move_correction,
}
use kora_os.Corrections.Requests.{
  CorrectionRequest, load_correctable_sale, amounts_of, check_requested_lines, create_correction,
  create_or_replay, request_refund, whole_line, request_reversal,
}
use kora_os.Corrections.Decisions.{assert_decision_authorized, decide, cancel_correction}
use kora_os.Corrections.Execution.{
  execute_transaction, answered, caught_execution, check_execution_session, execute_or_replay,
  execute,
}
use kora_os.Corrections.Execution.Lines.{is_executed}
use kora_os.Corrections.Execution.Postings.{ExecuteCorrection}

-- The kinds of change that the operations make to the corrections of a sale.
pub data Change (sale after : CorrectedSale) : Type 0 where
  change_none : sale ≡ after → Change sale after
  change_elsewhere :
      (inventory : Inventory) (drawers : List CashDrawer)
      → record sale { inventory = inventory; drawers = drawers } ≡ after
      → Change sale after
  change_created :
      (t : TenantContext) (c : TransactionCorrection) (key fingerprint : ℕ)
      → c.status ≡ requested
      → (is_reversal c.correction_type ≡ true → c.items ≡ map whole_line sale.line_items)
      → create_correction t c key fingerprint sale ≡ ok after
      → Change sale after
  change_moved :
      (t : TenantContext) (read : TransactionCorrection) (next : TransactionCorrectionStatus)
      (override : Bool)
      → is_executed read ≡ false
      → has_correction_status executed next ≡ false
      → move_correction t read next override sale ≡ ok after
      → Change sale after
  change_executed :
      (t : TenantContext) (dto : ExecuteCorrection) (id key : ℕ)
      → execute_transaction t dto id key sale ≡ ok after
      → Change sale after

first-ok :
    {A B : Type 0} {a b : A} {c d : B} → ◌≡◌ {A = Outcome (A × B)} (ok (a, c)) (ok (b, d)) → a ≡ b
first-ok h = ap (λ p. p.0) (ok-injective h)

create_or_replay-Change :
    (t : TenantContext) (correction c : TransactionCorrection) (key fingerprint : ℕ)
    (sale after : CorrectedSale) (replay : Option TransactionCorrection)
    → correction.status ≡ requested
    → (is_reversal correction.correction_type ≡ true
        → correction.items ≡ map whole_line sale.line_items)
    → create_or_replay t correction key fingerprint sale replay ≡ ok (after, c)
    → Change sale after
unfolding create_or_replay
create_or_replay-Change t correction c key fingerprint sale after (some existing) new whole h =
    change_none (first-ok h)
create_or_replay-Change t correction c key fingerprint sale after none new whole h =
    let (created, made, h1) = >>=-eq-ok (create_correction t correction key fingerprint sale) _ h in
    change_created t correction key fingerprint new whole (made ∙ ap ok (first-ok h1))

pub request_refund-Change :
    (t : TenantContext) (dto : CorrectionRequest) (lines : List TransactionCorrectionItem)
    (new_id : ℕ) (before sale after : CorrectedSale) (c : TransactionCorrection)
    → request_refund t dto lines new_id before sale ≡ ok (after, c)
    → Change sale after
unfolding request_refund
request_refund-Change t dto lines new_id before sale after c h =
    let (key, _, h1) = bind_or_throw-eq-ok dto.idempotency_key (bad_request plain) _ h in
    let (_, h2) = >>-eq-ok (load_correctable_sale t dto.transaction_id before) _ h1 in
    let (_, h3) = >>-eq-ok (check_requested_lines before.line_items lines) _ h2 in
    let (total, _, h4) = >>=-eq-ok (sum_minor_amounts (amounts_of lines)) _ h3 in
    let (replay, _, h5) =
      >>=-eq-ok
        (check_correction_replay request_correction t.membership_id key dto.request_fingerprint
          before)
        _ h4 in
    create_or_replay-Change t _ c key dto.request_fingerprint sale after replay refl
      (λ reversal. ground arith) h5

pub request_reversal-Change :
    (t : TenantContext) (dto : CorrectionRequest) (new_id : ℕ) (before sale after : CorrectedSale)
    (c : TransactionCorrection)
    → before.line_items ≡ sale.line_items
    → request_reversal t dto new_id before sale ≡ ok (after, c)
    → Change sale after
unfolding request_reversal
request_reversal-Change t dto new_id before sale after c same h =
    let (key, _, h1) = bind_or_throw-eq-ok dto.idempotency_key (bad_request plain) _ h in
    let (_, h2) = >>-eq-ok (load_correctable_sale t dto.transaction_id before) _ h1 in
    let (_, h3) =
      throw_if-eq-ok (any (λ c. has_correction_status executed c.status) before.corrections) _ _
        h2 in
    let (_, h4) = throw_if-eq-ok (is_empty before.line_items) _ _ h3 in
    let (replay, _, h5) =
      >>=-eq-ok
        (check_correction_replay request_correction t.membership_id key dto.request_fingerprint
          before)
        _ h4 in
    create_or_replay-Change t _ c key dto.request_fingerprint sale after replay refl
      (λ _. ap (map whole_line) same) h5

pub decide-Change :
    (t : TenantContext) (approver : ℕ → Bool) (id : ℕ) (reason : Bool)
    (status : TransactionCorrectionStatus) (before sale after : CorrectedSale)
    → has_correction_status executed status ≡ false
    → decide t approver id reason status before sale ≡ ok after
    → Change sale after
unfolding decide
decide-Change t approver id reason status before sale after other h =
    let (c, _, h1) = >>=-eq-ok (load_owned_correction t id before) _ h in
    let (was, h2) = throw_if-eq-ok (not (has_correction_status requested c.status)) _ _ h1 in
    let (override, _, h3) =
      >>=-eq-ok (assert_decision_authorized t approver c.requested_by_membership_id reason) _ h2 in
    change_moved t c status override (ground (arith, was)) other h3

pub cancel_correction-Change :
    (t : TenantContext) (id : ℕ) (before sale after : CorrectedSale)
    → cancel_correction t id before sale ≡ ok after
    → Change sale after
unfolding cancel_correction
cancel_correction-Change t id before sale after h =
    let (c, _, h1) = >>=-eq-ok (load_owned_correction t id before) _ h in
    let (was, h2) =
      throw_if-eq-ok
        (not (has_correction_status requested c.status || has_correction_status approved c.status))
        _ _ h1 in
    let (_, h3) =
      throw_if-eq-ok
        (not (t.membership_id == c.requested_by_membership_id)
          && not (t.permission_codes refunds_approve))
        _ _ h2 in
    change_moved t c cancelled c.solo_owner_override (ground (arith, was)) refl h3

-- An execution that answers has executed its transaction, or leaves the sale as it is.
pub execute-Change :
    (requires : ℕ → Bool) (t : TenantContext) (id : ℕ) (dto : ExecuteCorrection)
    (before sale after : CorrectedSale)
    → execute requires t id dto before sale ≡ ok after
    → Change sale after
unfolding execute execute_or_replay caught_execution answered
execute-Change requires t id dto before sale after h =
    let (key, _, h1) = bind_or_throw-eq-ok dto.idempotency_key (bad_request plain) _ h in
    let (c, _, h2) = >>=-eq-ok (load_owned_correction t id before) _ h1 in
    let (replay, _, h3) =
      >>=-eq-ok
        (check_correction_replay execute_correction t.membership_id key dto.request_fingerprint
          before)
        _ h2 in
    go key c replay h3
  where
    raced :
        (o : Option TransactionCorrection) (e : Exception)
        → answered o e sale ≡ ok after
        → Change sale after
    raced none e k = cc
    raced (some existing) e k = change_none (ok-injective k)

    settled :
        (c : TransactionCorrection) (key : ℕ) (o : Outcome CorrectedSale)
        → execute_transaction t dto c.id key sale ≡ o
        → caught_execution t dto key sale o ≡ ok after
        → Change sale after
    settled c key (ok done) is_o k = change_executed t dto c.id key (is_o ∙ k)
    settled c key (throws e) is_o k =
        let (o, _, k1) =
          >>=-eq-ok
            (check_correction_replay execute_correction t.membership_id key dto.request_fingerprint
              sale)
            _ k in
        raced o e k1

    go :
        (key : ℕ) (c : TransactionCorrection) (replay : Option TransactionCorrection)
        → execute_or_replay requires t dto c key sale replay ≡ ok after
        → Change sale after
    go key c (some existing) k = change_none (ok-injective k)
    go key c none k =
        let (_, k1) = throw_if-eq-ok (not (has_correction_status approved c.status)) _ _ k in
        let (_, k2) = >>-eq-ok (check_execution_session requires c dto.cash_session_id) _ k1 in
        settled c key (execute_transaction t dto c.id key sale) refl k2
