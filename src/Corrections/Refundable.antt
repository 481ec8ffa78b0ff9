-- ===== src/Corrections/Refundable.antt =====
-- The corrections of one sale: the invariant of their rows, and the operations of
-- transaction-corrections.service.ts and transaction-correction-execution.service.ts on it.
use kora_os.Common.{
  ℕ, ◌+◌, ◌≤◌, ◌≡◌, refl, sym, ap, subst, Bool, true, false, some, List, [], ◌∷◌, ◌++◌, ◌==◌, any,
  is_some, if◌then◌else◌, All, All-append, ok, throw_if-eq-ok, ok-injective, arith,
}
use kora_os.Common.Store.{find_first, count_where, update_where, All-update_where, find_first-All}
use kora_os.Common.Rows.{count_where-update_same, All-trivial}
use kora_os.Access.Tenant.{TenantContext}
use kora_os.Transactions.{TransactionLineItem}
use kora_os.Corrections.Schema.{
  TransactionCorrectionStatus, executed, has_correction_status, TransactionCorrection,
  CorrectedSale, request_correction, is_correction, is_line, is_used_key, is_same_version,
  with_correction_status, move_correction,
}
use kora_os.Corrections.Requests.{repeats_line, has_zero_amount, create_correction}
use kora_os.Corrections.Execution.{execute_transaction}
use kora_os.Corrections.Execution.Lines.{is_executed, other_executed, executed_by_line}
use kora_os.Corrections.Execution.Postings.{ExecuteCorrection, with_execute_key}
use kora_os.Corrections.Executed.{execute_transaction-IsExecution}
use kora_os.Corrections.Amounts.{
  executed_amount, matched_amount, executed_amount-update, matched_amount-le, other_executed_all,
  check_items-bounded,
}

-- Identifiers are not taken twice, a correction names a line once, and of every line the executed
-- corrections took at most its price.
pub record IsRefundable (sale : CorrectedSale) : Type 0 where
  pub keys : (k : ℕ) → count_where (is_correction k) sale.corrections ≤ 1
  pub lines : All (λ c. repeats_line c.items ≡ false) sale.corrections
  pub within :
      (id : ℕ) (line : TransactionLineItem)
      → find_first (is_line id) sale.line_items ≡ some line
      → executed_amount id sale.corrections ≤ line.price_minor_snapshot

moved_keys :
    (read : TransactionCorrection) (next : TransactionCorrectionStatus) (override : Bool)
    (cs : List TransactionCorrection) (k : ℕ)
    → count_where
        (is_correction k)
        (update_where (is_same_version read) (with_correction_status next override) cs)
      ≡ count_where (is_correction k) cs
moved_keys read next override cs k =
    count_where-update_same (λ c. Unit {0}) (is_same_version read) (is_correction k)
      (with_correction_status next override) (λ c _ _. refl) cs (All-trivial cs)

moved_lines :
    (read : TransactionCorrection) (next : TransactionCorrectionStatus) (override : Bool)
    (cs : List TransactionCorrection)
    → All (λ c. repeats_line c.items ≡ false) cs
    → All
        (λ c. repeats_line c.items ≡ false)
        (update_where (is_same_version read) (with_correction_status next override) cs)
moved_lines read next override cs h =
    All-update_where (λ c. repeats_line c.items ≡ false) (is_same_version read)
      (with_correction_status next override) (λ c _ d. d) cs h

pub not_executed :
    (read c : TransactionCorrection)
    → is_executed read ≡ false
    → is_same_version read c ≡ true
    → is_executed c ≡ false
not_executed read c live same = ground arith

-- A decision or a cancellation of a correction that was not executed.
pub move_correction-IsRefundable :
    (tenant : TenantContext) (read : TransactionCorrection) (next : TransactionCorrectionStatus)
    (override : Bool) (sale after : CorrectedSale)
    → is_executed read ≡ false
    → has_correction_status executed next ≡ false
    → IsRefundable sale
    → move_correction tenant read next override sale ≡ ok after
    → IsRefundable after
unfolding move_correction
move_correction-IsRefundable tenant read next override sale after live other v h =
    let (_, h1) = throw_if-eq-ok (count_where (is_same_version read) sale.corrections == 0) _ _ h in
    subst IsRefundable (ok-injective h1) (record {
      keys = λ k. rw (moved_keys read next override sale.corrections k) (v.keys k);
      lines = moved_lines read next override sale.corrections v.lines;
      within = λ id line found.
          rw
            (
              executed_amount-update id (is_same_version read) next override
                  (λ c. not_executed read c live) sale.corrections,
              other,
            )
            (omega (arith, v.within id line found));
    })

count-append_fresh :
    (k : ℕ) (cs : List TransactionCorrection) (c : TransactionCorrection)
    → count_where (is_correction k) cs ≤ 1
    → any (λ x. x.id == c.id) cs ≡ false
    → count_where (is_correction k) (cs ++ c ∷ []) ≤ 1
unfolding count_where
count-append_fresh k cs c one fresh = go (is_correction k c) refl
  where
    added :
        (xs : List TransactionCorrection)
        → count_where (is_correction k) (xs ++ c ∷ [])
          ≡ count_where (is_correction k) xs + (if is_correction k c then 1 else 0)
    added [] = ground arith
    added (x ∷ xs) = ground (arith, added xs)

    absent :
        is_correction k c ≡ true
        → (xs : List TransactionCorrection) → any (λ x. x.id == c.id) xs ≡ false
        → count_where (is_correction k) xs ≡ 0
    absent hit [] e = refl
    absent hit (x ∷ xs) e = ground (arith, absent hit xs)

    go : (t : Bool) → is_correction k c ≡ t → count_where (is_correction k) (cs ++ c ∷ []) ≤ 1
    go true hit = ground (arith, added cs, absent hit cs fresh)
    go false miss = ground (arith, added cs)

executed_amount-append :
    (line : ℕ) (cs : List TransactionCorrection) (c : TransactionCorrection)
    → is_executed c ≡ false
    → executed_amount line (cs ++ c ∷ []) ≡ executed_amount line cs
unfolding executed_by_line
executed_amount-append line [] c live = ground arith
executed_amount-append line (x ∷ cs) c live = ground (arith, executed_amount-append line cs c live)

-- A new correction that is not executed.
pub create_correction-IsRefundable :
    (tenant : TenantContext) (correction : TransactionCorrection) (key fingerprint : ℕ)
    (sale after : CorrectedSale)
    → is_executed correction ≡ false
    → IsRefundable sale
    → create_correction tenant correction key fingerprint sale ≡ ok after
    → IsRefundable after
unfolding create_correction
create_correction-IsRefundable tenant correction key fingerprint sale after live v h =
    let (fresh, h1) = throw_if-eq-ok (any (λ c. c.id == correction.id) sale.corrections) _ _ h in
    let (_, h2) = throw_if-eq-ok (correction.total_requested_minor == 0) _ _ h1 in
    let (once, h3) = throw_if-eq-ok (repeats_line correction.items) _ _ h2 in
    let (_, h4) = throw_if-eq-ok (has_zero_amount correction.items) _ _ h3 in
    let (_, h5) =
      throw_if-eq-ok
        (is_some (
          find_first (is_used_key tenant.membership_id request_correction key)
            sale.idempotency_keys))
        _ _ h4 in
    subst IsRefundable (ok-injective h5) (record {
      keys = λ k. count-append_fresh k sale.corrections correction (v.keys k) fresh;
      lines =
          All-append (λ c. repeats_line c.items ≡ false) sale.corrections (correction ∷ []) v.lines
            (once, tt);
      within = λ id line found.
          rw (executed_amount-append id sale.corrections correction live) (v.within id line found);
    })

matched_version :
    (read c : TransactionCorrection)
    → is_same_version read c ≡ true
    → is_correction read.id c ≡ true
matched_version read c h = ground arith

pub found_id :
    (k : ℕ) (cs : List TransactionCorrection) (c : TransactionCorrection)
    → find_first (is_correction k) cs ≡ some c
    → c.id ≡ k
found_id k cs c h =
    let (_, hit) = find_first-All (λ x. Unit {0}) (is_correction k) cs c h (All-trivial cs) in
    ground (arith, hit)

-- The execution of a correction keeps every line within its price.
pub execute_transaction-IsRefundable :
    (tenant : TenantContext) (dto : ExecuteCorrection) (correction_id key : ℕ)
    (sale after : CorrectedSale)
    → IsRefundable sale
    → execute_transaction tenant dto correction_id key sale ≡ ok after
    → IsRefundable after
unfolding move_correction
execute_transaction-IsRefundable tenant dto correction_id key sale after v h =
    let x = execute_transaction-IsExecution tenant dto correction_id key sale after h in
    let c = x.locked in
    let (_, h1) =
      throw_if-eq-ok (count_where (is_same_version c) x.posted.corrections == 0) _ _ x.marked in
    let same : x.posted.corrections ≡ sale.corrections =
      ap (λ s. s.corrections) x.posting.is_posted in
    let same_lines : x.posted.line_items ≡ sale.line_items =
      ap (λ s. s.line_items) x.posting.is_posted in
    let live : is_executed c ≡ false = ground (arith, x.was_approved) in
    let by_id = found_id correction_id sale.corrections c x.found in
    let bounded : (id : ℕ) (line : TransactionLineItem)
        → find_first (is_line id) sale.line_items ≡ some line
        → executed_amount id sale.corrections
            + matched_amount id (is_same_version c) sale.corrections
          ≤ line.price_minor_snapshot =
      λ id line found.
        let others =
          other_executed_all id correction_id c live sale.corrections x.found
            (v.keys correction_id) in
        let once =
          (find_first-All (λ d. repeats_line d.items ≡ false) (is_correction correction_id)
            sale.corrections c x.found v.lines).0 in
        let checked =
          check_items-bounded sale.line_items
            (executed_by_line (other_executed correction_id sale.corrections)) c.items id line found
            (rw others (v.within id line found)) once x.checked in
        let matched =
          matched_amount-le id correction_id (is_same_version c) c
            (λ d e. subst (λ k. is_correction k d ≡ true) by_id (matched_version c d e))
            sale.corrections x.found (v.keys correction_id) in
        omega (arith, others, checked, matched) in
    subst IsRefundable (sym x.is_after) (
      subst (λ m. IsRefundable (with_execute_key tenant dto key correction_id m)) (ok-injective h1)
        (record {
          keys = λ k.
              rw (moved_keys c executed c.solo_owner_override x.posted.corrections k, same)
                (v.keys k);
          lines =
              moved_lines c executed c.solo_owner_override x.posted.corrections
                (subst (All (λ d. repeats_line d.items ≡ false)) (sym same) v.lines);
          within = λ id line found.
              rw
                (
                  executed_amount-update id (is_same_version c) executed c.solo_owner_override
                      (λ d. not_executed c d live) x.posted.corrections,
                  same,
                )
                (bounded id line
                  (subst (λ ls. find_first (is_line id) ls ≡ some line) same_lines found));
        }))
