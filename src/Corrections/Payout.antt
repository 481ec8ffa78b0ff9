-- ===== src/Corrections/Payout.antt =====
-- transaction-corrections.service.ts and transaction-correction-execution.service.ts: what a correction
-- pays out and takes back, and requests for reversals.
use kora_os.Common.{
  ℕ, ◌+◌, ◌≡◌, ◌≢◌, refl, sym, ap, ◌∙◌, subst, Bool, true, false, Option, none, some, List, [], ◌∷◌,
  ◌==◌, any, sum, map, is_some, is_empty, ok, bad_request, plain, >>-eq-ok, >>=-eq-ok,
  throw_if-eq-ok, bind_or_throw-eq-ok, ok-injective, of_some-eq-some, arith,
}
use kora_os.Common.Store.{find_first, count_where, find_first-All}
use kora_os.Access.Tenant.{TenantContext}
use kora_os.Transactions.{TransactionLineItem}
use kora_os.Commissions.Accrual.{CommissionAccrual}
use kora_os.Commissions.Adjustment.Bounds.{IsWithin, adjust_for_correction-IsWithin}
use kora_os.Corrections.Schema.{
  executed, has_correction_status, TransactionCorrection, TransactionCorrectionPayment,
  CorrectedSale, type_reversal, request_correction, is_reversal, is_correction, is_used_key,
  is_same_version, check_correction_replay, move_correction,
}
use kora_os.Corrections.Requests.{
  CorrectionRequest, load_correctable_sale, amounts_of, repeats_line, has_zero_amount, whole_line,
  new_correction, create_correction, create_or_replay, request_reversal,
}
use kora_os.Corrections.Execution.{execute_transaction}
use kora_os.Corrections.Execution.Postings.{ExecuteCorrection}
use kora_os.Corrections.Executed.{execute_transaction-IsExecution}
use kora_os.Corrections.Exclusive.{IsExclusive}
use kora_os.Corrections.Changes.{
  Change, change_none, change_elsewhere, change_created, change_moved, change_executed,
}
use kora_os.Corrections.Runs.{here, next, Step-Change, Reachable}

abbrev pub gross_of : List TransactionLineItem → ℕ
gross_of lines = sum (map (λ l. l.price_minor_snapshot) lines)

whole_lines :
    (lines : List TransactionLineItem) → sum (amounts_of (map whole_line lines)) ≡ gross_of lines
whole_lines [] = refl
whole_lines (l ∷ lines) = ap (λ n. l.price_minor_snapshot + n) (whole_lines lines)

-- An execution adds one payment, of exactly what the items of the approved correction ask for; for a
-- reversal that is the sum of the prices of the sale's lines, whatever the sale's own total is.
pub execute_transaction-paid :
    (tenant : TenantContext) (dto : ExecuteCorrection) (correction_id key : ℕ)
    (sale after : CorrectedSale)
    → IsExclusive sale
    → execute_transaction tenant dto correction_id key sale ≡ ok after
    → (c : TransactionCorrection) × (payment : TransactionCorrectionPayment) × (find_first
          (is_correction correction_id)
          sale.corrections
        ≡ some c)
      × (after.payments ≡ payment ∷ sale.payments)
      × (payment.amount_minor ≡ sum (amounts_of c.items))
      × (is_reversal c.correction_type ≡ true → payment.amount_minor ≡ gross_of sale.line_items)
unfolding move_correction
execute_transaction-paid tenant dto correction_id key sale after v h =
    let x = execute_transaction-IsExecution tenant dto correction_id key sale after h in
    let c = x.locked in
    let (_, h1) =
      throw_if-eq-ok (count_where (is_same_version c) x.posted.corrections == 0) _ _ x.marked in
    let (whole, _) =
      find_first-All
        (λ d. is_reversal d.correction_type ≡ true → d.items ≡ map whole_line sale.line_items)
        (is_correction correction_id) sale.corrections c x.found v.whole in
    (
      c,
      _,
      x.found,
      ap (λ s. s.payments) x.is_after
          ∙ ap (λ s. s.payments) (sym (ok-injective h1))
          ∙ ap (λ s. s.payments) x.posting.is_posted,
      x.posting.is_total,
      λ reversal.
          x.posting.is_total
          ∙ ap (λ is. sum (amounts_of is)) (whole reversal)
          ∙ whole_lines sale.line_items,
    )

Change-IsWithin :
    (line : ℕ) (original : CommissionAccrual) (sale after : CorrectedSale)
    → IsWithin line original sale.accruals
    → Change sale after
    → IsWithin line original after.accruals
unfolding create_correction move_correction
Change-IsWithin line original sale after v (change_none same) =
    subst (λ s. IsWithin line original s.accruals) same v
Change-IsWithin line original sale after v (change_elsewhere inventory drawers same) =
    subst (λ s. IsWithin line original s.accruals) same v
Change-IsWithin line original sale after v (change_created t c key fingerprint new whole h) =
    let (_, h1) = throw_if-eq-ok (any (λ d. d.id == c.id) sale.corrections) _ _ h in
    let (_, h2) = throw_if-eq-ok (c.total_requested_minor == 0) _ _ h1 in
    let (_, h3) = throw_if-eq-ok (repeats_line c.items) _ _ h2 in
    let (_, h4) = throw_if-eq-ok (has_zero_amount c.items) _ _ h3 in
    let (_, h5) =
      throw_if-eq-ok
        (is_some
          (find_first (is_used_key t.membership_id request_correction key) sale.idempotency_keys))
        _ _ h4 in
    subst (λ s. IsWithin line original s.accruals) (ok-injective h5) v
Change-IsWithin line original sale after v (change_moved t read status override live other h) =
    let (_, h1) = throw_if-eq-ok (count_where (is_same_version read) sale.corrections == 0) _ _ h in
    subst (λ s. IsWithin line original s.accruals) (ok-injective h1) v
Change-IsWithin line original sale after v (change_executed t dto id key h) =
    let x = execute_transaction-IsExecution t dto id key sale after h in
    let (_, h1) =
      throw_if-eq-ok (count_where (is_same_version x.locked) x.posted.corrections == 0) _ _
        x.marked in
    let same : after.accruals ≡ x.posting.accruals =
      ap (λ s. s.accruals) x.is_after
      ∙ ap (λ s. s.accruals) (sym (ok-injective h1))
      ∙ ap (λ s. s.accruals) x.posting.is_posted in
    subst (IsWithin line original) (sym same) (
      adjust_for_correction-IsWithin line original _ _ x.posting.pairings sale.accruals
        x.posting.accruals v x.posting.adjusted)

-- However many refunds and reversals of a sale are executed, in any order, the accrual of a line stays
-- as it is, and the commission that they take back from it in total never exceeds what it paid.
pub Reachable-IsWithin :
    (line : ℕ) (original : CommissionAccrual) (init sale : CorrectedSale)
    → IsWithin line original init.accruals
    → Reachable init sale
    → IsWithin line original sale.accruals
Reachable-IsWithin line original init sale v here = v
Reachable-IsWithin line original init after v (next {sale} r s) =
    Change-IsWithin line original sale after (Reachable-IsWithin line original init sale v r)
      (Step-Change sale after s)

no_zero :
    (lines : List TransactionLineItem)
    → any (λ l. l.price_minor_snapshot == 0) lines ≡ true
    → has_zero_amount (map whole_line lines) ≡ true
unfolding has_zero_amount
no_zero [] h = cc
no_zero (l ∷ lines) h = ground (arith, no_zero lines)

-- A sale with a line of price 0 cannot be reversed: a request that is no replay of an earlier one never
-- succeeds.
pub free_line_irreversible :
    (t : TenantContext) (dto : CorrectionRequest) (new_id key : ℕ) (before sale : CorrectedSale)
    (result : CorrectedSale × TransactionCorrection)
    → dto.idempotency_key ≡ some key
    → check_correction_replay request_correction t.membership_id key dto.request_fingerprint before
      ≡ ok none
    → any (λ l. l.price_minor_snapshot == 0) before.line_items ≡ true
    → request_reversal t dto new_id before sale ≢ ok result
unfolding request_reversal create_or_replay create_correction
free_line_irreversible t dto new_id key before sale result has_key new free h =
    let (key', is_key, h1) = bind_or_throw-eq-ok dto.idempotency_key (bad_request plain) _ h in
    let (_, h2) = >>-eq-ok (load_correctable_sale t dto.transaction_id before) _ h1 in
    let (_, h3) =
      throw_if-eq-ok (any (λ c. has_correction_status executed c.status) before.corrections) _ _
        h2 in
    let (_, h4) = throw_if-eq-ok (is_empty before.line_items) _ _ h3 in
    let (replay, replayed, h5) =
      >>=-eq-ok
        (check_correction_replay request_correction t.membership_id key' dto.request_fingerprint
          before)
        _ h4 in
    refused key' replay (of_some-eq-some (sym has_key ∙ is_key)) replayed h5
  where
    correction : TransactionCorrection
    correction =
        new_correction t dto type_reversal before.transaction.total_minor
          (map whole_line before.line_items) new_id before

    refused :
        (key' : ℕ) (replay : Option TransactionCorrection)
        → key ≡ key'
        → check_correction_replay request_correction t.membership_id key' dto.request_fingerprint
            before
          ≡ ok replay
        → create_or_replay t correction key' dto.request_fingerprint sale replay ≡ ok result
        → ⊥
    refused key' (some existing) same replayed k =
        let is_replay : ok none ≡ ok (some existing) =
          sym (
            subst
              (λ n.
                check_correction_replay request_correction t.membership_id n dto.request_fingerprint
                  before
                ≡ ok none)
              same new)
          ∙ replayed in
        cc
    refused key' none same replayed k =
        let (_, made, _) =
          >>=-eq-ok (create_correction t correction key' dto.request_fingerprint sale) _ k in
        let (_, k1) = throw_if-eq-ok (any (λ d. d.id == correction.id) sale.corrections) _ _ made in
        let (_, k2) = throw_if-eq-ok (correction.total_requested_minor == 0) _ _ k1 in
        let (_, k3) = throw_if-eq-ok (repeats_line correction.items) _ _ k2 in
        let (nonzero, _) = throw_if-eq-ok (has_zero_amount correction.items) _ _ k3 in
        clash _ (no_zero before.line_items free) nonzero
      where
        clash : (b : Bool) → b ≡ true → b ≡ false → ⊥
        clash true y n = cc
        clash false y n = cc
