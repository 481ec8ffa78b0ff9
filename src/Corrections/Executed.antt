-- ===== src/Corrections/Executed.antt =====
-- transaction-correction-execution.service.ts: what an execution that succeeds has done.
use kora_os.Common.{
  ℕ, suc, ◌<◌, ◌≡◌, sym, ap, ◌∙◌, true, false, not, ◌&&◌, some, List, [], ◌∷◌, ◌==◌, sum, is_some,
  is_empty, map, ok, internal, >>-eq-ok, >>=-eq-ok, throw_if-eq-ok, bind_or_throw-eq-ok,
  ok-injective, arith,
}
use kora_os.Common.Store.{find_first}
use kora_os.Money.{sum_minor_amounts}
use kora_os.Sales.Soundness.{of_sum}
use kora_os.Access.Tenant.{TenantContext}
use kora_os.Transactions.{TransactionLineItem}
use kora_os.Inventory.Stock.{Inventory}
use kora_os.Commissions.Accrual.{CommissionAccrual}
use kora_os.Commissions.Adjustment.{CorrectiveLineItemPairing, adjust_for_correction}
use kora_os.Corrections.Schema.{
  approved, executed, has_correction_status, TransactionCorrectionItem, TransactionCorrection,
  CorrectedSale, execute_correction, CashDrawer, is_reversal, is_correction, is_line, is_used_key,
  move_correction,
}
use kora_os.Corrections.Requests.{amounts_of}
use kora_os.Corrections.Execution.{execute_transaction}
use kora_os.Corrections.Execution.Lines.{
  other_executed, executed_by_line, check_items, pair_items, remaining_refundable,
}
use kora_os.Corrections.Execution.Postings.{
  ExecuteCorrection, accrual_kind, restore_type, restore_stock, pay_cash, corrective_transaction,
  posted_correction, post_correction, with_execute_key,
}

abbrev pub corrective_items : List CorrectiveLineItemPairing → List TransactionLineItem
corrective_items pairings = map (λ p. p.corrective_line_item) pairings

-- What posting a correction leaves.
pub record IsPosting (tenant : TenantContext) (dto : ExecuteCorrection) (c : TransactionCorrection)
    (by_line : ℕ → ℕ) (sale posted : CorrectedSale) : Type 0 where
  pub pairings : List CorrectiveLineItemPairing
  pub total : ℕ
  pub inventory : Inventory
  pub accruals : List CommissionAccrual
  pub drawers : List CashDrawer
  pub paired : pair_items sale.line_items dto.new_line_id 0 c.items ≡ ok pairings
  pub is_total : total ≡ sum (amounts_of c.items)
  pub positive : 0 < total
  pub restored :
      restore_stock tenant dto.meanwhile sale.transaction.branch_id
        (restore_type c.correction_type)
        pairings
        sale.inventory
      ≡ ok inventory
  pub adjusted :
      adjust_for_correction
        (corrective_transaction tenant dto c total sale.transaction)
        (accrual_kind c.correction_type)
        pairings
        sale.accruals
      ≡ ok accruals
  pub paid : pay_cash tenant c dto.cash_session_id sale.transaction total sale.drawers ≡ ok drawers
  pub is_posted :
      posted
      ≡ posted_correction c
          (record {
            transaction = corrective_transaction tenant dto c total sale.transaction;
            items = corrective_items pairings;
            remaining_refundable_minor =
                remaining_refundable c.correction_type sale.line_items by_line c.items;
          })
          inventory
          accruals
          drawers
          sale

pair_items-amounts :
    (line_items : List TransactionLineItem) (new_line_id : ℕ → ℕ) (index : ℕ)
    (items : List TransactionCorrectionItem) (pairings : List CorrectiveLineItemPairing)
    → pair_items line_items new_line_id index items ≡ ok pairings
    → map (λ i. i.price_minor_snapshot) (corrective_items pairings) ≡ amounts_of items
unfolding pair_items
pair_items-amounts line_items new_line_id index [] pairings h =
    ap (λ ps. map (λ i. i.price_minor_snapshot) (corrective_items ps)) (sym (ok-injective h))
pair_items-amounts line_items new_line_id index (item ∷ items) pairings h =
    let (line, _, h1) =
      bind_or_throw-eq-ok (find_first (is_line item.original_transaction_line_item_id) line_items)
        internal _ h in
    let (rest, paired, h2) = >>=-eq-ok (pair_items line_items new_line_id (suc index) items) _ h1 in
    ap (λ ps. map (λ i. i.price_minor_snapshot) (corrective_items ps)) (sym (ok-injective h2))
    ∙ ap (λ r. item.requested_amount_minor ∷ r)
        (pair_items-amounts line_items new_line_id (suc index) items rest paired)

post_correction-IsPosting :
    (tenant : TenantContext) (dto : ExecuteCorrection) (c : TransactionCorrection) (by_line : ℕ → ℕ)
    (sale posted : CorrectedSale)
    → post_correction tenant dto c by_line sale ≡ ok posted
    → IsPosting tenant dto c by_line sale posted
unfolding post_correction
post_correction-IsPosting tenant dto c by_line sale posted h =
    let (pairings, paired, h1) =
      >>=-eq-ok (pair_items sale.line_items dto.new_line_id 0 c.items) _ h in
    let (total, summed, h2) =
      >>=-eq-ok (sum_minor_amounts (map (λ i. i.price_minor_snapshot) (corrective_items pairings)))
        _ h1 in
    let (inventory, restored, h3) =
      >>=-eq-ok
        (restore_stock tenant dto.meanwhile sale.transaction.branch_id
          (restore_type c.correction_type) pairings sale.inventory)
        _ h2 in
    let (accruals, adjusted, h4) =
      >>=-eq-ok
        (adjust_for_correction (corrective_transaction tenant dto c total sale.transaction)
          (accrual_kind c.correction_type) pairings sale.accruals)
        _ h3 in
    let (drawers, paid, h5) =
      >>=-eq-ok (pay_cash tenant c dto.cash_session_id sale.transaction total sale.drawers) _ h4 in
    let (nonzero, h6) = throw_if-eq-ok (total == 0) _ _ h5 in
    record {
      pairings = pairings;
      total = total;
      inventory = inventory;
      accruals = accruals;
      drawers = drawers;
      paired = paired;
      is_total =
          of_sum _ total summed
          ∙ ap sum (pair_items-amounts sale.line_items dto.new_line_id 0 c.items pairings paired);
      positive = ground arith;
      restored = restored;
      adjusted = adjusted;
      paid = paid;
      is_posted = sym (ok-injective h6);
    }

-- What an execution found and did, under the lock.
pub record IsExecution (tenant : TenantContext) (dto : ExecuteCorrection) (correction_id key : ℕ)
    (sale after : CorrectedSale) : Type 0 where
  pub locked : TransactionCorrection
  pub posted : CorrectedSale
  pub moved : CorrectedSale
  pub found : find_first (is_correction correction_id) sale.corrections ≡ some locked
  pub was_approved : has_correction_status approved locked.status ≡ true
  pub sole :
      (is_reversal locked.correction_type
        && not (is_empty (other_executed correction_id sale.corrections)))
      ≡ false
  pub checked :
      check_items sale.line_items
        (executed_by_line (other_executed correction_id sale.corrections))
        locked.items
      ≡ ok tt
  pub posting :
      IsPosting tenant dto locked
        (executed_by_line (other_executed correction_id sale.corrections))
        sale
        posted
  pub marked : move_correction tenant locked executed locked.solo_owner_override posted ≡ ok moved
  pub is_after : after ≡ with_execute_key tenant dto key correction_id moved

pub execute_transaction-IsExecution :
    (tenant : TenantContext) (dto : ExecuteCorrection) (correction_id key : ℕ)
    (sale after : CorrectedSale)
    → execute_transaction tenant dto correction_id key sale ≡ ok after
    → IsExecution tenant dto correction_id key sale after
unfolding execute_transaction
execute_transaction-IsExecution tenant dto correction_id key sale after h =
    let (locked, found, h1) =
      bind_or_throw-eq-ok (find_first (is_correction correction_id) sale.corrections) internal _
        h in
    let (was_approved, h2) =
      throw_if-eq-ok (not (has_correction_status approved locked.status)) _ _ h1 in
    let others = other_executed correction_id sale.corrections in
    let (sole, h3) =
      throw_if-eq-ok (is_reversal locked.correction_type && not (is_empty others)) _ _ h2 in
    let (checked, h4) =
      >>-eq-ok (check_items sale.line_items (executed_by_line others) locked.items) _ h3 in
    let (posted, is_posted, h5) =
      >>=-eq-ok (post_correction tenant dto locked (executed_by_line others) sale) _ h4 in
    let (moved, marked, h6) =
      >>=-eq-ok (move_correction tenant locked executed locked.solo_owner_override posted) _ h5 in
    let (_, h7) =
      throw_if-eq-ok
        (is_some (
          find_first (is_used_key tenant.membership_id execute_correction key)
            sale.idempotency_keys))
        _ _ h6 in
    record {
      locked = locked;
      posted = posted;
      moved = moved;
      found = found;
      was_approved = ground arith;
      sole = sole;
      checked = checked;
      posting =
          post_correction-IsPosting tenant dto locked (executed_by_line others) sale posted
            is_posted;
      marked = marked;
      is_after = sym (ok-injective h7);
    }
