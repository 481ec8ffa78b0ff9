-- ===== src/Corrections/Exclusive.antt =====
-- Runs of the corrections of one sale: an executed reversal and the other executions.
use kora_os.Common.{
  ℕ, ◌+◌, ◌≤◌, ◌<◌, ◌≡◌, refl, sym, ap, ◌∙◌, subst, Bool, true, false, not, ◌&&◌, some, List, [],
  ◌∷◌, ◌++◌, ◌==◌, any, sum, map, is_empty, is_some, All, All-append, All-map, ok, throw_if-eq-ok,
  ok-injective, arith,
}
use kora_os.Common.Store.{find_first, count_where, update_where, All-update_where, find_first-All}
use kora_os.Access.Tenant.{TenantContext}
use kora_os.Corrections.Schema.{
  TransactionCorrectionStatus, approved, executed, has_correction_status, TransactionCorrection,
  CorrectedSale, is_reversal, request_correction, is_correction, is_used_key, is_same_version,
  with_correction_status, move_correction,
}
use kora_os.Corrections.Requests.{
  amounts_of, repeats_line, has_zero_amount, whole_line, create_correction,
}
use kora_os.Corrections.Execution.{execute_transaction}
use kora_os.Corrections.Execution.Lines.{is_executed, other_executed, executed_by_line, check_items}
use kora_os.Corrections.Execution.Postings.{ExecuteCorrection, with_execute_key}
use kora_os.Corrections.Amounts.{other_executed_all}
use kora_os.Corrections.Executed.{execute_transaction-IsExecution}
use kora_os.Corrections.Refundable.{IsRefundable, not_executed, found_id}
use kora_os.Corrections.Reversals.{is_executed_reversal, unique_row, reversed_refuses}
use kora_os.Corrections.Changes.{
  Change, change_none, change_elsewhere, change_created, change_moved, change_executed,
}
use kora_os.Corrections.Runs.{here, next, Step-Change, Reachable, Reachable-IsRefundable}

-- Items ask for something, a reversal asks for every line in full, and once a reversal was executed it
-- is the only executed correction.
pub record IsExclusive (sale : CorrectedSale) : Type 0 where
  pub positive : All (λ c. has_zero_amount c.items ≡ false) sale.corrections
  pub whole :
      All
        (λ c. is_reversal c.correction_type ≡ true → c.items ≡ map whole_line sale.line_items)
        sale.corrections
  pub sole :
      any is_executed_reversal sale.corrections ≡ true
      → count_where is_executed sale.corrections ≤ 1

module _ (p : TransactionCorrection → Bool) (status : TransactionCorrectionStatus)
    (override : Bool) where
  abbrev moved : List TransactionCorrection → List TransactionCorrection
  moved cs = update_where p (with_correction_status status override) cs

  count_executed-moved :
      has_correction_status executed status ≡ false
      → ((c : TransactionCorrection) → p c ≡ true → is_executed c ≡ false)
      → (cs : List TransactionCorrection)
      → (count_where is_executed (moved cs) ≡ count_where is_executed cs)
        × (any is_executed_reversal (moved cs) ≡ any is_executed_reversal cs)
  unfolding update_where count_where
  count_executed-moved other live [] = (refl, refl)
  count_executed-moved other live (c ∷ cs) =
      let (counts, anys) = count_executed-moved other live cs in
      (ground (arith, live c, counts), ground (arith, live c, anys))

  count_executed-executed :
      (cs : List TransactionCorrection)
      → count_where is_executed (moved cs) ≤ count_where is_executed cs + count_where p cs
  unfolding update_where count_where
  count_executed-executed [] = omega arith
  count_executed-executed (c ∷ cs) = ground (arith, count_executed-executed cs)

  any_reversal-refunds :
      (cs : List TransactionCorrection)
      → All (λ c. p c ≡ true → is_reversal c.correction_type ≡ false) cs
      → any is_executed_reversal cs ≡ false
      → any is_executed_reversal (moved cs) ≡ false
  unfolding update_where
  any_reversal-refunds [] h e = refl
  any_reversal-refunds (c ∷ cs) h e = ground (arith, h.0, any_reversal-refunds cs h.1)

others_empty :
    (k : ℕ) (cs : List TransactionCorrection)
    → is_empty (other_executed k cs) ≡ true
    → All (λ c. is_correction k c ≡ true → is_executed c ≡ false) cs
    → count_where is_executed cs ≡ 0
unfolding count_where
others_empty k [] e h = refl
others_empty k (c ∷ cs) e h = ground (arith, h.0, others_empty k cs)

matched_le :
    (read : TransactionCorrection) (cs : List TransactionCorrection)
    → count_where (is_same_version read) cs ≤ count_where (is_correction read.id) cs
unfolding count_where
matched_le read [] = omega arith
matched_le read (c ∷ cs) = ground (arith, matched_le read cs)

appended :
    (cs : List TransactionCorrection) (c : TransactionCorrection)
    → is_executed c ≡ false
    → (count_where is_executed (cs ++ c ∷ []) ≡ count_where is_executed cs)
      × (any is_executed_reversal (cs ++ c ∷ []) ≡ any is_executed_reversal cs)
unfolding count_where
appended [] c live = (ground arith, ground arith)
appended (x ∷ cs) c live =
    let (counts, anys) = appended cs c live in (ground (arith, counts), ground (arith, anys))

keeps_items :
    (P : TransactionCorrection → Type 0) (p : TransactionCorrection → Bool)
    (status : TransactionCorrectionStatus) (override : Bool)
    → ((c : TransactionCorrection) → P c → P (with_correction_status status override c))
    → (cs : List TransactionCorrection) → All P cs
    → All P (update_where p (with_correction_status status override) cs)
keeps_items P p status override keeps cs h =
    All-update_where P p (with_correction_status status override) (λ c _ d. keeps c d) cs h

moved-IsExclusive :
    (t : TenantContext) (read : TransactionCorrection) (status : TransactionCorrectionStatus)
    (override : Bool) (sale after : CorrectedSale)
    → is_executed read ≡ false
    → has_correction_status executed status ≡ false
    → IsExclusive sale
    → move_correction t read status override sale ≡ ok after
    → IsExclusive after
unfolding move_correction
moved-IsExclusive t read status override sale after live other v h =
    let (_, h1) = throw_if-eq-ok (count_where (is_same_version read) sale.corrections == 0) _ _ h in
    let (counts, anys) =
      count_executed-moved (is_same_version read) status override other
        (λ c. not_executed read c live) sale.corrections in
    subst IsExclusive (ok-injective h1) (record {
      positive =
          keeps_items (λ c. has_zero_amount c.items ≡ false) (is_same_version read) status override
            (λ c d. d) sale.corrections v.positive;
      whole =
          keeps_items
            (λ c. is_reversal c.correction_type ≡ true → c.items ≡ map whole_line sale.line_items)
            (is_same_version read) status override (λ c d. d) sale.corrections v.whole;
      sole = λ taken. rw counts (v.sole (sym anys ∙ taken));
    })

created-IsExclusive :
    (t : TenantContext) (c : TransactionCorrection) (key fingerprint : ℕ)
    (sale after : CorrectedSale)
    → is_executed c ≡ false
    → (is_reversal c.correction_type ≡ true → c.items ≡ map whole_line sale.line_items)
    → IsExclusive sale
    → create_correction t c key fingerprint sale ≡ ok after
    → IsExclusive after
unfolding create_correction
created-IsExclusive t c key fingerprint sale after live whole v h =
    let (_, h1) = throw_if-eq-ok (any (λ d. d.id == c.id) sale.corrections) _ _ h in
    let (_, h2) = throw_if-eq-ok (c.total_requested_minor == 0) _ _ h1 in
    let (_, h3) = throw_if-eq-ok (repeats_line c.items) _ _ h2 in
    let (positive, h4) = throw_if-eq-ok (has_zero_amount c.items) _ _ h3 in
    let (_, h5) =
      throw_if-eq-ok
        (is_some
          (find_first (is_used_key t.membership_id request_correction key) sale.idempotency_keys))
        _ _ h4 in
    let (counts, anys) = appended sale.corrections c live in
    subst IsExclusive (ok-injective h5) (record {
      positive =
          All-append (λ d. has_zero_amount d.items ≡ false) sale.corrections (c ∷ []) v.positive
            (positive, tt);
      whole =
          All-append
            (λ d. is_reversal d.correction_type ≡ true → d.items ≡ map whole_line sale.line_items)
            sale.corrections (c ∷ []) v.whole (whole, tt);
      sole = λ taken. rw counts (v.sole (sym anys ∙ taken));
    })

executed-IsExclusive :
    (t : TenantContext) (dto : ExecuteCorrection) (id key : ℕ) (sale after : CorrectedSale)
    → IsRefundable sale
    → IsExclusive sale
    → execute_transaction t dto id key sale ≡ ok after
    → IsExclusive after
unfolding move_correction
executed-IsExclusive t dto id key sale after u v h =
    let x = execute_transaction-IsExecution t dto id key sale after h in
    let c = x.locked in
    let (_, h1) =
      throw_if-eq-ok (count_where (is_same_version c) x.posted.corrections == 0) _ _ x.marked in
    let same : x.posted.corrections ≡ sale.corrections =
      ap (λ s. s.corrections) x.posting.is_posted in
    let same_lines : x.posted.line_items ≡ sale.line_items =
      ap (λ s. s.line_items) x.posting.is_posted in
    let moved_sole =
      alone c x.found x.was_approved x.sole x.checked x.posting.total x.posting.is_total
        x.posting.positive in
    subst IsExclusive (sym x.is_after) (
      subst (λ m. IsExclusive (with_execute_key t dto key id m)) (ok-injective h1)
        (record {
          positive =
              keeps_items (λ d. has_zero_amount d.items ≡ false) (is_same_version c) executed
                c.solo_owner_override (λ d e. e) x.posted.corrections
                (subst (All (λ d. has_zero_amount d.items ≡ false)) (sym same) v.positive);
          whole =
              keeps_items
                (λ d.
                  is_reversal d.correction_type ≡ true
                  → d.items ≡ map whole_line x.posted.line_items)
                (is_same_version c) executed c.solo_owner_override (λ d e. e) x.posted.corrections
                (subst
                  (λ ls.
                    All (λ d. is_reversal d.correction_type ≡ true → d.items ≡ map whole_line ls)
                      x.posted.corrections)
                  (sym same_lines)
                  (subst
                    (All (λ d.
                      is_reversal d.correction_type ≡ true
                      → d.items ≡ map whole_line sale.line_items))
                    (sym same) v.whole));
          sole =
              subst
                (λ cs.
                  any is_executed_reversal
                      (moved (is_same_version c) executed c.solo_owner_override cs)
                    ≡ true
                  → count_where is_executed
                      (moved (is_same_version c) executed c.solo_owner_override cs)
                    ≤ 1)
                (sym same) moved_sole;
        }))
  where
    alone :
        (c : TransactionCorrection)
        → find_first (is_correction id) sale.corrections ≡ some c
        → has_correction_status approved c.status ≡ true
        → (is_reversal c.correction_type && not (is_empty (other_executed id sale.corrections)))
          ≡ false
        → check_items sale.line_items
            (executed_by_line (other_executed id sale.corrections))
            c.items
          ≡ ok tt
        → (total : ℕ) → total ≡ sum (amounts_of c.items)
        → 0 < total
        → any is_executed_reversal
            (moved (is_same_version c) executed c.solo_owner_override sale.corrections)
          ≡ true
        → count_where is_executed
            (moved (is_same_version c) executed c.solo_owner_override sale.corrections)
          ≤ 1
    alone c found approved_c sole checked total is_total some_amount taken =
        go (is_reversal c.correction_type) refl sole
      where
        live : is_executed c ≡ false
        live = ground (arith, approved_c)

        unique : All (λ d. is_correction id d ≡ true → d ≡ c) sale.corrections
        unique = unique_row id c sale.corrections found (u.keys id)

        by_id : c.id ≡ id
        by_id = found_id id sale.corrections c found

        go :
            (r : Bool)
            → is_reversal c.correction_type ≡ r
            → (r && not (is_empty (other_executed id sale.corrections))) ≡ false
            → count_where is_executed
                (moved (is_same_version c) executed c.solo_owner_override sale.corrections)
              ≤ 1
        go true is_r s =
            let none_executed = others_empty id sale.corrections (ground arith) (
              All-map _ _ (λ d same hit. ap is_executed (same hit) ∙ live) sale.corrections
                unique) in
            omega (
              arith,
              count_executed-executed (is_same_version c) executed c.solo_owner_override
                  sale.corrections,
              none_executed,
              matched_le c sale.corrections,
              u.keys c.id,
            )
        go false is_r s =
            let positive =
              (find_first-All (λ d. has_zero_amount d.items ≡ false) (is_correction id)
                sale.corrections c found v.positive).0 in
            let free =
              reversed_refuses sale.line_items sale.corrections
                (executed_by_line (other_executed id sale.corrections)) c.items
                (λ line. other_executed_all line id c live sale.corrections found (u.keys id))
                v.whole (omega (arith, is_total, some_amount)) positive checked in
            let refunds =
              any_reversal-refunds (is_same_version c) executed c.solo_owner_override
                sale.corrections
                (All-map _ _
                  (λ d same hit.
                    ap (λ e. is_reversal e.correction_type)
                      (same (subst (λ k. is_correction k d ≡ true) by_id (ground (arith, hit))))
                    ∙ is_r)
                  sale.corrections unique)
                free in
            absurd (clash _ taken refunds)
          where
            clash : (b : Bool) → b ≡ true → b ≡ false → ⊥
            clash true y n = cc
            clash false y n = cc

Change-IsExclusive :
    (sale after : CorrectedSale)
    → IsRefundable sale
    → IsExclusive sale
    → Change sale after
    → IsExclusive after
Change-IsExclusive sale after u v (change_none same) = subst IsExclusive same v
Change-IsExclusive sale after u v (change_elsewhere inventory drawers same) =
    subst IsExclusive same (record { positive = v.positive; whole = v.whole; sole = v.sole })
Change-IsExclusive sale after u v (change_created t c key fingerprint new whole h) =
    created-IsExclusive t c key fingerprint sale after (ap (has_correction_status executed) new)
      whole v h
Change-IsExclusive sale after u v (change_moved t read status override live other h) =
    moved-IsExclusive t read status override sale after live other v h
Change-IsExclusive sale after u v (change_executed t dto id key h) =
    executed-IsExclusive t dto id key sale after u v h

-- From a posted sale without corrections on, whatever is requested, decided and executed in any order:
-- once a reversal was executed, no other refund or reversal of the sale is or ever will be executed,
-- and every reversal asks for the whole price of every line of the sale.
pub Reachable-IsExclusive :
    (init sale : CorrectedSale) → init.corrections ≡ [] → Reachable init sale → IsExclusive sale
unfolding count_where
Reachable-IsExclusive init sale new here = record {
  positive = rw new tt;
  whole = rw new tt;
  sole = rw new (λ taken. omega arith);
}
Reachable-IsExclusive init after new (next {sale} r s) =
    Change-IsExclusive sale after (Reachable-IsRefundable init sale new r)
      (Reachable-IsExclusive init sale new r) (Step-Change sale after s)
