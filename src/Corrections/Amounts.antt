-- ===== src/Corrections/Amounts.antt =====
-- transaction-correction-execution.service.ts: what was executed for each line, before and after a
-- change of the corrections, and the check of the items against it.
use kora_os.Common.{
  ℕ, suc, ◌+◌, ◌≤◌, ◌≡◌, refl, sym, ap, ◌∙◌, subst, Bool, true, false, not, ◌&&◌, some, List, [],
  ◌∷◌, any, keep, sum, ltb, if◌then◌else◌, ok, conflict, plain, >>-eq-ok, throw_if-eq-ok,
  bind_or_throw-eq-ok, of_some-eq-some, arith,
}
use kora_os.Common.Store.{find_first, count_where, update_where}
use kora_os.Transactions.{TransactionLineItem}
use kora_os.Corrections.Schema.{
  TransactionCorrectionStatus, executed, has_correction_status, TransactionCorrectionItem,
  TransactionCorrection, is_correction, is_line, with_correction_status,
}
use kora_os.Corrections.Requests.{amounts_of, is_item_of, repeats_line}
use kora_os.Corrections.Execution.Lines.{
  is_executed, other_executed, requested_for, executed_by_line, check_item, check_items,
}

-- What the executed corrections took from a line.
abbrev pub executed_amount : ℕ → List TransactionCorrection → ℕ
executed_amount line corrections = executed_by_line (keep is_executed corrections) line

-- What the corrections that pass the test ask for a line.
abbrev pub matched_amount : ℕ → (TransactionCorrection → Bool) → List TransactionCorrection → ℕ
matched_amount line p corrections = executed_by_line (keep p corrections) line

pub executed_amount-update :
    (line : ℕ) (p : TransactionCorrection → Bool) (next : TransactionCorrectionStatus)
    (override : Bool)
    → ((c : TransactionCorrection) → p c ≡ true → is_executed c ≡ false)
    → (cs : List TransactionCorrection)
    → executed_amount line (update_where p (with_correction_status next override) cs)
      ≡ executed_amount line cs
        + (if has_correction_status executed next then matched_amount line p cs else 0)
unfolding update_where executed_by_line
executed_amount-update line p next override live [] = ground arith
executed_amount-update line p next override live (c ∷ cs) =
    go (p c) (has_correction_status executed next) (is_executed c) refl refl (live c)
      (executed_amount-update line p next override live cs)
  where
    updated : List TransactionCorrection
    updated = update_where p (with_correction_status next override) cs

    go :
        (t n e : Bool)
        → has_correction_status executed next ≡ n
        → is_executed c ≡ e
        → (t ≡ true → e ≡ false)
        → executed_amount line updated
          ≡ executed_amount line cs + (if n then matched_amount line p cs else 0)
        → executed_amount line
            (if t then with_correction_status next override c ∷ updated else c ∷ updated)
          ≡ executed_by_line (if e then c ∷ keep is_executed cs else keep is_executed cs) line
            + (if n then executed_by_line (if t then c ∷ keep p cs else keep p cs) line else 0)
    go true n true is_n is_e unmatched rest = ground arith
    go true true false is_n is_e unmatched rest = ground arith
    go true false false is_n is_e unmatched rest = ground arith
    go false true true is_n is_e unmatched rest = ground arith
    go false true false is_n is_e unmatched rest = ground arith
    go false false true is_n is_e unmatched rest = ground arith
    go false false false is_n is_e unmatched rest = ground arith

none_matched :
    (line k : ℕ) (p : TransactionCorrection → Bool)
    → ((c : TransactionCorrection) → p c ≡ true → is_correction k c ≡ true)
    → (cs : List TransactionCorrection) → count_where (is_correction k) cs ≡ 0
    → matched_amount line p cs ≡ 0
unfolding count_where executed_by_line
none_matched line k p key [] h = refl
none_matched line k p key (c ∷ cs) h = ground (arith, key c, none_matched line k p key cs)

-- A test that only the correction with a given identifier passes finds at most what it asks for.
pub matched_amount-le :
    (line k : ℕ) (p : TransactionCorrection → Bool) (found : TransactionCorrection)
    → ((c : TransactionCorrection) → p c ≡ true → is_correction k c ≡ true)
    → (cs : List TransactionCorrection) → find_first (is_correction k) cs ≡ some found
    → count_where (is_correction k) cs ≤ 1
    → matched_amount line p cs ≤ requested_for line found.items
unfolding count_where find_first executed_by_line
matched_amount-le line k p found key [] h one = cc
matched_amount-le line k p found key (c ∷ cs) h one =
    go (is_correction k c) (p c) refl refl (key c) (matched_amount-le line k p found key cs)
      (none_matched line k p key cs) h one
  where
    go :
        (t q : Bool)
        → is_correction k c ≡ t
        → p c ≡ q
        → (q ≡ true → t ≡ true)
        → (find_first (is_correction k) cs ≡ some found
            → count_where (is_correction k) cs ≤ 1
            → matched_amount line p cs ≤ requested_for line found.items)
        → (count_where (is_correction k) cs ≡ 0 → matched_amount line p cs ≡ 0)
        → (if t then some c else find_first (is_correction k) cs) ≡ some found
        → (if t then suc (count_where (is_correction k) cs) else count_where (is_correction k) cs)
          ≤ 1
        → executed_by_line (if q then c ∷ keep p cs else keep p cs) line
          ≤ requested_for line found.items
    go true true is_t is_q same rest none_left e n =
        subst
          (λ f. requested_for line c.items + matched_amount line p cs ≤ requested_for line f.items)
          (of_some-eq-some e) (omega (arith, none_left (omega (arith, n))))
    go true false is_t is_q same rest none_left e n = omega (arith, none_left (omega (arith, n)))
    go false true is_t is_q same rest none_left e n = ground arith
    go false false is_t is_q same rest none_left e n = rest e n

none_other :
    (line k : ℕ) (cs : List TransactionCorrection)
    → count_where (is_correction k) cs ≡ 0
    → executed_by_line (other_executed k cs) line ≡ executed_amount line cs
unfolding count_where executed_by_line
none_other line k [] h = refl
none_other line k (c ∷ cs) h = ground (arith, none_other line k cs)

-- The other executed corrections are all of them, for a correction that is not executed itself.
pub other_executed_all :
    (line k : ℕ) (found : TransactionCorrection)
    → is_executed found ≡ false
    → (cs : List TransactionCorrection) → find_first (is_correction k) cs ≡ some found
    → count_where (is_correction k) cs ≤ 1
    → executed_by_line (other_executed k cs) line ≡ executed_amount line cs
unfolding count_where find_first executed_by_line
other_executed_all line k found live [] h one = cc
other_executed_all line k found live (c ∷ cs) h one =
    go (is_correction k c) (is_executed c) refl (other_executed_all line k found live cs)
      (none_other line k cs) h one
  where
    go :
        (t e : Bool)
        → is_executed c ≡ e
        → (find_first (is_correction k) cs ≡ some found
            → count_where (is_correction k) cs ≤ 1
            → executed_by_line (other_executed k cs) line ≡ executed_amount line cs)
        → (count_where (is_correction k) cs ≡ 0
            → executed_by_line (other_executed k cs) line ≡ executed_amount line cs)
        → (if t then some c else find_first (is_correction k) cs) ≡ some found
        → (if t then suc (count_where (is_correction k) cs) else count_where (is_correction k) cs)
          ≤ 1
        → executed_by_line
            (if e && not t then c ∷ other_executed k cs else other_executed k cs)
            line
          ≡ executed_by_line (if e then c ∷ keep is_executed cs else keep is_executed cs) line
    go true true is_e rest none_left f n =
        let same : is_executed found ≡ true =
          subst (λ x. is_executed x ≡ true) (of_some-eq-some f) is_e in
        absurd (bool_clash (is_executed found) same live)
      where
        bool_clash : (b : Bool) → b ≡ true → b ≡ false → ⊥
        bool_clash true y n = cc
        bool_clash false y n = cc
    go true false is_e rest none_left f n = none_left (omega (arith, n))
    go false true is_e rest none_left f n = ap (λ m. requested_for line c.items + m) (rest f n)
    go false false is_e rest none_left f n = rest f n

not_repeated :
    (line : ℕ) (items : List TransactionCorrectionItem)
    → any (is_item_of line) items ≡ false
    → requested_for line items ≡ 0
not_repeated line [] h = refl
not_repeated line (i ∷ items) h = ground (arith, not_repeated line items)

-- Items that pass the check, and name a line once, leave the line within its price.
pub check_items-bounded :
    (line_items : List TransactionLineItem) (by_line : ℕ → ℕ)
    (items : List TransactionCorrectionItem) (id : ℕ) (line : TransactionLineItem)
    → find_first (is_line id) line_items ≡ some line
    → by_line id ≤ line.price_minor_snapshot
    → repeats_line items ≡ false
    → check_items line_items by_line items ≡ ok tt
    → by_line id + requested_for id items ≤ line.price_minor_snapshot
unfolding check_items check_item repeats_line
check_items-bounded line_items by_line [] id line found within once h = omega (arith, within)
check_items-bounded line_items by_line (item ∷ items) id line found within once h =
    let (checked, h1) = >>-eq-ok (check_item line_items by_line item) _ h in
    let (other, is_other, e1) =
      bind_or_throw-eq-ok (find_first (is_line item.original_transaction_line_item_id) line_items)
        (conflict plain) _ checked in
    let (enough, _) =
      throw_if-eq-ok
        (ltb other.price_minor_snapshot
          (by_line item.original_transaction_line_item_id + item.requested_amount_minor))
        _ _ e1 in
    go (is_item_of id item) refl other is_other enough
      (check_items-bounded line_items by_line items id line found within (ground arith) h1)
  where
    go :
        (t : Bool)
        → is_item_of id item ≡ t
        → (other : TransactionLineItem)
        → find_first (is_line item.original_transaction_line_item_id) line_items ≡ some other
        → ltb other.price_minor_snapshot
            (by_line item.original_transaction_line_item_id + item.requested_amount_minor)
          ≡ false
        → by_line id + requested_for id items ≤ line.price_minor_snapshot
        → by_line id
            + sum (
                amounts_of
                  (if t then item ∷ keep (is_item_of id) items else keep (is_item_of id) items))
          ≤ line.price_minor_snapshot
    go true e other is_other enough rest =
        let at_id : item.original_transaction_line_item_id ≡ id = ground arith in
        let same : other ≡ line =
          of_some-eq-some
            (sym is_other ∙ ap (λ i. find_first (is_line i) line_items) at_id ∙ found) in
        let rest_none : requested_for id items ≡ 0 =
          not_repeated id items
            (subst (λ i. any (is_item_of i) items ≡ false) at_id (ground arith)) in
        let bound : by_line id + item.requested_amount_minor ≤ line.price_minor_snapshot =
          subst (λ o. by_line id + item.requested_amount_minor ≤ o.price_minor_snapshot) same
            (subst (λ i. by_line i + item.requested_amount_minor ≤ other.price_minor_snapshot) at_id
              (ground arith)) in
        omega (arith, bound, rest_none)
    go false e other is_other enough rest = rest
