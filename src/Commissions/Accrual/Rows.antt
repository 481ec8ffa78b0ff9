-- ===== src/Commissions/Accrual/Rows.antt =====
-- commission-accrual.service.ts: which rows are created.
use kora_os.Common.{
  ℕ, ◌+◌, ◌≤◌, ◌≡◌, refl, sym, ap, ◌∙◌, subst, Bool, true, false, not, Bool-cases, inl, inr, ◌&&◌,
  Option, none, some, List, [], ◌∷◌, ◌++◌, ◌==◌, any, is_empty, map, if◌then◌else◌, All, ok,
  internal, ◌>>=◌, throw_if-eq-ok, >>=-eq-ok, bind_or_throw-eq-ok, ok-injective, arith,
}
use kora_os.Common.Int.{ℤ}
use kora_os.Common.Store.{count_where}
use kora_os.Transactions.{TransactionLineItem, Transaction}
use kora_os.Commissions.Calculation.{calculate_commission_amount}
use kora_os.Commissions.Precedence.{
  CandidateCommissionRule, CommissionScope, select_most_specific_rule,
}
use kora_os.Commissions.Allocation.{AmountMap, allocate_adjustments_across_lines}
use kora_os.Commissions.Accrual.{
  CommissionAccrual, CommissionRule, ServiceLine, service_line_items, allocation_line, calculation,
  basis_of, basis_amount, non_negative, earned_accrual, accrue_line, is_of_line, create_accrual,
  accrue_lines, is_already_accrued, pending_of, candidates, accrue_for_transaction,
}

any-append_left :
    (p : CommissionAccrual → Bool) (xs ys : List CommissionAccrual)
    → any p xs ≡ true
    → any p (xs ++ ys) ≡ true
any-append_left p [] ys h = cc
any-append_left p (x ∷ xs) ys h = ground (arith, any-append_left p xs ys)

any-append_last :
    (p : CommissionAccrual → Bool) (xs : List CommissionAccrual) (x : CommissionAccrual)
    → p x ≡ true
    → any p (xs ++ x ∷ []) ≡ true
any-append_last p [] x h = ground arith
any-append_last p (y ∷ xs) x h = ground (arith, any-append_last p xs x h)

append-last_first :
    (xs : List CommissionAccrual) (y : CommissionAccrual) (ys : List CommissionAccrual)
    → (xs ++ y ∷ []) ++ ys ≡ xs ++ y ∷ ys
append-last_first [] y ys = refl
append-last_first (x ∷ xs) y ys = ap (λ r. x ∷ r) (append-last_first xs y ys)

append-empty : (xs : List CommissionAccrual) → xs ≡ xs ++ []
append-empty [] = refl
append-empty (x ∷ xs) = ap (λ r. x ∷ r) (append-empty xs)

-- The parts of an accrual that is computed.
pub accrue_line_result :
    (rules : List CandidateCommissionRule) (transaction : Transaction) (net : AmountMap)
    (item : ServiceLine) (accrual : CommissionAccrual)
    → accrue_line rules transaction net item ≡ ok accrual
    → (basis : ℤ) × (amount : ℕ) × (stored : ℕ) × (let matched =
          select_most_specific_rule
            (record {
              branch_id = transaction.branch_id;
              staff_profile_id = item.staff_profile_id;
              service_id = item.service_id;
            })
            transaction.currency
            rules in
        (calculate_commission_amount (calculation matched) basis ≡ ok (some amount))
        × (non_negative basis ≡ ok stored)
        × (earned_accrual transaction item matched stored amount ≡ accrual))
unfolding accrue_line
accrue_line_result rules transaction net item accrual h =
    let (basis, _, h1) = >>=-eq-ok (basis_amount (basis_of matched) item net) _ h in
    let (calculated, computed, h2) =
      >>=-eq-ok (calculate_commission_amount (calculation matched) basis) _ h1 in
    let (amount, is_amount, h3) = bind_or_throw-eq-ok calculated internal _ h2 in
    let (stored, is_stored, h4) = >>=-eq-ok (non_negative basis) _ h3 in
    (basis, amount, stored, (computed ∙ ap ok is_amount, is_stored, ok-injective h4))
  where
    scope : CommissionScope
    scope = record {
      branch_id = transaction.branch_id;
      staff_profile_id = item.staff_profile_id;
      service_id = item.service_id;
    }

    matched : Option CandidateCommissionRule
    matched = select_most_specific_rule scope transaction.currency rules

earned_accrual-keys :
    (transaction : Transaction) (item : ServiceLine) (matched : Option CandidateCommissionRule)
    (stored amount : ℕ)
    → ((earned_accrual transaction item matched stored amount).transaction_id ≡ transaction.id)
      × ((earned_accrual transaction item matched stored amount).transaction_line_item_id ≡ item.id)
earned_accrual-keys transaction item none stored amount = (refl, refl)
earned_accrual-keys transaction item (some rule) stored amount = (refl, refl)

abbrev pub HasOneRowPerLine : List CommissionAccrual → Type 0
HasOneRowPerLine accruals = (line : ℕ) → count_where (is_of_line line) accruals ≤ 1

count-append_new :
    (line : ℕ) (xs : List CommissionAccrual) (x : CommissionAccrual)
    → count_where (is_of_line line) xs ≤ 1
    → any (is_of_line x.transaction_line_item_id) xs ≡ false
    → count_where (is_of_line line) (xs ++ x ∷ []) ≤ 1
unfolding count_where
count-append_new line xs x one new = elim (Bool-cases (is_of_line line x)) [
  | inl hit ↦ ground (arith, added xs, absent hit xs new)
  | inr miss ↦ ground (arith, added xs)
]
  where
    added :
        (ys : List CommissionAccrual)
        → count_where (is_of_line line) (ys ++ x ∷ [])
          ≡ count_where (is_of_line line) ys + (if is_of_line line x then 1 else 0)
    added [] = ground arith
    added (y ∷ ys) = ground (arith, added ys)

    absent :
        is_of_line line x ≡ true
        → (ys : List CommissionAccrual) → any (is_of_line x.transaction_line_item_id) ys ≡ false
        → count_where (is_of_line line) ys ≡ 0
    absent hit [] e = refl
    absent hit (y ∷ ys) e = ground (arith, absent hit ys)

pub create_accrual-rows :
    (accrual : CommissionAccrual) (accruals after : List CommissionAccrual)
    → create_accrual accrual accruals ≡ ok after
    → (after ≡ accruals ++ accrual ∷ []) × (HasOneRowPerLine accruals → HasOneRowPerLine after)
unfolding create_accrual
create_accrual-rows accrual accruals after h =
    let (new, h1) =
      throw_if-eq-ok (any (is_of_line accrual.transaction_line_item_id) accruals) _ _ h in
    (
      sym (ok-injective h1),
      λ one.
          subst HasOneRowPerLine (ok-injective h1)
            (λ line. count-append_new line accruals accrual (one line) new),
    )

-- What the accrual of a list of lines adds, for any property of the rows that are computed.
pub accrue_lines-rows :
    (P : CommissionAccrual → Type 0) (rules : List CandidateCommissionRule)
    (transaction : Transaction) (net : AmountMap)
    → ((item : ServiceLine) (a : CommissionAccrual)
        → accrue_line rules transaction net item ≡ ok a
        → P a)
    → (items : List ServiceLine) (accruals after : List CommissionAccrual)
    → accrue_lines rules transaction net items accruals ≡ ok after
    → (new : List CommissionAccrual) × (after ≡ accruals ++ new)
      × All (λ item. is_already_accrued transaction.id after item.id ≡ true) items
      × All P new
      × (HasOneRowPerLine accruals → HasOneRowPerLine after)
unfolding accrue_lines
accrue_lines-rows P rules transaction net computed [] accruals after h = (
  [],
  sym (ok-injective h) ∙ append-empty accruals,
  tt,
  tt,
  subst HasOneRowPerLine (ok-injective h),
)
accrue_lines-rows P rules transaction net computed (item ∷ items) accruals after h =
    let (accrual, made, h1) = >>=-eq-ok (accrue_line rules transaction net item) _ h in
    let (created, added, h2) = >>=-eq-ok (create_accrual accrual accruals) _ h1 in
    let (is_created, one) = create_accrual-rows accrual accruals created added in
    let (new, is_after, covered, all, one') =
      accrue_lines-rows P rules transaction net computed items created after h2 in
    let (_, amount, stored, (_, _, is_accrual)) =
      accrue_line_result rules transaction net item accrual made in
    let (same_transaction, same_line) = earned_accrual-keys transaction item _ stored amount in
    (
      accrual ∷ new,
      is_after ∙ ap (λ c. c ++ new) is_created ∙ append-last_first accruals accrual new,
      (
        subst (λ rows. is_already_accrued transaction.id rows item.id ≡ true) (sym is_after)
            (any-append_left _ created new (
              subst (λ c. is_already_accrued transaction.id c item.id ≡ true) (sym is_created)
                (any-append_last _ accruals accrual (
                  own accrual (ap (λ a. a.transaction_id) (sym is_accrual) ∙ same_transaction)
                    (ap (λ a. a.transaction_line_item_id) (sym is_accrual) ∙ same_line))))),
        covered,
      ),
      (computed item accrual made, all),
      λ start. one' (one start),
    )
  where
    own :
        (a : CommissionAccrual)
        → a.transaction_id ≡ transaction.id
        → a.transaction_line_item_id ≡ item.id
        → (a.transaction_id == transaction.id && is_of_line item.id a) ≡ true
    own a t l = ground arith

kept :
    (transaction : Transaction) (accruals after : List CommissionAccrual) (items : List ServiceLine)
    → ((line : ℕ)
        → is_already_accrued transaction.id accruals line ≡ true
        → is_already_accrued transaction.id after line ≡ true)
    → All
        (λ item. is_already_accrued transaction.id after item.id ≡ true)
        (pending_of transaction accruals items)
    → All (λ item. is_already_accrued transaction.id after item.id ≡ true) items
kept transaction accruals after [] more h = tt
kept transaction accruals after (item ∷ items) more h =
    go (is_already_accrued transaction.id accruals item.id) refl
      (kept transaction accruals after items more) h
  where
    Accrued : ServiceLine → Type 0
    Accrued i = is_already_accrued transaction.id after i.id ≡ true

    rest : List ServiceLine
    rest = pending_of transaction accruals items

    go :
        (t : Bool)
        → is_already_accrued transaction.id accruals item.id ≡ t
        → (All Accrued rest → All Accrued items)
        → All Accrued (if not t then item ∷ rest else rest)
        → All Accrued (item ∷ items)
    go true e others k = (more item.id e, others k)
    go false e others k = (k.0, others k.1)

none_pending :
    (transaction : Transaction) (accruals : List CommissionAccrual) (items : List ServiceLine)
    → All (λ item. is_already_accrued transaction.id accruals item.id ≡ true) items
    → is_empty (pending_of transaction accruals items) ≡ true
none_pending transaction accruals [] h = refl
none_pending transaction accruals (item ∷ items) h =
    ground (arith, h.0, none_pending transaction accruals items h.1)

nothing_pending :
    (transaction : Transaction) (accruals : List CommissionAccrual) (items : List ServiceLine)
    → is_empty (pending_of transaction accruals items) ≡ true
    → pending_of transaction accruals items ≡ []
nothing_pending transaction accruals items h = go (pending_of transaction accruals items) h
  where
    go : (xs : List ServiceLine) → is_empty xs ≡ true → xs ≡ []
    go [] e = refl
    go (x ∷ xs) e = ground arith

-- What a successful call leaves, for any property of the rows that are computed.
pub accrue_for_transaction-rows :
    (P : CommissionAccrual → Type 0) (rules : List CommissionRule) (transaction : Transaction)
    (line_items : List TransactionLineItem)
    → ((net : AmountMap) (item : ServiceLine) (a : CommissionAccrual)
        → accrue_line (candidates transaction rules) transaction net item ≡ ok a
        → P a)
    → (accruals after : List CommissionAccrual)
    → accrue_for_transaction rules transaction line_items accruals ≡ ok after
    → (new : List CommissionAccrual) × (after ≡ accruals ++ new)
      × All
          (λ item. is_already_accrued transaction.id after item.id ≡ true)
          (service_line_items line_items)
      × All P new
      × (HasOneRowPerLine accruals → HasOneRowPerLine after)
unfolding accrue_for_transaction
accrue_for_transaction-rows P rules transaction line_items computed accruals after h =
    go (is_empty pending) refl h
  where
    items : List ServiceLine
    items = service_line_items line_items

    pending : List ServiceLine
    pending = pending_of transaction accruals items

    go :
        (t : Bool)
        → is_empty pending ≡ t
        → (if t
            then ok accruals
            else allocate_adjustments_across_lines
                (map allocation_line items)
                transaction.adjustment_total_minor
              >>= λ net.
                  accrue_lines (candidates transaction rules) transaction net pending accruals)
          ≡ ok after
        → (new : List CommissionAccrual) × (after ≡ accruals ++ new)
          × All (λ item. is_already_accrued transaction.id after item.id ≡ true) items
          × All P new
          × (HasOneRowPerLine accruals → HasOneRowPerLine after)
    go true e k = (
      [],
      sym (ok-injective k) ∙ append-empty accruals,
      kept transaction accruals after items
          (λ line had.
            subst (λ rows. is_already_accrued transaction.id rows line ≡ true) (ok-injective k) had)
          (subst (All (λ item. is_already_accrued transaction.id after item.id ≡ true))
            (sym (nothing_pending transaction accruals items e)) tt),
      tt,
      subst HasOneRowPerLine (ok-injective k),
    )
    go false e k =
        let (net, _, k1) =
          >>=-eq-ok
            (allocate_adjustments_across_lines (map allocation_line items)
              transaction.adjustment_total_minor)
            _ k in
        let (new, is_after, covered, all, one) =
          accrue_lines-rows P (candidates transaction rules) transaction net (computed net) pending
            accruals after k1 in
        (
          new,
          is_after,
          kept transaction accruals after items
              (λ line had.
                subst (λ rows. is_already_accrued transaction.id rows line ≡ true) (sym is_after)
                  (any-append_left _ accruals new had))
              covered,
          all,
          one,
        )

-- A call that succeeds leaves exactly one accrual for each service line of the transaction, in a table
-- that has at most one for each line before, and no earlier accrual is changed or removed. A second
-- call for the same transaction, under whatever rules are in force by then, changes nothing.
pub accrue_for_transaction-once :
    (rules later : List CommissionRule) (transaction : Transaction)
    (line_items : List TransactionLineItem) (accruals after : List CommissionAccrual)
    → HasOneRowPerLine accruals
    → accrue_for_transaction rules transaction line_items accruals ≡ ok after
    → HasOneRowPerLine after
      × All (λ item. count_where (is_of_line item.id) after ≡ 1) (service_line_items line_items)
      × ((new : List CommissionAccrual) × (after ≡ accruals ++ new))
      × (accrue_for_transaction later transaction line_items after ≡ ok after)
unfolding accrue_for_transaction count_where
accrue_for_transaction-once rules later transaction line_items accruals after one h =
    let (new, is_after, covered, _, keeps) =
      accrue_for_transaction-rows (λ a. Unit {0}) rules transaction line_items (λ net item a e. tt)
        accruals after h in
    (
      keeps one,
      exactly (service_line_items line_items) (keeps one) covered,
      (new, is_after),
      rw (none_pending transaction after (service_line_items line_items) covered) refl,
    )
  where
    at_least :
        (line : ℕ) (rows : List CommissionAccrual)
        → is_already_accrued transaction.id rows line ≡ true
        → 1 ≤ count_where (is_of_line line) rows
    at_least line [] e = cc
    at_least line (a ∷ rows) e = ground (arith, at_least line rows)

    exactly :
        (items : List ServiceLine)
        → HasOneRowPerLine after
        → All (λ item. is_already_accrued transaction.id after item.id ≡ true) items
        → All (λ item. count_where (is_of_line item.id) after ≡ 1) items
    exactly [] unique k = tt
    exactly (item ∷ items) unique k =
        (omega (arith, unique item.id, at_least item.id after k.0), exactly items unique k.1)
