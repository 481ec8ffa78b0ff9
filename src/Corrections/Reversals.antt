-- ===== src/Corrections/Reversals.antt =====
-- transaction-correction-execution.service.ts: reversals and the other corrections of their sale.
use kora_os.Common.{
  ℕ, suc, ◌+◌, ◌≤◌, ◌<◌, ◌≡◌, inl, inr, refl, sym, subst, Bool, true, false, ◌&&◌, ◌||◌, Bool-cases,
  some, List, [], ◌∷◌, ◌==◌, any, keep, sum, map, ltb, if◌then◌else◌, All, ok, conflict, plain,
  >>-eq-ok, throw_if-eq-ok, bind_or_throw-eq-ok, of_some-eq-some, arith,
}
use kora_os.Common.Store.{find_first, count_where}
use kora_os.Transactions.{TransactionLineItem}
use kora_os.Corrections.Schema.{
  TransactionCorrectionItem, TransactionCorrection, is_reversal, is_correction, is_line,
}
use kora_os.Corrections.Requests.{amounts_of, is_item_of, has_zero_amount, whole_line}
use kora_os.Corrections.Execution.Lines.{
  is_executed, requested_for, executed_by_line, check_item, check_items,
}
use kora_os.Corrections.Amounts.{executed_amount}

abbrev pub is_executed_reversal : TransactionCorrection → Bool
is_executed_reversal c = is_executed c && is_reversal c.correction_type

-- The row with a unique identifier is the one that is found.
pub unique_row :
    (k : ℕ) (found : TransactionCorrection) (cs : List TransactionCorrection)
    → find_first (is_correction k) cs ≡ some found
    → count_where (is_correction k) cs ≤ 1
    → All (λ c. is_correction k c ≡ true → c ≡ found) cs
unfolding find_first count_where
unique_row k found [] h one = tt
unique_row k found (c ∷ cs) h one = go (is_correction k c) refl (unique_row k found cs) h one
  where
    absent :
        (xs : List TransactionCorrection)
        → count_where (is_correction k) xs ≡ 0
        → All (λ x. is_correction k x ≡ true → x ≡ found) xs
    absent [] e = tt
    absent (x ∷ xs) e = ((λ hit. ground arith), absent xs (ground arith))

    go :
        (t : Bool)
        → is_correction k c ≡ t
        → (find_first (is_correction k) cs ≡ some found
            → count_where (is_correction k) cs ≤ 1
            → All (λ x. is_correction k x ≡ true → x ≡ found) cs)
        → (if t then some c else find_first (is_correction k) cs) ≡ some found
        → (if t then suc (count_where (is_correction k) cs) else count_where (is_correction k) cs)
          ≤ 1
        → (is_correction k c ≡ true → c ≡ found)
          × All (λ x. is_correction k x ≡ true → x ≡ found) cs
    go true e rest f n = ((λ _. of_some-eq-some f), absent cs (omega (arith, n)))
    go false e rest f n = ((λ hit. ground arith), rest f n)

-- The reversal of a sale asks for the whole price of every line.
whole_requested :
    (id : ℕ) (line : TransactionLineItem) (lines : List TransactionLineItem)
    → find_first (is_line id) lines ≡ some line
    → line.price_minor_snapshot ≤ requested_for id (map whole_line lines)
unfolding find_first
whole_requested id line [] h = cc
whole_requested id line (l ∷ lines) h = go (is_line id l) (whole_requested id line lines) h
  where
    go :
        (t : Bool)
        → (find_first (is_line id) lines ≡ some line
            → line.price_minor_snapshot ≤ requested_for id (map whole_line lines))
        → (if t then some l else find_first (is_line id) lines) ≡ some line
        → line.price_minor_snapshot
          ≤ sum (
              amounts_of (
                if t
                then whole_line l ∷ keep (is_item_of id) (map whole_line lines)
                else keep (is_item_of id) (map whole_line lines)))
    go true rest f =
        subst
          (λ x.
            x.price_minor_snapshot
            ≤ l.price_minor_snapshot + requested_for id (map whole_line lines))
          (of_some-eq-some f) (omega arith)
    go false rest f = rest f

-- An executed reversal has taken the whole price of every line.
executed_reversal_takes :
    (id price : ℕ) (cs : List TransactionCorrection)
    → All (λ c. is_reversal c.correction_type ≡ true → price ≤ requested_for id c.items) cs
    → any is_executed_reversal cs ≡ true
    → price ≤ executed_amount id cs
unfolding executed_by_line
executed_reversal_takes id price [] h e = cc
executed_reversal_takes id price (c ∷ cs) h e =
    go (is_executed c) (is_reversal c.correction_type) h.0 (executed_reversal_takes id price cs h.1)
      e
  where
    go :
        (x r : Bool)
        → (r ≡ true → price ≤ requested_for id c.items)
        → (any is_executed_reversal cs ≡ true → price ≤ executed_amount id cs)
        → ((x && r) || any is_executed_reversal cs) ≡ true
        → price ≤ executed_by_line (if x then c ∷ keep is_executed cs else keep is_executed cs) id
    go true true w rest k = omega (arith, w refl)
    go true false w rest k = omega (arith, rest k)
    go false true w rest k = rest k
    go false false w rest k = rest k

-- A correction that asks for something cannot pass the check when a reversal was executed.
pub reversed_refuses :
    (lines : List TransactionLineItem) (cs : List TransactionCorrection) (by_line : ℕ → ℕ)
    (items : List TransactionCorrectionItem)
    → ((id : ℕ) → by_line id ≡ executed_amount id cs)
    → All (λ c. is_reversal c.correction_type ≡ true → c.items ≡ map whole_line lines) cs
    → 0 < sum (amounts_of items)
    → has_zero_amount items ≡ false
    → check_items lines by_line items ≡ ok tt
    → any is_executed_reversal cs ≡ false
unfolding check_items check_item has_zero_amount
reversed_refuses lines cs by_line [] same whole some_amount positive h =
    absurd (omega (arith, some_amount))
reversed_refuses lines cs by_line (item ∷ items) same whole some_amount positive h =
    let id = item.original_transaction_line_item_id in
    let (checked, _) = >>-eq-ok (check_item lines by_line item) _ h in
    let (line, found, e1) =
      bind_or_throw-eq-ok (find_first (is_line id) lines) (conflict plain) _ checked in
    let (enough, _) =
      throw_if-eq-ok (ltb line.price_minor_snapshot (by_line id + item.requested_amount_minor)) _ _
        e1 in
    elim (Bool-cases (any is_executed_reversal cs)) [
      | inl taken ↦
          let took =
            executed_reversal_takes id line.price_minor_snapshot cs (takes cs id line found whole)
              taken in
          absurd (
            over (by_line id) line.price_minor_snapshot item.requested_amount_minor
              (rw (same id) took) (ground arith) enough)
      | inr free ↦ free
    ]
  where
    takes :
        (xs : List TransactionCorrection) (id : ℕ) (line : TransactionLineItem)
        → find_first (is_line id) lines ≡ some line
        → All (λ c. is_reversal c.correction_type ≡ true → c.items ≡ map whole_line lines) xs
        → All
            (λ c.
              is_reversal c.correction_type ≡ true
              → line.price_minor_snapshot ≤ requested_for id c.items)
            xs
    takes [] id line found h = tt
    takes (c ∷ xs) id line found h = (
      (λ r.
          subst (λ is. line.price_minor_snapshot ≤ requested_for id is) (sym (h.0 r))
            (whole_requested id line lines found)),
      takes xs id line found h.1,
    )

    over :
        (b price amount : ℕ)
        → price ≤ b
        → (amount == 0) ≡ false
        → ltb price (b + amount) ≡ false
        → ⊥
    over b price amount took some_amount enough = ground arith
