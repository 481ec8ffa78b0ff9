-- ===== src/Commissions/Adjustment/Bounds.antt =====
-- commission-adjustment.service.ts: what the corrections of one accrual take back in total.
use kora_os.Common.{
  ℕ, ◌+◌, ◌-◌, ◌≤◌, ◌≡◌, refl, sym, ap, ◌∙◌, subst, Bool, true, false, Option, none, some, List, [],
  ◌∷◌, ◌++◌, min, leb, ◌||◌, ◌*◌, if◌then◌else◌, ok, internal, ◌>>=◌, >>=-eq-ok,
  bind_or_throw-eq-ok, ok-injective, of_some-eq-some, ==_iff, ◌==◌, arith,
}
use kora_os.Common.Int.{pos}
use kora_os.Common.Store.{find_first}
use kora_os.Transactions.{Transaction}
use kora_os.Commissions.Calculation.{
  CommissionRuleType, rule_none, fixed, percentage, round_half_up_division,
  calculate_commission_amount, calculate_percentage_adjustment_basis,
  calculate_fixed_adjustment_amount,
}
use kora_os.Commissions.Accrual.{CommissionAccrualKind, CommissionAccrual, is_of_line}
use kora_os.Commissions.Accrual.Rows.{create_accrual-rows}
use kora_os.Commissions.Adjustment.{
  CorrectiveLineItemPairing, corrects, already_adjusted, percentage_adjustment, adjustment_amount,
  corrective_accrual, adjust_original, adjust_for_correction,
}

fixed_within :
    (original already requested line amount : ℕ)
    → calculate_fixed_adjustment_amount original already requested line ≡ ok amount
    → amount ≤ original - already
unfolding calculate_fixed_adjustment_amount
fixed_within original already requested line amount h = go (leb line 0 || leb line requested) h
  where
    go :
        (b : Bool)
        → (if b
            then ok (original - already)
            else round_half_up_division (pos (original * requested)) (pos line) >>= λ prorated.
                ok (min prorated (original - already)))
          ≡ ok amount
        → amount ≤ original - already
    go true e = subst (λ n. n ≤ original - already) (ok-injective e) (omega arith)
    go false e =
        let (prorated, _, e1) =
          >>=-eq-ok (round_half_up_division (pos (original * requested)) (pos line)) _ e in
        subst (λ n. n ≤ original - already) (ok-injective e1) (omega arith)

adjustment_within :
    (type : Option CommissionRuleType) (original : CommissionAccrual)
    (already requested line amount : ℕ)
    → adjustment_amount type original already requested line ≡ ok amount
    → amount ≤ original.calculated_amount_minor - already
unfolding adjustment_amount percentage_adjustment
adjustment_within none original already requested line amount h =
    subst (λ n. n ≤ original.calculated_amount_minor - already) (ok-injective h) (omega arith)
adjustment_within (some rule_none) original already requested line amount h =
    subst (λ n. n ≤ original.calculated_amount_minor - already) (ok-injective h) (omega arith)
adjustment_within (some fixed) original already requested line amount h =
    fixed_within original.calculated_amount_minor already requested line amount h
adjustment_within (some percentage) original already requested line amount h =
    let (basis, _, h1) =
      >>=-eq-ok (calculate_percentage_adjustment_basis original.basis_amount_minor requested line) _
        h in
    let (calculated, _, h2) =
      >>=-eq-ok
        (calculate_commission_amount
          (some (record {
            type = percentage;
            rate_basis_points = original.rate_basis_points_snapshot;
            fixed_amount_minor = none;
          }))
          (pos basis))
        _ h1 in
    let (fresh, _, h3) = bind_or_throw-eq-ok calculated internal _ h2 in
    subst (λ n. n ≤ original.calculated_amount_minor - already) (ok-injective h3) (omega arith)

-- The accrual of the line, with corrections that take back no more than it paid.
abbrev pub IsWithin : ℕ → CommissionAccrual → List CommissionAccrual → Type 0
IsWithin line original accruals =
    (find_first (is_of_line line) accruals ≡ some original)
    × (already_adjusted line accruals ≤ original.calculated_amount_minor)

found-append :
    (line : ℕ) (a : CommissionAccrual) (xs : List CommissionAccrual) (x : CommissionAccrual)
    → find_first (is_of_line line) xs ≡ some a
    → find_first (is_of_line line) (xs ++ x ∷ []) ≡ some a
unfolding find_first
found-append line a [] x h = cc
found-append line a (y ∷ xs) x h = go (is_of_line line y) (found-append line a xs x) h
  where
    go :
        (b : Bool)
        → (find_first (is_of_line line) xs ≡ some a
            → find_first (is_of_line line) (xs ++ x ∷ []) ≡ some a)
        → (if b then some y else find_first (is_of_line line) xs) ≡ some a
        → (if b then some y else find_first (is_of_line line) (xs ++ x ∷ [])) ≡ some a
    go true rest e = e
    go false rest e = rest e

pub already_adjusted-append :
    (line : ℕ) (xs : List CommissionAccrual) (x : CommissionAccrual)
    → already_adjusted line (xs ++ x ∷ [])
      ≡ already_adjusted line xs + (if corrects line x then x.calculated_amount_minor else 0)
unfolding already_adjusted
already_adjusted-append line [] x = ground arith
already_adjusted-append line (y ∷ xs) x = ground (arith, already_adjusted-append line xs x)

pub found_line :
    (line : ℕ) (a : CommissionAccrual) (xs : List CommissionAccrual)
    → find_first (is_of_line line) xs ≡ some a
    → a.transaction_line_item_id ≡ line
unfolding find_first
found_line line a [] h = cc
found_line line a (y ∷ xs) h = go (is_of_line line y) refl (found_line line a xs) h
  where
    go :
        (b : Bool)
        → is_of_line line y ≡ b
        → (find_first (is_of_line line) xs ≡ some a → a.transaction_line_item_id ≡ line)
        → (if b then some y else find_first (is_of_line line) xs) ≡ some a
        → a.transaction_line_item_id ≡ line
    go true hit rest e =
        ap (λ r. r.transaction_line_item_id) (sym (of_some-eq-some e))
        ∙ (==_iff y.transaction_line_item_id line).0 hit
    go false hit rest e = rest e

adjust_original-IsWithin :
    (line : ℕ) (original : CommissionAccrual) (transaction : Transaction)
    (kind : CommissionAccrualKind) (pairing : CorrectiveLineItemPairing)
    (found : Option CommissionAccrual) (accruals after : List CommissionAccrual)
    → find_first (is_of_line pairing.original_transaction_line_item_id) accruals ≡ found
    → IsWithin line original accruals
    → adjust_original transaction kind pairing found accruals ≡ ok after
    → IsWithin line original after
unfolding adjust_original
adjust_original-IsWithin line original transaction kind pairing none accruals after f v h =
    subst (IsWithin line original) (ok-injective h) v
adjust_original-IsWithin line original transaction kind pairing (some other) accruals after f v h =
    let (amount, is_amount, h1) =
      >>=-eq-ok
        (adjustment_amount other.rule_type_snapshot other
          (already_adjusted other.transaction_line_item_id accruals)
          pairing.corrective_line_item.price_minor_snapshot pairing.original_line_amount_minor)
        _ h in
    let row = corrective_accrual transaction kind pairing other amount in
    let (is_after, _) = create_accrual-rows row accruals after h1 in
    let is_other = found_line pairing.original_transaction_line_item_id other accruals f in
    let within =
      adjustment_within other.rule_type_snapshot other
        (already_adjusted other.transaction_line_item_id accruals) _ _ amount is_amount in
    (
      subst (λ rows. find_first (is_of_line line) rows ≡ some original) (sym is_after)
          (found-append line original accruals row v.0),
      subst (λ rows. already_adjusted line rows ≤ original.calculated_amount_minor) (sym is_after)
          (rw (already_adjusted-append line accruals row)
            (go amount (other.transaction_line_item_id == line) refl within is_other)),
    )
  where
    same :
        other.transaction_line_item_id ≡ line
        → other.transaction_line_item_id ≡ pairing.original_transaction_line_item_id
        → other ≡ original
    same e is_other =
        of_some-eq-some
          (sym f ∙ ap (λ l. find_first (is_of_line l) accruals) (sym is_other ∙ e) ∙ v.0)

    go :
        (amount : ℕ) (b : Bool)
        → (other.transaction_line_item_id == line) ≡ b
        → amount
          ≤ other.calculated_amount_minor - already_adjusted other.transaction_line_item_id accruals
        → other.transaction_line_item_id ≡ pairing.original_transaction_line_item_id
        → already_adjusted line accruals + (if b then amount else 0)
          ≤ original.calculated_amount_minor
    go amount true e within is_other =
        let at_line = (==_iff other.transaction_line_item_id line).0 e in
        let bound : amount ≤ original.calculated_amount_minor - already_adjusted line accruals =
          subst (λ l. amount ≤ original.calculated_amount_minor - already_adjusted l accruals)
            at_line
            (subst
              (λ a.
                amount
                ≤ a.calculated_amount_minor
                  - already_adjusted other.transaction_line_item_id accruals)
              (same at_line is_other) within) in
        omega (arith, bound, v.1)
    go amount false e within is_other = omega (arith, v.1)

-- Whatever amounts the corrections ask for, in however many parts: the accrual of a line stays as it
-- is, and what its corrections take back in total never exceeds what it paid.
pub adjust_for_correction-IsWithin :
    (line : ℕ) (original : CommissionAccrual) (transaction : Transaction)
    (kind : CommissionAccrualKind) (pairings : List CorrectiveLineItemPairing)
    (accruals after : List CommissionAccrual)
    → IsWithin line original accruals
    → adjust_for_correction transaction kind pairings accruals ≡ ok after
    → IsWithin line original after
unfolding adjust_for_correction
adjust_for_correction-IsWithin line original transaction kind [] accruals after v h =
    subst (IsWithin line original) (ok-injective h) v
adjust_for_correction-IsWithin line original transaction kind (pairing ∷ pairings) accruals after v
      h =
    let found = find_first (is_of_line pairing.original_transaction_line_item_id) accruals in
    let (adjusted, step, h1) =
      >>=-eq-ok (adjust_original transaction kind pairing found accruals) _ h in
    adjust_for_correction-IsWithin line original transaction kind pairings adjusted after
      (adjust_original-IsWithin line original transaction kind pairing found accruals adjusted refl
        v step)
      h1
