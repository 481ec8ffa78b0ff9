-- ===== src/Commissions/Accrual/Amounts.antt =====
-- commission-accrual.service.ts: the amounts of the rows that are created.
use kora_os.Common.{
  ℕ, ◌≤◌, ◌≡◌, refl, sym, ap, ◌∙◌, subst, Option, none, some, List, ◌++◌, All, ok, of_some-eq-some,
  ok-injective, arith,
}
use kora_os.Common.Int.{ℤ, pos, negsuc}
use kora_os.Transactions.{TransactionLineItem, Transaction}
use kora_os.Commissions.Calculation.{
  CommissionRuleType, rule_none, fixed, percentage, CommissionRuleForCalculation,
  basis_points_denominator, amount_by_type, calculate_commission_amount,
}
use kora_os.Commissions.Calculation.Rounding.{percentage_commission-le-basis}
use kora_os.Commissions.Precedence.{CandidateCommissionRule}
use kora_os.Commissions.Allocation.{AmountMap}
use kora_os.Commissions.Accrual.{
  earned, CommissionAccrual, CommissionRule, ServiceLine, calculation_of, calculation, rate_of,
  fixed_of, non_negative, earned_accrual, accrue_line, candidates, accrue_for_transaction,
}
use kora_os.Commissions.Accrual.Rows.{accrue_line_result, accrue_for_transaction-rows}

-- The rule as the accrual remembers it.
abbrev pub snapshot_by :
    Option CommissionRuleType → CommissionAccrual → Option CommissionRuleForCalculation
snapshot_by none accrual = none
snapshot_by (some type) accrual = some (record {
  type = type;
  rate_basis_points = accrual.rate_basis_points_snapshot;
  fixed_amount_minor = accrual.fixed_amount_minor_snapshot;
})

abbrev pub snapshot_of : CommissionAccrual → Option CommissionRuleForCalculation
snapshot_of accrual = snapshot_by accrual.rule_type_snapshot accrual

-- A rate of at most 100 %.
abbrev pub HasRate : CommissionAccrual → Type 0
HasRate accrual =
    (accrual.rule_type_snapshot ≡ some percentage)
    × (rate : ℕ) × (accrual.rate_basis_points_snapshot ≡ some rate)
    × (rate ≤ basis_points_denominator)

-- An accrual that the snapshot of its rule gives from the snapshot of its basis.
pub record IsEarned (accrual : CommissionAccrual) : Type 0 where
  pub kind : accrual.kind ≡ earned
  pub original : accrual.original_accrual ≡ none
  pub computed :
      calculate_commission_amount (snapshot_of accrual) (pos accrual.basis_amount_minor)
      ≡ ok (some accrual.calculated_amount_minor)
  pub bounded : HasRate accrual → accrual.calculated_amount_minor ≤ accrual.basis_amount_minor

stored_basis : (basis : ℤ) (stored : ℕ) → non_negative basis ≡ ok stored → basis ≡ pos stored
stored_basis (pos n) stored h = ap pos (ok-injective h)
stored_basis (negsuc n) stored h = cc

by_type :
    (rule : CandidateCommissionRule) (type : CommissionRuleType) (basis : ℤ)
    → amount_by_type type
        (record {
          type = type;
          rate_basis_points = rate_of rule type;
          fixed_amount_minor = fixed_of rule type;
        })
        basis
      ≡ amount_by_type type (calculation_of rule) basis
unfolding amount_by_type
by_type rule rule_none basis = refl
by_type rule fixed basis = refl
by_type rule percentage basis = refl

earned_accrual-computed :
    (transaction : Transaction) (item : ServiceLine) (matched : Option CandidateCommissionRule)
    (basis : ℤ) (stored amount : ℕ)
    → calculate_commission_amount (calculation matched) basis ≡ ok (some amount)
    → basis ≡ pos stored
    → let accrual = earned_accrual transaction item matched stored amount in
      calculate_commission_amount (snapshot_of accrual) (pos accrual.basis_amount_minor)
      ≡ ok (some accrual.calculated_amount_minor)
unfolding calculate_commission_amount
earned_accrual-computed transaction item none basis stored amount h e = h
earned_accrual-computed transaction item (some rule) basis stored amount h e =
    by_type rule rule.type (pos stored)
    ∙ subst (λ b. amount_by_type rule.type (calculation_of rule) b ≡ ok (some amount)) e h

within_basis :
    (accrual : CommissionAccrual)
    → calculate_commission_amount (snapshot_of accrual) (pos accrual.basis_amount_minor)
      ≡ ok (some accrual.calculated_amount_minor)
    → HasRate accrual
    → accrual.calculated_amount_minor ≤ accrual.basis_amount_minor
within_basis accrual h (is_percentage, rate, is_rate, low) =
    let (amount, computed, le) =
      percentage_commission-le-basis
        (record {
          type = percentage;
          rate_basis_points = accrual.rate_basis_points_snapshot;
          fixed_amount_minor = accrual.fixed_amount_minor_snapshot;
        })
        accrual.basis_amount_minor rate refl is_rate low in
    let same : calculate_commission_amount (snapshot_by (some percentage) accrual)
          (pos accrual.basis_amount_minor)
        ≡ ok (some accrual.calculated_amount_minor) =
      subst
        (λ t.
          calculate_commission_amount (snapshot_by t accrual) (pos accrual.basis_amount_minor)
          ≡ ok (some accrual.calculated_amount_minor))
        is_percentage h in
    let equal = of_some-eq-some (ok-injective (sym computed ∙ same)) in omega (arith, le, equal)

of_computed :
    (accrual : CommissionAccrual)
    → accrual.kind ≡ earned
    → accrual.original_accrual ≡ none
    → calculate_commission_amount (snapshot_of accrual) (pos accrual.basis_amount_minor)
      ≡ ok (some accrual.calculated_amount_minor)
    → IsEarned accrual
of_computed accrual k o c = record {
  kind = k;
  original = o;
  computed = c;
  bounded = within_basis accrual c;
}

earned_accrual-IsEarned :
    (transaction : Transaction) (item : ServiceLine) (matched : Option CandidateCommissionRule)
    (basis : ℤ) (stored amount : ℕ)
    → calculate_commission_amount (calculation matched) basis ≡ ok (some amount)
    → basis ≡ pos stored
    → IsEarned (earned_accrual transaction item matched stored amount)
earned_accrual-IsEarned transaction item none basis stored amount h e =
    of_computed _ refl refl (earned_accrual-computed transaction item none basis stored amount h e)
earned_accrual-IsEarned transaction item (some rule) basis stored amount h e =
    of_computed _ refl refl
      (earned_accrual-computed transaction item (some rule) basis stored amount h e)

-- Every accrual that a successful call adds can be calculated again from the row itself, by the
-- snapshot of its rule from its basis, and a percentage of at most 100 % never exceeds the basis.
pub accrue_for_transaction-IsEarned :
    (rules : List CommissionRule) (transaction : Transaction)
    (line_items : List TransactionLineItem) (accruals after : List CommissionAccrual)
    → accrue_for_transaction rules transaction line_items accruals ≡ ok after
    → (new : List CommissionAccrual) × (after ≡ accruals ++ new) × All IsEarned new
accrue_for_transaction-IsEarned rules transaction line_items accruals after h =
    let (new, is_after, _, all, _) =
      accrue_for_transaction-rows IsEarned rules transaction line_items made accruals after h in
    (new, is_after, all)
  where
    made :
        (net : AmountMap) (item : ServiceLine) (a : CommissionAccrual)
        → accrue_line (candidates transaction rules) transaction net item ≡ ok a
        → IsEarned a
    made net item a e =
        let (basis, amount, stored, (computed, is_stored, is_accrual)) =
          accrue_line_result (candidates transaction rules) transaction net item a e in
        subst IsEarned is_accrual (
          earned_accrual-IsEarned transaction item _ basis stored amount computed
            (stored_basis basis stored is_stored))
