-- ===== src/Commissions/Accrual.antt =====
-- commission-accrual.service.ts. The table holds one accrual for each line of a transaction, and the
-- line identifies it; the currency and the time of the calculation are left out.
pub mod Rows
pub mod Amounts
pub mod Discounts
mod Tests
use kora_os.Common.{
  ℕ, ◌+◌, Bool, true, false, not, ◌&&◌, ◌||◌, Option, none, some, List, [], ◌∷◌, ◌++◌, ◌==◌, leb,
  ltb, any, keep, is_empty, if◌then◌else◌, Outcome, ok, throws, internal, unique_violation, ◌>>=◌,
  ◌>>◌, throw_if, or_throw, map,
}
use kora_os.Common.Int.{ℤ, pos, negsuc}
use kora_os.Transactions.{
  TransactionLineItem, Transaction, CommerceLineItemKind, line_service, line_product,
}
use kora_os.Commissions.Calculation.{
  CommissionRuleType, rule_none, fixed, percentage, CommissionRuleForCalculation,
  calculate_commission_amount,
}
use kora_os.Commissions.Precedence.{
  CommissionCalculationBasis, gross_line, net_line_after_adjustments, CandidateCommissionRule,
  CommissionScope, select_most_specific_rule,
}
use kora_os.Commissions.Allocation.{AllocationLine, AmountMap, allocate_adjustments_across_lines}

pub data CommissionAccrualKind : Type 0 where
  earned refunded reversed : CommissionAccrualKind

pub data CommissionAccrualSource : Type 0 where
  policy no_policy : CommissionAccrualSource

-- `original_accrual` is the line of the accrual that a corrective accrual corrects.
pub record CommissionAccrual : Type 0 where
  pub organization_id : ℕ
  pub transaction_id : ℕ
  pub transaction_line_item_id : ℕ
  pub staff_profile_id : ℕ
  pub commission_rule_id : Option ℕ
  pub kind : CommissionAccrualKind
  pub original_accrual : Option ℕ
  pub source : CommissionAccrualSource
  pub rule_type_snapshot : Option CommissionRuleType
  pub rate_basis_points_snapshot : Option ℕ
  pub fixed_amount_minor_snapshot : Option ℕ
  pub basis_snapshot : CommissionCalculationBasis
  pub basis_amount_minor : ℕ
  pub calculated_amount_minor : ℕ

-- A row of `commission_rules`; the candidate is what the precedence reads.
pub record CommissionRule : Type 0 where
  pub organization_id : ℕ
  pub effective_from : ℕ
  pub effective_until : Option ℕ
  pub candidate : CandidateCommissionRule

abbrev pub is_until : Option ℕ → ℕ → Bool
is_until none time = true
is_until (some until) time = ltb time until

-- The `where` of the query for the rules in force when the transaction was posted.
unfoldable pub is_candidate : Transaction → CommissionRule → Bool
is_candidate transaction rule =
    rule.organization_id == transaction.organization_id
    && leb rule.effective_from transaction.posted_at
    && is_until rule.effective_until transaction.posted_at

abbrev pub candidates : Transaction → List CommissionRule → List CandidateCommissionRule
candidates transaction rules = map (λ r. r.candidate) (keep (is_candidate transaction) rules)

-- A line that the filter keeps.
pub record ServiceLine : Type 0 where
  pub id : ℕ
  pub staff_profile_id : ℕ
  pub service_id : ℕ
  pub price_minor_snapshot : ℕ
  pub display_order : ℕ

abbrev pub service_line :
    CommerceLineItemKind → Option ℕ → Option ℕ → TransactionLineItem → List ServiceLine
service_line line_product staff service item = []
service_line line_service none service item = []
service_line line_service (some staff) none item = []
service_line line_service (some staff) (some service) item =
    record {
      id = item.id;
      staff_profile_id = staff;
      service_id = service;
      price_minor_snapshot = item.price_minor_snapshot;
      display_order = item.display_order;
    }
    ∷ []

unfoldable pub service_line_items : List TransactionLineItem → List ServiceLine
service_line_items [] = []
service_line_items (item ∷ items) =
    service_line item.kind item.staff_profile_id item.service_id item ++ service_line_items items

abbrev pub allocation_line : ServiceLine → AllocationLine
allocation_line item = record {
  line_id = item.id;
  gross_amount_minor = item.price_minor_snapshot;
  display_order = item.display_order;
}

abbrev pub calculation_of : CandidateCommissionRule → CommissionRuleForCalculation
calculation_of rule = record {
  type = rule.type;
  rate_basis_points = rule.rate_basis_points;
  fixed_amount_minor = rule.fixed_amount_minor;
}

abbrev pub calculation : Option CandidateCommissionRule → Option CommissionRuleForCalculation
calculation none = none
calculation (some rule) = some (calculation_of rule)

abbrev pub basis_of : Option CandidateCommissionRule → CommissionCalculationBasis
basis_of none = gross_line
basis_of (some rule) = rule.basis

abbrev pub rate_of : CandidateCommissionRule → CommissionRuleType → Option ℕ
rate_of rule rule_none = none
rate_of rule fixed = none
rate_of rule percentage = rule.rate_basis_points

abbrev pub fixed_of : CandidateCommissionRule → CommissionRuleType → Option ℕ
fixed_of rule rule_none = none
fixed_of rule fixed = rule.fixed_amount_minor
fixed_of rule percentage = none

unfoldable pub basis_amount : CommissionCalculationBasis → ServiceLine → AmountMap → Outcome ℤ
basis_amount gross_line item net = ok (pos item.price_minor_snapshot)
basis_amount net_line_after_adjustments item net = or_throw (net item.id) internal

-- The check constraint of the column `basis_amount_minor`.
abbrev pub non_negative : ℤ → Outcome ℕ
non_negative (pos n) = ok n
non_negative (negsuc n) = throws internal

abbrev pub unmatched_accrual : Transaction → ServiceLine → ℕ → ℕ → CommissionAccrual
unmatched_accrual transaction item basis amount = record {
  organization_id = transaction.organization_id;
  transaction_id = transaction.id;
  transaction_line_item_id = item.id;
  staff_profile_id = item.staff_profile_id;
  commission_rule_id = none;
  kind = earned;
  original_accrual = none;
  source = no_policy;
  rule_type_snapshot = none;
  rate_basis_points_snapshot = none;
  fixed_amount_minor_snapshot = none;
  basis_snapshot = gross_line;
  basis_amount_minor = basis;
  calculated_amount_minor = amount;
}

abbrev pub earned_accrual :
    Transaction → ServiceLine → Option CandidateCommissionRule → ℕ → ℕ → CommissionAccrual
earned_accrual transaction item none basis amount = unmatched_accrual transaction item basis amount
earned_accrual transaction item (some rule) basis amount =
    record (unmatched_accrual transaction item basis amount) {
      commission_rule_id = some rule.id;
      source = policy;
      rule_type_snapshot = some rule.type;
      rate_basis_points_snapshot = rate_of rule rule.type;
      fixed_amount_minor_snapshot = fixed_of rule rule.type;
      basis_snapshot = rule.basis;
    }

unfoldable pub accrue_line :
    List CandidateCommissionRule → Transaction → AmountMap → ServiceLine → Outcome CommissionAccrual
accrue_line rules transaction net item = do
  let scope : CommissionScope = record {
    branch_id = transaction.branch_id;
    staff_profile_id = item.staff_profile_id;
    service_id = item.service_id;
  }
  let matched = select_most_specific_rule scope transaction.currency rules
  basis ← basis_amount (basis_of matched) item net
  calculated ← calculate_commission_amount (calculation matched) basis
  amount ← or_throw calculated internal
  stored ← non_negative basis
  ok (earned_accrual transaction item matched stored amount)

abbrev pub is_of_line : ℕ → CommissionAccrual → Bool
is_of_line line accrual = accrual.transaction_line_item_id == line

-- `commissionAccrual.create`: a line has one accrual at most.
unfoldable pub create_accrual :
    CommissionAccrual → List CommissionAccrual → Outcome (List CommissionAccrual)
create_accrual accrual accruals =
    throw_if (any (is_of_line accrual.transaction_line_item_id) accruals) unique_violation
    >> ok (accruals ++ accrual ∷ [])

unfoldable pub accrue_lines :
    List CandidateCommissionRule
    → Transaction
    → AmountMap
    → List ServiceLine
    → List CommissionAccrual
    → Outcome (List CommissionAccrual)
accrue_lines rules transaction net [] accruals = ok accruals
accrue_lines rules transaction net (item ∷ items) accruals = do
  accrual ← accrue_line rules transaction net item
  created ← create_accrual accrual accruals
  accrue_lines rules transaction net items created

abbrev pub is_already_accrued : ℕ → List CommissionAccrual → ℕ → Bool
is_already_accrued transaction accruals line =
    any (λ a. a.transaction_id == transaction && is_of_line line a) accruals

abbrev pub pending_of : Transaction → List CommissionAccrual → List ServiceLine → List ServiceLine
pending_of transaction accruals items =
    keep (λ item. not (is_already_accrued transaction.id accruals item.id)) items

-- `accrueForTransaction`; without pending lines nothing is written.
unfoldable pub accrue_for_transaction :
    List CommissionRule
    → Transaction
    → List TransactionLineItem
    → List CommissionAccrual
    → Outcome (List CommissionAccrual)
accrue_for_transaction rules transaction line_items accruals =
    let items = service_line_items line_items in
    let pending = pending_of transaction accruals items in
    if is_empty pending
    then ok accruals
    else allocate_adjustments_across_lines (map allocation_line items)
        transaction.adjustment_total_minor
      >>= λ net. accrue_lines (candidates transaction rules) transaction net pending accruals
