-- ===== src/Commissions/Tests.antt =====
-- A transaction of three lines with a discount, rules at two levels, and refunds in parts.
use kora_os.Common.{ℕ, ◌<◌, ◌≡◌, ◌⊎◌, List, [], ◌∷◌, some, none, ok, arith}
use kora_os.Common.Int.{pos, negsuc, ◌+ℤ◌}
use kora_os.Commissions.Calculation.{CommissionRuleForCalculation, percentage}
use kora_os.Commissions.Precedence.{
  CandidateCommissionRule, gross_line, CommissionScope, select_most_specific_rule,
}
use kora_os.Commissions.Precedence.Selection.{
  IsSelected, NoneApplies, select_most_specific_rule_lem,
}
use kora_os.Commissions.Allocation.{
  AllocationLine, AmountMap, gross_total, allocate_adjustments_across_lines,
}
use kora_os.Commissions.Allocation.Totals.{HasEntries, ids_of, total_over}
use kora_os.Commissions.Allocation.Exact.{allocate_adjustments_exact}

abbrev fifteen_percent : CommissionRuleForCalculation
fifteen_percent = record {
  type = percentage;
  rate_basis_points = some 1500;
  fixed_amount_minor = none;
}

abbrev refunds : List ℕ
refunds = 40 ∷ 100 ∷ []

abbrev organization_rule : CandidateCommissionRule
organization_rule = record {
  id = 1;
  branch_id = none;
  staff_profile_id = none;
  service_id = none;
  type = percentage;
  rate_basis_points = some 1000;
  fixed_amount_minor = none;
  fixed_currency = none;
  basis = gross_line;
}

abbrev service_rule : CandidateCommissionRule
service_rule = record organization_rule { id = 2; service_id = some 8 }

abbrev scope : CommissionScope
scope = record { branch_id = 3; staff_profile_id = 5; service_id = 8 }

select_most_specific_rule_lem_example :
    ((select_most_specific_rule scope 1 (organization_rule ∷ service_rule ∷ []) ≡ none)
      × NoneApplies scope 1 (organization_rule ∷ service_rule ∷ []))
    ⊎ ((rule : CandidateCommissionRule) × (select_most_specific_rule scope 1
            (organization_rule ∷ service_rule ∷ [])
          ≡ some rule)
        × IsSelected scope 1 (organization_rule ∷ service_rule ∷ []) rule)
select_most_specific_rule_lem_example =
    select_most_specific_rule_lem scope 1 (organization_rule ∷ service_rule ∷ [])

abbrev line : ℕ → ℕ → AllocationLine
line id amount = record { line_id = id; gross_amount_minor = amount; display_order = id }

abbrev lines : List AllocationLine
lines = line 1 100 ∷ line 2 100 ∷ line 3 100 ∷ []

lines_total : 0 < gross_total lines
unfolding gross_total
lines_total = ground arith

-- A discount of 100 over three equal lines: 33, 33 and 34.
allocate_adjustments_exact_example :
    (net : AmountMap) × (allocate_adjustments_across_lines lines (negsuc 99) ≡ ok net)
    × (total_over (ids_of lines) net ≡ pos (gross_total lines) +ℤ negsuc 99)
    × HasEntries (ids_of lines) net
allocate_adjustments_exact_example =
    allocate_adjustments_exact lines (negsuc 99) lines_total
      ((ground arith, (ground arith, tt)), ((ground arith, tt), (tt, tt)))
