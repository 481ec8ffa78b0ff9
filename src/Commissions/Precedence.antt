-- ===== src/Commissions/Precedence.antt =====
-- commission-rule-precedence.util.ts. Identifiers and currency codes are numbers, which the source
-- compares for equality only.
pub mod Selection
use kora_os.Common.{
  ℕ, suc, ◌+◌, Bool, true, false, not, ◌&&◌, ◌||◌, Option, none, some, List, [], ◌∷◌, ◌==◌,
  same_option, is_some, if◌then◌else◌,
}
use kora_os.Common.Int.{ℤ, pos, negsuc, ltb_ℤ}
use kora_os.Commissions.Calculation.{CommissionRuleType, rule_none, fixed, percentage}

pub data CommissionCalculationBasis : Type 0 where
  gross_line net_line_after_adjustments : CommissionCalculationBasis

pub record CandidateCommissionRule : Type 0 where
  pub id : ℕ
  pub branch_id : Option ℕ
  pub staff_profile_id : Option ℕ
  pub service_id : Option ℕ
  pub type : CommissionRuleType
  pub rate_basis_points : Option ℕ
  pub fixed_amount_minor : Option ℕ
  pub fixed_currency : Option ℕ
  pub basis : CommissionCalculationBasis

pub record CommissionScope : Type 0 where
  pub branch_id : ℕ
  pub staff_profile_id : ℕ
  pub service_id : ℕ

-- `column === null || column === value`
abbrev pub wildcard_or : Option ℕ → ℕ → Bool
wildcard_or none value = true
wildcard_or (some column) value = column == value

abbrev pub is_fixed : CommissionRuleType → Bool
is_fixed rule_none = false
is_fixed fixed = true
is_fixed percentage = false

-- The two tests that `continue` to the next rule.
unfoldable pub passes : CommissionScope → ℕ → CandidateCommissionRule → Bool
passes scope currency rule =
    wildcard_or rule.branch_id scope.branch_id
    && wildcard_or rule.staff_profile_id scope.staff_profile_id
    && wildcard_or rule.service_id scope.service_id
    && not (is_fixed rule.type && not (same_option rule.fixed_currency (some currency)))

unfoldable pub score : CandidateCommissionRule → ℕ
score rule =
    (if is_some rule.staff_profile_id then 4 else 0)
    + (if is_some rule.service_id then 2 else 0)
    + (if is_some rule.branch_id then 1 else 0)

module _ (scope : CommissionScope) (currency : ℕ) where
  -- The loop, with `best` and `bestScore`.
  unfoldable pub select_loop :
      List CandidateCommissionRule
      → Option CandidateCommissionRule
      → ℤ
      → Option CandidateCommissionRule
  select_loop [] best best_score = best
  select_loop (rule ∷ rules) best best_score =
      let better = passes scope currency rule && ltb_ℤ best_score (pos (score rule)) in
      select_loop rules (if better then some rule else best)
        (if better then pos (score rule) else best_score)

  unfoldable pub select_most_specific_rule :
      List CandidateCommissionRule → Option CandidateCommissionRule
  select_most_specific_rule rules = select_loop rules none (negsuc 0)
