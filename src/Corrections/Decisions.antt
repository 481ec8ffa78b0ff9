-- ===== src/Corrections/Decisions.antt =====
-- `approve`, `reject` and `cancel` of transaction-corrections.service.ts. A handler reads from
-- `before`; its transaction runs on `sale`. Whether another member may approve is the argument
-- `has_other_eligible_approver`, the count of the active memberships with the permission.
use kora_os.Common.{
  ℕ, Bool, false, not, ◌&&◌, ◌||◌, ◌==◌, if◌then◌else◌, Outcome, conflict, forbidden, plain,
  correction_state_invalid, ◌>>=◌, ◌>>◌, throw_if,
}
use kora_os.Access.Tenant.{TenantContext, refunds_approve}
use kora_os.Access.Decisions.{assert_correction_decision_authorized}
use kora_os.Corrections.Schema.{
  TransactionCorrectionStatus, requested, approved, rejected, cancelled, has_correction_status,
  CorrectedSale, load_owned_correction, move_correction,
}

-- `assertDecisionAuthorized`
unfoldable pub assert_decision_authorized : TenantContext → (ℕ → Bool) → ℕ → Bool → Outcome Bool
assert_decision_authorized tenant has_other_eligible_approver requested_by has_reason =
    let is_requester = tenant.membership_id == requested_by in
    assert_correction_decision_authorized (record {
      is_requester = is_requester;
      is_active_owner = tenant.is_owner;
      has_other_eligible_approver =
          (if is_requester then has_other_eligible_approver tenant.membership_id else false);
      has_override_reason = has_reason;
    })

-- What `approve` and `reject` share.
unfoldable pub decide :
    TenantContext
    → (ℕ → Bool)
    → ℕ
    → Bool
    → TransactionCorrectionStatus
    → CorrectedSale
    → CorrectedSale
    → Outcome CorrectedSale
decide tenant has_other_eligible_approver correction_id has_reason next before sale = do
  correction ← load_owned_correction tenant correction_id before
  throw_if (not (has_correction_status requested correction.status))
      (conflict correction_state_invalid)
  override ←
      assert_decision_authorized tenant has_other_eligible_approver
        correction.requested_by_membership_id has_reason
  move_correction tenant correction next override sale

unfoldable pub approve :
    TenantContext → (ℕ → Bool) → ℕ → Bool → CorrectedSale → CorrectedSale → Outcome CorrectedSale
unfolding decide
approve tenant approver correction_id has_reason before sale =
    decide tenant approver correction_id has_reason approved before sale

unfoldable pub reject :
    TenantContext → (ℕ → Bool) → ℕ → Bool → CorrectedSale → CorrectedSale → Outcome CorrectedSale
unfolding decide
reject tenant approver correction_id has_reason before sale =
    decide tenant approver correction_id has_reason rejected before sale

unfoldable pub cancel_correction :
    TenantContext → ℕ → CorrectedSale → CorrectedSale → Outcome CorrectedSale
cancel_correction tenant correction_id before sale = do
  correction ← load_owned_correction tenant correction_id before
  throw_if
      (not (
        has_correction_status requested correction.status
        || has_correction_status approved correction.status))
      (conflict correction_state_invalid)
  throw_if
      (not (tenant.membership_id == correction.requested_by_membership_id)
        && not (tenant.permission_codes refunds_approve))
      (forbidden plain)
  move_correction tenant correction cancelled correction.solo_owner_override sale
