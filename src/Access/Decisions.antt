-- ===== src/Access/Decisions.antt =====
-- The rules that a service applies after the guard: starting a service session
-- (service-session-start-authorization.util.ts), confirming a payment
-- (payment-confirmation-authorization.util.ts) and deciding on a correction
-- (correction-decision-authorization.util.ts).
use kora_os.Common.{
  ℕ, ◌≡◌, ◌⊎◌, ◌↔◌, Bool, true, false, not, ◌&&◌, Option, some, same_option, if◌then◌else◌, Outcome,
  ok, throws, forbidden, bad_request, plain, payment_self_confirmation_forbidden,
  payment_confirmation_forbidden, correction_self_decision_forbidden, throw_if, arith,
}

pub record StartAuthorizationContext : Type 0 where
  pub has_manage : Bool
  pub has_perform : Bool
  pub has_start : Bool
  pub has_change_provider_permission : Bool
  pub own_staff_profile_id : Option ℕ
  pub resolved_provider_staff_profile_id : ℕ
  pub provider_explicitly_requested : Bool
  pub currently_assigned_staff_profile_id : Option ℕ

unfoldable pub assert_start_authorized : StartAuthorizationContext → Outcome (Unit {0})
assert_start_authorized c =
    if c.has_manage
    then ok tt
    else if c.has_perform
    then throw_if
        (not (same_option c.own_staff_profile_id (some c.resolved_provider_staff_profile_id)))
        (forbidden plain)
    else if c.has_start
    then throw_if
        (c.provider_explicitly_requested
          && not (
              same_option (some c.resolved_provider_staff_profile_id)
                c.currently_assigned_staff_profile_id)
          && not c.has_change_provider_permission)
        (forbidden plain)
    else throws (forbidden plain)

-- Whether a reason is given is whether its trimmed text is not empty.
pub record ConfirmAuthorizationContext : Type 0 where
  pub has_verify_own : Bool
  pub has_resolve : Bool
  pub is_assigned_provider : Bool
  pub is_self_recorded : Bool
  pub has_override_reason : Bool

-- The result is `isManagementOverride`.
unfoldable pub assert_confirm_authorized : ConfirmAuthorizationContext → Outcome Bool
assert_confirm_authorized c =
    if c.has_verify_own && c.is_assigned_provider && not c.is_self_recorded
    then ok false
    else if c.has_resolve
    then (if not c.has_override_reason then throws (bad_request plain) else ok true)
    else if c.has_verify_own && c.is_assigned_provider && c.is_self_recorded
    then throws (forbidden payment_self_confirmation_forbidden)
    else throws (forbidden payment_confirmation_forbidden)

pub record CorrectionDecisionAuthorizationContext : Type 0 where
  pub is_requester : Bool
  pub is_active_owner : Bool
  pub has_other_eligible_approver : Bool
  pub has_override_reason : Bool

-- The result is `soloOwnerOverride`.
unfoldable pub assert_correction_decision_authorized :
    CorrectionDecisionAuthorizationContext → Outcome Bool
assert_correction_decision_authorized c =
    if not c.is_requester
    then ok false
    else if c.is_active_owner && not c.has_other_eligible_approver
    then (if not c.has_override_reason then throws (bad_request plain) else ok true)
    else throws (forbidden correction_self_decision_forbidden)

-- A caller with the unrestricted permission starts any session. One who holds neither the
-- unrestricted nor the perform permission starts a session only with the start permission, and
-- then for the provider already assigned, for one that was not named in the request, or with the
-- permission to change the provider; one who holds perform but not the unrestricted permission
-- starts only their own work.
pub assert_start_authorized_iff :
    (c : StartAuthorizationContext)
    → (assert_start_authorized c ≡ ok tt) ↔ (
        (c.has_manage ≡ true)
        ⊎ ((c.has_manage ≡ false)
            × (c.has_perform ≡ true)
            × (c.own_staff_profile_id ≡ some c.resolved_provider_staff_profile_id))
        ⊎ ((c.has_manage ≡ false)
            × (c.has_perform ≡ false)
            × (c.has_start ≡ true)
            × ((c.provider_explicitly_requested ≡ false)
                ⊎ (c.currently_assigned_staff_profile_id
                    ≡ some c.resolved_provider_staff_profile_id)
                ⊎ (c.has_change_provider_permission ≡ true))))
unfolding assert_start_authorized
assert_start_authorized_iff c = (λ h. ground arith, λ h. ground arith)

-- Nobody confirms a payment that they recorded themselves except through the management override,
-- and nobody else's assigned payment either; an override needs the resolve permission and a reason.
pub assert_confirm_authorized_iff :
    (c : ConfirmAuthorizationContext) (override : Bool)
    → (assert_confirm_authorized c ≡ ok override) ↔ (
        ((override ≡ false)
          × (c.has_verify_own ≡ true)
          × (c.is_assigned_provider ≡ true)
          × (c.is_self_recorded ≡ false))
        ⊎ ((override ≡ true)
            × (c.has_resolve ≡ true)
            × (c.has_override_reason ≡ true)
            × ((c.has_verify_own ≡ false)
                ⊎ (c.is_assigned_provider ≡ false)
                ⊎ (c.is_self_recorded ≡ true))))
unfolding assert_confirm_authorized
assert_confirm_authorized_iff c override = (λ h. ground arith, λ h. ground arith)

-- The requester of a correction decides on it only as an active owner, when no other member could,
-- and with a reason; any other member decides without an override.
pub assert_correction_decision_authorized_iff :
    (c : CorrectionDecisionAuthorizationContext) (override : Bool)
    → (assert_correction_decision_authorized c ≡ ok override) ↔ (
        ((override ≡ false) × (c.is_requester ≡ false))
        ⊎ ((override ≡ true)
            × (c.is_requester ≡ true)
            × (c.is_active_owner ≡ true)
            × (c.has_other_eligible_approver ≡ false)
            × (c.has_override_reason ≡ true)))
unfolding assert_correction_decision_authorized
assert_correction_decision_authorized_iff c override = (λ h. ground arith, λ h. ground arith)
