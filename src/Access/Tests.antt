-- ===== src/Access/Tests.antt =====
-- An owner and a barber of organization 7, and the requests that they make.
use kora_os.Common.{
  ℕ, ◌≡◌, refl, ◌≢◌, ◌↔◌, ◌⊎◌, true, false, Option, some, none, List, [], ◌∷◌, ok, throws, Outcome,
  forbidden, plan_entitlement_required,
}
use kora_os.Access.Tenant.{
  branches_manage, queue_manage, sessions_start, AccessMode, full, TenantContext, Membership,
  active, organization_active, find_membership, context_of, resolve, resolve-membership,
  context_if_allowed, grants, union_grants,
}
use kora_os.Access.Entitlements.{
  PlanEntitlement, boolean_type, json_boolean, boolean, ResolvedEntitlements,
  resolve_for_organization, require_for_organization, require_for_organization_fails_closed,
}
use kora_os.Access.Guard.{
  TenantRequest, RouteRules, can_activate, check_tenant, holds_all, require_each, IsAdmitted,
  can_activate-IsAdmitted,
}
use kora_os.Access.Decisions.{
  StartAuthorizationContext, assert_start_authorized, assert_start_authorized_iff,
  ConfirmAuthorizationContext, assert_confirm_authorized, assert_confirm_authorized_iff,
  CorrectionDecisionAuthorizationContext, assert_correction_decision_authorized,
  assert_correction_decision_authorized_iff,
}

abbrev memberships : List Membership
memberships =
    record {
      id = 1;
      user_id = 4;
      organization_id = 7;
      status = active;
      organization_status = organization_active;
      roles_own = true ∷ [];
      role_permissions = (branches_manage ∷ []) ∷ (queue_manage ∷ []) ∷ [];
      branch_assignments = [];
    }
    ∷ []

abbrev mode : ℕ → Option AccessMode
mode _ = some full

abbrev owner_membership : Membership
owner_membership = record {
  id = 1;
  user_id = 4;
  organization_id = 7;
  status = active;
  organization_status = organization_active;
  roles_own = true ∷ [];
  role_permissions = (branches_manage ∷ []) ∷ (queue_manage ∷ []) ∷ [];
  branch_assignments = [];
}

abbrev owner : TenantContext
owner = context_of 4 7 (some full) owner_membership

owner_resolved : resolve memberships mode 4 7 ≡ some owner
unfolding resolve find_membership context_if_allowed
owner_resolved = refl

resolve-membership_example :
    (m : Membership) × (find_membership 4 7 memberships ≡ some m)
    × (m.user_id ≡ 4)
    × (m.organization_id ≡ 7)
    × (m.status ≡ active)
    × (m.organization_status ≡ organization_active)
    × (owner ≡ context_of 4 7 (mode 7) m)
resolve-membership_example = resolve-membership memberships mode 4 7 owner owner_resolved

abbrev plan_rows : List PlanEntitlement
plan_rows =
    record { plan_id = 2; code = 11; value_type = boolean_type; value = json_boolean false } ∷ []

abbrev plan_of : ℕ → Option ℕ
plan_of _ = some 2

require_for_organization_fails_closed_example :
    ((require_for_organization plan_rows plan_of 7 11 ≡ ok tt)
      × (resolved : ResolvedEntitlements) × (resolve_for_organization plan_rows plan_of 7
          ≡ ok resolved)
      × (resolved 11 ≡ some (boolean true)))
    ⊎ ((require_for_organization plan_rows plan_of 7 11
          ≡ throws (forbidden plan_entitlement_required))
        × ((resolved : ResolvedEntitlements)
            → resolve_for_organization plan_rows plan_of 7 ≡ ok resolved
            → resolved 11 ≢ some (boolean true)))
require_for_organization_fails_closed_example =
    require_for_organization_fails_closed plan_rows plan_of 7 11

abbrev request : TenantRequest
request = record {
  auth_user_id = 4;
  is_safe_method = false;
  organization_param = none;
  organization_header = some 7;
  branch_param = some 3;
  branch_header = none;
}

abbrev rules : RouteRules
rules = record {
  allow_read_only = false;
  permissions = queue_manage ∷ [];
  any_permissions = sessions_start ∷ queue_manage ∷ [];
  names_branch_param = true;
  entitlements = 5 ∷ [];
}

abbrev every_entitlement : ℕ → ℕ → Outcome (Unit {0})
every_entitlement organization code = ok tt

admitted : can_activate (resolve memberships mode) every_entitlement request rules ≡ ok owner
unfolding can_activate check_tenant holds_all require_each resolve find_membership
    context_if_allowed union_grants grants
admitted = refl

can_activate-IsAdmitted_example :
    IsAdmitted (resolve memberships mode) every_entitlement request rules owner
can_activate-IsAdmitted_example =
    can_activate-IsAdmitted (resolve memberships mode) every_entitlement request rules owner
      admitted

abbrev own_start : StartAuthorizationContext
own_start = record {
  has_manage = false;
  has_perform = false;
  has_start = true;
  has_change_provider_permission = false;
  own_staff_profile_id = none;
  resolved_provider_staff_profile_id = 6;
  provider_explicitly_requested = true;
  currently_assigned_staff_profile_id = some 9;
}

assert_start_authorized_iff_example : (assert_start_authorized own_start ≡ ok tt) ↔ (
    (own_start.has_manage ≡ true)
    ⊎ ((own_start.has_manage ≡ false)
        × (own_start.has_perform ≡ true)
        × (own_start.own_staff_profile_id ≡ some own_start.resolved_provider_staff_profile_id))
    ⊎ ((own_start.has_manage ≡ false)
        × (own_start.has_perform ≡ false)
        × (own_start.has_start ≡ true)
        × ((own_start.provider_explicitly_requested ≡ false)
            ⊎ (own_start.currently_assigned_staff_profile_id
                ≡ some own_start.resolved_provider_staff_profile_id)
            ⊎ (own_start.has_change_provider_permission ≡ true))))
assert_start_authorized_iff_example = assert_start_authorized_iff own_start

abbrev self_recorded : ConfirmAuthorizationContext
self_recorded = record {
  has_verify_own = true;
  has_resolve = true;
  is_assigned_provider = true;
  is_self_recorded = true;
  has_override_reason = true;
}

assert_confirm_authorized_iff_example : (assert_confirm_authorized self_recorded ≡ ok true) ↔ (
    ((true ≡ false)
      × (self_recorded.has_verify_own ≡ true)
      × (self_recorded.is_assigned_provider ≡ true)
      × (self_recorded.is_self_recorded ≡ false))
    ⊎ ((true ≡ true)
        × (self_recorded.has_resolve ≡ true)
        × (self_recorded.has_override_reason ≡ true)
        × ((self_recorded.has_verify_own ≡ false)
            ⊎ (self_recorded.is_assigned_provider ≡ false)
            ⊎ (self_recorded.is_self_recorded ≡ true))))
assert_confirm_authorized_iff_example = assert_confirm_authorized_iff self_recorded true

abbrev sole_owner : CorrectionDecisionAuthorizationContext
sole_owner = record {
  is_requester = true;
  is_active_owner = true;
  has_other_eligible_approver = false;
  has_override_reason = true;
}

assert_correction_decision_authorized_iff_example :
    (assert_correction_decision_authorized sole_owner ≡ ok true) ↔ (
      ((true ≡ false) × (sole_owner.is_requester ≡ false))
      ⊎ ((true ≡ true)
          × (sole_owner.is_requester ≡ true)
          × (sole_owner.is_active_owner ≡ true)
          × (sole_owner.has_other_eligible_approver ≡ false)
          × (sole_owner.has_override_reason ≡ true)))
assert_correction_decision_authorized_iff_example =
    assert_correction_decision_authorized_iff sole_owner true
