-- ===== src/Access/Tenant.antt =====
-- The resolved tenant context (tenant-context.service.ts, interfaces/tenant-context.interface.ts),
-- access to branches (assert-branch-access.util.ts) and the status policy (status-policy.ts).
-- Identifiers are numbers; a set of permission codes is its membership test.
use kora_os.Common.{
  ℕ, subst, sym, of_some-eq-some, ◌+◌, ◌≡◌, refl, inl, inr, Bool, true, false, not, ◌&&◌, ◌||◌,
  Option, none, some, List, [], ◌∷◌, ◌==◌, any, includes, if◌then◌else◌, Outcome, ok, forbidden,
  plain, throw_if, arith, Bool-cases,
}

-- The codes that the modelled services name, and the others by number.
pub data Permission : Type 0 where
  branches_manage : Permission
  queue_manage : Permission
  sessions_start : Permission
  sessions_perform : Permission
  sessions_manage : Permission
  payments_verify_own : Permission
  payments_resolve : Permission
  cash_sessions_reconcile : Permission
  refunds_approve : Permission
  other_permission : ℕ → Permission

abbrev pub permission_number : Permission → ℕ
permission_number branches_manage = 0
permission_number queue_manage = 1
permission_number sessions_start = 2
permission_number sessions_perform = 3
permission_number sessions_manage = 4
permission_number payments_verify_own = 5
permission_number payments_resolve = 6
permission_number cash_sessions_reconcile = 7
permission_number refunds_approve = 8
permission_number (other_permission n) = 9 + n

pub data AccessMode : Type 0 where
  full limited read_only blocked : AccessMode

pub record TenantContext : Type 0 where
  pub membership_id : ℕ
  pub organization_id : ℕ
  pub user_id : ℕ
  pub permission_codes : Permission → Bool
  pub is_owner : Bool
  pub branch_ids : List ℕ
  pub access_mode : AccessMode

-- `assertMembershipHasBranchAccess`
unfoldable pub assert_membership_has_branch_access : TenantContext → ℕ → Outcome (Unit {0})
assert_membership_has_branch_access tenant branch_id =
    if tenant.permission_codes branches_manage
    then ok tt
    else throw_if (not (includes tenant.branch_ids branch_id)) (forbidden plain)

pub data UserStatus : Type 0 where
  user_pending user_active user_suspended user_deleted : UserStatus

pub data OrganizationStatus : Type 0 where
  organization_onboarding organization_active organization_suspended : OrganizationStatus
  organization_closed : OrganizationStatus

unfoldable pub is_user_allowed_access : UserStatus → Bool
is_user_allowed_access user_active = true
is_user_allowed_access _ = false

unfoldable pub is_organization_allowed_access : OrganizationStatus → Bool
is_organization_allowed_access organization_active = true
is_organization_allowed_access _ = false

pub data MembershipStatus : Type 0 where
  invited active suspended removed : MembershipStatus

abbrev pub is_active_membership : MembershipStatus → Bool
is_active_membership active = true
is_active_membership _ = false

-- The rows that `TenantContextService.resolve` reads.
pub record Membership : Type 0 where
  pub id : ℕ
  pub user_id : ℕ
  pub organization_id : ℕ
  pub status : MembershipStatus
  pub organization_status : OrganizationStatus
  pub roles_own : List Bool
  pub role_permissions : List (List Permission)
  pub branch_assignments : List ℕ

-- `permissionCodes`: the union over the roles.
unfoldable pub grants : List Permission → Permission → Bool
grants [] p = false
grants (q ∷ qs) p = permission_number q == permission_number p || grants qs p

unfoldable pub union_grants : List (List Permission) → Permission → Bool
unfolding grants
union_grants [] p = false
union_grants (r ∷ rs) p = grants r p || union_grants rs p

unfoldable pub find_membership : ℕ → ℕ → List Membership → Option Membership
find_membership user organization [] = none
find_membership user organization (m ∷ ms) =
    if m.user_id == user && m.organization_id == organization && is_active_membership m.status
    then some m
    else find_membership user organization ms

-- `subscription_mode` is the access mode of the organization's subscription, if it has one.
abbrev pub mode_or_blocked : Option AccessMode → AccessMode
mode_or_blocked none = blocked
mode_or_blocked (some mode) = mode

abbrev pub context_of : ℕ → ℕ → Option AccessMode → Membership → TenantContext
context_of user organization subscription_mode m = record {
  membership_id = m.id;
  organization_id = organization;
  user_id = user;
  permission_codes = union_grants m.role_permissions;
  is_owner = any (λ own. own) m.roles_own;
  branch_ids = m.branch_assignments;
  access_mode = mode_or_blocked subscription_mode;
}

unfoldable pub context_if_allowed :
    ℕ → ℕ → Option AccessMode → Option Membership → Option TenantContext
unfolding is_organization_allowed_access union_grants
context_if_allowed user organization subscription_mode none = none
context_if_allowed user organization subscription_mode (some m) =
    if not (is_organization_allowed_access m.organization_status)
    then none
    else some (context_of user organization subscription_mode m)

unfoldable pub resolve : List Membership → (ℕ → Option AccessMode) → ℕ → ℕ → Option TenantContext
unfolding find_membership context_if_allowed
resolve memberships subscription_mode user organization =
    context_if_allowed user organization (subscription_mode organization)
      (find_membership user organization memberships)

active_of_test : (s : MembershipStatus) → is_active_membership s ≡ true → s ≡ active
active_of_test s h = ground arith

active_organization :
    (s : OrganizationStatus) → is_organization_allowed_access s ≡ true → s ≡ organization_active
unfolding is_organization_allowed_access
active_organization s h = ground arith

of_guarded {ℓ} :
    {A : Type ℓ} (b : Bool) (c d : A)
    → (if not b then none else some c) ≡ some d
    → (b ≡ true) × (d ≡ c)
of_guarded true c d h = (refl, sym (of_some-eq-some h))
of_guarded false c d h = cc

allowed_context :
    (user organization : ℕ) (mode : Option AccessMode) (m : Membership) (context : TenantContext)
    → context_if_allowed user organization mode (some m) ≡ some context
    → (m.organization_status ≡ organization_active)
      × (context ≡ context_of user organization mode m)
unfolding context_if_allowed
allowed_context user organization mode m context h =
    let (allowed, same) =
      of_guarded (is_organization_allowed_access m.organization_status) _ context h in
    (active_organization m.organization_status allowed, same)

module _ (user organization : ℕ) (x : Membership) (xs : List Membership) (m : Membership) where
  abbrev matches : Bool
  matches = x.user_id == user && x.organization_id == organization && is_active_membership x.status

  found_here :
      matches ≡ true → find_membership user organization (x ∷ xs) ≡ some m → some x ≡ some m
  unfolding find_membership
  found_here e h = ground arith

  found_later :
      matches ≡ false
      → find_membership user organization (x ∷ xs) ≡ some m
      → find_membership user organization xs ≡ some m
  unfolding find_membership
  found_later e h = ground arith

found_membership :
    (user organization : ℕ) (ms : List Membership) (m : Membership)
    → find_membership user organization ms ≡ some m
    → (m.user_id ≡ user) × (m.organization_id ≡ organization) × (m.status ≡ active)
unfolding find_membership
found_membership user organization [] m h = cc
found_membership user organization (x ∷ xs) m h =
    elim (Bool-cases
      (x.user_id == user && x.organization_id == organization && is_active_membership x.status)) [
        | inl e ↦
            let same : x ≡ m = of_some-eq-some (found_here user organization x xs m e h) in
            subst
              (λ y. (y.user_id ≡ user) × (y.organization_id ≡ organization) × (y.status ≡ active))
              same (ground arith, ground arith, active_of_test x.status (ground arith))
        | inr e ↦ found_membership user organization xs m (found_later user organization x xs m e h)
      ]

-- A context is resolved for the asking user and organization only, from a membership of theirs that
-- is active in an active organization, and its permissions are those that its roles grant.
pub resolve-membership :
    (memberships : List Membership) (mode : ℕ → Option AccessMode) (user organization : ℕ)
    (context : TenantContext)
    → resolve memberships mode user organization ≡ some context
    → (m : Membership) × (find_membership user organization memberships ≡ some m)
      × (m.user_id ≡ user)
      × (m.organization_id ≡ organization)
      × (m.status ≡ active)
      × (m.organization_status ≡ organization_active)
      × (context ≡ context_of user organization (mode organization) m)
unfolding resolve
resolve-membership memberships mode user organization context h =
    resolved (find_membership user organization memberships) refl h
  where
    resolved :
        (o : Option Membership)
        → find_membership user organization memberships ≡ o
        → context_if_allowed user organization (mode organization) o ≡ some context
        → (m : Membership) × (find_membership user organization memberships ≡ some m)
          × (m.user_id ≡ user)
          × (m.organization_id ≡ organization)
          × (m.status ≡ active)
          × (m.organization_status ≡ organization_active)
          × (context ≡ context_of user organization (mode organization) m)
    resolved none is k = cc
    resolved (some m) is k =
        let (u, o, a) = found_membership user organization memberships m is in
        let (st, ctx) = allowed_context user organization (mode organization) m context k in
        (m, is, u, o, a, st, ctx)
