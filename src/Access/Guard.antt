-- ===== src/Access/Guard.antt =====
-- apps/api/src/common/authorization/tenant-access.guard.ts, `TenantAccessGuard.canActivate`: the
-- checks of one request, in their order. The route's decorators are a record; resolving the tenant
-- and requiring an entitlement are arguments, filled by the sibling modules.
use kora_os.Common.{
  ℕ, ◌≡◌, refl, ◌⊎◌, inl, inr, Bool, true, false, not, ◌&&◌, Option, none, some, List, [], ◌∷◌, any,
  includes, or_else, Outcome, ok, forbidden, plain, ◌>>=◌, ◌>>◌, throw_if, or_throw, is_empty, All,
  arith, >>=-eq-ok, throw_if-eq-ok, bind_or_throw-eq-ok, >>-eq-ok, subst, ok-injective,
}
use kora_os.Access.Tenant.{
  Permission, branches_manage, AccessMode, read_only, blocked, TenantContext,
}

pub record TenantRequest : Type 0 where
  pub auth_user_id : ℕ
  pub is_safe_method : Bool
  pub organization_param : Option ℕ
  pub organization_header : Option ℕ
  pub branch_param : Option ℕ
  pub branch_header : Option ℕ

pub record RouteRules : Type 0 where
  pub allow_read_only : Bool
  pub permissions : List Permission
  pub any_permissions : List Permission
  pub names_branch_param : Bool
  pub entitlements : List ℕ

abbrev pub is_blocked : AccessMode → Bool
is_blocked blocked = true
is_blocked _ = false

abbrev pub is_read_only : AccessMode → Bool
is_read_only read_only = true
is_read_only _ = false

unfoldable pub holds_all : TenantContext → List Permission → Bool
holds_all tenant [] = true
holds_all tenant (p ∷ ps) = tenant.permission_codes p && holds_all tenant ps

-- The branch that the route names, if the tenant may not use it.
abbrev pub branch_denied : TenantContext → Option ℕ → Bool
branch_denied tenant none = false
branch_denied tenant (some branch) =
    not (tenant.permission_codes branches_manage) && not (includes tenant.branch_ids branch)

may_write :
    (safe allowed locked : Bool)
    → (not safe && not allowed && locked) ≡ false
    → (safe ≡ true) ⊎ (allowed ≡ true) ⊎ (locked ≡ false)
may_write safe allowed locked h = ground arith

of_not : (b : Bool) → not b ≡ false → b ≡ true
of_not b h = ground arith

module _ (resolve : ℕ → ℕ → Option TenantContext)
    (require_entitlement : ℕ → ℕ → Outcome (Unit {0})) where
  unfoldable pub require_each : ℕ → List ℕ → Outcome (Unit {0})
  require_each organization [] = ok tt
  require_each organization (code ∷ codes) = do
    require_entitlement organization code
    require_each organization codes

  -- The checks of a resolved tenant.
  unfoldable pub check_tenant : TenantContext → TenantRequest → RouteRules → Outcome (Unit {0})
  check_tenant tenant request rules = do
    throw_if (is_blocked tenant.access_mode) (forbidden plain)
    throw_if
        (not request.is_safe_method && not rules.allow_read_only && is_read_only tenant.access_mode)
        (forbidden plain)
    throw_if (not (holds_all tenant rules.permissions)) (forbidden plain)
    throw_if
        (not (is_empty rules.any_permissions)
          && not (any tenant.permission_codes rules.any_permissions))
        (forbidden plain)
    throw_if
        (rules.names_branch_param
          && branch_denied tenant (or_else request.branch_param request.branch_header))
        (forbidden plain)
    require_each tenant.organization_id rules.entitlements

  unfoldable pub can_activate : TenantRequest → RouteRules → Outcome TenantContext
  can_activate request rules = do
    organization ←
        or_throw (or_else request.organization_param request.organization_header) (forbidden plain)
    tenant ← or_throw (resolve request.auth_user_id organization) (forbidden plain)
    check_tenant tenant request rules
    ok tenant

  -- What a request that passes has established.
  pub record IsAdmitted (request : TenantRequest) (rules : RouteRules) (tenant : TenantContext)
      : Type 0 where
    pub organization : ℕ
    pub selected :
        or_else request.organization_param request.organization_header ≡ some organization
    pub member : resolve request.auth_user_id organization ≡ some tenant
    pub not_blocked : is_blocked tenant.access_mode ≡ false
    pub writable :
        (request.is_safe_method ≡ true)
        ⊎ (rules.allow_read_only ≡ true)
        ⊎ (is_read_only tenant.access_mode ≡ false)
    pub permitted : All (λ p. tenant.permission_codes p ≡ true) rules.permissions
    pub permitted_any :
        (rules.any_permissions ≡ []) ⊎ (any tenant.permission_codes rules.any_permissions ≡ true)
    pub branch_allowed :
        rules.names_branch_param ≡ true
        → (branch : ℕ) → or_else request.branch_param request.branch_header ≡ some branch
        → (tenant.permission_codes branches_manage ≡ true)
          ⊎ (includes tenant.branch_ids branch ≡ true)
    pub entitled :
        All (λ code. require_entitlement tenant.organization_id code ≡ ok tt) rules.entitlements

  holds_all-All :
      (tenant : TenantContext) (ps : List Permission)
      → holds_all tenant ps ≡ true
      → All (λ p. tenant.permission_codes p ≡ true) ps
  unfolding holds_all
  holds_all-All tenant [] h = tt
  holds_all-All tenant (p ∷ ps) h = (ground arith, holds_all-All tenant ps (ground arith))

  require_each-All :
      (organization : ℕ) (codes : List ℕ)
      → require_each organization codes ≡ ok tt
      → All (λ code. require_entitlement organization code ≡ ok tt) codes
  unfolding require_each
  require_each-All organization [] h = tt
  require_each-All organization (code ∷ codes) h =
      let (u, first, rest) =
        >>=-eq-ok (require_entitlement organization code) (λ _. require_each organization codes)
          h in
      (first, require_each-All organization codes rest)

  allowed_branch :
      (tenant : TenantContext) (o : Option ℕ) (named : Bool)
      → (named && branch_denied tenant o) ≡ false
      → named ≡ true
      → (branch : ℕ) → o ≡ some branch
      → (tenant.permission_codes branches_manage ≡ true)
        ⊎ (includes tenant.branch_ids branch ≡ true)
  allowed_branch tenant o named h n branch e = ground arith

  one_of :
      (ps : List Permission) (held : Bool)
      → (not (is_empty ps) && not held) ≡ false
      → (ps ≡ []) ⊎ (held ≡ true)
  one_of [] held h = inl refl
  one_of (p ∷ ps) held h = inr (ground arith)

  check_tenant-IsAdmitted :
      (tenant : TenantContext) (request : TenantRequest) (rules : RouteRules) (organization : ℕ)
      → or_else request.organization_param request.organization_header ≡ some organization
      → resolve request.auth_user_id organization ≡ some tenant
      → check_tenant tenant request rules ≡ ok tt
      → IsAdmitted request rules tenant
  unfolding check_tenant
  check_tenant-IsAdmitted tenant request rules organization selected member h =
      let (not_blocked, h3) = throw_if-eq-ok _ _ _ h in
      let (writable, h4) = throw_if-eq-ok _ _ _ h3 in
      let (permitted, h5) = throw_if-eq-ok _ _ _ h4 in
      let (permitted_any, h6) = throw_if-eq-ok _ _ _ h5 in
      let (branch, entitled) = throw_if-eq-ok _ _ _ h6 in
      record {
        organization = organization;
        selected = selected;
        member = member;
        not_blocked = not_blocked;
        writable =
            may_write request.is_safe_method rules.allow_read_only (is_read_only tenant.access_mode)
              writable;
        permitted =
            holds_all-All tenant rules.permissions
              (of_not (holds_all tenant rules.permissions) permitted);
        permitted_any =
            one_of rules.any_permissions (any tenant.permission_codes rules.any_permissions)
              permitted_any;
        branch_allowed =
            allowed_branch tenant (or_else request.branch_param request.branch_header)
              rules.names_branch_param branch;
        entitled = require_each-All tenant.organization_id rules.entitlements entitled;
      }

  -- A request that the guard lets through was made by a member of the selected organization whose
  -- subscription is not blocked, and not read-only unless the request is safe or marked so; the
  -- member holds every required permission and one of the alternatives, may use the branch that the
  -- route names, and the plan has every required entitlement.
  pub can_activate-IsAdmitted :
      (request : TenantRequest) (rules : RouteRules) (tenant : TenantContext)
      → can_activate request rules ≡ ok tenant
      → IsAdmitted request rules tenant
  unfolding can_activate
  can_activate-IsAdmitted request rules tenant h =
      let (organization, selected, h1) = bind_or_throw-eq-ok _ _ _ h in
      let (context, member, h2) = bind_or_throw-eq-ok _ _ _ h1 in
      let (checked, done) = >>-eq-ok _ _ h2 in
      subst (IsAdmitted request rules) (ok-injective done)
        (check_tenant-IsAdmitted context request rules organization selected member checked)
