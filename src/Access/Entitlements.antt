-- ===== src/Access/Entitlements.antt =====
-- apps/api/src/modules/subscriptions/entitlements.service.ts: the features and limits of a plan, all
-- from database rows. Codes of entitlements are numbers, and so are the texts of values.
use kora_os.Common.Int.{ℤ, pos, leb_ℤ}
use kora_os.Common.{
  ℕ, ◌+◌, ◌≡◌, ◌≢◌, ◌⊎◌, refl, sym, ap, ◌∙◌, Bool, true, false, Option, none, some, List, [], ◌∷◌,
  ◌==◌, if◌then◌else◌, Outcome, ok, throws, forbidden, conflict, not_found, internal,
  plan_entitlement_required, plan_limit_reached, ◌>>=◌, inl, inr, or_throw,
}

pub data EntitlementValueType : Type 0 where
  boolean_type integer_type string_type : EntitlementValueType

-- `Prisma.JsonValue` as far as `castEntitlementValue` tells the values apart; a number that is no
-- integer, an array and an object are `other_json`.
pub data JsonValue : Type 0 where
  json_boolean : Bool → JsonValue
  json_null : JsonValue
  json_integer : ℤ → JsonValue
  json_string : ℕ → JsonValue
  other_json : JsonValue

pub data EntitlementValue : Type 0 where
  boolean : Bool → EntitlementValue
  number : ℤ → EntitlementValue
  text : ℕ → EntitlementValue
  null : EntitlementValue

unfoldable pub cast_entitlement_value : EntitlementValueType → JsonValue → Outcome EntitlementValue
cast_entitlement_value boolean_type (json_boolean b) = ok (boolean b)
cast_entitlement_value integer_type json_null = ok null
cast_entitlement_value integer_type (json_integer n) = ok (number n)
cast_entitlement_value string_type (json_string s) = ok (text s)
cast_entitlement_value _ _ = throws internal

pub record PlanEntitlement : Type 0 where
  pub plan_id : ℕ
  pub code : ℕ
  pub value_type : EntitlementValueType
  pub value : JsonValue

-- `ResolvedEntitlements`: the record of codes and values, where a later row of a code replaces an
-- earlier one.
abbrev pub ResolvedEntitlements : Type 0
ResolvedEntitlements = ℕ → Option EntitlementValue

unfoldable pub resolve_rows :
    ℕ → List PlanEntitlement → ResolvedEntitlements → Outcome ResolvedEntitlements
resolve_rows plan_id [] resolved = ok resolved
resolve_rows plan_id (row ∷ rows) resolved =
    let with_row = cast_entitlement_value row.value_type row.value >>= λ value.
    resolve_rows plan_id rows (λ c. if row.code == c then some value else resolved c) in
    let without_row = resolve_rows plan_id rows resolved in
    if row.plan_id == plan_id then with_row else without_row

unfoldable pub resolve_for_plan : List PlanEntitlement → ℕ → Outcome ResolvedEntitlements
resolve_for_plan rows plan_id = resolve_rows plan_id rows (λ _. none)

-- `plan_of` is the plan of the organization's subscription, if it has one.
unfoldable pub resolve_for_organization :
    List PlanEntitlement → (ℕ → Option ℕ) → ℕ → Outcome ResolvedEntitlements
resolve_for_organization rows plan_of organization_id =
    or_throw (plan_of organization_id) not_found >>= λ plan_id. resolve_for_plan rows plan_id

abbrev pub is_true : Option EntitlementValue → Bool
is_true (some (boolean b)) = b
is_true _ = false

unfoldable pub has_for_organization : List PlanEntitlement → (ℕ → Option ℕ) → ℕ → ℕ → Outcome Bool
has_for_organization rows plan_of organization_id code =
    resolve_for_organization rows plan_of organization_id >>= λ entitlements.
    ok (is_true (entitlements code))

-- The `try` with its empty `catch`, and the exception after it.
unfoldable pub require_outcome : Outcome Bool → Outcome (Unit {0})
require_outcome (ok true) = ok tt
require_outcome (ok false) = throws (forbidden plan_entitlement_required)
require_outcome (throws e) = throws (forbidden plan_entitlement_required)

unfoldable pub require_for_organization :
    List PlanEntitlement → (ℕ → Option ℕ) → ℕ → ℕ → Outcome (Unit {0})
unfolding require_outcome
require_for_organization rows plan_of organization_id code =
    require_outcome (has_for_organization rows plan_of organization_id code)

unfoldable pub within_limit : Option EntitlementValue → ℕ → ℕ → Outcome (Unit {0})
within_limit (some (number limit)) current additional =
    if leb_ℤ (pos (current + additional)) limit then ok tt else throws (conflict plan_limit_reached)
within_limit _ current additional = ok tt

unfoldable pub assert_within_limit : List PlanEntitlement → ℕ → ℕ → ℕ → ℕ → Outcome (Unit {0})
unfolding within_limit
assert_within_limit rows plan_id code current additional =
    resolve_for_plan rows plan_id >>= λ resolved. within_limit (resolved code) current additional

abbrev RefusesUnlessTrue : Outcome ResolvedEntitlements → ℕ → Outcome (Unit {0}) → Type 0
RefusesUnlessTrue o code result =
    ((result ≡ ok tt)
      × (resolved : ResolvedEntitlements) × (o ≡ ok resolved)
      × (resolved code ≡ some (boolean true)))
    ⊎ ((result ≡ throws (forbidden plan_entitlement_required))
        × ((resolved : ResolvedEntitlements)
            → o ≡ ok resolved
            → resolved code ≢ some (boolean true)))

clash :
    (e : ResolvedEntitlements) (code : ℕ) (v : Option EntitlementValue)
    → e code ≡ v
    → v ≢ some (boolean true)
    → (r : ResolvedEntitlements) → ◌≡◌ {A = Outcome ResolvedEntitlements} (ok e) (ok r)
    → r code ≢ some (boolean true)
clash e code v is ne r same it = let agree : e ≡ r = cc in ne (sym is ∙ ap (λ m. m code) agree ∙ it)

decided_value :
    (e : ResolvedEntitlements) (code : ℕ) (v : Option EntitlementValue)
    → e code ≡ v
    → RefusesUnlessTrue (ok e) code (require_outcome (ok (is_true v)))
unfolding require_outcome
decided_value e code (some (boolean true)) is = inl (refl, e, refl, is)
decided_value e code (some (boolean false)) is = inr (refl, clash e code _ is (λ h. cc))
decided_value e code (some (number n)) is = inr (refl, clash e code _ is (λ h. cc))
decided_value e code (some (text n)) is = inr (refl, clash e code _ is (λ h. cc))
decided_value e code (some null) is = inr (refl, clash e code _ is (λ h. cc))
decided_value e code none is = inr (refl, clash e code _ is (λ h. cc))

decided :
    (o : Outcome ResolvedEntitlements) (code : ℕ)
    → RefusesUnlessTrue o code (require_outcome (o >>= λ e. ok (is_true (e code))))
unfolding require_outcome
decided (ok e) code = decided_value e code (e code) refl
decided (throws x) code = inr (refl, λ r same it. cc)

-- A required feature fails closed: it is granted exactly when the rows resolve and the last row of
-- the code is the Boolean true, and any failure on the way is the same refusal.
pub require_for_organization_fails_closed :
    (rows : List PlanEntitlement) (plan_of : ℕ → Option ℕ) (organization_id code : ℕ)
    → ((require_for_organization rows plan_of organization_id code ≡ ok tt)
        × (resolved : ResolvedEntitlements) × (resolve_for_organization rows plan_of organization_id
            ≡ ok resolved)
        × (resolved code ≡ some (boolean true)))
      ⊎ ((require_for_organization rows plan_of organization_id code
            ≡ throws (forbidden plan_entitlement_required))
          × ((resolved : ResolvedEntitlements)
              → resolve_for_organization rows plan_of organization_id ≡ ok resolved
              → resolved code ≢ some (boolean true)))
unfolding require_for_organization has_for_organization
require_for_organization_fails_closed rows plan_of organization_id code =
    decided (resolve_for_organization rows plan_of organization_id) code
