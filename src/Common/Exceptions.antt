-- ===== src/Common/Exceptions.antt =====
-- The exceptions of the API (`@nestjs/common`) as values: the class of the exception and the `code`
-- of its body where the source gives one. Messages are left out.
use mathlib.Core.Path.{◌≡◌, refl}
use mathlib.Core.Bool.{Bool, true, false}
use mathlib.Core.Option.{Option, none, some}

pub data ErrorCode : Type 0 where
  plain : ErrorCode
  queue_entry_invalid_transition : ErrorCode
  queue_entry_already_in_service : ErrorCode
  appointment_not_checkinable : ErrorCode
  already_checked_in : ErrorCode
  staff_already_serving : ErrorCode
  service_session_not_in_progress : ErrorCode
  checkout_state_invalid : ErrorCode
  checkout_total_invalid : ErrorCode
  checkout_already_settled : ErrorCode
  checkout_balance_exceeded : ErrorCode
  checkout_missing_operator : ErrorCode
  insufficient_stock : ErrorCode
  checkout_already_exists : ErrorCode
  service_session_not_completed : ErrorCode
  payment_state_invalid : ErrorCode
  payment_dispute_already_resolved : ErrorCode
  payment_dispute_required : ErrorCode
  cash_session_not_open : ErrorCode
  cash_session_not_closed : ErrorCode
  payment_self_confirmation_forbidden : ErrorCode
  payment_confirmation_forbidden : ErrorCode
  correction_self_decision_forbidden : ErrorCode
  correction_state_invalid : ErrorCode
  correction_already_executed : ErrorCode
  correction_exceeds_remaining_refundable : ErrorCode
  correction_line_amount_exceeds_original : ErrorCode
  partial_product_refund_not_supported : ErrorCode
  transaction_not_correctable : ErrorCode
  idempotency_conflict : ErrorCode
  plan_entitlement_required : ErrorCode
  plan_limit_reached : ErrorCode

pub data Exception : Type 0 where
  bad_request : ErrorCode → Exception
  forbidden : ErrorCode → Exception
  not_found : Exception
  conflict : ErrorCode → Exception
  internal : Exception
  unique_violation : Exception

pub data Outcome {ℓ} (A : Type ℓ) : Type ℓ where
  ok : A → Outcome A
  throws : Exception → Outcome A

infixl 5 ◌>>=◌ ◌>>◌
abbrev pub ◌>>=◌ {ℓ κ} : {A : Type ℓ} {B : Type κ} → Outcome A → (A → Outcome B) → Outcome B
ok a >>= f = f a
throws e >>= f = throws e

abbrev pub ◌>>◌ {ℓ} : {B : Type ℓ} → Outcome (Unit {0}) → Outcome B → Outcome B
m >> k = m >>= λ _. k

-- `if (test) throw e`
abbrev pub throw_if : Bool → Exception → Outcome (Unit {0})
throw_if true e = throws e
throw_if false e = ok tt

-- `if (!value) throw e`
abbrev pub or_throw {ℓ} : {A : Type ℓ} → Option A → Exception → Outcome A
or_throw none e = throws e
or_throw (some a) e = ok a

-- Inversion of `const a = await first` followed by the rest.
pub >>=-eq-ok {ℓ κ} :
    {A : Type ℓ} {B : Type κ} (first : Outcome A) (rest : A → Outcome B) {result : B}
    → (first >>= rest) ≡ ok result
    → (value : A) × (first ≡ ok value) × (rest value ≡ ok result)
>>=-eq-ok (ok value) rest h = (value, refl, h)
>>=-eq-ok (throws e) rest h = cc

pub throw_if-eq-ok {ℓ} :
    {B : Type ℓ} (t : Bool) (e : Exception) (k : Outcome B) {b : B}
    → (throw_if t e >> k) ≡ ok b
    → (t ≡ false) × (k ≡ ok b)
throw_if-eq-ok true e k h = cc
throw_if-eq-ok false e k h = (refl, h)

pub or_throw-eq-ok {ℓ} :
    {A : Type ℓ} (o : Option A) (e : Exception) {a : A} → or_throw o e ≡ ok a → o ≡ some a
or_throw-eq-ok none e h = cc
or_throw-eq-ok (some b) e h = cc

-- Inversion of `const a = o ?? throw e` followed by the rest.
pub bind_or_throw-eq-ok {ℓ κ} :
    {A : Type ℓ} {B : Type κ} (o : Option A) (e : Exception) (f : A → Outcome B) {b : B}
    → (or_throw o e >>= f) ≡ ok b
    → (a : A) × (o ≡ some a) × (f a ≡ ok b)
bind_or_throw-eq-ok none e f h = cc
bind_or_throw-eq-ok (some a) e f h = (a, refl, h)

-- Inversion of a check that returns nothing, followed by the rest.
pub >>-eq-ok {ℓ} :
    {B : Type ℓ} (m : Outcome (Unit {0})) (k : Outcome B) {b : B}
    → (m >> k) ≡ ok b
    → (m ≡ ok tt) × (k ≡ ok b)
>>-eq-ok (ok u) k h = (refl, h)
>>-eq-ok (throws e) k h = cc

pub ok-injective {ℓ} : {A : Type ℓ} {a b : A} → ◌≡◌ {A = Outcome A} (ok a) (ok b) → a ≡ b
ok-injective h = cc
