-- ===== src/Sales/Schema.antt =====
-- The rows of one checkout (apps/api/prisma/schema.prisma). Every change of a payment first locks the
-- row of its checkout, so a checkout with its payments, disputes and transactions is what one
-- transaction of the database works on.
use kora_os.Common.{ℕ, Bool, true, false, Option, List, ◌==◌}

pub data CheckoutStatus : Type 0 where
  checkout_open awaiting_verification checkout_disputed settled checkout_voided : CheckoutStatus

abbrev pub checkout_number : CheckoutStatus → ℕ
checkout_number checkout_open = 0
checkout_number awaiting_verification = 1
checkout_number checkout_disputed = 2
checkout_number settled = 3
checkout_number checkout_voided = 4

abbrev pub same_checkout_status : CheckoutStatus → CheckoutStatus → Bool
same_checkout_status a b = checkout_number a == checkout_number b

pub data PaymentStatus : Type 0 where
  recorded confirmed payment_disputed payment_voided : PaymentStatus

abbrev pub payment_number : PaymentStatus → ℕ
payment_number recorded = 0
payment_number confirmed = 1
payment_number payment_disputed = 2
payment_number payment_voided = 3

abbrev pub same_payment_status : PaymentStatus → PaymentStatus → Bool
same_payment_status a b = payment_number a == payment_number b

pub data PaymentMethod : Type 0 where
  cash other_method : PaymentMethod

abbrev pub is_cash : PaymentMethod → Bool
is_cash cash = true
is_cash other_method = false

pub record Checkout : Type 0 where
  pub id : ℕ
  pub organization_id : ℕ
  pub branch_id : ℕ
  pub status : CheckoutStatus
  pub version : ℕ
  pub currency : ℕ
  pub total_minor : ℕ
  pub assigned_staff_profile_id : Option ℕ

pub record PaymentRecord : Type 0 where
  pub id : ℕ
  pub branch_id : ℕ
  pub method : PaymentMethod
  pub applied_amount_minor : ℕ
  pub status : PaymentStatus
  pub version : ℕ
  pub recorded_by_membership_id : ℕ
  pub confirmation_required_by : ℕ

pub data PaymentDisputeStatus : Type 0 where
  dispute_open resolved_confirmed resolved_rejected : PaymentDisputeStatus

abbrev pub is_open_dispute : PaymentDisputeStatus → Bool
is_open_dispute dispute_open = true
is_open_dispute resolved_confirmed = false
is_open_dispute resolved_rejected = false

pub record PaymentDispute : Type 0 where
  pub id : ℕ
  pub payment_record_id : ℕ
  pub status : PaymentDisputeStatus
  pub opened_by_membership_id : ℕ

pub record PaymentVerificationEvent : Type 0 where
  pub payment_record_id : ℕ
  pub previous_status : Option PaymentStatus
  pub new_status : PaymentStatus
  pub actor_membership_id : ℕ

-- A posted transaction with its allocations: payment and amount.
pub record PostedTransaction : Type 0 where
  pub total_minor : ℕ
  pub assigned_staff_profile_id : ℕ
  pub allocations : List (ℕ × ℕ)

pub record IdempotencyKey : Type 0 where
  pub membership_id : ℕ
  pub idempotency_key : ℕ
  pub request_fingerprint : ℕ
  pub resource_id : ℕ

pub record Sale : Type 0 where
  pub checkout : Checkout
  pub payments : List PaymentRecord
  pub disputes : List PaymentDispute
  pub events : List PaymentVerificationEvent
  pub transactions : List PostedTransaction
  pub idempotency_keys : List IdempotencyKey
