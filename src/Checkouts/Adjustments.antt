-- ===== src/Checkouts/Adjustments.antt =====
-- `addAdjustment` and `void` of checkouts.service.ts. A handler reads from `before`; its update runs on
-- `db`. The number of payments of a checkout is the argument `payment_count`.
use kora_os.Common.{
  ℕ, suc, Bool, not, ◌&&◌, ◌||◌, ◌∷◌, ◌==◌, ltb, if◌then◌else◌, Outcome, ok, conflict, not_found,
  plain, checkout_state_invalid, checkout_total_invalid, checkout_already_settled, ◌>>=◌, ◌>>◌,
  throw_if, or_throw,
}
use kora_os.Common.Int.{ℤ, pos, ◌+ℤ◌, ◌-ℤ◌, ltb_ℤ}
use kora_os.Common.Store.{find_first, count_where, update_where}
use kora_os.Money.{integer, assert_safe_money_amount}
use kora_os.Access.Tenant.{TenantContext, assert_membership_has_branch_access}
use kora_os.Sales.Schema.{
  checkout_open, awaiting_verification, checkout_disputed, settled, checkout_voided,
  same_checkout_status,
}
use kora_os.Checkouts.Schema.{
  CheckoutAdjustmentType, discount, surcharge, CheckoutRecord, CheckoutDb,
}

-- `CreateCheckoutAdjustmentDto`
pub record CreateCheckoutAdjustment : Type 0 where
  pub type : CheckoutAdjustmentType
  pub amount_minor : ℕ

unfoldable pub load_owned_checkout : TenantContext → ℕ → CheckoutDb → Outcome CheckoutRecord
load_owned_checkout tenant checkout_id db = do
  checkout ←
      or_throw
        (find_first (λ c. c.id == checkout_id && c.organization_id == tenant.organization_id)
          db.checkouts)
        not_found
  assert_membership_has_branch_access tenant checkout.branch_id
  ok checkout

abbrev pub signed_delta : CheckoutAdjustmentType → ℕ → ℤ
signed_delta discount amount = pos 0 -ℤ pos amount
signed_delta surcharge amount = pos amount

abbrev pub is_read_version : CheckoutRecord → CheckoutRecord → Bool
is_read_version read row = row.id == read.id && row.version == read.version

-- The columns are those that were computed from the row that was read.
abbrev pub adjusted_row :
    TenantContext → CreateCheckoutAdjustment → CheckoutRecord → CheckoutRecord → CheckoutRecord
adjusted_row tenant dto read row = record row {
  adjustment_total_minor = read.adjustment_total_minor +ℤ signed_delta dto.type dto.amount_minor;
  total_minor =
      pos read.subtotal_minor
      +ℤ (read.adjustment_total_minor +ℤ signed_delta dto.type dto.amount_minor);
  version = suc row.version;
  adjustments =
      record {
        type = dto.type;
        amount_minor = dto.amount_minor;
        created_by_membership_id = tenant.membership_id;
      }
      ∷ row.adjustments;
}

unfoldable pub add_adjustment :
    TenantContext
    → (ℕ → ℕ)
    → ℕ
    → CreateCheckoutAdjustment
    → CheckoutDb
    → CheckoutDb
    → Outcome CheckoutDb
add_adjustment tenant payment_count checkout_id dto before db = do
  read ← load_owned_checkout tenant checkout_id before
  throw_if (not (same_checkout_status read.status checkout_open)) (conflict checkout_state_invalid)
  throw_if (ltb 0 (payment_count checkout_id)) (conflict checkout_state_invalid)
  assert_safe_money_amount (integer (pos dto.amount_minor)) 1
  throw_if
      (ltb_ℤ
        (pos read.subtotal_minor
          +ℤ (read.adjustment_total_minor +ℤ signed_delta dto.type dto.amount_minor))
        (pos 0))
      (conflict checkout_total_invalid)
  throw_if (count_where (is_read_version read) db.checkouts == 0) (conflict plain)
  ok (record db {
    checkouts = update_where (is_read_version read) (adjusted_row tenant dto read) db.checkouts;
  })

abbrev pub voided_row : CheckoutRecord → CheckoutRecord
voided_row row = record row { status = checkout_voided; version = suc row.version }

unfoldable pub void : TenantContext → ℕ → CheckoutDb → CheckoutDb → Outcome CheckoutDb
void tenant checkout_id before db = do
  read ← load_owned_checkout tenant checkout_id before
  throw_if
      (not (
        same_checkout_status read.status checkout_open
        || same_checkout_status read.status awaiting_verification
        || same_checkout_status read.status checkout_disputed))
      (conflict (
        if same_checkout_status read.status settled
        then checkout_already_settled
        else checkout_state_invalid))
  throw_if (count_where (is_read_version read) db.checkouts == 0) (conflict plain)
  ok (record db { checkouts = update_where (is_read_version read) voided_row db.checkouts })
