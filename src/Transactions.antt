-- ===== src/Transactions.antt =====
-- The rows of a posted transaction and of its lines (apps/api/prisma/schema.prisma), without the
-- names and the codes that are copied into them.
use kora_os.Common.{ℕ, Bool, true, false, Option}
use kora_os.Common.Int.{ℤ}

pub data TransactionKind : Type 0 where
  kind_sale kind_refund kind_reversal : TransactionKind

abbrev pub is_sale : TransactionKind → Bool
is_sale kind_sale = true
is_sale kind_refund = false
is_sale kind_reversal = false

pub data CommerceLineItemKind : Type 0 where
  line_service line_product : CommerceLineItemKind

abbrev pub is_product : CommerceLineItemKind → Bool
is_product line_service = false
is_product line_product = true

pub record TransactionLineItem : Type 0 where
  pub id : ℕ
  pub kind : CommerceLineItemKind
  pub service_id : Option ℕ
  pub staff_profile_id : Option ℕ
  pub product_id : Option ℕ
  pub product_variant_id : Option ℕ
  pub quantity : ℕ
  pub unit_price_minor_snapshot : ℕ
  pub price_minor_snapshot : ℕ
  pub display_order : ℕ

pub record Transaction : Type 0 where
  pub id : ℕ
  pub organization_id : ℕ
  pub branch_id : ℕ
  pub kind : TransactionKind
  pub corrected_transaction_id : Option ℕ
  pub currency : ℕ
  pub subtotal_minor : ℕ
  pub adjustment_total_minor : ℤ
  pub total_minor : ℕ
  pub posted_at : ℕ
