-- ===== src/Checkouts/Schema.antt =====
-- The tables that the checkouts read and write (apps/api/prisma/schema.prisma), without names and
-- reasons.
use kora_os.Common.{ℕ, Bool, Option, List}
use kora_os.Common.Int.{ℤ}
use kora_os.Inventory.Stock.{Inventory}
use kora_os.Sales.Schema.{CheckoutStatus}
use kora_os.Transactions.{CommerceLineItemKind}
use kora_os.Visits.Schema.{ServiceSession}

pub record CheckoutLineItem : Type 0 where
  pub kind : CommerceLineItemKind
  pub service_id : Option ℕ
  pub staff_profile_id : Option ℕ
  pub product_id : Option ℕ
  pub product_variant_id : Option ℕ
  pub quantity : ℕ
  pub unit_price_minor_snapshot : ℕ
  pub price_minor_snapshot : ℕ
  pub currency_snapshot : ℕ
  pub display_order : ℕ

pub data CheckoutAdjustmentType : Type 0 where
  discount surcharge : CheckoutAdjustmentType

pub record CheckoutAdjustment : Type 0 where
  pub type : CheckoutAdjustmentType
  pub amount_minor : ℕ
  pub created_by_membership_id : ℕ

pub record CheckoutRecord : Type 0 where
  pub id : ℕ
  pub organization_id : ℕ
  pub branch_id : ℕ
  pub service_session_id : Option ℕ
  pub assigned_staff_profile_id : ℕ
  pub status : CheckoutStatus
  pub version : ℕ
  pub currency : ℕ
  pub subtotal_minor : ℕ
  pub adjustment_total_minor : ℤ
  pub total_minor : ℤ
  pub items : List CheckoutLineItem
  pub adjustments : List CheckoutAdjustment

pub record StaffProfile : Type 0 where
  pub id : ℕ
  pub organization_id : ℕ
  pub membership_id : Option ℕ
  pub archived : Bool

pub record CustomerRecord : Type 0 where
  pub id : ℕ
  pub organization_id : ℕ
  pub archived : Bool

pub record CheckoutDb : Type 0 where
  pub sessions : List ServiceSession
  pub inventory : Inventory
  pub staff_profiles : List StaffProfile
  pub customers : List CustomerRecord
  pub checkouts : List CheckoutRecord
