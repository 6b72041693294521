-- ===== src/Checkout/Values.antt =====
-- domain/checkout/value_objects.go and events.go.
use mall.Base.{ℕ, String, Bool, not, ◌&&◌, List, [], ◌∷◌, ℤ, pos, add64, mul64, is_empty, ◌==◌}
use mall.Kernel.{KernelId}

pub data CheckoutStatus : Type 0 where
  incomplete ready_for_complete requires_escalation completed cancelled : CheckoutStatus

-- The constants' strings.
abbrev pub status_text : CheckoutStatus → String
status_text incomplete = "incomplete"
status_text ready_for_complete = "ready_for_complete"
status_text requires_escalation = "requires_escalation"
status_text completed = "completed"
status_text cancelled = "cancelled"

abbrev status_number : CheckoutStatus → ℕ
status_number incomplete = 0
status_number ready_for_complete = 1
status_number requires_escalation = 2
status_number completed = 3
status_number cancelled = 4

-- Go's `==` on the statuses.
abbrev pub status_eq : CheckoutStatus → CheckoutStatus → Bool
status_eq a b = status_number a == status_number b

pub record CartSnapshotItem : Type 0 where
  pub product_id : KernelId
  pub sku : String
  pub name : String
  pub quantity : ℤ
  pub unit_price : ℤ
  pub image_url : String

unfoldable pub total_price : CartSnapshotItem → ℤ
total_price i = mul64 i.unit_price i.quantity

pub record CartSnapshot : Type 0 where
  pub items : List CartSnapshotItem
  pub total : ℤ

-- The loop that adds up the items.
unfoldable pub add_prices : ℤ → List CartSnapshotItem → ℤ
add_prices total [] = total
add_prices total (item ∷ items) = add_prices (add64 total (total_price item)) items

unfoldable pub new_cart_snapshot : List CartSnapshotItem → CartSnapshot
new_cart_snapshot items = record { items = items; total = add_prices (pos 0) items }

pub record Address : Type 0 where
  pub line1 : String
  pub line2 : String
  pub city : String
  pub state : String
  pub postal_code : String
  pub country : String

unfoldable pub is_valid : Address → Bool
is_valid a =
    not (is_empty a.line1)
    && not (is_empty a.city)
    && not (is_empty a.state)
    && not (is_empty a.postal_code)
    && not (is_empty a.country)

pub record ShippingOption : Type 0 where
  pub id : String
  pub name : String
  pub cost : ℤ
  pub estimated : String

pub data CheckoutEvent : Type 0 where
  checkout_created checkout_updated checkout_ready_for_complete :
      KernelId → KernelId → CheckoutEvent
  checkout_requires_escalation : KernelId → KernelId → String → CheckoutEvent
  checkout_completed checkout_cancelled : KernelId → KernelId → CheckoutEvent

abbrev pub event_name : CheckoutEvent → String
event_name (checkout_created c u) = "checkout.created"
event_name (checkout_updated c u) = "checkout.updated"
event_name (checkout_ready_for_complete c u) = "checkout.ready_for_complete"
event_name (checkout_requires_escalation c u url) = "checkout.requires_escalation"
event_name (checkout_completed c u) = "checkout.completed"
event_name (checkout_cancelled c u) = "checkout.cancelled"
