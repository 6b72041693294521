-- ===== src/Order/Types.antt =====
-- domain/order/order.go and events.go: the data of an order.
use mall.Base.{ℕ, String, Bool, Option, List, ℤ, ◌==◌}
use mall.Kernel.{KernelId, Time, AggregateRoot, add_event, clear_events, touch_root}
use mall.Checkout.Values.{Address, ShippingOption}

pub data OrderStatus : Type 0 where
  confirmed processing shipped delivered returned cancelled : OrderStatus

-- The constants' strings.
abbrev pub status_text : OrderStatus → String
status_text confirmed = "confirmed"
status_text processing = "processing"
status_text shipped = "shipped"
status_text delivered = "delivered"
status_text returned = "returned"
status_text cancelled = "cancelled"

abbrev status_number : OrderStatus → ℕ
status_number confirmed = 0
status_number processing = 1
status_number shipped = 2
status_number delivered = 3
status_number returned = 4
status_number cancelled = 5

-- Go's `==` on the statuses.
abbrev pub status_eq : OrderStatus → OrderStatus → Bool
status_eq a b = status_number a == status_number b

-- Each event names the order and its user.
pub data OrderEvent : Type 0 where
  order_confirmed order_processing order_shipped : KernelId → KernelId → OrderEvent
  order_delivered order_returned order_cancelled : KernelId → KernelId → OrderEvent

abbrev pub event_name : OrderEvent → String
event_name (order_confirmed o u) = "order.confirmed"
event_name (order_processing o u) = "order.processing"
event_name (order_shipped o u) = "order.shipped"
event_name (order_delivered o u) = "order.delivered"
event_name (order_returned o u) = "order.returned"
event_name (order_cancelled o u) = "order.cancelled"

pub record OrderLineItem : Type 0 where
  pub product_id : KernelId
  pub sku : String
  pub name : String
  pub quantity : ℤ
  pub unit_price : ℤ
  pub total_price : ℤ

pub record Order : Type 0 where
  pub root : AggregateRoot OrderEvent
  pub open root use *
  pub user_id : KernelId
  pub checkout_id : KernelId
  pub cart_id : KernelId
  pub items : List OrderLineItem
  pub shipping_address : Address
  pub billing_address : Address
  pub shipping_option : ShippingOption
  pub payment_handler : String
  pub subtotal : ℤ
  pub shipping_cost : ℤ
  pub tax_amount : ℤ
  pub grand_total : ℤ
  pub status : OrderStatus
  pub tracking_number : String
  pub carrier : String
  pub confirmed_at : Time
  pub processing_at : Option Time
  pub shipped_at : Option Time
  pub delivered_at : Option Time
  pub returned_at : Option Time
  pub cancelled_at : Option Time

abbrev pub raise_event : OrderEvent → Order → Order
raise_event e o = record o { root = add_event e o.root }

unfoldable pub touch : Time → Order → Order
touch now o = record o { root = touch_root now o.root }

abbrev pub drop_events : Order → Order
drop_events o = record o { root = clear_events o.root }
