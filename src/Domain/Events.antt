-- ===== src/Domain/Events.antt =====
-- Domain events: internal/domain/event.go and internal/domain/order/events.go.
use code_base_ddd.Prelude.{ℕ, String}
use code_base_ddd.Uuid.{UuidCodec}
use code_base_ddd.Domain.Values.{Time, OrderId, CustomerId, Money, OrderItem, status_draft}

pub record OrderCreated : Type 0 where
  pub id : String
  pub customer_id : String
  pub status : String
  pub occurred_at : Time

pub record OrderItemAdded : Type 0 where
  pub order_id : String
  pub item_id : String
  pub product_id : String
  pub product_name : String
  pub quantity : ℕ
  pub unit_price : ℕ
  pub occurred_at : Time

pub record OrderConfirmed : Type 0 where
  pub order_id : String
  pub total_amount : ℕ
  pub occurred_at : Time

-- The interface `DomainEvent`: a constructor for each type that implements it.
pub data DomainEvent : Type 0 where
  order_created : OrderCreated → DomainEvent
  order_item_added : OrderItemAdded → DomainEvent
  order_confirmed : OrderConfirmed → DomainEvent

abbrev pub aggregate_type_order : String
aggregate_type_order = "Order"

unfoldable pub event_type : DomainEvent → String
event_type (order_created e) = "OrderCreated"
event_type (order_item_added e) = "OrderItemAdded"
event_type (order_confirmed e) = "OrderConfirmed"

unfoldable pub aggregate_id : DomainEvent → String
aggregate_id (order_created e) = e.id
aggregate_id (order_item_added e) = e.order_id
aggregate_id (order_confirmed e) = e.order_id

unfoldable pub aggregate_type : DomainEvent → String
aggregate_type (order_created e) = aggregate_type_order
aggregate_type (order_item_added e) = aggregate_type_order
aggregate_type (order_confirmed e) = aggregate_type_order

unfoldable pub occurred_at : DomainEvent → Time
occurred_at (order_created e) = e.occurred_at
occurred_at (order_item_added e) = e.occurred_at
occurred_at (order_confirmed e) = e.occurred_at

-- The constructors take the clock's reading as their first argument.
module _ (codec : UuidCodec) where
  unfoldable pub new_order_created : Time → OrderId → CustomerId → OrderCreated
  new_order_created now order_id customer_id = record {
    id = codec.to_string order_id.value;
    customer_id = codec.to_string customer_id.value;
    status = status_draft;
    occurred_at = now;
  }

  unfoldable pub new_order_item_added : Time → OrderId → OrderItem → OrderItemAdded
  new_order_item_added now order_id item = record {
    order_id = codec.to_string order_id.value;
    item_id = codec.to_string item.id;
    product_id = item.product_id;
    product_name = item.product_name;
    quantity = item.quantity;
    unit_price = item.unit_price.amount;
    occurred_at = now;
  }

  unfoldable pub new_order_confirmed : Time → OrderId → Money → OrderConfirmed
  new_order_confirmed now order_id total_amount = record {
    order_id = codec.to_string order_id.value;
    total_amount = total_amount.amount;
    occurred_at = now;
  }
