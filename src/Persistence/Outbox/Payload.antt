-- ===== src/Persistence/Outbox/Payload.antt =====
-- The JSON of the domain events (struct tags of internal/domain/order/events.go): what `Append`
-- marshals and the projection unmarshals. (json.Marshal of these structs fails only on a time whose year
-- has more than four digits; the model's clocks give none, and marshal has no error.)
use code_base_ddd.Prelude.{[], ◌∷◌}
use code_base_ddd.Json.{Json, text, number, instant, member, text_of, number_of, instant_of}
use code_base_ddd.Effect.{Result, ok, err}
use code_base_ddd.Domain.Events.{
  OrderCreated, OrderItemAdded, OrderConfirmed, DomainEvent, order_created, order_item_added,
  order_confirmed,
}

unfoldable pub marshal_created : OrderCreated → Json
marshal_created e =
    ("id", text e.id)
    ∷ ("customer_id", text e.customer_id)
    ∷ ("status", text e.status)
    ∷ ("occurred_at", instant e.occurred_at)
    ∷ []

unfoldable pub marshal_item_added : OrderItemAdded → Json
marshal_item_added e =
    ("order_id", text e.order_id)
    ∷ ("item_id", text e.item_id)
    ∷ ("product_id", text e.product_id)
    ∷ ("product_name", text e.product_name)
    ∷ ("quantity", number e.quantity)
    ∷ ("unit_price", number e.unit_price)
    ∷ ("occurred_at", instant e.occurred_at)
    ∷ []

unfoldable pub marshal_confirmed : OrderConfirmed → Json
marshal_confirmed e =
    ("order_id", text e.order_id)
    ∷ ("total_amount", number e.total_amount)
    ∷ ("occurred_at", instant e.occurred_at)
    ∷ []

unfoldable pub marshal : DomainEvent → Json
unfolding marshal_created marshal_item_added marshal_confirmed
marshal (order_created e) = marshal_created e
marshal (order_item_added e) = marshal_item_added e
marshal (order_confirmed e) = marshal_confirmed e

infixl 5 ◌>>=◌
abbrev ◌>>=◌ : {A B : Type 0} → Result A → (A → Result B) → Result B
ok a >>= f = f a
err e >>= f = err e

unfoldable pub unmarshal_created : Json → Result OrderCreated
unmarshal_created o = do
  id ← text_of (member "id" o)
  customer_id ← text_of (member "customer_id" o)
  status ← text_of (member "status" o)
  at ← instant_of (member "occurred_at" o)
  ok (record { id = id; customer_id = customer_id; status = status; occurred_at = at })

unfoldable pub unmarshal_item_added : Json → Result OrderItemAdded
unmarshal_item_added o = do
  order_id ← text_of (member "order_id" o)
  item_id ← text_of (member "item_id" o)
  product_id ← text_of (member "product_id" o)
  product_name ← text_of (member "product_name" o)
  quantity ← number_of (member "quantity" o)
  unit_price ← number_of (member "unit_price" o)
  at ← instant_of (member "occurred_at" o)
  ok (record {
    order_id = order_id;
    item_id = item_id;
    product_id = product_id;
    product_name = product_name;
    quantity = quantity;
    unit_price = unit_price;
    occurred_at = at;
  })

unfoldable pub unmarshal_confirmed : Json → Result OrderConfirmed
unmarshal_confirmed o = do
  order_id ← text_of (member "order_id" o)
  total_amount ← number_of (member "total_amount" o)
  at ← instant_of (member "occurred_at" o)
  ok (record { order_id = order_id; total_amount = total_amount; occurred_at = at })
