-- ===== src/Application/Projection.antt =====
-- The projection of events to the read model:
-- internal/application/projection/order_projection.go.
pub mod Redelivery
pub mod Recalculation
pub mod Keeps
pub mod Marks
pub mod Overtaking
pub mod Convergence
use code_base_ddd.Prelude.{ℕ, String, List, [], ◌∷◌, str_eq, if◌then◌else◌}
use code_base_ddd.Effect.{Result, ok, err, Effect, pure, lift, with_context, ◌>>=◌, ◌>>◌}
use code_base_ddd.Int64.{add64, mul64}
use code_base_ddd.Uuid.{Uuid, UuidCodec}
use code_base_ddd.Domain.Values.{Time}
use code_base_ddd.Domain.Events.{OrderCreated, OrderItemAdded}
use code_base_ddd.Ports.{OutboxEvent, OrderView, OrderItemView}
use code_base_ddd.Persistence.Database.{Db, Gorm}
use code_base_ddd.Persistence.Outbox.Payload.{
  unmarshal_created, unmarshal_item_added, unmarshal_confirmed,
}
use code_base_ddd.Persistence.Keys.{is_processed, mark_processed}
use code_base_ddd.Persistence.ReadModels.{
  get_order_by_id, upsert_order_view, upsert_order_item_view, update_order_status,
}

abbrev pub handler_name : String
handler_name = "OrderProjection"

-- The loop that adds up the items of the read model.
unfoldable pub sum_items : ℕ → List OrderItemView → ℕ
sum_items acc [] = acc
sum_items acc (i ∷ items) = sum_items (add64 acc i.total_price) items

-- `id, _ := uuid.Parse(s)`
abbrev pub parsed : UuidCodec → String → Uuid
parsed codec s = elim (codec.parse s) [ ok u ↦ u | err e ↦ codec.parse_leaves s ]

-- `clock` gives the readings of the clock in the order in which a call takes them.
module _ (codec : UuidCodec) (g : Gorm) (clock : ℕ → Time) where
  abbrev pub created_view : OrderCreated → OrderView
  created_view e = record {
    id = parsed codec e.id;
    customer_id = parsed codec e.customer_id;
    status = e.status;
    total_amount = 0;
    item_count = 0;
    created_at = e.occurred_at;
    updated_at = e.occurred_at;
  }

  unfoldable pub handle_order_created : OutboxEvent → Effect Db (Unit {0})
  handle_order_created event = do
    e ← with_context "unmarshal OrderCreated" (lift (unmarshal_created event.payload))
    upsert_order_view g (created_view e)

  abbrev pub added_item_view : OrderItemAdded → OrderItemView
  added_item_view e = record {
    id = parsed codec e.item_id;
    order_id = parsed codec e.order_id;
    product_id = e.product_id;
    product_name = e.product_name;
    quantity = e.quantity;
    unit_price = e.unit_price;
    total_price = mul64 e.unit_price e.quantity;
    created_at = clock 0;
  }

  -- "Recalculate order view totals", the second half of `handleOrderItemAdded`.
  unfoldable pub recalculate : Uuid → Effect Db (Unit {0})
  recalculate id = do
    (v, items) ← with_context "get order for recalc" (get_order_by_id g id)
    update_order_status g (clock 1) id "" (sum_items 0 items)

  unfoldable pub handle_order_item_added : OutboxEvent → Effect Db (Unit {0})
  handle_order_item_added event = do
    e ← with_context "unmarshal OrderItemAdded" (lift (unmarshal_item_added event.payload))
    upsert_order_item_view g (added_item_view e)
    recalculate (parsed codec e.order_id)

  unfoldable pub handle_order_confirmed : OutboxEvent → Effect Db (Unit {0})
  handle_order_confirmed event = do
    e ← with_context "unmarshal OrderConfirmed" (lift (unmarshal_confirmed event.payload))
    update_order_status g (clock 0) (parsed codec e.order_id) "CONFIRMED" e.total_amount

  -- The cases of the switch that change the read model, and then mark the event.
  abbrev pub marking : OutboxEvent → Effect Db (Unit {0}) → Effect Db (Unit {0})
  marking event update = do
    update
    with_context "mark processed" (mark_processed g (clock 2) event.id handler_name)

  -- The switch on the event's type.
  unfoldable pub project : OutboxEvent → Effect Db (Unit {0})
  project event =
      if str_eq event.event_type "OrderCreated"
      then marking event (handle_order_created event)
      else (if str_eq event.event_type "OrderItemAdded"
          then marking event (handle_order_item_added event)
          else (if str_eq event.event_type "OrderConfirmed"
              then marking event (handle_order_confirmed event)
              else pure tt))

  unfoldable pub handle : OutboxEvent → Effect Db (Unit {0})
  handle event = do
    processed ← with_context "check processed event" (is_processed g event.id handler_name)
    if processed then pure tt else project event
