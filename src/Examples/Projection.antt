-- ===== src/Examples/Projection.antt =====
-- The theorems about the projection at concrete inputs.
use code_base_ddd.Prelude.{ℕ, ◌+◌, ◌%◌, ◌≡◌, refl, none, [], ◌∷◌, select}
use code_base_ddd.Json.{text, number, instant}
use code_base_ddd.Int64.{modulus}
use code_base_ddd.Domain.Values.{Time}
use code_base_ddd.Domain.Events.{OrderItemAdded}
use code_base_ddd.Ports.{OutboxEvent}
use code_base_ddd.Persistence.Models.{OrderViewModel}
use code_base_ddd.Persistence.Database.{Db}
use code_base_ddd.Persistence.Outbox.Payload.{unmarshal_item_added}
use code_base_ddd.Persistence.ReadModels.{
  get_order_by_id, upsert_order_item_view, updated_view, update_order_status,
}
use code_base_ddd.Application.Projection.{sum_items, recalculate, handle_order_item_added, handle}
use code_base_ddd.Application.Projection.Recalculation.{
  items_total, other_total, handle_order_item_added-total,
}
use code_base_ddd.Examples.Memory.{strokes, memory_db}
use code_base_ddd.Examples.Orders.{empty_db}

abbrev pub view : OrderViewModel
view = record {
  id = 7;
  customer_id = 5;
  status = "DRAFT";
  total_amount = 0;
  item_count = 0;
  created_at = 100;
  updated_at = 100;
}

abbrev pub views_db : Db
views_db = record empty_db { order_views = view ∷ [] }

abbrev added : OrderItemAdded
added = record {
  order_id = strokes.to_string 7;
  item_id = strokes.to_string 31;
  product_id = "p1";
  product_name = "pen";
  quantity = 3;
  unit_price = 250;
  occurred_at = 120;
}

abbrev pub event : OutboxEvent
event = record {
  id = 60;
  aggregate_type = "Order";
  aggregate_id = strokes.to_string 7;
  event_type = "OrderItemAdded";
  payload =
      ("order_id", text (strokes.to_string 7))
      ∷ ("item_id", text (strokes.to_string 31))
      ∷ ("product_id", text "p1")
      ∷ ("product_name", text "pen")
      ∷ ("quantity", number 3)
      ∷ ("unit_price", number 250)
      ∷ ("occurred_at", instant 120)
      ∷ [];
  metadata = [];
  occurred_at = 120;
  available_at = 120;
  published_at = none;
  status = "published";
  retry_count = 0;
  last_error = none;
}

abbrev pub clock : ℕ → Time
clock i = 200 + i

abbrev pub handled_db : Db
handled_db = (handle strokes memory_db clock event views_db).1

abbrev added_db : Db
added_db = (handle_order_item_added strokes memory_db clock event views_db).1

handle_order_item_added-total_example :
    select (other_total 7 (items_total 7 added_db.order_item_views % modulus)) added_db.order_views
    ≡ []
unfolding handle_order_item_added unmarshal_item_added upsert_order_item_view recalculate
    get_order_by_id update_order_status updated_view sum_items
handle_order_item_added-total_example =
    handle_order_item_added-total memory_db strokes clock event added views_db added_db refl refl
      refl
