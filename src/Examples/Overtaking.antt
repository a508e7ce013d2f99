-- ===== src/Examples/Overtaking.antt =====
-- The theorem about events out of order at a concrete input.
use code_base_ddd.Prelude.{ℕ, Bool, true, false, List, [], ◌∷◌, ◌≡◌, refl, ◌&&◌, count, str_eq}
use code_base_ddd.Domain.Events.{OrderCreated, OrderConfirmed}
use code_base_ddd.Domain.Values.{Time}
use code_base_ddd.Ports.{OutboxEvent}
use code_base_ddd.Persistence.Database.{Db}
use code_base_ddd.Persistence.Keys.{is_processed, mark_processed}
use code_base_ddd.Persistence.Outbox.Payload.{
  marshal_created, marshal_confirmed, unmarshal_created, unmarshal_confirmed,
}
use code_base_ddd.Persistence.ReadModels.{
  view_has_id, upsert_order_view, update_order_status, updated_view,
}
use code_base_ddd.Application.Projection.{
  handle, project, handle_order_created, handle_order_confirmed,
}
use code_base_ddd.Application.Projection.Overtaking.{redelivered, handle-overtaken}
use code_base_ddd.Examples.Memory.{strokes, memory_db}
use code_base_ddd.Examples.Orders.{empty_db}
use code_base_ddd.Examples.Projection.{event, clock}

abbrev creation : OrderCreated
creation = record {
  id = strokes.to_string 7;
  customer_id = strokes.to_string 5;
  status = "DRAFT";
  occurred_at = 100;
}

abbrev confirmation : OrderConfirmed
confirmation = record { order_id = strokes.to_string 7; total_amount = 750; occurred_at = 130 }

abbrev created : OutboxEvent
unfolding marshal_created
created = record event { id = 61; event_type = "OrderCreated"; payload = marshal_created creation }

abbrev confirmed : OutboxEvent
unfolding marshal_confirmed
confirmed = record event {
  id = 62;
  event_type = "OrderConfirmed";
  payload = marshal_confirmed confirmation;
}

abbrev early_db : Db
early_db = (handle strokes memory_db clock confirmed empty_db).1

abbrev late_db : Db
late_db = (handle strokes memory_db clock created early_db).1

-- The confirmation is delivered twice more, with the creation in between.
abbrev again : List (Bool × (ℕ → Time))
again = (true, clock) ∷ (false, clock) ∷ (true, clock) ∷ []

handle-overtaken_example :
    let v = redelivered strokes memory_db confirmed created again late_db in
    (count (view_has_id 7) v.order_views ≡ 1)
    × (count (λ x. view_has_id 7 x && str_eq x.status "DRAFT") v.order_views ≡ 1)
unfolding handle is_processed project handle_order_created handle_order_confirmed unmarshal_created
    unmarshal_confirmed marshal_created marshal_confirmed upsert_order_view update_order_status
    updated_view mark_processed
handle-overtaken_example =
    handle-overtaken strokes memory_db clock clock confirmed created confirmation creation again
      empty_db early_db late_db refl refl refl refl refl refl refl refl refl refl refl
