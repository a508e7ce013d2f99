-- ===== src/Application/Projection/Keeps.antt =====
-- What the projection leaves alone, whether it succeeds or fails.
use code_base_ddd.Prelude.{ℕ, str_eq, if◌then◌else◌}
use code_base_ddd.Effect.{Effect, pure, lift, with_context, ◌>>◌}
use code_base_ddd.Effect.Preserves.{
  Preserves, pure-Preserves, >>=-Preserves, >>-Preserves, with_context-Preserves, if-Preserves,
}
use code_base_ddd.Uuid.{Uuid, UuidCodec}
use code_base_ddd.Domain.Values.{Time}
use code_base_ddd.Ports.{OutboxEvent}
use code_base_ddd.Persistence.Database.{Db, Gorm, put_order_views, put_order_item_views}
use code_base_ddd.Persistence.Outbox.Payload.{
  unmarshal_created, unmarshal_item_added, unmarshal_confirmed,
}
use code_base_ddd.Persistence.Keys.{is_processed, mark_processed}
use code_base_ddd.Persistence.ReadModels.{
  get_order_by_id, upsert_order_view, upsert_order_item_view, update_order_status,
}
use code_base_ddd.Persistence.Keeps.{KeptBy}
use code_base_ddd.Persistence.Keeps.Stores.{
  get_order_by_id-Preserves, is_processed-Preserves, upsert_order_view-Preserves,
  upsert_order_item_view-Preserves, update_order_status-Preserves,
}
use code_base_ddd.Application.Projection.{
  handler_name, sum_items, parsed, handle_order_created, created_view, added_item_view, recalculate,
  handle_order_item_added, handle_order_confirmed, marking, project, handle,
}

module _ (codec : UuidCodec) (g : Gorm) (clock : ℕ → Time) (P : Db → Type 0)
    (views : KeptBy P put_order_views) (item_views : KeptBy P put_order_item_views)
    (marks : (id : Uuid) → Preserves P (mark_processed g (clock 2) id handler_name)) where
  handle_order_created-Preserves :
      (event : OutboxEvent) → Preserves P (handle_order_created codec g clock event)
  unfolding handle_order_created
  handle_order_created-Preserves event =
      >>=-Preserves P
        (with_context "unmarshal OrderCreated" (lift (unmarshal_created event.payload)))
        (λ e. upsert_order_view g (created_view codec g clock e))
        (with_context-Preserves P "unmarshal OrderCreated" (lift (unmarshal_created event.payload))
          (λ s h. h))
        (λ e. upsert_order_view-Preserves g P (created_view codec g clock e) views)

  recalculate-Preserves : (id : Uuid) → Preserves P (recalculate codec g clock id)
  unfolding recalculate
  recalculate-Preserves id =
      >>=-Preserves P (with_context "get order for recalc" (get_order_by_id g id))
        (λ r. update_order_status g (clock 1) id "" (sum_items 0 r.1))
        (with_context-Preserves P "get order for recalc" (get_order_by_id g id)
          (get_order_by_id-Preserves g P id))
        (λ r. update_order_status-Preserves g P (clock 1) id "" (sum_items 0 r.1) views)

  handle_order_item_added-Preserves :
      (event : OutboxEvent) → Preserves P (handle_order_item_added codec g clock event)
  unfolding handle_order_item_added
  handle_order_item_added-Preserves event =
      >>=-Preserves P
        (with_context "unmarshal OrderItemAdded" (lift (unmarshal_item_added event.payload)))
        (λ e.
          upsert_order_item_view g (added_item_view codec g clock e)
          >> recalculate codec g clock (parsed codec e.order_id))
        (with_context-Preserves P "unmarshal OrderItemAdded"
          (lift (unmarshal_item_added event.payload)) (λ s h. h))
        (λ e.
          >>-Preserves P (upsert_order_item_view g (added_item_view codec g clock e))
            (recalculate codec g clock (parsed codec e.order_id))
            (upsert_order_item_view-Preserves g P (added_item_view codec g clock e) item_views)
            (recalculate-Preserves (parsed codec e.order_id)))

  handle_order_confirmed-Preserves :
      (event : OutboxEvent) → Preserves P (handle_order_confirmed codec g clock event)
  unfolding handle_order_confirmed
  handle_order_confirmed-Preserves event =
      >>=-Preserves P
        (with_context "unmarshal OrderConfirmed" (lift (unmarshal_confirmed event.payload)))
        (λ e. update_order_status g (clock 0) (parsed codec e.order_id) "CONFIRMED" e.total_amount)
        (with_context-Preserves P "unmarshal OrderConfirmed"
          (lift (unmarshal_confirmed event.payload)) (λ s h. h))
        (λ e.
          update_order_status-Preserves g P (clock 0) (parsed codec e.order_id) "CONFIRMED"
            e.total_amount views)

  marking-Preserves :
      (event : OutboxEvent) (update : Effect Db (Unit {0}))
      → Preserves P update
      → Preserves P (marking codec g clock event update)
  marking-Preserves event update kept =
      let mark = mark_processed g (clock 2) event.id handler_name in
      >>-Preserves P update (with_context "mark processed" mark) kept
        (with_context-Preserves P "mark processed" mark (marks event.id))

  project-Preserves : (event : OutboxEvent) → Preserves P (project codec g clock event)
  unfolding project
  project-Preserves event =
      let created = handle_order_created codec g clock event in
      let added = handle_order_item_added codec g clock event in
      let confirmed = handle_order_confirmed codec g clock event in
      let last : Effect Db (Unit {0}) =
        if str_eq event.event_type "OrderConfirmed"
        then marking codec g clock event confirmed
        else pure tt in
      let rest : Effect Db (Unit {0}) =
        if str_eq event.event_type "OrderItemAdded"
        then marking codec g clock event added
        else last in
      if-Preserves P (str_eq event.event_type "OrderCreated") (marking codec g clock event created)
        rest (marking-Preserves event created (handle_order_created-Preserves event))
        (if-Preserves P (str_eq event.event_type "OrderItemAdded")
          (marking codec g clock event added) last
          (marking-Preserves event added (handle_order_item_added-Preserves event))
          (if-Preserves P (str_eq event.event_type "OrderConfirmed")
            (marking codec g clock event confirmed) (pure tt)
            (marking-Preserves event confirmed (handle_order_confirmed-Preserves event))
            (pure-Preserves P tt)))

  -- A call of the projection keeps every property that writes to the read model keep, and that
  -- marking an event as processed keeps.
  pub handle-Preserves : (event : OutboxEvent) → Preserves P (handle codec g clock event)
  unfolding handle
  handle-Preserves event =
      >>=-Preserves P (with_context "check processed event" (is_processed g event.id handler_name))
        (λ processed. if processed then pure tt else project codec g clock event)
        (with_context-Preserves P "check processed event" (is_processed g event.id handler_name)
          (is_processed-Preserves g P event.id handler_name))
        (λ processed.
          if-Preserves P processed (pure tt) (project codec g clock event) (pure-Preserves P tt)
            (project-Preserves event))
