-- ===== src/Examples/Convergence.antt =====
-- The read model that follows an order, at a concrete one.
use code_base_ddd.Prelude.{ℕ, ◌+◌, ◌≡◌, refl, arith}
use code_base_ddd.Effect.{ok}
use code_base_ddd.Domain.Values.{Time}
use code_base_ddd.Domain.Order.{add_item, confirm, total_amount}
use code_base_ddd.Domain.Order.Methods.{run}
use code_base_ddd.Domain.Order.Replay.{account}
use code_base_ddd.Domain.Events.{event_type}
use code_base_ddd.Persistence.Database.{Db}
use code_base_ddd.Persistence.Keys.{mark_processed}
use code_base_ddd.Persistence.Outbox.{outbox_model}
use code_base_ddd.Persistence.Outbox.Payload.{
  marshal, unmarshal_created, unmarshal_item_added, unmarshal_confirmed,
}
use code_base_ddd.Persistence.ReadModels.{
  get_order_by_id, upsert_order_view, upsert_order_item_view, updated_view, update_order_status,
}
use code_base_ddd.Application.Projection.{
  sum_items, recalculate, handle_order_created, handle_order_item_added, handle_order_confirmed,
  project,
}
use code_base_ddd.Application.Projection.Convergence.Shown.{Shows}
use code_base_ddd.Application.Projection.Convergence.Streams.{project_stream}
use code_base_ddd.Application.Projection.Convergence.Orders.{project_stream-run}
use code_base_ddd.Examples.Memory.{strokes, memory_db}
use code_base_ddd.Examples.Orders.{empty_db, steps, customer, fresh, fresh-new, steps-FitsWords}

abbrev readings : ℕ → ℕ → Time
readings i j = 200 + i

abbrev after : Db
after =
    (project_stream strokes memory_db 7 readings (λ i. 60 + i) (λ i. 150) 0
      (run strokes steps fresh).events empty_db).1

projected :
    project_stream strokes memory_db 7 readings
      (λ i. 60 + i)
      (λ i. 150)
      0
      (run strokes steps fresh).events
      empty_db
    ≡ (ok tt, after)
unfolding add_item confirm project_stream project handle_order_created handle_order_item_added
    handle_order_confirmed marshal unmarshal_created unmarshal_item_added unmarshal_confirmed
    outbox_model event_type mark_processed get_order_by_id upsert_order_view upsert_order_item_view
    updated_view update_order_status sum_items recalculate total_amount
projected = refl

project_stream-run_example : Shows strokes 7 (account strokes (run strokes steps fresh)) after
unfolding add_item confirm
project_stream-run_example =
    project_stream-run strokes memory_db readings (λ i. 60 + i) (λ i. 150) 100 7 101 customer fresh
      steps empty_db after fresh-new steps-FitsWords
      (((λ e. omega (arith, e)), (tt, (tt, tt))), ((tt, (tt, tt)), tt)) (omega arith)
      (refl, (refl, (tt, (tt, tt)))) refl refl projected
