-- ===== src/Examples/System.antt =====
-- The theorems about the service as a whole at concrete inputs.
use code_base_ddd.Prelude.{◌<◌, ◌≡◌, ◌≢◌, refl, ℕ, zero, suc, take, List, [], ◌∷◌, select, arith}
use code_base_ddd.Effect.{ok}
use code_base_ddd.Persistence.Database.{Db}
use code_base_ddd.Persistence.Keys.{is_processed, mark_processed}
use code_base_ddd.Persistence.Outbox.Kept.Events.{HasEvent}
use code_base_ddd.Persistence.Outbox.Kept.Statuses.{HasKnownStatuses}
use code_base_ddd.Persistence.Outbox.Payload.{unmarshal_item_added}
use code_base_ddd.Persistence.ReadModels.{
  get_order_by_id, upsert_order_item_view, updated_view, update_order_status,
}
use code_base_ddd.Application.Projection.{
  sum_items, recalculate, handle_order_item_added, project, handle,
}
use code_base_ddd.Application.Command.Keeps.{confirmation, run_command}
use code_base_ddd.Worker.OutboxWorker.Drain.{GoesWell}
use code_base_ddd.Messaging.{handle_message, run_handlers, handlers_for, subscribe}
use code_base_ddd.Worker.ProjectionWorker.{setup}
use code_base_ddd.Persistence.Outbox.{requeue_failed}
use code_base_ddd.System.{request, batch, consume, requeue, Reach, here, next}
use code_base_ddd.System.Outbox.{Reach-HasEvent, Reach-HasKnownStatuses}
use code_base_ddd.System.Projection.{handle_once}
use code_base_ddd.System.Separation.{
  SameReadSide, SameWriteSide, run_command-SameReadSide, handle-SameWriteSide,
}
use code_base_ddd.Examples.Memory.{strokes, memory_db}
use code_base_ddd.Examples.Outbox.{mixed_db, accept, no_text, zeros}
use code_base_ddd.Examples.Projection.{event, clock, views_db, handled_db}
use code_base_ddd.Examples.Delivery.{as_they_are}
use code_base_ddd.Examples.Commands.{draws, command}

-- A request is served, failed events are put back, the worker takes a batch, an event comes in twice.
abbrev run_on : (s : Db) → (t : Db) × Reach strokes memory_db no_text as_they_are s t
run_on s = (
  _,
  next
      (next
        (next (next (next here (request draws (confirmation command))) (requeue 200))
          (batch clock clock 300 50 zeros))
        (consume clock event))
      (consume clock event),
)

Reach-HasEvent_example : HasEvent 62 (run_on mixed_db).0
Reach-HasEvent_example =
    Reach-HasEvent strokes memory_db no_text as_they_are 62 (run_on mixed_db).1 (omega arith)

Reach-HasKnownStatuses_example : HasKnownStatuses (run_on mixed_db).0
Reach-HasKnownStatuses_example =
    Reach-HasKnownStatuses strokes memory_db no_text as_they_are (run_on mixed_db).1 refl

handled : handle strokes memory_db clock event views_db ≡ (ok tt, handled_db)
unfolding handle is_processed project handle_order_item_added unmarshal_item_added
    upsert_order_item_view recalculate get_order_by_id update_order_status updated_view sum_items
    mark_processed
handled = refl

-- Failed events are put back, and the event comes in again.
abbrev redelivered : (t : Db) × Reach strokes memory_db no_text as_they_are handled_db t
redelivered = (_, next (next here (requeue 200)) (consume clock event))

handled_again : handle strokes memory_db clock event redelivered.0 ≡ (ok tt, redelivered.0)
unfolding handle is_processed project handle_order_item_added unmarshal_item_added
    upsert_order_item_view recalculate get_order_by_id update_order_status updated_view sum_items
    mark_processed requeue_failed handle_message run_handlers handlers_for setup subscribe
handled_again = refl

handle_once_example : redelivered.0 ≡ redelivered.0
handle_once_example =
    handle_once strokes memory_db no_text as_they_are clock clock event views_db handled_db
      redelivered.0 redelivered.0 handled redelivered.1 handled_again

run_command-SameReadSide_example :
    SameReadSide mixed_db (run_command strokes memory_db draws (confirmation command) mixed_db)
run_command-SameReadSide_example =
    run_command-SameReadSide strokes memory_db draws (confirmation command) mixed_db

handle-SameWriteSide_example : SameWriteSide views_db handled_db
handle-SameWriteSide_example = handle-SameWriteSide strokes memory_db clock event views_db

take-some : {A : Type 0} (n : ℕ) (xs : List A) → 0 < n → xs ≢ [] → take n xs ≢ []
take-some n [] h some = absurd (some refl)
take-some zero (x ∷ xs) h some = absurd (omega (arith, h))
take-some (suc n) (x ∷ xs) h some = λ e. cc

pub accept-GoesWell : GoesWell memory_db accept
accept-GoesWell = record {
  accepted = λ e s. refl;
  apart = λ e s. refl;
  updated = λ p f t. (_, _, refl);
  fetched = λ p key n t. (_, refl, λ h some. take-some n (select p t) h some);
}
