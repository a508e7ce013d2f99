-- ===== src/Examples/Outbox.antt =====
-- The theorems about the outbox and its worker at concrete inputs.
use code_base_ddd.Prelude.{
  ◌+◌, ◌*◌, ◌≤◌, ◌≡◌, ◌≢◌, refl, String, none, some, List, [], ◌∷◌, length, All, arith,
}
use code_base_ddd.Error.{Error}
use code_base_ddd.Effect.{ok, Effect}
use code_base_ddd.Domain.Values.{Time}
use code_base_ddd.Ports.{OutboxEvent, ListOrdersFilter}
use code_base_ddd.Persistence.Models.{OutboxEventModel}
use code_base_ddd.Persistence.Database.{Db}
use code_base_ddd.Persistence.Outbox.{
  second, failed_model, pending, to_outbox_event, mark_published, fetch_pending,
}
use code_base_ddd.Persistence.Outbox.Retry.{
  after_failures, after_failures-status, failed_model-delay, fetch_pending-mark_published,
}
use code_base_ddd.Persistence.ReadModels.Sorting.{
  IsSafeClause, order_clause, order_clause-IsSafeClause,
}
use code_base_ddd.Worker.OutboxWorker.{Metrics}
use code_base_ddd.Examples.Memory.{memory_db}
use code_base_ddd.Examples.Orders.{empty_db}

abbrev pub row : OutboxEventModel
row = record {
  id = 60;
  aggregate_type = "Order";
  aggregate_id = "IIIIIII.";
  event_type = "OrderConfirmed";
  payload = [];
  metadata = [];
  occurred_at = 100;
  available_at = 100;
  published_at = none;
  status = "pending";
  retry_count = 0;
  last_error = none;
}

abbrev later_row : OutboxEventModel
later_row = record row { id = 61; occurred_at = 110 }

abbrev pub failed_row : OutboxEventModel
failed_row = record row { id = 62; status = "failed"; retry_count = 10 }

abbrev two_failures : List (Time × String)
two_failures = (120, "no route") ∷ (130, "timeout") ∷ []

after_failures-status_example :
    ((after_failures two_failures row).status ≡ pending)
    × ((after_failures two_failures row).retry_count ≡ length two_failures)
after_failures-status_example = after_failures-status two_failures row refl refl (omega arith)

failed_model-delay_example :
    (120 + 4 * second ≤ (failed_model 120 "no route" row).available_at)
    × ((failed_model 120 "no route" row).available_at ≤ 120 + 300 * second)
unfolding failed_model
failed_model-delay_example = failed_model-delay 120 "no route" row (omega arith) (λ e. cc)

abbrev pub mixed_db : Db
mixed_db = record empty_db { outbox_events = row ∷ failed_row ∷ later_row ∷ [] }

abbrev published_db : Db
published_db = record mixed_db {
  outbox_events =
      record row { status = "published"; published_at = some 200 } ∷ failed_row ∷ later_row ∷ [];
}

fetch_pending-mark_published_example : All (λ e. e.id ≢ 60) (to_outbox_event later_row ∷ [])
unfolding mark_published fetch_pending
fetch_pending-mark_published_example =
    fetch_pending-mark_published memory_db 200 300 60 50 mixed_db published_db published_db
      (to_outbox_event later_row ∷ []) refl refl

-- A publisher that takes every event.
abbrev pub accept : OutboxEvent → Effect Db (Unit {0})
accept event s = (ok tt, s)

abbrev pub no_text : Error → String
no_text e = "error"

abbrev pub zeros : Metrics
zeros = record { pending = 0; success = 0; failed = 0 }

-- A column that is no column of the table.
abbrev hostile : ListOrdersFilter
hostile = record {
  customer_id = none;
  status = none;
  created_from = none;
  created_to = none;
  sort_by = "id; DROP TABLE order_views";
  sort_dir = "desc";
  page = 1;
  page_size = 20;
}

order_clause-IsSafeClause_example : IsSafeClause (order_clause hostile)
order_clause-IsSafeClause_example = order_clause-IsSafeClause hostile
