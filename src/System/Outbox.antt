-- ===== src/System/Outbox.antt =====
-- The outbox in every state that the service can reach.
use code_base_ddd.Prelude.{String}
use code_base_ddd.Error.{Error}
use code_base_ddd.Uuid.{Uuid, UuidCodec}
use code_base_ddd.Persistence.Database.{Db, Gorm}
use code_base_ddd.Persistence.Keeps.Stores.{mark_processed-Preserves}
use code_base_ddd.Persistence.Outbox.Kept.Events.{
  HasEvent, append-HasEvent, mark_published-HasEvent, mark_failed-HasEvent, requeue_failed-HasEvent,
}
use code_base_ddd.Persistence.Outbox.Kept.Statuses.{
  HasKnownStatuses, append-HasKnownStatuses, mark_published-HasKnownStatuses,
  mark_failed-HasKnownStatuses, requeue_failed-HasKnownStatuses,
}
use code_base_ddd.Application.Projection.{handler_name}
use code_base_ddd.Application.Projection.Keeps.{handle-Preserves}
use code_base_ddd.Messaging.{EnvelopeCodec}
use code_base_ddd.System.{IsKept, Reach, Reach-keeps}

module _ (codec : UuidCodec) (g : Gorm) (message : Error → String) {B : Type 0}
    (json : EnvelopeCodec B) where
  HasEvent-IsKept : (id : Uuid) → IsKept codec g message json (HasEvent id)
  HasEvent-IsKept id = record {
    orders = λ t s h. h;
    items = λ t s h. h;
    appended = append-HasEvent g id;
    handled = λ clock.
        handle-Preserves codec g clock (HasEvent id) (λ t s h. h) (λ t s h. h)
          (λ e. mark_processed-Preserves g (HasEvent id) (clock 2) e handler_name (λ t s h. h));
    published = mark_published-HasEvent g id;
    refused = mark_failed-HasEvent g id;
    requeued = requeue_failed-HasEvent g id;
  }

  -- An event in the outbox is there in every state that the service reaches from then on, whatever
  -- requests, batches, redeliveries and faults of the database come between.
  pub Reach-HasEvent :
      (id : Uuid) {s t : Db} → Reach codec g message json s t → HasEvent id s → HasEvent id t
  Reach-HasEvent id = Reach-keeps codec g message json (HasEvent id) (HasEvent-IsKept id)

  HasKnownStatuses-IsKept : IsKept codec g message json HasKnownStatuses
  HasKnownStatuses-IsKept = record {
    orders = λ t s h. h;
    items = λ t s h. h;
    appended = append-HasKnownStatuses g;
    handled = λ clock.
        handle-Preserves codec g clock HasKnownStatuses (λ t s h. h) (λ t s h. h)
          (λ e. mark_processed-Preserves g HasKnownStatuses (clock 2) e handler_name (λ t s h. h));
    published = mark_published-HasKnownStatuses g;
    refused = mark_failed-HasKnownStatuses g;
    requeued = requeue_failed-HasKnownStatuses g;
  }

  -- If every event of the outbox is pending, published or failed, then so it is in every state that
  -- the service reaches.
  pub Reach-HasKnownStatuses :
      {s t : Db} → Reach codec g message json s t → HasKnownStatuses s → HasKnownStatuses t
  Reach-HasKnownStatuses = Reach-keeps codec g message json HasKnownStatuses HasKnownStatuses-IsKept
