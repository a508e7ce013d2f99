-- ===== src/System/Projection.antt =====
-- The projection in every state that the service can reach.
use code_base_ddd.Prelude.{ℕ, ◌≡◌, inl, inr, String}
use code_base_ddd.Error.{Error}
use code_base_ddd.Effect.{ok}
use code_base_ddd.Uuid.{UuidCodec}
use code_base_ddd.Domain.Values.{Time}
use code_base_ddd.Ports.{OutboxEvent}
use code_base_ddd.Persistence.Database.{Db, Gorm}
use code_base_ddd.Persistence.Outbox.Kept.Rows.{
  append-Preserves, mark_published-Preserves, mark_failed-Preserves, requeue_failed-Preserves,
}
use code_base_ddd.Application.Projection.{handle}
use code_base_ddd.Application.Projection.Marks.{handle-keeps}
use code_base_ddd.Application.Projection.Redelivery.{
  IsMarked, handle-IsMarked, handle-IsUnknown, handle-cases,
}
use code_base_ddd.Messaging.{EnvelopeCodec}
use code_base_ddd.System.{IsKept, Reach, Reach-keeps}

module _ (codec : UuidCodec) (g : Gorm) (message : Error → String) {B : Type 0}
    (json : EnvelopeCodec B) where
  IsMarked-IsKept : (event : OutboxEvent) → IsKept codec g message json (IsMarked event)
  IsMarked-IsKept event = record {
    orders = λ t s h. h;
    items = λ t s h. h;
    appended = λ ids clock es. append-Preserves g (IsMarked event) ids clock es (λ s t made h. h);
    handled = λ clock later. handle-keeps g codec clock event later;
    published = λ now id. mark_published-Preserves g (IsMarked event) now id (λ s n t made h. h);
    refused = λ now id text.
        mark_failed-Preserves g (IsMarked event) now id text (λ s m n t found made h. h);
    requeued = λ now. requeue_failed-Preserves g (IsMarked event) now (λ s n t made h. h);
  }

  -- Exactly once: after a `Handle` of an event that succeeded, and whatever the service did since, a
  -- `Handle` of the same event that succeeds changes nothing.
  pub handle_once :
      (clock later : ℕ → Time) (event : OutboxEvent) (s s' t t' : Db)
      → handle codec g clock event s ≡ (ok tt, s')
      → Reach codec g message json s' t
      → handle codec g later event t ≡ (ok tt, t')
      → t' ≡ t
  handle_once clock later event s s' t t' h r k = elim (handle-cases codec g clock event s s' h) [
    | inl marked ↦
        handle-IsMarked codec g later event t t'
          (Reach-keeps codec g message json (IsMarked event) (IsMarked-IsKept event) r marked) k
    | inr unknown ↦ handle-IsUnknown codec g later event t t' unknown k
  ]
