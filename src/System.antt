-- ===== src/System.antt =====
-- The service as a whole (wired in internal/bootstrap/app.go): requests, the worker of the outbox,
-- the projection and the consumer act on one database, one call after another, in any order.
pub mod Outbox
pub mod Projection
pub mod Separation
use code_base_ddd.Prelude.{
  ℕ, String, ◌≡◌, refl, List, [], ◌∷◌, Bool, true, false, All, Bool-cases, inl, inr, if◌then◌else◌,
}
use code_base_ddd.Error.{Error}
use code_base_ddd.Effect.{Result, Effect, lift}
use code_base_ddd.Effect.Preserves.{Preserves}
use code_base_ddd.Uuid.{Uuid, UuidCodec}
use code_base_ddd.Domain.Values.{Time}
use code_base_ddd.Domain.Events.{DomainEvent}
use code_base_ddd.Ports.{OutboxEvent}
use code_base_ddd.Persistence.Database.{Db, Gorm, put_orders, put_order_items}
use code_base_ddd.Persistence.Outbox.{append, mark_published, mark_failed, requeue_failed}
use code_base_ddd.Persistence.Keeps.{KeptBy}
use code_base_ddd.Messaging.{
  Handler, Handlers, EnvelopeCodec, handlers_for, publish, kafka_publish, handle_message,
}
use code_base_ddd.Messaging.Keeps.{
  publish-Preserves, kafka_publish-Preserves, handle_message-Preserves,
}
use code_base_ddd.Application.Command.{Draws}
use code_base_ddd.Application.Command.Keeps.{Command, run_command, run_command-Preserves}
use code_base_ddd.Application.Projection.{handle}
use code_base_ddd.Worker.OutboxWorker.{Metrics, process_batch}
use code_base_ddd.Worker.OutboxWorker.Keeps.{process_batch-keeps}
use code_base_ddd.Worker.ProjectionWorker.{setup, is_projected, handlers_for-setup}

-- The parts of a running service that are not its own code: the text of an error, and the bytes of
-- an envelope.
module _ (codec : UuidCodec) (g : Gorm) (message : Error → String) {B : Type 0}
    (json : EnvelopeCodec B) where
  -- The bus after `Setup`.
  abbrev pub bus : (ℕ → Time) → Handlers Db
  bus clock = setup (handle codec g clock) []

  -- One call: a request is served; the worker takes a batch, with the bus in memory or with Kafka,
  -- whose writer says whether it took the message; the consumer hands over any event at all, as
  -- often as it likes; failed events are put back.
  pub data Step (s : Db) : Db → Type 0 where
    request : (d : Draws) (c : Command) → Step s (run_command codec g d c s)
    batch :
        (clock marks : ℕ → Time) (now : Time) (n : ℕ) (counts : Metrics)
        → Step s (process_batch g message marks (publish (bus clock)) now n (counts, s)).1
    batch_kafka :
        (write : String → B → Result (Unit {0})) (clock marks : ℕ → Time) (now : Time) (n : ℕ)
        (counts : Metrics)
        → Step s
            (process_batch g message marks
              (kafka_publish codec json (λ k v. lift (write k v)) (bus clock))
              now
              n
              (counts, s)).1
    consume :
        (clock : ℕ → Time) (event : OutboxEvent) → Step s (handle_message (bus clock) event s).1
    requeue : (now : Time) → Step s (requeue_failed g now s).1

  pub data Reach (s : Db) : Db → Type 0 where
    here : Reach s s
    next : {t u : Db} → Reach s t → Step t u → Reach s u

  -- What each component owes, so that a property is kept by every call of the service.
  pub record IsKept (P : Db → Type 0) : Type 0 where
    pub orders : KeptBy P put_orders
    pub items : KeptBy P put_order_items
    pub appended :
        (ids : ℕ → Uuid) (clock : ℕ → Time) (es : List DomainEvent)
        → Preserves P (append g ids clock es)
    pub handled :
        (clock : ℕ → Time) (event : OutboxEvent) → Preserves P (handle codec g clock event)
    pub published : (now : Time) (id : Uuid) → Preserves P (mark_published g now id)
    pub refused : (now : Time) (id : Uuid) (text : String) → Preserves P (mark_failed g now id text)
    pub requeued : (now : Time) → Preserves P (requeue_failed g now)

  module _ (P : Db → Type 0) (kept : IsKept P) where
    one_handler :
        (b : Bool) (event : OutboxEvent) (h : Handler Db)
        → Preserves P (h event)
        → All (λ k. Preserves P (k event)) (if b then h ∷ [] else [])
    one_handler true event h k = (k, tt)
    one_handler false event h k = tt

    bus-keeps :
        (clock : ℕ → Time) (event : OutboxEvent)
        → All (λ h. Preserves P (h event)) (handlers_for event.event_type (bus clock))
    bus-keeps clock event = rw (handlers_for-setup (handle codec g clock) event.event_type) (
        one_handler (is_projected event.event_type) event (handle codec g clock)
          (kept.handled clock event))

    pub Step-keeps : {s t : Db} → Step s t → P s → P t
    Step-keeps {s} (request d c) h =
        run_command-Preserves codec g d P kept.orders kept.items
          (kept.appended d.outbox_ids d.outbox_clock) c s h
    Step-keeps {s} (batch clock marks now n counts) h =
        process_batch-keeps g message marks (publish (bus clock)) P
          (λ event. publish-Preserves P event (bus clock) (bus-keeps clock event)) kept.published
          kept.refused now n counts s h
    Step-keeps {s} (batch_kafka write clock marks now n counts) h =
        process_batch-keeps g message marks
          (kafka_publish codec json (λ k v. lift (write k v)) (bus clock)) P
          (λ event.
            kafka_publish-Preserves P event (bus clock) (bus-keeps clock event) codec json
              (λ k v. lift (write k v)) (λ key value u r. r))
          kept.published kept.refused now n counts s h
    Step-keeps {s} (consume clock event) h =
        handle_message-Preserves P event (bus clock) (bus-keeps clock event) s h
    Step-keeps {s} (requeue now) h = kept.requeued now s h

    pub Reach-keeps : {s t : Db} → Reach s t → P s → P t
    Reach-keeps here h = h
    Reach-keeps (next r st) h = Step-keeps st (Reach-keeps r h)
