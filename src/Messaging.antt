-- ===== src/Messaging.antt =====
-- The event buses, internal/infrastructure/messaging: inmemory_bus.go, kafka_bus.go, nats_bus.go.
-- The state `S` is what the handlers work on.
pub mod Subscriptions
pub mod Keeps
pub mod Settings
use Prim.Native.String
use code_base_ddd.Prelude.{ℕ, String, List, [], ◌∷◌, ◌++◌, str_eq, if◌then◌else◌, ◌≡◌}
use code_base_ddd.Json.{Json}
use code_base_ddd.Error.{Error, library, wrap}
use code_base_ddd.Effect.{Result, ok, err, Effect, pure, fail, lift, with_context, ◌>>=◌, ◌>>◌}
use code_base_ddd.Uuid.{UuidCodec}
use code_base_ddd.Domain.Values.{Time}
use code_base_ddd.Ports.{OutboxEvent}

abbrev pub Handler : Type 0 → Type 0
Handler S = OutboxEvent → Effect S (Unit {0})

-- The map from event types to handlers, a list of its entries. A missing key has no handlers.
abbrev pub Handlers : Type 0 → Type 0
Handlers S = List (String × List (Handler S))

module _ {S : Type 0} where
  unfoldable pub handlers_for : String → Handlers S → List (Handler S)
  handlers_for event_type [] = []
  handlers_for event_type ((t, hs) ∷ m) =
      let rest = handlers_for event_type m in if str_eq t event_type then hs else rest

  -- `b.handlers[eventType] = append(b.handlers[eventType], handler)`
  unfoldable pub subscribe : String → Handler S → Handlers S → Handlers S
  subscribe event_type h [] = (event_type, h ∷ []) ∷ []
  subscribe event_type h ((t, hs) ∷ m) =
      let rest = subscribe event_type h m in
      if str_eq t event_type then (t, hs ++ h ∷ []) ∷ m else (t, hs) ∷ rest

  -- The loop of `Publish` and of `HandleMessage`: the first error ends it.
  unfoldable pub run_handlers : String → OutboxEvent → List (Handler S) → Effect S (Unit {0})
  run_handlers prefix event [] = pure tt
  run_handlers prefix event (h ∷ hs) = do
    with_context (String.◌++◌ prefix event.event_type) (h event)
    run_handlers prefix event hs

  -- InMemoryEventBus.Publish
  unfoldable pub publish : Handlers S → OutboxEvent → Effect S (Unit {0})
  publish m event = run_handlers "handler error for " event (handlers_for event.event_type m)

  -- NATSEventBus.Publish
  unfoldable pub nats_publish : OutboxEvent → Effect S (Unit {0})
  nats_publish event = fail (library "nats publisher not implemented")

pub record KafkaMessage : Type 0 where
  pub event_id : String
  pub aggregate_type : String
  pub aggregate_id : String
  pub event_type : String
  pub payload : Json
  pub metadata : Json
  pub occurred_at : Time

-- A message on the topic (kafka-go's Message): its key, its bytes, and its offset once it is there.
-- `B` is the type of byte sequences.
pub record Message (B : Type 0) : Type 0 where
  pub key : String
  pub value : B
  pub offset : ℕ

-- encoding/json on the envelope. What it writes reads back.
pub record EnvelopeCodec (B : Type 0) : Type 0 where
  pub marshal : KafkaMessage → Result B
  pub unmarshal : B → Result KafkaMessage
  pub unmarshal-marshal :
      (m : KafkaMessage) (bytes : B) → marshal m ≡ ok bytes → unmarshal bytes ≡ ok m

-- The loop of `dispatchLocal`: errors are logged.
unfoldable pub dispatch_local : {S : Type 0} → OutboxEvent → List (Handler S) → S → S
dispatch_local event [] s = s
dispatch_local event (h ∷ hs) s = dispatch_local event hs (h event s).1

module _ (codec : UuidCodec) where
  unfoldable pub envelope : OutboxEvent → KafkaMessage
  envelope event = record {
    event_id = codec.to_string event.id;
    aggregate_type = event.aggregate_type;
    aggregate_id = event.aggregate_id;
    event_type = event.event_type;
    payload = event.payload;
    metadata = event.metadata;
    occurred_at = event.occurred_at;
  }

  module _ {S B : Type 0} where
    -- KafkaEventBus.Publish; `write` is the writer's WriteMessages, with the key and the value.
    unfoldable pub kafka_publish :
        EnvelopeCodec B
        → (String → B → Effect S (Unit {0}))
        → Handlers S
        → OutboxEvent
        → Effect S (Unit {0})
    kafka_publish json write m event = do
      value ← with_context "marshal kafka message" (lift (json.marshal (envelope event)))
      with_context "write kafka message" (write event.aggregate_id value)
      λ s. (ok tt, dispatch_local event (handlers_for event.event_type m) s)

-- KafkaEventBus.HandleMessage
unfoldable pub handle_message : {S : Type 0} → Handlers S → OutboxEvent → Effect S (Unit {0})
handle_message m event =
    run_handlers "kafka handler error for " event (handlers_for event.event_type m)
