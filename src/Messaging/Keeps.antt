-- ===== src/Messaging/Keeps.antt =====
-- Publishing keeps what every handler keeps.
use Prim.Native.String
use code_base_ddd.Prelude.{String, List, [], ◌∷◌, All}
use code_base_ddd.Effect.{ok, Effect, lift, with_context, ◌>>◌}
use code_base_ddd.Effect.Preserves.{
  Preserves, pure-Preserves, >>=-Preserves, >>-Preserves, with_context-Preserves,
}
use code_base_ddd.Uuid.{UuidCodec}
use code_base_ddd.Ports.{OutboxEvent}
use code_base_ddd.Messaging.{
  Handler, Handlers, EnvelopeCodec, envelope, handlers_for, run_handlers, publish, dispatch_local,
  kafka_publish, handle_message,
}

module _ {S : Type 0} (P : S → Type 0) (event : OutboxEvent) where
  run_handlers-Preserves :
      (prefix : String) (hs : List (Handler S))
      → All (λ h. Preserves P (h event)) hs
      → Preserves P (run_handlers prefix event hs)
  unfolding run_handlers
  run_handlers-Preserves prefix [] kept = pure-Preserves P tt
  run_handlers-Preserves prefix (h ∷ hs) kept =
      >>-Preserves P (with_context (String.◌++◌ prefix event.event_type) (h event))
        (run_handlers prefix event hs)
        (with_context-Preserves P (String.◌++◌ prefix event.event_type) (h event) kept.0)
        (run_handlers-Preserves prefix hs kept.1)

  dispatch_local-keeps :
      (hs : List (Handler S))
      → All (λ h. Preserves P (h event)) hs
      → (s : S) → P s
      → P (dispatch_local event hs s)
  unfolding dispatch_local
  dispatch_local-keeps [] kept s h = h
  dispatch_local-keeps (k ∷ hs) kept s h = dispatch_local-keeps hs kept.1 (k event s).1 (kept.0 s h)

  module _ (m : Handlers S)
      (kept : All (λ h. Preserves P (h event)) (handlers_for event.event_type m)) where
    pub publish-Preserves : Preserves P (publish m event)
    unfolding publish
    publish-Preserves =
        run_handlers-Preserves "handler error for " (handlers_for event.event_type m) kept

    pub handle_message-Preserves : Preserves P (handle_message m event)
    unfolding handle_message
    handle_message-Preserves =
        run_handlers-Preserves "kafka handler error for " (handlers_for event.event_type m) kept

    pub kafka_publish-Preserves :
        {B : Type 0} (codec : UuidCodec) (json : EnvelopeCodec B)
        (write : String → B → Effect S (Unit {0}))
        → ((key : String) (value : B) → Preserves P (write key value))
        → Preserves P (kafka_publish codec json write m event)
    unfolding kafka_publish
    kafka_publish-Preserves {B} codec json write written =
        >>=-Preserves P
          (with_context "marshal kafka message" (lift (json.marshal (envelope codec event))))
          (λ value.
            with_context "write kafka message" (write event.aggregate_id value)
            >> (λ s. (ok tt, dispatch_local event (handlers_for event.event_type m) s)))
          (with_context-Preserves P "marshal kafka message"
            (lift (json.marshal (envelope codec event))) (λ s h. h))
          (λ value.
            >>-Preserves P (with_context "write kafka message" (write event.aggregate_id value))
              (λ s. (ok tt, dispatch_local event (handlers_for event.event_type m) s))
              (with_context-Preserves P "write kafka message" (write event.aggregate_id value)
                (written event.aggregate_id value))
              (λ s h. dispatch_local-keeps (handlers_for event.event_type m) kept s h))
