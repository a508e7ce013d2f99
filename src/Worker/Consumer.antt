-- ===== src/Worker/Consumer.antt =====
-- The Kafka consumer: internal/infrastructure/worker/kafka_consumer_worker.go.
pub mod Run
use code_base_ddd.Prelude.{ℕ, ◌+◌, ◌≤◌, ◌≡◌, refl, ap, ◌⊎◌, inl, inr, String, none, arith}
use code_base_ddd.Error.{Error}
use code_base_ddd.Effect.{Result, ok, err, Effect, Outcome-cases, Result-cases}
use code_base_ddd.Uuid.{UuidCodec}
use code_base_ddd.Ports.{OutboxEvent}
use code_base_ddd.Messaging.{Handlers, Message, EnvelopeCodec, envelope, handle_message}

-- kafka-go's Reader of a consumer group, on one partition: `FetchMessage` returns the message at
-- the position and moves on, and commits nothing; `CommitMessages` commits that everything up to
-- the message is done with. After a restart the group resumes at the committed offset.
pub record Reader (S B : Type 0) : Type 0 where
  pub fetch : Effect S (Message B)
  pub commit : Message B → Effect S (Unit {0})
  pub position : S → ℕ
  pub committed : S → ℕ
  pub fetch-ok :
      (s s' : S) (msg : Message B)
      → fetch s ≡ (ok msg, s')
      → (msg.offset ≡ position s) × (position s' ≡ position s + 1) × (committed s' ≡ committed s)
  pub fetch-err :
      (s s' : S) (why : Error)
      → fetch s ≡ (err why, s')
      → (position s' ≡ position s) × (committed s' ≡ committed s)
  pub commit-ok :
      (msg : Message B) (s s' : S)
      → committed s ≤ msg.offset
      → commit msg s ≡ (ok tt, s')
      → (position s' ≡ position s) × (committed s' ≡ msg.offset + 1)
  pub commit-err :
      (msg : Message B) (s s' : S) (why : Error)
      → commit msg s ≡ (err why, s')
      → (position s' ≡ position s) × (committed s' ≡ committed s)

module _ {B : Type 0} (json : EnvelopeCodec B) (codec : UuidCodec) where
  -- The fields that the envelope does not have are Go's zero values.
  unfoldable pub parse_message : Message B → Result OutboxEvent
  parse_message msg = elim (json.unmarshal msg.value) [
    | err why ↦ err why
    | ok km ↦ elim (codec.parse km.event_id) [
      | err why ↦ err why
      | ok event_id ↦ ok (record {
        id = event_id;
        aggregate_type = km.aggregate_type;
        aggregate_id = km.aggregate_id;
        event_type = km.event_type;
        payload = km.payload;
        metadata = km.metadata;
        occurred_at = km.occurred_at;
        available_at = 0;
        published_at = none;
        status = "published";
        retry_count = 0;
        last_error = none;
      })
    ]
  ]

  -- What the bus writes for an event is read back as that event, with the fields that describe its
  -- delivery reset.
  pub parse_message-envelope :
      (event : OutboxEvent) (key : String) (bytes : B) (offset : ℕ)
      → json.marshal (envelope codec event) ≡ ok bytes
      → parse_message (record { key = key; value = bytes; offset = offset })
        ≡ ok (record event {
          available_at = 0;
          published_at = none;
          status = "published";
          retry_count = 0;
          last_error = none;
        })
  unfolding parse_message envelope
  parse_message-envelope event key bytes offset h =
      rw
        (
          parse_message,
          json.unmarshal-marshal (envelope codec event) bytes h,
          codec.parse-to_string event.id,
        )
        refl

  module _ {S : Type 0} (r : Reader S B) (bus : Handlers S) where
    -- One round of the loop of `Run`, while the context is not cancelled.
    unfoldable pub step : S → S
    step s =
        let (fetched, s') = r.fetch s in
        elim fetched [
          | err why ↦ s'
          | ok msg ↦ elim (parse_message msg) [
            | err why ↦ (r.commit msg s').1
            | ok event ↦
                let (handled, s'') = handle_message bus event s' in
                elim handled [ err why ↦ s'' | ok _ ↦ (r.commit msg s'').1 ]
          ]
        ]

    -- The handlers leave the reader alone.
    abbrev pub IsApart : Type 0
    IsApart =
        (event : OutboxEvent) (s : S)
        → (r.position (handle_message bus event s).1 ≡ r.position s)
          × (r.committed (handle_message bus event s).1 ≡ r.committed s)

    commit-bounds :
        (msg : Message B) (s : S)
        → r.committed s ≤ msg.offset
        → r.position s ≡ msg.offset + 1
        → (r.committed (r.commit msg s).1 ≤ r.position (r.commit msg s).1)
          × (r.committed s ≤ r.committed (r.commit msg s).1)
    commit-bounds msg s h k = elim (Outcome-cases (r.commit msg s)) [
      | inl (u, t, e) ↦
          let (p, c) = r.commit-ok msg s t h e in rw e (omega (arith, p, c), omega (arith, p, c))
      | inr (why, t, e) ↦
          let (p, c) = r.commit-err msg s t why e in rw e (omega (arith, p, c), omega (arith, p, c))
    ]

    -- The ways a round can go: nothing was fetched; the message cannot be read, and is committed;
    -- it was not handled, and is not; it was handled, and is.
    step-cases :
        (s : S)
        → ((why : Error) × (t : S) × (r.fetch s ≡ (err why, t)) × (step s ≡ t))
          ⊎ ((msg : Message B) × (t : S) × (r.fetch s ≡ (ok msg, t))
              × (step s ≡ (r.commit msg t).1))
          ⊎ ((msg : Message B) × (event : OutboxEvent) × (t : S) × (r.fetch s ≡ (ok msg, t))
              × ((step s ≡ (handle_message bus event t).1)
                  ⊎ (step s ≡ (r.commit msg (handle_message bus event t).1).1)))
    unfolding step
    step-cases s = elim (Outcome-cases (r.fetch s)) [
      | inr (why, t, f) ↦ inl (why, t, f, ground arith)
      | inl (msg, t, f) ↦ elim (Result-cases (parse_message msg)) [
        | inr (why, p) ↦ inr (inl (msg, t, f, ground arith))
        | inl (event, p) ↦ elim (Outcome-cases (handle_message bus event t)) [
          | inr (why, u, e) ↦ inr (inr (msg, event, t, f, inl (ground arith)))
          | inl (x, u, e) ↦ inr (inr (msg, event, t, f, inr (ground arith)))
        ]
      ]
    ]

    -- No round commits beyond what was fetched, or takes a commit back.
    pub step-committed :
        (apart : IsApart) (s : S)
        → r.committed s ≤ r.position s
        → (r.committed (step s) ≤ r.position (step s)) × (r.committed s ≤ r.committed (step s))
    step-committed apart s h = elim (step-cases s) [
      | inl (why, t, f, e) ↦
          let (p, c) = r.fetch-err s t why f in rw e (omega (arith, p, c), omega (arith, p, c))
      | inr (inl (msg, t, f, e)) ↦
          let (o, p, c) = r.fetch-ok s t msg f in
          let (low, high) = commit-bounds msg t (omega (arith, o, c)) (omega (arith, o, p)) in
          rw e (low, omega (arith, c, high))
      | inr (inr (msg, event, t, f, inl e)) ↦
          let (o, p, c) = r.fetch-ok s t msg f in
          let (p', c') = apart event t in rw e (omega (arith, p, c, p', c'), omega (arith, c, c'))
      | inr (inr (msg, event, t, f, inr e)) ↦
          let (o, p, c) = r.fetch-ok s t msg f in
          let (p', c') = apart event t in
          let (low, high) =
            commit-bounds msg (handle_message bus event t).1 (omega (arith, o, c, c'))
              (omega (arith, o, p, p')) in
          rw e (low, omega (arith, c, c', high))
    ]

    -- A message whose handling failed is passed over: if the next message is handled and committed,
    -- the committed offset lies beyond both, and no restart delivers the first again.
    pub step-passes_over :
        (msg next : Message B) (event after : OutboxEvent) (why : Error) (s t u v w x : S)
        → r.fetch s ≡ (ok msg, t)
        → parse_message msg ≡ ok event
        → handle_message bus event t ≡ (err why, u)
        → r.fetch u ≡ (ok next, v)
        → parse_message next ≡ ok after
        → handle_message bus after v ≡ (ok tt, w)
        → r.commit next w ≡ (ok tt, x)
        → IsApart
        → r.committed s ≤ r.position s
        → r.committed (step (step s)) ≡ msg.offset + 2
    unfolding step
    step-passes_over msg next event after why s t u v w x f p e f' p' e' c apart h =
        let first : step s ≡ u = ground arith in
        let second : step u ≡ x = ground arith in
        let (o, n, k) = r.fetch-ok s t msg f in
        let (n', k') = apart event t in
        let (o', n'', k'') = r.fetch-ok u v next f' in
        let (n3, k3) = apart after v in
        let here : (handle_message bus event t).1 ≡ u = ground arith in
        let there : (handle_message bus after v).1 ≡ w = ground arith in
        let hp = ap r.position here in
        let hc = ap r.committed here in
        let tc = ap r.committed there in
        let (n4, k4) =
          r.commit-ok next w x (omega (arith, o, n, k, n', k', hp, hc, o', k'', k3, tc)) c in
        rw (first, second) (omega (arith, k4, o', hp, n', n, o))
