-- ===== src/Examples/Delivery.antt =====
-- The theorems about the buses and the consumer at concrete inputs.
use code_base_ddd.Prelude.{
  ℕ, ◌+◌, ◌*◌, ◌≡◌, refl, sym, ap, str_eq, none, [], ◌∷◌, arith, ◌==◌, if◌then◌else◌, Bool-cases,
  inl, inr,
}
use code_base_ddd.Error.{Error, library, wrap}
use code_base_ddd.Effect.{Result, ok, err, Effect}
use code_base_ddd.Ports.{OutboxEvent}
use code_base_ddd.Messaging.{
  Handler, Handlers, KafkaMessage, Message, EnvelopeCodec, handlers_for, run_handlers, envelope,
  handle_message,
}
use code_base_ddd.Worker.Consumer.{
  Reader, parse_message, parse_message-envelope, step, step-passes_over,
}
use code_base_ddd.Examples.Memory.{strokes}

-- Envelopes that travel as they are.
abbrev pub as_they_are : EnvelopeCodec KafkaMessage
as_they_are = record {
  marshal = λ m. ok m;
  unmarshal = λ m. ok m;
  unmarshal-marshal = λ m bytes h. sym h;
}

abbrev pub event : OutboxEvent
event = record {
  id = 4;
  aggregate_type = "Order";
  aggregate_id = "IIIIIII.";
  event_type = "OrderConfirmed";
  payload = [];
  metadata = [];
  occurred_at = 120;
  available_at = 0;
  published_at = none;
  status = "published";
  retry_count = 0;
  last_error = none;
}

abbrev pub created_event : OutboxEvent
created_event = record event { id = 3; event_type = "OrderCreated" }

abbrev count_up : Handler ℕ
count_up e n = (ok tt, n + 1)

abbrev double : Handler ℕ
double e n = (ok tt, n * 2)

parse_message-envelope_example :
    parse_message as_they_are strokes
      (record { key = "IIIIIII."; value = envelope strokes event; offset = 9 })
    ≡ ok event
parse_message-envelope_example =
    parse_message-envelope as_they_are strokes event "IIIIIII." (envelope strokes event) 9 refl

-- The reader's position and its committed offset.
abbrev pub Offsets : Type 0
Offsets = ℕ × ℕ

-- The first message is that an order was created, every other one that it was confirmed.
abbrev pub message_at : ℕ → Message KafkaMessage
message_at n = record {
  key = "IIIIIII.";
  value = envelope strokes (if n == 0 then created_event else event);
  offset = n;
}

abbrev pub fetch_next : Effect Offsets (Message KafkaMessage)
fetch_next (position, committed) = (ok (message_at position), (position + 1, committed))

abbrev pub commit_to : Message KafkaMessage → Effect Offsets (Unit {0})
commit_to msg (position, committed) = (ok tt, (position, msg.offset + 1))

pub fetch_next-ok :
    (s s' : Offsets) (msg : Message KafkaMessage)
    → fetch_next s ≡ (ok msg, s')
    → (msg.offset ≡ s.0) × (s'.0 ≡ s.0 + 1) × (s'.1 ≡ s.1)
fetch_next-ok s s' msg h =
    let same : message_at s.0 ≡ msg = ground arith in
    let moved : (s.0 + 1, s.1) ≡ s' = ap (λ r. r.1) h in
    (sym (ap (λ m. m.offset) same), sym (ap (λ o. o.0) moved), sym (ap (λ o. o.1) moved))

pub never_fails :
    {A : Type 0} {P : Type 0} (a : A) (s s' : Offsets) (why : Error)
    → ◌≡◌ {A = Result A × Offsets} (ok a, s) (err why, s')
    → P
never_fails a s s' why h = absurd (ground arith)

pub commit_to-ok :
    (msg : Message KafkaMessage) (s s' : Offsets)
    → commit_to msg s ≡ (ok tt, s')
    → (s'.0 ≡ s.0) × (s'.1 ≡ msg.offset + 1)
commit_to-ok msg s s' h =
    let moved : (s.0, msg.offset + 1) ≡ s' = ap (λ r. r.1) h in
    (sym (ap (λ o. o.0) moved), sym (ap (λ o. o.1) moved))

abbrev pub reader : Reader Offsets KafkaMessage
reader = record {
  fetch = fetch_next;
  commit = commit_to;
  position = λ s. s.0;
  committed = λ s. s.1;
  fetch-ok = λ s s' msg h. fetch_next-ok s s' msg h;
  fetch-err = λ s s' why h. never_fails (message_at s.0) (s.0 + 1, s.1) s' why h;
  commit-ok = λ msg s s' h k. commit_to-ok msg s s' k;
  commit-err = λ msg s s' why h. never_fails tt (s.0, msg.offset + 1) s' why h;
}

abbrev pub refuse : Handler Offsets
refuse e s = (err (library "no table"), s)

abbrev pub pass : Handler Offsets
pass e s = (ok tt, s)

abbrev pub bus : Handlers Offsets
bus = ("OrderCreated", refuse ∷ []) ∷ ("OrderConfirmed", pass ∷ []) ∷ []

bus-apart : (e : OutboxEvent) (s : Offsets) → (handle_message bus e s).1 ≡ s
unfolding handle_message handlers_for run_handlers
bus-apart e s = elim (Bool-cases (str_eq "OrderCreated" e.event_type)) [
  | inl h ↦ rw h refl
  | inr n ↦ elim (Bool-cases (str_eq "OrderConfirmed" e.event_type)) [
    | inl h ↦ rw (n, h) refl
    | inr m ↦ rw (n, m) refl
  ]
]

abbrev pub start : Offsets
start = (0, 0)

step-passes_over_example :
    (step as_they_are strokes reader bus (step as_they_are strokes reader bus start)).1 ≡ 2
unfolding parse_message envelope handle_message handlers_for run_handlers
step-passes_over_example =
    step-passes_over as_they_are strokes reader bus (message_at 0) (message_at 1) created_event
      event (wrap "kafka handler error for OrderCreated" (library "no table")) start (1, 0) (1, 0)
      (2, 0) (2, 0) (2, 2) refl refl refl refl refl refl refl
      (λ e s. (ap (λ o. o.0) (bus-apart e s), ap (λ o. o.1) (bus-apart e s))) (omega arith)
