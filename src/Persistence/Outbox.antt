-- ===== src/Persistence/Outbox.antt =====
-- The outbox: internal/infrastructure/persistence/outbox_store.go.
pub mod Payload
pub mod Append
pub mod Retry
pub mod Kept
use code_base_ddd.Prelude.{
  ℕ, suc, ◌+◌, ◌-◌, ◌*◌, ◌^◌, String, Bool, true, ◌&&◌, not, Option, none, some, List, [], ◌∷◌, map,
  length, min, ◌==◌, leb, ltb, str_eq, if◌then◌else◌,
}
use code_base_ddd.Json.{Json}
use code_base_ddd.Error.{library}
use code_base_ddd.Effect.{Effect, pure, ◌>>=◌, ◌>>◌}
use code_base_ddd.Gorm.{Answer, done, failed}
use code_base_ddd.Int64.{add64, slt, modulus}
use code_base_ddd.Uuid.{Uuid}
use code_base_ddd.Domain.Values.{Time}
use code_base_ddd.Domain.Events.{DomainEvent, aggregate_type, aggregate_id, event_type, occurred_at}
use code_base_ddd.Ports.{OutboxEvent}
use code_base_ddd.Persistence.Models.{OutboxEventModel}
use code_base_ddd.Persistence.Database.{Db, Gorm, answer, change, change_count, put_outbox_events}
use Payload.{marshal}

abbrev pub max_retries : ℕ
max_retries = 10

abbrev pub base_backoff_secs : ℕ
base_backoff_secs = 2

abbrev pub max_backoff_secs : ℕ
max_backoff_secs = 300

-- `time.Second`, in the unit of `Time`, the microsecond
abbrev pub second : Time
second = 1_000_000

abbrev pub pending : String
pending = "pending"

abbrev pub published : String
published = "published"

abbrev pub failed_status : String
failed_status = "failed"

unfoldable pub outbox_model : Uuid → Time → DomainEvent → OutboxEventModel
outbox_model id now e = record {
  id = id;
  aggregate_type = aggregate_type e;
  aggregate_id = aggregate_id e;
  event_type = event_type e;
  payload = marshal e;
  metadata = [];
  occurred_at = occurred_at e;
  available_at = now;
  published_at = none;
  status = pending;
  retry_count = 0;
  last_error = none;
}

-- The loop of `Append`; the i-th round draws the i-th identifier and reads the clock.
unfoldable pub outbox_models :
    (ℕ → Uuid) → (ℕ → Time) → ℕ → List DomainEvent → List OutboxEventModel
outbox_models ids clock i [] = []
outbox_models ids clock i (e ∷ es) =
    outbox_model (ids i) (clock i) e ∷ outbox_models ids clock (suc i) es

abbrev pub to_outbox_event : OutboxEventModel → OutboxEvent
to_outbox_event m = record {
  id = m.id;
  aggregate_type = m.aggregate_type;
  aggregate_id = m.aggregate_id;
  event_type = m.event_type;
  payload = m.payload;
  metadata = m.metadata;
  occurred_at = m.occurred_at;
  available_at = m.available_at;
  published_at = m.published_at;
  status = m.status;
  retry_count = m.retry_count;
  last_error = m.last_error;
}

abbrev pub is_pending : Time → OutboxEventModel → Bool
is_pending now m = str_eq m.status pending && leb m.available_at now

abbrev pub has_event_id : Uuid → OutboxEventModel → Bool
has_event_id id m = m.id == id

-- `Duration(math.Min(math.Pow(2, retries) * 2, 300))`, in seconds; the floats are exact powers of
-- two up to the cap, and a negative count gives a fraction, which is cut to a whole number.
unfoldable pub backoff_secs : ℕ → ℕ
backoff_secs retries =
    if slt retries 0
    then (if retries == modulus - 1 then 1 else 0)
    else min (2 ^ retries * base_backoff_secs) max_backoff_secs

-- What `MarkFailed` makes of the row.
unfoldable pub failed_model : Time → String → OutboxEventModel → OutboxEventModel
unfolding backoff_secs
failed_model now text m =
    let retries = add64 m.retry_count 1 in
    if not (slt retries max_retries)
    then record m { retry_count = retries; last_error = some text; status = failed_status }
    else record m {
      retry_count = retries;
      last_error = some text;
      available_at = now + backoff_secs retries * second;
    }

abbrev pub published_model : Time → OutboxEventModel → OutboxEventModel
published_model now m = record m { status = published; published_at = some now }

abbrev pub requeued_model : Time → OutboxEventModel → OutboxEventModel
requeued_model now m = record m {
  status = pending;
  retry_count = 0;
  available_at = now;
  last_error = none;
}

abbrev pub is_failed : OutboxEventModel → Bool
is_failed m = str_eq m.status failed_status

module _ (g : Gorm) where
  unfoldable pub append : (ℕ → Uuid) → (ℕ → Time) → List DomainEvent → Effect Db (Unit {0})
  append ids clock events s =
      let models = outbox_models ids clock 0 events in
      if length models == 0
      then pure tt s
      else change put_outbox_events (g.outbox_events.create models s.outbox_events) s

  unfoldable pub fetch_pending : Time → ℕ → Effect Db (List OutboxEvent)
  fetch_pending now batch_size = do
    models ← λ s.
        answer (g.fetch_outbox (is_pending now) (λ m. m.occurred_at) batch_size s.outbox_events) s
    pure (map to_outbox_event models)

  unfoldable pub mark_published : Time → Uuid → Effect Db (Unit {0})
  mark_published now id = do
    λ s.
        change_count put_outbox_events
          (g.outbox_events.updates (has_event_id id) (published_model now) s.outbox_events) s
    pure tt

  unfoldable pub mark_failed : Time → Uuid → String → Effect Db (Unit {0})
  unfolding failed_model
  mark_failed now id text s = elim (g.outbox_events.first (has_event_id id) s.outbox_events) [
    | failed why ↦ answer (failed why) s
    | done none ↦ answer (failed "record not found") s
    | done (some m) ↦
        (do
          λ t.
              change_count put_outbox_events
                (g.outbox_events.save (λ _. true) (failed_model now text m) t.outbox_events) t
          pure tt)
          s
  ]

  unfoldable pub requeue_failed : Time → Effect Db ℕ
  requeue_failed now s =
      change_count put_outbox_events
        (g.outbox_events.updates is_failed (requeued_model now) s.outbox_events) s
