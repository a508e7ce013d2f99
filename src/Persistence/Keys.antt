-- ===== src/Persistence/Keys.antt =====
-- Idempotency: internal/infrastructure/persistence/idempotency_store.go (by the key of a request)
-- and processed_event_store.go (by the event, for a consumer).
pub mod Stored
use code_base_ddd.Prelude.{◌+◌, String, Bool, ◌&&◌, Option, none, some, ◌==◌, ltb, str_eq}
use code_base_ddd.Effect.{Effect, pure, ◌>>=◌}
use code_base_ddd.Uuid.{Uuid}
use code_base_ddd.Domain.Values.{Time}
use code_base_ddd.Ports.{IdempotencyResult}
use code_base_ddd.Persistence.Models.{IdempotencyKeyModel, ProcessedEventModel}
use code_base_ddd.Persistence.Database.{
  Db, Gorm, answer, change, put_idempotency_keys, put_processed_events,
}

abbrev pub is_live : Time → String → IdempotencyKeyModel → Bool
is_live now key m = str_eq m.key key && ltb now m.expires_at

abbrev pub has_key : String → IdempotencyKeyModel → Bool
has_key key m = str_eq m.key key

abbrev pub is_processed_by : Uuid → String → ProcessedEventModel → Bool
is_processed_by id handler m = m.event_id == id && str_eq m.handler_name handler

abbrev pub result_of : Option IdempotencyKeyModel → Option IdempotencyResult
result_of none = none
result_of (some m) =
    some (record { status_code = m.response_status; response_body = m.response_body })

module _ (g : Gorm) where
  unfoldable pub check : Time → String → Effect Db (Option IdempotencyResult)
  check now key = do
    found ← λ s. answer (g.idempotency_keys.first (is_live now key) s.idempotency_keys) s
    pure (result_of found)

  -- `created_at` and `expires_at` take two readings of the clock.
  unfoldable pub store : Time → Time → Time → String → IdempotencyResult → Effect Db (Unit {0})
  store ttl now later key r s =
      change put_idempotency_keys
        (g.idempotency_keys.assign_or_create (has_key key)
          (record {
            key = key;
            response_status = r.status_code;
            response_body = r.response_body;
            created_at = now;
            expires_at = later + ttl;
          })
          s.idempotency_keys)
        s

  unfoldable pub is_processed : Uuid → String → Effect Db Bool
  is_processed id handler = do
    n ← λ s. answer (g.processed_events.count (is_processed_by id handler) s.processed_events) s
    pure (ltb 0 n)

  unfoldable pub mark_processed : Time → Uuid → String → Effect Db (Unit {0})
  mark_processed now id handler s =
      change put_processed_events
        (g.processed_events.first_or_create (is_processed_by id handler)
          (record { event_id = id; handler_name = handler; processed_at = now }) s.processed_events)
        s
