-- ===== src/Observability/LogStore.antt =====
-- The table of logs: internal/infrastructure/persistence/log_store.go and http_log.go, LogModel of
-- gorm_models.go.
use code_base_ddd.Prelude.{
  ℕ, ◌≡◌, arith, String, Bool, true, false, ◌&&◌, Option, none, some, List, ◌∷◌, ◌++◌, Perm, select,
  inl, inr, str_eq, eq_iff, ◌≢◌, if◌then◌else◌,
}
use code_base_ddd.Error.{library}
use code_base_ddd.Effect.{Result, Result-cases, ok, err, Effect, ◌>>=◌}
use code_base_ddd.Gorm.{Answer, Answer-cases, done, failed}
use code_base_ddd.Domain.Values.{Time}
use code_base_ddd.Observability.Values.{text, signed, Members, end, member}

-- `B` is the type of byte sequences.
pub record LogModel (B : Type 0) : Type 0 where
  pub id : ℕ
  pub timestamp : Time
  pub level : String
  pub message : String
  pub logger_name : Option String
  pub caller : Option String
  pub trace_id : Option String
  pub correlation_id : Option String
  pub fields : Option B
  pub created_at : Time

-- A pointer that is nil for an empty text.
abbrev pub pointer : String → Option String
pointer s = if str_eq s "" then none else some s

-- The statements on the table. A row that is created gets an identifier from the sequence, and may
-- get a time of creation; a query answers with the rows that pass, or with some of them if it has a
-- window (a limit and an offset).
pub record LogTable (B : Type 0) : Type 0 where
  pub create : LogModel B → List (LogModel B) → Answer (List (LogModel B))
  pub find :
      (LogModel B → Bool)
      → (order : String) → (window : Option (ℕ × ℕ)) → List (LogModel B)
      → Answer (List (LogModel B))
  pub create-perm :
      (m : LogModel B) (t t' : List (LogModel B))
      → create m t ≡ done t'
      → (id : ℕ) × (created : Time) × Perm t' (record m { id = id; created_at = created } ∷ t)
  pub find-perm :
      (p : LogModel B → Bool) (order : String) (t rs : List (LogModel B))
      → find p order none t ≡ done rs
      → Perm rs (select p t)
  pub find_window-perm :
      (p : LogModel B → Bool) (order : String) (limit offset : ℕ) (t rs : List (LogModel B))
      → find p order (some (limit, offset)) t ≡ done rs
      → (rest : List (LogModel B)) × Perm (rs ++ rest) (select p t)

-- A comparison with a column that may be NULL.
abbrev pub is_text : Option String → String → Bool
is_text none s = false
is_text (some t) s = str_eq t s

pub is_text-pointer : (s : String) → s ≢ "" → is_text (pointer s) s ≡ true
is_text-pointer s h = ground (arith, eq_iff s "", eq_iff s s)

-- A condition that is left out for an empty text.
abbrev pub if_given : String → Bool → Bool
if_given s b = if str_eq s "" then true else b

abbrev pub has_trace : {B : Type 0} → String → LogModel B → Bool
has_trace trace_id m = is_text m.trace_id trace_id

-- `marshal` is json.Marshal on a map.
module _ {B : Type 0} (table : LogTable B) (marshal : Members → Result B) where
  abbrev pub Logs : Type 0
  Logs = List (LogModel B)

  abbrev pub create_row : LogModel B → Effect Logs (Unit {0})
  create_row m t = elim (table.create m t) [
    | done t' ↦ (ok tt, t')
    | failed e ↦ (err (library e), t)
  ]

  abbrev pub find_rows :
      (LogModel B → Bool) → String → Option (ℕ × ℕ) → Effect Logs (List (LogModel B))
  find_rows p order window t = elim (table.find p order window t) [
    | done rs ↦ (ok rs, t)
    | failed e ↦ (err (library e), t)
  ]

  abbrev pub log_row :
      Time → String → String → String → String → String → String → Option B → LogModel B
  log_row timestamp level message logger_name caller trace_id correlation_id json = record {
    id = 0;
    timestamp = timestamp;
    level = level;
    message = message;
    logger_name = pointer logger_name;
    caller = pointer caller;
    trace_id = pointer trace_id;
    correlation_id = pointer correlation_id;
    fields = json;
    created_at = timestamp;
  }

  -- `fields` is none for a nil map.
  unfoldable pub save_log :
      Time
      → String
      → String
      → String
      → String
      → String
      → String
      → Option Members
      → Effect Logs (Unit {0})
  save_log timestamp level message logger_name caller trace_id correlation_id none =
      create_row (log_row timestamp level message logger_name caller trace_id correlation_id none)
  save_log timestamp level message logger_name caller trace_id correlation_id (some fields) = do
    json ← λ s. (marshal fields, s)
    create_row
        (log_row timestamp level message logger_name caller trace_id correlation_id (some json))

  unfoldable pub query_logs : String → String → ℕ → ℕ → Effect Logs (List (LogModel B))
  query_logs level correlation_id limit offset =
      find_rows
        (λ m.
          if_given level (str_eq m.level level)
          && if_given correlation_id (is_text m.correlation_id correlation_id))
        "created_at DESC" (some (limit, offset))

  unfoldable pub get_logs_by_trace_id : String → Effect Logs (List (LogModel B))
  get_logs_by_trace_id trace_id = find_rows (has_trace trace_id) "created_at ASC" none

  -- SaveHTTPLog, at two readings of the clock. The status and the milliseconds are 64-bit integers.
  unfoldable pub save_http_log :
      Time
      → Time
      → String
      → String
      → ℕ
      → ℕ
      → String
      → String
      → String
      → String
      → Effect Logs (Unit {0})
  save_http_log now later method path status millis correlation_id trace_id client_ip user_agent =
      do
        json ← λ s. (
          marshal (
              member "method" (text method) (
                member "path" (text path) (
                  member "status" (signed 64 status) (
                    member "duration_ms" (signed 64 millis) (
                      member "client_ip" (text client_ip)
                        (member "user_agent" (text user_agent) end)))))),
          s,
        )
        create_row
            (record (log_row now "INFO" "http request" "" "" trace_id correlation_id (some json)) {
              created_at = later;
            })

  create_row-perm :
      (m : LogModel B) (t t' : Logs)
      → create_row m t ≡ (ok tt, t')
      → (id : ℕ) × (created : Time) × Perm t' (record m { id = id; created_at = created } ∷ t)
  create_row-perm m t t' h = elim (Answer-cases (table.create m t)) [
    | inl (u, e) ↦ let same : u ≡ t' = ground arith in table.create-perm m t t' (rw (← same) e)
    | inr (x, e) ↦ ground arith
  ]

  -- A SaveLog that succeeds adds its row.
  pub save_log-perm :
      (timestamp : Time) (level message logger_name caller trace_id correlation_id : String)
      (fields : Members) (t t' : Logs)
      → save_log timestamp level message logger_name caller trace_id correlation_id (some fields) t
        ≡ (ok tt, t')
      → (json : B) × (id : ℕ) × (created : Time) × (marshal fields ≡ ok json)
        × Perm t' (
            record (log_row timestamp level message logger_name caller trace_id correlation_id
              (some json)) { id = id; created_at = created }
            ∷ t)
  unfolding save_log
  save_log-perm timestamp level message logger_name caller trace_id correlation_id fields t t' h =
      elim (Result-cases (marshal fields)) [
        | inl (json, e) ↦
            let made : create_row
                  (log_row timestamp level message logger_name caller trace_id correlation_id
                    (some json))
                  t
                ≡ (ok tt, t') =
              rw (← h, e) in
            let (id, created, rows) =
              create_row-perm
                (log_row timestamp level message logger_name caller trace_id correlation_id
                  (some json))
                t t' made in
            (json, id, created, e, rows)
        | inr (x, e) ↦ ground arith
      ]

  pub get_logs_by_trace_id-perm :
      (trace_id : String) (t u rows : Logs)
      → get_logs_by_trace_id trace_id t ≡ (ok rows, u)
      → Perm rows (select (has_trace trace_id) t)
  unfolding get_logs_by_trace_id
  get_logs_by_trace_id-perm trace_id t u rows h =
      elim (Answer-cases (table.find (has_trace trace_id) "created_at ASC" none t)) [
        | inl (rs, e) ↦
            let same : rs ≡ rows = ground arith in
            table.find-perm (has_trace trace_id) "created_at ASC" t rows (rw (← same) e)
        | inr (x, e) ↦ ground arith
      ]
