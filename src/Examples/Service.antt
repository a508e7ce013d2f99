-- ===== src/Examples/Service.antt =====
-- The theorems about logs, middleware and the life of the process at concrete inputs.
use mathlib.Core.List.Perm
use mathlib.Core.List.{append-nil}
use code_base_ddd.Prelude.{
  ℕ, ◌+◌, ◌*◌, leb, if◌then◌else◌, ◌<◌, ◌≡◌, refl, arith, String, Bool, true, false, Option, none,
  some, List, [], ◌∷◌, ◌++◌, length, select, reject, count, Perm,
}
use code_base_ddd.Error.{Error, library}
use code_base_ddd.Effect.{Result, ok, err}
use code_base_ddd.Gorm.{done}
use code_base_ddd.Observability.Values.{Value, text, Members, member}
use code_base_ddd.Observability.Levels.{error}
use code_base_ddd.Observability.Entries.{Entry, Zap, field, add_all}
use code_base_ddd.Observability.LogStore.{LogModel, LogTable, save_log, get_logs_by_trace_id}
use code_base_ddd.Observability.Hooks.{hook, saving, shows, hook-get_logs_by_trace_id}
use code_base_ddd.Observability.Endpoint.{noop}
use code_base_ddd.Observability.MetricStore.{MetricModel, MetricTable, nonzero}
use code_base_ddd.Observability.Metrics.{
  Wake, ticked, stopped, persist_metrics, persist_metrics-zero,
}
use code_base_ddd.Http.Middleware.Bodies.{Bytes, BodyReader, Request, read_and_restore_request_body}
use code_base_ddd.Http.Middleware.Writers.{
  Writer, Handling, returns, panics, write_header, write, run, Sent, sending,
}
use code_base_ddd.Http.Middleware.Stack.{
  Reply, IsGin, panic_recovered, serve, with_request_id, request_id, serve-returned, serve-panicked,
}
use code_base_ddd.Http.Middleware.Net.{http_request}
use code_base_ddd.Http.Middleware.Net.Status.{served, served-status}
use code_base_ddd.Bootstrap.{
  Answers, Action, signalled, close_log_file, panicked, open_database, run as run_process, run-last,
  run-tracer,
}
use code_base_ddd.Examples.Memory.{same_answer}

-- A field is a key with its value.
abbrev pairs : Zap (String × Value)
pairs = record { add_to = λ f m. member f.0 f.1 m; level_text = λ l. "error" }

create_law :
    {Row : Type 0} (t u v : List Row) (r : Row) → u ≡ r ∷ t → done u ≡ done v → Perm v (r ∷ t)
create_law t u v r e h = let same : v ≡ r ∷ t = ground arith in rw same (Perm.refl (r ∷ t))

abbrev log_table : LogTable Members
log_table = record {
  create = λ m t. done (record m { id = length t } ∷ t);
  find = λ p order window t. done (select p t);
  create-perm =
      λ m t t' h. (length t, m.created_at, create_law t _ t' (record m { id = length t }) refl h);
  find-perm = λ p order t rs h. same_answer (select p t) rs h;
  find_window-perm =
      λ p order limit offset t rs h. ([], rw (append-nil rs) (same_answer (select p t) rs h));
}

abbrev entry : Entry
entry = record {
  time = 100;
  level = error;
  message = "failed";
  logger_name = "";
  caller = record { defined = true; file = "app.go"; line = 7; shown = "app.go:7" };
  stack = "";
}

abbrev traced : List (String × Value)
traced = ("status", text "late") ∷ ("trace_id", text "4bf9") ∷ []

abbrev kept : List (LogModel Members)
kept = (hook pairs (saving pairs log_table (λ m. ok m)) entry traced []).1

hook-get_logs_by_trace_id_example : 0 < count (shows pairs entry) kept
unfolding hook save_log get_logs_by_trace_id field add_all
hook-get_logs_by_trace_id_example =
    hook-get_logs_by_trace_id pairs log_table (λ m. ok m) entry traced "4bf9" [] kept kept kept refl
      refl (λ e. cc) refl

abbrev metric_table : MetricTable Members
metric_table = record {
  create = λ m t. done (record m { id = length t } ∷ t);
  find = λ p order t. done (select p t);
  delete = λ p t. done (reject p t);
  aggregate = λ p expression t. done (length (select p t));
  create-perm =
      λ m t t' h. (length t, m.created_at, create_law t _ t' (record m { id = length t }) refl h);
  find-perm = λ p order t rs h. same_answer (select p t) rs h;
  delete-perm = λ p t t' h. same_answer (reject p t) t' h;
}

-- Two ticks, and then the task is stopped.
abbrev wakes : ℕ → Wake
wakes i = if leb 2 i then stopped else ticked (λ j. i * 30 + j)

persist_metrics-zero_example :
    (t : List (MetricModel Members)) × (persist_metrics metric_table (λ m. ok m) wakes 3 0 []
      ≡ some t)
    × (count (nonzero metric_table (λ m. ok m)) t ≡ 0)
persist_metrics-zero_example =
    persist_metrics-zero metric_table (λ m. ok m) wakes 2 3 0 [] ((_, refl), ((_, refl), refl))
      (omega arith)

abbrev status_of : Option ℕ → ℕ
status_of none = 200
status_of (some n) = n

abbrev reply : Reply Sent
reply = record {
  writer = sending;
  status = λ s. status_of s.status;
  content_type = λ s. "application/json";
  header = λ key value s. s;
}

abbrev request : Request
request = record {
  method = "POST";
  path = "/api/v1/orders";
  full_path = "/api/v1/orders";
  query = "";
  content_type = "application/json";
  correlation_header = "";
  correlation_id = "";
  body = some (record { content = 123 ∷ 125 ∷ []; ending = ok tt });
}

abbrev unreadable : Error → BodyReader
unreadable e = record { content = []; ending = err e }

abbrev media : String → Result String
media t = ok t

abbrev json_reply : ℕ → List (String × String) → Handling
json_reply status fields = write_header status (write (123 ∷ 125 ∷ []) (λ r. returns))

abbrev accepted : Request → Handling
accepted r = write_header 201 (write (123 ∷ 125 ∷ []) (λ r. returns))

abbrev nothing_sent : Sent
nothing_sent = record { status = none; body = [] }

serve-returned_example :
    (serve reply media unreadable json_reply "fresh" accepted request nothing_sent).response
    ≡ record { status = some 201; body = 123 ∷ 125 ∷ [] }
unfolding run read_and_restore_request_body with_request_id request_id
serve-returned_example =
    serve-returned reply media unreadable json_reply "fresh" accepted request nothing_sent
      (123 ∷ 125 ∷ []) (record { status = some 201; body = 123 ∷ 125 ∷ [] }) refl refl

-- A response under way as gin's writer keeps it.
record Underway : Type 0 where
  status : ℕ
  written : Bool
  body : Bytes

abbrev gin_writer : Writer Underway
gin_writer = record {
  write_header = λ n s. if s.written then s else record s { status = n };
  write = λ b s. (ok 0, record s { written = true; body = s.body ++ b });
  write_string = λ b s. (ok 0, record s { written = true; body = s.body ++ b });
}

abbrev gin_reply : Reply Underway
gin_reply = record {
  writer = gin_writer;
  status = λ s. s.status;
  content_type = λ s. "application/json";
  header = λ key value s. s;
}

gin_reply-IsGin : IsGin gin_reply media unreadable json_reply (λ s. s.written)
gin_reply-IsGin = record {
  sets = λ n s real unsent. rw unsent refl;
  keeps = λ n s sent. rw sent refl;
  writes = λ b s. refl;
  json_writes = λ n fields. (123 ∷ 125 ∷ [], refl);
}

-- A handler that sets a status, which it does not send, and panics.
abbrev crash : Request → Handling
crash r = write_header 201 panics

abbrev blank : Underway
blank = record { status = 200; written = false; body = [] }

serve-panicked_example :
    let v = serve gin_reply media unreadable json_reply "fresh" crash request blank in
    (v.observed ≡ [])
    × (v.lines ≡ panic_recovered "/api/v1/orders" "POST" ∷ [])
    × (v.response.status ≡ 500)
unfolding run read_and_restore_request_body with_request_id request_id
serve-panicked_example =
    serve-panicked gin_reply media unreadable json_reply (λ s. s.written) "fresh" crash request
      blank (record blank { status = 201 }) (123 ∷ 125 ∷ []) gin_reply-IsGin refl refl

-- The endpoint of the traces has no host.
abbrev answers : Answers
answers = record {
  logger = ok tt;
  connect = ok tt;
  tracing_plugin = ok tt;
  sql_db = ok tt;
  tracer = err (library "missing host");
  sig_noz = ok noop;
  stop = signalled;
  shut_down = ok tt;
}

run-last_example :
    (first : List Action) × ((run_process "kafka" answers).1 ≡ first ++ close_log_file ∷ [])
run-last_example = run-last "kafka" answers refl

run-tracer_example : (run_process "kafka" answers).0 ≡ panicked
unfolding open_database
run-tracer_example = run-tracer "kafka" answers (library "missing host") refl refl refl

served-status_example :
    let v = served (λ key value s. s) accepted request in
    let sent : Sent = record { status = some 201; body = 123 ∷ 125 ∷ [] } in
    (v.response ≡ sent)
    × (v.lines ≡ http_request "POST" "/api/v1/orders" 201 "" ∷ [])
    × (v.observed ≡ record { method = "POST"; path = "/api/v1/orders"; status = 201 } ∷ [])
unfolding run
served-status_example =
    served-status (λ key value s. s) accepted request
      (record { status = some 201; body = 123 ∷ 125 ∷ [] })
      ((refl, omega arith, omega arith), λ n. tt) refl
