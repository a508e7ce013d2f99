-- ===== src/Http/Middleware/Net.antt =====
-- The middleware for net/http of internal/interfaces/http/middleware.go, which wraps a handler: the
-- identifier of the request, the log, the metrics, the recovery.
pub mod Status
use code_base_ddd.Prelude.{
  ℕ, ◌≡◌, refl, sym, ap, ap₂, ◌∙◌, String, Option, none, some, List, [], ◌∷◌, ◌++◌,
}
use code_base_ddd.Effect.{Result, ok}
use code_base_ddd.Http.Middleware.Bodies.{Bytes, Request}
use code_base_ddd.Http.Middleware.Writers.{
  Writer, Handling, returns, panics, write_header, write, write_string, Outcome, returned, panicked,
  run, status_writer, run-status_writer, Sent, fixed, sending,
}
use code_base_ddd.Http.Middleware.Stack.{Observation, request_id, with_request_id}

-- http.ResponseWriter with its header.
pub record ResponseWriter (W : Type 0) : Type 0 where
  pub writer : Writer W
  pub header : (key value : String) → W → W

-- The lines "http request" and "panic recovered". (The time that the request took, the identifiers
-- of its trace and span, and the stack are left out.)
pub data Line : Type 0 where
  http_request : (method path : String) → (status : ℕ) → (correlation_id : String) → Line
  panic_recovered : Line

-- What a request comes to.
pub record Served (W : Type 0) : Type 0 where
  pub outcome : Outcome
  pub response : W
  pub lines : List Line
  pub observed : List Observation

-- http.Handler: it serves a request on any response writer.
abbrev pub Handler : Type 1
Handler = (W : Type 0) → ResponseWriter W → Request → W → Served W

-- A handler without telemetry.
abbrev pub plain : (Request → Handling) → Handler
plain h W w r s =
    let (end, t) = run w.writer (h r) s in
    record { outcome = end; response = t; lines = []; observed = [] }

-- responseWriter around a response writer, whose header it passes on.
abbrev pub response_writer : {W : Type 0} → ResponseWriter W → ResponseWriter (ℕ × W)
response_writer w = record {
  writer = status_writer w.writer;
  header = λ key value s. (s.0, w.header key value s.1);
}

-- RequestIDMiddleware: `fresh` is the text of a new UUID.
unfoldable pub request_id_middleware : String → Handler → Handler
request_id_middleware fresh next W w r s =
    next W w (with_request_id fresh r) (w.header "X-Correlation-ID" (request_id fresh r) s)

-- What a middleware adds once the handler has returned; a panic passes it by.
abbrev pub after_return :
    {W : Type 0} → Served (ℕ × W) → (ℕ → List Line) → (ℕ → List Observation) → Served W
after_return v line observation = elim v.outcome [
  | returned ↦ record {
    outcome = returned;
    response = v.response.1;
    lines = v.lines ++ line v.response.0;
    observed = v.observed ++ observation v.response.0;
  }
  | panicked ↦ record {
    outcome = panicked;
    response = v.response.1;
    lines = v.lines;
    observed = v.observed;
  }
]

unfoldable pub logging_middleware : Handler → Handler
logging_middleware next W w r s =
    after_return (next (ℕ × W) (response_writer w) r (200, s))
      (λ status. http_request r.method r.path status r.correlation_id ∷ []) (λ status. [])

unfoldable pub metrics_middleware : Handler → Handler
metrics_middleware next W w r s =
    after_return (next (ℕ × W) (response_writer w) r (200, s)) (λ status. [])
      (λ status. record { method = r.method; path = r.path; status = status } ∷ [])

-- RecoveryMiddleware: `encode` is the JSON of the body of an error, by its code and message.
unfoldable pub recovery_middleware : (String → String → Bytes) → Handler → Handler
recovery_middleware encode next W w r s =
    let v = next W w r s in
    elim v.outcome [
      | returned ↦ v
      | panicked ↦
          let (end, t) =
            run w.writer
              (write_header 500
                (write (encode "INTERNAL_ERROR" "Internal server error") (λ n. returns)))
              (w.header "Content-Type" "application/json" v.response) in
          record v { outcome = end; response = t; lines = v.lines ++ panic_recovered ∷ [] }
    ]
