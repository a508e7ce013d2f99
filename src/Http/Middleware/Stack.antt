-- ===== src/Http/Middleware/Stack.antt =====
-- The middleware functions of internal/interfaces/http/middleware.go as app.go stacks them on the
-- routes: recovery, the identifier of the request, the log, the metrics.
use code_base_ddd.Prelude.{
  ℕ, ◌<◌, ◌≡◌, refl, ap, ◌∙◌, inl, inr, Bool, true, false, Bool-cases, arith, String, List, [], ◌∷◌,
  ◌++◌, str_eq, if◌then◌else◌,
}
use code_base_ddd.Error.{Error}
use code_base_ddd.Effect.{Result, ok, err}
use code_base_ddd.Http.Middleware.Bodies.{
  Bytes, BodyReader, Request, should_skip_request_telemetry, format_body_for_log,
  read_and_restore_request_body, read_and_restore-ok,
}
use code_base_ddd.Http.Middleware.Writers.{
  Writer, Handling, returns, write_header, write, Outcome, returned, panicked, run, body_log_writer,
  run-body_log_writer,
}

-- The line "http request" of the log, and the one on a body that could not be read. (The time that
-- the request took, the identifiers of its trace and span, the client's address and its user agent
-- are left out.)
pub record RequestLine : Type 0 where
  pub method : String
  pub path : String
  pub query : String
  pub status : ℕ
  pub correlation_id : String
  pub request_body : Bytes
  pub response_body : Bytes

pub data LogLine : Type 0 where
  request_line : RequestLine → LogLine
  body_unreadable : (method path : String) → Error → LogLine
  panic_recovered : (path method : String) → LogLine

-- A duration that the histogram observes, by its labels.
pub record Observation : Type 0 where
  pub method : String
  pub path : String
  pub status : ℕ

-- What a request comes to: how its handler ended, what it did to the response, and the telemetry.
pub record Served (W : Type 0) : Type 0 where
  pub outcome : Outcome
  pub response : W
  pub lines : List LogLine
  pub observed : List Observation

-- The response under way, beyond the writer's calls: what gin reads of it, and its headers.
pub record Reply (W : Type 0) : Type 0 where
  pub writer : Writer W
  pub status : W → ℕ
  pub content_type : W → String
  pub header : (key value : String) → W → W

abbrev pub logged_path : Request → String
logged_path r = if str_eq r.full_path "" then r.path else r.full_path

-- RequestIDMiddleware and GinRequestIDMiddleware: `fresh` is the text of a new UUID.
unfoldable pub request_id : String → Request → String
request_id fresh r = if str_eq r.correlation_header "" then fresh else r.correlation_header

unfoldable pub with_request_id : String → Request → Request
with_request_id fresh r = record r { correlation_id = request_id fresh r }

abbrev pub bytes_of : Result Bytes → Bytes
bytes_of (ok b) = b
bytes_of (err e) = []

abbrev pub unread_line : Request → Result Bytes → List LogLine
unread_line r (ok b) = []
unread_line r (err e) = body_unreadable r.method (logged_path r) e ∷ []

module _ {W : Type 0} (reply : Reply W) (media : String → Result String)
    (left : Error → BodyReader) where
  -- GinMetricsMiddleware, after `c.Next` returned
  unfoldable pub observe : Request → W → List Observation
  observe r s =
      if should_skip_request_telemetry r.path
      then []
      else record { method = r.method; path = logged_path r; status = reply.status s } ∷ []

  unfoldable pub log_request : Request → Result Bytes → Bytes → W → List LogLine
  log_request r seen written s =
      if should_skip_request_telemetry r.path
      then []
      else request_line (record {
        method = r.method;
        path = logged_path r;
        query = r.query;
        status = reply.status s;
        correlation_id = r.correlation_id;
        request_body = format_body_for_log media r.content_type (bytes_of seen);
        response_body = format_body_for_log media (reply.content_type s) written;
      })
        ∷ unread_line r seen

  -- What the middleware does once `c.Next` is back; a panic passes it by.
  abbrev pub telemetry : Request → Result Bytes → Outcome → Bytes → W → Served W
  telemetry r seen returned written s = record {
    outcome = returned;
    response = s;
    lines = log_request r seen written s;
    observed = observe r s;
  }
  telemetry r seen panicked written s = record {
    outcome = panicked;
    response = s;
    lines = [];
    observed = [];
  }

  -- GinLoggingMiddlewareWithDB over GinMetricsMiddleware over the handler
  unfoldable pub logging : (Request → Handling) → Request → W → Served W
  logging next r s =
      let (seen, r') = read_and_restore_request_body left r in
      let p = run (body_log_writer reply.writer) (next r') ([], s) in
      telemetry r' seen p.0 p.1.0 p.1.1

  -- GinRecoveryMiddleware: `json` is what `c.JSON` does with the writer. (The Content-Type that it
  -- sets is left out.)
  abbrev pub recover_from :
      (ℕ → List (String × String) → Handling) → Request → Outcome → Served W → Served W
  recover_from json r returned v = v
  recover_from json r panicked v =
      let (end, t) =
        run reply.writer
          (json 500 (("error", "Internal server error") ∷ ("code", "INTERNAL_ERROR") ∷ []))
          v.response in
      record v {
        outcome = end;
        response = t;
        lines = v.lines ++ panic_recovered r.path r.method ∷ [];
      }

  unfoldable pub recover : (ℕ → List (String × String) → Handling) → Request → Served W → Served W
  recover json r v = recover_from json r v.outcome v

  -- The stack of app.go on a handler.
  unfoldable pub serve :
      (ℕ → List (String × String) → Handling)
      → String
      → (Request → Handling)
      → Request
      → W
      → Served W
  serve json fresh next r s =
      let r' = with_request_id fresh r in
      recover json r' (logging next r' (reply.header "X-Correlation-ID" (request_id fresh r) s))

  telemetry-returned :
      (r : Request) (seen : Result Bytes) (o : Outcome) (written : Bytes) (s t : W)
      → ◌≡◌ {A = Outcome × W} (o, s) (returned, t)
      → ((telemetry r seen o written s).outcome ≡ returned)
        × ((telemetry r seen o written s).response ≡ t)
  telemetry-returned r seen returned written s t h = (refl, ap (λ p. p.1) h)
  telemetry-returned r seen panicked written s t h = cc

  telemetry-panicked :
      (r : Request) (seen : Result Bytes) (o : Outcome) (written : Bytes) (s t : W)
      → ◌≡◌ {A = Outcome × W} (o, s) (panicked, t)
      → telemetry r seen o written s
        ≡ record { outcome = panicked; response = t; lines = []; observed = [] }
  telemetry-panicked r seen returned written s t h = cc
  telemetry-panicked r seen panicked written s t h =
      ap (λ p. record { outcome = panicked; response = p.1; lines = []; observed = [] }) h

  module _ (json : ℕ → List (String × String) → Handling) (fresh : String)
      (next : Request → Handling) (r : Request) (s : W) where
    -- The request and the response that the handler gets.
    abbrev pub given : Request
    given = with_request_id fresh r

    abbrev pub begun : W
    begun = reply.header "X-Correlation-ID" (request_id fresh r) s

    logging-ok :
        (seen : Bytes)
        → (read_and_restore_request_body left given).0 ≡ ok seen
        → let p = run (body_log_writer reply.writer) (next given) ([], begun) in
          logging next given begun ≡ telemetry given (ok seen) p.0 p.1.0 p.1.1
    unfolding logging
    logging-ok seen h = rw (logging, read_and_restore-ok left given seen h, h)

    -- If the request's body can be read and the handler returns, then the response is what the
    -- handler makes of it without the middleware, but for the header with the identifier.
    pub serve-returned :
        (seen : Bytes) (t : W)
        → (read_and_restore_request_body left given).0 ≡ ok seen
        → run reply.writer (next given) begun ≡ (returned, t)
        → (serve json fresh next r s).response ≡ t
    unfolding serve recover with_request_id
    serve-returned seen t h e =
        let p = run (body_log_writer reply.writer) (next given) ([], begun) in
        let (ended, same) =
          telemetry-returned given (ok seen) p.0 p.1.0 p.1.1 t
            (run-body_log_writer reply.writer (next given) [] begun ∙ e) in
        rw (serve, recover, logging-ok seen h, ended) same

    panicked-eq :
        (seen : Bytes) (t : W)
        → (read_and_restore_request_body left given).0 ≡ ok seen
        → run reply.writer (next given) begun ≡ (panicked, t)
        → let v = serve json fresh next r s in
          (v.observed ≡ [])
          × (v.lines ≡ panic_recovered r.path r.method ∷ [])
          × (v.response
              ≡ (run reply.writer
                  (json 500 (("error", "Internal server error") ∷ ("code", "INTERNAL_ERROR") ∷ []))
                  t).1)
    unfolding serve recover with_request_id
    panicked-eq seen t h e =
        let p = run (body_log_writer reply.writer) (next given) ([], begun) in
        let lost =
          telemetry-panicked given (ok seen) p.0 p.1.0 p.1.1 t
            (run-body_log_writer reply.writer (next given) [] begun ∙ e) in
        rw (serve, recover, logging-ok seen h, lost) (refl, refl, refl)

  -- gin's writer: it takes a status until the response is written, and a byte written does not
  -- change the status. `c.JSON` sets the status and writes the body at once.
  pub record IsGin (json : ℕ → List (String × String) → Handling) (written : W → Bool)
      : Type 0 where
    pub sets :
        (n : ℕ) (s : W)
        → 0 < n
        → written s ≡ false
        → reply.status (reply.writer.write_header n s) ≡ n
    pub keeps :
        (n : ℕ) (s : W)
        → written s ≡ true
        → reply.status (reply.writer.write_header n s) ≡ reply.status s
    pub writes : (b : Bytes) (s : W) → reply.status (reply.writer.write b s).1 ≡ reply.status s
    pub json_writes :
        (n : ℕ) (fields : List (String × String))
        → (b : Bytes) × (json n fields ≡ write_header n (write b (λ size. returns)))

  json-status :
      (json : ℕ → List (String × String) → Handling) (written : W → Bool)
      → IsGin json written
      → (n : ℕ) (fields : List (String × String)) (t : W) → 0 < n
      → reply.status (run reply.writer (json n fields) t).1
        ≡ (if written t then reply.status t else n)
  unfolding run
  json-status json written gin n fields t real =
      let (b, e) = gin.json_writes n fields in
      let after = gin.writes b (reply.writer.write_header n t) in
      elim (Bool-cases (written t)) [
        | inl sent ↦ rw (e, sent) (after ∙ gin.keeps n t sent)
        | inr unsent ↦ rw (e, unsent) (after ∙ gin.sets n t real unsent)
      ]

  -- If the request's body can be read and the handler panics, then the response gets the status 500
  -- if nothing of it was written before the panic, and keeps its status otherwise, given that gin's
  -- writer takes a status until the response is written and that `c.JSON` sets the status and writes the
  -- body; and the request is missing in the metrics and in the log of requests: the one line is that of
  -- the panic.
  pub serve-panicked :
      (json : ℕ → List (String × String) → Handling) (written : W → Bool) (fresh : String)
      (next : Request → Handling) (r : Request) (s t : W) (seen : Bytes)
      → IsGin json written
      → (read_and_restore_request_body left (with_request_id fresh r)).0 ≡ ok seen
      → run reply.writer
          (next (with_request_id fresh r))
          (reply.header "X-Correlation-ID" (request_id fresh r) s)
        ≡ (panicked, t)
      → let v = serve json fresh next r s in
        (v.observed ≡ [])
        × (v.lines ≡ panic_recovered r.path r.method ∷ [])
        × (reply.status v.response ≡ (if written t then reply.status t else 500))
  serve-panicked json written fresh next r s t seen gin read ended =
      let (observed, lines, response) = panicked-eq json fresh next r s seen t read ended in
      let fields : List (String × String) =
        ("error", "Internal server error") ∷ ("code", "INTERNAL_ERROR") ∷ [] in
      (
        observed,
        lines,
        ap reply.status response ∙ json-status json written gin 500 fields t (omega arith),
      )
