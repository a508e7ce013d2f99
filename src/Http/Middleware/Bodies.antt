-- ===== src/Http/Middleware/Bodies.antt =====
-- What the logs show of a request: shouldSkipRequestTelemetry, formatBodyForLog and
-- readAndRestoreRequestBody of internal/interfaces/http/middleware.go, and the filter of the
-- traces in internal/bootstrap/app.go.
use Prim.Native.Char.{code}
use Prim.Native.String as Text
use code_base_ddd.Prelude.{
  ℕ, ◌+◌, ◌≤◌, ◌≡◌, refl, ap, ◌∙◌, arith, inl, inr, String, Bool, false, not, ◌||◌, ◌&&◌, Option,
  none, some, List, [], ◌∷◌, ◌++◌, length, length-take, take, ltb, ◌==◌, str_eq, if◌then◌else◌,
  Bool-cases,
}
use code_base_ddd.Error.{Error}
use code_base_ddd.Effect.{Result, Result-cases, ok, err}

-- strings.HasPrefix
abbrev pub has_prefix : String → String → Bool
has_prefix s prefix = Text.find s prefix == 0

unfoldable pub should_skip_request_telemetry : String → Bool
should_skip_request_telemetry path =
    str_eq path "/metrics" || has_prefix path "/health/" || has_prefix path "/swagger/"

-- The filter that app.go gives to otelgin.
unfoldable pub otel_filter : String → Bool
otel_filter path =
    not (str_eq path "/metrics")
    && not (has_prefix path "/health/")
    && not (has_prefix path "/swagger/")

-- The requests that are traced are those that are logged and measured.
pub otel_filter-should_skip :
    (path : String) → otel_filter path ≡ not (should_skip_request_telemetry path)
unfolding otel_filter should_skip_request_telemetry
otel_filter-should_skip path = ground arith

-- A byte sequence, which is what a string of Go is; a text of ASCII letters as its bytes.
abbrev pub Bytes : Type 0
Bytes = List ℕ

abbrev pub ascii : String → Bytes
ascii Text.[] = []
ascii (Text.◌∷◌ c s) = code c ∷ ascii s

abbrev pub max_logged_body_bytes : ℕ
max_logged_body_bytes = 4096

-- The media types that are shown.
abbrev pub is_text_type : String → Bool
is_text_type t =
    has_prefix t "text/"
    || str_eq t "application/json"
    || str_eq t "application/xml"
    || str_eq t "application/x-www-form-urlencoded"

abbrev pub shown_body : Bytes → Bytes
shown_body body =
    if ltb max_logged_body_bytes (length body)
    then take max_logged_body_bytes body ++ ascii "...(truncated)"
    else body

-- `media` is mime.ParseMediaType, less the parameters.
unfoldable pub format_body_for_log : (String → Result String) → String → Bytes → Bytes
format_body_for_log media content_type [] = []
format_body_for_log media content_type (b ∷ body) = elim (media content_type) [
  | ok t ↦ if is_text_type t then shown_body (b ∷ body) else ascii "<omitted: non-text body>"
  | err e ↦ shown_body (b ∷ body)
]

pub length-append : (xs ys : Bytes) → length (xs ++ ys) ≡ length xs + length ys
length-append [] ys = omega arith
length-append (x ∷ xs) ys = omega (arith, length-append xs ys)

ltb-false : (a b : ℕ) → ltb a b ≡ false → b ≤ a
ltb-false a b h = ground arith

shown_body-length : (body : Bytes) → length (shown_body body) ≤ max_logged_body_bytes + 14
shown_body-length body = elim (Bool-cases (ltb max_logged_body_bytes (length body))) [
  | inl e ↦
      let size = length-append (take max_logged_body_bytes body) (ascii "...(truncated)") in
      rw e (omega (arith, size, length-take max_logged_body_bytes body))
  | inr e ↦ let few = ltb-false max_logged_body_bytes (length body) e in rw e (omega (arith, few))
]

-- No body takes more than 4110 bytes of a line of the log.
pub format_body_for_log-length :
    (media : String → Result String) (content_type : String) (body : Bytes)
    → length (format_body_for_log media content_type body) ≤ max_logged_body_bytes + 14
unfolding format_body_for_log
format_body_for_log-length media content_type [] = omega arith
format_body_for_log-length media content_type (b ∷ body) =
    elim (Result-cases (media content_type)) [
      | inl (t, e) ↦ elim (Bool-cases (is_text_type t)) [
        | inl f ↦ rw (format_body_for_log, e, f) (shown_body-length (b ∷ body))
        | inr f ↦ rw (format_body_for_log, e, f) (omega arith)
      ]
      | inr (x, e) ↦ rw (format_body_for_log, e) (shown_body-length (b ∷ body))
    ]

-- A request's body as a reader: what it gives until it ends, well or with an error.
pub record BodyReader : Type 0 where
  pub content : Bytes
  pub ending : Result (Unit {0})

pub record Request : Type 0 where
  pub method : String
  pub path : String
  -- the route that gin found, empty if none
  pub full_path : String
  pub query : String
  pub content_type : String
  pub correlation_header : String
  -- the correlation identifier of the request's context
  pub correlation_id : String
  -- none for a nil body
  pub body : Option BodyReader

-- `left` is the reader after an error.
abbrev pub restored : (Error → BodyReader) → Bytes → Result (Unit {0}) → Result Bytes × BodyReader
restored left content (ok u) = (ok content, record { content = content; ending = ok tt })
restored left content (err e) = (err e, left e)

abbrev pub restore_body :
    (Error → BodyReader) → Request → Option BodyReader → Result Bytes × Request
restore_body left r none = (ok [], r)
restore_body left r (some b) =
    let (seen, b') = restored left b.content b.ending in (seen, record r { body = some b' })

unfoldable pub read_and_restore_request_body :
    (Error → BodyReader) → Request → Result Bytes × Request
read_and_restore_request_body left r = restore_body left r r.body

restored-ok :
    (left : Error → BodyReader) (content : Bytes) (ending : Result (Unit {0})) (seen : Bytes)
    → (restored left content ending).0 ≡ ok seen
    → (restored left content ending).1 ≡ record { content = content; ending = ending }
restored-ok left content (ok u) seen h = refl
restored-ok left content (err e) seen h = cc

restore_body-ok :
    (left : Error → BodyReader) (r : Request) (body : Option BodyReader) (seen : Bytes)
    → body ≡ r.body
    → (restore_body left r body).0 ≡ ok seen
    → (restore_body left r body).1 ≡ r
restore_body-ok left r none seen e h = refl
restore_body-ok left r (some b) seen e h =
    ap (λ x. record r { body = x }) (ap some (restored-ok left b.content b.ending seen h) ∙ e)

-- A body that can be read to its end is there for the next reader as it was.
pub read_and_restore-ok :
    (left : Error → BodyReader) (r : Request) (seen : Bytes)
    → (read_and_restore_request_body left r).0 ≡ ok seen
    → (read_and_restore_request_body left r).1 ≡ r
unfolding read_and_restore_request_body
read_and_restore-ok left r seen h = restore_body-ok left r r.body seen refl h
