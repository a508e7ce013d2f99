-- ===== src/Observability/Endpoint.antt =====
-- The address of a collector: `normalizeOTLPEndpoint` of
-- internal/infrastructure/observability/logs.go.
use Prim.Native.Char.{code}
use Prim.Native.String as Text
use code_base_ddd.Prelude.{ℕ, String, Bool, ◌&&◌, ◌||◌, ◌==◌, leb, str_eq, if◌then◌else◌}
use code_base_ddd.Error.{library, wrap}
use code_base_ddd.Effect.{Result, ok, err}

infixl 5 ◌>>=◌ ◌>>◌
abbrev ◌>>=◌ : {A B : Type 0} → Result A → (A → Result B) → Result B
◌>>=◌ (ok a) f = f a
◌>>=◌ (err e) f = err e

abbrev ◌>>◌ : {A B : Type 0} → Result A → Result B → Result B
m >> k = m >>= λ _. k

-- `fmt.Errorf("prefix: %w", err)`
abbrev pub named : {A : Type 0} → String → Result A → Result A
named prefix (ok a) = ok a
named prefix (err e) = err (wrap prefix e)

-- unicode.IsSpace
abbrev pub is_space : ℕ → Bool
is_space c =
    leb 9 c && leb c 13
    || c == 32
    || c == 133
    || c == 160
    || c == 5760
    || leb 8192 c && leb c 8202
    || c == 8232
    || c == 8233
    || c == 8239
    || c == 8287
    || c == 12288

-- strings.TrimSpace: the spaces before, and those behind
unfoldable pub trim_left : String → String
trim_left Text.[] = ""
trim_left (Text.◌∷◌ c s) =
    let rest = trim_left s in if is_space (code c) then rest else Text.◌∷◌ c s

unfoldable pub trim_right : String → String
trim_right Text.[] = ""
trim_right (Text.◌∷◌ c s) =
    let rest = trim_right s in if is_space (code c) && str_eq rest "" then "" else Text.◌∷◌ c rest

abbrev pub trim_space : String → String
trim_space s = trim_right (trim_left s)

-- strings.Contains: `find` is past the end where there is no occurrence
abbrev pub contains : String → String → Bool
contains s t = leb (Text.find s t) (Text.len s)

-- `url_host` is the host of what url.Parse makes of a text; `quoted` prints with `%q`.
module _ (url_host : String → Result String) (quoted : String → String) where
  abbrev pub host_of : String → Result String
  host_of endpoint = elim (url_host endpoint) [
    | err e ↦ err e
    | ok host ↦
        if str_eq host ""
        then err (library (Text.◌++◌ "missing host in endpoint " (quoted endpoint)))
        else ok host
  ]

  unfoldable pub normalize_otlp_endpoint : String → Result String
  normalize_otlp_endpoint given =
      let endpoint = trim_space given in
      if str_eq endpoint ""
      then ok ""
      else (if contains endpoint "://" then host_of endpoint else ok endpoint)

-- What is called at the end: nothing much, or a provider's Shutdown.
pub data Cleanup : Type 0 where
  noop : Cleanup
  shutdown_provider : Cleanup

module _ (url_host : String → Result String) (quoted : String → String) where
  -- InitTracer (internal/infrastructure/observability/tracing.go): the function that it returns, or
  -- its error beside a nil function. `exporter` and `resource` are OpenTelemetry's.
  unfoldable pub init_tracer :
      (String → Result (Unit {0})) → Result (Unit {0}) → String → Result Cleanup
  init_tracer exporter resource endpoint = if str_eq endpoint "" then ok noop else do
    host ← normalize_otlp_endpoint url_host quoted endpoint
    exporter host
    resource
    ok shutdown_provider

  -- InitSigNozLogger, its function for the end
  unfoldable pub init_sig_noz_logger :
      (String → Result (Unit {0})) → Result (Unit {0}) → String → Result Cleanup
  init_sig_noz_logger exporter resource endpoint = if str_eq endpoint "" then ok noop else do
    host ← named "normalize SigNoz OTLP endpoint" (normalize_otlp_endpoint url_host quoted endpoint)
    named "create OTLP log exporter" (exporter host)
    named "create resource" resource
    ok shutdown_provider
