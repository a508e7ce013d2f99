-- ===== src/Observability/Levels.antt =====
-- The levels of log entries: NewLogger and zapSlogHandler of
-- internal/infrastructure/observability/logger.go, zapLevelToOTelSeverity of logs.go. `Level` is
-- zapcore.Level.
use code_base_ddd.Prelude.{ℕ, String, Bool, List, [], ◌∷◌, ◌++◌, str_eq, if◌then◌else◌}
use code_base_ddd.Effect.{ok, Effect, pure, ◌>>=◌, ◌>>◌}

pub data Level : Type 0 where
  debug : Level
  info : Level
  warn : Level
  error : Level
  dpanic : Level
  panic : Level
  fatal : Level
  other_level : ℕ → Level

-- The levels of log/slog that the adapter knows, and any other.
pub data SlogLevel : Type 0 where
  slog_debug : SlogLevel
  slog_info : SlogLevel
  slog_warn : SlogLevel
  slog_error : SlogLevel
  slog_other : SlogLevel

-- The severities of OpenTelemetry, by their numbers.
abbrev pub Severity : Type 0
Severity = ℕ

-- the switch of NewLogger
unfoldable pub parse_level : String → Level
parse_level level =
    if str_eq level "debug"
    then debug
    else (if str_eq level "warn" then warn else (if str_eq level "error" then error else info))

unfoldable pub zap_level_to_otel_severity : Level → Severity
zap_level_to_otel_severity debug = 5
zap_level_to_otel_severity info = 9
zap_level_to_otel_severity warn = 13
zap_level_to_otel_severity error = 17
zap_level_to_otel_severity dpanic = 17
zap_level_to_otel_severity panic = 17
zap_level_to_otel_severity fatal = 21
zap_level_to_otel_severity (other_level n) = 9

-- the switches of zapSlogHandler's Enabled and Handle
unfoldable pub slog_to_zap : SlogLevel → Level
slog_to_zap slog_debug = debug
slog_to_zap slog_info = info
slog_to_zap slog_warn = warn
slog_to_zap slog_error = error
slog_to_zap slog_other = info

-- A record of log/slog: its level, its text, and its attributes as they are logged.
pub record SlogRecord (A : Type 0) : Type 0 where
  pub level : SlogLevel
  pub message : String
  pub attrs : List A

-- zapSlogHandler: `carried` is what the logger carries along, `log` writes at a level. (Handle,
-- Enabled and WithAttrs)
unfoldable pub slog_handle :
    {S A : Type 0} → (Level → String → List A → S → S) → List A → SlogRecord A → Effect S (Unit {0})
slog_handle log carried r s = (ok tt, log (slog_to_zap r.level) r.message (carried ++ r.attrs) s)

unfoldable pub slog_enabled : (Level → Bool) → SlogLevel → Bool
slog_enabled enabled level = enabled (slog_to_zap level)

unfoldable pub slog_with_attrs : {A : Type 0} → List A → List A → List A
slog_with_attrs carried attrs = carried ++ attrs

-- Where NewLogger writes: to the standard output, and to a file if it has a path.
pub data Sink (F : Type 0) : Type 0 where
  stdout : Sink F
  file : F → Sink F

-- The files of the system: `dir` is filepath.Dir.
pub record Files (S F : Type 0) : Type 0 where
  pub dir : String → String
  pub mkdir_all : String → Effect S (Unit {0})
  pub open_file : String → Effect S F
  pub close : F → Effect S (Unit {0})

pub record NewLogger (S F : Type 0) : Type 0 where
  pub level : Level
  pub sinks : List (Sink F)
  pub close : Effect S (Unit {0})

module _ {S F : Type 0} (files : Files S F) where
  unfoldable pub new_logger : String → String → Effect S (NewLogger S F)
  new_logger level path =
      if str_eq path ""
      then pure (record { level = parse_level level; sinks = stdout ∷ []; close = pure tt })
      else do
        files.mkdir_all (files.dir path)
        f ← files.open_file path
        pure (record {
          level = parse_level level;
          sinks = stdout ∷ file f ∷ [];
          close = files.close f;
        })
