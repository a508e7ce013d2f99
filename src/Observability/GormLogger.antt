-- ===== src/Observability/GormLogger.antt =====
-- The logger of GORM's statements: internal/infrastructure/observability/gorm_logger.go.
use code_base_ddd.Prelude.{
  ℕ, ◌≡◌, ◌≢◌, refl, arith, String, Bool, true, false, not, ◌||◌, ◌&&◌, Option, none, some, List,
  [], ◌∷◌, ◌++◌, leb, str_eq, ◌==◌, if◌then◌else◌,
}
use code_base_ddd.Int64.{slt}

-- GORM's levels: Silent, Error, Warn, Info
abbrev pub LogLevel : Type 0
LogLevel = ℕ

abbrev pub silent : LogLevel
silent = 1

abbrev pub error_level : LogLevel
error_level = 2

abbrev pub warn_level : LogLevel
warn_level = 3

abbrev pub info_level : LogLevel
info_level = 4

-- The error of a statement: none, that of a missing record, or another.
pub data SqlError : Type 0 where
  no_error : SqlError
  not_found : SqlError
  failure : String → SqlError

abbrev pub is_error : SqlError → Bool
is_error no_error = false
is_error not_found = true
is_error (failure text) = true

abbrev pub is_not_found : SqlError → Bool
is_not_found no_error = false
is_not_found not_found = true
is_not_found (failure text) = false

pub record GormZapLogger : Type 0 where
  pub log_level : LogLevel
  pub slow_threshold : ℕ
  pub ignore_record_not_found_error : Bool

-- NewGormLogger: 200 ms in nanoseconds
unfoldable pub new_gorm_logger : GormZapLogger
new_gorm_logger = record {
  log_level = warn_level;
  slow_threshold = 200000000;
  ignore_record_not_found_error = true;
}

unfoldable pub log_mode : GormZapLogger → LogLevel → GormZapLogger
log_mode l level = record l { log_level = level }

-- What is known of the statement's request.
pub record Traced : Type 0 where
  pub trace_id : String
  pub span_id : String
  pub correlation_id : String

pub data Field : Type 0 where
  elapsed_ms : ℕ → Field
  trace_id : String → Field
  span_id : String → Field
  correlation_id : String → Field
  error : SqlError → Field
  rows : ℕ → Field
  sql : String → Field
  slow_threshold : ℕ → Field

-- A line of the log: what goes wrong, what is slow, and the rest.
pub data Line : Type 0 where
  error_line : List Field → Line
  warn_line : List Field → Line
  info_line : List Field → Line

-- The fields before the switch; durations are nanoseconds.
unfoldable pub traced_fields : ℕ → Traced → List Field
traced_fields millis r =
    elapsed_ms millis
    ∷ ((if str_eq r.trace_id "" then [] else trace_id r.trace_id ∷ span_id r.span_id ∷ [])
        ++ (if str_eq r.correlation_id "" then [] else correlation_id r.correlation_id ∷ []))

-- Trace; `statement` is what `fc` returns, the text and the number of rows.
unfoldable pub trace :
    GormZapLogger → (elapsed millis : ℕ) → Traced → String × ℕ → SqlError → Option Line
trace l elapsed millis r (text, n) e =
    let fields = traced_fields millis r in
    if leb l.log_level silent
    then none
    else (if is_error e
          && leb error_level l.log_level
          && (not (is_not_found e) || not l.ignore_record_not_found_error)
        then some (error_line (fields ++ error e ∷ rows n ∷ sql text ∷ []))
        else (if slt l.slow_threshold elapsed && leb warn_level l.log_level
            then some
                (warn_line (fields ++ rows n ∷ sql text ∷ slow_threshold l.slow_threshold ∷ []))
            else (if l.log_level == info_level
                then some (info_line (fields ++ rows n ∷ sql text ∷ []))
                else none)))

-- The logger that the program installs, NewGormLogger in the mode Info.
unfoldable pub installed : GormZapLogger
installed = log_mode new_gorm_logger info_level

-- Every failure of a statement, but for a missing record, is logged as an error; nothing else is.
pub trace-error_line :
    (elapsed millis : ℕ) (r : Traced) (statement : String × ℕ) (text : String)
    → trace installed elapsed millis r statement (failure text)
      ≡ some (
          error_line (
            traced_fields millis r
            ++ error (failure text) ∷ rows statement.1 ∷ sql statement.0 ∷ []))
unfolding trace installed log_mode new_gorm_logger
trace-error_line elapsed millis r statement text = refl

-- The logger that the program installs leaves no statement out.
pub trace-none :
    (elapsed millis : ℕ) (r : Traced) (statement : String × ℕ) (e : SqlError)
    → trace installed elapsed millis r statement e ≢ none
unfolding trace installed log_mode new_gorm_logger
trace-none elapsed millis r statement (failure text) h = cc
trace-none elapsed millis r statement no_error h = ground arith
trace-none elapsed millis r statement not_found h = ground arith
