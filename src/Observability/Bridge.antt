-- ===== src/Observability/Bridge.antt =====
-- The bridge from zap to OpenTelemetry's logs: otelLogCore and spanContextFromFields of
-- internal/infrastructure/observability/logs.go.
use mathlib.Core.List.{append_assoc}
use code_base_ddd.Prelude.{
  ℕ, ◌≡◌, ap, String, Bool, true, false, not, ◌||◌, ◌&&◌, Option, none, some, List, [], ◌++◌,
  str_eq, ◌==◌, if◌then◌else◌,
}
use code_base_ddd.Effect.{Result, ok, err, Effect}
use code_base_ddd.Domain.Values.{Time}
use code_base_ddd.Observability.Values.{
  Members, OtelValue, string_value, int64_value, KeyValues, none_left, key_value, otel_key_values,
}
use code_base_ddd.Observability.Levels.{Level, Severity, zap_level_to_otel_severity}
use code_base_ddd.Observability.Entries.{Entry, Zap, encoded, text_field}

-- trace.SpanContext: it is valid if neither identifier is zero.
pub record SpanContext : Type 0 where
  pub trace_id : ℕ
  pub span_id : ℕ
  pub sampled : Bool

abbrev pub no_span : SpanContext
no_span = record { trace_id = 0; span_id = 0; sampled = false }

abbrev pub is_valid : SpanContext → Bool
is_valid c = not (c.trace_id == 0) && not (c.span_id == 0)

pub record LogRecord : Type 0 where
  pub timestamp : Time
  pub observed : Time
  pub severity : Severity
  pub severity_text : String
  pub body : OtelValue
  pub attrs : KeyValues

-- The readers of hexadecimal identifiers, TraceIDFromHex and SpanIDFromHex.
pub record Hex : Type 0 where
  pub trace_id_from_hex : String → Result ℕ
  pub span_id_from_hex : String → Result ℕ

abbrev pub span_of : Result ℕ → Result ℕ → SpanContext
span_of (ok t) (ok s) = record { trace_id = t; span_id = s; sampled = true }
span_of (ok t) (err x) = no_span
span_of (err x) s = no_span

unfoldable pub span_context_from_fields : Hex → Members → SpanContext
span_context_from_fields hex fields =
    let t = text_field "trace_id" fields in
    let s = text_field "span_id" fields in
    if str_eq t "" || str_eq s ""
    then no_span
    else span_of (hex.trace_id_from_hex t) (hex.span_id_from_hex s)

-- `append(attrs, more...)`
unfoldable pub append_attrs : KeyValues → KeyValues → KeyValues
append_attrs none_left more = more
append_attrs (key_value k v m) more = key_value k v (append_attrs m more)

abbrev pub attrs_if : Bool → KeyValues → KeyValues
attrs_if b m = if b then m else none_left

-- otelLogCore, with the lowest level that it takes
pub record OtelLogCore (F : Type 0) : Type 0 where
  pub takes : Level → Bool
  pub fields : List F

module _ {S F : Type 0} (zap : Zap F) (hex : Hex) (widen : ℕ → ℕ)
    (emit : Option SpanContext → LogRecord → S → S) where
  unfoldable pub otel_enabled : OtelLogCore F → Level → Bool
  otel_enabled c level = c.takes level

  -- With
  unfoldable pub otel_with : OtelLogCore F → List F → OtelLogCore F
  otel_with c fields = record { takes = c.takes; fields = c.fields ++ fields }

  abbrev pub entry_attrs : Entry → KeyValues
  entry_attrs entry =
      append_attrs
        (attrs_if (not (str_eq entry.logger_name ""))
          (key_value "logger" (string_value entry.logger_name) none_left))
        (append_attrs
          (attrs_if entry.caller.defined (
            key_value "code.file.path" (string_value entry.caller.file)
              (key_value "code.line.number" (int64_value entry.caller.line) none_left)))
          (attrs_if (not (str_eq entry.stack ""))
            (key_value "stacktrace" (string_value entry.stack) none_left)))

  -- Write, at a reading of the clock
  unfoldable pub otel_write : Time → OtelLogCore F → Entry → List F → Effect S (Unit {0})
  otel_write now c entry fields s =
      let m = encoded zap (c.fields ++ fields) in
      let span = span_context_from_fields hex m in
      (
        ok tt,
        emit (if is_valid span then some span else none)
            (record {
              timestamp = entry.time;
              observed = now;
              severity = zap_level_to_otel_severity entry.level;
              severity_text = zap.level_text entry.level;
              body = string_value entry.message;
              attrs = append_attrs (otel_key_values widen m) (entry_attrs entry);
            })
            s,
      )

  -- Fields that a core was given by With go out as if they came with each entry.
  pub otel_write-otel_with :
      (now : Time) (c : OtelLogCore F) (entry : Entry) (carried fields : List F) (s : S)
      → otel_write now (otel_with c carried) entry fields s
        ≡ otel_write now c entry (carried ++ fields) s
  unfolding otel_write otel_with
  otel_write-otel_with now c entry carried fields s =
      ap (λ fs. otel_write now (record c { fields = [] }) entry fs s)
        (append_assoc c.fields carried fields)
