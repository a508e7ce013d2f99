-- ===== src/Observability/Values.antt =====
-- The values of log fields, and what becomes of them on the way to OpenTelemetry: `otelKeyValue` of
-- internal/infrastructure/observability/logs.go.
use code_base_ddd.Prelude.{
  ℕ, ◌+◌, ◌-◌, ◌*◌, ◌^◌, ◌≡◌, refl, arith, String, Bool, List, [], ◌∷◌, length, ltb, if◌then◌else◌,
}
use code_base_ddd.Int64.{modulus}

-- What an `interface{}` holds. An integer is the pattern of its width in bits; a float is that of its
-- 32 or 64 bits; the rest is the text that fmt.Sprint gives.
mutual
  pub data Value : Type 0 where
    text : String → Value
    boolean : Bool → Value
    signed : (width pattern : ℕ) → Value
    unsigned : (width pattern : ℕ) → Value
    float32 : ℕ → Value
    float64 : ℕ → Value
    bytes : List ℕ → Value
    error : String → Value
    strings : List String → Value
    object : Members → Value
    other : String → Value

  -- A `map[string]interface{}`, its entries in an order in which a loop may meet them.
  pub data Members : Type 0 where
    end : Members
    member : String → Value → Members → Members

mutual
  pub data OtelValue : Type 0 where
    string_value : String → OtelValue
    bool_value : Bool → OtelValue
    int64_value : ℕ → OtelValue
    float64_value : ℕ → OtelValue
    bytes_value : List ℕ → OtelValue
    slice_value : OtelValues → OtelValue
    map_value : KeyValues → OtelValue

  pub data OtelValues : Type 0 where
    nil : OtelValues
    cons : OtelValue → OtelValues → OtelValues

  pub data KeyValues : Type 0 where
    none_left : KeyValues
    key_value : String → OtelValue → KeyValues → KeyValues

-- `int64(v)` of a signed integer of the width: the sign is extended.
abbrev pub sign_extend : ℕ → ℕ → ℕ
sign_extend w n = if ltb (2 * n) (2 ^ w) then n else n + modulus - 2 ^ w

unfoldable pub string_values : List String → OtelValues
string_values [] = nil
string_values (s ∷ v) = cons (string_value s) (string_values v)

-- `widen` is the conversion of a float32 to a float64.
module _ (widen : ℕ → ℕ) where
  unfoldable mutual
    -- otelKeyValue, less the key, which it passes on
    pub otel_value : Value → OtelValue
    otel_value (text s) = string_value s
    otel_value (boolean b) = bool_value b
    otel_value (signed w n) = int64_value (sign_extend w n)
    otel_value (unsigned w n) = int64_value n
    otel_value (float32 x) = float64_value (widen x)
    otel_value (float64 x) = float64_value x
    otel_value (bytes v) = bytes_value v
    otel_value (error e) = string_value e
    otel_value (strings v) = slice_value (string_values v)
    otel_value (object m) = map_value (otel_key_values m)
    otel_value (other s) = string_value s

    -- the loops over the entries of a map
    pub otel_key_values : Members → KeyValues
    otel_key_values end = none_left
    otel_key_values (member k v m) = key_value k (otel_value v) (otel_key_values m)

-- The number of values at the leaves of a document, an empty one for a leaf of its own.
unfoldable mutual
  pub leaves : Value → ℕ
  leaves (text s) = 1
  leaves (boolean b) = 1
  leaves (signed w n) = 1
  leaves (unsigned w n) = 1
  leaves (float32 x) = 1
  leaves (float64 x) = 1
  leaves (bytes v) = 1
  leaves (error e) = 1
  leaves (strings v) = length v
  leaves (object m) = member_leaves m
  leaves (other s) = 1

  pub member_leaves : Members → ℕ
  member_leaves end = 0
  member_leaves (member k v m) = leaves v + member_leaves m

unfoldable mutual
  pub otel_leaves : OtelValue → ℕ
  otel_leaves (string_value s) = 1
  otel_leaves (bool_value b) = 1
  otel_leaves (int64_value n) = 1
  otel_leaves (float64_value x) = 1
  otel_leaves (bytes_value v) = 1
  otel_leaves (slice_value v) = slice_leaves v
  otel_leaves (map_value m) = key_value_leaves m

  pub slice_leaves : OtelValues → ℕ
  slice_leaves nil = 0
  slice_leaves (cons x v) = otel_leaves x + slice_leaves v

  pub key_value_leaves : KeyValues → ℕ
  key_value_leaves none_left = 0
  key_value_leaves (key_value k x m) = otel_leaves x + key_value_leaves m

string_values-leaves : (v : List String) → slice_leaves (string_values v) ≡ length v
unfolding string_values otel_leaves leaves
string_values-leaves [] = refl
string_values-leaves (s ∷ v) = omega (arith, string_values-leaves v)

module _ (widen : ℕ → ℕ) where
  mutual
    unfolding otel_value leaves otel_leaves

    -- No value at a leaf is lost or doubled on the way to OpenTelemetry, however deep it lies.
    pub otel_value-leaves : (v : Value) → otel_leaves (otel_value widen v) ≡ leaves v
    otel_value-leaves (text s) = refl
    otel_value-leaves (boolean b) = refl
    otel_value-leaves (signed w n) = refl
    otel_value-leaves (unsigned w n) = refl
    otel_value-leaves (float32 x) = refl
    otel_value-leaves (float64 x) = refl
    otel_value-leaves (bytes v) = refl
    otel_value-leaves (error e) = refl
    otel_value-leaves (strings v) = string_values-leaves v
    otel_value-leaves (object m) = key_values-leaves m
    otel_value-leaves (other s) = refl

    key_values-leaves : (m : Members) → key_value_leaves (otel_key_values widen m) ≡ member_leaves m
    key_values-leaves end = refl
    key_values-leaves (member k v m) = omega (arith, otel_value-leaves v, key_values-leaves m)
