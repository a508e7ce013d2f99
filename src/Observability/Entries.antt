-- ===== src/Observability/Entries.antt =====
-- A log entry and its fields, as zap hands them to a core.
use code_base_ddd.Prelude.{
  ℕ, String, Bool, Option, none, some, List, [], ◌∷◌, str_eq, if◌then◌else◌,
}
use code_base_ddd.Domain.Values.{Time}
use code_base_ddd.Observability.Values.{Value, text, Members, end, member}
use code_base_ddd.Observability.Levels.{Level}

-- zapcore.EntryCaller; `shown` is what its String gives.
pub record Caller : Type 0 where
  pub defined : Bool
  pub file : String
  pub line : ℕ
  pub shown : String

pub record Entry : Type 0 where
  pub time : Time
  pub level : Level
  pub message : String
  pub logger_name : String
  pub caller : Caller
  pub stack : String

-- zap's fields `F`: what `AddTo` makes of the map, and `Level.String`.
pub record Zap (F : Type 0) : Type 0 where
  pub add_to : F → Members → Members
  pub level_text : Level → String

-- The map of a new encoder after the loop `field.AddTo(encoder)`.
unfoldable pub add_all : {F : Type 0} → Zap F → List F → Members → Members
add_all zap [] m = m
add_all zap (f ∷ fs) m = add_all zap fs (zap.add_to f m)

abbrev pub encoded : {F : Type 0} → Zap F → List F → Members
encoded zap fs = add_all zap fs end

-- `fields[key]`
unfoldable pub field : String → Members → Option Value
field k end = none
field k (member j v m) = let rest = field k m in if str_eq j k then some v else rest

-- `s, _ := v.(string)` of a value that may be missing
abbrev pub as_text : Option Value → String
as_text none = ""
as_text (some (text s)) = s
as_text (some _) = ""

abbrev pub text_field : String → Members → String
text_field k m = as_text (field k m)
