-- ===== src/Uuid.antt =====
-- The library google/uuid, as the program uses it: identifiers are compared, parsed and printed.
use code_base_ddd.Prelude.{ℕ, String, ◌≡◌}
use code_base_ddd.Effect.{Result, ok}

-- `uuid.UUID`, the sixteen bytes read as one number; `uuid.Nil` is 0.
abbrev pub Uuid : Type 0
Uuid = ℕ

abbrev pub nil_uuid : Uuid
nil_uuid = 0

-- `uuid.Parse` and `String`. What a UUID prints parses back to it.
pub record UuidCodec : Type 0 where
  pub parse : String → Result Uuid
  -- The identifier that `uuid.Parse` returns beside an error.
  pub parse_leaves : String → Uuid
  pub to_string : Uuid → String
  pub parse-to_string : (u : Uuid) → parse (to_string u) ≡ ok u
