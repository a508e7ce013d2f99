-- ===== src/Json.antt =====
-- JSON documents as the program writes and reads them with encoding/json: a flat object, keys
-- with values, in the order written. (The package is Go's own; bytes are not modelled.)
use code_base_ddd.Prelude.{ℕ, String, List, [], ◌∷◌, Option, none, some, str_eq, if◌then◌else◌}
use code_base_ddd.Effect.{Result, ok, err}
use code_base_ddd.Error.{library}

pub data Value : Type 0 where
  text : String → Value
  number : ℕ → Value
  instant : ℕ → Value

abbrev pub Json : Type 0
Json = List (String × Value)

-- The value of a key, if the object has it.
abbrev pub member : String → Json → Option Value
member k [] = none
member k ((j, v) ∷ o) = if str_eq j k then some v else member k o

-- `Unmarshal` of one field: a missing key leaves the zero value, another type is an error.
abbrev pub text_of : Option Value → Result String
text_of none = ok ""
text_of (some (text s)) = ok s
text_of (some _) = err (library "json: cannot unmarshal into Go value of type string")

abbrev pub number_of : Option Value → Result ℕ
number_of none = ok 0
number_of (some (number n)) = ok n
number_of (some _) = err (library "json: cannot unmarshal into Go value of type int64")

abbrev pub instant_of : Option Value → Result ℕ
instant_of none = ok 0
instant_of (some (instant n)) = ok n
instant_of (some _) = err (library "json: cannot unmarshal into Go value of type time.Time")
