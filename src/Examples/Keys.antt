-- ===== src/Examples/Keys.antt =====
-- The theorem about the keys of requests at a concrete input.
use code_base_ddd.Prelude.{◌+◌, ltb, if◌then◌else◌, ◌≡◌, refl, none, some, [], ◌∷◌, arith}
use code_base_ddd.Ports.{IdempotencyResult}
use code_base_ddd.Persistence.Database.{Db}
use code_base_ddd.Persistence.Keys.{check, store}
use code_base_ddd.Persistence.Keys.Stored.{check-store}
use code_base_ddd.Examples.Memory.{memory_db}
use code_base_ddd.Examples.Orders.{empty_db}

-- A result is stored under the key, and has not expired.
abbrev old_db : Db
old_db = record empty_db {
  idempotency_keys =
      record {
        key = "k";
        response_status = 409;
        response_body = 123 ∷ 125 ∷ [];
        created_at = 90;
        expires_at = 400;
      }
      ∷ [];
}

abbrev created : IdempotencyResult
created = record { status_code = 201; response_body = 123 ∷ 34 ∷ 97 ∷ 34 ∷ 58 ∷ 49 ∷ 125 ∷ [] }

-- The body gets a space after its colon.
abbrev read_back : IdempotencyResult
read_back = record created { response_body = 123 ∷ 34 ∷ 97 ∷ 34 ∷ 58 ∷ 32 ∷ 49 ∷ 125 ∷ [] }

abbrev new_db : Db
new_db = (store memory_db 300 100 101 "k" created old_db).1

check-store_example : some read_back ≡ (if ltb 150 (101 + 300) then some read_back else none)
unfolding store check
check-store_example =
    check-store memory_db 300 100 101 "k" created 150 old_db new_db new_db (some read_back)
      (omega arith) (λ e. cc) (omega arith) (omega arith) refl refl
