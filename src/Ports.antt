-- ===== src/Ports.antt =====
-- The data of the ports, internal/application/port.
use code_base_ddd.Prelude.{ℕ, String, List, Option}
use code_base_ddd.Json.{Json}
use code_base_ddd.Uuid.{Uuid}
use code_base_ddd.Domain.Values.{Time}

-- outbox.go
pub record OutboxEvent : Type 0 where
  pub id : Uuid
  pub aggregate_type : String
  pub aggregate_id : String
  pub event_type : String
  pub payload : Json
  pub metadata : Json
  pub occurred_at : Time
  pub available_at : Time
  pub published_at : Option Time
  pub status : String
  pub retry_count : ℕ
  pub last_error : Option String

-- read_model.go
pub record OrderView : Type 0 where
  pub id : Uuid
  pub customer_id : Uuid
  pub status : String
  pub total_amount : ℕ
  pub item_count : ℕ
  pub created_at : Time
  pub updated_at : Time

pub record OrderItemView : Type 0 where
  pub id : Uuid
  pub order_id : Uuid
  pub product_id : String
  pub product_name : String
  pub quantity : ℕ
  pub unit_price : ℕ
  pub total_price : ℕ
  pub created_at : Time

pub record ListOrdersFilter : Type 0 where
  pub customer_id : Option Uuid
  pub status : Option String
  pub created_from : Option Time
  pub created_to : Option Time
  pub sort_by : String
  pub sort_dir : String
  pub page : ℕ
  pub page_size : ℕ

pub record PaginatedOrders : Type 0 where
  pub orders : List OrderView
  pub total_count : ℕ
  pub page : ℕ
  pub page_size : ℕ

-- idempotency.go
pub record IdempotencyResult : Type 0 where
  pub status_code : ℕ
  pub response_body : List ℕ
