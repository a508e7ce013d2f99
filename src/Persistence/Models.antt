-- ===== src/Persistence/Models.antt =====
-- The rows of the tables: internal/infrastructure/persistence/gorm_models.go and read_models.go.
use code_base_ddd.Prelude.{ℕ, String, Bool, Option, List, ◌==◌, str_eq, ◌&&◌}
use code_base_ddd.Json.{Json}
use code_base_ddd.Uuid.{Uuid}
use code_base_ddd.Domain.Values.{Time}

pub record OrderModel : Type 0 where
  pub id : Uuid
  pub customer_id : Uuid
  pub status : String
  pub total_amount : ℕ
  pub version : ℕ
  pub created_at : Time
  pub updated_at : Time

pub record OrderItemModel : Type 0 where
  pub id : Uuid
  pub order_id : Uuid
  pub product_id : String
  pub product_name : String
  pub quantity : ℕ
  pub unit_price : ℕ
  pub created_at : Time

abbrev pub same_order : OrderModel → OrderModel → Bool
same_order a b = a.id == b.id

abbrev pub same_item : OrderItemModel → OrderItemModel → Bool
same_item a b = a.id == b.id

pub record OutboxEventModel : Type 0 where
  pub id : Uuid
  pub aggregate_type : String
  pub aggregate_id : String
  pub event_type : String
  pub payload : Json
  pub metadata : Json
  pub occurred_at : Time
  pub available_at : Time
  pub published_at : Option Time
  pub status : String
  pub retry_count : ℕ
  pub last_error : Option String

abbrev pub same_outbox_event : OutboxEventModel → OutboxEventModel → Bool
same_outbox_event a b = a.id == b.id

pub record IdempotencyKeyModel : Type 0 where
  pub key : String
  pub response_status : ℕ
  pub response_body : List ℕ
  pub created_at : Time
  pub expires_at : Time

abbrev pub same_idempotency_key : IdempotencyKeyModel → IdempotencyKeyModel → Bool
same_idempotency_key a b = str_eq a.key b.key

pub record ProcessedEventModel : Type 0 where
  pub event_id : Uuid
  pub handler_name : String
  pub processed_at : Time

abbrev pub same_processed : ProcessedEventModel → ProcessedEventModel → Bool
same_processed a b = a.event_id == b.event_id && str_eq a.handler_name b.handler_name

pub record OrderViewModel : Type 0 where
  pub id : Uuid
  pub customer_id : Uuid
  pub status : String
  pub total_amount : ℕ
  pub item_count : ℕ
  pub created_at : Time
  pub updated_at : Time

abbrev pub same_order_view : OrderViewModel → OrderViewModel → Bool
same_order_view a b = a.id == b.id

pub record OrderItemViewModel : Type 0 where
  pub id : Uuid
  pub order_id : Uuid
  pub product_id : String
  pub product_name : String
  pub quantity : ℕ
  pub unit_price : ℕ
  pub total_price : ℕ
  pub created_at : Time

abbrev pub same_item_view : OrderItemViewModel → OrderItemViewModel → Bool
same_item_view a b = a.id == b.id
