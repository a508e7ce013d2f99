-- ===== src/Domain/Values.antt =====
-- Value objects: internal/domain/order/value_objects.go and order_item.go.
use code_base_ddd.Prelude.{ℕ, String, Bool, ◌==◌, str_eq}
use code_base_ddd.Effect.{Result, ok, err}
use code_base_ddd.Error.{wrap}
use code_base_ddd.Int64.{add64, mul64, slt}
use code_base_ddd.Uuid.{Uuid, nil_uuid, UuidCodec}

-- `time.Time`, an instant in whole microseconds, which is what the columns of the database keep of
-- it; the clock's readings are arguments of the operations that take them.
abbrev pub Time : Type 0
Time = ℕ

pub record OrderId : Type 0 where
  pub value : Uuid

pub record CustomerId : Type 0 where
  pub value : Uuid

-- `OrderIDFrom`, `NewCustomerID`
abbrev pub order_id_from : Uuid → OrderId
order_id_from id = record { value = id }

abbrev pub new_customer_id : Uuid → CustomerId
new_customer_id id = record { value = id }

-- `CustomerID.IsZero`, `OrderID.IsZero`
unfoldable pub customer_id_is_zero : CustomerId → Bool
customer_id_is_zero c = c.value == nil_uuid

unfoldable pub order_id_is_zero : OrderId → Bool
order_id_is_zero o = o.value == nil_uuid

module _ (codec : UuidCodec) where
  unfoldable pub parse_order_id : String → Result OrderId
  parse_order_id s = elim (codec.parse s) [
    | ok id ↦ ok (record { value = id })
    | err e ↦ err (wrap "invalid order id" e)
  ]

  unfoldable pub parse_customer_id : String → Result CustomerId
  parse_customer_id s = elim (codec.parse s) [
    | ok id ↦ ok (record { value = id })
    | err e ↦ err (wrap "invalid customer id" e)
  ]

-- Cents, as the pattern of an int64.
pub record Money : Type 0 where
  pub amount : ℕ

abbrev pub new_money : ℕ → Money
new_money cents = record { amount = cents }

unfoldable pub money_add : Money → Money → Money
money_add m other = record { amount = add64 m.amount other.amount }

unfoldable pub money_multiply : Money → ℕ → Money
money_multiply m qty = record { amount = mul64 m.amount qty }

unfoldable pub money_is_positive : Money → Bool
money_is_positive m = slt 0 m.amount

-- `OrderStatus` is a string, and a stored one need not be one of the three constants.
abbrev pub OrderStatus : Type 0
OrderStatus = String

abbrev pub status_draft : OrderStatus
status_draft = "DRAFT"

abbrev pub status_confirmed : OrderStatus
status_confirmed = "CONFIRMED"

abbrev pub status_cancelled : OrderStatus
status_cancelled = "CANCELLED"

unfoldable pub is_modifiable : OrderStatus → Bool
is_modifiable s = str_eq s status_draft

-- A line of an order.
pub record OrderItem : Type 0 where
  pub id : Uuid
  pub product_id : String
  pub product_name : String
  pub quantity : ℕ
  pub unit_price : Money

-- `NewOrderItem`, given the identifier that `uuid.NewV7` drew.
unfoldable pub new_order_item : Uuid → String → String → ℕ → Money → OrderItem
new_order_item id product_id product_name quantity unit_price = record {
  id = id;
  product_id = product_id;
  product_name = product_name;
  quantity = quantity;
  unit_price = unit_price;
}

unfoldable pub reconstruct_order_item : Uuid → String → String → ℕ → ℕ → OrderItem
reconstruct_order_item id product_id product_name quantity unit_price = record {
  id = id;
  product_id = product_id;
  product_name = product_name;
  quantity = quantity;
  unit_price = new_money unit_price;
}

unfoldable pub total_price : OrderItem → Money
unfolding money_multiply
total_price i = money_multiply i.unit_price i.quantity
