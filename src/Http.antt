-- ===== src/Http.antt =====
-- The HTTP interface, internal/interfaces/http: handler.go and request_validator.go (its errors in
-- the child Errors, error_mapper.go). A handler is a function from the request's parts to the
-- response. The handlers here are those for chi, with the list's parameters as either reads them;
-- those for gin are in the child Gin.
pub mod Errors
pub mod Commands
pub mod Middleware
pub mod Gin
use Prim.Native.String
use code_base_ddd.Prelude.{
  ℕ, String, Bool, ◌&&◌, Option, none, some, List, [], ◌∷◌, map, str_eq, if◌then◌else◌,
}
use code_base_ddd.Error.{Error}
use code_base_ddd.Effect.{Result, ok, err, Effect}
use code_base_ddd.Int64.{slt}
use code_base_ddd.Uuid.{UuidCodec}
use code_base_ddd.Persistence.Database.{Db, Gorm}
use code_base_ddd.Application.Command.{
  Draws, AddItemToOrder, create_order, add_item_to_order, confirm_order,
}
use code_base_ddd.Application.Query.{
  OrderResponse, PaginatedOrdersResponse, ListOrders, get_order, query_orders,
}
use code_base_ddd.Http.Errors.{map_error}

pub record CreateOrderRequest : Type 0 where
  pub customer_id : String

pub record AddItemRequest : Type 0 where
  pub product_id : String
  pub product_name : String
  pub quantity : ℕ
  pub unit_price : ℕ

-- An error of go-playground/validator: the field, the tag that failed, the value as text.
pub record FieldError : Type 0 where
  pub field : String
  pub tag : String
  pub value : String

pub record ValidationError : Type 0 where
  pub field : String
  pub tag : String
  pub value : String
  pub message : String

pub data Body : Type 0 where
  error_body : (code msg trace_id : String) → List ValidationError → Body
  created_body : String → Body
  message_body : String → Body
  order_body : OrderResponse → Body
  page_body : PaginatedOrdersResponse → Body

-- The headers are left out, and the line break that an Encoder ends a body with. The trace's
-- identifier in an error's body is "" if it has none.
pub record Response : Type 0 where
  pub status : ℕ
  pub body : Body

abbrev pub write_json : ℕ → Body → Response
write_json status body = record { status = status; body = body }

-- `trace` is the identifier of the trace that the request's context has, or "".
abbrev pub write_error : String → ℕ → String → String → List ValidationError → Response
write_error trace status code msg details = record {
  status = status;
  body = error_body code msg trace details;
}

unfoldable pub map_and_write_error : String → Error → Response
map_and_write_error trace e =
    let (code, status, msg) = map_error e in write_error trace status code msg []

-- `Field '%s' failed on '%s' validation`
abbrev pub validation_error : FieldError → ValidationError
validation_error e = record {
  field = e.field;
  tag = e.tag;
  value = e.value;
  message =
      String.◌++◌ "Field '"
        (String.◌++◌ e.field (String.◌++◌ "' failed on '" (String.◌++◌ e.tag "' validation")));
}

-- RequestValidator.Validate: no errors stand for nil; `check` is the library's Struct.
abbrev pub validate : {A : Type 0} → (A → List FieldError) → A → List ValidationError
validate check a = map validation_error (check a)

-- What the handlers take from encoding/json and from go-playground/validator.
pub record Requests : Type 0 where
  pub decode_create : List ℕ → Result CreateOrderRequest
  pub decode_add_item : List ℕ → Result AddItemRequest
  pub check_create : CreateOrderRequest → List FieldError
  pub check_add_item : AddItemRequest → List FieldError

module _ (codec : UuidCodec) (g : Gorm) (trace : String) where
  module _ (requests : Requests) (d : Draws) where
    -- HandleCreateOrder
    unfoldable pub handle_create_order : List ℕ → Db → Response × Db
    handle_create_order bytes s = elim (requests.decode_create bytes) [
      | err e ↦ (write_error trace 400 "INVALID_REQUEST" "Invalid JSON body" [], s)
      | ok req ↦ elim (validate requests.check_create req) [
        | v ∷ vs ↦
            (write_error trace 400 "VALIDATION_ERROR" "Request validation failed" (v ∷ vs), s)
        | [] ↦
            let (r, s') = create_order codec g d (record { customer_id = req.customer_id }) s in
            elim r [
              | err e ↦ (map_and_write_error trace e, s')
              | ok order_id ↦ (write_json 201 (created_body order_id), s')
            ]
      ]
    ]

    -- HandleAddItem
    unfoldable pub handle_add_item : String → List ℕ → Db → Response × Db
    handle_add_item order_id bytes s = elim (requests.decode_add_item bytes) [
      | err e ↦ (write_error trace 400 "INVALID_REQUEST" "Invalid JSON body" [], s)
      | ok req ↦ elim (validate requests.check_add_item req) [
        | v ∷ vs ↦
            (write_error trace 400 "VALIDATION_ERROR" "Request validation failed" (v ∷ vs), s)
        | [] ↦
            let (r, s') =
              add_item_to_order codec g d
                (record {
                  order_id = order_id;
                  product_id = req.product_id;
                  product_name = req.product_name;
                  quantity = req.quantity;
                  unit_price = req.unit_price;
                })
                s in
            elim r [
              | err e ↦ (map_and_write_error trace e, s')
              | ok _ ↦ (write_json 200 (message_body "item added"), s')
            ]
      ]
    ]

    -- HandleConfirmOrder
    unfoldable pub handle_confirm_order : String → Db → Response × Db
    handle_confirm_order order_id s =
        let (r, s') = confirm_order codec g d (record { order_id = order_id }) s in
        elim r [
          | err e ↦ (map_and_write_error trace e, s')
          | ok _ ↦ (write_json 200 (message_body "order confirmed"), s')
        ]

  -- HandleGetOrder
  unfoldable pub handle_get_order : String → Db → Response × Db
  handle_get_order order_id s =
      let (r, s') = get_order codec g order_id s in
      elim r [
        | err e ↦ (map_and_write_error trace e, s')
        | ok result ↦ (write_json 200 (order_body result), s')
      ]

  -- The end of HandleListOrders.
  unfoldable pub respond_list : ListOrders → Db → Response × Db
  respond_list q s =
      let (r, s') = query_orders codec g q s in
      elim r [
        | err e ↦ (map_and_write_error trace e, s')
        | ok result ↦ (write_json 200 (page_body result), s')
      ]

-- A parameter of the URL, if the request has it.
abbrev pub Params : Type 0
Params = String → Option String

-- `r.URL.Query().Get(key)`, and gin's `Query`
abbrev pub get : Params → String → String
get params key = elim (params key) [ none ↦ "" | some v ↦ v ]

-- gin's `DefaultQuery`
abbrev pub default_query : Params → String → String → String
default_query params key d = elim (params key) [ none ↦ d | some v ↦ v ]

-- A parameter that is not empty.
abbrev pub given : Params → String → Option String
given params key = let v = get params key in if str_eq v "" then none else some v

module _ (atoi : String → Result ℕ) where
  -- A positive number, or the default; `atoi` is strconv.Atoi.
  abbrev pub number_or : ℕ → String → ℕ
  number_or d v =
      if str_eq v "" then d else elim (atoi v) [ err e ↦ d | ok n ↦ if slt 0 n then n else d ]

  abbrev pub list_params : String → String → Params → ListOrders
  list_params sort dir params = record {
    customer_id = given params "customer_id";
    status = given params "status";
    created_from = none;
    created_to = none;
    sort_by = sort;
    sort_dir = dir;
    page = number_or 1 (get params "page");
    page_size = number_or 20 (get params "size");
  }

  -- The query that HandleListOrders reads from the URL.
  unfoldable pub list_query : Params → ListOrders
  list_query params = list_params (get params "sort") (get params "dir") params

  -- The same for GinHandleListOrders.
  unfoldable pub gin_list_query : Params → ListOrders
  gin_list_query params =
      list_params (default_query params "sort" "created_at") (default_query params "dir" "desc")
        params
