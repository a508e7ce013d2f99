-- ===== src/Http/Gin.antt =====
-- The handlers for gin, internal/interfaces/http/handler.go, next to those for chi in the parent.
use mathlib.Core.Logic.{◌⊎◌}
use code_base_ddd.Prelude.{ℕ, ◌≡◌, String, none, some, List, [], ◌∷◌}
use code_base_ddd.Error.{Error}
use code_base_ddd.Effect.{Result, ok, err}
use code_base_ddd.Uuid.{UuidCodec}
use code_base_ddd.Persistence.Database.{Db, Gorm}
use code_base_ddd.Application.Command.{Draws, create_order, add_item_to_order, confirm_order}
use code_base_ddd.Application.Query.{PaginatedOrdersResponse, get_order, query_orders}
use code_base_ddd.Http.{
  CreateOrderRequest, AddItemRequest, Requests, Response, Body, error_body, Params, write_json,
  write_error, map_and_write_error, validate, created_body, message_body, order_body, page_body,
  handle_create_order, handle_add_item, handle_confirm_order, handle_get_order, respond_list,
  list_query, gin_list_query,
}

-- gin's `BindJSON`, on the two types of request.
pub record Bindings : Type 0 where
  pub bind_create : List ℕ → Result CreateOrderRequest
  pub bind_add_item : List ℕ → Result AddItemRequest

-- Two readings that both fail, or give the same.
abbrev pub SameReading : {A : Type 0} → Result A → Result A → Type 0
SameReading {A} r r' =
    ((a : A) × (r ≡ ok a) × (r' ≡ ok a)) ⊎ ((e e' : Error) × (r ≡ err e) × (r' ≡ err e'))

-- An answer without the trace's identifier in the body of an error. (The handlers for gin leave it
-- out if the body cannot be bound or does not pass the validation.)
abbrev untraced_body : Body → Body
untraced_body (error_body code msg trace_id details) = error_body code msg "" details
untraced_body (created_body id) = created_body id
untraced_body (message_body msg) = message_body msg
untraced_body (order_body o) = order_body o
untraced_body (page_body p) = page_body p

abbrev pub untraced : Response × Db → Response × Db
untraced p = (record { status = p.0.status; body = untraced_body p.0.body }, p.1)

-- The end of the handlers of a list.
abbrev respond_page : String → Result PaginatedOrdersResponse × Db → Response × Db
respond_page trace p = elim p.0 [
  | err e ↦ (map_and_write_error trace e, p.1)
  | ok result ↦ (write_json 200 (page_body result), p.1)
]

-- The requests that the routes lead to a handler.
pub data Request : Type 0 where
  post_order : List ℕ → Request
  post_item : String → List ℕ → Request
  post_confirm : String → Request
  get_one : String → Request
  get_list : Params → Request

-- A request for a list has both of the parameters that sort it, or neither.
abbrev pub IsSortedWhole : Request → Type 0
IsSortedWhole (post_order bytes) = Unit
IsSortedWhole (post_item id bytes) = Unit
IsSortedWhole (post_confirm id) = Unit
IsSortedWhole (get_one id) = Unit
IsSortedWhole (get_list params) =
    ((sort dir : String) × (params "sort" ≡ some sort) × (params "dir" ≡ some dir))
    ⊎ ((params "sort" ≡ none) × (params "dir" ≡ none))

module _ (codec : UuidCodec) (g : Gorm) (trace : String) (requests : Requests)
    (atoi : String → Result ℕ) (d : Draws) where
  -- What `RegisterRoutes` calls for a request.
  unfoldable pub serve_chi : Request → Db → Response × Db
  serve_chi (post_order bytes) s = handle_create_order codec g trace requests d bytes s
  serve_chi (post_item id bytes) s = handle_add_item codec g trace requests d id bytes s
  serve_chi (post_confirm id) s = handle_confirm_order codec g trace requests d id s
  serve_chi (get_one id) s = handle_get_order codec g trace id s
  serve_chi (get_list params) s = respond_list codec g trace (list_query atoi params) s

  module _ (bindings : Bindings) where
    -- The log lines of the handlers are left out.
    unfoldable pub gin_handle_create_order : List ℕ → Db → Response × Db
    gin_handle_create_order bytes s = elim (bindings.bind_create bytes) [
      | err e ↦ (write_error "" 400 "INVALID_REQUEST" "Invalid JSON body" [], s)
      | ok req ↦ elim (validate requests.check_create req) [
        | v ∷ vs ↦ (write_error "" 400 "VALIDATION_ERROR" "Request validation failed" (v ∷ vs), s)
        | [] ↦
            let (r, s') = create_order codec g d (record { customer_id = req.customer_id }) s in
            elim r [
              | err e ↦ (map_and_write_error trace e, s')
              | ok order_id ↦ (write_json 201 (created_body order_id), s')
            ]
      ]
    ]

    unfoldable pub gin_handle_add_item : String → List ℕ → Db → Response × Db
    gin_handle_add_item order_id bytes s = elim (bindings.bind_add_item bytes) [
      | err e ↦ (write_error "" 400 "INVALID_REQUEST" "Invalid JSON body" [], s)
      | ok req ↦ elim (validate requests.check_add_item req) [
        | v ∷ vs ↦ (write_error "" 400 "VALIDATION_ERROR" "Request validation failed" (v ∷ vs), s)
        | [] ↦
            let (r, s') =
              add_item_to_order codec g d
                (record {
                  order_id = order_id;
                  product_id = req.product_id;
                  product_name = req.product_name;
                  quantity = req.quantity;
                  unit_price = req.unit_price;
                })
                s in
            elim r [
              | err e ↦ (map_and_write_error trace e, s')
              | ok _ ↦ (write_json 200 (message_body "item added"), s')
            ]
      ]
    ]

    unfoldable pub gin_handle_confirm_order : String → Db → Response × Db
    gin_handle_confirm_order order_id s =
        let (r, s') = confirm_order codec g d (record { order_id = order_id }) s in
        elim r [
          | err e ↦ (map_and_write_error trace e, s')
          | ok _ ↦ (write_json 200 (message_body "order confirmed"), s')
        ]

    unfoldable pub gin_handle_get_order : String → Db → Response × Db
    gin_handle_get_order order_id s =
        let (r, s') = get_order codec g order_id s in
        elim r [
          | err e ↦ (map_and_write_error trace e, s')
          | ok result ↦ (write_json 200 (order_body result), s')
        ]

    unfoldable pub gin_handle_list_orders : Params → Db → Response × Db
    gin_handle_list_orders params s =
        let (r, s') = query_orders codec g (gin_list_query atoi params) s in
        elim r [
          | err e ↦ (map_and_write_error trace e, s')
          | ok result ↦ (write_json 200 (page_body result), s')
        ]

    -- What `RegisterGinRoutes` calls for a request.
    unfoldable pub serve_gin : Request → Db → Response × Db
    serve_gin (post_order bytes) s = gin_handle_create_order bytes s
    serve_gin (post_item id bytes) s = gin_handle_add_item id bytes s
    serve_gin (post_confirm id) s = gin_handle_confirm_order id s
    serve_gin (get_one id) s = gin_handle_get_order id s
    serve_gin (get_list params) s = gin_handle_list_orders params s
