-- ===== src/Examples/Requests.antt =====
-- The theorems about queries and HTTP requests at concrete inputs.
use code_base_ddd.Prelude.{str_eq, if◌then◌else◌, ◌≤◌, ◌≡◌, refl, none, some, [], ◌∷◌, count, arith}
use code_base_ddd.Error.{Error, sentinel, library, wrap, err_no_items}
use code_base_ddd.Effect.{Result, ok, err}
use code_base_ddd.Domain.Values.{parse_order_id, parse_customer_id}
use code_base_ddd.Persistence.ReadModels.{matches, list_orders}
use code_base_ddd.Persistence.Database.{Db}
use code_base_ddd.Application.Command.{Draws, confirm_order, create_order, create_order_tx, persist}
use code_base_ddd.Domain.Order.{new_order, take_events}
use code_base_ddd.Persistence.Orders.{save, save_order, replace_items}
use code_base_ddd.Persistence.Mapper.{to_order_model, to_order_item_models}
use code_base_ddd.Persistence.Outbox.{outbox_models, append}
use code_base_ddd.Persistence.Transaction.{execute}
use code_base_ddd.Application.Query.{
  ListOrders, PaginatedOrdersResponse, list_filter, query_orders, query_orders-ok,
}
use code_base_ddd.Http.Gin.{Bindings}
use code_base_ddd.Http.{
  Params, Requests, Response, map_and_write_error, handle_confirm_order, handle_create_order,
}
use code_base_ddd.Http.Errors.{error_text, map_error}
use code_base_ddd.Http.Commands.{
  HasCreated, handle_confirm_order-error, handle_create_order-created,
}
use code_base_ddd.Config.{Env, Parsers}
use code_base_ddd.Examples.Memory.{strokes, memory_db}
use code_base_ddd.Examples.Orders.{empty_db}
use code_base_ddd.Examples.Projection.{views_db}

-- A page and a size that are out of bounds.
abbrev far_page : ListOrders
far_page = record {
  customer_id = none;
  status = some "DRAFT";
  created_from = none;
  created_to = none;
  sort_by = "status";
  sort_dir = "desc";
  page = 0;
  page_size = 500;
}

abbrev found : Result PaginatedOrdersResponse × Db
found = query_orders strokes memory_db far_page views_db

abbrev page : PaginatedOrdersResponse
page = record {
  orders =
      record {
        id = strokes.to_string 7;
        customer_id = strokes.to_string 5;
        status = "DRAFT";
        total_amount = 0;
        item_count = 0;
        items = [];
        created_at = 100;
        updated_at = 100;
      }
      ∷ [];
  total_count = 1;
  page = 1;
  page_size = 20;
}

query_orders-ok_example :
    (views_db ≡ views_db)
    × (1 ≤ 100)
    × (1 ≡ count (matches (list_filter strokes far_page)) views_db.order_views)
unfolding query_orders list_orders list_filter matches
query_orders-ok_example =
    query_orders-ok strokes memory_db far_page views_db views_db page (omega arith) (omega arith)
      refl

abbrev wrapped : Error
wrapped = wrap "confirm order" (wrap "domain" (sentinel err_no_items))

-- Every body decodes to one request, which the validator accepts.
abbrev requests : Requests
requests = record {
  decode_create = λ bytes. ok (record { customer_id = "no number" });
  decode_add_item = λ bytes.
      ok (record { product_id = "p1"; product_name = "pen"; quantity = 1; unit_price = 250 });
  check_create = λ r. [];
  check_add_item = λ r. [];
}

abbrev draws : Draws
draws = record {
  entity_id = 40;
  now = 200;
  event_time = 201;
  outbox_ids = λ i. 50;
  outbox_clock = λ i. 210;
}

handle_confirm_order-error_example :
    (handle_confirm_order strokes memory_db "t" requests draws "no number" empty_db).1 ≡ empty_db
unfolding handle_confirm_order confirm_order parse_order_id map_and_write_error map_error error_text
handle_confirm_order-error_example =
    handle_confirm_order-error strokes memory_db "t" requests draws "no number" empty_db
      (omega arith)

-- Every body to create an order names the customer 5.
abbrev creations : Requests
creations = record {
  decode_create = λ bytes. ok (record { customer_id = strokes.to_string 5 });
  decode_add_item = requests.decode_add_item;
  check_create = requests.check_create;
  check_add_item = requests.check_add_item;
}

abbrev answered : Response × Db
answered = handle_create_order strokes memory_db "t" creations draws [] empty_db

handle_create_order-created_example :
    HasCreated strokes memory_db "t" creations draws [] empty_db answered.0 answered.1
unfolding handle_create_order create_order parse_customer_id create_order_tx execute new_order
    persist take_events save save_order replace_items to_order_model to_order_item_models append
    outbox_models
handle_create_order-created_example =
    handle_create_order-created strokes memory_db "t" creations draws [] empty_db refl

-- One variable is set, to a port; every other one is empty.
abbrev port_env : Env
port_env key = if str_eq key "SERVER_PORT" then "IIII." else ""

abbrev parsers : Parsers
parsers = record {
  atoi = strokes.parse;
  parse_duration = λ s. err (library "time: invalid duration");
  split_commas = λ s. s ∷ [];
  to_lower = λ s. s;
  print = strokes.to_string;
}

-- gin reads the bodies as `requests` does.
abbrev bindings : Bindings
bindings = record { bind_create = requests.decode_create; bind_add_item = requests.decode_add_item }

-- A list sorted by its totals, upwards.
abbrev by_total : Params
by_total key =
    if str_eq key "sort"
    then some "total_amount"
    else (if str_eq key "dir" then some "asc" else none)
