-- ===== src/Examples/Commands.antt =====
-- The theorems about the command handlers at concrete inputs.
use code_base_ddd.Prelude.{◌+◌, ◌≡◌, refl, arith, ◌≢◌, [], ◌∷◌, Perm}
use code_base_ddd.Effect.{ok}
use code_base_ddd.Domain.Values.{
  OrderId, CustomerId, status_draft, status_confirmed, parse_order_id, parse_customer_id,
  reconstruct_order_item,
}
use code_base_ddd.Domain.Events.{DomainEvent, order_confirmed}
use code_base_ddd.Domain.Order.{Order, new_order, confirm, total_amount, take_events}
use code_base_ddd.Persistence.Database.{Db}
use code_base_ddd.Persistence.Orders.Reload.{Agrees}
use code_base_ddd.Persistence.Orders.{save, save_order, replace_items, find_by_id}
use code_base_ddd.Persistence.Mapper.{to_order_model, to_order_item_models, to_domain_order}
use code_base_ddd.Persistence.Outbox.{outbox_models, append}
use code_base_ddd.Persistence.Transaction.{execute}
use code_base_ddd.Application.Command.{
  CreateOrder, Draws, AddItemToOrder, ConfirmOrder, create_order, create_order_tx, confirm_order,
  change_order_tx, persist,
}
use code_base_ddd.Persistence.Orders.Shelves.{shelves}
use code_base_ddd.Application.Command.Keeps.{confirmation as confirmation_of, run_command}
use code_base_ddd.Application.Command.Others.{IsKeyed, run_command-others}
use code_base_ddd.Application.Command.Created.{
  created_order, create_order-find_by_id, create_order-confirm_order,
}
use code_base_ddd.Application.Command.Commit.{confirmed_event, confirm_order-ok}
use code_base_ddd.Examples.Memory.{strokes, memory_db}
use code_base_ddd.Examples.Orders.{draft, empty_db, stored_db}

abbrev pub draws : Draws
draws = record {
  entity_id = 40;
  now = 200;
  event_time = 201;
  outbox_ids = λ i. 50 + i;
  outbox_clock = λ i. 210 + i;
}

abbrev confirmation : DomainEvent
confirmation =
    order_confirmed
      (record { order_id = strokes.to_string 7; total_amount = 750; occurred_at = 201 })

-- The quantity is zero.
abbrev no_pens : AddItemToOrder
no_pens = record {
  order_id = strokes.to_string 7;
  product_id = "p1";
  product_name = "pen";
  quantity = 0;
  unit_price = 250;
}

abbrev pub command : ConfirmOrder
command = record { order_id = strokes.to_string 7 }

abbrev after : Db
after = (confirm_order strokes memory_db draws command stored_db).1

confirm_order-ok_example :
    (id : OrderId) × (l : Order) × (saved : Order) × (middle : Db) × (parse_order_id strokes
        command.order_id
      ≡ ok id)
    × (find_by_id memory_db id stored_db ≡ (ok l, stored_db))
    × ((l.status ≡ status_draft) × (l.items ≢ []))
    × (save memory_db (record l { status = status_confirmed; updated_at = 200 }) stored_db
        ≡ (ok saved, middle))
    × ((after.orders ≡ middle.orders) × (after.order_items ≡ middle.order_items))
    × Perm after.outbox_events (confirmed_event strokes memory_db draws l ∷ [])
unfolding confirm_order parse_order_id change_order_tx confirm execute find_by_id persist save
    save_order replace_items append outbox_models to_order_model to_order_item_models total_amount
    take_events reconstruct_order_item to_domain_order
confirm_order-ok_example = confirm_order-ok strokes memory_db draws command stored_db after refl

abbrev creation : CreateOrder
creation = record { customer_id = strokes.to_string 5 }

abbrev fresh_db : Db
fresh_db = (create_order strokes memory_db draws creation empty_db).1

-- The order of `fresh_db`, as it is loaded.
abbrev fresh_order : Order
fresh_order = created_order strokes memory_db draws (record { value = 5 })

create_order-find_by_id_example :
    (c : CustomerId) × (parse_customer_id strokes creation.customer_id ≡ ok c)
    × Agrees (created_order strokes memory_db draws c) fresh_order
    × (fresh_order.events ≡ [])
unfolding create_order parse_customer_id create_order_tx execute new_order persist take_events save
    save_order replace_items to_order_model to_order_item_models append outbox_models find_by_id
    to_domain_order
create_order-find_by_id_example =
    create_order-find_by_id strokes memory_db draws creation (strokes.to_string 40) fresh_order
      empty_db fresh_db fresh_db (λ c. refl) refl refl

create_order-confirm_order_example :
    confirm_order strokes memory_db draws (record { order_id = strokes.to_string 40 }) fresh_db
    ≢ (ok tt, fresh_db)
unfolding create_order parse_customer_id create_order_tx execute new_order persist take_events save
    save_order replace_items to_order_model to_order_item_models append outbox_models
create_order-confirm_order_example =
    create_order-confirm_order strokes memory_db draws draws creation (strokes.to_string 40)
      empty_db fresh_db fresh_db (λ c. refl) refl

-- Beside the stored order there is another one.
abbrev two_orders : Db
unfolding to_order_model
two_orders = record stored_db {
  orders = record (to_order_model draft) { id = 9; version = 3 } ∷ stored_db.orders;
}

two_orders-IsKeyed : IsKeyed two_orders
unfolding to_order_model
two_orders-IsKeyed id = ground arith

run_command-others_example :
    shelves (run_command strokes memory_db draws (confirmation_of command) two_orders) 9
    ≡ shelves two_orders 9
unfolding parse_order_id
run_command-others_example =
    run_command-others memory_db strokes draws 9 (confirmation_of command) two_orders
      two_orders-IsKeyed (λ id parsed same. ground arith)
