-- ===== src/Examples/Orders.antt =====
-- The theorems about orders and their repository at concrete inputs.
use code_base_ddd.Prelude.{◌≡◌, refl, ◌↔◌, List, [], ◌∷◌, All, total, arith, ◌<◌, ◌%◌}
use code_base_ddd.Int64.{modulus, half}
use code_base_ddd.Effect.{ok, err}
use code_base_ddd.Error.{sentinel, err_order_not_modifiable}
use code_base_ddd.Domain.Values.{
  OrderItem, CustomerId, status_draft, status_confirmed, new_money, reconstruct_order_item,
}
use code_base_ddd.Domain.Events.{order_created}
use code_base_ddd.Domain.Order.{
  Order, new_order, add_item, confirm, total_amount, increment_version,
}
use code_base_ddd.Domain.Order.Methods.{
  Method, FitsWords, call_add_item, call_confirm, call, run, add_item-ok_iff,
}
use code_base_ddd.Domain.Order.Total.{line_price, total_amount-mod}
use code_base_ddd.Domain.Order.Lifecycle.{IsValid, new_order-run-IsValid, confirm-final}
use code_base_ddd.Domain.Order.Replay.{replay, account, new_order-run-replay}
use code_base_ddd.Persistence.Database.{Db}
use code_base_ddd.Persistence.Mapper.{to_order_model, to_order_item_models}
use code_base_ddd.Persistence.Orders.{save_order, replace_items, save, find_by_id}
use code_base_ddd.Persistence.Orders.Reload.{Agrees, find_by_id-save}
use code_base_ddd.Persistence.Orders.Shelves.{shelf, shelves, update, save-update}
use code_base_ddd.Persistence.Orders.Conflict.{save_overwrites}
use code_base_ddd.Examples.Memory.{strokes, memory_db}

abbrev pub pen : OrderItem
pen = record {
  id = 31;
  product_id = "p1";
  product_name = "pen";
  quantity = 3;
  unit_price = new_money 250;
}

abbrev pub ink : OrderItem
ink = record {
  id = 32;
  product_id = "p2";
  product_name = "ink";
  quantity = 1;
  unit_price = new_money 900;
}

abbrev pub draft : Order
draft = record {
  id = record { value = 7 };
  customer_id = record { value = 5 };
  status = status_draft;
  items = pen ∷ [];
  version = 1;
  created_at = 100;
  updated_at = 100;
  events = [];
}

abbrev pub empty_db : Db
empty_db = record {
  orders = [];
  order_items = [];
  outbox_events = [];
  idempotency_keys = [];
  processed_events = [];
  order_views = [];
  order_item_views = [];
}

abbrev pub steps : List Method
steps =
    call_add_item 31 110 111 "p1" "pen" 3 (new_money 250)
    ∷ call_add_item 32 120 121 "p2" "ink" 0 (new_money 900)
    ∷ call_confirm 130 131
    ∷ call_confirm 140 141
    ∷ []

abbrev pub customer : CustomerId
customer = record { value = 5 }

abbrev pub fresh : Order
fresh = record draft {
  items = [];
  events =
      order_created (record {
        id = strokes.to_string 7;
        customer_id = strokes.to_string 5;
        status = status_draft;
        occurred_at = 101;
      })
      ∷ [];
}

pub fresh-new : new_order strokes 100 7 101 customer ≡ ok fresh
unfolding new_order
fresh-new = refl

pub steps-FitsWords : All FitsWords steps
steps-FitsWords = omega arith

total-draft : (total_amount draft).amount ≡ 750
unfolding total_amount
total-draft = refl

new_order-run-IsValid_example : IsValid (run strokes steps fresh)
new_order-run-IsValid_example =
    new_order-run-IsValid strokes 100 7 101 customer fresh steps fresh-new steps-FitsWords

new_order-run-replay_example :
    replay (run strokes steps fresh).events ≡ account strokes (run strokes steps fresh)
new_order-run-replay_example = new_order-run-replay strokes 100 7 101 customer fresh steps fresh-new

confirm-final_example :
    let o' = (confirm strokes 130 131 draft).1 in
    (run strokes steps o' ≡ o')
    × (call strokes (call_confirm 150 151) (run strokes steps o')
        ≡ (err (sentinel err_order_not_modifiable), o'))
unfolding confirm
confirm-final_example = confirm-final strokes 130 131 draft steps (call_confirm 150 151) refl

add_item-ok_iff_example :
    ((add_item strokes 32 120 121 "p2" "ink" 2 (new_money 900) draft).0 ≡ ok tt)
    ↔ ((draft.status ≡ status_draft) × ((0 < 2) × (2 < half)) × ((0 < 900) × (900 < half)))
add_item-ok_iff_example =
    add_item-ok_iff strokes 32 120 121 "p2" "ink" 2 (new_money 900) draft (omega arith)
      (omega arith)

total_amount-mod_example : (total_amount draft).amount ≡ total line_price draft.items % modulus
total_amount-mod_example = total_amount-mod draft

-- Two processes hold the order at version 1: one confirms it, one adds a line.
abbrev pub confirmed : Order
confirmed = record draft { status = status_confirmed; updated_at = 130 }

abbrev pub extended : Order
extended = record draft { items = pen ∷ ink ∷ []; updated_at = 120 }

abbrev pub stored_db : Db
stored_db = record empty_db {
  orders = to_order_model draft ∷ [];
  order_items = to_order_item_models draft;
}

find_by_id-save_example :
    let s' = (save memory_db extended stored_db).1 in
    let l = record extended { items = pen ∷ ink ∷ [] } in
    Agrees extended l × (l.events ≡ []) × (total_amount l ≡ total_amount extended)
unfolding save save_order replace_items to_order_model to_order_item_models find_by_id total_amount
    reconstruct_order_item increment_version
find_by_id-save_example =
    find_by_id-save memory_db extended (increment_version extended) extended stored_db
      (save memory_db extended stored_db).1 (save memory_db extended stored_db).1 refl refl refl

save-update_example :
    shelves (save memory_db extended stored_db).1
    ≡ update 7 (shelf memory_db extended) (shelves stored_db)
unfolding save save_order replace_items to_order_model to_order_item_models increment_version
save-update_example =
    save-update memory_db extended (increment_version extended) stored_db
      (save memory_db extended stored_db).1 refl refl

-- The confirmation is lost: the order that is read back is a draft again.
save_overwrites_example : Agrees extended extended × (extended.version ≡ confirmed.version)
unfolding save save_order replace_items to_order_model to_order_item_models find_by_id total_amount
    reconstruct_order_item increment_version
save_overwrites_example =
    let s' = (save memory_db confirmed stored_db).1 in
    let s'' = (save memory_db extended s').1 in
    save_overwrites memory_db confirmed (increment_version confirmed) extended
      (increment_version extended) extended stored_db s' s'' s'' refl refl refl refl refl refl
