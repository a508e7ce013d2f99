-- ===== src/Domain/Order.antt =====
-- The aggregate root: internal/domain/order/aggregate.go. A method on `*Order` returns its error
-- or result with the order after the call. Identifiers that `uuid.NewV7` draws and readings of
-- the clock are arguments, in the order in which the code takes them.
pub mod Total
pub mod Methods
pub mod Lifecycle
pub mod Replay
use code_base_ddd.Prelude.{ℕ, String, not, List, [], ◌∷◌, ◌++◌, length, ◌==◌, if◌then◌else◌}
use code_base_ddd.Effect.{Result, ok, err, Effect}
use code_base_ddd.Error.{
  sentinel, err_order_not_modifiable, err_no_items, err_invalid_quantity, err_invalid_price,
  err_invalid_customer_id,
}
use code_base_ddd.Int64.{add64, slt}
use code_base_ddd.Uuid.{Uuid, UuidCodec}
use code_base_ddd.Domain.Values.{
  Time, OrderId, CustomerId, Money, OrderStatus, OrderItem, order_id_from, new_customer_id,
  customer_id_is_zero, new_money, money_add, money_is_positive, is_modifiable, status_draft,
  status_confirmed, new_order_item, total_price,
}
use code_base_ddd.Domain.Events.{
  DomainEvent, order_created, order_item_added, order_confirmed, new_order_created,
  new_order_item_added, new_order_confirmed,
}

pub record Order : Type 0 where
  pub id : OrderId
  pub customer_id : CustomerId
  pub status : OrderStatus
  pub items : List OrderItem
  pub version : ℕ
  pub created_at : Time
  pub updated_at : Time
  pub events : List DomainEvent

unfoldable pub raise : DomainEvent → Order → Order
raise event o = record o { events = o.events ++ event ∷ [] }

-- The loop of `TotalAmount`.
unfoldable pub total_from : Money → List OrderItem → Money
unfolding money_add total_price
total_from total [] = total
total_from total (item ∷ items) = total_from (money_add total (total_price item)) items

unfoldable pub total_amount : Order → Money
unfolding total_from
total_amount o = total_from (new_money 0) o.items

unfoldable pub reconstruct_order : Uuid → Uuid → String → ℕ → Time → Time → List OrderItem → Order
reconstruct_order id customer_id status version created_at updated_at items = record {
  id = order_id_from id;
  customer_id = new_customer_id customer_id;
  status = status;
  items = items;
  version = version;
  created_at = created_at;
  updated_at = updated_at;
  events = [];
}

unfoldable pub increment_version : Order → Order
increment_version o = record o { version = add64 o.version 1 }

-- `Events`: the collected events, which are cleared.
unfoldable pub take_events : Order → List DomainEvent × Order
take_events o = (o.events, record o { events = [] })

module _ (codec : UuidCodec) where
  unfoldable pub new_order : Time → Uuid → Time → CustomerId → Result Order
  unfolding customer_id_is_zero raise new_order_created
  new_order now id event_time customer_id =
      if customer_id_is_zero customer_id
      then err (sentinel err_invalid_customer_id)
      else (let o : Order = record {
        id = order_id_from id;
        customer_id = customer_id;
        status = status_draft;
        items = [];
        version = 1;
        created_at = now;
        updated_at = now;
        events = [];
      } in
          ok (raise (order_created (new_order_created codec event_time o.id o.customer_id)) o))

  unfoldable pub add_item :
      Uuid → Time → Time → String → String → ℕ → Money → Effect Order (Unit {0})
  unfolding is_modifiable money_is_positive new_order_item raise new_order_item_added
  add_item item_id now event_time product_id product_name quantity unit_price o =
      if not (is_modifiable o.status)
      then (err (sentinel err_order_not_modifiable), o)
      else (if not (slt 0 quantity)
          then (err (sentinel err_invalid_quantity), o)
          else (if not (money_is_positive unit_price)
              then (err (sentinel err_invalid_price), o)
              else (let item = new_order_item item_id product_id product_name quantity unit_price in
                  let o' : Order = record o { items = o.items ++ item ∷ []; updated_at = now } in
                  (
                    ok tt,
                    raise (order_item_added (new_order_item_added codec event_time o'.id item)) o',
                  ))))

  unfoldable pub confirm : Time → Time → Effect Order (Unit {0})
  unfolding is_modifiable raise total_amount new_order_confirmed
  confirm now event_time o =
      if not (is_modifiable o.status)
      then (err (sentinel err_order_not_modifiable), o)
      else (if length o.items == 0
          then (err (sentinel err_no_items), o)
          else (let o' : Order = record o { status = status_confirmed; updated_at = now } in
              (
                ok tt,
                raise
                    (order_confirmed (new_order_confirmed codec event_time o'.id (total_amount o')))
                    o',
              )))
