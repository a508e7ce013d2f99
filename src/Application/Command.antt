-- ===== src/Application/Command.antt =====
-- The command handlers: internal/application/command/create_order.go, add_item.go and
-- confirm_order.go.
pub mod Atomic
pub mod Commit
pub mod Keeps
pub mod Created
pub mod Others
use code_base_ddd.Prelude.{ℕ, String, List}
use code_base_ddd.Error.{Error, wrap}
use code_base_ddd.Effect.{Result, ok, err, Effect, pure, fail, lift, with_context, ◌>>=◌, ◌>>◌}
use code_base_ddd.Uuid.{Uuid, UuidCodec}
use code_base_ddd.Domain.Values.{
  Time, OrderId, CustomerId, new_money, parse_order_id, parse_customer_id,
}
use code_base_ddd.Domain.Order.{Order, new_order, add_item, confirm, take_events}
use code_base_ddd.Persistence.Database.{Db, Gorm}
use code_base_ddd.Persistence.Transaction.{execute}
use code_base_ddd.Persistence.Orders.{save, find_by_id}
use code_base_ddd.Persistence.Outbox.{append}

pub record CreateOrder : Type 0 where
  pub customer_id : String

pub record AddItemToOrder : Type 0 where
  pub order_id : String
  pub product_id : String
  pub product_name : String
  pub quantity : ℕ
  pub unit_price : ℕ

pub record ConfirmOrder : Type 0 where
  pub order_id : String

-- What a call draws from `uuid.NewV7` and reads from the clock.
pub record Draws : Type 0 where
  pub entity_id : Uuid
  pub now : Time
  pub event_time : Time
  pub outbox_ids : ℕ → Uuid
  pub outbox_clock : ℕ → Time

module _ (codec : UuidCodec) (g : Gorm) (d : Draws) where
  -- The steps that the three handlers share: collect the events, save the order, append the events.
  unfoldable pub persist : Order → Effect Db (Unit {0})
  persist o =
      let (events, o') = take_events o in
      (do
        with_context "save order" (save g o')
        with_context "append outbox events" (append g d.outbox_ids d.outbox_clock events))

  unfoldable pub create_order_tx : CustomerId → Effect Db String
  create_order_tx customer_id = do
    o ← lift (new_order codec d.now d.entity_id d.event_time customer_id)
    persist o
    pure (codec.to_string o.id.value)

  unfoldable pub create_order : CreateOrder → Effect Db String
  create_order cmd s = elim (parse_customer_id codec cmd.customer_id) [
    | err e ↦ fail (wrap "create order" e) s
    | ok customer_id ↦ execute g (create_order_tx customer_id) s
  ]

  -- A method of the aggregate, and the order after it.
  abbrev pub on_order : Effect Order (Unit {0}) → Order → Effect Db Order
  on_order method o s = let (r, o') = method o in elim r [ ok _ ↦ (ok o', s) | err e ↦ (err e, s) ]

  -- The transaction of `AddItem` and `Confirm`: load, call the method, persist.
  unfoldable pub change_order_tx : OrderId → Effect Order (Unit {0}) → Effect Db (Unit {0})
  change_order_tx id method = do o ← find_by_id g id; o' ← on_order method o; persist o'

  unfoldable pub add_item_method : AddItemToOrder → Effect Order (Unit {0})
  add_item_method cmd =
      add_item codec d.entity_id d.now d.event_time cmd.product_id cmd.product_name cmd.quantity
        (new_money cmd.unit_price)

  unfoldable pub add_item_to_order : AddItemToOrder → Effect Db (Unit {0})
  add_item_to_order cmd s = elim (parse_order_id codec cmd.order_id) [
    | err e ↦ fail (wrap "add item" e) s
    | ok id ↦ execute g (change_order_tx id (add_item_method cmd)) s
  ]

  unfoldable pub confirm_order : ConfirmOrder → Effect Db (Unit {0})
  confirm_order cmd s = elim (parse_order_id codec cmd.order_id) [
    | err e ↦ fail (wrap "confirm order" e) s
    | ok id ↦ execute g (change_order_tx id (confirm codec d.now d.event_time)) s
  ]
