-- ===== src/Application/Command/Keeps.antt =====
-- What the command handlers leave alone, whether they succeed or fail.
use code_base_ddd.Prelude.{◌≡◌, inl, inr, List, arith}
use code_base_ddd.Effect.{
  Result, Effect, pure, lift, with_context, Result-cases, Outcome-cases, ◌>>=◌, ◌>>◌,
}
use code_base_ddd.Effect.Preserves.{
  Preserves, pure-Preserves, >>=-Preserves, >>-Preserves, with_context-Preserves,
}
use code_base_ddd.Uuid.{UuidCodec}
use code_base_ddd.Domain.Values.{OrderId, CustomerId, parse_order_id, parse_customer_id}
use code_base_ddd.Domain.Events.{DomainEvent}
use code_base_ddd.Domain.Order.{Order, new_order, confirm, take_events}
use code_base_ddd.Persistence.Database.{Db, Gorm, put_orders, put_order_items}
use code_base_ddd.Persistence.Orders.{save, find_by_id}
use code_base_ddd.Persistence.Outbox.{append}
use code_base_ddd.Persistence.Keeps.{KeptBy, execute-Preserves}
use code_base_ddd.Persistence.Keeps.Stores.{find_by_id-Preserves, save-Preserves}
use code_base_ddd.Application.Command.{
  CreateOrder, AddItemToOrder, ConfirmOrder, Draws, persist, create_order, create_order_tx,
  add_item_to_order, add_item_method, confirm_order, change_order_tx, on_order,
}

-- A request that one of the three handlers serves.
pub data Command : Type 0 where
  create : CreateOrder → Command
  add : AddItemToOrder → Command
  confirmation : ConfirmOrder → Command

-- Dropping the value that a call returns.
abbrev pub forget : {A : Type 0} → Effect Db A → Db → Db
forget m s = (m s).1

-- The database after the handler that serves the command.
unfoldable pub run_command : UuidCodec → Gorm → Draws → Command → Db → Db
run_command codec g d (create cmd) = forget (create_order codec g d cmd)
run_command codec g d (add cmd) = forget (add_item_to_order codec g d cmd)
run_command codec g d (confirmation cmd) = forget (confirm_order codec g d cmd)

module _ (codec : UuidCodec) (g : Gorm) (d : Draws) (P : Db → Type 0) (orders : KeptBy P put_orders)
    (items : KeptBy P put_order_items)
    (events : (es : List DomainEvent) → Preserves P (append g d.outbox_ids d.outbox_clock es)) where
  persist-Preserves : (o : Order) → Preserves P (persist codec g d o)
  unfolding persist
  persist-Preserves o =
      let (es, o') = take_events o in
      >>-Preserves P (with_context "save order" (save g o'))
        (with_context "append outbox events" (append g d.outbox_ids d.outbox_clock es))
        (with_context-Preserves P "save order" (save g o') (save-Preserves g P o' orders items))
        (with_context-Preserves P "append outbox events" (append g d.outbox_ids d.outbox_clock es)
          (events es))

  create_order_tx-Preserves : (id : CustomerId) → Preserves P (create_order_tx codec g d id)
  unfolding create_order_tx
  create_order_tx-Preserves id =
      let made : Result Order = new_order codec d.now d.entity_id d.event_time id in
      >>=-Preserves P (lift made) (λ o. persist codec g d o >> pure (codec.to_string o.id.value))
        (λ s h. h)
        (λ o.
          >>-Preserves P (persist codec g d o) (pure (codec.to_string o.id.value))
            (persist-Preserves o) (pure-Preserves P (codec.to_string o.id.value)))

  on_order-Preserves :
      (method : Effect Order (Unit {0})) (o : Order) → Preserves P (on_order codec g d method o)
  on_order-Preserves method o s h = rw same h
    where
      same : (on_order codec g d method o s).1 ≡ s
      same = elim (Outcome-cases (method o)) [
        | inl (x, t, e) ↦ ground arith
        | inr (x, t, e) ↦ ground arith
      ]

  change_order_tx-Preserves :
      (id : OrderId) (method : Effect Order (Unit {0}))
      → Preserves P (change_order_tx codec g d id method)
  unfolding change_order_tx
  change_order_tx-Preserves id method =
      >>=-Preserves P (find_by_id g id)
        (λ o. on_order codec g d method o >>= λ o'. persist codec g d o')
        (find_by_id-Preserves g P id)
        (λ o.
          >>=-Preserves P (on_order codec g d method o) (λ o'. persist codec g d o')
            (on_order-Preserves method o) (λ o'. persist-Preserves o'))

  -- A command keeps every property that writes to the orders and their items keep, and that
  -- appending to the outbox keeps.
  pub run_command-Preserves : (c : Command) (s : Db) → P s → P (run_command codec g d c s)
  unfolding run_command create_order add_item_to_order confirm_order
  run_command-Preserves (create cmd) s h =
      elim (Result-cases (parse_customer_id codec cmd.customer_id)) [
        | inl (id, e) ↦
            rw (create_order, e)
              (execute-Preserves P g (create_order_tx codec g d id) (create_order_tx-Preserves id) s
                h)
        | inr (x, e) ↦ rw (create_order, e) h
      ]
  run_command-Preserves (add cmd) s h = elim (Result-cases (parse_order_id codec cmd.order_id)) [
    | inl (id, e) ↦
        let tx = change_order_tx codec g d id (add_item_method codec g d cmd) in
        rw (add_item_to_order, e)
          (execute-Preserves P g tx (change_order_tx-Preserves id (add_item_method codec g d cmd)) s
            h)
    | inr (x, e) ↦ rw (add_item_to_order, e) h
  ]
  run_command-Preserves (confirmation cmd) s h =
      elim (Result-cases (parse_order_id codec cmd.order_id)) [
        | inl (id, e) ↦
            let tx = change_order_tx codec g d id (confirm codec d.now d.event_time) in
            rw (confirm_order, e)
              (execute-Preserves P g tx
                (change_order_tx-Preserves id (confirm codec d.now d.event_time)) s h)
        | inr (x, e) ↦ rw (confirm_order, e) h
      ]
