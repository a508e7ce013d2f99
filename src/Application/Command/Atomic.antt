-- ===== src/Application/Command/Atomic.antt =====
-- A command changes the order and the outbox together, or nothing at all.
use code_base_ddd.Prelude.{◌≡◌, inl, inr, arith}
use code_base_ddd.Error.{Error}
use code_base_ddd.Effect.{err, Result-cases}
use code_base_ddd.Uuid.{UuidCodec}
use code_base_ddd.Domain.Values.{parse_order_id, parse_customer_id}
use code_base_ddd.Domain.Order.{confirm}
use code_base_ddd.Persistence.Database.{Db, Gorm}
use code_base_ddd.Persistence.Transaction.{execute, execute-err}
use code_base_ddd.Application.Command.{
  CreateOrder, AddItemToOrder, ConfirmOrder, Draws, create_order, add_item_to_order, confirm_order,
  create_order_tx, change_order_tx, add_item_method,
}

module _ (codec : UuidCodec) (g : Gorm) (d : Draws) where
  -- A CreateOrder that returns an error has changed nothing in the database.
  pub create_order-err :
      (cmd : CreateOrder) (s s' : Db) (e : Error)
      → create_order codec g d cmd s ≡ (err e, s')
      → s' ≡ s
  unfolding create_order
  create_order-err cmd s s' e h = elim (Result-cases (parse_customer_id codec cmd.customer_id)) [
    | inl (id, parsed) ↦
        let ran : execute g (create_order_tx codec g d id) s ≡ (err e, s') = ground arith in
        execute-err g (create_order_tx codec g d id) s ran
    | inr (x, parsed) ↦ ground arith
  ]

  -- An AddItemToOrder that returns an error has changed nothing in the database.
  pub add_item_to_order-err :
      (cmd : AddItemToOrder) (s s' : Db) (e : Error)
      → add_item_to_order codec g d cmd s ≡ (err e, s')
      → s' ≡ s
  unfolding add_item_to_order
  add_item_to_order-err cmd s s' e h = elim (Result-cases (parse_order_id codec cmd.order_id)) [
    | inl (id, parsed) ↦
        let tx = change_order_tx codec g d id (add_item_method codec g d cmd) in
        let ran : execute g tx s ≡ (err e, s') = ground arith in execute-err g tx s ran
    | inr (x, parsed) ↦ ground arith
  ]

  -- A ConfirmOrder that returns an error has changed nothing in the database.
  pub confirm_order-err :
      (cmd : ConfirmOrder) (s s' : Db) (e : Error)
      → confirm_order codec g d cmd s ≡ (err e, s')
      → s' ≡ s
  unfolding confirm_order
  confirm_order-err cmd s s' e h = elim (Result-cases (parse_order_id codec cmd.order_id)) [
    | inl (id, parsed) ↦
        let tx = change_order_tx codec g d id (confirm codec d.now d.event_time) in
        let ran : execute g tx s ≡ (err e, s') = ground arith in execute-err g tx s ran
    | inr (x, parsed) ↦ ground arith
  ]
