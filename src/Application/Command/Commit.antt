-- ===== src/Application/Command/Commit.antt =====
-- What a command that succeeds has done: the order saved, and its events appended, in one commit.
use mathlib.Core.Path.{subst}
use code_base_ddd.Prelude.{◌≡◌, ◌≢◌, sym, ap, ◌∙◌, [], ◌∷◌, ◌++◌, Perm, inl, inr, arith, eq_iff}
use code_base_ddd.Effect.{Effect, ok, Outcome-cases, Result-cases}
use code_base_ddd.Uuid.{UuidCodec}
use code_base_ddd.Domain.Values.{OrderId, parse_order_id, status_draft, status_confirmed}
use code_base_ddd.Domain.Events.{order_confirmed, new_order_confirmed}
use code_base_ddd.Domain.Order.{Order, confirm, take_events, total_amount}
use code_base_ddd.Persistence.Database.{Db, Gorm}
use code_base_ddd.Persistence.Models.{OutboxEventModel}
use code_base_ddd.Persistence.Transaction.{execute, execute-ok}
use code_base_ddd.Persistence.Orders.{save, find_by_id}
use code_base_ddd.Persistence.Orders.Reload.{save-outbox, find_by_id-unchanged, find_by_id-events}
use code_base_ddd.Persistence.Outbox.{outbox_model, outbox_models, append}
use code_base_ddd.Persistence.Outbox.Append.{append-perm}
use code_base_ddd.Application.Command.{
  AddItemToOrder, ConfirmOrder, Draws, persist, add_item_method, add_item_to_order, confirm_order,
  change_order_tx,
}

-- The order without its pending events, as it is saved.
abbrev pub drained : Order → Order
drained o = record o { events = [] }

module _ (codec : UuidCodec) (g : Gorm) (d : Draws) where
  -- The database after the order was saved and its events were appended.
  pub record Persisted (o : Order) (s s' : Db) : Type 0 where
    pub saved : Order
    pub middle : Db
    pub save_ok : save g (drained o) s ≡ (ok saved, middle)
    pub orders : s'.orders ≡ middle.orders
    pub order_items : s'.order_items ≡ middle.order_items
    pub outbox :
        Perm s'.outbox_events
          (outbox_models d.outbox_ids d.outbox_clock 0 o.events ++ middle.outbox_events)

  pub persist-Persisted :
      (o : Order) (s s' : Db) → persist codec g d o s ≡ (ok tt, s') → Persisted o s s'
  unfolding persist take_events
  persist-Persisted o s s' h = elim (Outcome-cases (save g (drained o) s)) [
    | inl (saved, t, e) ↦ elim (Outcome-cases (append g d.outbox_ids d.outbox_clock o.events t)) [
      | inl (_, u, e') ↦
          let same : u ≡ s' = ground arith in
          let (rows, frame) =
            append-perm g d.outbox_ids d.outbox_clock o.events t s' (rw same at e') in
          record {
            saved = saved;
            middle = t;
            save_ok = e;
            orders = ap (λ x. x.orders) frame;
            order_items = ap (λ x. x.order_items) frame;
            outbox = rows;
          }
      | inr (x, u, e') ↦ absurd (ground arith)
    ]
    | inr (x, t, e) ↦ absurd (ground arith)
  ]

  -- A transaction that changes an order loaded it, called the method, and persisted the result.
  pub record Changed (id : OrderId) (method : Effect Order (Unit {0})) (s s' : Db) : Type 0 where
    pub loaded : Order
    pub result : Order
    pub found : find_by_id g id s ≡ (ok loaded, s)
    pub called : method loaded ≡ (ok tt, result)
    pub persisted : Persisted result s s'

  pub change_order_tx-Changed :
      (id : OrderId) (method : Effect Order (Unit {0})) (s s' : Db)
      → change_order_tx codec g d id method s ≡ (ok tt, s')
      → Changed id method s s'
  unfolding change_order_tx
  change_order_tx-Changed id method s s' h = elim (Outcome-cases (find_by_id g id s)) [
    | inl (l, t, e) ↦
        let same : t ≡ s = ap (λ p. p.1) (sym e) ∙ find_by_id-unchanged g id s in
        elim (Outcome-cases (method l)) [
          | inl (_, o', e') ↦ record {
            loaded = l;
            result = o';
            found = rw same at e;
            called = e';
            persisted = persist-Persisted o' s s' (ground arith);
          }
          | inr (x, o', e') ↦ absurd (ground arith)
        ]
    | inr (x, t, e) ↦ absurd (ground arith)
  ]

  -- The events of the result, appended to an outbox that the save left alone.
  Changed-outbox :
      {id : OrderId} {method : Effect Order (Unit {0})} {s s' : Db} (c : Changed id method s s')
      → Perm s'.outbox_events
          (outbox_models d.outbox_ids d.outbox_clock 0 c.result.events ++ s.outbox_events)
  Changed-outbox {s} c =
      let same =
        save-outbox g (drained c.result) c.persisted.saved s c.persisted.middle
          c.persisted.save_ok in
      rw same at c.persisted.outbox

  pub confirm_order-Changed :
      (cmd : ConfirmOrder) (s s' : Db)
      → confirm_order codec g d cmd s ≡ (ok tt, s')
      → (id : OrderId) × (parse_order_id codec cmd.order_id ≡ ok id)
        × Changed id (confirm codec d.now d.event_time) s s'
  unfolding confirm_order
  confirm_order-Changed cmd s s' h = elim (Result-cases (parse_order_id codec cmd.order_id)) [
    | inl (id, parsed) ↦
        let tx = change_order_tx codec g d id (confirm codec d.now d.event_time) in
        let ran : execute g tx s ≡ (ok tt, s') = ground arith in
        (id, parsed, change_order_tx-Changed id _ s s' (execute-ok g tx s ran))
    | inr (x, parsed) ↦ absurd (ground arith)
  ]

  pub add_item_to_order-Changed :
      (cmd : AddItemToOrder) (s s' : Db)
      → add_item_to_order codec g d cmd s ≡ (ok tt, s')
      → (id : OrderId) × (parse_order_id codec cmd.order_id ≡ ok id)
        × Changed id (add_item_method codec g d cmd) s s'
  unfolding add_item_to_order
  add_item_to_order-Changed cmd s s' h = elim (Result-cases (parse_order_id codec cmd.order_id)) [
    | inl (id, parsed) ↦
        let tx = change_order_tx codec g d id (add_item_method codec g d cmd) in
        let ran : execute g tx s ≡ (ok tt, s') = ground arith in
        (id, parsed, change_order_tx-Changed id _ s s' (execute-ok g tx s ran))
    | inr (x, parsed) ↦ absurd (ground arith)
  ]

  abbrev pub confirmed_event : Order → OutboxEventModel
  confirmed_event l =
      outbox_model (d.outbox_ids 0) (d.outbox_clock 0)
        (order_confirmed (new_order_confirmed codec d.event_time l.id (total_amount l)))

  confirm-result :
      (l o : Order)
      → l.events ≡ []
      → confirm codec d.now d.event_time l ≡ (ok tt, o)
      → (l.status ≡ status_draft)
        × (l.items ≢ [])
        × (o ≡ record l {
          status = status_confirmed;
          updated_at = d.now;
          events =
              order_confirmed (new_order_confirmed codec d.event_time l.id (total_amount l)) ∷ [];
        })
  unfolding confirm
  confirm-result l o none h = ground (arith, eq_iff l.status status_draft)

  -- A ConfirmOrder that succeeds found the order that its text names, a draft with an item; and in
  -- the one commit it saved the order as confirmed and added to the outbox one pending event, the
  -- order's OrderConfirmed with its total.
  pub confirm_order-ok :
      (cmd : ConfirmOrder) (s s' : Db)
      → confirm_order codec g d cmd s ≡ (ok tt, s')
      → (id : OrderId) × (l : Order) × (saved : Order) × (middle : Db) × (parse_order_id codec
            cmd.order_id
          ≡ ok id)
        × (find_by_id g id s ≡ (ok l, s))
        × ((l.status ≡ status_draft) × (l.items ≢ []))
        × (save g (record l { status = status_confirmed; updated_at = d.now }) s
            ≡ (ok saved, middle))
        × ((s'.orders ≡ middle.orders) × (s'.order_items ≡ middle.order_items))
        × Perm s'.outbox_events (confirmed_event l ∷ s.outbox_events)
  unfolding outbox_models
  confirm_order-ok cmd s s' h =
      let (id, parsed, c) = confirm_order-Changed cmd s s' h in
      let none = find_by_id-events g id s c.found in
      let (draft, full, result) = confirm-result c.loaded c.result none c.called in
      let form : drained c.result
          ≡ record c.loaded { status = status_confirmed; updated_at = d.now } =
        ground arith in
      (
        id,
        c.loaded,
        c.persisted.saved,
        c.persisted.middle,
        parsed,
        c.found,
        (draft, full),
        subst (λ o. save g o s ≡ (ok c.persisted.saved, c.persisted.middle)) form
            c.persisted.save_ok,
        (c.persisted.orders, c.persisted.order_items),
        subst
            (λ es.
              Perm s'.outbox_events
                (outbox_models d.outbox_ids d.outbox_clock 0 es ++ s.outbox_events))
            (ap (λ o. o.events) result) (Changed-outbox c),
      )
