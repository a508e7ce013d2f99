-- ===== src/Application/Command/Created.antt =====
-- What `Handle` of internal/application/command/create_order.go has done when it succeeds, and what
-- the other commands find then.
use code_base_ddd.Prelude.{
  ◌≡◌, ◌≢◌, refl, sym, ap, ◌∙◌, String, true, some, List-cases, count, count-perm, [], ◌∷◌, Perm,
  inl, inr, arith,
}
use code_base_ddd.Effect.{ok, ok_injective, Outcome-cases, Result-cases}
use code_base_ddd.Gorm.{done}
use code_base_ddd.Uuid.{UuidCodec}
use code_base_ddd.Domain.Values.{
  OrderId, CustomerId, order_id_from, parse_order_id, parse_customer_id, status_draft,
}
use code_base_ddd.Domain.Events.{order_created, new_order_created}
use code_base_ddd.Domain.Order.{Order, new_order}
use code_base_ddd.Persistence.Database.{Db, Gorm}
use code_base_ddd.Persistence.Mapper.{to_order_model}
use code_base_ddd.Persistence.Models.{OutboxEventModel}
use code_base_ddd.Persistence.Transaction.{execute, execute-ok}
use code_base_ddd.Persistence.Orders.{find_by_id, has_id, of_order}
use code_base_ddd.Persistence.Orders.Statements.{IsCurrent}
use code_base_ddd.Persistence.Orders.Reload.{Agrees, save-outbox, find_by_id-parts, find_by_id-save}
use code_base_ddd.Persistence.Outbox.{outbox_model, outbox_models}
use code_base_ddd.Application.Command.{
  CreateOrder, Draws, persist, create_order, create_order_tx, confirm_order,
}
use code_base_ddd.Application.Projection.Convergence.Methods.{made, new_order-made}
use code_base_ddd.Application.Command.Commit.{Persisted, persist-Persisted, confirm_order-ok}

module _ (codec : UuidCodec) (g : Gorm) (d : Draws) where
  abbrev pub created_id : OrderId
  created_id = order_id_from d.entity_id

  -- The order as it is saved, and its event as it is appended.
  abbrev pub created_order : CustomerId → Order
  created_order c = record {
    id = created_id;
    customer_id = c;
    status = status_draft;
    items = [];
    version = 1;
    created_at = d.now;
    updated_at = d.now;
    events = [];
  }

  abbrev pub created_event : CustomerId → OutboxEventModel
  created_event c =
      outbox_model (d.outbox_ids 0) (d.outbox_clock 0)
        (order_created (new_order_created codec d.event_time created_id c))

  abbrev pub raised_order : CustomerId → Order
  raised_order c = made codec d.now d.entity_id d.event_time c

  create_order_tx-Persisted :
      (c : CustomerId) (text : String) (s s' : Db)
      → create_order_tx codec g d c s ≡ (ok text, s')
      → (text ≡ codec.to_string d.entity_id) × Persisted codec g d (raised_order c) s s'
  unfolding create_order_tx
  create_order_tx-Persisted c text s s' h =
      elim (Result-cases (new_order codec d.now d.entity_id d.event_time c)) [
        | inr (e, refused) ↦ absurd (ground arith)
        | inl (o, built) ↦
            let form = new_order-made codec d.now d.entity_id d.event_time c built in
            elim (Outcome-cases (persist codec g d o s)) [
              | inr (e, t, lost) ↦ absurd (ground arith)
              | inl (u, t, stored) ↦
                  let said : codec.to_string o.id.value ≡ text = ground arith in
                  let final : t ≡ s' = ground arith in
                  (
                    sym said ∙ ap (λ x. codec.to_string x.id.value) form,
                    persist-Persisted codec g d (raised_order c) s s' (rw (form, final) at stored),
                  )
            ]
      ]

  pub create_order-Persisted :
      (cmd : CreateOrder) (text : String) (s s' : Db)
      → create_order codec g d cmd s ≡ (ok text, s')
      → (c : CustomerId) × (parse_customer_id codec cmd.customer_id ≡ ok c)
        × (text ≡ codec.to_string d.entity_id)
        × Persisted codec g d (raised_order c) s s'
  unfolding create_order
  create_order-Persisted cmd text s s' h =
      elim (Result-cases (parse_customer_id codec cmd.customer_id)) [
        | inr (e, bad) ↦ absurd (ground arith)
        | inl (c, parsed) ↦
            let tx = create_order_tx codec g d c in
            let ran : execute g tx s ≡ (ok text, s') = ground arith in
            let (said, kept) = create_order_tx-Persisted c text s s' (execute-ok g tx s ran) in
            (c, parsed, said, kept)
      ]

  -- `FindByID` reads the two tables of orders only.
  find_by_id-frame :
      (id : OrderId) (l : Order) (s s' t : Db)
      → s.orders ≡ t.orders
      → s.order_items ≡ t.order_items
      → find_by_id g id s ≡ (ok l, s')
      → find_by_id g id t ≡ (ok l, t)
  unfolding find_by_id
  find_by_id-frame id l s s' t rows items found =
      let (m, ims, e, e', loaded) = find_by_id-parts g id s found in
      let there : g.orders.first (has_id id.value) t.orders ≡ done (some m) = rw rows at e in
      let read : g.order_items.find (of_order m.id) t.order_items ≡ done ims = rw items at e' in
      ground (arith, loaded)

  -- What a CreateOrder that returned `text` has done: it parsed the customer that the command names,
  -- drew that identifier, and added to the outbox one pending event, the order's OrderCreated.
  abbrev pub CreatedBy : CreateOrder → String → Db → Db → Type 0
  CreatedBy cmd text s s' =
      (c : CustomerId) × (parse_customer_id codec cmd.customer_id ≡ ok c)
      × (text ≡ codec.to_string d.entity_id)
      × Perm s'.outbox_events (created_event c ∷ s.outbox_events)

  pub create_order-ok :
      (cmd : CreateOrder) (text : String) (s s' : Db)
      → create_order codec g d cmd s ≡ (ok text, s')
      → CreatedBy cmd text s s'
  unfolding outbox_models
  create_order-ok cmd text s s' h =
      let (c, parsed, said, kept) = create_order-Persisted cmd text s s' h in
      let same = save-outbox g (created_order c) kept.saved s kept.middle kept.save_ok in
      let outbox : Perm s'.outbox_events (created_event c ∷ s.outbox_events) =
        rw same at kept.outbox in
      (c, parsed, said, outbox)

  -- If a CreateOrder succeeds in a database where no row has the drawn identifier at another version,
  -- and FindByID then reads an order under that identifier, then the order is a draft without items
  -- of the customer that the command names, at version 1, and has no pending events.
  pub create_order-find_by_id :
      (cmd : CreateOrder) (text : String) (l : Order) (s s' s'' : Db)
      → ((c : CustomerId) → IsCurrent (to_order_model (created_order c)) s)
      → create_order codec g d cmd s ≡ (ok text, s')
      → find_by_id g created_id s' ≡ (ok l, s'')
      → (c : CustomerId) × (parse_customer_id codec cmd.customer_id ≡ ok c)
        × Agrees (created_order c) l
        × (l.events ≡ [])
  create_order-find_by_id cmd text l s s' s'' current h found =
      let (c, parsed, said, kept) = create_order-Persisted cmd text s s' h in
      let read : find_by_id g created_id kept.middle ≡ (ok l, kept.middle) =
        find_by_id-frame created_id l s' s'' kept.middle kept.orders kept.order_items found in
      let (agrees, quiet, sum) =
        find_by_id-save g (created_order c) kept.saved l s kept.middle kept.middle (current c)
          kept.save_ok read in
      (c, parsed, agrees, quiet)

  -- After a CreateOrder that succeeded, where no row had the drawn identifier at another version, no
  -- ConfirmOrder of that order which runs next succeeds.
  pub create_order-confirm_order :
      (d' : Draws) (cmd : CreateOrder) (text : String) (s s' s'' : Db)
      → ((c : CustomerId) → IsCurrent (to_order_model (created_order c)) s)
      → create_order codec g d cmd s ≡ (ok text, s')
      → confirm_order codec g d' (record { order_id = text }) s' ≢ (ok tt, s'')
  unfolding parse_order_id
  create_order-confirm_order d' cmd text s s' s'' current h confirmed =
      let (c, parsed, said, outbox) = create_order-ok cmd text s s' h in
      let (id, l, saved, middle, named, found, (draft, full), stored, rows, box) =
        confirm_order-ok codec g d' (record { order_id = text }) s' s'' confirmed in
      let printed : parse_order_id codec text ≡ ok created_id =
        rw (said, parse_order_id, codec.parse-to_string d.entity_id) refl in
      let mine : id ≡ created_id = ok_injective (sym named ∙ printed) in
      let loaded : find_by_id g created_id s' ≡ (ok l, s') = rw mine at found in
      let (c', parsed', agrees, quiet) =
        create_order-find_by_id cmd text l s s' s' current h loaded in
      let size = count-perm (λ i. true) agrees.items in
      elim (List-cases l.items) [
        | inl empty ↦ full empty
        | inr (i, items, e) ↦ absurd (omega (arith, size, ap (count (λ i. true)) e))
      ]
