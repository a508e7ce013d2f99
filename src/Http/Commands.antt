-- ===== src/Http/Commands.antt =====
-- What the response to a command says of the database.
use mathlib.Core.Path.{subst}
use code_base_ddd.Prelude.{
  List-cases, [], sym, ℕ, ◌≤◌, ◌≡◌, refl, ◌∙◌, inl, inr, String, List, arith,
}
use code_base_ddd.Effect.{ok, Outcome-cases, Result-cases}
use code_base_ddd.Uuid.{UuidCodec}
use code_base_ddd.Persistence.Database.{Db, Gorm}
use code_base_ddd.Application.Command.{
  CreateOrder, Draws, AddItemToOrder, create_order, add_item_to_order, confirm_order,
}
use code_base_ddd.Application.Command.Atomic.{
  create_order-err, add_item_to_order-err, confirm_order-err,
}
use code_base_ddd.Application.Command.Created.{CreatedBy, create_order-ok}
use code_base_ddd.Http.Errors.{map_error-status}
use code_base_ddd.Http.{
  CreateOrderRequest, Response, created_body, write_json, map_and_write_error, AddItemRequest,
  Requests, validate, handle_create_order, handle_add_item, handle_confirm_order,
}

module _ (codec : UuidCodec) (g : Gorm) (trace : String) (requests : Requests) (d : Draws) where
  -- A request to create an order that is answered with an error's status has changed nothing.
  pub handle_create_order-error :
      (bytes : List ℕ) (s : Db)
      → 400 ≤ (handle_create_order codec g trace requests d bytes s).0.status
      → (handle_create_order codec g trace requests d bytes s).1 ≡ s
  unfolding handle_create_order
  handle_create_order-error bytes s h = elim (Result-cases (requests.decode_create bytes)) [
    | inr (e, bad) ↦ rw (handle_create_order, bad) refl
    | inl (req, decoded) ↦ elim (List-cases (validate requests.check_create req)) [
      | inr (v, vs, invalid) ↦ rw (handle_create_order, decoded, invalid) refl
      | inl valid ↦
          elim (Outcome-cases
            (create_order codec g d (record { customer_id = req.customer_id }) s)) [
              | inl (id, t, ran) ↦ absurd (ground arith)
              | inr (e, t, ran) ↦
                  let kept =
                    create_order-err codec g d (record { customer_id = req.customer_id }) s t e
                      ran in
                  let final : (handle_create_order codec g trace requests d bytes s).1 ≡ t =
                    ground arith in
                  final ∙ kept
            ]
    ]
  ]

  abbrev add_item_command : String → AddItemRequest → AddItemToOrder
  add_item_command order_id req = record {
    order_id = order_id;
    product_id = req.product_id;
    product_name = req.product_name;
    quantity = req.quantity;
    unit_price = req.unit_price;
  }

  -- A request to add an item that is answered with an error's status has changed nothing.
  pub handle_add_item-error :
      (order_id : String) (bytes : List ℕ) (s : Db)
      → 400 ≤ (handle_add_item codec g trace requests d order_id bytes s).0.status
      → (handle_add_item codec g trace requests d order_id bytes s).1 ≡ s
  unfolding handle_add_item
  handle_add_item-error order_id bytes s h = elim (Result-cases (requests.decode_add_item bytes)) [
    | inr (e, bad) ↦ rw (handle_add_item, bad) refl
    | inl (req, decoded) ↦ elim (List-cases (validate requests.check_add_item req)) [
      | inr (v, vs, invalid) ↦ rw (handle_add_item, decoded, invalid) refl
      | inl valid ↦
          elim (Outcome-cases (add_item_to_order codec g d (add_item_command order_id req) s)) [
            | inl (x, t, ran) ↦ absurd (ground arith)
            | inr (e, t, ran) ↦
                let kept =
                  add_item_to_order-err codec g d (add_item_command order_id req) s t e ran in
                let final : (handle_add_item codec g trace requests d order_id bytes s).1 ≡ t =
                  ground arith in
                final ∙ kept
          ]
    ]
  ]

  -- A request to confirm an order that is answered with an error's status has changed nothing.
  pub handle_confirm_order-error :
      (order_id : String) (s : Db)
      → 400 ≤ (handle_confirm_order codec g trace requests d order_id s).0.status
      → (handle_confirm_order codec g trace requests d order_id s).1 ≡ s
  unfolding handle_confirm_order
  handle_confirm_order-error order_id s h =
      elim (Outcome-cases (confirm_order codec g d (record { order_id = order_id }) s)) [
        | inl (x, t, ran) ↦ absurd (ground arith)
        | inr (e, t, ran) ↦
            let kept = confirm_order-err codec g d (record { order_id = order_id }) s t e ran in
            let final : (handle_confirm_order codec g trace requests d order_id s).1 ≡ t =
              ground arith in
            final ∙ kept
      ]

  -- What a response with status 201 to a request to create an order says: the body was decoded and
  -- passed the validation, the response has the order's identifier, and the order was created for
  -- the customer in the body.
  abbrev pub HasCreated : List ℕ → Db → Response → Db → Type 0
  HasCreated bytes s response s' =
      (req : CreateOrderRequest) × (text : String) × (requests.decode_create bytes ≡ ok req)
      × (validate requests.check_create req ≡ [])
      × (response ≡ write_json 201 (created_body text))
      × CreatedBy codec g d (record { customer_id = req.customer_id }) text s s'

  -- A request to create an order that is answered with status 201 had a body that was decoded and
  -- passed the validation, the response has the identifier that was drawn, and the outbox has the
  -- order's OrderCreated, with the body's customer, beside what it had.
  pub handle_create_order-created :
      (bytes : List ℕ) (s : Db)
      → (handle_create_order codec g trace requests d bytes s).0.status ≡ 201
      → HasCreated bytes s
          (handle_create_order codec g trace requests d bytes s).0
          (handle_create_order codec g trace requests d bytes s).1
  unfolding handle_create_order map_and_write_error
  handle_create_order-created bytes s h = elim (Result-cases (requests.decode_create bytes)) [
    | inr (e, bad) ↦ absurd (ground arith)
    | inl (req, decoded) ↦ elim (List-cases (validate requests.check_create req)) [
      | inr (v, vs, invalid) ↦ absurd (ground arith)
      | inl valid ↦
          let cmd : CreateOrder = record { customer_id = req.customer_id } in
          elim (Outcome-cases (create_order codec g d cmd s)) [
            | inr (e, t, ran) ↦ let high = map_error-status e in absurd (ground (arith, high))
            | inl (id, t, ran) ↦
                let whole : handle_create_order codec g trace requests d bytes s
                    ≡ (write_json 201 (created_body id), t) =
                  ground arith in
                subst (λ p. HasCreated bytes s p.0 p.1) (sym whole)
                  (req, id, decoded, valid, refl, create_order-ok codec g d cmd id s t ran)
          ]
    ]
  ]
