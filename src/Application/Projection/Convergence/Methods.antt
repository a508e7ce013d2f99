-- ===== src/Application/Projection/Convergence/Methods.antt =====
-- What the methods of an order do to its events, its cost and its account.
use native.Mathlib.Nat.{mul-pos}
use mathlib.Core.List.{map-append}
use code_base_ddd.Prelude.{
  ℕ, ◌*◌, ◌<◌, ◌≤◌, ◌≡◌, ◌⊎◌, refl, sym, inl, inr, String, false, List, [], ◌∷◌, ◌++◌, map, total,
  total-append, length, arith, Bool-cases, ◌==◌, str_eq, eq_iff,
}
use code_base_ddd.Effect.{ok, ok_injective}
use code_base_ddd.Int64.{modulus, half, slt, slt-zero→}
use code_base_ddd.Uuid.{Uuid, UuidCodec}
use code_base_ddd.Domain.Values.{
  order_id_from, Time, Money, OrderItem, CustomerId, status_draft, status_confirmed, new_order_item,
  customer_id_is_zero,
}
use code_base_ddd.Domain.Events.{
  DomainEvent, order_created, order_item_added, order_confirmed, new_order_created,
  new_order_item_added, new_order_confirmed,
}
use code_base_ddd.Domain.Order.{Order, new_order, add_item, confirm, total_amount}
use code_base_ddd.Domain.Order.Lifecycle.{draft-ne-confirmed}
use code_base_ddd.Domain.Order.Methods.{Method, call_add_item, call_confirm, run}
use code_base_ddd.Domain.Order.Replay.{apply_event, line, account}
use code_base_ddd.Domain.Order.Total as Exact
use code_base_ddd.Application.Projection.{parsed}
use code_base_ddd.Application.Projection.Convergence.Steps.{line_price, lines_total}

-- The sum over the lines with no wrap-around.
abbrev pub cost : Order → ℕ
cost o = total Exact.line_price o.items

module _ (codec : UuidCodec) where
  pub parsed-to_string : (u : Uuid) → parsed codec (codec.to_string u) ≡ u
  parsed-to_string u = rw (parsed, codec.parse-to_string u)

  -- The order after an item was added, and the event.
  abbrev pub item_event : Uuid → Time → String → String → ℕ → Money → Order → DomainEvent
  item_event id at product name quantity price o =
      order_item_added
        (new_order_item_added codec at o.id (new_order_item id product name quantity price))

  pub add_item-cases :
      (id : Uuid) (now at : Time) (product name : String) (quantity : ℕ) (price : Money) (o : Order)
      → quantity < modulus
      → price.amount < modulus
      → let o' = (add_item codec id now at product name quantity price o).1 in
        (o' ≡ o)
        ⊎ ((o.status ≡ status_draft)
            × (0 < quantity)
            × (0 < price.amount)
            × (o' ≡ record o {
              items = o.items ++ new_order_item id product name quantity price ∷ [];
              updated_at = now;
              events = o.events ++ item_event id at product name quantity price o ∷ [];
            }))
  unfolding add_item
  add_item-cases id now at product name quantity price o wide broad =
      elim (Bool-cases (str_eq o.status status_draft)) [
        | inr other ↦ inl (ground arith)
        | inl draft ↦ elim (Bool-cases (slt 0 quantity)) [
          | inr none_of_it ↦ inl (ground arith)
          | inl many ↦ elim (Bool-cases (slt 0 price.amount)) [
            | inr free ↦ inl (ground arith)
            | inl paid ↦ inr (
              ground (arith, eq_iff o.status status_draft),
              (slt-zero→ quantity wide many).0,
              (slt-zero→ price.amount broad paid).0,
              ground arith,
            )
          ]
        ]
      ]

  pub confirm-cases :
      (now at : Time) (o : Order)
      → let o' = (confirm codec now at o).1 in
        (o' ≡ o)
        ⊎ (o' ≡ record o {
          status = status_confirmed;
          updated_at = now;
          events =
              o.events ++ order_confirmed (new_order_confirmed codec at o.id (total_amount o)) ∷ [];
        })
  unfolding confirm total_amount
  confirm-cases now at o = elim (Bool-cases (str_eq o.status status_draft)) [
    | inr other ↦ inl (ground arith)
    | inl draft ↦ elim (Bool-cases (length o.items == 0)) [
      | inl bare ↦ inl (ground arith)
      | inr full ↦ inr (ground arith)
    ]
  ]

  add_item-cost :
      (id : Uuid) (now at : Time) (product name : String) (quantity : ℕ) (price : Money) (o : Order)
      → cost o ≤ cost (add_item codec id now at product name quantity price o).1
  unfolding add_item
  add_item-cost id now at product name quantity price o =
      let ends =
        total-append Exact.line_price o.items
          (new_order_item id product name quantity price ∷ []) in
      ground (arith, ends)

  confirm-cost : (now at : Time) (o : Order) → cost o ≤ cost (confirm codec now at o).1
  unfolding confirm
  confirm-cost now at o = ground arith

  pub run-cost : (ms : List Method) (o : Order) → cost o ≤ cost (run codec ms o)
  run-cost [] o = omega arith
  run-cost (call_add_item id now at product name quantity price ∷ ms) o = omega (
    arith,
    add_item-cost id now at product name quantity price o,
    run-cost ms (add_item codec id now at product name quantity price o).1,
  )
  run-cost (call_confirm now at ∷ ms) o =
      omega (arith, confirm-cost now at o, run-cost ms (confirm codec now at o).1)

  -- The lines of the account cost what the order's do, if nothing wraps around.
  pub lines_total-map :
      (items : List OrderItem)
      → total Exact.line_price items < modulus
      → lines_total (map (line codec) items) ≡ total Exact.line_price items
  lines_total-map [] h = refl
  lines_total-map (i ∷ items) h = omega (arith, lines_total-map items (omega (arith, h)), h)

  pub item-fits :
      (items : List OrderItem) (i : OrderItem)
      → 0 < i.quantity
      → 0 < i.unit_price.amount
      → total Exact.line_price (items ++ i ∷ []) < half
      → (0 < line_price (line codec i))
        × (lines_total (map (line codec) items ++ line codec i ∷ []) < half)
  item-fits items i many paid small =
      let ends = total-append Exact.line_price items (i ∷ []) in
      let shown = total-append line_price (map (line codec) items) (line codec i ∷ []) in
      let before = lines_total-map items (omega (arith, ends, small)) in
      let above : 0 < i.unit_price.amount * i.quantity = mul-pos paid many in
      (omega (arith, ends, small, above), omega (arith, ends, small, shown, before))

  pub item-account :
      (id : Uuid) (now at : Time) (product name : String) (quantity : ℕ) (price : Money) (o : Order)
      → o.status ≡ status_draft
      → apply_event (account codec o) (item_event id at product name quantity price o)
        ≡ account codec (record o {
          items = o.items ++ new_order_item id product name quantity price ∷ [];
          updated_at = now;
          events = o.events ++ item_event id at product name quantity price o ∷ [];
        })
  unfolding new_order_item_added new_order_item
  item-account id now at product name quantity price o draft =
      let item = new_order_item id product name quantity price in
      let apart : str_eq o.status status_confirmed ≡ false =
        ground (arith, draft, draft-ne-confirmed, eq_iff o.status status_confirmed) in
      rw (map-append (line codec) o.items (item ∷ []), apart) refl

  pub confirmed-account :
      (now at : Time) (o : Order)
      → let event = order_confirmed (new_order_confirmed codec at o.id (total_amount o)) in
        apply_event (account codec o) event
        ≡ account codec (record o {
          status = status_confirmed;
          updated_at = now;
          events = o.events ++ event ∷ [];
        })
  unfolding new_order_confirmed total_amount
  confirmed-account now at o = refl

  -- The order that NewOrder makes.
  abbrev pub made : Time → Uuid → Time → CustomerId → Order
  made now id at c = record {
    id = order_id_from id;
    customer_id = c;
    status = status_draft;
    items = [];
    version = 1;
    created_at = now;
    updated_at = now;
    events = order_created (new_order_created codec at (order_id_from id) c) ∷ [];
  }

  pub new_order-made :
      (now : Time) (id : Uuid) (at : Time) (c : CustomerId) {o : Order}
      → new_order codec now id at c ≡ ok o
      → o ≡ made now id at c
  unfolding new_order
  new_order-made now id at c h = elim (Bool-cases (customer_id_is_zero c)) [
    | inl zero_id ↦ cc (rw zero_id at h)
    | inr set_id ↦ sym (ok_injective (rw set_id at h))
  ]
