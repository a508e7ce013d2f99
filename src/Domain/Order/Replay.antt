-- ===== src/Domain/Order/Replay.antt =====
-- The events that an order raises are a complete account of it: replaying them gives the order.
use code_base_ddd.Prelude.{
  ℕ, String, ◌≡◌, refl, List, [], ◌∷◌, ◌++◌, map, foldl, Option, none, some, arith, eq_iff, str_eq,
  Bool-cases, inl, inr, length, ◌==◌, if◌then◌else◌,
}
use mathlib.Core.List.{map-append}
use code_base_ddd.Effect.{ok, ok_injective}
use code_base_ddd.Uuid.{Uuid, UuidCodec}
use code_base_ddd.Domain.Values.{
  Time, CustomerId, OrderItem, customer_id_is_zero, status_draft, status_confirmed, new_order_item,
}
use code_base_ddd.Domain.Events.{
  DomainEvent, order_created, order_item_added, order_confirmed, new_order_item_added,
}
use code_base_ddd.Domain.Order.{Order, new_order, add_item, confirm, total_amount}
use code_base_ddd.Domain.Order.Lifecycle.{draft-ne-confirmed}
use code_base_ddd.Domain.Order.Methods.{Method, call_add_item, call_confirm, call, run}

-- A line as the events tell it.
pub record Line : Type 0 where
  pub item_id : String
  pub product_id : String
  pub product_name : String
  pub quantity : ℕ
  pub unit_price : ℕ

-- What a reader of the events knows of an order: `charged` is the total that it was confirmed at.
pub record Account : Type 0 where
  pub order_id : String
  pub customer_id : String
  pub status : String
  pub lines : List Line
  pub charged : Option ℕ

abbrev pub blank : Account
blank = record { order_id = ""; customer_id = ""; status = ""; lines = []; charged = none }

abbrev pub apply_event : Account → DomainEvent → Account
apply_event a (order_created e) = record {
  order_id = e.id;
  customer_id = e.customer_id;
  status = e.status;
  lines = [];
  charged = none;
}
apply_event a (order_item_added e) = record a {
  lines =
      a.lines
      ++ record {
        item_id = e.item_id;
        product_id = e.product_id;
        product_name = e.product_name;
        quantity = e.quantity;
        unit_price = e.unit_price;
      }
        ∷ [];
}
apply_event a (order_confirmed e) = record a {
  status = status_confirmed;
  charged = some e.total_amount;
}

abbrev pub replay : List DomainEvent → Account
replay = foldl apply_event blank

foldl-snoc :
    (a : Account) (es : List DomainEvent) (e : DomainEvent)
    → foldl apply_event a (es ++ e ∷ []) ≡ apply_event (foldl apply_event a es) e
foldl-snoc a [] e = refl
foldl-snoc a (x ∷ es) e = foldl-snoc (apply_event a x) es e

module _ (codec : UuidCodec) where
  abbrev pub line : OrderItem → Line
  line i = record {
    item_id = codec.to_string i.id;
    product_id = i.product_id;
    product_name = i.product_name;
    quantity = i.quantity;
    unit_price = i.unit_price.amount;
  }

  abbrev pub charged : Order → Option ℕ
  charged o = if str_eq o.status status_confirmed then some (total_amount o).amount else none

  -- The same account, read from the order itself.
  abbrev pub account : Order → Account
  account o = record {
    order_id = codec.to_string o.id.value;
    customer_id = codec.to_string o.customer_id.value;
    status = o.status;
    lines = map line o.items;
    charged = charged o;
  }

  new_order-replay :
      (now : Time) (id : Uuid) (at : Time) (c : CustomerId) {o : Order}
      → new_order codec now id at c ≡ ok o
      → replay o.events ≡ account o
  unfolding new_order
  new_order-replay now id at c h = elim (Bool-cases (customer_id_is_zero c)) [
    | inl zero_id ↦ cc (rw zero_id at h)
    | inr set_id ↦ rw (← ok_injective (rw set_id at h)) refl
  ]

  call-replay :
      (m : Method) (o : Order)
      → replay o.events ≡ account o
      → replay (call codec m o).1.events ≡ account (call codec m o).1
  unfolding add_item confirm
  call-replay (call_add_item id now at product name quantity price) o h =
      let item = new_order_item id product name quantity price in
      ground (
        arith,
        draft-ne-confirmed,
        eq_iff o.status status_draft,
        eq_iff o.status status_confirmed,
        foldl-snoc blank o.events (order_item_added (new_order_item_added codec at o.id item)),
        map-append line o.items (item ∷ []),
      )
  call-replay (call_confirm now at) o h = elim (Bool-cases (str_eq o.status status_draft)) [
    | inl draft ↦ elim (Bool-cases (length o.items == 0)) [
      | inl bare ↦ rw (draft, bare) h
      | inr full ↦ rw (draft, full, foldl-snoc, h)
    ]
    | inr other ↦ rw other h
  ]

  run-replay :
      (ms : List Method) (o : Order)
      → replay o.events ≡ account o
      → replay (run codec ms o).events ≡ account (run codec ms o)
  run-replay [] o h = h
  run-replay (m ∷ ms) o h = run-replay ms (call codec m o).1 (call-replay m o h)

  -- For every order that `NewOrder` made and any calls of its methods changed, replaying the
  -- collected events, oldest first, gives the order's identifiers, status and lines in their
  -- order, and the total charged if and only if it is confirmed.
  pub new_order-run-replay :
      (now : Time) (id : Uuid) (at : Time) (c : CustomerId) (o : Order) (ms : List Method)
      → new_order codec now id at c ≡ ok o
      → replay (run codec ms o).events ≡ account (run codec ms o)
  new_order-run-replay now id at c o ms h = run-replay ms o (new_order-replay now id at c h)
