-- ===== src/Domain/Order/Methods.antt =====
-- Every branch of `AddItem` and `Confirm`, and sequences of method calls on one order.
use code_base_ddd.Prelude.{ℕ, ◌<◌, String, ◌≡◌, ◌≢◌, ◌↔◌, List, [], ◌∷◌, arith, eq_iff}
use code_base_ddd.Effect.{ok, err, Effect}
use code_base_ddd.Error.{Error}
use code_base_ddd.Int64.{modulus, half}
use code_base_ddd.Uuid.{Uuid, UuidCodec}
use code_base_ddd.Domain.Values.{Time, Money, status_draft}
use code_base_ddd.Domain.Order.{Order, add_item, confirm}

-- A call of a method that changes an order, with its arguments.
pub data Method : Type 0 where
  call_add_item : Uuid → Time → Time → String → String → ℕ → Money → Method
  call_confirm : Time → Time → Method

-- The numbers given are patterns of 64-bit integers.
abbrev pub FitsWords : Method → Type 0
FitsWords (call_add_item _ _ _ _ _ quantity price) = (quantity < modulus) × (price.amount < modulus)
FitsWords (call_confirm _ _) = Unit

module _ (codec : UuidCodec) where
  abbrev pub call : Method → Effect Order (Unit {0})
  call (call_add_item id now at product name quantity price) =
      add_item codec id now at product name quantity price
  call (call_confirm now at) = confirm codec now at

  abbrev pub run : List Method → Order → Order
  run [] o = o
  run (m ∷ ms) o = run ms (call m o).1

  -- A method that returns an error has changed nothing.
  pub call_error_unchanged :
      (m : Method) (o : Order) {e : Error} → (call m o).0 ≡ err e → (call m o).1 ≡ o
  unfolding add_item confirm
  call_error_unchanged (call_add_item id now at product name quantity price) o h = ground arith
  call_error_unchanged (call_confirm now at) o h = ground arith

  -- `AddItem` succeeds exactly on a draft, with a quantity and a price above zero.
  pub add_item-ok_iff :
      (id : Uuid) (now at : Time) (product name : String) (quantity : ℕ) (price : Money) (o : Order)
      → quantity < modulus
      → price.amount < modulus
      → ((add_item codec id now at product name quantity price o).0 ≡ ok tt) ↔ (
          (o.status ≡ status_draft)
          × ((0 < quantity) × (quantity < half))
          × ((0 < price.amount) × (price.amount < half)))
  unfolding add_item
  add_item-ok_iff id now at product name quantity price o hq hp =
      ground (arith, eq_iff o.status status_draft)

  -- `Confirm` succeeds exactly on a draft that has an item.
  pub confirm-ok_iff :
      (now at : Time) (o : Order)
      → ((confirm codec now at o).0 ≡ ok tt) ↔ ((o.status ≡ status_draft) × (o.items ≢ []))
  unfolding confirm
  confirm-ok_iff now at o = ground (arith, eq_iff o.status status_draft)
