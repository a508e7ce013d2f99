-- ===== src/Domain/Order/Lifecycle.antt =====
-- The life of an order: from `NewOrder` through any calls of its methods.
use code_base_ddd.Prelude.{◌<◌, ◌≡◌, refl, ◌≢◌, ◌⊎◌, List, [], ◌∷◌, ◌++◌, All, arith, eq_iff}
use code_base_ddd.Effect.{ok, err}
use code_base_ddd.Error.{sentinel, err_order_not_modifiable}
use code_base_ddd.Int64.{half}
use code_base_ddd.Uuid.{Uuid, nil_uuid, UuidCodec}
use code_base_ddd.Domain.Values.{
  Time, CustomerId, OrderItem, status_draft, status_confirmed, new_order_item,
}
use code_base_ddd.Domain.Order.{Order, new_order, add_item, confirm}
use code_base_ddd.Domain.Order.Methods.{Method, call_add_item, call_confirm, FitsWords, call, run}

-- A quantity and a price above zero, as int64.
abbrev pub IsPositiveItem : OrderItem → Type 0
IsPositiveItem i =
    ((0 < i.quantity) × (i.quantity < half))
    × ((0 < i.unit_price.amount) × (i.unit_price.amount < half))

pub record IsValid (o : Order) : Type 0 where
  pub customer_set : o.customer_id.value ≢ nil_uuid
  pub status_known : (o.status ≡ status_draft) ⊎ (o.status ≡ status_confirmed)
  pub confirmed_has_items : o.status ≡ status_confirmed → o.items ≢ []
  pub items_positive : All IsPositiveItem o.items

pub All-append {ℓ} :
    {A : Type 0} (P : A → Type ℓ) (xs ys : List A) → All P xs → All P ys → All P (xs ++ ys)
All-append P [] ys h k = k
All-append P (x ∷ xs) ys h k = (h.0, All-append P xs ys h.1 k)

append-ne-nil : {A : Type 0} (xs : List A) (x : A) → xs ++ x ∷ [] ≢ []
append-ne-nil [] x e = cc
append-ne-nil (y ∷ xs) x e = cc

pub draft-ne-confirmed : status_draft ≢ status_confirmed
draft-ne-confirmed = ground (arith, eq_iff status_draft status_confirmed)

module _ (codec : UuidCodec) where
  new_order-IsValid :
      (now : Time) (id : Uuid) (at : Time) (c : CustomerId) {o : Order}
      → new_order codec now id at c ≡ ok o
      → IsValid o
  unfolding new_order
  new_order-IsValid now id at c h = ground (arith, draft-ne-confirmed)

  pub call-IsValid : (m : Method) (o : Order) → FitsWords m → IsValid o → IsValid (call codec m o).1
  unfolding add_item confirm
  call-IsValid (call_add_item id now at product name quantity price) o w v =
      let item = new_order_item id product name quantity price in
      ground (
        arith,
        draft-ne-confirmed,
        eq_iff o.status status_draft,
        All-append IsPositiveItem o.items (item ∷ []) v.items_positive,
        append-ne-nil o.items item,
      )
  call-IsValid (call_confirm now at) o w v = ground (arith, eq_iff o.status status_draft)

  pub run-IsValid :
      (ms : List Method) (o : Order) → All FitsWords ms → IsValid o → IsValid (run codec ms o)
  run-IsValid [] o w v = v
  run-IsValid (m ∷ ms) o w v = run-IsValid ms (call codec m o).1 w.1 (call-IsValid m o w.0 v)

  -- Every order that `NewOrder` made and that `AddItem` and `Confirm` changed, in any order and
  -- with any 64-bit arguments, has a customer, is a draft or confirmed, has an item if it is
  -- confirmed, and holds only lines with a quantity and a price above zero.
  pub new_order-run-IsValid :
      (now : Time) (id : Uuid) (at : Time) (c : CustomerId) (o : Order) (ms : List Method)
      → new_order codec now id at c ≡ ok o
      → All FitsWords ms
      → IsValid (run codec ms o)
  new_order-run-IsValid now id at c o ms h w = run-IsValid ms o w (new_order-IsValid now id at c h)

  call_confirmed :
      (m : Method) (o : Order)
      → o.status ≡ status_confirmed
      → call codec m o ≡ (err (sentinel err_order_not_modifiable), o)
  unfolding add_item confirm
  call_confirmed (call_add_item id now at product name quantity price) o h =
      ground (arith, draft-ne-confirmed, eq_iff o.status status_draft)
  call_confirmed (call_confirm now at) o h =
      ground (arith, draft-ne-confirmed, eq_iff o.status status_draft)

  run_confirmed : (ms : List Method) (o : Order) → o.status ≡ status_confirmed → run codec ms o ≡ o
  run_confirmed [] o h = refl
  run_confirmed (m ∷ ms) o h = rw (call_confirmed m o h) (run_confirmed ms o h)

  confirm-confirmed :
      (now at : Time) (o : Order)
      → (confirm codec now at o).0 ≡ ok tt
      → (confirm codec now at o).1.status ≡ status_confirmed
  unfolding confirm
  confirm-confirmed now at o h = ground arith

  -- Confirmation is final: after a `Confirm` that succeeds, no sequence of calls changes the order
  -- again, and each further call returns ErrOrderNotModifiable.
  pub confirm-final :
      (now at : Time) (o : Order) (ms : List Method) (m : Method)
      → (confirm codec now at o).0 ≡ ok tt
      → let o' = (confirm codec now at o).1 in
        (run codec ms o' ≡ o')
        × (call codec m (run codec ms o') ≡ (err (sentinel err_order_not_modifiable), o'))
  confirm-final now at o ms m h =
      let o' = (confirm codec now at o).1 in
      let settled : o'.status ≡ status_confirmed = confirm-confirmed now at o h in
      (run_confirmed ms o' settled, rw (run_confirmed ms o' settled) (call_confirmed m o' settled))
