-- ===== src/Persistence/Orders/Shelves.antt =====
-- The tables of orders as a map from the identifier of an order to its rows, whose order is
-- forgotten: what `Save` of internal/infrastructure/persistence/order_repository.go does to that.
use mathlib.Core.Quot.{sound}
use mathlib.Mathlib.Data.Multiset.Defs.{Multiset, of_list}
use mathlib.Core.Path.{subst}
use mathlib.Core.List.{append-nil}
use code_base_ddd.Prelude.{
  ◌≡◌, refl, sym, ap₂, ◌∙◌, inl, inr, true, false, List, [], ◌∷◌, ◌++◌, Perm, select, select-perm,
  reject, fun_ext, arith, ◌==◌, Bool-cases, if◌then◌else◌,
}
use code_base_ddd.Effect.{ok}
use code_base_ddd.Gorm.Rows.{select-reject, select-reject_disjoint, select-append}
use code_base_ddd.Uuid.{Uuid}
use code_base_ddd.Domain.Values.{OrderItem}
use code_base_ddd.Domain.Order.{Order}
use code_base_ddd.Persistence.Models.{OrderModel, OrderItemModel, same_order}
use code_base_ddd.Persistence.Mapper.{to_order_model, to_order_item_model, to_order_item_models}
use code_base_ddd.Persistence.Database.{Db, Gorm}
use code_base_ddd.Persistence.Orders.{has_id, of_order, save}
use code_base_ddd.Persistence.Orders.Statements.{IsCurrent, save_order-perm, replace_items-perm}
use code_base_ddd.Persistence.Orders.Reload.{save-parts, stored_models, select-stored_models}

-- The row of an order, and the rows of its items.
abbrev pub Shelf : Type 0
Shelf = Multiset OrderModel × Multiset OrderItemModel

abbrev pub shelves : Db → Uuid → Shelf
shelves s id = (of_list (select (has_id id) s.orders), of_list (select (of_order id) s.order_items))

-- A map that is changed at one key.
abbrev pub update : {A : Type 0} → Uuid → A → (Uuid → A) → Uuid → A
update key a f id = if id == key then a else f id

module _ (g : Gorm) where
  -- The rows of an order as they are stored.
  abbrev pub shelf : Order → Shelf
  shelf o = (of_list (g.orders.stored (to_order_model o) ∷ []), of_list (stored_models g o o.items))

  select-other_models :
      (o : Order) (id : Uuid) (items : List OrderItem)
      → (o.id.value == id) ≡ false
      → select (of_order id) (stored_models g o items) ≡ []
  select-other_models o id [] other = refl
  select-other_models o id (i ∷ items) other =
      let (created, kept) = g.order_item_stored (to_order_item_model o i) in
      let own : of_order id (g.order_items.stored (to_order_item_model o i)) ≡ false =
        rw kept other in
      rw (own) (select-other_models o id items other)

  own_shelf :
      (o : Order) (s : Db) (t : List OrderModel) (u : List OrderItemModel)
      → Perm t
          (g.orders.stored (to_order_model o) ∷ reject (same_order (to_order_model o)) s.orders)
      → Perm u (stored_models g o o.items ++ reject (of_order o.id.value) s.order_items)
      → Perm (select (has_id o.id.value) t) (g.orders.stored (to_order_model o) ∷ [])
        × Perm (select (of_order o.id.value) u) (stored_models g o o.items)
  unfolding to_order_model
  own_shelf o s t u rows items =
      let m = to_order_model o in
      let own = of_order o.id.value in
      let (created, updated, kept) = g.order_stored m in
      let here : has_id o.id.value (g.orders.stored m) ≡ true = rw kept (ground arith) in
      let gone : select (has_id o.id.value) (reject (same_order m) s.orders) ≡ [] =
        select-reject (has_id o.id.value) (same_order m) s.orders (λ y q. ground arith) in
      let out : select own (reject own s.order_items) ≡ [] =
        select-reject own own s.order_items (λ y q. q) in
      let one : select (has_id o.id.value) (g.orders.stored m ∷ reject (same_order m) s.orders)
          ≡ g.orders.stored m ∷ [] =
        rw (here, gone) refl in
      let all : select own (stored_models g o o.items ++ reject own s.order_items)
          ≡ stored_models g o o.items =
        select-append own (stored_models g o o.items) (reject own s.order_items)
        ∙ rw (out, select-stored_models g o o.items) (append-nil _) in
      (
        subst (λ l. Perm (select (has_id o.id.value) t) l) one
            (select-perm (has_id o.id.value) rows),
        subst (λ l. Perm (select own u) l) all (select-perm own items),
      )

  other_shelf :
      (o : Order) (id : Uuid) (s : Db) (t : List OrderModel) (u : List OrderItemModel)
      → (o.id.value == id) ≡ false
      → Perm t
          (g.orders.stored (to_order_model o) ∷ reject (same_order (to_order_model o)) s.orders)
      → Perm u (stored_models g o o.items ++ reject (of_order o.id.value) s.order_items)
      → Perm (select (has_id id) t) (select (has_id id) s.orders)
        × Perm (select (of_order id) u) (select (of_order id) s.order_items)
  unfolding to_order_model
  other_shelf o id s t u other rows items =
      let m = to_order_model o in
      let (created, updated, kept) = g.order_stored m in
      let away : has_id id (g.orders.stored m) ≡ false = rw kept other in
      let rest : select (has_id id) (reject (same_order m) s.orders) ≡ select (has_id id) s.orders =
        select-reject_disjoint (has_id id) (same_order m) s.orders (λ y q. ground arith) in
      let others : select (of_order id) (reject (of_order o.id.value) s.order_items)
          ≡ select (of_order id) s.order_items =
        select-reject_disjoint (of_order id) (of_order o.id.value) s.order_items
          (λ y q. ground arith) in
      let one : select (has_id id) (g.orders.stored m ∷ reject (same_order m) s.orders)
          ≡ select (has_id id) s.orders =
        rw away rest in
      let all : select (of_order id)
            (stored_models g o o.items ++ reject (of_order o.id.value) s.order_items)
          ≡ select (of_order id) s.order_items =
        select-append (of_order id) (stored_models g o o.items)
          (reject (of_order o.id.value) s.order_items)
        ∙ rw (select-other_models o id o.items other) others in
      (
        subst (λ l. Perm (select (has_id id) t) l) one (select-perm (has_id id) rows),
        subst (λ l. Perm (select (of_order id) u) l) all (select-perm (of_order id) items),
      )

  -- A `Save` that succeeds, where no row of the order has another version, changes the map from
  -- identifiers to rows at the order's identifier alone: it holds the order's rows as they are
  -- stored, and every other order has the rows that it had.
  pub save-update :
      (o o' : Order) (s s' : Db)
      → IsCurrent (to_order_model o) s
      → save g o s ≡ (ok o', s')
      → shelves s' ≡ update o.id.value (shelf o) (shelves s)
  unfolding to_order_model to_order_item_models
  save-update o o' s s' current saved =
      let (s₁, wrote, replaced, _) = save-parts g o s saved in
      let (rows, same) = save_order-perm g (to_order_model o) s s₁ current wrote in
      let (items, kept, _) =
        replace_items-perm g (to_order_model o) (to_order_item_models o) s₁ s' replaced in
      let after =
        g.orders.stored (to_order_model o) ∷ reject (same_order (to_order_model o)) s.orders in
      let rows' : Perm s'.orders after = subst (λ t. Perm t after) (sym kept) rows in
      let items' =
        subst
          (λ t. Perm s'.order_items (stored_models g o o.items ++ reject (of_order o.id.value) t))
          same items in
      fun_ext (λ id. elim (Bool-cases (id == o.id.value)) [
        | inl mine ↦
            let (a, b) = own_shelf o s s'.orders s'.order_items rows' items' in
            let self : (o.id.value == o.id.value) ≡ true = ground arith in
            let here : shelves s' o.id.value ≡ update o.id.value (shelf o) (shelves s) o.id.value =
              rw self (ap₂ (λ x y. (x, y)) (sound a) (sound b)) in
            subst (λ i. shelves s' i ≡ update o.id.value (shelf o) (shelves s) i) (ground arith)
              here
        | inr other ↦
            let (a, b) = other_shelf o id s s'.orders s'.order_items (ground arith) rows' items' in
            rw other (ap₂ (λ x y. (x, y)) (sound a) (sound b))
      ])
