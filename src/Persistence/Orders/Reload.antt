-- ===== src/Persistence/Orders/Reload.antt =====
-- What `FindByID` reads back after `Save`.
use mathlib.Core.List.Perm
use native.Mathlib.Decide.{ℕ_discrete}
use mathlib.Core.HLevel.{hedberg}
use code_base_ddd.Prelude.{
  ◌≡◌, refl, ◌∙◌, ap, ap₂, true, inl, inr, none, some, List, [], ◌∷◌, ◌++◌, map, Perm, select,
  reject, select-perm, arith,
}
use mathlib.Core.List.{append-nil}
use mathlib.Core.Path.{subst}
use code_base_ddd.Effect.{ok, Outcome-cases}
use code_base_ddd.Gorm.{done, Answer-cases}
use code_base_ddd.Gorm.Rows.{String-discrete, mem-singleton, select-reject, select-append}
use code_base_ddd.Domain.Values.{Time, OrderId, OrderItem, reconstruct_order_item}
use code_base_ddd.Domain.Order.{Order, total_amount, increment_version}
use code_base_ddd.Domain.Order.Total.{total_amount-perm}
use code_base_ddd.Persistence.Models.{OrderModel, OrderItemModel, same_order}
use code_base_ddd.Persistence.Mapper.{
  to_order_model, to_order_item_model, to_order_item_models, to_domain_item, to_domain_order,
}
use code_base_ddd.Persistence.Database.{Db, Gorm}
use code_base_ddd.Persistence.Orders.{has_id, of_order, save_order, replace_items, save, find_by_id}
use code_base_ddd.Persistence.Orders.Statements.{
  IsCurrent, save_order-perm, save_order-outbox, replace_items-perm,
}

pub OrderModel-discrete : Discrete OrderModel
OrderModel-discrete = hlevel (ℕ_discrete, String-discrete)

pub OrderModel-set : IsSet OrderModel
OrderModel-set = hedberg OrderModel-discrete

-- Two orders agree in all that is stored, but for the tracked times; lines up to their order.
pub record Agrees (o l : Order) : Type 0 where
  pub id : l.id ≡ o.id
  pub customer_id : l.customer_id ≡ o.customer_id
  pub status : l.status ≡ o.status
  pub version : l.version ≡ o.version
  pub items : Perm l.items o.items

loaded_Agrees :
    (o l : Order) (m : OrderModel) (ims : List OrderItemModel) {created updated : Time}
    → m ≡ record (to_order_model o) { created_at = created; updated_at = updated }
    → l ≡ to_domain_order m ims
    → Perm (map to_domain_item ims) o.items
    → Agrees o l × (l.events ≡ []) × (total_amount l ≡ total_amount o)
unfolding to_order_model to_domain_order
loaded_Agrees o l m ims row loaded items =
    let lines : Perm l.items o.items = rw loaded items in
    (
      record {
        id = rw (loaded, row);
        customer_id = rw (loaded, row);
        status = rw (loaded, row);
        version = rw (loaded, row);
        items = lines;
      },
      ap (λ x. x.events) loaded,
      total_amount-perm o l lines,
    )

module _ (g : Gorm) where
  -- A `Save` that succeeds ran both halves, and bumped the version in memory.
  pub save-parts :
      (o : Order) (s : Db) {o' : Order} {s' : Db}
      → save g o s ≡ (ok o', s')
      → (s₁ : Db) × (save_order g (to_order_model o) s ≡ (ok tt, s₁))
        × (replace_items g (to_order_model o) (to_order_item_models o) s₁ ≡ (ok tt, s'))
        × (o' ≡ increment_version o)
  unfolding save
  save-parts o s {s'} h = elim (Outcome-cases (save_order g (to_order_model o) s)) [
    | inl (_, s₁, e) ↦
        elim (Outcome-cases (replace_items g (to_order_model o) (to_order_item_models o) s₁)) [
          | inl (_, s₂, e') ↦
              let same : s₂ ≡ s' = ground arith in (s₁, e, rw (← same) e', ground arith)
          | inr (x, s₂, e') ↦ absurd (ground arith)
        ]
    | inr (x, s₁, e) ↦ absurd (ground arith)
  ]

  pub find_by_id-parts :
      (id : OrderId) (s : Db) {l : Order} {s' : Db}
      → find_by_id g id s ≡ (ok l, s')
      → (m : OrderModel) × (ims : List OrderItemModel) × (g.orders.first (has_id id.value) s.orders
          ≡ done (some m))
        × (g.order_items.find (of_order m.id) s.order_items ≡ done ims)
        × (l ≡ to_domain_order m ims)
  unfolding find_by_id
  find_by_id-parts id s h = elim (Answer-cases (g.orders.first (has_id id.value) s.orders)) [
    | inl (none, e) ↦ absurd (ground arith)
    | inl (some m, e) ↦ elim (Answer-cases (g.order_items.find (of_order m.id) s.order_items)) [
      | inl (ims, e') ↦ (m, ims, e, e', ground arith)
      | inr (text, e') ↦ absurd (ground arith)
    ]
    | inr (text, e) ↦ absurd (ground arith)
  ]

  -- `Save` touches no event of the outbox.
  pub save-outbox :
      (o o' : Order) (s s' : Db) → save g o s ≡ (ok o', s') → s'.outbox_events ≡ s.outbox_events
  save-outbox o o' s s' h =
      let (s₁, wrote, replaced, _) = save-parts o s h in
      (replace_items-perm g (to_order_model o) _ s₁ s' replaced).2
      ∙ save_order-outbox g (to_order_model o) s s₁ wrote

  -- `FindByID` changes nothing.
  pub find_by_id-unchanged : (id : OrderId) (s : Db) → (find_by_id g id s).1 ≡ s
  unfolding find_by_id
  find_by_id-unchanged id s = elim (Answer-cases (g.orders.first (has_id id.value) s.orders)) [
    | inl (none, e) ↦ ground arith
    | inl (some m, e) ↦ ground arith
    | inr (text, e) ↦ ground arith
  ]

  -- A loaded order has no pending events.
  pub find_by_id-events :
      (id : OrderId) (s : Db) {l : Order} {s' : Db} → find_by_id g id s ≡ (ok l, s') → l.events ≡ []
  unfolding to_domain_order
  find_by_id-events id s h =
      let (m, ims, _, _, loaded) = find_by_id-parts id s h in ap (λ x. x.events) loaded

  -- The row of a saved order, as `First` finds it.
  saved_row :
      (m : OrderModel) (s s₁ : Db) {x : OrderModel}
      → IsCurrent m s
      → save_order g m s ≡ (ok tt, s₁)
      → g.orders.first (has_id m.id) s₁.orders ≡ done (some x)
      → x ≡ g.orders.stored m
  saved_row m s s₁ {x} current h found =
      let (created, updated, kept) = g.order_stored m in
      let here : (has_id m.id (g.orders.stored m)) ≡ true = rw kept (ground arith) in
      let gone : select (has_id m.id) (reject (same_order m) s.orders) ≡ [] =
        select-reject (has_id m.id) (same_order m) s.orders (λ y q. ground arith) in
      let rows = select-perm (has_id m.id) (save_order-perm g m s s₁ current h).0 in
      mem-singleton OrderModel-set (
        (Perm.mem_iff (rw (here, gone) at rows)).0
          (g.orders.first-some (has_id m.id) s₁.orders x found))

  abbrev pub stored_models : Order → List OrderItem → List OrderItemModel
  stored_models o items = map g.order_items.stored (map (to_order_item_model o) items)

  pub select-stored_models :
      (o : Order) (items : List OrderItem)
      → select (of_order o.id.value) (stored_models o items) ≡ stored_models o items
  select-stored_models o [] = refl
  select-stored_models o (i ∷ items) =
      let (created, kept) = g.order_item_stored (to_order_item_model o i) in
      let own : of_order o.id.value (g.order_items.stored (to_order_item_model o i)) ≡ true =
        rw kept (ground arith) in
      rw (own, select-stored_models o items)

  map-stored_models :
      (o : Order) (items : List OrderItem) → map to_domain_item (stored_models o items) ≡ items
  unfolding reconstruct_order_item
  map-stored_models o [] = refl
  map-stored_models o (i ∷ items) =
      let (created, kept) = g.order_item_stored (to_order_item_model o i) in
      ap₂ ◌∷◌ (rw kept) (map-stored_models o items)

  -- The items of a saved order, as `Find` finds them, read back as domain objects.
  saved_items :
      (o : Order) (s s₁ : Db) {ims : List OrderItemModel}
      → replace_items g (to_order_model o) (to_order_item_models o) s ≡ (ok tt, s₁)
      → g.order_items.find (of_order o.id.value) s₁.order_items ≡ done ims
      → Perm (map to_domain_item ims) o.items
  unfolding to_order_model to_order_item_models
  saved_items o s s₁ {ims} h found =
      let own = of_order o.id.value in
      let there = select-perm own (replace_items-perm g (to_order_model o) _ s s₁ h).0 in
      let gone : select own (reject own s.order_items) ≡ [] =
        select-reject own own s.order_items (λ y q. q) in
      let read = Perm.trans (g.order_items.find-perm own s₁.order_items ims found) there in
      let kept : select own (stored_models o o.items ++ reject own s.order_items)
          ≡ stored_models o o.items =
        select-append own (stored_models o o.items) (reject own s.order_items)
        ∙ rw (gone, select-stored_models o o.items) (append-nil _) in
      rw (map-stored_models o o.items) at
        (Perm.map to_domain_item (subst (λ r. Perm ims r) kept read))

  -- If `Save` succeeds, on a database where no row of the order has another version, then an order
  -- that `FindByID` reads next has the identifiers, status and lines that were saved, the version
  -- that the order had before the save, no pending events, and the same total.
  pub find_by_id-save :
      (o o' l : Order) (s s' s'' : Db)
      → IsCurrent (to_order_model o) s
      → save g o s ≡ (ok o', s')
      → find_by_id g o.id s' ≡ (ok l, s'')
      → Agrees o l × (l.events ≡ []) × (total_amount l ≡ total_amount o)
  unfolding to_order_model
  find_by_id-save o o' l s s' s'' current saved found =
      let (s₁, wrote, replaced, _) = save-parts o s saved in
      let (m, ims, e, e', loaded) = find_by_id-parts o.id s' found in
      let same = (replace_items-perm g (to_order_model o) _ s₁ s' replaced).1 in
      let (created, updated, kept) = g.order_stored (to_order_model o) in
      let row = saved_row (to_order_model o) s s₁ current wrote (rw same at e) ∙ kept in
      loaded_Agrees o l m ims row loaded
        (saved_items o s₁ s' replaced (rw (ap (λ x. x.id) row) at e'))
