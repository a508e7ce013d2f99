-- ===== src/Persistence/Keeps/Stores.antt =====
-- What each store leaves alone.
use code_base_ddd.Prelude.{
  ◌≡◌, inl, inr, Bool-cases, ℕ, List, [], ◌∷◌, length, String, none, some, arith, ◌==◌, ltb,
  if◌then◌else◌,
}
use code_base_ddd.Effect.{pure, ◌>>◌}
use code_base_ddd.Effect.Preserves.{Preserves, pure-Preserves, >>=-Preserves, >>-Preserves}
use code_base_ddd.Gorm.{Answer-cases}
use code_base_ddd.Uuid.{Uuid}
use code_base_ddd.Domain.Values.{Time, OrderId}
use code_base_ddd.Domain.Order.{Order, increment_version}
use code_base_ddd.Ports.{OrderView, OrderItemView}
use code_base_ddd.Persistence.Models.{OrderModel, OrderItemModel}
use code_base_ddd.Persistence.Mapper.{to_order_model, to_order_item_models}
use code_base_ddd.Persistence.Database.{
  Db, Gorm, change, change_count, put_orders, put_order_items, put_order_views,
  put_order_item_views, put_processed_events,
}
use code_base_ddd.Persistence.Orders.{
  counted, has_id, of_order, has_id_and_version, insert_order, replace_items, save_order, save,
  find_by_id,
}
use code_base_ddd.Persistence.Keys.{is_processed, is_processed_by, mark_processed}
use code_base_ddd.Persistence.ReadModels.{
  get_order_by_id, upsert_order_view, upsert_order_item_view, update_order_status, view_has_id,
  item_view_of, updated_view, counted_items,
}
use code_base_ddd.Persistence.Keeps.{KeptBy, change-keeps, change_count-keeps}

module _ (g : Gorm) where
  -- A load changes nothing.
  find_by_id-same : (id : OrderId) (s : Db) → (find_by_id g id s).1 ≡ s
  unfolding find_by_id
  find_by_id-same id s = elim (Answer-cases (g.orders.first (has_id id.value) s.orders)) [
    | inr (text, e) ↦ ground arith
    | inl (none, e) ↦ ground arith
    | inl (some m, e) ↦ elim (Answer-cases (g.order_items.find (of_order m.id) s.order_items)) [
      | inr (text, h) ↦ ground arith
      | inl (rows, h) ↦ ground arith
    ]
  ]

  get_order_by_id-same : (id : Uuid) (s : Db) → (get_order_by_id g id s).1 ≡ s
  unfolding get_order_by_id
  get_order_by_id-same id s =
      elim (Answer-cases (g.order_views.first (view_has_id id) s.order_views)) [
        | inr (text, e) ↦ ground arith
        | inl (none, e) ↦ ground arith
        | inl (some m, e) ↦
            elim (Answer-cases (g.order_item_views.find (item_view_of id) s.order_item_views)) [
              | inr (text, h) ↦ ground arith
              | inl (rows, h) ↦ ground arith
            ]
      ]

  is_processed-same : (id : Uuid) (handler : String) (s : Db) → (is_processed g id handler s).1 ≡ s
  unfolding is_processed
  is_processed-same id handler s =
      elim (Answer-cases
        (g.processed_events.count (is_processed_by id handler) s.processed_events)) [
          | inr (text, e) ↦ ground arith
          | inl (n, e) ↦ ground arith
        ]

  module _ (P : Db → Type 0) where
    pub find_by_id-Preserves : (id : OrderId) → Preserves P (find_by_id g id)
    find_by_id-Preserves id s h = rw (find_by_id-same id s) h

    pub get_order_by_id-Preserves : (id : Uuid) → Preserves P (get_order_by_id g id)
    get_order_by_id-Preserves id s h = rw (get_order_by_id-same id s) h

    pub is_processed-Preserves :
        (id : Uuid) (handler : String) → Preserves P (is_processed g id handler)
    is_processed-Preserves id handler s h = rw (is_processed-same id handler s) h

    insert_order-Preserves : (m : OrderModel) → KeptBy P put_orders → Preserves P (insert_order g m)
    unfolding insert_order
    insert_order-Preserves m kept s h =
        elim (Bool-cases (ltb 0 (counted (g.orders.count (has_id m.id) s.orders)))) [
          | inl e ↦ rw (insert_order, e) h
          | inr e ↦
              rw (insert_order, e)
                (change-keeps P put_orders (g.orders.create (m ∷ []) s.orders) s h
                  (λ t _. kept t s h))
        ]

    save_order-Preserves : (m : OrderModel) → KeptBy P put_orders → Preserves P (save_order g m)
    unfolding save_order
    save_order-Preserves m kept =
        >>=-Preserves P
          (λ s. change_count put_orders (g.orders.save (has_id_and_version m) m s.orders) s)
          (λ affected s. if affected == 0 then insert_order g m s else pure tt s)
          (λ s h.
            change_count-keeps P put_orders (g.orders.save (has_id_and_version m) m s.orders) s h
              (λ n t _. kept t s h))
          (λ affected s h. elim (Bool-cases (affected == 0)) [
            | inl e ↦ rw e (insert_order-Preserves m kept s h)
            | inr e ↦ rw e h
          ])

    replace_items-Preserves :
        (m : OrderModel) (items : List OrderItemModel)
        → KeptBy P put_order_items
        → Preserves P (replace_items g m items)
    unfolding replace_items
    replace_items-Preserves m items kept =
        >>-Preserves P
          (λ s. change put_order_items (g.order_items.delete (of_order m.id) s.order_items) s)
          (λ s.
            if ltb 0 (length items)
            then change put_order_items (g.order_items.create items s.order_items) s
            else pure tt s)
          (λ s h.
            change-keeps P put_order_items (g.order_items.delete (of_order m.id) s.order_items) s h
              (λ t _. kept t s h))
          (λ s h. elim (Bool-cases (ltb 0 (length items))) [
            | inl e ↦ rw e (
                change-keeps P put_order_items (g.order_items.create items s.order_items) s h
                  (λ t _. kept t s h))
            | inr e ↦ rw e h
          ])

    -- A save writes orders and items, and nothing else.
    pub save-Preserves :
        (o : Order) → KeptBy P put_orders → KeptBy P put_order_items → Preserves P (save g o)
    unfolding save
    save-Preserves o kept kept_items =
        >>-Preserves P (save_order g (to_order_model o))
          (replace_items g (to_order_model o) (to_order_item_models o)
            >> pure (increment_version o))
          (save_order-Preserves (to_order_model o) kept)
          (>>-Preserves P (replace_items g (to_order_model o) (to_order_item_models o))
            (pure (increment_version o))
            (replace_items-Preserves (to_order_model o) (to_order_item_models o) kept_items)
            (pure-Preserves P (increment_version o)))

    pub upsert_order_view-Preserves :
        (v : OrderView) → KeptBy P put_order_views → Preserves P (upsert_order_view g v)
    unfolding upsert_order_view
    upsert_order_view-Preserves v kept s h =
        change-keeps P put_order_views _ s h (λ t _. kept t s h)

    pub upsert_order_item_view-Preserves :
        (v : OrderItemView)
        → KeptBy P put_order_item_views
        → Preserves P (upsert_order_item_view g v)
    unfolding upsert_order_item_view
    upsert_order_item_view-Preserves v kept s h =
        change-keeps P put_order_item_views _ s h (λ t _. kept t s h)

    pub update_order_status-Preserves :
        (now : Time) (id : Uuid) (status : String) (amount : ℕ)
        → KeptBy P put_order_views
        → Preserves P (update_order_status g now id status amount)
    unfolding update_order_status
    update_order_status-Preserves now id status amount kept s h =
        let n = counted_items (g.order_item_views.count (item_view_of id) s.order_item_views) in
        let f = updated_view now status amount n in
        >>-Preserves P
          (λ t.
            change_count put_order_views (g.order_views.updates (view_has_id id) f t.order_views) t)
          (pure tt)
          (λ t k.
            change_count-keeps P put_order_views
              (g.order_views.updates (view_has_id id) f t.order_views) t k (λ m u _. kept u t k))
          (pure-Preserves P tt) s h

    pub mark_processed-Preserves :
        (now : Time) (id : Uuid) (handler : String)
        → KeptBy P put_processed_events
        → Preserves P (mark_processed g now id handler)
    unfolding mark_processed
    mark_processed-Preserves now id handler kept s h =
        change-keeps P put_processed_events _ s h (λ t _. kept t s h)
