-- ===== src/Persistence/ReadModels.antt =====
-- The read model: internal/infrastructure/persistence/read_model_store.go.
pub mod Sorting
use code_base_ddd.Prelude.{
  ℕ, String, Bool, true, ◌&&◌, ◌||◌, Option, none, some, List, [], ◌∷◌, map, ◌==◌, leb, str_eq,
  if◌then◌else◌,
}
use code_base_ddd.Error.{sentinel, err_order_not_found}
use code_base_ddd.Effect.{Effect, pure, fail, ◌>>=◌, ◌>>◌}
use code_base_ddd.Gorm.{Answer, done, failed}
use code_base_ddd.Int64.{sub64, mul64, slt}
use code_base_ddd.Uuid.{Uuid}
use code_base_ddd.Domain.Values.{Time}
use code_base_ddd.Ports.{OrderView, OrderItemView, ListOrdersFilter, PaginatedOrders}
use code_base_ddd.Persistence.Models.{OrderViewModel, OrderItemViewModel}
use code_base_ddd.Persistence.Database.{
  Db, Gorm, answer, change, change_count, put_order_views, put_order_item_views,
}
use Sorting.{order_clause}

abbrev pub to_order_view : OrderViewModel → OrderView
to_order_view m = record {
  id = m.id;
  customer_id = m.customer_id;
  status = m.status;
  total_amount = m.total_amount;
  item_count = m.item_count;
  created_at = m.created_at;
  updated_at = m.updated_at;
}

abbrev pub to_item_view : OrderItemViewModel → OrderItemView
to_item_view m = record {
  id = m.id;
  order_id = m.order_id;
  product_id = m.product_id;
  product_name = m.product_name;
  quantity = m.quantity;
  unit_price = m.unit_price;
  total_price = m.total_price;
  created_at = m.created_at;
}

abbrev pub order_view_model : OrderView → OrderViewModel
order_view_model v = record {
  id = v.id;
  customer_id = v.customer_id;
  status = v.status;
  total_amount = v.total_amount;
  item_count = v.item_count;
  created_at = v.created_at;
  updated_at = v.updated_at;
}

abbrev pub item_view_model : OrderItemView → OrderItemViewModel
item_view_model v = record {
  id = v.id;
  order_id = v.order_id;
  product_id = v.product_id;
  product_name = v.product_name;
  quantity = v.quantity;
  unit_price = v.unit_price;
  total_price = v.total_price;
  created_at = v.created_at;
}

abbrev pub view_has_id : Uuid → OrderViewModel → Bool
view_has_id id m = m.id == id

abbrev pub item_view_of : Uuid → OrderItemViewModel → Bool
item_view_of id m = m.order_id == id

abbrev pub item_view_has_id : Uuid → OrderItemViewModel → Bool
item_view_has_id id m = m.id == id

-- A condition that is added to the query only if the filter has a value.
abbrev pub if_given : {A : Type 0} → Option A → (A → Bool) → Bool
if_given none p = true
if_given (some a) p = p a

-- The conditions of `ListOrders`.
unfoldable pub matches : ListOrdersFilter → OrderViewModel → Bool
matches f m =
    if_given f.customer_id (λ c. m.customer_id == c)
    && if_given f.status (λ s. str_eq s "" || str_eq m.status s)
    && if_given f.created_from (λ t. leb t m.created_at)
    && if_given f.created_to (λ t. leb m.created_at t)

-- The columns that `UpdateOrderStatus` sets. An empty status, and a total that is not above zero,
-- leave theirs alone.
unfoldable pub updated_view : Time → String → ℕ → ℕ → OrderViewModel → OrderViewModel
updated_view now status total_amount item_count m = record m {
  updated_at = now;
  status = if str_eq status "" then m.status else status;
  total_amount = if slt 0 total_amount then total_amount else m.total_amount;
  item_count = item_count;
}

-- `Count(&itemCount)`, whose error is not looked at.
abbrev pub counted_items : Answer ℕ → ℕ
counted_items (done n) = n
counted_items (failed text) = 0

module _ (g : Gorm) where
  unfoldable pub get_order_by_id : Uuid → Effect Db (OrderView × List OrderItemView)
  get_order_by_id id s = elim (g.order_views.first (view_has_id id) s.order_views) [
    | failed text ↦ answer (failed text) s
    | done none ↦ fail (sentinel err_order_not_found) s
    | done (some m) ↦
        (do
          items ← λ t. answer (g.order_item_views.find (item_view_of id) t.order_item_views) t
          pure (to_order_view m, map to_item_view items))
          s
  ]

  unfoldable pub list_orders : ListOrdersFilter → Effect Db PaginatedOrders
  unfolding matches
  list_orders f = do
    total_count ← λ s. answer (g.order_views.count (matches f) s.order_views) s
    models ← λ s.
        answer
          (g.page_views (matches f) (order_clause f) (mul64 (sub64 f.page 1) f.page_size)
            f.page_size s.order_views)
          s
    pure (record {
      orders = map to_order_view models;
      total_count = total_count;
      page = f.page;
      page_size = f.page_size;
    })

  unfoldable pub upsert_order_view : OrderView → Effect Db (Unit {0})
  upsert_order_view v s =
      change put_order_views
        (g.order_views.assign_or_create (view_has_id v.id) (order_view_model v) s.order_views) s

  unfoldable pub upsert_order_item_view : OrderItemView → Effect Db (Unit {0})
  upsert_order_item_view v s =
      change put_order_item_views
        (g.order_item_views.assign_or_create (item_view_has_id v.id) (item_view_model v)
          s.order_item_views)
        s

  unfoldable pub update_order_status : Time → Uuid → String → ℕ → Effect Db (Unit {0})
  unfolding updated_view
  update_order_status now id status total_amount s =
      let item_count =
        counted_items (g.order_item_views.count (item_view_of id) s.order_item_views) in
      (do
        λ t.
            change_count put_order_views
              (g.order_views.updates (view_has_id id)
                (updated_view now status total_amount item_count) t.order_views)
              t
        pure tt)
        s
