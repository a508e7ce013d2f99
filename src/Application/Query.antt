-- ===== src/Application/Query.antt =====
-- The queries: internal/application/query/get_order.go and list_orders.go, and the responses of
-- internal/application/dto/dto.go.
use code_base_ddd.Prelude.{
  ℕ, ◌≤◌, ◌<◌, ◌≡◌, String, ◌||◌, Option, none, some, List, [], map, length, count, length-select,
  length-map, sym, arith, inl, inr, if◌then◌else◌,
}
use code_base_ddd.Error.{wrap}
use code_base_ddd.Effect.{ok, err, Effect, pure, fail, Outcome-cases, ◌>>=◌}
use code_base_ddd.Gorm.{Answer-cases}
use code_base_ddd.Int64.{modulus, half, mul64, sub64, slt}
use code_base_ddd.Uuid.{Uuid, UuidCodec}
use code_base_ddd.Domain.Values.{Time}
use code_base_ddd.Ports.{OrderView, OrderItemView, ListOrdersFilter, PaginatedOrders}
use code_base_ddd.Persistence.Database.{Db, Gorm}
use code_base_ddd.Persistence.ReadModels.{get_order_by_id, list_orders, matches, to_order_view}
use code_base_ddd.Persistence.ReadModels.Sorting.{order_clause}

pub record OrderItemResponse : Type 0 where
  pub id : String
  pub product_id : String
  pub product_name : String
  pub quantity : ℕ
  pub unit_price : ℕ
  pub total_price : ℕ

pub record OrderResponse : Type 0 where
  pub id : String
  pub customer_id : String
  pub status : String
  pub total_amount : ℕ
  pub item_count : ℕ
  pub items : List OrderItemResponse
  pub created_at : Time
  pub updated_at : Time

pub record PaginatedOrdersResponse : Type 0 where
  pub orders : List OrderResponse
  pub total_count : ℕ
  pub page : ℕ
  pub page_size : ℕ

pub record ListOrders : Type 0 where
  pub customer_id : Option String
  pub status : Option String
  pub created_from : Option Time
  pub created_to : Option Time
  pub sort_by : String
  pub sort_dir : String
  pub page : ℕ
  pub page_size : ℕ

module _ (codec : UuidCodec) where
  abbrev pub item_response : OrderItemView → OrderItemResponse
  item_response iv = record {
    id = codec.to_string iv.id;
    product_id = iv.product_id;
    product_name = iv.product_name;
    quantity = iv.quantity;
    unit_price = iv.unit_price;
    total_price = iv.total_price;
  }

  abbrev pub order_response : List OrderItemResponse → OrderView → OrderResponse
  order_response items v = record {
    id = codec.to_string v.id;
    customer_id = codec.to_string v.customer_id;
    status = v.status;
    total_amount = v.total_amount;
    item_count = v.item_count;
    items = items;
    created_at = v.created_at;
    updated_at = v.updated_at;
  }

  -- A customer that does not parse is left out of the filter.
  abbrev pub parsed_customer : Option String → Option Uuid
  parsed_customer none = none
  parsed_customer (some s) = elim (codec.parse s) [ ok id ↦ some id | err e ↦ none ]

  -- The filter that ListOrdersHandler.Handle makes of a query.
  unfoldable pub list_filter : ListOrders → ListOrdersFilter
  list_filter q = record {
    customer_id = parsed_customer q.customer_id;
    status = q.status;
    created_from = q.created_from;
    created_to = q.created_to;
    sort_by = q.sort_by;
    sort_dir = q.sort_dir;
    page = if slt q.page 1 then 1 else q.page;
    page_size = if slt q.page_size 1 || slt 100 q.page_size then 20 else q.page_size;
  }

  -- Whatever the query says, the page is above zero and the size is between one and a hundred.
  pub list_filter-bounds :
      (q : ListOrders)
      → q.page < modulus
      → q.page_size < modulus
      → (1 ≤ (list_filter q).page)
        × ((list_filter q).page < half)
        × (1 ≤ (list_filter q).page_size)
        × ((list_filter q).page_size ≤ 100)
  unfolding list_filter
  list_filter-bounds q h k = (page_low, page_high, size_low, size_high)
    where
      page_low : 1 ≤ (list_filter q).page
      page_low = ground arith

      page_high : (list_filter q).page < half
      page_high = ground arith

      size_low : 1 ≤ (list_filter q).page_size
      size_low = ground arith

      size_high : (list_filter q).page_size ≤ 100
      size_high = ground arith

  module _ (g : Gorm) where
    unfoldable pub get_order : String → Effect Db OrderResponse
    get_order order_id s = elim (codec.parse order_id) [
      | err e ↦ fail (wrap "invalid order id" e) s
      | ok id ↦
          (do (v, items) ← get_order_by_id g id; pure (order_response (map item_response items) v))
            s
    ]

    unfoldable pub query_orders : ListOrders → Effect Db PaginatedOrdersResponse
    query_orders q = do
      result ← list_orders g (list_filter q)
      pure (record {
        orders = map (order_response []) result.orders;
        total_count = result.total_count;
        page = result.page;
        page_size = result.page_size;
      })

    list_orders-ok :
        (f : ListOrdersFilter) (s s' : Db) (p : PaginatedOrders)
        → list_orders g f s ≡ (ok p, s')
        → (s' ≡ s)
          × (length p.orders ≤ f.page_size)
          × (p.total_count ≡ count (matches f) s.order_views)
    unfolding list_orders
    list_orders-ok f s s' p h =
        let offset = mul64 (sub64 f.page 1) f.page_size in
        elim (Answer-cases (g.order_views.count (matches f) s.order_views)) [
          | inr (text, failed) ↦ absurd (ground arith)
          | inl (n, counted) ↦
              elim (Answer-cases
                (g.page_views (matches f) (order_clause f) offset f.page_size s.order_views)) [
                  | inr (text, failed) ↦ absurd (ground arith)
                  | inl (ms, listed) ↦
                      let final : s ≡ s' = ground arith in
                      let rows : map to_order_view ms ≡ p.orders = ground arith in
                      let size : n ≡ p.total_count = ground arith in
                      let tally = g.order_views.count-length (matches f) s.order_views n counted in
                      let (few, rest, perm) =
                        g.page_views-perm (matches f) (order_clause f) offset f.page_size
                          s.order_views ms listed in
                      (
                        sym final,
                        rw (← rows) (omega (arith, few, length-map to_order_view ms)),
                        omega (arith, size, tally, length-select (matches f) s.order_views),
                      )
                ]
        ]

    -- A ListOrders that succeeds changes nothing, returns a hundred orders at most, and counts all
    -- the views that pass the filter.
    pub query_orders-ok :
        (q : ListOrders) (s s' : Db) (p : PaginatedOrdersResponse)
        → q.page < modulus
        → q.page_size < modulus
        → query_orders q s ≡ (ok p, s')
        → (s' ≡ s)
          × (length p.orders ≤ 100)
          × (p.total_count ≡ count (matches (list_filter q)) s.order_views)
    unfolding query_orders
    query_orders-ok q s s' p small short h =
        elim (Outcome-cases (list_orders g (list_filter q) s)) [
          | inr (e, t, failed) ↦ absurd (ground arith)
          | inl (found, t, listed) ↦
              let (kept, few, size) = list_orders-ok (list_filter q) s t found listed in
              let final : t ≡ s' = ground arith in
              let rows : map (order_response []) found.orders ≡ p.orders = ground arith in
              let total_same : found.total_count ≡ p.total_count = ground arith in
              let (a, b, c, most) = list_filter-bounds q small short in
              (
                rw (← final) kept,
                rw (← rows) (omega (arith, few, most, length-map (order_response []) found.orders)),
                omega (arith, total_same, size),
              )
        ]
