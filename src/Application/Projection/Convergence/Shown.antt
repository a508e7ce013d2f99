-- ===== src/Application/Projection/Convergence/Shown.antt =====
-- The read model shows an order as an account has it, and what the events do to that.
use mathlib.Core.Path.{subst}
use code_base_ddd.Prelude.{
  ℕ, ◌<◌, ◌≡◌, refl, sym, ap, ◌∙◌, Bool, true, ◌&&◌, List, map, Perm, select, total, count,
  count-perm, select-eq-nil, arith, ◌==◌, str_eq, eq_iff, if◌then◌else◌,
}
use code_base_ddd.Effect.{Effect, ok, ◌>>◌}
use code_base_ddd.Uuid.{Uuid, UuidCodec}
use code_base_ddd.Domain.Values.{Time}
use code_base_ddd.Domain.Events.{
  DomainEvent, OrderCreated, OrderItemAdded, OrderConfirmed, order_created, order_item_added,
  order_confirmed,
}
use code_base_ddd.Domain.Order.Replay.{Line, Account, apply_event, blank}
use code_base_ddd.Persistence.Models.{OrderViewModel, OrderItemViewModel}
use code_base_ddd.Persistence.Database.{Db, Gorm}
use code_base_ddd.Persistence.ReadModels.{
  view_has_id, item_view_of, updated_view, order_view_model, upsert_order_view,
  upsert_order_item_view, update_order_status,
}
use code_base_ddd.Application.Projection.{parsed, created_view, added_item_view, recalculate}
use code_base_ddd.Application.Projection.Convergence.Steps.{
  line_price, lines_total, count-update_move, count-update_same, update_order_status-rows,
  upsert_order_view-new,
}

-- The line that an event adds.
abbrev pub line_of : OrderItemAdded → Line
line_of e = record {
  item_id = e.item_id;
  product_id = e.product_id;
  product_name = e.product_name;
  quantity = e.quantity;
  unit_price = e.unit_price;
}

module _ (codec : UuidCodec) where
  abbrev pub shown_line : OrderItemViewModel → Line
  shown_line m = record {
    item_id = codec.to_string m.id;
    product_id = m.product_id;
    product_name = m.product_name;
    quantity = m.quantity;
    unit_price = m.unit_price;
  }

  abbrev pub agrees : Account → OrderViewModel → Bool
  agrees a v =
      (v.customer_id == parsed codec a.customer_id)
      && str_eq v.status a.status
      && v.total_amount == lines_total a.lines

  -- The read model shows an order as an account has it: it has one view of the order, with the
  -- account's customer, status and total, and the rows of its items are the account's lines, each
  -- with its price, in some order.
  pub record Shows (id : Uuid) (a : Account) (s : Db) : Type 0 where
    pub one : count (view_has_id id) s.order_views ≡ 1
    pub view : 0 < count (λ v. view_has_id id v && agrees a v) s.order_views
    pub items :
        (f : Line → ℕ → ℕ)
        → total (λ m. f (shown_line m) m.total_price) (select (item_view_of id) s.order_item_views)
          ≡ total (λ l. f l (line_price l)) a.lines

  -- An update of the order's views.
  pub updated-views :
      (id : Uuid) (a b : Account) (t t' : List OrderViewModel) (f : OrderViewModel → OrderViewModel)
      → Perm t' (map (λ v. if view_has_id id v then f v else v) t)
      → ((v : OrderViewModel) → (f v).id ≡ v.id)
      → ((v : OrderViewModel) → agrees a v ≡ true → agrees b (f v) ≡ true)
      → count (view_has_id id) t ≡ 1
      → 0 < count (λ v. view_has_id id v && agrees a v) t
      → (count (view_has_id id) t' ≡ 1) × (0 < count (λ v. view_has_id id v && agrees b v) t')
  updated-views id a b t t' f rows kept moved one view =
      let p = view_has_id id in
      let same = count-update_same p f t (λ v. rw (kept v)) in
      let move =
        count-update_move p (agrees a) (agrees b) f t (λ v e. rw (kept v) e) (λ v e h. moved v h) in
      let all = count-perm p rows in
      let good = count-perm (λ v. p v && agrees b v) rows in
      (omega (arith, same, all, one), omega (arith, move, good, view))

  module _ (g : Gorm) (clock : ℕ → Time) (id : Uuid) where
    -- What each event does, as `Handle` calls it.
    abbrev pub project_event : DomainEvent → Effect Db (Unit {0})
    project_event (order_created e) = upsert_order_view g (created_view codec g clock e)
    project_event (order_item_added e) =
        upsert_order_item_view g (added_item_view codec g clock e)
        >> recalculate codec g clock (parsed codec e.order_id)
    project_event (order_confirmed e) =
        update_order_status g (clock 0) (parsed codec e.order_id) "CONFIRMED" e.total_amount

    pub confirmed-Shows :
        (a : Account) (e : OrderConfirmed) (s s' : Db)
        → parsed codec e.order_id ≡ id
        → e.total_amount ≡ lines_total a.lines
        → Shows id a s
        → project_event (order_confirmed e) s ≡ (ok tt, s')
        → Shows id (apply_event a (order_confirmed e)) s'
    unfolding updated_view
    confirmed-Shows a e s s' mine whole shown h =
        let (n, items, rows) =
          update_order_status-rows g (clock 0) (parsed codec e.order_id) "CONFIRMED" e.total_amount
            s s' h in
        let f = updated_view (clock 0) "CONFIRMED" e.total_amount n in
        let rows' =
          subst
            (λ i. Perm s'.order_views (map (λ v. if view_has_id i v then f v else v) s.order_views))
            mine rows in
        let (one, view) =
          updated-views id a (apply_event a (order_confirmed e)) s.order_views s'.order_views f
            rows' (λ v. refl) (λ v h. ground (arith, whole)) shown.one shown.view in
        record {
          one = one;
          view = view;
          items = λ k.
              ap (λ t. total (λ m. k (shown_line m) m.total_price) (select (item_view_of id) t))
                items
              ∙ shown.items k;
        }

    pub confirmed-rows :
        (e : OrderConfirmed) (s s' : Db)
        → project_event (order_confirmed e) s ≡ (ok tt, s')
        → s'.order_item_views ≡ s.order_item_views
    confirmed-rows e s s' h =
        (update_order_status-rows g (clock 0) (parsed codec e.order_id) "CONFIRMED" e.total_amount s
          s' h).1

    pub created-rows :
        (e : OrderCreated) (s s' : Db)
        → parsed codec e.id ≡ id
        → count (view_has_id id) s.order_views ≡ 0
        → project_event (order_created e) s ≡ (ok tt, s')
        → s'.order_item_views ≡ s.order_item_views
    created-rows e s s' mine no_view h =
        (upsert_order_view-new g codec clock e s s' h
          (subst (λ i. count (view_has_id i) s.order_views ≡ 0) (sym mine) no_view)).2

    pub created-Shows :
        (e : OrderCreated) (s s' : Db)
        → parsed codec e.id ≡ id
        → count (view_has_id id) s.order_views ≡ 0
        → count (item_view_of id) s.order_item_views ≡ 0
        → project_event (order_created e) s ≡ (ok tt, s')
        → Shows id (apply_event blank (order_created e)) s'
    created-Shows e s s' mine no_view no_items h =
        let absent = subst (λ i. count (view_has_id i) s.order_views ≡ 0) (sym mine) no_view in
        let (created, updated, items, rows) = upsert_order_view-new g codec clock e s s' h absent in
        let b = apply_event blank (order_created e) in
        let here : (parsed codec e.id == id) ≡ true = ground (arith, mine) in
        let all = count-perm (view_has_id id) rows in
        let row : OrderViewModel = record (order_view_model (created_view codec g clock e)) {
          created_at = created;
          updated_at = updated;
        } in
        let yes : (view_has_id id row && agrees b row) ≡ true =
          ground (arith, here, eq_iff e.status e.status) in
        let good = count-perm (λ v. view_has_id id v && agrees b v) rows in
        record {
          one = ground (arith, all, here, no_view);
          view = rw good (ground (arith, yes));
          items = λ f.
              ap (λ t. total (λ m. f (shown_line m) m.total_price) (select (item_view_of id) t))
                items
              ∙ ap (total (λ m. f (shown_line m) m.total_price))
                  (select-eq-nil (item_view_of id) s.order_item_views no_items);
        }
