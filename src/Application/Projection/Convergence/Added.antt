-- ===== src/Application/Projection/Convergence/Added.antt =====
-- An item that is added, in the read model.
use mathlib.Core.Path.{subst}
use code_base_ddd.Prelude.{
  ℕ, ◌%◌, ◌<◌, ◌≡◌, refl, ap, ◌∙◌, true, List, [], ◌∷◌, ◌++◌, map, Perm, select, total, count,
  total-perm, total-append, select-perm, arith, ◌==◌, if◌then◌else◌,
}
use code_base_ddd.Effect.{ok, >>=-eq-ok}
use code_base_ddd.Int64.{modulus, half, mul64, slt, slt-zero←}
use code_base_ddd.Uuid.{Uuid, UuidCodec}
use code_base_ddd.Domain.Values.{Time}
use code_base_ddd.Domain.Events.{OrderItemAdded, order_item_added}
use code_base_ddd.Domain.Order.Replay.{Line, Account, apply_event}
use code_base_ddd.Persistence.Models.{OrderItemViewModel}
use code_base_ddd.Persistence.Database.{Db, Gorm}
use code_base_ddd.Persistence.ReadModels.{
  view_has_id, item_view_of, item_view_has_id, updated_view, item_view_model,
  upsert_order_item_view,
}
use code_base_ddd.Application.Projection.{parsed, added_item_view, recalculate}
use code_base_ddd.Application.Projection.Recalculation.{items_total}
use code_base_ddd.Application.Projection.Convergence.Steps.{
  line_price, lines_total, recalculate-rows, upsert_order_item_view-new,
}
use code_base_ddd.Application.Projection.Convergence.Shown.{
  line_of, shown_line, Shows, updated-views, project_event,
}

module _ (codec : UuidCodec) (g : Gorm) (clock : ℕ → Time) (id : Uuid) where
  -- The rows of the order with a new item before them.
  added-items :
      (a : Account) (e : OrderItemAdded) (created : Time) (t t' : List OrderItemViewModel)
      → parsed codec e.order_id ≡ id
      → codec.to_string (parsed codec e.item_id) ≡ e.item_id
      → Perm t'
          (record (item_view_model (added_item_view codec g clock e)) { created_at = created } ∷ t)
      → (f : Line → ℕ → ℕ)
      → total (λ m. f (shown_line codec m) m.total_price) (select (item_view_of id) t)
        ≡ total (λ l. f l (line_price l)) a.lines
      → total (λ m. f (shown_line codec m) m.total_price) (select (item_view_of id) t')
        ≡ total (λ l. f l (line_price l)) (a.lines ++ line_of e ∷ [])
  added-items a e created t t' mine printed rows f shown =
      let row : OrderItemViewModel = record (item_view_model (added_item_view codec g clock e)) {
        created_at = created;
      } in
      let w : OrderItemViewModel → ℕ = λ m. f (shown_line codec m) m.total_price in
      let same : shown_line codec row ≡ line_of e =
        ap (λ i. record (line_of e) { item_id = i }) printed in
      let first : w row ≡ f (line_of e) (line_price (line_of e)) =
        ap (λ l. f l (mul64 e.unit_price e.quantity)) same in
      let here : (parsed codec e.order_id == id) ≡ true = ground (arith, mine) in
      let taken : select (item_view_of id) (row ∷ t) ≡ row ∷ select (item_view_of id) t = rw here in
      let all = total-perm w (select-perm (item_view_of id) rows) in
      let split = ap (total w) taken in
      let ends = total-append (λ l. f l (line_price l)) a.lines (line_of e ∷ []) in
      omega (arith, all, split, first, ends, shown)

  -- Adding an item adds its row.
  pub added-rows :
      (e : OrderItemAdded) (s s' : Db)
      → count (item_view_has_id (parsed codec e.item_id)) s.order_item_views ≡ 0
      → project_event codec g clock id (order_item_added e) s ≡ (ok tt, s')
      → (created : Time) × Perm s'.order_item_views (
          record (item_view_model (added_item_view codec g clock e)) { created_at = created }
          ∷ s.order_item_views)
  added-rows e s s' absent h =
      let (u, t, stored, ran) =
        >>=-eq-ok (upsert_order_item_view g (added_item_view codec g clock e))
          (λ _. recalculate codec g clock (parsed codec e.order_id)) s h in
      let (created, views, rows) = upsert_order_item_view-new g codec clock e s t stored absent in
      let (n, kept, written) = recalculate-rows g codec clock (parsed codec e.order_id) t s' ran in
      (created, rw kept rows)

  pub added-Shows :
      (a : Account) (e : OrderItemAdded) (s s' : Db)
      → parsed codec e.order_id ≡ id
      → codec.to_string (parsed codec e.item_id) ≡ e.item_id
      → count (item_view_has_id (parsed codec e.item_id)) s.order_item_views ≡ 0
      → 0 < line_price (line_of e)
      → lines_total (a.lines ++ line_of e ∷ []) < half
      → Shows codec id a s
      → project_event codec g clock id (order_item_added e) s ≡ (ok tt, s')
      → Shows codec id (apply_event a (order_item_added e)) s'
  unfolding updated_view
  added-Shows a e s s' mine printed absent positive small shown h =
      let (u, t, stored, ran) =
        >>=-eq-ok (upsert_order_item_view g (added_item_view codec g clock e))
          (λ _. recalculate codec g clock (parsed codec e.order_id)) s h in
      let b = apply_event a (order_item_added e) in
      let (created, views, rows) = upsert_order_item_view-new g codec clock e s t stored absent in
      let items : (f : Line → ℕ → ℕ)
          → total (λ m. f (shown_line codec m) m.total_price)
              (select (item_view_of id) t.order_item_views)
            ≡ total (λ l. f l (line_price l)) b.lines =
        λ f.
          added-items a e created s.order_item_views t.order_item_views mine printed rows f
            (shown.items f) in
      let amount = items_total id t.order_item_views % modulus in
      let sum : amount ≡ lines_total b.lines = omega (arith, items (λ l x. x), small) in
      let bigger : 0 < lines_total b.lines =
        omega (arith, positive, total-append line_price a.lines (line_of e ∷ [])) in
      let above : slt 0 amount ≡ true = rw sum (slt-zero← (lines_total b.lines) bigger small) in
      let ran' = subst (λ i. recalculate codec g clock i t ≡ (ok tt, s')) mine ran in
      let (n, kept, written) = recalculate-rows g codec clock id t s' ran' in
      let f = updated_view (clock 1) "" amount n in
      let written' =
        subst (λ v. Perm s'.order_views (map (λ x. if view_has_id id x then f x else x) v)) views
          written in
      let (one, view) =
        updated-views codec id a b s.order_views s'.order_views f written' (λ v. refl)
          (λ v k. ground (arith, k, above, sum)) shown.one shown.view in
      record {
        one = one;
        view = view;
        items = λ k.
            ap (λ x. total (λ m. k (shown_line codec m) m.total_price) (select (item_view_of id) x))
              kept
            ∙ items k;
      }
