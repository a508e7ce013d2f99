-- ===== src/Application/Projection/Convergence/Steps.antt =====
-- What each of the three events does to the rows of an order in the read model.
use mathlib.Core.Path.{subst}
use code_base_ddd.Prelude.{
  ℕ, ◌%◌, ◌≤◌, ◌≡◌, refl, ap, ◌∙◌, inl, inr, String, Bool, true, ◌&&◌, List, [], ◌∷◌, map, Perm,
  total, count, select-eq-nil, arith, Bool-cases, if◌then◌else◌,
}
use code_base_ddd.Effect.{Effect, ok, pure, Outcome-cases, >>=-eq-ok}
use code_base_ddd.Int64.{modulus, mul64}
use code_base_ddd.Uuid.{Uuid, UuidCodec}
use code_base_ddd.Domain.Values.{Time}
use code_base_ddd.Domain.Events.{OrderCreated, OrderItemAdded}
use code_base_ddd.Domain.Order.Replay.{Line}
use code_base_ddd.Persistence.Database.{
  Db, Gorm, change_count, change-eq-ok, change_count-eq-ok, put_order_views, put_order_item_views,
}
use code_base_ddd.Persistence.ReadModels.{
  view_has_id, item_view_of, item_view_has_id, updated_view, counted_items, get_order_by_id,
  order_view_model, item_view_model, upsert_order_view, upsert_order_item_view, update_order_status,
}
use code_base_ddd.Application.Projection.{
  sum_items, parsed, created_view, added_item_view, recalculate,
}
use code_base_ddd.Application.Projection.Recalculation.{
  items_total, get_order_by_id-ok, sum_items-mod, sum_items-lt,
}

abbrev pub line_price : Line → ℕ
line_price l = mul64 l.unit_price l.quantity

abbrev pub lines_total : List Line → ℕ
lines_total = total line_price

-- Rows that are changed where they pass `p`: one that passed `q` as well passes `r` afterwards.
pub count-update_move :
    {A : Type 0} (p q r : A → Bool) (f : A → A) (t : List A)
    → ((x : A) → p x ≡ true → p (f x) ≡ true)
    → ((x : A) → p x ≡ true → q x ≡ true → r (f x) ≡ true)
    → count (λ x. p x && q x) t ≤ count (λ x. p x && r x) (map (λ x. if p x then f x else x) t)
count-update_move p q r f [] h k = omega arith
count-update_move p q r f (x ∷ t) h k = elim (Bool-cases (p x)) [
  | inr e ↦ rw e (ground (arith, e, count-update_move p q r f t h k))
  | inl e ↦ elim (Bool-cases (q x)) [
    | inl y ↦ rw (e, y, h x e, k x e y) (ground (arith, count-update_move p q r f t h k))
    | inr y ↦ rw (e, y) (ground (arith, count-update_move p q r f t h k))
  ]
]

pub count-update_same :
    {A : Type 0} (p : A → Bool) (f : A → A) (t : List A)
    → ((x : A) → p (f x) ≡ p x)
    → count p (map (λ x. if p x then f x else x) t) ≡ count p t
count-update_same p f [] h = refl
count-update_same p f (x ∷ t) h = elim (Bool-cases (p x)) [
  | inl e ↦ rw (e, h x, e) (ground (arith, count-update_same p f t h))
  | inr e ↦ rw (e, e) (ground (arith, count-update_same p f t h))
]

module _ (g : Gorm) where
  -- UpdateOrderStatus leaves the items alone and writes to the views of the order.
  pub update_order_status-rows :
      (now : Time) (id : Uuid) (status : String) (amount : ℕ) (s s' : Db)
      → update_order_status g now id status amount s ≡ (ok tt, s')
      → (n : ℕ) × (s'.order_item_views ≡ s.order_item_views)
        × Perm s'.order_views (
            map
              (λ v. if view_has_id id v then updated_view now status amount n v else v)
              s.order_views)
  unfolding update_order_status
  update_order_status-rows now id status amount s s' k =
      let n = counted_items (g.order_item_views.count (item_view_of id) s.order_item_views) in
      let f = updated_view now status amount n in
      let statement : Effect Db ℕ = λ u.
        change_count put_order_views (g.order_views.updates (view_has_id id) f u.order_views) u in
      let (affected, s'', ran, ended) = >>=-eq-ok statement (λ _. pure tt) s k in
      let (t, written, put) =
        change_count-eq-ok put_order_views (g.order_views.updates (view_has_id id) f s.order_views)
          s ran in
      let final : put_order_views t s ≡ s' = put ∙ ap (λ r. r.1) ended in
      let rows =
        (g.order_views.updates-perm (view_has_id id) f s.order_views t affected written).1 in
      (n, rw (← final) refl, rw (← final) rows)

  -- The second half of handleOrderItemAdded: the views get the sum of the items.
  pub recalculate-rows :
      (codec : UuidCodec) (clock : ℕ → Time) (id : Uuid) (s s' : Db)
      → recalculate codec g clock id s ≡ (ok tt, s')
      → (n : ℕ) × (s'.order_item_views ≡ s.order_item_views)
        × Perm s'.order_views (
            map
              (λ v.
                if view_has_id id v
                then updated_view (clock 1) "" (items_total id s.order_item_views % modulus) n v
                else v)
              s.order_views)
  unfolding recalculate
  recalculate-rows codec clock id s s' h = elim (Outcome-cases (get_order_by_id g id s)) [
    | inr (e, t, failed) ↦ absurd (ground arith)
    | inl ((v, items), t, got) ↦
        let (same, price) = get_order_by_id-ok g id s t v items got in
        let sum : sum_items 0 items ≡ items_total id s.order_item_views % modulus =
          omega (arith, price, sum_items-mod 0 items, sum_items-lt 0 items (omega arith)) in
        let ran : update_order_status g (clock 1) id ""
              (items_total id s.order_item_views % modulus) s
            ≡ (ok tt, s') =
          ground arith in
        update_order_status-rows (clock 1) id "" (items_total id s.order_item_views % modulus) s s'
          ran
  ]

  -- Upserting an item that no row has the identifier of adds its row.
  pub upsert_order_item_view-new :
      (codec : UuidCodec) (clock : ℕ → Time) (e : OrderItemAdded) (s s' : Db)
      → upsert_order_item_view g (added_item_view codec g clock e) s ≡ (ok tt, s')
      → count (item_view_has_id (parsed codec e.item_id)) s.order_item_views ≡ 0
      → (created : Time) × (s'.order_views ≡ s.order_views)
        × Perm s'.order_item_views (
            record (item_view_model (added_item_view codec g clock e)) { created_at = created }
            ∷ s.order_item_views)
  unfolding upsert_order_item_view
  upsert_order_item_view-new codec clock e s s' h absent =
      let row = item_view_model (added_item_view codec g clock e) in
      let p = item_view_has_id (parsed codec e.item_id) in
      let (t, made, put) =
        change-eq-ok put_order_item_views
          (g.order_item_views.assign_or_create p row s.order_item_views) s h in
      let (created, kept) = g.item_view_stored row in
      let rows =
        g.order_item_views.assign_or_create-missing p row s.order_item_views t made
          (select-eq-nil p s.order_item_views absent) in
      (
        created,
        rw (← put) refl,
        rw (← put) (subst (λ r. Perm t (r ∷ s.order_item_views)) kept rows),
      )

  -- Upserting a view that no row has the identifier of adds its row.
  pub upsert_order_view-new :
      (codec : UuidCodec) (clock : ℕ → Time) (e : OrderCreated) (s s' : Db)
      → upsert_order_view g (created_view codec g clock e) s ≡ (ok tt, s')
      → count (view_has_id (parsed codec e.id)) s.order_views ≡ 0
      → (created : Time) × (updated : Time) × (s'.order_item_views ≡ s.order_item_views)
        × Perm s'.order_views (
            record (order_view_model (created_view codec g clock e)) {
              created_at = created;
              updated_at = updated;
            }
            ∷ s.order_views)
  unfolding upsert_order_view
  upsert_order_view-new codec clock e s s' h absent =
      let row = order_view_model (created_view codec g clock e) in
      let p = view_has_id (parsed codec e.id) in
      let (t, made, put) =
        change-eq-ok put_order_views (g.order_views.assign_or_create p row s.order_views) s h in
      let (created, updated, kept) = g.order_view_stored row in
      let rows =
        g.order_views.assign_or_create-missing p row s.order_views t made
          (select-eq-nil p s.order_views absent) in
      (
        created,
        updated,
        rw (← put) refl,
        rw (← put) (subst (λ r. Perm t (r ∷ s.order_views)) kept rows),
      )
