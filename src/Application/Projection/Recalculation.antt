-- ===== src/Application/Projection/Recalculation.antt =====
-- The totals that the projection writes to the view of an order.
use code_base_ddd.Prelude.{
  ℕ, ◌+◌, ◌%◌, ◌<◌, ◌≡◌, refl, ap, ◌∙◌, inl, inr, String, Bool, true, none, some, not, ◌&&◌, List,
  [], ◌∷◌, map, select, total, count, total-perm, select-eq-nil, arith, Bool-cases, ◌==◌,
  if◌then◌else◌,
}
use code_base_ddd.Effect.{ok, pure, Effect, Outcome-cases, >>=-eq-ok}
use code_base_ddd.Gorm.{Answer-cases}
use code_base_ddd.Int64.{modulus, add64, slt}
use code_base_ddd.Uuid.{Uuid, UuidCodec}
use code_base_ddd.Domain.Values.{Time}
use code_base_ddd.Domain.Events.{OrderItemAdded}
use code_base_ddd.Ports.{OutboxEvent, OrderView, OrderItemView}
use code_base_ddd.Persistence.Models.{OrderViewModel, OrderItemViewModel}
use code_base_ddd.Persistence.Database.{Db, Gorm, change_count, change_count-eq-ok, put_order_views}
use code_base_ddd.Persistence.Outbox.Payload.{unmarshal_item_added}
use code_base_ddd.Persistence.ReadModels.{
  to_item_view, view_has_id, item_view_of, updated_view, counted_items, get_order_by_id,
  upsert_order_item_view, update_order_status,
}
use code_base_ddd.Application.Projection.{
  sum_items, parsed, handle_order_item_added, added_item_view, recalculate,
}

-- The items of an order in the read model, added up with no wrap-around.
abbrev pub items_total : Uuid → List OrderItemViewModel → ℕ
items_total id t = total (λ i. i.total_price) (select (item_view_of id) t)

-- A view of the order with another total.
abbrev pub other_total : Uuid → ℕ → OrderViewModel → Bool
other_total id amount v = view_has_id id v && not (v.total_amount == amount)

pub sum_items-mod :
    (acc : ℕ) (items : List OrderItemView)
    → sum_items acc items % modulus ≡ (acc + total (λ i. i.total_price) items) % modulus
unfolding sum_items
sum_items-mod acc [] = omega arith
sum_items-mod acc (i ∷ items) = omega (arith, sum_items-mod (add64 acc i.total_price) items)

pub sum_items-lt :
    (acc : ℕ) (items : List OrderItemView) → acc < modulus → sum_items acc items < modulus
unfolding sum_items
sum_items-lt acc [] h = h
sum_items-lt acc (i ∷ items) h = sum_items-lt (add64 acc i.total_price) items (omega arith)

total-to_item_view :
    (t : List OrderItemViewModel)
    → total (λ i. i.total_price) (map to_item_view t) ≡ total (λ i. i.total_price) t
total-to_item_view [] = refl
total-to_item_view (m ∷ t) = omega (arith, total-to_item_view t)

no_other :
    (now : Time) (status : String) (amount items : ℕ) (id : Uuid) (t : List OrderViewModel)
    → slt 0 amount ≡ true
    → count
        (other_total id amount)
        (map (λ v. if view_has_id id v then updated_view now status amount items v else v) t)
      ≡ 0
unfolding updated_view
no_other now status amount items id [] h = refl
no_other now status amount items id (v ∷ t) h = elim (Bool-cases (view_has_id id v)) [
  | inl mine ↦
      let same : (amount == amount) ≡ true = ground arith in
      rw (mine, h, same) (ground (arith, no_other now status amount items id t h))
  | inr other ↦ rw other (ground (arith, other, no_other now status amount items id t h))
]

module _ (g : Gorm) where
  pub get_order_by_id-ok :
      (id : Uuid) (s s' : Db) (v : OrderView) (items : List OrderItemView)
      → get_order_by_id g id s ≡ (ok (v, items), s')
      → (s ≡ s') × (total (λ i. i.total_price) items ≡ items_total id s.order_item_views)
  unfolding get_order_by_id
  get_order_by_id-ok id s s' v items h =
      elim (Answer-cases (g.order_views.first (view_has_id id) s.order_views)) [
        | inr (text, failed) ↦ absurd (ground arith)
        | inl (none, found) ↦ absurd (ground arith)
        | inl (some m, found) ↦
            elim (Answer-cases (g.order_item_views.find (item_view_of id) s.order_item_views)) [
              | inr (text, failed) ↦ absurd (ground arith)
              | inl (ms, listed) ↦
                  let same : s ≡ s' = ground arith in
                  let rows : map to_item_view ms ≡ items = ground arith in
                  let perm =
                    g.order_item_views.find-perm (item_view_of id) s.order_item_views ms listed in
                  let price = total-perm (λ i. i.total_price) perm in
                  (same, rw (← rows) (total-to_item_view ms ∙ price))
            ]
      ]

  update_order_status-ok :
      (now : Time) (id : Uuid) (status : String) (amount : ℕ) (s s' : Db)
      → update_order_status g now id status amount s ≡ (ok tt, s')
      → (s'.order_item_views ≡ s.order_item_views)
        × (slt 0 amount ≡ true → select (other_total id amount) s'.order_views ≡ [])
  unfolding update_order_status
  update_order_status-ok now id status amount s s' k =
      let n = counted_items (g.order_item_views.count (item_view_of id) s.order_item_views) in
      let f = updated_view now status amount n in
      let statement : Effect Db ℕ = λ u.
        change_count put_order_views (g.order_views.updates (view_has_id id) f u.order_views) u in
      let (affected, s'', ran, ended) = >>=-eq-ok statement (λ _. pure tt) s k in
      let (t, written, put) =
        change_count-eq-ok put_order_views (g.order_views.updates (view_has_id id) f s.order_views)
          s ran in
      let final : put_order_views t s ≡ s' = put ∙ ap (λ r. r.1) ended in
      let rows =
        (g.order_views.updates-perm (view_has_id id) f s.order_views t affected written).1 in
      let tally = total-perm (λ v. if other_total id amount v then 1 else 0) rows in
      (
        rw (← final) refl,
        λ h. rw (← final) (
            select-eq-nil (other_total id amount) t
              (tally ∙ no_other now status amount n id s.order_views h)),
      )

  recalculate-ok :
      (codec : UuidCodec) (clock : ℕ → Time) (id : Uuid) (s s' : Db)
      → recalculate codec g clock id s ≡ (ok tt, s')
      → (s'.order_item_views ≡ s.order_item_views)
        × (slt 0 (items_total id s.order_item_views % modulus) ≡ true
            → select (other_total id (items_total id s.order_item_views % modulus)) s'.order_views
              ≡ [])
  unfolding recalculate
  recalculate-ok codec clock id s s' h = elim (Outcome-cases (get_order_by_id g id s)) [
    | inr (e, t, failed) ↦ absurd (ground arith)
    | inl ((v, items), t, got) ↦
        let (same, price) = get_order_by_id-ok id s t v items got in
        let sum : sum_items 0 items ≡ items_total id s.order_item_views % modulus =
          omega (arith, price, sum_items-mod 0 items, sum_items-lt 0 items (omega arith)) in
        let ran : update_order_status g (clock 1) id ""
              (items_total id s.order_item_views % modulus) s
            ≡ (ok tt, s') =
          ground arith in
        update_order_status-ok (clock 1) id "" (items_total id s.order_item_views % modulus) s s'
          ran
  ]

  -- After a `handleOrderItemAdded` that succeeds, if the sum of the order's items in the read model,
  -- modulo 2^64, is above zero as an int64, then every view of the order has it as its total.
  pub handle_order_item_added-total :
      (codec : UuidCodec) (clock : ℕ → Time) (event : OutboxEvent) (e : OrderItemAdded) (s s' : Db)
      → unmarshal_item_added event.payload ≡ ok e
      → slt 0 (items_total (parsed codec e.order_id) s'.order_item_views % modulus) ≡ true
      → handle_order_item_added codec g clock event s ≡ (ok tt, s')
      → select
          (other_total
            (parsed codec e.order_id)
            (items_total (parsed codec e.order_id) s'.order_item_views % modulus))
          s'.order_views
        ≡ []
  unfolding handle_order_item_added
  handle_order_item_added-total codec clock event e s s' decoded positive h =
      let id = parsed codec e.order_id in
      elim (Outcome-cases (upsert_order_item_view g (added_item_view codec g clock e) s)) [
        | inr (why, t, failed) ↦ absurd (ground arith)
        | inl (u, t, stored) ↦
            let ran : recalculate codec g clock id t ≡ (ok tt, s') = ground arith in
            let (kept, exact) = recalculate-ok codec clock id t s' ran in
            let same = ap (λ v. items_total id v % modulus) kept in
            let clear = exact (rw (← same) positive) in rw same clear
      ]
