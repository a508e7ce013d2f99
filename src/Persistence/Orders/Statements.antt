-- ===== src/Persistence/Orders/Statements.antt =====
-- What the two halves of `Save` do to the tables when they succeed.
use mathlib.Core.List.Perm
use code_base_ddd.Prelude.{
  ◌≡◌, refl, ◌&&◌, not, inl, inr, List, [], ◌∷◌, ◌++◌, map, Perm, select, reject, ◌==◌, Bool-cases,
  arith,
}
use code_base_ddd.Effect.{ok}
use code_base_ddd.Gorm.{Answer-cases}
use code_base_ddd.Persistence.Models.{OrderModel, OrderItemModel, same_order}
use code_base_ddd.Persistence.Database.{Db, Gorm, put_orders, put_order_items}
use code_base_ddd.Persistence.Orders.{has_id_and_version, of_order, save_order, replace_items}

-- Every row with the primary key of the model has the version of the model. (No row may have it.)
abbrev pub IsCurrent : OrderModel → Db → Type 0
IsCurrent model s =
    select (λ m. same_order model m && not (has_id_and_version model m)) s.orders ≡ []

module _ (g : Gorm) where
  pub save_order-perm :
      (model : OrderModel) (s s' : Db)
      → IsCurrent model s
      → save_order g model s ≡ (ok tt, s')
      → Perm s'.orders (g.orders.stored model ∷ reject (same_order model) s.orders)
        × (s'.order_items ≡ s.order_items)
  unfolding save_order
  save_order-perm model s s' current h =
      elim (Answer-cases (g.orders.save (has_id_and_version model) model s.orders)) [
        | inl ((n, t), e) ↦
            let (pos, rows) = g.orders.save-perm _ model s.orders t n current e in
            let final : put_orders t s ≡ s' = ground arith in (rw (← final) rows, rw (← final) refl)
        | inr (text, e) ↦ absurd (ground arith)
      ]

  -- The statements on the orders touch no event of the outbox.
  pub save_order-outbox :
      (model : OrderModel) (s s' : Db)
      → save_order g model s ≡ (ok tt, s')
      → s'.outbox_events ≡ s.outbox_events
  unfolding save_order
  save_order-outbox model s s' h =
      elim (Answer-cases (g.orders.save (has_id_and_version model) model s.orders)) [
        | inl ((n, t), e) ↦ elim (Bool-cases (n == 0)) [
          | inl none_hit ↦ elim (Answer-cases (g.orders.create (model ∷ []) t)) [
            | inl (u, e') ↦ ground arith
            | inr (text, e') ↦ ground arith
          ]
          | inr some_hit ↦ ground arith
        ]
        | inr (text, e) ↦ absurd (ground arith)
      ]

  pub replace_items-perm :
      (model : OrderModel) (ims : List OrderItemModel) (s s' : Db)
      → replace_items g model ims s ≡ (ok tt, s')
      → Perm s'.order_items
          (map g.order_items.stored ims ++ reject (of_order model.id) s.order_items)
        × (s'.orders ≡ s.orders)
        × (s'.outbox_events ≡ s.outbox_events)
  unfolding replace_items
  replace_items-perm model [] s s' h =
      elim (Answer-cases (g.order_items.delete (of_order model.id) s.order_items)) [
        | inl (t, e) ↦
            let final : put_order_items t s ≡ s' = ground arith in
            (rw (← final) (g.order_items.delete-perm _ _ t e), rw (← final) refl, rw (← final) refl)
        | inr (text, e) ↦ absurd (ground arith)
      ]
  replace_items-perm model (im ∷ ims) s s' h =
      elim (Answer-cases (g.order_items.delete (of_order model.id) s.order_items)) [
        | inl (t, e) ↦ elim (Answer-cases (g.order_items.create (im ∷ ims) t)) [
          | inl (t', e') ↦
              let final : put_order_items t' s ≡ s' = ground arith in
              (
                rw (← final) (
                    Perm.trans (g.order_items.create-perm _ t t' e') (
                      Perm.append_left (map g.order_items.stored (im ∷ ims))
                        (g.order_items.delete-perm _ _ t e))),
                rw (← final) refl,
                rw (← final) refl,
              )
          | inr (text, e') ↦ absurd (ground arith)
        ]
        | inr (text, e) ↦ absurd (ground arith)
      ]
