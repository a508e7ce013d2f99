-- ===== src/Persistence/Orders/Conflict.antt =====
-- The optimistic version check of `Save`: what a row's version guards against, and what not.
use code_base_ddd.Prelude.{
  ◌≡◌, ap, ◌≢◌, ◌∙◌, false, ◌&&◌, not, inl, inr, [], select, reject, select-perm, arith,
}
use code_base_ddd.Error.{sentinel, err_concurrency_conflict}
use code_base_ddd.Effect.{ok, err, Outcome-cases}
use code_base_ddd.Gorm.{Answer-cases}
use code_base_ddd.Gorm.Rows.{select-reject, perm-nil}
use code_base_ddd.Domain.Order.{Order}
use code_base_ddd.Persistence.Models.{OrderModel, same_order}
use code_base_ddd.Persistence.Mapper.{to_order_model, to_order_item_models}
use code_base_ddd.Persistence.Database.{Db, Gorm}
use code_base_ddd.Persistence.Orders.{
  has_id_and_version, save_order, replace_items, save, find_by_id,
}
use code_base_ddd.Persistence.Orders.Statements.{IsCurrent, save_order-perm, replace_items-perm}
use code_base_ddd.Persistence.Orders.Reload.{Agrees, save-parts, find_by_id-save}

module _ (g : Gorm) where
  -- Where every row of the order has its version, the check cannot fail.
  save_order_no_conflict :
      (m : OrderModel) (s : Db)
      → IsCurrent m s
      → (save_order g m s).0 ≢ err (sentinel err_concurrency_conflict)
  unfolding save_order
  save_order_no_conflict m s current h =
      elim (Answer-cases (g.orders.save (has_id_and_version m) m s.orders)) [
        | inl ((n, t), e) ↦
            let (pos, _) = g.orders.save-perm _ m s.orders t n current e in absurd (ground arith)
        | inr (text, e) ↦ absurd (ground arith)
      ]

  -- The statements on the items fail with the library's errors alone.
  replace_items_no_conflict :
      (m : OrderModel) (o : Order) (s : Db)
      → (replace_items g m (to_order_item_models o) s).0 ≢ err (sentinel err_concurrency_conflict)
  unfolding replace_items
  replace_items_no_conflict m o s h = ground arith

  pub save_no_conflict :
      (o : Order) (s : Db)
      → IsCurrent (to_order_model o) s
      → (save g o s).0 ≢ err (sentinel err_concurrency_conflict)
  unfolding save
  save_no_conflict o s current h =
      let no_conflict = save_order_no_conflict (to_order_model o) s current in
      elim (Outcome-cases (save_order g (to_order_model o) s)) [
        | inl (_, s₁, e) ↦ ground (arith, replace_items_no_conflict (to_order_model o) o s₁)
        | inr (x, s₁, e) ↦ absurd (ground arith)
      ]

  -- A save leaves the version of the row as it was: the database stays current for every holder of
  -- the order at that version.
  pub save-IsCurrent :
      (o o' other : Order) (s s' : Db)
      → IsCurrent (to_order_model o) s
      → save g o s ≡ (ok o', s')
      → other.id ≡ o.id
      → other.version ≡ o.version
      → IsCurrent (to_order_model other) s'
  unfolding to_order_model
  save-IsCurrent o o' other s s' current saved same_id same_version =
      let m = to_order_model other in
      let stale = λ (r : OrderModel). same_order m r && not (has_id_and_version m r) in
      let (s₁, wrote, replaced, _) = save-parts g o s saved in
      let (created, updated, kept) = g.order_stored (to_order_model o) in
      let same_value : other.id.value ≡ o.id.value = ap (λ x. x.value) same_id in
      let fresh : stale (g.orders.stored (to_order_model o)) ≡ false = rw kept (ground arith) in
      let gone : select stale (reject (same_order (to_order_model o)) s.orders) ≡ [] =
        select-reject stale (same_order (to_order_model o)) s.orders (λ r q. ground arith) in
      let rows = select-perm stale (save_order-perm g (to_order_model o) s s₁ current wrote).0 in
      let clean = perm-nil rows (rw (fresh, gone)) in
      rw (replace_items-perm g (to_order_model o) _ s₁ s' replaced).1 clean

  -- Two holders of an order at one version, on a database where its row has that version: after
  -- the first has saved, the save of the second does not return ErrConcurrencyConflict.
  pub save_undetected :
      (o o' other : Order) (s s' : Db)
      → IsCurrent (to_order_model o) s
      → other.id ≡ o.id
      → other.version ≡ o.version
      → save g o s ≡ (ok o', s')
      → (save g other s').0 ≢ err (sentinel err_concurrency_conflict)
  save_undetected o o' other s s' current same_id same_version saved =
      save_no_conflict other s' (save-IsCurrent o o' other s s' current saved same_id same_version)

  -- If the second save succeeds too, what is read back next is the second holder's order: its
  -- status, lines and total, whatever the first had saved, at the version that both started from.
  pub save_overwrites :
      (o o' other other' l : Order) (s s' s'' t : Db)
      → IsCurrent (to_order_model o) s
      → other.id ≡ o.id
      → other.version ≡ o.version
      → save g o s ≡ (ok o', s')
      → save g other s' ≡ (ok other', s'')
      → find_by_id g other.id s'' ≡ (ok l, t)
      → Agrees other l × (l.version ≡ o.version)
  save_overwrites o o' other other' l s s' s'' t current same_id same_version saved saved' found =
      let kept = save-IsCurrent o o' other s s' current saved same_id same_version in
      let agrees = (find_by_id-save g other other' l s' s'' t kept saved' found).0 in
      (agrees, agrees.version ∙ same_version)
