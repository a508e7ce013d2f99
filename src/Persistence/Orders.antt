-- ===== src/Persistence/Orders.antt =====
-- The order repository: internal/infrastructure/persistence/order_repository.go.
pub mod Statements
pub mod Reload
pub mod Conflict
pub mod Shelves
use code_base_ddd.Prelude.{
  ℕ, Bool, ◌&&◌, Option, none, some, List, [], ◌∷◌, length, ◌==◌, ltb, if◌then◌else◌,
}
use code_base_ddd.Error.{sentinel, err_order_not_found, err_concurrency_conflict}
use code_base_ddd.Effect.{Effect, pure, fail, ◌>>=◌, ◌>>◌}
use code_base_ddd.Gorm.{Answer, done, failed}
use code_base_ddd.Domain.Values.{OrderId}
use code_base_ddd.Domain.Order.{Order, increment_version}
use code_base_ddd.Persistence.Models.{OrderModel, OrderItemModel}
use code_base_ddd.Persistence.Mapper.{to_order_model, to_order_item_models, to_domain_order}
use code_base_ddd.Persistence.Database.{
  Db, Gorm, answer, change, change_count, put_orders, put_order_items,
}

-- The conditions of the repository's statements.
abbrev pub has_id : ℕ → OrderModel → Bool
has_id id m = m.id == id

abbrev pub has_id_and_version : OrderModel → OrderModel → Bool
has_id_and_version model m = m.id == model.id && m.version == model.version

abbrev pub of_order : ℕ → OrderItemModel → Bool
of_order id m = m.order_id == id

-- `Count(&count)` whose error is not looked at: the count stays 0.
abbrev pub counted : Answer ℕ → ℕ
counted (done n) = n
counted (failed text) = 0

module _ (g : Gorm) where
  -- What `Save` does where the first statement affected no row.
  unfoldable pub insert_order : OrderModel → Effect Db (Unit {0})
  insert_order model s =
      if ltb 0 (counted (g.orders.count (has_id model.id) s.orders))
      then fail (sentinel err_concurrency_conflict) s
      else change put_orders (g.orders.create (model ∷ []) s.orders) s

  unfoldable pub replace_items : OrderModel → List OrderItemModel → Effect Db (Unit {0})
  replace_items model item_models = do
    λ s. change put_order_items (g.order_items.delete (of_order model.id) s.order_items) s
    λ s.
        if ltb 0 (length item_models)
        then change put_order_items (g.order_items.create item_models s.order_items) s
        else pure tt s

  unfoldable pub save_order : OrderModel → Effect Db (Unit {0})
  unfolding insert_order
  save_order model = do
    affected ←
        λ s. change_count put_orders (g.orders.save (has_id_and_version model) model s.orders) s
    λ s. if affected == 0 then insert_order model s else pure tt s

  -- `Save`: it returns the order with its version bumped.
  unfoldable pub save : Order → Effect Db Order
  save o = do
    save_order (to_order_model o)
    replace_items (to_order_model o) (to_order_item_models o)
    pure (increment_version o)

  unfoldable pub find_by_id : OrderId → Effect Db Order
  unfolding to_domain_order
  find_by_id id s = elim (g.orders.first (has_id id.value) s.orders) [
    | failed text ↦ answer (failed text) s
    | done none ↦ fail (sentinel err_order_not_found) s
    | done (some model) ↦
        (do
          item_models ← λ t. answer (g.order_items.find (of_order model.id) t.order_items) t
          pure (to_domain_order model item_models))
          s
  ]
