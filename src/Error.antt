-- ===== src/Error.antt =====
-- Errors (internal/domain/order/errors.go), and errors wrapped by `fmt.Errorf` with `%w`.
use code_base_ddd.Prelude.{String}

-- The sentinel errors of the package `order`.
pub data Sentinel : Type 0 where
  err_order_not_found : Sentinel
  err_item_not_found : Sentinel
  err_order_not_modifiable : Sentinel
  err_no_items : Sentinel
  err_invalid_quantity : Sentinel
  err_invalid_price : Sentinel
  err_concurrency_conflict : Sentinel
  err_invalid_customer_id : Sentinel

-- An error value: a sentinel, one that a library returns with its text, or one wrapped by
-- `fmt.Errorf("prefix: %w", err)`.
pub data Error : Type 0 where
  sentinel : Sentinel → Error
  library : String → Error
  wrap : String → Error → Error
