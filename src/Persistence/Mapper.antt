-- ===== src/Persistence/Mapper.antt =====
-- Between orders and rows: internal/infrastructure/persistence/mapper.go.
use code_base_ddd.Prelude.{List, map}
use code_base_ddd.Domain.Values.{OrderItem, reconstruct_order_item}
use code_base_ddd.Domain.Order.{Order, total_amount, reconstruct_order}
use code_base_ddd.Persistence.Models.{OrderModel, OrderItemModel}

unfoldable pub to_order_model : Order → OrderModel
to_order_model o = record {
  id = o.id.value;
  customer_id = o.customer_id.value;
  status = o.status;
  total_amount = (total_amount o).amount;
  version = o.version;
  created_at = o.created_at;
  updated_at = o.updated_at;
}

-- `CreatedAt` is left at the zero time, 0.
abbrev pub to_order_item_model : Order → OrderItem → OrderItemModel
to_order_item_model o item = record {
  id = item.id;
  order_id = o.id.value;
  product_id = item.product_id;
  product_name = item.product_name;
  quantity = item.quantity;
  unit_price = item.unit_price.amount;
  created_at = 0;
}

unfoldable pub to_order_item_models : Order → List OrderItemModel
to_order_item_models o = map (to_order_item_model o) o.items

abbrev pub to_domain_item : OrderItemModel → OrderItem
to_domain_item m = reconstruct_order_item m.id m.product_id m.product_name m.quantity m.unit_price

unfoldable pub to_domain_order : OrderModel → List OrderItemModel → Order
unfolding reconstruct_order
to_domain_order m item_models =
    reconstruct_order m.id m.customer_id m.status m.version m.created_at m.updated_at
      (map to_domain_item item_models)
