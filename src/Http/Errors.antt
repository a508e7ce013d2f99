-- ===== src/Http/Errors.antt =====
-- The status of an error: internal/interfaces/http/error_mapper.go.
use Prim.Native.String
use code_base_ddd.Prelude.{
  ℕ, ◌≤◌, ◌≡◌, refl, sym, ap, ◌∙◌, String, Bool, false, ◌==◌, if◌then◌else◌, arith,
}
use code_base_ddd.Error.{
  Sentinel, Error, sentinel, library, wrap, err_order_not_found, err_item_not_found,
  err_order_not_modifiable, err_no_items, err_invalid_quantity, err_invalid_price,
  err_concurrency_conflict, err_invalid_customer_id,
}

-- A number for each sentinel, by which two are compared.
abbrev index : Sentinel → ℕ
index err_order_not_found = 0
index err_item_not_found = 1
index err_order_not_modifiable = 2
index err_no_items = 3
index err_invalid_quantity = 4
index err_invalid_price = 5
index err_concurrency_conflict = 6
index err_invalid_customer_id = 7

-- `errors.Is(err, s)`: the error, or one that it wraps, is the sentinel.
abbrev pub is_error : Error → Sentinel → Bool
is_error (sentinel t) s = index t == index s
is_error (library text) s = false
is_error (wrap prefix e) s = is_error e s

unfoldable pub sentinel_text : Sentinel → String
sentinel_text err_order_not_found = "order not found"
sentinel_text err_item_not_found = "order item not found"
sentinel_text err_order_not_modifiable = "order is not in a modifiable state"
sentinel_text err_no_items = "order must have at least one item to confirm"
sentinel_text err_invalid_quantity = "quantity must be greater than zero"
sentinel_text err_invalid_price = "unit price must be greater than zero"
sentinel_text err_concurrency_conflict = "order has been modified by another process"
sentinel_text err_invalid_customer_id = "customer id is required"

-- `err.Error()`
unfoldable pub error_text : Error → String
error_text (sentinel s) = sentinel_text s
error_text (library text) = text
error_text (wrap prefix e) = String.◌++◌ prefix (String.◌++◌ ": " (error_text e))

unfoldable pub map_error : Error → String × ℕ × String
map_error e =
    if is_error e err_order_not_found
    then ("ORDER_NOT_FOUND", 404, error_text e)
    else (if is_error e err_item_not_found
        then ("ITEM_NOT_FOUND", 404, error_text e)
        else (if is_error e err_order_not_modifiable
            then ("ORDER_NOT_MODIFIABLE", 409, error_text e)
            else (if is_error e err_no_items
                then ("NO_ITEMS", 422, error_text e)
                else (if is_error e err_invalid_quantity
                    then ("INVALID_QUANTITY", 400, error_text e)
                    else (if is_error e err_invalid_price
                        then ("INVALID_PRICE", 400, error_text e)
                        else (if is_error e err_concurrency_conflict
                            then ("CONCURRENCY_CONFLICT", 409, error_text e)
                            else (if is_error e err_invalid_customer_id
                                then ("INVALID_CUSTOMER_ID", 400, error_text e)
                                else ("INTERNAL_ERROR", 500, "An unexpected error occurred"))))))))

-- The innermost error, under all that was wrapped around it.
abbrev pub root : Error → Error
root (sentinel s) = sentinel s
root (library text) = library text
root (wrap prefix e) = root e

is_error-root : (e : Error) (s : Sentinel) → is_error (root e) s ≡ is_error e s
is_error-root (sentinel t) s = refl
is_error-root (library text) s = refl
is_error-root (wrap prefix e) s = is_error-root e s

same_answer :
    (prefix : String) (e : Error)
    → ((map_error (wrap prefix e)).0 ≡ (map_error e).0)
      × ((map_error (wrap prefix e)).1 ≡ (map_error e).1)
unfolding map_error
same_answer prefix e = ground arith

-- The code and the status that go out are those of the innermost error, however often it was
-- wrapped.
pub map_error-root :
    (e : Error)
    → ((map_error e).0 ≡ (map_error (root e)).0) × ((map_error e).1 ≡ (map_error (root e)).1)
map_error-root (sentinel s) = (refl, refl)
map_error-root (library text) = (refl, refl)
map_error-root (wrap prefix e) =
    let (code, status) = same_answer prefix e in
    let (code', status') = map_error-root e in (code ∙ code', status ∙ status')

-- An error that is at root no sentinel goes out as an internal error, and nothing of its text does.
pub map_error-internal :
    (e : Error) (text : String)
    → root e ≡ library text
    → map_error e ≡ ("INTERNAL_ERROR", 500, "An unexpected error occurred")
unfolding map_error
map_error-internal e text h =
    rw
      (
        other err_order_not_found,
        other err_item_not_found,
        other err_order_not_modifiable,
        other err_no_items,
        other err_invalid_quantity,
        other err_invalid_price,
        other err_concurrency_conflict,
        other err_invalid_customer_id,
      )
      refl
  where
    other : (s : Sentinel) → is_error e s ≡ false
    other s = sym (is_error-root e s) ∙ ap (λ r. is_error r s) h

-- No error goes out with a status below 400.
pub map_error-status : (e : Error) → 400 ≤ (map_error e).1
unfolding map_error
map_error-status e = ground arith
