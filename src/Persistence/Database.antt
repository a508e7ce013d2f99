-- ===== src/Persistence/Database.antt =====
-- The database as the stores share it: a list of rows for each table, the statements on them, and
-- transactions.
use code_base_ddd.Prelude.{
  ℕ, ◌≤◌, ◌<◌, ◌≡◌, ◌≢◌, refl, ap, arith, ◌⊎◌, Bool, true, String, str_eq, List, [], ◌++◌, Perm,
  select, length,
}
use code_base_ddd.Error.{Error, library}
use code_base_ddd.Effect.{ok, err, Effect}
use code_base_ddd.Gorm.{Answer, done, failed, Table}
use code_base_ddd.Domain.Values.{Time}
use code_base_ddd.Persistence.Models.{
  OrderModel, OrderItemModel, OutboxEventModel, IdempotencyKeyModel, ProcessedEventModel,
  OrderViewModel, OrderItemViewModel, same_order, same_item, same_outbox_event,
  same_idempotency_key, same_processed, same_order_view, same_item_view,
}

pub record Db : Type 0 where
  pub orders : List OrderModel
  pub order_items : List OrderItemModel
  pub outbox_events : List OutboxEventModel
  pub idempotency_keys : List IdempotencyKeyModel
  pub processed_events : List ProcessedEventModel
  pub order_views : List OrderViewModel
  pub order_item_views : List OrderItemViewModel

-- The statements on each table, and `db.Transaction`. What GORM stores differs from what it is
-- given in the tracked times, and in the text of a JSONB column. (A row with version 0 or an empty
-- status would get the column's default instead; no order of the program has either.)
pub record Gorm : Type 1 where
  pub orders : Table OrderModel same_order
  pub order_items : Table OrderItemModel same_item
  pub outbox_events : Table OutboxEventModel same_outbox_event
  pub idempotency_keys : Table IdempotencyKeyModel same_idempotency_key
  pub processed_events : Table ProcessedEventModel same_processed
  pub order_views : Table OrderViewModel same_order_view
  pub order_item_views : Table OrderItemViewModel same_item_view
  -- `SELECT … WHERE p ORDER BY key LIMIT n FOR UPDATE SKIP LOCKED` on the outbox
  pub fetch_outbox :
      (OutboxEventModel → Bool)
      → (OutboxEventModel → Time)
      → ℕ
      → List OutboxEventModel
      → Answer (List OutboxEventModel)
  -- `Where(p).Order(clause).Offset(o).Limit(n).Find(&rows)` on the order views
  pub page_views :
      (OrderViewModel → Bool) → String → ℕ → ℕ → List OrderViewModel → Answer (List OrderViewModel)
  pub order_stored :
      (m : OrderModel)
      → (created : Time) × (updated : Time) × (orders.stored m
          ≡ record m { created_at = created; updated_at = updated })
  pub order_item_stored :
      (m : OrderItemModel)
      → (created : Time) × (order_items.stored m ≡ record m { created_at = created })
  pub outbox_stored : (m : OutboxEventModel) → outbox_events.stored m ≡ m
  -- The text that a JSONB column gives back for the text of a JSON value: the column keeps the value,
  -- not the spaces, the order of keys, or repeated keys.
  pub jsonb : List ℕ → List ℕ
  pub idempotency_stored :
      (m : IdempotencyKeyModel)
      → (created : Time) × (idempotency_keys.stored m
          ≡ record m { created_at = created; response_body = jsonb m.response_body })
  -- `Assign` with a struct sets the columns of its fields that are not zero, and leaves the others
  -- alone: a row with the same key takes over all of a value that has no field at zero.
  pub idempotency_assigned :
      (r m : IdempotencyKeyModel)
      → str_eq m.key r.key ≡ true
      → 0 < r.response_status
      → r.response_body ≢ []
      → 0 < r.created_at
      → 0 < r.expires_at
      → idempotency_keys.assigned r m ≡ record r { response_body = jsonb r.response_body }
  pub processed_stored : (m : ProcessedEventModel) → processed_events.stored m ≡ m
  pub order_view_stored :
      (m : OrderViewModel)
      → (created : Time) × (updated : Time) × (order_views.stored m
          ≡ record m { created_at = created; updated_at = updated })
  pub item_view_stored :
      (m : OrderItemViewModel)
      → (created : Time) × (order_item_views.stored m ≡ record m { created_at = created })
  -- The query answers with some of the rows that pass, no more than the limit: a row that another
  -- transaction has locked is skipped.
  pub fetch_outbox-perm :
      (p : OutboxEventModel → Bool) (key : OutboxEventModel → Time) (n : ℕ)
      (t rs : List OutboxEventModel)
      → fetch_outbox p key n t ≡ done rs
      → (length rs ≤ n) × (rest : List OutboxEventModel) × Perm (rs ++ rest) (select p t)
  pub page_views-perm :
      (p : OrderViewModel → Bool) (clause : String) (offset n : ℕ) (t rs : List OrderViewModel)
      → page_views p clause offset n t ≡ done rs
      → (length rs ≤ n) × (rest : List OrderViewModel) × Perm (rs ++ rest) (select p t)
  pub transaction : (A : Type 0) → Effect Db A → Effect Db A
  -- An error of the function rolls the transaction back and is returned.
  pub transaction-err :
      (A : Type 0) (f : Effect Db A) (s s' : Db) (e : Error)
      → f s ≡ (err e, s')
      → transaction A f s ≡ (err e, s)
  -- Otherwise the transaction is committed, or the commit fails with an error.
  pub transaction-ok :
      (A : Type 0) (f : Effect Db A) (s s' : Db) (a : A)
      → f s ≡ (ok a, s')
      → (transaction A f s ≡ (ok a, s')) ⊎ ((text : Error) × (transaction A f s ≡ (err text, s)))

-- A read of a table; its failure is an error of the library.
abbrev pub answer : {A : Type 0} → Answer A → Effect Db A
answer (done a) s = (ok a, s)
answer (failed text) s = (err (library text), s)

-- A statement that changes a table, given how the table lies in the database.
abbrev pub change : {Row : Type 0} → (List Row → Db → Db) → Answer (List Row) → Effect Db (Unit {0})
change put (done t) s = (ok tt, put t s)
change put (failed text) s = (err (library text), s)

-- The same with RowsAffected.
abbrev pub change_count :
    {Row : Type 0} → (List Row → Db → Db) → Answer (ℕ × List Row) → Effect Db ℕ
change_count put (done (n, t)) s = (ok n, put t s)
change_count put (failed text) s = (err (library text), s)

abbrev pub put_orders : List OrderModel → Db → Db
put_orders t s = record s { orders = t }

abbrev pub put_order_items : List OrderItemModel → Db → Db
put_order_items t s = record s { order_items = t }

abbrev pub put_outbox_events : List OutboxEventModel → Db → Db
put_outbox_events t s = record s { outbox_events = t }

abbrev pub put_idempotency_keys : List IdempotencyKeyModel → Db → Db
put_idempotency_keys t s = record s { idempotency_keys = t }

abbrev pub put_processed_events : List ProcessedEventModel → Db → Db
put_processed_events t s = record s { processed_events = t }

abbrev pub put_order_views : List OrderViewModel → Db → Db
put_order_views t s = record s { order_views = t }

abbrev pub put_order_item_views : List OrderItemViewModel → Db → Db
put_order_item_views t s = record s { order_item_views = t }

-- A statement that succeeded: what it answered, and the database after it.
pub answer-eq-ok :
    {A : Type 0} (a : Answer A) (s : Db) {x : A} {s' : Db}
    → answer a s ≡ (ok x, s')
    → (a ≡ done x) × (s ≡ s')
answer-eq-ok (done x) s h = ground arith
answer-eq-ok (failed text) s h = cc

pub change-eq-ok :
    {Row : Type 0} (put : List Row → Db → Db) (a : Answer (List Row)) (s : Db) {u : Unit {0}}
    {s' : Db}
    → change put a s ≡ (ok u, s')
    → (t : List Row) × (a ≡ done t) × (put t s ≡ s')
change-eq-ok put (done t) s h = (t, refl, ap (λ p. p.1) h)
change-eq-ok put (failed text) s h = cc

pub change_count-eq-ok :
    {Row : Type 0} (put : List Row → Db → Db) (a : Answer (ℕ × List Row)) (s : Db) {n : ℕ} {s' : Db}
    → change_count put a s ≡ (ok n, s')
    → (t : List Row) × (a ≡ done (n, t)) × (put t s ≡ s')
change_count-eq-ok put (done (m, t)) s h = (t, ground arith, ap (λ p. p.1) h)
change_count-eq-ok put (failed text) s h = cc
