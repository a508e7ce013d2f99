-- ===== src/System/Separation.antt =====
-- The two sides of the database, that of the commands and that of the projection.
use code_base_ddd.Prelude.{ℕ, ◌≡◌, refl}
use code_base_ddd.Uuid.{UuidCodec}
use code_base_ddd.Domain.Values.{Time}
use code_base_ddd.Ports.{OutboxEvent}
use code_base_ddd.Persistence.Database.{Db, Gorm}
use code_base_ddd.Persistence.Keeps.Stores.{mark_processed-Preserves}
use code_base_ddd.Persistence.Outbox.Kept.Rows.{append-Preserves}
use code_base_ddd.Application.Command.{Draws}
use code_base_ddd.Application.Command.Keeps.{Command, run_command, run_command-Preserves}
use code_base_ddd.Application.Projection.{handler_name, handle}
use code_base_ddd.Application.Projection.Keeps.{handle-Preserves}

-- The tables that the queries and the projection read: the views, and what was processed.
abbrev pub SameReadSide : Db → Db → Type 0
SameReadSide s t =
    (t.order_views ≡ s.order_views)
    × (t.order_item_views ≡ s.order_item_views)
    × (t.processed_events ≡ s.processed_events)

-- The tables that the commands read and write, and those of the keys of requests.
abbrev pub SameWriteSide : Db → Db → Type 0
SameWriteSide s t =
    (t.orders ≡ s.orders)
    × (t.order_items ≡ s.order_items)
    × (t.outbox_events ≡ s.outbox_events)
    × (t.idempotency_keys ≡ s.idempotency_keys)

-- A command, whether it succeeds or fails at any step, leaves the read side as it is.
pub run_command-SameReadSide :
    (codec : UuidCodec) (g : Gorm) (d : Draws) (c : Command) (s : Db)
    → SameReadSide s (run_command codec g d c s)
run_command-SameReadSide codec g d c s =
    run_command-Preserves codec g d (SameReadSide s) (λ t u h. h) (λ t u h. h)
      (λ es. append-Preserves g (SameReadSide s) d.outbox_ids d.outbox_clock es (λ u t made h. h)) c
      s (refl, refl, refl)

-- A call of the projection, whether it succeeds or fails at any step, leaves the write side as it is.
pub handle-SameWriteSide :
    (codec : UuidCodec) (g : Gorm) (clock : ℕ → Time) (event : OutboxEvent) (s : Db)
    → SameWriteSide s (handle codec g clock event s).1
handle-SameWriteSide codec g clock event s =
    handle-Preserves codec g clock (SameWriteSide s) (λ t u h. h) (λ t u h. h)
      (λ e. mark_processed-Preserves g (SameWriteSide s) (clock 2) e handler_name (λ t u h. h))
      event s (refl, refl, refl, refl)
