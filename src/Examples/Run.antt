-- ===== src/Examples/Run.antt =====
-- The theorems about the loops of the workers at concrete inputs.
use code_base_ddd.Prelude.{ℕ, ◌≡◌, refl, some, leb, arith, if◌then◌else◌}
use code_base_ddd.Effect.{Effect, ok}
use code_base_ddd.Persistence.Database.{Db}
use code_base_ddd.Worker.OutboxWorker.{Metrics}
use code_base_ddd.Worker.OutboxWorker.Drain.{waiting}
use code_base_ddd.Worker.OutboxWorker.Run as Polling
use code_base_ddd.Worker.Consumer.Run.{Context, EndsWithin, run-ends}
use code_base_ddd.Examples.Memory.{strokes, memory_db}
use code_base_ddd.Examples.Delivery.{as_they_are, Offsets, reader, bus, start}
use code_base_ddd.Examples.Outbox.{mixed_db, accept, no_text, zeros}
use code_base_ddd.Examples.Projection.{clock}
use code_base_ddd.Examples.System.{accept-GoesWell}

-- The context is cancelled from the third round on.
abbrev ctx : Context
ctx = record { at_top = λ i. leb 3 i; at_fetch = λ i. leb 3 i }

abbrev close : Effect Offsets (Unit {0})
close s = (ok tt, s)

run-ends_example : EndsWithin as_they_are strokes reader bus ctx close 3 5 0 start
run-ends_example = run-ends as_they_are strokes reader bus ctx close 3 5 0 start refl (omega arith)

-- Two ticks, and then the context is done.
abbrev wakes : ℕ → Polling.Wake
wakes i = if leb 2 i then Polling.ctx_done else Polling.ticked 150

run-drain_example :
    (w : Metrics × Db) × (Polling.run memory_db no_text clock accept 50 wakes 4 0 (zeros, mixed_db)
      ≡ some w)
    × (waiting 150 w.1 ≡ 0)
run-drain_example =
    Polling.run-drain memory_db no_text clock accept 50 wakes accept-GoesWell 150 150 (omega arith)
      (omega arith) 2 4 (zeros, mixed_db)
      ((150, refl, omega arith, omega arith), ((150, refl, omega arith, omega arith), refl))
      (omega arith) (omega arith)
