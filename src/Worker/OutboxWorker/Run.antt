-- ===== src/Worker/OutboxWorker/Run.antt =====
-- The polling loop of the outbox worker: `Run` of internal/infrastructure/worker/outbox_worker.go.
use code_base_ddd.Prelude.{
  ℕ, zero, suc, ◌≤◌, ◌<◌, ◌≡◌, refl, ◌∙◌, ◌⊎◌, inl, inr, String, Bool, true, Option, none, some,
  arith, Bool-cases, ltb,
}
use code_base_ddd.Error.{Error}
use code_base_ddd.Effect.{Effect}
use code_base_ddd.Domain.Values.{Time}
use code_base_ddd.Ports.{OutboxEvent}
use code_base_ddd.Persistence.Models.{OutboxEventModel}
use code_base_ddd.Persistence.Database.{Db, Gorm}
use code_base_ddd.Worker.OutboxWorker.{Metrics, process_batch}
use code_base_ddd.Worker.OutboxWorker.Drain.{
  waiting, waiting-later, GoesWell, process_batch-waiting, process_batch-no_more,
}

-- What the `select` of the loop receives: that the context is done, or a tick, at some time.
pub data Wake : Type 0 where
  ctx_done : Wake
  ticked : Time → Wake

module _ (g : Gorm) (message : Error → String) (clock : ℕ → Time)
    (publish : OutboxEvent → Effect Db (Unit {0})) (batch_size : ℕ) (wakes : ℕ → Wake) where
  -- `Run` from its i-th select on, on fuel: `none` where that many selects did not end it. If both
  -- channels are ready, `select` takes either, so nothing is said of `wakes`.
  unfoldable pub run : (fuel i : ℕ) → Metrics × Db → Option (Metrics × Db)
  run zero i w = none
  run (suc fuel) i w = elim (wakes i) [
    | ctx_done ↦ some w
    | ticked now ↦ run fuel (suc i) (process_batch g message clock publish now batch_size w)
  ]

  -- The selects from the i-th on receive m ticks, at times that lie between two bounds, and then
  -- that the context is done.
  abbrev pub StopsAfter : Time → Time → ℕ → ℕ → Type 0
  StopsAfter first late zero i = wakes i ≡ ctx_done
  StopsAfter first late (suc m) i =
      ((now : Time) × (wakes i ≡ ticked now) × (first ≤ now) × (now ≤ late))
      × StopsAfter first late m (suc i)

  run-ticked :
      (fuel i : ℕ) (now : Time) (w : Metrics × Db)
      → wakes i ≡ ticked now
      → run (suc fuel) i w
        ≡ run fuel (suc i) (process_batch g message clock publish now batch_size w)
  unfolding run
  run-ticked fuel i now w h = rw (run, h) refl

  run-ctx_done : (fuel i : ℕ) (w : Metrics × Db) → wakes i ≡ ctx_done → run (suc fuel) i w ≡ some w
  unfolding run
  run-ctx_done fuel i w h = rw (run, h) refl

  module _ (well : GoesWell g publish) (first late : Time) (has_size : 0 < batch_size)
      (ordered : first ≤ late) where
    drained-step :
        (now : Time) (w : Metrics × Db) (m : ℕ)
        → first ≤ now
        → now ≤ late
        → (waiting late w.1 ≤ suc m) ⊎ (waiting first w.1 ≡ 0)
        → let after = process_batch g message clock publish now batch_size w in
          (waiting late after.1 ≤ m) ⊎ (waiting first after.1 ≡ 0)
    drained-step now w m low high (inr idle) = inr (
        omega
          (arith, process_batch-no_more g message clock publish well now first batch_size w, idle))
    drained-step now w m low high (inl few) = elim (Bool-cases (ltb 0 (waiting now w.1))) [
      | inl found ↦
          let less =
            process_batch-waiting g message clock publish well now late batch_size w high has_size
              (ground arith) in
          inl (omega (arith, less, few))
      | inr idle ↦
          let all : OutboxEventModel → Bool = λ m. true in
          let fewer = waiting-later first now all w.1.outbox_events low in
          let still = process_batch-no_more g message clock publish well now first batch_size w in
          inr (ground (arith, fewer, still))
    ]

    run-drained :
        (m fuel i : ℕ) (w : Metrics × Db)
        → StopsAfter first late m i
        → m < fuel
        → (waiting late w.1 ≤ m) ⊎ (waiting first w.1 ≡ 0)
        → (w' : Metrics × Db) × (run fuel i w ≡ some w') × (waiting first w'.1 ≡ 0)
    run-drained m zero i w stops less few = absurd (omega arith)
    run-drained zero (suc fuel) i w stops less few = (
      w,
      run-ctx_done fuel i w stops,
      elim few [
        | inl gone ↦
            let all : OutboxEventModel → Bool = λ m. true in
            omega (arith, gone, waiting-later first late all w.1.outbox_events ordered)
        | inr idle ↦ idle
      ],
    )
    run-drained (suc m) (suc fuel) i w ((now, woken, low, high), stops) less few =
        let (w', ran, empty) =
          run-drained m fuel (suc i) (process_batch g message clock publish now batch_size w) stops
            (omega arith) (drained-step now w m low high few) in
        (w', run-ticked fuel i now w woken ∙ ran, empty)

    -- If nothing fails, the size of a batch is above zero and all ticks lie between two times, `Run`
    -- returns once the context is done; and if there were at least as many ticks as events that are
    -- due at the second time, no event that is due at the first one still waits.
    pub run-drain :
        (m fuel : ℕ) (w : Metrics × Db)
        → StopsAfter first late m 0
        → m < fuel
        → waiting late w.1 ≤ m
        → (w' : Metrics × Db) × (run fuel 0 w ≡ some w') × (waiting first w'.1 ≡ 0)
    run-drain m fuel w stops less few = run-drained m fuel 0 w stops less (inl few)
