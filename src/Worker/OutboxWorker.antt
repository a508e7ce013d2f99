-- ===== src/Worker/OutboxWorker.antt =====
-- The publisher of the outbox: internal/infrastructure/worker/outbox_worker.go.
pub mod Keeps
pub mod Drain
pub mod Run
use code_base_ddd.Prelude.{
  ℕ, ◌+◌, ◌≤◌, ◌≡◌, ◌≢◌, All, refl, ◌∙◌, ◌⊎◌, inl, inr, String, List, [], ◌∷◌, length, arith, ◌==◌,
  if◌then◌else◌,
}
use code_base_ddd.Error.{Error}
use code_base_ddd.Effect.{ok, err, Effect, Outcome-cases}
use code_base_ddd.Domain.Values.{Time}
use code_base_ddd.Ports.{OutboxEvent}
use code_base_ddd.Persistence.Database.{Db, Gorm}
use code_base_ddd.Persistence.Outbox.{fetch_pending, mark_failed, mark_published}
use code_base_ddd.Persistence.Outbox.Retry.{fetch_pending-mark_published}

-- The gauge, and the counters of events published and failed.
pub record Metrics : Type 0 where
  pub pending : ℕ
  pub success : ℕ
  pub failed : ℕ

-- The state after a call whose error is logged and dropped.
abbrev pub logged : {A : Type 0} → Effect Db A → Db → Db
logged m s = (m s).1

-- `message` is the error's text; `clock` is what the marking of the i-th event reads; `publish` is
-- the publisher, which may be a bus whose handlers work on the same database.
module _ (g : Gorm) (message : Error → String) (clock : ℕ → Time)
    (publish : OutboxEvent → Effect Db (Unit {0})) where
  -- One round of the loop of `processBatch`.
  unfoldable pub process_event : ℕ → OutboxEvent → Metrics × Db → Metrics × Db
  process_event i event (counts, s) =
      let (published, s') = publish event s in
      elim published [
        | err why ↦ (
          record counts { failed = counts.failed + 1 },
          logged (mark_failed g (clock i) event.id (message why)) s',
        )
        | ok _ ↦
            let (marked, s'') = mark_published g (clock i) event.id s' in
            elim marked [
              | err why ↦ (counts, s'')
              | ok _ ↦ (record counts { success = counts.success + 1 }, s'')
            ]
      ]

  unfoldable pub process_events : ℕ → List OutboxEvent → Metrics × Db → Metrics × Db
  process_events i [] w = w
  process_events i (event ∷ events) w = process_events (i + 1) events (process_event i event w)

  unfoldable pub process_batch : Time → ℕ → Metrics × Db → Metrics × Db
  process_batch now batch_size (counts, s) =
      let (fetched, s') = fetch_pending g now batch_size s in
      elim fetched [
        | err why ↦ (counts, s')
        | ok events ↦
            if length events == 0
            then (counts, s')
            else process_events 0 events (record counts { pending = length events }, s')
      ]

  -- The three ways a round can go.
  process_event-cases :
      (i : ℕ) (event : OutboxEvent) (counts : Metrics) (s : Db)
      → ((t : Db) × (process_event i event (counts, s)
            ≡ (record counts { failed = counts.failed + 1 }, t)))
        ⊎ ((t : Db) × (process_event i event (counts, s) ≡ (counts, t)))
        ⊎ ((t v : Db) × (mark_published g (clock i) event.id t ≡ (ok tt, v))
            × (process_event i event (counts, s)
                ≡ (record counts { success = counts.success + 1 }, v)))
  unfolding process_event
  process_event-cases i event counts s = elim (Outcome-cases (publish event s)) [
    | inr (why, t, refused) ↦
        inl (logged (mark_failed g (clock i) event.id (message why)) t, ground arith)
    | inl (u, t, published) ↦ elim (Outcome-cases (mark_published g (clock i) event.id t)) [
      | inr (why, v, e) ↦ inr (inl (v, ground arith))
      | inl (x, v, e) ↦ inr (inr (t, v, e, ground arith))
    ]
  ]

  process_event-counts :
      (i : ℕ) (event : OutboxEvent) (w : Metrics × Db)
      → (w.0.success + w.0.failed
          ≤ (process_event i event w).0.success + (process_event i event w).0.failed)
        × ((process_event i event w).0.success + (process_event i event w).0.failed
            ≤ w.0.success + w.0.failed + 1)
        × ((process_event i event w).0.pending ≡ w.0.pending)
  process_event-counts i event (counts, s) = elim (process_event-cases i event counts s) [
    | inl (t, e) ↦ rw e (omega arith, omega arith, refl)
    | inr (inl (t, e)) ↦ rw e (omega arith, omega arith, refl)
    | inr (inr (t, v, marked, e)) ↦ rw e (omega arith, omega arith, refl)
  ]

  process_events-counts :
      (i : ℕ) (events : List OutboxEvent) (w : Metrics × Db)
      → (w.0.success + w.0.failed
          ≤ (process_events i events w).0.success + (process_events i events w).0.failed)
        × ((process_events i events w).0.success + (process_events i events w).0.failed
            ≤ w.0.success + w.0.failed + length events)
        × ((process_events i events w).0.pending ≡ w.0.pending)
  unfolding process_events
  process_events-counts i [] w = (omega arith, omega arith, refl)
  process_events-counts i (event ∷ events) w =
      let (low, high, same) = process_event-counts i event w in
      let (low', high', same') = process_events-counts (i + 1) events (process_event i event w) in
      (omega (arith, low, high, low', high'), omega (arith, low, high, low', high'), same' ∙ same)

  -- A batch that fetched some events shows their number in the gauge, and raises the sum of the two
  -- counters by no more than that.
  pub process_batch-counts :
      (now : Time) (batch_size : ℕ) (counts : Metrics) (s s' : Db) (e : OutboxEvent)
      (events : List OutboxEvent)
      → fetch_pending g now batch_size s ≡ (ok (e ∷ events), s')
      → let after = (process_batch now batch_size (counts, s)).0 in
        (after.pending ≡ length (e ∷ events))
        × (counts.success + counts.failed ≤ after.success + after.failed)
        × (after.success + after.failed ≤ counts.success + counts.failed + length (e ∷ events))
  unfolding process_batch
  process_batch-counts now batch_size counts s s' e events fetched =
      let start : Metrics × Db = (record counts { pending = length (e ∷ events) }, s') in
      let (low, high, same) = process_events-counts 0 (e ∷ events) start in
      let ran : process_batch now batch_size (counts, s) ≡ process_events 0 (e ∷ events) start =
        ground arith in
      rw ran (same, low, high)

  -- An event that raised the counter of successes is not returned by the
  -- `FetchPending` that runs next.
  pub process_event-published :
      (i n : ℕ) (later : Time) (event : OutboxEvent) (counts : Metrics) (s s' : Db)
      (events : List OutboxEvent)
      → (process_event i event (counts, s)).0.success ≡ counts.success + 1
      → fetch_pending g later n (process_event i event (counts, s)).1 ≡ (ok events, s')
      → All (λ e. e.id ≢ event.id) events
  process_event-published i n later event counts s s' events raised h =
      elim (process_event-cases i event counts s) [
        | inl (t, e) ↦ absurd (omega (arith, (rw e at raised)))
        | inr (inl (t, e)) ↦ absurd (omega (arith, (rw e at raised)))
        | inr (inr (t, v, marked, e)) ↦
            fetch_pending-mark_published g (clock i) later event.id n t v s' events marked
              (rw e at h)
      ]
