-- ===== src/Worker/OutboxWorker/Drain.antt =====
-- Many ticks of the outbox worker, internal/infrastructure/worker/outbox_worker.go.
use code_base_ddd.Prelude.{
  ℕ, zero, suc, ◌+◌, ◌≤◌, ◌<◌, ◌≡◌, ◌≢◌, refl, ap, inl, inr, String, Bool, not, ◌&&◌, List, [], ◌∷◌,
  ◌++◌, map, Perm, List-cases, ltb, select, length, length-select, count, count-update_out,
  count-select_out, count-select_in, count-perm, arith, Bool-cases,
}
use code_base_ddd.Error.{Error}
use code_base_ddd.Effect.{ok, Effect}
use code_base_ddd.Gorm.{done}
use code_base_ddd.Domain.Values.{Time}
use code_base_ddd.Ports.{OutboxEvent}
use code_base_ddd.Persistence.Models.{OutboxEventModel}
use code_base_ddd.Persistence.Database.{Db, Gorm, put_outbox_events}
use code_base_ddd.Persistence.Outbox.{
  is_pending, has_event_id, published_model, to_outbox_event, fetch_pending, mark_published,
}
use code_base_ddd.Worker.OutboxWorker.{Metrics, process_event, process_events, process_batch}

-- The events that may be published at a time, counted.
abbrev pub waiting : Time → Db → ℕ
waiting now s = count (is_pending now) s.outbox_events

-- What waits at a time waits at any later one.
pub waiting-later :
    (now late : Time) (q : OutboxEventModel → Bool) (t : List OutboxEventModel)
    → now ≤ late
    → count (λ m. q m && is_pending now m) t ≤ count (λ m. q m && is_pending late m) t
waiting-later now late q [] h = omega arith
waiting-later now late q (m ∷ t) h = ground (arith, waiting-later now late q t h)

-- What has to go well: the publisher takes every event and leaves the outbox alone, no update
-- fails, and a fetch finds an event if one waits (none is locked).
pub record GoesWell (g : Gorm) (publish : OutboxEvent → Effect Db (Unit {0})) : Type 0 where
  pub accepted : (event : OutboxEvent) (s : Db) → (publish event s).0 ≡ ok tt
  pub apart : (event : OutboxEvent) (s : Db) → (publish event s).1.outbox_events ≡ s.outbox_events
  pub updated :
      (p : OutboxEventModel → Bool) (f : OutboxEventModel → OutboxEventModel)
      (t : List OutboxEventModel)
      → (n : ℕ) × (t' : List OutboxEventModel) × (g.outbox_events.updates p f t ≡ done (n, t'))
  pub fetched :
      (p : OutboxEventModel → Bool) (key : OutboxEventModel → Time) (n : ℕ)
      (t : List OutboxEventModel)
      → (rs : List OutboxEventModel) × (g.fetch_outbox p key n t ≡ done rs)
        × (0 < n → select p t ≢ [] → rs ≢ [])

module _ (g : Gorm) (message : Error → String) (clock : ℕ → Time)
    (publish : OutboxEvent → Effect Db (Unit {0})) (well : GoesWell g publish) where
  -- An event that is processed no longer waits; the others wait as before.
  process_event-waiting :
      (i : ℕ) (event : OutboxEvent) (now : Time) (counts : Metrics) (s : Db)
      → waiting now (process_event g message clock publish i event (counts, s)).1
          + count (λ m. has_event_id event.id m && is_pending now m) s.outbox_events
        ≡ waiting now s
  unfolding process_event mark_published
  process_event-waiting i event now counts s =
      let s' = (publish event s).1 in
      let p = has_event_id event.id in
      let f = published_model (clock i) in
      let (n, t, made) = well.updated p f s'.outbox_events in
      let took = well.accepted event s in
      let same = well.apart event s in
      let final : (process_event g message clock publish i event (counts, s)).1
          ≡ put_outbox_events t s' =
        ground arith in
      let rows =
        count-perm (is_pending now)
          (g.outbox_events.updates-perm p f s'.outbox_events t n made).1 in
      let out = count-update_out p (is_pending now) f s'.outbox_events (λ x. refl) in
      let before = ap (count (is_pending now)) same in
      let mine = ap (count (λ m. p m && is_pending now m)) same in
      rw final (omega (arith, rows, out, before, mine))

  process_events-waiting :
      (i : ℕ) (events : List OutboxEvent) (now : Time) (w : Metrics × Db)
      → waiting now (process_events g message clock publish i events w).1 ≤ waiting now w.1
  unfolding process_events
  process_events-waiting i [] now w = omega arith
  process_events-waiting i (event ∷ events) now w = omega (
    arith,
    process_event-waiting i event now w.0 w.1,
    process_events-waiting (i + 1) events now (process_event g message clock publish i event w),
  )

  -- The first of the events that a fetch returned waits, and does so at any later time.
  first_waits :
      (now late : Time) (m : OutboxEventModel) (ms rest t : List OutboxEventModel)
      → now ≤ late
      → Perm ((m ∷ ms) ++ rest) (select (is_pending now) t)
      → 0 < count (λ x. has_event_id m.id x && is_pending late x) t
  first_waits now late m ms rest t h perm =
      let p = is_pending now in
      let bad = count-perm (λ x. not (p x)) perm in
      let good = count-perm (λ x. has_event_id m.id x && p x) perm in
      ground (
        arith,
        bad,
        good,
        count-select_out p t,
        count-select_in p (has_event_id m.id) t,
        waiting-later now late (has_event_id m.id) t h,
      )

  process_batch-eq :
      (now : Time) (n : ℕ) (counts : Metrics) (s : Db) (e : OutboxEvent) (es : List OutboxEvent)
      → fetch_pending g now n s ≡ (ok (e ∷ es), s)
      → process_batch g message clock publish now n (counts, s)
        ≡ process_events g message clock publish 0
            (e ∷ es)
            (record counts { pending = length (e ∷ es) }, s)
  unfolding process_batch
  process_batch-eq now n counts s e es h = ground arith

  -- A batch that fetched something: fewer events wait, at its own time and at any later one, and no
  -- more at any time at all.
  batch_found-waiting :
      (now late any : Time) (n : ℕ) (counts : Metrics) (s : Db) (m : OutboxEventModel)
      (ms : List OutboxEventModel)
      → now ≤ late
      → g.fetch_outbox (is_pending now) (λ x. x.occurred_at) n s.outbox_events ≡ done (m ∷ ms)
      → (waiting late (process_batch g message clock publish now n (counts, s)).1 < waiting late s)
        × (waiting any (process_batch g message clock publish now n (counts, s)).1 ≤ waiting any s)
  unfolding fetch_pending process_events
  batch_found-waiting now late any n counts s m ms h listed =
      let e = to_outbox_event m in
      let es = map to_outbox_event ms in
      let got : fetch_pending g now n s ≡ (ok (e ∷ es), s) = ground arith in
      let start : Metrics = record counts { pending = length (e ∷ es) } in
      let first = process_event g message clock publish 0 e (start, s) in
      let (few, rest, perm) =
        g.fetch_outbox-perm (is_pending now) (λ x. x.occurred_at) n s.outbox_events (m ∷ ms)
          listed in
      let waits = first_waits now late m ms rest s.outbox_events h perm in
      let after = process_event-waiting 0 e late start s in
      let later = process_events-waiting 1 es late first in
      let all = process_events-waiting 0 (e ∷ es) any (start, s) in
      rw (process_batch-eq now n counts s e es got) (omega (arith, waits, after, later), all)

  -- A batch that finds an event leaves fewer waiting.
  pub process_batch-waiting :
      (now late : Time) (n : ℕ) (w : Metrics × Db)
      → now ≤ late
      → 0 < n
      → 0 < waiting now w.1
      → waiting late (process_batch g message clock publish now n w).1 < waiting late w.1
  process_batch-waiting now late n (counts, s) before h some =
      let p = is_pending now in
      let (rs, got, found) = well.fetched p (λ m. m.occurred_at) n s.outbox_events in
      let there : select p s.outbox_events ≢ [] =
        λ e. omega (arith, some, ap length e, length-select p s.outbox_events) in
      elim (List-cases rs) [
        | inl none ↦ absurd (found h there none)
        | inr (m, ms, e) ↦
            let listed : g.fetch_outbox p (λ x. x.occurred_at) n s.outbox_events ≡ done (m ∷ ms) =
              rw (← e) got in
            (batch_found-waiting now late now n counts s m ms before listed).0
      ]

  -- No batch makes an event wait.
  pub process_batch-no_more :
      (now any : Time) (n : ℕ) (w : Metrics × Db)
      → waiting any (process_batch g message clock publish now n w).1 ≤ waiting any w.1
  unfolding process_batch fetch_pending
  process_batch-no_more now any n (counts, s) =
      let (rs, got, found) = well.fetched (is_pending now) (λ m. m.occurred_at) n s.outbox_events in
      elim (List-cases rs) [
        | inl none ↦
            let final : (process_batch g message clock publish now n (counts, s)).1 ≡ s =
              ground arith in
            rw final (omega arith)
        | inr (m, ms, e) ↦
            (batch_found-waiting now now any n counts s m ms (omega arith) (rw (← e) got)).1
      ]

  -- So many rounds of the polling loop, the ticks of `Run`.
  abbrev pub rounds : Time → ℕ → ℕ → Metrics × Db → Metrics × Db
  rounds now n zero w = w
  rounds now n (suc k) w = rounds now n k (process_batch g message clock publish now n w)

  -- As long as nothing fails and the size of a batch is above zero, after as many batches as events
  -- wait, none waits.
  pub rounds-drain :
      (now : Time) (n k : ℕ) (w : Metrics × Db)
      → 0 < n
      → waiting now w.1 ≤ k
      → waiting now (rounds now n k w).1 ≡ 0
  rounds-drain now n zero w h few = omega arith
  rounds-drain now n (suc k) w h few = elim (Bool-cases (ltb 0 (waiting now w.1))) [
    | inl some ↦
        let less = process_batch-waiting now now n w (omega arith) h (ground arith) in
        rounds-drain now n k (process_batch g message clock publish now n w) h
          (omega (arith, less, few))
    | inr none ↦
        let still = process_batch-no_more now now n w in
        let idle : waiting now w.1 ≡ 0 = ground arith in
        rounds-drain now n k (process_batch g message clock publish now n w) h
          (omega (arith, still, idle))
  ]
