-- ===== src/Worker/OutboxWorker/Keeps.antt =====
-- A batch of the worker keeps what its publisher and the markings keep.
use mathlib.Core.Path.{subst}
use code_base_ddd.Prelude.{
  ℕ, ◌+◌, ◌≡◌, sym, ap, ◌∙◌, inl, inr, String, List, [], ◌∷◌, length, arith, ◌==◌, Bool-cases,
}
use code_base_ddd.Error.{Error}
use code_base_ddd.Effect.{Effect, Outcome-cases}
use code_base_ddd.Effect.Preserves.{Preserves}
use code_base_ddd.Gorm.{Answer-cases}
use code_base_ddd.Uuid.{Uuid}
use code_base_ddd.Domain.Values.{Time}
use code_base_ddd.Ports.{OutboxEvent}
use code_base_ddd.Persistence.Database.{Db, Gorm}
use code_base_ddd.Persistence.Outbox.{fetch_pending, is_pending, mark_failed, mark_published}
use code_base_ddd.Worker.OutboxWorker.{Metrics, process_event, process_events, process_batch}

-- A fetch changes nothing.
pub fetch_pending-same : (g : Gorm) (now : Time) (n : ℕ) (s : Db) → (fetch_pending g now n s).1 ≡ s
unfolding fetch_pending
fetch_pending-same g now n s =
    elim (Answer-cases (g.fetch_outbox (is_pending now) (λ m. m.occurred_at) n s.outbox_events)) [
      | inr (text, e) ↦ ground arith
      | inl (rows, e) ↦ ground arith
    ]

module _ (g : Gorm) (message : Error → String) (clock : ℕ → Time)
    (publish : OutboxEvent → Effect Db (Unit {0})) (P : Db → Type 0)
    (published : (event : OutboxEvent) → Preserves P (publish event))
    (marked : (now : Time) (id : Uuid) → Preserves P (mark_published g now id))
    (refused : (now : Time) (id : Uuid) (text : String)
      → Preserves P (mark_failed g now id text)) where
  process_event-keeps :
      (i : ℕ) (event : OutboxEvent) (counts : Metrics) (s : Db)
      → P s
      → P (process_event g message clock publish i event (counts, s)).1
  unfolding process_event
  process_event-keeps i event counts s h = elim (Outcome-cases (publish event s)) [
    | inr (why, t, e) ↦
        let kept = subst P (ap (λ r. r.1) e) (published event s h) in
        let final : (process_event g message clock publish i event (counts, s)).1
            ≡ (mark_failed g (clock i) event.id (message why) t).1 =
          ground arith in
        rw final (refused (clock i) event.id (message why) t kept)
    | inl (u, t, e) ↦
        let kept = subst P (ap (λ r. r.1) e) (published event s h) in
        let final : (process_event g message clock publish i event (counts, s)).1
            ≡ (mark_published g (clock i) event.id t).1 =
          elim (Outcome-cases (mark_published g (clock i) event.id t)) [
            | inl (x, v, r) ↦ ground arith
            | inr (x, v, r) ↦ ground arith
          ] in
        rw final (marked (clock i) event.id t kept)
  ]

  process_events-keeps :
      (i : ℕ) (events : List OutboxEvent) (w : Metrics × Db)
      → P w.1
      → P (process_events g message clock publish i events w).1
  unfolding process_events
  process_events-keeps i [] w h = h
  process_events-keeps i (event ∷ events) w h =
      process_events-keeps (i + 1) events (process_event g message clock publish i event w)
        (process_event-keeps i event w.0 w.1 h)

  pub process_batch-keeps :
      (now : Time) (batch_size : ℕ) (counts : Metrics) (s : Db)
      → P s
      → P (process_batch g message clock publish now batch_size (counts, s)).1
  unfolding process_batch
  process_batch-keeps now batch_size counts s h =
      elim (Outcome-cases (fetch_pending g now batch_size s)) [
        | inr (why, t, e) ↦
            let same : t ≡ s = sym (ap (λ r. r.1) e) ∙ fetch_pending-same g now batch_size s in
            let final : (process_batch g message clock publish now batch_size (counts, s)).1 ≡ t =
              ground arith in
            rw (final, same) h
        | inl (events, t, e) ↦
            let same : t ≡ s = sym (ap (λ r. r.1) e) ∙ fetch_pending-same g now batch_size s in
            let start : Metrics × Db = (record counts { pending = length events }, t) in
            elim (Bool-cases (length events == 0)) [
              | inl none ↦
                  let final : (process_batch g message clock publish now batch_size (counts, s)).1
                      ≡ t =
                    ground arith in
                  rw (final, same) h
              | inr some ↦
                  let final : (process_batch g message clock publish now batch_size (counts, s)).1
                      ≡ (process_events g message clock publish 0 events start).1 =
                    ground arith in
                  rw final (process_events-keeps 0 events start (rw same h))
            ]
      ]
