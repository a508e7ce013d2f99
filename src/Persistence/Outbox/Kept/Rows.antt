-- ===== src/Persistence/Outbox/Kept/Rows.antt =====
-- The rows of the outbox after each of its operations, counted.
use mathlib.Core.Path.{subst}
use mathlib.Core.Logic.Or
use mathlib.Core.List.{mem-cons, not-mem-nil}
use native.Mathlib.Bridge.{le_prop}
use code_base_ddd.Prelude.{
  ℕ, ◌+◌, ◌<◌, ◌≡◌, ap, ◌∙◌, inl, inr, String, Bool, true, not, ◌&&◌, List, [], ◌∷◌, ◌++◌, map, Mem,
  Perm, select, reject, length, count, count-append, count-perm, select-none, none, some, arith,
  Bool-cases, ◌==◌, if◌then◌else◌,
}
use code_base_ddd.Effect.{pure}
use code_base_ddd.Effect.Preserves.{Preserves, pure-Preserves, >>-Preserves, >>-keeps}
use code_base_ddd.Gorm.{Answer-cases, done}
use code_base_ddd.Uuid.{Uuid}
use code_base_ddd.Domain.Values.{Time}
use code_base_ddd.Domain.Events.{DomainEvent}
use code_base_ddd.Persistence.Models.{OutboxEventModel, same_outbox_event}
use code_base_ddd.Persistence.Database.{Db, Gorm, change_count, put_outbox_events}
use code_base_ddd.Persistence.Keeps.{change-keeps, change_count-keeps}
use code_base_ddd.Persistence.Outbox.{
  outbox_models, failed_model, published_model, requeued_model, is_failed, has_event_id, append,
  mark_published, mark_failed, requeue_failed,
}
use code_base_ddd.Persistence.Outbox.Append.{map-outbox_stored}

-- A row that is found counts.
pub count-mem :
    {A : Type 0} (p : A → Bool) (x : A) (t : List A) → Mem x t → p x ≡ true → 0 < count p t
count-mem p x [] m h = absurd (not-mem-nil m)
count-mem p x (y ∷ t) m h =
    Or.elim le_prop (mem-cons.0 m) (λ e. ground (arith, ap p e))
      (λ n. ground (arith, count-mem p x t n h))

module _ (g : Gorm) where
  -- The rows after an append, an update, and the saving of a row that was found.
  pub create-count :
      (q : OutboxEventModel → Bool) (new t t' : List OutboxEventModel)
      → g.outbox_events.create new t ≡ done t'
      → count q t' ≡ count q new + count q t
  create-count q new t t' h =
      let rows = count-perm q (g.outbox_events.create-perm new t t' h) in
      let exact = ap (λ u. count q (u ++ t)) (map-outbox_stored g new) in
      rows ∙ exact ∙ count-append q new t

  pub save-count :
      (q : OutboxEventModel → Bool) (r : OutboxEventModel) (n : ℕ) (t t' : List OutboxEventModel)
      → g.outbox_events.save (λ _. true) r t ≡ done (n, t')
      → count q t' ≡ (if q r then 1 else 0) + count q (reject (same_outbox_event r) t)
  save-count q r n t t' h =
      let all = select-none (λ x. same_outbox_event r x && not true) t (λ x. ground arith) in
      let rows = (g.outbox_events.save-perm (λ _. true) r t t' n all h).1 in
      let exact =
        subst (λ x. Perm t' (x ∷ reject (same_outbox_event r) t)) (g.outbox_stored r) rows in
      count-perm q exact

  -- Appending keeps what holds of every table that got new rows.
  pub append-Preserves :
      (P : Db → Type 0) (ids : ℕ → Uuid) (clock : ℕ → Time) (es : List DomainEvent)
      → ((s : Db) (t : List OutboxEventModel)
          → g.outbox_events.create (outbox_models ids clock 0 es) s.outbox_events ≡ done t
          → P s
          → P (put_outbox_events t s))
      → Preserves P (append g ids clock es)
  unfolding append
  append-Preserves P ids clock es kept s h =
      let ms = outbox_models ids clock 0 es in
      elim (Bool-cases (length ms == 0)) [
        | inl e ↦ rw (append, e) h
        | inr e ↦
            rw (append, e)
              (change-keeps P put_outbox_events (g.outbox_events.create ms s.outbox_events) s h
                (λ t made. kept s t made h))
      ]

  pub update-count :
      (p q : OutboxEventModel → Bool) (f : OutboxEventModel → OutboxEventModel) (n : ℕ)
      (t t' : List OutboxEventModel)
      → g.outbox_events.updates p f t ≡ done (n, t')
      → count q t' ≡ count q (map (λ r. if p r then f r else r) t)
  update-count p q f n t t' h = count-perm q (g.outbox_events.updates-perm p f t t' n h).1

  -- What `MarkFailed` keeps, given what saving the row that it found keeps.
  pub mark_failed-Preserves :
      (P : Db → Type 0) (now : Time) (event_id : Uuid) (text : String)
      → ((s : Db) (m : OutboxEventModel) (n : ℕ) (t : List OutboxEventModel)
          → Mem m (select (has_event_id event_id) s.outbox_events)
          → g.outbox_events.save (λ _. true) (failed_model now text m) s.outbox_events ≡ done (n, t)
          → P s
          → P (put_outbox_events t s))
      → Preserves P (mark_failed g now event_id text)
  unfolding mark_failed
  mark_failed-Preserves P now event_id text kept s h =
      elim (Answer-cases (g.outbox_events.first (has_event_id event_id) s.outbox_events)) [
        | inr (why, e) ↦ rw (mark_failed, e) h
        | inl (none, e) ↦ rw (mark_failed, e) h
        | inl (some m, e) ↦
            rw (mark_failed, e)
              (>>-keeps P
                (λ t.
                  change_count put_outbox_events
                    (g.outbox_events.save (λ _. true) (failed_model now text m) t.outbox_events) t)
                (pure tt) s
                (change_count-keeps P put_outbox_events
                  (g.outbox_events.save (λ _. true) (failed_model now text m) s.outbox_events) s h
                  (λ n t made.
                    kept s m n t
                      (g.outbox_events.first-some (has_event_id event_id) s.outbox_events m e) made
                      h))
                (pure-Preserves P tt))
      ]

  pub mark_published-Preserves :
      (P : Db → Type 0) (now : Time) (event_id : Uuid)
      → ((s : Db) (n : ℕ) (t : List OutboxEventModel)
          → g.outbox_events.updates (has_event_id event_id) (published_model now) s.outbox_events
            ≡ done (n, t)
          → P s
          → P (put_outbox_events t s))
      → Preserves P (mark_published g now event_id)
  unfolding mark_published
  mark_published-Preserves P now event_id kept =
      let p = has_event_id event_id in
      let f = published_model now in
      >>-Preserves P
        (λ s. change_count put_outbox_events (g.outbox_events.updates p f s.outbox_events) s)
        (pure tt)
        (λ s h.
          change_count-keeps P put_outbox_events (g.outbox_events.updates p f s.outbox_events) s h
            (λ n t made. kept s n t made h))
        (pure-Preserves P tt)

  pub requeue_failed-Preserves :
      (P : Db → Type 0) (now : Time)
      → ((s : Db) (n : ℕ) (t : List OutboxEventModel)
          → g.outbox_events.updates is_failed (requeued_model now) s.outbox_events ≡ done (n, t)
          → P s
          → P (put_outbox_events t s))
      → Preserves P (requeue_failed g now)
  unfolding requeue_failed
  requeue_failed-Preserves P now kept s h =
      change_count-keeps P put_outbox_events
        (g.outbox_events.updates is_failed (requeued_model now) s.outbox_events) s h
        (λ n t made. kept s n t made h)
