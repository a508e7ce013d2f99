-- ===== src/Persistence/Outbox/Kept/Events.antt =====
-- The operations of the outbox, and the rows with one identifier.
use code_base_ddd.Prelude.{
  ℕ, ◌+◌, ◌<◌, ap, inl, inr, String, List, reject, length, length-select, count, count-update_ge,
  arith, Bool-cases, if◌then◌else◌,
}
use code_base_ddd.Effect.Preserves.{Preserves}
use code_base_ddd.Gorm.Rows.{select-reject_disjoint}
use code_base_ddd.Uuid.{Uuid}
use code_base_ddd.Domain.Values.{Time}
use code_base_ddd.Domain.Events.{DomainEvent}
use code_base_ddd.Persistence.Models.{OutboxEventModel, same_outbox_event}
use code_base_ddd.Persistence.Database.{Db, Gorm}
use code_base_ddd.Persistence.Outbox.{
  outbox_models, failed_model, published_model, requeued_model, is_failed, has_event_id, append,
  mark_published, mark_failed, requeue_failed,
}
use code_base_ddd.Persistence.Outbox.Kept.Rows.{
  create-count, save-count, append-Preserves, update-count, mark_failed-Preserves,
  mark_published-Preserves, requeue_failed-Preserves,
}

-- There is a row with the identifier.
abbrev pub HasEvent : Uuid → Db → Type 0
HasEvent id s = 0 < count (has_event_id id) s.outbox_events

module _ (g : Gorm) where
  pub append-HasEvent :
      (id : Uuid) (ids : ℕ → Uuid) (clock : ℕ → Time) (es : List DomainEvent)
      → Preserves (HasEvent id) (append g ids clock es)
  append-HasEvent id ids clock es = append-Preserves g (HasEvent id) ids clock es (λ s t made h.
      omega (
        arith,
        h,
        create-count g (has_event_id id) (outbox_models ids clock 0 es) s.outbox_events t made,
      ))

  -- Saving a row loses no identifier: the rows that it replaces have its own.
  saved-HasEvent :
      (id : Uuid) (r : OutboxEventModel) (t : List OutboxEventModel)
      → 0 < count (has_event_id id) t
      → 0
        < (if has_event_id id r then 1 else 0)
          + count (has_event_id id) (reject (same_outbox_event r) t)
  saved-HasEvent id r t h = elim (Bool-cases (has_event_id id r)) [
    | inl e ↦ rw e (omega arith)
    | inr e ↦
        let apart =
          select-reject_disjoint (has_event_id id) (same_outbox_event r) t
            (λ x same. ground arith) in
        let left = length-select (has_event_id id) (reject (same_outbox_event r) t) in
        let before = length-select (has_event_id id) t in
        let same = ap length apart in rw e (omega (arith, h, left, before, same))
  ]

  pub mark_published-HasEvent :
      (id : Uuid) (now : Time) (event_id : Uuid)
      → Preserves (HasEvent id) (mark_published g now event_id)
  mark_published-HasEvent id now event_id =
      let p = has_event_id event_id in
      let f = published_model now in
      mark_published-Preserves g (HasEvent id) now event_id (λ s n t made h. omega (
        arith,
        h,
        update-count g p (has_event_id id) f n s.outbox_events t made,
        count-update_ge p (has_event_id id) f s.outbox_events (λ x e. e),
      ))

  pub mark_failed-HasEvent :
      (id : Uuid) (now : Time) (event_id : Uuid) (text : String)
      → Preserves (HasEvent id) (mark_failed g now event_id text)
  mark_failed-HasEvent id now event_id text =
      mark_failed-Preserves g (HasEvent id) now event_id text (λ s m n t found made h.
        let r = failed_model now text m in
        omega (
          arith,
          save-count g (has_event_id id) r n s.outbox_events t made,
          saved-HasEvent id r s.outbox_events h,
        ))

  pub requeue_failed-HasEvent :
      (id : Uuid) (now : Time) → Preserves (HasEvent id) (requeue_failed g now)
  requeue_failed-HasEvent id now =
      let f = requeued_model now in
      requeue_failed-Preserves g (HasEvent id) now (λ s n t made h. omega (
        arith,
        h,
        update-count g is_failed (has_event_id id) f n s.outbox_events t made,
        count-update_ge is_failed (has_event_id id) f s.outbox_events (λ x e. e),
      ))
