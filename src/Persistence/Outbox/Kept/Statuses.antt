-- ===== src/Persistence/Outbox/Kept/Statuses.antt =====
-- The operations of the outbox, and the statuses of its rows.
use code_base_ddd.Prelude.{
  ℕ, suc, ◌≡◌, refl, inl, inr, String, Bool, true, not, ◌||◌, List, [], ◌∷◌, select, count,
  count-update_le, count-select, arith, Bool-cases, str_eq,
}
use code_base_ddd.Effect.Preserves.{Preserves}
use code_base_ddd.Int64.{add64, slt}
use code_base_ddd.Uuid.{Uuid}
use code_base_ddd.Domain.Values.{Time}
use code_base_ddd.Domain.Events.{DomainEvent}
use code_base_ddd.Persistence.Models.{OutboxEventModel, same_outbox_event}
use code_base_ddd.Persistence.Database.{Db, Gorm}
use code_base_ddd.Persistence.Outbox.{
  pending, published, failed_status, max_retries, outbox_model, outbox_models, failed_model,
  published_model, requeued_model, is_failed, has_event_id, append, mark_published, mark_failed,
  requeue_failed,
}
use code_base_ddd.Persistence.Outbox.Kept.Rows.{
  count-mem, create-count, save-count, append-Preserves, update-count, mark_failed-Preserves,
  mark_published-Preserves, requeue_failed-Preserves,
}

-- A status that the life cycle does not have.
abbrev pub is_stray : OutboxEventModel → Bool
is_stray m =
    not (str_eq m.status pending || str_eq m.status published || str_eq m.status failed_status)

-- No row has one.
abbrev pub HasKnownStatuses : Db → Type 0
HasKnownStatuses s = count is_stray s.outbox_events ≡ 0

module _ (g : Gorm) where
  new_rows-count :
      (ids : ℕ → Uuid) (clock : ℕ → Time) (i : ℕ) (es : List DomainEvent)
      → count is_stray (outbox_models ids clock i es) ≡ 0
  unfolding outbox_models outbox_model
  new_rows-count ids clock i [] = refl
  new_rows-count ids clock i (e ∷ es) = omega (arith, new_rows-count ids clock (suc i) es)

  pub append-HasKnownStatuses :
      (ids : ℕ → Uuid) (clock : ℕ → Time) (es : List DomainEvent)
      → Preserves HasKnownStatuses (append g ids clock es)
  append-HasKnownStatuses ids clock es =
      append-Preserves g HasKnownStatuses ids clock es (λ s t made h. omega (
        arith,
        h,
        new_rows-count ids clock 0 es,
        create-count g is_stray (outbox_models ids clock 0 es) s.outbox_events t made,
      ))

  pub mark_published-HasKnownStatuses :
      (now : Time) (event_id : Uuid) → Preserves HasKnownStatuses (mark_published g now event_id)
  mark_published-HasKnownStatuses now event_id =
      let p = has_event_id event_id in
      let f = published_model now in
      mark_published-Preserves g HasKnownStatuses now event_id (λ s n t made h. omega (
        arith,
        h,
        update-count g p is_stray f n s.outbox_events t made,
        count-update_le p is_stray f s.outbox_events (λ x e. cc),
      ))

  failed_model-stray :
      (now : Time) (text : String) (m : OutboxEventModel)
      → is_stray (failed_model now text m) ≡ true
      → is_stray m ≡ true
  unfolding failed_model
  failed_model-stray now text m h = elim (Bool-cases (slt (add64 m.retry_count 1) max_retries)) [
    | inl e ↦ rw (failed_model, e) at h
    | inr e ↦ let impossible = (rw (failed_model, e) at h) in cc
  ]

  pub mark_failed-HasKnownStatuses :
      (now : Time) (event_id : Uuid) (text : String)
      → Preserves HasKnownStatuses (mark_failed g now event_id text)
  mark_failed-HasKnownStatuses now event_id text =
      mark_failed-Preserves g HasKnownStatuses now event_id text (λ s m n t found made h.
        let r = failed_model now text m in
        let saved = save-count g is_stray r n s.outbox_events t made in
        let others = count-select (λ x. not (same_outbox_event r x)) is_stray s.outbox_events in
        elim (Bool-cases (is_stray r)) [
          | inl e ↦
              let p = has_event_id event_id in
              let stray =
                count-mem is_stray m (select p s.outbox_events) found
                  (failed_model-stray now text m e) in
              absurd (omega (arith, h, stray, count-select p is_stray s.outbox_events))
          | inr e ↦ let none = (rw e at saved) in omega (arith, none, others, h)
        ])

  pub requeue_failed-HasKnownStatuses :
      (now : Time) → Preserves HasKnownStatuses (requeue_failed g now)
  requeue_failed-HasKnownStatuses now =
      let f = requeued_model now in
      requeue_failed-Preserves g HasKnownStatuses now (λ s n t made h. omega (
        arith,
        h,
        update-count g is_failed is_stray f n s.outbox_events t made,
        count-update_le is_failed is_stray f s.outbox_events (λ x e. cc),
      ))
