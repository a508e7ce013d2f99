-- ===== src/Application/Projection/Marks.antt =====
-- What has been marked as processed stays so: the projection of
-- internal/application/projection/order_projection.go and its marks.
use code_base_ddd.Prelude.{
  ℕ, ◌≤◌, ◌<◌, ◌≡◌, ◌≢◌, ap, inl, inr, Bool, List, [], select, count, count-perm, length,
  length-select, select-eq-nil, arith, Bool-cases, ltb,
}
use code_base_ddd.Effect.Preserves.{Preserves}
use code_base_ddd.Gorm.{done}
use code_base_ddd.Uuid.{Uuid, UuidCodec}
use code_base_ddd.Domain.Values.{Time}
use code_base_ddd.Ports.{OutboxEvent}
use code_base_ddd.Persistence.Models.{ProcessedEventModel}
use code_base_ddd.Persistence.Database.{Gorm, put_processed_events}
use code_base_ddd.Persistence.Keeps.{change-keeps}
use code_base_ddd.Persistence.Keys.{mark_processed, is_processed_by}
use code_base_ddd.Application.Projection.{handler_name, handle}
use code_base_ddd.Application.Projection.Keeps.{handle-Preserves}
use code_base_ddd.Application.Projection.Redelivery.{IsMarked}

module _ (g : Gorm) where
  -- Marking an event takes no mark away.
  first_or_create-count :
      (q p : ProcessedEventModel → Bool) (row : ProcessedEventModel)
      (s t : List ProcessedEventModel)
      → g.processed_events.first_or_create p row s ≡ done t
      → count q s ≤ count q t
  first_or_create-count q p row s t made = elim (Bool-cases (ltb 0 (count p s))) [
    | inl some ↦
        let many : 0 < count p s = ground arith in
        let there : select p s ≢ [] =
          λ e. let size = ap length e in omega (arith, size, length-select p s, many) in
        omega (arith, count-perm q (g.processed_events.first_or_create-found p row s t made there))
    | inr none ↦
        let absent = select-eq-nil p s (ground arith) in
        let rows =
          count-perm q (g.processed_events.first_or_create-missing p row s t made absent) in
        ground (arith, rows)
  ]

  mark_processed-keeps :
      (event : OutboxEvent) (now : Time) (id : Uuid)
      → Preserves (IsMarked event) (mark_processed g now id handler_name)
  unfolding mark_processed
  mark_processed-keeps event now id s h =
      let row : ProcessedEventModel = record {
        event_id = id;
        handler_name = handler_name;
        processed_at = now;
      } in
      let p = is_processed_by id handler_name in
      change-keeps (IsMarked event) put_processed_events
        (g.processed_events.first_or_create p row s.processed_events) s h
        (λ t made. omega (
          arith,
          h,
          first_or_create-count (is_processed_by event.id handler_name) p row s.processed_events t
              made,
        ))

  -- No `Handle` takes a mark away.
  pub handle-keeps :
      (codec : UuidCodec) (clock : ℕ → Time) (event other : OutboxEvent)
      → Preserves (IsMarked event) (handle codec g clock other)
  handle-keeps codec clock event other =
      handle-Preserves codec g clock (IsMarked event) (λ t s h. h) (λ t s h. h)
        (λ e. mark_processed-keeps event (clock 2) e) other
