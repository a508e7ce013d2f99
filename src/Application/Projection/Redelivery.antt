-- ===== src/Application/Projection/Redelivery.antt =====
-- Redelivery: what `Handle` does with an event that it has handled.
use mathlib.Core.Path.{subst}
use code_base_ddd.Prelude.{
  ℕ, ◌<◌, ◌≡◌, ◌≢◌, refl, ap, ◌⊎◌, inl, inr, Bool, true, false, List, [], ◌∷◌, length, select, Perm,
  length-select, count, total-perm, select-eq-nil, arith, str_eq, Bool-cases, ltb, if◌then◌else◌,
}
use code_base_ddd.Effect.{ok, Effect, >>=-eq-ok, with_context}
use code_base_ddd.Gorm.{Answer-cases, done}
use code_base_ddd.Uuid.{UuidCodec}
use code_base_ddd.Domain.Values.{Time}
use code_base_ddd.Ports.{OutboxEvent}
use code_base_ddd.Persistence.Models.{ProcessedEventModel}
use code_base_ddd.Persistence.Database.{Db, Gorm, put_processed_events}
use code_base_ddd.Persistence.Keys.{is_processed, mark_processed, is_processed_by}
use code_base_ddd.Application.Projection.{
  handler_name, handle, project, marking, handle_order_created, handle_order_item_added,
  handle_order_confirmed,
}

-- The event is marked as processed by the projection.
abbrev pub IsMarked : OutboxEvent → Db → Type 0
IsMarked event s = 0 < count (is_processed_by event.id handler_name) s.processed_events

-- No case of the switch is for the event's type.
abbrev pub IsUnknown : OutboxEvent → Type 0
IsUnknown event =
    (str_eq event.event_type "OrderCreated" ≡ false)
    × (str_eq event.event_type "OrderItemAdded" ≡ false)
    × (str_eq event.event_type "OrderConfirmed" ≡ false)

module _ (codec : UuidCodec) (g : Gorm) where
  first_or_create-IsMarked :
      (row : ProcessedEventModel) (s t : List ProcessedEventModel)
      → (p : ProcessedEventModel → Bool) → p row ≡ true
      → g.processed_events.first_or_create p row s ≡ done t
      → 0 < count p t
  first_or_create-IsMarked row s t p holds created = elim (Bool-cases (ltb 0 (count p s))) [
    | inl some ↦
        let many : 0 < count p s = ground arith in
        let there : select p s ≢ [] =
          λ e. let size = ap length e in omega (arith, size, length-select p s, many) in
        let kept =
          total-perm (λ x. if p x then 1 else 0)
            (g.processed_events.first_or_create-found p row s t created there) in
        ground (arith, kept)
    | inr none ↦
        let absent = select-eq-nil p s (ground arith) in
        let added = g.processed_events.first_or_create-missing p row s t created absent in
        let exact = subst (λ r. Perm t (r ∷ s)) (g.processed_stored row) added in
        let one = total-perm (λ x. if p x then 1 else 0) exact in ground (arith, one)
  ]

  mark_processed-IsMarked :
      (now : Time) (event : OutboxEvent) (s s' : Db)
      → with_context "mark processed" (mark_processed g now event.id handler_name) s ≡ (ok tt, s')
      → IsMarked event s'
  unfolding mark_processed
  mark_processed-IsMarked now event s s' h =
      let p = is_processed_by event.id handler_name in
      let row : ProcessedEventModel = record {
        event_id = event.id;
        handler_name = handler_name;
        processed_at = now;
      } in
      elim (Answer-cases (g.processed_events.first_or_create p row s.processed_events)) [
        | inr (text, failed) ↦ absurd (ground arith)
        | inl (t, created) ↦
            let final : put_processed_events t s ≡ s' = ground arith in
            rw (← final)
              (first_or_create-IsMarked row s.processed_events t p (ground arith) created)
      ]

  -- A marked event changes nothing.
  pub handle-IsMarked :
      (clock : ℕ → Time) (event : OutboxEvent) (s s' : Db)
      → IsMarked event s
      → handle codec g clock event s ≡ (ok tt, s')
      → s' ≡ s
  unfolding handle is_processed
  handle-IsMarked clock event s s' marked h =
      let p = is_processed_by event.id handler_name in
      elim (Answer-cases (g.processed_events.count p s.processed_events)) [
        | inr (text, failed) ↦ absurd (ground arith)
        | inl (n, counted) ↦
            let size = g.processed_events.count-length p s.processed_events n counted in
            let same = length-select p s.processed_events in
            let found : ltb 0 n ≡ true = ground arith in ground arith
      ]

  -- The same, whether the call succeeds or fails.
  pub handle-IsMarked_still :
      (clock : ℕ → Time) (event : OutboxEvent) (s : Db)
      → IsMarked event s
      → (handle codec g clock event s).1 ≡ s
  unfolding handle is_processed
  handle-IsMarked_still clock event s marked =
      let p = is_processed_by event.id handler_name in
      elim (Answer-cases (g.processed_events.count p s.processed_events)) [
        | inr (text, failed) ↦ ground arith
        | inl (n, counted) ↦
            let size = g.processed_events.count-length p s.processed_events n counted in
            let same = length-select p s.processed_events in
            let found : ltb 0 n ≡ true = ground arith in ground arith
      ]

  marking-IsMarked :
      (clock : ℕ → Time) (event : OutboxEvent) (update : Effect Db (Unit {0})) (s s' : Db)
      → marking codec g clock event update s ≡ (ok tt, s')
      → IsMarked event s'
  marking-IsMarked clock event update s s' h =
      let mark : Effect Db (Unit {0}) =
        with_context "mark processed" (mark_processed g (clock 2) event.id handler_name) in
      let (u, t, updated, marked) = >>=-eq-ok update (λ _. mark) s h in
      mark_processed-IsMarked (clock 2) event t s' marked

  -- A call of `project` that succeeds marks the event, or the type is of no interest.
  project-cases :
      (clock : ℕ → Time) (event : OutboxEvent) (s s' : Db)
      → project codec g clock event s ≡ (ok tt, s')
      → IsMarked event s' ⊎ IsUnknown event
  unfolding project
  project-cases clock event s s' h = elim (Bool-cases (str_eq event.event_type "OrderCreated")) [
    | inl e ↦
        inl
          (marking-IsMarked clock event (handle_order_created codec g clock event) s s' (rw e at h))
    | inr n ↦ elim (Bool-cases (str_eq event.event_type "OrderItemAdded")) [
      | inl e ↦ inl (
          marking-IsMarked clock event (handle_order_item_added codec g clock event) s s'
            (rw (n, e) at h))
      | inr m ↦ elim (Bool-cases (str_eq event.event_type "OrderConfirmed")) [
        | inl e ↦ inl (
            marking-IsMarked clock event (handle_order_confirmed codec g clock event) s s'
              (rw (n, m, e) at h))
        | inr l ↦ inr (n, m, l)
      ]
    ]
  ]

  pub handle-cases :
      (clock : ℕ → Time) (event : OutboxEvent) (s s' : Db)
      → handle codec g clock event s ≡ (ok tt, s')
      → IsMarked event s' ⊎ IsUnknown event
  unfolding handle is_processed
  handle-cases clock event s s' h =
      let p = is_processed_by event.id handler_name in
      elim (Answer-cases (g.processed_events.count p s.processed_events)) [
        | inr (text, failed) ↦ absurd (ground arith)
        | inl (n, counted) ↦
            let size = g.processed_events.count-length p s.processed_events n counted in
            let same = length-select p s.processed_events in
            elim (Bool-cases (ltb 0 n)) [
              | inl found ↦ let final : s ≡ s' = ground arith in rw (← final) (inl (ground arith))
              | inr new ↦
                  let ran : project codec g clock event s ≡ (ok tt, s') = ground arith in
                  project-cases clock event s s' ran
            ]
      ]

  project-IsUnknown :
      (clock : ℕ → Time) (event : OutboxEvent) (s : Db)
      → IsUnknown event
      → project codec g clock event s ≡ (ok tt, s)
  unfolding project
  project-IsUnknown clock event s (n, m, l) = rw (n, m, l) refl

  -- An event of a type of no interest changes nothing.
  pub handle-IsUnknown :
      (clock : ℕ → Time) (event : OutboxEvent) (s s' : Db)
      → IsUnknown event
      → handle codec g clock event s ≡ (ok tt, s')
      → s' ≡ s
  unfolding handle is_processed
  handle-IsUnknown clock event s s' unknown h =
      let nothing = project-IsUnknown clock event s unknown in
      elim (Answer-cases
        (g.processed_events.count (is_processed_by event.id handler_name) s.processed_events)) [
          | inr (text, failed) ↦ absurd (ground arith)
          | inl (k, counted) ↦ ground arith
        ]

  -- After a `Handle` that succeeded, another `Handle` of the same event that runs next and succeeds,
  -- whatever the clock says, changes nothing in the database.
  pub handle-redelivery :
      (clock later : ℕ → Time) (event : OutboxEvent) (s s' s'' : Db)
      → handle codec g clock event s ≡ (ok tt, s')
      → handle codec g later event s' ≡ (ok tt, s'')
      → s'' ≡ s'
  handle-redelivery clock later event s s' s'' h k = elim (handle-cases clock event s s' h) [
    | inl marked ↦ handle-IsMarked later event s' s'' marked k
    | inr unknown ↦ handle-IsUnknown later event s' s'' unknown k
  ]
