-- ===== src/Application/Projection/Convergence/Streams.antt =====
-- A whole stream of the events of an order, as the outbox hands them to the projection.
use mathlib.Core.Path.{subst}
use code_base_ddd.Prelude.{
  ℕ, suc, ◌<◌, ◌≡◌, ◌≢◌, refl, sym, ap, ◌∙◌, true, false, List, [], ◌∷◌, ◌++◌, All, foldl, Perm,
  count, count-perm, arith, ◌==◌, inl, inr,
}
use code_base_ddd.Effect.{Effect, ok, pure, >>=-eq-ok, ◌>>◌, with_context}
use code_base_ddd.Gorm.{Answer-cases}
use code_base_ddd.Int64.{half}
use code_base_ddd.Uuid.{Uuid, UuidCodec}
use code_base_ddd.Domain.Values.{Time}
use code_base_ddd.Domain.Events.{
  DomainEvent, OrderCreated, order_created, order_item_added, order_confirmed, event_type,
}
use code_base_ddd.Domain.Order.Replay.{Account, apply_event, blank, replay}
use code_base_ddd.Ports.{OutboxEvent}
use code_base_ddd.Persistence.Models.{OrderItemViewModel, ProcessedEventModel}
use code_base_ddd.Persistence.Database.{Db, Gorm, put_processed_events}
use code_base_ddd.Persistence.Keys.{mark_processed, is_processed_by}
use code_base_ddd.Persistence.Outbox.{outbox_model, to_outbox_event}
use code_base_ddd.Persistence.Outbox.Payload.{
  marshal, unmarshal_created, unmarshal_item_added, unmarshal_confirmed,
}
use code_base_ddd.Persistence.ReadModels.{view_has_id, item_view_of, item_view_has_id}
use code_base_ddd.Application.Projection.{
  handler_name, parsed, project, handle_order_created, handle_order_item_added,
  handle_order_confirmed, marking,
}
use code_base_ddd.Application.Projection.Convergence.Shown.{
  Shows, project_event, line_of, created-Shows, created-rows, confirmed-rows, confirmed-Shows,
}
use code_base_ddd.Application.Projection.Convergence.Added.{added-rows, added-Shows}
use code_base_ddd.Application.Projection.Convergence.Steps.{line_price, lines_total}

module _ (codec : UuidCodec) (g : Gorm) (id : Uuid) where
  -- The clock and the outbox row of each event, in order.
  module _ (clocks : ℕ → ℕ → Time) (ids : ℕ → Uuid) (now : ℕ → Time) where
    abbrev pub in_outbox : ℕ → DomainEvent → OutboxEvent
    in_outbox i e = to_outbox_event (outbox_model (ids i) (now i) e)

    -- The events of a stream, projected one after another.
    unfoldable pub project_stream : ℕ → List DomainEvent → Effect Db (Unit {0})
    project_stream i [] = pure tt
    project_stream i (e ∷ es) =
        project codec g (clocks i) (in_outbox i e) >> project_stream (suc i) es

    -- The mark on an event is in a table of its own.
    marking-eq-ok :
        (i : ℕ) (event : OutboxEvent) (update : Effect Db (Unit {0})) (s s' : Db)
        → marking codec g (clocks i) event update s ≡ (ok tt, s')
        → (t : Db) × (update s ≡ (ok tt, t))
          × (s'.order_views ≡ t.order_views)
          × (s'.order_item_views ≡ t.order_item_views)
    unfolding mark_processed
    marking-eq-ok i event update s s' h =
        let (u, t, ran, marked) =
          >>=-eq-ok update
            (λ _.
              with_context "mark processed" (mark_processed g (clocks i 2) event.id handler_name))
            s h in
        let row : ProcessedEventModel = record {
          event_id = event.id;
          handler_name = handler_name;
          processed_at = clocks i 2;
        } in
        elim (Answer-cases (
          g.processed_events.first_or_create (is_processed_by event.id handler_name) row
            t.processed_events)) [
              | inl (rows, e) ↦
                  let final : put_processed_events rows t ≡ s' = ground arith in
                  (t, ran, rw (← final) refl, rw (← final) refl)
              | inr (x, e) ↦ ground arith
            ]

    project-eq-ok :
        (i : ℕ) (e : DomainEvent) (s s' : Db)
        → project codec g (clocks i) (in_outbox i e) s ≡ (ok tt, s')
        → (t : Db) × (project_event codec g (clocks i) id e s ≡ (ok tt, t))
          × (s'.order_views ≡ t.order_views)
          × (s'.order_item_views ≡ t.order_item_views)
    unfolding project handle_order_created handle_order_item_added handle_order_confirmed marshal
        unmarshal_created unmarshal_item_added unmarshal_confirmed outbox_model event_type
    project-eq-ok i (order_created e) s s' h =
        marking-eq-ok i (in_outbox i (order_created e))
          (project_event codec g (clocks i) id (order_created e)) s s' h
    project-eq-ok i (order_item_added e) s s' h =
        marking-eq-ok i (in_outbox i (order_item_added e))
          (project_event codec g (clocks i) id (order_item_added e)) s s' h
    project-eq-ok i (order_confirmed e) s s' h =
        marking-eq-ok i (in_outbox i (order_confirmed e))
          (project_event codec g (clocks i) id (order_confirmed e)) s s' h

  -- The item that an event adds.
  abbrev pub IsNewIn : List OrderItemViewModel → DomainEvent → Type 0
  IsNewIn t (order_created e) = Unit {0}
  IsNewIn t (order_item_added e) = count (item_view_has_id (parsed codec e.item_id)) t ≡ 0
  IsNewIn t (order_confirmed e) = Unit {0}

  abbrev pub IsAnother : Uuid → DomainEvent → Type 0
  IsAnother item (order_created e) = Unit {0}
  IsAnother item (order_item_added e) = item ≢ parsed codec e.item_id
  IsAnother item (order_confirmed e) = Unit {0}

  -- What the events of one order are like that follow an account of it: each is about the order, an
  -- item that is added has an identifier of its own and a price above zero, the prices fit into an
  -- int64, and the order is confirmed at its total.
  abbrev pub Follow : Account → List DomainEvent → Type 0
  Follow a [] = Unit {0}
  Follow a (order_created e ∷ es) = false ≡ true
  Follow a (order_item_added e ∷ es) =
      (parsed codec e.order_id ≡ id)
      × (codec.to_string (parsed codec e.item_id) ≡ e.item_id)
      × (0 < line_price (line_of e))
      × (lines_total (a.lines ++ line_of e ∷ []) < half)
      × All (IsAnother (parsed codec e.item_id)) es
      × Follow (apply_event a (order_item_added e)) es
  Follow a (order_confirmed e ∷ es) =
      (parsed codec e.order_id ≡ id)
      × (e.total_amount ≡ lines_total a.lines)
      × Follow (apply_event a (order_confirmed e)) es

  new-perm :
      (item : Uuid) (row : OrderItemViewModel) (t t' : List OrderItemViewModel)
      (es : List DomainEvent)
      → row.id ≡ item
      → Perm t' (row ∷ t)
      → All (IsAnother item) es
      → All (IsNewIn t) es
      → All (IsNewIn t') es
  new-perm item row t t' [] h rows other fresh = tt
  new-perm item row t t' (order_created e ∷ es) h rows (o, other) (f, fresh) =
      (tt, new-perm item row t t' es h rows other fresh)
  new-perm item row t t' (order_confirmed e ∷ es) h rows (o, other) (f, fresh) =
      (tt, new-perm item row t t' es h rows other fresh)
  new-perm item row t t' (order_item_added e ∷ es) h rows (o, other) (f, fresh) =
      let differ : row.id ≢ parsed codec e.item_id = λ k. o (sym h ∙ k) in
      let apart : (row.id == parsed codec e.item_id) ≡ false = ground (arith, differ) in
      let same = count-perm (item_view_has_id (parsed codec e.item_id)) rows in
      (ground (arith, same, apart, f), new-perm item row t t' es h rows other fresh)

  same_tables :
      (a : Account) (s s' : Db)
      → s'.order_views ≡ s.order_views
      → s'.order_item_views ≡ s.order_item_views
      → Shows codec id a s
      → Shows codec id a s'
  same_tables a s s' views items shown = record {
    one = rw views shown.one;
    view = rw views shown.view;
    items = λ f. rw items (shown.items f);
  }

  module _ (clocks : ℕ → ℕ → Time) (ids : ℕ → Uuid) (now : ℕ → Time) where
    Follow-Shows :
        (i : ℕ) (a : Account) (es : List DomainEvent) (s s' : Db)
        → Follow a es
        → All (IsNewIn s.order_item_views) es
        → Shows codec id a s
        → project_stream clocks ids now i es s ≡ (ok tt, s')
        → Shows codec id (foldl apply_event a es) s'
    unfolding project_stream
    Follow-Shows i a [] s s' f fresh shown h = subst (Shows codec id a) (ap (λ r. r.1) h) shown
    Follow-Shows i a (order_created e ∷ es) s s' f fresh shown h = cc
    Follow-Shows i a (order_item_added e ∷ es) s s' (mine, printed, positive, small, others, f)
          (new, fresh) shown h =
        let (u, t, ran, rest) =
          >>=-eq-ok (project codec g (clocks i) (in_outbox clocks ids now i (order_item_added e)))
            (λ _. project_stream clocks ids now (suc i) es) s h in
        let (v, done, views, items) = project-eq-ok clocks ids now i (order_item_added e) s t ran in
        let shown' =
          added-Shows codec g (clocks i) id a e s v mine printed new positive small shown done in
        let (created, rows) = added-rows codec g (clocks i) id e s v new done in
        let fresh' =
          new-perm (parsed codec e.item_id) _ s.order_item_views v.order_item_views es refl rows
            others fresh in
        Follow-Shows (suc i) (apply_event a (order_item_added e)) es t s' f
          (subst (λ x. All (IsNewIn x) es) (sym items) fresh')
          (same_tables (apply_event a (order_item_added e)) v t views items shown') rest
    Follow-Shows i a (order_confirmed e ∷ es) s s' (mine, whole, f) (new, fresh) shown h =
        let (u, t, ran, rest) =
          >>=-eq-ok (project codec g (clocks i) (in_outbox clocks ids now i (order_confirmed e)))
            (λ _. project_stream clocks ids now (suc i) es) s h in
        let (v, done, views, items) = project-eq-ok clocks ids now i (order_confirmed e) s t ran in
        let shown' = confirmed-Shows codec g (clocks i) id a e s v mine whole shown done in
        let same = confirmed-rows codec g (clocks i) id e s v done in
        Follow-Shows (suc i) (apply_event a (order_confirmed e)) es t s' f
          (subst (λ x. All (IsNewIn x) es) (sym (items ∙ same)) fresh)
          (same_tables (apply_event a (order_confirmed e)) v t views items shown') rest

    -- The events of one order, the first of which created it, are projected in order and each call
    -- succeeds. If the read model has no row of the order and none of its items before, then it shows
    -- the order as a replay of the events has it afterwards.
    pub project_stream-Shows :
        (e : OrderCreated) (es : List DomainEvent) (s s' : Db)
        → parsed codec e.id ≡ id
        → Follow (apply_event blank (order_created e)) es
        → All (IsNewIn s.order_item_views) es
        → count (view_has_id id) s.order_views ≡ 0
        → count (item_view_of id) s.order_item_views ≡ 0
        → project_stream clocks ids now 0 (order_created e ∷ es) s ≡ (ok tt, s')
        → Shows codec id (replay (order_created e ∷ es)) s'
    unfolding project_stream
    project_stream-Shows e es s s' mine f fresh no_view no_items h =
        let (u, t, ran, rest) =
          >>=-eq-ok (project codec g (clocks 0) (in_outbox clocks ids now 0 (order_created e)))
            (λ _. project_stream clocks ids now 1 es) s h in
        let (v, done, views, items) = project-eq-ok clocks ids now 0 (order_created e) s t ran in
        let a = apply_event blank (order_created e) in
        let shown = created-Shows codec g (clocks 0) id e s v mine no_view no_items done in
        let same = created-rows codec g (clocks 0) id e s v mine no_view done in
        Follow-Shows 1 a es t s' f (subst (λ x. All (IsNewIn x) es) (sym (items ∙ same)) fresh)
          (same_tables a v t views items shown) rest
