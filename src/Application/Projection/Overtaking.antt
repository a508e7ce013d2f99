-- ===== src/Application/Projection/Overtaking.antt =====
-- Events of one order that reach the projection,
-- internal/application/projection/order_projection.go, in another order than they happened.
use mathlib.Core.Path.{subst}
use code_base_ddd.Prelude.{
  ℕ, ◌≡◌, refl, sym, ap, ◌∙◌, inl, inr, Bool, true, false, ◌&&◌, if◌then◌else◌, List, [], ◌∷◌,
  count, count-perm, count-none, length-select, arith, str_eq, eq_iff,
}
use code_base_ddd.Effect.{ok, Effect, >>=-eq-ok, with_context}
use code_base_ddd.Gorm.{Answer-cases}
use code_base_ddd.Uuid.{UuidCodec}
use code_base_ddd.Domain.Values.{Time}
use code_base_ddd.Domain.Events.{OrderCreated, OrderConfirmed}
use code_base_ddd.Ports.{OutboxEvent}
use code_base_ddd.Persistence.Models.{OrderViewModel}
use code_base_ddd.Persistence.Database.{Db, Gorm, put_processed_events}
use code_base_ddd.Persistence.Outbox.Payload.{unmarshal_created, unmarshal_confirmed}
use code_base_ddd.Persistence.Keys.{is_processed, mark_processed, is_processed_by}
use code_base_ddd.Persistence.ReadModels.{
  view_has_id, updated_view, upsert_order_view, update_order_status,
}
use code_base_ddd.Application.Projection.{
  handler_name, parsed, created_view, handle, project, marking, handle_order_created,
  handle_order_confirmed,
}
use code_base_ddd.Application.Projection.Marks.{handle-keeps}
use code_base_ddd.Application.Projection.Redelivery.{IsMarked, handle-IsMarked_still, handle-cases}
use code_base_ddd.Application.Projection.Convergence.Steps.{
  count-update_same, update_order_status-rows, upsert_order_view-new,
}

module _ (codec : UuidCodec) (g : Gorm) where
  -- The event has no mark.
  abbrev pub IsNew : OutboxEvent → Db → Type 0
  IsNew event s = count (is_processed_by event.id handler_name) s.processed_events ≡ 0

  handle-project :
      (clock : ℕ → Time) (event : OutboxEvent) (s s' : Db)
      → IsNew event s
      → handle codec g clock event s ≡ (ok tt, s')
      → project codec g clock event s ≡ (ok tt, s')
  unfolding handle is_processed
  handle-project clock event s s' new h =
      let p = is_processed_by event.id handler_name in
      elim (Answer-cases (g.processed_events.count p s.processed_events)) [
        | inr (text, failed) ↦ absurd (ground arith)
        | inl (n, counted) ↦
            let size = g.processed_events.count-length p s.processed_events n counted in
            let same = length-select p s.processed_events in
            let none_yet : n ≡ 0 = omega (arith, size, same, new) in ground arith
      ]

  marking-views :
      (clock : ℕ → Time) (event : OutboxEvent) (update : Effect Db (Unit {0})) (s s' : Db)
      → marking codec g clock event update s ≡ (ok tt, s')
      → (t : Db) × (update s ≡ (ok tt, t)) × (s'.order_views ≡ t.order_views)
  unfolding mark_processed
  marking-views clock event update s s' h =
      let mark : Effect Db (Unit {0}) =
        with_context "mark processed" (mark_processed g (clock 2) event.id handler_name) in
      let (u, t, updated, marked) = >>=-eq-ok update (λ _. mark) s h in
      elim (Answer-cases (
        g.processed_events.first_or_create (is_processed_by event.id handler_name)
          (record { event_id = event.id; handler_name = handler_name; processed_at = clock 2 })
          t.processed_events)) [
            | inr (text, failed) ↦ absurd (ground arith)
            | inl (rows, created) ↦
                let final : put_processed_events rows t ≡ s' = ground arith in
                (t, updated, rw (← final) refl)
          ]

  -- A confirmation that is handled while the read model has no view of its order makes none.
  handle-confirmed_early :
      (clock : ℕ → Time) (event : OutboxEvent) (e : OrderConfirmed) (s s' : Db)
      → event.event_type ≡ "OrderConfirmed"
      → unmarshal_confirmed event.payload ≡ ok e
      → IsNew event s
      → count (view_has_id (parsed codec e.order_id)) s.order_views ≡ 0
      → handle codec g clock event s ≡ (ok tt, s')
      → count (view_has_id (parsed codec e.order_id)) s'.order_views ≡ 0
  unfolding project handle_order_confirmed updated_view
  handle-confirmed_early clock event e s s' kind decoded new absent h =
      let ran = handle-project clock event s s' new h in
      let id = parsed codec e.order_id in
      let marked : marking codec g clock event (handle_order_confirmed codec g clock event) s
          ≡ (ok tt, s') =
        rw kind at ran in
      let (t, updated, views) =
        marking-views clock event (handle_order_confirmed codec g clock event) s s' marked in
      let statement : update_order_status g (clock 0) id "CONFIRMED" e.total_amount s ≡ (ok tt, t) =
        rw decoded at updated in
      let (n, items, rows) =
        update_order_status-rows g (clock 0) id "CONFIRMED" e.total_amount s t statement in
      let f = updated_view (clock 0) "CONFIRMED" e.total_amount n in
      let same = count-update_same (view_has_id id) f s.order_views (λ v. refl) in
      let all = count-perm (view_has_id id) rows in rw views (omega (arith, same, all, absent))

  handle-marks :
      (clock : ℕ → Time) (event : OutboxEvent) (s s' : Db)
      → event.event_type ≡ "OrderConfirmed"
      → handle codec g clock event s ≡ (ok tt, s')
      → IsMarked event s'
  handle-marks clock event s s' kind h = elim (handle-cases codec g clock event s s' h) [
    | inl marked ↦ marked
    | inr (n, m, l) ↦
        let known : str_eq "OrderConfirmed" "OrderConfirmed" ≡ false = rw kind at l in
        absurd (ground arith)
  ]

  -- An order's creation that is handled while the read model has no view of it makes one, with the
  -- status that the event has.
  handle-created :
      (clock : ℕ → Time) (event : OutboxEvent) (e : OrderCreated) (s s' : Db)
      → event.event_type ≡ "OrderCreated"
      → unmarshal_created event.payload ≡ ok e
      → IsNew event s
      → count (view_has_id (parsed codec e.id)) s.order_views ≡ 0
      → handle codec g clock event s ≡ (ok tt, s')
      → (count (view_has_id (parsed codec e.id)) s'.order_views ≡ 1)
        × (count (λ v. view_has_id (parsed codec e.id) v && str_eq v.status e.status) s'.order_views
            ≡ 1)
  unfolding project handle_order_created
  handle-created clock event e s s' kind decoded new absent h =
      let ran = handle-project clock event s s' new h in
      let id = parsed codec e.id in
      let marked : marking codec g clock event (handle_order_created codec g clock event) s
          ≡ (ok tt, s') =
        rw kind at ran in
      let (t, updated, views) =
        marking-views clock event (handle_order_created codec g clock event) s s' marked in
      let statement : upsert_order_view g (created_view codec g clock e) s ≡ (ok tt, t) =
        rw decoded at updated in
      let (created, changed, items, rows) =
        upsert_order_view-new g codec clock e s t statement absent in
      let p = view_has_id id in
      let q : OrderViewModel → Bool = λ v. p v && str_eq v.status e.status in
      let all = count-perm p rows in
      let good = count-perm q rows in
      let others = count-none p (λ v. str_eq v.status e.status) s.order_views absent in
      let yes : str_eq e.status e.status ≡ true = ground (arith, eq_iff e.status e.status) in
      rw views (ground (arith, all, absent), ground (arith, good, others, yes))

  handle-marks_created :
      (clock : ℕ → Time) (event : OutboxEvent) (s s' : Db)
      → event.event_type ≡ "OrderCreated"
      → handle codec g clock event s ≡ (ok tt, s')
      → IsMarked event s'
  handle-marks_created clock event s s' kind h = elim (handle-cases codec g clock event s s' h) [
    | inl marked ↦ marked
    | inr (n, m, l) ↦
        let known : str_eq "OrderCreated" "OrderCreated" ≡ false = rw kind at n in
        absurd (ground arith)
  ]

  -- Two events are delivered again, in any order and as often as the list says; each delivery is a
  -- call of `Handle` that succeeds or fails.
  abbrev pub redelivered : OutboxEvent → OutboxEvent → List (Bool × (ℕ → Time)) → Db → Db
  redelivered a b [] s = s
  redelivered a b ((first, clock) ∷ ds) s =
      redelivered a b ds (handle codec g clock (if first then a else b) s).1

  redelivered-IsMarked :
      (a b : OutboxEvent) (ds : List (Bool × (ℕ → Time))) (s : Db)
      → IsMarked a s
      → IsMarked b s
      → redelivered a b ds s ≡ s
  redelivered-IsMarked a b [] s ma mb = refl
  redelivered-IsMarked a b ((true, clock) ∷ ds) s ma mb =
      ap (redelivered a b ds) (handle-IsMarked_still codec g clock a s ma)
      ∙ redelivered-IsMarked a b ds s ma mb
  redelivered-IsMarked a b ((false, clock) ∷ ds) s ma mb =
      ap (redelivered a b ds) (handle-IsMarked_still codec g clock b s mb)
      ∙ redelivered-IsMarked a b ds s ma mb

  -- If `Handle` succeeds on the confirmation of an order of which the read model has no view, and then
  -- on the order's creation, whose status is DRAFT, neither event having been handled before, then the
  -- read model shows the order once, as a draft, and goes on doing so however often the two events are
  -- delivered again.
  pub handle-overtaken :
      (clock clock' : ℕ → Time) (confirmed created : OutboxEvent) (e : OrderConfirmed)
      (c : OrderCreated) (again : List (Bool × (ℕ → Time))) (s t u : Db)
      → confirmed.event_type ≡ "OrderConfirmed"
      → unmarshal_confirmed confirmed.payload ≡ ok e
      → created.event_type ≡ "OrderCreated"
      → unmarshal_created created.payload ≡ ok c
      → c.status ≡ "DRAFT"
      → parsed codec c.id ≡ parsed codec e.order_id
      → IsNew confirmed s
      → IsNew created t
      → count (view_has_id (parsed codec c.id)) s.order_views ≡ 0
      → handle codec g clock confirmed s ≡ (ok tt, t)
      → handle codec g clock' created t ≡ (ok tt, u)
      → let v = redelivered confirmed created again u in
        (count (view_has_id (parsed codec c.id)) v.order_views ≡ 1)
        × (count (λ x. view_has_id (parsed codec c.id) x && str_eq x.status "DRAFT") v.order_views
            ≡ 1)
  handle-overtaken clock clock' confirmed created e c again s t u kind read kind' read' draft one
        new new' absent first second =
      let absent' =
        handle-confirmed_early clock confirmed e s t kind read new
          (subst (λ i. count (view_has_id i) s.order_views ≡ 0) one absent) first in
      let shown =
        handle-created clock' created c t u kind' read' new'
          (subst (λ i. count (view_has_id i) t.order_views ≡ 0) (sym one) absent') second in
      let marked = handle-marks clock confirmed s t kind first in
      let kept = handle-keeps g codec clock' confirmed created t marked in
      let still : IsMarked confirmed u = subst (λ r. IsMarked confirmed r.1) second kept in
      let marked' = handle-marks_created clock' created t u kind' second in
      rw (redelivered-IsMarked confirmed created again u still marked', ← draft) shown
