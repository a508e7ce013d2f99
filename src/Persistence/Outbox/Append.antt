-- ===== src/Persistence/Outbox/Append.antt =====
-- What `Append` adds to the outbox.
use mathlib.Core.Path.{subst}
use code_base_ddd.Prelude.{ℕ, ◌≡◌, refl, List, [], ◌∷◌, ◌++◌, map, Perm, inl, inr, arith}
use mathlib.Core.List.Perm
use code_base_ddd.Effect.{ok}
use code_base_ddd.Gorm.{Answer-cases}
use code_base_ddd.Uuid.{Uuid}
use code_base_ddd.Domain.Values.{Time}
use code_base_ddd.Domain.Events.{DomainEvent}
use code_base_ddd.Persistence.Models.{OutboxEventModel}
use code_base_ddd.Persistence.Database.{Db, Gorm, put_outbox_events}
use code_base_ddd.Persistence.Outbox.{outbox_models, append}

module _ (g : Gorm) where
  pub map-outbox_stored : (ms : List OutboxEventModel) → map g.outbox_events.stored ms ≡ ms
  map-outbox_stored [] = refl
  map-outbox_stored (m ∷ ms) = rw (g.outbox_stored m, map-outbox_stored ms)

  -- An `Append` that succeeds adds one pending row for each event, and changes nothing else.
  pub append-perm :
      (ids : ℕ → Uuid) (clock : ℕ → Time) (events : List DomainEvent) (s s' : Db)
      → append g ids clock events s ≡ (ok tt, s')
      → Perm s'.outbox_events (outbox_models ids clock 0 events ++ s.outbox_events)
        × (s' ≡ record s { outbox_events = s'.outbox_events })
  unfolding append outbox_models
  append-perm ids clock [] s s' h =
      let same : s ≡ s' = ground arith in
      (rw (← same) (Perm.refl s.outbox_events), rw (← same) refl)
  append-perm ids clock (e ∷ es) s s' h =
      let ms = outbox_models ids clock 0 (e ∷ es) in
      elim (Answer-cases (g.outbox_events.create ms s.outbox_events)) [
        | inl (t, created) ↦
            let final : put_outbox_events t s ≡ s' = ground arith in
            let rows = g.outbox_events.create-perm ms s.outbox_events t created in
            let kept = subst (λ u. Perm t (u ++ s.outbox_events)) (map-outbox_stored ms) rows in
            (rw (← final) kept, rw (← final) refl)
        | inr (text, failed) ↦ absurd (ground arith)
      ]
