-- ===== src/Application/Projection/Convergence/Orders.antt =====
-- The events that the methods of an order raise, as a stream for the projection.
use mathlib.Core.Path.{subst}
use mathlib.Core.List.{append_assoc, append-nil}
use code_base_ddd.Prelude.{
  ℕ, ◌<◌, ◌≡◌, ◌≢◌, sym, ap, ◌∙◌, inl, inr, List, [], ◌∷◌, ◌++◌, map, All, count, arith,
}
use code_base_ddd.Effect.{ok}
use code_base_ddd.Int64.{half}
use code_base_ddd.Uuid.{Uuid, UuidCodec}
use code_base_ddd.Domain.Values.{order_id_from, Time, CustomerId, status_confirmed, new_order_item}
use code_base_ddd.Domain.Events.{
  DomainEvent, order_confirmed, new_order_created, new_order_item_added, new_order_confirmed,
}
use code_base_ddd.Domain.Order.{Order, new_order, total_amount}
use code_base_ddd.Domain.Order.Methods.{Method, call_add_item, call_confirm, run, FitsWords}
use code_base_ddd.Domain.Order.Replay.{replay, line, account, new_order-run-replay}
use code_base_ddd.Domain.Order.Total as Exact
use code_base_ddd.Persistence.Models.{OrderItemViewModel}
use code_base_ddd.Persistence.Database.{Db, Gorm}
use code_base_ddd.Persistence.ReadModels.{item_view_has_id, item_view_of, view_has_id}
use code_base_ddd.Application.Projection.Convergence.Shown.{Shows}
use code_base_ddd.Application.Projection.Convergence.Steps.{lines_total}
use code_base_ddd.Application.Projection.Convergence.Streams.{
  Follow, IsNewIn, IsAnother, project_stream, project_stream-Shows,
}
use code_base_ddd.Application.Projection.Convergence.Methods.{
  cost, item_event, made, parsed-to_string, add_item-cases, confirm-cases, run-cost,
  lines_total-map, item-fits, item-account, confirmed-account, new_order-made,
}

-- An item with the identifier is not among those that the calls add.
abbrev pub Avoids : Uuid → Method → Type 0
Avoids item (call_add_item id now at product name quantity price) = item ≢ id
Avoids item (call_confirm now at) = Unit {0}

abbrev pub HasOwnId : List Method → Type 0
HasOwnId [] = Unit {0}
HasOwnId (call_add_item id now at product name quantity price ∷ ms) =
    All (Avoids id) ms × HasOwnId ms
HasOwnId (call_confirm now at ∷ ms) = HasOwnId ms

abbrev pub AddsNew : List OrderItemViewModel → Method → Type 0
AddsNew t (call_add_item id now at product name quantity price) = count (item_view_has_id id) t ≡ 0
AddsNew t (call_confirm now at) = Unit {0}

module _ (codec : UuidCodec) where
  module _ (g : Gorm) where
    -- What the calls `ms` raised on an order, up to the order `final`.
    abbrev Followed : Order → List Method → Order → Type 0
    Followed o ms final =
        (es : List DomainEvent) × (final.events ≡ o.events ++ es)
        × Follow codec g o.id.value (account codec o) es
        × ((item : Uuid) → All (Avoids item) ms → All (IsAnother codec g o.id.value item) es)
        × ((t : List OrderItemViewModel)
            → All (AddsNew t) ms
            → All (IsNewIn codec g o.id.value t) es)

    skipped :
        (o : Order) (m : Method) (ms : List Method) (final : Order)
        → Followed o ms final
        → Followed o (m ∷ ms) final
    skipped o m ms final (es, e, f, apart, fresh) =
        (es, e, f, λ item h. apart item h.1, λ t h. fresh t h.1)

    run-Followed :
        (ms : List Method) (o : Order)
        → All FitsWords ms
        → HasOwnId ms
        → cost (run codec ms o) < half
        → Followed o ms (run codec ms o)
    unfolding new_order_item_added new_order_item new_order_confirmed
    run-Followed [] o words own small = ([], sym (append-nil o.events), tt, λ item h. tt, λ t h. tt)
    run-Followed (call_add_item id now at product name quantity price ∷ ms) o ((wide, broad), words)
          (own, rest) small =
        let m = call_add_item id now at product name quantity price in
        elim (add_item-cases codec id now at product name quantity price o wide broad) [
          | inl same ↦
              subst (λ x. Followed o (m ∷ ms) (run codec ms x)) (sym same)
                (skipped o m ms (run codec ms o) (
                  run-Followed ms o words rest
                    (subst (λ x. cost (run codec ms x) < half) same small)))
          | inr (draft, many, paid, added) ↦
              let next : Order = record o {
                items = o.items ++ new_order_item id product name quantity price ∷ [];
                updated_at = now;
                events = o.events ++ item_event codec id at product name quantity price o ∷ [];
              } in
              let small' = subst (λ x. cost (run codec ms x) < half) added small in
              let (es, e, f, apart, fresh) = run-Followed ms next words rest small' in
              let grows = run-cost codec ms next in
              let fits =
                item-fits codec o.items (new_order_item id product name quantity price) many paid
                  (omega (arith, grows, small')) in
              let told = item-account codec id now at product name quantity price o draft in
              subst (λ x. Followed o (m ∷ ms) (run codec ms x)) (sym added)
                (
                  item_event codec id at product name quantity price o ∷ es,
                  e
                      ∙ append_assoc o.events
                          (item_event codec id at product name quantity price o ∷ []) es,
                  (
                    parsed-to_string codec o.id.value,
                    ap codec.to_string (parsed-to_string codec id),
                    fits.0,
                    fits.1,
                    subst (λ x. All (IsAnother codec g o.id.value x) es)
                        (sym (parsed-to_string codec id)) (apart id own),
                    subst (λ a. Follow codec g o.id.value a es) (sym told) f,
                  ),
                  λ item h. (λ k. h.0 (k ∙ parsed-to_string codec id), apart item h.1),
                  λ t h. (
                    subst (λ u. count (item_view_has_id u) t ≡ 0) (sym (parsed-to_string codec id))
                        h.0,
                    fresh t h.1,
                  ),
                )
        ]
    run-Followed (call_confirm now at ∷ ms) o (w, words) own small =
        let m = call_confirm now at in
        elim (confirm-cases codec now at o) [
          | inl same ↦
              subst (λ x. Followed o (m ∷ ms) (run codec ms x)) (sym same)
                (skipped o m ms (run codec ms o) (
                  run-Followed ms o words own
                    (subst (λ x. cost (run codec ms x) < half) same small)))
          | inr done ↦
              let event = order_confirmed (new_order_confirmed codec at o.id (total_amount o)) in
              let next : Order = record o {
                status = status_confirmed;
                updated_at = now;
                events = o.events ++ event ∷ [];
              } in
              let small' = subst (λ x. cost (run codec ms x) < half) done small in
              let (es, e, f, apart, fresh) = run-Followed ms next words own small' in
              let grows = run-cost codec ms next in
              let whole : (total_amount o).amount ≡ lines_total (map (line codec) o.items) = omega (
                arith,
                Exact.total_amount-mod o,
                grows,
                small',
                lines_total-map codec o.items (omega (arith, grows, small')),
              ) in
              subst (λ x. Followed o (m ∷ ms) (run codec ms x)) (sym done)
                (
                  event ∷ es,
                  e ∙ append_assoc o.events (event ∷ []) es,
                  (
                    parsed-to_string codec o.id.value,
                    whole,
                    subst (λ a. Follow codec g o.id.value a es)
                        (sym (confirmed-account codec now at o)) f,
                  ),
                  λ item h. (tt, apart item h.1),
                  λ t h. (tt, fresh t h.1),
                )
        ]

    -- The events that an order has collected, projected one after another, are those that it raised:
    -- for every order that NewOrder made codec and any calls of its methods changed, if the calls give
    -- 64-bit numbers, each item has an identifier of its own, the lines cost less than 2^63, the read
    -- model has no row of the order and none with an identifier of its items, and each call of the
    -- projection succeeds, then the read model shows the order: one view with its customer, its
    -- status and its total, and its lines with their prices, in some order.
    pub project_stream-run :
        (clocks : ℕ → ℕ → Time) (ids : ℕ → Uuid) (nows : ℕ → Time) (now : Time) (id : Uuid)
        (at : Time) (c : CustomerId) (o : Order) (ms : List Method) (s s' : Db)
        → new_order codec now id at c ≡ ok o
        → All FitsWords ms
        → HasOwnId ms
        → cost (run codec ms o) < half
        → All (AddsNew s.order_item_views) ms
        → count (view_has_id id) s.order_views ≡ 0
        → count (item_view_of id) s.order_item_views ≡ 0
        → project_stream codec g id clocks ids nows 0 (run codec ms o).events s ≡ (ok tt, s')
        → Shows codec id (account codec (run codec ms o)) s'
    unfolding new_order_created order_id_from
    project_stream-run clocks ids nows now id at c o ms s s' created words own small new no_view
          no_items h =
        let m = made codec now id at c in
        let same = new_order-made codec now id at c created in
        let small' = subst (λ x. cost (run codec ms x) < half) same small in
        let (es, e, f, apart, fresh) = run-Followed ms m words own small' in
        let all = new_order-run-replay codec now id at c o ms created in
        let first = new_order-run-replay codec now id at c o [] created in
        let events : (run codec ms o).events ≡ m.events ++ es =
          ap (λ x. (run codec ms x).events) same ∙ e in
        let begun : account codec m ≡ replay m.events =
          ap (account codec) (sym same) ∙ (sym first ∙ ap (λ x. replay x.events) same) in
        let ran =
          subst (λ l. project_stream codec g id clocks ids nows 0 l s ≡ (ok tt, s')) events h in
        let shown =
          project_stream-Shows codec g id clocks ids nows
            (new_order_created codec at (order_id_from id) c) es s s' (parsed-to_string codec id)
            (subst (λ a. Follow codec g id a es) begun f) (fresh s.order_item_views new) no_view
            no_items ran in
        subst (λ a. Shows codec id a s') (ap replay (sym events) ∙ all) shown
