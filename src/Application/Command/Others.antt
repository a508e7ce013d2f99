-- ===== src/Application/Command/Others.antt =====
-- What the handlers of internal/application/command leave alone: the rows of every order but the one
-- that the command is about.
use mathlib.Core.Path.{subst}
use mathlib.Core.List.{not-mem-nil}
use code_base_ddd.Prelude.{
  ◌≤◌, ◌≡◌, ◌≢◌, refl, ap, ◌∙◌, inl, inr, false, true, not, ◌&&◌, Bool, List, [], ◌∷◌, Mem, select,
  select-eq-nil, count, count-none, count-select_in, count-select_out, length, length-select,
  List-cases, arith, ◌==◌,
}
use code_base_ddd.Effect.{Effect, ok, Outcome-cases}
use code_base_ddd.Gorm.Rows.{mem-singleton}
use code_base_ddd.Uuid.{Uuid, UuidCodec}
use code_base_ddd.Domain.Values.{OrderId, CustomerId, parse_order_id}
use code_base_ddd.Domain.Order.{Order, add_item, confirm}
use code_base_ddd.Persistence.Models.{OrderModel, same_order}
use code_base_ddd.Persistence.Mapper.{to_order_model, to_domain_order}
use code_base_ddd.Persistence.Database.{Db, Gorm}
use code_base_ddd.Persistence.Orders.{has_id, has_id_and_version, find_by_id}
use code_base_ddd.Persistence.Orders.Statements.{IsCurrent}
use code_base_ddd.Persistence.Orders.Reload.{OrderModel-set, find_by_id-parts}
use code_base_ddd.Persistence.Orders.Shelves.{shelves, save-update}
use code_base_ddd.Application.Command.{
  AddItemToOrder, Draws, create_order, add_item_to_order, confirm_order, add_item_method,
}
use code_base_ddd.Application.Command.Keeps.{Command, create, add, confirmation, run_command}
use code_base_ddd.Application.Command.Atomic.{
  create_order-err, add_item_to_order-err, confirm_order-err,
}
use code_base_ddd.Application.Command.Created.{raised_order, create_order-Persisted}
use code_base_ddd.Application.Command.Commit.{
  Persisted, Changed, add_item_to_order-Changed, confirm_order-Changed, drained,
}

-- No two rows have one identifier: it is the primary key of the table.
abbrev pub IsKeyed : Db → Type 0
IsKeyed s = (id : Uuid) → count (has_id id) s.orders ≤ 1

count-same :
    {A : Type 0} (p q : A → Bool) (t : List A) → ((x : A) → p x ≡ q x) → count p t ≡ count q t
count-same p q [] h = refl
count-same p q (x ∷ t) h = ground (arith, h x, count-same p q t h)

module _ (g : Gorm) where
  -- The row that `FindByID` found is the only one of its order.
  found_row :
      (id : OrderId) (l : Order) (s s' : Db)
      → IsKeyed s
      → find_by_id g id s ≡ (ok l, s')
      → (m : OrderModel) × (select (has_id id.value) s.orders ≡ m ∷ [])
        × (has_id id.value m ≡ true)
        × (l.id.value ≡ m.id)
        × (l.version ≡ m.version)
  unfolding to_domain_order
  found_row id l s s' keyed found =
      let (m, ims, e, e', loaded) = find_by_id-parts g id s found in
      let here = g.orders.first-some (has_id id.value) s.orders m e in
      let few = keyed id.value in
      let size = length-select (has_id id.value) s.orders in
      let pass = count-select_out (has_id id.value) s.orders in
      elim (List-cases (select (has_id id.value) s.orders)) [
        | inl empty ↦ absurd (not-mem-nil (subst (λ r. Mem m r) empty here))
        | inr (y, [], one) ↦
            let same : m ≡ y = mem-singleton OrderModel-set (subst (λ r. Mem m r) one here) in
            let own : has_id id.value y ≡ true = ground (arith, (rw one at pass)) in
            (y, one, own, ground (arith, loaded, same), ground (arith, loaded, same))
        | inr (y, z ∷ ys, more) ↦ absurd (omega (arith, few, size, ap length more))
      ]

  -- So an order with the identifier and the version that were found has no row at another version.
  found-IsCurrent :
      (id : OrderId) (l o : Order) (s s' : Db)
      → IsKeyed s
      → find_by_id g id s ≡ (ok l, s')
      → o.id ≡ l.id
      → o.version ≡ l.version
      → IsCurrent (to_order_model o) s × (o.id.value ≡ id.value)
  unfolding to_order_model
  found-IsCurrent id l o s s' keyed found same_id same_version =
      let (m, one, own, named, version) = found_row id l s s' keyed found in
      let model = to_order_model o in
      let key : o.id.value ≡ m.id = ap (λ i. i.value) same_id ∙ named in
      let level : o.version ≡ m.version = same_version ∙ version in
      let mine : m.id ≡ id.value = ground arith in
      let p = has_id id.value in
      let stale : OrderModel → Bool = λ x. not (has_id_and_version model x) in
      let alike =
        count-same (λ x. same_order model x && stale x) (λ x. stale x && p x) s.orders
          (λ x. ground arith) in
      let within = count-select_in p stale s.orders in
      let counted : count (λ x. stale x && p x) (m ∷ []) ≡ 0 = ground (arith, key, level) in
      let whole = ap (count (λ x. stale x && p x)) one in
      (
        select-eq-nil (λ x. same_order model x && stale x) s.orders
            (omega (arith, alike, within, counted, whole)),
        key ∙ mine,
      )

  module _ (codec : UuidCodec) (d : Draws) where
    -- A method keeps the identifier and the version.
    abbrev KeepsKey : Effect Order (Unit {0}) → Type 0
    KeepsKey method =
        (o o' : Order) → method o ≡ (ok tt, o') → (o'.id ≡ o.id) × (o'.version ≡ o.version)

    Changed-others :
        (id : OrderId) (other : Uuid) (method : Effect Order (Unit {0})) (s s' : Db)
        → KeepsKey method
        → IsKeyed s
        → id.value ≢ other
        → Changed codec g d id method s s'
        → shelves s' other ≡ shelves s other
    Changed-others id other method s s' keeps keyed away c =
        let (same_id, same_version) = keeps c.loaded c.result c.called in
        let (current, key) =
          found-IsCurrent id c.loaded (drained c.result) s s keyed c.found same_id same_version in
        let saved =
          ap (λ f. f other)
            (save-update g (drained c.result) c.persisted.saved s c.persisted.middle current
              c.persisted.save_ok) in
        let elsewhere : (other == c.result.id.value) ≡ false = ground (arith, key) in
        let tables : shelves s' other ≡ shelves c.persisted.middle other =
          rw (c.persisted.orders, c.persisted.order_items) refl in
        tables ∙ saved ∙ rw elsewhere refl

    confirm-KeepsKey : KeepsKey (confirm codec d.now d.event_time)
    unfolding confirm
    confirm-KeepsKey o o' h = ground arith

    add_item-KeepsKey : (cmd : AddItemToOrder) → KeepsKey (add_item_method codec g d cmd)
    unfolding add_item_method add_item
    add_item-KeepsKey cmd o o' h = ground arith

    -- The command is about another order than this one; an order that is created has an identifier
    -- that no row has.
    abbrev pub IsElsewhere : Uuid → Command → Db → Type 0
    IsElsewhere other (create cmd) s =
        (d.entity_id ≢ other) × (count (has_id d.entity_id) s.orders ≡ 0)
    IsElsewhere other (add cmd) s =
        (id : OrderId) → parse_order_id codec cmd.order_id ≡ ok id → id.value ≢ other
    IsElsewhere other (confirmation cmd) s =
        (id : OrderId) → parse_order_id codec cmd.order_id ≡ ok id → id.value ≢ other

    created-others :
        (other : Uuid) (c : CustomerId) (s s' : Db)
        → d.entity_id ≢ other
        → count (has_id d.entity_id) s.orders ≡ 0
        → Persisted codec g d (raised_order codec g d c) s s'
        → shelves s' other ≡ shelves s other
    unfolding to_order_model
    created-others other c s s' away fresh kept =
        let o = drained (raised_order codec g d c) in
        let model = to_order_model o in
        let stale : OrderModel → Bool = λ x. not (has_id_and_version model x) in
        let clear = count-none (has_id d.entity_id) stale s.orders fresh in
        let alike =
          count-same (λ x. same_order model x && stale x) (λ x. has_id d.entity_id x && stale x)
            s.orders (λ x. ground arith) in
        let current = select-eq-nil (λ x. same_order model x && stale x) s.orders (alike ∙ clear) in
        let saved =
          ap (λ f. f other) (save-update g o kept.saved s kept.middle current kept.save_ok) in
        let elsewhere : (other == d.entity_id) ≡ false = ground arith in
        let tables : shelves s' other ≡ shelves kept.middle other =
          rw (kept.orders, kept.order_items) refl in
        tables ∙ saved ∙ rw elsewhere refl

    -- A command, whether it succeeds or fails, leaves the rows of every other order as they are; a
    -- command that creates an order has to draw an identifier that no row has.
    pub run_command-others :
        (other : Uuid) (c : Command) (s : Db)
        → IsKeyed s
        → IsElsewhere other c s
        → shelves (run_command codec g d c s) other ≡ shelves s other
    unfolding run_command
    run_command-others other (create cmd) s keyed (away, fresh) =
        elim (Outcome-cases (create_order codec g d cmd s)) [
          | inl (text, t, ran) ↦
              let (c, parsed, said, kept) = create_order-Persisted codec g d cmd text s t ran in
              ap (λ r. shelves r.1 other) ran ∙ created-others other c s t away fresh kept
          | inr (e, t, ran) ↦
              ap (λ r. shelves r.1 other) ran
              ∙ ap (λ x. shelves x other) (create_order-err codec g d cmd s t e ran)
        ]
    run_command-others other (add cmd) s keyed away =
        elim (Outcome-cases (add_item_to_order codec g d cmd s)) [
          | inl (u, t, ran) ↦
              let (id, parsed, changed) = add_item_to_order-Changed codec g d cmd s t ran in
              ap (λ r. shelves r.1 other) ran
              ∙ Changed-others id other (add_item_method codec g d cmd) s t (add_item-KeepsKey cmd)
                  keyed (away id parsed) changed
          | inr (e, t, ran) ↦
              ap (λ r. shelves r.1 other) ran
              ∙ ap (λ x. shelves x other) (add_item_to_order-err codec g d cmd s t e ran)
        ]
    run_command-others other (confirmation cmd) s keyed away =
        elim (Outcome-cases (confirm_order codec g d cmd s)) [
          | inl (u, t, ran) ↦
              let (id, parsed, changed) = confirm_order-Changed codec g d cmd s t ran in
              ap (λ r. shelves r.1 other) ran
              ∙ Changed-others id other (confirm codec d.now d.event_time) s t confirm-KeepsKey
                  keyed (away id parsed) changed
          | inr (e, t, ran) ↦
              ap (λ r. shelves r.1 other) ran
              ∙ ap (λ x. shelves x other) (confirm_order-err codec g d cmd s t e ran)
        ]
