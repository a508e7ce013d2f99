-- ===== src/Worker/ProjectionWorker.antt =====
-- The wiring of the projection: internal/infrastructure/worker/projection_worker.go.
use code_base_ddd.Prelude.{
  ◌≡◌, refl, inl, inr, String, Bool, ◌||◌, [], ◌∷◌, str_eq, Bool-cases, if◌then◌else◌,
}
use code_base_ddd.Messaging.{Handler, Handlers, handlers_for, subscribe}

-- The types that the worker subscribes to.
abbrev pub is_projected : String → Bool
is_projected t = str_eq "OrderCreated" t || str_eq "OrderItemAdded" t || str_eq "OrderConfirmed" t

module _ {S : Type 0} where
  -- `projection` is the method `Handle` of the projection.
  unfoldable pub setup : Handler S → Handlers S → Handlers S
  setup projection m =
      subscribe "OrderConfirmed" projection
        (subscribe "OrderItemAdded" projection (subscribe "OrderCreated" projection m))

  -- On an empty bus, `Setup` makes the projection the one handler of each of the three types of
  -- domain events, and leaves every other type without a handler.
  pub handlers_for-setup :
      (projection : Handler S) (t : String)
      → handlers_for t (setup projection []) ≡ (if is_projected t then projection ∷ [] else [])
  unfolding handlers_for subscribe setup
  handlers_for-setup projection t = elim (Bool-cases (str_eq "OrderCreated" t)) [
    | inl e ↦ rw e refl
    | inr n ↦ elim (Bool-cases (str_eq "OrderItemAdded" t)) [
      | inl e ↦ rw (n, e) refl
      | inr m ↦ elim (Bool-cases (str_eq "OrderConfirmed" t)) [
        | inl e ↦ rw (n, m, e) refl
        | inr l ↦ rw (n, m, l) refl
      ]
    ]
  ]
