-- ===== src/Messaging/Subscriptions.antt =====
-- What `Subscribe` and the loops over the handlers do.
use code_base_ddd.Prelude.{
  ◌≡◌, ◌≢◌, refl, inl, inr, String, List, [], ◌∷◌, ◌++◌, arith, str_eq, eq_iff, Bool-cases,
}
use code_base_ddd.Effect.{Outcome-cases, ◌>>◌}
use code_base_ddd.Ports.{OutboxEvent}
use code_base_ddd.Messaging.{Handler, Handlers, handlers_for, subscribe, run_handlers}

module _ {S : Type 0} where
  -- After `Subscribe`, the type's handlers are those of before and the new one, last; those of every
  -- other type are as before.
  pub handlers_for-subscribe :
      (t : String) (h : Handler S) (m : Handlers S)
      → (handlers_for t (subscribe t h m) ≡ handlers_for t m ++ h ∷ [])
        × ((u : String) → u ≢ t → handlers_for u (subscribe t h m) ≡ handlers_for u m)
  unfolding handlers_for subscribe
  handlers_for-subscribe t h [] =
      let self = (eq_iff t t).1 refl in (rw self refl, λ u other. ground (arith, eq_iff t u))
  handlers_for-subscribe t h ((v, hs) ∷ m) =
      let (mine, others) = handlers_for-subscribe t h m in
      elim (Bool-cases (str_eq v t)) [
        | inl same ↦ rw same (rw same refl, λ u other. ground (arith, eq_iff v t, eq_iff v u))
        | inr differ ↦ rw differ (rw differ mine, λ u other. ground (arith, others u other))
      ]

  -- A list of handlers runs as its first part, and then, unless that failed, as the rest.
  pub run_handlers-append :
      (prefix : String) (event : OutboxEvent) (hs ks : List (Handler S)) (s : S)
      → run_handlers prefix event (hs ++ ks) s
        ≡ (run_handlers prefix event hs >> run_handlers prefix event ks) s
  unfolding run_handlers
  run_handlers-append prefix event [] ks s = refl
  run_handlers-append prefix event (h ∷ hs) ks s = elim (Outcome-cases (h event s)) [
    | inl (u, t, e) ↦ ground (arith, run_handlers-append prefix event hs ks t)
    | inr (why, t, e) ↦ ground arith
  ]
