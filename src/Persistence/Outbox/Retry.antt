-- ===== src/Persistence/Outbox/Retry.antt =====
-- The life of a row of the outbox: `MarkFailed`, `MarkPublished` and `RequeueFailed`.
use code_base_ddd.Prelude.{
  ℕ, zero, suc, ◌+◌, ◌*◌, ◌^◌, ◌≤◌, ◌<◌, ◌≡◌, refl, ap, ◌∙◌, ◌≢◌, String, false, List, [], ◌∷◌, map,
  select, select-perm, total, total-append, total-perm, length, All, arith, inl, inr, Bool-cases,
  if◌then◌else◌, ltb,
}
use code_base_ddd.Effect.{ok}
use code_base_ddd.Gorm.{Answer-cases}
use code_base_ddd.Int64.{half, add64, slt}
use code_base_ddd.Uuid.{Uuid}
use code_base_ddd.Domain.Values.{Time}
use code_base_ddd.Ports.{OutboxEvent}
use code_base_ddd.Persistence.Models.{OutboxEventModel}
use code_base_ddd.Persistence.Database.{Db, Gorm, put_outbox_events}
use code_base_ddd.Persistence.Outbox.{
  second, pending, failed_status, backoff_secs, failed_model, published_model, requeued_model,
  is_pending, is_failed, has_event_id, to_outbox_event, fetch_pending, mark_published,
  requeue_failed,
}

two_pow-pos : (n : ℕ) → 0 < 2 ^ n
two_pow-pos zero = omega arith
two_pow-pos (suc n) = omega (arith, two_pow-pos n)

-- The wait before the next attempt, in seconds, once an attempt has failed.
backoff_secs-bounds : (n : ℕ) → 0 < n → n < half → (4 ≤ backoff_secs n) × (backoff_secs n ≤ 300)
unfolding backoff_secs
backoff_secs-bounds zero pos h = absurd (omega arith)
backoff_secs-bounds (suc n) pos h =
    let more = two_pow-pos n in
    let small : slt (suc n) 0 ≡ false = ground arith in rw small (omega (arith, more))

-- A row after a sequence of failures, each with the clock and the error's text.
abbrev pub after_failures : List (Time × String) → OutboxEventModel → OutboxEventModel
after_failures [] m = m
after_failures ((now, why) ∷ fs) m = after_failures fs (failed_model now why m)

-- Whether the row has used up its attempts decides its status.
abbrev pub IsCounted : OutboxEventModel → Type 0
IsCounted m =
    (m.retry_count < 10 → m.status ≡ pending) × (10 ≤ m.retry_count → m.status ≡ failed_status)

failed_model-IsCounted :
    (now : Time) (why : String) (m : OutboxEventModel)
    → m.retry_count + 1 < half
    → IsCounted m
    → IsCounted (failed_model now why m)
      × ((failed_model now why m).retry_count ≡ m.retry_count + 1)
unfolding failed_model
failed_model-IsCounted now why m h c =
    let one_more : add64 m.retry_count 1 ≡ m.retry_count + 1 = omega arith in
    elim (Bool-cases (slt (add64 m.retry_count 1) 10)) [
      | inl more ↦
          let left : m.retry_count + 1 < 10 = ground arith in
          rw more ((λ _. c.0 (omega arith), λ few. absurd (omega arith)), one_more)
      | inr none_left ↦
          let spent : 10 ≤ m.retry_count + 1 = ground arith in
          rw none_left ((λ few. absurd (omega arith), λ _. refl), one_more)
    ]

after_failures-IsCounted :
    (fs : List (Time × String)) (m : OutboxEventModel)
    → m.retry_count + length fs < half
    → IsCounted m
    → IsCounted (after_failures fs m)
      × ((after_failures fs m).retry_count ≡ m.retry_count + length fs)
after_failures-IsCounted [] m h c = (c, omega arith)
after_failures-IsCounted ((now, why) ∷ fs) m h c =
    let (kept, count) = failed_model-IsCounted now why m (omega arith) c in
    let (rest, total_count) =
      after_failures-IsCounted fs (failed_model now why m) (omega (arith, count)) kept in
    (rest, omega (arith, count, total_count))

-- A fresh row stays pending through nine failures and is failed from the tenth on; its count is
-- the number of failures, as long as there are fewer than 2^63 of them.
pub after_failures-status :
    (fs : List (Time × String)) (m : OutboxEventModel)
    → m.status ≡ pending
    → m.retry_count ≡ 0
    → length fs < half
    → ((after_failures fs m).status ≡ (if ltb (length fs) 10 then pending else failed_status))
      × ((after_failures fs m).retry_count ≡ length fs)
after_failures-status fs m fresh unused h =
    let (c, n) =
      after_failures-IsCounted fs m (omega arith) ((λ _. fresh), λ many. absurd (omega arith)) in
    elim (Bool-cases (ltb (length fs) 10)) [
      | inl few ↦ (rw few (c.0 (ground arith)), omega arith)
      | inr many ↦ (rw many (c.1 (ground arith)), omega arith)
    ]

-- If the failure of an outbox row that has failed fewer than 2^63 - 1 times does not make it a failed
-- one, it puts the next attempt off by four seconds at least and five minutes at most.
pub failed_model-delay :
    (now : Time) (why : String) (m : OutboxEventModel)
    → m.retry_count + 1 < half
    → (failed_model now why m).status ≢ failed_status
    → (now + 4 * second ≤ (failed_model now why m).available_at)
      × ((failed_model now why m).available_at ≤ now + 300 * second)
unfolding failed_model
failed_model-delay now why m h left =
    let one_more : add64 m.retry_count 1 ≡ m.retry_count + 1 = omega arith in
    elim (Bool-cases (slt (add64 m.retry_count 1) 10)) [
      | inl more ↦
          let (low, high) = backoff_secs-bounds (m.retry_count + 1) (omega arith) h in
          rw (more, one_more) (omega arith, omega arith)
      | inr none_left ↦ absurd (left (rw none_left refl))
    ]

module _ (g : Gorm) where
  none_failed :
      (now : Time) (t : List OutboxEventModel)
      → total
          (λ r. if is_failed r then 1 else 0)
          (map (λ r. if is_failed r then requeued_model now r else r) t)
        ≡ 0
  none_failed now [] = refl
  none_failed now (m ∷ t) = elim (Bool-cases (is_failed m)) [
    | inl e ↦ rw e (omega (arith, none_failed now t))
    | inr e ↦ rw (e, e) (omega (arith, none_failed now t))
  ]

  -- A `RequeueFailed` that succeeds returns the number of failed rows and leaves none.
  pub requeue_failed-ok :
      (now : Time) (n : ℕ) (s s' : Db)
      → requeue_failed g now s ≡ (ok n, s')
      → (n ≡ length (select is_failed s.outbox_events))
        × (total (λ r. if is_failed r then 1 else 0) s'.outbox_events ≡ 0)
  unfolding requeue_failed
  requeue_failed-ok now n s s' h =
      elim (Answer-cases (g.outbox_events.updates is_failed (requeued_model now) s.outbox_events)) [
        | inl ((k, t), done) ↦
            let same : k ≡ n = ground arith in
            let final : put_outbox_events t s ≡ s' = ground arith in
            let (count, rows) =
              g.outbox_events.updates-perm is_failed (requeued_model now) s.outbox_events t k
                done in
            (
              omega arith,
              rw (← final) (
                  total-perm (λ r. if is_failed r then 1 else 0) rows
                  ∙ none_failed now s.outbox_events),
            )
        | inr (text, failed) ↦ absurd (ground arith)
      ]

  -- The rows with an identifier, counted.
  copies : Uuid → OutboxEventModel → ℕ
  copies id m = if has_event_id id m then 1 else 0

  none_pending :
      (now later : Time) (id : Uuid) (t : List OutboxEventModel)
      → total (copies id) (
          select
            (is_pending later)
            (map (λ r. if has_event_id id r then published_model now r else r) t))
        ≡ 0
  unfolding copies
  none_pending now later id [] = refl
  none_pending now later id (m ∷ t) = elim (Bool-cases (has_event_id id m)) [
    | inl mine ↦ rw mine (none_pending now later id t)
    | inr other ↦ elim (Bool-cases (is_pending later m)) [
      | inl e ↦ rw (other, e, other) (omega (arith, none_pending now later id t))
      | inr e ↦ rw (other, e) (none_pending now later id t)
    ]
  ]

  no_copies :
      (id : Uuid) (t : List OutboxEventModel)
      → total (copies id) t ≡ 0
      → All (λ e. e.id ≢ id) (map to_outbox_event t)
  unfolding copies
  no_copies id [] h = tt
  no_copies id (m ∷ t) h = elim (Bool-cases (has_event_id id m)) [
    | inl mine ↦ absurd (ground arith)
    | inr other ↦ ((λ same. ground arith), no_copies id t (ground arith))
  ]

  -- Once `MarkPublished` has succeeded on an event, a `FetchPending` that runs next does not return
  -- it, whatever the clock says.
  pub fetch_pending-mark_published :
      (now later : Time) (id : Uuid) (batch_size : ℕ) (s s' s'' : Db) (events : List OutboxEvent)
      → mark_published g now id s ≡ (ok tt, s')
      → fetch_pending g later batch_size s' ≡ (ok events, s'')
      → All (λ e. e.id ≢ id) events
  unfolding mark_published fetch_pending
  fetch_pending-mark_published now later id batch_size s s' s'' events h k =
      elim (Answer-cases
        (g.outbox_events.updates (has_event_id id) (published_model now) s.outbox_events)) [
          | inr (text, failed) ↦ absurd (ground arith)
          | inl ((n, t), marked) ↦
              let final : put_outbox_events t s ≡ s' = ground arith in
              let rows =
                (g.outbox_events.updates-perm (has_event_id id) (published_model now)
                  s.outbox_events t n marked).1 in
              elim (Answer-cases (
                g.fetch_outbox (is_pending later) (λ m. m.occurred_at) batch_size
                  s'.outbox_events)) [
                    | inr (text, failed) ↦ absurd (ground arith)
                    | inl (ms, fetched) ↦
                        let listed : map to_outbox_event ms ≡ events = ground arith in
                        let (few, rest, perm) =
                          g.fetch_outbox-perm (is_pending later) (λ m. m.occurred_at) batch_size
                            s'.outbox_events ms fetched in
                        let table : t ≡ s'.outbox_events = ap (λ d. d.outbox_events) final in
                        let seen = total-perm (copies id) perm in
                        let here = total-perm (copies id) (select-perm (is_pending later) rows) in
                        let nothing = none_pending now later id s.outbox_events in
                        let split = total-append (copies id) ms rest in
                        let linked =
                          ap (λ u. total (copies id) (select (is_pending later) u)) table in
                        rw (← listed)
                          (no_copies id ms (omega (arith, seen, here, nothing, split, linked)))
                  ]
        ]
