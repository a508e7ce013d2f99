-- ===== src/Worker/Consumer/Run.antt =====
-- The loop of the Kafka consumer: `Run` of internal/infrastructure/worker/kafka_consumer_worker.go.
-- The rounds are those of `step` in the parent; here are the tests of the context that end them.
use native.Mathlib.Numerals.{unary_clauses}
use mathlib.Core.Path.{subst}
use code_base_ddd.Prelude.{
  ℕ, zero, suc, ◌+◌, ◌≤◌, ◌<◌, ◌≡◌, ◌∙◌, ◌⊎◌, inl, inr, Bool, true, false, Option, none, some,
  arith, Bool-cases, if◌then◌else◌,
}
use code_base_ddd.Error.{Error}
use code_base_ddd.Effect.{ok, err, Effect, Outcome-cases}
use code_base_ddd.Uuid.{UuidCodec}
use code_base_ddd.Messaging.{Handlers, EnvelopeCodec}
use code_base_ddd.Worker.Consumer.{Reader, step, IsApart, step-committed}

-- Whether the loop returned after it closed the reader, or without.
pub data Exit : Type 0 where
  closed : Exit
  left_open : Exit

-- What the tests of the context find: `ctx.Done()` at the top of the i-th round, and `ctx.Err()`
-- after its fetch has failed.
pub record Context : Type 0 where
  pub at_top : ℕ → Bool
  pub at_fetch : ℕ → Bool

module _ {B S : Type 0} (json : EnvelopeCodec B) (codec : UuidCodec) (r : Reader S B)
    (bus : Handlers S) where
  -- So many rounds.
  abbrev pub rounds : ℕ → S → S
  rounds zero s = s
  rounds (suc k) s = rounds k (step json codec r bus s)

  -- The reader's `Close` keeps what was committed.
  abbrev pub Keeps : Effect S (Unit {0}) → Type 0
  Keeps close =
      (s : S) → (r.position (close s).1 ≡ r.position s) × (r.committed (close s).1 ≡ r.committed s)

  module _ (ctx : Context) (close : Effect S (Unit {0})) where
    -- `Run` from the i-th round on, on fuel: `none` where that many rounds did not end it. An error
    -- of `Close` is logged and dropped.
    unfoldable pub run : (fuel i : ℕ) → S → Option (Exit × S)
    run zero i s = none
    run (suc fuel) i s =
        let rest = run fuel (suc i) (step json codec r bus s) in
        let (fetched, s') = r.fetch s in
        if ctx.at_top i then some (closed, (close s).1) else elim fetched [
          | err why ↦ if ctx.at_fetch i then some (left_open, s') else rest
          | ok msg ↦ rest
        ]

    -- The ways a round can go: the context is cancelled at its top; it is when its fetch has
    -- failed; or the next round follows.
    run-cases :
        (fuel i : ℕ) (s : S)
        → ((ctx.at_top i ≡ true) × (run (suc fuel) i s ≡ some (closed, (close s).1)))
          ⊎ ((why : Error) × (t : S) × (ctx.at_top i ≡ false)
              × (ctx.at_fetch i ≡ true)
              × (r.fetch s ≡ (err why, t))
              × (run (suc fuel) i s ≡ some (left_open, t)))
          ⊎ ((ctx.at_top i ≡ false)
              × (run (suc fuel) i s ≡ run fuel (suc i) (step json codec r bus s)))
    unfolding run
    run-cases fuel i s = elim (Bool-cases (ctx.at_top i)) [
      | inl e ↦ inl (e, ground arith)
      | inr e ↦ elim (Outcome-cases (r.fetch s)) [
        | inl (msg, t, f) ↦ inr (inr (e, ground arith))
        | inr (why, t, f) ↦ elim (Bool-cases (ctx.at_fetch i)) [
          | inl c ↦ inr (inl (why, t, e, c, f, ground arith))
          | inr c ↦ inr (inr (e, ground arith))
        ]
      ]
    ]

    -- After some number of rounds, m at most, the loop has returned: the context was cancelled and it
    -- closed the reader, or a fetch failed while the context was cancelled and it left the reader
    -- open.
    abbrev pub EndsWithin : (m fuel i : ℕ) → S → Type 0
    EndsWithin m fuel i s =
        (k : ℕ) × (k ≤ m)
        × (((ctx.at_top (i + k) ≡ true) × (run fuel i s ≡ some (closed, (close (rounds k s)).1)))
            ⊎ ((why : Error) × (t : S) × (ctx.at_top (i + k) ≡ false)
                × (ctx.at_fetch (i + k) ≡ true)
                × (r.fetch (rounds k s) ≡ (err why, t))
                × (run fuel i s ≡ some (left_open, t))))

    -- If the context is cancelled at the top of some round, `Run` returns in that round or before, on
    -- any fuel above the number of rounds until then. It closes the reader only if it finds the
    -- context cancelled at the top of a round: where a fetch fails while the context is cancelled, it
    -- leaves the reader open.
    pub run-ends :
        (m fuel i : ℕ) (s : S) → ctx.at_top (i + m) ≡ true → m < fuel → EndsWithin m fuel i s
    run-ends m zero i s h less = absurd (omega arith)
    run-ends zero (suc fuel) i s h less = elim (run-cases fuel i s) [
      | inl (e, ran) ↦ (0, omega arith, inl (h, ran))
      | inr (inl (why, t, e, c, f, ran)) ↦ absurd (ground arith)
      | inr (inr (e, ran)) ↦ absurd (ground arith)
    ]
    run-ends (suc m) (suc fuel) i s h less = elim (run-cases fuel i s) [
      | inl (e, ran) ↦ (0, omega arith, inl (simp unary_clauses e, ran))
      | inr (inl (why, t, e, c, f, ran)) ↦
          (0, omega arith, inr (why, t, simp unary_clauses e, simp unary_clauses c, f, ran))
      | inr (inr (e, ran)) ↦
          let (k, few, ends) =
            run-ends m fuel (suc i) (step json codec r bus s)
              (subst (λ n. ctx.at_top n ≡ true) (omega arith) h) (omega arith) in
          elim ends [
            | inl (c, ran') ↦ (
              suc k,
              omega (arith, few),
              inl (subst (λ n. ctx.at_top n ≡ true) (omega arith) c, ran ∙ ran'),
            )
            | inr (why, t, c, c', f, ran') ↦ (
              suc k,
              omega (arith, few),
              inr (
                why,
                t,
                subst (λ n. ctx.at_top n ≡ false) (omega arith) c,
                subst (λ n. ctx.at_fetch n ≡ true) (omega arith) c',
                f,
                ran ∙ ran',
              ),
            )
          ]
    ]

    -- However `Run` returns, it has not committed beyond what was fetched, and has taken no commit
    -- back.
    pub run-committed :
        (fuel i : ℕ) (s t : S) (how : Exit)
        → IsApart json codec r bus
        → Keeps close
        → r.committed s ≤ r.position s
        → run fuel i s ≡ some (how, t)
        → (r.committed t ≤ r.position t) × (r.committed s ≤ r.committed t)
    unfolding run
    run-committed zero i s t how apart keeps h ran = absurd (ground arith)
    run-committed (suc fuel) i s t how apart keeps h ran = elim (run-cases fuel i s) [
      | inl (e, here) ↦
          let final : (close s).1 ≡ t = ground arith in
          let (p, c) = keeps s in rw (← final) (omega (arith, p, c), omega (arith, c))
      | inr (inl (why, u, e, c, f, here)) ↦
          let final : u ≡ t = ground arith in
          let (p, k) = r.fetch-err s u why f in rw (← final) (omega (arith, p, k), omega (arith, k))
      | inr (inr (e, here)) ↦
          let (low, high) = step-committed json codec r bus apart s h in
          let later : run fuel (suc i) (step json codec r bus s) ≡ some (how, t) = ground arith in
          let (low', high') =
            run-committed fuel (suc i) (step json codec r bus s) t how apart keeps low later in
          (low', omega (arith, high, high'))
    ]
