-- ===== src/Observability/Metrics.antt =====
-- The metrics of the program, and the task that saves them:
-- internal/infrastructure/observability/metrics.go.
use mathlib.Core.Path.{subst}
use code_base_ddd.Prelude.{
  ℕ, zero, suc, ◌<◌, ◌≡◌, refl, ap, ◌∙◌, Bool-cases, eq_iff, String, Bool, true, false, ◌||◌,
  Option, none, some, List, [], ◌∷◌, count, arith, str_eq, inl, inr,
}
use code_base_ddd.Effect.{Result}
use code_base_ddd.Domain.Values.{Time}
use code_base_ddd.Observability.Values.{Members}
use code_base_ddd.Observability.MetricStore.{
  MetricModel, MetricTable, save_current_metrics, nonzero, save_current_metrics-nonzero,
}

pub data Kind : Type 0 where
  gauge : Kind
  counter : Kind
  histogram : (labels : List String) → Kind

-- A collector, by the name that follows the namespace.
pub record Collector : Type 0 where
  pub kind : Kind
  pub name : String

abbrev pub outbox_pending_gauge : Collector
outbox_pending_gauge = record { kind = gauge; name = "outbox_pending_total" }

abbrev pub outbox_publish_success : Collector
outbox_publish_success = record { kind = counter; name = "outbox_publish_success_total" }

abbrev pub outbox_publish_failed : Collector
outbox_publish_failed = record { kind = counter; name = "outbox_publish_failed_total" }

abbrev pub projection_lag_seconds : Collector
projection_lag_seconds = record { kind = gauge; name = "projection_lag_seconds" }

abbrev pub http_request_duration : Collector
http_request_duration = record {
  kind = histogram ("method" ∷ "path" ∷ "status" ∷ []);
  name = "http_request_duration_seconds";
}

abbrev pub collectors : List Collector
collectors =
    outbox_pending_gauge ∷ outbox_publish_success ∷ outbox_publish_failed ∷ projection_lag_seconds
    ∷ http_request_duration ∷ []

-- prometheus.Registerer on one namespace: `Register` refuses a name that it has.
pub record Registerer (R : Type 0) : Type 0 where
  pub register : Collector → R → Option R
  pub has : String → R → Bool
  pub register-new :
      (c : Collector) (r : R)
      → has c.name r ≡ false
      → (r' : R) × (register c r ≡ some r')
        × ((name : String) → has name r' ≡ (str_eq name c.name || has name r))
  pub register-known : (c : Collector) (r : R) → has c.name r ≡ true → register c r ≡ none

module _ {R : Type 0} (reg : Registerer R) where
  -- MustRegister, which panics, `none`, at the first collector that is refused
  abbrev pub must_register : List Collector → R → Option R
  must_register [] r = some r
  must_register (c ∷ cs) r = elim (reg.register c r) [ none ↦ none | some r' ↦ must_register cs r' ]

  -- NewMetrics
  unfoldable pub new_metrics : R → Option R
  new_metrics r = must_register collectors r

swap : (a b c : Bool) → (a || (b || c)) ≡ ((b || a) || c)
swap true true c = refl
swap true false c = refl
swap false true c = refl
swap false false c = refl

-- One of the collectors has the name.
abbrev pub has_name : String → List Collector → Bool
has_name n [] = false
has_name n (c ∷ cs) = str_eq n c.name || has_name n cs

abbrev pub IsDistinct : List Collector → Type 0
IsDistinct [] = Unit
IsDistinct (c ∷ cs) = (has_name c.name cs ≡ false) × IsDistinct cs

module _ {R : Type 0} (reg : Registerer R) where
  -- None of the names is taken.
  abbrev pub IsFree : List Collector → R → Type 0
  IsFree cs r = (n : String) → has_name n cs ≡ true → reg.has n r ≡ false

  must_register-some :
      (c : Collector) (cs : List Collector) (r r₁ : R)
      → reg.register c r ≡ some r₁
      → must_register reg (c ∷ cs) r ≡ must_register reg cs r₁
  must_register-some c cs r r₁ h = rw (must_register, h) refl

  must_register-new :
      (cs : List Collector) (r : R)
      → IsDistinct cs
      → IsFree cs r
      → (r' : R) × (must_register reg cs r ≡ some r')
        × ((n : String) → reg.has n r' ≡ (has_name n cs || reg.has n r))
  must_register-new [] r distinct free = (r, refl, λ n. refl)
  must_register-new (c ∷ cs) r (other, distinct) free =
      let unknown : reg.has c.name r ≡ false = free c.name (ground (arith, eq_iff c.name c.name)) in
      let (r₁, added, has₁) = reg.register-new c r unknown in
      let free₁ : IsFree cs r₁ = λ n h. elim (Bool-cases (str_eq n c.name)) [
        | inl same ↦
            let clash : has_name c.name cs ≡ true =
              subst (λ x. has_name x cs ≡ true) ((eq_iff n c.name).0 same) h in
            absurd (ground arith)
        | inr else ↦ let old = free n (rw (else, h) refl) in has₁ n ∙ rw (else, old) refl
      ] in
      let (r', rest, has') = must_register-new cs r₁ distinct free₁ in
      (
        r',
        must_register-some c cs r r₁ added ∙ rest,
        λ n.
            has' n
            ∙ ap (λ b. has_name n cs || b) (has₁ n)
            ∙ swap (has_name n cs) (str_eq n c.name) (reg.has n r),
      )

  -- On a registry that has none of its names, NewMetrics does not panic: it registers its five
  -- collectors; called once more on what results, it does.
  pub new_metrics-new :
      (r : R)
      → IsFree collectors r
      → (r' : R) × (new_metrics reg r ≡ some r')
        × (new_metrics reg r' ≡ none)
        × ((n : String) → reg.has n r' ≡ (has_name n collectors || reg.has n r))
  unfolding new_metrics
  new_metrics-new r free =
      let (r', made, has') =
        must_register-new collectors r (refl, (refl, (refl, (refl, (refl, tt))))) free in
      let known : reg.has "outbox_pending_total" r' ≡ true = has' "outbox_pending_total" in
      (r', made, rw (reg.register-known outbox_pending_gauge r' known) refl, has')

-- What the `select` of persistMetrics receives: a tick, with the readings of the clock that the
-- saving takes, or that `Stop` closed the channel.
pub data Wake : Type 0 where
  ticked : (clock : ℕ → Time) → Wake
  stopped : Wake

module _ {B : Type 0} (table : MetricTable B) (marshal : Members → Result B)
    (wakes : ℕ → Wake) where
  -- persistMetrics from its i-th select on, on fuel: `none` where that many selects did not end it.
  unfoldable pub persist_metrics :
      (fuel i : ℕ) → List (MetricModel B) → Option (List (MetricModel B))
  persist_metrics zero i t = none
  persist_metrics (suc fuel) i t = elim (wakes i) [
    | ticked clock ↦ persist_metrics fuel (suc i) (save_current_metrics table marshal clock t)
    | stopped ↦ some t
  ]

  abbrev pub StopsAfter : ℕ → ℕ → Type 0
  StopsAfter zero i = wakes i ≡ stopped
  StopsAfter (suc m) i = ((clock : ℕ → Time) × (wakes i ≡ ticked clock)) × StopsAfter m (suc i)

  persist-ticked :
      (fuel i : ℕ) (clock : ℕ → Time) (t : List (MetricModel B))
      → wakes i ≡ ticked clock
      → persist_metrics (suc fuel) i t
        ≡ persist_metrics fuel (suc i) (save_current_metrics table marshal clock t)
  unfolding persist_metrics
  persist-ticked fuel i clock t h = rw (persist_metrics, h) refl

  persist-stopped :
      (fuel i : ℕ) (t : List (MetricModel B))
      → wakes i ≡ stopped
      → persist_metrics (suc fuel) i t ≡ some t
  unfolding persist_metrics
  persist-stopped fuel i t h = rw (persist_metrics, h) refl

  -- Once `Stop` has been called, persistMetrics returns, on any fuel above the number of ticks until
  -- then; and all that it has added to the table are rows with the value zero, however often the
  -- counters were raised.
  pub persist_metrics-zero :
      (m fuel i : ℕ) (t : List (MetricModel B))
      → StopsAfter m i
      → m < fuel
      → (t' : List (MetricModel B)) × (persist_metrics fuel i t ≡ some t')
        × (count (nonzero table marshal) t' ≡ count (nonzero table marshal) t)
  persist_metrics-zero m zero i t stops less = absurd (omega arith)
  persist_metrics-zero zero (suc fuel) i t stops less = (t, persist-stopped fuel i t stops, refl)
  persist_metrics-zero (suc m) (suc fuel) i t ((clock, woken), stops) less =
      let (t', ran, same) =
        persist_metrics-zero m fuel (suc i) (save_current_metrics table marshal clock t) stops
          (omega arith) in
      (
        t',
        persist-ticked fuel i clock t woken ∙ ran,
        same ∙ save_current_metrics-nonzero table marshal clock t,
      )
