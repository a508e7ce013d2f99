-- ===== src/Observability/MetricStore.antt =====
-- The table of metrics: internal/infrastructure/persistence/metric_store.go, MetricModel of
-- gorm_models.go, and what fills it, saveCurrentMetrics of
-- internal/infrastructure/observability/metrics.go.
use code_base_ddd.Prelude.{
  ℕ, ◌+◌, ◌≡◌, arith, String, Bool, not, ◌&&◌, Option, none, some, List, ◌∷◌, Perm, select, reject,
  count, count-perm, ltb, leb, ◌==◌, inl, inr, str_eq, if◌then◌else◌, ◌∙◌,
}
use code_base_ddd.Error.{library}
use code_base_ddd.Effect.{Result, ok, err, Effect, ◌>>=◌}
use code_base_ddd.Gorm.{Answer, Answer-cases, done, failed}
use code_base_ddd.Domain.Values.{Time}

-- A float64 is the pattern of its bits; that of 0 is 0. `B` is the type of byte sequences.
pub record MetricModel (B : Type 0) : Type 0 where
  pub id : ℕ
  pub timestamp : Time
  pub metric_name : String
  pub metric_type : String
  pub value : ℕ
  pub labels : Option B
  pub created_at : Time

-- The statements on the table, with the expression of a query that aggregates rows.
pub record MetricTable (B : Type 0) : Type 0 where
  pub create : MetricModel B → List (MetricModel B) → Answer (List (MetricModel B))
  pub find :
      (MetricModel B → Bool)
      → (order : String) → List (MetricModel B)
      → Answer (List (MetricModel B))
  pub delete : (MetricModel B → Bool) → List (MetricModel B) → Answer (List (MetricModel B))
  pub aggregate : (MetricModel B → Bool) → (expression : String) → List (MetricModel B) → Answer ℕ
  pub create-perm :
      (m : MetricModel B) (t t' : List (MetricModel B))
      → create m t ≡ done t'
      → (id : ℕ) × (created : Time) × Perm t' (record m { id = id; created_at = created } ∷ t)
  pub find-perm :
      (p : MetricModel B → Bool) (order : String) (t rs : List (MetricModel B))
      → find p order t ≡ done rs
      → Perm rs (select p t)
  pub delete-perm :
      (p : MetricModel B → Bool) (t t' : List (MetricModel B))
      → delete p t ≡ done t'
      → Perm t' (reject p t)

abbrev pub is_named_since : {B : Type 0} → String → Time → MetricModel B → Bool
is_named_since name since m = str_eq m.metric_name name && leb since m.created_at

-- `created_at < now - older`
abbrev pub is_older : {B : Type 0} → Time → ℕ → MetricModel B → Bool
is_older now older m = ltb (m.created_at + older) now

-- The expression that AggregateMetric selects.
unfoldable pub aggregate_expression : String → String
aggregate_expression a =
    if str_eq a "avg"
    then "COALESCE(AVG(value), 0)"
    else (if str_eq a "max"
        then "COALESCE(MAX(value), 0)"
        else (if str_eq a "min"
            then "COALESCE(MIN(value), 0)"
            else (if str_eq a "count" then "COUNT(*)" else "COALESCE(SUM(value), 0)")))

-- `L` is the type of a map of labels, `marshal` json.Marshal on it.
module _ {B L : Type 0} (table : MetricTable B) (marshal : L → Result B) where
  abbrev pub Rows : Type 0
  Rows = List (MetricModel B)

  abbrev pub create_metric : MetricModel B → Effect Rows (Unit {0})
  create_metric m t = elim (table.create m t) [
    | done t' ↦ (ok tt, t')
    | failed e ↦ (err (library e), t)
  ]

  -- `labels` is none for a nil map; the two times are readings of the clock.
  unfoldable pub save_metric : Time → Time → String → String → ℕ → Option L → Effect Rows (Unit {0})
  save_metric now later name type_name value none = create_metric (record {
    id = 0;
    timestamp = now;
    metric_name = name;
    metric_type = type_name;
    value = value;
    labels = none;
    created_at = later;
  })
  save_metric now later name type_name value (some labels) = do
    json ← λ s. (marshal labels, s)
    create_metric (record {
      id = 0;
      timestamp = now;
      metric_name = name;
      metric_type = type_name;
      value = value;
      labels = some json;
      created_at = later;
    })

  unfoldable pub get_metrics_by_name : String → Time → Effect Rows (List (MetricModel B))
  get_metrics_by_name name since t =
      elim (table.find (is_named_since name since) "created_at DESC" t) [
        | done rs ↦ (ok rs, t)
        | failed e ↦ (err (library e), t)
      ]

  unfoldable pub aggregate_metric : String → String → Time → Effect Rows ℕ
  aggregate_metric name aggregation since t =
      elim (table.aggregate (is_named_since name since) (aggregate_expression aggregation) t) [
        | done n ↦ (ok n, t)
        | failed e ↦ (err (library e), t)
      ]

  unfoldable pub delete_old_metrics : Time → ℕ → Effect Rows (Unit {0})
  delete_old_metrics now older t = elim (table.delete (is_older now older) t) [
    | done t' ↦ (ok tt, t')
    | failed e ↦ (err (library e), t)
  ]

  -- saveCurrentMetrics drops the errors. `clock` gives its readings in order.
  unfoldable pub save_current_metrics : (ℕ → Time) → Rows → Rows
  save_current_metrics clock t =
      let u = (save_metric (clock 0) (clock 1) "outbox_pending_total" "gauge" 0 none t).1 in
      let v =
        (save_metric (clock 2) (clock 3) "outbox_publish_success_total" "counter" 0 none u).1 in
      (save_metric (clock 4) (clock 5) "outbox_publish_failed_total" "counter" 0 none v).1

  -- After a DeleteOldMetrics that succeeds, the rows that stay are those that were not too old.
  pub delete_old_metrics-perm :
      (now : Time) (older : ℕ) (t t' : Rows)
      → delete_old_metrics now older t ≡ (ok tt, t')
      → Perm t' (reject (is_older now older) t)
  unfolding delete_old_metrics
  delete_old_metrics-perm now older t t' h =
      elim (Answer-cases (table.delete (is_older now older) t)) [
        | inl (u, e) ↦
            let same : u ≡ t' = ground arith in
            table.delete-perm (is_older now older) t t' (rw (← same) e)
        | inr (x, e) ↦ ground arith
      ]

  -- Rows with a value other than zero.
  abbrev pub nonzero : MetricModel B → Bool
  nonzero m = not (m.value == 0)

  save_zero-nonzero :
      (now later : Time) (name type_name : String) (t : Rows)
      → count nonzero (save_metric now later name type_name 0 none t).1 ≡ count nonzero t
  unfolding save_metric
  save_zero-nonzero now later name type_name t =
      let m : MetricModel B = record {
        id = 0;
        timestamp = now;
        metric_name = name;
        metric_type = type_name;
        value = 0;
        labels = none;
        created_at = later;
      } in
      elim (Answer-cases (table.create m t)) [
        | inl (u, e) ↦
            let (id, created, rows) = table.create-perm m t u e in
            let final : (save_metric now later name type_name 0 none t).1 ≡ u = ground arith in
            let same = count-perm nonzero rows in rw final (omega (arith, same))
        | inr (x, e) ↦
            let final : (save_metric now later name type_name 0 none t).1 ≡ t = ground arith in
            rw final
      ]

  -- What the periodic task saves is zero: however often the counters were raised, it adds no row
  -- with another value.
  pub save_current_metrics-nonzero :
      (clock : ℕ → Time) (t : Rows) → count nonzero (save_current_metrics clock t) ≡ count nonzero t
  unfolding save_current_metrics
  save_current_metrics-nonzero clock t =
      let u = (save_metric (clock 0) (clock 1) "outbox_pending_total" "gauge" 0 none t).1 in
      let v =
        (save_metric (clock 2) (clock 3) "outbox_publish_success_total" "counter" 0 none u).1 in
      save_zero-nonzero (clock 4) (clock 5) "outbox_publish_failed_total" "counter" v
      ∙ (save_zero-nonzero (clock 2) (clock 3) "outbox_publish_success_total" "counter" u
          ∙ save_zero-nonzero (clock 0) (clock 1) "outbox_pending_total" "gauge" t)
