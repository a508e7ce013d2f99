-- ===== src/Bootstrap.antt =====
-- The life of the process, `Run` of internal/bootstrap/app.go: what it opens, what it defers, and
-- what it calls at its end. (The wiring of requests, workers and buses is in System.antt.)
use mathlib.Core.List.{append_assoc}
use code_base_ddd.Prelude.{
  ℕ, ◌≡◌, refl, sym, ap, ◌∙◌, inl, inr, String, Bool, Option, none, some, List, [], ◌∷◌, ◌++◌,
  str_eq, if◌then◌else◌,
}
use code_base_ddd.Error.{Error, wrap}
use code_base_ddd.Effect.{Result, Result-cases, ok, err}
use code_base_ddd.Domain.Values.{Time}
use code_base_ddd.Persistence.Database.{Db, Gorm}
use code_base_ddd.Persistence.Outbox.{requeue_failed}
use code_base_ddd.Observability.Endpoint.{Cleanup, named}

-- The calls at the end of a run.
pub data Action : Type 0 where
  close_log_file : Action
  cancel_workers : Action
  shut_down_tracer : Cleanup → Action
  clean_up_sig_noz : Cleanup → Action
  stop_metrics : Action
  close_kafka : Action
  shut_down_server : Action
  release_shutdown_context : Action

-- Why the process stops waiting: a signal, or the server's error.
pub data Stop : Type 0 where
  signalled : Stop
  server_error : Error → Stop

-- What the libraries answer in a run.
pub record Answers : Type 0 where
  pub logger : Result (Unit {0})
  pub connect : Result (Unit {0})
  pub tracing_plugin : Result (Unit {0})
  pub sql_db : Result (Unit {0})
  pub tracer : Result Cleanup
  pub sig_noz : Result Cleanup
  pub stop : Stop
  pub shut_down : Result (Unit {0})

-- `Run` returns nil or an error, or it panics.
pub data Finish : Type 0 where
  returned : Result (Unit {0}) → Finish
  panicked : Finish

-- The deferred functions, the last one first; a call of a nil function panics, and the rest run.
unfoldable pub run_deferred : List (Option Action) → Finish → Finish × List Action
run_deferred [] f = (f, [])
run_deferred (none ∷ d) f = run_deferred d panicked
run_deferred (some a ∷ d) f = let (g, actions) = run_deferred d f in (g, a ∷ actions)

-- A function that comes with an error is nil.
abbrev pub deferred : (Cleanup → Action) → Result Cleanup → Option Action
deferred action (ok c) = some (action c)
deferred action (err e) = none

-- The database, as far as `Run` can fail at it.
unfoldable pub open_database : Answers → Result (Unit {0})
open_database o = elim (named "connect database" o.connect) [
  | err e ↦ err e
  | ok u ↦ elim (named "setup gorm tracing" o.tracing_plugin) [
    | err e ↦ err e
    | ok u ↦ named "get sql.DB" o.sql_db
  ]
]

abbrev pub uses_kafka : String → Bool
uses_kafka event_bus = str_eq event_bus "kafka"

-- The end of `Run`: the actions before it returns, the functions it deferred meanwhile, and what it
-- returns. An error of closing the writer of Kafka is logged.
unfoldable pub wait_and_stop :
    String → Answers → List Action × (List (Option Action) × Result (Unit {0}))
wait_and_stop event_bus o = elim o.stop [
  | server_error e ↦ ([], ([], err (wrap "server error" e)))
  | signalled ↦ (
    cancel_workers
        ∷ ((if uses_kafka event_bus then close_kafka ∷ [] else []) ++ shut_down_server ∷ []),
    (some release_shutdown_context ∷ [], named "server shutdown" o.shut_down),
  )
]

abbrev pub opened : Answers → List (Option Action)
opened o =
    some stop_metrics
    ∷ deferred clean_up_sig_noz o.sig_noz
    ∷ deferred shut_down_tracer o.tracer
    ∷ some cancel_workers
    ∷ some close_log_file
    ∷ []

unfoldable pub serve_until_stop : String → Answers → Finish × List Action
serve_until_stop event_bus o =
    let p = wait_and_stop event_bus o in
    let q = run_deferred (p.1.0 ++ opened o) (returned p.1.1) in (q.0, p.0 ++ q.1)

abbrev pub run_opened : String → Answers → Result (Unit {0}) → Finish × List Action
run_opened event_bus o (err e) = run_deferred (some close_log_file ∷ []) (returned (err e))
run_opened event_bus o (ok u) = serve_until_stop event_bus o

abbrev pub run_logged : String → Answers → Result (Unit {0}) → Finish × List Action
run_logged event_bus o (err e) = (returned (err (wrap "init logger" e)), [])
run_logged event_bus o (ok u) = run_opened event_bus o (open_database o)

unfoldable pub run : String → Answers → Finish × List Action
run event_bus o = run_logged event_bus o o.logger

-- The answer of the route `/admin/outbox/requeue`: a status, and the number or an error's text.
pub data AdminBody : Type 0 where
  requeued : ℕ → AdminBody
  admin_error : String → AdminBody

unfoldable pub handle_requeue : Gorm → (Error → String) → Time → Db → (ℕ × AdminBody) × Db
handle_requeue g text now s =
    let (r, s') = requeue_failed g now s in
    elim r [ ok n ↦ ((200, requeued n), s') | err e ↦ ((500, admin_error (text e)), s') ]

-- The routes `/health/live` and `/health/ready`, by what the ping of the database answers.
pub data Health : Type 0 where
  alive : Health
  ready : Health
  not_ready : String → Health

unfoldable pub health_live : ℕ × Health
health_live = (200, alive)

unfoldable pub health_ready : (Error → String) → Result (Unit {0}) → ℕ × Health
health_ready text (ok u) = (200, ready)
health_ready text (err e) = (503, not_ready (text e))

-- A run that the deferred functions end in, by the last of them.
run_deferred-last :
    (d : List (Option Action)) (a : Action) (f : Finish)
    → (first : List Action) × ((run_deferred (d ++ some a ∷ []) f).1 ≡ first ++ a ∷ [])
unfolding run_deferred
run_deferred-last [] a f = ([], refl)
run_deferred-last (none ∷ d) a f = run_deferred-last d a panicked
run_deferred-last (some b ∷ d) a f =
    let (first, e) = run_deferred-last d a f in (b ∷ first, ap (λ l. b ∷ l) e)

-- Once a nil function is deferred, a run ends in a panic.
run_deferred-none :
    (d d' : List (Option Action)) (f : Finish) → (run_deferred (d ++ none ∷ d') f).0 ≡ panicked
unfolding run_deferred
run_deferred-none [] d' f = still d'
  where
    still : (e : List (Option Action)) → (run_deferred e panicked).0 ≡ panicked
    still [] = refl
    still (none ∷ e) = still e
    still (some b ∷ e) = still e
run_deferred-none (none ∷ d) d' f = run_deferred-none d d' panicked
run_deferred-none (some b ∷ d) d' f = run_deferred-none d d' f

abbrev opened_after_log : Answers → List (Option Action)
opened_after_log o =
    some stop_metrics
    ∷ deferred clean_up_sig_noz o.sig_noz
    ∷ deferred shut_down_tracer o.tracer
    ∷ some cancel_workers
    ∷ []

-- A list that ends in an element still does when another comes before it.
ends-append :
    {A : Type 0} (xs ys : List A) (a : A)
    → (first : List A) × (ys ≡ first ++ a ∷ [])
    → (first : List A) × (xs ++ ys ≡ first ++ a ∷ [])
ends-append xs ys a (first, e) =
    (xs ++ first, ap (λ l. xs ++ l) e ∙ sym (append_assoc xs first (a ∷ [])))

serve_until_stop-last :
    (event_bus : String) (o : Answers)
    → (first : List Action) × ((serve_until_stop event_bus o).1 ≡ first ++ close_log_file ∷ [])
unfolding serve_until_stop
serve_until_stop-last event_bus o =
    let p = wait_and_stop event_bus o in
    let split = append_assoc p.1.0 (opened_after_log o) (some close_log_file ∷ []) in
    let (first, e) =
      run_deferred-last (p.1.0 ++ opened_after_log o) close_log_file (returned p.1.1) in
    ends-append p.0 (run_deferred (p.1.0 ++ opened o) (returned p.1.1)).1 close_log_file
      (first, ap (λ d. (run_deferred d (returned p.1.1)).1) (sym split) ∙ e)

-- However a run goes, a failure at any step and a panic included, if the log file was opened, then
-- closing it is the last thing done.
pub run-last :
    (event_bus : String) (o : Answers)
    → o.logger ≡ ok tt
    → (first : List Action) × ((run event_bus o).1 ≡ first ++ close_log_file ∷ [])
unfolding run run_deferred open_database serve_until_stop wait_and_stop
run-last event_bus o h = elim (Result-cases (open_database o)) [
  | inl (u, e) ↦ rw (run, h, e) (serve_until_stop-last event_bus o)
  | inr (x, e) ↦ rw (run, h, e) ([], refl)
]

-- If the exporter of traces could not be set up, which the code logs as a warning before it goes on,
-- then a run that has a log file and a database ends in a panic, however it is stopped.
pub run-tracer :
    (event_bus : String) (o : Answers) (e : Error)
    → o.logger ≡ ok tt
    → open_database o ≡ ok tt
    → o.tracer ≡ err e
    → (run event_bus o).0 ≡ panicked
unfolding run serve_until_stop open_database wait_and_stop
run-tracer event_bus o e h d failed =
    let p = wait_and_stop event_bus o in
    let before : List (Option Action) =
      p.1.0 ++ some stop_metrics ∷ deferred clean_up_sig_noz o.sig_noz ∷ [] in
    let split =
      append_assoc p.1.0 (some stop_metrics ∷ deferred clean_up_sig_noz o.sig_noz ∷ [])
        (deferred shut_down_tracer o.tracer ∷ some cancel_workers ∷ some close_log_file ∷ []) in
    let missing : deferred shut_down_tracer o.tracer ≡ none =
      ap (deferred shut_down_tracer) failed in
    let ends =
      run_deferred-none before (some cancel_workers ∷ some close_log_file ∷ []) (returned p.1.1) in
    let final : (run_deferred (p.1.0 ++ opened o) (returned p.1.1)).0 ≡ panicked =
      ap (λ l. (run_deferred l (returned p.1.1)).0) (sym split)
      ∙ (ap
            (λ x.
              (run_deferred (before ++ x ∷ some cancel_workers ∷ some close_log_file ∷ [])
                (returned p.1.1)).0)
            missing
          ∙ ends) in
    rw (run, h, d) final
