-- ===== src/Http/Middleware/Net/Status.antt =====
-- The status that the net/http middleware of internal/interfaces/http/middleware.go notes, and the
-- one that the client gets.
use mathlib.Core.Path.{subst}
use code_base_ddd.Prelude.{
  ℕ, ◌≤◌, ◌≡◌, refl, sym, ap, ap₂, ◌∙◌, false, String, Option, none, some, [], ◌∷◌, ◌++◌,
}
use code_base_ddd.Effect.{Result, ok}
use code_base_ddd.Http.Middleware.Bodies.{Bytes, Request}
use code_base_ddd.Http.Middleware.Writers.{
  Writer, Handling, returns, panics, write_header, write, write_string, Outcome, returned, panicked,
  run, status_writer, run-status_writer, Sent, fixed, is_informational, set_status, sending,
}
use code_base_ddd.Http.Middleware.Net.{
  ResponseWriter, http_request, panic_recovered, Served, Handler, plain, logging_middleware,
  metrics_middleware, recovery_middleware,
}

-- A status that net/http sends as the one of the response.
abbrev pub IsFinal : ℕ → Type 0
IsFinal n = (is_informational n ≡ false) × (100 ≤ n) × (n ≤ 999)

-- A handler that sets no status, and one that sets a status once at most, before it writes, and a
-- final one.
abbrev pub SetsNone : Handling → Type 0
SetsNone returns = Unit
SetsNone panics = Unit
SetsNone (write_header n h) = ⊥
SetsNone (write b k) = (n : Result ℕ) → SetsNone (k n)
SetsNone (write_string b k) = (n : Result ℕ) → SetsNone (k n)

abbrev pub SetsOnce : Handling → Type 0
SetsOnce returns = Unit
SetsOnce panics = Unit
SetsOnce (write_header n h) = IsFinal n × SetsNone h
SetsOnce (write b k) = (n : Result ℕ) → SetsNone (k n)
SetsOnce (write_string b k) = (n : Result ℕ) → SetsNone (k n)

-- The status that the client gets.
abbrev pub sent_status : Option ℕ → ℕ
sent_status none = 200
sent_status (some n) = n

fixed-fixed : (o : Option ℕ) (n m : ℕ) → fixed (fixed o n) m ≡ fixed o n
fixed-fixed none n m = refl
fixed-fixed (some k) n m = refl

fixed-sent : (o : Option ℕ) → sent_status (fixed o 200) ≡ sent_status o
fixed-sent none = refl
fixed-sent (some n) = refl

run-SetsNone :
    (h : Handling) (n : ℕ) (s : Sent)
    → SetsNone h
    → sent_status s.status ≡ n
    → let p = run (status_writer sending) h (n, s) in sent_status p.1.1.status ≡ p.1.0
unfolding run status_writer
run-SetsNone returns n s plain_one e = e
run-SetsNone panics n s plain_one e = e
run-SetsNone (write_header m h) n s plain_one e = absurd plain_one
run-SetsNone (write b k) n s plain_one e =
    run-SetsNone (k (ok 0)) n (record { status = fixed s.status 200; body = s.body ++ b })
      (plain_one (ok 0)) (fixed-sent s.status ∙ e)
run-SetsNone (write_string b k) n s plain_one e =
    run-SetsNone (k (ok 0)) n (record { status = fixed s.status 200; body = s.body ++ b })
      (plain_one (ok 0)) (fixed-sent s.status ∙ e)

run-SetsOnce :
    (h : Handling)
    → SetsOnce h
    → let p = run (status_writer sending) h (200, record { status = none; body = [] }) in
      sent_status p.1.1.status ≡ p.1.0
unfolding run status_writer
run-SetsOnce returns once = refl
run-SetsOnce panics once = refl
run-SetsOnce (write_header n h) ((final, low, high), once) =
    let kept : set_status n (record { status = none; body = [] })
        ≡ record { status = some n; body = [] } =
      rw final refl in
    subst (λ s. let p = run (status_writer sending) h (n, s) in sent_status p.1.1.status ≡ p.1.0)
      (sym kept) (run-SetsNone h n (record { status = some n; body = [] }) once refl)
run-SetsOnce (write b k) once =
    run-SetsNone (k (ok 0)) 200 (record { status = some 200; body = b }) (once (ok 0)) refl
run-SetsOnce (write_string b k) once =
    run-SetsNone (k (ok 0)) 200 (record { status = some 200; body = b }) (once (ok 0)) refl

-- One responseWriter around another notes what that one does.
run-twice :
    {W : Type 0} (w : Writer W) (h : Handling) (n : ℕ) (s : W)
    → let p = run (status_writer (status_writer w)) h (n, (n, s)) in p.1.0 ≡ p.1.1.0
unfolding run status_writer
run-twice w returns n s = refl
run-twice w panics n s = refl
run-twice w (write_header m h) n s = run-twice w h m (w.write_header m s)
run-twice w (write b k) n s = run-twice w (k (w.write b s).0) n (w.write b s).1
run-twice w (write_string b k) n s = run-twice w (k (w.write_string b s).0) n (w.write_string b s).1

module _ (header : (key value : String) → Sent → Sent) (h : Request → Handling) (r : Request) where
  abbrev pub client : ResponseWriter Sent
  client = record { writer = sending; header = header }

  abbrev pub nothing_sent : Sent
  nothing_sent = record { status = none; body = [] }

  -- The log over the metrics over the handler.
  abbrev pub served : Served Sent
  served = logging_middleware (metrics_middleware (plain h)) Sent client r nothing_sent

  served-eq :
      (n m : ℕ) (t : Sent)
      → run (status_writer (status_writer sending)) (h r) (200, (200, nothing_sent))
        ≡ (returned, (n, (m, t)))
      → served ≡ record {
        outcome = returned;
        response = t;
        lines = http_request r.method r.path m r.correlation_id ∷ [];
        observed = record { method = r.method; path = r.path; status = n } ∷ [];
      }
  unfolding logging_middleware metrics_middleware
  served-eq n m t h = rw (h) refl

  -- If the handler returns, and sets a status once at most, before it writes and not an
  -- informational one, then the response is
  -- what the handler makes of it without the middleware, and the status that the client gets is the
  -- one in the line of the log and in the metrics.
  pub served-status :
      (t : Sent)
      → SetsOnce (h r)
      → run sending (h r) nothing_sent ≡ (returned, t)
      → (served.response ≡ t)
        × (served.lines ≡ http_request r.method r.path (sent_status t.status) r.correlation_id ∷ [])
        × (served.observed
            ≡ record { method = r.method; path = r.path; status = sent_status t.status } ∷ [])
  served-status t once ended =
      let p : Outcome × (ℕ × (ℕ × Sent)) =
        run (status_writer (status_writer sending)) (h r) (200, (200, nothing_sent)) in
      let q : Outcome × (ℕ × Sent) = run (status_writer sending) (h r) (200, nothing_sent) in
      let outer : (p.0, p.1.1) ≡ q =
        run-status_writer (status_writer sending) (h r) 200 (200, nothing_sent) in
      let inner : (q.0, q.1.1) ≡ (returned, t) =
        run-status_writer sending (h r) 200 nothing_sent ∙ ended in
      let got : q.1.1 ≡ t = ap (λ x. x.1) inner in
      let noted : q.1.0 ≡ sent_status t.status =
        sym (run-SetsOnce (h r) once) ∙ ap (λ u. sent_status u.status) got in
      let below : p.1.1 ≡ (sent_status t.status, t) =
        ap (λ x. x.1) outer ∙ ap₂ (λ n u. (n, u)) noted got in
      let above : p.1.0 ≡ sent_status t.status =
        run-twice sending (h r) 200 nothing_sent ∙ ap (λ x. x.0) below in
      let end : p.0 ≡ returned = ap (λ x. x.0) outer ∙ ap (λ x. x.0) inner in
      let whole : p ≡ (returned, (sent_status t.status, (sent_status t.status, t))) =
        ap₂ (λ o x. (o, x)) end (ap₂ (λ n x. (n, x)) above below) in
      rw (served-eq (sent_status t.status) (sent_status t.status) t whole) (refl, refl, refl)

  -- A panic under RecoveryMiddleware is answered with a status of 500, unless a status went out
  -- before, and leaves one line.
  pub recovery_middleware-panicked :
      (encode : String → String → Bytes) (next : Handler)
      → ((key value : String) (s : Sent) → (header key value s).status ≡ s.status)
      → (next Sent client r nothing_sent).outcome ≡ panicked
      → let v = next Sent client r nothing_sent in
        let w = recovery_middleware encode next Sent client r nothing_sent in
        (w.outcome ≡ returned)
        × (w.response.status ≡ fixed v.response.status 500)
        × (w.lines ≡ v.lines ++ panic_recovered ∷ [])
  unfolding recovery_middleware run
  recovery_middleware-panicked encode next kept panic =
      let v = next Sent client r nothing_sent in
      let same = kept "Content-Type" "application/json" v.response in
      rw (recovery_middleware, panic)
        (refl, fixed-fixed _ 500 200 ∙ ap (λ o. fixed o 500) same, refl)
