-- ===== src/Http/Middleware/Writers.antt =====
-- Response writers that take note of what passes: responseWriter and bodyLogWriter of
-- internal/interfaces/http/middleware.go.
use code_base_ddd.Prelude.{
  ℕ, ◌≡◌, refl, sym, ap, ◌∙◌, ◌++◌, Bool, ◌&&◌, not, leb, ◌==◌, if◌then◌else◌, arith, Option, none,
  some,
}
use code_base_ddd.Effect.{Result, ok}
use code_base_ddd.Http.Middleware.Bodies.{Bytes}

-- http.ResponseWriter (with gin's WriteString): what a call does to the response under way.
pub record Writer (W : Type 0) : Type 0 where
  pub write_header : ℕ → W → W
  pub write : Bytes → W → Result ℕ × W
  pub write_string : Bytes → W → Result ℕ × W

-- What a handler does with the writer until it returns or panics. A call of Write returns the
-- number of bytes, or an error, to the handler.
pub data Handling : Type 0 where
  returns : Handling
  panics : Handling
  write_header : ℕ → Handling → Handling
  write : Bytes → (Result ℕ → Handling) → Handling
  write_string : Bytes → (Result ℕ → Handling) → Handling

pub data Outcome : Type 0 where
  returned : Outcome
  panicked : Outcome

unfoldable pub run : {W : Type 0} → Writer W → Handling → W → Outcome × W
run w returns s = (returned, s)
run w panics s = (panicked, s)
run w (write_header n h) s = run w h (w.write_header n s)
run w (write b k) s = run w (k (w.write b s).0) (w.write b s).1
run w (write_string b k) s = run w (k (w.write_string b s).0) (w.write_string b s).1

-- responseWriter: the last status that was set, 200 at first
unfoldable pub status_writer : {W : Type 0} → Writer W → Writer (ℕ × W)
status_writer w = record {
  write_header = λ n s. (n, w.write_header n s.1);
  write = λ b s. let (r, t) = w.write b s.1 in (r, (s.0, t));
  write_string = λ b s. let (r, t) = w.write_string b s.1 in (r, (s.0, t));
}

-- bodyLogWriter: the bytes go into a buffer too, whatever the writer makes of them
unfoldable pub body_log_writer : {W : Type 0} → Writer W → Writer (Bytes × W)
body_log_writer w = record {
  write_header = λ n s. (s.0, w.write_header n s.1);
  write = λ b s. let (r, t) = w.write b s.1 in (r, (s.0 ++ b, t));
  write_string = λ b s. let (r, t) = w.write_string b s.1 in (r, (s.0 ++ b, t));
}

module _ {W : Type 0} (w : Writer W) where
  -- The client sees no difference, and the handler ends in the same way.
  pub run-body_log_writer :
      (h : Handling) (log : Bytes) (s : W)
      → let p = run (body_log_writer w) h (log, s) in (p.0, p.1.1) ≡ run w h s
  unfolding run body_log_writer
  run-body_log_writer returns log s = refl
  run-body_log_writer panics log s = refl
  run-body_log_writer (write_header n h) log s = run-body_log_writer h log (w.write_header n s)
  run-body_log_writer (write b k) log s =
      run-body_log_writer (k (w.write b s).0) (log ++ b) (w.write b s).1
  run-body_log_writer (write_string b k) log s =
      run-body_log_writer (k (w.write_string b s).0) (log ++ b) (w.write_string b s).1

  pub run-status_writer :
      (h : Handling) (n : ℕ) (s : W)
      → let p = run (status_writer w) h (n, s) in (p.0, p.1.1) ≡ run w h s
  unfolding run status_writer
  run-status_writer returns n s = refl
  run-status_writer panics n s = refl
  run-status_writer (write_header m h) n s = run-status_writer h m (w.write_header m s)
  run-status_writer (write b k) n s = run-status_writer (k (w.write b s).0) n (w.write b s).1
  run-status_writer (write_string b k) n s =
      run-status_writer (k (w.write_string b s).0) n (w.write_string b s).1

-- A response as net/http sends it: the first status that is set counts, a write sets 200 if none
-- was, and the bytes follow one another. An informational status is sent at once and does not count;
-- 101 is not one of them. (A status below 100 or above 999 makes net/http panic, which a writer here
-- does not.)
pub record Sent : Type 0 where
  pub status : Option ℕ
  pub body : Bytes

abbrev pub fixed : Option ℕ → ℕ → Option ℕ
fixed none n = some n
fixed (some m) n = some m

abbrev pub is_informational : ℕ → Bool
is_informational n = leb 100 n && (leb n 199 && not (n == 101))

abbrev pub set_status : ℕ → Sent → Sent
set_status n s = if is_informational n then s else record s { status = fixed s.status n }

abbrev pub sending : Writer Sent
sending = record {
  write_header = set_status;
  write = λ b s. (ok 0, record { status = fixed s.status 200; body = s.body ++ b });
  write_string = λ b s. (ok 0, record { status = fixed s.status 200; body = s.body ++ b });
}

set_status-body : (n : ℕ) (s : Sent) → (set_status n s).body ≡ s.body
set_status-body n s = ground arith

-- On a writer that takes every byte, the buffer holds the body of the response.
pub run-logged_body :
    (h : Handling) (log : Bytes) (s : Sent)
    → log ≡ s.body
    → let p = run (body_log_writer sending) h (log, s) in p.1.0 ≡ p.1.1.body
unfolding run body_log_writer
run-logged_body returns log s e = e
run-logged_body panics log s e = e
run-logged_body (write_header n h) log s e =
    run-logged_body h log (set_status n s) (e ∙ sym (set_status-body n s))
run-logged_body (write b k) log s e =
    run-logged_body (k (ok 0)) (log ++ b)
      (record { status = fixed s.status 200; body = s.body ++ b }) (ap (λ x. x ++ b) e)
run-logged_body (write_string b k) log s e =
    run-logged_body (k (ok 0)) (log ++ b)
      (record { status = fixed s.status 200; body = s.body ++ b }) (ap (λ x. x ++ b) e)
