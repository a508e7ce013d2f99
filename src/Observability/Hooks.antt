-- ===== src/Observability/Hooks.antt =====
-- Log entries that are also kept in the database: internal/infrastructure/observability/db_hook.go.
use code_base_ddd.Prelude.{
  ◌<◌, ◌≡◌, ◌≢◌, refl, arith, String, Bool, true, ◌&&◌, Option, none, some, List, [], ◌∷◌, count,
  count-perm, count-select_new, str_eq, eq_iff, inl, inr,
}
use code_base_ddd.Error.{Error}
use code_base_ddd.Effect.{Result, ok, err, Result-cases, Effect, pure}
use code_base_ddd.Domain.Values.{Time}
use code_base_ddd.Observability.Values.{Members}
use code_base_ddd.Observability.Levels.{Level}
use code_base_ddd.Observability.Entries.{Entry, Zap, encoded, text_field}
use code_base_ddd.Observability.LogStore.{
  LogModel, LogTable, save_log, get_logs_by_trace_id, is_text, is_text-pointer, pointer, has_trace,
  save_log-perm, get_logs_by_trace_id-perm,
}

-- The type of a `SaveLog` function.
abbrev pub SaveLog : Type 0 → Type 0
SaveLog S =
    Time
    → String
    → String
    → String
    → String
    → String
    → String
    → Option Members
    → Effect S (Unit {0})

-- zapcore.Core, with cores `C` that carry fields along.
pub record Core (S F C : Type 0) : Type 0 where
  pub enabled : C → Level → Bool
  pub with_fields : C → List F → C
  pub write : C → Entry → List F → Effect S (Unit {0})

-- hookedCore; a hook may be nil, and so may its function
pub record HookedCore (S C : Type 0) : Type 0 where
  pub core : C
  pub hooks : List (Option (Option (SaveLog S)))

module _ {S F : Type 0} (zap : Zap F) where
  -- DatabaseHook.Hook
  unfoldable pub hook : Option (SaveLog S) → Entry → List F → Effect S (Unit {0})
  hook none entry fields = pure tt
  hook (some save) entry fields =
      let m = encoded zap fields in
      save entry.time (zap.level_text entry.level) entry.message entry.logger_name
        entry.caller.shown (text_field "trace_id" m) (text_field "correlation_id" m) (some m)

  -- The loop over the hooks: errors are dropped.
  unfoldable pub run_hooks : List (Option (Option (SaveLog S))) → Entry → List F → S → S
  run_hooks [] entry fields s = s
  run_hooks (none ∷ hooks) entry fields s = run_hooks hooks entry fields s
  run_hooks (some h ∷ hooks) entry fields s = run_hooks hooks entry fields (hook h entry fields s).1

module _ {S F C : Type 0} (zap : Zap F) (cores : Core S F C) where
  unfoldable pub hooked_enabled : HookedCore S C → Level → Bool
  hooked_enabled c level = cores.enabled c.core level

  unfoldable pub hooked_with : HookedCore S C → List F → HookedCore S C
  hooked_with c fields = record { core = cores.with_fields c.core fields; hooks = c.hooks }

  -- hookedCore.Write
  unfoldable pub hooked_write : HookedCore S C → Entry → List F → Effect S (Unit {0})
  hooked_write c entry fields s =
      let (r, s') = cores.write c.core entry fields s in
      elim r [ ok u ↦ (ok tt, run_hooks zap c.hooks entry fields s') | err e ↦ (err e, s') ]

  -- Whatever the hooks of a core do, writing an entry returns what the core returns.
  pub hooked_write-result :
      (c : HookedCore S C) (entry : Entry) (fields : List F) (s : S)
      → (hooked_write c entry fields s).0 ≡ (cores.write c.core entry fields s).0
  unfolding hooked_write
  hooked_write-result c entry fields s = elim (Result-cases (cores.write c.core entry fields s).0) [
    | inl (u, e) ↦ rw (hooked_write, e) refl
    | inr (x, e) ↦ rw (hooked_write, e)
  ]

  -- If the core fails, no hook runs.
  pub hooked_write-err :
      (c : HookedCore S C) (entry : Entry) (fields : List F) (s s' : S) (e : Error)
      → cores.write c.core entry fields s ≡ (err e, s')
      → hooked_write c entry fields s ≡ (err e, s')
  unfolding hooked_write
  hooked_write-err c entry fields s s' e h = ground arith

-- The rows with the text and the level of an entry.
abbrev pub shows : {F B : Type 0} → Zap F → Entry → LogModel B → Bool
shows zap entry m = str_eq m.message entry.message && str_eq m.level (zap.level_text entry.level)

module _ {F B : Type 0} (zap : Zap F) (table : LogTable B) (marshal : Members → Result B) where
  abbrev pub saving : Option (SaveLog (List (LogModel B)))
  saving = some (save_log table marshal)

  -- If the hook kept an entry with the identifier of a trace, a GetLogsByTraceID for it that runs
  -- next and succeeds returns a row with the entry's text and level.
  pub hook-get_logs_by_trace_id :
      (entry : Entry) (fields : List F) (trace : String) (s t u rows : List (LogModel B))
      → hook zap saving entry fields s ≡ (ok tt, t)
      → text_field "trace_id" (encoded zap fields) ≡ trace
      → trace ≢ ""
      → get_logs_by_trace_id table marshal trace t ≡ (ok rows, u)
      → 0 < count (shows zap entry) rows
  unfolding hook
  hook-get_logs_by_trace_id entry fields trace s t u rows kept named nonempty listed =
      let m = encoded zap fields in
      let (json, id, created, e, made) =
        save_log-perm table marshal entry.time (zap.level_text entry.level) entry.message
          entry.logger_name entry.caller.shown (text_field "trace_id" m)
          (text_field "correlation_id" m) m s t kept in
      let found = get_logs_by_trace_id-perm table marshal trace t u rows listed in
      let e : is_text (pointer (text_field "trace_id" m)) trace ≡ true =
        rw named (is_text-pointer trace nonempty) in
      rw (count-perm (shows zap entry) found) (
        count-select_new (has_trace trace) (shows zap entry) _ made e (
          ground (
            arith,
            eq_iff entry.message entry.message,
            eq_iff (zap.level_text entry.level) (zap.level_text entry.level),
          )))
