-- ===== src/Persistence/Keys/Stored.antt =====
-- What `Store` of internal/infrastructure/persistence/idempotency_store.go keeps, as `Check` reads
-- it.
use mathlib.Core.Path.{subst}
use mathlib.Core.Logic.Or
use mathlib.Core.List.{mem-cons, not-mem-nil}
use mathlib.Core.List.Perm
use native.Mathlib.Decide.{ℕ_discrete}
use mathlib.Core.HLevel.{hedberg}
use code_base_ddd.Prelude.{
  ℕ, ◌+◌, ◌≤◌, ◌<◌, ◌≡◌, ◌≢◌, refl, sym, ap, ◌∙◌, inl, inr, String, Bool, true, false, Option, none,
  some, List, [], ◌∷◌, map, Mem, Perm, select, select-perm, select-eq-nil, count, count-none,
  count-perm, length, length-select, All, arith, Bool-cases, ltb, eq_iff, if◌then◌else◌,
}
use code_base_ddd.Effect.{ok}
use code_base_ddd.Gorm.{Answer-cases}
use code_base_ddd.Domain.Values.{Time}
use code_base_ddd.Ports.{IdempotencyResult}
use code_base_ddd.Persistence.Models.{IdempotencyKeyModel}
use code_base_ddd.Persistence.Database.{Db, Gorm, change-eq-ok, put_idempotency_keys}
use code_base_ddd.Persistence.Keys.{is_live, has_key, result_of, check, store}

-- What is read of a row.
abbrev content : IdempotencyKeyModel → ℕ × List ℕ × Time
content m = (m.response_status, m.response_body, m.expires_at)

content-set : IsSet (ℕ × List ℕ × Time)
content-set = hedberg (hlevel ℕ_discrete)

-- All rows of a list have one content, so the one that is found has it.
found_content :
    (v : ℕ × List ℕ × Time) (m : IdempotencyKeyModel) (t : List IdempotencyKeyModel)
    → All (λ x. content x ≡ v) t
    → Mem m t
    → content m ≡ v
found_content v m [] all here = absurd (not-mem-nil here)
found_content v m (x ∷ t) (e, all) here =
    Or.elim (content-set _ _) (mem-cons.0 here) (λ same. ap content same ∙ e)
      (λ later. found_content v m t all later)

-- The row that `Store` writes.
abbrev written : Time → Time → Time → String → IdempotencyResult → IdempotencyKeyModel
written ttl now later key r = record {
  key = key;
  response_status = r.status_code;
  response_body = r.response_body;
  created_at = now;
  expires_at = later + ttl;
}

-- The rows that are live at a time, if the key's rows were all written over with `row`: they have
-- its content, and there are any exactly if `row` is live.
live_updated :
    (at : Time) (key : String) (row : IdempotencyKeyModel)
    (f : IdempotencyKeyModel → IdempotencyKeyModel) (t : List IdempotencyKeyModel)
    → row.key ≡ key
    → ((x : IdempotencyKeyModel) → has_key key x ≡ true → f x ≡ row)
    → let u = map (λ x. if has_key key x then f x else x) t in
      All (λ x. content x ≡ content row) (select (is_live at key) u)
      × (count (is_live at key) u ≡ (if ltb at row.expires_at then count (has_key key) t else 0))
live_updated at key row f [] own h = (tt, ground arith)
live_updated at key row f (x ∷ t) own h =
    let (all, size) = live_updated at key row f t own h in
    elim (Bool-cases (has_key key x)) [
      | inr other ↦ rw (other, other) (all, ground (arith, size))
      | inl mine ↦ elim (Bool-cases (ltb at row.expires_at)) [
        | inl live ↦
            let there : is_live at key row ≡ true = ground (arith, own, eq_iff row.key key, live) in
            rw (mine, h x mine, there, live) ((refl, all), ground (arith, size, live))
        | inr gone ↦
            let not_there : is_live at key row ≡ false = ground (arith, gone) in
            rw (mine, h x mine, not_there, gone) (all, ground (arith, size, gone))
      ]
    ]

-- The same if the key had no row and `row` was added.
live_added :
    (at : Time) (key : String) (row : IdempotencyKeyModel) (t : List IdempotencyKeyModel)
    → row.key ≡ key
    → count (has_key key) t ≡ 0
    → All (λ x. content x ≡ content row) (select (is_live at key) (row ∷ t))
      × (count (is_live at key) (row ∷ t) ≡ (if ltb at row.expires_at then 1 else 0))
live_added at key row t own absent =
    let none_live = count-none (has_key key) (λ x. ltb at x.expires_at) t absent in
    let clear = select-eq-nil (is_live at key) t none_live in
    elim (Bool-cases (ltb at row.expires_at)) [
      | inl live ↦
          let there : is_live at key row ≡ true = ground (arith, own, eq_iff row.key key, live) in
          rw (there, clear, live) ((refl, tt), ground (arith, none_live))
      | inr gone ↦
          let not_there : is_live at key row ≡ false = ground (arith, gone) in
          rw (not_there, clear, gone) (tt, ground (arith, none_live))
    ]

select-nil-count : {A P : Type 0} (p : A → Bool) (t : List A) → select p t ≡ [] → 0 < count p t → P
select-nil-count p t e h = absurd (omega (arith, h, ap length e, length-select p t))

module _ (g : Gorm) (ttl now later : Time) (key : String) (r : IdempotencyResult) where
  -- The row as the table keeps it, and what a `Check` makes of it.
  abbrev kept_row : IdempotencyKeyModel
  kept_row = record (written ttl now later key r) { response_body = g.jsonb r.response_body }

  abbrev pub kept_result : IdempotencyResult
  kept_result = record r { response_body = g.jsonb r.response_body }

  -- The rows after a `Store` that succeeded, up to their order, as a later `Check` sees them.
  store-rows :
      (at : Time) (s s' : Db)
      → 0 < r.status_code
      → r.response_body ≢ []
      → 0 < now
      → 0 < later
      → store g ttl now later key r s ≡ (ok tt, s')
      → (u : List IdempotencyKeyModel) × Perm s'.idempotency_keys u
        × All (λ x. content x ≡ content kept_row) (select (is_live at key) u)
        × (at < later + ttl → 0 < count (is_live at key) u)
        × (later + ttl ≤ at → count (is_live at key) u ≡ 0)
  unfolding store
  store-rows at s s' status body started ended h =
      let row = written ttl now later key r in
      let (t, made, put) =
        change-eq-ok put_idempotency_keys
          (g.idempotency_keys.assign_or_create (has_key key) row s.idempotency_keys) s h in
      let keys : t ≡ s'.idempotency_keys = ap (λ d. d.idempotency_keys) put in
      elim (Bool-cases (ltb 0 (count (has_key key) s.idempotency_keys))) [
        | inl found ↦
            let many : 0 < count (has_key key) s.idempotency_keys = ground arith in
            let there : select (has_key key) s.idempotency_keys ≢ [] =
              λ e. select-nil-count (has_key key) s.idempotency_keys e many in
            let rows =
              g.idempotency_keys.assign_or_create-found (has_key key) row s.idempotency_keys t made
                there in
            let over : (x : IdempotencyKeyModel)
                → has_key key x ≡ true
                → g.idempotency_keys.assigned row x ≡ kept_row =
              λ x same. g.idempotency_assigned row x same status body started (omega arith) in
            let (all, size) =
              live_updated at key kept_row (g.idempotency_keys.assigned row) s.idempotency_keys refl
                over in
            (_, rw keys at rows, all, (λ h. ground (arith, size)), (λ h. ground (arith, size)))
        | inr missing ↦
            let absent : count (has_key key) s.idempotency_keys ≡ 0 = ground arith in
            let rows =
              g.idempotency_keys.assign_or_create-missing (has_key key) row s.idempotency_keys t
                made (select-eq-nil (has_key key) s.idempotency_keys absent) in
            let (created, kept) = g.idempotency_stored row in
            let stored : IdempotencyKeyModel = record kept_row { created_at = created } in
            let (all, size) = live_added at key stored s.idempotency_keys refl absent in
            (
              stored ∷ s.idempotency_keys,
              subst (λ x. Perm s'.idempotency_keys (x ∷ s.idempotency_keys)) kept (rw keys at rows),
              all,
              (λ h. ground (arith, size)),
              (λ h. ground (arith, size)),
            )
      ]

  check-store_around :
      (at : Time) (s s' s'' : Db) (found : Option IdempotencyResult)
      → 0 < r.status_code
      → r.response_body ≢ []
      → 0 < now
      → 0 < later
      → store g ttl now later key r s ≡ (ok tt, s')
      → check g at key s' ≡ (ok found, s'')
      → (at < later + ttl → found ≡ some kept_result) × (later + ttl ≤ at → found ≡ none)
  unfolding check
  check-store_around at s s' s'' found status body started ended h k =
      let (u, rows, all, live, gone) = store-rows at s s' status body started ended h in
      let p = is_live at key in
      let seen = count-perm p rows in
      elim (Answer-cases (g.idempotency_keys.first p s'.idempotency_keys)) [
        | inr (text, lost) ↦ absurd (ground arith)
        | inl (none, missing) ↦
            let said : none ≡ found = ground arith in
            let empty = g.idempotency_keys.first-none p s'.idempotency_keys missing in
            let no_row = length-select p s'.idempotency_keys in
            let size = ap length empty in
            (λ early. absurd (omega (arith, live early, seen, no_row, size)), λ late. sym said)
        | inl (some m, there) ↦
            let said : result_of (some m) ≡ found = ground arith in
            let here =
              (Perm.mem_iff (select-perm p rows)).0
                (g.idempotency_keys.first-some p s'.idempotency_keys m there) in
            let same = found_content (content kept_row) m (select p u) all here in
            let read : found ≡ some kept_result =
              sym said ∙ ap (λ c. some (record { status_code = c.0; response_body = c.1 })) same in
            (
              λ early. read,
              λ late.
                  absurd (not-mem-nil (subst (λ l. Mem m l) (select-eq-nil p u (gone late)) here)),
            )
      ]

  -- If a result with a status and a body is stored under a key, whatever was stored under it before,
  -- then a Check of the key that runs next and succeeds returns the result, with the body as a JSONB
  -- column gives it back, until the time to live is over; from then on, such a Check returns none.
  pub check-store :
      (at : Time) (s s' s'' : Db) (found : Option IdempotencyResult)
      → 0 < r.status_code
      → r.response_body ≢ []
      → 0 < now
      → 0 < later
      → store g ttl now later key r s ≡ (ok tt, s')
      → check g at key s' ≡ (ok found, s'')
      → found ≡ (if ltb at (later + ttl) then some kept_result else none)
  check-store at s s' s'' found status body started ended h k =
      let (early, late) = check-store_around at s s' s'' found status body started ended h k in
      elim (Bool-cases (ltb at (later + ttl))) [
        | inl before ↦ rw before (early (ground arith))
        | inr after ↦ rw after (late (ground arith))
      ]
