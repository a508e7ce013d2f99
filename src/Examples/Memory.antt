-- ===== src/Examples/Memory.antt =====
-- A database in memory and a codec of identifiers, which meet the laws of Gorm.antt and Uuid.antt.
use Prim.Native.Char.{code}
use mathlib.Core.List.{mem-cons_self}
use mathlib.Core.List.Perm
use code_base_ddd.Prelude.{
  ℕ, zero, suc, ◌<◌, ◌≡◌, refl, ap, ◌≢◌, String, Bool, Option, none, some, List, [], ◌∷◌, ◌++◌, map,
  Mem, Perm, select, reject, length, length-take, take, drop, take-append-drop, arith, ◌⊎◌, ◌≤◌,
  ◌==◌, inl, if◌then◌else◌, false, not, ◌&&◌, ◌||◌,
}
use code_base_ddd.Error.{Error, library}
use code_base_ddd.Effect.{Result, ok, err, Effect}
use code_base_ddd.Gorm.{Answer, done, Table}
use code_base_ddd.Uuid.{UuidCodec}
use code_base_ddd.Persistence.Models.{
  IdempotencyKeyModel, same_order, same_item, same_outbox_event, same_idempotency_key,
  same_processed, same_order_view, same_item_view,
}
use code_base_ddd.Persistence.Database.{Db, Gorm}

abbrev pub head_of {ℓ} : {A : Type ℓ} → List A → Option A
head_of [] = none
head_of (x ∷ xs) = some x

pub head_of-mem : {A : Type 0} (t : List A) (r : A) → done (head_of t) ≡ done (some r) → Mem r t
head_of-mem [] r h = cc
head_of-mem (x ∷ t) r h = let e : x ≡ r = ground arith in rw (← e) mem-cons_self

pub head_of-none : {A : Type 0} (t : List A) → done (head_of t) ≡ done none → t ≡ []
head_of-none [] h = refl
head_of-none (x ∷ t) h = cc

pub same_answer : {A : Type 0} (t u : List A) → done t ≡ done u → Perm u t
same_answer t u h = let e : t ≡ u = ground arith in rw e (Perm.refl u)

pub count_law : (k n : ℕ) → done k ≡ done n → n ≡ k
count_law k n h = ground arith

pub one_row_law :
    {Row : Type 0} (n : ℕ) (t u : List Row)
    → ◌≡◌ {A = Answer (ℕ × List Row)} (done (1, u)) (done (n, t))
    → (0 < n) × Perm t u
one_row_law n t u h =
    let e : u ≡ t = ground arith in
    let one : n ≡ 1 = ground arith in (omega arith, rw e (Perm.refl t))

abbrev pub one_or_none : {A B : Type 0} → List A → B → B → B
one_or_none [] missing found = missing
one_or_none (x ∷ xs) missing found = found

pub missing_law :
    {A Row : Type 0} (xs : List A) (t u v : List Row)
    → done (one_or_none xs u v) ≡ done t
    → xs ≡ []
    → Perm t u
missing_law [] t u v h e = same_answer u t h
missing_law (x ∷ xs) t u v h e = cc

pub found_law :
    {A Row : Type 0} (xs : List A) (t u v : List Row)
    → done (one_or_none xs u v) ≡ done t
    → xs ≢ []
    → Perm t v
found_law [] t u v h e = absurd (e refl)
found_law (x ∷ xs) t u v h e = same_answer v t h

pub counted_law :
    {Row : Type 0} (k n : ℕ) (t u : List Row)
    → ◌≡◌ {A = Answer (ℕ × List Row)} (done (k, u)) (done (n, t))
    → (n ≡ k) × Perm t u
counted_law k n t u h = let e : u ≡ t = ground arith in (ground arith, rw e (Perm.refl t))

-- A table that is kept in memory and never fails; it keeps of a row what `keep` says.
abbrev pub keeping :
    {Row : Type 0} (keep : Row → Row) (same_key : Row → Row → Bool) → Table Row same_key
keeping keep same_key = record {
  stored = keep;
  first = λ p t. done (head_of (select p t));
  find = λ p t. done (select p t);
  count = λ p t. done (length (select p t));
  create = λ new t. done (map keep new ++ t);
  delete = λ p t. done (reject p t);
  save = λ p r t. done (1, keep r ∷ reject (same_key r) t);
  updates = λ p f t. done (length (select p t), map (λ r. if p r then f r else r) t);
  first_or_create = λ p r t. done (one_or_none (select p t) (keep r ∷ t) t);
  assign_or_create = λ p r t.
      done (one_or_none (select p t) (keep r ∷ t) (map (λ x. if p x then keep r else x) t));
  assigned = λ r x. keep r;
  first-some = λ p t r h. head_of-mem (select p t) r h;
  first-none = λ p t h. head_of-none (select p t) h;
  find-perm = λ p t rs h. same_answer (select p t) rs h;
  count-length = λ p t n h. count_law (length (select p t)) n h;
  create-perm = λ new t t' h. same_answer (map keep new ++ t) t' h;
  delete-perm = λ p t t' h. same_answer (reject p t) t' h;
  save-perm = λ p r t t' n current h. one_row_law n t' (keep r ∷ reject (same_key r) t) h;
  updates-perm = λ p f t t' n h. counted_law (length (select p t)) n t' _ h;
  first_or_create-found = λ p r t t' h e. found_law (select p t) t' (keep r ∷ t) t h e;
  first_or_create-missing = λ p r t t' h e. missing_law (select p t) t' (keep r ∷ t) t h e;
  assign_or_create-found = λ p r t t' h e. found_law (select p t) t' (keep r ∷ t) _ h e;
  assign_or_create-missing = λ p r t t' h e. missing_law (select p t) t' (keep r ∷ t) _ h e;
}

abbrev pub memory : {Row : Type 0} (same_key : Row → Row → Bool) → Table Row same_key
memory same_key = keeping (λ r. r) same_key

-- The text of a JSON value without escapes, with a space after each colon and comma; `inside` says
-- whether the text begins in a string.
abbrev pub spaced : (inside : Bool) → List ℕ → List ℕ
spaced inside [] = []
spaced inside (c ∷ cs) =
    let rest = spaced (if c == 34 then not inside else inside) cs in
    if not inside && (c == 58 || c == 44) then c ∷ 32 ∷ rest else c ∷ rest

abbrev pub kept_key : IdempotencyKeyModel → IdempotencyKeyModel
kept_key m = record m { response_body = spaced false m.response_body }

-- No tracked times, no fault, every commit goes through.
abbrev pub rollback : {A : Type 0} → Effect Db A → Effect Db A
rollback f s = let (r, s') = f s in elim r [ ok a ↦ (ok a, s') | err e ↦ (err e, s) ]

pub rollback-err :
    {A : Type 0} (f : Effect Db A) (s s' : Db) (e : Error)
    → f s ≡ (err e, s')
    → rollback f s ≡ (err e, s)
rollback-err f s s' e h = rw (h, rollback)

pub rollback-ok :
    {A : Type 0} (f : Effect Db A) (s s' : Db) (a : A)
    → f s ≡ (ok a, s')
    → (rollback f s ≡ (ok a, s')) ⊎ ((x : Error) × (rollback f s ≡ (err x, s)))
rollback-ok f s s' a h = inl (ground arith)

pub take_law :
    {Row : Type 0} (n : ℕ) (t rs : List Row)
    → done (take n t) ≡ done rs
    → (length rs ≤ n) × (rest : List Row) × Perm (rs ++ rest) t
take_law n t rs h =
    let e : take n t ≡ rs = ground arith in
    (
      rw (← e) (omega (arith, length-take n t)),
      drop n t,
      rw (← e, take-append-drop n t) (Perm.refl t),
    )

abbrev pub memory_db : Gorm
memory_db = record {
  orders = memory same_order;
  order_items = memory same_item;
  outbox_events = memory same_outbox_event;
  idempotency_keys = keeping kept_key same_idempotency_key;
  processed_events = memory same_processed;
  order_views = memory same_order_view;
  order_item_views = memory same_item_view;
  fetch_outbox = λ p key n t. done (take n (select p t));
  page_views = λ p clause offset n t. done (take n (select p t));
  order_stored = λ m. (m.created_at, m.updated_at, refl);
  order_item_stored = λ m. (m.created_at, refl);
  outbox_stored = λ m. refl;
  jsonb = spaced false;
  idempotency_stored = λ m. (m.created_at, refl);
  idempotency_assigned = λ r m same status body created expires. refl;
  processed_stored = λ m. refl;
  order_view_stored = λ m. (m.created_at, m.updated_at, refl);
  item_view_stored = λ m. (m.created_at, refl);
  fetch_outbox-perm = λ p key n t rs h. take_law n (select p t) rs h;
  page_views-perm = λ p clause offset n t rs h. take_law n (select p t) rs h;
  transaction = λ A f. rollback f;
  transaction-err = λ A f s s' e h. rollback-err f s s' e h;
  transaction-ok = λ A f s s' a h. rollback-ok f s s' a h;
}

-- A number printed as so many strokes and a full stop.
abbrev pub print_strokes : ℕ → String
print_strokes zero = "."
print_strokes (suc n) = String.◌∷◌ "I" (print_strokes n)

abbrev pub one_more : Result ℕ → Result ℕ
one_more (ok n) = ok (suc n)
one_more (err e) = err e

abbrev pub parse_strokes : String → Result ℕ
parse_strokes String.[] = err (library "no number")
parse_strokes (String.◌∷◌ c s) =
    let rest = parse_strokes s in if code c == b'.' then ok 0 else one_more rest

pub parse-print_strokes : (n : ℕ) → parse_strokes (print_strokes n) ≡ ok n
parse-print_strokes zero = refl
parse-print_strokes (suc n) = ap one_more (parse-print_strokes n)

abbrev pub strokes : UuidCodec
strokes = record {
  parse = parse_strokes;
  parse_leaves = λ s. 0;
  to_string = print_strokes;
  parse-to_string = parse-print_strokes;
}
