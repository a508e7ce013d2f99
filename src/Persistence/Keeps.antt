-- ===== src/Persistence/Keeps.antt =====
-- Which properties of the database the statements, the transactions and the stores keep. A property
-- that no write to a table can break is kept by every store that writes only that table.
pub mod Stores
use code_base_ddd.Prelude.{◌≡◌, refl, sym, ap, ◌∙◌, inl, inr, ℕ, List, String, arith}
use code_base_ddd.Effect.{Result, ok, err, Effect, Outcome-cases}
use code_base_ddd.Effect.Preserves.{Preserves}
use code_base_ddd.Gorm.{Answer, done, failed}
use code_base_ddd.Persistence.Database.{Db, Gorm, answer, change, change_count}
use code_base_ddd.Persistence.Transaction.{execute, execute-ok, execute-err}

-- A write to a table, whatever is written, keeps the property.
abbrev pub KeptBy : {Row : Type 0} → (Db → Type 0) → (List Row → Db → Db) → Type 0
KeptBy {Row} P put = (t : List Row) (s : Db) → P s → P (put t s)

module _ (P : Db → Type 0) where
  pub answer-Preserves : {A : Type 0} (a : Answer A) → Preserves P (answer a)
  answer-Preserves (done x) s h = h
  answer-Preserves (failed text) s h = h

  pub change-keeps :
      {Row : Type 0} (put : List Row → Db → Db) (a : Answer (List Row)) (s : Db)
      → P s
      → ((t : List Row) → a ≡ done t → P (put t s))
      → P (change put a s).1
  change-keeps put (done t) s h k = k t refl
  change-keeps put (failed text) s h k = h

  pub change_count-keeps :
      {Row : Type 0} (put : List Row → Db → Db) (a : Answer (ℕ × List Row)) (s : Db)
      → P s
      → ((n : ℕ) (t : List Row) → a ≡ done (n, t) → P (put t s))
      → P (change_count put a s).1
  change_count-keeps put (done (n, t)) s h k = k n t refl
  change_count-keeps put (failed text) s h k = h

  -- A transaction is committed as it ran, or undone.
  pub execute-Preserves :
      (g : Gorm) {A : Type 0} (f : Effect Db A) → Preserves P f → Preserves P (execute g f)
  execute-Preserves g f kept s h = elim (Outcome-cases (execute g f s)) [
    | inl (a, t, ran) ↦
        let same : (f s).1 ≡ (execute g f s).1 = ap (λ r. r.1) (execute-ok g f s ran ∙ sym ran) in
        rw (← same) (kept s h)
    | inr (e, t, ran) ↦
        let same : (execute g f s).1 ≡ s = ap (λ r. r.1) ran ∙ execute-err g f s ran in rw same h
  ]
