-- ===== src/Persistence/Transaction.antt =====
-- Transactions: internal/infrastructure/persistence/unit_of_work.go over `db.Transaction`.
use code_base_ddd.Prelude.{◌≡◌, sym, ap, ◌∙◌, inl, inr, arith}
use code_base_ddd.Error.{Error}
use code_base_ddd.Effect.{Effect, ok, err, Outcome-cases}
use code_base_ddd.Persistence.Database.{Db, Gorm}

module _ (g : Gorm) where
  -- `GormUnitOfWork.Execute`; the transaction's stores are the stores over the same tables.
  unfoldable pub execute : {A : Type 0} → Effect Db A → Effect Db A
  execute {A} f = g.transaction A f

  -- A unit of work that succeeds has left the database as its function did.
  pub execute-ok :
      {A : Type 0} (f : Effect Db A) (s : Db) {a : A} {s' : Db}
      → execute f s ≡ (ok a, s')
      → f s ≡ (ok a, s')
  unfolding execute
  execute-ok {A} f s h = elim (Outcome-cases (f s)) [
    | inl (b, t, e) ↦ elim (g.transaction-ok A f s t b e) [
      | inl committed ↦ e ∙ sym committed ∙ h
      | inr (x, failed) ↦ absurd (ground arith)
    ]
    | inr (x, t, e) ↦ let rolled = g.transaction-err A f s t x e in absurd (ground arith)
  ]

  -- One that fails has changed nothing.
  pub execute-err :
      {A : Type 0} (f : Effect Db A) (s : Db) {x : Error} {s' : Db}
      → execute f s ≡ (err x, s')
      → s' ≡ s
  unfolding execute
  execute-err {A} f s h = elim (Outcome-cases (f s)) [
    | inl (b, t, e) ↦ elim (g.transaction-ok A f s t b e) [
      | inl committed ↦ absurd (ground arith)
      | inr (y, failed) ↦ ap (λ p. p.1) (sym h ∙ failed)
    ]
    | inr (y, t, e) ↦ ap (λ p. p.1) (sym h ∙ g.transaction-err A f s t y e)
  ]
