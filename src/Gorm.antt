-- ===== src/Gorm.antt =====
-- The database through GORM (gorm.io/gorm, over PostgreSQL), as the program uses it. A table is
-- the list of its rows, whose order means nothing. Each statement that the code sends is a
-- parameter: what it returns, and what it makes of the table, is known only by the laws, which
-- state the documented meaning of a statement that succeeds. One that fails changes nothing.
pub mod Rows
use code_base_ddd.Prelude.{
  ℕ, ◌<◌, ◌≡◌, refl, ◌≢◌, ◌⊎◌, inl, inr, String, Bool, ◌&&◌, not, Option, none, some, List, [], ◌∷◌,
  ◌++◌, map, Mem, Perm, select, reject, length, if◌then◌else◌,
}

-- What a statement answers: a value, or the driver's error with its text.
pub data Answer (A : Type 0) : Type 0 where
  done : A → Answer A
  failed : String → Answer A

-- The statements on a table with rows `Row`; `same_key` says that two rows have one primary key.
pub record Table (Row : Type 0) (same_key : Row → Row → Bool) : Type 0 where
  -- A written row as it is stored: GORM sets the times of creation and update that it tracks.
  pub stored : Row → Row
  -- `Where(p).First(&row)`, none for ErrRecordNotFound
  pub first : (Row → Bool) → List Row → Answer (Option Row)
  -- `Where(p).Find(&rows)`
  pub find : (Row → Bool) → List Row → Answer (List Row)
  -- `Where(p).Count(&n)`
  pub count : (Row → Bool) → List Row → Answer ℕ
  -- `Create(&rows)`
  pub create : List Row → List Row → Answer (List Row)
  -- `Where(p).Delete(&Row{})`
  pub delete : (Row → Bool) → List Row → Answer (List Row)
  -- `Where(p).Save(&row)`: RowsAffected, and the table
  pub save : (Row → Bool) → Row → List Row → Answer (ℕ × List Row)
  -- `Where(p).Updates(values)`: RowsAffected, and the table
  pub updates : (Row → Bool) → (Row → Row) → List Row → Answer (ℕ × List Row)
  -- `Where(p).FirstOrCreate(&row)`
  pub first_or_create : (Row → Bool) → Row → List Row → Answer (List Row)
  -- `Where(p).Assign(row).FirstOrCreate(&row)`
  pub assign_or_create : (Row → Bool) → Row → List Row → Answer (List Row)
  -- What `Assign(row)` makes of a row that was found.
  pub assigned : Row → Row → Row
  -- A row that is found passes the condition; none is found if no row passes it.
  pub first-some :
      (p : Row → Bool) (t : List Row) (r : Row) → first p t ≡ done (some r) → Mem r (select p t)
  pub first-none : (p : Row → Bool) (t : List Row) → first p t ≡ done none → select p t ≡ []
  pub find-perm : (p : Row → Bool) (t rs : List Row) → find p t ≡ done rs → Perm rs (select p t)
  pub count-length :
      (p : Row → Bool) (t : List Row) (n : ℕ) → count p t ≡ done n → n ≡ length (select p t)
  pub create-perm : (new t t' : List Row) → create new t ≡ done t' → Perm t' (map stored new ++ t)
  pub delete-perm : (p : Row → Bool) (t t' : List Row) → delete p t ≡ done t' → Perm t' (reject p t)
  -- Save updates the row with the primary key of the value, in all columns, if the condition
  -- holds of it; it inserts the value if no row has its key. (Where a row has its key and fails
  -- the condition, nothing is assumed.)
  pub save-perm :
      (p : Row → Bool) (r : Row) (t t' : List Row) (n : ℕ)
      → select (λ x. same_key r x && not (p x)) t ≡ []
      → save p r t ≡ done (n, t')
      → (0 < n) × Perm t' (stored r ∷ reject (same_key r) t)
  pub updates-perm :
      (p : Row → Bool) (f : Row → Row) (t t' : List Row) (n : ℕ)
      → updates p f t ≡ done (n, t')
      → (n ≡ length (select p t)) × Perm t' (map (λ r. if p r then f r else r) t)
  pub first_or_create-found :
      (p : Row → Bool) (r : Row) (t t' : List Row)
      → first_or_create p r t ≡ done t'
      → select p t ≢ []
      → Perm t' t
  pub first_or_create-missing :
      (p : Row → Bool) (r : Row) (t t' : List Row)
      → first_or_create p r t ≡ done t'
      → select p t ≡ []
      → Perm t' (stored r ∷ t)
  pub assign_or_create-found :
      (p : Row → Bool) (r : Row) (t t' : List Row)
      → assign_or_create p r t ≡ done t'
      → select p t ≢ []
      → Perm t' (map (λ x. if p x then assigned r x else x) t)
  pub assign_or_create-missing :
      (p : Row → Bool) (r : Row) (t t' : List Row)
      → assign_or_create p r t ≡ done t'
      → select p t ≡ []
      → Perm t' (stored r ∷ t)

pub Answer-cases :
    {A : Type 0} (a : Answer A) → ((x : A) × (a ≡ done x)) ⊎ ((text : String) × (a ≡ failed text))
Answer-cases (done x) = inl (x, refl)
Answer-cases (failed text) = inr (text, refl)
