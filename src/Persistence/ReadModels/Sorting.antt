-- ===== src/Persistence/ReadModels/Sorting.antt =====
-- The ORDER BY clause of `ListOrders`, read_model_store.go.
use Prim.Native.String
use code_base_ddd.Prelude.{
  String, ◌≡◌, refl, ◌⊎◌, inl, inr, Bool, true, ◌||◌, str_eq, eq_iff, Bool-cases, if◌then◌else◌,
}
use code_base_ddd.Ports.{ListOrdersFilter}

abbrev pub default_clause : String
default_clause = "created_at DESC"

abbrev pub direction : String → String
direction dir = if str_eq dir "desc" then "DESC" else "ASC"

-- The columns that may be sorted by.
abbrev pub is_sort_column : String → Bool
is_sort_column c =
    str_eq c "created_at" || str_eq c "total_amount" || str_eq c "status" || str_eq c "updated_at"

unfoldable pub order_clause : ListOrdersFilter → String
order_clause f =
    if str_eq f.sort_by ""
    then default_clause
    else (if is_sort_column f.sort_by
        then String.◌++◌ (String.◌++◌ f.sort_by " ") (direction f.sort_dir)
        else default_clause)

-- The clauses that can reach the database.
abbrev pub IsSafeClause : String → Type 0
IsSafeClause s =
    (s ≡ "created_at DESC")
    ⊎ (s ≡ "created_at ASC")
    ⊎ (s ≡ "total_amount DESC")
    ⊎ (s ≡ "total_amount ASC")
    ⊎ (s ≡ "status DESC")
    ⊎ (s ≡ "status ASC")
    ⊎ (s ≡ "updated_at DESC")
    ⊎ (s ≡ "updated_at ASC")

IsColumn : String → Type 0
IsColumn c = (c ≡ "created_at") ⊎ (c ≡ "total_amount") ⊎ (c ≡ "status") ⊎ (c ≡ "updated_at")

is_sort_column-eq-true : (c : String) → is_sort_column c ≡ true → IsColumn c
unfolding IsColumn
is_sort_column-eq-true c h = elim (Bool-cases (str_eq c "created_at")) [
  | inl e ↦ inl ((eq_iff _ _).0 e)
  | inr n ↦ elim (Bool-cases (str_eq c "total_amount")) [
    | inl e ↦ inr (inl ((eq_iff _ _).0 e))
    | inr m ↦ elim (Bool-cases (str_eq c "status")) [
      | inl e ↦ inr (inr (inl ((eq_iff _ _).0 e)))
      | inr l ↦
          let last : str_eq c "updated_at" ≡ true = rw (n, m, l) at h in
          inr (inr (inr ((eq_iff _ _).0 last)))
    ]
  ]
]

direction-cases : (d : String) → (direction d ≡ "DESC") ⊎ (direction d ≡ "ASC")
direction-cases d = elim (Bool-cases (str_eq d "desc")) [
  | inl e ↦ rw e (inl refl)
  | inr e ↦ rw e (inr refl)
]

column-IsSafeClause :
    (c d : String)
    → IsColumn c
    → (d ≡ "DESC") ⊎ (d ≡ "ASC")
    → IsSafeClause (String.◌++◌ (String.◌++◌ c " ") d)
unfolding IsColumn
column-IsSafeClause c d (inl e) (inl h) = rw (e, h) (inl refl)
column-IsSafeClause c d (inl e) (inr h) = rw (e, h) (inr (inl refl))
column-IsSafeClause c d (inr (inl e)) (inl h) = rw (e, h) (inr (inr (inl refl)))
column-IsSafeClause c d (inr (inl e)) (inr h) = rw (e, h) (inr (inr (inr (inl refl))))
column-IsSafeClause c d (inr (inr (inl e))) (inl h) = rw (e, h) (inr (inr (inr (inr (inl refl)))))
column-IsSafeClause c d (inr (inr (inl e))) (inr h) =
    rw (e, h) (inr (inr (inr (inr (inr (inl refl))))))
column-IsSafeClause c d (inr (inr (inr e))) (inl h) =
    rw (e, h) (inr (inr (inr (inr (inr (inr (inl refl)))))))
column-IsSafeClause c d (inr (inr (inr e))) (inr h) =
    rw (e, h) (inr (inr (inr (inr (inr (inr (inr refl)))))))

-- Whatever text the request gives for the column and the direction, the clause is one of the eight
-- that the program spells out.
pub order_clause-IsSafeClause : (f : ListOrdersFilter) → IsSafeClause (order_clause f)
unfolding order_clause
order_clause-IsSafeClause f = elim (Bool-cases (str_eq f.sort_by "")) [
  | inl e ↦ rw e (inl refl)
  | inr n ↦ elim (Bool-cases (is_sort_column f.sort_by)) [
    | inl e ↦
        rw (n, e)
          (column-IsSafeClause f.sort_by (direction f.sort_dir) (is_sort_column-eq-true f.sort_by e)
            (direction-cases f.sort_dir))
    | inr e ↦ rw (n, e) (inl refl)
  ]
]
