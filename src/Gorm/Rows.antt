-- ===== src/Gorm/Rows.antt =====
-- Facts about the rows of a table.
use mathlib.Core.Logic.Or
use mathlib.Core.List.{mem-cons, not-mem-nil}
use mathlib.Core.List.Perm
use code_base_ddd.Prelude.{
  ◌≡◌, refl, String, Bool, true, false, List, [], ◌∷◌, ◌++◌, map, Mem, Perm, select, reject, arith,
  str_eq, eq_iff, Bool-cases, inl, inr,
}

pub String-discrete : Discrete String
String-discrete s t = elim (Bool-cases (str_eq s t)) [
  | inl same ↦ yes ((eq_iff s t).0 same)
  | inr other ↦ no (λ e. cc (other, (eq_iff s t).1 e))
]

module _ {A : Type 0} where
  pub mem-singleton : {a b : A} → IsSet A → Mem a (b ∷ []) → a ≡ b
  mem-singleton s m = Or.elim (s _ _) (mem-cons.0 m) (λ e. e) (λ n. absurd (not-mem-nil n))

  -- Rows that are taken out are not found again.
  pub select-reject :
      (p q : A → Bool) (t : List A)
      → ((x : A) → p x ≡ true → q x ≡ true)
      → select p (reject q t) ≡ []
  select-reject p q [] h = refl
  select-reject p q (x ∷ t) h = ground (arith, h x, select-reject p q t h)

  -- Rows that fail `p` and pass `q` are still there.
  pub select-reject_disjoint :
      (p q : A → Bool) (t : List A)
      → ((x : A) → p x ≡ true → q x ≡ false)
      → select p (reject q t) ≡ select p t
  select-reject_disjoint p q [] h = refl
  select-reject_disjoint p q (x ∷ t) h = ground (arith, h x, select-reject_disjoint p q t h)

  pub select_all : (p : A → Bool) (t : List A) → ((x : A) → p x ≡ true) → select p t ≡ t
  select_all p [] h = refl
  select_all p (x ∷ t) h = ground (arith, h x, select_all p t h)

  pub perm-nil : {t u : List A} → Perm t u → u ≡ [] → t ≡ []
  perm-nil h e = Perm.eq-nil (rw e at h)

  pub select-append : (p : A → Bool) (t u : List A) → select p (t ++ u) ≡ select p t ++ select p u
  select-append p [] u = refl
  select-append p (x ∷ t) u = ground (arith, select-append p t u)

  pub select-map :
      {B : Type 0} (f : B → A) (p : A → Bool) (t : List B)
      → ((x : B) → p (f x) ≡ true)
      → select p (map f t) ≡ map f t
  select-map f p [] h = refl
  select-map f p (x ∷ t) h = ground (arith, h x, select-map f p t h)
