-- ===== src/Prelude/Lists.antt =====
-- Lists measured by native numbers, and lists read as the contents of a table: the rows that
-- pass a condition, sums over rows, and both up to the order of the rows.
use Prim.Native.Nat.{ℕ, zero, suc, ◌+◌, ◌≤◌, ◌<◌, min}
use mathlib.Core.Path.{◌≡◌, refl, ap, ◌∙◌}
use mathlib.Core.Logic.{∥∥₁_elim, ∥∥₁_map, ◌⊎◌, inl, inr}
use mathlib.Core.Bool.{Bool, true, false, not, ◌&&◌}
use mathlib.Core.List.{List, [], ◌∷◌, ◌++◌, map, Perm, Permᴰ}
use native.Mathlib.Nat.{ℕ_set}
use native.Mathlib.Omega.{arith}
use code_base_ddd.Prelude.Tests.{if◌then◌else◌}

module _ {ℓ} {A : Type ℓ} where
  abbrev pub length : List A → ℕ
  length [] = 0
  length (x ∷ xs) = suc (length xs)

  -- The rows that pass a condition.
  abbrev pub select : (A → Bool) → List A → List A
  select p [] = []
  select p (x ∷ xs) = if p x then x ∷ select p xs else select p xs

  -- The rows that fail it.
  abbrev pub reject : (A → Bool) → List A → List A
  reject p = select (λ x. not (p x))

  -- The sum of a number taken from each row.
  abbrev pub total : (A → ℕ) → List A → ℕ
  total f [] = 0
  total f (x ∷ xs) = f x + total f xs

  abbrev pub All {κ} : (A → Type κ) → List A → Type κ
  All P [] = Unit
  All P (x ∷ xs) = P x × All P xs

  pub total-append : (f : A → ℕ) (xs ys : List A) → total f (xs ++ ys) ≡ total f xs + total f ys
  total-append f [] ys = omega arith
  total-append f (x ∷ xs) ys = omega (arith, total-append f xs ys)

  total-permᴰ : (f : A → ℕ) {xs ys : List A} → Permᴰ xs ys → total f xs ≡ total f ys
  total-permᴰ f Permᴰ.nil = refl
  total-permᴰ f (Permᴰ.cons e p) = ground (arith, total-permᴰ f p)
  total-permᴰ f (Permᴰ.swap d e) = ground arith
  total-permᴰ f (Permᴰ.trans p q) = total-permᴰ f p ∙ total-permᴰ f q

  -- A sum over rows does not depend on their order.
  pub total-perm : (f : A → ℕ) {xs ys : List A} → Perm xs ys → total f xs ≡ total f ys
  total-perm f p = ∥∥₁_elim p (ℕ_set _ _) (total-permᴰ f)

  permᴰ_refl : (xs : List A) → Permᴰ xs xs
  permᴰ_refl [] = Permᴰ.nil
  permᴰ_refl (x ∷ xs) = Permᴰ.cons refl (permᴰ_refl xs)

  keep-permᴰ :
      (b : Bool) {x y : A} {xs ys : List A}
      → x ≡ y
      → Permᴰ xs ys
      → Permᴰ (if b then x ∷ xs else xs) (if b then y ∷ ys else ys)
  keep-permᴰ true e h = Permᴰ.cons e h
  keep-permᴰ false e h = h

  swap-permᴰ :
      (b c : Bool) (x y : A) (xs : List A)
      → Permᴰ
          (if b then x ∷ (if c then y ∷ xs else xs) else (if c then y ∷ xs else xs))
          (if c then y ∷ (if b then x ∷ xs else xs) else (if b then x ∷ xs else xs))
  swap-permᴰ true true x y xs = Permᴰ.swap refl refl
  swap-permᴰ true false x y xs = permᴰ_refl _
  swap-permᴰ false true x y xs = permᴰ_refl _
  swap-permᴰ false false x y xs = permᴰ_refl _

  select-permᴰ : (p : A → Bool) {xs ys : List A} → Permᴰ xs ys → Permᴰ (select p xs) (select p ys)
  select-permᴰ p Permᴰ.nil = Permᴰ.nil
  select-permᴰ p (Permᴰ.cons {a} e h) = rw (← e) (keep-permᴰ (p a) refl (select-permᴰ p h))
  select-permᴰ p (Permᴰ.swap {a} {b} {l} d e) =
      rw (← d, ← e) (swap-permᴰ (p a) (p b) a b (select p l))
  select-permᴰ p (Permᴰ.trans h k) = Permᴰ.trans (select-permᴰ p h) (select-permᴰ p k)

  pub select-perm : (p : A → Bool) {xs ys : List A} → Perm xs ys → Perm (select p xs) (select p ys)
  select-perm p h = ∥∥₁_map h (select-permᴰ p)

  abbrev pub take : ℕ → List A → List A
  take zero xs = []
  take (suc n) [] = []
  take (suc n) (x ∷ xs) = x ∷ take n xs

  abbrev pub drop : ℕ → List A → List A
  drop zero xs = xs
  drop (suc n) [] = []
  drop (suc n) (x ∷ xs) = drop n xs

  pub take-append-drop : (n : ℕ) (xs : List A) → take n xs ++ drop n xs ≡ xs
  take-append-drop zero xs = refl
  take-append-drop (suc n) [] = refl
  take-append-drop (suc n) (x ∷ xs) = rw (take-append-drop n xs)

  pub length-take : (n : ℕ) (xs : List A) → length (take n xs) ≡ min n (length xs)
  length-take zero xs = omega arith
  length-take (suc n) [] = omega arith
  length-take (suc n) (x ∷ xs) = omega (arith, length-take n xs)

  -- The rows that pass a condition, counted.
  abbrev pub count : (A → Bool) → List A → ℕ
  count p = total (λ x. if p x then 1 else 0)

  pub length-select : (p : A → Bool) (xs : List A) → length (select p xs) ≡ count p xs
  length-select p [] = refl
  length-select p (x ∷ xs) = ground (arith, length-select p xs)

  pub select-eq-nil : (p : A → Bool) (xs : List A) → count p xs ≡ 0 → select p xs ≡ []
  select-eq-nil p [] h = refl
  select-eq-nil p (x ∷ xs) h = ground (arith, select-eq-nil p xs)

pub length-map : {A B : Type 0} (f : A → B) (xs : List A) → length (map f xs) ≡ length xs
length-map f [] = refl
length-map f (x ∷ xs) = rw (length-map f xs)

module _ {A : Type 0} where
  -- How an update of the rows that pass `p` changes the number of rows that pass `q`.
  pub count-update_le :
      (p q : A → Bool) (f : A → A) (t : List A)
      → ((x : A) → q (f x) ≡ true → q x ≡ true)
      → count q (map (λ x. if p x then f x else x) t) ≤ count q t
  count-update_le p q f [] h = omega arith
  count-update_le p q f (x ∷ t) h = ground (arith, h x, count-update_le p q f t h)

  pub count-update_ge :
      (p q : A → Bool) (f : A → A) (t : List A)
      → ((x : A) → q x ≡ true → q (f x) ≡ true)
      → count q t ≤ count q (map (λ x. if p x then f x else x) t)
  count-update_ge p q f [] h = omega arith
  count-update_ge p q f (x ∷ t) h = ground (arith, h x, count-update_ge p q f t h)

  pub count-select : (p q : A → Bool) (t : List A) → count q (select p t) ≤ count q t
  count-select p q [] = omega arith
  count-select p q (x ∷ t) = ground (arith, count-select p q t)

  pub count-append : (p : A → Bool) (t u : List A) → count p (t ++ u) ≡ count p t + count p u
  count-append p t u = total-append (λ x. if p x then 1 else 0) t u

  pub count-perm : (p : A → Bool) {t u : List A} → Perm t u → count p t ≡ count p u
  count-perm p h = total-perm (λ x. if p x then 1 else 0) h

  pub select-none : (p : A → Bool) (t : List A) → ((x : A) → p x ≡ false) → select p t ≡ []
  select-none p [] h = refl
  select-none p (x ∷ t) h = ground (arith, h x, select-none p t h)

  -- An update after which no row that it touched passes `q` takes those rows out of the count.
  pub count-update_out :
      (p q : A → Bool) (f : A → A) (t : List A)
      → ((x : A) → q (f x) ≡ false)
      → count q (map (λ x. if p x then f x else x) t) + count (λ x. p x && q x) t ≡ count q t
  count-update_out p q f [] h = omega arith
  count-update_out p q f (x ∷ t) h = ground (arith, h x, count-update_out p q f t h)

  -- Every row that was selected passes.
  pub count-select_out : (p : A → Bool) (t : List A) → count (λ x. not (p x)) (select p t) ≡ 0
  count-select_out p [] = refl
  count-select_out p (x ∷ t) = ground (arith, count-select_out p t)

  pub count-select_in :
      (p q : A → Bool) (t : List A)
      → count (λ x. q x && p x) (select p t) ≡ count (λ x. q x && p x) t
  count-select_in p q [] = refl
  count-select_in p q (x ∷ t) = ground (arith, count-select_in p q t)

-- No row passes two conditions if none passes the first.
pub count-none :
    {A : Type 0} (p q : A → Bool) (t : List A) → count p t ≡ 0 → count (λ x. p x && q x) t ≡ 0
count-none p q [] h = refl
count-none p q (x ∷ t) h = ground (arith, count-none p q t)

-- A row that was put in, and passes both tests, is among those that pass.
pub count-select_new :
    {A : Type 0} (p q : A → Bool) {t u : List A} (r : A)
    → Perm u (r ∷ t)
    → p r ≡ true
    → q r ≡ true
    → 0 < count q (select p u)
count-select_new p q {t} r perm e f =
    let rows = count-perm q (select-perm p perm) in
    let first : select p (r ∷ t) ≡ r ∷ select p t = ground arith in
    let counted = ap (count q) first in ground (arith, rows, counted)

pub List-cases : {A : Type 0} (xs : List A) → (xs ≡ []) ⊎ ((y : A) × (ys : List A) × (xs ≡ y ∷ ys))
List-cases [] = inl refl
List-cases (x ∷ xs) = inr (x, xs, refl)
