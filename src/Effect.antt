-- ===== src/Effect.antt =====
-- Results of fallible calls, and calls that change a state. The state comes back after an error
-- too: what a call wrote before it failed stays written, until a transaction rolls it back.
pub mod Preserves
use code_base_ddd.Prelude.{String, ◌≡◌, refl, ◌∙◌, ap, ◌⊎◌, inl, inr}
use code_base_ddd.Error.{Error, wrap}

pub data Result (A : Type 0) : Type 0 where
  ok : A → Result A
  err : Error → Result A

abbrev pub Effect : Type 0 → Type 0 → Type 0
Effect S A = S → Result A × S

module _ {S A : Type 0} where
  abbrev pub pure : A → Effect S A
  pure a s = (ok a, s)

  abbrev pub fail : Error → Effect S A
  fail e s = (err e, s)

  -- A call that reads the state and may fail.
  abbrev pub reads : (S → Result A) → Effect S A
  reads f s = (f s, s)

  -- A call that fails or not without touching the state.
  abbrev pub lift : Result A → Effect S A
  lift r s = (r, s)

-- `fmt.Errorf("prefix: %w", err)` on the error of a call.
abbrev pub with_context : {S A : Type 0} → String → Effect S A → Effect S A
with_context prefix m s =
    let (r, s') = m s in elim r [ ok a ↦ (ok a, s') | err e ↦ (err (wrap prefix e), s') ]

infixl 5 ◌>>=◌ ◌>>◌
abbrev pub ◌>>=◌ : {S A B : Type 0} → Effect S A → (A → Effect S B) → Effect S B
◌>>=◌ m f s = let (r, s') = m s in elim r [ ok a ↦ f a s' | err e ↦ (err e, s') ]

abbrev pub ◌>>◌ : {S A B : Type 0} → Effect S A → Effect S B → Effect S B
m >> k = m >>= λ _. k

get_ok : {A : Type 0} → A → Result A → A
get_ok d (ok a) = a
get_ok d (err e) = d

pub ok_injective : {A : Type 0} {a b : A} → ok a ≡ ok b → a ≡ b
unfolding get_ok
ok_injective {a} e = ap (get_ok a) e

module _ {S A B : Type 0} where
  after : Result A × S → (A → Effect S B) → Result B × S
  after (ok a, s') f = f a s'
  after (err e, s') f = (err e, s')

  after_inversion :
      (p : Result A × S) (f : A → Effect S B) {b : B} {s'' : S}
      → after p f ≡ (ok b, s'')
      → (a : A) × (s' : S) × (p ≡ (ok a, s')) × (f a s' ≡ (ok b, s''))
  unfolding after
  after_inversion (ok a, s') f h = (a, s', refl, h)
  after_inversion (err e, s') f h = cc

  bind-after :
      (r : Result A) (s' : S) (f : A → Effect S B)
      → after (r, s') f ≡ elim r [ ok a ↦ f a s' | err e ↦ (err e, s') ]
  unfolding after
  bind-after (ok a) s' f = refl
  bind-after (err e) s' f = refl

  -- A sequence of two calls that succeeds: each of them did.
  pub >>=-eq-ok :
      (m : Effect S A) (f : A → Effect S B) (s : S) {b : B} {s'' : S}
      → (m >>= f) s ≡ (ok b, s'')
      → (a : A) × (s' : S) × (m s ≡ (ok a, s')) × (f a s' ≡ (ok b, s''))
  >>=-eq-ok m f s h = after_inversion (m s) f (bind-after (m s).0 (m s).1 f ∙ h)

-- To split on what a call returned, and keep the equation.
pub Outcome-cases :
    {S A : Type 0} (p : Result A × S)
    → ((a : A) × (s : S) × (p ≡ (ok a, s))) ⊎ ((e : Error) × (s : S) × (p ≡ (err e, s)))
Outcome-cases (ok a, s) = inl (a, s, refl)
Outcome-cases (err e, s) = inr (e, s, refl)

pub Result-cases :
    {A : Type 0} (r : Result A) → ((a : A) × (r ≡ ok a)) ⊎ ((e : Error) × (r ≡ err e))
Result-cases (ok a) = inl (a, refl)
Result-cases (err e) = inr (e, refl)
