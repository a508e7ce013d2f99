-- ===== src/Effect/Preserves.antt =====
-- Calls that keep a property of the state, whether they succeed or fail.
use code_base_ddd.Prelude.{String, Bool, true, false, if◌then◌else◌}
use code_base_ddd.Effect.{Result, ok, err, Effect, pure, with_context, ◌>>=◌, ◌>>◌}

abbrev pub Preserves : {S A : Type 0} → (S → Type 0) → Effect S A → Type 0
Preserves {S} P m = (s : S) → P s → P (m s).1

module _ {S : Type 0} (P : S → Type 0) where
  pub pure-Preserves : {A : Type 0} (a : A) → Preserves P (pure {S = S} a)
  pure-Preserves a s h = h

  -- What follows the first call, by its result.
  continue-Preserves :
      {A B : Type 0} (r : Result A) (s : S) (f : A → Effect S B)
      → P s
      → ((a : A) → Preserves P (f a))
      → P (elim r as (λ _. Result B × S) [ ok a ↦ f a s | err e ↦ (err e, s) ]).1
  continue-Preserves (ok a) s f h k = k a s h
  continue-Preserves (err e) s f h k = h

  pub >>=-Preserves :
      {A B : Type 0} (m : Effect S A) (f : A → Effect S B)
      → Preserves P m
      → ((a : A) → Preserves P (f a))
      → Preserves P (m >>= f)
  >>=-Preserves m f first rest s h = continue-Preserves (m s).0 (m s).1 f (first s h) rest

  pub >>-Preserves :
      {A B : Type 0} (m : Effect S A) (k : Effect S B)
      → Preserves P m
      → Preserves P k
      → Preserves P (m >> k)
  >>-Preserves m k first rest = >>=-Preserves m (λ _. k) first (λ _. rest)

  -- The same at one state, where the first call is known to keep the property.
  pub >>-keeps :
      {A B : Type 0} (m : Effect S A) (k : Effect S B) (s : S)
      → P (m s).1
      → Preserves P k
      → P ((m >> k) s).1
  >>-keeps m k s h rest = continue-Preserves (m s).0 (m s).1 (λ _. k) h (λ _. rest)

  wrapped-Preserves :
      {A : Type 0} (prefix : String) (r : Result A) (s : S)
      → P s
      → P (with_context prefix (λ _. (r, s)) s).1
  wrapped-Preserves prefix (ok a) s h = h
  wrapped-Preserves prefix (err e) s h = h

  pub with_context-Preserves :
      {A : Type 0} (prefix : String) (m : Effect S A)
      → Preserves P m
      → Preserves P (with_context prefix m)
  with_context-Preserves prefix m first s h = wrapped-Preserves prefix (m s).0 (m s).1 (first s h)

  pub if-Preserves :
      {A : Type 0} (b : Bool) (m k : Effect S A)
      → Preserves P m
      → Preserves P k
      → Preserves P (if b then m else k)
  if-Preserves true m k first second = first
  if-Preserves false m k first second = second
