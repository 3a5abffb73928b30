-- ===== src/Persisted/Subscribe/Steps.antt =====
-- Steps on a state that fail with an error: the `?` of src/persistence/persisted.rs.
use artemis_light.Prelude.{◌≡◌, refl, ok, err, Result}

abbrev pub Step : Type 0 → Type 0 → Type 0 → Type 0
Step World Error A = World → Result Error A × World

module _ {World Error : Type 0} where
  abbrev pub return_ : {A : Type 0} → A → Step World Error A
  return_ a w = (ok a, w)

  abbrev pub bound :
      {A B : Type 0} → Result Error A × World → (A → Step World Error B) → Result Error B × World
  bound (ok a, w) f = f a w
  bound (err e, w) f = (err e, w)

  infixl 5 ◌>>=◌
  abbrev pub ◌>>=◌ :
      {A B : Type 0} → Step World Error A → (A → Step World Error B) → Step World Error B
  (m >>= f) w = bound (m w) f

  -- A chain that succeeds has succeeded at its first step and then at the rest.
  pub bound-ok :
      {A B : Type 0} (r : Result Error A × World) (f : A → Step World Error B) (b : B) (v : World)
      → bound r f ≡ (ok b, v)
      → (a : A) × (w : World) × (r ≡ (ok a, w)) × (f a w ≡ (ok b, v))
  bound-ok (ok a, w) f b v h = (a, w, refl, h)
  bound-ok (err e, w) f b v h = cc

  pub return_-ok :
      {A : Type 0} (a b : A) (w v : World)
      → ◌≡◌ {A = Result Error A × World} (return_ a w) (ok b, v)
      → a ≡ b
  return_-ok a b w v h = cc
