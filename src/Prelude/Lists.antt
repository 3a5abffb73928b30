-- ===== src/Prelude/Lists.antt =====
-- Lists measured by native numbers, under the library's names, and predicates by recursion.
use Prim.Native.Nat.{ℕ, zero, suc, ◌+◌, ◌≤◌}
use mathlib.Core.Path.{◌≡◌, refl, ap, ◌∙◌}
use mathlib.Core.List.{List, [], ◌∷◌, ◌++◌, map}
use native.Mathlib.Omega.{arith}

module _ {ℓ} {A : Type ℓ} where
  abbrev pub length : List A → ℕ
  length [] = 0
  length (x ∷ xs) = suc (length xs)

  pub length-append : (xs ys : List A) → length (xs ++ ys) ≡ length xs + length ys
  length-append [] ys = omega arith
  length-append (x ∷ xs) ys = omega (arith, length-append xs ys)

module _ {A : Type 0} where
  abbrev pub take : ℕ → List A → List A
  take zero xs = []
  take (suc n) [] = []
  take (suc n) (x ∷ xs) = x ∷ take n xs

  abbrev pub drop : ℕ → List A → List A
  drop zero xs = xs
  drop (suc n) [] = []
  drop (suc n) (x ∷ xs) = drop n xs

  pub take-length_append : (xs ys : List A) → take (length xs) (xs ++ ys) ≡ xs
  take-length_append [] ys = refl
  take-length_append (x ∷ xs) ys = ap (λ zs. x ∷ zs) (take-length_append xs ys)

  pub drop-length_append : (xs ys : List A) → drop (length xs) (xs ++ ys) ≡ ys
  drop-length_append [] ys = refl
  drop-length_append (x ∷ xs) ys = drop-length_append xs ys

  abbrev pub concat : List (List A) → List A
  concat [] = []
  concat (xs ∷ xss) = xs ++ concat xss

  chunks_from : ℕ → ℕ → List A → List (List A)
  chunks_from zero size xs = []
  chunks_from (suc fuel) size [] = []
  chunks_from (suc fuel) size (x ∷ xs) =
      take size (x ∷ xs) ∷ chunks_from fuel size (drop size (x ∷ xs))

  -- `xs.chunks(size)`: the fuel is enough, since no chunk is empty.
  unfoldable pub chunks : ℕ → List A → List (List A)
  unfolding chunks_from
  chunks size xs = chunks_from (length xs) size xs

  take-append-drop : (n : ℕ) (xs : List A) → take n xs ++ drop n xs ≡ xs
  take-append-drop zero xs = refl
  take-append-drop (suc n) [] = refl
  take-append-drop (suc n) (x ∷ xs) = ap (λ ys. x ∷ ys) (take-append-drop n xs)

  length-drop : (n : ℕ) (xs : List A) → length (drop n xs) ≤ length xs
  length-drop zero xs = omega arith
  length-drop (suc n) [] = omega arith
  length-drop (suc n) (x ∷ xs) = omega (arith, length-drop n xs)

  length-take : (n : ℕ) (xs : List A) → length (take n xs) ≤ n
  length-take zero xs = omega arith
  length-take (suc n) [] = omega arith
  length-take (suc n) (x ∷ xs) = omega (arith, length-take n xs)

  -- Chunks of at most `size` items, none of them empty.
  abbrev pub Sized : ℕ → List (List A) → Type 0
  Sized size [] = Unit
  Sized size (c ∷ cs) = (1 ≤ length c) × (length c ≤ size) × Sized size cs

  chunks_from-lem :
      (fuel size : ℕ) (xs : List A)
      → length xs ≤ fuel
      → (concat (chunks_from fuel (suc size) xs) ≡ xs)
        × Sized (suc size) (chunks_from fuel (suc size) xs)
  unfolding chunks_from
  chunks_from-lem zero size [] h = (refl, tt)
  chunks_from-lem zero size (x ∷ xs) h = absurd (omega arith)
  chunks_from-lem (suc fuel) size [] h = (refl, tt)
  chunks_from-lem (suc fuel) size (x ∷ xs) h =
      let rest = chunks_from-lem fuel size (drop size xs) (omega (arith, length-drop size xs)) in
      (
        ap (λ ys. x ∷ (take size xs ++ ys)) rest.0 ∙ ap (λ ys. x ∷ ys) (take-append-drop size xs),
        (omega arith, omega (arith, length-take size xs), rest.1),
      )

  -- The chunks of a list are the whole list, in order.
  pub chunks-lem :
      (size : ℕ) (xs : List A)
      → 1 ≤ size
      → (concat (chunks size xs) ≡ xs) × Sized size (chunks size xs)
  unfolding chunks
  chunks-lem zero xs h = absurd (omega arith)
  chunks-lem (suc size) xs h = chunks_from-lem (length xs) size xs (omega arith)

module _ {ℓ κ} {A : Type ℓ} where
  abbrev pub All : (A → Type κ) → List A → Type κ
  All P [] = Unit
  All P (x ∷ xs) = P x × All P xs

  pub All-append : (P : A → Type κ) (xs ys : List A) → All P xs → All P ys → All P (xs ++ ys)
  All-append P [] ys hx hy = hy
  All-append P (x ∷ xs) ys hx hy = (hx.0, All-append P xs ys hx.1 hy)

  pub All-map : (P Q : A → Type κ) → ((a : A) → P a → Q a) → (xs : List A) → All P xs → All Q xs
  All-map P Q f [] h = tt
  All-map P Q f (x ∷ xs) h = (f x h.0, All-map P Q f xs h.1)

pub length-map : {A B : Type 0} (f : A → B) (xs : List A) → length (map f xs) ≡ length xs
length-map f [] = refl
length-map f (x ∷ xs) = ap suc (length-map f xs)

pub map-append :
    {A B : Type 0} (f : A → B) (xs ys : List A) → map f (xs ++ ys) ≡ map f xs ++ map f ys
map-append f [] ys = refl
map-append f (x ∷ xs) ys = ap (λ zs. f x ∷ zs) (map-append f xs ys)
