-- ===== src/Prelude/TextOrder.antt =====
-- `text_before` is a strict total order.
use Prim.Native.Nat.{ℕ}
use mathlib.Core.Path.{◌≡◌, refl}
use mathlib.Core.Bool.{true, false}
use mathlib.Core.List.{List, [], ◌∷◌}
use native.Mathlib.Omega.{arith}
use artemis_light.Prelude.Texts.{same_text, text_before}

pub text_before_irrefl : (s : List ℕ) → text_before s s ≡ false
text_before_irrefl [] = refl
text_before_irrefl (c ∷ s) = ground (arith, text_before_irrefl s)

pub text_before_trans :
    (s t u : List ℕ) → text_before s t ≡ true → text_before t u ≡ true → text_before s u ≡ true
text_before_trans [] [] u h k = cc
text_before_trans [] (d ∷ t) [] h k = cc
text_before_trans [] (d ∷ t) (e ∷ u) h k = refl
text_before_trans (c ∷ s) [] u h k = cc
text_before_trans (c ∷ s) (d ∷ t) [] h k = cc
text_before_trans (c ∷ s) (d ∷ t) (e ∷ u) h k = ground (arith, text_before_trans s t u)

pub text_before-total :
    (s t : List ℕ) → same_text s t ≡ false → text_before s t ≡ false → text_before t s ≡ true
text_before-total [] [] h k = cc
text_before-total [] (d ∷ t) h k = cc
text_before-total (c ∷ s) [] h k = refl
text_before-total (c ∷ s) (d ∷ t) h k = ground (arith, text_before-total s t)
