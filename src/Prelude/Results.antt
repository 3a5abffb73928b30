-- ===== src/Prelude/Results.antt =====
-- Rust's `Result`, with a chain for its `?`.
use mathlib.Core.List.{List, [], ◌∷◌}

pub data Result (F A : Type 0) : Type 0 where
  ok : A → Result F A
  err : F → Result F A

infixl 5 ◌>>=◌
abbrev pub ◌>>=◌ : {F A B : Type 0} → Result F A → (A → Result F B) → Result F B
ok a >>= f = f a
err e >>= f = err e

-- `.map(f).collect::<Result<Vec<_>>>()`
abbrev pub collect : {F A B : Type 0} → (A → Result F B) → List A → Result F (List B)
collect f [] = ok []
collect f (x ∷ xs) = do y ← f x; ys ← collect f xs; ok (y ∷ ys)
