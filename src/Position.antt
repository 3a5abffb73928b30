-- ===== src/Position.antt =====
-- The ordering keys of src/persistence/position.rs: the `Position` trait as a record of operations,
-- its laws as a record of theorems about them, and in the children the two built-in positions.
pub mod Decimal
pub mod Block
pub mod Frontier
use artemis_light.Prelude.{ℕ, ◌≤◌, ◌<◌, max, ◌≡◌, Bool, true, Option, none, some, List}

pub data Reobservation : Type 0 where
  halt dedupe : Reobservation

-- The trait's constant and methods. A text is the list of its code points.
pub record Position (P : Type 0) : Type 0 where
  pub reobservation : Reobservation
  pub sort_key : P → ℕ
  pub from_sort_key : ℕ → P
  pub advance : Option P → P → P
  pub contains : P → P → Bool
  pub resume_key : P → ℕ
  pub encode : P → List ℕ
  pub decode : List ℕ → Option P

-- The laws of the trait's documentation, for both built-in positions with the larger key exactly
-- where the documentation asks that the key never falls.
pub record IsLawful {P : Type 0} (pos : Position P) : Type 0 where
  pub first : (p : P) → pos.advance none p ≡ p
  pub monotone :
      (w p : P) → pos.sort_key (pos.advance (some w) p) ≡ max (pos.sort_key w) (pos.sort_key p)
  pub identity : (w p : P) → pos.contains w p ≡ true → pos.advance (some w) p ≡ w
  pub minimal : (k : ℕ) → pos.sort_key (pos.from_sort_key k) ≡ k
  pub covers : (w p : P) → pos.sort_key p < pos.sort_key w → pos.contains w p ≡ true
  pub bounded : (w p : P) → pos.contains w p ≡ true → pos.sort_key p ≤ pos.sort_key w
