-- ===== src/Position/Block.antt =====
-- `BlockPosition` of src/persistence/position.rs: a block number, a u64.
use artemis_light.Prelude.{
  ℕ, ◌<◌, max, ◌≡◌, refl, true, false, Option, none, some, arith, leb, u64_max, saturating_add,
}
use artemis_light.Position.{halt, Position, IsLawful}
use artemis_light.Position.Decimal.{to_decimal, parse_u64, parse_u64-to_decimal}

block_advance : Option ℕ → ℕ → ℕ
block_advance (some prev) next = max prev next
block_advance none next = next

-- A re-observed block is a reorg, resuming starts one block on, and the text is decimal.
unfoldable pub block_position : Position ℕ
unfolding block_advance
block_position = record {
  reobservation = halt;
  sort_key = λ p. p;
  from_sort_key = λ key. key;
  advance = block_advance;
  contains = λ w p. leb p w;
  resume_key = λ p. saturating_add u64_max p 1;
  encode = to_decimal;
  decode = parse_u64;
}

pub block_position-IsLawful : IsLawful block_position
unfolding block_position
block_position-IsLawful = record {
  first = λ p. refl;
  monotone = λ w p. refl;
  identity = λ w p h. ground arith;
  minimal = λ k. refl;
  covers = λ w p h. ground arith;
  bounded = λ w p h. ground arith;
}

-- A block number below u64::MAX survives its text, is not resumed from within, and covers every
-- block below the one it resumes at.
pub block_position_resumes :
    (p : ℕ)
    → p < u64_max
    → (block_position.decode (block_position.encode p) ≡ some p)
      × (block_position.contains p (block_position.resume_key p) ≡ false)
      × ((q : ℕ) → q < block_position.resume_key p → block_position.contains p q ≡ true)
unfolding block_position
block_position_resumes p h =
    (parse_u64-to_decimal p (omega arith), ground arith, λ q k. ground arith)
