-- ===== src/Persisted.antt =====
-- The boundaries that `Persisted::subscribe` of src/persistence/persisted.rs computes between the
-- replay of stored history, the backfill and the live tail.
pub mod Source
pub mod Split
pub mod Chunks
pub mod Config
pub mod Storage
pub mod Replay
pub mod Subscribe
use artemis_light.Prelude.{
  ℕ, ◌+◌, ◌≤◌, ◌<◌, min, max, ◌≡◌, ◌⊎◌, Option, none, some, arith, ltb, if◌then◌else◌, u64_max,
  checked_sub,
}
use artemis_light.Position.{Position}
use artemis_light.Position.Block.{block_position}

-- `self.to_block.map(|b| b.min(tip_key)).unwrap_or(tip_key)`
unfoldable pub effective_tip : Option ℕ → ℕ → ℕ
effective_tip none tip = tip
effective_tip (some cap) tip = min cap tip

-- In bounded mode nothing may settle above the snapshot; else the last `depth` positions stay
-- pending, and all of them while the tip is younger than that.
unfoldable pub final_cut : Option ℕ → ℕ → ℕ → Option ℕ
unfolding effective_tip
final_cut none tip depth = checked_sub (effective_tip none tip) depth
final_cut (some cap) tip depth = some (effective_tip (some cap) tip)

module _ {P : Type 0} (pos : Position P) where
  -- The stored history, cut off at the snapshot.
  unfoldable pub replay_up_to : Option ℕ → Option P → Option P
  replay_up_to none last = last
  replay_up_to (some cap) none = none
  replay_up_to (some cap) (some l) =
      if ltb cap (pos.sort_key l) then some (pos.from_sort_key cap) else some l

  resume : Option P → ℕ
  resume none = 0
  resume (some l) = pos.resume_key l

  unfoldable pub backfill_from : Option P → ℕ → ℕ
  unfolding resume
  backfill_from last start_block = max (resume last) start_block

-- After a block below u64::MAX is stored, each block from the start on is stored or fetched by the
-- backfill, and none is both.
pub blocks_split :
    (last start_block q : ℕ)
    → last < u64_max
    → start_block ≤ q
    → (q ≤ last ⊎ backfill_from block_position (some last) start_block ≤ q)
      × (backfill_from block_position (some last) start_block ≤ q → last < q)
unfolding backfill_from block_position
blocks_split last start_block q h s = ground arith

-- Without a bound the cut lies exactly depth below the tip, or there is none and the tip is younger
-- than that; with the bound cap the cut is not above it, and the replay of a stored history up to
-- block last ends at the lower of the two.
pub cuts :
    (tip depth cap last : ℕ)
    → ((c : ℕ) → final_cut none tip depth ≡ some c → c + depth ≡ tip)
      × (final_cut none tip depth ≡ none → tip < depth)
      × ((c : ℕ) → final_cut (some cap) tip depth ≡ some c → c ≤ cap)
      × ((r : ℕ) → replay_up_to block_position (some cap) (some last) ≡ some r → r ≡ min last cap)
unfolding final_cut replay_up_to block_position
cuts tip depth cap last =
    (λ c e. ground arith, λ e. ground arith, λ c e. ground arith, λ r e. ground arith)
