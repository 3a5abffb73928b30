-- ===== src/Tests/Persistence.antt =====
-- Concrete runs of the backfill writer, against a store that keeps its groups in a list.
use artemis_light.Prelude.{
  ℕ, zero, suc, ◌≤◌, ◌≡◌, refl, ◌≢◌, Bool, true, false, Option, none, some, List, [], ◌∷◌, ◌++◌,
  arith, ◌==◌, if◌then◌else◌,
}
use artemis_light.Position.{halt}
use artemis_light.Position.Block.{block_position, block_position-IsLawful}
use artemis_light.Writer.Core.{Backend, IsFaithful, GapFreeWriter, core_new, encode}
use artemis_light.Writer.Block.Feed.{backfill}
use artemis_light.Writer.Window.{ConfirmationWindow, seed_key, window_new, halt_window}
use artemis_light.Writer.Window.Rising.{Rising}
use artemis_light.Writer.Window.Flush.{IsLive}
use artemis_light.Writer.Window.Tail.{
  Indexed, event, retraction, follow, tail-IsLive, deep_reorg_freezes,
}
use artemis_light.Writer.Pipeline.{persist_and_emit, AllSettle, persist_and_emit_bounded}

-- The event 0 has no encoding; the first encode freezes the columns.
abbrev to_row : ℕ → Bool → Option ℕ × Bool
to_row zero r = (none, r)
to_row (suc n) r = (some (suc n), true)

abbrev columns : Bool → Option Bool
columns false = none
columns true = some true

-- The group at block 13 cannot be written.
abbrev append_group : ℕ → List ℕ → List (ℕ × List ℕ) → Bool × List (ℕ × List ℕ)
append_group p rows db = if p == 13 then (false, db) else (true, db ++ (p, rows) ∷ [])

abbrev blocks : Backend
blocks = record {
  P = ℕ;
  E = ℕ;
  Row = ℕ;
  Schema = Bool;
  Db = List (ℕ × List ℕ);
  Rec = Bool;
  pos = block_position;
  row_eq = ◌==◌;
  write = λ s p rows db. append_group p rows db;
  encode = to_row;
  schema = columns;
}

encoded_columns :
    (e : ℕ) (r : Bool) (row : ℕ) → (to_row e r).0 ≡ some row → columns (to_row e r).1 ≢ none
encoded_columns zero r row h = cc
encoded_columns (suc n) r row h = λ e. cc

blocks-IsFaithful : IsFaithful blocks
blocks-IsFaithful = record {
  lawful = block_position-IsLawful;
  stored = λ db. db;
  write_ok = λ s p rows db h. ground arith;
  write_err = λ s p rows db h. ground arith;
  encode_schema = encoded_columns;
}

-- Two groups, the second of which is closed by the end of the range.
abbrev range : List (ℕ × ℕ)
range = (11, 1) ∷ (11, 2) ∷ (12, 3) ∷ []

blocks_halt : block_position.reobservation ≡ halt
unfolding block_position
blocks_halt = refl

abbrev writer : GapFreeWriter blocks
writer = record { store = []; rec = true; schema = some true; healthy = true }

-- A tail over two blocks of history: a reorg at block 12, a retraction, and a deep reorg at the end.
abbrev resumed_at : Option ℕ
resumed_at = some 10

abbrev tail : List (Indexed blocks)
tail =
    event 11 1 ∷ event 12 2 ∷ event 12 3 ∷ event 11 4 ∷ retraction 12 ∷ event 14 5 ∷ event 10 6 ∷ []

tail-IsLive_example :
    IsLive blocks blocks-IsFaithful []
      (seed_key blocks resumed_at)
      (follow blocks tail (window_new blocks (core_new blocks [] false) 2 resumed_at))
unfolding blocks-IsFaithful
tail-IsLive_example = tail-IsLive blocks blocks-IsFaithful blocks_halt [] false 2 resumed_at tail

abbrev window : ConfirmationWindow blocks
window = record {
  core = writer;
  depth = 2;
  pending = (12, record { position = 12; rows = 3 ∷ []; expected = []; seeded = false }) ∷ [];
  head = some 12;
  flushed = some 10;
  watermark = some 10;
}

key_reached : blocks.pos.sort_key 10 ≤ 10
unfolding block_position
key_reached = omega arith

deep_reorg_freezes_example :
    follow blocks (event 10 6 ∷ event 13 7 ∷ []) window ≡ halt_window blocks window
deep_reorg_freezes_example =
    deep_reorg_freezes blocks blocks-IsFaithful blocks_halt window 10 6 10 (event 13 7 ∷ []) refl
      key_reached refl

one_group : Rising blocks window.flushed window.pending
unfolding block_position
one_group = (omega arith, refl, tt)

window-IsLive : IsLive blocks blocks-IsFaithful [] resumed_at window
unfolding blocks-IsFaithful
window-IsLive = record {
  log = [];
  stored = refl;
  ascending = tt;
  bound = tt;
  later = tt;
  floor = omega arith;
  rising = λ _. one_group;
  schema = λ _ _ e. cc;
}

range-AllSettle : AllSettle blocks 12 range
unfolding block_position
range-AllSettle = (omega arith, (omega arith, (omega arith, tt)))

persist_and_emit_bounded_example :
    ((persist_and_emit blocks [] false 2 (some 12) none range []).0
      ≡ (backfill blocks [] false none range).0)
    × ((persist_and_emit blocks [] false 2 (some 12) none range []).1.settled
        ≡ (backfill blocks [] false none range).1)
persist_and_emit_bounded_example =
    persist_and_emit_bounded blocks [] false 2 12 none range range-AllSettle

-- The group at block 13 fails when block 14 closes it.
abbrev broken : List (ℕ × ℕ)
broken = (13, 1) ∷ (14, 2) ∷ []

abbrev later_items : List (Indexed blocks)
later_items = event 30 5 ∷ event 40 6 ∷ []
