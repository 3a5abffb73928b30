-- ===== src/Writer/Block.antt =====
-- `BlockWriter` of src/persistence/writer/block.rs: one open group at a time, each complete group
-- written in a transaction of its own.
pub mod Invariant
pub mod Kept
pub mod Steps
pub mod Feed
pub mod Grouping
use artemis_light.Prelude.{
  Bool, true, false, ◌&&◌, ◌||◌, Option, none, some, List, [], ◌∷◌, ◌++◌, ltb, ◌==◌, if◌then◌else◌,
}
use artemis_light.Position.{Reobservation, halt, dedupe}
use artemis_light.Writer.Core.{Backend, GapFreeWriter, fail, encode, flush}

pub record BlockWriter (b : Backend) : Type 0 where
  pub core : GapFreeWriter b
  pub buffer : List b.Row
  pub current : Option b.P
  pub watermark : Option b.P

abbrev pub is_dedupe : Reobservation → Bool
is_dedupe halt = false
is_dedupe dedupe = true

module _ (b : Backend) where
  -- `BlockWriter::new`
  abbrev pub new : GapFreeWriter b → Option b.P → BlockWriter b
  new core seed = record { core = core; buffer = []; current = none; watermark = seed }

  watermark_covers : Option b.P → b.P → Bool
  watermark_covers none pos = false
  watermark_covers (some w) pos = b.pos.contains w pos

  -- The open group covers at its own sort key only.
  open_covers : Option b.P → b.P → Bool
  open_covers none pos = false
  open_covers (some c) pos = b.pos.sort_key c == b.pos.sort_key pos && b.pos.contains c pos

  -- `BlockWriter::covered`
  pub covered : BlockWriter b → b.P → Bool
  unfolding watermark_covers open_covers
  covered w pos = watermark_covers w.watermark pos || open_covers w.current pos

  -- Fold the position into the open group and buffer the row.
  push : b.P → b.Row → BlockWriter b → BlockWriter b
  push position row w = record w {
    current = some (b.pos.advance w.current position);
    buffer = w.buffer ++ row ∷ [];
  }

  -- A higher sort key: the open group `cur` is complete; what its flush returned.
  unfoldable closed : b.P → b.Row → b.P → Bool × GapFreeWriter b → BlockWriter b → BlockWriter b
  unfolding push
  closed position row cur (false, core) w = record w { core = core; buffer = []; current = none }
  closed position row cur (true, core) w = push position row (record w {
    core = core;
    buffer = [];
    current = none;
    watermark = some (b.pos.advance w.watermark cur);
  })

  place : b.P → b.Row → Option b.P → BlockWriter b → BlockWriter b
  unfolding push closed
  place position row none w = push position row w
  place position row (some cur) w =
      if ltb (b.pos.sort_key position) (b.pos.sort_key cur)
      then record w { core = fail b w.core; buffer = [] }
      else if ltb (b.pos.sort_key cur) (b.pos.sort_key position)
      then closed position row cur (flush b cur w.buffer w.core) w
      else push position row w

  pub with_row : b.P → Option b.Row × GapFreeWriter b → BlockWriter b → BlockWriter b
  unfolding place
  with_row position (none, core) w = record w { core = core; buffer = [] }
  with_row position (some row, core) w = place position row w.current (record w { core = core })

  -- `BlockWriter::record`: whether the event is delivered, and the writer after it.
  unfoldable pub record_event : b.P → b.E → BlockWriter b → Bool × BlockWriter b
  unfolding with_row
  record_event position event w =
      if w.core.healthy
      then (if is_dedupe b.pos.reobservation && covered w position
          then (false, w)
          else (true, with_row position (encode b event w.core) w))
      else (true, w)

  finished : b.P → Bool × GapFreeWriter b → BlockWriter b → BlockWriter b
  finished cur (false, core) w = record w { core = core; buffer = []; current = none }
  finished cur (true, core) w = record w {
    core = core;
    buffer = [];
    current = none;
    watermark = some (b.pos.advance w.watermark cur);
  }

  finish_current : Option b.P → BlockWriter b → BlockWriter b
  unfolding finished
  finish_current none w = w
  finish_current (some cur) w = finished cur (flush b cur w.buffer w.core) w

  -- `BlockWriter::finish`
  unfoldable pub finish : BlockWriter b → BlockWriter b
  unfolding finish_current
  finish w = if w.core.healthy then finish_current w.current w else w
