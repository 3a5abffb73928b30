-- ===== src/Writer/Window.antt =====
-- `ConfirmationWindow` of src/persistence/writer/window.rs: the live tail, written only once it is
-- buried `depth` sort keys deep. The `BTreeMap` of pending groups is a list of keys and groups in
-- rising order of the keys.
pub mod Slots
pub mod Rising
pub mod Flush
pub mod Live
pub mod Tail
use artemis_light.Prelude.{
  ℕ, ◌-◌, min, max, Bool, true, false, not, ◌&&◌, ◌||◌, Option, none, some, List, [], ◌∷◌, ltb, leb,
  if◌then◌else◌,
}
use artemis_light.Writer.Core.{Backend, GapFreeWriter, fail, encode, flush}
use artemis_light.Writer.Block.{is_dedupe}
use artemis_light.Writer.Window.Slots.{
  Pending, slot, remove, put, rewind, matured, live_group, seeded_group,
}

pub record ConfirmationWindow (b : Backend) : Type 0 where
  pub core : GapFreeWriter b
  pub depth : ℕ
  pub pending : List (ℕ × Pending b)
  pub head : Option ℕ
  pub flushed : Option ℕ
  pub watermark : Option b.P

-- `map_or(key, |h| h.max(key))`
abbrev pub max_or : Option ℕ → ℕ → ℕ
max_or none k = k
max_or (some h) k = max h k

-- At or below a key that may be missing.
abbrev pub reaches : Option ℕ → ℕ → Bool
reaches none k = false
reaches (some f) k = leb k f

module _ (b : Backend) where
  unfoldable pub seed_key : Option b.P → Option ℕ
  seed_key none = none
  seed_key (some p) = some (b.pos.sort_key p)

  -- `ConfirmationWindow::new`
  unfoldable pub window_new : GapFreeWriter b → ℕ → Option b.P → ConfirmationWindow b
  unfolding seed_key
  window_new core depth seed = record {
    core = core;
    depth = depth;
    pending = [];
    head = none;
    flushed = seed_key seed;
    watermark = seed;
  }

  -- `ConfirmationWindow::halt`: fail, and drop the buffer.
  unfoldable pub halt_window : ConfirmationWindow b → ConfirmationWindow b
  halt_window w = record w { core = fail b w.core; pending = [] }

  watermark_has : Option b.P → b.P → Bool
  watermark_has none pos = false
  watermark_has (some w) pos = b.pos.contains w pos

  slot_has : Option (Pending b) → b.P → Bool
  slot_has none pos = false
  slot_has (some p) pos = b.pos.contains p.position pos

  -- `ConfirmationWindow::covered`
  pub is_covered : ConfirmationWindow b → b.P → Bool
  unfolding watermark_has slot_has
  is_covered w pos =
      watermark_has w.watermark pos || slot_has (slot b (b.pos.sort_key pos) w.pending) pos

  wrote : ℕ → b.P → Bool × GapFreeWriter b → ConfirmationWindow b → Bool × ConfirmationWindow b
  wrote k position (false, core) w = (false, record w { core = core; pending = [] })
  wrote k position (true, core) w = (
    true,
    record w {
      core = core;
      flushed = some (max_or w.flushed k);
      watermark = some (b.pos.advance w.watermark position);
    },
  )

  flush_slot : ℕ → Option (Pending b) → ConfirmationWindow b → Bool × ConfirmationWindow b
  unfolding wrote
  flush_slot k none w = (true, w)
  flush_slot k (some p) w =
      wrote k p.position (flush b p.position p.rows w.core)
        (record w { pending = remove b k w.pending })

  -- The loop over the matured keys, until a write fails.
  flush_all : List ℕ → ConfirmationWindow b → ConfirmationWindow b
  unfolding flush_slot
  flush_all [] w = w
  flush_all (k ∷ ks) w =
      let (goes_on, v) = flush_slot k (slot b k w.pending) w in
      let rest = flush_all ks v in if goes_on then rest else v

  -- `ConfirmationWindow::flush_matured`
  pub flush_matured : ConfirmationWindow b → ConfirmationWindow b
  unfolding flush_all
  flush_matured w = elim (w.head) [
    | none ↦ w
    | some head ↦ flush_all (matured b head w.depth w.pending) w
  ]

  -- The event's group, back in its slot, and the groups that have matured with it.
  enter : ℕ → Pending b → ConfirmationWindow b → ConfirmationWindow b
  unfolding flush_matured
  enter key p w =
      flush_matured (record w { pending = put b key p w.pending; head = some (max_or w.head key) })

  -- A shallow reorg rewinds the groups from the key on, and the head.
  reorged : ℕ → ConfirmationWindow b → ConfirmationWindow b
  reorged key w = elim (w.head) [
    | none ↦ w
    | some h ↦
        if not (is_dedupe b.pos.reobservation) && ltb key h
        then record w { pending = rewind b key w.pending; head = some key }
        else w
  ]

  live_row :
      b.P → Option b.Row × GapFreeWriter b → ConfirmationWindow b → Bool × ConfirmationWindow b
  unfolding enter reorged
  live_row position (none, core) w = (true, record w { core = core; pending = [] })
  live_row position (some row, core) w =
      let key = b.pos.sort_key position in
      let v = reorged key (record w { core = core }) in
      let (delivered, p) = live_group b position row (slot b key v.pending) in
      (delivered, enter key p v)

  -- `ConfirmationWindow::record`
  unfoldable pub record_live : b.P → b.E → ConfirmationWindow b → Bool × ConfirmationWindow b
  unfolding live_row halt_window
  record_live position event w =
      if w.core.healthy
      then (if is_dedupe b.pos.reobservation && is_covered w position
          then (false, w)
          else if not (is_dedupe b.pos.reobservation) && reaches w.flushed (b.pos.sort_key position)
          then (true, halt_window w)
          else live_row position (encode b event w.core) w)
      else (true, w)

  pub below_head : Option ℕ → ℕ → Bool
  below_head none k = false
  below_head (some h) k = ltb k h

  pub seeded_row :
      b.P → Option b.Row × GapFreeWriter b → ConfirmationWindow b → ConfirmationWindow b
  unfolding enter
  seeded_row position (none, core) w = record w { core = core; pending = [] }
  seeded_row position (some row, core) w =
      let key = b.pos.sort_key position in
      enter key (seeded_group b position row (slot b key w.pending)) (record w { core = core })

  -- `ConfirmationWindow::record_seeded`
  unfoldable pub record_seeded : b.P → b.E → ConfirmationWindow b → Bool × ConfirmationWindow b
  unfolding seeded_row halt_window below_head
  record_seeded position event w =
      if w.core.healthy
      then (if is_dedupe b.pos.reobservation && is_covered w position
          then (false, w)
          else if not (is_dedupe b.pos.reobservation) && below_head w.head (b.pos.sort_key position)
          then (true, halt_window w)
          else (true, seeded_row position (encode b event w.core) w))
      else (true, w)

  -- `ConfirmationWindow::absorb`
  pub absorb : Option b.P → ConfirmationWindow b → ConfirmationWindow b
  absorb none w = w
  absorb (some position) w = record w {
    flushed = some (max_or w.flushed (b.pos.sort_key position));
    watermark = some (b.pos.advance w.watermark position);
  }

  -- `self.head.map(|h| h.min(key.saturating_sub(1)))`
  head_below : ℕ → Option ℕ → Option ℕ
  head_below key none = none
  head_below key (some h) = some (min h (key - 1))

  -- `ConfirmationWindow::retract`
  unfoldable pub retract : b.P → ConfirmationWindow b → ConfirmationWindow b
  unfolding halt_window head_below
  retract position w =
      let key = b.pos.sort_key position in
      if not w.core.healthy
      then w
      else if is_dedupe b.pos.reobservation
      then w
      else if reaches w.flushed key
      then halt_window w
      else record w { pending = rewind b key w.pending; head = head_below key w.head }
