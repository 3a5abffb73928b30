-- ===== src/Writer/Pipeline.antt =====
-- `persist_and_emit` of src/persistence/writer/mod.rs: the backfill goes to the block writer up to
-- the cut and to the confirmation window above it, then the live stream goes to the window. Both
-- writers work on one store and one record, so each takes over the other's store and record.
pub mod Delivery
use mathlib.Core.List.{append-nil}
use artemis_light.Prelude.{
  ℕ, ◌≤◌, ◌≡◌, refl, ap, ◌∙◌, Bool, false, Option, none, some, List, [], ◌∷◌, ◌++◌, leb,
  if◌then◌else◌, le→leb,
}
use artemis_light.Writer.Core.{Backend, GapFreeWriter, core_new}
use artemis_light.Writer.Block.{BlockWriter, new, record_event, finish}
use artemis_light.Writer.Block.Feed.{feed, backfill}
use artemis_light.Writer.Window.{
  ConfirmationWindow, window_new, halt_window, record_live, record_seeded, absorb, retract,
}
use artemis_light.Writer.Window.Tail.{Indexed, event, retraction}

-- The variables `settled` and `window`.
pub record Writers (b : Backend) : Type 0 where
  pub settled : BlockWriter b
  pub window : ConfirmationWindow b

module _ (b : Backend) where
  -- The core on the store and the record as another core has left them.
  abbrev on_store_of : GapFreeWriter b → GapFreeWriter b → GapFreeWriter b
  on_store_of from core = record core { store = from.store; rec = from.rec }

  -- `settles`: at or below the cut, if there is one.
  abbrev settles : Option ℕ → b.P → Bool
  settles none position = false
  settles (some cut) position = leb (b.pos.sort_key position) cut

  window_seed : Option ℕ → Option b.P → Option b.P
  window_seed none seed = seed
  window_seed (some cut) seed = some (b.pos.advance seed (b.pos.from_sort_key cut))

  settle : b.P → b.E → Writers b → Bool × Writers b
  settle position e ws =
      let (delivered, s) = record_event b position e ws.settled in
      let w = ws.window in
      (delivered, record { settled = s; window = record w { core = on_store_of s.core w.core } })

  hold : b.P → b.E → Writers b → Bool × Writers b
  hold position e ws =
      let (delivered, w) = record_seeded b position e ws.window in
      let s = ws.settled in
      (delivered, record { settled = record s { core = on_store_of w.core s.core }; window = w })

  -- The first loop of the stream: the events yielded, and both writers after it.
  backfill_loop : Option ℕ → List (b.P × b.E) → Writers b → List (b.P × b.E) × Writers b
  unfolding settle hold
  backfill_loop cut [] ws = ([], ws)
  backfill_loop cut ((p, e) ∷ events) ws =
      let (delivered, next) = if settles cut p then settle p e ws else hold p e ws in
      let (rest, end) = backfill_loop cut events next in
      (if delivered then (p, e) ∷ rest else rest, end)

  -- The window takes over where the settled writer has finished, or halts with it.
  hand_over : Writers b → Writers b
  hand_over ws =
      let s = finish b ws.settled in
      let w = record ws.window { core = on_store_of s.core ws.window.core } in
      record {
        settled = s;
        window = if s.core.healthy then absorb b s.watermark w else halt_window b w;
      }

  -- The second loop of the stream.
  live_loop : List (Indexed b) → ConfirmationWindow b → List (b.P × b.E) × ConfirmationWindow b
  live_loop [] w = ([], w)
  live_loop (event p e ∷ items) w =
      let (delivered, v) = record_live b p e w in
      let (rest, u) = live_loop items v in (if delivered then (p, e) ∷ rest else rest, u)
  live_loop (retraction p ∷ items) w = live_loop items (retract b p w)

  start_writers : b.Db → b.Rec → ℕ → Option ℕ → Option b.P → Writers b
  unfolding window_seed
  start_writers db rec depth cut seed = record {
    settled = new b (core_new b db rec) seed;
    window = window_new b (core_new b db rec) depth (window_seed cut seed);
  }

  -- `persist_and_emit`: what the stream yields, and the writers at its end.
  unfoldable pub persist_and_emit :
      b.Db
      → b.Rec
      → ℕ
      → Option ℕ
      → Option b.P
      → List (b.P × b.E)
      → List (Indexed b)
      → List (b.P × b.E) × Writers b
  unfolding backfill_loop hand_over live_loop start_writers
  persist_and_emit db rec depth cut seed backfill live =
      let (first, ws) = backfill_loop cut backfill (start_writers db rec depth cut seed) in
      let ready = hand_over ws in
      let (second, w) = live_loop live ready.window in
      (first ++ second, record ready { window = w })

-- The bounded mode: every position is at or below the cut, and there is no live stream.
module _ (b : Backend) where
  abbrev pub AllSettle : ℕ → List (b.P × b.E) → Type 0
  AllSettle cut [] = Unit
  AllSettle cut ((p, e) ∷ events) = (b.pos.sort_key p ≤ cut) × AllSettle cut events

  settle-feed :
      (cut : ℕ) (events : List (b.P × b.E)) (ws : Writers b)
      → AllSettle cut events
      → ((backfill_loop b (some cut) events ws).0 ≡ (feed b events ws.settled).0)
        × ((backfill_loop b (some cut) events ws).1.settled ≡ (feed b events ws.settled).1)
  unfolding backfill_loop feed settle
  settle-feed cut [] ws h = (refl, refl)
  settle-feed cut ((p, e) ∷ events) ws h =
      let (yields, ends) = settle-feed cut events (settle b p e ws).1 h.1 in
      rw (le→leb (b.pos.sort_key p) cut h.0)
        (ap (λ l. if (record_event b p e ws.settled).0 then (p, e) ∷ l else l) yields, ends)

  -- With every position at or below the cut and no live stream, persist_and_emit is a backfill
  -- through the block writer alone: it yields the same events and leaves the same writer.
  pub persist_and_emit_bounded :
      (db : b.Db) (rec : b.Rec) (depth cut : ℕ) (seed : Option b.P) (events : List (b.P × b.E))
      → AllSettle cut events
      → ((persist_and_emit b db rec depth (some cut) seed events []).0
          ≡ (backfill b db rec seed events).0)
        × ((persist_and_emit b db rec depth (some cut) seed events []).1.settled
            ≡ (backfill b db rec seed events).1)
  unfolding persist_and_emit backfill start_writers hand_over live_loop
  persist_and_emit_bounded db rec depth cut seed events h =
      let (yields, ends) =
        settle-feed cut events (start_writers b db rec depth (some cut) seed) h in
      (append-nil _ ∙ yields, ap (finish b) ends)
