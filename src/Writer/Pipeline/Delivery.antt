-- ===== src/Writer/Pipeline/Delivery.antt =====
-- What the stream of `persist_and_emit` (src/persistence/writer/mod.rs) yields.
use artemis_light.Prelude.{
  ℕ, ◌≡◌, refl, ap, ◌∙◌, ◌⊎◌, inl, inr, Bool, true, false, Option, List, [], ◌∷◌, ◌++◌,
  if◌then◌else◌,
}
use artemis_light.Writer.Block.Steps.{record_event_delivers}
use artemis_light.Position.{halt}
use artemis_light.Writer.Core.{Backend, IsFaithful, encode}
use artemis_light.Writer.Window.{
  ConfirmationWindow, halt_window, record_live, below_head, seeded_row, record_seeded, retract,
}
use artemis_light.Writer.Window.Tail.{Indexed, event, retraction}
use artemis_light.Writer.Pipeline.{
  Writers, persist_and_emit, backfill_loop, settle, live_loop, settles, hold, start_writers,
  hand_over,
}

module _ (b : Backend) where
  -- Some of the events of the live items, in their order.
  unfoldable pub Thinned : List (b.P × b.E) → List (Indexed b) → Type 0
  Thinned events [] = events ≡ []
  Thinned events (event p e ∷ items) =
      Thinned events items
      ⊎ ((rest : List (b.P × b.E)) × (events ≡ (p, e) ∷ rest) × Thinned rest items)
  Thinned events (retraction p ∷ items) = Thinned events items

  live_loop-Thinned :
      (items : List (Indexed b)) (w : ConfirmationWindow b) → Thinned (live_loop b items w).0 items
  unfolding live_loop Thinned
  live_loop-Thinned [] w = refl
  live_loop-Thinned (retraction p ∷ items) w = live_loop-Thinned items (retract b p w)
  live_loop-Thinned (event p e ∷ items) w =
      go (record_live b p e w).0 (live_loop-Thinned items (record_live b p e w).1)
    where
      go :
          (d : Bool)
          → Thinned (live_loop b items (record_live b p e w).1).0 items
          → Thinned
              (if d
                then (p, e) ∷ (live_loop b items (record_live b p e w).1).0
                else (live_loop b items (record_live b p e w).1).0)
              (event p e ∷ items)
      go true h = inr (_, refl, h)
      go false h = inl h

module _ (b : Backend) (f : IsFaithful b) (halts : b.pos.reobservation ≡ halt) where
  record_seeded_delivers :
      (p : b.P) (e : b.E) (w : ConfirmationWindow b) → (record_seeded b p e w).0 ≡ true
  unfolding record_seeded
  record_seeded_delivers p e w = rw halts (
      go w.core.healthy (below_head b w.head (b.pos.sort_key p)) (halt_window b w)
        (seeded_row b p (encode b e w.core) w))
    where
      go :
          (x z : Bool) (v u : ConfirmationWindow b)
          → (if◌then◌else◌ {A = Bool × ConfirmationWindow b} x
              (if z then (true, v) else (true, u))
              (true, w)).0
            ≡ true
      go true true v u = refl
      go true false v u = refl
      go false z v u = refl

  next_delivers :
      (x : Bool) (p : b.P) (e : b.E) (ws : Writers b)
      → (if◌then◌else◌ {A = Bool × Writers b} x (settle b p e ws) (hold b p e ws)).0 ≡ true
  unfolding settle hold
  next_delivers true p e ws = record_event_delivers b f p e ws.settled halts
  next_delivers false p e ws = record_seeded_delivers p e ws.window

  backfill_loop_delivers :
      (cut : Option ℕ) (events : List (b.P × b.E)) (ws : Writers b)
      → (backfill_loop b cut events ws).0 ≡ events
  unfolding backfill_loop
  backfill_loop_delivers cut [] ws = refl
  backfill_loop_delivers cut ((p, e) ∷ events) ws =
      let next : Bool × Writers b = if settles b cut p then settle b p e ws else hold b p e ws in
      ap
        (λ d.
          if d
          then (p, e) ∷ (backfill_loop b cut events next.1).0
          else (backfill_loop b cut events next.1).0)
        (next_delivers (settles b cut p) p e ws)
      ∙ ap (λ l. (p, e) ∷ l) (backfill_loop_delivers cut events next.1)

  -- On a source whose re-observations halt, the stream yields every event of the backfill first,
  -- whatever the cut is and whatever fails to be stored, and then only events of the live stream, in
  -- their order.
  pub persist_and_emit-Thinned :
      (db : b.Db) (rec : b.Rec) (depth : ℕ) (cut : Option ℕ) (seed : Option b.P)
      (events : List (b.P × b.E)) (live : List (Indexed b))
      → (second : List (b.P × b.E)) × ((persist_and_emit b db rec depth cut seed events live).0
          ≡ events ++ second)
        × Thinned b second live
  unfolding persist_and_emit
  persist_and_emit-Thinned db rec depth cut seed events live =
      let ws : Writers b = (backfill_loop b cut events (start_writers b db rec depth cut seed)).1 in
      let w : ConfirmationWindow b = (hand_over b ws).window in
      (
        (live_loop b live w).0,
        ap (λ l. l ++ (live_loop b live w).0)
            (backfill_loop_delivers cut events (start_writers b db rec depth cut seed)),
        live_loop-Thinned b live w,
      )
