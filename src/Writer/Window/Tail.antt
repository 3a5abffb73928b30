-- ===== src/Writer/Window/Tail.antt =====
-- A whole live tail through `ConfirmationWindow` (src/persistence/writer/window.rs): the items of a
-- live stream, each an event or a retraction (`Indexed` of src/persistence/persisted.rs).
use artemis_light.Prelude.{
  ℕ, ◌≤◌, ◌≡◌, refl, sym, ap, ◌∙◌, Bool, true, false, not, ◌&&◌, Option, none, some, List, [], ◌∷◌,
  arith, if◌then◌else◌, le→leb,
}
use mathlib.Core.List.{append-nil}
use artemis_light.Position.{halt}
use artemis_light.Writer.Core.{Backend, IsFaithful, core_new, encode}
use artemis_light.Writer.Window.{
  ConfirmationWindow, reaches, seed_key, window_new, halt_window, is_covered, record_live, retract,
  live_row, is_dedupe,
}
use artemis_light.Writer.Window.Flush.{Bounded, Later, Floor, IsLive}
use artemis_light.Writer.Window.Live.{record_live-IsLive, retract-IsLive}

-- `Indexed`
pub data Indexed (b : Backend) : Type 0 where
  event : b.P → b.E → Indexed b
  retraction : b.P → Indexed b

module _ (b : Backend) where
  -- One item of the live stream, as `persist_and_emit` takes it; the deliveries are left out.
  follow_item : Indexed b → ConfirmationWindow b → ConfirmationWindow b
  follow_item (event p e) w = (record_live b p e w).1
  follow_item (retraction p) w = retract b p w

  pub follow : List (Indexed b) → ConfirmationWindow b → ConfirmationWindow b
  unfolding follow_item
  follow [] w = w
  follow (i ∷ items) w = follow items (follow_item i w)

-- A halted window does nothing.
module _ (b : Backend) where
  pub record_live_halted :
      (p : b.P) (e : b.E) (w : ConfirmationWindow b)
      → w.core.healthy ≡ false
      → record_live b p e w ≡ (true, w)
  unfolding record_live
  record_live_halted p e w h = rw h refl

  pub retract_halted :
      (p : b.P) (w : ConfirmationWindow b) → w.core.healthy ≡ false → retract b p w ≡ w
  unfolding retract
  retract_halted p w h = rw h refl

module _ (b : Backend) (f : IsFaithful b) (halts : b.pos.reobservation ≡ halt) where
  follow_item-IsLive :
      (base : List (b.P × List b.Row)) (resumed : Option ℕ) (i : Indexed b)
      (w : ConfirmationWindow b)
      → IsLive b f base resumed w
      → IsLive b f base resumed (follow_item b i w)
  unfolding follow_item
  follow_item-IsLive base resumed (event p e) w h =
      record_live-IsLive b f halts base resumed p e w h
  follow_item-IsLive base resumed (retraction p) w h = retract-IsLive b f halts base resumed p w h

  follow-IsLive :
      (base : List (b.P × List b.Row)) (resumed : Option ℕ) (items : List (Indexed b))
      (w : ConfirmationWindow b)
      → IsLive b f base resumed w
      → IsLive b f base resumed (follow b items w)
  unfolding follow
  follow-IsLive base resumed [] w h = h
  follow-IsLive base resumed (i ∷ items) w h =
      follow-IsLive base resumed items (follow_item b i w) (follow_item-IsLive base resumed i w h)

  Floor-refl : (resumed : Option ℕ) → Floor resumed resumed
  Floor-refl none = tt
  Floor-refl (some r) = omega arith

  Bounded-nil : (resumed : Option ℕ) → Bounded b resumed []
  Bounded-nil none = refl
  Bounded-nil (some r) = tt

  Later-nil : (resumed : Option ℕ) → Later b resumed []
  Later-nil none = tt
  Later-nil (some r) = tt

  -- Over a block source, whatever is observed and retracted, a window resumed at a seed adds to the
  -- store groups of strictly rising sort keys above the seed's, none twice; while it is healthy its
  -- pending groups rise strictly above all of them.
  pub tail-IsLive :
      (db : b.Db) (rec : b.Rec) (depth : ℕ) (seed : Option b.P) (items : List (Indexed b))
      → IsLive b f
          (f.stored db)
          (seed_key b seed)
          (follow b items (window_new b (core_new b db rec) depth seed))
  unfolding window_new
  tail-IsLive db rec depth seed items =
      follow-IsLive (f.stored db) (seed_key b seed) items
        (window_new b (core_new b db rec) depth seed)
        (record {
          log = [];
          stored = sym (append-nil (f.stored db));
          ascending = tt;
          bound = Bounded-nil (seed_key b seed);
          later = Later-nil (seed_key b seed);
          floor = Floor-refl (seed_key b seed);
          rising = λ _. tt;
          schema = λ _ n. absurd (n refl);
        })

  halted-follow :
      (items : List (Indexed b)) (w : ConfirmationWindow b)
      → w.core.healthy ≡ false
      → follow b items w ≡ w
  unfolding follow follow_item
  halted-follow [] w h = refl
  halted-follow (event p e ∷ items) w h =
      ap (λ r. follow b items r.1) (record_live_halted b p e w h) ∙ halted-follow items w h
  halted-follow (retraction p ∷ items) w h =
      ap (follow b items) (retract_halted b p w h) ∙ halted-follow items w h

  record_live_deep :
      (w : ConfirmationWindow b) (position : b.P) (e : b.E) (flushed : ℕ)
      → w.flushed ≡ some flushed
      → b.pos.sort_key position ≤ flushed
      → w.core.healthy ≡ true
      → record_live b position e w ≡ (true, halt_window b w)
  unfolding record_live
  record_live_deep w position e flushed q k up =
      branch w.core.healthy (is_dedupe b.pos.reobservation) w.flushed up (rw halts) q
    where
      branch :
          (x y : Bool) (o : Option ℕ)
          → x ≡ true
          → y ≡ false
          → o ≡ some flushed
          → (if x
              then (if y && is_covered b w position
                  then (false, w)
                  else if not y && reaches o (b.pos.sort_key position)
                  then (true, halt_window b w)
                  else live_row b position (encode b e w.core) w)
              else (true, w))
            ≡ (true, halt_window b w)
      branch false y o u v r = cc
      branch true true o u v r = cc
      branch true false none u v r = cc
      branch true false (some g) u v r =
          rw (le→leb (b.pos.sort_key position) g (ground (arith, r))) refl

  -- On a block source, a healthy window that observes an event at or below its flushed key freezes
  -- persistence for good: whatever follows, the store stays as it was and nothing is pending.
  pub deep_reorg_freezes :
      (w : ConfirmationWindow b) (position : b.P) (e : b.E) (flushed : ℕ) (items : List (Indexed b))
      → w.flushed ≡ some flushed
      → b.pos.sort_key position ≤ flushed
      → w.core.healthy ≡ true
      → follow b (event position e ∷ items) w ≡ halt_window b w
  unfolding follow follow_item halt_window
  deep_reorg_freezes w position e flushed items q k up =
      ap (λ r. follow b items r.1) (record_live_deep w position e flushed q k up)
      ∙ halted-follow items (halt_window b w) refl
