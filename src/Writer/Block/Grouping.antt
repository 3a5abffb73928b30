-- ===== src/Writer/Block/Grouping.antt =====
-- A whole backfill through `BlockWriter` (src/persistence/writer/block.rs): `record` on every event
-- of the range, and `finish`.
use mathlib.Core.List.{append_assoc, append-nil}
use artemis_light.Prelude.{
  ℕ, ◌≡◌, refl, sym, ap, ◌∙◌, Bool, true, false, Option, none, some, List, [], ◌∷◌, ◌++◌,
  if◌then◌else◌,
}
use artemis_light.Position.{halt}
use artemis_light.Writer.Log.{flat, Ascending, Ascending-append}
use artemis_light.Writer.Block.Steps.{record_event_delivers}
use artemis_light.Writer.Core.{
  Backend, IsFaithful, GapFreeWriter, core_new, flush, Flushed, flush-Flushed,
}
use artemis_light.Writer.Block.{BlockWriter, new, record_event, finish, finished, finish_current}
use artemis_light.Writer.Block.Invariant.{Held}
use artemis_light.Writer.Block.Kept.{flat_close}
use artemis_light.Writer.Block.Feed.{rows_of, feed, backfill, feed-Held}

module _ (b : Backend) (f : IsFaithful b) where
  -- The writer `w` has added to `base` groups of strictly rising keys, whose rows are a prefix of
  -- `rows`, and all of them if it has not halted.
  pub record IsPrefix (base : List (b.P × List b.Row)) (rows : List (ℕ × b.Row)) (w : BlockWriter b)
      : Type 0 where
    pub log : List (b.P × List b.Row)
    pub rest : List (ℕ × b.Row)
    pub stored : f.stored w.core.store ≡ base ++ log
    pub ascending : Ascending b.pos log
    pub split : flat b.pos log ++ rest ≡ rows
    pub complete : w.core.healthy ≡ true → rest ≡ []

  finished-IsPrefix :
      (base : List (b.P × List b.Row)) (rows : List (ℕ × b.Row)) (c : b.P) (w : BlockWriter b)
      (ok : Bool) (core : GapFreeWriter b)
      → Held b f base rows w
      → w.core.healthy ≡ true
      → w.current ≡ some c
      → Flushed b f c w.buffer w.core ok core
      → IsPrefix base rows (finished b c (ok, core) w)
  unfolding finished
  finished-IsPrefix base rows c w false core h up cur fl = record {
    log = h.log;
    rest = h.rest;
    stored = (fl.on_err refl).1 ∙ h.stored;
    ascending = h.ascending;
    split = h.split;
    complete = λ e. cc (e, (fl.on_err refl).0);
  }
  finished-IsPrefix base rows c w true core h up cur fl = record {
    log = h.log ++ (c, w.buffer) ∷ [];
    rest = [];
    stored =
        (fl.on_ok refl).1
        ∙ (ap (λ x. x ++ (c, w.buffer) ∷ []) h.stored ∙ append_assoc base h.log _);
    ascending = Ascending-append b.pos h.log c w.buffer h.ascending ((h.group up).busy c cur).0;
    split =
        append-nil (flat b.pos (h.log ++ (c, w.buffer) ∷ []))
        ∙ flat_close b f base rows w h c ((h.group up).busy c cur).1;
    complete = λ _. refl;
  }

  finish-IsPrefix :
      (base : List (b.P × List b.Row)) (rows : List (ℕ × b.Row)) (w : BlockWriter b)
      → Held b f base rows w
      → IsPrefix base rows (finish b w)
  unfolding finish
  finish-IsPrefix base rows w h = branch w.core.healthy refl
    where
      kept : (w.core.healthy ≡ true → h.rest ≡ []) → IsPrefix base rows w
      kept g = record {
        log = h.log;
        rest = h.rest;
        stored = h.stored;
        ascending = h.ascending;
        split = h.split;
        complete = g;
      }

      current :
          (w.core.healthy ≡ true)
          → (o : Option b.P) → w.current ≡ o
          → IsPrefix base rows (finish_current b o w)
      current up none e = kept (λ _. ((h.group up).idle e).1)
      current up (some c) e =
          finished-IsPrefix base rows c w (flush b c w.buffer w.core).0
            (flush b c w.buffer w.core).1 h up e
            (flush-Flushed b f c w.buffer w.core ((h.group up).busy c e).2)

      branch :
          (x : Bool)
          → w.core.healthy ≡ x
          → IsPrefix base rows (if x then finish_current b w.current w else w)
      branch true up = current up w.current refl
      branch false down = kept (λ up. cc)

  pub backfill-IsPrefix :
      (db : b.Db) (rec : b.Rec) (seed : Option b.P) (events : List (b.P × b.E))
      → IsPrefix
          (f.stored db)
          (rows_of b (backfill b db rec seed events).0 rec)
          (backfill b db rec seed events).1
  unfolding backfill flat
  backfill-IsPrefix db rec seed events =
      finish-IsPrefix (f.stored db) _ _
        (feed-Held b f (f.stored db) events [] (new b (core_new b db rec) seed) fresh)
    where
      fresh : Held b f (f.stored db) [] (new b (core_new b db rec) seed)
      fresh = record {
        log = [];
        rest = [];
        stored = sym (append-nil (f.stored db));
        ascending = tt;
        split = refl;
        group = λ _. record { idle = λ _. (refl, refl, refl); busy = λ c e. cc };
      }

  feed_delivers :
      (events : List (b.P × b.E)) (w : BlockWriter b)
      → b.pos.reobservation ≡ halt
      → (feed b events w).0 ≡ events
  unfolding feed
  feed_delivers [] w h = refl
  feed_delivers ((p, e) ∷ events) w h =
      rw (record_event_delivers b f p e w h, feed_delivers events (record_event b p e w).1 h) refl

  -- On a source whose re-observations halt, a backfill delivers every event, whether or not it is
  -- persisted.
  pub backfill_delivers :
      (db : b.Db) (rec : b.Rec) (seed : Option b.P) (events : List (b.P × b.E))
      → b.pos.reobservation ≡ halt
      → (backfill b db rec seed events).0 ≡ events
  unfolding backfill
  backfill_delivers db rec seed events h = feed_delivers events (new b (core_new b db rec) seed) h
