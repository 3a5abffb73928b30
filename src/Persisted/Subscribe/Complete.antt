-- ===== src/Persisted/Subscribe/Complete.antt =====
-- What a subscriber of `Persisted` (src/persistence/persisted.rs) reads: the snapshot of bounded mode
-- to its end, and the stored history once.
use artemis_light.Prelude.{ℕ, ◌≡◌, true, Option, List, [], ok, All}
use artemis_light.Record.{Record}
use artemis_light.Record.Json.{Serde}
use artemis_light.Writer.Window.Tail.{Indexed}
use artemis_light.Persisted.{replay_up_to}
use artemis_light.Persisted.Config.{Persisted}
use artemis_light.Persisted.Storage.{Storage, Collector, record_backend}
use artemis_light.Persisted.Replay.{replay_segment}
use artemis_light.Persisted.Subscribe.{World, Subscription, subscribe, consume}
use artemis_light.Persisted.Subscribe.Segments.{subscribe-Segmented}

module _ (j : Serde) (s : Storage j) where
  -- The events at a sort key have this key.
  abbrev pub IsKeyed : (ℕ → List (s.P × j.E)) → Type 0
  IsKeyed at = (q : ℕ) → All (λ e. s.pos.sort_key e.0 ≡ q) (at q)

module _ (j : Serde) (s : Storage j) (c : Collector s.P j.E (Indexed (record_backend j s))) where
  replays_nothing :
      (r : Record) (o : Option s.P) (db : s.Db) (es : List j.E)
      → (replay_segment j s true r o db).0 ≡ ok es
      → es ≡ []
  unfolding replay_segment
  replays_nothing r o db es h = cc

  -- A history is replayed once: after the stream of a subscribe has been read, a later subscribe of
  -- the same Persisted that succeeds replays nothing.
  pub replayed_once :
      (p : Persisted) (sub next : Subscription j s c) (db : s.Db) (w v : World j s c)
      → subscribe j s c (consume j s c p sub db).2 w ≡ (ok next, v)
      → next.stored ≡ []
  unfolding consume
  replayed_once p sub next db w v h =
      let segments = subscribe-Segmented j s c (consume j s c p sub db).2 w v next h in
      replays_nothing next.rec (replay_up_to s.pos p.to_block next.last) segments.replayed_at
        next.stored segments.replay_is
