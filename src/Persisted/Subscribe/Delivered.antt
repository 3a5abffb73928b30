-- ===== src/Persisted/Subscribe/Delivered.antt =====
-- What a subscriber of `Persisted` (src/persistence/persisted.rs) reads in either mode.
use artemis_light.Prelude.{ℕ, ◌≡◌, ◌≢◌, ◌⊎◌, none, List, [], ◌++◌, map}
use artemis_light.Record.Json.{Serde}
use artemis_light.Writer.Window.Tail.{Indexed}
use artemis_light.Writer.Pipeline.Delivery.{Thinned}
use artemis_light.Persisted.{effective_tip, backfill_from}
use artemis_light.Persisted.Chunks.{poisoned}
use artemis_light.Persisted.Chunks.Cover.{Covered}
use artemis_light.Persisted.Config.{Persisted}
use artemis_light.Persisted.Storage.{Storage, Collector, record_backend, ranged}
use artemis_light.Persisted.Subscribe.{Subscription}

module _ (j : Serde) (s : Storage j) (c : Collector s.P j.E (Indexed (record_backend j s)))
    (at : ℕ → List (s.P × j.E)) where
  -- The three parts of what is read, for the tip of the subscribe.
  pub record Read (p : Persisted) (sub : Subscription j s c) (events : List j.E) : Type 0 where
    pub tip : s.P
    pub second : List (s.P × j.E)
    pub parts : events ≡ sub.stored ++ map (λ e. e.1) (sub.gap.events ++ second)
    pub gap_covers :
        Covered
          (ranged j s c)
          at
          (backfill_from s.pos sub.last p.start_block)
          (effective_tip p.to_block (s.pos.sort_key tip))
          sub.gap
    pub then_live : Thinned (record_backend j s) second sub.live
    pub bounded_or_poisoned : (p.to_block ≢ none ⊎ sub.gap.end ≡ poisoned) → second ≡ []
