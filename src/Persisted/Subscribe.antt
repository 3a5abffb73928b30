-- ===== src/Persisted/Subscribe.antt =====
-- `Persisted::subscribe` of src/persistence/persisted.rs, and what a subscriber reads of its stream.
pub mod Steps
pub mod Segments
pub mod Complete
pub mod Delivered
use artemis_light.Prelude.{ℕ, Bool, true, Option, none, some, List, [], ◌++◌, map, ok, err, Result}
use artemis_light.Schema.{pos}
use artemis_light.Record.{Record}
use artemis_light.Record.Json.{Serde}
use artemis_light.Writer.Pipeline.{Writers, persist_and_emit}
use artemis_light.Writer.Window.Tail.{Indexed}
use artemis_light.Persisted.{effective_tip, final_cut, replay_up_to, backfill_from}
use artemis_light.Persisted.Chunks.{End, exhausted, poisoned, running, Windows, backfill_segment}
use artemis_light.Persisted.Config.{Persisted, ResolveError, resolve_record}
use artemis_light.Persisted.Storage.{Storage, Collector, record_backend, ranged}
use artemis_light.Persisted.Replay.{ReplayError, replay_segment}
use artemis_light.Persisted.Subscribe.Steps.{Step, return_, ◌>>=◌}

pub data SubscribeError (StoreFailure Failure : Type 0) : Type 0 where
  unresolved : ResolveError → SubscribeError StoreFailure Failure
  replay_failed : ReplayError StoreFailure → SubscribeError StoreFailure Failure
  position_failed : StoreFailure → SubscribeError StoreFailure Failure
  collector_failed : Failure → SubscribeError StoreFailure Failure

module _ (j : Serde) (s : Storage j) (c : Collector s.P j.E (Indexed (record_backend j s))) where
  abbrev pub Error : Type 0
  Error = SubscribeError s.Failure c.Failure

  -- The states of the store and of the collector.
  abbrev pub World : Type 0
  World = s.Db × c.State

  -- The segments that a subscribe returns: the stored history, the gap in windows, the live stream
  -- and what the writers start from.
  pub record Subscription : Type 0 where
    pub rec : Record
    pub stored : List j.E
    pub gap : Windows (ranged j s c)
    pub live : List (Indexed (record_backend j s))
    pub cut : Option ℕ
    pub last : Option s.P

  -- What one call of the collector, of the store and of neither makes of the world.
  of_collector : {A : Type 0} → s.Db → Result c.Failure A × c.State → Result Error A × World
  of_collector db (ok a, n) = (ok a, (db, n))
  of_collector db (err e, n) = (err (collector_failed e), (db, n))

  on_collector : {A : Type 0} → (c.State → Result c.Failure A × c.State) → Step World Error A
  unfolding of_collector
  on_collector f (db, net) = of_collector db (f net)

  of_position : c.State → Result s.Failure (Option s.P) × s.Db → Result Error (Option s.P) × World
  of_position net (ok a, d) = (ok a, (d, net))
  of_position net (err e, d) = (err (position_failed e), (d, net))

  stored_position_of : Record → Step World Error (Option s.P)
  unfolding of_position
  stored_position_of r (db, net) = of_position net (s.stored_position r.table db)

  of_replay :
      c.State → Result (ReplayError s.Failure) (List j.E) × s.Db → Result Error (List j.E) × World
  of_replay net (ok a, d) = (ok a, (d, net))
  of_replay net (err e, d) = (err (replay_failed e), (d, net))

  replay_of : Bool → Record → Option s.P → Step World Error (List j.E)
  unfolding of_replay
  replay_of replayed r up_to (db, net) = of_replay net (replay_segment j s replayed r up_to db)

  of_gap :
      s.Db
      → Result (c.Failure × c.State) (Windows (ranged j s c))
      → Result Error (Windows (ranged j s c)) × World
  of_gap db (ok w) = (ok w, (db, w.state))
  of_gap db (err (e, n)) = (err (collector_failed e), (db, n))

  -- The windows are read to their end here, since no call of the store depends on them.
  gap_of : ℕ → ℕ → ℕ → Step World Error (Windows (ranged j s c))
  unfolding of_gap
  gap_of from to chunk (db, net) = of_gap db (backfill_segment (ranged j s c) from to chunk net)

  resolved : Result ResolveError Record → Step World Error Record
  resolved (ok r) w = (ok r, w)
  resolved (err e) w = (err (unresolved e), w)

  live_source : Option ℕ → Step World Error (List (Indexed (record_backend j s)))
  unfolding on_collector
  live_source none w = on_collector c.subscribe_indexed w
  live_source (some cap) w = (ok [], w)

  -- The live stream ends at once where `poison` has been cancelled.
  until_poisoned : End → List (Indexed (record_backend j s)) → List (Indexed (record_backend j s))
  until_poisoned exhausted items = items
  until_poisoned poisoned items = []
  until_poisoned running items = items

  -- `Persisted::subscribe`
  unfoldable pub subscribe : Persisted → Step World Error Subscription
  unfolding resolved live_source on_collector stored_position_of replay_of gap_of until_poisoned
  subscribe p = do
    r ← resolved (resolve_record p.schema p.table)
    items ← live_source p.to_block
    tip ← on_collector c.tip
    last ← stored_position_of r
    stored ← replay_of p.replayed r (replay_up_to s.pos p.to_block last)
    gap ←
        gap_of (backfill_from s.pos last p.start_block)
          (effective_tip p.to_block (s.pos.sort_key tip)) p.backfill_chunk_size
    return_ (record {
      rec = r;
      stored = stored;
      gap = gap;
      live = until_poisoned gap.end items;
      cut = final_cut p.to_block (s.pos.sort_key tip) p.confirmation_depth;
      last = last;
    })

  -- `Segments::into_stream`, read to its end: the events in the order of their delivery, the writers,
  -- and the `Persisted` with its history marked as replayed by the first poll.
  unfoldable pub consume :
      Persisted → Subscription → s.Db → List j.E × Writers (record_backend j s) × Persisted
  consume p sub db =
      let (events, ws) =
        persist_and_emit (record_backend j s) db sub.rec p.confirmation_depth sub.cut sub.last
          sub.gap.events sub.live in
      (sub.stored ++ map (λ e. e.1) events, ws, record p { replayed = true })
