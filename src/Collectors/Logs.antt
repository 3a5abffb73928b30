-- ===== src/Collectors/Logs.antt =====
-- The event collector of src/collectors/event_collector.rs: live logs with their retractions, and the
-- logs of a range. The provider and the decoding of a log are alloy's, and a parameter.
use mathlib.Core.List.{append_assoc}
use artemis_light.Prelude.{
  ℕ, zero, suc, ◌-◌, ◌≤◌, ◌≡◌, refl, sym, ap, ◌∙◌, Bool, true, false, Option, none, some, List, [],
  ◌∷◌, ◌++◌, ok, err, Result,
}
use artemis_light.Position.Block.{block_position}
use artemis_light.Collectors.Combining.{Source, subscribe_or_poll}
use artemis_light.Collectors.Merging.{kept_onto, select_mapped, stream_mapped}
use artemis_light.Persisted.Source.{Ranged, events_from, AnswersFrom}

-- What is read of a log: its block number, if it has one, and whether it was removed.
pub record Log : Type 0 where
  pub block_number : Option ℕ
  pub removed : Bool

-- The calls of alloy for one contract event. A live item is a decoded event with its log, or a
-- failure to decode it.
pub record LogProvider : Type 1 where
  pub E : Type 0
  pub State : Type 0
  pub Failure : Type 0
  pub text : Failure → List ℕ
  pub subscribe : Source State Failure (Result (Unit {0}) (E × Log))
  pub watch : Source State Failure (Result (Unit {0}) (E × Log))
  pub query : ℕ → ℕ → State → Result Failure (List (E × Log)) × State
  pub get_block_number : State → Result Failure ℕ × State

-- `Indexed<BlockPosition, E>`
pub data LiveItem (E : Type 0) : Type 0 where
  live_event : ℕ → E → LiveItem E
  retracted : ℕ → LiveItem E

module _ {E : Type 0} where
  abbrev pub at_block : Option ℕ → Bool → E → Option (LiveItem E)
  at_block none removed e = none
  at_block (some block) true e = some (retracted block)
  at_block (some block) false e = some (live_event block e)

  -- `live_item`
  unfoldable pub live_item : E → Log → Option (LiveItem E)
  live_item e log = at_block log.block_number log.removed e

  abbrev pub historical : Option (LiveItem E) → Option (ℕ × E)
  historical none = none
  historical (some (live_event block e)) = some (block, e)
  historical (some (retracted block)) = none

  -- `indexed_event`
  unfoldable pub indexed_event : E → Log → Option (ℕ × E)
  unfolding live_item
  indexed_event e log = historical (live_item e log)

  abbrev pub of_decoded : Result (Unit {0}) (E × Log) → Option (LiveItem E)
  of_decoded (ok (e, log)) = live_item e log
  of_decoded (err _) = none

  abbrev pub event_of : LiveItem E → Option E
  event_of (live_event block e) = some e
  event_of (retracted block) = none

module _ (p : LogProvider) where
  -- `EventCollector::raw_stream`
  abbrev pub raw_stream : Source p.State p.Failure (Result (Unit {0}) (p.E × Log))
  raw_stream = subscribe_or_poll p.subscribe p.watch

  -- `EventCollector::indexed_stream`, which is also `subscribe_indexed`
  unfoldable pub indexed_stream : Source p.State p.Failure (LiveItem p.E)
  unfolding live_item subscribe_or_poll
  indexed_stream s = stream_mapped of_decoded (raw_stream s)

  -- `EventCollector::subscribe`
  unfoldable pub subscribe_events : Source p.State p.Failure p.E
  unfolding indexed_stream
  subscribe_events s = stream_mapped event_of (indexed_stream s)

  abbrev pub of_query :
      Result p.Failure (List (p.E × Log)) × p.State → Result p.Failure (List (ℕ × p.E)) × p.State
  of_query (ok logs, s) = (ok (select_mapped (λ l. indexed_event l.0 l.1) logs), s)
  of_query (err e, s) = (err e, s)

  -- `EventCollector::query_range`
  unfoldable pub query_logs : ℕ → ℕ → p.State → Result p.Failure (List (ℕ × p.E)) × p.State
  unfolding indexed_event
  query_logs from to s = of_query (p.query from to s)

  -- The collector as a source of ranges of blocks.
  abbrev pub event_ranged : Ranged
  event_ranged = record {
    P = ℕ;
    E = p.E;
    State = p.State;
    Failure = p.Failure;
    pos = block_position;
    text = p.text;
    query_range = query_logs;
  }

  -- The logs of `n` blocks from `from` on.
  abbrev pub logs_from : (ℕ → List (p.E × Log)) → ℕ → ℕ → List (p.E × Log)
  logs_from at from zero = []
  logs_from at from (suc n) = at from ++ logs_from at (suc from) n

  -- A node that answers a query of a range answers with the logs of each of its blocks in turn.
  abbrev pub AnswersLogs : (ℕ → List (p.E × Log)) → Type 0
  AnswersLogs at =
      (from to : ℕ) (s : p.State) (logs : List (p.E × Log))
      → from ≤ to
      → (p.query from to s).0 ≡ ok logs
      → logs ≡ logs_from at from (suc to - from)

  -- An event that counts: at its block, if it has one, unless it was removed.
  abbrev pub stood : Option ℕ → Bool → p.E → List (ℕ × p.E)
  stood none removed e = []
  stood (some block) true e = []
  stood (some block) false e = (block, e) ∷ []

  -- The events of these logs that have a block number and were not removed.
  abbrev pub standing : List (p.E × Log) → List (ℕ × p.E)
  standing [] = []
  standing ((e, log) ∷ logs) = stood log.block_number log.removed e ++ standing logs

  kept-stood :
      (block : Option ℕ) (removed : Bool) (e : p.E) (rest : List (ℕ × p.E))
      → kept_onto (historical (at_block block removed e)) rest ≡ stood block removed e ++ rest
  kept-stood none removed e rest = refl
  kept-stood (some block) true e rest = refl
  kept-stood (some block) false e rest = refl

  queried-standing :
      (logs : List (p.E × Log)) → select_mapped (λ l. indexed_event l.0 l.1) logs ≡ standing logs
  unfolding indexed_event
  queried-standing [] = refl
  queried-standing ((e, log) ∷ logs) =
      kept-stood log.block_number log.removed e _
      ∙ ap (λ rest. stood log.block_number log.removed e ++ rest) (queried-standing logs)

  standing-append : (xs ys : List (p.E × Log)) → standing (xs ++ ys) ≡ standing xs ++ standing ys
  standing-append [] ys = refl
  standing-append ((e, log) ∷ xs) ys =
      ap (λ rest. stood log.block_number log.removed e ++ rest) (standing-append xs ys)
      ∙ sym (append_assoc (stood log.block_number log.removed e) _ _)

  standing-logs_from :
      (at : ℕ → List (p.E × Log)) (from n : ℕ)
      → standing (logs_from at from n) ≡ events_from event_ranged (λ k. standing (at k)) from n
  standing-logs_from at from zero = refl
  standing-logs_from at from (suc n) =
      standing-append (at from) (logs_from at (suc from) n)
      ∙ ap (λ es. standing (at from) ++ es) (standing-logs_from at (suc from) n)

  of_ok : {a b : List (ℕ × p.E)} → ◌≡◌ {A = Result p.Failure (List (ℕ × p.E))} (ok a) (ok b) → a ≡ b
  of_ok e = cc

  query-ok :
      (r : Result p.Failure (List (p.E × Log))) (s : p.State) (events : List (ℕ × p.E))
      → (of_query (r, s)).0 ≡ ok events
      → (logs : List (p.E × Log)) × (r ≡ ok logs) × (standing logs ≡ events)
  query-ok (ok logs) s events e = (logs, refl, sym (queried-standing logs) ∙ of_ok e)
  query-ok (err f) s events e = cc

  -- Over a node that answers a range with the logs of its blocks in turn, an event collector that
  -- answers a range answers it with its history: of each block in turn, in the order of its logs, the
  -- events of those that have a block number and were not removed.
  pub query_logs-events_from :
      (at : ℕ → List (p.E × Log))
      → AnswersLogs at
      → (from to : ℕ) (s : p.State) (events : List (ℕ × p.E)) → from ≤ to
      → (query_logs from to s).0 ≡ ok events
      → events ≡ events_from event_ranged (λ k. standing (at k)) from (suc to - from)
  unfolding query_logs block_position
  query_logs-events_from at h from to s events le e =
      let (logs, answered, same) = query-ok (p.query from to s).0 (p.query from to s).1 events e in
      sym same
      ∙ ap standing (h from to s logs le answered)
      ∙ standing-logs_from at from (suc to - from)

  -- So it meets what the backfill asks of a source.
  pub event_collector-AnswersFrom :
      (at : ℕ → List (p.E × Log)) → AnswersLogs at → AnswersFrom event_ranged (λ k. standing (at k))
  unfolding query_logs block_position
  event_collector-AnswersFrom at h from to s events le e =
      query_logs-events_from at h from to s events le e
