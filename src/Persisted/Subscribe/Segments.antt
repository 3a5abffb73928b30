-- ===== src/Persisted/Subscribe/Segments.antt =====
-- The segments that a successful `Persisted::subscribe` of src/persistence/persisted.rs returns.
use artemis_light.Prelude.{
  ℕ, ◌≡◌, refl, ap, subst, ◌≢◌, Bool, Option, none, some, List, [], ok, err, Result,
}
use artemis_light.Record.{Record}
use artemis_light.Record.Json.{Serde}
use artemis_light.Writer.Window.Tail.{Indexed}
use artemis_light.Persisted.{effective_tip, final_cut, replay_up_to, backfill_from}
use artemis_light.Persisted.Chunks.{End, exhausted, poisoned, running, Windows, backfill_segment}
use artemis_light.Persisted.Config.{Persisted, ResolveError, resolve_record}
use artemis_light.Persisted.Storage.{Storage, Collector, record_backend, ranged}
use artemis_light.Persisted.Replay.{ReplayError, replay_segment}
use artemis_light.Persisted.Subscribe.{
  World, Subscription, subscribe, live_source, on_collector, replay_of, resolved, until_poisoned,
  gap_of, of_gap, stored_position_of, of_replay, of_collector,
}
use artemis_light.Persisted.Subscribe.Steps.{bound-ok, return_-ok}

module _ (j : Serde) (s : Storage j) (c : Collector s.P j.E (Indexed (record_backend j s))) where
  -- What the segments are, for a tip that the collector gave and a position that the store gave.
  pub record Segmented (p : Persisted) (sub : Subscription j s c) : Type 0 where
    pub tip : s.P
    pub tip_at : c.State
    pub tip_is : (c.tip tip_at).0 ≡ ok tip
    pub asked_at : c.State
    pub replayed_at : s.Db
    pub resolved_to : resolve_record p.schema p.table ≡ ok sub.rec
    pub replay_is :
        (replay_segment j s p.replayed sub.rec
          (replay_up_to s.pos p.to_block sub.last)
          replayed_at).0
        ≡ ok sub.stored
    pub gap_is :
        backfill_segment
          (ranged j s c)
          (backfill_from s.pos sub.last p.start_block)
          (effective_tip p.to_block (s.pos.sort_key tip))
          p.backfill_chunk_size
          asked_at
        ≡ ok sub.gap
    pub cut_is : sub.cut ≡ final_cut p.to_block (s.pos.sort_key tip) p.confirmation_depth
    pub no_live : p.to_block ≢ none → sub.live ≡ []
    pub poisoned_live : sub.gap.end ≡ poisoned → sub.live ≡ []

  resolved-ok :
      (x : Result ResolveError Record) (w v : World j s c) (r : Record)
      → resolved j s c x w ≡ (ok r, v)
      → (x ≡ ok r) × (w ≡ v)
  unfolding resolved
  resolved-ok (ok a) w v r h = let same : a ≡ r = cc in (ap ok same, ap (λ x. x.1) h)
  resolved-ok (err e) w v r h = cc

  replay_of-ok :
      (b : Bool) (r : Record) (u : Option s.P) (w v : World j s c) (es : List j.E)
      → replay_of j s c b r u w ≡ (ok es, v)
      → (replay_segment j s b r u w.0).0 ≡ ok es
  unfolding replay_of of_replay
  replay_of-ok b r u (db, net) v es h = go (replay_segment j s b r u db) h
    where
      go :
          (x : Result (ReplayError s.Failure) (List j.E) × s.Db)
          → of_replay j s c net x ≡ (ok es, v)
          → x.0 ≡ ok es
      go (ok a, d) k = let same : a ≡ es = cc in ap ok same
      go (err e, d) k = cc

  on_collector-ok :
      (f : c.State → Result c.Failure s.P × c.State) (w v : World j s c) (a : s.P)
      → on_collector j s c f w ≡ (ok a, v)
      → (f w.1).0 ≡ ok a
  unfolding on_collector of_collector
  on_collector-ok f (db, net) v a h = go (f net) h
    where
      go : (x : Result c.Failure s.P × c.State) → of_collector j s c db x ≡ (ok a, v) → x.0 ≡ ok a
      go (ok t, n) k = let same : t ≡ a = cc in ap ok same
      go (err e, n) k = cc

  gap_of-ok :
      (from to chunk : ℕ) (w v : World j s c) (g : Windows (ranged j s c))
      → gap_of j s c from to chunk w ≡ (ok g, v)
      → backfill_segment (ranged j s c) from to chunk w.1 ≡ ok g
  unfolding gap_of of_gap
  gap_of-ok from to chunk (db, net) v g h = go (backfill_segment (ranged j s c) from to chunk net) h
    where
      go :
          (x : Result (c.Failure × c.State) (Windows (ranged j s c)))
          → of_gap j s c db x ≡ (ok g, v)
          → x ≡ ok g
      go (ok a) k = let same : a ≡ g = cc in ap ok same
      go (err (e, n)) k = cc

  live_source-bounded :
      (o : Option ℕ) (w v : World j s c) (items : List (Indexed (record_backend j s)))
      → live_source j s c o w ≡ (ok items, v)
      → o ≢ none
      → items ≡ []
  unfolding live_source
  live_source-bounded none w v items h n = absurd (n refl)
  live_source-bounded (some cap) w v items h n = cc

  until_poisoned-poisoned :
      (e : End) (items : List (Indexed (record_backend j s)))
      → e ≡ poisoned
      → until_poisoned j s c e items ≡ []
  unfolding until_poisoned
  until_poisoned-poisoned exhausted items h = cc
  until_poisoned-poisoned poisoned items h = refl
  until_poisoned-poisoned running items h = cc

  until_poisoned-nil :
      (e : End) (items : List (Indexed (record_backend j s)))
      → items ≡ []
      → until_poisoned j s c e items ≡ []
  unfolding until_poisoned
  until_poisoned-nil exhausted items h = h
  until_poisoned-nil poisoned items h = refl
  until_poisoned-nil running items h = h

  -- A subscribe that succeeds has the record of the configuration, replays what the history says up
  -- to the snapshot, has queried the gap from the resume key or the start block to the effective
  -- tip, and has no live stream in bounded mode or after a failed window.
  pub subscribe-Segmented :
      (p : Persisted) (w v : World j s c) (sub : Subscription j s c)
      → subscribe j s c p w ≡ (ok sub, v)
      → Segmented p sub
  unfolding subscribe
  subscribe-Segmented p w v sub h =
      let (r, w1, q1, h1) =
        bound-ok (resolved j s c (resolve_record p.schema p.table) w) _ sub v h in
      let (items, w2, q2, h2) = bound-ok (live_source j s c p.to_block w1) _ sub v h1 in
      let (tip, w3, q3, h3) = bound-ok (on_collector j s c c.tip w2) _ sub v h2 in
      let (last, w4, q4, h4) = bound-ok (stored_position_of j s c r w3) _ sub v h3 in
      let (stored, w5, q5, h5) =
        bound-ok (replay_of j s c p.replayed r (replay_up_to s.pos p.to_block last) w4) _ sub v
          h4 in
      let (gap, w6, q6, h6) =
        bound-ok
          (gap_of j s c (backfill_from s.pos last p.start_block)
            (effective_tip p.to_block (s.pos.sort_key tip)) p.backfill_chunk_size w5)
          _ sub v h5 in
      let same : made p r stored gap items tip last ≡ sub = return_-ok _ sub w6 v h6 in
      subst (Segmented p) same (record {
        tip = tip;
        tip_at = w2.1;
        tip_is = on_collector-ok c.tip w2 w3 tip q3;
        asked_at = w5.1;
        replayed_at = w4.0;
        resolved_to = (resolved-ok (resolve_record p.schema p.table) w w1 r q1).0;
        replay_is = replay_of-ok p.replayed r (replay_up_to s.pos p.to_block last) w4 w5 stored q5;
        gap_is =
            gap_of-ok (backfill_from s.pos last p.start_block)
              (effective_tip p.to_block (s.pos.sort_key tip)) p.backfill_chunk_size w5 w6 gap q6;
        cut_is = refl;
        no_live =
            λ n. until_poisoned-nil gap.end items (live_source-bounded p.to_block w1 w2 items q2 n);
        poisoned_live = λ e. until_poisoned-poisoned gap.end items e;
      })
    where
      made :
          Persisted
          → Record
          → List j.E
          → Windows (ranged j s c)
          → List (Indexed (record_backend j s))
          → s.P
          → Option s.P
          → Subscription j s c
      made p r stored gap items tip last = record {
        rec = r;
        stored = stored;
        gap = gap;
        live = until_poisoned j s c gap.end items;
        cut = final_cut p.to_block (s.pos.sort_key tip) p.confirmation_depth;
        last = last;
      }
