-- ===== src/Tests/Subscribing.antt =====
-- A whole bounded subscribe over a store that keeps its groups in a list and a chain of single events.
use artemis_light.Prelude.{
  ℕ, zero, suc, ◌+◌, ◌-◌, ◌≡◌, refl, Bool, true, Option, none, some, List, [], ◌∷◌, ◌++◌, map, ok,
  leb, if◌then◌else◌, codes,
}
use artemis_light.Persisted.Split.{query_range_split}
use artemis_light.Position.Block.{block_position}
use artemis_light.Schema.{pos, integer_value, text_value, Row}
use artemis_light.Record.{inferred}
use artemis_light.Writer.Window.Tail.{Indexed}
use artemis_light.Persisted.{effective_tip, final_cut, replay_up_to, backfill_from}
use artemis_light.Persisted.Chunks.{exhausted, windows, chunked_query, backfill_segment}
use artemis_light.Persisted.Config.{
  Persisted, persisted_new, with_to_block, with_table, resolve_record,
}
use artemis_light.Persisted.Storage.{Storage, Collector, record_backend}
use artemis_light.Persisted.Replay.{replay_segment}
use artemis_light.Persisted.Subscribe.{Subscription, subscribe, consume}
use artemis_light.Persisted.Subscribe.Complete.{replayed_once}
use artemis_light.Tests.Records.{amounts}

abbrev Groups : Type 0
Groups = List (ℕ × List (Row Bool))

abbrev last_group : Groups → Option ℕ
last_group [] = none
last_group ((p, rows) ∷ []) = some p
last_group ((p, rows) ∷ g ∷ db) = last_group (g ∷ db)

-- The last value of a row is its payload.
abbrev payload : Row Bool → Row Bool
payload [] = []
payload (v ∷ []) = v ∷ []
payload (v ∷ w ∷ row) = payload (w ∷ row)

abbrev payloads_to : ℕ → Groups → List (Row Bool)
payloads_to up_to [] = []
payloads_to up_to ((p, rows) ∷ db) =
    let later = payloads_to up_to db in if leb p up_to then map payload rows ++ later else later

abbrev memory : Storage amounts
memory = record {
  P = ℕ;
  Db = Groups;
  Failure = Unit;
  pos = block_position;
  same_row = λ a b. true;
  write = λ schema p rows db. (true, db ++ (p, rows) ∷ []);
  stored_position = λ table db. (ok (last_group db), db);
  replay = λ schema up_to db. (ok (payloads_to up_to db), db);
}

abbrev amount_at : ℕ → List (ℕ × ℕ)
amount_at p = (p, p + 100) ∷ []

abbrev amounts_from : ℕ → ℕ → List (ℕ × ℕ)
amounts_from from zero = []
amounts_from from (suc n) = amount_at from ++ amounts_from (suc from) n

abbrev chain : Collector ℕ ℕ (Indexed (record_backend amounts memory))
chain = record {
  State = Unit;
  Failure = List ℕ;
  text = λ e. e;
  subscribe_indexed = λ s. (ok [], s);
  query_range = λ from to s. (ok (amounts_from from (suc to - from)), s);
  tip = λ s. (ok 14, s);
}

-- Block 10 is stored, and the snapshot ends at block 13.
abbrev bounded : Persisted
bounded = with_to_block 13 (with_table (codes "t") persisted_new)

abbrev stored_10 : Groups
stored_10 = (10, (integer_value (pos 110) ∷ text_value (codes "110") ∷ []) ∷ []) ∷ []

abbrev first_read : Subscription amounts memory chain
first_read = record {
  rec = inferred (codes "t");
  stored = 110 ∷ [];
  gap = record { events = (11, 111) ∷ (12, 112) ∷ (13, 113) ∷ []; end = exhausted; state = tt };
  live = [];
  cut = some 13;
  last = some 10;
}

abbrev read_bounded : Persisted
read_bounded = record bounded { replayed = true }

abbrev second_read : Subscription amounts memory chain
second_read = record first_read { stored = [] }

subscribed_again :
    subscribe amounts memory chain
      (consume amounts memory chain bounded first_read stored_10).2
      (stored_10, tt)
    ≡ (ok second_read, (stored_10, tt))
unfolding consume subscribe resolve_record effective_tip final_cut replay_up_to backfill_from
    backfill_segment chunked_query windows query_range_split block_position replay_segment
subscribed_again = refl

replayed_once_example : second_read.stored ≡ []
replayed_once_example =
    replayed_once amounts memory chain bounded first_read second_read stored_10 (stored_10, tt)
      (stored_10, tt) subscribed_again
