-- ===== src/Tests/Feeding.antt =====
-- Runs of the event collector and of the engine's tasks.
use artemis_light.Prelude.{
  ℕ, zero, suc, ◌+◌, ◌-◌, ◌*◌, ◌≡◌, refl, sym, ap, ◌∙◌, true, false, Option, none, some, List, [],
  ◌∷◌, ◌++◌, arith, ok, err, ◌==◌, if◌then◌else◌, Result,
}
use mathlib.Core.List.{Mem}
use artemis_light.Mempool.Node.{Rpc, reply, elapsed}
use artemis_light.Collectors.Combining.{failed, Source}
use artemis_light.Collectors.Lookups.{mempool_new, subscribe_transactions}
use artemis_light.Strategies.{Strategy}
use artemis_light.Collectors.Retries.{
  due, Fetched, found, missed, settle_results, record_fetch_failure, resolve,
}
use artemis_light.Collectors.Retries.Polling.{fetch_each, polling_stream, polling_stream-due}
use artemis_light.Persisted.Source.{events_from}
use artemis_light.Collectors.Logs.{
  Log, LogProvider, query_logs, logs_from, AnswersLogs, standing, event_ranged,
  query_logs-events_from,
}
use artemis_light.Engine.Tasks.{
  Signal, item, lagged, Drained, strategy_task, uncut, Begins, strategy_task-Begins,
}

-- Each block has one event that stands and one that was removed.
abbrev logs_at : ℕ → List (ℕ × Log)
logs_at k =
    (k, record { block_number = some k; removed = false })
    ∷ (k + 100, record { block_number = some k; removed = true })
    ∷ []

abbrev logs_of : ℕ → ℕ → List (ℕ × Log)
logs_of from zero = []
logs_of from (suc n) = logs_at from ++ logs_of (suc from) n

abbrev log_node : LogProvider
log_node = record {
  E = ℕ;
  State = Unit;
  Failure = List ℕ;
  text = λ e. e;
  subscribe = λ s. (ok [], s);
  watch = λ s. (ok [], s);
  query = λ from to s. (ok (logs_of from (suc to - from)), s);
  get_block_number = λ s. (ok 12, s);
}

logs_of-logs_from : (from n : ℕ) → logs_of from n ≡ logs_from log_node logs_at from n
logs_of-logs_from from zero = refl
logs_of-logs_from from (suc n) = ap (λ l. logs_at from ++ l) (logs_of-logs_from (suc from) n)

of_answer :
    {a b : List (ℕ × Log)} → ◌≡◌ {A = Result (List ℕ) (List (ℕ × Log))} (ok a) (ok b) → a ≡ b
of_answer e = cc

log_node-AnswersLogs : AnswersLogs log_node logs_at
log_node-AnswersLogs from to s logs le e =
    sym (of_answer e) ∙ logs_of-logs_from from (suc to - from)

query_logs-events_from_example :
    (10, 10) ∷ (11, 11) ∷ []
    ≡ events_from (event_ranged log_node) (λ k. standing log_node (logs_at k)) 10 2
unfolding query_logs
query_logs-events_from_example =
    query_logs-events_from log_node logs_at log_node-AnswersLogs 10 11 tt ((10, 10) ∷ (11, 11) ∷ [])
      (omega arith) refl

-- It answers an event e with the actions e, e + 1 and e + 2, and fails on 0.
abbrev three : ℕ → ℕ → Result (List ℕ) (List ℕ) × ℕ
three zero s = (err [], s)
three (suc e) s = (ok (suc e ∷ (suc e + 1) ∷ (suc e + 2) ∷ []), suc s)

abbrev triple : Strategy ℕ ℕ
triple = record { State = ℕ; Failure = List ℕ; sync_state = λ s. (none, s); process_event = three }

abbrev polled : List (Signal (Drained ℕ))
polled = item (10, none) ∷ lagged 3 ∷ item (0, none) ∷ item (20, some 2) ∷ item (30, none) ∷ []

sent_before_shutdown : (strategy_task triple polled 0).0 ≡ 10 ∷ 11 ∷ 12 ∷ 20 ∷ 21 ∷ []
unfolding strategy_task
sent_before_shutdown = refl

strategy_task-Begins_example :
    Begins triple (strategy_task triple polled 0).0 (strategy_task triple (uncut triple polled) 0).0
strategy_task-Begins_example = strategy_task-Begins triple polled 0

-- Block 4 is never found.
abbrev headers : ℕ → ℕ → Fetched × ℕ
headers hash s = (if hash == 4 then missed else found hash (hash * 10), suc s)

blocks_polled :
    (polling_stream headers ((3 ∷ 4 ∷ []) ∷ (5 ∷ []) ∷ [] ∷ (6 ∷ []) ∷ []) 0).0
    ≡ (3, 30) ∷ (5, 50) ∷ (6, 60) ∷ []
unfolding polling_stream record_fetch_failure resolve
blocks_polled = refl

polling_stream-due_example : Mem 4 (due (polling_stream headers ((3 ∷ 4 ∷ []) ∷ (5 ∷ []) ∷ []) 0).1)
unfolding fetch_each settle_results record_fetch_failure resolve
polling_stream-due_example =
    polling_stream-due headers ((3 ∷ 4 ∷ []) ∷ (5 ∷ []) ∷ []) 0 4 (refl, (refl, tt)) (omega arith)
      (omega arith)

-- Of three hashes one is unknown and one is late.
abbrev known : ℕ → ℕ → Rpc (Option ℕ)
known timeout hash =
    if hash == 1 then reply (some 10) else (if hash == 2 then reply none else elapsed)

abbrev no_pubsub : Source ℕ ℕ ℕ
no_pubsub w = (err (failed 7), suc w)

abbrev hash_batches : Source ℕ ℕ (List ℕ)
hash_batches w = (ok ((1 ∷ 2 ∷ []) ∷ (3 ∷ 1 ∷ []) ∷ []), w)

transactions_found :
    subscribe_transactions (λ n xs. xs) known mempool_new no_pubsub hash_batches 0
    ≡ (ok (10 ∷ 10 ∷ []), 1)
unfolding subscribe_transactions mathlib.Core.List.filter_map
transactions_found = refl
