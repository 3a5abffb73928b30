-- ===== src/Collectors/Lookups.antt =====
-- The collectors of src/collectors that pass on what a provider or a channel yields: log_collector.rs,
-- mempool_collector.rs, channel_collector.rs. The polled batches of a provider are lists of their items.
use mathlib.Core.List.{Perm}
use mathlib.Core.List
use artemis_light.Prelude.{ℕ, ◌≡◌, refl, Option, none, some, List, [], ◌∷◌, ok, err, Result}
use artemis_light.Mempool.Node.{Rpc, reply, rejected, elapsed}
use artemis_light.Collectors.Combining.{SourceError, Source, flatten, subscribe_or_poll}

module _ {World F A : Type 0} where
  abbrev pub stream_flattened :
      Result (SourceError F) (List (List A)) × World → Result (SourceError F) (List A) × World
  stream_flattened (ok batches, w) = (ok (flatten batches), w)
  stream_flattened (err e, w) = (err e, w)

  -- `LogCollector::subscribe`, by `subscribe_logs` and `watch_logs` of the provider.
  unfoldable pub subscribe_logs : Source World F A → Source World F (List A) → Source World F A
  unfolding subscribe_or_poll
  subscribe_logs subscribe watch = subscribe_or_poll subscribe (λ w. stream_flattened (watch w))

-- `ChannelCollector::subscribe`: what is missed by a lag is skipped, and there is no token.
unfoldable pub subscribe_channel : {T : Type 0} → List (Option T) → List T
subscribe_channel [] = []
subscribe_channel (some t ∷ received) = t ∷ subscribe_channel received
subscribe_channel (none ∷ received) = subscribe_channel received

pub record MempoolCollector : Type 0 where
  pub max_concurrent_lookups : ℕ
  pub rpc_timeout : ℕ

-- `MempoolCollector::new`: 16 lookups, and 10 seconds.
abbrev pub mempool_new : MempoolCollector
mempool_new = record { max_concurrent_lookups = 16; rpc_timeout = 10000000000 }

-- `with_max_concurrent_lookups`, of at least one, and `with_rpc_timeout`
abbrev pub with_max_concurrent_lookups : ℕ → MempoolCollector → MempoolCollector
with_max_concurrent_lookups max c = record c { max_concurrent_lookups = max }

abbrev pub with_rpc_timeout : ℕ → MempoolCollector → MempoolCollector
with_rpc_timeout timeout c = record c { rpc_timeout = timeout }

-- The transaction that a lookup came to, if it did: the node may not know it, refuse or be late.
abbrev pub looked_up : {T : Type 0} → Rpc (Option T) → Option T
looked_up (reply tx) = tx
looked_up rejected = none
looked_up elapsed = none

module _ {T : Type 0} (buffer_unordered : ℕ → List (Option T) → List (Option T))
    (get_transaction_by_hash : ℕ → ℕ → Rpc (Option T)) where
  -- The lookups in the order of the hashes; `get_transaction_by_hash` has the timeout first.
  abbrev pub lookups : MempoolCollector → List ℕ → List (Option T)
  lookups c hashes =
      List.map (λ hash. looked_up (get_transaction_by_hash c.rpc_timeout hash)) hashes

  module _ {World F : Type 0} where
    abbrev pub transactions_of :
        MempoolCollector
        → Result (SourceError F) (List ℕ) × World
        → Result (SourceError F) (List T) × World
    transactions_of c (ok hashes, w) = (
      ok (
          List.filter_map (λ tx. tx)
            (buffer_unordered c.max_concurrent_lookups (lookups c hashes))),
      w,
    )
    transactions_of c (err e, w) = (err e, w)

    -- `MempoolCollector::subscribe`
    unfoldable pub subscribe_transactions :
        MempoolCollector → Source World F ℕ → Source World F (List ℕ) → Source World F T
    unfolding subscribe_or_poll
    subscribe_transactions c subscribe watch w =
        transactions_of c (subscribe_or_poll subscribe (λ v. stream_flattened (watch v)) w)

    -- What a subscribe comes to: the source's refusal, or the transactions of the hashes.
    abbrev pub Delivers :
        MempoolCollector
        → Result (SourceError F) (List ℕ) × World
        → Result (SourceError F) (List T) × World
        → Type 0
    Delivers c (ok hashes, w) (ok txs, v) =
        (v ≡ w) × Perm txs (List.filter_map (λ tx. tx) (lookups c hashes))
    Delivers c (ok hashes, w) (err e, v) = ⊥
    Delivers c (err e, w) r = r ≡ (err e, w)

    -- Where running lookups side by side only changes their order, a mempool collector that finds a
    -- source of hashes delivers the transactions that the lookups of its hashes have found, each as
    -- often as it was announced, in some order; a failed lookup costs only its own transaction.
    pub subscribe_transactions-Delivers :
        ((n : ℕ) (xs : List (Option T)) → Perm (buffer_unordered n xs) xs)
        → (c : MempoolCollector) (subscribe : Source World F ℕ) (watch : Source World F (List ℕ))
          (w : World)
        → Delivers c
            (subscribe_or_poll subscribe (λ v. stream_flattened (watch v)) w)
            (subscribe_transactions c subscribe watch w)
    unfolding subscribe_transactions
    subscribe_transactions-Delivers h c subscribe watch w =
        go (subscribe_or_poll subscribe (λ v. stream_flattened (watch v)) w)
      where
        go : (r : Result (SourceError F) (List ℕ) × World) → Delivers c r (transactions_of c r)
        go (ok hashes, v) =
            (refl, List.Perm.filter_map (λ tx. tx) (h c.max_concurrent_lookups (lookups c hashes)))
        go (err e, v) = refl
