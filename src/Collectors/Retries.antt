-- ===== src/Collectors/Retries.antt =====
-- `FetchRetryQueue` of src/collectors/block_collector.rs, and the poll loop that uses it. A block hash
-- is a number.
pub mod Streaks
pub mod Polling
use artemis_light.Prelude.{
  ℕ, suc, Bool, true, false, Option, none, some, List, [], ◌∷◌, ◌++◌, map, leb, ◌==◌, if◌then◌else◌,
}

pub record FetchRetryQueue : Type 0 where
  pub max_attempts : ℕ
  pub pending : List (ℕ × ℕ)

-- `FetchRetryQueue::new`
abbrev pub queue_new : ℕ → FetchRetryQueue
queue_new max_attempts = record { max_attempts = max_attempts; pending = [] }

-- `FetchRetryQueue::due`
abbrev pub due : FetchRetryQueue → List ℕ
due q = map (λ e. e.0) q.pending

-- `pending.retain(|(h, _)| *h != hash)`
retain_others : ℕ → List (ℕ × ℕ) → List (ℕ × ℕ)
retain_others hash [] = []
retain_others hash ((h, n) ∷ m) =
    let rest = retain_others hash m in if h == hash then rest else (h, n) ∷ rest

kept_before : ℕ × ℕ → Option (ℕ × List (ℕ × ℕ)) → Option (ℕ × List (ℕ × ℕ))
kept_before e none = none
kept_before e (some (n, m)) = some (n, e ∷ m)

-- The failures of the first entry of the hash, counted up, and the entries with it.
counted_up : ℕ → List (ℕ × ℕ) → Option (ℕ × List (ℕ × ℕ))
unfolding kept_before
counted_up hash [] = none
counted_up hash ((h, n) ∷ m) =
    let rest = counted_up hash m in
    if h == hash then some (suc n, (h, suc n) ∷ m) else kept_before (h, n) rest

or_first : ℕ → List (ℕ × ℕ) → Option (ℕ × List (ℕ × ℕ)) → ℕ × List (ℕ × ℕ)
or_first hash pending none = (1, pending ++ (hash, 1) ∷ [])
or_first hash pending (some r) = r

-- `FetchRetryQueue::record_failure`
unfoldable pub record_fetch_failure : ℕ → FetchRetryQueue → Bool × FetchRetryQueue
unfolding counted_up or_first retain_others
record_fetch_failure hash q =
    let (failures, pending) = or_first hash q.pending (counted_up hash q.pending) in
    if leb q.max_attempts failures
    then (false, record q { pending = retain_others hash pending })
    else (true, record q { pending = pending })

-- `FetchRetryQueue::resolve`
unfoldable pub resolve : ℕ → FetchRetryQueue → FetchRetryQueue
unfolding retain_others
resolve hash q = record q { pending = retain_others hash q.pending }

-- What a fetch of a hash came to: the hash and the number of the block's header, or a failure.
pub data Fetched : Type 0 where
  found : ℕ → ℕ → Fetched
  missed : Fetched

-- The `for` loop over the results of one poll: the blocks that it yields, and the queue after it.
unfoldable pub settle_results :
    List (ℕ × Fetched) → FetchRetryQueue → List (ℕ × ℕ) × FetchRetryQueue
settle_results [] q = ([], q)
settle_results ((hash, found header number) ∷ results) q =
    let (blocks, end) = settle_results results (resolve hash q) in ((header, number) ∷ blocks, end)
settle_results ((hash, missed) ∷ results) q = settle_results results (record_fetch_failure hash q).1
