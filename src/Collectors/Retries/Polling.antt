-- ===== src/Collectors/Retries/Polling.antt =====
-- The poll loop of src/collectors/block_collector.rs. The fetches of a tick overlap, but `buffered` keeps
-- their order, so each hash has one result and the results are in the order of the hashes.
use artemis_light.Prelude.{
  ℕ, suc, ◌+◌, ◌<◌, ◌≡◌, refl, sym, ap, subst, ◌∙◌, inl, inr, false, List, [], ◌∷◌, ◌++◌, map,
  arith, leb, ◌==◌, if◌then◌else◌, Bool-cases,
}
use mathlib.Core.List.{Mem, mem-cons_of_mem, mem-cons_self}
use artemis_light.Collectors.Retries.{
  FetchRetryQueue, due, queue_new, Fetched, found, missed, settle_results,
}
use artemis_light.Collectors.Retries.Streaks.{streak, failures_of, settle_results-streak}

-- `MAX_FETCH_ATTEMPTS`
abbrev pub max_fetch_attempts : ℕ
max_fetch_attempts = 3

module _ {State : Type 0} (get_block_by_hash : ℕ → State → Fetched × State) where
  -- The fetches of one poll, each hash with its result.
  unfoldable pub fetch_each : List ℕ → State → List (ℕ × Fetched) × State
  fetch_each [] s = ([], s)
  fetch_each (hash ∷ hashes) s =
      let (result, next) = get_block_by_hash hash s in
      let (results, end) = fetch_each hashes next in ((hash, result) ∷ results, end)

  -- The `while` loop over the batches of hashes: the blocks that it yields, and the queue after them.
  unfoldable pub poll_each :
      List (List ℕ) → FetchRetryQueue → State → List (ℕ × ℕ) × FetchRetryQueue
  unfolding fetch_each settle_results
  poll_each [] q s = ([], q)
  poll_each (batch ∷ batches) q s =
      let (results, next) = fetch_each (due q ++ batch) s in
      let (blocks, settled) = settle_results results q in
      let (more, end) = poll_each batches settled next in (blocks ++ more, end)

  -- `BlockCollector::polling_stream`
  unfoldable pub polling_stream : List (List ℕ) → State → List (ℕ × ℕ) × FetchRetryQueue
  unfolding poll_each
  polling_stream batches s = poll_each batches (queue_new max_fetch_attempts) s

  -- The results of all the fetches of the loop, in their order.
  abbrev pub attempted : List (List ℕ) → FetchRetryQueue → State → List (ℕ × Fetched)
  attempted [] q s = []
  attempted (batch ∷ batches) q s =
      let (results, next) = fetch_each (due q ++ batch) s in
      results ++ attempted batches (settle_results results q).1 next

  settle_results-append :
      (xs ys : List (ℕ × Fetched)) (q : FetchRetryQueue)
      → settle_results (xs ++ ys) q ≡ (
        (settle_results xs q).0 ++ (settle_results ys (settle_results xs q).1).0,
        (settle_results ys (settle_results xs q).1).1,
      )
  unfolding settle_results
  settle_results-append [] ys q = refl
  settle_results-append ((hash, found header number) ∷ xs) ys q =
      ap (λ r. ((header, number) ∷ r.0, r.1)) (settle_results-append xs ys _)
  settle_results-append ((hash, missed) ∷ xs) ys q = settle_results-append xs ys _

  -- The loop is one settling of all its results.
  poll_each-attempted :
      (batches : List (List ℕ)) (q : FetchRetryQueue) (s : State)
      → poll_each batches q s ≡ settle_results (attempted batches q s) q
  unfolding poll_each settle_results
  poll_each-attempted [] q s = refl
  poll_each-attempted (batch ∷ batches) q s =
      let (results, next) = fetch_each (due q ++ batch) s in
      ap (λ r. ((settle_results results q).0 ++ r.0, r.1))
        (poll_each-attempted batches (settle_results results q).1 next)
      ∙ sym (settle_results-append results (attempted batches (settle_results results q).1 next) q)

-- The fetches of a hash.
abbrev pub tries : ℕ → List (ℕ × Fetched) → ℕ
tries k [] = 0
tries k ((hash, r) ∷ results) = let rest = tries k results in if k == hash then suc rest else rest

-- No fetch of the hash has found its block.
abbrev pub Unfound : ℕ → List (ℕ × Fetched) → Type 0
Unfound k [] = Unit
Unfound k ((hash, found header number) ∷ results) = ((k == hash) ≡ false) × Unfound k results
Unfound k ((hash, missed) ∷ results) = Unfound k results

streak-tries :
    (max_attempts k n : ℕ) (results : List (ℕ × Fetched))
    → Unfound k results
    → n + tries k results < max_attempts
    → streak max_attempts k n results ≡ n + tries k results
unfolding streak
streak-tries max_attempts k n [] u h = omega arith
streak-tries max_attempts k n ((hash, found header number) ∷ results) (x, u) h =
    let below : n + tries k results < max_attempts = ground (arith, x, h) in
    rw x (streak-tries max_attempts k n results u below)
streak-tries max_attempts k n ((hash, missed) ∷ results) u h = elim (Bool-cases (k == hash)) [
  | inl x ↦
      let below : suc n + tries k results < max_attempts = ground (arith, x, h) in
      let more : leb max_attempts (suc n) ≡ false = ground (arith, below) in
      let same : suc n + tries k results ≡ n + suc (tries k results) = omega arith in
      rw (x, more) (streak-tries max_attempts k (suc n) results u below ∙ same)
  | inr x ↦
      let below : n + tries k results < max_attempts = ground (arith, x, h) in
      rw x (streak-tries max_attempts k n results u below)
]

failures_of-Listed : (k : ℕ) (m : List (ℕ × ℕ)) → 0 < failures_of k m → Mem k (map (λ e. e.0) m)
unfolding failures_of
failures_of-Listed k [] h = absurd (omega arith)
failures_of-Listed k ((hash, n) ∷ m) h = elim (Bool-cases (hash == k)) [
  | inl x ↦
      let same : hash ≡ k = ground (arith, x) in
      subst (λ z. Mem k (z ∷ map (λ e. e.0) m)) (sym same) mem-cons_self
  | inr x ↦
      let later : 0 < failures_of k m = ground (arith, x, h) in
      mem-cons_of_mem hash (failures_of-Listed k m later)
]

module _ {State : Type 0} (get_block_by_hash : ℕ → State → Fetched × State) where
  -- A hash that has been fetched without success, and fewer than three times, is due for another
  -- fetch at the next poll, whatever came of the other hashes: no failure drops a block silently.
  pub polling_stream-due :
      (batches : List (List ℕ)) (s : State) (k : ℕ)
      → Unfound k (attempted get_block_by_hash batches (queue_new max_fetch_attempts) s)
      → 0 < tries k (attempted get_block_by_hash batches (queue_new max_fetch_attempts) s)
      → tries k (attempted get_block_by_hash batches (queue_new max_fetch_attempts) s)
        < max_fetch_attempts
      → Mem k (due (polling_stream get_block_by_hash batches s).1)
  unfolding polling_stream failures_of
  polling_stream-due batches s k u h below =
      let log = attempted get_block_by_hash batches (queue_new max_fetch_attempts) s in
      let end = (polling_stream get_block_by_hash batches s).1 in
      let started : 0 + tries k log < max_fetch_attempts = omega (arith, below) in
      let zeroed : 0 + tries k log ≡ tries k log = omega arith in
      let counted : failures_of k end.pending ≡ tries k log =
        ap (λ r. failures_of k r.1.pending)
          (poll_each-attempted get_block_by_hash batches (queue_new max_fetch_attempts) s)
        ∙ settle_results-streak log (queue_new max_fetch_attempts) k
        ∙ streak-tries max_fetch_attempts k 0 log u started
        ∙ zeroed in
      let positive : 0 < failures_of k end.pending = omega (arith, counted, h) in
      failures_of-Listed k end.pending positive
