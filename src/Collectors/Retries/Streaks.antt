-- ===== src/Collectors/Retries/Streaks.antt =====
-- What `FetchRetryQueue` of src/collectors/block_collector.rs counts over the results of many fetches.
use artemis_light.Prelude.{
  ℕ, suc, ◌≡◌, refl, sym, ap, subst, ◌∙◌, inl, inr, Bool, true, false, not, Option, none, some,
  List, [], ◌∷◌, arith, leb, ◌==◌, if◌then◌else◌, Bool-cases,
}
use artemis_light.Collectors.Retries.{
  FetchRetryQueue, retain_others, kept_before, counted_up, or_first, record_fetch_failure, resolve,
  Fetched, found, missed, settle_results,
}

-- The failures that the queue has counted for a hash.
unfoldable pub failures_of : ℕ → List (ℕ × ℕ) → ℕ
failures_of hash [] = 0
failures_of hash ((h, n) ∷ m) = let rest = failures_of hash m in if h == hash then n else rest

retained :
    (k hash : ℕ) (m : List (ℕ × ℕ))
    → failures_of k (retain_others hash m) ≡ (if k == hash then 0 else failures_of k m)
unfolding failures_of retain_others
retained k hash [] = ground arith
retained k hash ((h, n) ∷ m) = elim (Bool-cases (h == hash)) [
  | inl x ↦ rw x (ground (arith, x, retained k hash m))
  | inr x ↦ rw x (ground (arith, x, retained k hash m))
]

-- The count of a hash goes up by one, and that of another stays.
Counts : ℕ → List (ℕ × ℕ) → ℕ × List (ℕ × ℕ) → Type 0
Counts hash m r =
    (r.0 ≡ suc (failures_of hash m))
    × ((k : ℕ) → failures_of k r.1 ≡ (if k == hash then r.0 else failures_of k m))

or_first_kept :
    (hash : ℕ) (e : ℕ × ℕ) (m : List (ℕ × ℕ)) (o : Option (ℕ × List (ℕ × ℕ)))
    → or_first hash (e ∷ m) (kept_before e o) ≡ ((or_first hash m o).0, e ∷ (or_first hash m o).1)
unfolding or_first kept_before
or_first_kept hash e m none = refl
or_first_kept hash e m (some r) = refl

counted_up_later :
    (hash h n : ℕ) (m : List (ℕ × ℕ))
    → (h == hash) ≡ false
    → counted_up hash ((h, n) ∷ m) ≡ kept_before (h, n) (counted_up hash m)
unfolding counted_up
counted_up_later hash h n m x = rw x refl

Counts-later :
    (hash h n : ℕ) (m : List (ℕ × ℕ)) (r : ℕ × List (ℕ × ℕ))
    → (h == hash) ≡ false
    → Counts hash m r
    → Counts hash ((h, n) ∷ m) (r.0, (h, n) ∷ r.1)
unfolding failures_of Counts
Counts-later hash h n m r x (c, o) = (rw x c, λ k. ground (arith, x, o k))

Counts-first :
    (hash h n : ℕ) (m : List (ℕ × ℕ))
    → (h == hash) ≡ true
    → Counts hash ((h, n) ∷ m) (suc n, (h, suc n) ∷ m)
unfolding failures_of Counts
Counts-first hash h n m x = (rw x refl, λ k. ground (arith, x))

counted_up_first :
    (hash h n : ℕ) (m : List (ℕ × ℕ))
    → (h == hash) ≡ true
    → counted_up hash ((h, n) ∷ m) ≡ some (suc n, (h, suc n) ∷ m)
unfolding counted_up
counted_up_first hash h n m x = rw x refl

first_of : (hash : ℕ) → Counts hash [] (1, (hash, 1) ∷ [])
unfolding failures_of Counts
first_of hash = (refl, λ k. ground arith)

or_first-Counts :
    (hash : ℕ) (m : List (ℕ × ℕ)) → Counts hash m (or_first hash m (counted_up hash m))
unfolding or_first counted_up
or_first-Counts hash [] = first_of hash
or_first-Counts hash ((h, n) ∷ m) = elim (Bool-cases (h == hash)) [
  | inl x ↦
      subst (λ o. Counts hash ((h, n) ∷ m) (or_first hash ((h, n) ∷ m) o))
        (sym (counted_up_first hash h n m x)) (Counts-first hash h n m x)
  | inr x ↦
      subst (λ o. Counts hash ((h, n) ∷ m) (or_first hash ((h, n) ∷ m) o))
        (sym (counted_up_later hash h n m x))
        (subst (Counts hash ((h, n) ∷ m)) (sym (or_first_kept hash (h, n) m (counted_up hash m))) (
          Counts-later hash h n m (or_first hash m (counted_up hash m)) x (or_first-Counts hash m)))
]

-- The failures in a row of one hash, begun anew by a success and by the failure that gives it up.
unfoldable pub streak : ℕ → ℕ → ℕ → List (ℕ × Fetched) → ℕ
streak max_attempts k n [] = n
streak max_attempts k n ((hash, found header number) ∷ results) =
    let anew = streak max_attempts k 0 results in
    let same = streak max_attempts k n results in if k == hash then anew else same
streak max_attempts k n ((hash, missed) ∷ results) =
    let anew = streak max_attempts k 0 results in
    let more = streak max_attempts k (suc n) results in
    let same = streak max_attempts k n results in
    if k == hash then (if leb max_attempts (suc n) then anew else more) else same

-- What a failure does to the queue, as one of these counts.
Failed : ℕ → FetchRetryQueue → Bool × FetchRetryQueue → Type 0
Failed hash q r =
    (r.0 ≡ not (leb q.max_attempts (suc (failures_of hash q.pending))))
    × ((k : ℕ)
        → failures_of k r.1.pending ≡ (
            if k == hash
            then (if r.0 then suc (failures_of hash q.pending) else 0)
            else failures_of k q.pending))
    × (r.1.max_attempts ≡ q.max_attempts)

record_fetch_failure-Failed :
    (hash : ℕ) (q : FetchRetryQueue) → Failed hash q (record_fetch_failure hash q)
unfolding record_fetch_failure Failed Counts
record_fetch_failure-Failed hash q =
    go (or_first hash q.pending (counted_up hash q.pending)) (or_first-Counts hash q.pending)
  where
    outcome : Bool → List (ℕ × ℕ) → Bool × FetchRetryQueue
    outcome b m =
        if b
        then (false, record q { pending = retain_others hash m })
        else (true, record q { pending = m })

    decided :
        (b : Bool) (r : ℕ × List (ℕ × ℕ))
        → leb q.max_attempts r.0 ≡ b
        → Counts hash q.pending r
        → Failed hash q (outcome b r.1)
    decided true r x (c, o) =
        (ground (arith, x, c), λ k. ground (arith, retained k hash r.1, o k), refl)
    decided false r x (c, o) = (ground (arith, x, c), λ k. ground (arith, o k, c), refl)

    go :
        (r : ℕ × List (ℕ × ℕ))
        → Counts hash q.pending r
        → Failed hash q (outcome (leb q.max_attempts r.0) r.1)
    go r h = decided (leb q.max_attempts r.0) r refl h

if_streak :
    (max_attempts k : ℕ) (results : List (ℕ × Fetched)) (b : Bool) (m n : ℕ)
    → streak max_attempts k (if b then m else n) results
      ≡ (if b then streak max_attempts k m results else streak max_attempts k n results)
if_streak max_attempts k results true m n = refl
if_streak max_attempts k results false m n = refl

after_failure :
    (hash : ℕ) (q : FetchRetryQueue) (k : ℕ) (results : List (ℕ × Fetched))
    (r : Bool × FetchRetryQueue)
    → Failed hash q r
    → streak r.1.max_attempts k (failures_of k r.1.pending) results
      ≡ streak q.max_attempts k (failures_of k q.pending) ((hash, missed) ∷ results)
unfolding streak Failed
after_failure hash q k results r (d, o, same_max) = elim (Bool-cases (k == hash)) [
  | inl x ↦
      let same : k ≡ hash = ground (arith, x) in
      let counted : failures_of k q.pending ≡ failures_of hash q.pending =
        ap (λ z. failures_of z q.pending) same in
      let now : failures_of k r.1.pending ≡ (
          if leb q.max_attempts (suc (failures_of k q.pending))
          then 0
          else suc (failures_of k q.pending)) =
        ground (arith, x, o k, d, counted) in
      rw (same_max, now, x)
        (if_streak q.max_attempts k results (leb q.max_attempts (suc (failures_of k q.pending))) 0
          (suc (failures_of k q.pending)))
  | inr x ↦
      let now : failures_of k r.1.pending ≡ failures_of k q.pending = ground (arith, x, o k) in
      rw (same_max, now, x) refl
]

-- After the results of any polls, the queue holds for each hash its failures in a row, begun anew by
-- a success and by the failure that gives it up.
pub settle_results-streak :
    (results : List (ℕ × Fetched)) (q : FetchRetryQueue) (k : ℕ)
    → failures_of k (settle_results results q).1.pending
      ≡ streak q.max_attempts k (failures_of k q.pending) results
unfolding settle_results streak resolve
settle_results-streak [] q k = refl
settle_results-streak ((hash, found header number) ∷ results) q k =
    settle_results-streak results (resolve hash q) k
    ∙ ap (λ n. streak q.max_attempts k n results) (retained k hash q.pending)
    ∙ if_streak q.max_attempts k results (k == hash) 0 (failures_of k q.pending)
settle_results-streak ((hash, missed) ∷ results) q k =
    settle_results-streak results (record_fetch_failure hash q).1 k
    ∙ after_failure hash q k results (record_fetch_failure hash q)
        (record_fetch_failure-Failed hash q)
