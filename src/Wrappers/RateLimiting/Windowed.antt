-- ===== src/Wrappers/RateLimiting/Windowed.antt =====
-- The sliding window of the limiter in src/executor_ext/rate_limit.rs.
use mathlib.Core.List.{append_assoc, append-nil}
use artemis_light.Prelude.{
  ℕ, suc, ◌+◌, ◌-◌, ◌≤◌, ◌<◌, ◌≡◌, refl, sym, ap, subst, ◌∙◌, inl, inr, ◌&&◌, List, [], ◌∷◌, ◌++◌,
  arith, ltb, leb, if◌then◌else◌, leb→le, le→leb, Bool-cases, length, length-append, All,
  All-append, All-map,
}
use artemis_light.Wrappers.{Executor}
use artemis_light.Wrappers.RateLimiting.{
  window, Timing, RateLimit, rate_limit, rate_execute, submit_timed, expire, waited, nth,
}

-- How many of the instants lie in the window that ends at this instant.
abbrev pub within_window : ℕ → List ℕ → ℕ
within_window at [] = 0
within_window at (t ∷ ts) =
    let rest = within_window at ts in if leb t at && ltb at (t + window) then suc rest else rest

within_window-append :
    (at : ℕ) (ts us : List ℕ)
    → within_window at (ts ++ us) ≡ within_window at ts + within_window at us
within_window-append at [] us = omega arith
within_window-append at (t ∷ ts) us = ground (arith, within_window-append at ts us)

within_window-le-length : (at : ℕ) (ts : List ℕ) → within_window at ts ≤ length ts
within_window-le-length at [] = omega arith
within_window-le-length at (t ∷ ts) = ground (arith, within_window-le-length at ts)

within_window_gone :
    (at now : ℕ) (ts : List ℕ) → now ≤ at → All (λ t. t + window ≤ now) ts → within_window at ts ≡ 0
within_window_gone at now [] l h = refl
within_window_gone at now (t ∷ ts) l h =
    let a : t + window ≤ now = h.0 in ground (arith, within_window_gone at now ts l h.1)

module _ {A : Type 0} (x : Executor A) where
  -- `expire` drops a part of the queue that has left the window.
  expire_split :
      (now : ℕ) (ts : List ℕ)
      → (gone : List ℕ) × (All (λ t. t + window ≤ now) gone) × (gone ++ expire x now ts ≡ ts)
  unfolding expire
  expire_split now [] = ([], tt, refl)
  expire_split now (t ∷ ts) = elim (Bool-cases (leb (t + window) now)) [
    | inl y ↦
        let (gone, old, same) = expire_split now ts in
        rw y (t ∷ gone, (leb→le _ _ y, old), ap (λ l. t ∷ l) same)
    | inr y ↦ rw y ([], tt, refl)
  ]

  length-expire : (now : ℕ) (ts : List ℕ) → length (expire x now ts) ≤ length ts
  unfolding expire
  length-expire now [] = omega arith
  length-expire now (t ∷ ts) = ground (arith, length-expire now ts)

  -- The oldest submission of a full queue has left the window when the wait ends.
  expire_full :
      (now t : ℕ) (ts : List ℕ) → t + window ≤ now → length (expire x now (t ∷ ts)) ≤ length ts
  unfolding expire
  expire_full now t ts h = rw (le→leb _ _ h) (length-expire now ts)

  -- A limiter whose queue is full waits until its oldest submission has left the window.
  waited_past :
      (r : RateLimit x) (arrival t : ℕ) (ts : List ℕ)
      → r.sent ≡ t ∷ ts
      → length r.sent ≤ r.per_second
      → r.per_second ≤ length r.sent
      → t + window ≤ waited x r arrival
  unfolding waited
  waited_past r arrival t ts q h k =
      let oldest : length r.sent - r.per_second ≡ 0 = omega arith in
      let first : nth 0 (length r.sent - r.per_second) r.sent ≡ t =
        ap (λ n. nth 0 n r.sent) oldest ∙ ap (nth 0 0) q in
      rw (le→leb _ _ k, first) (omega arith)

  length-expire_nil : (now : ℕ) → length (expire x now []) ≡ 0
  unfolding expire
  length-expire_nil now = refl

  -- After the wait there is room in the window.
  expire_room :
      (r : RateLimit x) (arrival late : ℕ)
      → 1 ≤ r.per_second
      → length r.sent ≤ r.per_second
      → length (expire x (waited x r arrival + late) r.sent) < r.per_second
  expire_room r arrival late p h = go r.sent refl
    where
      go :
          (ts : List ℕ)
          → r.sent ≡ ts
          → length (expire x (waited x r arrival + late) ts) < r.per_second
      go [] q =
          subst (λ n. n < r.per_second) (sym (length-expire_nil (waited x r arrival + late))) p
      go (t ∷ ts) q = elim (Bool-cases (leb r.per_second (length r.sent))) [
        | inl y ↦
            let full : r.per_second ≤ length r.sent = leb→le _ _ y in
            let past : t + window ≤ waited x r arrival = waited_past r arrival t ts q h full in
            let same : length r.sent ≡ length (t ∷ ts) = ap length q in
            let less : length (expire x (waited x r arrival + late) (t ∷ ts)) ≤ length ts =
              expire_full (waited x r arrival + late) t ts (omega arith) in
            omega arith
        | inr y ↦
            let short : length r.sent < r.per_second = ground (arith, y) in
            let same : length r.sent ≡ length (t ∷ ts) = ap length q in
            let less : length (expire x (waited x r arrival + late) (t ∷ ts)) ≤ length (t ∷ ts) =
              length-expire (waited x r arrival + late) (t ∷ ts) in
            omega arith
      ]

  -- What a limiter that has submitted at these instants knows of them.
  pub record Limited (log : List ℕ) (r : RateLimit x) : Type 0 where
    pub old : List ℕ
    pub split : old ++ r.sent ≡ log
    pub expired : All (λ t. t + window ≤ r.clock) old
    pub room : length r.sent ≤ r.per_second
    pub at_most : (at : ℕ) → within_window at log ≤ r.per_second

  waited-le : (r : RateLimit x) (arrival : ℕ) → arrival ≤ waited x r arrival
  unfolding waited
  waited-le r arrival = ground arith

  -- A window that ends before the new submission does not hold it; one that ends later holds none
  -- that had left the queue.
  windows_hold :
      (k now at : ℕ) (gone kept log : List ℕ)
      → gone ++ kept ≡ log
      → All (λ t. t + window ≤ now) gone
      → length kept < k
      → within_window at log ≤ k
      → within_window at (log ++ now ∷ []) ≤ k
  windows_hold k now at gone kept log q old short ih = elim (Bool-cases (leb now at)) [
    | inl y ↦
        let reached : now ≤ at = leb→le now at y in
        let none_gone : within_window at gone ≡ 0 = within_window_gone at now gone reached old in
        let in_log : within_window at log ≡ within_window at gone + within_window at kept =
          ap (within_window at) (sym q) ∙ within_window-append at gone kept in
        let in_kept : within_window at kept ≤ length kept = within_window-le-length at kept in
        let in_all : within_window at (log ++ now ∷ [])
            ≡ within_window at log + within_window at (now ∷ []) =
          within_window-append at log (now ∷ []) in
        let in_last : within_window at (now ∷ []) ≤ 1 = within_window-le-length at (now ∷ []) in
        omega arith
    | inr y ↦
        let in_all : within_window at (log ++ now ∷ [])
            ≡ within_window at log + within_window at (now ∷ []) =
          within_window-append at log (now ∷ []) in
        let in_last : within_window at (now ∷ []) ≡ 0 = rw y refl in omega arith
  ]

  rate_execute-Limited :
      (timing : Timing) (a : A) (log : List ℕ) (r : RateLimit x)
      → 1 ≤ r.per_second
      → Limited log r
      → Limited (log ++ (rate_execute x timing a r).1.clock ∷ []) (rate_execute x timing a r).1
  unfolding rate_execute
  rate_execute-Limited timing a log r p l =
      let now : ℕ = waited x r (r.clock + timing.idle) + timing.late in
      let later : r.clock + timing.idle ≤ waited x r (r.clock + timing.idle) =
        waited-le r (r.clock + timing.idle) in
      let (gone, dropped, same) = expire_split now r.sent in
      let short : length (expire x now r.sent) < r.per_second =
        expire_room r (r.clock + timing.idle) timing.late p l.room in
      let all_gone : All (λ t. t + window ≤ now) (l.old ++ gone) =
        All-append (λ t. t + window ≤ now) l.old gone
          (All-map (λ t. t + window ≤ r.clock) (λ t. t + window ≤ now) (λ t h. omega arith) l.old
            l.expired)
          dropped in
      let joined : (l.old ++ gone) ++ expire x now r.sent ≡ log =
        append_assoc l.old gone _ ∙ ap (λ s. l.old ++ s) same ∙ l.split in
      record {
        old = l.old ++ gone;
        split =
            sym (append_assoc (l.old ++ gone) (expire x now r.sent) (now ∷ []))
            ∙ ap (λ s. s ++ now ∷ []) joined;
        expired = all_gone;
        room = let long = length-append (expire x now r.sent) (now ∷ []) in omega arith;
        at_most = λ at.
            windows_hold r.per_second now at (l.old ++ gone) (expire x now r.sent) log joined
              all_gone short (l.at_most at);
      }

  submit_timed-Limited :
      (calls : List (Timing × A)) (log : List ℕ) (r : RateLimit x)
      → 1 ≤ r.per_second
      → Limited log r
      → Limited (log ++ (submit_timed x calls r).0) (submit_timed x calls r).1
  unfolding submit_timed rate_execute
  submit_timed-Limited [] log r p l = subst (λ s. Limited s r) (sym (append-nil log)) l
  submit_timed-Limited ((timing, a) ∷ calls) log r p l =
      let s : RateLimit x = (rate_execute x timing a r).1 in
      subst (λ t. Limited t (submit_timed x calls s).1)
        (append_assoc log (s.clock ∷ []) (submit_timed x calls s).0)
        (submit_timed-Limited calls (log ++ s.clock ∷ []) s p
          (rate_execute-Limited timing a log r p l))

  submit_timed_cap :
      (calls : List (Timing × A)) (r : RateLimit x)
      → (submit_timed x calls r).1.per_second ≡ r.per_second
  unfolding submit_timed rate_execute
  submit_timed_cap [] r = refl
  submit_timed_cap ((timing, a) ∷ calls) r = submit_timed_cap calls (rate_execute x timing a r).1

  -- From a new limiter of at least one action a second, whatever the calls and however long they
  -- take, at most per_second submissions lie in any window of a second.
  pub submit_timed-within_window :
      (calls : List (Timing × A)) (s : x.State) (per_second at : ℕ)
      → 1 ≤ per_second
      → within_window at (submit_timed x calls (rate_limit x s per_second)).0 ≤ per_second
  submit_timed-within_window calls s per_second at p =
      let fresh : Limited [] (rate_limit x s per_second) = record {
        old = [];
        split = refl;
        expired = tt;
        room = omega arith;
        at_most = λ k. omega arith;
      } in
      let run = submit_timed-Limited calls [] (rate_limit x s per_second) p fresh in
      subst (λ k. within_window at (submit_timed x calls (rate_limit x s per_second)).0 ≤ k)
        (submit_timed_cap calls (rate_limit x s per_second)) (run.at_most at)
