-- ===== src/Mempool/Loop/Total.antt =====
-- The replacement loop of src/executors/mempool_executor.rs ends, whatever the network answers.
use artemis_light.Prelude.{ℕ, zero, suc, ◌≤◌, ◌<◌, ◌≡◌, refl, Option, none, some, arith, u32_max}
use artemis_light.Pricing.{Fees}
use artemis_light.Pricing.Bounds.{IsValid}
use artemis_light.Mempool.{
  ReplacementPolicy, WatchResult, mined, timeout, failed, WatchOutcome, classify, NextStep, finish,
  replace, rewatch, give_up, ReplacementSchedule, max_transport_failures, schedule_new, next_step,
}
use artemis_light.Mempool.Schedule.{
  IsSound, measure, schedule_new-IsSound, next_step-IsSound, Verdict, on_confirmed, on_replace,
  on_exhausted, on_rewatch, on_transport, next_step-Verdict,
}
use artemis_light.Mempool.Node.{
  Rpc, reply, rejected, elapsed, Provider, no_from, timeout_nonce, error_nonce, timeout_sending,
  error_sending, Outcome, err,
}
use artemis_light.Mempool.Loop.{
  Attempt, Progress, done, again, sweep, act, step, loop, rounds, start, send_with_replacement,
  pinned, first_sent, with_sender,
}

pub data GoesOn : NextStep → Type 0 where
  rewatches : GoesOn rewatch
  replaces : (fees : Fees) → GoesOn (replace fees)

Verdict-GoesOn :
    {s t : ReplacementSchedule} {o : WatchOutcome} {n : NextStep}
    → Verdict s t o n
    → GoesOn n
    → (measure t < measure s) × (t.transport_failures ≤ max_transport_failures)
Verdict-GoesOn (on_replace next e f i t m) g = (m, omega arith)
Verdict-GoesOn (on_rewatch f i t b m) g = (m, b)
Verdict-GoesOn (on_confirmed e) g = elim g [ ]
Verdict-GoesOn (on_exhausted e) g = elim g [ ]
Verdict-GoesOn (on_transport e) g = elim g [ ]

-- What holds at the head of every round.
pub record InLoop (s : ReplacementSchedule) : Type 0 where
  pub sound : IsSound s
  pub failures : s.transport_failures ≤ max_transport_failures

module _ (p : Provider) where
  pub act_again :
      (w : WatchResult) (n : NextStep) (a : Attempt p) {b : Attempt p}
      → act p w n a ≡ again b
      → GoesOn n × (b.schedule ≡ a.schedule)
  unfolding act sweep
  act_again w finish a e = cc
  act_again w give_up a e = cc
  act_again mined rewatch a e = cc
  act_again timeout rewatch a e = cc
  act_again failed rewatch a e = (rewatches, ground arith)
  act_again w (replace next) a e = (replaces next, ground arith)

  -- A round that does not end the loop keeps what holds at its head and lowers the measure.
  pub step_again :
      (a : Attempt p) {b : Attempt p}
      → InLoop a.schedule
      → step p a ≡ again b
      → InLoop b.schedule
        × (measure b.schedule < measure a.schedule)
        × (b.schedule.max_replacements ≡ a.schedule.max_replacements)
  unfolding step
  step_again a h e =
      let o = classify (p.watch a.pending a.net).0 in
      let (goes, same) = act_again (p.watch a.pending a.net).0 (next_step a.schedule o).1 _ e in
      let (less, few) = Verdict-GoesOn (next_step-Verdict a.schedule o h.sound h.failures) goes in
      let (sound, budget, _) = next_step-IsSound a.schedule o h.sound h.failures in
      rw same (record { sound = sound; failures = few }, less, budget)

  -- With fuel above the measure the loop ends with a verdict.
  pub loop_total :
      (fuel : ℕ) (a : Attempt p)
      → InLoop a.schedule
      → measure a.schedule < fuel
      → (o : Outcome) × (b : Attempt p) × (loop p fuel a ≡ some (o, b))
  unfolding loop
  loop_total zero a h m = absurd (omega arith)
  loop_total (suc fuel) a h m = go (step p a) refl (loop_total fuel)
    where
      go :
          (r : Progress p)
          → step p a ≡ r
          → ((b : Attempt p)
              → InLoop b.schedule
              → measure b.schedule < fuel
              → (o : Outcome) × (c : Attempt p) × (loop p fuel b ≡ some (o, c)))
          → (o : Outcome) × (b : Attempt p) × (loop p (suc fuel) a ≡ some (o, b))
      go (done o b) e ih = (o, b, rw (e, loop))
      go (again b) e ih =
          let (keep, less, _) = step_again a h e in
          let (o, c, q) = ih b keep (omega arith) in (o, c, rw (e, loop) q)

  module _ (fees : Fees) (policy : ReplacementPolicy) (v : IsValid fees)
      (b : 110 ≤ policy.escalation_percent) (m : policy.max_replacements ≤ u32_max) where
    first_sent_total :
        (tx : p.Tx) (r : Rpc p.Hash × p.Net)
        → (o : Outcome) × (end : p.Net) × (first_sent p tx fees policy r ≡ some (o, end))
    unfolding first_sent measure schedule_new
    first_sent_total tx (rejected, net) = (err error_sending, net, refl)
    first_sent_total tx (elapsed, net) = (err timeout_sending, net, refl)
    first_sent_total tx (reply hash, net) =
        let sound = schedule_new-IsSound policy fees v b m in
        let (o, a, q) =
          loop_total (rounds p policy) (start p tx fees policy hash net)
            (record { sound = sound; failures = omega arith }) (omega arith) in
        (o, a.net, rw (q, first_sent))

    pinned_total :
        (tx : p.Tx) (r : Rpc ℕ × p.Net)
        → (o : Outcome) × (end : p.Net) × (pinned p tx fees policy r ≡ some (o, end))
    unfolding pinned
    pinned_total tx (rejected, net) = (err error_nonce, net, refl)
    pinned_total tx (elapsed, net) = (err timeout_nonce, net, refl)
    pinned_total tx (reply nonce, net) = first_sent_total (p.set_nonce nonce tx) _

    with_sender_total :
        (tx : p.Tx) (net : p.Net) (from : Option p.Address)
        → (o : Outcome) × (end : p.Net) × (with_sender p tx fees policy net from ≡ some (o, end))
    unfolding with_sender
    with_sender_total tx net none = (err no_from, net, refl)
    with_sender_total tx net (some from) = pinned_total tx _

  -- With valid fees and a validated policy, sending with replacement comes to a verdict within four
  -- watches for each submission that the policy allows, whatever the network answers.
  pub send_with_replacement_total :
      (tx : p.Tx) (fees : Fees) (policy : ReplacementPolicy) (net : p.Net)
      → IsValid fees
      → 110 ≤ policy.escalation_percent
      → policy.max_replacements ≤ u32_max
      → (o : Outcome) × (end : p.Net) × (send_with_replacement p tx fees policy net ≡ some (o, end))
  unfolding send_with_replacement
  send_with_replacement_total tx fees policy net v b m =
      with_sender_total fees policy v b m tx net (p.from tx)
