-- ===== src/Mempool/Loop.antt =====
-- `send_with_replacement` of src/executors/mempool_executor.rs: pin the nonce, send, watch, and
-- replace or give up. One round of the source's loop is `step`; `none` is a loop out of fuel.
pub mod Total
pub mod Handed
pub mod Rounds
pub mod Broadcast
pub mod Failure
use artemis_light.Prelude.{
  ℕ, zero, suc, ◌+◌, ◌*◌, Bool, true, false, Option, none, some, List, [], ◌∷◌, ◌++◌, if◌then◌else◌,
}
use artemis_light.Pricing.{Fees}
use artemis_light.Mempool.{
  ReplacementPolicy, WatchResult, mined, timeout, failed, classify, NextStep, finish, replace,
  rewatch, give_up, ReplacementSchedule, schedule_new, next_step,
}
use artemis_light.Mempool.Node.{
  Rpc, reply, rejected, elapsed, Provider, SendError, no_from, timeout_nonce, error_nonce,
  timeout_sending, error_sending, timeout_replacement, error_replacement, unconfirmed,
  no_transport_error, no_hash, Outcome, ok, err,
}

-- The variables of the loop.
pub record Attempt (p : Provider) : Type 0 where
  pub tx : p.Tx
  pub pending : p.Hash
  pub sent : List p.Hash
  pub schedule : ReplacementSchedule
  pub net : p.Net

pub data Progress (p : Provider) : Type 0 where
  done : Outcome → Attempt p → Progress p
  again : Attempt p → Progress p

abbrev pub last? {ℓ} : {A : Type ℓ} → List A → Option A
last? [] = none
last? (x ∷ []) = some x
last? (x ∷ y ∷ xs) = last? (y ∷ xs)

-- Only a reply with a receipt counts; a failed lookup or a timeout moves on.
abbrev pub has_receipt : Rpc Bool → Bool
has_receipt (reply b) = b
has_receipt rejected = false
has_receipt elapsed = false

module _ (p : Provider) where
  -- `MempoolExecutor::any_mined`
  unfoldable pub any_mined : List p.Hash → p.Net → Bool × p.Net
  any_mined [] net = (false, net)
  any_mined (hash ∷ hashes) net =
      let (r, net') = p.get_transaction_receipt hash net in
      let rest = any_mined hashes net' in if has_receipt r then (true, net') else rest

  -- Every failure verdict first looks for a receipt of what was sent.
  unfoldable pub sweep : SendError → Attempt p → Progress p
  sweep e a =
      let (found, net) = any_mined a.sent a.net in
      done (if found then ok else err e) (record a { net = net })

  resent : Attempt p → Rpc p.Hash → Progress p
  resent a (reply hash) = again (record a { pending = hash; sent = a.sent ++ hash ∷ [] })
  resent a rejected = sweep error_replacement a
  resent a elapsed = sweep timeout_replacement a

  watch_again : Attempt p → Option p.Hash → Progress p
  watch_again a none = done (err no_hash) a
  watch_again a (some hash) = again (record a { pending = hash })

  -- The arms of `match schedule.next_step(outcome)`.
  unfoldable pub act : WatchResult → NextStep → Attempt p → Progress p
  unfolding resent watch_again
  act watched finish a = done ok a
  act watched give_up a = sweep (unconfirmed a.schedule.issued) a
  act mined rewatch a = done (err no_transport_error) a
  act timeout rewatch a = done (err no_transport_error) a
  act failed rewatch a = watch_again a (last? a.sent)
  act watched (replace next) a =
      let tx =
        p.set_max_priority_fee_per_gas next.max_priority_fee_per_gas
          (p.set_max_fee_per_gas next.max_fee_per_gas a.tx) in
      let (r, net) = p.send_transaction tx a.net in resent (record a { tx = tx; net = net }) r

  unfoldable pub step : Attempt p → Progress p
  unfolding act
  step a =
      let (watched, net) = p.watch a.pending a.net in
      let (schedule, next) = next_step a.schedule (classify watched) in
      act watched next (record a { schedule = schedule; net = net })

  unfoldable pub loop : ℕ → Attempt p → Option (Outcome × Attempt p)
  loop zero a = none
  loop (suc fuel) a = elim (step a) [ done o b ↦ some (o, b) | again b ↦ loop fuel b ]

  -- Four watches for each submission are enough: see the child `Total`.
  abbrev pub rounds : ReplacementPolicy → ℕ
  rounds policy = policy.max_replacements * 4 + 4

  pub start : p.Tx → Fees → ReplacementPolicy → p.Hash → p.Net → Attempt p
  start tx fees policy hash net = record {
    tx = tx;
    pending = hash;
    sent = hash ∷ [];
    schedule = schedule_new policy fees;
    net = net;
  }

  -- The verdict, with the network as the loop left it.
  abbrev pub network : Option (Outcome × Attempt p) → Option (Outcome × p.Net)
  network none = none
  network (some (o, a)) = some (o, a.net)

  first_sent : p.Tx → Fees → ReplacementPolicy → Rpc p.Hash × p.Net → Option (Outcome × p.Net)
  unfolding loop start
  first_sent tx fees policy (rejected, net) = some (err error_sending, net)
  first_sent tx fees policy (elapsed, net) = some (err timeout_sending, net)
  first_sent tx fees policy (reply hash, net) =
      network (loop (rounds policy) (start tx fees policy hash net))

  pinned : p.Tx → Fees → ReplacementPolicy → Rpc ℕ × p.Net → Option (Outcome × p.Net)
  unfolding first_sent
  pinned tx fees policy (rejected, net) = some (err error_nonce, net)
  pinned tx fees policy (elapsed, net) = some (err timeout_nonce, net)
  pinned tx fees policy (reply nonce, net) =
      let tx' = p.set_nonce nonce tx in first_sent tx' fees policy (p.send_transaction tx' net)

  with_sender :
      p.Tx → Fees → ReplacementPolicy → p.Net → Option p.Address → Option (Outcome × p.Net)
  unfolding pinned
  with_sender tx fees policy net none = some (err no_from, net)
  with_sender tx fees policy net (some from) =
      pinned tx fees policy (p.get_transaction_count from net)

  unfoldable pub send_with_replacement :
      p.Tx → Fees → ReplacementPolicy → p.Net → Option (Outcome × p.Net)
  unfolding with_sender
  send_with_replacement tx fees policy net = with_sender tx fees policy net (p.from tx)
