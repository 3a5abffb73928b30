-- ===== src/Mempool/Loop/Broadcast.antt =====
-- What the replacement loop of src/executors/mempool_executor.rs hands to the node: one nonce, a
-- bounded number of transactions, valid fees.
use artemis_light.Prelude.{
  ℕ, ◌+◌, ◌≤◌, ◌≡◌, ap, subst, ◌∙◌, Option, none, some, [], ◌∷◌, ◌++◌, arith, u32_max,
}
use artemis_light.Mempool.Schedule.{schedule_new-IsSound}
use artemis_light.Mempool.Node.{Rpc, reply, rejected, elapsed, Provider, Recorded, Outcome}
use artemis_light.Mempool.{ReplacementPolicy, schedule_new, Fees}
use artemis_light.Pricing.Bounds.{IsValid}
use artemis_light.Mempool.Loop.{
  Attempt, loop, rounds, start, network, send_with_replacement, with_sender, pinned, first_sent,
}
use artemis_light.Mempool.Loop.Handed.{Pinned, Handed, Handed-none, Handed-trans}
use artemis_light.Mempool.Loop.Rounds.{left, Handed-widen, loop-Handed}

module _ (p : Provider) (w : Recorded p) where
  network-some :
      (l : Option (Outcome × Attempt p)) (o : Outcome) (end : p.Net)
      → network p l ≡ some (o, end)
      → (b : Attempt p) × (l ≡ some (o, b)) × (b.net ≡ end)
  network-some none o end e = cc
  network-some (some (o', b)) o end e = (b, ground arith, ground arith)

  module _ (fees : Fees) (policy : ReplacementPolicy) (v : IsValid fees)
      (m : 110 ≤ policy.escalation_percent) (fits : policy.max_replacements ≤ u32_max) where
    first_sent-Handed :
        (k : ℕ) (tx : p.Tx) (net mid : p.Net) (r : Rpc p.Hash) (o : Outcome) (end : p.Net)
        → w.nonce tx ≡ some k
        → Handed p w k 1 net mid
        → first_sent p tx fees policy (r, mid) ≡ some (o, end)
        → Handed p w k (policy.max_replacements + 1) net end
    unfolding first_sent start schedule_new
    first_sent-Handed k tx net mid rejected o end t g e =
        Handed-widen p w _ (subst (λ x. Handed p w k 1 net x) (ground arith) g) (omega arith)
    first_sent-Handed k tx net mid elapsed o end t g e =
        Handed-widen p w _ (subst (λ x. Handed p w k 1 net x) (ground arith) g) (omega arith)
    first_sent-Handed k tx net mid (reply hash) o end t g e =
        let sound = schedule_new-IsSound policy fees v m fits in
        let a = start p tx fees policy hash mid in
        let (b, q, same) = network-some (loop p (rounds p policy) a) o end e in
        let later =
          loop-Handed p w k (rounds p policy) a o b
            (record { sound = sound; failures = omega arith }) t q in
        Handed-trans p w (policy.max_replacements + 1) g
          (subst (λ x. Handed p w k (left p w a.schedule) mid x) same later) (omega arith)

    pinned-Handed :
        (tx : p.Tx) (net mid : p.Net) (r : Rpc ℕ) (o : Outcome) (end : p.Net)
        → w.tip tx ≤ w.cap tx
        → w.broadcast mid ≡ w.broadcast net
        → pinned p tx fees policy (r, mid) ≡ some (o, end)
        → (k : ℕ) × Handed p w k (policy.max_replacements + 1) net end
    unfolding pinned
    pinned-Handed tx net mid rejected o end f g e =
        (0, Handed-widen p w _ (Handed-none p w 0 0 net end (ground arith)) (omega arith))
    pinned-Handed tx net mid elapsed o end f g e =
        (0, Handed-widen p w _ (Handed-none p w 0 0 net end (ground arith)) (omega arith))
    pinned-Handed tx net mid (reply k) o end f g e =
        let tx' = p.set_nonce k tx in
        let pin : Pinned p w k tx' =
          (w.nonce-set_nonce k tx, rw (w.tip-set_nonce, w.cap-set_nonce) f) in
        let sent : Handed p w k 1 net (p.send_transaction tx' mid).1 = record {
          txs = tx' ∷ [];
          grown = w.broadcast-send tx' mid ∙ ap (λ b. b ++ tx' ∷ []) g;
          few = omega arith;
          pinned = (pin, tt);
        } in
        (k, first_sent-Handed k tx' net _ (p.send_transaction tx' mid).0 o end pin.0 sent e)

    with_sender-Handed :
        (tx : p.Tx) (net : p.Net) (from : Option p.Address) (o : Outcome) (end : p.Net)
        → w.tip tx ≤ w.cap tx
        → with_sender p tx fees policy net from ≡ some (o, end)
        → (k : ℕ) × Handed p w k (policy.max_replacements + 1) net end
    unfolding with_sender
    with_sender-Handed tx net none o end f e =
        (0, Handed-widen p w _ (Handed-none p w 0 0 net end (ground arith)) (omega arith))
    with_sender-Handed tx net (some from) o end f e =
        pinned-Handed tx net (p.get_transaction_count from net).1
          (p.get_transaction_count from net).0 o end f (w.broadcast-count from net) e

  -- For a request whose tip is at most its cap, valid fees and a validated policy, all that a
  -- finished run of send_with_replacement hands to the node carries one nonce and a tip at most its
  -- cap, in at most max_replacements + 1 transactions.
  pub send_with_replacement-Handed :
      (tx : p.Tx) (fees : Fees) (policy : ReplacementPolicy) (net : p.Net) (o : Outcome)
      (end : p.Net)
      → IsValid fees
      → 110 ≤ policy.escalation_percent
      → policy.max_replacements ≤ u32_max
      → w.tip tx ≤ w.cap tx
      → send_with_replacement p tx fees policy net ≡ some (o, end)
      → (k : ℕ) × Handed p w k (policy.max_replacements + 1) net end
  unfolding send_with_replacement
  send_with_replacement-Handed tx fees policy net o end v m fits f e =
      with_sender-Handed fees policy v m fits tx net (p.from tx) o end f e
