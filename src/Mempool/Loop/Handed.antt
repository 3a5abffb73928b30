-- ===== src/Mempool/Loop/Handed.antt =====
-- What one round of the replacement loop of src/executors/mempool_executor.rs hands to the node.
use mathlib.Core.List.{append_assoc, append-nil}
use artemis_light.Prelude.{
  ℕ, ◌+◌, ◌≤◌, ◌≡◌, refl, sym, ◌∙◌, Option, none, some, List, [], ◌∷◌, ◌++◌, arith, length,
  length-append, All, All-append,
}
use artemis_light.Mempool.Node.{
  Rpc, reply, rejected, elapsed, Provider, Recorded, SendError, timeout_replacement,
  error_replacement, unconfirmed,
}
use artemis_light.Mempool.{
  WatchResult, mined, timeout, failed, NextStep, finish, replace, rewatch, give_up, Fees,
}
use artemis_light.Pricing.Bounds.{IsValid}
use artemis_light.Mempool.Loop.{
  Attempt, Progress, done, again, last?, any_mined, sweep, act, watch_again, resent,
}

module _ (p : Provider) (w : Recorded p) where
  -- A replacement at the pinned nonce, with a valid pair of fees.
  abbrev pub Pinned : ℕ → p.Tx → Type 0
  Pinned k t = (w.nonce t ≡ some k) × (w.tip t ≤ w.cap t)

  -- From `net` to `end` the node was handed at most `n` transactions, all pinned to `k`.
  pub record Handed (k n : ℕ) (net end : p.Net) : Type 0 where
    pub txs : List p.Tx
    pub grown : w.broadcast end ≡ w.broadcast net ++ txs
    pub few : length txs ≤ n
    pub pinned : All (Pinned k) txs

  pub Handed-none :
      (k n : ℕ) (net end : p.Net) → w.broadcast end ≡ w.broadcast net → Handed k n net end
  Handed-none k n net end e = record {
    txs = [];
    grown = e ∙ sym (append-nil (w.broadcast net));
    few = omega arith;
    pinned = tt;
  }

  pub Handed-trans :
      {k m n : ℕ} {net mid end : p.Net} (j : ℕ)
      → Handed k m net mid
      → Handed k n mid end
      → m + n ≤ j
      → Handed k j net end
  Handed-trans j g h s = record {
    txs = g.txs ++ h.txs;
    grown = rw (h.grown, g.grown) (append_assoc (w.broadcast _) g.txs h.txs);
    few = omega (arith, length-append g.txs h.txs, g.few, h.few);
    pinned = All-append (Pinned _) g.txs h.txs g.pinned h.pinned;
  }

  broadcast-any_mined :
      (hashes : List p.Hash) (net : p.Net)
      → w.broadcast (any_mined p hashes net).1 ≡ w.broadcast net
  unfolding any_mined
  broadcast-any_mined [] net = refl
  broadcast-any_mined (hash ∷ hashes) net =
      let (r, net') = p.get_transaction_receipt hash net in
      ground (arith, broadcast-any_mined hashes net', w.broadcast-receipt hash net)

  -- Where a round ends, with or without a verdict.
  abbrev pub state : Progress p → Attempt p
  state (done o b) = b
  state (again b) = b

  abbrev pub cost : NextStep → ℕ
  cost (replace fees) = 1
  cost finish = 0
  cost rewatch = 0
  cost give_up = 0

  abbrev pub FeesValid : NextStep → Type 0
  FeesValid (replace fees) = IsValid fees
  FeesValid finish = Unit
  FeesValid rewatch = Unit
  FeesValid give_up = Unit

  -- The round ends at the nonce of `a`, having handed over nothing since.
  abbrev Quiet : Attempt p → Attempt p → Type 0
  Quiet a b = (w.broadcast b.net ≡ w.broadcast a.net) × (w.nonce b.tx ≡ w.nonce a.tx)

  sweep-Quiet : (e : SendError) (a : Attempt p) → Quiet a (state (sweep p e a))
  unfolding sweep
  sweep-Quiet e a = (broadcast-any_mined a.sent a.net, refl)

  resent-Quiet : (a : Attempt p) (r : Rpc p.Hash) → Quiet a (state (resent p a r))
  unfolding resent
  resent-Quiet a (reply hash) = (refl, refl)
  resent-Quiet a rejected = sweep-Quiet error_replacement a
  resent-Quiet a elapsed = sweep-Quiet timeout_replacement a

  watch_again-Quiet : (a : Attempt p) (h : Option p.Hash) → Quiet a (state (watch_again p a h))
  unfolding watch_again
  watch_again-Quiet a none = (refl, refl)
  watch_again-Quiet a (some hash) = (refl, refl)

  -- The request of a replacement, as it is sent.
  replacement : Fees → p.Tx → p.Tx
  replacement next t =
      p.set_max_priority_fee_per_gas next.max_priority_fee_per_gas
        (p.set_max_fee_per_gas next.max_fee_per_gas t)

  replacement-Pinned :
      (k : ℕ) (next : Fees) (t : p.Tx)
      → w.nonce t ≡ some k
      → IsValid next
      → Pinned k (replacement next t)
  unfolding replacement
  replacement-Pinned k next t e v = (
    rw (w.nonce-set_tip, w.nonce-set_cap) e,
    rw (w.tip-set_tip, w.cap-set_tip, w.cap-set_cap) (v.tip_below_cap),
  )

  pub act-Handed :
      (k : ℕ) (r : WatchResult) (n : NextStep) (a : Attempt p)
      → w.nonce a.tx ≡ some k
      → FeesValid n
      → Handed k (cost n) a.net (state (act p r n a)).net
        × (w.nonce (state (act p r n a)).tx ≡ some k)
  unfolding act replacement
  act-Handed k r finish a e v = (Handed-none k 0 a.net a.net refl, e)
  act-Handed k r give_up a e v =
      let (b, t) = sweep-Quiet (unconfirmed a.schedule.issued) a in (Handed-none k 0 _ _ b, t ∙ e)
  act-Handed k mined rewatch a e v = (Handed-none k 0 a.net a.net refl, e)
  act-Handed k timeout rewatch a e v = (Handed-none k 0 a.net a.net refl, e)
  act-Handed k failed rewatch a e v =
      let (b, t) = watch_again-Quiet a (last? a.sent) in (Handed-none k 0 _ _ b, t ∙ e)
  act-Handed k r (replace next) a e v =
      let tx = replacement next a.tx in
      let pin = replacement-Pinned k next a.tx e v in
      let (res, net) = p.send_transaction tx a.net in
      let (b, t) = resent-Quiet (record a { tx = tx; net = net }) res in
      (
        record {
          txs = tx ∷ [];
          grown = b ∙ w.broadcast-send tx a.net;
          few = omega arith;
          pinned = (pin, tt);
        },
        t ∙ pin.0,
      )
