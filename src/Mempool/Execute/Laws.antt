-- ===== src/Mempool/Execute/Laws.antt =====
-- What holds of a whole `execute` of src/executors/mempool_executor.rs.
use artemis_light.Prelude.{
  ℕ, ◌+◌, ◌≤◌, ◌<◌, ◌≡◌, refl, sym, ◌∙◌, ◌≢◌, inl, inr, some, arith, ltb, Bool-cases, u32_max,
}
use artemis_light.Pricing.{Fees, FeeEstimate, Priced, priced, refused, price_1559}
use artemis_light.Pricing.Bounds.{IsValid, price_1559-IsValid}
use artemis_light.Mempool.{min_escalation, ReplacementPolicy}
use artemis_light.Mempool.Node.{
  Rpc, reply, rejected, elapsed, Provider, Recorded, bid_too_high, timeout_gas, error_gas,
  timeout_fees, error_fees, pricing, Outcome, ok, err,
}
use artemis_light.Mempool.Loop.Total.{send_with_replacement_total}
use artemis_light.Mempool.Loop.Handed.{Handed, Handed-none, Handed-trans}
use artemis_light.Mempool.Loop.Rounds.{Handed-widen}
use artemis_light.Mempool.Loop.Broadcast.{send_with_replacement-Handed}
use artemis_light.Mempool.Execute.{
  MempoolExecutor, bid_of, SubmitTxToMempool, request, execute, price_and_send, submit, with_fees,
  with_gas,
}

-- A policy as its type guarantees it.
pub record IsValidated (policy : ReplacementPolicy) : Type 0 where
  pub bump : min_escalation ≤ policy.escalation_percent
  pub budget : policy.max_replacements ≤ u32_max

module _ (p : Provider) (x : MempoolExecutor) (policy : ReplacementPolicy)
    (set : x.replacement ≡ some policy) (ok_policy : IsValidated policy) where
  submit_total :
      (tx : p.Tx) (fees : Fees) (net : p.Net)
      → IsValid fees
      → (o : Outcome) × (end : p.Net) × (submit p x tx fees net ≡ some (o, end))
  unfolding submit
  submit_total tx fees net v =
      let (o, end, q) =
        send_with_replacement_total p tx fees policy net v ok_policy.bump ok_policy.budget in
      (o, end, rw (set, submit) q)

  price_and_send_total :
      (action : SubmitTxToMempool p) (est : FeeEstimate) (gas : ℕ) (net : p.Net)
      → (o : Outcome) × (end : p.Net) × (price_and_send p x action gas
            (price_1559 est gas x.priority_fee_bump_percent action.gas_bid_info)
            net
          ≡ some (o, end))
  unfolding price_and_send
  price_and_send_total action est gas net =
      go (price_1559 est gas x.priority_fee_bump_percent action.gas_bid_info) refl
    where
      go :
          (r : Priced)
          → price_1559 est gas x.priority_fee_bump_percent action.gas_bid_info ≡ r
          → (o : Outcome) × (end : p.Net) × (price_and_send p x action gas r net ≡ some (o, end))
      go (refused e) q = (err (pricing e), net, refl)
      go (priced fees) q =
          submit_total (request p action.tx gas fees) fees net
            (price_1559-IsValid est gas x.priority_fee_bump_percent action.gas_bid_info q)

  with_fees_total :
      (action : SubmitTxToMempool p) (gas : ℕ) (r : Rpc FeeEstimate × p.Net)
      → (o : Outcome) × (end : p.Net) × (with_fees p x action gas r ≡ some (o, end))
  unfolding with_fees
  with_fees_total action gas (rejected, net) = (err error_fees, net, refl)
  with_fees_total action gas (elapsed, net) = (err timeout_fees, net, refl)
  with_fees_total action gas (reply est, net) = price_and_send_total action est gas net

  with_gas_total :
      (action : SubmitTxToMempool p) (r : Rpc ℕ × p.Net)
      → (o : Outcome) × (end : p.Net) × (with_gas p x action r ≡ some (o, end))
  unfolding with_gas
  with_gas_total action (rejected, net) = (err error_gas, net, refl)
  with_gas_total action (elapsed, net) = (err timeout_gas, net, refl)
  with_gas_total action (reply gas, net) = with_fees_total action gas _

  -- An executor with a validated replacement policy comes to a verdict on every action, whatever
  -- the node answers.
  pub execute_total :
      (action : SubmitTxToMempool p) (net : p.Net)
      → (o : Outcome) × (end : p.Net) × (execute p x action net ≡ some (o, end))
  unfolding execute
  execute_total action net = elim (Bool-cases (ltb 100 (bid_of action.gas_bid_info))) [
    | inl e ↦ (err (bid_too_high (bid_of action.gas_bid_info)), net, rw e)
    | inr e ↦
        let (o, end, q) = with_gas_total action (p.estimate_gas action.tx net) in (o, end, rw e q)
  ]

  module _ (w : Recorded p) where
    submit-Handed :
        (tx : p.Tx) (fees : Fees) (net : p.Net) (o : Outcome) (end : p.Net)
        → IsValid fees
        → w.tip tx ≤ w.cap tx
        → submit p x tx fees net ≡ some (o, end)
        → (k : ℕ) × Handed p w k (policy.max_replacements + 1) net end
    unfolding submit
    submit-Handed tx fees net o end v t e =
        send_with_replacement-Handed p w tx fees policy net o end v ok_policy.bump ok_policy.budget
          t (sym (rw (set, submit)) ∙ e)

    request_tip :
        (tx : p.Tx) (gas : ℕ) (fees : Fees)
        → IsValid fees
        → w.tip (request p tx gas fees) ≤ w.cap (request p tx gas fees)
    unfolding request
    request_tip tx gas fees v = rw (w.tip-set_tip, w.cap-set_tip, w.cap-set_cap) (v.tip_below_cap)

    -- What an execution hands over, from the state `net` of the network to the last one.
    abbrev Hands : p.Net → p.Net → Type 0
    Hands net end = (k : ℕ) × Handed p w k (policy.max_replacements + 1) net end

    Hands-none : (net end : p.Net) → w.broadcast end ≡ w.broadcast net → Hands net end
    Hands-none net end e = (0, Handed-widen p w _ (Handed-none p w 0 0 net end e) (omega arith))

    Hands-after :
        (net mid end : p.Net) → w.broadcast mid ≡ w.broadcast net → Hands mid end → Hands net end
    Hands-after net mid end e (k, g) =
        (k, Handed-trans p w _ (Handed-none p w k 0 net mid e) g (omega arith))

    price_and_send_handed :
        (action : SubmitTxToMempool p) (gas : ℕ) (r : Priced) (net : p.Net) (o : Outcome)
        (end : p.Net)
        → ((fees : Fees) → r ≡ priced fees → IsValid fees)
        → price_and_send p x action gas r net ≡ some (o, end)
        → Hands net end
    unfolding price_and_send
    price_and_send_handed action gas (refused e) net o end v q = Hands-none net end (ground arith)
    price_and_send_handed action gas (priced fees) net o end v q =
        submit-Handed (request p action.tx gas fees) fees net o end (v fees refl)
          (request_tip action.tx gas fees (v fees refl)) q

    with_fees_handed :
        (action : SubmitTxToMempool p) (gas : ℕ) (r : Rpc FeeEstimate) (net : p.Net) (o : Outcome)
        (end : p.Net)
        → with_fees p x action gas (r, net) ≡ some (o, end)
        → Hands net end
    unfolding with_fees
    with_fees_handed action gas rejected net o end q = Hands-none net end (ground arith)
    with_fees_handed action gas elapsed net o end q = Hands-none net end (ground arith)
    with_fees_handed action gas (reply est) net o end q =
        price_and_send_handed action gas
          (price_1559 est gas x.priority_fee_bump_percent action.gas_bid_info) net o end
          (λ fees e. price_1559-IsValid est gas x.priority_fee_bump_percent action.gas_bid_info e) q

    with_gas_handed :
        (action : SubmitTxToMempool p) (r : Rpc ℕ) (net : p.Net) (o : Outcome) (end : p.Net)
        → with_gas p x action (r, net) ≡ some (o, end)
        → Hands net end
    unfolding with_gas
    with_gas_handed action rejected net o end q = Hands-none net end (ground arith)
    with_gas_handed action elapsed net o end q = Hands-none net end (ground arith)
    with_gas_handed action (reply gas) net o end q =
        let (r, mid) = p.estimate_eip1559_fees net in
        Hands-after net mid end (w.broadcast-fees net) (with_fees_handed action gas r mid o end q)

    -- An execution with a validated replacement policy hands the node at most max_replacements + 1
    -- transactions, all at one nonce and each with its tip at most its cap; an action whose bid is
    -- over 100 percent ends in an error and leaves the network alone.
    pub execute-Handed :
        (action : SubmitTxToMempool p) (net : p.Net) (o : Outcome) (end : p.Net)
        → execute p x action net ≡ some (o, end)
        → Hands net end × (100 < bid_of action.gas_bid_info → (o ≢ ok) × (end ≡ net))
    unfolding execute
    execute-Handed action net o end q = elim (Bool-cases (ltb 100 (bid_of action.gas_bid_info))) [
      | inl e ↦ (Hands-none net end (ground arith), λ h. (ground arith, ground arith))
      | inr e ↦
          let (r, mid) = p.estimate_gas action.tx net in
          (
            Hands-after net mid end (w.broadcast-gas action.tx net)
                (with_gas_handed action r mid o end (ground arith)),
            λ h. absurd (ground arith),
          )
    ]
