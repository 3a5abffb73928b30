-- ===== src/Mempool/Execute.antt =====
-- `MempoolExecutor::execute` of src/executors/mempool_executor.rs: refuse, estimate, price, and send.
pub mod Laws
use artemis_light.Prelude.{ℕ, Option, none, some, ltb, if◌then◌else◌}
use artemis_light.Pricing.{Fees, FeeEstimate, GasBidInfo, Priced, priced, refused, price_1559}
use artemis_light.Mempool.{gas_limit_with_headroom, ReplacementPolicy}
use artemis_light.Mempool.Node.{
  Rpc, reply, rejected, elapsed, Provider, bid_too_high, timeout_gas, error_gas, timeout_fees,
  error_fees, pricing, timeout_sending, error_sending, Outcome, ok, err,
}
use artemis_light.Mempool.Loop.{send_with_replacement}

-- The fields of the executor; the provider is the section's parameter.
pub record MempoolExecutor : Type 0 where
  pub priority_fee_bump_percent : ℕ
  pub replacement : Option ReplacementPolicy

-- `MempoolExecutor::new`
abbrev pub new : MempoolExecutor
new = record { priority_fee_bump_percent = 100; replacement = none }

-- `MempoolExecutor::with_priority_fee_bump`, `with_replacement`
abbrev pub with_priority_fee_bump : MempoolExecutor → ℕ → MempoolExecutor
with_priority_fee_bump x percent = record x { priority_fee_bump_percent = percent }

abbrev pub with_replacement : MempoolExecutor → ReplacementPolicy → MempoolExecutor
with_replacement x policy = record x { replacement = some policy }

-- The percentage that the refusal before any call of the node tests.
pub bid_of : Option GasBidInfo → ℕ
bid_of none = 0
bid_of (some bid) = bid.bid_percentage

module _ (p : Provider) where
  pub record SubmitTxToMempool : Type 0 where
    pub tx : p.Tx
    pub gas_bid_info : Option GasBidInfo

  -- `MempoolExecutor::send_and_forget`
  forgotten : Rpc p.Hash × p.Net → Outcome × p.Net
  forgotten (reply hash, net) = (ok, net)
  forgotten (rejected, net) = (err error_sending, net)
  forgotten (elapsed, net) = (err timeout_sending, net)

  unfoldable pub send_and_forget : p.Tx → p.Net → Outcome × p.Net
  unfolding forgotten
  send_and_forget tx net = forgotten (p.send_transaction tx net)

  submit : MempoolExecutor → p.Tx → Fees → p.Net → Option (Outcome × p.Net)
  unfolding send_and_forget send_with_replacement
  submit x tx fees net = elim (x.replacement) [
    | none ↦ some (send_and_forget tx net)
    | some policy ↦ send_with_replacement p tx fees policy net
  ]

  -- The request as it is first sent.
  pub request : p.Tx → ℕ → Fees → p.Tx
  request tx gas_usage fees = p.set_max_priority_fee_per_gas fees.max_priority_fee_per_gas (
      p.set_max_fee_per_gas fees.max_fee_per_gas
        (p.set_gas_limit (gas_limit_with_headroom gas_usage) tx))

  price_and_send :
      MempoolExecutor → SubmitTxToMempool → ℕ → Priced → p.Net → Option (Outcome × p.Net)
  unfolding submit request
  price_and_send x action gas_usage (refused e) net = some (err (pricing e), net)
  price_and_send x action gas_usage (priced fees) net =
      submit x (request action.tx gas_usage fees) fees net

  with_fees :
      MempoolExecutor → SubmitTxToMempool → ℕ → Rpc FeeEstimate × p.Net → Option (Outcome × p.Net)
  unfolding price_and_send
  with_fees x action gas_usage (rejected, net) = some (err error_fees, net)
  with_fees x action gas_usage (elapsed, net) = some (err timeout_fees, net)
  with_fees x action gas_usage (reply est, net) =
      price_and_send x action gas_usage
        (price_1559 est gas_usage x.priority_fee_bump_percent action.gas_bid_info) net

  with_gas : MempoolExecutor → SubmitTxToMempool → Rpc ℕ × p.Net → Option (Outcome × p.Net)
  unfolding with_fees
  with_gas x action (rejected, net) = some (err error_gas, net)
  with_gas x action (elapsed, net) = some (err timeout_gas, net)
  with_gas x action (reply gas_usage, net) =
      with_fees x action gas_usage (p.estimate_eip1559_fees net)

  unfoldable pub execute : MempoolExecutor → SubmitTxToMempool → p.Net → Option (Outcome × p.Net)
  unfolding with_gas bid_of
  execute x action net =
      if ltb 100 (bid_of action.gas_bid_info)
      then some (err (bid_too_high (bid_of action.gas_bid_info)), net)
      else with_gas x action (p.estimate_gas action.tx net)
