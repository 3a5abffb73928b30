-- ===== src/Mempool/Node.antt =====
-- The node behind the executor of src/executors/mempool_executor.rs: alloy's `Provider` and
-- `TransactionRequest`, which the program only calls, as a parameter of the model.
use artemis_light.Prelude.{ℕ, ◌≡◌, Bool, Option, some, List, [], ◌∷◌, ◌++◌}
use artemis_light.Pricing.{FeeEstimate, PricingError}
use artemis_light.Mempool.{WatchResult}

-- The result of an RPC call under `tokio::time::timeout`.
pub data Rpc (A : Type 0) : Type 0 where
  reply : A → Rpc A
  rejected : Rpc A
  elapsed : Rpc A

-- The calls take the state of the network and return the next one.
pub record Provider : Type 1 where
  pub Net : Type 0
  pub Tx : Type 0
  pub Hash : Type 0
  pub Address : Type 0
  pub from : Tx → Option Address
  pub set_nonce : ℕ → Tx → Tx
  pub set_gas_limit : ℕ → Tx → Tx
  pub set_max_fee_per_gas : ℕ → Tx → Tx
  pub set_max_priority_fee_per_gas : ℕ → Tx → Tx
  pub estimate_gas : Tx → Net → Rpc ℕ × Net
  pub estimate_eip1559_fees : Net → Rpc FeeEstimate × Net
  pub get_transaction_count : Address → Net → Rpc ℕ × Net
  pub send_transaction : Tx → Net → Rpc Hash × Net
  pub watch : Hash → Net → WatchResult × Net
  -- Whether the hash has a receipt.
  pub get_transaction_receipt : Hash → Net → Rpc Bool × Net

-- What the theorems rely on: the setters of a request set the field that they are named for and no
-- other, and `broadcast`, the list of the transactions handed to the node, grows by each send alone.
pub record Recorded (p : Provider) : Type 0 where
  pub nonce : p.Tx → Option ℕ
  pub cap : p.Tx → ℕ
  pub tip : p.Tx → ℕ
  pub nonce-set_nonce : (k : ℕ) (t : p.Tx) → nonce (p.set_nonce k t) ≡ some k
  pub nonce-set_cap : (k : ℕ) (t : p.Tx) → nonce (p.set_max_fee_per_gas k t) ≡ nonce t
  pub nonce-set_tip : (k : ℕ) (t : p.Tx) → nonce (p.set_max_priority_fee_per_gas k t) ≡ nonce t
  pub cap-set_cap : (k : ℕ) (t : p.Tx) → cap (p.set_max_fee_per_gas k t) ≡ k
  pub cap-set_tip : (k : ℕ) (t : p.Tx) → cap (p.set_max_priority_fee_per_gas k t) ≡ cap t
  pub cap-set_nonce : (k : ℕ) (t : p.Tx) → cap (p.set_nonce k t) ≡ cap t
  pub tip-set_tip : (k : ℕ) (t : p.Tx) → tip (p.set_max_priority_fee_per_gas k t) ≡ k
  pub tip-set_nonce : (k : ℕ) (t : p.Tx) → tip (p.set_nonce k t) ≡ tip t
  pub broadcast : p.Net → List p.Tx
  pub broadcast-send :
      (t : p.Tx) (n : p.Net) → broadcast (p.send_transaction t n).1 ≡ broadcast n ++ t ∷ []
  pub broadcast-watch : (h : p.Hash) (n : p.Net) → broadcast (p.watch h n).1 ≡ broadcast n
  pub broadcast-receipt :
      (h : p.Hash) (n : p.Net) → broadcast (p.get_transaction_receipt h n).1 ≡ broadcast n
  pub broadcast-count :
      (a : p.Address) (n : p.Net) → broadcast (p.get_transaction_count a n).1 ≡ broadcast n
  pub broadcast-gas : (t : p.Tx) (n : p.Net) → broadcast (p.estimate_gas t n).1 ≡ broadcast n
  pub broadcast-fees : (n : p.Net) → broadcast (p.estimate_eip1559_fees n).1 ≡ broadcast n

-- The errors of `execute`, one for each message of the source.
pub data SendError : Type 0 where
  bid_too_high : ℕ → SendError
  timeout_gas error_gas : SendError
  timeout_fees error_fees : SendError
  pricing : PricingError → SendError
  no_from : SendError
  timeout_nonce error_nonce : SendError
  timeout_sending error_sending : SendError
  timeout_replacement error_replacement : SendError
  unconfirmed : ℕ → SendError
  no_transport_error no_hash : SendError

pub data Outcome : Type 0 where
  ok : Outcome
  err : SendError → Outcome
