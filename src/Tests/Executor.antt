-- ===== src/Tests/Executor.antt =====
-- Concrete runs of the mempool executor, against a node that records what it is handed.
use artemis_light.Prelude.{
  ℕ, ◌<◌, ◌≡◌, refl, ◌≢◌, false, Option, none, some, List, [], ◌∷◌, ◌++◌, arith, length,
}
use artemis_light.Mempool.Schedule.{IsSound, Verdict, next_step-Verdict}
use artemis_light.Pricing.{Fees, clamped, scale_percent, price_1559, escalate}
use artemis_light.Pricing.Bounds.{IsValid}
use artemis_light.Mempool.{
  gas_limit_with_headroom, ReplacementPolicy, WatchResult, mined, timeout, failed, timed_out,
  classify, ReplacementSchedule, schedule_new, next_step,
}
use artemis_light.Mempool.Node.{reply, Provider, Recorded, unconfirmed, Outcome, ok, err}
use artemis_light.Mempool.Loop.{Attempt, any_mined, sweep, step, send_with_replacement}
use artemis_light.Mempool.Loop.Handed.{Handed}
use artemis_light.Mempool.Execute.{
  MempoolExecutor, new, with_replacement, bid_of, SubmitTxToMempool, execute,
}
use artemis_light.Mempool.Execute.Laws.{IsValidated, execute_total, execute-Handed}

record Request : Type 0 where
  nonce_of : Option ℕ
  gas : ℕ
  cap_of : ℕ
  tip_of : ℕ

-- What was handed over, and the results of the watches to come.
record Network : Type 0 where
  mempool : List Request
  script : List WatchResult

-- The next watch; a script that has ended mines.
abbrev next_watch : List WatchResult → WatchResult × List WatchResult
next_watch [] = (mined, [])
next_watch (r ∷ rs) = (r, rs)

-- A node whose hash is the number of transactions before, and that knows no receipt.
abbrev node : Provider
node = record {
  Net = Network;
  Tx = Request;
  Hash = ℕ;
  Address = ℕ;
  from = λ t. some 1;
  set_nonce = λ k t. record t { nonce_of = some k };
  set_gas_limit = λ k t. record t { gas = k };
  set_max_fee_per_gas = λ k t. record t { cap_of = k };
  set_max_priority_fee_per_gas = λ k t. record t { tip_of = k };
  estimate_gas = λ t n. (reply 100, n);
  estimate_eip1559_fees =
      λ n. (reply (record { max_fee_per_gas = 100; max_priority_fee_per_gas = 20 }), n);
  get_transaction_count = λ a n. (reply 7, n);
  send_transaction = λ t n. (reply (length n.mempool), record n { mempool = n.mempool ++ t ∷ [] });
  watch = λ h n. ((next_watch n.script).0, record n { script = (next_watch n.script).1 });
  get_transaction_receipt = λ h n. (reply false, n);
}

abbrev recorded : Recorded node
recorded = record {
  nonce = λ t. t.nonce_of;
  cap = λ t. t.cap_of;
  tip = λ t. t.tip_of;
  nonce-set_nonce = λ k t. refl;
  nonce-set_cap = λ k t. refl;
  nonce-set_tip = λ k t. refl;
  cap-set_cap = λ k t. refl;
  cap-set_tip = λ k t. refl;
  cap-set_nonce = λ k t. refl;
  tip-set_tip = λ k t. refl;
  tip-set_nonce = λ k t. refl;
  broadcast = λ n. n.mempool;
  broadcast-send = λ t n. refl;
  broadcast-watch = λ h n. refl;
  broadcast-receipt = λ h n. refl;
  broadcast-count = λ a n. refl;
  broadcast-gas = λ t n. refl;
  broadcast-fees = λ n. refl;
}

abbrev policy : ReplacementPolicy
policy = record { confirmation_timeout = 60; max_replacements = 2; escalation_percent = 125 }

abbrev executor : MempoolExecutor
executor = with_replacement new policy

abbrev unsent : Request
unsent = record { nonce_of = none; gas = 0; cap_of = 100; tip_of = 20 }

-- Two timeouts and a transport failure, then the transaction is mined.
abbrev quiet : Network
quiet = record { mempool = []; script = timeout ∷ failed ∷ timeout ∷ [] }

-- Nothing is ever mined.
abbrev stuck : Network
stuck = record { mempool = []; script = timeout ∷ timeout ∷ timeout ∷ [] }

abbrev fees : Fees
fees = record { max_fee_per_gas = 100; max_priority_fee_per_gas = 20 }

fees-IsValid : IsValid fees
fees-IsValid = record { tip_below_cap = omega arith; in_range = omega arith }

abbrev action : SubmitTxToMempool node
action = record { tx = unsent; gas_bid_info = none }

policy-IsValidated : IsValidated policy
policy-IsValidated = record { bump = omega arith; budget = omega arith }

execute_total_example :
    (o : Outcome) × (end : Network) × (execute node executor action quiet ≡ some (o, end))
execute_total_example = execute_total node executor policy refl policy-IsValidated action quiet

-- The transactions of that run: the first submission and both replacements.
sent_requests : ℕ → ℕ → Request
sent_requests cap tip = record { nonce_of = some 7; gas = 120; cap_of = cap; tip_of = tip }

after_quiet : Network
unfolding sent_requests
after_quiet = record {
  mempool = sent_requests 100 20 ∷ sent_requests 125 25 ∷ sent_requests 156 31 ∷ [];
  script = [];
}

quiet_run : execute node executor action quiet ≡ some (ok, after_quiet)
unfolding execute after_quiet send_with_replacement gas_limit_with_headroom price_1559 step
    next_step escalate scale_percent clamped schedule_new classify
quiet_run = refl

execute-Handed_example :
    ((k : ℕ) × Handed node recorded k 3 quiet after_quiet)
    × (100 < bid_of none → (ok ≢ ok) × (after_quiet ≡ quiet))
execute-Handed_example =
    execute-Handed node executor policy refl policy-IsValidated recorded action quiet ok after_quiet
      quiet_run

-- The request as the executor hands it to the replacement loop.
abbrev prepared : Request
prepared = record { nonce_of = none; gas = 120; cap_of = 100; tip_of = 20 }

after_stuck : Network
unfolding sent_requests
after_stuck = record {
  mempool = sent_requests 100 20 ∷ sent_requests 125 25 ∷ sent_requests 156 31 ∷ [];
  script = [];
}

stuck_run :
    send_with_replacement node prepared fees policy stuck ≡ some (err (unconfirmed 2), after_stuck)
unfolding send_with_replacement after_stuck sent_requests step next_step escalate scale_percent
    clamped schedule_new classify sweep any_mined
stuck_run = refl

abbrev schedule : ReplacementSchedule
schedule = record {
  escalation_percent = 125;
  max_replacements = 2;
  fees = fees;
  issued = 1;
  transport_failures = 3;
}

schedule-IsSound : IsSound schedule
schedule-IsSound = record {
  valid = fees-IsValid;
  bump = omega arith;
  within = omega arith;
  budget = omega arith;
  transport = omega arith;
}

next_step-Verdict_example :
    Verdict schedule (next_step schedule timed_out).0 timed_out (next_step schedule timed_out).1
next_step-Verdict_example = next_step-Verdict schedule timed_out schedule-IsSound (omega arith)

-- The loop at its head, after two replacements, before the last timeout.
abbrev spent : Attempt node
spent = record {
  tx = prepared;
  pending = 2;
  sent = 0 ∷ 1 ∷ 2 ∷ [];
  schedule = record schedule { issued = 2; transport_failures = 0 };
  net = record { mempool = []; script = timeout ∷ [] };
}

given_up : Attempt node
given_up = record spent { net = record { mempool = []; script = [] } }
