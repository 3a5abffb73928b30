-- ===== src/Mempool/Loop/Failure.antt =====
-- When the replacement loop of src/executors/mempool_executor.rs reports a failure: only after a sweep
-- of the receipts of everything that was sent found none.
use artemis_light.Prelude.{◌≡◌, ◌≢◌, false, none}
use artemis_light.Mempool.{WatchResult, failed, NextStep, finish, replace, rewatch, give_up}
use artemis_light.Mempool.Node.{Provider, ok, err}
use artemis_light.Mempool.Loop.{Attempt, Progress, done, again, last?, any_mined}

-- The schedule asks for a re-watch only after a watch that failed in transport.
abbrev Honest : WatchResult → NextStep → Type 0
Honest r rewatch = r ≡ failed
Honest r finish = Unit
Honest r give_up = Unit
Honest r (replace fees) = Unit

module _ (p : Provider) where
  -- The last thing that was done is a sweep over all hashes sent, and it found no receipt.
  abbrev pub Swept : Attempt p → Type 0
  Swept b = (net : p.Net) × (any_mined p b.sent net ≡ (false, b.net))

  -- What a round keeps: something was sent, and a failure comes after a sweep.
  abbrev Checked : Progress p → Type 0
  Checked (done ok b) = Unit
  Checked (done (err e) b) = Swept b
  Checked (again b) = last? b.sent ≢ none
