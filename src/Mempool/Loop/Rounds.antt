-- ===== src/Mempool/Loop/Rounds.antt =====
-- What all rounds of the loop of src/executors/mempool_executor.rs hand to the node.
use artemis_light.Prelude.{
  ℕ, zero, suc, ◌+◌, ◌-◌, ◌≤◌, ◌≡◌, refl, sym, subst, ◌⊎◌, inl, inr, some, arith,
}
use artemis_light.Mempool.Schedule.{
  IsSound, next_step-IsSound, Verdict, on_confirmed, on_replace, on_exhausted, on_rewatch,
  on_transport, next_step-Verdict,
}
use artemis_light.Mempool.Loop.Total.{GoesOn, InLoop, act_again, step_again}
use artemis_light.Mempool.Node.{Provider, Recorded, Outcome}
use artemis_light.Mempool.{WatchOutcome, classify, NextStep, ReplacementSchedule, next_step}
use artemis_light.Mempool.Loop.{Attempt, Progress, done, again, step, loop}
use artemis_light.Mempool.Loop.Handed.{
  Handed, Handed-none, Handed-trans, state, cost, FeesValid, act-Handed,
}

module _ (p : Provider) (w : Recorded p) where
  -- The submissions that the schedule still allows.
  abbrev pub left : ReplacementSchedule → ℕ
  left s = s.max_replacements - s.issued

  Verdict-cost :
      {s t : ReplacementSchedule} {o : WatchOutcome} {n : NextStep}
      → IsSound s
      → IsSound t
      → t.max_replacements ≡ s.max_replacements
      → Verdict s t o n
      → FeesValid p w n × (cost p w n + left t ≤ left s ⊎ ¬ GoesOn n) × (cost p w n ≤ left s)
  Verdict-cost h k m (on_confirmed e) = (tt, inr (λ g. elim g [ ]), omega arith)
  Verdict-cost h k m (on_exhausted e) = (tt, inr (λ g. elim g [ ]), omega arith)
  Verdict-cost h k m (on_transport e) = (tt, inr (λ g. elim g [ ]), omega arith)
  Verdict-cost h k m (on_rewatch f i t b d) = (tt, inl (omega arith), omega arith)
  Verdict-cost {s = s} h k m (on_replace next e f i t d) =
      (rw (sym f) (k.valid), inl (omega arith), omega arith)

  abbrev verdict : Attempt p → NextStep
  verdict a = (next_step a.schedule (classify (p.watch a.pending a.net).0)).1

  -- One round, whatever the watch returned.
  step-Handed :
      (k : ℕ) (a : Attempt p)
      → InLoop a.schedule
      → w.nonce a.tx ≡ some k
      → Handed p w k (cost p w (verdict a)) a.net (state p w (step p a)).net
        × (w.nonce (state p w (step p a)).tx ≡ some k)
        × (cost p w (verdict a) ≤ left a.schedule)
  unfolding step
  step-Handed k a h e =
      let o = classify (p.watch a.pending a.net).0 in
      let (sound, budget, _) = next_step-IsSound a.schedule o h.sound h.failures in
      let (v, _, c) =
        Verdict-cost h.sound sound budget (next_step-Verdict a.schedule o h.sound h.failures) in
      let (g, t) = act-Handed p w k (p.watch a.pending a.net).0 (verdict a) _ e v in
      let watched = Handed-none p w k 0 a.net _ (w.broadcast-watch a.pending a.net) in
      (Handed-trans p w (cost p w (verdict a)) watched g (omega arith), t, c)

  step_spends :
      (a : Attempt p) {b : Attempt p}
      → InLoop a.schedule
      → step p a ≡ again b
      → cost p w (verdict a) + left b.schedule ≤ left a.schedule
  unfolding step
  step_spends a h e =
      let r = (p.watch a.pending a.net).0 in
      let o = classify r in
      let (sound, budget, _) = next_step-IsSound a.schedule o h.sound h.failures in
      let (goes, same) = act_again p r (verdict a) _ e in
      let (_, c, _) =
        Verdict-cost h.sound sound budget (next_step-Verdict a.schedule o h.sound h.failures) in
      elim c [ inl d ↦ rw same d | inr n ↦ absurd (n goes) ]

  pub Handed-widen :
      {k m : ℕ} {net end : p.Net} (n : ℕ) → Handed p w k m net end → m ≤ n → Handed p w k n net end
  Handed-widen n g h = record {
    txs = g.txs;
    grown = g.grown;
    few = omega (arith, g.few);
    pinned = g.pinned;
  }

  module _ (k fuel : ℕ) (a : Attempt p) (o : Outcome) (b : Attempt p) where
    -- The last round.
    done-Handed :
        {o' : Outcome} {c : Attempt p}
        → step p a ≡ done o' c
        → loop p (suc fuel) a ≡ some (o, b)
        → Handed p w k (cost p w (verdict a)) a.net (state p w (step p a)).net
        → Handed p w k (cost p w (verdict a)) a.net b.net
    unfolding loop
    done-Handed {o'} {c} q r g =
        let same : c ≡ b = ground (arith, q) in
        subst (λ x. Handed p w k (cost p w (verdict a)) a.net x.net) same
          (subst (λ s. Handed p w k (cost p w (verdict a)) a.net (state p w s).net) q g)

    loop_again :
        {c : Attempt p}
        → step p a ≡ again c
        → loop p (suc fuel) a ≡ some (o, b)
        → loop p fuel c ≡ some (o, b)
    unfolding loop
    loop_again q r = ground (arith, q)

  pub loop-Handed :
      (k fuel : ℕ) (a : Attempt p) (o : Outcome) (b : Attempt p)
      → InLoop a.schedule
      → w.nonce a.tx ≡ some k
      → loop p fuel a ≡ some (o, b)
      → Handed p w k (left a.schedule) a.net b.net
  unfolding loop
  loop-Handed k zero a o b h e r = cc
  loop-Handed k (suc fuel) a o b h e r = go (step p a) refl (λ c. loop-Handed k fuel c o b)
    where
      go :
          (s : Progress p)
          → step p a ≡ s
          → ((c : Attempt p)
              → InLoop c.schedule
              → w.nonce c.tx ≡ some k
              → loop p fuel c ≡ some (o, b)
              → Handed p w k (left c.schedule) c.net b.net)
          → Handed p w k (left a.schedule) a.net b.net
      go (done o' c) q ih =
          let (g, _, few) = step-Handed k a h e in
          Handed-widen (left a.schedule) (done-Handed k fuel a o b q r g) few
      go (again c) q ih =
          let (g, t, few) = step-Handed k a h e in
          let (keep, _, _) = step_again p a h q in
          Handed-trans p w (left a.schedule)
            (subst (λ s. Handed p w k (cost p w (verdict a)) a.net (state p w s).net) q g)
            (ih c keep (subst (λ s. w.nonce (state p w s).tx ≡ some k) q t)
              (loop_again k fuel a o b q r))
            (step_spends a h q)
