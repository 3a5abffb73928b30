-- ===== src/Writer/Window/Flush.antt =====
-- `flush_matured` of src/persistence/writer/window.rs keeps the order of what is stored and pending.
use artemis_light.Prelude.{
  ℕ, ◌+◌, ◌≤◌, ◌≡◌, refl, sym, ap, subst, ◌∙◌, ◌≢◌, Bool, true, false, Option, none, some, List, [],
  ◌∷◌, ◌++◌, arith, if◌then◌else◌,
}
use mathlib.Core.List.{append_assoc}
use artemis_light.Writer.Core.{Backend, IsFaithful, GapFreeWriter, flush, Flushed, flush-Flushed}
use artemis_light.Writer.Log.{
  Below, Above, Ascending, Below-weaken, Below-append, Above-append, Ascending-append,
}
use artemis_light.Writer.Window.{
  ConfirmationWindow, max_or, flush_matured, flush_slot, wrote, flush_all,
}
use artemis_light.Writer.Window.Slots.{Pending, slot, remove, is_matured, matured}
use artemis_light.Writer.Window.Rising.{Over, Rising, Unripe, matured-Rising}

module _ (b : Backend) where
  -- The groups written lie at or below the flushed key.
  abbrev pub Bounded : Option ℕ → List (b.P × List b.Row) → Type 0
  Bounded none log = log ≡ []
  Bounded (some f) log = Below b.pos (f + 1) log

  -- The groups written lie above the key at which the window resumed, and it does not fall below it.
  abbrev pub Later : Option ℕ → List (b.P × List b.Row) → Type 0
  Later none log = Unit
  Later (some f) log = Above b.pos f log

abbrev pub Floor : Option ℕ → Option ℕ → Type 0
Floor none flushed = Unit
Floor (some r) none = ⊥
Floor (some r) (some f) = r ≤ f

module _ (b : Backend) (f : IsFaithful b) where
  -- Over the log `base`, the window has stored groups of rising keys above the key `resumed`; its
  -- pending groups follow them in order.
  pub record IsLive (base : List (b.P × List b.Row)) (resumed : Option ℕ) (w : ConfirmationWindow b)
      : Type 0 where
    pub log : List (b.P × List b.Row)
    pub stored : f.stored w.core.store ≡ base ++ log
    pub ascending : Ascending b.pos log
    pub bound : Bounded b w.flushed log
    pub later : Later b resumed log
    pub floor : Floor resumed w.flushed
    pub rising : w.core.healthy ≡ true → Rising b w.flushed w.pending
    pub schema : w.core.healthy ≡ true → w.pending ≢ [] → w.core.schema ≢ none

  -- The window has halted, with its store as it was.
  pub IsLive-halt :
      (base : List (b.P × List b.Row)) (resumed : Option ℕ) (w v : ConfirmationWindow b)
      → IsLive base resumed w
      → f.stored v.core.store ≡ f.stored w.core.store
      → v.flushed ≡ w.flushed
      → v.core.healthy ≡ false
      → IsLive base resumed v
  IsLive-halt base resumed w v h s q n = record {
    log = h.log;
    stored = s ∙ h.stored;
    ascending = h.ascending;
    bound = subst (λ k. Bounded b k h.log) (sym q) h.bound;
    later = h.later;
    floor = subst (λ k. Floor resumed k) (sym q) h.floor;
    rising = λ e. cc;
    schema = λ e. cc;
  }

  Bounded-Over :
      (flushed : Option ℕ) (k : ℕ) (log : List (b.P × List b.Row))
      → Over flushed k
      → Bounded b flushed log
      → Below b.pos k log
  Bounded-Over none k log o e = subst (Below b.pos k) (sym e) tt
  Bounded-Over (some g) k log o e = Below-weaken b.pos (g + 1) k log (omega (arith, o)) e

  Later-append :
      (resumed flushed : Option ℕ) (p : b.P) (rows : List b.Row) (log : List (b.P × List b.Row))
      → Floor resumed flushed
      → Over flushed (b.pos.sort_key p)
      → Later b resumed log
      → Later b resumed (log ++ (p, rows) ∷ [])
  Later-append none flushed p rows log g o l = tt
  Later-append (some r) none p rows log g o l = absurd g
  Later-append (some r) (some f) p rows log g o l = Above-append b.pos r log p rows l (omega arith)

  max_or-Over : (flushed : Option ℕ) (k : ℕ) → Over flushed k → max_or flushed k ≡ k
  max_or-Over none k o = refl
  max_or-Over (some g) k o = omega arith

  Floor-Over :
      (resumed flushed : Option ℕ) (k : ℕ)
      → Floor resumed flushed
      → Over flushed k
      → Floor resumed (some k)
  Floor-Over none flushed k g o = tt
  Floor-Over (some r) none k g o = absurd g
  Floor-Over (some r) (some f) k g o = omega arith

  -- One group more in the store, the lowest of the pending ones.
  wrote-IsLive :
      (base : List (b.P × List b.Row)) (resumed : Option ℕ) (k : ℕ) (p : Pending b)
      (slots : List (ℕ × Pending b)) (w : ConfirmationWindow b) (core : GapFreeWriter b)
      → IsLive base resumed w
      → w.core.healthy ≡ true
      → Rising b w.flushed ((k, p) ∷ slots)
      → w.core.schema ≢ none
      → Flushed b f p.position p.rows w.core true core
      → IsLive base resumed (wrote b k p.position (true, core) (record w { pending = slots })).1
  unfolding wrote
  wrote-IsLive base resumed k p slots w core h up r n fl = record {
    log = h.log ++ (p.position, p.rows) ∷ [];
    stored =
        (fl.on_ok refl).1
        ∙ (ap (λ x. x ++ (p.position, p.rows) ∷ []) h.stored
            ∙ append_assoc base h.log ((p.position, p.rows) ∷ []));
    ascending =
        Ascending-append b.pos h.log p.position p.rows h.ascending
          (Bounded-Over w.flushed _ h.log over h.bound);
    bound = rw (max_or-Over w.flushed k r.0) (
        Below-append b.pos (k + 1) h.log p.position p.rows
          (Below-weaken b.pos k (k + 1) h.log (omega arith)
            (Bounded-Over w.flushed k h.log r.0 h.bound))
          (omega (arith, r.1)));
    later = Later-append resumed w.flushed p.position p.rows h.log h.floor over h.later;
    floor = rw (max_or-Over w.flushed k r.0) (Floor-Over resumed w.flushed k h.floor r.0);
    rising = λ _. rw (max_or-Over w.flushed k r.0) (r.2);
    schema = λ _ _ e. n (sym fl.schema ∙ e);
  }
    where
      over : Over w.flushed (b.pos.sort_key p.position)
      over = subst (λ i. Over w.flushed i) (sym r.1) r.0

  slot_first :
      (k : ℕ) (p : Pending b) (slots : List (ℕ × Pending b))
      → (slot b k ((k, p) ∷ slots) ≡ some p) × (remove b k ((k, p) ∷ slots) ≡ slots)
  unfolding slot remove
  slot_first k p slots = ground arith

  -- The lowest pending group is the first to be flushed.
  flush_slot_first :
      (k : ℕ) (p : Pending b) (slots : List (ℕ × Pending b)) (w : ConfirmationWindow b)
      → w.pending ≡ (k, p) ∷ slots
      → flush_slot b k (slot b k w.pending) w
        ≡ wrote b k p.position (flush b p.position p.rows w.core) (record w { pending = slots })
  unfolding flush_slot
  flush_slot_first k p slots w e =
      ap (λ o. flush_slot b k o w) (ap (slot b k) e ∙ (slot_first k p slots).0)
      ∙ ap (λ l. wrote b k p.position (flush b p.position p.rows w.core) (record w { pending = l }))
          (ap (remove b k) e ∙ (slot_first k p slots).1)

  -- The loop over the matured groups leaves none that has matured, unless a write has failed.
  flush_all-IsLive :
      (base : List (b.P × List b.Row)) (resumed : Option ℕ) (head depth : ℕ)
      (slots : List (ℕ × Pending b)) (w : ConfirmationWindow b)
      → IsLive base resumed w
      → w.core.healthy ≡ true
      → w.pending ≡ slots
      → IsLive base resumed (flush_all b (matured b head depth slots) w)
        × ((flush_all b (matured b head depth slots) w).core.healthy ≡ true
            → Unripe b head depth (flush_all b (matured b head depth slots) w).pending)
  unfolding flush_all matured wrote
  flush_all-IsLive base resumed head depth [] w h up e =
      (h, λ _. subst (Unripe b head depth) (sym e) tt)
  flush_all-IsLive base resumed head depth ((k, p) ∷ slots) w h up e =
      go (is_matured b head depth k) refl (subst (Rising b w.flushed) e (h.rising up))
        (λ v. flush_all-IsLive base resumed head depth slots v)
    where
      ks : List ℕ
      ks = matured b head depth slots

      Good : ConfirmationWindow b → Type 0
      Good v = IsLive base resumed v × (v.core.healthy ≡ true → Unripe b head depth v.pending)

      some_schema : w.core.schema ≢ none
      some_schema = h.schema up (λ z. cc)

      flushed_one :
          ((v : ConfirmationWindow b)
            → IsLive base resumed v
            → v.core.healthy ≡ true
            → v.pending ≡ slots
            → Good (flush_all b ks v))
          → Rising b w.flushed ((k, p) ∷ slots)
          → (ok : Bool) (core : GapFreeWriter b) → Flushed b f p.position p.rows w.core ok core
          → Good (
              let (goes_on, v) = wrote b k p.position (ok, core) (record w { pending = slots }) in
              let rest = flush_all b ks v in if goes_on then rest else v)
      flushed_one ih r false core fl = (
        IsLive-halt base resumed w (record w { core = core; pending = [] }) h (fl.on_err refl).1
            refl (fl.on_err refl).0,
        λ z. tt,
      )
      flushed_one ih r true core fl =
          ih (wrote b k p.position (true, core) (record w { pending = slots })).1
            (wrote-IsLive base resumed k p slots w core h up r some_schema fl)
            ((fl.on_ok refl).0 ∙ up) refl

      go :
          (x : Bool)
          → is_matured b head depth k ≡ x
          → Rising b w.flushed ((k, p) ∷ slots)
          → ((v : ConfirmationWindow b)
              → IsLive base resumed v
              → v.core.healthy ≡ true
              → v.pending ≡ slots
              → Good (flush_all b ks v))
          → Good (flush_all b (if x then k ∷ ks else ks) w)
      go false q r ih =
          let (nothing, unripe) = matured-Rising b head depth k slots r.2 q in
          subst (λ l. Good (flush_all b l w)) (sym nothing)
            (h, λ _. subst (Unripe b head depth) (sym e) (q, unripe))
      go true q r ih =
          subst
            (λ r.
              Good (
                let (goes_on, v) = r in let rest = flush_all b ks v in if goes_on then rest else v))
            (sym (flush_slot_first k p slots w e))
            (flushed_one ih r _ _ (flush-Flushed b f p.position p.rows w.core some_schema))

  flush_matured-some :
      (w : ConfirmationWindow b) (head : ℕ)
      → w.head ≡ some head
      → flush_matured b w ≡ flush_all b (matured b head w.depth w.pending) w
  unfolding flush_matured
  flush_matured-some w head e = go w.head e
    where
      go :
          (o : Option ℕ)
          → o ≡ some head
          → (elim o [ none ↦ w | some h ↦ flush_all b (matured b h w.depth w.pending) w ])
            ≡ flush_all b (matured b head w.depth w.pending) w
      go none q = cc
      go (some h) q = ap (λ i. flush_all b (matured b i w.depth w.pending) w) (ground (arith, q))

  -- On a healthy window whose stored and pending groups are in order, flushing keeps them so and
  -- leaves no group pending that is buried deep enough, unless a write has failed.
  pub flush_matured-IsLive :
      (base : List (b.P × List b.Row)) (resumed : Option ℕ) (w : ConfirmationWindow b) (head : ℕ)
      → IsLive base resumed w
      → w.core.healthy ≡ true
      → w.head ≡ some head
      → IsLive base resumed (flush_matured b w)
        × ((flush_matured b w).core.healthy ≡ true
            → Unripe b head w.depth (flush_matured b w).pending)
  flush_matured-IsLive base resumed w head h up e =
      subst (λ v. IsLive base resumed v × (v.core.healthy ≡ true → Unripe b head w.depth v.pending))
        (sym (flush_matured-some w head e))
        (flush_all-IsLive base resumed head w.depth w.pending w h up refl)
