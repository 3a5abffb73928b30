-- ===== src/Writer/Window/Live.antt =====
-- `ConfirmationWindow::record` and `retract` of src/persistence/writer/window.rs, for block sources.
use artemis_light.Prelude.{
  ℕ, ◌≡◌, refl, sym, ap, subst, ◌∙◌, ◌≢◌, Bool, true, false, not, ◌&&◌, Option, none, some, List,
  [], arith, ltb, if◌then◌else◌,
}
use artemis_light.Position.{halt}
use artemis_light.Writer.Core.{Backend, IsFaithful, GapFreeWriter, encode, Encoded, encode-Encoded}
use artemis_light.Writer.Block.{is_dedupe}
use artemis_light.Writer.Window.{
  ConfirmationWindow, max_or, reaches, halt_window, is_covered, record_live, retract, reorged,
  live_row, enter, head_below,
}
use artemis_light.Writer.Window.Slots.{Pending, slot, put, rewind, live_group, live_group_key}
use artemis_light.Writer.Window.Rising.{
  Over, Rising, Unripe, slot-Rising, put-Rising, rewind-Rising,
}
use artemis_light.Writer.Window.Flush.{Bounded, Floor, IsLive, IsLive-halt, flush_matured-IsLive}

module _ (b : Backend) (f : IsFaithful b) (halts : b.pos.reobservation ≡ halt) where
  no_dedupe : is_dedupe b.pos.reobservation ≡ false
  no_dedupe = rw halts

  -- The window `v` has the stored groups of `w`, and pending ones in order.
  IsLive-pending :
      (base : List (b.P × List b.Row)) (resumed : Option ℕ) (w v : ConfirmationWindow b)
      → IsLive b f base resumed w
      → f.stored v.core.store ≡ f.stored w.core.store
      → v.flushed ≡ w.flushed
      → Rising b w.flushed v.pending
      → (v.pending ≢ [] → v.core.schema ≢ none)
      → IsLive b f base resumed v
  IsLive-pending base resumed w v h s q r n = record {
    log = h.log;
    stored = s ∙ h.stored;
    ascending = h.ascending;
    bound = subst (λ k. Bounded b k h.log) (sym q) h.bound;
    later = h.later;
    floor = subst (λ k. Floor resumed k) (sym q) h.floor;
    rising = λ _. subst (λ k. Rising b k v.pending) (sym q) r;
    schema = λ _. n;
  }

  -- What a shallow reorg leaves as it was.
  record Rewound (w v : ConfirmationWindow b) : Type 0 where
    core : v.core ≡ w.core
    flushed : v.flushed ≡ w.flushed
    depth : v.depth ≡ w.depth
    rising : Rising b w.flushed v.pending

  reorged-Rewound :
      (key : ℕ) (w : ConfirmationWindow b)
      → Rising b w.flushed w.pending
      → Rewound w (reorged b key w)
  unfolding reorged
  reorged-Rewound key w r = go w.head
    where
      same : Rewound w w
      same = record { core = refl; flushed = refl; depth = refl; rising = r }

      branch :
          (x : Bool)
          → Rewound w
              (if x then record w { pending = rewind b key w.pending; head = some key } else w)
      branch false = same
      branch true = record {
        core = refl;
        flushed = refl;
        depth = refl;
        rising = rewind-Rising b key w.flushed w.pending r;
      }

      go :
          (o : Option ℕ)
          → Rewound w (elim o [
            | none ↦ w
            | some h ↦
                if not (is_dedupe b.pos.reobservation) && ltb key h
                then record w { pending = rewind b key w.pending; head = some key }
                else w
          ])
      go none = same
      go (some h) = branch _

  -- The event's group in its slot, before what has matured is written.
  enter-IsLive :
      (base : List (b.P × List b.Row)) (resumed : Option ℕ) (key : ℕ) (p : Pending b)
      (w v : ConfirmationWindow b)
      → IsLive b f base resumed w
      → f.stored v.core.store ≡ f.stored w.core.store
      → v.flushed ≡ w.flushed
      → v.core.healthy ≡ true
      → v.core.schema ≢ none
      → Rising b w.flushed v.pending
      → Over w.flushed key
      → b.pos.sort_key p.position ≡ key
      → IsLive b f base resumed (enter b key p v)
        × ((enter b key p v).core.healthy ≡ true
            → Unripe b (max_or v.head key) v.depth (enter b key p v).pending)
  unfolding enter
  enter-IsLive base resumed key p w v h s q up n r o e =
      let u = record v { pending = put b key p v.pending; head = some (max_or v.head key) } in
      flush_matured-IsLive b f base resumed u (max_or v.head key)
        (IsLive-pending base resumed w u h s q (put-Rising b w.flushed key p v.pending o e r)
          (λ _. n))
        up refl

  live_row-IsLive :
      (base : List (b.P × List b.Row)) (resumed : Option ℕ) (position : b.P) (e : b.E)
      (w : ConfirmationWindow b) (r : Option b.Row) (core : GapFreeWriter b)
      → IsLive b f base resumed w
      → w.core.healthy ≡ true
      → Over w.flushed (b.pos.sort_key position)
      → Encoded b f e w.core r core
      → IsLive b f base resumed (live_row b position (r, core) w).1
  unfolding live_row
  live_row-IsLive base resumed position e w none core h up o k =
      IsLive-halt b f base resumed w (record w { core = core; pending = [] }) h
        (ap f.stored k.store) refl (k.no_row refl)
  live_row-IsLive base resumed position e w (some row) core h up o k =
      let key = b.pos.sort_key position in
      let u = record w { core = core } in
      let v = reorged b key u in
      let m = reorged-Rewound key u (h.rising up) in
      let (healthy, n) = k.some_row (λ z. cc) in
      (enter-IsLive base resumed key (live_group b position row (slot b key v.pending)).1 w v h
        (ap (λ c. f.stored c.store) m.core ∙ ap f.stored k.store) m.flushed
        (ap (λ c. c.healthy) m.core ∙ (healthy ∙ up)) (λ z. n (sym (ap (λ c. c.schema) m.core) ∙ z))
        m.rising o
        (live_group_key b f.lawful position row (slot b key v.pending)
          (λ p q. slot-Rising b w.flushed key v.pending p m.rising q))).0

  Over-reaches : (flushed : Option ℕ) (k : ℕ) → reaches flushed k ≡ false → Over flushed k
  Over-reaches none k h = tt
  Over-reaches (some g) k h = ground arith

  -- An event of a block source keeps the stored groups and the pending ones in order.
  pub record_live-IsLive :
      (base : List (b.P × List b.Row)) (resumed : Option ℕ) (position : b.P) (e : b.E)
      (w : ConfirmationWindow b)
      → IsLive b f base resumed w
      → IsLive b f base resumed (record_live b position e w).1
  unfolding record_live halt_window
  record_live-IsLive base resumed position e w h =
      branch w.core.healthy (is_dedupe b.pos.reobservation && is_covered b w position)
        (not (is_dedupe b.pos.reobservation) && reaches w.flushed (b.pos.sort_key position)) refl
        (λ q. Over-reaches w.flushed (b.pos.sort_key position) (ground (arith, no_dedupe, q)))
    where
      branch :
          (x y z : Bool)
          → w.core.healthy ≡ x
          → (z ≡ false → Over w.flushed (b.pos.sort_key position))
          → IsLive b f base resumed
              (if◌then◌else◌ {A = Bool × ConfirmationWindow b} x
                (if y
                  then (false, w)
                  else if z
                  then (true, halt_window b w)
                  else live_row b position (encode b e w.core) w)
                (true, w)).1
      branch false y z up o = h
      branch true true z up o = h
      branch true false true up o =
          IsLive-halt b f base resumed w (halt_window b w) h refl refl refl
      branch true false false up o =
          live_row-IsLive base resumed position e w _ _ h up (o refl) (encode-Encoded b f e w.core)

  -- So does a retraction, which writes nothing.
  pub retract-IsLive :
      (base : List (b.P × List b.Row)) (resumed : Option ℕ) (position : b.P)
      (w : ConfirmationWindow b)
      → IsLive b f base resumed w
      → IsLive b f base resumed (retract b position w)
  unfolding retract halt_window rewind
  retract-IsLive base resumed position w h =
      branch w.core.healthy (is_dedupe b.pos.reobservation)
        (reaches w.flushed (b.pos.sort_key position)) refl
    where
      rewound : ConfirmationWindow b
      rewound = record w {
        pending = rewind b (b.pos.sort_key position) w.pending;
        head = head_below b (b.pos.sort_key position) w.head;
      }

      branch :
          (x y z : Bool)
          → w.core.healthy ≡ x
          → IsLive b f base resumed
              (if not x then w else if y then w else if z then halt_window b w else rewound)
      branch false y z up = h
      branch true true z up = h
      branch true false true up = IsLive-halt b f base resumed w (halt_window b w) h refl refl refl
      branch true false false up =
          IsLive-pending base resumed w rewound h refl refl
            (rewind-Rising b (b.pos.sort_key position) w.flushed w.pending (h.rising up))
            (λ z. h.schema up (λ e. z (ap (rewind b (b.pos.sort_key position)) e)))
