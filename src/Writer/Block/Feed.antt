-- ===== src/Writer/Block/Feed.antt =====
-- `BlockWriter::record` (src/persistence/writer/block.rs) on every event of a range.
use mathlib.Core.List.{append_assoc, append-nil}
use artemis_light.Prelude.{
  ℕ, ◌≡◌, refl, sym, subst, inl, inr, Bool, true, false, Option, none, some, List, [], ◌∷◌, ◌++◌,
  if◌then◌else◌, Bool-cases,
}
use artemis_light.Writer.Block.Kept.{record_event-Held}
use artemis_light.Writer.Block.Steps.{
  record_event_rec, record_event_halted, record_event_skip, record_event_unencoded,
}
use artemis_light.Writer.Core.{Backend, IsFaithful, core_new}
use artemis_light.Writer.Block.{BlockWriter, new, record_event, finish}
use artemis_light.Writer.Block.Invariant.{keyed, Held, Held-more}

module _ (b : Backend) where
  row_then : b.P → Option b.Row → List (ℕ × b.Row) → List (ℕ × b.Row)
  row_then p none rest = []
  row_then p (some row) rest = (b.pos.sort_key p, row) ∷ rest

  -- The rows the record makes of these events, up to the first that it cannot encode.
  pub rows_of : List (b.P × b.E) → b.Rec → List (ℕ × b.Row)
  unfolding row_then
  rows_of [] r = []
  rows_of ((p, e) ∷ events) r = row_then p (b.encode e r).0 (rows_of events (b.encode e r).1)

  -- The events delivered downstream, and the writer after the range.
  unfoldable pub feed : List (b.P × b.E) → BlockWriter b → List (b.P × b.E) × BlockWriter b
  feed [] w = ([], w)
  feed ((p, e) ∷ events) w =
      let (deliver, v) = record_event b p e w in
      let (rest, u) = feed events v in (if deliver then (p, e) ∷ rest else rest, u)

module _ (b : Backend) where
  -- A whole range into a fresh writer, with what was delivered of it.
  unfoldable pub backfill :
      b.Db → b.Rec → Option b.P → List (b.P × b.E) → List (b.P × b.E) × BlockWriter b
  backfill db rec seed events =
      let (delivered, w) = feed b events (new b (core_new b db rec) seed) in (delivered, finish b w)

module _ (b : Backend) (f : IsFaithful b) where
  -- A halted writer delivers everything and stores nothing.
  feed_halted :
      (events : List (b.P × b.E)) (w : BlockWriter b)
      → w.core.healthy ≡ false
      → feed b events w ≡ (events, w)
  unfolding feed
  feed_halted [] w h = refl
  feed_halted ((p, e) ∷ events) w h =
      rw (record_event_halted b f p e w h, feed_halted events w h) refl

  -- Every event of the range: what is stored is a prefix of the rows of the events delivered.
  pub feed-Held :
      (base : List (b.P × List b.Row)) (events : List (b.P × b.E)) (seen : List (ℕ × b.Row))
      (w : BlockWriter b)
      → Held b f base seen w
      → Held b f base (seen ++ rows_of b (feed b events w).0 w.core.rec) (feed b events w).1
  unfolding feed rows_of row_then keyed
  feed-Held base [] seen w h = subst (λ s. Held b f base s w) (sym (append-nil seen)) h
  feed-Held base ((p, e) ∷ events) seen w h = elim (Bool-cases w.core.healthy) [
    | inl up ↦ go (λ s u k. feed-Held base events s u k) up (record_event b p e w).0 refl
    | inr down ↦
        subst (λ r. Held b f base (seen ++ rows_of b r.0 w.core.rec) r.1)
          (sym (feed_halted ((p, e) ∷ events) w down)) (Held-more b f base seen _ w w h refl down)
  ]
    where
      v : BlockWriter b
      v = (record_event b p e w).1

      next :
          ((s : List (ℕ × b.Row)) (u : BlockWriter b)
            → Held b f base s u
            → Held b f base (s ++ rows_of b (feed b events u).0 u.core.rec) (feed b events u).1)
          → w.core.healthy ≡ true
          → (record_event b p e w).0 ≡ true
          → (r : Option b.Row) → (b.encode e w.core.rec).0 ≡ r
          → Held b f base (seen ++ keyed b p r) v
          → Held b f base
              (seen ++ row_then b p r (rows_of b (feed b events v).0 (b.encode e w.core.rec).1))
              (feed b events v).1
      next ih up d none q k =
          subst (λ r. Held b f base (seen ++ []) r.1)
            (sym (feed_halted events v (record_event_unencoded b f p e w up d q))) k
      next ih up d (some row) q k =
          subst (λ x. Held b f base x (feed b events v).1)
            (append_assoc seen ((b.pos.sort_key p, row) ∷ []) _)
            (subst
              (λ r.
                Held b f base
                  ((seen ++ (b.pos.sort_key p, row) ∷ []) ++ rows_of b (feed b events v).0 r)
                  (feed b events v).1)
              (record_event_rec b f p e w up d) (ih (seen ++ (b.pos.sort_key p, row) ∷ []) v k))

      go :
          ((s : List (ℕ × b.Row)) (u : BlockWriter b)
            → Held b f base s u
            → Held b f base (s ++ rows_of b (feed b events u).0 u.core.rec) (feed b events u).1)
          → w.core.healthy ≡ true
          → (d : Bool) → (record_event b p e w).0 ≡ d
          → Held b f base
              (seen
                ++ rows_of b
                    (if d then (p, e) ∷ (feed b events v).0 else (feed b events v).0)
                    w.core.rec)
              (feed b events v).1
      go ih up false q =
          subst
            (λ u.
              Held b f base (seen ++ rows_of b (feed b events u).0 w.core.rec) (feed b events u).1)
            (sym (record_event_skip b f p e w q)) (ih seen w h)
      go ih up true q =
          next ih up q (b.encode e w.core.rec).0 refl (record_event-Held b f base seen p e w h up q)
