-- ===== src/Writer/Block/Kept.antt =====
-- `BlockWriter::record` (src/persistence/writer/block.rs) keeps what the writer holds.
use mathlib.Core.List.{append_assoc}
use artemis_light.Prelude.{
  ℕ, ◌<◌, ◌≡◌, refl, sym, ap, subst, ◌∙◌, ◌≢◌, Bool, true, false, ◌&&◌, Option, none, some, List,
  [], ◌∷◌, ◌++◌, arith, ltb, if◌then◌else◌,
}
use artemis_light.Writer.Core.{
  Backend, IsFaithful, GapFreeWriter, fail, encode, flush, Encoded, encode-Encoded, Flushed,
  flush-Flushed,
}
use artemis_light.Writer.Log.{
  tag, flat, flat-append, flat-one, Below-weaken, Below-append, Ascending-append,
}
use artemis_light.Writer.Block.{
  BlockWriter, is_dedupe, covered, with_row, record_event, place, push, closed,
}
use artemis_light.Writer.Block.Invariant.{IsOpen, keyed, Held, Held-more, IsOpen-next, IsOpen-above}

module _ (b : Backend) where
  -- `record_event` on the outcome of its two tests.
  unfoldable pub outcome : b.P → b.E → BlockWriter b → Bool → Bool → Bool × BlockWriter b
  outcome p e w x y =
      if x
      then (if y then (false, w) else (true, with_row b p (encode b e w.core) w))
      else (true, w)

module _ (b : Backend) (f : IsFaithful b) where
  -- The open group as one more group of the log.
  pub flat_close :
      (base : List (b.P × List b.Row)) (seen : List (ℕ × b.Row)) (w : BlockWriter b)
      (h : Held b f base seen w) (c : b.P)
      → h.rest ≡ tag b.pos (b.pos.sort_key c) w.buffer
      → flat b.pos (h.log ++ (c, w.buffer) ∷ []) ≡ seen
  flat_close base seen w h c e =
      flat-append b.pos h.log ((c, w.buffer) ∷ [])
      ∙ (ap (λ x. flat b.pos h.log ++ x) (flat-one b.pos c w.buffer ∙ sym e) ∙ h.split)

  -- A row taken into an open group, or into a new one above the last.
  closed-Held :
      (base : List (b.P × List b.Row)) (seen : List (ℕ × b.Row)) (p c : b.P) (row : b.Row)
      (w : BlockWriter b) (ok : Bool) (core : GapFreeWriter b)
      → Held b f base seen w
      → w.core.healthy ≡ true
      → w.current ≡ some c
      → w.core.schema ≢ none
      → b.pos.sort_key c < b.pos.sort_key p
      → Flushed b f c w.buffer w.core ok core
      → Held b f base (seen ++ keyed b p (some row)) (closed b p row c (ok, core) w)
  unfolding closed push
  closed-Held base seen p c row w false core h up cur n lt fl =
      Held-more b f base seen _ w (closed b p row c (false, core) w) h (fl.on_err refl).1
        (fl.on_err refl).0
  closed-Held base seen p c row w true core h up cur n lt fl = record {
    log = h.log ++ (c, w.buffer) ∷ [];
    rest = keyed b p (some row);
    stored =
        (fl.on_ok refl).1
        ∙ (ap (λ x. x ++ (c, w.buffer) ∷ []) h.stored ∙ append_assoc base h.log _);
    ascending = Ascending-append b.pos h.log c w.buffer h.ascending ((h.group up).busy c cur).0;
    split =
        ap (λ x. x ++ keyed b p (some row))
          (flat_close base seen w h c ((h.group up).busy c cur).1);
    group = λ e.
        IsOpen-above b f p row (h.log ++ (c, w.buffer) ∷ []) core.schema
          (Below-append b.pos _ h.log c w.buffer
            (Below-weaken b.pos _ _ h.log (omega arith) ((h.group up).busy c cur).0) lt)
          (λ z. n (sym fl.schema ∙ z));
  }

  -- A row at the open group's key, or the first row of all.
  push-Held :
      (base : List (b.P × List b.Row)) (seen : List (ℕ × b.Row)) (p : b.P) (row : b.Row)
      (w : BlockWriter b) (h : Held b f base seen w)
      → IsOpen b h.log
          (h.rest ++ keyed b p (some row))
          (some (b.pos.advance w.current p))
          (w.buffer ++ row ∷ [])
          w.core.schema
      → Held b f base (seen ++ keyed b p (some row)) (push b p row w)
  unfolding push
  push-Held base seen p row w h o = record {
    log = h.log;
    rest = h.rest ++ keyed b p (some row);
    stored = h.stored;
    ascending = h.ascending;
    split =
        sym (append_assoc (flat b.pos h.log) h.rest _)
        ∙ ap (λ x. x ++ keyed b p (some row)) h.split;
    group = λ _. o;
  }

  place-Held :
      (base : List (b.P × List b.Row)) (seen : List (ℕ × b.Row)) (p : b.P) (row : b.Row)
      (w : BlockWriter b)
      → Held b f base seen w
      → w.core.healthy ≡ true
      → w.core.schema ≢ none
      → Held b f base (seen ++ keyed b p (some row)) (place b p row w.current w)
  unfolding place
  place-Held base seen p row w h up n = go w.current refl
    where
      branch :
          (c : b.P) (x y : Bool)
          → w.current ≡ some c
          → ltb (b.pos.sort_key p) (b.pos.sort_key c) ≡ x
          → ltb (b.pos.sort_key c) (b.pos.sort_key p) ≡ y
          → Held b f base (seen ++ keyed b p (some row)) (
              if x
              then record w { core = fail b w.core; buffer = [] }
              else if y
              then closed b p row c (flush b c w.buffer w.core) w
              else push b p row w)
      branch c true y e l g =
          Held-more b f base seen _ w (record w { core = fail b w.core; buffer = [] }) h refl refl
      branch c false true e l g =
          closed-Held base seen p c row w (flush b c w.buffer w.core).0
            (flush b c w.buffer w.core).1 h up e n (ground arith)
            (flush-Flushed b f c w.buffer w.core n)
      branch c false false e l g = push-Held base seen p row w h (
          subst
            (λ o.
              IsOpen b h.log (h.rest ++ keyed b p (some row)) (some (b.pos.advance o p))
                (w.buffer ++ row ∷ []) w.core.schema)
            (sym e)
            (IsOpen-next b f c p row h.log h.rest w.buffer w.core.schema
              (subst (λ o. IsOpen b h.log h.rest o w.buffer w.core.schema) e (h.group up))
              (ground arith)))

      first :
          w.current ≡ none
          → (h.log ≡ []) × (h.rest ≡ []) × (w.buffer ≡ [])
          → IsOpen b h.log
              (h.rest ++ keyed b p (some row))
              (some (b.pos.advance w.current p))
              (w.buffer ++ row ∷ [])
              w.core.schema
      first e (l, r, u) = rw (e, l, r, u) (IsOpen-above b f p row [] w.core.schema tt n)

      go :
          (o : Option b.P)
          → w.current ≡ o
          → Held b f base (seen ++ keyed b p (some row)) (place b p row o w)
      go none e = push-Held base seen p row w h (first e ((h.group up).idle e))
      go (some c) e = branch c _ _ e refl refl

  with_schema :
      (log : List (b.P × List b.Row)) (rest : List (ℕ × b.Row)) (current : Option b.P)
      (buffer : List b.Row) (s t : Option b.Schema)
      → IsOpen b log rest current buffer s
      → t ≢ none
      → IsOpen b log rest current buffer t
  with_schema log rest current buffer s t o n = record {
    idle = o.idle;
    busy = λ c e. ((o.busy c e).0, (o.busy c e).1, n);
  }

  -- What the encoder returned, placed.
  with_row-Held :
      (base : List (b.P × List b.Row)) (seen : List (ℕ × b.Row)) (p : b.P) (e : b.E)
      (w : BlockWriter b) (r : Option b.Row) (core : GapFreeWriter b)
      → Held b f base seen w
      → w.core.healthy ≡ true
      → Encoded b f e w.core r core
      → Held b f base (seen ++ keyed b p r) (with_row b p (r, core) w)
  unfolding with_row keyed
  with_row-Held base seen p e w none core h up k =
      Held-more b f base seen [] w (record w { core = core; buffer = [] }) h (ap f.stored k.store)
        (k.no_row refl)
  with_row-Held base seen p e w (some row) core h up k =
      place-Held base seen p row (record w { core = core })
        (record {
          log = h.log;
          rest = h.rest;
          stored = ap f.stored k.store ∙ h.stored;
          ascending = h.ascending;
          split = h.split;
          group = λ _.
              with_schema h.log h.rest w.current w.buffer w.core.schema core.schema (h.group up)
                (k.some_row (λ z. cc)).1;
        })
        ((k.some_row (λ z. cc)).0 ∙ up) (k.some_row (λ z. cc)).1

  -- What has been seen after a delivered event.
  pub record_event-Held :
      (base : List (b.P × List b.Row)) (seen : List (ℕ × b.Row)) (p : b.P) (e : b.E)
      (w : BlockWriter b)
      → Held b f base seen w
      → w.core.healthy ≡ true
      → (record_event b p e w).0 ≡ true
      → Held b f base (seen ++ keyed b p (b.encode e w.core.rec).0) (record_event b p e w).1
  unfolding record_event outcome
  record_event-Held base seen p e w h up d =
      branch w.core.healthy (is_dedupe b.pos.reobservation && covered b w p) up d
    where
      branch :
          (x y : Bool)
          → x ≡ true
          → (outcome b p e w x y).0 ≡ true
          → Held b f base (seen ++ keyed b p (b.encode e w.core.rec).0) (outcome b p e w x y).1
      branch false y u v = cc
      branch true true u v = cc
      branch true false u v =
          subst (λ r. Held b f base (seen ++ keyed b p r) (with_row b p (encode b e w.core) w))
            (encode-Encoded b f e w.core).same_row
            (with_row-Held base seen p e w _ _ h up (encode-Encoded b f e w.core))
