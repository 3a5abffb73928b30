-- ===== src/Writer/Block/Steps.antt =====
-- Each step of `BlockWriter::record` (src/persistence/writer/block.rs) keeps what the writer holds.
use artemis_light.Prelude.{
  ◌≡◌, refl, ◌∙◌, Bool, true, false, ◌&&◌, Option, none, some, [], ltb, if◌then◌else◌,
}
use artemis_light.Position.{Reobservation, halt, dedupe}
use artemis_light.Writer.Core.{
  Backend, IsFaithful, GapFreeWriter, fail, encode, flush, flush_rec, encode-Encoded,
}
use artemis_light.Writer.Block.{
  BlockWriter, is_dedupe, covered, with_row, record_event, place, closed, push,
}
use artemis_light.Writer.Block.Kept.{outcome}

module _ (b : Backend) (f : IsFaithful b) where
  closed_rec :
      (p c : b.P) (row : b.Row) (w : BlockWriter b) (r : Bool × GapFreeWriter b)
      → (closed b p row c r w).core.rec ≡ r.1.rec
  unfolding closed push
  closed_rec p c row w (false, core) = refl
  closed_rec p c row w (true, core) = refl

  place_rec :
      (p : b.P) (row : b.Row) (w : BlockWriter b) (o : Option b.P)
      → (place b p row o w).core.rec ≡ w.core.rec
  unfolding place push
  place_rec p row w none = refl
  place_rec p row w (some c) =
      branch (ltb (b.pos.sort_key p) (b.pos.sort_key c)) (ltb (b.pos.sort_key c) (b.pos.sort_key p))
    where
      branch :
          (x y : Bool)
          → (if x
              then record w { core = fail b w.core; buffer = [] }
              else if y
              then closed b p row c (flush b c w.buffer w.core) w
              else push b p row w).core.rec
            ≡ w.core.rec
      branch true y = refl
      branch false true = closed_rec p c row w _ ∙ flush_rec b c w.buffer w.core
      branch false false = refl

  with_row_rec :
      (p : b.P) (w : BlockWriter b) (r : Option b.Row × GapFreeWriter b)
      → (with_row b p r w).core.rec ≡ r.1.rec
  unfolding with_row
  with_row_rec p w (none, core) = refl
  with_row_rec p w (some row, core) = place_rec p row (record w { core = core }) w.current

  -- A delivered event went through the encoder, unless the writer had halted.
  pub record_event_rec :
      (p : b.P) (e : b.E) (w : BlockWriter b)
      → w.core.healthy ≡ true
      → (record_event b p e w).0 ≡ true
      → (record_event b p e w).1.core.rec ≡ (b.encode e w.core.rec).1
  unfolding record_event outcome
  record_event_rec p e w up d =
      branch w.core.healthy (is_dedupe b.pos.reobservation && covered b w p) up d
    where
      branch :
          (x y : Bool)
          → x ≡ true
          → (outcome b p e w x y).0 ≡ true
          → (outcome b p e w x y).1.core.rec ≡ (b.encode e w.core.rec).1
      branch false y u v = cc
      branch true true u v = cc
      branch true false u v = with_row_rec p w _ ∙ (encode-Encoded b f e w.core).rec

  pub record_event_halted :
      (p : b.P) (e : b.E) (w : BlockWriter b)
      → w.core.healthy ≡ false
      → record_event b p e w ≡ (true, w)
  unfolding record_event outcome
  record_event_halted p e w h = rw h refl

  pub record_event_delivers :
      (p : b.P) (e : b.E) (w : BlockWriter b)
      → b.pos.reobservation ≡ halt
      → (record_event b p e w).0 ≡ true
  unfolding record_event outcome
  record_event_delivers p e w h = go b.pos.reobservation w.core.healthy h
    where
      go :
          (r : Reobservation) (x : Bool)
          → r ≡ halt
          → (outcome b p e w x (is_dedupe r && covered b w p)).0 ≡ true
      go halt true q = refl
      go halt false q = refl
      go dedupe x q = cc

  -- An event that is held back changes nothing.
  pub record_event_skip :
      (p : b.P) (e : b.E) (w : BlockWriter b)
      → (record_event b p e w).0 ≡ false
      → (record_event b p e w).1 ≡ w
  unfolding record_event outcome
  record_event_skip p e w d =
      branch w.core.healthy (is_dedupe b.pos.reobservation && covered b w p) d
    where
      branch : (x y : Bool) → (outcome b p e w x y).0 ≡ false → (outcome b p e w x y).1 ≡ w
      branch false y v = cc
      branch true true v = refl
      branch true false v = cc

  -- An event that cannot be encoded halts the writer.
  pub record_event_unencoded :
      (p : b.P) (e : b.E) (w : BlockWriter b)
      → w.core.healthy ≡ true
      → (record_event b p e w).0 ≡ true
      → (b.encode e w.core.rec).0 ≡ none
      → (record_event b p e w).1.core.healthy ≡ false
  unfolding record_event with_row outcome
  record_event_unencoded p e w up d n =
      branch w.core.healthy (is_dedupe b.pos.reobservation && covered b w p) up d
    where
      halts :
          (r : Option b.Row × GapFreeWriter b)
          → r.0 ≡ none
          → (r.0 ≡ none → r.1.healthy ≡ false)
          → (with_row b p r w).core.healthy ≡ false
      halts (none, core) z h = h refl
      halts (some row, core) z h = cc

      branch :
          (x y : Bool)
          → x ≡ true
          → (outcome b p e w x y).0 ≡ true
          → (outcome b p e w x y).1.core.healthy ≡ false
      branch false y u v = cc
      branch true true u v = cc
      branch true false u v =
          halts (encode b e w.core) ((encode-Encoded b f e w.core).same_row ∙ n)
            (encode-Encoded b f e w.core).no_row
