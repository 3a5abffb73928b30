-- ===== src/Writer/Core.antt =====
-- `GapFreeWriter` of src/persistence/writer/mod.rs: encode an event, write a group, and stay halted
-- after the first failure of either.
use artemis_light.Prelude.{
  ◌≡◌, refl, sym, ◌≢◌, Bool, true, false, Option, none, some, List, [], ◌∷◌, ◌++◌,
}
use artemis_light.Position.{Position, IsLawful}

-- What a writer is generic over: the position, the event, and the operations of the `Store` and the
-- `Record` behind it, each from one state to the next. `Db` is the state of the store and `Rec` that
-- of the record, whose columns the first encode freezes.
pub record Backend : Type 1 where
  pub P : Type 0
  pub E : Type 0
  pub Row : Type 0
  pub Schema : Type 0
  pub Db : Type 0
  pub Rec : Type 0
  pub pos : Position P
  pub row_eq : Row → Row → Bool
  pub write : Schema → P → List Row → Db → Bool × Db
  pub encode : E → Rec → Option Row × Rec
  pub schema : Rec → Option Schema

-- What the theorems rely on. A write is one transaction: it adds its group to what is stored or
-- leaves it alone; an encode that succeeds leaves the record with a schema.
pub record IsFaithful (b : Backend) : Type 0 where
  pub lawful : IsLawful b.pos
  pub stored : b.Db → List (b.P × List b.Row)
  pub write_ok :
      (s : b.Schema) (p : b.P) (rows : List b.Row) (db : b.Db)
      → (b.write s p rows db).0 ≡ true
      → stored (b.write s p rows db).1 ≡ stored db ++ (p, rows) ∷ []
  pub write_err :
      (s : b.Schema) (p : b.P) (rows : List b.Row) (db : b.Db)
      → (b.write s p rows db).0 ≡ false
      → stored (b.write s p rows db).1 ≡ stored db
  pub encode_schema :
      (e : b.E) (r : b.Rec) (row : b.Row)
      → (b.encode e r).0 ≡ some row
      → b.schema (b.encode e r).1 ≢ none

pub record GapFreeWriter (b : Backend) : Type 0 where
  pub store : b.Db
  pub rec : b.Rec
  pub schema : Option b.Schema
  pub healthy : Bool

module _ (b : Backend) where
  -- `GapFreeWriter::new`
  abbrev pub core_new : b.Db → b.Rec → GapFreeWriter b
  core_new db rec = record { store = db; rec = rec; schema = none; healthy = true }

  -- `GapFreeWriter::fail`
  abbrev pub fail : GapFreeWriter b → GapFreeWriter b
  fail w = record w { healthy = false }

  -- The write schema is captured once.
  abbrev pub capture : Option b.Schema → Option b.Schema → Option b.Schema
  capture none new = new
  capture (some s) new = some s

  encoded : Option b.Row → GapFreeWriter b → Option b.Row × GapFreeWriter b
  encoded none w = (none, fail w)
  encoded (some row) w = (some row, record w { schema = capture w.schema (b.schema w.rec) })

  -- `GapFreeWriter::encode`
  unfoldable pub encode : b.E → GapFreeWriter b → Option b.Row × GapFreeWriter b
  unfolding encoded
  encode e w = let (row, rec) = b.encode e w.rec in encoded row (record w { rec = rec })

  written : Bool × b.Db → GapFreeWriter b → Bool × GapFreeWriter b
  written (true, db) w = (true, record w { store = db })
  written (false, db) w = (false, fail (record w { store = db }))

  flush_with : Option b.Schema → b.P → List b.Row → GapFreeWriter b → Bool × GapFreeWriter b
  unfolding written
  flush_with none p rows w = (true, w)
  flush_with (some s) p rows w = written (b.write s p rows w.store) w

  -- `GapFreeWriter::flush`
  unfoldable pub flush : b.P → List b.Row → GapFreeWriter b → Bool × GapFreeWriter b
  unfolding flush_with
  flush p rows w = flush_with w.schema p rows w

module _ (b : Backend) where
  pub flush_rec :
      (p : b.P) (rows : List b.Row) (w : GapFreeWriter b) → (flush b p rows w).1.rec ≡ w.rec
  unfolding flush written
  flush_rec p rows w = go w.schema
    where
      result : (r : Bool × b.Db) → (written b r w).1.rec ≡ w.rec
      result (true, db) = refl
      result (false, db) = refl

      go : (s : Option b.Schema) → (flush_with b s p rows w).1.rec ≡ w.rec
      go none = refl
      go (some s) = result (b.write s p rows w.store)

  capture_some : (old new : Option b.Schema) → new ≢ none → capture b old new ≢ none
  capture_some none new h = h
  capture_some (some s) new h = λ e. cc

-- The two steps as laws, for writers that keep them shut.
module _ (b : Backend) (f : IsFaithful b) where
  -- What an encode leaves.
  pub record Encoded (e : b.E) (w : GapFreeWriter b) (row : Option b.Row) (v : GapFreeWriter b)
      : Type 0 where
    pub store : v.store ≡ w.store
    pub same_row : row ≡ (b.encode e w.rec).0
    pub rec : v.rec ≡ (b.encode e w.rec).1
    pub some_row : row ≢ none → (v.healthy ≡ w.healthy) × (v.schema ≢ none)
    pub no_row : row ≡ none → v.healthy ≡ false

  -- Encoding writes nothing and hands the event to the record once; with a row the writer keeps its
  -- health and has a schema, and without one it halts.
  pub encode-Encoded :
      (e : b.E) (w : GapFreeWriter b) → Encoded e w (encode b e w).0 (encode b e w).1
  unfolding encode
  encode-Encoded e w = go (b.encode e w.rec).0 refl
    where
      go :
          (r : Option b.Row)
          → (b.encode e w.rec).0 ≡ r
          → Encoded e w
              (encoded b r (record w { rec = (b.encode e w.rec).1 })).0
              (encoded b r (record w { rec = (b.encode e w.rec).1 })).1
      go none q = record {
        store = refl;
        same_row = sym q;
        rec = refl;
        some_row = λ n. absurd (n refl);
        no_row = λ _. refl;
      }
      go (some row) q = record {
        store = refl;
        same_row = sym q;
        rec = refl;
        some_row = λ _. (refl, capture_some b w.schema _ (f.encode_schema e w.rec row q));
        no_row = λ n. cc;
      }

  -- What a flush of the group `rows` at `p` leaves.
  pub record Flushed (p : b.P) (rows : List b.Row) (w : GapFreeWriter b) (ok : Bool)
      (v : GapFreeWriter b) : Type 0 where
    pub schema : v.schema ≡ w.schema
    pub rec : v.rec ≡ w.rec
    pub on_ok :
        ok ≡ true
        → (v.healthy ≡ w.healthy) × (f.stored v.store ≡ f.stored w.store ++ (p, rows) ∷ [])
    pub on_err : ok ≡ false → (v.healthy ≡ false) × (f.stored v.store ≡ f.stored w.store)

  written-Flushed :
      (s : b.Schema) (p : b.P) (rows : List b.Row) (w : GapFreeWriter b)
      → Flushed p rows w
          (written b (b.write s p rows w.store) w).0
          (written b (b.write s p rows w.store) w).1
  unfolding written
  written-Flushed s p rows w =
      go (b.write s p rows w.store).0 (b.write s p rows w.store).1 (f.write_ok s p rows w.store)
        (f.write_err s p rows w.store)
    where
      go :
          (ok : Bool) (db : b.Db)
          → (ok ≡ true → f.stored db ≡ f.stored w.store ++ (p, rows) ∷ [])
          → (ok ≡ false → f.stored db ≡ f.stored w.store)
          → Flushed p rows w (written b (ok, db) w).0 (written b (ok, db) w).1
      go true db g h = record {
        schema = refl;
        rec = refl;
        on_ok = λ _. (refl, g refl);
        on_err = λ e. cc;
      }
      go false db g h = record {
        schema = refl;
        rec = refl;
        on_ok = λ e. cc;
        on_err = λ _. (refl, h refl);
      }

  -- A flush of a writer that has a schema appends exactly its group to the stored log, or leaves
  -- the log as it was and halts the writer.
  pub flush-Flushed :
      (p : b.P) (rows : List b.Row) (w : GapFreeWriter b)
      → w.schema ≢ none
      → Flushed p rows w (flush b p rows w).0 (flush b p rows w).1
  unfolding flush
  flush-Flushed p rows w h = go w.schema h
    where
      go :
          (s : Option b.Schema)
          → s ≢ none
          → Flushed p rows w (flush_with b s p rows w).0 (flush_with b s p rows w).1
      go none h = absurd (h refl)
      go (some s) h = written-Flushed s p rows w
