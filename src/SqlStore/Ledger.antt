-- ===== src/SqlStore/Ledger.antt =====
-- The store of src/persistence/sqlstore.rs behind the writers of src/persistence/writer: a SqlStore that
-- is kept with a journal of the groups whose write it has reported as done. The journal is not in the
-- source; it changes nothing that the store does.
use mathlib.Core.List.{append_assoc}
use artemis_light.Prelude.{
  ◌≡◌, refl, ap, ◌∙◌, ◌≢◌, Bool, true, false, Option, none, some, List, [], ◌∷◌, ◌++◌, ok, err,
}
use artemis_light.Position.{Position, IsLawful}
use artemis_light.Schema.{TableSchema, Row}
use artemis_light.Dialect.{Dialect}
use artemis_light.SqlStore.{Sqlx, SqlStore}
use artemis_light.SqlStore.Session.{Fallible}
use artemis_light.SqlStore.Write.{write}
use artemis_light.SqlStore.Does.{Statement, IsTransactional}
use artemis_light.SqlStore.Committed.{IsWrite, Outcome, write-Outcome}
use artemis_light.Writer.Core.{Backend, IsFaithful}

module _ {x : Sqlx} (h : IsTransactional x) (d : Dialect x.Failure) {P : Type 0}
    (p : Position P) where
  abbrev pub Group : Type 0
  Group = P × List (Row x.Real)

  -- Each transaction is the write of its group, under some schema.
  abbrev pub Each : List Group → List (List (Statement x)) → Type 0
  Each [] [] = Unit
  Each [] (l ∷ ls) = ⊥
  Each (g ∷ gs) [] = ⊥
  Each (g ∷ gs) (l ∷ ls) =
      ((s : TableSchema) × (checked : Bool) × IsWrite h d p s g.0 g.1 checked l) × Each gs ls

  Each-snoc :
      (gs : List Group) (ls : List (List (Statement x))) (g : Group) (l : List (Statement x))
      → Each gs ls
      → (s : TableSchema) × (checked : Bool) × IsWrite h d p s g.0 g.1 checked l
      → Each (gs ++ g ∷ []) (ls ++ l ∷ [])
  Each-snoc [] [] g l e w = (w, tt)
  Each-snoc [] (m ∷ ls) g l e w = absurd e
  Each-snoc (k ∷ gs) [] g l e w = absurd e
  Each-snoc (k ∷ gs) (m ∷ ls) g l (v, e) w = (v, Each-snoc gs ls g l e w)

  -- A store whose database had committed `before` when the journal was begun.
  pub record Ledger (before : List (List (Statement x))) : Type 0 where
    pub store : SqlStore x
    pub journal : List Group
    pub transactions : List (List (Statement x))
    pub committed_are : h.committed store.pool ≡ before ++ transactions
    pub each : Each journal transactions

  module _ (before : List (List (Statement x))) where
    noted :
        (s : TableSchema) (position : P) (rows : List (Row x.Real)) (w : Ledger before)
        (r : Fallible x (Unit {0}) × SqlStore x)
        → Outcome h d p s position rows w.store r
        → Bool × Ledger before
    noted s position rows w (ok u, v) (checked, l, one, is) = (
      true,
      record {
        store = v;
        journal = w.journal ++ (position, rows) ∷ [];
        transactions = w.transactions ++ l ∷ [];
        committed_are =
            one
            ∙ ap (λ c. c ++ l ∷ []) w.committed_are
            ∙ append_assoc before w.transactions (l ∷ []);
        each =
            Each-snoc w.journal w.transactions (position, rows) l w.each
              (s, w.store.migration_checked, is);
      },
    )
    noted s position rows w (err e, v) (same, flag) = (
      false,
      record {
        store = v;
        journal = w.journal;
        transactions = w.transactions;
        committed_are = same ∙ w.committed_are;
        each = w.each;
      },
    )

    -- `Store::write`, with a note of its group.
    pub ledger_write : TableSchema → P → List (Row x.Real) → Ledger before → Bool × Ledger before
    unfolding noted
    ledger_write s position rows w =
        noted s position rows w (write x d p s position rows w.store)
          (write-Outcome h d p s position rows w.store)

    noted-kept :
        (s : TableSchema) (position : P) (rows : List (Row x.Real)) (w : Ledger before)
        (r : Fallible x (Unit {0}) × SqlStore x) (o : Outcome h d p s position rows w.store r)
        → ((noted s position rows w r o).1.store ≡ r.1)
          × ((noted s position rows w r o).0 ≡ true
              → (noted s position rows w r o).1.journal ≡ w.journal ++ (position, rows) ∷ [])
          × ((noted s position rows w r o).0 ≡ false
              → (noted s position rows w r o).1.journal ≡ w.journal)
    unfolding noted
    noted-kept s position rows w (ok u, v) o = (refl, λ e. refl, λ e. cc)
    noted-kept s position rows w (err f, v) o = (refl, λ e. cc, λ e. refl)

    -- The note changes nothing that the store does, and is of the write alone.
    pub ledger_write-kept :
        (s : TableSchema) (position : P) (rows : List (Row x.Real)) (w : Ledger before)
        → ((ledger_write s position rows w).1.store ≡ (write x d p s position rows w.store).1)
          × ((ledger_write s position rows w).0 ≡ true
              → (ledger_write s position rows w).1.journal ≡ w.journal ++ (position, rows) ∷ [])
          × ((ledger_write s position rows w).0 ≡ false
              → (ledger_write s position rows w).1.journal ≡ w.journal)
    unfolding ledger_write
    ledger_write-kept s position rows w =
        noted-kept s position rows w (write x d p s position rows w.store)
          (write-Outcome h d p s position rows w.store)

    module _ {E Rec : Type 0} (row_eq : Row x.Real → Row x.Real → Bool)
        (encode : E → Rec → Option (Row x.Real) × Rec) (schema : Rec → Option TableSchema) where
      -- The store as the writers use it.
      abbrev pub sql_backend : Backend
      sql_backend = record {
        P = P;
        E = E;
        Row = Row x.Real;
        Schema = TableSchema;
        Db = Ledger before;
        Rec = Rec;
        pos = p;
        row_eq = row_eq;
        write = ledger_write;
        encode = encode;
        schema = schema;
      }

      module _ (lawful : IsLawful p)
          (encode_schema : (e : E) (r : Rec) (row : Row x.Real)
            → (encode e r).0 ≡ some row
            → schema (encode e r).1 ≢ none) where
        -- It keeps the promise that the writers rely on.
        unfoldable pub sql_backend-IsFaithful : IsFaithful sql_backend
        sql_backend-IsFaithful = record {
          lawful = lawful;
          stored = λ w. w.journal;
          write_ok = λ s position rows w. (ledger_write-kept s position rows w).1;
          write_err = λ s position rows w. (ledger_write-kept s position rows w).2;
          encode_schema = encode_schema;
        }
