-- ===== src/Writer/Block/Invariant.antt =====
-- What a run of `BlockWriter` (src/persistence/writer/block.rs) has stored, against the rows it was
-- handed: the store is a prefix of them, in groups whose keys rise strictly.
use mathlib.Core.List.{append_assoc}
use artemis_light.Prelude.{
  ℕ, ◌≡◌, refl, sym, ap, ◌∙◌, ◌≢◌, true, false, Option, none, some, List, [], ◌∷◌, ◌++◌, arith,
}
use artemis_light.Writer.Core.{Backend, IsFaithful}
use artemis_light.Writer.Log.{tag, flat, Below, Ascending, tag-append, tag-one, Below-weaken}
use artemis_light.Writer.Block.{BlockWriter}

module _ (b : Backend) where
  -- The open group `current` lies above all written ones, and its buffer is what is not yet written.
  pub record IsOpen (log : List (b.P × List b.Row)) (rest : List (ℕ × b.Row)) (current : Option b.P)
      (buffer : List b.Row) (schema : Option b.Schema) : Type 0 where
    pub idle : current ≡ none → (log ≡ []) × (rest ≡ []) × (buffer ≡ [])
    pub busy :
        (c : b.P)
        → current ≡ some c
        → Below b.pos (b.pos.sort_key c) log
          × (rest ≡ tag b.pos (b.pos.sort_key c) buffer)
          × (schema ≢ none)

  unfoldable pub keyed : b.P → Option b.Row → List (ℕ × b.Row)
  keyed p none = []
  keyed p (some row) = (b.pos.sort_key p, row) ∷ []

module _ (b : Backend) (f : IsFaithful b) where
  -- Over the log `base` found at the start, the writer has stored the groups `log`; they and `rest`
  -- are the rows `seen`.
  pub record Held (base : List (b.P × List b.Row)) (seen : List (ℕ × b.Row)) (w : BlockWriter b)
      : Type 0 where
    pub log : List (b.P × List b.Row)
    pub rest : List (ℕ × b.Row)
    pub stored : f.stored w.core.store ≡ base ++ log
    pub ascending : Ascending b.pos log
    pub split : flat b.pos log ++ rest ≡ seen
    pub group : w.core.healthy ≡ true → IsOpen b log rest w.current w.buffer w.core.schema

  -- A halted writer keeps its prefix whatever follows.
  pub Held-more :
      (base : List (b.P × List b.Row)) (seen more : List (ℕ × b.Row)) (w v : BlockWriter b)
      → Held base seen w
      → f.stored v.core.store ≡ f.stored w.core.store
      → v.core.healthy ≡ false
      → Held base (seen ++ more) v
  Held-more base seen more w v h s n = record {
    log = h.log;
    rest = h.rest ++ more;
    stored = s ∙ h.stored;
    ascending = h.ascending;
    split = sym (append_assoc (flat b.pos h.log) h.rest more) ∙ ap (λ x. x ++ more) h.split;
    group = λ e. cc;
  }

  pub IsOpen-next :
      (c p : b.P) (row : b.Row) (log : List (b.P × List b.Row)) (rest : List (ℕ × b.Row))
      (buffer : List b.Row) (schema : Option b.Schema)
      → IsOpen b log rest (some c) buffer schema
      → b.pos.sort_key c ≡ b.pos.sort_key p
      → IsOpen b log
          (rest ++ keyed b p (some row))
          (some (b.pos.advance (some c) p))
          (buffer ++ row ∷ [])
          schema
  unfolding keyed
  IsOpen-next c p row log rest buffer schema o same = record {
    idle = λ e. cc;
    busy = λ d e. (
      Below-weaken b.pos (b.pos.sort_key c) _ log (omega (arith, key d e)) (o.busy c refl).0,
      tagged (key d e) (o.busy c refl).1,
      (o.busy c refl).2,
    );
  }
    where
      inner : b.pos.sort_key (b.pos.advance (some c) p) ≡ b.pos.sort_key c
      inner = f.lawful.monotone c p ∙ ground (arith, same)

      key :
          (d : b.P) → some (b.pos.advance (some c) p) ≡ some d → b.pos.sort_key d ≡ b.pos.sort_key c
      key d e = ap b.pos.sort_key {x = d} {y = b.pos.advance (some c) p} (cc) ∙ inner

      tagged :
          {k : ℕ}
          → k ≡ b.pos.sort_key c
          → rest ≡ tag b.pos (b.pos.sort_key c) buffer
          → rest ++ (b.pos.sort_key p, row) ∷ [] ≡ tag b.pos k (buffer ++ row ∷ [])
      tagged e r = rw (
        e,
        r,
        tag-append b.pos (b.pos.sort_key c) buffer (row ∷ []),
        tag-one b.pos (b.pos.sort_key c) row,
        same,
      )

  -- A first row of a key above all written groups.
  pub IsOpen-above :
      (p : b.P) (row : b.Row) (log : List (b.P × List b.Row)) (schema : Option b.Schema)
      → Below b.pos (b.pos.sort_key p) log
      → schema ≢ none
      → IsOpen b log (keyed b p (some row)) (some (b.pos.advance none p)) (row ∷ []) schema
  unfolding keyed tag
  IsOpen-above p row log schema l n = record {
    idle = λ e. cc;
    busy = λ c e. (
      Below-weaken b.pos (b.pos.sort_key p) _ log (omega (arith, key c e)) l,
      ap (λ k. (k, row) ∷ []) (key c e),
      n,
    );
  }
    where
      key : (c : b.P) → some (b.pos.advance none p) ≡ some c → b.pos.sort_key p ≡ b.pos.sort_key c
      key c e = ap b.pos.sort_key (sym (f.lawful.first p) ∙ (cc))
