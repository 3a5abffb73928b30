-- ===== src/Writer/Log.antt =====
-- The groups that the writers of src/persistence/writer store, as a log: the rows of a log with their
-- sort keys, and the order of its keys.
use mathlib.Core.List.{append_assoc, append-nil}
use artemis_light.Prelude.{ℕ, ◌≤◌, ◌<◌, ◌≡◌, refl, sym, ap, ◌∙◌, List, [], ◌∷◌, ◌++◌, arith}
use artemis_light.Position.{Position}

module _ {P Row : Type 0} (pos : Position P) where
  unfoldable pub tag : ℕ → List Row → List (ℕ × Row)
  tag k [] = []
  tag k (r ∷ rows) = (k, r) ∷ tag k rows

  -- Every row of the log, in the order of writing, with the sort key of its group.
  unfoldable pub flat : List (P × List Row) → List (ℕ × Row)
  unfolding tag
  flat [] = []
  flat ((p, rows) ∷ log) = tag (pos.sort_key p) rows ++ flat log

  -- All keys of the log are below `k`.
  abbrev pub Below : ℕ → List (P × List Row) → Type 0
  Below k [] = Unit
  Below k ((p, rows) ∷ log) = (pos.sort_key p < k) × Below k log

  abbrev pub Above : ℕ → List (P × List Row) → Type 0
  Above k [] = Unit
  Above k ((p, rows) ∷ log) = (k < pos.sort_key p) × Above k log

  -- The keys rise strictly: no group is written twice, and none is written late.
  abbrev pub Ascending : List (P × List Row) → Type 0
  Ascending [] = Unit
  Ascending ((p, rows) ∷ log) = Above (pos.sort_key p) log × Ascending log

  pub tag-append : (k : ℕ) (xs ys : List Row) → tag k (xs ++ ys) ≡ tag k xs ++ tag k ys
  unfolding tag
  tag-append k [] ys = refl
  tag-append k (x ∷ xs) ys = ap (λ l. (k, x) ∷ l) (tag-append k xs ys)

  pub tag-one : (k : ℕ) (row : Row) → tag k (row ∷ []) ≡ (k, row) ∷ []
  unfolding tag
  tag-one k row = refl

  pub flat-append : (xs ys : List (P × List Row)) → flat (xs ++ ys) ≡ flat xs ++ flat ys
  unfolding flat
  flat-append [] ys = refl
  flat-append ((p, rows) ∷ xs) ys =
      ap (◌++◌ (tag (pos.sort_key p) rows)) (flat-append xs ys)
      ∙ sym (append_assoc (tag (pos.sort_key p) rows) (flat xs) (flat ys))

  pub flat-one : (p : P) (rows : List Row) → flat ((p, rows) ∷ []) ≡ tag (pos.sort_key p) rows
  unfolding flat
  flat-one p rows = append-nil (tag (pos.sort_key p) rows)

  pub Below-weaken : (j k : ℕ) (log : List (P × List Row)) → j ≤ k → Below j log → Below k log
  Below-weaken j k [] h b = tt
  Below-weaken j k ((p, rows) ∷ log) h b = (omega arith, Below-weaken j k log h b.1)

  pub Below-append :
      (k : ℕ) (log : List (P × List Row)) (p : P) (rows : List Row)
      → Below k log
      → pos.sort_key p < k
      → Below k (log ++ (p, rows) ∷ [])
  Below-append k [] p rows b h = (h, tt)
  Below-append k ((q, qs) ∷ log) p rows b h = (b.0, Below-append k log p rows b.1 h)

  pub Above-append :
      (k : ℕ) (log : List (P × List Row)) (p : P) (rows : List Row)
      → Above k log
      → k < pos.sort_key p
      → Above k (log ++ (p, rows) ∷ [])
  Above-append k [] p rows a h = (h, tt)
  Above-append k ((q, qs) ∷ log) p rows a h = (a.0, Above-append k log p rows a.1 h)

  -- A group above all others may follow them.
  pub Ascending-append :
      (log : List (P × List Row)) (p : P) (rows : List Row)
      → Ascending log
      → Below (pos.sort_key p) log
      → Ascending (log ++ (p, rows) ∷ [])
  Ascending-append [] p rows a b = (tt, tt)
  Ascending-append ((q, qs) ∷ log) p rows a b =
      (Above-append (pos.sort_key q) log p rows a.0 b.0, Ascending-append log p rows a.1 b.1)
