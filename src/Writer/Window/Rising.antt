-- ===== src/Writer/Window/Rising.antt =====
-- The order of the pending groups of `ConfirmationWindow` (src/persistence/writer/window.rs).
use artemis_light.Prelude.{
  ℕ, ◌<◌, ◌≡◌, refl, subst, Bool, true, false, Option, none, some, List, [], ◌∷◌, arith, ltb, leb,
  if◌then◌else◌,
}
use artemis_light.Writer.Core.{Backend}
use artemis_light.Writer.Window.Slots.{Pending, slot, put, unseed, rewind, is_matured, matured}

abbrev pub Over : Option ℕ → ℕ → Type 0
Over none k = Unit
Over (some f) k = f < k

module _ (b : Backend) where
  -- The keys rise strictly from above `low`, and each is its group's sort key.
  abbrev pub Rising : Option ℕ → List (ℕ × Pending b) → Type 0
  Rising low [] = Unit
  Rising low ((k, p) ∷ slots) = Over low k × (b.pos.sort_key p.position ≡ k) × Rising (some k) slots

  -- No group of the map has matured.
  abbrev pub Unripe : ℕ → ℕ → List (ℕ × Pending b) → Type 0
  Unripe head depth [] = Unit
  Unripe head depth ((k, p) ∷ slots) = (is_matured b head depth k ≡ false) × Unripe head depth slots

  Over-trans : (low : Option ℕ) (j k : ℕ) → Over low j → j < k → Over low k
  Over-trans none j k o h = tt
  Over-trans (some f) j k o h = omega arith

  pub Rising-weaken :
      (low : Option ℕ) (k : ℕ) (slots : List (ℕ × Pending b))
      → Over low k
      → Rising (some k) slots
      → Rising low slots
  Rising-weaken low k [] o r = tt
  Rising-weaken low k ((j, p) ∷ slots) o r = (Over-trans low k j o r.0, r.1, r.2)

  pub slot-Rising :
      (low : Option ℕ) (k : ℕ) (slots : List (ℕ × Pending b)) (p : Pending b)
      → Rising low slots
      → slot b k slots ≡ some p
      → b.pos.sort_key p.position ≡ k
  unfolding slot
  slot-Rising low k [] p r e = cc
  slot-Rising low k ((j, q) ∷ slots) p r e = ground (arith, r.1, slot-Rising (some j) k slots p r.2)

  pub put-Rising :
      (low : Option ℕ) (k : ℕ) (p : Pending b) (slots : List (ℕ × Pending b))
      → Over low k
      → b.pos.sort_key p.position ≡ k
      → Rising low slots
      → Rising low (put b k p slots)
  unfolding put
  put-Rising low k p [] o e r = (o, e, tt)
  put-Rising low k p ((j, q) ∷ slots) o e r =
      go (ltb k j) (ltb j k) refl refl (put-Rising (some j) k p slots)
    where
      go :
          (x y : Bool)
          → ltb k j ≡ x
          → ltb j k ≡ y
          → (j < k
              → b.pos.sort_key p.position ≡ k
              → Rising (some j) slots
              → Rising (some j) (put b k p slots))
          → Rising low (
              if x
              then (k, p) ∷ (j, q) ∷ slots
              else if y
              then (j, q) ∷ put b k p slots
              else (k, p) ∷ slots)
      go true y f g ih = (o, e, (ground arith, r.1, r.2))
      go false true f g ih = (r.0, r.1, ih (ground arith) e r.2)
      go false false f g ih =
          let same : j ≡ k = ground arith in (o, e, subst (λ i. Rising (some i) slots) same r.2)

  pub rewind-Rising :
      (key : ℕ) (low : Option ℕ) (slots : List (ℕ × Pending b))
      → Rising low slots
      → Rising low (rewind b key slots)
  unfolding rewind unseed
  rewind-Rising key low [] r = tt
  rewind-Rising key low ((k, p) ∷ slots) r =
      go (leb key k) p.seeded (rewind-Rising key (some k) slots r.2)
    where
      go :
          (x y : Bool)
          → Rising (some k) (rewind b key slots)
          → Rising low (
              if x
              then (if y then (k, unseed b p) ∷ rewind b key slots else rewind b key slots)
              else (k, p) ∷ rewind b key slots)
      go true true ih = (r.0, r.1, ih)
      go true false ih = Rising-weaken low k (rewind b key slots) r.0 ih
      go false y ih = (r.0, r.1, ih)

  -- Below a group that has not matured, none has.
  pub matured-Rising :
      (head depth k : ℕ) (slots : List (ℕ × Pending b))
      → Rising (some k) slots
      → is_matured b head depth k ≡ false
      → (matured b head depth slots ≡ []) × Unripe head depth slots
  unfolding matured
  matured-Rising head depth k [] r e = (refl, tt)
  matured-Rising head depth k ((j, p) ∷ slots) r e =
      let late : is_matured b head depth j ≡ false = ground arith in
      let (none_ripe, unripe) = matured-Rising head depth j slots r.2 late in
      (rw late none_ripe, (late, unripe))
