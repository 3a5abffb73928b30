-- ===== src/Collectors/Combining.antt =====
-- The combinators of src/collector_ext: chain.rs and fallback.rs, and `subscribe_or_poll` of
-- src/collectors/fallback.rs. A collector is its subscribe, from one state of the world to the next,
-- and a stream is the list of its events.
use artemis_light.Prelude.{◌≡◌, refl, List, [], ◌∷◌, ◌++◌, ok, err, Result}

pub data SourceError (F : Type 0) : Type 0 where
  no_sources : SourceError F
  failed : F → SourceError F

abbrev pub Source : Type 0 → Type 0 → Type 0 → Type 0
Source World F E = World → Result (SourceError F) (List E) × World

abbrev pub flatten : {E : Type 0} → List (List E) → List E
flatten [] = []
flatten (l ∷ ls) = l ++ flatten ls

module _ {World F E : Type 0} where
  chained_onto :
      List E → Result (SourceError F) (List E) × World → Result (SourceError F) (List E) × World
  chained_onto events (ok more, w) = (ok (events ++ more), w)
  chained_onto events (err e, w) = (err e, w)

  first_then :
      Result (SourceError F) (List E) × World
      → Source World F E
      → Result (SourceError F) (List E) × World
  unfolding chained_onto
  first_then (ok events, w) second = chained_onto events (second w)
  first_then (err e, w) second = (err e, w)

  -- `Chain::subscribe`
  unfoldable pub chain : Source World F E → Source World F E → Source World F E
  unfolding first_then
  chain first second w = first_then (first w) second

  or_else :
      Result (SourceError F) (List E) × World
      → Source World F E
      → Result (SourceError F) (List E) × World
  or_else (ok events, w) other = (ok events, w)
  or_else (err e, w) other = other w

  -- `Fallback::subscribe`
  unfoldable pub fallback : Source World F E → Source World F E → Source World F E
  unfolding or_else
  fallback this other w = or_else (this w) other

  -- `subscribe_or_poll`
  unfoldable pub subscribe_or_poll : Source World F E → Source World F E → Source World F E
  unfolding or_else
  subscribe_or_poll subscription poll w = or_else (subscription w) poll

  pushed :
      List E
      → Result (SourceError F) (List (List E)) × World
      → Result (SourceError F) (List (List E)) × World
  pushed stream (ok streams, w) = (ok (stream ∷ streams), w)
  pushed stream (err e, w) = (err e, w)

  each_then :
      Result (SourceError F) (List E) × World
      → (World → Result (SourceError F) (List (List E)) × World)
      → Result (SourceError F) (List (List E)) × World
  unfolding pushed
  each_then (ok stream, w) rest = pushed stream (rest w)
  each_then (err e, w) rest = (err e, w)

  -- The loop that subscribes to each source in turn.
  unfoldable pub subscribe_each :
      List (Source World F E) → World → Result (SourceError F) (List (List E)) × World
  unfolding each_then
  subscribe_each [] w = (ok [], w)
  subscribe_each (source ∷ sources) w = each_then (source w) (λ v. subscribe_each sources v)

  in_sequence :
      Result (SourceError F) (List (List E)) × World → Result (SourceError F) (List E) × World
  in_sequence (ok streams, w) = (ok (flatten streams), w)
  in_sequence (err e, w) = (err e, w)

  -- `ChainAll::subscribe`
  unfoldable pub chain_all : List (Source World F E) → Source World F E
  unfolding subscribe_each in_sequence
  chain_all [] w = (err no_sources, w)
  chain_all (source ∷ sources) w = in_sequence (subscribe_each (source ∷ sources) w)

  or_next :
      Result (SourceError F) (List E) × World
      → (SourceError F → Source World F E)
      → Result (SourceError F) (List E) × World
  or_next (ok events, w) rest = (ok events, w)
  or_next (err e, w) rest = rest e w

  -- The loop of `FallbackAll::subscribe`, with the last error.
  fallback_from : SourceError F → List (Source World F E) → Source World F E
  unfolding or_next
  fallback_from last_err [] w = (err last_err, w)
  fallback_from last_err (source ∷ sources) w =
      or_next (source w) (λ e v. fallback_from e sources v)

  -- `FallbackAll::subscribe`
  unfoldable pub fallback_all : List (Source World F E) → Source World F E
  unfolding fallback_from
  fallback_all sources w = fallback_from no_sources sources w

  in_sequence-pushed :
      (events : List E) (r : Result (SourceError F) (List (List E)) × World)
      → in_sequence (pushed events r) ≡ chained_onto events (in_sequence r)
  unfolding in_sequence pushed chained_onto
  in_sequence-pushed events (ok streams, w) = refl
  in_sequence-pushed events (err e, w) = refl

  -- On two sources or more, the n-ary combinators are the binary ones folded from the right: the
  -- same events, the same error, and the same sources asked in the same order.
  pub combinators_fold :
      (s t : Source World F E) (sources : List (Source World F E)) (w : World)
      → (chain_all (s ∷ t ∷ sources) w ≡ chain s (chain_all (t ∷ sources)) w)
        × (fallback_all (s ∷ t ∷ sources) w ≡ fallback s (fallback_all (t ∷ sources)) w)
  unfolding chain_all chain fallback_all fallback subscribe_each each_then in_sequence first_then
      fallback_from or_next or_else
  combinators_fold s t sources w = (in_turn (s w), instead (s w))
    where
      in_turn :
          (r : Result (SourceError F) (List E) × World)
          → in_sequence (each_then r (λ v. subscribe_each (t ∷ sources) v))
            ≡ first_then r (λ v. in_sequence (subscribe_each (t ∷ sources) v))
      in_turn (ok events, v) = in_sequence-pushed events (subscribe_each (t ∷ sources) v)
      in_turn (err e, v) = refl

      instead :
          (r : Result (SourceError F) (List E) × World)
          → or_next r (λ e v. fallback_from e (t ∷ sources) v)
            ≡ or_else r (λ v. fallback_from no_sources (t ∷ sources) v)
      instead (ok events, v) = refl
      instead (err e, v) = refl
