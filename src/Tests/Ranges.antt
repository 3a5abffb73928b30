-- ===== src/Tests/Ranges.antt =====
-- Concrete runs of the backfill queries, against a provider that refuses more than two blocks at a time.
use artemis_light.Prelude.{
  ℕ, zero, suc, ◌-◌, ◌*◌, ◌≤◌, ◌<◌, ◌≡◌, refl, sym, ap, ◌∙◌, ◌≢◌, Bool, true, false, List, [], ◌∷◌,
  ◌++◌, arith, ok, err, leb, if◌then◌else◌, All, u64_max, codes, Result,
}
use artemis_light.Persisted.Split.Kept.{KeptWithin}
use artemis_light.Persisted.Split.{is_response_size_error, query_range_split}
use artemis_light.Persisted.Split.Answers.{
  Settled, query_range_split-Settled, query_range_split_succeeds,
}
use artemis_light.Persisted.Chunks.{running, windows, backfill_segment}
use artemis_light.Persisted.Chunks.Cover.{Backfilled, backfill_segment-Backfilled}
use artemis_light.Persisted.Chunks.Asked.{windows_stall}
use artemis_light.Position.Block.{block_position}
use artemis_light.Persisted.Source.{Ranged, ask, events_from, history, AnswersFrom}

-- One event at each block.
abbrev block_events : ℕ → List (ℕ × ℕ)
block_events p = (p, p * 10) ∷ []

abbrev blocks_from : ℕ → ℕ → List (ℕ × ℕ)
blocks_from from zero = []
blocks_from from (suc n) = block_events from ++ blocks_from (suc from) n

-- The provider keeps the ranges that it was asked for.
abbrev two_blocks : ℕ → ℕ → List (ℕ × ℕ) → Result (List ℕ) (List (ℕ × ℕ)) × List (ℕ × ℕ)
two_blocks from to s =
    if leb to (suc from)
    then (ok (blocks_from from (suc to - from)), (from, to) ∷ s)
    else (err (codes "more than 2 max results"), (from, to) ∷ s)

abbrev provider : Ranged
provider = record {
  P = ℕ;
  E = ℕ;
  State = List (ℕ × ℕ);
  Failure = List ℕ;
  pos = block_position;
  text = λ e. e;
  query_range = two_blocks;
}

same_blocks : (from n : ℕ) → blocks_from from n ≡ events_from provider block_events from n
same_blocks from zero = refl
same_blocks from (suc n) = ap (λ l. block_events from ++ l) (same_blocks (suc from) n)

answered :
    (b : Bool) (blocks events s : List (ℕ × ℕ))
    → (if◌then◌else◌ {A = Result (List ℕ) (List (ℕ × ℕ)) × List (ℕ × ℕ)} b
        (ok blocks, s)
        (err (codes "more than 2 max results"), s)).0
      ≡ ok events
    → events ≡ blocks
answered true blocks events s h = cc
answered false blocks events s h = cc

provider-AnswersFrom : AnswersFrom provider block_events
unfolding block_position
provider-AnswersFrom from to s events l h =
    answered (leb to (suc from)) (blocks_from from (suc to - from)) events ((from, to) ∷ s) h
    ∙ same_blocks from (suc to - from)

query_range_split-Settled_example :
    Settled provider block_events 10 15 (query_range_split provider 10 15 []).0
query_range_split-Settled_example =
    query_range_split-Settled provider block_events 10 15 [] provider-AnswersFrom (omega arith)

refused :
    (b : Bool) (blocks s : List (ℕ × ℕ)) (e : List ℕ)
    → (if◌then◌else◌ {A = Result (List ℕ) (List (ℕ × ℕ)) × List (ℕ × ℕ)} b
        (ok blocks, s)
        (err (codes "more than 2 max results"), s)).0
      ≡ err e
    → (b ≡ false) × (e ≡ codes "more than 2 max results")
refused true blocks s e h = cc
refused false blocks s e h = let same : codes "more than 2 max results" ≡ e = cc in (refl, sym same)

single_answered : (p : ℕ) (t : List (ℕ × ℕ)) (e : List ℕ) → (ask provider p p t).0 ≢ err e
unfolding block_position
single_answered p t e h =
    let low : leb p (suc p) ≡ true = ground arith in
    let high : leb p (suc p) ≡ false =
      (refused (leb p (suc p)) (blocks_from p (suc p - p)) ((p, p) ∷ t) e h).0 in
    cc (low, high)

sized :
    (lo hi : ℕ) (t : List (ℕ × ℕ)) (e : List ℕ)
    → (ask provider lo hi t).0 ≡ err e
    → is_response_size_error provider e ≡ true
unfolding block_position is_response_size_error
sized lo hi t e h =
    ap (is_response_size_error provider)
      (refused (leb hi (suc lo)) (blocks_from lo (suc hi - lo)) ((lo, hi) ∷ t) e h).1

query_range_split_succeeds_example :
    (query_range_split provider 10 15 []).0 ≡ ok (history provider block_events 10 15)
query_range_split_succeeds_example =
    query_range_split_succeeds provider block_events 10 15 [] provider-AnswersFrom (omega arith)
      single_answered sized

backfill_segment-Backfilled_example :
    Backfilled provider block_events 10 15 4 (backfill_segment provider 10 15 4 [])
backfill_segment-Backfilled_example =
    backfill_segment-Backfilled provider block_events 10 15 4 [] provider-AnswersFrom (omega arith)

-- The ranges asked lie within the gap and are at most four blocks wide.
abbrev Modest : List (ℕ × ℕ) → Type 0
Modest = All (λ r. (10 ≤ r.0) × (r.1 ≤ 15) × (r.1 - r.0 < 4))

asked_within : KeptWithin provider Modest 10 15 4
unfolding block_position
asked_within lo hi s a b c w i = go (leb hi (suc lo))
  where
    go :
        (x : Bool)
        → Modest
            (if◌then◌else◌ {A = Result (List ℕ) (List (ℕ × ℕ)) × List (ℕ × ℕ)} x
              (ok (blocks_from lo (suc hi - lo)), (lo, hi) ∷ s)
              (err (codes "more than 2 max results"), (lo, hi) ∷ s)).1
    go true = ((a, c, w), i)
    go false = ((a, c, w), i)

windows_stall_example : (windows provider 7 u64_max u64_max 4 []).end ≡ running
windows_stall_example = windows_stall provider 7 4 [] (λ t e. single_answered u64_max t e)
