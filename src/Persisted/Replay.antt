-- ===== src/Persisted/Replay.antt =====
-- `replay_stored` and `replay_segment` of src/persistence/persisted.rs: the events of the stored rows.
use artemis_light.Prelude.{
  ◌≡◌, Bool, true, false, Option, none, some, List, [], ◌∷◌, ok, err, collect, Result,
}
use artemis_light.Schema.{integer_value, real_value, text_value, blob_value, null, Row}
use artemis_light.Record.{Record, payload_schema, decode}
use artemis_light.Record.Json.{Serde}
use artemis_light.Persisted.Storage.{Storage}

pub data ReplayError (Failure : Type 0) : Type 0 where
  store_failed : Failure → ReplayError Failure
  unexpected_payload bad_payload : ReplayError Failure

module _ (j : Serde) (s : Storage j) where
  decoded_payload : Option j.E → Result (ReplayError s.Failure) j.E
  decoded_payload none = err bad_payload
  decoded_payload (some e) = ok e

  -- The first column of a row that is replayed is its payload.
  decode_stored : Row j.Real → Result (ReplayError s.Failure) j.E
  unfolding decoded_payload
  decode_stored (text_value payload ∷ cols) = decoded_payload (decode j payload)
  decode_stored [] = err unexpected_payload
  decode_stored (null ∷ cols) = err unexpected_payload
  decode_stored (integer_value i ∷ cols) = err unexpected_payload
  decode_stored (real_value x ∷ cols) = err unexpected_payload
  decode_stored (blob_value b ∷ cols) = err unexpected_payload

  decode_all :
      Result s.Failure (List (Row j.Real)) × s.Db → Result (ReplayError s.Failure) (List j.E) × s.Db
  unfolding decode_stored
  decode_all (err e, db) = (err (store_failed e), db)
  decode_all (ok rows, db) = (collect decode_stored rows, db)

  -- `replay_stored`
  unfoldable pub replay_stored :
      Record → Option s.P → s.Db → Result (ReplayError s.Failure) (List j.E) × s.Db
  unfolding decode_all
  replay_stored r none db = (ok [], db)
  replay_stored r (some up_to) db = decode_all (s.replay (payload_schema r) up_to db)

  -- `replay_segment`: nothing once the history has been replayed.
  unfoldable pub replay_segment :
      Bool → Record → Option s.P → s.Db → Result (ReplayError s.Failure) (List j.E) × s.Db
  replay_segment true r up_to db = (ok [], db)
  replay_segment false r up_to db = replay_stored r up_to db

  -- The rows hold the payloads of these events, each in front of what else they hold.
  unfoldable pub PayloadsOf : List j.E → List (Row j.Real) → Type 0
  PayloadsOf [] [] = Unit
  PayloadsOf [] (row ∷ rows) = ⊥
  PayloadsOf (e ∷ es) [] = ⊥
  PayloadsOf (e ∷ es) (row ∷ rows) =
      ((json : j.Value) × (rest : Row j.Real) × (j.to_value e ≡ some json)
        × (row ≡ text_value (j.to_string json) ∷ rest))
      × PayloadsOf es rows
