-- ===== src/Engine/Load.antt =====
-- engine/context.ts, `loadStoredRecord` and `createOnly`: the awaits.
use governed_learning_loop.Prelude.{String, Option}
use governed_learning_loop.Json.{Json, Runtime}
use governed_learning_loop.Store.{StoredRecord, create_call}
use governed_learning_loop.Action.{Action, ◌>>=◌, lift, store_get, store_call}
use governed_learning_loop.Engine.{record_key, record_digest, checked_option, Creation, creation_of}

module _ (rt : Runtime) where
  unfoldable pub load_stored_record : String → String → Action (Option StoredRecord)
  load_stored_record kind id = do
    raw ← store_get rt (record_key kind id)
    lift (checked_option rt kind id raw)

  -- The record comes as its JSON form.
  unfoldable pub create_only : String → String → Json → String → Action Creation
  create_only kind id value operation_id = do
    result ←
        store_call (create_call (record_key kind id) value (record_digest rt value) operation_id)
    lift (creation_of result)
