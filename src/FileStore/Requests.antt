-- ===== src/FileStore/Requests.antt =====
-- Every operation of the store that changes it, as a request with what it draws from outside, and
-- the store after a sequence of requests, whatever their results.
pub mod Reach
use lowcode_wrapper.Base.{ℕ, List, [], ◌∷◌, Text}
use lowcode_wrapper.Models.{
  Uuid, Time, Fields, CreateServerRequest, UpdateServerRequest, CreateTableRequest,
  UpdateTableRequest, CreateColumnRequest, UpdateColumnRequest, CreateFunctionRequest,
  UpdateFunctionRequest,
}
use lowcode_wrapper.FileStore.Records.{Snapshot, Env}
use lowcode_wrapper.FileStore.Credentials.{create_credential, delete_credential}
use lowcode_wrapper.FileStore.Servers.{create_server, update_server, delete_server}
use lowcode_wrapper.FileStore.Tables.{create_table, update_table, delete_table}
use lowcode_wrapper.FileStore.Columns.{create_column, update_column, delete_column}
use lowcode_wrapper.FileStore.Functions.{create_function, update_function, delete_function}

pub data Request : Type 0 where
  new_credential : Uuid → Time → Text → Fields → Request
  new_server : Uuid → Uuid → Time → CreateServerRequest → Request
  change_server : Uuid → Time → UpdateServerRequest → Request
  new_table : Uuid → (ℕ → Uuid) → CreateTableRequest → Request
  change_table : Uuid → UpdateTableRequest → Request
  new_column : Uuid → Uuid → CreateColumnRequest → Request
  change_column : Uuid → UpdateColumnRequest → Request
  new_function : Uuid → CreateFunctionRequest → Request
  change_function : Uuid → UpdateFunctionRequest → Request
  erase_credential erase_server erase_table erase_column erase_function : Uuid → Request

module _ (env : Env) where
  unfoldable pub step : Request → Snapshot → Snapshot
  step (new_credential id now name fields) s = (create_credential env id now name fields s).1
  step (new_server cred_id id now req) s = (create_server env cred_id id now req s).1
  step (change_server id now req) s = (update_server env id now req s).1
  step (new_table id fresh req) s = (create_table env id fresh req s).1
  step (change_table id req) s = (update_table env id req s).1
  step (new_column id table_id req) s = (create_column env id table_id req s).1
  step (change_column id req) s = (update_column env id req s).1
  step (new_function id req) s = (create_function env id req s).1
  step (change_function id req) s = (update_function env id req s).1
  step (erase_credential id) s = (delete_credential env id s).1
  step (erase_server id) s = (delete_server env id s).1
  step (erase_table id) s = (delete_table env id s).1
  step (erase_column id) s = (delete_column env id s).1
  step (erase_function id) s = (delete_function env id s).1

  unfoldable pub run : List Request → Snapshot → Snapshot
  unfolding step
  run [] s = s
  run (r ∷ rs) s = run rs (step r s)
