-- ===== src/FileStore/Requests/Reach.antt =====
-- Whatever is asked of the store, its snapshot stays well formed.
use lowcode_wrapper.Base.{
  Result-cases, ℕ, ◌&&◌, ◌||◌, not, is_some, is_empty, List, [], ◌∷◌, Text, Bool-cases, inl, inr,
  Option, some,
}
use lowcode_wrapper.Models.{
  Uuid, Time, Fields, CreateServerRequest, CreateTableRequest, CreateColumnRequest,
  CreateFunctionRequest,
}
use lowcode_wrapper.FileStore.Records.{Snapshot, Env}
use lowcode_wrapper.FileStore.Credentials.{
  create_credential, insert_credential, delete_credential, drop_credential,
}
use lowcode_wrapper.FileStore.Servers.{
  create_server, create_server_with, inline_name, insert_server, update_server, replace_server,
  delete_server, drop_server,
}
use lowcode_wrapper.FileStore.Tables.{
  create_table, insert_table, update_table, replace_table, delete_table, drop_table,
}
use lowcode_wrapper.FileStore.Columns.{
  create_column, insert_column, update_column, replace_column, delete_column, drop_column,
}
use lowcode_wrapper.FileStore.Functions.{
  create_function, insert_function, update_function, replace_function, delete_function,
  drop_function,
}
use lowcode_wrapper.FileStore.Invariant.{IsValid, with_lock-keeps}
use lowcode_wrapper.FileStore.Invariant.Servers.{
  insert_server-IsValid, replace_server-IsValid, drop_server-IsValid,
}
use lowcode_wrapper.FileStore.Invariant.Tables.{
  insert_table-IsValid, replace_table-IsValid, drop_table-IsValid, insert_column-IsValid,
  replace_column-IsValid, drop_column-IsValid,
}
use lowcode_wrapper.FileStore.Invariant.Others.{
  insert_credential-IsValid, drop_credential-IsValid, insert_function-IsValid,
  replace_function-IsValid, drop_function-IsValid,
}
use lowcode_wrapper.FileStore.Requests.{
  Request, new_credential, new_server, change_server, new_table, change_table, new_column,
  change_column, new_function, change_function, erase_credential, erase_server, erase_table,
  erase_column, erase_function, step, run,
}

module _ (env : Env) {s : Snapshot} (v : IsValid s) where
  create_credential-IsValid :
      (id : Uuid) (now : Time) (name : Text) (fields : Fields)
      → IsValid (create_credential env id now name fields s).1
  unfolding create_credential
  create_credential-IsValid id now name fields = elim (Bool-cases (is_empty name)) [
    | inl unnamed ↦ rw unnamed v
    | inr named ↦ elim (Result-cases (env.encrypt fields)) [
      | inr (e, failed) ↦ rw (named, failed) v
      | inl (payload, sealed) ↦
          rw (named, sealed)
            (with_lock-keeps IsValid env (insert_credential env _) s v
              (insert_credential-IsValid env v _))
    ]
  ]

  create_server_with-IsValid :
      (id : Uuid) (now : Time) (req : CreateServerRequest) (ref : Option Uuid)
      → IsValid (create_server_with env id now req ref s).1
  unfolding create_server_with
  create_server_with-IsValid id now req ref =
      elim (Bool-cases (is_some ref && not (is_empty req.credential))) [
        | inl both ↦ rw both v
        | inr one ↦ rw one (
            with_lock-keeps IsValid env (insert_server env _ _) s v
              (insert_server-IsValid env v _ _))
      ]

module _ (env : Env) {s : Snapshot} (v : IsValid s) where
  create_server-IsValid :
      (cred_id id : Uuid) (now : Time) (req : CreateServerRequest)
      → IsValid (create_server env cred_id id now req s).1
  unfolding create_server
  create_server-IsValid cred_id id now req =
      elim (Bool-cases (is_empty req.name || is_empty req.protocol)) [
        | inl missing ↦ rw missing v
        | inr named ↦
            elim (Bool-cases (not (is_some req.credential_ref) && not (is_empty req.credential))) [
              | inr settled ↦
                  rw (named, settled)
                    (create_server_with-IsValid env v id now req req.credential_ref)
              | inl inline ↦
                  let w =
                    create_credential-IsValid env v cred_id now (inline_name req) req.credential in
                  elim (Result-cases
                    (create_credential env cred_id now (inline_name req) req.credential s).0) [
                      | inr (e, failed) ↦ rw (named, inline, failed) w
                      | inl (cred, made) ↦
                          rw (named, inline, made)
                            (create_server_with-IsValid env w id now req (some cred.id))
                    ]
            ]
      ]

  create_table-IsValid :
      (id : Uuid) (fresh : ℕ → Uuid) (req : CreateTableRequest)
      → IsValid (create_table env id fresh req s).1
  unfolding create_table
  create_table-IsValid id fresh req =
      elim (Bool-cases (is_empty req.server_name || is_empty req.table_name)) [
        | inl missing ↦ rw missing v
        | inr named ↦ rw named (
            with_lock-keeps IsValid env (insert_table env id fresh req) s v
              (insert_table-IsValid env v id fresh req))
      ]

  create_column-IsValid :
      (id table_id : Uuid) (req : CreateColumnRequest)
      → IsValid (create_column env id table_id req s).1
  unfolding create_column
  create_column-IsValid id table_id req = elim (Bool-cases (is_empty req.name)) [
    | inl missing ↦ rw missing v
    | inr named ↦ rw named (
        with_lock-keeps IsValid env (insert_column id table_id req) s v
          (insert_column-IsValid env v id table_id req))
  ]

  create_function-IsValid :
      (id : Uuid) (req : CreateFunctionRequest) → IsValid (create_function env id req s).1
  unfolding create_function
  create_function-IsValid id req =
      elim (Bool-cases (is_empty req.server_name || is_empty req.name || is_empty req.operation)) [
        | inl missing ↦ rw missing v
        | inr named ↦ rw named (
            with_lock-keeps IsValid env (insert_function env id req) s v
              (insert_function-IsValid env v id req))
      ]

pub step-IsValid : (env : Env) (r : Request) {s : Snapshot} → IsValid s → IsValid (step env r s)
unfolding step update_server delete_server update_table delete_table update_column delete_column
    update_function delete_function delete_credential
step-IsValid env (new_credential id now name fields) v =
    create_credential-IsValid env v id now name fields
step-IsValid env (new_server cred_id id now req) v = create_server-IsValid env v cred_id id now req
step-IsValid env (change_server id now req) {s} v =
    with_lock-keeps IsValid env (replace_server env id now req) s v
      (replace_server-IsValid env v id now req)
step-IsValid env (new_table id fresh req) v = create_table-IsValid env v id fresh req
step-IsValid env (change_table id req) {s} v =
    with_lock-keeps IsValid env (replace_table env id req) s v (replace_table-IsValid env v id req)
step-IsValid env (new_column id table_id req) v = create_column-IsValid env v id table_id req
step-IsValid env (change_column id req) {s} v =
    with_lock-keeps IsValid env (replace_column id req) s v (replace_column-IsValid env v id req)
step-IsValid env (new_function id req) v = create_function-IsValid env v id req
step-IsValid env (change_function id req) {s} v =
    with_lock-keeps IsValid env (replace_function env id req) s v
      (replace_function-IsValid env v id req)
step-IsValid env (erase_credential id) {s} v =
    with_lock-keeps IsValid env (drop_credential env id) s v (drop_credential-IsValid env v id)
step-IsValid env (erase_server id) {s} v =
    with_lock-keeps IsValid env (drop_server env id) s v (drop_server-IsValid env v id)
step-IsValid env (erase_table id) {s} v =
    with_lock-keeps IsValid env (drop_table env id) s v (drop_table-IsValid env v id)
step-IsValid env (erase_column id) {s} v =
    with_lock-keeps IsValid env (drop_column id) s v (drop_column-IsValid env v id)
step-IsValid env (erase_function id) {s} v =
    with_lock-keeps IsValid env (drop_function env id) s v (drop_function-IsValid env v id)

-- From a well-formed snapshot, any sequence of requests, refused or not and whether or not the
-- drivers file could be written, leads to a well-formed snapshot: tables and functions name listed
-- servers, columns name listed tables, and the names of credentials, servers, tables and functions
-- are distinct.
pub run-IsValid :
    (env : Env) (rs : List Request) (s : Snapshot) → IsValid s → IsValid (run env rs s)
unfolding run
run-IsValid env [] s v = v
run-IsValid env (r ∷ rs) s v = run-IsValid env rs (step env r s) (step-IsValid env r v)
