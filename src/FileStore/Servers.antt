-- ===== src/FileStore/Servers.antt =====
-- store.go: servers.
use lowcode_wrapper.Base.{
  true, ◌&&◌, ◌||◌, not, Option, none, some, is_some, List, [], ◌∷◌, ◌++◌, map, Text, text, text_eq,
  text_lt, trim_space, ◌==◌, if◌then◌else◌, is_empty, any, find, locate, remove_at, set, keep,
  or_else, Result, ok, err,
}
use lowcode_wrapper.Base.Sort.{sort_slice}
use lowcode_wrapper.Models.{Uuid, Time, Server, CreateServerRequest, UpdateServerRequest}
use lowcode_wrapper.FileStore.Records.{
  ServerRecord, TableRecord, FunctionRecord, ColumnRecord, Snapshot, StoreError, not_found,
  required, server_exists, both_credentials, Env, Outcome, with_lock, raw_to_node, server_model,
  options_or_empty,
}
use lowcode_wrapper.FileStore.Credentials.{create_credential}

abbrev pub inline_name : CreateServerRequest → Text
inline_name req =
    let given = trim_space req.credential_name in
    if is_empty given then req.name ++ text "-credential" else given

unfoldable pub filter_tables : List TableRecord → Uuid → List TableRecord
filter_tables tables server_id = keep (λ rec. not (rec.server_id == server_id)) tables

unfoldable pub filter_functions : List FunctionRecord → Uuid → List FunctionRecord
filter_functions functions server_id = keep (λ rec. not (rec.server_id == server_id)) functions

-- `tableIDs` is a set of table ids, here a list.
unfoldable pub filter_columns_by_table_ids : List ColumnRecord → List Uuid → List ColumnRecord
filter_columns_by_table_ids columns table_ids =
    keep (λ rec. not (any (λ id. id == rec.table_id) table_ids)) columns

module _ (env : Env) where
  unfoldable pub insert_server :
      ServerRecord → Server → Snapshot → Result StoreError (Server × Snapshot)
  insert_server rec srv s =
      if any (λ existing. text_eq existing.name rec.name) s.servers
      then err (server_exists rec.name)
      else ok (srv, record s { servers = s.servers ++ rec ∷ [] })

  -- What `CreateServer` does once the credential is settled: the check for both kinds of
  -- credential reads the request's map and the reference of that point.
  unfoldable pub create_server_with :
      Uuid → Time → CreateServerRequest → Option Uuid → Snapshot → Outcome Server
  unfolding insert_server with_lock
  create_server_with id now req credential_ref s =
      if is_some credential_ref && not (is_empty req.credential)
      then (err both_credentials, s)
      else let opts = options_or_empty req.options in
        let rec : ServerRecord = record {
          id = id;
          name = req.name;
          protocol = req.protocol;
          options = raw_to_node env opts;
          credential_ref = credential_ref;
          enabled = or_else req.enabled true;
          updated_at = now;
        } in
        let srv : Server = record {
          id = id;
          name = req.name;
          protocol = req.protocol;
          options = opts;
          credential_ref = credential_ref;
          enabled = or_else req.enabled true;
          updated_at = now;
        } in
        with_lock env (insert_server rec srv) s

  -- `cred_id` and `id` are what the calls of `uuid.New` return.
  unfoldable pub create_server :
      Uuid → Uuid → Time → CreateServerRequest → Snapshot → Outcome Server
  create_server cred_id id now req s =
      if is_empty req.name || is_empty req.protocol
      then (err (required (text "name and protocol")), s)
      else if not (is_some req.credential_ref) && not (is_empty req.credential)
      then (let (made, t) = create_credential env cred_id now (inline_name req) req.credential s in
          elim made [
            | err e ↦ (err e, t)
            | ok cred ↦ create_server_with id now req (some cred.id) t
          ])
      else create_server_with id now req req.credential_ref s

  unfoldable pub list_servers : Snapshot → List Server
  list_servers s = sort_slice (λ a b. text_lt a.name b.name) (map (server_model env) s.servers)

  unfoldable pub get_server_by_id : Uuid → Snapshot → Result StoreError Server
  get_server_by_id id s = elim (find (λ rec. rec.id == id) s.servers) [
    | none ↦ err not_found
    | some rec ↦ ok (server_model env rec)
  ]

  unfoldable pub get_server_by_name : Text → Snapshot → Result StoreError Server
  get_server_by_name name s = elim (find (λ rec. text_eq rec.name name) s.servers) [
    | none ↦ err not_found
    | some rec ↦ ok (server_model env rec)
  ]

  -- The record that `UpdateServer` writes back.
  unfoldable pub changed_server : Time → UpdateServerRequest → ServerRecord → ServerRecord
  changed_server now req rec = record rec {
    options = if is_empty req.options then rec.options else raw_to_node env req.options;
    credential_ref = if is_some req.credential_ref then req.credential_ref else rec.credential_ref;
    enabled = or_else req.enabled rec.enabled;
    updated_at = now;
  }

  unfoldable pub replace_server :
      Uuid → Time → UpdateServerRequest → Snapshot → Result StoreError (Server × Snapshot)
  unfolding changed_server
  replace_server id now req s = elim (locate (λ rec. rec.id == id) s.servers) [
    | none ↦ err not_found
    | some (i, old) ↦
        let rec = changed_server now req old in
        ok (server_model env rec, record s { servers = set s.servers i rec })
  ]

  unfoldable pub update_server : Uuid → Time → UpdateServerRequest → Snapshot → Outcome Server
  unfolding replace_server with_lock
  update_server id now req = with_lock env (replace_server id now req)

  -- The body of `DeleteServer`: the server goes with its tables, its functions and their columns.
  unfoldable pub drop_server : Uuid → Snapshot → Result StoreError (Unit {0} × Snapshot)
  unfolding filter_tables filter_functions filter_columns_by_table_ids
  drop_server id s = elim (locate (λ rec. rec.id == id) s.servers) [
    | none ↦ err not_found
    | some (i, _) ↦
        let table_ids = map (λ tbl. tbl.id) (keep (λ tbl. tbl.server_id == id) s.tables) in
        ok (
          tt,
          record s {
            servers = remove_at s.servers i;
            tables = filter_tables s.tables id;
            functions = filter_functions s.functions id;
            columns = filter_columns_by_table_ids s.columns table_ids;
          },
        )
  ]

  unfoldable pub delete_server : Uuid → Snapshot → Outcome (Unit {0})
  unfolding drop_server with_lock
  delete_server id = with_lock env (drop_server id)
