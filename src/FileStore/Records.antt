-- ===== src/FileStore/Records.antt =====
-- data.go, with the `toModel` methods, the lock and the searches of store.go and crud.go.
use lowcode_wrapper.Base.{
  Bool, Option, none, some, List, [], map, Text, text, text_lt, ℤ, int_lt, int_eq, ◌==◌,
  if◌then◌else◌, is_empty, find, keep, or_else, Result, ok, err,
}
use lowcode_wrapper.Base.Sort.{sort_slice}
use lowcode_wrapper.Models.{Uuid, Time, Fields, Server, Table, Column, Function}

-- A `yaml.Node`, as the YAML text that it stands for: only the two functions below look inside.
abbrev pub Node : Type 0
Node = Text

pub record CredentialRecord : Type 0 where
  pub id : Uuid
  pub name : Text
  pub payload : Text
  pub created_at : Time

pub record ServerRecord : Type 0 where
  pub id : Uuid
  pub name : Text
  pub protocol : Text
  pub options : Node
  pub credential_ref : Option Uuid
  pub enabled : Bool
  pub updated_at : Time

pub record TableRecord : Type 0 where
  pub id : Uuid
  pub server_id : Uuid
  pub schema_name : Text
  pub table_name : Text
  pub remote_name : Text
  pub key_columns : List Text
  pub options : Node

pub record ColumnRecord : Type 0 where
  pub id : Uuid
  pub table_id : Uuid
  pub name : Text
  pub data_type : Text
  pub remote_name : Text
  pub nullable : Bool
  pub position : ℤ

pub record FunctionRecord : Type 0 where
  pub id : Uuid
  pub server_id : Uuid
  pub schema_name : Text
  pub name : Text
  pub operation : Text
  pub remote_path : Text
  pub method : Text
  pub options : Node

pub record Snapshot : Type 0 where
  pub credentials : List CredentialRecord
  pub servers : List ServerRecord
  pub tables : List TableRecord
  pub columns : List ColumnRecord
  pub functions : List FunctionRecord

abbrev pub empty_snapshot : Snapshot
empty_snapshot = record {
  credentials = [];
  servers = [];
  tables = [];
  columns = [];
  functions = [];
}

-- The errors, with the values that their messages show.
pub data StoreError : Type 0 where
  not_found : StoreError
  required : Text → StoreError
  credential_exists server_exists column_exists : Text → StoreError
  table_exists function_exists : Text → Text → StoreError
  credential_referenced server_disabled : Text → StoreError
  both_credentials : StoreError
  external : Text → StoreError

-- What the store takes from outside: the YAML library, the vault behind the base64 text of its
-- payload, and the write of the drivers file (`persistLocked`, `none` when it succeeds).
pub record Env : Type 0 where
  pub node_of_json : Text → Option Node
  pub json_of_node : Node → Option Text
  pub empty_node : Node
  pub encrypt : Fields → Result Text Text
  pub decrypt : Text → Result Text Fields
  pub persist : Snapshot → Option Text

abbrev pub Outcome : Type 0 → Type 0
Outcome A = Result StoreError A × Snapshot

module _ (env : Env) where
  -- `rawToNode`: text that is not JSON becomes the empty object.
  unfoldable pub raw_to_node : Text → Node
  raw_to_node raw =
      or_else (env.node_of_json (if is_empty raw then text "{}" else raw)) env.empty_node

  -- `nodeToRaw`
  unfoldable pub node_to_raw : Node → Text
  node_to_raw node = or_else (env.json_of_node node) (text "{}")

  -- `withLock`: an error of the body is returned before the file is written; an error of the
  -- write is returned with the change left in memory.
  unfoldable pub finish_locked :
      {A : Type 0} → Snapshot → Result StoreError (A × Snapshot) → Outcome A
  finish_locked s (err e) = (err e, s)
  finish_locked s (ok (a, t)) = elim (env.persist t) [
    | none ↦ (ok a, t)
    | some e ↦ (err (external e), t)
  ]

  unfoldable pub with_lock :
      {A : Type 0} → (Snapshot → Result StoreError (A × Snapshot)) → Snapshot → Outcome A
  unfolding finish_locked
  with_lock fn s = finish_locked s (fn s)

  unfoldable pub server_model : ServerRecord → Server
  server_model r = record {
    id = r.id;
    name = r.name;
    protocol = r.protocol;
    options = node_to_raw r.options;
    credential_ref = r.credential_ref;
    enabled = r.enabled;
    updated_at = r.updated_at;
  }

  -- `toModel`, with the server's name that its callers add.
  unfoldable pub table_model : Text → TableRecord → Table
  table_model server_name r = record {
    id = r.id;
    server_id = r.server_id;
    schema_name = r.schema_name;
    table_name = r.table_name;
    remote_name = r.remote_name;
    key_columns = r.key_columns;
    options = node_to_raw r.options;
    server_name = server_name;
  }

  unfoldable pub function_model : Text → FunctionRecord → Function
  function_model server_name r = record {
    id = r.id;
    server_id = r.server_id;
    schema_name = r.schema_name;
    name = r.name;
    operation = r.operation;
    remote_path = r.remote_path;
    method = r.method;
    options = node_to_raw r.options;
    server_name = server_name;
  }

unfoldable pub column_model : ColumnRecord → Column
column_model r = record {
  id = r.id;
  table_id = r.table_id;
  name = r.name;
  data_type = r.data_type;
  remote_name = r.remote_name;
  nullable = r.nullable;
  position = r.position;
}

-- `serverNameLocked`, and a read of the map `serverNames`: the name, or the empty text.
unfoldable pub server_name_of : List ServerRecord → Uuid → Text
server_name_of servers id = elim (find (λ srv. srv.id == id) servers) [
  | none ↦ []
  | some srv ↦ srv.name
]

abbrev pub column_less : Column → Column → Bool
column_less a b =
    if int_eq a.position b.position then text_lt a.name b.name else int_lt a.position b.position

-- `columnsForTableLocked`
unfoldable pub columns_for_table : List ColumnRecord → Uuid → List Column
columns_for_table columns table_id =
    sort_slice column_less (map column_model (keep (λ rec. rec.table_id == table_id) columns))

-- The schema of a request, `public` when it names none.
abbrev pub schema_or_public : Text → Text
schema_or_public schema = if is_empty schema then text "public" else schema

abbrev pub options_or_empty : Text → Text
options_or_empty opts = if is_empty opts then text "{}" else opts
