-- ===== src/Admin/Interface.antt =====
-- What the handlers of the admin API use: the interface of internal/store/store.go over the state `S`
-- of a store and its errors `E`, internal/store/config.go, and the answers of internal/httpx/json.go.
use lowcode_wrapper.Base.{
  ℕ, Bool, ◌||◌, List, Text, text, text_eq, trim_space, to_lower, ◌++◌, if◌then◌else◌, is_empty,
  Result, ok, err,
}
use lowcode_wrapper.Models.{
  Uuid, Fields, Credential, Server, Table, Column, Function, CreateServerRequest,
  UpdateServerRequest, CreateTableRequest, UpdateTableRequest, CreateColumnRequest,
  UpdateColumnRequest, CreateFunctionRequest, UpdateFunctionRequest,
}
use lowcode_wrapper.Postgrest.Errors.{quote}

-- An operation that may change the store: its result and the store afterwards.
abbrev pub Change : Type 0 → Type 0 → Type 0 → Type 0
Change S E A = S → Result E A × S

-- `Store`, as far as the handlers call it.
pub record MetaStore (S E : Type 0) : Type 0 where
  pub create_credential : Text → Fields → Change S E Credential
  pub delete_credential : Uuid → Change S E (Unit {0})
  pub create_server : CreateServerRequest → Change S E Server
  pub list_servers : S → Result E (List Server)
  pub get_server_by_id : Uuid → S → Result E Server
  pub update_server : Uuid → UpdateServerRequest → Change S E Server
  pub delete_server : Uuid → Change S E (Unit {0})
  pub create_table : CreateTableRequest → Change S E (Table × List Column)
  pub list_tables : S → Result E (List Table)
  pub get_table_by_id : Uuid → S → Result E Table
  pub update_table : Uuid → UpdateTableRequest → Change S E Table
  pub delete_table : Uuid → Change S E (Unit {0})
  pub list_columns_by_table_id : Uuid → S → Result E (List Column)
  pub get_column_by_id : Uuid → S → Result E Column
  pub create_column : Uuid → CreateColumnRequest → Change S E Column
  pub update_column : Uuid → UpdateColumnRequest → Change S E Column
  pub delete_column : Uuid → Change S E (Unit {0})
  pub create_function : CreateFunctionRequest → Change S E Function
  pub list_functions : S → Result E (List Function)
  pub get_function_by_id : Uuid → S → Result E Function
  pub update_function : Uuid → UpdateFunctionRequest → Change S E Function
  pub delete_function : Uuid → Change S E (Unit {0})
  -- `errors.Is(err, ErrNotFound)` and `err.Error()`
  pub is_not_found : E → Bool
  pub message : E → Text

-- Every operation that may change the store leads from `s` to a store with `P`.
pub record Leads {S E : Type 0} (store : MetaStore S E) (s : S) (P : S → Type 0) : Type 0 where
  pub create_credential :
      (name : Text) (fields : Fields) → P (store.create_credential name fields s).1
  pub delete_credential : (id : Uuid) → P (store.delete_credential id s).1
  pub create_server : (req : CreateServerRequest) → P (store.create_server req s).1
  pub update_server : (id : Uuid) (req : UpdateServerRequest) → P (store.update_server id req s).1
  pub delete_server : (id : Uuid) → P (store.delete_server id s).1
  pub create_table : (req : CreateTableRequest) → P (store.create_table req s).1
  pub update_table : (id : Uuid) (req : UpdateTableRequest) → P (store.update_table id req s).1
  pub delete_table : (id : Uuid) → P (store.delete_table id s).1
  pub create_column : (id : Uuid) (req : CreateColumnRequest) → P (store.create_column id req s).1
  pub update_column : (id : Uuid) (req : UpdateColumnRequest) → P (store.update_column id req s).1
  pub delete_column : (id : Uuid) → P (store.delete_column id s).1
  pub create_function : (req : CreateFunctionRequest) → P (store.create_function req s).1
  pub update_function :
      (id : Uuid) (req : UpdateFunctionRequest) → P (store.update_function id req s).1
  pub delete_function : (id : Uuid) → P (store.delete_function id s).1

-- `Mode` is a string.
abbrev pub mode_db : Text
mode_db = text "db"

abbrev pub mode_file : Text
mode_file = text "file"

-- `Config`
pub record StoreConfig : Type 0 where
  pub mode : Text
  pub path : Text

-- `LoadConfig` over the variables of the process.
unfoldable pub load_config : (Text → Text) → Result Text StoreConfig
unfolding quote
load_config getenv =
    let given = trim_space (getenv (text "DATASPAN_STORE_MODE")) in
    let mode = if is_empty given then mode_db else to_lower given in
    let path = trim_space (getenv (text "DATASPAN_DRIVERS_FILE")) in
    if text_eq mode mode_db || text_eq mode mode_file
    then ok (record { mode = mode; path = if is_empty path then text "./drivers.yaml" else path })
    else err (text "unsupported store mode " ++ (quote mode ++ text " (use db or file)"))

pub data Body : Type 0 where
  nothing : Body
  plain_text message_of : Text → Body
  credential_of : Credential → Body
  server_of : Server → Body
  servers_of : List Server → Body
  table_of : Table → Body
  tables_of : List Table → Body
  -- The keys `table` and `columns`.
  created_table : Table × List Column → Body
  column_of : Column → Body
  columns_of : List Column → Body
  function_of : Function → Body
  functions_of : List Function → Body
  -- The members of a JSON object.
  members : List (Text × Text) → Body

pub record Reply : Type 0 where
  pub status : ℕ
  pub content_type : Text
  pub body : Body

abbrev pub reply_json : ℕ → Body → Reply
reply_json status body = record {
  status = status;
  content_type = text "application/json";
  body = body;
}

-- `http.Error`
abbrev pub reply_text : ℕ → Text → Reply
reply_text status message = record {
  status = status;
  content_type = text "text/plain; charset=utf-8";
  body = plain_text message;
}

-- `http.NotFound`
abbrev pub reply_not_found : Reply
reply_not_found = reply_text 404 (text "404 page not found")

-- `WriteHeader` alone
abbrev pub no_content : Reply
no_content = record { status = 204; content_type = text ""; body = nothing }

-- `WriteAdminError`, for an error that is not found or not.
unfoldable pub write_admin_error : Bool → Text → Reply
write_admin_error missing message = reply_json (if missing then 404 else 400) (message_of message)
