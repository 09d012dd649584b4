-- ===== src/Models.antt =====
-- internal/models/models.go: the metadata that the stores return, and the requests that change
-- it. A pointer or a slice that may be nil is an `Option`; an absent `json.RawMessage` is the
-- empty text. A UUID is its number, a time its count of nanoseconds.
use lowcode_wrapper.Base.{ℕ, Bool, Option, List, Text, ℤ, is_empty, if◌then◌else◌}

abbrev pub Uuid : Type 0
Uuid = ℕ

abbrev pub Time : Type 0
Time = ℕ

-- A decoded JSON value, as far as the program looks: what is neither text, null nor a Boolean
-- is kept as the text that `fmt.Sprint` prints.
pub data Value : Type 0 where
  null : Value
  bool : Bool → Value
  str : Text → Value
  printed : Text → Value

-- `map[string]any`: the first entry of a key is its value.
abbrev pub Fields : Type 0
Fields = List (Text × Value)

pub record Credential : Type 0 where
  pub id : Uuid
  pub name : Text
  pub created_at : Time

pub record Server : Type 0 where
  pub id : Uuid
  pub name : Text
  pub protocol : Text
  pub options : Text
  pub credential_ref : Option Uuid
  pub enabled : Bool
  pub updated_at : Time

pub record Table : Type 0 where
  pub id : Uuid
  pub server_id : Uuid
  pub schema_name : Text
  pub table_name : Text
  pub remote_name : Text
  pub key_columns : List Text
  pub options : Text
  pub server_name : Text

pub record Column : Type 0 where
  pub id : Uuid
  pub table_id : Uuid
  pub name : Text
  pub data_type : Text
  pub remote_name : Text
  pub nullable : Bool
  pub position : ℤ

pub record Function : Type 0 where
  pub id : Uuid
  pub server_id : Uuid
  pub schema_name : Text
  pub name : Text
  pub operation : Text
  pub remote_path : Text
  pub method : Text
  pub options : Text
  pub server_name : Text

pub record ResolvedTable : Type 0 where
  pub table : Table
  pub server : Server
  pub columns : List Column

pub record ResolvedFunction : Type 0 where
  pub function : Function
  pub server : Server

pub record CreateServerRequest : Type 0 where
  pub name : Text
  pub protocol : Text
  pub options : Text
  pub credential_ref : Option Uuid
  pub credential : Fields
  pub credential_name : Text
  pub enabled : Option Bool

pub record UpdateServerRequest : Type 0 where
  pub options : Text
  pub credential_ref : Option Uuid
  pub enabled : Option Bool

pub record ColumnInput : Type 0 where
  pub name : Text
  pub data_type : Text
  pub remote_name : Text
  pub nullable : Option Bool
  pub position : ℤ

pub record UpdateTableRequest : Type 0 where
  pub remote_name : Option Text
  pub key_columns : Option (List Text)
  pub options : Text

-- Its fields are those of `ColumnInput`.
abbrev pub CreateColumnRequest : Type 0
CreateColumnRequest = ColumnInput

pub record UpdateColumnRequest : Type 0 where
  pub data_type : Option Text
  pub remote_name : Option Text
  pub nullable : Option Bool
  pub position : Option ℤ

pub record UpdateFunctionRequest : Type 0 where
  pub operation : Option Text
  pub remote_path : Option Text
  pub method : Option Text
  pub options : Text

pub record CreateTableRequest : Type 0 where
  pub server_name : Text
  pub schema_name : Text
  pub table_name : Text
  pub remote_name : Text
  pub key_columns : List Text
  pub options : Text
  pub columns : List ColumnInput

pub record CreateFunctionRequest : Type 0 where
  pub server_name : Text
  pub schema_name : Text
  pub name : Text
  pub operation : Text
  pub remote_path : Text
  pub method : Text
  pub options : Text

unfoldable pub remote_column_name : Column → Text
remote_column_name col = if is_empty col.remote_name then col.name else col.remote_name

unfoldable pub remote_table_name : Table → Text
remote_table_name t = if is_empty t.remote_name then t.table_name else t.remote_name
