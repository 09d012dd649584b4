-- ===== src/FileStore/Declarative.antt =====
-- internal/store/file: the document of a drivers file (declarative.go) and its way to and from the
-- document of the importer (bridge.go). An absent map is the empty one.
pub mod References
use lowcode_wrapper.Base.{Bool, Option, none, List, [], ◌∷◌, map, Text, ℤ, is_empty, if◌then◌else◌}
use lowcode_wrapper.Models.{Fields}
use lowcode_wrapper.Importer.Merge
use lowcode_wrapper.Importer.Merge.{
  DeclCredential as ImportedCredential, DeclServer as ImportedServer, DeclColumn as ImportedColumn,
  DeclTable as ImportedTable, DeclFunction as ImportedFunction, DeclarativeDoc as ImportedDoc,
}

pub record DeclCredential : Type 0 where
  pub name : Text
  -- `Data`, a word of the language
  pub fields : Fields

-- An inline secret, or the name of a listed credential.
pub record DeclCredentialField : Type 0 where
  pub name : Text
  pub fields : Fields

pub record DeclServer : Type 0 where
  pub name : Text
  pub protocol : Text
  pub credential : DeclCredentialField
  pub enabled : Option Bool
  pub options : Fields

pub record DeclColumn : Type 0 where
  pub name : Text
  pub data_type : Text
  pub remote_name : Text
  pub nullable : Option Bool
  pub position : ℤ

pub record DeclTable : Type 0 where
  pub server : Text
  pub schema : Text
  pub name : Text
  pub remote_name : Text
  pub key_columns : List Text
  pub options : Fields
  pub columns : List DeclColumn

pub record DeclFunction : Type 0 where
  pub server : Text
  pub schema : Text
  pub name : Text
  pub operation : Text
  pub remote_path : Text
  pub method : Text
  pub options : Fields

pub record DeclarativeDoc : Type 0 where
  pub credentials : List DeclCredential
  pub servers : List DeclServer
  pub tables : List DeclTable
  pub functions : List DeclFunction

abbrev pub no_credential : DeclCredentialField
no_credential = record { name = []; fields = [] }

unfoldable pub server_from_importer : ImportedServer → DeclServer
server_from_importer s = record {
  name = s.name;
  protocol = s.protocol;
  credential =
      if is_empty s.credential then no_credential else record { name = []; fields = s.credential };
  enabled = s.enabled;
  options = s.options;
}

unfoldable pub column_from_importer : ImportedColumn → DeclColumn
column_from_importer c = record {
  name = c.name;
  data_type = c.data_type;
  remote_name = c.remote_name;
  nullable = c.nullable;
  position = c.position;
}

unfoldable pub table_from_importer : ImportedTable → DeclTable
unfolding column_from_importer
table_from_importer t = record {
  server = t.server;
  schema = t.schema;
  name = t.name;
  remote_name = t.remote_name;
  key_columns = t.key_columns;
  options = t.options;
  columns = map column_from_importer t.columns;
}

unfoldable pub function_from_importer : ImportedFunction → DeclFunction
function_from_importer f = record {
  server = f.server;
  schema = f.schema;
  name = f.name;
  operation = f.operation;
  remote_path = f.remote_path;
  method = f.method;
  options = f.options;
}

unfoldable pub declarative_from_importer : ImportedDoc → DeclarativeDoc
unfolding server_from_importer table_from_importer function_from_importer
declarative_from_importer doc = record {
  credentials = map (λ c. record { name = c.name; fields = c.fields }) doc.credentials;
  servers = map server_from_importer doc.servers;
  tables = map table_from_importer doc.tables;
  functions = map function_from_importer doc.functions;
}

-- A credential that is given by name has no place in the importer's server.
unfoldable pub server_to_importer : DeclServer → ImportedServer
server_to_importer s = record {
  name = s.name;
  protocol = s.protocol;
  credential = if is_empty s.credential.fields then [] else s.credential.fields;
  enabled = s.enabled;
  options = s.options;
}

unfoldable pub column_to_importer : DeclColumn → ImportedColumn
column_to_importer c = record {
  name = c.name;
  data_type = c.data_type;
  remote_name = c.remote_name;
  nullable = c.nullable;
  position = c.position;
}

unfoldable pub table_to_importer : DeclTable → ImportedTable
unfolding column_to_importer
table_to_importer t = record {
  server = t.server;
  schema = t.schema;
  name = t.name;
  remote_name = t.remote_name;
  key_columns = t.key_columns;
  options = t.options;
  columns = map column_to_importer t.columns;
}

unfoldable pub function_to_importer : DeclFunction → ImportedFunction
function_to_importer f = record {
  server = f.server;
  schema = f.schema;
  name = f.name;
  operation = f.operation;
  remote_path = f.remote_path;
  method = f.method;
  options = f.options;
}

unfoldable pub declarative_to_importer : DeclarativeDoc → ImportedDoc
unfolding server_to_importer table_to_importer function_to_importer
declarative_to_importer doc = record {
  credentials = map (λ c. record { name = c.name; fields = c.fields }) doc.credentials;
  servers = map server_to_importer doc.servers;
  tables = map table_to_importer doc.tables;
  functions = map function_to_importer doc.functions;
}
