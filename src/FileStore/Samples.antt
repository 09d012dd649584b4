-- ===== src/FileStore/Samples.antt =====
-- Data for the tests: a small metadata store and requests.
use lowcode_wrapper.Base.{true, none, some, ok, text, Text, [], ◌∷◌, pos}
use lowcode_wrapper.Models.{
  str, CreateServerRequest, CreateTableRequest, ColumnInput, UpdateColumnRequest, ResolvedTable,
}
use lowcode_wrapper.FileStore.Records.{Snapshot, Env, empty_snapshot}

-- YAML text is its JSON text, the vault stores one text, and every write succeeds.
abbrev pub plain : Env
plain = record {
  node_of_json = λ raw. some raw;
  json_of_node = λ node. some node;
  empty_node = text "{}";
  encrypt = λ fields. ok (text "sealed");
  decrypt = λ payload. ok [];
  persist = λ s. none;
}

abbrev pub local : CreateServerRequest
local = record {
  name = text "local";
  protocol = text "file";
  options = [];
  credential_ref = none;
  credential = [];
  credential_name = [];
  enabled = none;
}

abbrev pub with_secret : CreateServerRequest
with_secret = record local { credential = (text "token", str (text "x")) ∷ [] }

abbrev pub input : Text → ColumnInput
input name = record {
  name = name;
  data_type = [];
  remote_name = [];
  nullable = none;
  position = pos 0;
}

abbrev pub items : CreateTableRequest
items = record {
  server_name = text "local";
  schema_name = [];
  table_name = text "items";
  remote_name = [];
  key_columns = [];
  options = [];
  columns = input (text "id") ∷ input (text "name") ∷ [];
}

abbrev pub base : Snapshot
base = record empty_snapshot {
  servers =
      record {
        id = 1;
        name = text "local";
        protocol = text "file";
        options = text "{}";
        credential_ref = none;
        enabled = true;
        updated_at = 0;
      }
      ∷ [];
}

abbrev pub with_items : Snapshot
with_items = record base {
  tables =
      record {
        id = 2;
        server_id = 1;
        schema_name = text "public";
        table_name = text "items";
        remote_name = [];
        key_columns = [];
        options = text "{}";
      }
      ∷ [];
  columns =
      record {
        id = 3;
        table_id = 2;
        name = text "id";
        data_type = text "text";
        remote_name = [];
        nullable = true;
        position = pos 1;
      }
      ∷ [];
}

abbrev pub to_integer : UpdateColumnRequest
to_integer = record {
  data_type = some (text "integer");
  remote_name = none;
  nullable = none;
  position = none;
}

-- What `public.items` resolves to in `with_items`.
abbrev pub items_resolved : ResolvedTable
items_resolved = record {
  table = record {
    id = 2;
    server_id = 1;
    schema_name = text "public";
    table_name = text "items";
    remote_name = [];
    key_columns = [];
    options = text "{}";
    server_name = text "local";
  };
  server = record {
    id = 1;
    name = text "local";
    protocol = text "file";
    options = text "{}";
    credential_ref = none;
    enabled = true;
    updated_at = 0;
  };
  columns =
      record {
        id = 3;
        table_id = 2;
        name = text "id";
        data_type = text "text";
        remote_name = [];
        nullable = true;
        position = pos 1;
      }
      ∷ [];
}
