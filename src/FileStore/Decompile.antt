-- ===== src/FileStore/Decompile.antt =====
-- internal/store/file/declarative.go: from the records in memory to the document that is written. A Go
-- map keeps the last value of a key; its walks are in the order in which the keys came.
use lowcode_wrapper.Base.{
  ℕ, suc, ltb, Option, none, some, List, [], ◌∷◌, ◌++◌, map, keep, find, any, Text, if◌then◌else◌,
  Result, ok, ◌>>=◌, ◌==◌,
}
use lowcode_wrapper.Models.{Uuid, Fields}
use lowcode_wrapper.FileStore.Records.{
  Node, CredentialRecord, ServerRecord, TableRecord, ColumnRecord, FunctionRecord, Snapshot,
  node_to_raw,
}
use lowcode_wrapper.FileStore.Declarative.{
  DeclCredentialField, DeclCredential, DeclServer, DeclColumn, DeclTable, DeclFunction,
  DeclarativeDoc, no_credential,
}
use lowcode_wrapper.FileStore.Compile.{Source, id_of}

-- `m[id]` where the newest entry counts.
abbrev pub data_of : Uuid → List (Uuid × Fields) → Option Fields
data_of id [] = none
data_of id ((j, fields) ∷ m) = if j == id then some fields else data_of id m

-- `refCount[id]`
unfoldable pub ref_count : List ServerRecord → Uuid → ℕ
ref_count [] id = 0
ref_count (s ∷ servers) id = elim s.credential_ref [
  | none ↦ ref_count servers id
  | some ref ↦ if ref == id then suc (ref_count servers id) else ref_count servers id
]

-- The keys of `refCount`, each once.
unfoldable pub ref_ids : List ServerRecord → List Uuid → List Uuid
ref_ids [] seen = []
ref_ids (s ∷ servers) seen = elim s.credential_ref [
  | none ↦ ref_ids servers seen
  | some ref ↦
      if any (λ id. id == ref) seen
      then ref_ids servers seen
      else ref ∷ ref_ids servers (ref ∷ seen)
]

-- `serverNames[id]`
unfoldable pub server_name_at : List (Uuid × Text) → Uuid → Text
server_name_at [] id = []
server_name_at ((j, name) ∷ m) id = if j == id then name else server_name_at m id

-- `serverNames`, the newest entry first.
unfoldable pub server_name_map : List ServerRecord → List (Uuid × Text) → List (Uuid × Text)
server_name_map [] m = m
server_name_map (s ∷ servers) m = server_name_map servers ((s.id, s.name) ∷ m)

abbrev pub meta_key : Text → Text → Text → Text
meta_key schema name server = schema ++ 0 ∷ (name ++ 0 ∷ server)

abbrev pub decl_column : ColumnRecord → DeclColumn
decl_column c = record {
  name = c.name;
  data_type = c.data_type;
  remote_name = c.remote_name;
  nullable = some c.nullable;
  position = c.position;
}

-- `colsByTable[id]`
unfoldable pub cols_by_table : List ColumnRecord → Uuid → List DeclColumn
cols_by_table columns id = map decl_column (keep (λ c. c.table_id == id) columns)

module _ (src : Source) where
  unfoldable pub credential_name_for_id : Snapshot → Uuid → Text
  credential_name_for_id s id = elim (find (λ c. c.id == id) s.credentials) [
    | some c ↦ c.name
    | none ↦ src.uuid_string id
  ]

  -- `credData`, the newest entry first, or the error of the vault.
  unfoldable pub decrypt_credentials :
      List CredentialRecord → List (Uuid × Fields) → Result Text (List (Uuid × Fields))
  decrypt_credentials [] m = ok m
  decrypt_credentials (c ∷ cs) m =
      src.env.decrypt c.payload >>= (λ fields. decrypt_credentials cs ((c.id, fields) ∷ m))

  unfoldable pub options_of : Node → Fields
  options_of node = src.json_unmarshal (node_to_raw src.env node)

  unfoldable pub decl_credential :
      Snapshot → List (Uuid × Fields) → ServerRecord → DeclCredentialField
  unfolding ref_count credential_name_for_id
  decl_credential s cred_data rec = elim rec.credential_ref [
    | none ↦ no_credential
    | some ref ↦ elim (data_of ref cred_data) [
      | none ↦ no_credential
      | some fields ↦
          if ref_count s.servers ref == 1
          then record { name = []; fields = fields }
          else record { name = credential_name_for_id s ref; fields = [] }
    ]
  ]

  unfoldable pub decl_server : Snapshot → List (Uuid × Fields) → ServerRecord → DeclServer
  unfolding options_of decl_credential
  decl_server s cred_data rec = record {
    name = rec.name;
    protocol = rec.protocol;
    credential = decl_credential s cred_data rec;
    enabled = some rec.enabled;
    options = options_of rec.options;
  }

  -- The loop over `refCount`: the credentials that several servers share.
  unfoldable pub shared_credentials :
      Snapshot → List (Uuid × Fields) → List Uuid → List DeclCredential
  unfolding ref_count credential_name_for_id
  shared_credentials s cred_data [] = []
  shared_credentials s cred_data (id ∷ ids) =
      let rest = shared_credentials s cred_data ids in
      if ltb 1 (ref_count s.servers id)
      then elim (data_of id cred_data) [
        | none ↦ rest
        | some fields ↦ record { name = credential_name_for_id s id; fields = fields } ∷ rest
      ]
      else rest

  -- A table before its columns are filled in.
  unfoldable pub decl_table : Snapshot → TableRecord → DeclTable
  unfolding options_of server_name_at server_name_map
  decl_table s t = record {
    server = server_name_at (server_name_map s.servers []) t.server_id;
    schema = t.schema_name;
    name = t.table_name;
    remote_name = t.remote_name;
    key_columns = t.key_columns;
    options = options_of t.options;
    columns = [];
  }

  -- `tableMeta`, the newest entry first.
  unfoldable pub table_meta : Snapshot → List TableRecord → List (Text × Uuid) → List (Text × Uuid)
  unfolding server_name_at server_name_map
  table_meta s [] m = m
  table_meta s (t ∷ tables) m =
      let server = server_name_at (server_name_map s.servers []) t.server_id in
      table_meta s tables ((meta_key t.schema_name t.table_name server, t.id) ∷ m)

  -- The second loop over the tables.
  unfoldable pub fill_columns : Snapshot → List (Text × Uuid) → DeclTable → DeclTable
  unfolding cols_by_table
  fill_columns s meta t = elim (id_of (meta_key t.schema t.name t.server) meta) [
    | none ↦ t
    | some id ↦ record t { columns = cols_by_table s.columns id }
  ]

  unfoldable pub decl_function : Snapshot → FunctionRecord → DeclFunction
  unfolding options_of server_name_at server_name_map
  decl_function s f = record {
    server = server_name_at (server_name_map s.servers []) f.server_id;
    schema = f.schema_name;
    name = f.name;
    operation = f.operation;
    remote_path = f.remote_path;
    method = f.method;
    options = options_of f.options;
  }

  unfoldable pub decompile_declarative : Snapshot → Result Text DeclarativeDoc
  unfolding decrypt_credentials ref_ids shared_credentials decl_server decl_table table_meta
      fill_columns decl_function
  decompile_declarative s = decrypt_credentials s.credentials [] >>= (λ cred_data. ok (record {
    credentials = shared_credentials s cred_data (ref_ids s.servers []);
    servers = map (decl_server s cred_data) s.servers;
    tables = map (fill_columns s (table_meta s s.tables [])) (map (decl_table s) s.tables);
    functions = map (decl_function s) s.functions;
  }))
