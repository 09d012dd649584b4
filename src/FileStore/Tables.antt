-- ===== src/FileStore/Tables.antt =====
-- store.go and crud.go: tables, with the columns that are made along with one.
use lowcode_wrapper.Base.{
  ℕ, ◌+◌, Bool, true, ◌&&◌, ◌||◌, not, none, some, List, [], ◌∷◌, ◌++◌, map, Text, text, text_eq,
  text_lt, ◌==◌, if◌then◌else◌, is_empty, any, find, locate, remove_at, set, or_else, Result, ok,
  err, pos, is_zero,
}
use lowcode_wrapper.Base.Sort.{sort_slice}
use lowcode_wrapper.Models.{
  Uuid, Table, Column, ColumnInput, ResolvedTable, CreateTableRequest, UpdateTableRequest,
}
use lowcode_wrapper.FileStore.Records.{
  ServerRecord, TableRecord, ColumnRecord, Snapshot, StoreError, not_found, required, table_exists,
  server_disabled, Env, Outcome, with_lock, raw_to_node, server_model, table_model, column_model,
  server_name_of, columns_for_table, schema_or_public, options_or_empty,
}
use lowcode_wrapper.FileStore.Servers.{filter_columns_by_table_ids}

abbrev pub default_type : Text → Text
default_type dt = if is_empty dt then text "text" else dt

-- The record for the column at index `i` of the request.
unfoldable pub column_of_input : Uuid → Uuid → ℕ → ColumnInput → ColumnRecord
column_of_input id table_id i c = record {
  id = id;
  table_id = table_id;
  name = c.name;
  data_type = default_type c.data_type;
  remote_name = c.remote_name;
  nullable = or_else c.nullable true;
  position = if is_zero c.position then pos i else c.position;
}

-- The loop over `req.Columns`, from index `i`: inputs with no name are passed over. `fresh i` is
-- the UUID made for index `i`.
unfoldable pub new_columns : (ℕ → Uuid) → Uuid → ℕ → List ColumnInput → List ColumnRecord
unfolding column_of_input
new_columns fresh table_id i [] = []
new_columns fresh table_id i (c ∷ cs) =
    let rest = new_columns fresh table_id (i + 1) cs in
    if is_empty c.name then rest else column_of_input (fresh i) table_id i c ∷ rest

abbrev pub same_table : Text → Text → TableRecord → Bool
same_table schema name rec = text_eq rec.schema_name schema && text_eq rec.table_name name

-- A read of the map `serverNames`, which the last server of an id fills.
unfoldable pub last_name : List ServerRecord → Uuid → Text
last_name [] id = []
last_name (srv ∷ rest) id =
    let later = last_name rest id in
    if any (λ s. s.id == id) rest then later else if srv.id == id then srv.name else []

abbrev pub table_less : Table → Table → Bool
table_less a b =
    if text_eq a.schema_name b.schema_name
    then text_lt a.table_name b.table_name
    else text_lt a.schema_name b.schema_name

module _ (env : Env) where
  -- The table that the request describes.
  unfoldable pub table_of_request : Uuid → Uuid → CreateTableRequest → TableRecord
  table_of_request id server_id req = record {
    id = id;
    server_id = server_id;
    schema_name = schema_or_public req.schema_name;
    table_name = req.table_name;
    remote_name = req.remote_name;
    key_columns = req.key_columns;
    options = raw_to_node env (options_or_empty req.options);
  }

  -- The body of `CreateTable`; `id` is the table's UUID.
  unfoldable pub insert_table :
      Uuid
      → (ℕ → Uuid)
      → CreateTableRequest
      → Snapshot
      → Result StoreError ((Table × List Column) × Snapshot)
  unfolding new_columns table_of_request
  insert_table id fresh req s =
      let schema = schema_or_public req.schema_name in
      elim (find (λ srv. text_eq srv.name req.server_name) s.servers) [
        | none ↦ err not_found
        | some srv ↦
            if any (same_table schema req.table_name) s.tables
            then err (table_exists schema req.table_name)
            else let rec = table_of_request id srv.id req in
              let cols = new_columns fresh id 0 req.columns in
              let tbl : Table = record {
                id = id;
                server_id = srv.id;
                schema_name = schema;
                table_name = req.table_name;
                remote_name = req.remote_name;
                key_columns = req.key_columns;
                options = options_or_empty req.options;
                server_name = srv.name;
              } in
              ok (
                (tbl, map column_model cols),
                record s { tables = s.tables ++ rec ∷ []; columns = s.columns ++ cols },
              )
      ]

  unfoldable pub create_table :
      Uuid → (ℕ → Uuid) → CreateTableRequest → Snapshot → Outcome (Table × List Column)
  unfolding insert_table with_lock
  create_table id fresh req s =
      if is_empty req.server_name || is_empty req.table_name
      then (err (required (text "serverName and tableName")), s)
      else with_lock env (insert_table id fresh req) s

  unfoldable pub list_tables : Snapshot → List Table
  unfolding last_name
  list_tables s =
      sort_slice table_less
        (map (λ rec. table_model env (last_name s.servers rec.server_id) rec) s.tables)

  unfoldable pub get_table_by_id : Uuid → Snapshot → Result StoreError Table
  get_table_by_id id s = elim (find (λ rec. rec.id == id) s.tables) [
    | none ↦ err not_found
    | some rec ↦ ok (table_model env (server_name_of s.servers rec.server_id) rec)
  ]

  unfoldable pub changed_table : UpdateTableRequest → TableRecord → TableRecord
  changed_table req rec = record rec {
    remote_name = or_else req.remote_name rec.remote_name;
    key_columns = or_else req.key_columns rec.key_columns;
    options = if is_empty req.options then rec.options else raw_to_node env req.options;
  }

  unfoldable pub replace_table :
      Uuid → UpdateTableRequest → Snapshot → Result StoreError (Table × Snapshot)
  unfolding changed_table
  replace_table id req s = elim (locate (λ rec. rec.id == id) s.tables) [
    | none ↦ err not_found
    | some (i, old) ↦
        let rec = changed_table req old in
        ok (
          table_model env (server_name_of s.servers rec.server_id) rec,
          record s { tables = set s.tables i rec },
        )
  ]

  unfoldable pub update_table : Uuid → UpdateTableRequest → Snapshot → Outcome Table
  unfolding replace_table with_lock
  update_table id req = with_lock env (replace_table id req)

  unfoldable pub drop_table : Uuid → Snapshot → Result StoreError (Unit {0} × Snapshot)
  unfolding filter_columns_by_table_ids
  drop_table id s = elim (locate (λ rec. rec.id == id) s.tables) [
    | none ↦ err not_found
    | some (i, _) ↦ ok (
      tt,
      record s {
        tables = remove_at s.tables i;
        columns = filter_columns_by_table_ids s.columns (id ∷ []);
      },
    )
  ]

  unfoldable pub delete_table : Uuid → Snapshot → Outcome (Unit {0})
  unfolding drop_table with_lock
  delete_table id = with_lock env (drop_table id)

  unfoldable pub resolve_table : Text → Text → Snapshot → Result StoreError ResolvedTable
  resolve_table schema table s = elim (find (same_table schema table) s.tables) [
    | none ↦ err not_found
    | some tbl ↦ elim (find (λ srv. srv.id == tbl.server_id) s.servers) [
      | none ↦ err not_found
      | some srv ↦
          if not srv.enabled
          then err (server_disabled srv.name)
          else ok (record {
            table = table_model env srv.name tbl;
            server = server_model env srv;
            columns = columns_for_table s.columns tbl.id;
          })
    ]
  ]
