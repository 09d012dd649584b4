-- ===== src/FileStore/Columns.antt =====
-- store.go and crud.go: columns.
use lowcode_wrapper.Base.{
  Bool, true, ◌&&◌, not, none, some, List, [], ◌∷◌, ◌++◌, text, Text, text_eq, ◌==◌, if◌then◌else◌,
  is_empty, any, find, locate, remove_at, set, or_else, Result, ok, err,
}
use lowcode_wrapper.Models.{Uuid, Column, CreateColumnRequest, UpdateColumnRequest}
use lowcode_wrapper.FileStore.Records.{
  ColumnRecord, Snapshot, StoreError, not_found, required, column_exists, Env, Outcome, with_lock,
  column_model, columns_for_table,
}
use lowcode_wrapper.FileStore.Tables.{same_table, default_type}

abbrev pub same_column : Uuid → Text → ColumnRecord → Bool
same_column table_id name rec = rec.table_id == table_id && text_eq rec.name name

unfoldable pub list_columns : Text → Text → Snapshot → Result StoreError (List Column)
list_columns schema table s = elim (find (same_table schema table) s.tables) [
  | none ↦ err not_found
  | some tbl ↦ ok (columns_for_table s.columns tbl.id)
]

unfoldable pub list_columns_by_table_id : Uuid → Snapshot → Result StoreError (List Column)
list_columns_by_table_id table_id s =
    if any (λ rec. rec.id == table_id) s.tables
    then ok (columns_for_table s.columns table_id)
    else err not_found

unfoldable pub get_column_by_id : Uuid → Snapshot → Result StoreError Column
get_column_by_id id s = elim (find (λ rec. rec.id == id) s.columns) [
  | none ↦ err not_found
  | some rec ↦ ok (column_model rec)
]

-- Unlike `CreateTable`, a position of 0 is kept.
unfoldable pub column_of_request : Uuid → Uuid → CreateColumnRequest → ColumnRecord
column_of_request id table_id req = record {
  id = id;
  table_id = table_id;
  name = req.name;
  data_type = default_type req.data_type;
  remote_name = req.remote_name;
  nullable = or_else req.nullable true;
  position = req.position;
}

-- The body of `CreateColumn`.
unfoldable pub insert_column :
    Uuid → Uuid → CreateColumnRequest → Snapshot → Result StoreError (Column × Snapshot)
unfolding column_of_request
insert_column id table_id req s =
    if not (any (λ rec. rec.id == table_id) s.tables)
    then err not_found
    else if any (same_column table_id req.name) s.columns
    then err (column_exists req.name)
    else let rec = column_of_request id table_id req in
      ok (column_model rec, record s { columns = s.columns ++ rec ∷ [] })

unfoldable pub changed_column : UpdateColumnRequest → ColumnRecord → ColumnRecord
changed_column req rec = record rec {
  data_type = or_else req.data_type rec.data_type;
  remote_name = or_else req.remote_name rec.remote_name;
  nullable = or_else req.nullable rec.nullable;
  position = or_else req.position rec.position;
}

unfoldable pub replace_column :
    Uuid → UpdateColumnRequest → Snapshot → Result StoreError (Column × Snapshot)
unfolding changed_column
replace_column id req s = elim (locate (λ rec. rec.id == id) s.columns) [
  | none ↦ err not_found
  | some (i, old) ↦
      let rec = changed_column req old in
      ok (column_model rec, record s { columns = set s.columns i rec })
]

unfoldable pub drop_column : Uuid → Snapshot → Result StoreError (Unit {0} × Snapshot)
drop_column id s = elim (locate (λ rec. rec.id == id) s.columns) [
  | none ↦ err not_found
  | some (i, _) ↦ ok (tt, record s { columns = remove_at s.columns i })
]

module _ (env : Env) where
  unfoldable pub create_column : Uuid → Uuid → CreateColumnRequest → Snapshot → Outcome Column
  unfolding insert_column with_lock
  create_column id table_id req s =
      if is_empty req.name
      then (err (required (text "name")), s)
      else with_lock env (insert_column id table_id req) s

  unfoldable pub update_column : Uuid → UpdateColumnRequest → Snapshot → Outcome Column
  unfolding replace_column with_lock
  update_column id req = with_lock env (replace_column id req)

  unfoldable pub delete_column : Uuid → Snapshot → Outcome (Unit {0})
  unfolding drop_column with_lock
  delete_column id = with_lock env (drop_column id)
