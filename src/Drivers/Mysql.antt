-- ===== src/Drivers/Mysql.antt =====
-- internal/driver/mysql/mysql.go: the statements and what the driver does with them. database/sql, which
-- sends them, is the argument `db`; `database` is the name that the driver was opened with.
pub mod Unguarded
use lowcode_wrapper.Base.{
  ℕ, ltb, Bool, true, false, ◌==◌, Option, none, some, List, [], ◌∷◌, ◌++◌, map, Text, text,
  text_eq, trim_space, split, if◌then◌else◌, is_empty, Result, ok, err,
}
use lowcode_wrapper.Models.{Value, str, printed, Fields, Column, ResolvedTable, remote_table_name}
use lowcode_wrapper.Postgrest.Query.{
  Filter, OrderSpec, Op, eq, neq, gt, gte, lt, lte, like, in_list, is, other,
}
use lowcode_wrapper.Postgrest.Mapping.{map_filters, map_row_to_remote}
use lowcode_wrapper.Engine.Action.{
  SelectRequest, RowRequest, DeleteRequest, DriverError, Call, plain_failure,
}
use lowcode_wrapper.Drivers.Sql.{
  Statement, Database, decimal, join, op_sql, row_to_cols, row_to_cols_non_keys, with_where,
  number_clause, driver_refusal,
}

abbrev pub backtick : Text → Text
backtick s = 96 ∷ (s ++ (96 ∷ []))

unfoldable pub backtick_cols : List Text → Text
backtick_cols cols = join (text ", ") (map backtick cols)

abbrev pub marks : {A : Type 0} → List A → List Text
marks = map (λ x. text "?")

-- The default case of the switch in `buildWhereMySQL`.
abbrev pub default_parts : Text → Text → Op → List Text × List Value
default_parts col value op = ((col ++ (b' ' ∷ op_sql op ++ text " ?")) ∷ [], str value ∷ [])

-- The switch in `buildWhereMySQL`, on a quoted column: the condition, if one is added, and its values.
unfoldable pub condition_parts : Text → Text → Op → List Text × List Value
unfolding op_sql
condition_parts col value eq = ((col ++ text "=?") ∷ [], str value ∷ [])
condition_parts col value in_list =
    let vals = split b',' value in
    (
      (col ++ (text " IN (" ++ (join (text ", ") (marks vals) ++ text ")"))) ∷ [],
      map (λ v. str (trim_space v)) vals,
    )
condition_parts col value is =
    if text_eq value (text "null") then ((col ++ text " IS NULL") ∷ [], []) else ([], [])
condition_parts col value neq = default_parts col value neq
condition_parts col value gt = default_parts col value gt
condition_parts col value gte = default_parts col value gte
condition_parts col value lt = default_parts col value lt
condition_parts col value lte = default_parts col value lte
condition_parts col value like = default_parts col value like
condition_parts col value (other s) = default_parts col value (other s)

-- The loop of `buildWhereMySQL`.
unfoldable pub filter_parts : List Filter → List Text × List Value
unfolding condition_parts
filter_parts [] = ([], [])
filter_parts (f ∷ filters) =
    let (part, vals) = condition_parts (backtick f.column) f.value f.op in
    let (parts, args) = filter_parts filters in (part ++ parts, vals ++ args)

unfoldable pub build_where_mysql : List Filter → Text × List Value
unfolding filter_parts
build_where_mysql filters =
    let (parts, args) = filter_parts filters in (join (text " AND ") parts, args)

abbrev pub ordered : OrderSpec → Text
ordered o = backtick o.column ++ (b' ' ∷ (if o.desc then text "DESC" else text "ASC"))

abbrev pub ordering : List OrderSpec → Text
ordering [] = []
ordering (o ∷ order) = text " ORDER BY " ++ join (text ", ") (map ordered (o ∷ order))

module _ (database : Text) where
  -- `qualified` of the remote name of the table.
  unfoldable pub qualified : ResolvedTable → Text
  qualified resolved =
      let table = backtick (remote_table_name resolved.table) in
      if is_empty database then table else backtick database ++ (b'.' ∷ table)

  unfoldable pub select_query : SelectRequest → Statement
  unfolding qualified backtick_cols build_where_mysql map_filters
  select_query req =
      let cols = if is_empty req.select then text "*" else backtick_cols req.select in
      let (cond, args) = build_where_mysql (map_filters req.resolved.columns req.filters) in
      record {
        query =
            with_where (text "SELECT " ++ (cols ++ (text " FROM " ++ qualified req.resolved))) cond
            ++ (ordering req.order
                ++ (number_clause (text " LIMIT ") req.limit
                    ++ number_clause (text " OFFSET ") req.offset));
        args = args;
      }

  unfoldable pub insert_query : ResolvedTable → List Text → List Value → Statement
  unfolding qualified backtick_cols
  insert_query resolved cols args = record {
    query =
        text "INSERT INTO "
        ++ (qualified resolved
            ++ (text " ("
                ++ (backtick_cols cols
                    ++ (text ") VALUES (" ++ (join (text ", ") (marks cols) ++ text ")")))));
    args = args;
  }

  unfoldable pub update_query : RowRequest → List Text → List Value → Statement
  unfolding qualified build_where_mysql map_filters
  update_query req cols args =
      let (cond, more) = build_where_mysql (map_filters req.resolved.columns req.filters) in
      record {
        query =
            with_where
              (text "UPDATE "
                ++ (qualified req.resolved
                    ++ (text " SET "
                        ++ join (text ", ") (map (λ c. backtick c ++ text "=?") cols))))
              cond;
        args = if is_empty cond then args else args ++ more;
      }

  unfoldable pub upsert_query : ResolvedTable → List Text → List Value → Statement
  unfolding insert_query
  upsert_query resolved cols args =
      let stmt = insert_query resolved cols args in
      record stmt {
        query =
            stmt.query
            ++ (text " ON DUPLICATE KEY UPDATE "
                ++ join (text ", ")
                    (map (λ c. backtick c ++ (text "=VALUES(" ++ (backtick c ++ text ")"))) cols));
      }

  unfoldable pub delete_query : DeleteRequest → Statement
  unfolding qualified build_where_mysql map_filters
  delete_query req =
      let (cond, args) = build_where_mysql (map_filters req.resolved.columns req.filters) in
      record {
        query = with_where (text "DELETE FROM " ++ qualified req.resolved) cond;
        args = args;
      }

module _ {W : Type 0} (database : Text) (db : Database W) where
  unfoldable pub mysql_select : SelectRequest → Call W (List Fields)
  unfolding select_query
  mysql_select req = db.rows (select_query database req)

  unfoldable pub mysql_insert : RowRequest → Call W (Option Fields)
  unfolding insert_query row_to_cols map_row_to_remote
  mysql_insert req w =
      let (cols, args) = row_to_cols (map_row_to_remote req.resolved.columns req.row) in
      if is_empty cols
      then (err (driver_refusal (text "empty row")), w)
      else let (done, w') = db.insert (insert_query database req.resolved cols args) w in
        (
          elim done [
            | err e ↦ err e
            | ok id ↦ ok (
                if req.prefer_representation
                then (if ltb 0 id then some ((text "id", printed (decimal id)) ∷ []) else none)
                else none)
          ],
          w',
        )

  unfoldable pub mysql_update : RowRequest → Call W ℕ
  unfolding update_query row_to_cols_non_keys map_row_to_remote
  mysql_update req w =
      let (cols, args) =
        row_to_cols_non_keys (map_row_to_remote req.resolved.columns req.row)
          req.resolved.table.key_columns in
      if is_empty cols
      then (err (driver_refusal (text "no columns to update")), w)
      else db.exec (update_query database req cols args) w

  -- MySQL counts one affected row for an insert and two for an update.
  unfoldable pub mysql_upsert : RowRequest → Call W (Bool × Option Fields)
  unfolding upsert_query row_to_cols map_row_to_remote
  mysql_upsert req w =
      let (cols, args) = row_to_cols (map_row_to_remote req.resolved.columns req.row) in
      if is_empty cols
      then (err (driver_refusal (text "empty row")), w)
      else let (done, w') = db.exec (upsert_query database req.resolved cols args) w in
        (elim done [ err e ↦ err e | ok n ↦ ok (n == 1, none) ], w')

  unfoldable pub mysql_delete : DeleteRequest → Call W ℕ
  unfolding delete_query
  mysql_delete req = db.exec (delete_query database req)
