-- ===== src/Drivers/Postgres.antt =====
-- internal/driver/postgres/postgres.go: the statements and what the driver does with them. pgx, which
-- sends them, is the argument `db`; the schema is that of the driver.
pub mod Scan
pub mod Placeholders
pub mod Clauses
pub mod Bound
pub mod Parts
pub mod Statements
use lowcode_wrapper.Base.{
  ℕ, suc, ◌+◌, ltb, Bool, true, false, ◌&&◌, ◌||◌, not, Option, none, some, List, [], ◌∷◌, ◌++◌,
  map, length, Text, text, text_eq, trim_space, to_lower, contains, split, if◌then◌else◌, is_empty,
  Result, ok, err,
}
use lowcode_wrapper.Models.{Value, str, Fields, Column, ResolvedTable, remote_table_name}
use lowcode_wrapper.Postgrest.Query.{
  Filter, OrderSpec, Op, eq, neq, gt, gte, lt, lte, like, in_list, is, other,
}
use lowcode_wrapper.Postgrest.Mapping.{map_filters, map_row_to_remote}
use lowcode_wrapper.Postgrest.Errors.{quote}
use lowcode_wrapper.Engine.Action.{
  SelectRequest, RowRequest, DeleteRequest, DriverError, Call, plain_failure,
}
use lowcode_wrapper.Drivers.File.{map_or_groups}
use lowcode_wrapper.Drivers.Sql.{
  Statement, Database, decimal, join, op_sql, row_to_cols, row_to_cols_non_keys, with_where,
  number_clause, driver_refusal,
}

unfoldable pub quote_cols : List Text → Text
unfolding quote
quote_cols cols = join (text ", ") (map quote cols)

-- `$i`, and as many as there are columns or values, from `i` on.
abbrev pub placeholder : ℕ → Text
placeholder i = b'$' ∷ decimal i

abbrev pub placeholders : {A : Type 0} → ℕ → List A → List Text
placeholders i [] = []
placeholders i (x ∷ xs) = placeholder i ∷ placeholders (i + 1) xs

-- The default case of the switch in `buildWhere`: the condition and its value.
abbrev pub compared : ℕ → Text → Text → Op → Text × List Value
compared idx col value op = (col ++ (b' ' ∷ op_sql op ++ (b' ' ∷ placeholder idx)), str value ∷ [])

-- The switch in `buildWhere`, on a quoted column.
unfoldable pub condition_sql : ℕ → Text → Text → Op → Text × List Value
unfolding op_sql
condition_sql idx col value eq = (col ++ (b'=' ∷ placeholder idx), str value ∷ [])
condition_sql idx col value in_list =
    let vals = split b',' value in
    (
      col ++ (text " IN (" ++ (join (text ", ") (placeholders idx vals) ++ text ")")),
      map (λ v. str (trim_space v)) vals,
    )
condition_sql idx col value is =
    if text_eq value (text "null")
    then (col ++ text " IS NULL", [])
    else (col ++ (text " IS " ++ value), [])
condition_sql idx col value neq = compared idx col value neq
condition_sql idx col value gt = compared idx col value gt
condition_sql idx col value gte = compared idx col value gte
condition_sql idx col value lt = compared idx col value lt
condition_sql idx col value lte = compared idx col value lte
condition_sql idx col value like = compared idx col value like
condition_sql idx col value (other s) = compared idx col value (other s)

unfoldable pub filter_sql : ℕ → Filter → Text × List Value
unfolding quote condition_sql
filter_sql idx f = condition_sql idx (quote f.column) f.value f.op

-- The loop of `buildWhere`.
unfoldable pub where_parts : ℕ → List Filter → List Text × List Value
unfolding filter_sql
where_parts idx [] = ([], [])
where_parts idx (f ∷ filters) =
    let (part, vals) = filter_sql idx f in
    let (parts, args) = where_parts (idx + length vals) filters in (part ∷ parts, vals ++ args)

unfoldable pub build_where : ℕ → List Filter → Text × List Value
unfolding where_parts
build_where idx filters =
    let (parts, args) = where_parts idx filters in (join (text " AND ") parts, args)

-- The loop over the groups: a group without a condition is passed over.
unfoldable pub group_parts : ℕ → List (List Filter) → List Text × List Value
unfolding build_where
group_parts idx [] = ([], [])
group_parts idx (g ∷ groups) =
    let (w, vals) = build_where idx g in
    let skipped = group_parts idx groups in
    let (parts, args) = group_parts (idx + length vals) groups in
    if is_empty w then skipped else ((b'(' ∷ w ++ text ")") ∷ parts, vals ++ args)

abbrev pub disjunction : List Text → List Text
disjunction [] = []
disjunction (p ∷ parts) = (b'(' ∷ join (text " OR ") (p ∷ parts) ++ text ")") ∷ []

abbrev pub conjunct : Text → List Text
conjunct [] = []
conjunct (c ∷ w) = (c ∷ w) ∷ []

unfoldable pub where_clause : ℕ → List Filter → List (List Filter) → Text × List Value
unfolding build_where group_parts
where_clause start filters or_groups =
    let (w, args) = build_where start filters in
    let (parts, more) = group_parts (start + length args) or_groups in
    (join (text " AND ") (conjunct w ++ disjunction parts), args ++ more)

-- The condition of a request, under the remote names of the columns.
unfoldable pub request_where :
    ℕ → List Column → List Filter → List (List Filter) → Text × List Value
unfolding where_clause map_or_groups map_filters
request_where start cols filters or_groups =
    where_clause start (map_filters cols filters) (map_or_groups cols or_groups)

unfoldable pub order_sql : OrderSpec → Text
unfolding quote
order_sql o = quote o.column ++ (b' ' ∷ (if o.desc then text "DESC" else text "ASC"))

abbrev pub order_clause : List OrderSpec → Text
order_clause [] = []
order_clause (o ∷ order) = text " ORDER BY " ++ join (text ", ") (map order_sql (o ∷ order))

-- `SET` with the placeholders from `i` on.
unfoldable pub set_parts : ℕ → List Text → List Text
unfolding quote
set_parts i [] = []
set_parts i (c ∷ cols) = (quote c ++ (b'=' ∷ placeholder i)) ∷ set_parts (i + 1) cols

module _ (schema : Text) where
  -- The schema and the name of the table, quoted.
  unfoldable pub qualified_table : ResolvedTable → Text
  unfolding quote
  qualified_table resolved =
      quote (if is_empty resolved.table.schema_name then schema else resolved.table.schema_name)
      ++ (b'.' ∷ quote (remote_table_name resolved.table))

  unfoldable pub select_statement : SelectRequest → Statement
  unfolding qualified_table quote_cols request_where order_sql
  select_statement req =
      let cols = if is_empty req.select then text "*" else quote_cols req.select in
      let (cond, args) = request_where 1 req.resolved.columns req.filters req.or_groups in
      record {
        query =
            with_where (text "SELECT " ++ (cols ++ (text " FROM " ++ qualified_table req.resolved)))
              cond
            ++ (order_clause req.order
                ++ (number_clause (text " LIMIT ") req.limit
                    ++ number_clause (text " OFFSET ") req.offset));
        args = args;
      }

  unfoldable pub count_statement : SelectRequest → Statement
  unfolding qualified_table request_where
  count_statement req =
      let (cond, args) = request_where 1 req.resolved.columns req.filters req.or_groups in
      record {
        query = with_where (text "SELECT COUNT(*) FROM " ++ qualified_table req.resolved) cond;
        args = args;
      }

  -- The statement for columns and their values, before `RETURNING`.
  unfoldable pub insert_statement : ResolvedTable → List Text → List Value → Statement
  unfolding qualified_table quote_cols
  insert_statement resolved cols args = record {
    query =
        text "INSERT INTO "
        ++ (qualified_table resolved
            ++ (text " ("
                ++ (quote_cols cols
                    ++ (text ") VALUES ("
                        ++ (join (text ", ") (placeholders 1 cols) ++ text ")")))));
    args = args;
  }

  unfoldable pub update_statement : RowRequest → List Text → List Value → Statement
  unfolding qualified_table set_parts request_where
  update_statement req cols args =
      let (cond, more) =
        request_where (length args + 1) req.resolved.columns req.filters req.or_groups in
      record {
        query =
            with_where
              (text "UPDATE "
                ++ (qualified_table req.resolved
                    ++ (text " SET " ++ join (text ", ") (set_parts 1 cols))))
              cond;
        args = if is_empty cond then args else args ++ more;
      }

  unfoldable pub delete_statement : DeleteRequest → Statement
  unfolding qualified_table request_where
  delete_statement req =
      let (cond, args) = request_where 1 req.resolved.columns req.filters req.or_groups in
      record {
        query = with_where (text "DELETE FROM " ++ qualified_table req.resolved) cond;
        args = args;
      }

unfoldable pub is_conflict : DriverError → Bool
is_conflict e =
    let s = to_lower e.failure.message in
    contains s (text "duplicate") || contains s (text "unique") || contains s (text "23505")

module _ {W : Type 0} (schema : Text) (db : Database W) where
  unfoldable pub run_select : SelectRequest → Call W (List Fields)
  unfolding select_statement
  run_select req = db.rows (select_statement schema req)

  unfoldable pub run_count : SelectRequest → Call W ℕ
  unfolding count_statement
  run_count req = db.number (count_statement schema req)

  unfoldable pub run_insert : RowRequest → Call W (Option Fields)
  unfolding insert_statement quote_cols row_to_cols map_row_to_remote
  run_insert req w =
      let (cols, args) = row_to_cols (map_row_to_remote req.resolved.columns req.row) in
      let stmt = insert_statement schema req.resolved cols args in
      if is_empty cols
      then (err (driver_refusal (text "empty row")), w)
      else if req.prefer_representation && not (is_empty req.returning)
      then (let (done, w') =
            db.row
              (record stmt {
                query = stmt.query ++ (text " RETURNING " ++ quote_cols req.returning);
              })
              req.returning w in
          (elim done [ err e ↦ err e | ok row ↦ ok (some row) ], w'))
      else let (done, w') = db.exec stmt w in (elim done [ err e ↦ err e | ok n ↦ ok none ], w')

  unfoldable pub run_update : RowRequest → Call W ℕ
  unfolding update_statement row_to_cols_non_keys map_row_to_remote
  run_update req w =
      let (cols, args) =
        row_to_cols_non_keys (map_row_to_remote req.resolved.columns req.row)
          req.resolved.table.key_columns in
      if is_empty cols
      then (err (driver_refusal (text "no columns to update")), w)
      else db.exec (update_statement schema req cols args) w

  -- An insert, and an update where the insert met a row with its key.
  unfoldable pub run_upsert : RowRequest → Call W (Bool × Option Fields)
  unfolding run_insert run_update is_conflict
  run_upsert req w =
      let (made, w') = run_insert req w in
      elim made [
        | ok row ↦ (ok (true, row), w')
        | err e ↦
            if is_conflict e
            then (let (done, w'') = run_update req w' in
                (elim done [ err x ↦ err x | ok n ↦ ok (false, none) ], w''))
            else (err e, w')
      ]

  unfoldable pub run_delete : DeleteRequest → Call W ℕ
  unfolding delete_statement
  run_delete req = db.exec (delete_statement schema req)
