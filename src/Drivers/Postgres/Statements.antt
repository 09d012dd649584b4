-- ===== src/Drivers/Postgres/Statements.antt =====
-- The placeholders of whole statements.
use mathlib.Core.List.{append-nil}
use lowcode_wrapper.Base.{
  ◌+◌, true, [], ◌++◌, map, length, all, is_empty, Text, text, if◌then◌else◌, ◌≡◌, refl, ◌∙◌,
}
use lowcode_wrapper.Models.{Fields, ResolvedTable}
use lowcode_wrapper.Engine.Action.{SelectRequest, RowRequest, DeleteRequest}
use lowcode_wrapper.Postgrest.Mapping.{map_filters}
use lowcode_wrapper.Drivers.File.{map_or_groups}
use lowcode_wrapper.Drivers.Postgres.Bound.{bound, bound_in_groups, with_where-bound}
use lowcode_wrapper.Drivers.Sql.{join, with_where, row_to_cols, number_clause}
use lowcode_wrapper.Drivers.Postgres.{
  placeholders, request_where, quote_cols, qualified_table, order_clause, select_statement,
  count_statement, delete_statement, insert_statement, set_parts, update_statement,
}
use lowcode_wrapper.Drivers.Postgres.Scan.{
  ends-append, Reads-append, is_bare, concat, Reads-join, Reads-after,
}
use lowcode_wrapper.Drivers.Postgres.Placeholders.{
  numbers, Reads-eq, Reads-before, Reads-placeholders,
}
use lowcode_wrapper.Drivers.Postgres.Parts.{
  IsNumbered, Reads-both, Reads-whole, with_where-numbers, has_bare_names, qualified_table-Reads,
  has_fair_conditions, request_where-numbers, set_texts, concat-set_texts, set_parts-AllRead,
  quote_cols-Reads, is_bare_order, order_clause-Reads, order_clause-ends, bounds-Reads, bounds-ends,
  selected-Reads, with_where-args, same_numbers,
}

module _ (schema : Text) where
  -- A `DELETE` numbers its placeholders 1, 2 and so on, one for each of its values in their order: read
  -- from the text of the statement, outside of quoted names. Here the names of the table and of the
  -- columns need no escapes in quotes, and the value of an `is` filter has no quote and no dollar.
  pub delete_statement-IsNumbered :
      (req : DeleteRequest)
      → has_bare_names schema req.resolved ≡ true
      → has_fair_conditions req.resolved.columns req.filters req.or_groups ≡ true
      → IsNumbered (delete_statement schema req)
  unfolding delete_statement
  delete_statement-IsNumbered req h k =
      let cond = request_where 1 req.resolved.columns req.filters req.or_groups in
      let table = qualified_table schema req.resolved in
      Reads-whole (delete_statement schema req).query (numbers 1 cond.1) (
        with_where-numbers (text "DELETE FROM " ++ table) cond.0 [] (numbers 1 cond.1)
          (Reads-after (text "DELETE FROM ") table [] refl
            (qualified_table-Reads schema req.resolved h))
          (request_where-numbers 1 req.resolved.columns req.filters req.or_groups k))

  update_statement-numbers :
      (req : RowRequest) (row : Fields)
      → has_bare_names schema req.resolved ≡ true
      → all (all is_bare) (row_to_cols row).0 ≡ true
      → has_fair_conditions req.resolved.columns req.filters req.or_groups ≡ true
      → IsNumbered (update_statement schema req (row_to_cols row).0 (row_to_cols row).1)
  unfolding update_statement
  update_statement-numbers req row h b k =
      let cols = (row_to_cols row).0 in
      let args = (row_to_cols row).1 in
      let cond = request_where (length args + 1) req.resolved.columns req.filters req.or_groups in
      let table = qualified_table schema req.resolved in
      let sets = join (text ", ") (set_parts 1 cols) in
      with_where-args (text "UPDATE " ++ (table ++ (text " SET " ++ sets))) cond.0 args cond.1
        (Reads-eq (text "UPDATE " ++ (table ++ (text " SET " ++ sets)))
          (concat-set_texts 1 cols ∙ same_numbers row)
          (Reads-after (text "UPDATE ") (table ++ (text " SET " ++ sets))
            (concat (set_texts 1 cols)) refl
            (Reads-both table (text " SET " ++ sets) (concat (set_texts 1 cols))
              (qualified_table-Reads schema req.resolved h)
              (Reads-after (text " SET ") sets (concat (set_texts 1 cols)) refl (
                Reads-join (text ", ") (set_parts 1 cols) (set_texts 1 cols) refl refl
                  (set_parts-AllRead 1 cols b)))
              refl)))
        (request_where-numbers (length args + 1) req.resolved.columns req.filters req.or_groups k)

  -- An `UPDATE` numbers its placeholders 1, 2 and so on, one for each of its values, read from the
  -- text of the statement outside of quoted names; and its values are those of the row, then those of
  -- the filters under the remote names and then those of the groups, each in their order. Here the
  -- names of the table and of the columns need no escapes in quotes, and the value of an `is` filter
  -- has no quote and no dollar.
  pub update_statement-IsNumbered :
      (req : RowRequest) (row : Fields)
      → has_bare_names schema req.resolved ≡ true
      → all (all is_bare) (row_to_cols row).0 ≡ true
      → has_fair_conditions req.resolved.columns req.filters req.or_groups ≡ true
      → IsNumbered (update_statement schema req (row_to_cols row).0 (row_to_cols row).1)
        × ((update_statement schema req (row_to_cols row).0 (row_to_cols row).1).args
            ≡ map (λ e. e.1) row
              ++ (bound (map_filters req.resolved.columns req.filters)
                  ++ bound_in_groups (map_or_groups req.resolved.columns req.or_groups)))
  unfolding update_statement row_to_cols
  update_statement-IsNumbered req row h b k = (
    update_statement-numbers req row h b k,
    with_where-bound (length (row_to_cols row).1 + 1) req.resolved.columns req.filters req.or_groups
        (map (λ e. e.1) row),
  )

  -- An `INSERT` numbers its placeholders in the same way.
  pub insert_statement-IsNumbered :
      (resolved : ResolvedTable) (row : Fields)
      → has_bare_names schema resolved ≡ true
      → all (all is_bare) (row_to_cols row).0 ≡ true
      → IsNumbered (insert_statement schema resolved (row_to_cols row).0 (row_to_cols row).1)
  unfolding insert_statement
  insert_statement-IsNumbered resolved row h b =
      let cols = (row_to_cols row).0 in
      let list = join (text ", ") (placeholders 1 cols) in
      let values = text ") VALUES (" ++ (list ++ text ")") in
      let names = text " (" ++ (quote_cols cols ++ values) in
      let table = qualified_table schema resolved in
      Reads-whole (text "INSERT INTO " ++ (table ++ names)) (numbers 1 cols) (
        Reads-after (text "INSERT INTO ") (table ++ names) (numbers 1 cols) refl (
          Reads-both table names (numbers 1 cols) (qualified_table-Reads schema resolved h)
            (Reads-after (text " (") (quote_cols cols ++ values) (numbers 1 cols) refl (
              Reads-both (quote_cols cols) values (numbers 1 cols) (quote_cols-Reads cols b)
                (Reads-after (text ") VALUES (") (list ++ text ")") (numbers 1 cols) refl (
                  Reads-before list (text ")") (numbers 1 cols) (Reads-placeholders 1 cols) refl
                    refl))
                refl))
            refl))
      ∙ same_numbers row

  pub count_statement-IsNumbered :
      (req : SelectRequest)
      → has_bare_names schema req.resolved ≡ true
      → has_fair_conditions req.resolved.columns req.filters req.or_groups ≡ true
      → IsNumbered (count_statement schema req)
  unfolding count_statement
  count_statement-IsNumbered req h k =
      let cond = request_where 1 req.resolved.columns req.filters req.or_groups in
      let table = qualified_table schema req.resolved in
      let start = text "SELECT COUNT(*) FROM " in
      Reads-whole (with_where (start ++ table) cond.0) (numbers 1 cond.1) (
        with_where-numbers (start ++ table) cond.0 [] (numbers 1 cond.1)
          (Reads-after start table [] refl (qualified_table-Reads schema req.resolved h))
          (request_where-numbers 1 req.resolved.columns req.filters req.or_groups k))

  -- A `SELECT` numbers its placeholders 1, 2 and so on, one for each of its values in their order: read
  -- from the text of the statement, outside of quoted names, whatever the order, the limit and the
  -- offset. Here the names of the table and of the columns need no escapes in quotes, and the value of
  -- an `is` filter has no quote and no dollar.
  pub select_statement-IsNumbered :
      (req : SelectRequest)
      → has_bare_names schema req.resolved ≡ true
      → all (all is_bare) req.select ≡ true
      → all is_bare_order req.order ≡ true
      → has_fair_conditions req.resolved.columns req.filters req.or_groups ≡ true
      → IsNumbered (select_statement schema req)
  unfolding select_statement
  select_statement-IsNumbered req h c o k =
      let cond = request_where 1 req.resolved.columns req.filters req.or_groups in
      let table = qualified_table schema req.resolved in
      let cols = if is_empty req.select then text "*" else quote_cols req.select in
      let head = text "SELECT " ++ (cols ++ (text " FROM " ++ table)) in
      let bounds =
        number_clause (text " LIMIT ") req.limit ++ number_clause (text " OFFSET ") req.offset in
      let tail = order_clause req.order ++ bounds in
      let ns = numbers 1 cond.1 in
      Reads-whole (with_where head cond.0 ++ tail) ns (
        Reads-eq (with_where head cond.0 ++ tail) (append-nil ns) (
          Reads-append (with_where head cond.0) tail ns []
            (with_where-numbers head cond.0 [] ns
              (Reads-after (text "SELECT ") (cols ++ (text " FROM " ++ table)) [] refl (
                Reads-both cols (text " FROM " ++ table) [] (selected-Reads req.select c)
                  (Reads-after (text " FROM ") table [] refl
                    (qualified_table-Reads schema req.resolved h))
                  refl))
              (request_where-numbers 1 req.resolved.columns req.filters req.or_groups k))
            (Reads-both (order_clause req.order) bounds [] (order_clause-Reads req.order o)
              (bounds-Reads req.limit req.offset) (bounds-ends req.limit req.offset))
            (ends-append (order_clause req.order) bounds (order_clause-ends req.order)
              (bounds-ends req.limit req.offset))))
