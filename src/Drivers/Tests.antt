-- ===== src/Drivers/Tests.antt =====
-- A file with two rows under remote names, and a table of a database with statements on it.
use mathlib.Core.List.{Perm}
use mathlib.Core.List.Permᴰ
use lowcode_wrapper.Base.{
  all, is_empty, true, false, none, ◌++◌, List, [], ◌∷◌, map, keep, text, text_eq, ◌≡◌, refl, pos,
  arith,
}
use lowcode_wrapper.Models.{
  str, Fields, Column, ResolvedTable, remote_column_name, remote_table_name,
}
use lowcode_wrapper.Postgrest.Query.{
  Filter, Values, gte, in_list, is, filters_to_query_values, filter_value, set_value,
}
use lowcode_wrapper.Postgrest.Match.{match_filters, field}
use lowcode_wrapper.Postgrest.Mapping.{map_row_to_remote, remote_of, map_filter, map_filters}
use lowcode_wrapper.Engine.Action.{SelectRequest, RowRequest, DeleteRequest}
use lowcode_wrapper.Drivers.File.{select_rows, map_or_groups}
use lowcode_wrapper.Drivers.File.Paging.{slice}
use lowcode_wrapper.Drivers.File.Local.{select_rows-local}
use lowcode_wrapper.Drivers.File.Projection.{select_rows-loses_renamed}
use lowcode_wrapper.Drivers.Sql.{row_to_cols}
use lowcode_wrapper.Drivers.Postgres.{update_statement}
use lowcode_wrapper.Drivers.Postgres.Parts.{IsNumbered}
use lowcode_wrapper.Drivers.Postgres.Bound.{bound, bound_in_groups}
use lowcode_wrapper.Drivers.Postgres.Statements.{update_statement-IsNumbered}
use lowcode_wrapper.Postgrest.Groups.{parse_query}
use lowcode_wrapper.Postgrest.Headers.{itoa}
use lowcode_wrapper.Drivers.Http.{select_values, add_orders, add_value, set_number}
use lowcode_wrapper.Drivers.Http.Upstream.{parse_query-select_values}
use lowcode_wrapper.Drivers.Mysql.{delete_query, qualified}
use lowcode_wrapper.Drivers.Mysql.Unguarded.{delete_query-unguarded}

abbrev columns : List Column
columns =
    record {
      id = 1;
      table_id = 1;
      name = text "id";
      data_type = text "text";
      remote_name = text "_id";
      nullable = false;
      position = pos 1;
    }
    ∷ []

abbrev from_five : List Filter
from_five = record { column = text "id"; op = gte; value = text "5" } ∷ []

abbrev rows : List Fields
rows = ((text "id", str (text "4")) ∷ []) ∷ ((text "id", str (text "7")) ∷ []) ∷ []

select_rows-local_example :
    select_rows columns [] from_five [] 0 10 (map (map_row_to_remote columns) rows)
    ≡ slice 0 10 (keep (λ r. match_filters r from_five) rows)
unfolding remote_of remote_column_name text_eq
select_rows-local_example = select_rows-local columns from_five refl refl 0 10 rows refl refl

abbrev file_rows : List Fields
file_rows = ((text "_id", str (text "4")) ∷ []) ∷ ((text "_id", str (text "7")) ∷ []) ∷ []

select_rows-loses_renamed_example :
    all is_empty (select_rows columns (text "id" ∷ []) from_five [] 0 10 file_rows) ≡ true
unfolding field text_eq
select_rows-loses_renamed_example =
    select_rows-loses_renamed columns (text "id") from_five [] 0 10 file_rows refl

abbrev orders : ResolvedTable
orders = record {
  table = record {
    id = 1;
    server_id = 1;
    schema_name = [];
    table_name = text "orders";
    remote_name = text "t_orders";
    key_columns = text "id" ∷ [];
    options = [];
    server_name = text "sales";
  };
  server = record {
    id = 1;
    name = text "sales";
    protocol = text "postgres";
    options = [];
    credential_ref = none;
    enabled = true;
    updated_at = 0;
  };
  columns = columns;
}

abbrev one_of : List Filter
one_of = record { column = text "id"; op = in_list; value = text "5, 6" } ∷ from_five

abbrev changed : RowRequest
changed = record {
  resolved = orders;
  row = [];
  filters = one_of;
  or_groups = from_five ∷ [];
  prefer_representation = false;
  prefer_upsert = false;
  returning = [];
}

abbrev values : Fields
values = (text "total", str (text "9")) ∷ (text "state", str (text "paid")) ∷ []

update_statement-IsNumbered_example :
    IsNumbered
      (update_statement (text "public") changed (row_to_cols values).0 (row_to_cols values).1)
    × ((update_statement (text "public") changed (row_to_cols values).0 (row_to_cols values).1).args
        ≡ map (λ e. e.1) values
          ++ (bound (map_filters changed.resolved.columns changed.filters)
              ++ bound_in_groups (map_or_groups changed.resolved.columns changed.or_groups)))
unfolding remote_table_name map_filters map_filter remote_of remote_column_name map_or_groups
    row_to_cols text_eq
update_statement-IsNumbered_example =
    update_statement-IsNumbered (text "public") changed values refl refl refl

abbrev not_paid : DeleteRequest
not_paid = record {
  resolved = orders;
  filters = record { column = text "paid"; op = is; value = text "false" } ∷ [];
  or_groups = from_five ∷ [];
}

delete_query-unguarded_example :
    delete_query (text "shop") not_paid
    ≡ record { query = text "DELETE FROM " ++ qualified (text "shop") orders; args = [] }
unfolding text_eq
delete_query-unguarded_example = delete_query-unguarded (text "shop") not_paid refl

abbrev selection : SelectRequest
selection = record {
  resolved = orders;
  select = text "id" ∷ [];
  filters = from_five;
  or_groups = [];
  order = record { column = text "id"; desc = true } ∷ [];
  limit = 10;
  offset = 0;
}

-- The same parameters in the order of their keys.
abbrev by_key : Values
by_key =
    (text "_id", text "gte.5" ∷ [])
    ∷ (text "limit", text "10" ∷ [])
    ∷ (text "order", text "id.desc" ∷ [])
    ∷ (text "select", text "id" ∷ [])
    ∷ []

parse_query-select_values_example :
    Perm (parse_query by_key).filters (map_filters columns from_five)
    × ((parse_query by_key).limit ≡ 10)
    × ((parse_query by_key).offset ≡ 0)
unfolding map_filters map_filter remote_of remote_column_name text_eq select_values
    filters_to_query_values filter_value set_value add_orders add_value set_number itoa
parse_query-select_values_example =
    parse_query-select_values selection by_key
      ∣ Permᴰ.cons refl (
        Permᴰ.trans (Permᴰ.swap refl refl)
          (Permᴰ.trans (Permᴰ.cons refl (Permᴰ.swap refl refl)) (Permᴰ.swap refl refl))) ∣₁
      refl refl (tt, tt) (omega arith) (omega arith)
