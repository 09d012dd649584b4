-- ===== src/Postgrest/Tests.antt =====
-- Concrete queries, rows and errors.
use lowcode_wrapper.Base.{
  true, false, is_some, ◌||◌, ◌&&◌, not, some, List, [], ◌∷◌, ◌++◌, Text, text, text_eq, map, ◌≡◌,
  refl, pos, arith,
}
use lowcode_wrapper.Models.{str, Fields, Column, remote_column_name}
use lowcode_wrapper.Postgrest.Query.{eq, neq, gt, gte, lt, lte, Filter, atoi_from_zero}
use lowcode_wrapper.Postgrest.Groups.{split_top_level}
use lowcode_wrapper.Postgrest.Groups.Splitting.{join, split_top_level-join}
use lowcode_wrapper.Postgrest.Match.{field, match_filter, match_filters}
use lowcode_wrapper.Postgrest.Match.Laws.{with_op, match_filter-order}
use lowcode_wrapper.Postgrest.Mapping.{
  map_row_to_remote, map_rows_from_remote, map_filters, remote_of,
}
use lowcode_wrapper.Postgrest.Mapping.RoundTrip.{map_rows_from_remote-map_row_to_remote}
use lowcode_wrapper.Postgrest.Mapping.Pushdown.{match_filters-map_filters}
use lowcode_wrapper.Postgrest.Headers.{format_content_range}
use lowcode_wrapper.Postgrest.Headers.Range.{format_content_range-read}

abbrev id_column : Column
id_column = record {
  id = 1;
  table_id = 1;
  name = text "id";
  data_type = text "text";
  remote_name = text "_id";
  nullable = false;
  position = pos 1;
}

abbrev name_column : Column
name_column = record {
  id = 2;
  table_id = 1;
  name = text "name";
  data_type = text "text";
  remote_name = [];
  nullable = true;
  position = pos 2;
}

abbrev columns : List Column
columns = id_column ∷ name_column ∷ []

abbrev row : Fields
row = (text "name", str (text "Ann")) ∷ (text "id", str (text "7")) ∷ []

abbrev by_id : Filter
by_id = record { column = text "id"; op = gte; value = text "5.5" }

abbrev by_name : Filter
by_name = record { column = text "name"; op = eq; value = text "Bob" }

match_filter-order_example :
    (match_filter row (with_op by_name neq) ≡ not (match_filter row (with_op by_name eq)))
    × (match_filter row (with_op by_name gte)
        ≡ (match_filter row (with_op by_name gt) || match_filter row (with_op by_name eq)))
    × (match_filter row (with_op by_name lte)
        ≡ (match_filter row (with_op by_name lt) || match_filter row (with_op by_name eq)))
    × ((match_filter row (with_op by_name lt) && match_filter row (with_op by_name gte)) ≡ false)
    × ((is_some (field by_name.column row) || match_filter row (with_op by_name neq)) ≡ true)
    × ((match_filter row (with_op by_name gte) && not (is_some (field by_name.column row))) ≡ false)
    × ((match_filter row (with_op by_name lte) && not (is_some (field by_name.column row))) ≡ false)
match_filter-order_example = match_filter-order row by_name

map_rows_from_remote-map_row_to_remote_example :
    map_rows_from_remote columns (map (map_row_to_remote columns) (row ∷ [])) ≡ row ∷ []
unfolding remote_of text_eq remote_column_name
map_rows_from_remote-map_row_to_remote_example =
    map_rows_from_remote-map_row_to_remote columns (row ∷ []) refl refl refl

match_filters-map_filters_example :
    match_filters (map_row_to_remote columns row) (map_filters columns (by_id ∷ by_name ∷ []))
    ≡ match_filters row (by_id ∷ by_name ∷ [])
unfolding remote_of text_eq remote_column_name
match_filters-map_filters_example =
    match_filters-map_filters columns row (by_id ∷ by_name ∷ []) refl refl refl refl

format_content_range-read_example :
    (a b c : Text) × (format_content_range (pos 20) (pos 29) (pos 345)
      ≡ some (a ++ text "-" ++ b ++ text "/" ++ c))
    × (atoi_from_zero a ≡ some 20)
    × (atoi_from_zero b ≡ some 29)
    × (atoi_from_zero c ≡ some 345)
format_content_range-read_example =
    format_content_range-read 20 29 345 (omega arith) (omega arith) (omega arith)

split_top_level-join_example :
    (split_top_level b',' (join b',' (text "a.eq.1" ∷ text "and(b.gt.2,c.lt.3)" ∷ []))
      ≡ text "a.eq.1" ∷ text "and(b.gt.2,c.lt.3)" ∷ [])
    × (join b',' (split_top_level b',' (text "a,b)")) ≡ text "a,b)")
split_top_level-join_example =
    split_top_level-join b',' (text "a.eq.1") (text "and(b.gt.2,c.lt.3)" ∷ []) (text "a,b)") refl
      refl
