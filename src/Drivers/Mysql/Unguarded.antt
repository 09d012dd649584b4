-- ===== src/Drivers/Mysql/Unguarded.antt =====
-- Statements without a condition.
use lowcode_wrapper.Base.{
  Bool, true, false, not, List, [], ◌∷◌, ◌++◌, all, Text, text, text_eq, ◌≡◌, refl, arith,
}
use lowcode_wrapper.Models.{Column}
use lowcode_wrapper.Postgrest.Query.{
  Filter, Op, eq, neq, gt, gte, lt, lte, like, in_list, is, other,
}
use lowcode_wrapper.Postgrest.Mapping.{map_filter, map_filters}
use lowcode_wrapper.Engine.Action.{DeleteRequest}
use lowcode_wrapper.Drivers.Mysql.{
  backtick, condition_parts, filter_parts, build_where_mysql, qualified, delete_query,
}

abbrev is_test : Text → Op → Bool
is_test value is = not (text_eq value (text "null"))
is_test value _ = false

-- An `is` filter on another value than `null`.
abbrev pub is_other_is : Filter → Bool
is_other_is f = is_test f.value f.op

condition_parts-none :
    (col value : Text) (op : Op) → is_test value op ≡ true → condition_parts col value op ≡ ([], [])
unfolding condition_parts
condition_parts-none col value is h =
    let other : text_eq value (text "null") ≡ false = ground arith in rw other refl
condition_parts-none col value eq h = cc
condition_parts-none col value neq h = cc
condition_parts-none col value gt h = cc
condition_parts-none col value gte h = cc
condition_parts-none col value lt h = cc
condition_parts-none col value lte h = cc
condition_parts-none col value like h = cc
condition_parts-none col value in_list h = cc
condition_parts-none col value (other s) h = cc

filter_parts-none :
    (cols : List Column) (filters : List Filter)
    → all is_other_is filters ≡ true
    → filter_parts (map_filters cols filters) ≡ ([], [])
unfolding filter_parts map_filters map_filter
filter_parts-none cols [] h = refl
filter_parts-none cols (f ∷ filters) h =
    let one =
      condition_parts-none (backtick (map_filter cols f).column) f.value f.op (ground arith) in
    let rest = filter_parts-none cols filters (ground arith) in rw one (rw rest refl)

-- Whatever the `or` groups of the request, and whatever its `is` filters on values other than `null`:
-- where it has no other filter, the `DELETE` has no condition and takes every row of the table.
pub delete_query-unguarded :
    (database : Text) (req : DeleteRequest)
    → all is_other_is req.filters ≡ true
    → delete_query database req
      ≡ record { query = text "DELETE FROM " ++ qualified database req.resolved; args = [] }
unfolding delete_query build_where_mysql
delete_query-unguarded database req h =
    rw (filter_parts-none req.resolved.columns req.filters h) refl
