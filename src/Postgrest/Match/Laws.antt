-- ===== src/Postgrest/Match/Laws.antt =====
-- How the operators of a filter relate, and how a query combines filters with groups.
use lowcode_wrapper.Base.{
  true, false, not, is_some, ◌&&◌, ◌||◌, Option, none, some, List, ◌∷◌, Text, text_eq, text_eq_comm,
  text_lt, ◌≡◌, ◌≢◌, arith, any,
}
use lowcode_wrapper.Models.{Fields, Value}
use lowcode_wrapper.Postgrest.Query.{Op, eq, neq, gt, gte, lt, lte, Filter}
use lowcode_wrapper.Postgrest.Match.{
  field, match_value, match_filter, match_filters, match_query, sprint,
}

abbrev pub with_op : Filter → Op → Filter
with_op f op = record f { op = op }

-- Of two texts, exactly one is the smaller, or they are equal.
text_trichotomy :
    (a b : Text)
    → (not (text_lt a b) ≡ (text_lt b a || text_eq a b)) × (text_lt b a && text_eq a b ≡ false)
unfolding text_lt text_eq
text_trichotomy (x ∷ a) (y ∷ b) = ground (arith, text_trichotomy a b)
text_trichotomy _ _ = ground arith

value_order :
    (v : Text) (val : Option Value)
    → (match_value neq v val ≡ not (match_value eq v val))
      × (match_value gte v val ≡ (match_value gt v val || match_value eq v val))
      × (match_value lte v val ≡ (match_value lt v val || match_value eq v val))
      × ((match_value lt v val && match_value gte v val) ≡ false)
      × ((is_some val || match_value neq v val) ≡ true)
      × ((match_value gte v val && not (is_some val)) ≡ false)
      × ((match_value lte v val && not (is_some val)) ≡ false)
unfolding match_value
value_order v none = ground arith
value_order v (some x) =
    ground
      (arith, text_trichotomy (sprint x) v, text_trichotomy v (sprint x), text_eq_comm v (sprint x))

-- On every row, `neq` holds exactly where `eq` does not, `gte` where `gt` or `eq` does, `lte` where
-- `lt` or `eq` does, and `lt` and `gte` never together; where the row has no value for the column,
-- none of `eq`, `gt`, `gte`, `lt` and `lte` holds, and `neq` does.
pub match_filter-order :
    (row : Fields) (f : Filter)
    → (match_filter row (with_op f neq) ≡ not (match_filter row (with_op f eq)))
      × (match_filter row (with_op f gte)
          ≡ (match_filter row (with_op f gt) || match_filter row (with_op f eq)))
      × (match_filter row (with_op f lte)
          ≡ (match_filter row (with_op f lt) || match_filter row (with_op f eq)))
      × ((match_filter row (with_op f lt) && match_filter row (with_op f gte)) ≡ false)
      × ((is_some (field f.column row) || match_filter row (with_op f neq)) ≡ true)
      × ((match_filter row (with_op f gte) && not (is_some (field f.column row))) ≡ false)
      × ((match_filter row (with_op f lte) && not (is_some (field f.column row))) ≡ false)
unfolding match_filter
match_filter-order row f = value_order f.value (field f.column row)

-- A row that fails a filter and satisfies some group of the `or` parameter is taken by
-- `MatchQuery`, although it does not satisfy both: with a group there, the filters are not read.
pub match_query-ignores_filters :
    (row : Fields) (filters : List Filter) (g : List Filter) (gs : List (List Filter))
    → match_filters row filters ≡ false
    → any (match_filters row) (g ∷ gs) ≡ true
    → match_query row filters (g ∷ gs)
      ≢ (match_filters row filters && any (match_filters row) (g ∷ gs))
unfolding match_query
match_query-ignores_filters row filters g gs fails holds e = ground arith
