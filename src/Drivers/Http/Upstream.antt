-- ===== src/Drivers/Http/Upstream.antt =====
-- What a server with the query language of dataspan reads from the requests of the driver.
use mathlib.Core.List.{Perm}
use mathlib.Core.Logic.{∥∥₁_map, ∥∥₁_elim}
use mathlib.Core.Path.{subst}
use native.Mathlib.Nat.{ℕ_set}
use lowcode_wrapper.Base.{
  ◌<◌, ◌^◌, true, false, all, distinct, List, [], Text, text, text_eq, if◌then◌else◌, is_empty, ◌≡◌,
  refl, ap, ◌∙◌, Bool-cases, inl, inr,
}
use lowcode_wrapper.Drivers.Sql.{join}
use lowcode_wrapper.Postgrest.Query.{
  Values, Filter, reserved, get_value, set_value, filters_to_query_values, parse_filters,
  parse_count,
}
use lowcode_wrapper.Postgrest.Groups.{parse_query}
use lowcode_wrapper.Postgrest.Mapping.{map_filters}
use lowcode_wrapper.Engine.Action.{SelectRequest}
use lowcode_wrapper.Drivers.Http.{add_orders, set_number, select_values}
use lowcode_wrapper.Drivers.Http.Parameters.{
  parse_filters-set_value, parse_filters-add_orders, parse_filters-set_number, same_column,
  AllKnown, is_free, parse_filters-entries, get_value-set_other, get_value-add_orders,
  get_value-entries, set_number-read, get_value-set_number, filters_to_query_values-entries,
}
use lowcode_wrapper.Drivers.Http.Reordered.{
  at_most_one, entries_under, parse_filters-Perm, get_value-Perm, entries_under-set_other,
  entries_under-add_orders, entries_under-set_number, set_number-single, entries_under-entries,
}

-- The parameters before the numbers.
abbrev with_select : SelectRequest → Values → Values
with_select req q =
    if is_empty req.select then q else set_value (text "select") (join (text ",") req.select) q

with_select-other :
    (req : SelectRequest) (other : Text) (q : Values)
    → text_eq (text "select") other ≡ false
    → get_value (with_select req q) other ≡ get_value q other
with_select-other req other q apart = elim (Bool-cases (is_empty req.select)) [
  | inl all_columns ↦ rw all_columns refl
  | inr some_columns ↦ rw some_columns (get_value-set_other (text "select") _ _ apart q)
]

with_select-filters :
    (req : SelectRequest) (q : Values) → parse_filters (with_select req q) ≡ parse_filters q
unfolding text_eq
with_select-filters req q = elim (Bool-cases (is_empty req.select)) [
  | inl all_columns ↦ rw all_columns refl
  | inr some_columns ↦ rw some_columns (parse_filters-set_value (text "select") _ q refl)
]

module _ (req : SelectRequest) where
  abbrev wanted : List Filter
  wanted = map_filters req.resolved.columns req.filters

  entries_under-with_select :
      (key : Text)
      → text_eq (text "select") key ≡ false
      → (q : Values) → entries_under key (with_select req q) ≡ entries_under key q
  entries_under-with_select key apart q = elim (Bool-cases (is_empty req.select)) [
    | inl all_columns ↦ rw all_columns refl
    | inr some_columns ↦ rw some_columns (entries_under-set_other key (text "select") apart _ q)
  ]

  -- The parameters without `limit` and `offset` have neither.
  lacks_number :
      (key : Text)
      → reserved key ≡ true
      → text_eq (text "select") key ≡ false
      → text_eq (text "order") key ≡ false
      → all is_free wanted ≡ true
      → distinct same_column wanted ≡ true
      → get_value (add_orders req.order (with_select req (filters_to_query_values [] wanted))) key
        ≡ []
  lacks_number key r a b free apart =
      get_value-add_orders key req.order _ b
      ∙ with_select-other req key _ a
      ∙ ap (λ q. get_value q key) (filters_to_query_values-entries wanted apart)
      ∙ get_value-entries key wanted r free

  lacks_entries :
      (key : Text)
      → reserved key ≡ true
      → text_eq (text "select") key ≡ false
      → text_eq (text "order") key ≡ false
      → all is_free wanted ≡ true
      → distinct same_column wanted ≡ true
      → entries_under key
          (add_orders req.order (with_select req (filters_to_query_values [] wanted)))
        ≡ []
  lacks_entries key r a b free apart =
      entries_under-add_orders key b req.order _
      ∙ entries_under-with_select key a _
      ∙ ap (entries_under key) (filters_to_query_values-entries wanted apart)
      ∙ entries_under-entries key wanted r free

  -- In the order in which the driver sets the parameters.
  parse_query-in_order :
      all is_free wanted ≡ true
      → distinct same_column wanted ≡ true
      → AllKnown wanted
      → req.limit < 2 ^ 63
      → req.offset < 2 ^ 63
      → ((parse_query (select_values req)).filters ≡ wanted)
        × (((parse_query (select_values req)).limit ≡ req.limit)
            × ((parse_query (select_values req)).offset ≡ req.offset))
  unfolding parse_query select_values text_eq
  parse_query-in_order free apart known few first =
      let selected = with_select req (filters_to_query_values [] wanted) in
      let base = add_orders req.order selected in
      let limited = set_number (text "limit") req.limit base in
      (
        parse_filters-set_number (text "offset") req.offset limited refl
            ∙ parse_filters-set_number (text "limit") req.limit base refl
            ∙ parse_filters-add_orders req.order selected
            ∙ with_select-filters req (filters_to_query_values [] wanted)
            ∙ ap parse_filters (filters_to_query_values-entries wanted apart)
            ∙ parse_filters-entries wanted free known,
        (
          ap parse_count
                (get_value-set_number (text "offset") (text "limit") req.offset limited refl)
              ∙ set_number-read (text "limit") req.limit base few
                  (lacks_number (text "limit") refl refl refl free apart),
          set_number-read (text "offset") req.offset limited first (
              get_value-set_number (text "limit") (text "offset") req.limit base refl
              ∙ lacks_number (text "offset") refl refl refl free apart),
        ),
      )

  -- At most one entry for the limit, and one for the offset.
  limit-single :
      all is_free wanted ≡ true
      → distinct same_column wanted ≡ true
      → at_most_one (entries_under (text "limit") (select_values req)) ≡ true
  unfolding select_values text_eq
  limit-single free apart =
      let base = add_orders req.order (with_select req (filters_to_query_values [] wanted)) in
      let limited = set_number (text "limit") req.limit base in
      ap at_most_one
        (entries_under-set_number (text "limit") (text "offset") refl req.offset limited)
      ∙ set_number-single (text "limit") req.limit base
          (lacks_entries (text "limit") refl refl refl free apart)

  offset-single :
      all is_free wanted ≡ true
      → distinct same_column wanted ≡ true
      → at_most_one (entries_under (text "offset") (select_values req)) ≡ true
  unfolding select_values text_eq
  offset-single free apart =
      let base = add_orders req.order (with_select req (filters_to_query_values [] wanted)) in
      set_number-single (text "offset") req.offset (set_number (text "limit") req.limit base) (
        entries_under-set_number (text "offset") (text "limit") refl req.limit base
        ∙ lacks_entries (text "offset") refl refl refl free apart)

  -- A server that reads the parameters of a `SELECT` with `ParseQuery`, in whatever order they come or
  -- are taken, finds the filters of the request under the remote names, each once and no other, in
  -- some order, and its limit and its offset, whatever the selected columns and the order. Here each
  -- column has one filter, none is named like a parameter, the operators are known, and the numbers
  -- are 64-bit.
  pub parse_query-select_values :
      (sent : Values)
      → Perm sent (select_values req)
      → all is_free wanted ≡ true
      → distinct same_column wanted ≡ true
      → AllKnown wanted
      → req.limit < 2 ^ 63
      → req.offset < 2 ^ 63
      → Perm (parse_query sent).filters wanted
        × ((parse_query sent).limit ≡ req.limit)
        × ((parse_query sent).offset ≡ req.offset)
  unfolding parse_query
  parse_query-select_values sent p free apart known few first =
      let (filters, (limit, offset)) = parse_query-in_order free apart known few first in
      (
        subst (Perm (parse_filters sent)) filters
            (∥∥₁_map p (parse_filters-Perm sent (select_values req))),
        ∥∥₁_elim p (ℕ_set _ _) (λ d.
            ap parse_count
              (get_value-Perm (text "limit") sent (select_values req) d (limit-single free apart))
            ∙ limit),
        ∥∥₁_elim p (ℕ_set _ _) (λ d.
            ap parse_count
              (get_value-Perm (text "offset") sent (select_values req) d (offset-single free apart))
            ∙ offset),
      )
