-- ===== src/Postgrest/Groups.antt =====
-- query.go: the `or` parameter, the whole query, and the check of `select`.
pub mod Splitting
use lowcode_wrapper.Base.{
  ℕ, zero, suc, ◌+◌, ◌-◌, Bool, true, false, not, ◌&&◌, ◌||◌, Option, none, some, List, [], ◌∷◌,
  ◌++◌, Text, text, text_eq, trim_space, split, contains, index, has_prefix, has_suffix, take, drop,
  is_empty, if◌then◌else◌, any, ◌==◌, length, Result, ok, err, ◌>>=◌, push_head, or_else,
}
use lowcode_wrapper.Postgrest.Query.{
  Op, op_text, known_ops, Filter, Query, Values, get_value, parse_select, parse_count, parse_order,
  parts_of, parse_filters,
}

-- The loop of `splitTopLevel` from nesting `depth`: the first piece is the one being read. The
-- separator is one ASCII byte, as the comma of its callers.
unfoldable pub split_from : ℕ → ℕ → Text → List Text
split_from sep depth [] = [] ∷ []
split_from sep depth (c ∷ cs) =
    let deeper = push_head c (split_from sep (depth + 1) cs) in
    let out = push_head c (split_from sep (depth - 1) cs) in
    let cut = [] ∷ split_from sep depth cs in
    let on = push_head c (split_from sep depth cs) in
    if c == b'('
    then deeper
    else if c == b')'
    then out
    else if c == sep && depth == 0
    then cut
    else on

unfoldable pub split_top_level : ℕ → Text → List Text
unfolding split_from
split_top_level sep s = split_from sep 0 s

-- The loop over the operators: the first whose marker stands behind at least one byte.
unfoldable pub find_marker : Text → List Op → Option Filter
find_marker expr [] = none
find_marker expr (op ∷ ops) =
    let later = find_marker expr ops in
    let marker = b'.' ∷ (op_text op ++ b'.' ∷ []) in
    elim (index expr marker) [
      | none ↦ later
      | some zero ↦ later
      | some (suc i) ↦ some (record {
        column = take (suc i) expr;
        op = op;
        value = drop (suc i + length marker) expr;
      })
    ]

-- The error is the expression that its message quotes.
unfoldable pub parse_filter_expr : Text → Result Text Filter
unfolding find_marker op_text
parse_filter_expr raw =
    let expr = trim_space raw in
    elim (find_marker expr known_ops) [ none ↦ err expr | some f ↦ ok f ]

unfoldable pub parse_group_parts : List Text → Result Text (List (List Filter))
unfolding parse_filter_expr
parse_group_parts [] = ok []
parse_group_parts (raw ∷ parts) =
    let rest = parse_group_parts parts in
    let part = trim_space raw in
    if is_empty part
    then rest
    else do f ← parse_filter_expr part; groups ← rest; ok ((f ∷ []) ∷ groups)

abbrev pub unwrapped : Text → Text
unwrapped raw =
    if has_prefix raw (text "(") && has_suffix raw (text ")")
    then trim_space (drop 1 (take (length raw - 1) raw))
    else raw

unfoldable pub parse_or_groups : Text → Result Text (List (List Filter))
unfolding split_top_level parse_group_parts
parse_or_groups raw =
    let s = unwrapped (trim_space raw) in
    if is_empty s then ok [] else parse_group_parts (split_top_level b',' s)

-- A malformed `or` parameter leaves no group.
abbrev pub groups_or_none : Text → List (List Filter)
groups_or_none raw =
    if is_empty (trim_space raw)
    then []
    else elim (parse_or_groups (trim_space raw)) [ err e ↦ [] | ok groups ↦ groups ]

unfoldable pub parse_query : Values → Query
unfolding get_value parse_select parse_count parse_order parse_filters parse_or_groups
parse_query values = record {
  select = parse_select (parts_of (get_value values (text "select")));
  filters = parse_filters values;
  or_groups = groups_or_none (get_value values (text "or"));
  order = parse_order (parts_of (get_value values (text "order")));
  limit = parse_count (get_value values (text "limit"));
  offset = parse_count (get_value values (text "offset"));
}

-- `ValidateSelect`; true is `EmbedNotSupported`.
unfoldable pub rejects_select : List Text → Text → Bool
rejects_select selects raw = contains raw (text "(") || any (λ s. contains s (text "(")) selects
