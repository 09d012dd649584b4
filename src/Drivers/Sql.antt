-- ===== src/Drivers/Sql.antt =====
-- What the drivers for SQL databases share: the client library, a foreign system, as an interface, and
-- the helpers that both packages declare alike.
use lowcode_wrapper.Base.{
  ℕ, ltb, false, or_else, List, [], ◌∷◌, ◌++◌, map, keep, not, any, Text, text, text_eq,
  if◌then◌else◌, pos,
}
use lowcode_wrapper.Models.{Value, Fields}
use lowcode_wrapper.Postgrest.Query.{Op, eq, neq, gt, gte, lt, lte, like, in_list, is, other}
use lowcode_wrapper.Postgrest.Headers.{itoa}
use lowcode_wrapper.Engine.Action.{DriverError, Call, plain_failure}

-- A statement with the values of its placeholders.
pub record Statement : Type 0 where
  pub query : Text
  pub args : List Value

-- The rows of a query, the number of a count, and the rows that a statement affected.
pub record Database (W : Type 0) : Type 0 where
  pub rows : Statement → Call W (List Fields)
  pub row : Statement → List Text → Call W Fields
  pub number : Statement → Call W ℕ
  pub exec : Statement → Call W ℕ
  -- The id of the inserted row, 0 where there is none.
  pub insert : Statement → Call W ℕ

-- The verb `%d`, for a number below 2^63.
abbrev pub decimal : ℕ → Text
decimal n = or_else (itoa (pos n)) []

-- `strings.Join`
abbrev pub join : Text → List Text → Text
join sep [] = []
join sep (s ∷ []) = s
join sep (s ∷ t ∷ ts) = s ++ (sep ++ join sep (t ∷ ts))

unfoldable pub op_sql : Op → Text
op_sql neq = text "<>"
op_sql gt = text ">"
op_sql gte = text ">="
op_sql lt = text "<"
op_sql lte = text "<="
op_sql like = text "LIKE"
op_sql eq = text "="
op_sql in_list = text "="
op_sql is = text "="
op_sql (other s) = text "="

unfoldable pub row_to_cols : Fields → List Text × List Value
row_to_cols row = (map (λ e. e.0) row, map (λ e. e.1) row)

-- The keys are a set.
unfoldable pub row_to_cols_non_keys : Fields → List Text → List Text × List Value
unfolding row_to_cols
row_to_cols_non_keys row keys = row_to_cols (keep (λ e. not (any (λ k. text_eq k e.0) keys)) row)

-- ` WHERE `, unless the condition is empty.
abbrev pub with_where : Text → Text → Text
with_where query [] = query
with_where query (c ∷ cs) = query ++ (text " WHERE " ++ c ∷ cs)

-- A keyword with a number, unless the number is 0.
abbrev pub number_clause : Text → ℕ → Text
number_clause word n = if ltb 0 n then word ++ decimal n else []

-- An error that is only a message.
abbrev pub driver_refusal : Text → DriverError
driver_refusal message = record { failure = plain_failure message; not_supported = false }
