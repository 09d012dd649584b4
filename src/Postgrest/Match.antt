-- ===== src/Postgrest/Match.antt =====
-- filter_match.go.
pub mod Laws
use lowcode_wrapper.Base.{
  Bool, true, false, not, ◌&&◌, ◌||◌, Option, none, some, is_some, List, [], ◌∷◌, Text, text,
  text_eq, text_lt, trim_space, contains, split, if◌then◌else◌, any, all, find, ◌==◌, is_empty,
  reverse,
}
use lowcode_wrapper.Models.{Value, null, bool, str, printed, Fields}
use lowcode_wrapper.Postgrest.Query.{
  Op, eq, neq, gt, gte, lt, lte, like, in_list, is, other, Filter,
}

-- A read of a `map[string]any`.
unfoldable pub field : Text → Fields → Option Value
field key [] = none
field key ((k, v) ∷ row) = if text_eq k key then some v else field key row

-- `fmt.Sprint`
unfoldable pub sprint : Value → Text
sprint null = text "<nil>"
sprint (bool true) = text "true"
sprint (bool false) = text "false"
sprint (str s) = s
sprint (printed s) = s

abbrev pub is_null : Value → Bool
is_null null = true
is_null _ = false

-- `strings.Trim(s, "%")`
unfoldable pub trim_percent_left : Text → Text
trim_percent_left [] = []
trim_percent_left (c ∷ cs) = if c == b'%' then trim_percent_left cs else c ∷ cs

unfoldable pub trim_percent : Text → Text
unfolding trim_percent_left
trim_percent s = reverse (trim_percent_left (reverse (trim_percent_left s)))

-- `sval` and `ok` of `matchFilter`: a missing column reads as nil.
abbrev pub read_text : Option Value → Text
read_text none = sprint null
read_text (some v) = sprint v

abbrev pub reads_null : Option Value → Bool
reads_null none = true
reads_null (some v) = is_null v

unfoldable pub match_value : Op → Text → Option Value → Bool
unfolding sprint
match_value eq value val = is_some val && text_eq (read_text val) value
match_value neq value val = not (is_some val) || not (text_eq (read_text val) value)
match_value gt value val = is_some val && text_lt value (read_text val)
match_value gte value val = is_some val && not (text_lt (read_text val) value)
match_value lt value val = is_some val && text_lt (read_text val) value
match_value lte value val = is_some val && not (text_lt value (read_text val))
match_value like value val = is_some val && contains (read_text val) (trim_percent value)
match_value in_list value val =
    any (λ part. is_some val && text_eq (read_text val) (trim_space part)) (split b',' value)
match_value is value val =
    if text_eq value (text "null")
    then reads_null val
    else is_some val && text_eq (read_text val) value
match_value (other s) value val = is_some val && text_eq (read_text val) value

unfoldable pub match_filter : Fields → Filter → Bool
unfolding match_value field
match_filter row f = match_value f.op f.value (field f.column row)

unfoldable pub match_filters : Fields → List Filter → Bool
unfolding match_filter
match_filters row filters = all (match_filter row) filters

unfoldable pub match_query : Fields → List Filter → List (List Filter) → Bool
unfolding match_filters
match_query row filters [] = match_filters row filters
match_query row filters (g ∷ gs) = any (match_filters row) (g ∷ gs)
