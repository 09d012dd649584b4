-- ===== src/Postgrest/Query.antt =====
-- query.go: the URL's parameters as a query. `url.Values` is the list of its entries in the order in
-- which the range over the map visits them, which Go leaves open.
pub mod Filters
use lowcode_wrapper.Base.{
  ℕ, zero, suc, ◌+◌, ◌-◌, ◌*◌, ◌^◌, Bool, true, false, not, ◌&&◌, ◌||◌, Option, none, some, or_else,
  List, [], ◌∷◌, ◌++◌, Text, text, text_eq, trim_space, to_lower, split, contains, index,
  has_prefix, has_suffix, trim_suffix, take, drop, is_empty, if◌then◌else◌, leb, ltb, any, find,
  ◌==◌, length, keep, map,
}

pub data Op : Type 0 where
  eq neq gt gte lt lte like in_list is : Op
  other : Text → Op

unfoldable pub op_text : Op → Text
op_text eq = text "eq"
op_text neq = text "neq"
op_text gt = text "gt"
op_text gte = text "gte"
op_text lt = text "lt"
op_text lte = text "lte"
op_text like = text "like"
op_text in_list = text "in"
op_text is = text "is"
op_text (other s) = s

-- The operators, in the order of `parseFilterExpr`.
abbrev pub known_ops : List Op
known_ops = eq ∷ neq ∷ gt ∷ gte ∷ lt ∷ lte ∷ like ∷ in_list ∷ is ∷ []

-- The known operator that a text spells.
unfoldable pub op_of_text : Text → Option Op
unfolding op_text
op_of_text s = find (λ op. text_eq (op_text op) s) known_ops

pub record Filter : Type 0 where
  pub column : Text
  pub op : Op
  pub value : Text

pub record OrderSpec : Type 0 where
  pub column : Text
  pub desc : Bool

-- `limit` and `offset` are never negative: they start at 0 and are only set to a value from 0 on.
pub record Query : Type 0 where
  pub select : List Text
  pub filters : List Filter
  pub or_groups : List (List Filter)
  pub order : List OrderSpec
  pub limit : ℕ
  pub offset : ℕ

pub record Prefer : Type 0 where
  pub representation : Bool
  pub upsert : Bool
  pub count_exact : Bool

abbrev pub Values : Type 0
Values = List (Text × List Text)

-- `values.Get`: the first value, or the empty text.
unfoldable pub get_value : Values → Text → Text
get_value values key = elim (find (λ (e : Text × List Text). text_eq e.0 key) values) [
  | none ↦ []
  | some (_, []) ↦ []
  | some (_, v ∷ vs) ↦ v
]

-- The loop over `strings.Split(sel, ",")`.
unfoldable pub parse_select : List Text → List Text
parse_select [] = []
parse_select (raw ∷ parts) =
    let rest = parse_select parts in
    let part = trim_space raw in
    if is_empty part || contains part (text "(") then rest else part ∷ rest

-- Decimal digits, and nothing else, as a number.
unfoldable pub digits_value : ℕ → Text → Option ℕ
digits_value acc [] = some acc
digits_value acc (c ∷ cs) = elim (leb b'0' c && leb c b'9') [
  | true ↦ digits_value (acc * 10 + (c - b'0')) cs
  | false ↦ none
]

-- `strconv.Atoi` with `err == nil && n >= 0` on a 64-bit machine: an optional sign and at least one
-- digit, at most 2^63 - 1; below zero only -0 passes.
unfoldable pub atoi_from_zero : Text → Option ℕ
unfolding digits_value
atoi_from_zero [] = none
atoi_from_zero (c ∷ cs) =
    let signed = c == b'+' || c == b'-' in
    let digits = if signed then cs else c ∷ cs in
    if is_empty digits then none else elim (digits_value 0 digits) [
      | none ↦ none
      | some n ↦
          if c == b'-'
          then (if n == 0 then some 0 else none)
          else if ltb n (2 ^ 63)
          then some n
          else none
    ]

-- The `limit` and `offset` parameters: anything that is no count leaves 0.
unfoldable pub parse_count : Text → ℕ
unfolding atoi_from_zero
parse_count raw = let s = trim_space raw in if is_empty s then 0 else or_else (atoi_from_zero s) 0

-- One part of the `order` parameter.
unfoldable pub parse_order_part : Text → OrderSpec
parse_order_part part =
    if has_suffix part (text ".desc")
    then record { column = trim_space (trim_suffix part (text ".desc")); desc = true }
    else if has_suffix part (text ".asc")
    then record { column = trim_space (trim_suffix part (text ".asc")); desc = false }
    else record { column = trim_space part; desc = false }

unfoldable pub parse_order : List Text → List OrderSpec
unfolding parse_order_part
parse_order [] = []
parse_order (raw ∷ parts) =
    let rest = parse_order parts in
    let part = trim_space raw in
    let spec = parse_order_part part in
    if is_empty part || is_empty spec.column then rest else spec ∷ rest

abbrev pub parts_of : Text → List Text
parts_of raw = let s = trim_space raw in if is_empty s then [] else split b',' s

abbrev pub reserved : Text → Bool
reserved key =
    any (text_eq key)
      (text "select" ∷ text "order" ∷ text "limit" ∷ text "offset" ∷ text "or" ∷ text "and" ∷ [])

unfoldable pub parse_filter : Text → Text → Filter
unfolding op_of_text
parse_filter column raw = elim (index raw (text ".")) [
  | none ↦ record { column = column; op = eq; value = raw }
  | some zero ↦ record { column = column; op = eq; value = raw }
  | some (suc d) ↦ elim (op_of_text (take (suc d) raw)) [
    | some op ↦ record { column = column; op = op; value = drop (suc (suc d)) raw }
    | none ↦ record { column = column; op = eq; value = raw }
  ]
]

-- The loop over the map's entries, in the order in which the range takes them, which is left open.
unfoldable pub parse_filters : Values → List Filter
unfolding parse_filter
parse_filters [] = []
parse_filters ((key, []) ∷ values) = parse_filters values
parse_filters ((key, v ∷ vs) ∷ values) =
    let rest = parse_filters values in if reserved key then rest else parse_filter key v ∷ rest

-- The headers' `Prefer` value, part by part.
unfoldable pub parse_prefer_parts : List Text → Prefer → Prefer
parse_prefer_parts [] p = p
parse_prefer_parts (raw ∷ parts) p =
    let part = trim_space (to_lower raw) in
    parse_prefer_parts parts (
      if text_eq part (text "return=representation")
      then record p { representation = true }
      else if text_eq part (text "resolution=merge-duplicates")
      then record p { upsert = true }
      else if has_prefix part (text "count=exact")
      then record p { count_exact = true }
      else p)

unfoldable pub parse_prefer : Text → Prefer
unfolding parse_prefer_parts
parse_prefer header =
    parse_prefer_parts (split b',' header)
      (record { representation = false; upsert = false; count_exact = false })

-- `url.Values.Set` on the entries.
unfoldable pub set_value : Text → Text → Values → Values
set_value key v [] = (key, v ∷ []) ∷ []
set_value key v ((k, vs) ∷ values) =
    let rest = set_value key v values in
    if text_eq k key then (k, v ∷ []) ∷ values else (k, vs) ∷ rest

-- The value that `FiltersToQueryValues` writes for a filter.
unfoldable pub filter_value : Filter → Text
unfolding op_text
filter_value f = op_text f.op ++ (b'.' ∷ f.value)

unfoldable pub filters_to_query_values : Values → List Filter → Values
unfolding set_value filter_value
filters_to_query_values q [] = q
filters_to_query_values q (f ∷ fs) =
    filters_to_query_values (set_value f.column (filter_value f) q) fs
