-- ===== src/Drivers/Postgres/Parts.antt =====
-- The placeholders in the parts of a statement.
use mathlib.Core.List.{append-nil}
use lowcode_wrapper.Base.{
  ℕ, ◌+◌, ltb, Bool, true, false, ◌&&◌, List, [], ◌∷◌, ◌++◌, map, length, all, all_imp, is_empty,
  Text, text, if◌then◌else◌, ◌≡◌, refl, sym, ap, ◌∙◌, arith, Bool-cases, inl, inr,
}
use lowcode_wrapper.Models.{Value, Fields, Column, ResolvedTable, remote_table_name}
use lowcode_wrapper.Postgrest.Query.{Filter, OrderSpec}
use lowcode_wrapper.Postgrest.Mapping.{map_filters}
use lowcode_wrapper.Postgrest.Errors.{quote}
use lowcode_wrapper.Drivers.File.{map_or_groups}
use lowcode_wrapper.Drivers.Sql.{Statement, decimal, join, with_where, row_to_cols, number_clause}
use lowcode_wrapper.Drivers.Postgres.{
  placeholder, request_where, quote_cols, qualified_table, order_sql, order_clause, set_parts,
}
use lowcode_wrapper.Drivers.Postgres.Scan.{
  outside, scan, ends, Reads, ends-append, Reads-append, is_plain, Reads-plain, Reads-placeholder,
  is_bare, Reads-quote, is_digit, decimal-digits, concat, AllRead, Reads-join, Reads-after,
}
use lowcode_wrapper.Drivers.Postgres.Placeholders.{
  numbers, numbers-append, numbers-map, Reads-eq, is_fair,
}
use lowcode_wrapper.Drivers.Postgres.Clauses.{where_clause-numbers, Reads-nothing}

-- The placeholders of the statement are 1 up to the count of its values, in this order.
abbrev pub IsNumbered : Statement → Type 0
IsNumbered stmt = scan outside stmt.query ≡ numbers 1 stmt.args

-- A text without a placeholder before one that starts with no digit.
pub Reads-both :
    (w v : Text) (ns : List Text) → Reads w [] → Reads v ns → ends v ≡ true → Reads (w ++ v) ns
Reads-both w v ns = Reads-append w v [] ns

pub Reads-whole : (w : Text) (ns : List Text) → Reads w ns → scan outside w ≡ ns
unfolding scan
Reads-whole w ns h = ap (scan outside) (sym (append-nil w)) ∙ h [] refl ∙ append-nil ns

pub with_where-numbers :
    (query cond : Text) (ns ms : List Text)
    → Reads query ns
    → Reads cond ms
    → Reads (with_where query cond) (ns ++ ms)
with_where-numbers query [] ns ms h k =
    Reads-eq query (sym (append-nil ns) ∙ ap (λ q. ns ++ q) (sym (Reads-nothing ms k))) h
with_where-numbers query (c ∷ cond) ns ms h k =
    Reads-append query (text " WHERE " ++ c ∷ cond) ns ms h
      (Reads-after (text " WHERE ") (c ∷ cond) ms refl k) refl

module _ (schema : Text) (resolved : ResolvedTable) where
  -- The names of the table can be quoted as they are.
  abbrev pub has_bare_names : Bool
  has_bare_names =
      all is_bare
        (if is_empty resolved.table.schema_name then schema else resolved.table.schema_name)
      && all is_bare (remote_table_name resolved.table)

  pub qualified_table-Reads : has_bare_names ≡ true → Reads (qualified_table schema resolved) []
  unfolding qualified_table
  qualified_table-Reads h =
      let s = if is_empty resolved.table.schema_name then schema else resolved.table.schema_name in
      let t = remote_table_name resolved.table in
      Reads-both (quote s) (b'.' ∷ quote t) [] (Reads-quote s (ground arith))
        (Reads-after (text ".") (quote t) [] refl (Reads-quote t (ground arith))) refl

-- No column of the conditions needs escapes, and no value that becomes part of the text has a quote or
-- a dollar.
abbrev pub has_fair_conditions : List Column → List Filter → List (List Filter) → Bool
has_fair_conditions cols filters groups =
    all is_fair (map_filters cols filters) && all (all is_fair) (map_or_groups cols groups)

pub request_where-numbers :
    (i : ℕ) (cols : List Column) (filters : List Filter) (groups : List (List Filter))
    → has_fair_conditions cols filters groups ≡ true
    → Reads
        (request_where i cols filters groups).0
        (numbers i (request_where i cols filters groups).1)
unfolding request_where
request_where-numbers i cols filters groups h =
    where_clause-numbers i (map_filters cols filters) (map_or_groups cols groups) (ground arith)
      (ground arith)

pub set_texts : ℕ → List Text → List (List Text)
set_texts i [] = []
set_texts i (c ∷ cols) = (decimal i ∷ []) ∷ set_texts (i + 1) cols

pub concat-set_texts : (i : ℕ) (cols : List Text) → concat (set_texts i cols) ≡ numbers i cols
unfolding set_texts
concat-set_texts i [] = refl
concat-set_texts i (c ∷ cols) = ap (λ ns. decimal i ∷ ns) (concat-set_texts (i + 1) cols)

pub set_parts-AllRead :
    (i : ℕ) (cols : List Text)
    → all (all is_bare) cols ≡ true
    → AllRead (set_parts i cols) (set_texts i cols)
unfolding set_parts set_texts quote
set_parts-AllRead i [] h = tt
set_parts-AllRead i (c ∷ cols) h = (
  Reads-both (quote c) (b'=' ∷ placeholder i) (decimal i ∷ []) (Reads-quote c (ground arith))
      (Reads-after (text "=") (placeholder i) (decimal i ∷ []) refl (Reads-placeholder i)) refl,
  refl,
  set_parts-AllRead (i + 1) cols (ground arith),
)

no_numbers : List Text → List (List Text)
no_numbers [] = []
no_numbers (c ∷ cols) = [] ∷ no_numbers cols

concat-no_numbers : (cols : List Text) → concat (no_numbers cols) ≡ []
unfolding no_numbers
concat-no_numbers [] = refl
concat-no_numbers (c ∷ cols) = concat-no_numbers cols

quoted-AllRead :
    (cols : List Text) → all (all is_bare) cols ≡ true → AllRead (map quote cols) (no_numbers cols)
unfolding no_numbers quote
quoted-AllRead [] h = tt
quoted-AllRead (c ∷ cols) h =
    (Reads-quote c (ground arith), refl, quoted-AllRead cols (ground arith))

pub quote_cols-Reads :
    (cols : List Text) → all (all is_bare) cols ≡ true → Reads (quote_cols cols) []
unfolding quote_cols
quote_cols-Reads cols h =
    Reads-eq (quote_cols cols) (concat-no_numbers cols)
      (Reads-join (text ", ") (map quote cols) (no_numbers cols) refl refl (quoted-AllRead cols h))

abbrev pub is_bare_order : OrderSpec → Bool
is_bare_order o = all is_bare o.column

order_texts-AllRead :
    (order : List OrderSpec)
    → all is_bare_order order ≡ true
    → AllRead (map order_sql order) (no_numbers (map (λ o. o.column) order))
unfolding order_sql no_numbers quote
order_texts-AllRead [] h = tt
order_texts-AllRead (o ∷ order) h =
    let dir = if o.desc then text "DESC" else text "ASC" in
    (
      Reads-both (quote o.column) (b' ' ∷ dir) [] (Reads-quote o.column (ground arith))
          (Reads-plain (b' ' ∷ dir) (ground arith)) refl,
      refl,
      order_texts-AllRead order (ground arith),
    )

pub order_clause-Reads :
    (order : List OrderSpec) → all is_bare_order order ≡ true → Reads (order_clause order) []
order_clause-Reads [] h = Reads-plain [] refl
order_clause-Reads (o ∷ order) h =
    let list = join (text ", ") (map order_sql (o ∷ order)) in
    let ns = no_numbers (map (λ o. o.column) (o ∷ order)) in
    Reads-after (text " ORDER BY ") list [] refl (
      Reads-eq list (concat-no_numbers (map (λ o. o.column) (o ∷ order))) (
        Reads-join (text ", ") (map order_sql (o ∷ order)) ns refl refl
          (order_texts-AllRead (o ∷ order) h)))

pub order_clause-ends : (order : List OrderSpec) → ends (order_clause order) ≡ true
order_clause-ends [] = refl
order_clause-ends (o ∷ order) = refl

decimal-plain : (n : ℕ) → all is_plain (decimal n) ≡ true
decimal-plain n = all_imp is_digit is_plain (decimal n) (λ c h. ground arith) (decimal-digits n)

number_clause-Reads :
    (word : Text) (n : ℕ) → all is_plain word ≡ true → Reads (number_clause word n) []
number_clause-Reads word n h = elim (Bool-cases (ltb 0 n)) [
  | inl some ↦
      rw some (Reads-after word (decimal n) [] h (Reads-plain (decimal n) (decimal-plain n)))
  | inr no_bound ↦ rw no_bound (Reads-plain [] refl)
]

number_clause-ends :
    (word : Text) (n : ℕ)
    → ends word ≡ true
    → is_empty word ≡ false
    → ends (number_clause word n) ≡ true
number_clause-ends [] n h e = cc
number_clause-ends (c ∷ word) n h e = elim (Bool-cases (ltb 0 n)) [
  | inl some ↦ rw some h
  | inr no_bound ↦ rw no_bound refl
]

pub bounds-Reads :
    (limit offset : ℕ)
    → Reads (number_clause (text " LIMIT ") limit ++ number_clause (text " OFFSET ") offset) []
bounds-Reads limit offset =
    Reads-both (number_clause (text " LIMIT ") limit) (number_clause (text " OFFSET ") offset) []
      (number_clause-Reads (text " LIMIT ") limit refl)
      (number_clause-Reads (text " OFFSET ") offset refl)
      (number_clause-ends (text " OFFSET ") offset refl refl)

pub bounds-ends :
    (limit offset : ℕ)
    → ends (number_clause (text " LIMIT ") limit ++ number_clause (text " OFFSET ") offset) ≡ true
bounds-ends limit offset =
    ends-append (number_clause (text " LIMIT ") limit) (number_clause (text " OFFSET ") offset)
      (number_clause-ends (text " LIMIT ") limit refl refl)
      (number_clause-ends (text " OFFSET ") offset refl refl)

pub selected-Reads :
    (cols : List Text)
    → all (all is_bare) cols ≡ true
    → Reads (if is_empty cols then text "*" else quote_cols cols) []
selected-Reads [] h = Reads-plain (text "*") refl
selected-Reads (c ∷ cols) h = quote_cols-Reads (c ∷ cols) h

pub with_where-args :
    (query cond : Text) (args more : List Value)
    → Reads query (numbers 1 args)
    → Reads cond (numbers (length args + 1) more)
    → scan outside (with_where query cond)
      ≡ numbers 1 (if is_empty cond then args else args ++ more)
with_where-args query [] args more h k = Reads-whole query (numbers 1 args) h
with_where-args query (c ∷ cond) args more h k =
    Reads-whole (with_where query (c ∷ cond)) (numbers 1 args ++ numbers (length args + 1) more)
      (with_where-numbers query (c ∷ cond) (numbers 1 args) (numbers (length args + 1) more) h k)
    ∙ ap (λ i. numbers 1 args ++ numbers i more) (omega arith)
    ∙ sym (numbers-append 1 args more)

-- There are as many columns as values.
pub same_numbers : (row : Fields) → numbers 1 (row_to_cols row).0 ≡ numbers 1 (row_to_cols row).1
unfolding row_to_cols
same_numbers row = numbers-map (λ e. e.0) 1 row ∙ sym (numbers-map (λ e. e.1) 1 row)
