-- ===== src/Drivers/Postgres/Bound.antt =====
-- The values that are sent beside a condition, in the order of its filters.
use mathlib.Core.List.{append-nil}
use lowcode_wrapper.Base.{
  ℕ, ◌+◌, true, false, List, [], ◌∷◌, ◌++◌, map, length, is_empty, Text, text, text_eq, trim_space,
  split, if◌then◌else◌, ◌≡◌, refl, sym, ap, ◌∙◌, Bool-cases, inl, inr,
}
use lowcode_wrapper.Models.{Value, str, Column}
use lowcode_wrapper.Postgrest.Query.{
  Op, eq, neq, gt, gte, lt, lte, like, in_list, is, other, Filter,
}
use lowcode_wrapper.Postgrest.Errors.{quote}
use lowcode_wrapper.Postgrest.Mapping.{map_filters}
use lowcode_wrapper.Drivers.File.{map_or_groups}
use lowcode_wrapper.Drivers.Sql.{join}
use lowcode_wrapper.Drivers.Postgres.{
  condition_sql, filter_sql, where_parts, build_where, group_parts, conjunct, disjunction,
  where_clause, request_where,
}
use lowcode_wrapper.Drivers.Postgres.Placeholders.{filter_sql-head}

-- The values of one filter: those of a list, none for `is`, else the text itself.
abbrev pub bound_by : Op → Text → List Value
bound_by in_list value = map (λ v. str (trim_space v)) (split b',' value)
bound_by is value = []
bound_by _ value = str value ∷ []

-- Those of filters, and of groups of filters, in order.
abbrev pub bound : List Filter → List Value
bound [] = []
bound (f ∷ filters) = bound_by f.op f.value ++ bound filters

abbrev pub bound_in_groups : List (List Filter) → List Value
bound_in_groups [] = []
bound_in_groups (g ∷ groups) = bound g ++ bound_in_groups groups

condition_sql-bound :
    (i : ℕ) (col value : Text) (op : Op) → (condition_sql i col value op).1 ≡ bound_by op value
unfolding condition_sql
condition_sql-bound i col value eq = refl
condition_sql-bound i col value neq = refl
condition_sql-bound i col value gt = refl
condition_sql-bound i col value gte = refl
condition_sql-bound i col value lt = refl
condition_sql-bound i col value lte = refl
condition_sql-bound i col value like = refl
condition_sql-bound i col value in_list = refl
condition_sql-bound i col value is = elim (Bool-cases (text_eq value (text "null"))) [
  | inl null ↦ rw null refl
  | inr other_value ↦ rw other_value refl
]
condition_sql-bound i col value (other s) = refl

build_where-bound : (i : ℕ) (filters : List Filter) → (build_where i filters).1 ≡ bound filters
unfolding build_where where_parts filter_sql
build_where-bound i [] = refl
build_where-bound i (f ∷ filters) =
    let here = condition_sql-bound i (quote f.column) f.value f.op in
    ap (λ vals. vals ++ (where_parts (i + length (filter_sql i f).1) filters).1) here
    ∙ ap (λ more. bound_by f.op f.value ++ more)
        (build_where-bound (i + length (filter_sql i f).1) filters)

join-filled :
    (sep p : Text) (parts : List Text)
    → is_empty p ≡ false
    → is_empty (join sep (p ∷ parts)) ≡ false
join-filled sep [] parts h = cc
join-filled sep (c ∷ p) [] h = refl
join-filled sep (c ∷ p) (q ∷ parts) h = refl

-- Without a condition there are no values.
build_where-empty :
    (i : ℕ) (filters : List Filter) → is_empty (build_where i filters).0 ≡ true → bound filters ≡ []
unfolding build_where where_parts
build_where-empty i [] h = refl
build_where-empty i (f ∷ filters) h =
    let filled =
      join-filled (text " AND ") (filter_sql i f).0
        (where_parts (i + length (filter_sql i f).1) filters).0 (filter_sql-head i f).1 in
    cc

group_parts-bound :
    (i : ℕ) (groups : List (List Filter)) → (group_parts i groups).1 ≡ bound_in_groups groups
unfolding group_parts
group_parts-bound i [] = refl
group_parts-bound i (g ∷ groups) = elim (Bool-cases (is_empty (build_where i g).0)) [
  | inl empty ↦ rw empty (
      group_parts-bound i groups
      ∙ ap (λ vals. vals ++ bound_in_groups groups) (sym (build_where-empty i g empty)))
  | inr filled ↦ rw filled (
      ap (λ vals. vals ++ (group_parts (i + length (build_where i g).1) groups).1)
        (build_where-bound i g)
      ∙ ap (λ more. bound g ++ more) (group_parts-bound (i + length (build_where i g).1) groups))
]

group_parts-empty :
    (i : ℕ) (groups : List (List Filter))
    → is_empty (group_parts i groups).0 ≡ true
    → bound_in_groups groups ≡ []
unfolding group_parts
group_parts-empty i [] h = refl
group_parts-empty i (g ∷ groups) h = elim (Bool-cases (is_empty (build_where i g).0)) [
  | inl empty ↦
      let rest : is_empty (group_parts i groups).0 ≡ true = rw empty at h in
      ap (λ vals. vals ++ bound_in_groups groups) (build_where-empty i g empty)
      ∙ group_parts-empty i groups rest
  | inr filled ↦ let no : false ≡ true = rw filled at h in cc
]

joined-empty :
    (w : Text) (parts : List Text)
    → is_empty (join (text " AND ") (conjunct w ++ disjunction parts)) ≡ true
    → (is_empty w ≡ true) × (is_empty parts ≡ true)
joined-empty [] [] h = (refl, refl)
joined-empty [] (p ∷ parts) h = cc
joined-empty (c ∷ w) [] h = cc
joined-empty (c ∷ w) (p ∷ parts) h = cc

module _ (i : ℕ) (cols : List Column) (filters : List Filter) (groups : List (List Filter)) where
  abbrev pub bound_in_request : List Value
  bound_in_request = bound (map_filters cols filters) ++ bound_in_groups (map_or_groups cols groups)

  pub request_where-bound : (request_where i cols filters groups).1 ≡ bound_in_request
  unfolding request_where where_clause
  request_where-bound =
      let w = build_where i (map_filters cols filters) in
      ap (λ vals. vals ++ (group_parts (i + length w.1) (map_or_groups cols groups)).1)
        (build_where-bound i (map_filters cols filters))
      ∙ ap (λ more. bound (map_filters cols filters) ++ more)
          (group_parts-bound (i + length w.1) (map_or_groups cols groups))

  request_where-empty :
      is_empty (request_where i cols filters groups).0 ≡ true → bound_in_request ≡ []
  unfolding request_where where_clause
  request_where-empty h =
      let w = build_where i (map_filters cols filters) in
      let parts = group_parts (i + length w.1) (map_or_groups cols groups) in
      let (first, second) = joined-empty w.0 parts.0 h in
      ap (λ vals. vals ++ bound_in_groups (map_or_groups cols groups))
        (build_where-empty i (map_filters cols filters) first)
      ∙ group_parts-empty (i + length w.1) (map_or_groups cols groups) second

  -- The values of a row and then those of the condition, if there is one.
  pub with_where-bound :
      (args : List Value)
      → (if is_empty (request_where i cols filters groups).0
          then args
          else args ++ (request_where i cols filters groups).1)
        ≡ args ++ bound_in_request
  with_where-bound args = elim (Bool-cases (is_empty (request_where i cols filters groups).0)) [
    | inl empty ↦
        rw empty
          (sym (append-nil args) ∙ ap (λ more. args ++ more) (sym (request_where-empty empty)))
    | inr filled ↦ rw filled (ap (λ more. args ++ more) request_where-bound)
  ]
