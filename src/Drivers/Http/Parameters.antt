-- ===== src/Drivers/Http/Parameters.antt =====
-- The parameters of a URL, written and read.
use mathlib.Core.List.{append_assoc, append-nil}
use lowcode_wrapper.Base.{
  ℕ, ◌<◌, ◌^◌, ltb, Bool, true, false, not, any, all, any-append, distinct, some, List, [], ◌∷◌,
  ◌++◌, map, Text, text, text_eq, text_eq_iff, text_eq_refl, trim_space, ◌≡◌, refl, sym, ap, ◌∙◌,
  arith, Bool-cases, inl, inr,
}
use lowcode_wrapper.Base.{all_imp, is_space, trim_space-plain, trim_left, trim_right}
use lowcode_wrapper.Postgrest.Headers.Range.{atoi_from_zero-itoa}
use lowcode_wrapper.Drivers.Sql.{decimal}
use lowcode_wrapper.Drivers.Postgres.Scan.{is_digit, decimal-digits}
use lowcode_wrapper.Postgrest.Query.{
  Values, Filter, OrderSpec, reserved, get_value, set_value, filter_value, filters_to_query_values,
  parse_filters, parse_count, atoi_from_zero,
}
use lowcode_wrapper.Postgrest.Query.Filters.{Known, parse_filter-filter_value}
use lowcode_wrapper.Drivers.Http.{add_value, add_orders, set_number}

pub reserved-eq : (k key : Text) → text_eq k key ≡ true → reserved key ≡ true → reserved k ≡ true
reserved-eq k key e h = rw ((text_eq_iff k key).0 e) h

pub parse_filters-set_value :
    (key v : Text) (q : Values)
    → reserved key ≡ true
    → parse_filters (set_value key v q) ≡ parse_filters q
unfolding parse_filters set_value
parse_filters-set_value key v [] h = rw h refl
parse_filters-set_value key v ((k, []) ∷ q) h = elim (Bool-cases (text_eq k key)) [
  | inl same ↦ rw (same, reserved-eq k key same h) refl
  | inr different ↦ rw different (parse_filters-set_value key v q h)
]
parse_filters-set_value key v ((k, u ∷ us) ∷ q) h = elim (Bool-cases (text_eq k key)) [
  | inl same ↦ rw (same, reserved-eq k key same h) refl
  | inr different ↦ rw (different, parse_filters-set_value key v q h) refl
]

parse_filters-add_value :
    (key v : Text) (q : Values)
    → reserved key ≡ true
    → parse_filters (add_value key v q) ≡ parse_filters q
unfolding parse_filters add_value
parse_filters-add_value key v [] h = rw h refl
parse_filters-add_value key v ((k, []) ∷ q) h = elim (Bool-cases (text_eq k key)) [
  | inl same ↦ rw (same, reserved-eq k key same h) refl
  | inr different ↦ rw different (parse_filters-add_value key v q h)
]
parse_filters-add_value key v ((k, u ∷ us) ∷ q) h = elim (Bool-cases (text_eq k key)) [
  | inl same ↦ rw (same, reserved-eq k key same h) refl
  | inr different ↦ rw (different, parse_filters-add_value key v q h) refl
]

pub parse_filters-add_orders :
    (order : List OrderSpec) (q : Values) → parse_filters (add_orders order q) ≡ parse_filters q
unfolding add_orders text_eq
parse_filters-add_orders [] q = refl
parse_filters-add_orders (o ∷ order) q =
    parse_filters-add_orders order _ ∙ parse_filters-add_value (text "order") _ q refl

pub parse_filters-set_number :
    (key : Text) (n : ℕ) (q : Values)
    → reserved key ≡ true
    → parse_filters (set_number key n q) ≡ parse_filters q
unfolding set_number
parse_filters-set_number key n q h = elim (Bool-cases (ltb 0 n)) [
  | inl given ↦ rw given (parse_filters-set_value key _ q h)
  | inr zero ↦ rw zero refl
]

-- The values without an entry for a column.
abbrev lacks : Values → Filter → Bool
lacks q f = not (any (λ (e : Text × List Text). text_eq e.0 f.column) q)

abbrev pub entry : Filter → Text × List Text
entry f = (f.column, filter_value f ∷ [])

abbrev pub same_column : Filter → Filter → Bool
same_column f g = text_eq f.column g.column

set_value-append :
    (key v : Text) (q : Values)
    → any (λ (e : Text × List Text). text_eq e.0 key) q ≡ false
    → set_value key v q ≡ q ++ (key, v ∷ []) ∷ []
unfolding set_value
set_value-append key v [] h = refl
set_value-append key v ((k, vs) ∷ q) h =
    let other : text_eq k key ≡ false = ground arith in
    rw other (ap (λ r. (k, vs) ∷ r) (set_value-append key v q (ground arith)))

all-lacks :
    (f : Filter) (q : Values) (fs : List Filter)
    → any (same_column f) fs ≡ false
    → all (lacks q) fs ≡ true
    → all (lacks (q ++ entry f ∷ [])) fs ≡ true
all-lacks f q [] d h = refl
all-lacks f q (g ∷ fs) d h = ground (
  arith,
  any-append (λ (e : Text × List Text). text_eq e.0 g.column) q (entry f ∷ []),
  all-lacks f q fs,
)

filters_to_query_values-append :
    (q : Values) (fs : List Filter)
    → distinct same_column fs ≡ true
    → all (lacks q) fs ≡ true
    → filters_to_query_values q fs ≡ q ++ map entry fs
unfolding filters_to_query_values
filters_to_query_values-append q [] d h = sym (append-nil q)
filters_to_query_values-append q (f ∷ fs) d h =
    ap (λ r. filters_to_query_values r fs)
      (set_value-append f.column (filter_value f) q (ground arith))
    ∙ filters_to_query_values-append (q ++ entry f ∷ []) fs (ground arith)
        (all-lacks f q fs (ground arith) (ground arith))
    ∙ append_assoc q (entry f ∷ []) (map entry fs)

abbrev pub AllKnown : List Filter → Type 0
AllKnown [] = Unit
AllKnown (f ∷ fs) = Known f.op × AllKnown fs

abbrev pub is_free : Filter → Bool
is_free f = not (reserved f.column)

pub parse_filters-entries :
    (fs : List Filter) → all is_free fs ≡ true → AllKnown fs → parse_filters (map entry fs) ≡ fs
unfolding parse_filters
parse_filters-entries [] h k = refl
parse_filters-entries (f ∷ fs) h (k, ks) =
    let free : reserved f.column ≡ false = ground arith in
    rw free (
      ap (λ g. g ∷ parse_filters (map entry fs)) (parse_filter-filter_value f k)
      ∙ ap (λ gs. f ∷ gs) (parse_filters-entries fs (ground arith) ks))

get_value-hit :
    (k key v : Text) (vs : List Text) (q : Values)
    → text_eq k key ≡ true
    → get_value ((k, v ∷ vs) ∷ q) key ≡ v
unfolding get_value
get_value-hit k key v vs q h = rw (get_value, h) refl

get_value-miss :
    (k key : Text) (vs : List Text) (q : Values)
    → text_eq k key ≡ false
    → get_value ((k, vs) ∷ q) key ≡ get_value q key
unfolding get_value
get_value-miss k key vs q h = rw (get_value, h) refl

get_value-set_value : (key v : Text) (q : Values) → get_value (set_value key v q) key ≡ v
unfolding set_value
get_value-set_value key v [] = get_value-hit key key v [] [] (text_eq_refl key)
get_value-set_value key v ((k, vs) ∷ q) = elim (Bool-cases (text_eq k key)) [
  | inl same ↦ rw same (get_value-hit k key v [] q same)
  | inr different ↦ rw different (get_value-miss k key vs _ different ∙ get_value-set_value key v q)
]

-- Another key keeps its value.
module _ (key other v : Text) (apart : text_eq key other ≡ false) where
  clear : (k : Text) → text_eq k key ≡ true → text_eq k other ≡ false
  clear k same = rw ((text_eq_iff k key).0 same) apart

  -- An entry before two lists that agree on the key.
  get_value-cons :
      (k : Text) (vs : List Text) (q r : Values)
      → get_value q other ≡ get_value r other
      → get_value ((k, vs) ∷ q) other ≡ get_value ((k, vs) ∷ r) other
  unfolding get_value
  get_value-cons k vs q r h = elim (Bool-cases (text_eq k other)) [
    | inl found ↦ rw (get_value, found) refl
    | inr missed ↦ get_value-miss k other vs q missed ∙ h ∙ sym (get_value-miss k other vs r missed)
  ]

  pub get_value-set_other : (q : Values) → get_value (set_value key v q) other ≡ get_value q other
  unfolding set_value
  get_value-set_other [] = get_value-miss key other (v ∷ []) [] apart
  get_value-set_other ((k, vs) ∷ q) = elim (Bool-cases (text_eq k key)) [
    | inl same ↦ rw same (
        get_value-miss k other (v ∷ []) q (clear k same)
        ∙ sym (get_value-miss k other vs q (clear k same)))
    | inr different ↦ rw different (get_value-cons k vs _ q (get_value-set_other q))
  ]

  get_value-add_other : (q : Values) → get_value (add_value key v q) other ≡ get_value q other
  unfolding add_value
  get_value-add_other [] = get_value-miss key other (v ∷ []) [] apart
  get_value-add_other ((k, vs) ∷ q) = elim (Bool-cases (text_eq k key)) [
    | inl same ↦ rw same (
        get_value-miss k other (vs ++ v ∷ []) q (clear k same)
        ∙ sym (get_value-miss k other vs q (clear k same)))
    | inr different ↦ rw different (get_value-cons k vs _ q (get_value-add_other q))
  ]

pub get_value-add_orders :
    (other : Text) (order : List OrderSpec) (q : Values)
    → text_eq (text "order") other ≡ false
    → get_value (add_orders order q) other ≡ get_value q other
unfolding add_orders
get_value-add_orders other [] q h = refl
get_value-add_orders other (o ∷ order) q h =
    get_value-add_orders other order _ h ∙ get_value-add_other (text "order") other _ h q

pub get_value-entries :
    (key : Text) (fs : List Filter)
    → reserved key ≡ true
    → all is_free fs ≡ true
    → get_value (map entry fs) key ≡ []
unfolding get_value
get_value-entries key [] r h = refl
get_value-entries key (f ∷ fs) r h = elim (Bool-cases (text_eq f.column key)) [
  | inl same ↦ absurd (clash (reserved-eq f.column key same r))
  | inr different ↦
      get_value-miss f.column key _ (map entry fs) different
      ∙ get_value-entries key fs r (ground arith)
]
  where
    clash : reserved f.column ≡ true → ⊥
    clash taken = ground arith

parse_count-read :
    (raw s : Text) (n : ℕ) → trim_space raw ≡ s → atoi_from_zero s ≡ some n → parse_count raw ≡ n
unfolding parse_count atoi_from_zero
parse_count-read raw [] n e r = cc
parse_count-read raw (c ∷ s) n e r = rw (parse_count, e, r) refl

parse_count-decimal : (n : ℕ) → n < 2 ^ 63 → parse_count (decimal n) ≡ n
parse_count-decimal n h =
    let (s, printed, read) = atoi_from_zero-itoa n h in
    let shown : decimal n ≡ s = rw printed refl in
    let kept : trim_space (decimal n) ≡ decimal n = trim_space-plain (decimal n) (
      all_imp is_digit (λ c. not (is_space c)) (decimal n) (λ c d. ground arith)
        (decimal-digits n)) in
    parse_count-read (decimal n) s n (kept ∙ shown) read

-- A number set on values that lack it is read back, 0 too.
pub set_number-read :
    (key : Text) (n : ℕ) (q : Values)
    → n < 2 ^ 63
    → get_value q key ≡ []
    → parse_count (get_value (set_number key n q) key) ≡ n
unfolding set_number parse_count trim_space trim_left trim_right
set_number-read key n q h lacking = elim (Bool-cases (ltb 0 n)) [
  | inl given ↦ rw (given, get_value-set_value key (decimal n) q) (parse_count-decimal n h)
  | inr zero ↦ let nothing : n ≡ 0 = ground arith in rw (zero, lacking) (sym nothing)
]

pub get_value-set_number :
    (key other : Text) (n : ℕ) (q : Values)
    → text_eq key other ≡ false
    → get_value (set_number key n q) other ≡ get_value q other
unfolding set_number
get_value-set_number key other n q apart = elim (Bool-cases (ltb 0 n)) [
  | inl given ↦ rw given (get_value-set_other key _ _ apart q)
  | inr zero ↦ rw zero refl
]

nothing_lacks : (fs : List Filter) → all (lacks []) fs ≡ true
nothing_lacks [] = refl
nothing_lacks (f ∷ fs) = nothing_lacks fs

pub filters_to_query_values-entries :
    (fs : List Filter)
    → distinct same_column fs ≡ true
    → filters_to_query_values [] fs ≡ map entry fs
filters_to_query_values-entries fs apart =
    filters_to_query_values-append [] fs apart (nothing_lacks fs)
