-- ===== src/Drivers/Postgres/Placeholders.antt =====
-- The numbers of the placeholders in the statements.
use lowcode_wrapper.Base.{
  ℕ, ◌+◌, Bool, true, false, ◌&&◌, List, [], ◌∷◌, ◌++◌, map, length, all, is_empty, Text, text,
  text_eq, trim_space, split, ◌≡◌, refl, sym, ap, ◌∙◌, arith, Bool-cases, inl, inr,
}
use mathlib.Core.Path.{subst}
use mathlib.Core.List.{append-nil}
use lowcode_wrapper.Models.{str}
use lowcode_wrapper.Postgrest.Query.{
  Filter, Op, eq, neq, gt, gte, lt, lte, like, in_list, is, other,
}
use lowcode_wrapper.Postgrest.Errors.{quote}
use lowcode_wrapper.Drivers.Sql.{decimal, join, op_sql}
use lowcode_wrapper.Drivers.Postgres.{
  placeholder, placeholders, compared, condition_sql, filter_sql,
}
use lowcode_wrapper.Drivers.Postgres.Scan.{
  ends, Reads, Reads-append, is_plain, Reads-plain, Reads-placeholder, is_bare, Reads-quote, concat,
  AllRead, ends-join, Reads-join, Reads-after,
}

-- The numbers from `i` on, one for each value, in decimal.
abbrev pub numbers : {A : Type 0} → ℕ → List A → List Text
numbers i [] = []
numbers i (x ∷ xs) = decimal i ∷ numbers (i + 1) xs

pub numbers-append :
    {A : Type 0} (i : ℕ) (xs ys : List A)
    → numbers i (xs ++ ys) ≡ numbers i xs ++ numbers (i + length xs) ys
numbers-append i [] ys = ap (λ k. numbers k ys) (omega arith)
numbers-append i (x ∷ xs) ys =
    ap (λ ns. decimal i ∷ ns)
      (numbers-append (i + 1) xs ys ∙ ap (λ k. numbers (i + 1) xs ++ numbers k ys) (omega arith))

pub numbers-map :
    {A B : Type 0} (f : A → B) (i : ℕ) (xs : List A) → numbers i (map f xs) ≡ numbers i xs
numbers-map f i [] = refl
numbers-map f i (x ∷ xs) = ap (λ ns. decimal i ∷ ns) (numbers-map f (i + 1) xs)

-- A value that becomes part of the text has no quote and no dollar.
abbrev pub is_fair_value : Text → Op → Bool
is_fair_value value is = all is_plain value
is_fair_value value _ = true

-- The column can be quoted as it is, and the value becomes part of the text at most where it may.
abbrev pub is_fair : Filter → Bool
is_fair f = all is_bare f.column && is_fair_value f.value f.op

singles : List Text → List (List Text)
singles [] = []
singles (n ∷ ns) = (n ∷ []) ∷ singles ns

concat-singles : (ns : List Text) → concat (singles ns) ≡ ns
unfolding singles
concat-singles [] = refl
concat-singles (n ∷ ns) = ap (λ m. n ∷ m) (concat-singles ns)

placeholders-AllRead :
    {A : Type 0} (i : ℕ) (xs : List A) → AllRead (placeholders i xs) (singles (numbers i xs))
unfolding singles
placeholders-AllRead i [] = tt
placeholders-AllRead i (x ∷ xs) = (Reads-placeholder i, refl, placeholders-AllRead (i + 1) xs)

-- The other side of an equation.
pub Reads-eq : (w : Text) {ns ms : List Text} → ns ≡ ms → Reads w ns → Reads w ms
Reads-eq w e h = subst (Reads w) e h

-- A plain text after another one.
pub Reads-before :
    (w v : Text) (ns : List Text)
    → Reads w ns
    → all is_plain v ≡ true
    → ends v ≡ true
    → Reads (w ++ v) ns
Reads-before w v ns h p e =
    Reads-eq (w ++ v) (append-nil ns) (Reads-append w v ns [] h (Reads-plain v p) e)

pub ends-placeholders :
    {A : Type 0} (i : ℕ) (xs : List A) → ends (join (text ", ") (placeholders i xs)) ≡ true
ends-placeholders i xs =
    ends-join (text ", ") (placeholders i xs) (singles (numbers i xs)) refl
      (placeholders-AllRead i xs)

pub Reads-placeholders :
    {A : Type 0} (i : ℕ) (xs : List A) → Reads (join (text ", ") (placeholders i xs)) (numbers i xs)
Reads-placeholders i xs =
    Reads-eq (join (text ", ") (placeholders i xs)) (concat-singles (numbers i xs)) (
      Reads-join (text ", ") (placeholders i xs) (singles (numbers i xs)) refl refl
        (placeholders-AllRead i xs))

op_sql-plain : (op : Op) → all is_plain (b' ' ∷ op_sql op) ≡ true
unfolding op_sql
op_sql-plain eq = refl
op_sql-plain neq = refl
op_sql-plain gt = refl
op_sql-plain gte = refl
op_sql-plain lt = refl
op_sql-plain lte = refl
op_sql-plain like = refl
op_sql-plain in_list = refl
op_sql-plain is = refl
op_sql-plain (other s) = refl

module _ (i : ℕ) (col value : Text) (q : Reads col []) where
  compared-numbers : (op : Op) → Reads (compared i col value op).0 (decimal i ∷ [])
  unfolding op_sql
  compared-numbers op =
      Reads-append col (b' ' ∷ op_sql op ++ (b' ' ∷ placeholder i)) [] (decimal i ∷ []) q
        (Reads-append (b' ' ∷ op_sql op) (b' ' ∷ placeholder i) [] (decimal i ∷ [])
          (Reads-plain (b' ' ∷ op_sql op) (op_sql-plain op))
          (Reads-after (text " ") (placeholder i) (decimal i ∷ []) refl (Reads-placeholder i)) refl)
        refl

  condition_sql-numbers :
      (op : Op)
      → is_fair_value value op ≡ true
      → Reads (condition_sql i col value op).0 (numbers i (condition_sql i col value op).1)
  unfolding condition_sql
  condition_sql-numbers eq h =
      Reads-append col (b'=' ∷ placeholder i) [] (decimal i ∷ []) q
        (Reads-after (text "=") (placeholder i) (decimal i ∷ []) refl (Reads-placeholder i)) refl
  condition_sql-numbers in_list h =
      let vals = split b',' value in
      let list = join (text ", ") (placeholders i vals) in
      Reads-eq (condition_sql i col value in_list).0
        (sym (numbers-map (λ v. str (trim_space v)) i vals))
        (Reads-append col (text " IN (" ++ (list ++ text ")")) [] (numbers i vals) q
          (Reads-after (text " IN (") (list ++ text ")") (numbers i vals) refl
            (Reads-before list (text ")") (numbers i vals) (Reads-placeholders i vals) refl refl))
          refl)
  condition_sql-numbers is h = elim (Bool-cases (text_eq value (text "null"))) [
    | inl null ↦
        rw null
          (Reads-append col (text " IS NULL") [] [] q (Reads-plain (text " IS NULL") refl) refl)
    | inr raw ↦ rw raw (
        Reads-append col (text " IS " ++ value) [] [] q (Reads-plain (text " IS " ++ value) h) refl)
  ]
  condition_sql-numbers neq h = compared-numbers neq
  condition_sql-numbers gt h = compared-numbers gt
  condition_sql-numbers gte h = compared-numbers gte
  condition_sql-numbers lt h = compared-numbers lt
  condition_sql-numbers lte h = compared-numbers lte
  condition_sql-numbers like h = compared-numbers like
  condition_sql-numbers (other s) h = compared-numbers (other s)

pub filter_sql-numbers :
    (i : ℕ) (f : Filter)
    → is_fair f ≡ true
    → Reads (filter_sql i f).0 (numbers i (filter_sql i f).1)
unfolding filter_sql
filter_sql-numbers i f h =
    condition_sql-numbers i (quote f.column) f.value (Reads-quote f.column (ground arith)) f.op
      (ground arith)

-- The text of a condition starts with the quote of its column.
condition_sql-head :
    (i : ℕ) (t value : Text) (op : Op)
    → (ends (condition_sql i (34 ∷ t) value op).0 ≡ true)
      × (is_empty (condition_sql i (34 ∷ t) value op).0 ≡ false)
unfolding condition_sql
condition_sql-head i t value eq = (refl, refl)
condition_sql-head i t value neq = (refl, refl)
condition_sql-head i t value gt = (refl, refl)
condition_sql-head i t value gte = (refl, refl)
condition_sql-head i t value lt = (refl, refl)
condition_sql-head i t value lte = (refl, refl)
condition_sql-head i t value like = (refl, refl)
condition_sql-head i t value in_list = (refl, refl)
condition_sql-head i t value (other s) = (refl, refl)
condition_sql-head i t value is = elim (Bool-cases (text_eq value (text "null"))) [
  | inl null ↦ rw null (refl, refl)
  | inr raw ↦ rw raw (refl, refl)
]

pub filter_sql-head :
    (i : ℕ) (f : Filter) → (ends (filter_sql i f).0 ≡ true) × (is_empty (filter_sql i f).0 ≡ false)
unfolding filter_sql quote
filter_sql-head i f = condition_sql-head i _ f.value f.op
