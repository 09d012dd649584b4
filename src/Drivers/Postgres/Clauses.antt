-- ===== src/Drivers/Postgres/Clauses.antt =====
-- The numbers of the placeholders in a clause of conditions.
use lowcode_wrapper.Base.{
  ℕ, ◌+◌, true, List, [], ◌∷◌, ◌++◌, length, all, is_empty, Text, text, if◌then◌else◌, ◌≡◌, refl,
  sym, ap, ◌∙◌, arith, Bool-cases, inl, inr,
}
use mathlib.Core.List.{append-nil}
use lowcode_wrapper.Postgrest.Query.{Filter}
use lowcode_wrapper.Drivers.Sql.{join}
use lowcode_wrapper.Drivers.Postgres.{
  filter_sql, where_parts, build_where, group_parts, where_clause, disjunction, conjunct,
}
use lowcode_wrapper.Drivers.Postgres.Scan.{
  scan, ends, Reads, Reads-plain, concat, AllRead, ends-join, Reads-join, Reads-after,
}
use lowcode_wrapper.Drivers.Postgres.Placeholders.{
  numbers, numbers-append, Reads-eq, Reads-before, is_fair, filter_sql-numbers, filter_sql-head,
}

-- The numbers of each condition.
chunks : ℕ → List Filter → List (List Text)
chunks i [] = []
chunks i (f ∷ filters) =
    numbers i (filter_sql i f).1 ∷ chunks (i + length (filter_sql i f).1) filters

concat-chunks :
    (i : ℕ) (filters : List Filter)
    → concat (chunks i filters) ≡ numbers i (where_parts i filters).1
unfolding chunks where_parts
concat-chunks i [] = refl
concat-chunks i (f ∷ filters) =
    let vals = (filter_sql i f).1 in
    ap (λ ns. numbers i vals ++ ns) (concat-chunks (i + length vals) filters)
    ∙ sym (numbers-append i vals (where_parts (i + length vals) filters).1)

where_parts-AllRead :
    (i : ℕ) (filters : List Filter)
    → all is_fair filters ≡ true
    → AllRead (where_parts i filters).0 (chunks i filters)
unfolding chunks where_parts
where_parts-AllRead i [] h = tt
where_parts-AllRead i (f ∷ filters) h = (
  filter_sql-numbers i f (ground arith),
  (filter_sql-head i f).0,
  where_parts-AllRead (i + length (filter_sql i f).1) filters (ground arith),
)

build_where-numbers :
    (i : ℕ) (filters : List Filter)
    → all is_fair filters ≡ true
    → Reads (build_where i filters).0 (numbers i (build_where i filters).1)
unfolding build_where
build_where-numbers i filters h = Reads-eq (build_where i filters).0 (concat-chunks i filters) (
    Reads-join (text " AND ") (where_parts i filters).0 (chunks i filters) refl refl
      (where_parts-AllRead i filters h))

build_where-ends :
    (i : ℕ) (filters : List Filter)
    → all is_fair filters ≡ true
    → ends (build_where i filters).0 ≡ true
unfolding build_where
build_where-ends i filters h =
    ends-join (text " AND ") (where_parts i filters).0 (chunks i filters) refl
      (where_parts-AllRead i filters h)

-- The reader finds nothing in the empty text.
pub Reads-nothing : (ns : List Text) → Reads [] ns → ns ≡ []
unfolding scan
Reads-nothing ns h = sym (h [] refl ∙ append-nil ns)

-- The numbers of the groups.
group_chunks : ℕ → List (List Filter) → List (List Text)
group_chunks i [] = []
group_chunks i (g ∷ groups) =
    let vals = (build_where i g).1 in
    let skipped = group_chunks i groups in
    let rest = group_chunks (i + length vals) groups in
    if is_empty (build_where i g).0 then skipped else numbers i vals ∷ rest

group_parts-AllRead :
    (i : ℕ) (groups : List (List Filter))
    → all (all is_fair) groups ≡ true
    → AllRead (group_parts i groups).0 (group_chunks i groups)
      × (concat (group_chunks i groups) ≡ numbers i (group_parts i groups).1)
unfolding group_chunks group_parts
group_parts-AllRead i [] h = (tt, refl)
group_parts-AllRead i (g ∷ groups) h = elim (Bool-cases (is_empty (build_where i g).0)) [
  | inl empty ↦ rw empty (group_parts-AllRead i groups (ground arith))
  | inr filled ↦
      let w = (build_where i g).0 in
      let vals = (build_where i g).1 in
      let fair : all is_fair g ≡ true = ground arith in
      let rest = group_parts-AllRead (i + length vals) groups (ground arith) in
      rw filled (
        (
          Reads-before (b'(' ∷ w) (text ")") (numbers i vals)
              (Reads-after (text "(") w (numbers i vals) refl (build_where-numbers i g fair)) refl
              refl,
          refl,
          rest.0,
        ),
        ap (λ ns. numbers i vals ++ ns) rest.1
            ∙ sym (numbers-append i vals (group_parts (i + length vals) groups).1),
      )
]

group-numbers :
    (parts : List Text) (ms : List (List Text))
    → AllRead parts ms
    → Reads (b'(' ∷ join (text " OR ") parts ++ text ")") (concat ms)
group-numbers parts ms k =
    let list = join (text " OR ") parts in
    Reads-before (b'(' ∷ list) (text ")") (concat ms)
      (Reads-after (text "(") list (concat ms) refl (Reads-join (text " OR ") parts ms refl refl k))
      refl refl

-- The texts of a clause, joined: that of the filters and those of the groups.
joined-numbers :
    (w : Text) (parts : List Text) (ns : List Text) (ms : List (List Text))
    → Reads w ns
    → ends w ≡ true
    → AllRead parts ms
    → Reads (join (text " AND ") (conjunct w ++ disjunction parts)) (ns ++ concat ms)
joined-numbers [] [] ns [] h e k =
    Reads-eq [] (ap (λ q. q ++ []) (sym (Reads-nothing ns h))) (Reads-plain [] refl)
joined-numbers [] [] ns (m ∷ ms) h e k = elim k [ ]
joined-numbers w (p ∷ parts) ns [] h e k = elim k [ ]
joined-numbers [] (p ∷ parts) ns (m ∷ ms) h e k =
    Reads-eq (b'(' ∷ join (text " OR ") (p ∷ parts) ++ text ")")
      (ap (λ q. q ++ concat (m ∷ ms)) (sym (Reads-nothing ns h)))
      (group-numbers (p ∷ parts) (m ∷ ms) k)
joined-numbers (c ∷ w) [] ns [] h e k = Reads-eq (c ∷ w) (sym (append-nil ns)) h
joined-numbers (c ∷ w) [] ns (m ∷ ms) h e k = elim k [ ]
joined-numbers (c ∷ w) (p ∷ parts) ns (m ∷ ms) h e k =
    Reads-eq (join (text " AND ") (conjunct (c ∷ w) ++ disjunction (p ∷ parts)))
      (ap (λ q. ns ++ q) (append-nil (concat (m ∷ ms))))
      (Reads-join (text " AND ") (conjunct (c ∷ w) ++ disjunction (p ∷ parts))
        (ns ∷ concat (m ∷ ms) ∷ []) refl refl
        (h, e, (group-numbers (p ∷ parts) (m ∷ ms) k, refl, tt)))

-- The condition of a request numbers its placeholders from `i` on, one for each value.
pub where_clause-numbers :
    (i : ℕ) (filters : List Filter) (groups : List (List Filter))
    → all is_fair filters ≡ true
    → all (all is_fair) groups ≡ true
    → Reads (where_clause i filters groups).0 (numbers i (where_clause i filters groups).1)
unfolding where_clause
where_clause-numbers i filters groups h k =
    let w = build_where i filters in
    let j = i + length w.1 in
    let parts = group_parts-AllRead j groups k in
    Reads-eq (where_clause i filters groups).0
      (ap (λ ns. numbers i w.1 ++ ns) parts.1 ∙ sym (numbers-append i w.1 (group_parts j groups).1))
      (joined-numbers w.0 (group_parts j groups).0 (numbers i w.1) (group_chunks j groups)
        (build_where-numbers i filters h) (build_where-ends i filters h) parts.0)
