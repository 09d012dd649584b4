-- ===== src/Postgrest/Query/Filters.antt =====
-- Filters written into a URL and read back.
use lowcode_wrapper.Base.{
  ℕ, zero, suc, some, [], ◌∷◌, ◌++◌, Text, text_eq, text_eq_iff, index, take, drop, ◌≡◌, ◌⊎◌, inl,
  inr, refl, arith, ==_iff, find_holds, Option-cases,
}
use lowcode_wrapper.Postgrest.Query.{
  Op, eq, other, op_text, op_of_text, known_ops, Filter, filter_value, parse_filter,
}

abbrev pub Known : Op → Type 0
Known (other s) = ⊥
Known _ = Unit

read_back :
    (column value : Text) (op : Op)
    → Known op
    → parse_filter column (filter_value (record { column = column; op = op; value = value }))
      ≡ record { column = column; op = op; value = value }
unfolding parse_filter filter_value text_eq index
read_back column value eq h = refl
read_back column value (other s) h = absurd h
read_back column value _ h = refl

-- A filter with a known operator is read back as it was written: the value may hold dots.
pub parse_filter-filter_value :
    (f : Filter) → Known f.op → parse_filter f.column (filter_value f) ≡ f
parse_filter-filter_value f = read_back f.column f.value f.op

-- A text with a dot is what stands before the first dot, the dot, and the rest.
index_dot :
    (s : Text) (i : ℕ) → index s (b'.' ∷ []) ≡ some i → take i s ++ b'.' ∷ drop (suc i) s ≡ s
unfolding index
index_dot [] i e = cc
index_dot (c ∷ cs) zero e = ground (arith, ==_iff c b'.')
index_dot (c ∷ cs) (suc i) e = ground (arith, index_dot cs i)

op_of_text_sound : (s : Text) (op : Op) → op_of_text s ≡ some op → op_text op ≡ s
unfolding op_of_text
op_of_text_sound s op e =
    (text_eq_iff (op_text op) s).0 (find_holds (λ o. text_eq (op_text o) s) known_ops op e)

-- Whatever the parameter's value, the filter is on that column, and it is written back as the same
-- value, or it asks for equality with the whole value.
pub parse_filter_sound :
    (column raw : Text)
    → ((parse_filter column raw).column ≡ column)
      × ((filter_value (parse_filter column raw) ≡ raw)
          ⊎ (parse_filter column raw ≡ record { column = column; op = eq; value = raw }))
unfolding parse_filter filter_value
parse_filter_sound column raw = elim (Option-cases (index raw (b'.' ∷ []))) [
  | inl plain ↦ rw (plain, parse_filter) (refl, inr refl)
  | inr (i, dot) ↦ at_dot i dot
]
  where
    at_op :
        (d : ℕ)
        → index raw (b'.' ∷ []) ≡ some (suc d)
        → ((parse_filter column raw).column ≡ column)
          × ((filter_value (parse_filter column raw) ≡ raw)
              ⊎ (parse_filter column raw ≡ record { column = column; op = eq; value = raw }))
    at_op d dot = elim (Option-cases (op_of_text (take (suc d) raw))) [
      | inl unknown ↦ rw (dot, parse_filter, unknown) (refl, inr refl)
      | inr (op, known) ↦
          rw (dot, parse_filter, known)
            (
              refl,
              inl (rw (op_of_text_sound (take (suc d) raw) op known) (index_dot raw (suc d) dot)),
            )
    ]

    at_dot :
        (i : ℕ)
        → index raw (b'.' ∷ []) ≡ some i
        → ((parse_filter column raw).column ≡ column)
          × ((filter_value (parse_filter column raw) ≡ raw)
              ⊎ (parse_filter column raw ≡ record { column = column; op = eq; value = raw }))
    at_dot zero dot = rw (dot, parse_filter) (refl, inr refl)
    at_dot (suc d) dot = at_op d dot
