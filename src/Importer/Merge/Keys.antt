-- ===== src/Importer/Merge/Keys.antt =====
-- The keys of tables.
use lowcode_wrapper.Base.{
  Bool, true, false, not, [], ◌∷◌, ◌++◌, all, is_empty, Text, text, trim_space, if◌then◌else◌, ◌&&◌,
  ◌||◌, ◌==◌, ◌≡◌, ◌↔◌, refl, sym, ◌∙◌, arith, Bool-cases, inl, inr,
}
use lowcode_wrapper.Importer.Merge.{DeclTable, joined_key, table_key}

abbrev pub no_zero : Text → Bool
no_zero = all (λ c. not (c == 0))

-- The schema that a table stands in.
abbrev pub schema_of : DeclTable → Text
schema_of t = if is_empty (trim_space t.schema) then text "public" else trim_space t.schema

append-zero :
    (a c b d : Text)
    → no_zero a ≡ true
    → no_zero c ≡ true
    → a ++ 0 ∷ b ≡ c ++ 0 ∷ d
    → (a ≡ c) × (b ≡ d)
append-zero [] [] b d h k e = ground arith
append-zero [] (y ∷ c) b d h k e = ground arith
append-zero (x ∷ a) [] b d h k e = ground arith
append-zero (x ∷ a) (y ∷ c) b d h k e = ground (arith, append-zero a c b d)

table_key_parts :
    (t : DeclTable)
    → is_empty (table_key t) ≡ false
    → table_key t ≡ schema_of t ++ 0 ∷ (trim_space t.name ++ 0 ∷ trim_space t.server)
unfolding table_key joined_key
table_key_parts t h =
    elim (Bool-cases (is_empty (trim_space t.server) || is_empty (trim_space t.name))) [
      | inl blank ↦ ground arith
      | inr named ↦ rw named refl
    ]

-- Two tables have the same key exactly when they have the same schema, where none is public, the same
-- name and the same server, up to white space around them. Here both tables have a name and a server,
-- and no schema and no name holds a zero byte.
pub table_key-same_iff :
    (t u : DeclTable)
    → is_empty (table_key t) ≡ false
    → is_empty (table_key u) ≡ false
    → no_zero (schema_of t) && no_zero (schema_of u) ≡ true
    → no_zero (trim_space t.name) && no_zero (trim_space u.name) ≡ true
    → (table_key t ≡ table_key u) ↔ (
        (schema_of t ≡ schema_of u)
        × (trim_space t.name ≡ trim_space u.name)
        × (trim_space t.server ≡ trim_space u.server))
table_key-same_iff t u h k s n =
    let of_t = table_key_parts t h in
    let of_u = table_key_parts u k in
    (
      λ same.
          let (schemas, rest) =
            append-zero (schema_of t) (schema_of u) (trim_space t.name ++ 0 ∷ trim_space t.server)
              (trim_space u.name ++ 0 ∷ trim_space u.server) (ground arith) (ground arith)
              (sym of_t ∙ same ∙ of_u) in
          let (names, servers) =
            append-zero (trim_space t.name) (trim_space u.name) (trim_space t.server)
              (trim_space u.server) (ground arith) (ground arith) rest in
          (schemas, names, servers),
      λ (schemas, names, servers). of_t ∙ rw (schemas, names, servers) (sym of_u),
    )
