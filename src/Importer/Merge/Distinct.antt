-- ===== src/Importer/Merge/Distinct.antt =====
-- The keys of the merged document.
use lowcode_wrapper.Base.{
  Bool, true, false, List, [], ◌∷◌, any, distinct, is_empty, Text, text_eq, text_eq_iff, ◌||◌, ok,
  ◌≡◌, refl, sym, ap, ◌∙◌, arith, Bool-cases, inl, inr,
}
use lowcode_wrapper.Importer.Merge.{
  DeclarativeDoc, credential_key, server_key, table_key, function_key, put, put_all, values,
  no_entries, merge_declarative_docs,
}
use lowcode_wrapper.Importer.Merge.Keyed.{keyed, put-keyed, put_all-keyed}
use lowcode_wrapper.Importer.Merge.Overriding.{
  put_docs, gather-credentials, gather-servers, gather-tables, gather-functions,
  merge_declarative_docs_ok,
}

module _ {A : Type 0} (key : A → Text) where
  abbrev pub same_key : A → A → Bool
  same_key a b = text_eq (key a) (key b)

  any-put :
      (w v : A) (m : List (Text × A))
      → keyed key m ≡ true
      → any (same_key w) (values (put (key v) v m)) ≡ (same_key w v || any (same_key w) (values m))
  unfolding put
  any-put w v [] h = refl
  any-put w v ((j, u) ∷ m) h = ground (
    arith,
    any-put w v m,
    text_eq_iff j (key v),
    text_eq_iff j (key u),
    text_eq_iff (key w) (key u),
    text_eq_iff (key w) (key v),
  )

  any_same : (v w : A) (xs : List A) → key v ≡ key w → any (same_key v) xs ≡ any (same_key w) xs
  any_same v w xs e = ap (λ k. any (λ x. text_eq k (key x)) xs) e

  same_place :
      (v : A) (j : Text) (w : A) (m : List (Text × A))
      → text_eq j (key v) ≡ true
      → keyed key ((j, w) ∷ m) ≡ true
      → distinct same_key (values ((j, w) ∷ m)) ≡ true
      → distinct same_key (values ((j, v) ∷ m)) ≡ true
  same_place v j w m here h d =
      let e = sym ((text_eq_iff j (key v)).0 here) ∙ (text_eq_iff j (key w)).0 (ground arith) in
      ground (arith, any_same v w (values m) e)

  other_key :
      (w v : A) (j : Text)
      → text_eq j (key w) ≡ true
      → text_eq j (key v) ≡ false
      → same_key w v ≡ false
  other_key w v j at other =
      ap (λ k. text_eq k (key v)) (sym ((text_eq_iff j (key w)).0 at)) ∙ other

  distinct-put :
      (v : A) (m : List (Text × A))
      → keyed key m ≡ true
      → distinct same_key (values m) ≡ true
      → distinct same_key (values (put (key v) v m)) ≡ true
  unfolding put
  distinct-put v [] h d = refl
  distinct-put v ((j, w) ∷ m) h d = elim (Bool-cases (text_eq j (key v))) [
    | inl here ↦ rw here (same_place v j w m here h d)
    | inr other ↦ rw other (ground (arith, any-put w v m, distinct-put v m, other_key w v j, other))
  ]

  distinct-put_all :
      (xs : List A) (m : List (Text × A))
      → keyed key m ≡ true
      → distinct same_key (values m) ≡ true
      → distinct same_key (values (put_all key xs m)) ≡ true
  unfolding put_all
  distinct-put_all [] m h d = d
  distinct-put_all (x ∷ xs) m h d = elim (Bool-cases (is_empty (key x))) [
    | inl skipped ↦ rw skipped (distinct-put_all xs m h d)
    | inr stored ↦
        rw stored
          (distinct-put_all xs (put (key x) x m) (put-keyed key x m h) (distinct-put x m h d))
  ]

  distinct-put_docs :
      (part : DeclarativeDoc → List A) (docs : List DeclarativeDoc) (m : List (Text × A))
      → keyed key m ≡ true
      → distinct same_key (values m) ≡ true
      → distinct same_key (values (put_docs key part docs m)) ≡ true
  distinct-put_docs part [] m h d = d
  distinct-put_docs part (doc ∷ docs) m h d =
      distinct-put_docs part docs (put_all key (part doc) m) (put_all-keyed key (part doc) m h)
        (distinct-put_all (part doc) m h d)

-- No two entries of one kind of a merged document have the same key, whatever the documents are.
pub merge_declarative_docs-distinct :
    (docs : List DeclarativeDoc) (out : DeclarativeDoc)
    → merge_declarative_docs docs ≡ ok out
    → (distinct (same_key credential_key) out.credentials ≡ true)
      × (distinct (same_key server_key) out.servers ≡ true)
      × (distinct (same_key table_key) out.tables ≡ true)
      × (distinct (same_key function_key) out.functions ≡ true)
merge_declarative_docs-distinct docs out h =
    let is_out = merge_declarative_docs_ok docs out h in
    (
      ap (λ o. distinct (same_key credential_key) o.credentials) is_out
          ∙ ap (λ m. distinct (same_key credential_key) (values m))
              (gather-credentials docs no_entries)
          ∙ distinct-put_docs credential_key (λ d. d.credentials) docs [] refl refl,
      ap (λ o. distinct (same_key server_key) o.servers) is_out
          ∙ ap (λ m. distinct (same_key server_key) (values m)) (gather-servers docs no_entries)
          ∙ distinct-put_docs server_key (λ d. d.servers) docs [] refl refl,
      ap (λ o. distinct (same_key table_key) o.tables) is_out
          ∙ ap (λ m. distinct (same_key table_key) (values m)) (gather-tables docs no_entries)
          ∙ distinct-put_docs table_key (λ d. d.tables) docs [] refl refl,
      ap (λ o. distinct (same_key function_key) o.functions) is_out
          ∙ ap (λ m. distinct (same_key function_key) (values m)) (gather-functions docs no_entries)
          ∙ distinct-put_docs function_key (λ d. d.functions) docs [] refl refl,
    )
