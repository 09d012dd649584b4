-- ===== src/Importer/Merge/Overriding.antt =====
-- What the merged document holds.
use lowcode_wrapper.Base.{
  true, false, List, [], ◌∷◌, ◌++◌, any, find, is_empty, Text, if◌then◌else◌, ok, err, ◌≡◌, ◌↔◌,
  refl, sym, ap, ◌∙◌, arith, Bool-cases, inl, inr,
}
use lowcode_wrapper.Importer.Merge.{
  DeclarativeDoc, credential_key, server_key, function_key, server_name_required, Merged, table_key,
  put_all, values, no_entries, merge_declarative_docs,
}
use lowcode_wrapper.Importer.Merge.Keyed.{
  or_found, or_found-none, or_found_assoc, find_last, find_last-append, keyed, has_key,
  put_all-keyed, find-put_all,
}
use lowcode_wrapper.Importer.Merge.Gather.{has_unnamed, gather, gather_doc, merge_docs_lem}

-- All entries of one kind, document by document.
abbrev pub all_of : {A : Type 0} → (DeclarativeDoc → List A) → List DeclarativeDoc → List A
all_of part [] = []
all_of part (doc ∷ docs) = part doc ++ all_of part docs

-- One kind of entries over all documents.
abbrev pub put_docs :
    {A : Type 0}
    → (A → Text)
    → (DeclarativeDoc → List A)
    → List DeclarativeDoc
    → List (Text × A)
    → List (Text × A)
put_docs key part [] m = m
put_docs key part (doc ∷ docs) m = put_docs key part docs (put_all key (part doc) m)

module _ {A : Type 0} (key : A → Text) (part : DeclarativeDoc → List A) (k : Text)
    (n : is_empty k ≡ false) where
  find-put_docs :
      (docs : List DeclarativeDoc) (m : List (Text × A))
      → keyed key m ≡ true
      → find (has_key key k) (values (put_docs key part docs m))
        ≡ or_found (find_last (has_key key k) (all_of part docs)) (find (has_key key k) (values m))
  find-put_docs [] m h = refl
  find-put_docs (doc ∷ docs) m h =
      let p = has_key key k in
      find-put_docs docs (put_all key (part doc) m) (put_all-keyed key (part doc) m h)
      ∙ ap (or_found (find_last p (all_of part docs))) (find-put_all key k (part doc) m n h)
      ∙ sym (
          or_found_assoc (find_last p (all_of part docs)) (find_last p (part doc))
            (find p (values m)))
      ∙ ap (λ o. or_found o (find p (values m)))
          (sym (find_last-append p (part doc) (all_of part docs)))

  find_merged :
      (docs : List DeclarativeDoc) (m : List (Text × A))
      → m ≡ put_docs key part docs []
      → find (has_key key k) (values m) ≡ find_last (has_key key k) (all_of part docs)
  find_merged docs m gathered =
      ap (λ es. find (has_key key k) (values es)) gathered
      ∙ find-put_docs docs [] refl
      ∙ or_found-none (find_last (has_key key k) (all_of part docs))

pub gather-credentials :
    (docs : List DeclarativeDoc) (m : Merged)
    → (gather docs m).creds ≡ put_docs credential_key (λ d. d.credentials) docs m.creds
gather-credentials [] m = refl
gather-credentials (doc ∷ docs) m = gather-credentials docs (gather_doc doc m)

pub gather-servers :
    (docs : List DeclarativeDoc) (m : Merged)
    → (gather docs m).servers ≡ put_docs server_key (λ d. d.servers) docs m.servers
gather-servers [] m = refl
gather-servers (doc ∷ docs) m = gather-servers docs (gather_doc doc m)

pub gather-tables :
    (docs : List DeclarativeDoc) (m : Merged)
    → (gather docs m).tables ≡ put_docs table_key (λ d. d.tables) docs m.tables
gather-tables [] m = refl
gather-tables (doc ∷ docs) m = gather-tables docs (gather_doc doc m)

pub gather-functions :
    (docs : List DeclarativeDoc) (m : Merged)
    → (gather docs m).functions ≡ put_docs function_key (λ d. d.functions) docs m.functions
gather-functions [] m = refl
gather-functions (doc ∷ docs) m = gather-functions docs (gather_doc doc m)

abbrev pub document_of : Merged → DeclarativeDoc
document_of m = record {
  credentials = values m.creds;
  servers = values m.servers;
  tables = values m.tables;
  functions = values m.functions;
}

merge_declarative_docs_lem :
    (docs : List DeclarativeDoc)
    → merge_declarative_docs docs ≡ (
        if any has_unnamed docs
        then err server_name_required
        else ok (document_of (gather docs no_entries)))
unfolding merge_declarative_docs
merge_declarative_docs_lem docs = elim (Bool-cases (any has_unnamed docs)) [
  | inl blank ↦ rw (merge_docs_lem docs no_entries, blank) refl
  | inr named ↦ rw (merge_docs_lem docs no_entries, named) refl
]

pub merge_declarative_docs_ok :
    (docs : List DeclarativeDoc) (out : DeclarativeDoc)
    → merge_declarative_docs docs ≡ ok out
    → out ≡ document_of (gather docs no_entries)
merge_declarative_docs_ok docs out h =
    let e = merge_declarative_docs_lem docs in
    elim (Bool-cases (any has_unnamed docs)) [ inl blank ↦ grind arith | inr named ↦ grind arith ]

-- The merge is refused exactly when some document has a server whose name is white space or empty.
pub merge_declarative_docs-refused_iff :
    (docs : List DeclarativeDoc)
    → (merge_declarative_docs docs ≡ err server_name_required) ↔ (any has_unnamed docs ≡ true)
merge_declarative_docs-refused_iff docs =
    let e = merge_declarative_docs_lem docs in
    elim (Bool-cases (any has_unnamed docs)) [ inl blank ↦ grind arith | inr named ↦ grind arith ]

-- Where documents are merged, the entry of the result under a key is the last one with that key, over
-- the documents in their order and the entries of each in theirs, for credentials, servers, tables and
-- functions; a key that no entry has is not in the result. The key is not empty: entries without a
-- key are skipped.
pub merge_declarative_docs-last :
    (docs : List DeclarativeDoc) (out : DeclarativeDoc) (k : Text)
    → merge_declarative_docs docs ≡ ok out
    → is_empty k ≡ false
    → (find (has_key credential_key k) out.credentials
        ≡ find_last (has_key credential_key k) (all_of (λ d. d.credentials) docs))
      × (find (has_key server_key k) out.servers
          ≡ find_last (has_key server_key k) (all_of (λ d. d.servers) docs))
      × (find (has_key table_key k) out.tables
          ≡ find_last (has_key table_key k) (all_of (λ d. d.tables) docs))
      × (find (has_key function_key k) out.functions
          ≡ find_last (has_key function_key k) (all_of (λ d. d.functions) docs))
merge_declarative_docs-last docs out k h n =
    let is_out = merge_declarative_docs_ok docs out h in
    let m = gather docs no_entries in
    (
      ap (λ o. find (has_key credential_key k) o.credentials) is_out
          ∙ find_merged credential_key (λ d. d.credentials) k n docs m.creds
              (gather-credentials docs no_entries),
      ap (λ o. find (has_key server_key k) o.servers) is_out
          ∙ find_merged server_key (λ d. d.servers) k n docs m.servers
              (gather-servers docs no_entries),
      ap (λ o. find (has_key table_key k) o.tables) is_out
          ∙ find_merged table_key (λ d. d.tables) k n docs m.tables (gather-tables docs no_entries),
      ap (λ o. find (has_key function_key k) o.functions) is_out
          ∙ find_merged function_key (λ d. d.functions) k n docs m.functions
              (gather-functions docs no_entries),
    )
