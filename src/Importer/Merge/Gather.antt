-- ===== src/Importer/Merge/Gather.antt =====
-- The merge as one loop without errors, next to the test for a server without a name.
use lowcode_wrapper.Base.{
  Bool, List, [], ◌∷◌, any, is_empty, Text, if◌then◌else◌, ok, err, ◌≡◌, refl, Bool-cases, inl, inr,
}
use lowcode_wrapper.Importer.Merge.{
  DeclServer, DeclarativeDoc, server_name_required, Merged, server_key, credential_key, table_key,
  function_key, put, put_all, put_servers, merge_doc, merge_docs,
}

abbrev pub is_unnamed : DeclServer → Bool
is_unnamed s = is_empty (server_key s)

-- A document has a server without a name.
abbrev pub has_unnamed : DeclarativeDoc → Bool
has_unnamed doc = any is_unnamed doc.servers

abbrev pub gather_doc : DeclarativeDoc → Merged → Merged
gather_doc doc m = record {
  creds = put_all credential_key doc.credentials m.creds;
  servers = put_all server_key doc.servers m.servers;
  tables = put_all table_key doc.tables m.tables;
  functions = put_all function_key doc.functions m.functions;
}

abbrev pub gather : List DeclarativeDoc → Merged → Merged
gather [] m = m
gather (doc ∷ docs) m = gather docs (gather_doc doc m)

put_servers_lem :
    (xs : List DeclServer) (m : List (Text × DeclServer))
    → put_servers xs m
      ≡ (if any is_unnamed xs then err server_name_required else ok (put_all server_key xs m))
unfolding put_servers put_all
put_servers_lem [] m = refl
put_servers_lem (s ∷ xs) m = elim (Bool-cases (is_unnamed s)) [
  | inl blank ↦ rw blank refl
  | inr named ↦ rw named (put_servers_lem xs (put (server_key s) s m))
]

merge_doc_lem :
    (doc : DeclarativeDoc) (m : Merged)
    → merge_doc doc m
      ≡ (if has_unnamed doc then err server_name_required else ok (gather_doc doc m))
unfolding merge_doc
merge_doc_lem doc m = elim (Bool-cases (has_unnamed doc)) [
  | inl blank ↦ rw (put_servers_lem doc.servers m.servers, blank) refl
  | inr named ↦ rw (put_servers_lem doc.servers m.servers, named) refl
]

pub merge_docs_lem :
    (docs : List DeclarativeDoc) (m : Merged)
    → merge_docs docs m
      ≡ (if any has_unnamed docs then err server_name_required else ok (gather docs m))
unfolding merge_docs
merge_docs_lem [] m = refl
merge_docs_lem (doc ∷ docs) m = elim (Bool-cases (has_unnamed doc)) [
  | inl blank ↦ rw (merge_doc_lem doc m, blank) refl
  | inr named ↦ rw (merge_doc_lem doc m, named) (merge_docs_lem docs (gather_doc doc m))
]
