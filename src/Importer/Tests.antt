-- ===== src/Importer/Tests.antt =====
-- Two documents with a server of one name.
use lowcode_wrapper.Base.{none, List, [], ◌∷◌, find, Text, text, text_eq, trim_space, ok, ◌≡◌, refl}
use lowcode_wrapper.Importer.Merge.{
  DeclServer, DeclTable, DeclarativeDoc, credential_key, server_key, table_key, function_key,
  merge_declarative_docs,
}
use lowcode_wrapper.Importer.Merge.Keyed.{has_key, find_last}
use lowcode_wrapper.Importer.Merge.Overriding.{all_of, merge_declarative_docs-last}

abbrev server : Text → Text → DeclServer
server name protocol = record {
  name = name;
  protocol = protocol;
  credential = [];
  enabled = none;
  options = [];
}

abbrev table : Text → Text → DeclTable
table name schema = record {
  server = text "pg";
  schema = schema;
  name = name;
  remote_name = [];
  key_columns = [];
  options = [];
  columns = [];
}

abbrev doc : List DeclServer → List DeclTable → DeclarativeDoc
doc servers tables = record { credentials = []; servers = servers; tables = tables; functions = [] }

abbrev two_docs : List DeclarativeDoc
two_docs =
    doc (server (text "pg") (text "postgres") ∷ []) (table (text "users") [] ∷ [])
    ∷ doc (server (text "pg ") (text "mysql") ∷ []) (table (text "users") (text "public") ∷ [])
    ∷ []

abbrev one_doc : DeclarativeDoc
one_doc = doc (server (text "pg ") (text "mysql") ∷ []) (table (text "users") (text "public") ∷ [])

merges : merge_declarative_docs two_docs ≡ ok one_doc
unfolding merge_declarative_docs trim_space text_eq
merges = refl

merge_declarative_docs-last_example :
    (find (has_key credential_key (text "pg")) one_doc.credentials
      ≡ find_last (has_key credential_key (text "pg")) (all_of (λ d. d.credentials) two_docs))
    × (find (has_key server_key (text "pg")) one_doc.servers
        ≡ find_last (has_key server_key (text "pg")) (all_of (λ d. d.servers) two_docs))
    × (find (has_key table_key (text "pg")) one_doc.tables
        ≡ find_last (has_key table_key (text "pg")) (all_of (λ d. d.tables) two_docs))
    × (find (has_key function_key (text "pg")) one_doc.functions
        ≡ find_last (has_key function_key (text "pg")) (all_of (λ d. d.functions) two_docs))
merge_declarative_docs-last_example =
    merge_declarative_docs-last two_docs one_doc (text "pg") merges refl

abbrev in_default : DeclTable
in_default = table (text "users") []

abbrev in_public : DeclTable
in_public = table (text "users ") (text " public")
