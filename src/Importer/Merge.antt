-- ===== src/Importer/Merge.antt =====
-- internal/importer/merge.go and types.go: the merge of declarative documents. A Go map is the list of
-- its entries, in the order in which their keys came; its walk at the end has no fixed order in Go.
pub mod Keyed
pub mod Gather
pub mod Overriding
pub mod Distinct
pub mod Keys
use lowcode_wrapper.Base.{
  Bool, Option, List, [], ◌∷◌, ◌++◌, map, is_empty, Text, text, text_eq, trim_space, if◌then◌else◌,
  ◌||◌, ℤ, Result, ok, err, ◌>>=◌,
}
use lowcode_wrapper.Models.{Fields}

pub record DeclCredential : Type 0 where
  pub name : Text
  -- `Data`, a word of the language
  pub fields : Fields

pub record DeclServer : Type 0 where
  pub name : Text
  pub protocol : Text
  pub credential : Fields
  pub enabled : Option Bool
  pub options : Fields

pub record DeclColumn : Type 0 where
  pub name : Text
  pub data_type : Text
  pub remote_name : Text
  pub nullable : Option Bool
  pub position : ℤ

pub record DeclTable : Type 0 where
  pub server : Text
  pub schema : Text
  pub name : Text
  pub remote_name : Text
  pub key_columns : List Text
  pub options : Fields
  pub columns : List DeclColumn

pub record DeclFunction : Type 0 where
  pub server : Text
  pub schema : Text
  pub name : Text
  pub operation : Text
  pub remote_path : Text
  pub method : Text
  pub options : Fields

pub record DeclarativeDoc : Type 0 where
  pub credentials : List DeclCredential
  pub servers : List DeclServer
  pub tables : List DeclTable
  pub functions : List DeclFunction

pub data MergeError : Type 0 where
  server_name_required : MergeError

-- `schema + "\x00" + name + "\x00" + server`, or nothing without a server or a name.
unfoldable pub joined_key : Text → Text → Text → Text
joined_key server schema name =
    let sv = trim_space server in
    let n = trim_space name in
    let sc = trim_space schema in
    if is_empty sv || is_empty n
    then []
    else (if is_empty sc then text "public" else sc) ++ 0 ∷ (n ++ 0 ∷ sv)

unfoldable pub table_key : DeclTable → Text
unfolding joined_key
table_key t = joined_key t.server t.schema t.name

unfoldable pub function_key : DeclFunction → Text
unfolding joined_key
function_key f = joined_key f.server f.schema f.name

unfoldable pub credential_key : DeclCredential → Text
credential_key c = trim_space c.name

unfoldable pub server_key : DeclServer → Text
server_key s = trim_space s.name

-- `m[k] = v`
unfoldable pub put : {A : Type 0} → Text → A → List (Text × A) → List (Text × A)
put k v [] = (k, v) ∷ []
put k v ((j, w) ∷ m) = let rest = put k v m in if text_eq j k then (j, v) ∷ m else (j, w) ∷ rest

-- The loop over one kind of entries, which skips those without a key.
unfoldable pub put_all : {A : Type 0} → (A → Text) → List A → List (Text × A) → List (Text × A)
unfolding put
put_all key [] m = m
put_all key (x ∷ xs) m = put_all key xs (if is_empty (key x) then m else put (key x) x m)

-- The loop over the servers, of which each needs a name.
unfoldable pub put_servers :
    List DeclServer → List (Text × DeclServer) → Result MergeError (List (Text × DeclServer))
unfolding put server_key
put_servers [] m = ok m
put_servers (s ∷ servers) m =
    let rest = put_servers servers (put (server_key s) s m) in
    if is_empty (server_key s) then err server_name_required else rest

pub record Merged : Type 0 where
  pub creds : List (Text × DeclCredential)
  pub servers : List (Text × DeclServer)
  pub tables : List (Text × DeclTable)
  pub functions : List (Text × DeclFunction)

-- The body of the loop over the documents.
unfoldable pub merge_doc : DeclarativeDoc → Merged → Result MergeError Merged
unfolding put_all put_servers credential_key table_key function_key
merge_doc doc m = put_servers doc.servers m.servers >>= (λ servers. ok record {
  creds = put_all credential_key doc.credentials m.creds;
  servers = servers;
  tables = put_all table_key doc.tables m.tables;
  functions = put_all function_key doc.functions m.functions;
})

unfoldable pub merge_docs : List DeclarativeDoc → Merged → Result MergeError Merged
unfolding merge_doc
merge_docs [] m = ok m
merge_docs (doc ∷ docs) m = merge_doc doc m >>= merge_docs docs

abbrev pub values : {A : Type 0} → List (Text × A) → List A
values = map (λ e. e.1)

abbrev pub no_entries : Merged
no_entries = record { creds = []; servers = []; tables = []; functions = [] }

unfoldable pub merge_declarative_docs : List DeclarativeDoc → Result MergeError DeclarativeDoc
unfolding merge_docs
merge_declarative_docs docs = merge_docs docs no_entries >>= (λ m. ok record {
  credentials = values m.creds;
  servers = values m.servers;
  tables = values m.tables;
  functions = values m.functions;
})
