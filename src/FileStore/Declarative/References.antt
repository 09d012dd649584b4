-- ===== src/FileStore/Declarative/References.antt =====
-- The way of a document through the importer's, which every load of a drivers file takes.
use mathlib.Core.Path.{fun_ext}
use mathlib.Core.List.{map-map, map-id}
use lowcode_wrapper.Base.{List, [], ◌∷◌, map, is_empty, if◌then◌else◌, ◌≡◌, refl, ap, ◌∙◌}
use lowcode_wrapper.Models.{Fields}
use lowcode_wrapper.FileStore.Declarative.{
  DeclServer, DeclColumn, DeclTable, DeclFunction, DeclarativeDoc, no_credential,
  declarative_from_importer, declarative_to_importer, server_from_importer, server_to_importer,
  table_from_importer, table_to_importer, column_from_importer, column_to_importer,
  function_from_importer, function_to_importer,
}

-- A credential by name is forgotten; an inline one stays without a name.
abbrev pub unnamed : DeclServer → DeclServer
unnamed s = record s { credential = record { name = []; fields = s.credential.fields } }

map-back {ℓ κ} :
    {A : Type ℓ} {B : Type κ} (f : A → B) (g : B → A) (h : A → A)
    → ((x : A) → g (f x) ≡ h x)
    → (xs : List A) → map g (map f xs) ≡ map h xs
map-back f g h e xs = map-map g f xs ∙ ap (λ k. map k xs) (fun_ext e)

inline_kept :
    (fields : Fields)
    → (if is_empty (if is_empty fields then [] else fields)
        then no_credential
        else record { name = []; fields = if is_empty fields then [] else fields })
      ≡ record { name = []; fields = fields }
inline_kept [] = refl
inline_kept (e ∷ fields) = refl

server_back : (s : DeclServer) → server_from_importer (server_to_importer s) ≡ unnamed s
unfolding server_from_importer server_to_importer
server_back s = ap (λ c. record s { credential = c }) (inline_kept s.credential.fields)

columns_back : (cs : List DeclColumn) → map column_from_importer (map column_to_importer cs) ≡ cs
unfolding column_from_importer column_to_importer
columns_back cs =
    map-back column_to_importer column_from_importer (λ c. c) (λ c. refl) cs ∙ map-id cs

table_back : (t : DeclTable) → table_from_importer (table_to_importer t) ≡ t
unfolding table_from_importer table_to_importer
table_back t = ap (λ cs. record t { columns = cs }) (columns_back t.columns)

function_back : (f : DeclFunction) → function_from_importer (function_to_importer f) ≡ f
unfolding function_from_importer function_to_importer
function_back f = refl

-- A document that goes to the importer and back is the same, but for the servers' references to
-- credentials by name, which are lost: every server is left with its inline credential, if it has one.
pub declarative_from_importer-declarative_to_importer :
    (doc : DeclarativeDoc)
    → declarative_from_importer (declarative_to_importer doc)
      ≡ record doc { servers = map unnamed doc.servers }
unfolding declarative_from_importer declarative_to_importer
declarative_from_importer-declarative_to_importer doc =
    let creds =
      map-map (λ c. record { name = c.name; fields = c.fields })
        (λ c. record { name = c.name; fields = c.fields }) doc.credentials
      ∙ map-id doc.credentials in
    let servers =
      map-back server_to_importer server_from_importer unnamed server_back doc.servers in
    let tables =
      map-back table_to_importer table_from_importer (λ t. t) table_back doc.tables
      ∙ map-id doc.tables in
    let functions =
      map-back function_to_importer function_from_importer (λ f. f) function_back doc.functions
      ∙ map-id doc.functions in
    λ i. record {
      credentials = creds i;
      servers = servers i;
      tables = tables i;
      functions = functions i;
    }
