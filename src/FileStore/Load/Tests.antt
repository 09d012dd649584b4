-- ===== src/FileStore/Load/Tests.antt =====
-- A drivers file with a credential by name, and a document with a credential of a server's name.
use lowcode_wrapper.Base.{
  suc, true, none, some, [], ◌∷◌, all, distinct, Text, text, text_eq, trim_space, ok, ◌≡◌, refl,
  map,
}
use lowcode_wrapper.Models.{Fields, str}
use lowcode_wrapper.FileStore.Records.{Snapshot, empty_snapshot, raw_to_node}
use lowcode_wrapper.FileStore.Samples.{plain}
use lowcode_wrapper.FileStore.Declarative.{
  DeclServer, DeclCredential, DeclarativeDoc, declarative_from_importer, declarative_to_importer,
}
use lowcode_wrapper.FileStore.Declarative.References.{
  unnamed, declarative_from_importer-declarative_to_importer,
}
use lowcode_wrapper.FileStore.Compile.{Source, compile_declarative}
use lowcode_wrapper.FileStore.Compile.Inline.{compile_declarative-inline}
use lowcode_wrapper.FileStore.Compile.Sound.{IsClosed}
use lowcode_wrapper.FileStore.Invariant.{same_server_name}
use lowcode_wrapper.FileStore.Load.{Yaml, load, import_declarative, is_declarative_yaml}
use lowcode_wrapper.FileStore.Load.Opened.{import_declarative-IsClosed, IsClosed-empty}
use lowcode_wrapper.FileStore.Load.Names.{load-opens}
use lowcode_wrapper.FileStore.Load.Lost.{unreferenced, load-unreferenced}

-- The UUIDs are 1, 2 and so on.
abbrev source : Source
source = record {
  env = plain;
  json_marshal = λ m. ok (text "{}");
  json_unmarshal = λ raw. [];
  uuid_string = λ id. text "id";
  getenv = λ key. [];
  fresh = λ n. suc n;
  now = 0;
}

abbrev by_name : DeclServer
by_name = record {
  name = text "pg";
  protocol = text "postgres";
  credential = record { name = text "shared"; fields = [] };
  enabled = none;
  options = [];
}

abbrev shared : DeclCredential
shared = record { name = text "shared"; fields = (text "dsn", str (text "x")) ∷ [] }

abbrev file_doc : DeclarativeDoc
file_doc = record { credentials = shared ∷ []; servers = by_name ∷ []; tables = []; functions = [] }

-- Every text is the file above.
abbrev yaml : Yaml
yaml = record {
  read_probe = λ raw.
      some (record { credentials = []; servers = []; tables = []; functions = text "pg" ∷ [] });
  read_doc = λ raw. ok file_doc;
  read_snapshot = λ raw. ok empty_snapshot;
}

abbrev raw : Text
raw = text "servers:"

abbrev loaded : Snapshot
loaded = record {
  credentials =
      record { id = 1; name = text "shared"; payload = text "sealed"; created_at = 0 } ∷ [];
  servers =
      record {
        id = 2;
        name = text "pg";
        protocol = text "postgres";
        options = text "{}";
        credential_ref = none;
        enabled = true;
        updated_at = 0;
      }
      ∷ [];
  tables = [];
  columns = [];
  functions = [];
}

loads : load source yaml (raw ∷ []) ≡ ok loaded
unfolding load trim_space text_eq raw_to_node
loads = refl

load-unreferenced_example : all unreferenced loaded.servers ≡ true
unfolding trim_space is_declarative_yaml
load-unreferenced_example =
    load-unreferenced source yaml raw file_doc loaded refl refl refl refl loads

load-opens_example : IsClosed loaded × (distinct same_server_name loaded.servers ≡ true)
unfolding is_declarative_yaml trim_space
load-opens_example = load-opens source yaml (raw ∷ []) loaded refl loads

import_declarative-IsClosed_example :
    IsClosed
      (import_declarative source (text "merge") (declarative_to_importer file_doc) empty_snapshot).1
import_declarative-IsClosed_example =
    import_declarative-IsClosed source (text "merge") (declarative_to_importer file_doc)
      empty_snapshot IsClosed-empty

declarative_from_importer-declarative_to_importer_example :
    declarative_from_importer (declarative_to_importer file_doc)
    ≡ record file_doc { servers = map unnamed file_doc.servers }
declarative_from_importer-declarative_to_importer_example =
    declarative_from_importer-declarative_to_importer file_doc

abbrev taken : DeclCredential
taken = record shared { name = text "pg" }

abbrev secret : Text → Fields
secret dsn = (text "dsn", str dsn) ∷ []

abbrev with_secret : Fields → DeclarativeDoc
with_secret fields = record {
  credentials = taken ∷ [];
  servers = by_name ∷ record by_name { credential = record { name = []; fields = fields } } ∷ [];
  tables = [];
  functions = [];
}

compile_declarative-inline_example :
    compile_declarative source (with_secret (secret (text "a")))
    ≡ compile_declarative source (with_secret (secret (text "b")))
unfolding trim_space text_eq
compile_declarative-inline_example =
    compile_declarative-inline source (taken ∷ []) (by_name ∷ []) by_name [] [] []
      (secret (text "a")) (secret (text "b")) refl refl refl refl
