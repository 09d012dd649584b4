-- ===== src/FileStore/Load.antt =====
-- internal/store/file: reading the drivers files (store.go, `load`; declarative.go, the test for a
-- declarative file) and importing a document (import.go). YAML is outside.
pub mod Opened
pub mod Lost
pub mod Names
mod Tests
use lowcode_wrapper.Base.{
  ℕ, zero, Bool, true, false, not, ◌&&◌, ◌||◌, Option, none, some, List, [], ◌∷◌, ◌++◌, any, length,
  keep, map, Text, text, text_lt, text_eq, trim_space, to_lower, has_suffix, if◌then◌else◌,
  is_empty, Result, ok, err, ◌>>=◌, ◌==◌,
}
use lowcode_wrapper.Base.Sort.{sort_slice}
use lowcode_wrapper.Models.{Uuid, Fields}
use lowcode_wrapper.Importer.Merge.{
  DeclarativeDoc as ImportedDoc, MergeError, merge_declarative_docs,
}
use lowcode_wrapper.FileStore.Records.{Snapshot, empty_snapshot, StoreError, Env, with_lock}
use lowcode_wrapper.FileStore.Declarative.{
  DeclarativeDoc, declarative_from_importer, declarative_to_importer,
}
use lowcode_wrapper.FileStore.Compile.{Source, CompileError, compile_declarative}
use lowcode_wrapper.FileStore.Decompile.{decompile_declarative}

-- The kind of a YAML node, with the value of a scalar.
pub data ProbeNode : Type 0 where
  mapping other : ProbeNode
  scalar : Text → ProbeNode

pub record ProbeCredential : Type 0 where
  pub fields : Fields
  pub payload : Text

pub record ProbeServer : Type 0 where
  pub id : Uuid
  pub protocol : Text
  pub credential : ProbeNode

pub record ProbeTable : Type 0 where
  pub server : Text
  pub server_id : Uuid

-- What `isDeclarativeYAML` looks at; a function is the name of its server.
pub record Probe : Type 0 where
  pub credentials : List ProbeCredential
  pub servers : List ProbeServer
  pub tables : List ProbeTable
  pub functions : List Text

-- `uuid.Nil`
abbrev pub nil_uuid : Uuid
nil_uuid = 0

unfoldable pub probe_server : ProbeServer → Bool
probe_server s =
    (not (is_empty (trim_space s.protocol)) && s.id == nil_uuid)
    || elim s.credential [ mapping ↦ true | scalar v ↦ not (is_empty v) | other ↦ false ]

-- The loops of `isDeclarativeYAML` after the probe was read.
unfoldable pub is_declarative_probe : Probe → Bool
unfolding probe_server
is_declarative_probe p =
    any (λ c. not (is_empty c.fields) && is_empty c.payload) p.credentials
    || any probe_server p.servers
    || any (λ t. not (is_empty t.server) && t.server_id == nil_uuid) p.tables
    || any (λ server. not (is_empty (trim_space server))) p.functions

-- The YAML library.
pub record Yaml : Type 0 where
  pub read_probe : Text → Option Probe
  pub read_doc : Text → Result Text DeclarativeDoc
  pub read_snapshot : Text → Result Text Snapshot

unfoldable pub is_declarative_yaml : Yaml → Text → Bool
unfolding is_declarative_probe
is_declarative_yaml y raw = elim (y.read_probe raw) [
  | none ↦ false
  | some p ↦ is_declarative_probe p
]

pub data LoadError : Type 0 where
  read_failed parse_failed persist_failed unsupported_mode : Text → LoadError
  merge_failed : MergeError → LoadError
  compile_failed : CompileError → LoadError
  store_failed : StoreError → LoadError

pub record DirEntry : Type 0 where
  pub name : Text
  pub is_dir : Bool

-- The files that `readDeclarativeSources` reads in a directory, in their order.
unfoldable pub source_names : List DirEntry → List Text
source_names entries = sort_slice text_lt (
    map (λ e. e.name)
      (keep
        (λ e.
          not e.is_dir
          && (has_suffix (to_lower e.name) (text ".yaml")
              || has_suffix (to_lower e.name) (text ".yml")))
        entries))

-- What the loop over the files ends with: the documents, or a file of the old format.
pub data Loaded : Type 0 where
  documents : List ImportedDoc → Loaded
  legacy : Snapshot → Loaded

abbrev pub merged_or_failed : Result MergeError ImportedDoc → Result LoadError ImportedDoc
merged_or_failed (err e) = err (merge_failed e)
merged_or_failed (ok doc) = ok doc

abbrev pub merge_step : List ImportedDoc → Result LoadError ImportedDoc
merge_step docs = merged_or_failed (merge_declarative_docs docs)

-- `CountResult`: servers, tables and functions.
unfoldable pub count_result : ImportedDoc → ℕ × ℕ × ℕ
count_result doc = (length doc.servers, length doc.tables, length doc.functions)

-- The loop over the files of `load`.
unfoldable pub load_files : Yaml → List Text → List ImportedDoc → Result LoadError Loaded
unfolding is_declarative_yaml declarative_to_importer
load_files y [] docs = ok (documents docs)
load_files y (raw ∷ raws) docs =
    let skipped = load_files y raws docs in
    let read : Result LoadError Loaded = elim (y.read_doc raw) [
      | err e ↦ err (parse_failed e)
      | ok doc ↦ load_files y raws (docs ++ declarative_to_importer doc ∷ [])
    ] in
    let old : Result LoadError Loaded = elim (y.read_snapshot raw) [
      | err e ↦ err (parse_failed e)
      | ok s ↦ ok (legacy s)
    ] in
    if is_empty (trim_space raw) then skipped else if is_declarative_yaml y raw then read else old

abbrev pub compiled_or_failed : Result CompileError Snapshot → Result LoadError Snapshot
compiled_or_failed (err e) = err (compile_failed e)
compiled_or_failed (ok s) = ok s

module _ (src : Source) where
  abbrev pub compile_step : ImportedDoc → Result LoadError Snapshot
  compile_step doc = compiled_or_failed (compile_declarative src (declarative_from_importer doc))

  -- The end of `load`.
  unfoldable pub finish_load : Loaded → Result LoadError Snapshot
  unfolding merge_declarative_docs compile_declarative declarative_from_importer
  finish_load (legacy s) = ok s
  finish_load (documents docs) =
      if is_empty docs then ok empty_snapshot else merge_step docs >>= compile_step

  -- `load` of the files that were read: the snapshot that the store starts with.
  unfoldable pub load : Yaml → List Text → Result LoadError Snapshot
  unfolding load_files finish_load
  load y raws =
      if is_empty raws
      then elim (src.env.persist empty_snapshot) [
        | none ↦ ok empty_snapshot
        | some e ↦ err (persist_failed e)
      ]
      else load_files y raws [] >>= finish_load

  -- The document that `ImportDeclarative` compiles.
  unfoldable pub merged_doc : Text → ImportedDoc → Snapshot → Result LoadError ImportedDoc
  unfolding decompile_declarative declarative_to_importer merge_declarative_docs
  merged_doc mode doc s =
      if is_empty mode || text_eq mode (text "replace")
      then ok doc
      else if text_eq mode (text "merge")
      then elim (decompile_declarative src s) [
        | err e ↦ err (read_failed e)
        | ok current ↦ merge_step (declarative_to_importer current ∷ doc ∷ [])
      ]
      else err (unsupported_mode mode)

  -- What follows the compilation: the new snapshot takes the place of the old one under the lock.
  unfoldable pub replace_snapshot :
      ImportedDoc → Snapshot → Snapshot → Result LoadError (ℕ × ℕ × ℕ) × Snapshot
  unfolding with_lock count_result
  replace_snapshot merged snap s =
      let (done, t) = with_lock src.env (λ _. ok (tt, snap)) s in
      (elim done [ err e ↦ err (store_failed e) | ok _ ↦ ok (count_result merged) ], t)

  unfoldable pub import_declarative :
      Text → ImportedDoc → Snapshot → Result LoadError (ℕ × ℕ × ℕ) × Snapshot
  unfolding merged_doc compile_declarative declarative_from_importer replace_snapshot
  import_declarative mode doc s = elim (merged_doc mode doc s) [
    | err e ↦ (err e, s)
    | ok merged ↦ elim (compile_step merged) [
      | err e ↦ (err e, s)
      | ok snap ↦ replace_snapshot merged snap s
    ]
  ]
