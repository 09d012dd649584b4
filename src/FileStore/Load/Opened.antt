-- ===== src/FileStore/Load/Opened.antt =====
-- What a load or an import leaves in the store.
use mathlib.Core.Path.{subst}
use lowcode_wrapper.Base.{
  Bool, true, ◌||◌, List, [], ◌∷◌, ◌++◌, all, Text, trim_space, is_empty, Result, Result-cases, ok,
  err, ◌≡◌, refl, arith, Bool-cases, Option-cases, inl, inr,
}
use lowcode_wrapper.Importer.Merge.{DeclarativeDoc as ImportedDoc, MergeError}
use lowcode_wrapper.FileStore.Records.{Snapshot, empty_snapshot}
use lowcode_wrapper.FileStore.Declarative.{declarative_from_importer, declarative_to_importer}
use lowcode_wrapper.FileStore.Compile.{Source, CompileError, compile_declarative}
use lowcode_wrapper.FileStore.Compile.Sound.{IsClosed}
use lowcode_wrapper.FileStore.Compile.Closed.{compiled}
use lowcode_wrapper.FileStore.Compile.Rules.{Then, Always, always, >>=-Then}
use lowcode_wrapper.FileStore.Invariant.{with_lock-keeps}
use lowcode_wrapper.FileStore.Load.{
  Yaml, Loaded, documents, legacy, merge_step, compiled_or_failed, merged_or_failed, compile_step,
  load_files, is_declarative_yaml, finish_load, load, merged_doc, import_declarative,
}

pub IsClosed-empty : IsClosed empty_snapshot
IsClosed-empty = record {
  references = refl;
  tables_owned = refl;
  functions_owned = refl;
  columns_owned = refl;
}

-- The file is blank or in the declarative format.
abbrev pub is_new : Yaml → Text → Bool
is_new y raw = is_empty (trim_space raw) || is_declarative_yaml y raw

-- The loop ends with documents.
abbrev pub HasDocuments : Loaded → Type 0
HasDocuments (documents docs) = Unit
HasDocuments (legacy s) = ⊥

pub load_files-documents :
    (y : Yaml) (raws : List Text) (docs : List ImportedDoc)
    → all (is_new y) raws ≡ true
    → Then HasDocuments (load_files y raws docs)
unfolding load_files
load_files-documents y [] docs h = tt
load_files-documents y (raw ∷ raws) docs h = elim (Bool-cases (is_empty (trim_space raw))) [
  | inl blank ↦ rw blank (load_files-documents y raws docs (ground arith))
  | inr filled ↦ elim (Bool-cases (is_declarative_yaml y raw)) [
    | inr old ↦ absurd (ground arith)
    | inl new ↦ elim (Result-cases (y.read_doc raw)) [
      | inr (e, failed) ↦ rw (filled, new, failed) tt
      | inl (doc, read) ↦
          rw (filled, new, read)
            (load_files-documents y raws (docs ++ declarative_to_importer doc ∷ []) (ground arith))
    ]
  ]
]

pub merged-Then :
    (P : ImportedDoc → Type 0) (r : Result MergeError ImportedDoc)
    → ((out : ImportedDoc) → r ≡ ok out → P out)
    → Then P (merged_or_failed r)
merged-Then P (err e) h = tt
merged-Then P (ok out) h = h out refl

pub or_failed-Then :
    (P : Snapshot → Type 0) (r : Result CompileError Snapshot)
    → Then P r
    → Then P (compiled_or_failed r)
or_failed-Then P (err e) h = tt
or_failed-Then P (ok s) h = h

module _ (src : Source) where
  compile_step-IsClosed : (doc : ImportedDoc) → Then IsClosed (compile_step src doc)
  compile_step-IsClosed doc =
      or_failed-Then IsClosed (compile_declarative src (declarative_from_importer doc))
        (compiled src (declarative_from_importer doc))

  finish_load-IsClosed : (l : Loaded) → HasDocuments l → Then IsClosed (finish_load src l)
  unfolding finish_load
  finish_load-IsClosed (legacy s) h = absurd h
  finish_load-IsClosed (documents []) h = IsClosed-empty
  finish_load-IsClosed (documents (d ∷ docs)) h =
      >>=-Then Always IsClosed (merge_step (d ∷ docs)) (compile_step src) (always _)
        (λ doc _. compile_step-IsClosed doc)

  load-Then :
      (y : Yaml) (raws : List Text) → all (is_new y) raws ≡ true → Then IsClosed (load src y raws)
  unfolding load
  load-Then y [] h = elim (Option-cases (src.env.persist empty_snapshot)) [
    | inl written ↦ rw written IsClosed-empty
    | inr (e, failed) ↦ rw failed tt
  ]
  load-Then y (raw ∷ raws) h =
      >>=-Then HasDocuments IsClosed (load_files y (raw ∷ raws) []) (finish_load src)
        (load_files-documents y (raw ∷ raws) [] h) finish_load-IsClosed

  pub load-IsClosed :
      (y : Yaml) (raws : List Text) (s : Snapshot)
      → all (is_new y) raws ≡ true
      → load src y raws ≡ ok s
      → IsClosed s
  load-IsClosed y raws s h e = subst (Then IsClosed) e (load-Then y raws h)

  -- Whatever the document, the mode and the outcome of the import: a store whose references are closed
  -- has closed references afterwards.
  pub import_declarative-IsClosed :
      (mode : Text) (doc : ImportedDoc) (s : Snapshot)
      → IsClosed s
      → IsClosed (import_declarative src mode doc s).1
  unfolding import_declarative
  import_declarative-IsClosed mode doc s h = elim (Result-cases (merged_doc src mode doc s)) [
    | inr (e, refused) ↦ rw (refused, import_declarative) h
    | inl (merged, found) ↦ elim (Result-cases (compile_step src merged)) [
      | inr (e, refused) ↦ rw (found, refused, import_declarative) h
      | inl (snap, built) ↦
          rw (found, built, import_declarative)
            (with_lock-keeps IsClosed src.env (λ _. ok (tt, snap)) s h
              (subst (Then IsClosed) built (compile_step-IsClosed merged)))
    ]
  ]
