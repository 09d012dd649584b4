-- ===== src/FileStore/Load/Lost.antt =====
-- Credentials that a drivers file gives by name.
use mathlib.Core.Path.{subst}
use lowcode_wrapper.Base.{
  Bool, true, false, not, ◌&&◌, Option, none, is_some, List, [], ◌∷◌, map, all, all-append, Text,
  trim_space, is_empty, ok, ◌≡◌, refl, ap, ◌∙◌, arith, Bool-cases, inl, inr,
}
use lowcode_wrapper.Models.{Uuid}
use lowcode_wrapper.Importer.Merge.{
  DeclServer as ImportedServer, DeclarativeDoc as ImportedDoc, server_key, put, put_all, values,
  merge_declarative_docs,
}
use lowcode_wrapper.Importer.Merge.Overriding.{merge_declarative_docs_ok}
use lowcode_wrapper.FileStore.Records.{ServerRecord, Snapshot}
use lowcode_wrapper.FileStore.Declarative.{
  DeclServer, DeclarativeDoc, declarative_from_importer, declarative_to_importer,
  server_from_importer, server_to_importer,
}
use lowcode_wrapper.FileStore.Compile.{
  Source, Compiler, each, credential_ref_of, compile_server, compile_declarative,
}
use lowcode_wrapper.FileStore.Compile.Rules.{Then, >>=-Then, new_server, compile_server-Then}
use lowcode_wrapper.FileStore.Compile.Servers.{OnServers, compile_declarative-OnServers}
use lowcode_wrapper.FileStore.Load.Opened.{or_failed-Then, merged-Then}
use lowcode_wrapper.FileStore.Load.{
  Yaml, documents, is_declarative_yaml, merge_step, compile_step, load_files, finish_load, load,
}

module _ {A : Type 0} (p : A → Bool) where
  all-put :
      (k : Text) (v : A) (m : List (Text × A))
      → p v ≡ true
      → all p (values m) ≡ true
      → all p (values (put k v m)) ≡ true
  unfolding put
  all-put k v [] h a = ground arith
  all-put k v ((j, w) ∷ m) h a = ground (arith, all-put k v m)

  all-put_all :
      (key : A → Text) (xs : List A) (m : List (Text × A))
      → all p xs ≡ true
      → all p (values m) ≡ true
      → all p (values (put_all key xs m)) ≡ true
  unfolding put_all
  all-put_all key [] m h a = a
  all-put_all key (x ∷ xs) m h a = elim (Bool-cases (is_empty (key x))) [
    | inl skipped ↦ rw skipped (all-put_all key xs m (ground arith) a)
    | inr stored ↦
        rw stored (
          all-put_all key xs (put (key x) x m) (ground arith)
            (all-put (key x) x m (ground arith) a))
  ]

-- Without a secret of its own.
abbrev pub no_secret : DeclServer → Bool
no_secret s = is_empty s.credential.fields

abbrev no_imported_secret : ImportedServer → Bool
no_imported_secret s = is_empty s.credential

abbrev bare : DeclServer → Bool
bare s = is_empty s.credential.fields && is_empty (trim_space s.credential.name)

abbrev pub unreferenced : ServerRecord → Bool
unreferenced v = not (is_some v.credential_ref)

to_importer-no_secret :
    (ss : List DeclServer)
    → all no_secret ss ≡ true
    → all no_imported_secret (map server_to_importer ss) ≡ true
unfolding server_to_importer
to_importer-no_secret [] h = refl
to_importer-no_secret (s ∷ ss) h = ground (arith, to_importer-no_secret ss)

from_importer-bare :
    (ss : List ImportedServer)
    → all no_imported_secret ss ≡ true
    → all bare (map server_from_importer ss) ≡ true
unfolding server_from_importer trim_space
from_importer-bare [] h = refl
from_importer-bare (s ∷ ss) h = ground (arith, from_importer-bare ss)

module _ (src : Source) where
  abbrev Unreferenced : List ServerRecord → Type 0
  Unreferenced servers = all unreferenced servers ≡ true

  -- No reference, and none before.
  abbrev None : Option Uuid × Compiler → Type 0
  None r = (r.0 ≡ none) × OnServers Unreferenced r.1

  credential_ref_of-bare :
      (name : Text) (s : DeclServer) (st : Compiler)
      → bare s ≡ true
      → OnServers Unreferenced st
      → Then None (credential_ref_of src name s st)
  unfolding credential_ref_of
  credential_ref_of-bare name s st b h =
      let blank : is_empty (trim_space s.credential.name) ≡ true = ground arith in
      let absent : is_empty s.credential.fields ≡ true = ground arith in
      rw (absent, blank) (refl, h)

  each-bare :
      (ss : List DeclServer) (st : Compiler)
      → all bare ss ≡ true
      → OnServers Unreferenced st
      → Then (OnServers Unreferenced) (each (compile_server src) ss st)
  each-bare [] st b h = h
  each-bare (s ∷ ss) st b h =
      >>=-Then (OnServers Unreferenced) (OnServers Unreferenced) (compile_server src s st)
        (each (compile_server src) ss)
        (compile_server-Then src None (OnServers Unreferenced) s st
          (credential_ref_of-bare (trim_space s.name) s st (ground arith) h)
          (λ opts r k.
            all-append unreferenced r.1.out.servers (new_server src s opts r ∷ [])
            ∙ ground (arith, k.0, k.1)))
        (λ st' k. each-bare ss st' (ground arith) k)

  AllUnreferenced : Snapshot → Type 0
  AllUnreferenced s = all unreferenced s.servers ≡ true

  compile_step-bare :
      (doc : ImportedDoc)
      → all no_imported_secret doc.servers ≡ true
      → Then AllUnreferenced (compile_step src doc)
  unfolding declarative_from_importer AllUnreferenced
  compile_step-bare doc h =
      or_failed-Then AllUnreferenced (compile_declarative src (declarative_from_importer doc)) (
        compile_declarative-OnServers src Unreferenced (declarative_from_importer doc) (λ st empty.
          each-bare (map server_from_importer doc.servers) st (from_importer-bare doc.servers h)
            (ap (all unreferenced) empty)))

  merge_step-no_secret :
      (doc : DeclarativeDoc)
      → all no_secret doc.servers ≡ true
      → Then
          (λ (out : ImportedDoc). all no_imported_secret out.servers ≡ true)
          (merge_step (declarative_to_importer doc ∷ []))
  unfolding declarative_to_importer
  merge_step-no_secret doc h =
      merged-Then (λ out. all no_imported_secret out.servers ≡ true)
        (merge_declarative_docs (declarative_to_importer doc ∷ []))
        (λ out e.
          ap (λ d. all no_imported_secret d.servers)
            (merge_declarative_docs_ok (declarative_to_importer doc ∷ []) out e)
          ∙ all-put_all no_imported_secret server_key (map server_to_importer doc.servers) []
              (to_importer-no_secret doc.servers h) refl)

  load-Then :
      (y : Yaml) (raw : Text) (doc : DeclarativeDoc)
      → is_empty (trim_space raw) ≡ false
      → is_declarative_yaml y raw ≡ true
      → y.read_doc raw ≡ ok doc
      → all no_secret doc.servers ≡ true
      → Then AllUnreferenced (load src y (raw ∷ []))
  unfolding load
  load-Then y raw doc filled new read h =
      >>=-Then (λ l. l ≡ documents (declarative_to_importer doc ∷ [])) AllUnreferenced
        (load_files y (raw ∷ []) []) (finish_load src) (rw (filled, new, read) refl)
        (λ l e. rw e (
          unfold finish_load in
          >>=-Then (λ (out : ImportedDoc). all no_imported_secret out.servers ≡ true)
            AllUnreferenced (merge_step (declarative_to_importer doc ∷ [])) (compile_step src)
            (merge_step-no_secret doc h) compile_step-bare))

  -- A store that starts from one declarative file whose servers have no secrets of their own has no
  -- server with a credential: those that the file gives by name are lost.
  pub load-unreferenced :
      (y : Yaml) (raw : Text) (doc : DeclarativeDoc) (s : Snapshot)
      → is_empty (trim_space raw) ≡ false
      → is_declarative_yaml y raw ≡ true
      → y.read_doc raw ≡ ok doc
      → all no_secret doc.servers ≡ true
      → load src y (raw ∷ []) ≡ ok s
      → all unreferenced s.servers ≡ true
  unfolding AllUnreferenced
  load-unreferenced y raw doc s filled new read h e =
      subst (Then AllUnreferenced) e (load-Then y raw doc filled new read h)
