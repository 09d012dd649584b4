-- ===== src/FileStore/Load/Names.antt =====
-- The names of the servers that a load leaves.
use mathlib.Core.Path.{subst}
use mathlib.Core.List.{map-map}
use lowcode_wrapper.Base.{
  Bool, true, Option-cases, List, [], ◌∷◌, map, all, any, any_ext, distinct, Text, text_eq,
  text_eq_comm, trim_space, ok, ◌≡◌, refl, sym, ap, ◌∙◌, arith, inl, inr,
}
use lowcode_wrapper.Importer.Merge.{
  DeclServer as ImportedServer, DeclarativeDoc as ImportedDoc, server_key, merge_declarative_docs,
}
use lowcode_wrapper.Importer.Merge.Distinct.{same_key, merge_declarative_docs-distinct}
use lowcode_wrapper.FileStore.Records.{ServerRecord, Snapshot, empty_snapshot}
use lowcode_wrapper.FileStore.Declarative.{declarative_from_importer, server_from_importer}
use lowcode_wrapper.FileStore.Compile.{Source, compile_declarative}
use lowcode_wrapper.FileStore.Compile.Rules.{Then, Then-imp, >>=-Then}
use lowcode_wrapper.FileStore.Compile.Servers.{names, compile_declarative-names}
use lowcode_wrapper.FileStore.Compile.Sound.{IsClosed}
use lowcode_wrapper.FileStore.Invariant.{same_server_name}
use lowcode_wrapper.FileStore.Load.{
  Yaml, Loaded, documents, legacy, merge_step, compile_step, load_files, finish_load, load,
}
use lowcode_wrapper.FileStore.Load.Opened.{
  is_new, HasDocuments, load_files-documents, or_failed-Then, merged-Then, load-IsClosed,
}

any-map {ℓ κ} :
    {A : Type ℓ} {B : Type κ} (f : A → B) (q : B → Bool) (xs : List A)
    → any q (map f xs) ≡ any (λ x. q (f x)) xs
any-map f q [] = refl
any-map f q (x ∷ xs) = ground (arith, any-map f q xs)

distinct-map {ℓ κ} :
    {A : Type ℓ} {B : Type κ} (r : B → B → Bool) (f : A → B) (xs : List A)
    → distinct r (map f xs) ≡ distinct (λ a b. r (f a) (f b)) xs
distinct-map r f [] = refl
distinct-map r f (x ∷ xs) = ground (arith, any-map f (r (f x)) xs, distinct-map r f xs)

-- Texts with the arguments in the order of the store's tests.
abbrev same_text : Text → Text → Bool
same_text a b = text_eq b a

same_text-distinct : (ts : List Text) → distinct text_eq ts ≡ distinct same_text ts
same_text-distinct [] = refl
same_text-distinct (t ∷ ts) =
    ground (arith, any_ext (text_eq t) (same_text t) ts (text_eq_comm t), same_text-distinct ts)

-- From the keys of the documents to the names of the records.
distinct-names :
    (ss : List ImportedServer) (servers : List ServerRecord)
    → distinct (same_key server_key) ss ≡ true
    → names servers ≡ map (λ s. trim_space s.name) (map server_from_importer ss)
    → distinct same_server_name servers ≡ true
unfolding server_key server_from_importer
distinct-names ss servers d e =
    sym (distinct-map same_text (λ (v : ServerRecord). v.name) servers)
    ∙ ap (distinct same_text) (e ∙ map-map (λ s. trim_space s.name) server_from_importer ss)
    ∙ sym (same_text-distinct (map server_key ss))
    ∙ distinct-map text_eq server_key ss
    ∙ d

module _ (src : Source) where
  abbrev HasDistinctNames : Snapshot → Type 0
  HasDistinctNames s = distinct same_server_name s.servers ≡ true

  abbrev HasDistinctKeys : ImportedDoc → Type 0
  HasDistinctKeys doc = distinct (same_key server_key) doc.servers ≡ true

  compile_step-names :
      (doc : ImportedDoc) → HasDistinctKeys doc → Then HasDistinctNames (compile_step src doc)
  unfolding declarative_from_importer
  compile_step-names doc d =
      or_failed-Then HasDistinctNames (compile_declarative src (declarative_from_importer doc)) (
        Then-imp _ HasDistinctNames (λ s e. distinct-names doc.servers s.servers d e)
          (compile_declarative src (declarative_from_importer doc))
          (compile_declarative-names src (declarative_from_importer doc)))

  finish_load-names : (l : Loaded) → HasDocuments l → Then HasDistinctNames (finish_load src l)
  unfolding finish_load
  finish_load-names (legacy s) h = absurd h
  finish_load-names (documents []) h = refl
  finish_load-names (documents (d ∷ docs)) h =
      >>=-Then HasDistinctKeys HasDistinctNames (merge_step (d ∷ docs)) (compile_step src)
        (merged-Then HasDistinctKeys (merge_declarative_docs (d ∷ docs))
          (λ out e. (merge_declarative_docs-distinct (d ∷ docs) out e).1))
        compile_step-names

  load-names :
      (y : Yaml) (raws : List Text)
      → all (is_new y) raws ≡ true
      → Then HasDistinctNames (load src y raws)
  unfolding load
  load-names y [] h = elim (Option-cases (src.env.persist empty_snapshot)) [
    | inl written ↦ rw written refl
    | inr (e, failed) ↦ rw failed tt
  ]
  load-names y (raw ∷ raws) h =
      >>=-Then HasDocuments HasDistinctNames (load_files y (raw ∷ raws) []) (finish_load src)
        (load_files-documents y (raw ∷ raws) [] h) finish_load-names

  -- A store that starts from files in the declarative format, blank ones among them, has closed
  -- references: a server's credential is listed, as are the server of each table and function and the
  -- table of each column; and no two of its servers have the same name.
  pub load-opens :
      (y : Yaml) (raws : List Text) (s : Snapshot)
      → all (is_new y) raws ≡ true
      → load src y raws ≡ ok s
      → IsClosed s × (distinct same_server_name s.servers ≡ true)
  load-opens y raws s h e =
      (load-IsClosed src y raws s h e, subst (Then HasDistinctNames) e (load-names y raws h))
