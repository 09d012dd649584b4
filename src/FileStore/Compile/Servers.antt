-- ===== src/FileStore/Compile/Servers.antt =====
-- The servers of a compiled snapshot: the other steps leave them alone.
use mathlib.Core.List.{map-append, append_assoc, append-nil}
use lowcode_wrapper.Base.{
  Option, some, List, [], ◌∷◌, ◌++◌, map, Text, trim_space, is_empty, ok, ◌≡◌, refl, sym, ap, ◌∙◌,
  Bool-cases, Option-cases, inl, inr,
}
use lowcode_wrapper.Models.{Uuid, Fields}
use lowcode_wrapper.FileStore.Records.{ServerRecord, Snapshot}
use lowcode_wrapper.FileStore.Declarative.{DeclCredential, DeclServer, DeclarativeDoc}
use lowcode_wrapper.FileStore.Compile.{
  Source, Compiler, id_of, start, each, register_cred, compile_credentials, credential_ref_of,
  compile_server, compile_table, compile_function, compile_declarative,
}
use lowcode_wrapper.FileStore.Compile.Rules.{
  Then, Then-imp, >>=-Then, each-Then, new_server, register_cred-Then, compile_credentials-Then,
  compile_server-Then, compile_table-Then, compile_function-Then,
}

-- A predicate on the servers, at a state.
abbrev pub OnServers : (List ServerRecord → Type 0) → Compiler → Type 0
OnServers Q st = Q st.out.servers

module _ (src : Source) (Q : List ServerRecord → Type 0) where
  register_cred-OnServers :
      (given : Text) (fields : Fields) (st : Compiler)
      → OnServers Q st
      → Then (λ (r : Uuid × Compiler). OnServers Q r.1) (register_cred src given fields st)
  register_cred-OnServers given fields st h =
      register_cred-Then src (λ r. OnServers Q r.1) given fields st (λ id known. h) (λ payload. h)

  compile_credentials-OnServers :
      (cs : List DeclCredential) (st : Compiler)
      → OnServers Q st
      → Then (OnServers Q) (compile_credentials src cs st)
  compile_credentials-OnServers = compile_credentials-Then src (OnServers Q) register_cred-OnServers

  pub credential_ref_of-OnServers :
      (name : Text) (s : DeclServer) (st : Compiler)
      → OnServers Q st
      → Then (λ (r : Option Uuid × Compiler). OnServers Q r.1) (credential_ref_of src name s st)
  unfolding credential_ref_of
  credential_ref_of-OnServers name s st h = elim (Bool-cases (is_empty s.credential.fields)) [
    | inr given ↦ rw given (
        >>=-Then (λ (r : Uuid × Compiler). OnServers Q r.1)
          (λ (r : Option Uuid × Compiler). OnServers Q r.1)
          (register_cred src name s.credential.fields st) (λ r. ok (some r.0, r.1))
          (register_cred-OnServers name s.credential.fields st h) (λ r k. k))
    | inl absent ↦ elim (Bool-cases (is_empty (trim_space s.credential.name))) [
      | inl unnamed ↦ rw (absent, unnamed) h
      | inr named ↦ elim (Option-cases (id_of (trim_space s.credential.name) st.cred_ids)) [
        | inl unknown ↦ rw (absent, named, unknown) tt
        | inr (id, known) ↦ rw (absent, named, known) h
      ]
    ]
  ]

-- What the loop over the servers makes of the empty list, the result holds.
pub compile_declarative-OnServers :
    (src : Source) (Q : List ServerRecord → Type 0) (doc : DeclarativeDoc)
    → ((st : Compiler)
        → OnServers (λ servers. servers ≡ []) st
        → Then (OnServers Q) (each (compile_server src) doc.servers st))
    → Then (λ (s : Snapshot). Q s.servers) (compile_declarative src doc)
unfolding compile_declarative
compile_declarative-OnServers src Q doc servers =
    >>=-Then (OnServers Q) (λ (s : Snapshot). Q s.servers) _ (λ st. ok st.out)
      (>>=-Then (OnServers Q) (OnServers Q) _ (each (compile_function src) doc.functions)
        (>>=-Then (OnServers Q) (OnServers Q) _ (each (compile_table src) doc.tables)
          (>>=-Then (OnServers (λ servers. servers ≡ [])) (OnServers Q)
            (compile_credentials src doc.credentials start) (each (compile_server src) doc.servers)
            (compile_credentials-OnServers src (λ servers. servers ≡ []) doc.credentials start refl)
            servers)
          (each-Then (OnServers Q) (compile_table src)
            (λ t st h. compile_table-Then src (OnServers Q) t st (λ srv opts known. h)) doc.tables))
        (each-Then (OnServers Q) (compile_function src)
          (λ f st h. compile_function-Then src (OnServers Q) f st (λ srv opts known. h))
          doc.functions))
      (λ st h. h)

abbrev pub names : List ServerRecord → List Text
names = map (λ v. v.name)

module _ (src : Source) where
  each-names :
      (xs : List DeclServer) (st : Compiler)
      → Then
          (OnServers
            (λ servers. names servers ≡ names st.out.servers ++ map (λ s. trim_space s.name) xs))
          (each (compile_server src) xs st)
  each-names [] st = sym (append-nil (names st.out.servers))
  each-names (s ∷ xs) st =
      >>=-Then
        (OnServers (λ servers. names servers ≡ names st.out.servers ++ trim_space s.name ∷ [])) _
        (compile_server src s st) (each (compile_server src) xs)
        (compile_server-Then src
          (λ (r : Option Uuid × Compiler). OnServers (λ servers. servers ≡ st.out.servers) r.1)
          (OnServers (λ servers. names servers ≡ names st.out.servers ++ trim_space s.name ∷ [])) s
          st
          (credential_ref_of-OnServers src (λ servers. servers ≡ st.out.servers) (trim_space s.name)
            s st refl)
          (λ opts r kept.
            map-append _ r.1.out.servers (new_server src s opts r ∷ [])
            ∙ ap (λ servers. names servers ++ trim_space s.name ∷ []) kept))
        (λ st' here.
          Then-imp _ _
            (λ st'' there.
              there
              ∙ ap (λ ns. ns ++ map (λ s. trim_space s.name) xs) here
              ∙ append_assoc (names st.out.servers) (trim_space s.name ∷ []) _)
            (each (compile_server src) xs st') (each-names xs st'))

  -- The servers of a compiled snapshot are those of the document, in order, under their names without
  -- the white space around them.
  pub compile_declarative-names :
      (doc : DeclarativeDoc)
      → Then
          (λ (s : Snapshot). names s.servers ≡ map (λ s. trim_space s.name) doc.servers)
          (compile_declarative src doc)
  compile_declarative-names doc =
      compile_declarative-OnServers src
        (λ servers. names servers ≡ map (λ s. trim_space s.name) doc.servers) doc
        (λ st empty.
          Then-imp _ _
            (λ st' h.
              h ∙ ap (λ servers. names servers ++ map (λ s. trim_space s.name) doc.servers) empty)
            (each (compile_server src) doc.servers st) (each-names doc.servers st))
