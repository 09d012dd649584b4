-- ===== src/FileStore/Compile/Closed.antt =====
-- The references in a compiled snapshot.
use mathlib.Core.Path.{subst}
use lowcode_wrapper.Base.{
  ℕ, ◌+◌, true, Option, none, some, List, [], ◌∷◌, ◌++◌, any, owned, Text, trim_space, is_empty, ok,
  ◌==◌, ◌≡◌, refl, arith, Bool-cases, Option-cases, inl, inr,
}
use lowcode_wrapper.Models.{Uuid, Fields}
use lowcode_wrapper.FileStore.Records.{ServerRecord, TableRecord, Snapshot}
use lowcode_wrapper.FileStore.References.{reference_held}
use lowcode_wrapper.FileStore.Declarative.{
  DeclCredential, DeclServer, DeclColumn, DeclTable, DeclFunction, DeclarativeDoc,
}
use lowcode_wrapper.FileStore.Compile.{
  Source, Compiler, id_of, start, each, register_cred, compile_credentials, credential_ref_of,
  compile_server, compile_columns, column_record, compile_table, compile_function,
  compile_declarative,
}
use lowcode_wrapper.FileStore.Compile.Rules.{
  Then, Then-imp, >>=-Then, each-Then, new_credential, new_server, new_table, new_function,
  register_cred-Then, compile_credentials-Then, compile_server-Then, compile_table-Then,
  compile_function-Then,
}
use lowcode_wrapper.FileStore.Compile.Sound.{
  cred_of, server_of, IsClosed, IsSound, id_of-listed, any-snoc, add_credential-IsSound,
  add_server-IsSound, table_of, column_table, add_table-IsSound, add_function-IsSound,
}

module _ (src : Source) where
  -- The registered credential is listed.
  abbrev Registered : Uuid × Compiler → Type 0
  Registered (id, st) = IsSound st × (any (λ c. cred_of c == id) st.out.credentials ≡ true)

  register_cred-IsSound :
      (given : Text) (fields : Fields) (st : Compiler)
      → IsSound st
      → Then Registered (register_cred src given fields st)
  register_cred-IsSound given fields st h =
      let name = trim_space given in
      register_cred-Then src Registered given fields st
        (λ id known.
          (h, id_of-listed cred_of st.out.credentials name st.cred_ids id known h.creds_listed))
        (λ payload.
          let rec = new_credential src name payload st in
          (
            add_credential-IsSound name rec (st.next + 1) st h,
            any-snoc (λ c. cred_of c == rec.id) st.out.credentials rec (ground arith),
          ))

  Registered-IsSound : (r : Uuid × Compiler) → Registered r → IsSound r.1
  Registered-IsSound (id, st) h = h.0

  compile_credentials-IsSound :
      (cs : List DeclCredential) (st : Compiler)
      → IsSound st
      → Then IsSound (compile_credentials src cs st)
  compile_credentials-IsSound = compile_credentials-Then src IsSound (λ given fields st h.
      Then-imp Registered (λ (r : Uuid × Compiler). IsSound r.1) Registered-IsSound
        (register_cred src given fields st) (register_cred-IsSound given fields st h))

  -- The reference that a server gets.
  abbrev Referred : Option Uuid × Compiler → Type 0
  Referred (none, st) = IsSound st
  Referred (some id, st) = IsSound st × (any (λ c. cred_of c == id) st.out.credentials ≡ true)

  credential_ref_of-IsSound :
      (name : Text) (s : DeclServer) (st : Compiler)
      → IsSound st
      → Then Referred (credential_ref_of src name s st)
  unfolding credential_ref_of
  credential_ref_of-IsSound name s st h = elim (Bool-cases (is_empty s.credential.fields)) [
    | inr given ↦ rw given (
        >>=-Then Registered Referred (register_cred src name s.credential.fields st)
          (λ r. ok (some r.0, r.1)) (register_cred-IsSound name s.credential.fields st h)
          (λ r k. k))
    | inl absent ↦ elim (Bool-cases (is_empty (trim_space s.credential.name))) [
      | inl none_named ↦ rw (absent, none_named) h
      | inr named ↦ elim (Option-cases (id_of (trim_space s.credential.name) st.cred_ids)) [
        | inl unknown ↦ rw (absent, named, unknown) tt
        | inr (id, known) ↦
            rw (absent, named, known)
              (
                h,
                id_of-listed cred_of st.out.credentials (trim_space s.credential.name) st.cred_ids
                    id known h.creds_listed,
              )
      ]
    ]
  ]

  Referred-IsSound : (r : Option Uuid × Compiler) → Referred r → IsSound r.1
  Referred-IsSound (none, st) h = h
  Referred-IsSound (some id, st) h = h.0

  Referred-held :
      (rec : ServerRecord) (r : Option Uuid × Compiler)
      → rec.credential_ref ≡ r.0
      → Referred r
      → reference_held r.1.out.credentials rec ≡ true
  Referred-held rec (none, st) e h = rw e refl
  Referred-held rec (some id, st) e h = rw e h.1

  compile_server-IsSound :
      (s : DeclServer) (st : Compiler) → IsSound st → Then IsSound (compile_server src s st)
  compile_server-IsSound s st h =
      compile_server-Then src Referred IsSound s st
        (credential_ref_of-IsSound (trim_space s.name) s st h)
        (λ opts r k.
          let rec = new_server src s opts r in
          add_server-IsSound (trim_space s.name) rec (r.1.next + 1) r.1 (Referred-held rec r refl k)
            (Referred-IsSound r k))

  compile_columns-owned :
      (owners : List TableRecord) (id : Uuid)
      → any (λ t. table_of t == id) owners ≡ true
      → (i n : ℕ) (cs : List DeclColumn)
      → owned table_of column_table owners (compile_columns src id i n cs).1 ≡ true
  unfolding compile_columns column_record
  compile_columns-owned owners id h i n [] = refl
  compile_columns-owned owners id h i n (c ∷ cs) =
      elim (Bool-cases (is_empty (trim_space c.name))) [
        | inl blank ↦ rw blank (compile_columns-owned owners id h (i + 1) n cs)
        | inr named ↦
            rw named (ground (arith, h, compile_columns-owned owners id h (i + 1) (n + 1) cs))
      ]

  compile_table-IsSound :
      (t : DeclTable) (st : Compiler) → IsSound st → Then IsSound (compile_table src t st)
  compile_table-IsSound t st h = compile_table-Then src IsSound t st (λ srv opts known.
      let rec = new_table src t srv opts st in
      let cols = compile_columns src rec.id 0 (st.next + 1) t.columns in
      add_table-IsSound rec cols.1 cols.0 st
        (id_of-listed server_of st.out.servers (trim_space t.server) st.server_ids srv known
          h.servers_listed)
        (compile_columns-owned (st.out.tables ++ rec ∷ []) rec.id
          (any-snoc (λ v. table_of v == rec.id) st.out.tables rec (ground arith)) 0 (st.next + 1)
          t.columns)
        h)

  compile_function-IsSound :
      (f : DeclFunction) (st : Compiler) → IsSound st → Then IsSound (compile_function src f st)
  compile_function-IsSound f st h = compile_function-Then src IsSound f st (λ srv opts known.
      add_function-IsSound (new_function src f srv opts st) (st.next + 1) st
        (id_of-listed server_of st.out.servers (trim_space f.server) st.server_ids srv known
          h.servers_listed)
        h)

start-IsSound : IsSound start
start-IsSound = record {
  closed = record {
    references = refl;
    tables_owned = refl;
    functions_owned = refl;
    columns_owned = refl;
  };
  creds_listed = refl;
  servers_listed = refl;
}

pub compiled : (src : Source) (doc : DeclarativeDoc) → Then IsClosed (compile_declarative src doc)
unfolding compile_declarative
compiled src doc =
    let creds = compile_credentials-IsSound src doc.credentials start start-IsSound in
    let servers =
      >>=-Then IsSound IsSound (compile_credentials src doc.credentials start)
        (each (compile_server src) doc.servers) creds
        (each-Then IsSound (compile_server src) (compile_server-IsSound src) doc.servers) in
    let tables =
      >>=-Then IsSound IsSound _ (each (compile_table src) doc.tables) servers
        (each-Then IsSound (compile_table src) (compile_table-IsSound src) doc.tables) in
    let functions =
      >>=-Then IsSound IsSound _ (each (compile_function src) doc.functions) tables
        (each-Then IsSound (compile_function src) (compile_function-IsSound src) doc.functions) in
    >>=-Then IsSound IsClosed _ (λ st. ok st.out) functions (λ st k. k.closed)

-- Every document that compiles gives a snapshot that is closed, whatever its names and credentials: a
-- server's credential is listed, as are the server of each table and function and the table of each
-- column.
pub compile_declarative-IsClosed :
    (src : Source) (doc : DeclarativeDoc) (s : Snapshot)
    → compile_declarative src doc ≡ ok s
    → IsClosed s
compile_declarative-IsClosed src doc s e = subst (Then IsClosed) e (compiled src doc)
