-- ===== src/FileStore/Compile/Rules.antt =====
-- Rules for what the compiler's steps leave behind: a step either fails, or extends the state by a
-- record.
use lowcode_wrapper.Base.{
  ℕ, ◌+◌, Bool, true, false, ◌||◌, Option, some, or_else, List, [], ◌∷◌, ◌++◌, Text, trim_space,
  if◌then◌else◌, is_empty, Result, Result-cases, ok, err, ◌>>=◌, ◌≡◌, Bool-cases, Option-cases, inl,
  inr,
}
use lowcode_wrapper.Models.{Uuid, Fields}
use lowcode_wrapper.FileStore.Records.{
  Node, CredentialRecord, ServerRecord, TableRecord, ColumnRecord, FunctionRecord,
}
use lowcode_wrapper.FileStore.Declarative.{DeclCredential, DeclServer, DeclTable, DeclFunction}
use lowcode_wrapper.FileStore.Compile.{
  Source, Compiler, Step, id_of, each, options_node, expand_env_map, register_cred,
  compile_credentials, credential_ref_of, finish_server, compile_server, server_requires,
  trimmed_schema, compile_columns, compile_table, compile_function,
}

-- What a step leaves when it succeeds.
abbrev pub Then : {E A : Type 0} → (A → Type 0) → Result E A → Type 0
Then P (ok a) = P a
Then P (err e) = Unit

pub >>=-Then :
    {E A B : Type 0} (P : A → Type 0) (Q : B → Type 0) (m : Result E A) (f : A → Result E B)
    → Then P m
    → ((a : A) → P a → Then Q (f a))
    → Then Q (m >>= f)
>>=-Then P Q (ok a) f h k = k a h
>>=-Then P Q (err e) f h k = tt

abbrev pub Always : {A : Type 0} → A → Type 0
Always a = Unit

pub always : {E A : Type 0} (m : Result E A) → Then Always m
always (ok a) = tt
always (err e) = tt

pub Then-imp :
    {E A : Type 0} (P Q : A → Type 0)
    → ((a : A) → P a → Q a)
    → (m : Result E A) → Then P m
    → Then Q m
Then-imp P Q f (ok a) h = f a h
Then-imp P Q f (err e) h = tt

pub if-Then :
    {E A : Type 0} (P : A → Type 0) (b : Bool) (m n : Result E A)
    → Then P m
    → Then P n
    → Then P (if b then m else n)
if-Then P true m n h k = h
if-Then P false m n h k = k

pub if_false-Then :
    {E A : Type 0} (P : A → Type 0) (b : Bool) (m n : Result E A)
    → b ≡ false
    → Then P n
    → Then P (if b then m else n)
if_false-Then P true m n e k = cc
if_false-Then P false m n e k = k

pub each-Then :
    {A : Type 0} (P : Compiler → Type 0) (body : A → Step)
    → ((x : A) (st : Compiler) → P st → Then P (body x st))
    → (xs : List A) (st : Compiler) → P st
    → Then P (each body xs st)
each-Then P body h [] st p = p
each-Then P body h (x ∷ xs) st p =
    >>=-Then P P (body x st) (each body xs) (h x st p) (each-Then P body h xs)

abbrev pub add_credential : Text → CredentialRecord → ℕ → Compiler → Compiler
add_credential name rec n st = record st {
  next = n;
  cred_ids = (name, rec.id) ∷ st.cred_ids;
  out = record st.out { credentials = st.out.credentials ++ rec ∷ [] };
}

abbrev pub add_server : Text → ServerRecord → ℕ → Compiler → Compiler
add_server name rec n st = record st {
  next = n;
  server_ids = (name, rec.id) ∷ st.server_ids;
  out = record st.out { servers = st.out.servers ++ rec ∷ [] };
}

abbrev pub add_table : TableRecord → List ColumnRecord → ℕ → Compiler → Compiler
add_table rec cols n st = record st {
  next = n;
  out = record st.out { tables = st.out.tables ++ rec ∷ []; columns = st.out.columns ++ cols };
}

abbrev pub add_function : FunctionRecord → ℕ → Compiler → Compiler
add_function rec n st = record st {
  next = n;
  out = record st.out { functions = st.out.functions ++ rec ∷ [] };
}

module _ (src : Source) where
  abbrev pub new_credential : Text → Text → Compiler → CredentialRecord
  new_credential name payload st = record {
    id = src.fresh st.next;
    name = name;
    payload = payload;
    created_at = src.now;
  }

  -- A name that is known gives its id, another one a new record.
  pub register_cred-Then :
      (P : Uuid × Compiler → Type 0) (given : Text) (fields : Fields) (st : Compiler)
      → ((id : Uuid) → id_of (trim_space given) st.cred_ids ≡ some id → P (id, st))
      → ((payload : Text)
          → P (
            src.fresh st.next,
            add_credential
                (trim_space given)
                (new_credential (trim_space given) payload st)
                (st.next + 1)
                st,
          ))
      → Then P (register_cred src given fields st)
  unfolding register_cred
  register_cred-Then P given fields st old new =
      let name = trim_space given in
      elim (Bool-cases (is_empty name)) [
        | inl blank ↦ rw blank tt
        | inr named ↦ elim (Option-cases (id_of name st.cred_ids)) [
          | inr (id, known) ↦ rw (named, known) (old id known)
          | inl absent ↦ elim (Result-cases (src.env.encrypt (expand_env_map src fields))) [
            | inr (e, failed) ↦ rw (named, absent, failed) tt
            | inl (payload, done) ↦ rw (named, absent, done) (new payload)
          ]
        ]
      ]

  -- What every registration keeps, the loop over the credentials keeps.
  pub compile_credentials-Then :
      (P : Compiler → Type 0)
      → ((given : Text) (fields : Fields) (st : Compiler)
          → P st
          → Then (λ (r : Uuid × Compiler). P r.1) (register_cred src given fields st))
      → (cs : List DeclCredential) (st : Compiler) → P st
      → Then P (compile_credentials src cs st)
  unfolding compile_credentials
  compile_credentials-Then P keep [] st h = h
  compile_credentials-Then P keep (c ∷ cs) st h =
      if-Then P (is_empty (trim_space c.name)) (compile_credentials src cs st)
        (register_cred src c.name c.fields st >>= (λ r. compile_credentials src cs r.1))
        (compile_credentials-Then P keep cs st h)
        (>>=-Then (λ (r : Uuid × Compiler). P r.1) P (register_cred src c.name c.fields st)
          (λ r. compile_credentials src cs r.1) (keep c.name c.fields st h)
          (λ r k. compile_credentials-Then P keep cs r.1 k))

  abbrev pub new_server : DeclServer → Node → Option Uuid × Compiler → ServerRecord
  new_server s opts (ref, st) = record {
    id = src.fresh st.next;
    name = trim_space s.name;
    protocol = trim_space s.protocol;
    options = opts;
    credential_ref = ref;
    enabled = or_else s.enabled true;
    updated_at = src.now;
  }

  pub compile_server-Then :
      (Q : Option Uuid × Compiler → Type 0) (P : Compiler → Type 0) (s : DeclServer) (st : Compiler)
      → Then Q (credential_ref_of src (trim_space s.name) s st)
      → ((opts : Node) (r : Option Uuid × Compiler)
          → Q r
          → P (add_server (trim_space s.name) (new_server s opts r) (r.1.next + 1) r.1))
      → Then P (compile_server src s st)
  unfolding compile_server
  compile_server-Then Q P s st q k =
      if-Then P (is_empty (trim_space s.name) || is_empty (trim_space s.protocol))
        (err server_requires) _ tt
        (>>=-Then Always P (options_node src (trim_space s.name) s.options) _ (always _) (λ opts _.
          >>=-Then Q P (credential_ref_of src (trim_space s.name) s st) (finish_server src s opts) q
            (k opts)))

  abbrev pub new_table : DeclTable → Uuid → Node → Compiler → TableRecord
  new_table t srv opts st = record {
    id = src.fresh st.next;
    server_id = srv;
    schema_name = trimmed_schema t.schema;
    table_name = trim_space t.name;
    remote_name = t.remote_name;
    key_columns = t.key_columns;
    options = opts;
  }

  pub compile_table-Then :
      (P : Compiler → Type 0) (t : DeclTable) (st : Compiler)
      → ((srv : Uuid) (opts : Node)
          → id_of (trim_space t.server) st.server_ids ≡ some srv
          → (let cols = compile_columns src (src.fresh st.next) 0 (st.next + 1) t.columns in
              P (add_table (new_table t srv opts st) cols.1 cols.0 st)))
      → Then P (compile_table src t st)
  unfolding compile_table
  compile_table-Then P t st k =
      let server = trim_space t.server in
      let name = trim_space t.name in
      elim (Bool-cases (is_empty server || is_empty name)) [
        | inl missing ↦ rw missing tt
        | inr named ↦ elim (Option-cases (id_of server st.server_ids)) [
          | inl unknown ↦ rw (named, unknown) tt
          | inr (srv, known) ↦
              rw (named, known)
                (>>=-Then Always P
                  (options_node src (trimmed_schema t.schema ++ b'.' ∷ name) t.options) _ (always _)
                  (λ opts _. k srv opts known))
        ]
      ]

  abbrev pub new_function : DeclFunction → Uuid → Node → Compiler → FunctionRecord
  new_function f srv opts st = record {
    id = src.fresh st.next;
    server_id = srv;
    schema_name = trimmed_schema f.schema;
    name = trim_space f.name;
    operation = f.operation;
    remote_path = f.remote_path;
    method = f.method;
    options = opts;
  }

  pub compile_function-Then :
      (P : Compiler → Type 0) (f : DeclFunction) (st : Compiler)
      → ((srv : Uuid) (opts : Node)
          → id_of (trim_space f.server) st.server_ids ≡ some srv
          → P (add_function (new_function f srv opts st) (st.next + 1) st))
      → Then P (compile_function src f st)
  unfolding compile_function
  compile_function-Then P f st k =
      let server = trim_space f.server in
      let name = trim_space f.name in
      elim (Bool-cases (is_empty server || is_empty name || is_empty (trim_space f.operation))) [
        | inl missing ↦ rw missing tt
        | inr named ↦ elim (Option-cases (id_of server st.server_ids)) [
          | inl unknown ↦ rw (named, unknown) tt
          | inr (srv, known) ↦
              rw (named, known)
                (>>=-Then Always P
                  (options_node src (trimmed_schema f.schema ++ b'.' ∷ name) f.options) _ (always _)
                  (λ opts _. k srv opts known))
        ]
      ]
