-- ===== src/FileStore/Compile.antt =====
-- internal/store/file/declarative.go: from the document of a drivers file to the records in memory.
-- The local variables of `compileDeclarative` are the record `Compiler`; `fresh n` is the UUID of the
-- n-th call of `uuid.New`, and `next` counts these calls.
pub mod Rules
pub mod Sound
pub mod Closed
pub mod Inline
pub mod Servers
use lowcode_wrapper.Base.{
  ℕ, ◌+◌, Bool, true, false, ◌&&◌, ◌||◌, Option, none, some, or_else, List, [], ◌∷◌, ◌++◌, map,
  Text, text, text_eq, trim_space, has_prefix, has_suffix, trim_prefix, trim_suffix, if◌then◌else◌,
  is_empty, pos, is_zero, Result, ok, err, ◌>>=◌,
}
use lowcode_wrapper.Models.{Uuid, Time, Value, str, Fields}
use lowcode_wrapper.FileStore.Records.{
  Node, CredentialRecord, ServerRecord, TableRecord, ColumnRecord, FunctionRecord, Snapshot,
  empty_snapshot, Env, raw_to_node,
}
use lowcode_wrapper.FileStore.Declarative.{
  DeclCredential, DeclServer, DeclColumn, DeclTable, DeclFunction, DeclarativeDoc,
}

-- What the compiler and the way back take from outside besides the store's environment: the JSON library, the
-- variables of the process, the new UUIDs and the time.
pub record Source : Type 0 where
  pub env : Env
  pub json_marshal : Fields → Result Text Text
  -- The object that the text holds; no entries when it holds none.
  pub json_unmarshal : Text → Fields
  pub uuid_string : Uuid → Text
  pub getenv : Text → Text
  pub fresh : ℕ → Uuid
  pub now : Time

-- The errors, with the values that their messages show.
pub data CompileError : Type 0 where
  credential_name_required server_requires table_requires function_requires : CompileError
  credential_failed options_failed : Text → Text → CompileError
  unknown_credential unknown_server : Text → Text → CompileError

pub record Compiler : Type 0 where
  pub next : ℕ
  pub cred_ids : List (Text × Uuid)
  pub server_ids : List (Text × Uuid)
  pub out : Snapshot

abbrev pub Step : Type 0
Step = Compiler → Result CompileError Compiler

-- `m[k]`, and `m[k] = v` where the newest entry of a key counts.
abbrev pub id_of : Text → List (Text × Uuid) → Option Uuid
id_of k [] = none
id_of k ((j, id) ∷ m) = if text_eq j k then some id else id_of k m

abbrev pub trimmed_schema : Text → Text
trimmed_schema schema = let s = trim_space schema in if is_empty s then text "public" else s

-- A loop over one kind of entries.
abbrev pub each : {A : Type 0} → (A → Step) → List A → Step
each body [] st = ok st
each body (x ∷ xs) st = body x st >>= each body xs

abbrev pub start : Compiler
start = record { next = 0; cred_ids = []; server_ids = []; out = empty_snapshot }

module _ (src : Source) where
  unfoldable pub expand_env_value : Value → Value
  expand_env_value (str s) =
      if has_prefix s (text "${") && has_suffix s (text "}")
      then (let ev = src.getenv (trim_suffix (trim_prefix s (text "${")) (text "}")) in
          if is_empty ev then str s else str ev)
      else str s
  expand_env_value v = v

  unfoldable pub expand_env_map : Fields → Fields
  unfolding expand_env_value
  expand_env_map = map (λ e. (e.0, expand_env_value e.1))

  unfoldable pub map_to_node : Fields → Result Text Node
  map_to_node m =
      if is_empty m
      then ok (raw_to_node src.env (text "{}"))
      else src.json_marshal m >>= (λ b. ok (raw_to_node src.env b))

  -- An error in the options, with the name that its message shows.
  unfoldable pub options_node : Text → Fields → Result CompileError Node
  unfolding map_to_node
  options_node name opts = elim (map_to_node opts) [
    | err e ↦ err (options_failed name e)
    | ok node ↦ ok node
  ]

  unfoldable pub register_cred : Text → Fields → Compiler → Result CompileError (Uuid × Compiler)
  unfolding expand_env_map
  register_cred given fields st =
      let name = trim_space given in
      if is_empty name then err credential_name_required else elim (id_of name st.cred_ids) [
        | some id ↦ ok (id, st)
        | none ↦ elim (src.env.encrypt (expand_env_map fields)) [
          | err e ↦ err (credential_failed name e)
          | ok payload ↦
              let id = src.fresh st.next in
              let rec : CredentialRecord = record {
                id = id;
                name = name;
                payload = payload;
                created_at = src.now;
              } in
              ok (
                id,
                record st {
                  next = st.next + 1;
                  cred_ids = (name, id) ∷ st.cred_ids;
                  out = record st.out { credentials = st.out.credentials ++ rec ∷ [] };
                },
              )
        ]
      ]

  unfoldable pub compile_credentials : List DeclCredential → Step
  unfolding register_cred
  compile_credentials [] st = ok st
  compile_credentials (c ∷ cs) st =
      let rest = register_cred c.name c.fields st >>= (λ r. compile_credentials cs r.1) in
      let skipped = compile_credentials cs st in
      if is_empty (trim_space c.name) then skipped else rest

  -- The switch on the credential of a server.
  unfoldable pub credential_ref_of :
      Text → DeclServer → Compiler → Result CompileError (Option Uuid × Compiler)
  unfolding register_cred
  credential_ref_of name s st =
      if is_empty s.credential.fields
      then (let ref = trim_space s.credential.name in
          if is_empty ref then ok (none, st) else elim (id_of ref st.cred_ids) [
            | none ↦ err (unknown_credential name ref)
            | some id ↦ ok (some id, st)
          ])
      else register_cred name s.credential.fields st >>= (λ r. ok (some r.0, r.1))

  -- The end of the body, with the options and the reference.
  abbrev pub finish_server :
      DeclServer → Node → Option Uuid × Compiler → Result CompileError Compiler
  finish_server s opts (ref, st) =
      let id = src.fresh st.next in
      let rec : ServerRecord = record {
        id = id;
        name = trim_space s.name;
        protocol = trim_space s.protocol;
        options = opts;
        credential_ref = ref;
        enabled = or_else s.enabled true;
        updated_at = src.now;
      } in
      ok (record st {
        next = st.next + 1;
        server_ids = (trim_space s.name, id) ∷ st.server_ids;
        out = record st.out { servers = st.out.servers ++ rec ∷ [] };
      })

  -- The body of the loop over the servers.
  unfoldable pub compile_server : DeclServer → Step
  unfolding options_node credential_ref_of
  compile_server s st =
      let name = trim_space s.name in
      let protocol = trim_space s.protocol in
      if is_empty name || is_empty protocol
      then err server_requires
      else options_node name s.options
        >>= (λ opts. credential_ref_of name s st >>= finish_server s opts)

  unfoldable pub column_record : Uuid → Uuid → ℕ → DeclColumn → ColumnRecord
  column_record id table_id i c = record {
    id = id;
    table_id = table_id;
    name = c.name;
    data_type = (let dt = trim_space c.data_type in if is_empty dt then text "text" else dt);
    remote_name = c.remote_name;
    nullable = or_else c.nullable true;
    position = if is_zero c.position then pos i else c.position;
  }

  -- The loop over the columns of a table, from index `i` and the UUID `n`.
  unfoldable pub compile_columns : Uuid → ℕ → ℕ → List DeclColumn → ℕ × List ColumnRecord
  unfolding column_record
  compile_columns table_id i n [] = (n, [])
  compile_columns table_id i n (c ∷ cs) =
      let skipped = compile_columns table_id (i + 1) n cs in
      let rest = compile_columns table_id (i + 1) (n + 1) cs in
      if is_empty (trim_space c.name)
      then skipped
      else (rest.0, column_record (src.fresh n) table_id i c ∷ rest.1)

  unfoldable pub compile_table : DeclTable → Step
  unfolding options_node compile_columns
  compile_table t st =
      let server = trim_space t.server in
      let name = trim_space t.name in
      if is_empty server || is_empty name
      then err table_requires
      else elim (id_of server st.server_ids) [
        | none ↦ err (unknown_server name server)
        | some srv_id ↦ options_node (trimmed_schema t.schema ++ b'.' ∷ name) t.options >>= (λ opts.
            let id = src.fresh st.next in
            let rec : TableRecord = record {
              id = id;
              server_id = srv_id;
              schema_name = trimmed_schema t.schema;
              table_name = name;
              remote_name = t.remote_name;
              key_columns = t.key_columns;
              options = opts;
            } in
            let cols = compile_columns id 0 (st.next + 1) t.columns in
            ok (record st {
              next = cols.0;
              out = record st.out {
                tables = st.out.tables ++ rec ∷ [];
                columns = st.out.columns ++ cols.1;
              };
            }))
      ]

  unfoldable pub compile_function : DeclFunction → Step
  unfolding options_node
  compile_function f st =
      let server = trim_space f.server in
      let name = trim_space f.name in
      if is_empty server || is_empty name || is_empty (trim_space f.operation)
      then err function_requires
      else elim (id_of server st.server_ids) [
        | none ↦ err (unknown_server name server)
        | some srv_id ↦ options_node (trimmed_schema f.schema ++ b'.' ∷ name) f.options >>= (λ opts.
            let rec : FunctionRecord = record {
              id = src.fresh st.next;
              server_id = srv_id;
              schema_name = trimmed_schema f.schema;
              name = name;
              operation = f.operation;
              remote_path = f.remote_path;
              method = f.method;
              options = opts;
            } in
            ok (record st {
              next = st.next + 1;
              out = record st.out { functions = st.out.functions ++ rec ∷ [] };
            }))
      ]

  unfoldable pub compile_declarative : DeclarativeDoc → Result CompileError Snapshot
  unfolding compile_credentials compile_server compile_table compile_function
  compile_declarative doc =
      compile_credentials doc.credentials start
      >>= each compile_server doc.servers
      >>= each compile_table doc.tables
      >>= each compile_function doc.functions
      >>= (λ st. ok st.out)
