-- ===== src/FileStore/Invariant/Servers.antt =====
-- The operations on servers keep the snapshot well formed.
use lowcode_wrapper.Base.{
  ℕ, Bool, false, not, Bool-cases, Option-cases, inl, inr, ◌≡◌, refl, text_eq, text_eq_comm, arith,
  owned-append_owners, owned-set_owner, owned-remove_owner, owned-keep_owners, distinct-concat,
  distinct-set, distinct-remove_at, distinct-keep, ◌==◌, any, locate, ◌++◌, ◌∷◌, [], set, remove_at,
  keep, map, some,
}
use lowcode_wrapper.Models.{Uuid, Time, Server, UpdateServerRequest}
use lowcode_wrapper.FileStore.Records.{
  ServerRecord, TableRecord, FunctionRecord, ColumnRecord, Snapshot, Env,
}
use lowcode_wrapper.FileStore.Servers.{
  insert_server, replace_server, changed_server, drop_server, filter_tables, filter_functions,
  filter_columns_by_table_ids,
}
use lowcode_wrapper.FileStore.Invariant.{
  IsValid, After, same_server_name, same_table_name, same_function_name,
}

abbrev server_id : ServerRecord → ℕ
server_id v = v.id

abbrev table_server : TableRecord → ℕ
table_server t = t.server_id

abbrev function_server : FunctionRecord → ℕ
function_server f = f.server_id

module _ (env : Env) {s : Snapshot} (v : IsValid s) where
  with_server :
      (rec : ServerRecord)
      → any (λ existing. text_eq existing.name rec.name) s.servers ≡ false
      → IsValid (record s { servers = s.servers ++ rec ∷ [] })
  with_server rec fresh = record {
    tables_owned =
        owned-append_owners server_id table_server s.servers (rec ∷ []) s.tables v.tables_owned;
    functions_owned =
        owned-append_owners server_id function_server s.servers (rec ∷ []) s.functions
          v.functions_owned;
    columns_owned = v.columns_owned;
    credential_names = v.credential_names;
    server_names =
        distinct-concat same_server_name s.servers rec (λ x y. text_eq_comm y.name x.name) fresh
          v.server_names;
    table_names = v.table_names;
    function_names = v.function_names;
  }

  pub insert_server-IsValid :
      (rec : ServerRecord) (srv : Server) → After IsValid (insert_server env rec srv s)
  unfolding insert_server
  insert_server-IsValid rec srv =
      elim (Bool-cases (any (λ existing. text_eq existing.name rec.name) s.servers)) [
        | inl taken ↦ rw taken tt
        | inr fresh ↦ rw fresh (with_server rec fresh)
      ]

  -- A record put back under its id and its name.
  with_changed :
      (p : ServerRecord → Bool) (i : ℕ) (old new : ServerRecord)
      → locate p s.servers ≡ some (i, old)
      → new.id ≡ old.id
      → new.name ≡ old.name
      → IsValid (record s { servers = set s.servers i new })
  with_changed p i old new at same_id same_name = record {
    tables_owned =
        owned-set_owner server_id table_server p s.servers i old new s.tables at same_id
          v.tables_owned;
    functions_owned =
        owned-set_owner server_id function_server p s.servers i old new s.functions at same_id
          v.functions_owned;
    columns_owned = v.columns_owned;
    credential_names = v.credential_names;
    server_names =
        distinct-set same_server_name p s.servers i old new at (λ y. rw same_name)
          (λ y. rw same_name) v.server_names;
    table_names = v.table_names;
    function_names = v.function_names;
  }

  pub replace_server-IsValid :
      (id : Uuid) (now : Time) (req : UpdateServerRequest)
      → After IsValid (replace_server env id now req s)
  unfolding replace_server
  replace_server-IsValid id now req =
      elim (Option-cases (locate (λ (r : ServerRecord). r.id == id) s.servers)) [
        | inl missing ↦ rw (missing, After) tt
        | inr ((i, old), at) ↦
            rw (at, After)
              (with_changed (λ r. r.id == id) i old (changed_server env now req old) at refl refl)
      ]

  without_server :
      (id : Uuid) (i : ℕ) (old : ServerRecord)
      → locate (λ r. r.id == id) s.servers ≡ some (i, old)
      → IsValid (record s {
        servers = remove_at s.servers i;
        tables = filter_tables s.tables id;
        functions = filter_functions s.functions id;
        columns =
            filter_columns_by_table_ids s.columns
              (map (λ tbl. tbl.id) (keep (λ tbl. tbl.server_id == id) s.tables));
      })
  unfolding filter_tables filter_functions filter_columns_by_table_ids
  without_server id i old at = record {
    tables_owned =
        owned-remove_owner server_id table_server id (λ rec. not (rec.server_id == id)) s.servers i
          old s.tables at (λ x kept. ground arith) v.tables_owned;
    functions_owned =
        owned-remove_owner server_id function_server id (λ rec. not (rec.server_id == id)) s.servers
          i old s.functions at (λ x kept. ground arith) v.functions_owned;
    columns_owned =
        owned-keep_owners (λ (t : TableRecord). t.id) (λ (c : ColumnRecord). c.table_id)
          (λ tbl. tbl.server_id == id) s.tables s.columns v.columns_owned;
    credential_names = v.credential_names;
    server_names = distinct-remove_at same_server_name s.servers i v.server_names;
    table_names =
        distinct-keep same_table_name (λ rec. not (rec.server_id == id)) s.tables v.table_names;
    function_names =
        distinct-keep same_function_name (λ rec. not (rec.server_id == id)) s.functions
          v.function_names;
  }

  pub drop_server-IsValid : (id : Uuid) → After IsValid (drop_server env id s)
  unfolding drop_server
  drop_server-IsValid id =
      elim (Option-cases (locate (λ (r : ServerRecord). r.id == id) s.servers)) [
        | inl missing ↦ rw (missing, After) tt
        | inr ((i, old), at) ↦ rw (at, After) (without_server id i old at)
      ]
