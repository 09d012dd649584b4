-- ===== src/FileStore/Cascade.antt =====
-- What goes with a deleted server or table, and what stays.
use lowcode_wrapper.Base.{
  ℕ, Bool, not, some, ◌≡◌, ◌&&◌, List, [], ◌∷◌, ap, refl, arith, any, keep, remove_at, map, locate,
  ◌==◌,
}
use mathlib.Core.Path.{fun_ext}
use lowcode_wrapper.Models.{Uuid}
use lowcode_wrapper.FileStore.Records.{
  ServerRecord, TableRecord, FunctionRecord, ColumnRecord, Snapshot, Env,
}
use lowcode_wrapper.FileStore.Servers.{
  filter_tables, filter_functions, filter_columns_by_table_ids, drop_server, delete_server,
}
use lowcode_wrapper.FileStore.Invariant.{with_lock-state, state_after}

-- A column of one of the server's tables.
abbrev pub under_server : Snapshot → Uuid → ColumnRecord → Bool
under_server s id c = any (λ (t : TableRecord). t.server_id == id && t.id == c.table_id) s.tables

-- The snapshot with a server and all that hangs on it left out.
abbrev pub without_server : Snapshot → Uuid → ℕ → Snapshot
without_server s id i = record s {
  servers = remove_at s.servers i;
  tables = keep (λ (t : TableRecord). not (t.server_id == id)) s.tables;
  functions = keep (λ (f : FunctionRecord). not (f.server_id == id)) s.functions;
  columns = keep (λ c. not (under_server s id c)) s.columns;
}

any-ids :
    (tables : List TableRecord) (id k : Uuid)
    → any
        (λ (j : ℕ). j == k)
        (map (λ (t : TableRecord). t.id) (keep (λ (t : TableRecord). t.server_id == id) tables))
      ≡ any (λ (t : TableRecord). t.server_id == id && t.id == k) tables
any-ids [] id k = refl
any-ids (t ∷ ts) id k = ground (arith, any-ids ts id k)

-- `DeleteServer` of a listed server takes out that server, every table and function that names it
-- and every column of such a table, and nothing else: the credentials, the other servers and what
-- hangs on them stay, in their order, whether or not the drivers file could be written.
pub delete_server-cascade :
    (env : Env) (id : Uuid) (s : Snapshot) (i : ℕ) (old : ServerRecord)
    → locate (λ (srv : ServerRecord). srv.id == id) s.servers ≡ some (i, old)
    → (delete_server env id s).1 ≡ without_server s id i
unfolding delete_server drop_server filter_tables filter_functions filter_columns_by_table_ids
delete_server-cascade env id s i old at =
    rw (with_lock-state, state_after, at)
      (ap
        (λ p. record s {
          servers = remove_at s.servers i;
          tables = keep (λ (t : TableRecord). not (t.server_id == id)) s.tables;
          functions = keep (λ (f : FunctionRecord). not (f.server_id == id)) s.functions;
          columns = keep p s.columns;
        })
        (fun_ext (λ (c : ColumnRecord). ap not (any-ids s.tables id c.table_id))))
