-- ===== src/FileStore/Resolve.antt =====
-- What `ResolveTable` finds, before and after the operations on tables.
use lowcode_wrapper.Base.{
  ℕ, ◌+◌, Bool, true, false, ◌||◌, is_empty, some, ◌≡◌, ◌≢◌, ◌↔◌, refl, sym, ap, ◌∙◌, arith,
  Bool-cases, Option-cases, inl, inr, ok, err, any, all, find, map, text_eq, text_eq_refl,
  text_eq_comm, ◌++◌, ◌∷◌, [], List, Text, distinct, ==_iff, ◌==◌, find_by_id, find-append_miss,
  keep-append, keep_none, keep-all, any_of_all, find_holds, is_some-find, is_some, locate_of_find,
  text_eq_iff, find-all, owned, distinct_removed,
}
use lowcode_wrapper.Base.Sort.{sort_slice}
use lowcode_wrapper.Models.{Uuid, ColumnInput, CreateTableRequest}
use lowcode_wrapper.FileStore.Records.{
  ServerRecord, TableRecord, ColumnRecord, Snapshot, not_found, Env, schema_or_public, server_model,
  table_model, column_model, column_less, columns_for_table,
}
use lowcode_wrapper.FileStore.Tables.{
  same_table, new_columns, table_of_request, insert_table, create_table, drop_table, delete_table,
  resolve_table,
}
use lowcode_wrapper.FileStore.Invariant.{IsValid, same_table_name, with_lock-state, state_after}

-- Server ids, or table ids, are distinct.
abbrev pub same_server_id : ServerRecord → ServerRecord → Bool
same_server_id a b = b.id == a.id

abbrev pub same_table_id : TableRecord → TableRecord → Bool
same_table_id a b = b.id == a.id

abbrev of_table : Uuid → ColumnRecord → Bool
of_table id c = c.table_id == id

new_columns-of_table :
    (fresh : ℕ → Uuid) (id : Uuid) (i : ℕ) (cs : List ColumnInput)
    → all (of_table id) (new_columns fresh id i cs) ≡ true
unfolding new_columns
new_columns-of_table fresh id i [] = refl
new_columns-of_table fresh id i (c ∷ cs) = ground (arith, new_columns-of_table fresh id (i + 1) cs)

-- A column of a well-formed snapshot does not belong to a table that is not there yet.
no_columns :
    (tables : List TableRecord) (columns : List ColumnRecord) (id : Uuid)
    → owned (λ (t : TableRecord). t.id) (λ (c : ColumnRecord). c.table_id) tables columns ≡ true
    → any (λ (t : TableRecord). t.id == id) tables ≡ false
    → any (of_table id) columns ≡ false
no_columns tables columns id h free =
    any_of_all (λ (c : ColumnRecord). any (λ (t : TableRecord). t.id == c.table_id) tables)
      (of_table id) columns
      (λ c listed. elim (Bool-cases (of_table id c)) [
        | inr other ↦ other
        | inl here ↦ absurd (clash c ((==_iff c.table_id id).0 here) listed)
      ])
      h
  where
    clash :
        (c : ColumnRecord)
        → c.table_id ≡ id
        → any (λ (t : TableRecord). t.id == c.table_id) tables ≡ true
        → ⊥
    clash c e listed = cc (rw e at listed, free)

resolve_table-found :
    (env : Env) (schema name : Text) (u : Snapshot) (tbl : TableRecord) (srv : ServerRecord)
    → find (same_table schema name) u.tables ≡ some tbl
    → find (λ (x : ServerRecord). x.id == tbl.server_id) u.servers ≡ some srv
    → srv.enabled ≡ true
    → resolve_table env schema name u
      ≡ ok (record {
        table = table_model env srv.name tbl;
        server = server_model env srv;
        columns = columns_for_table u.columns tbl.id;
      })
unfolding resolve_table
resolve_table-found env schema name u tbl srv e f g = rw (e, resolve_table, f, g) refl

pub resolve_table-missing :
    (env : Env) (schema name : Text) (u : Snapshot)
    → any (same_table schema name) u.tables ≡ false
    → resolve_table env schema name u ≡ err not_found
unfolding resolve_table
resolve_table-missing env schema name u h =
    elim (Option-cases (find (same_table schema name) u.tables)) [
      | inl missing ↦ rw (missing, resolve_table) refl
      | inr (tbl, found) ↦ cc (is_some-find (same_table schema name) u.tables, ap is_some found)
    ]

module _ (env : Env) (id : Uuid) (fresh : ℕ → Uuid) (req : CreateTableRequest) {s : Snapshot}
    (v : IsValid s) (srv : ServerRecord)
    (named : (is_empty req.server_name || is_empty req.table_name) ≡ false)
    (found : find (λ (x : ServerRecord). text_eq x.name req.server_name) s.servers ≡ some srv)
    (free : any (same_table (schema_or_public req.schema_name) req.table_name) s.tables
      ≡ false) where
  pub create_table-state : (create_table env id fresh req s).1 ≡ record s {
    tables = s.tables ++ table_of_request env id srv.id req ∷ [];
    columns = s.columns ++ new_columns fresh id 0 req.columns;
  }
  unfolding create_table insert_table
  create_table-state = rw (named, with_lock-state, state_after, found, free) refl

  pub columns_after :
      any (λ (t : TableRecord). t.id == id) s.tables ≡ false
      → columns_for_table (s.columns ++ new_columns fresh id 0 req.columns) id
        ≡ sort_slice column_less (map column_model (new_columns fresh id 0 req.columns))
  unfolding columns_for_table
  columns_after new =
      ap (λ cs. sort_slice column_less (map column_model cs))
        (keep-append (of_table id) s.columns (new_columns fresh id 0 req.columns)
          ∙ rw
              (
                keep_none (of_table id) s.columns
                    (no_columns s.tables s.columns id v.columns_owned new),
                keep-all (of_table id) (new_columns fresh id 0 req.columns)
                    (new_columns-of_table fresh id 0 req.columns),
              )
              refl)

  -- In a well-formed snapshot with distinct server ids, `CreateTable` with a name that is not
  -- taken in its schema, an unused id and the name of an enabled server makes a table that
  -- `ResolveTable` finds under that schema and name, with that server, and with the columns of the
  -- request, sorted; and this whether or not the drivers file could be written.
  pub resolve_table-create_table :
      distinct same_server_id s.servers ≡ true
      → any (λ (t : TableRecord). t.id == id) s.tables ≡ false
      → srv.enabled ≡ true
      → resolve_table env
          (schema_or_public req.schema_name)
          req.table_name
          (create_table env id fresh req s).1
        ≡ ok (record {
          table = table_model env srv.name (table_of_request env id srv.id req);
          server = server_model env srv;
          columns = sort_slice column_less (map column_model (new_columns fresh id 0 req.columns));
        })
  unfolding table_of_request
  resolve_table-create_table ids new enabled =
      let schema = schema_or_public req.schema_name in
      let rec = table_of_request env id srv.id req in
      rw create_table-state (
        resolve_table-found env schema req.table_name _ rec srv
          (find-append_miss (same_table schema req.table_name) s.tables (rec ∷ []) free
            ∙ rw (text_eq_refl schema, text_eq_refl req.table_name) refl)
          (find_by_id (λ (x : ServerRecord). x.id)
            (λ (x : ServerRecord). text_eq x.name req.server_name) s.servers srv ids found)
          enabled
        ∙ rw (columns_after new) refl)

-- A registered table resolves, or its server is disabled.
resolve_table-registered :
    (env : Env) (schema name : Text) (s : Snapshot) (tbl : TableRecord)
    → IsValid s
    → find (same_table schema name) s.tables ≡ some tbl
    → resolve_table env schema name s ≢ err not_found
unfolding resolve_table
resolve_table-registered env schema name s tbl v found e =
    elim (Option-cases (find (λ (x : ServerRecord). x.id == tbl.server_id) s.servers)) [
      | inl orphan ↦ cc (
        is_some-find (λ (x : ServerRecord). x.id == tbl.server_id) s.servers,
        ap is_some orphan,
        find-all (same_table schema name)
            (λ (t : TableRecord). any (λ (x : ServerRecord). x.id == t.server_id) s.servers)
            s.tables tbl found v.tables_owned,
      )
      | inr (srv, owner) ↦ elim (Bool-cases srv.enabled) [
        | inl on ↦ cc (rw (found, resolve_table, owner, on) at e)
        | inr off ↦ cc (rw (found, resolve_table, owner, off) at e)
      ]
    ]

-- In a well-formed snapshot a name resolves to `not found` exactly when no table is registered
-- under it: the server of a registered table is always there.
pub resolve_table-not_found_iff :
    (env : Env) (schema name : Text) (s : Snapshot)
    → IsValid s
    → (resolve_table env schema name s ≡ err not_found)
      ↔ (any (same_table schema name) s.tables ≡ false)
resolve_table-not_found_iff env schema name s v =
    (unregistered, resolve_table-missing env schema name s)
  where
    unregistered :
        resolve_table env schema name s ≡ err not_found
        → any (same_table schema name) s.tables ≡ false
    unregistered e = elim (Option-cases (find (same_table schema name) s.tables)) [
      | inl missing ↦ sym (is_some-find (same_table schema name) s.tables) ∙ ap is_some missing
      | inr (tbl, found) ↦ absurd (resolve_table-registered env schema name s tbl v found e)
    ]

-- In a well-formed snapshot whose table ids are distinct, `DeleteTable` of the table registered under a name
-- leaves the name unregistered.
pub resolve_table-delete_table :
    (env : Env) (schema name : Text) (s : Snapshot) (tbl : TableRecord)
    → IsValid s
    → distinct same_table_id s.tables ≡ true
    → find (same_table schema name) s.tables ≡ some tbl
    → resolve_table env schema name (delete_table env tbl.id s).1 ≡ err not_found
unfolding delete_table drop_table
resolve_table-delete_table env schema name s tbl v ids found =
    let (i, at) =
      locate_of_find (λ (rec : TableRecord). rec.id == tbl.id) s.tables tbl
        (find_by_id (λ (rec : TableRecord). rec.id) (same_table schema name) s.tables tbl ids
          found) in
    let named = find_holds (same_table schema name) s.tables tbl found in
    let in_schema : tbl.schema_name ≡ schema = ground (arith, text_eq_iff tbl.schema_name schema) in
    let with_name : tbl.table_name ≡ name = ground (arith, text_eq_iff tbl.table_name name) in
    rw (with_lock-state, state_after, at)
      (resolve_table-missing env schema name _ (
        rw (← in_schema, ← with_name)
          (distinct_removed same_table_name (λ (rec : TableRecord). rec.id == tbl.id) s.tables i tbl
            at
            (λ x y. ground (
              arith,
              text_eq_comm x.schema_name y.schema_name,
              text_eq_comm x.table_name y.table_name,
            ))
            v.table_names)))
