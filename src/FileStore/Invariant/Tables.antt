-- ===== src/FileStore/Invariant/Tables.antt =====
-- The operations on tables and on their columns keep the snapshot well formed.
use lowcode_wrapper.Base.{
  ℕ, ◌+◌, Bool, true, false, not, Bool-cases, Option-cases, inl, inr, ◌≡◌, refl, text_eq,
  text_eq_comm, arith, owned, owned-append_owners, owned-append, owned-set_owner,
  owned-remove_owner, has_owner, distinct-concat, distinct-set, distinct-remove_at, any-append, any,
  all-remove_at, all-set, locate, locate-all, find, ◌++◌, ◌∷◌, List, [], set, some, ◌==◌,
}
use lowcode_wrapper.Models.{
  Uuid, ColumnInput, CreateTableRequest, UpdateTableRequest, CreateColumnRequest,
  UpdateColumnRequest,
}
use lowcode_wrapper.FileStore.Records.{
  ServerRecord, TableRecord, ColumnRecord, Snapshot, Env, schema_or_public,
}
use lowcode_wrapper.FileStore.Tables.{
  new_columns, same_table, table_of_request, insert_table, changed_table, replace_table, drop_table,
}
use lowcode_wrapper.FileStore.Columns.{
  same_column, column_of_request, insert_column, changed_column, replace_column, drop_column,
}
use lowcode_wrapper.FileStore.Invariant.{IsValid, After, find_owner, same_table_name}

abbrev server_id : ServerRecord → ℕ
server_id v = v.id

abbrev table_server : TableRecord → ℕ
table_server t = t.server_id

abbrev table_id : TableRecord → ℕ
table_id t = t.id

abbrev column_table : ColumnRecord → ℕ
column_table c = c.table_id

new_columns-owned :
    (tables : List TableRecord) (fresh : ℕ → Uuid) (id : Uuid) (i : ℕ) (cs : List ColumnInput)
    → any (λ (o : TableRecord). o.id == id) tables ≡ true
    → owned table_id column_table tables (new_columns fresh id i cs) ≡ true
unfolding new_columns
new_columns-owned tables fresh id i [] h = refl
new_columns-owned tables fresh id i (c ∷ cs) h =
    ground (arith, new_columns-owned tables fresh id (i + 1) cs h)

module _ (env : Env) {s : Snapshot} (v : IsValid s) where
  with_table :
      (id : Uuid) (fresh : ℕ → Uuid) (req : CreateTableRequest) (srv : ServerRecord)
      → find (λ (x : ServerRecord). text_eq x.name req.server_name) s.servers ≡ some srv
      → any (same_table (schema_or_public req.schema_name) req.table_name) s.tables ≡ false
      → IsValid (record s {
        tables = s.tables ++ table_of_request env id srv.id req ∷ [];
        columns = s.columns ++ new_columns fresh id 0 req.columns;
      })
  unfolding table_of_request
  with_table id fresh req srv found free =
      let rec = table_of_request env id srv.id req in
      let here : any (λ (o : TableRecord). o.id == id) (s.tables ++ rec ∷ []) ≡ true =
        ground (arith, any-append (λ (o : TableRecord). o.id == id) s.tables (rec ∷ [])) in
      record {
        tables_owned =
            owned-append server_id table_server s.servers s.tables (rec ∷ []) v.tables_owned (
              ground (
                arith,
                find_owner (λ (x : ServerRecord). text_eq x.name req.server_name) s.servers srv
                    found,
              ));
        functions_owned = v.functions_owned;
        columns_owned =
            owned-append table_id column_table (s.tables ++ rec ∷ []) s.columns
              (new_columns fresh id 0 req.columns)
              (owned-append_owners table_id column_table s.tables (rec ∷ []) s.columns
                v.columns_owned)
              (new_columns-owned (s.tables ++ rec ∷ []) fresh id 0 req.columns here);
        credential_names = v.credential_names;
        server_names = v.server_names;
        table_names =
            distinct-concat same_table_name s.tables rec
              (λ x y. ground (
                arith,
                text_eq_comm x.schema_name y.schema_name,
                text_eq_comm x.table_name y.table_name,
              ))
              free v.table_names;
        function_names = v.function_names;
      }

  pub insert_table-IsValid :
      (id : Uuid) (fresh : ℕ → Uuid) (req : CreateTableRequest)
      → After IsValid (insert_table env id fresh req s)
  unfolding insert_table
  insert_table-IsValid id fresh req =
      elim (Option-cases (find (λ (x : ServerRecord). text_eq x.name req.server_name) s.servers)) [
        | inl missing ↦ rw (missing, After) tt
        | inr (srv, found) ↦
            elim (Bool-cases
              (any (same_table (schema_or_public req.schema_name) req.table_name) s.tables)) [
                | inl taken ↦ rw (found, taken, After) tt
                | inr free ↦ rw (found, free, After) (with_table id fresh req srv found free)
              ]
      ]

  with_changed_table :
      (p : TableRecord → Bool) (i : ℕ) (old : TableRecord) (req : UpdateTableRequest)
      → locate p s.tables ≡ some (i, old)
      → IsValid (record s { tables = set s.tables i (changed_table env req old) })
  unfolding changed_table
  with_changed_table p i old req at = record {
    tables_owned =
        all-set (has_owner server_id table_server s.servers) s.tables i (changed_table env req old)
          v.tables_owned
          (locate-all p (has_owner server_id table_server s.servers) s.tables i old at
            v.tables_owned);
    functions_owned = v.functions_owned;
    columns_owned =
        owned-set_owner table_id column_table p s.tables i old (changed_table env req old) s.columns
          at refl v.columns_owned;
    credential_names = v.credential_names;
    server_names = v.server_names;
    table_names =
        distinct-set same_table_name p s.tables i old (changed_table env req old) at (λ y. refl)
          (λ y. refl) v.table_names;
    function_names = v.function_names;
  }

  pub replace_table-IsValid :
      (id : Uuid) (req : UpdateTableRequest) → After IsValid (replace_table env id req s)
  unfolding replace_table
  replace_table-IsValid id req =
      elim (Option-cases (locate (λ (r : TableRecord). r.id == id) s.tables)) [
        | inl missing ↦ rw (missing, After) tt
        | inr ((i, old), at) ↦ rw (at, After) (with_changed_table (λ r. r.id == id) i old req at)
      ]

  pub drop_table-IsValid : (id : Uuid) → After IsValid (drop_table env id s)
  unfolding drop_table
  drop_table-IsValid id = elim (Option-cases (locate (λ (r : TableRecord). r.id == id) s.tables)) [
    | inl missing ↦ rw (missing, After) tt
    | inr ((i, old), at) ↦
        rw (at, After)
          (record {
            tables_owned =
                all-remove_at (has_owner server_id table_server s.servers) s.tables i
                  v.tables_owned;
            functions_owned = v.functions_owned;
            columns_owned =
                owned-remove_owner table_id column_table id
                  (λ rec. not (any (λ k. k == rec.table_id) (id ∷ []))) s.tables i old s.columns at
                  (λ x kept. ground arith) v.columns_owned;
            credential_names = v.credential_names;
            server_names = v.server_names;
            table_names = distinct-remove_at same_table_name s.tables i v.table_names;
            function_names = v.function_names;
          })
  ]

  -- Only the columns change, and each still names a listed table.
  with_columns :
      (columns : List ColumnRecord)
      → owned table_id column_table s.tables columns ≡ true
      → IsValid (record s { columns = columns })
  with_columns columns h = record {
    tables_owned = v.tables_owned;
    functions_owned = v.functions_owned;
    columns_owned = h;
    credential_names = v.credential_names;
    server_names = v.server_names;
    table_names = v.table_names;
    function_names = v.function_names;
  }

  pub insert_column-IsValid :
      (id tid : Uuid) (req : CreateColumnRequest) → After IsValid (insert_column id tid req s)
  unfolding insert_column
  insert_column-IsValid id tid req =
      elim (Bool-cases (any (λ (r : TableRecord). r.id == tid) s.tables)) [
        | inr missing ↦ rw (missing, After) tt
        | inl listed ↦ elim (Bool-cases (any (same_column tid req.name) s.columns)) [
          | inl taken ↦ rw (listed, taken, After) tt
          | inr free ↦
              rw (listed, free, After)
                (with_columns _ (
                  owned-append table_id column_table s.tables s.columns
                    (column_of_request id tid req ∷ []) v.columns_owned
                    (unfold column_of_request in ground arith)))
        ]
      ]

  pub replace_column-IsValid :
      (id : Uuid) (req : UpdateColumnRequest) → After IsValid (replace_column id req s)
  unfolding replace_column
  replace_column-IsValid id req =
      elim (Option-cases (locate (λ (r : ColumnRecord). r.id == id) s.columns)) [
        | inl missing ↦ rw (missing, After) tt
        | inr ((i, old), at) ↦
            rw (at, After)
              (with_columns _ (
                all-set (has_owner table_id column_table s.tables) s.columns i
                  (changed_column req old) v.columns_owned
                  (unfold changed_column in
                    locate-all (λ r. r.id == id) (has_owner table_id column_table s.tables)
                      s.columns i old at v.columns_owned)))
      ]

  pub drop_column-IsValid : (id : Uuid) → After IsValid (drop_column id s)
  unfolding drop_column
  drop_column-IsValid id =
      elim (Option-cases (locate (λ (r : ColumnRecord). r.id == id) s.columns)) [
        | inl missing ↦ rw (missing, After) tt
        | inr ((i, old), at) ↦
            rw (at, After)
              (with_columns _ (
                all-remove_at (has_owner table_id column_table s.tables) s.columns i
                  v.columns_owned))
      ]
