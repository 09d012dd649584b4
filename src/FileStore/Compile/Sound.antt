-- ===== src/FileStore/Compile/Sound.antt =====
-- The references in the variables of compileDeclarative, and the steps that add to them.
use lowcode_wrapper.Base.{
  ℕ, Bool, true, some, List, [], ◌∷◌, ◌++◌, all, any, any-append, all-append, all_imp, owned,
  owned-append, owned-append_owners, Text, ◌==◌, ◌≡◌, refl, arith, Option-cases, inl, inr,
}
use lowcode_wrapper.Models.{Uuid}
use lowcode_wrapper.FileStore.Records.{
  CredentialRecord, ServerRecord, TableRecord, ColumnRecord, FunctionRecord, Snapshot,
}
use lowcode_wrapper.FileStore.References.{reference_held}
use lowcode_wrapper.FileStore.Compile.{Compiler, id_of}
use lowcode_wrapper.FileStore.Compile.Rules.{add_credential, add_server, add_table, add_function}

abbrev pub cred_of : CredentialRecord → ℕ
cred_of c = c.id

abbrev pub server_of : ServerRecord → ℕ
server_of v = v.id

-- Each entry of a map from names is the id of a record.
abbrev pub all_listed {ℓ} : {A : Type ℓ} → (A → ℕ) → List A → List (Text × Uuid) → Bool
all_listed id = owned id (λ (e : Text × Uuid). e.1)

-- Every reference in a snapshot is to a listed record.
pub record IsClosed (s : Snapshot) : Type 0 where
  pub references : all (reference_held s.credentials) s.servers ≡ true
  pub tables_owned : owned server_of (λ (t : TableRecord). t.server_id) s.servers s.tables ≡ true
  pub functions_owned :
      owned server_of (λ (f : FunctionRecord). f.server_id) s.servers s.functions ≡ true
  pub columns_owned :
      owned (λ (t : TableRecord). t.id) (λ (c : ColumnRecord). c.table_id) s.tables s.columns ≡ true

-- So it is while the compiler runs, and its maps know listed records only.
pub record IsSound (st : Compiler) : Type 0 where
  pub closed : IsClosed st.out
  pub creds_listed : all_listed cred_of st.out.credentials st.cred_ids ≡ true
  pub servers_listed : all_listed server_of st.out.servers st.server_ids ≡ true

pub id_of-listed {ℓ} :
    {A : Type ℓ} (id : A → ℕ) (owners : List A) (k : Text) (m : List (Text × Uuid)) (v : Uuid)
    → id_of k m ≡ some v
    → all_listed id owners m ≡ true
    → any (λ o. id o == v) owners ≡ true
id_of-listed id owners k [] v e h = cc
id_of-listed id owners k ((j, w) ∷ m) v e h = ground (arith, id_of-listed id owners k m v)

pub any-snoc {ℓ} :
    {A : Type ℓ} (q : A → Bool) (xs : List A) (x : A) → q x ≡ true → any q (xs ++ x ∷ []) ≡ true
any-snoc q xs x h = ground (arith, any-append q xs (x ∷ []))

held_more :
    (creds more : List CredentialRecord) (servers : List ServerRecord)
    → all (reference_held creds) servers ≡ true
    → all (reference_held (creds ++ more)) servers ≡ true
held_more creds more servers =
    all_imp (reference_held creds) (reference_held (creds ++ more)) servers (λ srv h.
      elim (Option-cases srv.credential_ref) [
        | inl absent ↦ rw absent refl
        | inr (ref, present) ↦
            let listed : any (λ c. cred_of c == ref) creds ≡ true = rw present at h in
            rw present (ground (arith, listed, any-append (λ c. cred_of c == ref) creds more))
      ])

pub add_credential-IsSound :
    (name : Text) (rec : CredentialRecord) (n : ℕ) (st : Compiler)
    → IsSound st
    → IsSound (add_credential name rec n st)
add_credential-IsSound name rec n st h =
    let creds = st.out.credentials in
    record {
      closed = record {
        references = held_more creds (rec ∷ []) st.out.servers h.closed.references;
        tables_owned = h.closed.tables_owned;
        functions_owned = h.closed.functions_owned;
        columns_owned = h.closed.columns_owned;
      };
      creds_listed = ground (
        arith,
        any-snoc (λ c. cred_of c == rec.id) creds rec (ground arith),
        owned-append_owners cred_of (λ (e : Text × Uuid). e.1) creds (rec ∷ []) st.cred_ids
            h.creds_listed,
      );
      servers_listed = h.servers_listed;
    }

pub add_server-IsSound :
    (name : Text) (rec : ServerRecord) (n : ℕ) (st : Compiler)
    → reference_held st.out.credentials rec ≡ true
    → IsSound st
    → IsSound (add_server name rec n st)
add_server-IsSound name rec n st r h =
    let servers = st.out.servers in
    record {
      closed = record {
        references = ground (
          arith,
          h.closed.references,
          all-append (reference_held st.out.credentials) servers (rec ∷ []),
        );
        tables_owned =
            owned-append_owners server_of (λ (t : TableRecord). t.server_id) servers (rec ∷ [])
              st.out.tables h.closed.tables_owned;
        functions_owned =
            owned-append_owners server_of (λ (f : FunctionRecord). f.server_id) servers (rec ∷ [])
              st.out.functions h.closed.functions_owned;
        columns_owned = h.closed.columns_owned;
      };
      creds_listed = h.creds_listed;
      servers_listed = ground (
        arith,
        any-snoc (λ v. server_of v == rec.id) servers rec (ground arith),
        owned-append_owners server_of (λ (e : Text × Uuid). e.1) servers (rec ∷ []) st.server_ids
            h.servers_listed,
      );
    }

abbrev pub table_of : TableRecord → ℕ
table_of t = t.id

abbrev pub column_table : ColumnRecord → ℕ
column_table c = c.table_id

pub add_table-IsSound :
    (rec : TableRecord) (cols : List ColumnRecord) (n : ℕ) (st : Compiler)
    → any (λ v. server_of v == rec.server_id) st.out.servers ≡ true
    → owned table_of column_table (st.out.tables ++ rec ∷ []) cols ≡ true
    → IsSound st
    → IsSound (add_table rec cols n st)
add_table-IsSound rec cols n st r c h = record {
  closed = record {
    references = h.closed.references;
    tables_owned =
        owned-append server_of (λ (t : TableRecord). t.server_id) st.out.servers st.out.tables
          (rec ∷ []) h.closed.tables_owned (ground arith);
    functions_owned = h.closed.functions_owned;
    columns_owned =
        owned-append table_of column_table (st.out.tables ++ rec ∷ []) st.out.columns cols
          (owned-append_owners table_of column_table st.out.tables (rec ∷ []) st.out.columns
            h.closed.columns_owned)
          c;
  };
  creds_listed = h.creds_listed;
  servers_listed = h.servers_listed;
}

pub add_function-IsSound :
    (rec : FunctionRecord) (n : ℕ) (st : Compiler)
    → any (λ v. server_of v == rec.server_id) st.out.servers ≡ true
    → IsSound st
    → IsSound (add_function rec n st)
add_function-IsSound rec n st r h = record {
  closed = record {
    references = h.closed.references;
    tables_owned = h.closed.tables_owned;
    functions_owned =
        owned-append server_of (λ (f : FunctionRecord). f.server_id) st.out.servers st.out.functions
          (rec ∷ []) h.closed.functions_owned (ground arith);
    columns_owned = h.closed.columns_owned;
  };
  creds_listed = h.creds_listed;
  servers_listed = h.servers_listed;
}
