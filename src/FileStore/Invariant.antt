-- ===== src/FileStore/Invariant.antt =====
-- The well-formed snapshots, and the rule for a body that runs under the lock.
pub mod Servers
pub mod Tables
pub mod Others
use lowcode_wrapper.Base.{
  Bool, true, Option, none, some, Option-cases, inl, inr, ◌≡◌, refl, Text, text_eq, text_eq_comm,
  ◌&&◌, arith, Result, ok, err, owned, distinct, all, any, List, if◌then◌else◌, find, ◌==◌, [], ◌∷◌,
}
use lowcode_wrapper.FileStore.Records.{
  CredentialRecord, ServerRecord, TableRecord, ColumnRecord, FunctionRecord, Snapshot,
  empty_snapshot, StoreError, Env, with_lock, finish_locked,
}
use lowcode_wrapper.FileStore.Tables.{same_table}
use lowcode_wrapper.FileStore.Functions.{same_function}

abbrev pub same_credential_name : CredentialRecord → CredentialRecord → Bool
same_credential_name a b = text_eq b.name a.name

abbrev pub same_server_name : ServerRecord → ServerRecord → Bool
same_server_name a b = text_eq b.name a.name

abbrev pub same_table_name : TableRecord → TableRecord → Bool
same_table_name a b = same_table a.schema_name a.table_name b

abbrev pub same_function_name : FunctionRecord → FunctionRecord → Bool
same_function_name a b = same_function a.schema_name a.name b

-- Each table and function names a listed server, each column a listed table, and the names are
-- distinct: of credentials, of servers, and within a schema of tables and of functions.
pub record IsValid (s : Snapshot) : Type 0 where
  pub tables_owned :
      owned (λ (v : ServerRecord). v.id) (λ (t : TableRecord). t.server_id) s.servers s.tables
      ≡ true
  pub functions_owned :
      owned (λ (v : ServerRecord). v.id) (λ (f : FunctionRecord). f.server_id) s.servers s.functions
      ≡ true
  pub columns_owned :
      owned (λ (t : TableRecord). t.id) (λ (c : ColumnRecord). c.table_id) s.tables s.columns ≡ true
  pub credential_names : distinct same_credential_name s.credentials ≡ true
  pub server_names : distinct same_server_name s.servers ≡ true
  pub table_names : distinct same_table_name s.tables ≡ true
  pub function_names : distinct same_function_name s.functions ≡ true

pub IsValid-empty : IsValid empty_snapshot
IsValid-empty = record {
  tables_owned = refl;
  functions_owned = refl;
  columns_owned = refl;
  credential_names = refl;
  server_names = refl;
  table_names = refl;
  function_names = refl;
}

-- A found server is one of the list, so its id is that of an owner.
pub find_owner :
    (p : ServerRecord → Bool) (servers : List ServerRecord) (srv : ServerRecord)
    → find p servers ≡ some srv
    → any (λ o. o.id == srv.id) servers ≡ true
find_owner p [] srv e = cc
find_owner p (x ∷ xs) srv e = ground (arith, find_owner p xs srv)

-- What a body leaves behind when it succeeds.
abbrev pub After : {A : Type 0} → (Snapshot → Type 0) → Result StoreError (A × Snapshot) → Type 0
After P (ok (a, t)) = P t
After P (err e) = Unit

-- What holds before the body and after it holds once the lock is released, whether or not the file
-- was written.
pub with_lock-keeps :
    {A : Type 0} (P : Snapshot → Type 0) (env : Env)
    (fn : Snapshot → Result StoreError (A × Snapshot)) (s : Snapshot)
    → P s
    → After P (fn s)
    → P (with_lock env fn s).1
unfolding with_lock
with_lock-keeps {A} P env fn s before after = go (fn s) after
  where
    go : (r : Result StoreError (A × Snapshot)) → After P r → P (finish_locked env s r).1
    go (err e) h = before
    go (ok (a, t)) h = elim (Option-cases (env.persist t)) [
      | inl written ↦ rw (written, finish_locked) h
      | inr (e, failed) ↦ rw (failed, finish_locked) h
    ]

-- The snapshot that a body leaves is the one in memory, even if the write then fails.
abbrev pub state_after : {A : Type 0} → Snapshot → Result StoreError (A × Snapshot) → Snapshot
state_after s (ok (a, t)) = t
state_after s (err e) = s

pub with_lock-state :
    {A : Type 0} (env : Env) (fn : Snapshot → Result StoreError (A × Snapshot)) (s : Snapshot)
    → (with_lock env fn s).1 ≡ state_after s (fn s)
unfolding with_lock
with_lock-state {A} env fn s = go (fn s)
  where
    go : (r : Result StoreError (A × Snapshot)) → (finish_locked env s r).1 ≡ state_after s r
    go (err e) = refl
    go (ok (a, t)) = elim (Option-cases (env.persist t)) [
      | inl written ↦ rw (finish_locked, written) refl
      | inr (x, failed) ↦ rw (finish_locked, failed) refl
    ]
