-- ===== src/FileStore/Invariant/Others.antt =====
-- The operations on credentials and on functions keep the snapshot well formed.
use lowcode_wrapper.Base.{
  ℕ, true, Bool-cases, Option-cases, inl, inr, ◌≡◌, refl, text_eq, text_eq_comm, arith, owned,
  owned-append, has_owner, distinct, distinct-concat, distinct-set, distinct-remove_at, any,
  all-remove_at, all-set, locate, locate-all, find, ◌∷◌, List, [], ◌==◌,
}
use lowcode_wrapper.Models.{Uuid, CreateFunctionRequest, UpdateFunctionRequest}
use lowcode_wrapper.FileStore.Records.{
  CredentialRecord, ServerRecord, FunctionRecord, Snapshot, Env, schema_or_public,
}
use lowcode_wrapper.FileStore.Credentials.{refers_to, insert_credential, drop_credential}
use lowcode_wrapper.FileStore.Functions.{
  same_function, function_of_request, insert_function, changed_function, replace_function,
  drop_function,
}
use lowcode_wrapper.FileStore.Invariant.{
  IsValid, After, find_owner, same_credential_name, same_function_name,
}

abbrev server_id : ServerRecord → ℕ
server_id v = v.id

abbrev function_server : FunctionRecord → ℕ
function_server f = f.server_id

module _ (env : Env) {s : Snapshot} (v : IsValid s) where
  with_credentials :
      (credentials : List CredentialRecord)
      → distinct same_credential_name credentials ≡ true
      → IsValid (record s { credentials = credentials })
  with_credentials credentials h = record {
    tables_owned = v.tables_owned;
    functions_owned = v.functions_owned;
    columns_owned = v.columns_owned;
    credential_names = h;
    server_names = v.server_names;
    table_names = v.table_names;
    function_names = v.function_names;
  }

  pub insert_credential-IsValid :
      (rec : CredentialRecord) → After IsValid (insert_credential env rec s)
  unfolding insert_credential
  insert_credential-IsValid rec =
      elim (Bool-cases (any (λ c. text_eq c.name rec.name) s.credentials)) [
        | inl taken ↦ rw (taken, After) tt
        | inr free ↦
            rw (free, After)
              (with_credentials _ (
                distinct-concat same_credential_name s.credentials rec
                  (λ x y. text_eq_comm y.name x.name) free v.credential_names))
      ]

  pub drop_credential-IsValid : (id : Uuid) → After IsValid (drop_credential env id s)
  unfolding drop_credential
  drop_credential-IsValid id =
      elim (Option-cases (locate (λ (c : CredentialRecord). c.id == id) s.credentials)) [
        | inl missing ↦ rw (missing, After) tt
        | inr ((i, old), at) ↦ elim (Option-cases (find (refers_to id) s.servers)) [
          | inr (srv, used) ↦ rw (at, used, After) tt
          | inl unused ↦
              rw (at, unused, After)
                (with_credentials _
                  (distinct-remove_at same_credential_name s.credentials i v.credential_names))
        ]
      ]

  with_functions :
      (functions : List FunctionRecord)
      → owned server_id function_server s.servers functions ≡ true
      → distinct same_function_name functions ≡ true
      → IsValid (record s { functions = functions })
  with_functions functions h d = record {
    tables_owned = v.tables_owned;
    functions_owned = h;
    columns_owned = v.columns_owned;
    credential_names = v.credential_names;
    server_names = v.server_names;
    table_names = v.table_names;
    function_names = d;
  }

  pub insert_function-IsValid :
      (id : Uuid) (req : CreateFunctionRequest) → After IsValid (insert_function env id req s)
  unfolding insert_function
  insert_function-IsValid id req =
      elim (Option-cases (find (λ (x : ServerRecord). text_eq x.name req.server_name) s.servers)) [
        | inl missing ↦ rw (missing, After) tt
        | inr (srv, found) ↦
            elim (Bool-cases
              (any (same_function (schema_or_public req.schema_name) req.name) s.functions)) [
                | inl taken ↦ rw (found, taken, After) tt
                | inr free ↦
                    rw (found, free, After)
                      (with_functions _
                        (owned-append server_id function_server s.servers s.functions
                          (function_of_request env id srv.id req ∷ []) v.functions_owned
                          (unfold function_of_request in
                            ground (
                              arith,
                              find_owner (λ (x : ServerRecord). text_eq x.name req.server_name)
                                  s.servers srv found,
                            )))
                        (unfold function_of_request in
                          distinct-concat same_function_name s.functions
                            (function_of_request env id srv.id req)
                            (λ x y. ground (
                              arith,
                              text_eq_comm x.schema_name y.schema_name,
                              text_eq_comm x.name y.name,
                            ))
                            free v.function_names))
              ]
      ]

  pub replace_function-IsValid :
      (id : Uuid) (req : UpdateFunctionRequest) → After IsValid (replace_function env id req s)
  unfolding replace_function changed_function
  replace_function-IsValid id req =
      elim (Option-cases (locate (λ (r : FunctionRecord). r.id == id) s.functions)) [
        | inl missing ↦ rw (missing, After) tt
        | inr ((i, old), at) ↦
            rw (at, After)
              (with_functions _
                (all-set (has_owner server_id function_server s.servers) s.functions i
                  (changed_function env req old) v.functions_owned
                  (locate-all (λ r. r.id == id) (has_owner server_id function_server s.servers)
                    s.functions i old at v.functions_owned))
                (distinct-set same_function_name (λ r. r.id == id) s.functions i old
                  (changed_function env req old) at (λ y. refl) (λ y. refl) v.function_names))
      ]

  pub drop_function-IsValid : (id : Uuid) → After IsValid (drop_function env id s)
  unfolding drop_function
  drop_function-IsValid id =
      elim (Option-cases (locate (λ (r : FunctionRecord). r.id == id) s.functions)) [
        | inl missing ↦ rw (missing, After) tt
        | inr ((i, old), at) ↦
            rw (at, After)
              (with_functions _
                (all-remove_at (has_owner server_id function_server s.servers) s.functions i
                  v.functions_owned)
                (distinct-remove_at same_function_name s.functions i v.function_names))
      ]
