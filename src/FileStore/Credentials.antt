-- ===== src/FileStore/Credentials.antt =====
-- store.go: credentials.
use lowcode_wrapper.Base.{
  Bool, false, Option, none, some, [], ◌∷◌, ◌++◌, Text, text, text_eq, ◌==◌, if◌then◌else◌,
  is_empty, any, find, locate, remove_at, Result, ok, err,
}
use lowcode_wrapper.Models.{Uuid, Time, Fields, Credential, Server}
use lowcode_wrapper.FileStore.Records.{
  CredentialRecord, ServerRecord, Snapshot, StoreError, not_found, required, credential_exists,
  credential_referenced, external, Env, Outcome, with_lock,
}

-- `srv.CredentialRef != nil && *srv.CredentialRef == id`
abbrev pub refers_to : Uuid → ServerRecord → Bool
refers_to id srv = elim srv.credential_ref [ none ↦ false | some ref ↦ ref == id ]

module _ (env : Env) where
  -- The body that `CreateCredential` runs under the lock.
  unfoldable pub insert_credential :
      CredentialRecord → Snapshot → Result StoreError (Credential × Snapshot)
  insert_credential rec s =
      if any (λ c. text_eq c.name rec.name) s.credentials
      then err (credential_exists rec.name)
      else ok (
        record { id = rec.id; name = rec.name; created_at = rec.created_at },
        record s { credentials = s.credentials ++ rec ∷ [] },
      )

  -- `id` is what `uuid.New` returns, `now` the time of the call.
  unfoldable pub create_credential : Uuid → Time → Text → Fields → Snapshot → Outcome Credential
  unfolding insert_credential with_lock
  create_credential id now name fields s =
      if is_empty name then (err (required (text "name")), s) else elim (env.encrypt fields) [
        | err e ↦ (err (external e), s)
        | ok payload ↦
            with_lock env
              (insert_credential
                (record { id = id; name = name; payload = payload; created_at = now }))
              s
      ]

  -- The body of `DeleteCredential`: a credential that a server refers to stays.
  unfoldable pub drop_credential : Uuid → Snapshot → Result StoreError (Unit {0} × Snapshot)
  drop_credential id s = elim (locate (λ c. c.id == id) s.credentials) [
    | none ↦ err not_found
    | some (i, _) ↦ elim (find (refers_to id) s.servers) [
      | some srv ↦ err (credential_referenced srv.name)
      | none ↦ ok (tt, record s { credentials = remove_at s.credentials i })
    ]
  ]

  unfoldable pub delete_credential : Uuid → Snapshot → Outcome (Unit {0})
  unfolding drop_credential with_lock
  delete_credential id = with_lock env (drop_credential id)

  unfoldable pub resolve_credential : Uuid → Snapshot → Result StoreError Fields
  resolve_credential ref s = elim (find (λ c. c.id == ref) s.credentials) [
    | none ↦ err not_found
    | some c ↦ elim (env.decrypt c.payload) [ err e ↦ err (external e) | ok fields ↦ ok fields ]
  ]

  -- `none` is the nil map.
  unfoldable pub server_credential : Option Server → Snapshot → Result StoreError (Option Fields)
  unfolding resolve_credential
  server_credential none s = ok none
  server_credential (some srv) s = elim srv.credential_ref [
    | none ↦ ok none
    | some ref ↦ elim (resolve_credential ref s) [ err e ↦ err e | ok fields ↦ ok (some fields) ]
  ]
