-- ===== src/FileStore/Inline.antt =====
-- A server created together with its credential.
use lowcode_wrapper.Base.{
  [], ◌∷◌, ◌++◌, any, Text, text, text_eq, trim_space, refl, ap, ◌∙◌, false, ◌||◌, is_some,
  is_empty, some, ◌≡◌, ◌≢◌, Bool-cases, Result-cases, inl, inr, ok, err,
}
use lowcode_wrapper.Models.{Uuid, Time, Fields, CreateServerRequest}
use lowcode_wrapper.FileStore.Records.{Snapshot, CredentialRecord, both_credentials, Env, Outcome}
use lowcode_wrapper.FileStore.Credentials.{insert_credential, create_credential}
use lowcode_wrapper.FileStore.Invariant.{with_lock-state}
use lowcode_wrapper.FileStore.Servers.{inline_name, create_server_with, create_server}

abbrev pub Refused : {A : Type 0} → Outcome A → Type 0
Refused {A} o = (a : A) → o.0 ≢ ok a

create_server_with-both :
    (env : Env) (id ref : Uuid) (now : Time) (req : CreateServerRequest) (s : Snapshot)
    → is_empty req.credential ≡ false
    → create_server_with env id now req (some ref) s ≡ (err both_credentials, s)
unfolding create_server_with
create_server_with-both env id ref now req s h = rw h

append-filled : (a b : Text) → is_empty b ≡ false → is_empty (a ++ b) ≡ false
append-filled [] b h = h
append-filled (c ∷ a) b h = refl

inline_name-filled : (req : CreateServerRequest) → is_empty (inline_name req) ≡ false
inline_name-filled req = elim (Bool-cases (is_empty (trim_space req.credential_name))) [
  | inl missing ↦ rw missing (append-filled req.name (text "-credential") refl)
  | inr given ↦ rw given given
]

-- A new credential is in the store afterwards, whether or not the file could be written.
create_credential-state :
    (env : Env) (id : Uuid) (now : Time) (name : Text) (fields : Fields) (payload : Text)
    (s : Snapshot)
    → is_empty name ≡ false
    → env.encrypt fields ≡ ok payload
    → any (λ (c : CredentialRecord). text_eq c.name name) s.credentials ≡ false
    → (create_credential env id now name fields s).1 ≡ record s {
      credentials =
          s.credentials
          ++ record { id = id; name = name; payload = payload; created_at = now } ∷ [];
    }
unfolding create_credential insert_credential
create_credential-state env id now name fields payload s named done free =
    rw (named, done)
      (with_lock-state env
          (insert_credential env
            (record { id = id; name = name; payload = payload; created_at = now }))
          s
        ∙ rw free refl)

-- After `create_server` with an inline credential and no reference, a name and a protocol, the store
-- is as before but for the new credential, under the name given for it or that of the server with
-- `-credential`: no server is added. Here the vault takes the credential and its name is unused;
-- whether the file could be written does not matter.
pub create_server-inline-leftover :
    (env : Env) (cred_id id : Uuid) (now : Time) (req : CreateServerRequest) (s : Snapshot)
    (payload : Text)
    → (is_empty req.name || is_empty req.protocol) ≡ false
    → is_some req.credential_ref ≡ false
    → is_empty req.credential ≡ false
    → env.encrypt req.credential ≡ ok payload
    → any (λ (c : CredentialRecord). text_eq c.name (inline_name req)) s.credentials ≡ false
    → (create_server env cred_id id now req s).1 ≡ record s {
      credentials =
          s.credentials
          ++ record { id = cred_id; name = inline_name req; payload = payload; created_at = now }
            ∷ [];
    }
unfolding create_server
create_server-inline-leftover env cred_id id now req s payload named absent h done free =
    let made = create_credential env cred_id now (inline_name req) req.credential s in
    let kept : (create_server env cred_id id now req s).1 ≡ made.1 = elim (Result-cases made.0) [
      | inr (e, failed) ↦ rw (named, absent, h, failed) refl
      | inl (cred, stored) ↦
          rw (named, absent, h, stored)
            (ap (λ o. o.1) (create_server_with-both env id cred.id now req made.1 h))
    ] in
    kept
    ∙ create_credential-state env cred_id now (inline_name req) req.credential payload s
        (inline_name-filled req) done free

-- Whatever the rest of the request, the store and the vault: a request with an inline credential
-- ends in an error, with and without a reference to a credential beside it.
pub create_server-inline-Refused :
    (env : Env) (cred_id id : Uuid) (now : Time) (req : CreateServerRequest) (s : Snapshot)
    → is_empty req.credential ≡ false
    → Refused (create_server env cred_id id now req s)
unfolding create_server
create_server-inline-Refused env cred_id id now req s h =
    elim (Bool-cases (is_empty req.name || is_empty req.protocol)) [
      | inl missing ↦ rw missing (λ a e. cc)
      | inr named ↦ elim (Bool-cases (is_some req.credential_ref)) [
        | inl given ↦ rw (named, given) (unfold create_server_with in rw (given, h) (λ a e. cc))
        | inr absent ↦
            elim (Result-cases
              (create_credential env cred_id now (inline_name req) req.credential s).0) [
                | inr (e, failed) ↦ rw (named, absent, h, failed) (λ a e. cc)
                | inl (cred, made) ↦
                    rw (named, absent, h, made, create_server_with-both env id cred.id now req _ h)
                      (λ a e. cc)
              ]
      ]
    ]
