-- ===== src/FileStore/References.antt =====
-- Credentials and the servers that refer to them.
use lowcode_wrapper.Base.{
  ℕ, Bool, true, false, some, none, ◌≡◌, refl, ◌∙◌, arith, all, any, find, remove_at, any-remove_at,
  locate, locate_holds, ==_iff, ◌==◌, inl, inr, Option-cases, List, [], ◌∷◌,
}
use lowcode_wrapper.Models.{Uuid}
use lowcode_wrapper.FileStore.Records.{CredentialRecord, ServerRecord, Snapshot, Env}
use lowcode_wrapper.FileStore.Credentials.{refers_to, drop_credential, delete_credential}
use lowcode_wrapper.FileStore.Invariant.{with_lock-state, state_after}

-- The server's reference, if it has one, is to a listed credential.
abbrev pub reference_held : List CredentialRecord → ServerRecord → Bool
reference_held credentials srv = elim srv.credential_ref [
  | none ↦ true
  | some ref ↦ any (λ (c : CredentialRecord). c.id == ref) credentials
]

kept_reference :
    (credentials : List CredentialRecord) (id : Uuid) (i : ℕ) (old : CredentialRecord)
    → locate (λ (c : CredentialRecord). c.id == id) credentials ≡ some (i, old)
    → old.id ≡ id
    → (srv : ServerRecord) → refers_to id srv ≡ false
    → reference_held credentials srv ≡ true
    → reference_held (remove_at credentials i) srv ≡ true
kept_reference credentials id i old at same srv unused held =
    elim (Option-cases srv.credential_ref) [
      | inl absent ↦ rw absent refl
      | inr (ref, present) ↦
          let other : (ref == id) ≡ false = rw present at unused in
          let listed : any (λ (c : CredentialRecord). c.id == ref) credentials ≡ true =
            rw present at held in
          rw present (
            any-remove_at (λ (c : CredentialRecord). c.id == id)
              (λ (c : CredentialRecord). c.id == ref) credentials i old at (ground arith)
            ∙ listed)
    ]

all_kept :
    (credentials : List CredentialRecord) (id : Uuid) (i : ℕ) (old : CredentialRecord)
    (servers : List ServerRecord)
    → locate (λ (c : CredentialRecord). c.id == id) credentials ≡ some (i, old)
    → find (refers_to id) servers ≡ none
    → all (reference_held credentials) servers ≡ true
    → all (reference_held (remove_at credentials i)) servers ≡ true
all_kept credentials id i old [] at unused held = refl
all_kept credentials id i old (srv ∷ servers) at unused held =
    let same : old.id ≡ id =
      (==_iff old.id id).0
        (locate_holds (λ (c : CredentialRecord). c.id == id) credentials i old at) in
    ground (
      arith,
      kept_reference credentials id i old at same srv,
      all_kept credentials id i old servers at,
    )

delete_credential-state :
    (env : Env) (id : Uuid) (s : Snapshot)
    → (delete_credential env id s).1 ≡ state_after s (drop_credential env id s)
unfolding delete_credential
delete_credential-state env id s = with_lock-state env (drop_credential env id) s

-- If every credential reference of a server is to a listed credential, then so it is after
-- `DeleteCredential`, whether it was refused or not.
pub delete_credential-held :
    (env : Env) (id : Uuid) (s : Snapshot)
    → all (reference_held s.credentials) s.servers ≡ true
    → all
        (reference_held (delete_credential env id s).1.credentials)
        (delete_credential env id s).1.servers
      ≡ true
unfolding drop_credential
delete_credential-held env id s held =
    elim (Option-cases (locate (λ (c : CredentialRecord). c.id == id) s.credentials)) [
      | inl missing ↦ rw (delete_credential-state, state_after, missing) held
      | inr ((i, old), at) ↦ elim (Option-cases (find (refers_to id) s.servers)) [
        | inr (srv, used) ↦ rw (delete_credential-state, state_after, at, used) held
        | inl unused ↦
            rw (delete_credential-state, state_after, at, unused)
              (all_kept s.credentials id i old s.servers at unused held)
      ]
    ]
