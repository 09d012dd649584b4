-- ===== src/Auth/Merge.antt =====
-- internal/auth/credential.go: the options of an authorisation with the fields of a credential.
pub mod Lookup
use lowcode_wrapper.Base.{
  Bool, true, false, not, ◌||◌, any, Option, none, some, is_some, List, [], ◌∷◌, Text, text,
  text_eq, if◌then◌else◌, is_empty,
}
use lowcode_wrapper.Models.{Value, Fields}
use lowcode_wrapper.Postgrest.Match.{field, sprint, is_null}

-- The assignment to a key of a map.
unfoldable pub set_field : Text → Value → Fields → Fields
set_field key v [] = (key, v) ∷ []
set_field key v ((k, old) ∷ m) =
    let rest = set_field key v m in if text_eq k key then (k, v) ∷ m else (k, old) ∷ rest

abbrev pub secret_keys : List Text
secret_keys =
    text "username"
    ∷ text "password"
    ∷ text "apiKey"
    ∷ text "token"
    ∷ text "clientId"
    ∷ text "clientSecret"
    ∷ text "client_id"
    ∷ text "client_secret"
    ∷ []

-- The field is there, not null and not printed as the empty text.
abbrev pub is_usable : Option Value → Bool
is_usable none = false
is_usable (some v) = not (is_null v || is_empty (sprint v))

abbrev pub set_if_usable : Text → Option Value → Fields → Fields
set_if_usable key none out = out
set_if_usable key (some v) out = if is_usable (some v) then set_field key v out else out

-- The loop over the secrets.
unfoldable pub take_secrets : List Text → Fields → Fields → Fields
unfolding set_field sprint
take_secrets [] cred out = out
take_secrets (k ∷ keys) cred out = take_secrets keys cred (set_if_usable k (field k cred) out)

-- `findKey`
abbrev pub is_listed : List Text → Text → Bool
is_listed keys target = any (λ k. text_eq k target) keys

unfoldable pub is_secret : Text → Bool
is_secret k = is_listed secret_keys k

-- The loop over the credential: its other fields, where the options have none.
unfoldable pub fill_rest : Fields → Fields → Fields
unfolding set_field is_secret
fill_rest [] out = out
fill_rest ((k, v) ∷ cred) out =
    fill_rest cred (if is_secret k || is_some (field k out) then out else set_field k v out)

unfoldable pub merge_credential_into_options : Fields → Fields → Fields
unfolding take_secrets fill_rest
merge_credential_into_options opts cred = fill_rest cred (take_secrets secret_keys cred opts)
