-- ===== src/Auth/Tests.antt =====
-- Requests with and without the right keys.
use lowcode_wrapper.Base.{
  true, false, some, none, [], ◌∷◌, if◌then◌else◌, text, text_eq, trim_space, has_prefix, Result,
  ok, err, Text, ◌≡◌, refl,
}
use lowcode_wrapper.Models.{str, Fields}
use lowcode_wrapper.Postgrest.Match.{field}
use lowcode_wrapper.Auth.Merge.{is_secret, is_usable, merge_credential_into_options}
use lowcode_wrapper.Auth.Merge.Lookup.{or_other, field-merge_credential_into_options}
use lowcode_wrapper.Auth.Gateway.{Gateway, Token, data_auth, bearer_token, is_data_path}
use lowcode_wrapper.Auth.Gateway.Access.{is_handed_on, has_access, data_auth-handed_on}
use lowcode_wrapper.Auth.Admin.{
  new_admin, admin_auth, admin_api_key, is_admin_path, is_none, admin_auth-handed_on,
}

-- A library that takes one token, good until time 9.
abbrev one_token : Text → Text → Result Text Token
one_token secret token = elim (text_eq token (text "good")) [
  | true ↦ ok (record { valid = true; expires = some 9; subject = none; role = [] })
  | false ↦ err (text "malformed")
]

abbrev keyed : Gateway
keyed = record {
  anon_key = text "anon";
  service_key = [];
  jwt_secret = text "secret";
  enabled = true;
}

data_auth-handed_on_example :
    is_handed_on
      (data_auth one_token 5 keyed (text "/v1/items") (text " anon") (text "Bearer good"))
    ≡ has_access one_token 5 keyed
        (trim_space (text " anon"))
        (trim_space (bearer_token (text "Bearer good")))
unfolding is_data_path has_prefix
data_auth-handed_on_example =
    data_auth-handed_on one_token 5 keyed (text "/v1/items") (text " anon") (text "Bearer good")
      refl refl

admin_auth-handed_on_example :
    is_none (admin_auth (new_admin (text "top")) (text "/admin/api/servers") [] (text "Bearer top"))
    ≡ text_eq (trim_space (admin_api_key [] (text "Bearer top"))) (trim_space (text "top"))
unfolding is_admin_path has_prefix trim_space text_eq
admin_auth-handed_on_example =
    admin_auth-handed_on (text "top") (text "/admin/api/servers") [] (text "Bearer top") refl refl

abbrev given : Fields
given = (text "token", str (text "old")) ∷ (text "label", str (text "X-Key")) ∷ []

abbrev secret : Fields
secret = (text "token", str (text "new")) ∷ (text "label", str (text "X-Other")) ∷ []

field-merge_credential_into_options_example :
    field (text "token") (merge_credential_into_options given secret) ≡ (
      if is_secret (text "token")
      then (if is_usable (field (text "token") secret)
          then field (text "token") secret
          else field (text "token") given)
      else or_other (field (text "token") given) (field (text "token") secret))
field-merge_credential_into_options_example =
    field-merge_credential_into_options (text "token") given secret
