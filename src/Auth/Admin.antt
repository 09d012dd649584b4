-- ===== src/Auth/Admin.antt =====
-- admin.go, and the middleware `AdminAuth` of internal/api/auth.go.
use lowcode_wrapper.Base.{
  Bool, true, false, not, ◌||◌, Option, none, some, ◌++◌, Text, text, text_eq, text_eq_iff,
  trim_space, has_prefix, is_empty, if◌then◌else◌, ◌≡◌, arith,
}
use lowcode_wrapper.Auth.Gateway.{bearer_token}

pub record Admin : Type 0 where
  pub key : Text
  pub enabled : Bool

-- `NewAdminFromEnv`, on the value of the environment variable.
unfoldable pub new_admin : Text → Admin
new_admin value = let key = trim_space value in record { key = key; enabled = not (is_empty key) }

pub data AdminError : Type 0 where
  admin_auth_disabled admin_missing_key admin_invalid_key : AdminError

-- `Admin.Validate`; none is no error.
unfoldable pub validate_admin : Admin → Text → Option AdminError
validate_admin a header =
    let key = trim_space header in
    if not a.enabled
    then some admin_auth_disabled
    else if is_empty key
    then some admin_missing_key
    else if not (text_eq key a.key)
    then some admin_invalid_key
    else none

-- `AdminAPIKeyFromRequest`, on the headers `X-Api-Key` and `Authorization`.
unfoldable pub admin_api_key : Text → Text → Text
unfolding bearer_token
admin_api_key api_key authorization =
    let v = trim_space api_key in if is_empty v then bearer_token authorization else v

abbrev pub admin_prefix : Text
admin_prefix = text "/admin/api"

unfoldable pub is_admin_path : Text → Bool
is_admin_path path = text_eq path admin_prefix || has_prefix path (admin_prefix ++ text "/")

-- What `AdminAuth` does: it hands the request on (none) or answers 401 with the message.
unfoldable pub admin_auth : Admin → Text → Text → Text → Option Text
unfolding validate_admin is_admin_path admin_api_key
admin_auth a path api_key authorization =
    if not (is_admin_path path) || not a.enabled
    then none
    else elim (validate_admin a (admin_api_key api_key authorization)) [
      | none ↦ none
      | some admin_auth_disabled ↦ none
      | some admin_missing_key ↦ some (text "missing admin api key")
      | some admin_invalid_key ↦ some (text "invalid admin api key")
    ]

abbrev pub is_none : Option Text → Bool
is_none none = true
is_none (some m) = false

-- With a key configured, a request for a path of the admin API is handed on exactly when it carries
-- that key, in `X-Api-Key` or, where that is blank, as the bearer.
pub admin_auth-handed_on :
    (value path api_key authorization : Text)
    → is_empty (trim_space value) ≡ false
    → is_admin_path path ≡ true
    → is_none (admin_auth (new_admin value) path api_key authorization)
      ≡ text_eq (trim_space (admin_api_key api_key authorization)) (trim_space value)
unfolding admin_auth new_admin validate_admin
admin_auth-handed_on value path api_key authorization set guarded =
    ground
      (arith, text_eq_iff (trim_space (admin_api_key api_key authorization)) (trim_space value))
