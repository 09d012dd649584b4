-- ===== src/Drivers/Http/Opened.antt =====
-- New of internal/driver/http/http.go. The reader of the JSON options of a server is an argument.
use lowcode_wrapper.Base.{
  Option, none, some, Text, text, trim_space, trim_suffix, is_empty, if◌then◌else◌, ◌++◌, Result,
  ok, err,
}
use lowcode_wrapper.Models.{Fields, Server}
use lowcode_wrapper.Postgrest.Errors.{quote}
use lowcode_wrapper.Rest.Body.{Headers}
use lowcode_wrapper.Auth.Outgoing.{HttpAuth}
use lowcode_wrapper.Auth.Merge.{merge_credential_into_options}
use lowcode_wrapper.Drivers.Http.{HttpDriver}

pub record HttpServerOptions : Type 0 where
  pub endpoint : Text
  pub base_path : Text
  pub headers : Headers
  pub auth : Option HttpAuth

-- The authorisation of the options with the credential, `none` for the nil map.
unfoldable pub merged_auth : Option HttpAuth → Option Fields → Option HttpAuth
unfolding merge_credential_into_options
merged_auth auth none = auth
merged_auth none (some cred) = some (record { kind = text "UNIVERSAL"; options = cred })
merged_auth (some auth) (some cred) =
    some (record auth { options = merge_credential_into_options auth.options cred })

unfoldable pub new_http_driver :
    (Text → Result Text HttpServerOptions) → Server → Option Fields → Result Text HttpDriver
unfolding merged_auth trim_suffix quote
new_http_driver read srv cred = elim (read srv.options) [
  | err e ↦ err e
  | ok opts ↦
      if is_empty (trim_space opts.endpoint)
      then err (text "http server " ++ (quote srv.name ++ text " requires options.endpoint"))
      else ok (record {
        auth = merged_auth opts.auth cred;
        base_url = trim_suffix (trim_space opts.endpoint) (text "/");
        base_path = trim_space opts.base_path;
        headers = opts.headers;
      })
]
