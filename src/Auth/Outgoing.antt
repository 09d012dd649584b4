-- ===== src/Auth/Outgoing.antt =====
-- internal/auth/httpauth.go: the authorisation of a request to another server. net/http, its URLs,
-- base64 and JSON are the argument `client`; the names of headers are in their canonical form.
use lowcode_wrapper.Base.{
  ℕ, leb, ◌||◌, Option, none, some, [], ◌∷◌, ◌++◌, Text, text, text_eq, if◌then◌else◌, is_empty,
  Result, ok, err,
}
use lowcode_wrapper.Models.{Fields}
use lowcode_wrapper.Postgrest.Query.{Values}
use lowcode_wrapper.Postgrest.Errors.{quote}
use lowcode_wrapper.Postgrest.Match.{field, sprint}
use lowcode_wrapper.Drivers.Sql.{decimal}
use lowcode_wrapper.Rest.Body.{Headers, set_header}

pub record Message : Type 0 where
  pub method : Text
  pub url : Text
  pub headers : Headers
  pub content : Text

pub record Response : Type 0 where
  pub status : ℕ
  -- `resp.Status`, the code with its reason.
  pub status_line : Text
  pub content : Text

pub record Client (W : Type 0) : Type 0 where
  -- The error of `http.NewRequestWithContext`.
  pub refuse : Message → Option Text
  pub send : Message → W → Result Text Response × W
  -- `url.Values.Encode`, whatever the order of the entries.
  pub encode : Values → Text
  pub base64 : Text → Text
  -- The member `access_token` of a JSON object, empty where there is none.
  pub read_token : Text → Result Text Text

-- `HTTPAuth`; the type is a string.
pub record HttpAuth : Type 0 where
  pub kind : Text
  pub options : Fields

unfoldable pub str_opt : Fields → Text → Text
unfolding sprint
str_opt opts key = elim (field key opts) [ none ↦ [] | some v ↦ sprint v ]

abbrev scope_values : Text → Values
scope_values [] = []
scope_values (c ∷ cs) = (text "scope", (c ∷ cs) ∷ []) ∷ []

-- The form of the request for a token.
unfoldable pub token_form : Fields → Values
unfolding str_opt
token_form opts =
    (text "grant_type", text "client_credentials" ∷ [])
    ∷ (text "client_id", str_opt opts (text "clientId") ∷ [])
    ∷ (text "client_secret", str_opt opts (text "clientSecret") ∷ [])
    ∷ scope_values (str_opt opts (text "scope"))

-- The loop of the universal type: every option but `legacyPreset` is a header.
unfoldable pub universal_headers : Fields → Headers → Headers
unfolding set_header sprint
universal_headers [] headers = headers
universal_headers ((k, v) ∷ opts) headers =
    universal_headers opts
      (if text_eq k (text "legacyPreset") then headers else set_header k (sprint v) headers)

module _ {W : Type 0} (client : Client W) where
  -- What the token endpoint's answer is worth.
  unfoldable pub token_of : Response → Result Text Text
  token_of resp =
      if leb 400 resp.status
      then err
          (text "token endpoint returned " ++ (decimal resp.status ++ (text ": " ++ resp.content)))
      else elim (client.read_token resp.content) [
        | err e ↦ err e
        | ok token ↦
            if is_empty token then err (text "token response missing access_token") else ok token
      ]

  unfoldable pub fetch_client_credentials_token : Fields → W → Result Text Text × W
  unfolding token_form token_of str_opt
  fetch_client_credentials_token opts w =
      let token_url = str_opt opts (text "tokenUrl") in
      let message : Message = record {
        method = text "POST";
        url = token_url;
        headers = (text "Content-Type", text "application/x-www-form-urlencoded") ∷ [];
        content = client.encode (token_form opts);
      } in
      if is_empty token_url
      then (err (text "client_credentials: tokenUrl required"), w)
      else elim (client.refuse message) [
        | some e ↦ (err e, w)
        | none ↦
            let (answered, w') = client.send message w in
            (elim answered [ err e ↦ err e | ok resp ↦ token_of resp ], w')
      ]

  abbrev authorized : Message → Text → Message
  authorized message v = record message {
    headers = set_header (text "Authorization") v message.headers;
  }

  -- The switch on the type.
  unfoldable pub apply_auth : HttpAuth → Message → W → Result Text Message × W
  unfolding set_header str_opt universal_headers fetch_client_credentials_token quote
  apply_auth auth message w =
      let opts = auth.options in
      let label = str_opt opts (text "label") in
      if is_empty auth.kind || text_eq auth.kind (text "NONE")
      then (ok message, w)
      else if text_eq auth.kind (text "BASIC")
      then (
        ok (
            authorized message (
              text "Basic "
              ++ client.base64
                  (str_opt opts (text "username") ++ (b':' ∷ str_opt opts (text "password"))))),
        w,
      )
      else if text_eq auth.kind (text "API_KEY")
      then (
        ok (record message {
          headers =
              set_header (if is_empty label then text "X-API-Key" else label)
                (str_opt opts (text "apiKey")) message.headers;
        }),
        w,
      )
      else if text_eq auth.kind (text "BEARER_TOKEN")
      then (ok (authorized message (text "Bearer " ++ str_opt opts (text "token"))), w)
      else if text_eq auth.kind (text "CLIENT_CREDENTIALS")
      then (let (fetched, w') = fetch_client_credentials_token opts w in
          (
            elim fetched [
              | err e ↦ err e
              | ok token ↦ ok (authorized message (text "Bearer " ++ token))
            ],
            w',
          ))
      else if text_eq auth.kind (text "UNIVERSAL")
      then (ok (record message { headers = universal_headers opts message.headers }), w)
      else (err (text "unsupported auth type " ++ quote auth.kind), w)

  unfoldable pub apply_http_auth : Option HttpAuth → Message → W → Result Text Message × W
  unfolding apply_auth
  apply_http_auth none message w = (ok message, w)
  apply_http_auth (some auth) message w = apply_auth auth message w
