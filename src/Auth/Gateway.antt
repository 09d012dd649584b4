-- ===== src/Auth/Gateway.antt =====
-- gateway.go, and the middleware `DataAuth` of internal/api/auth.go. The JWT library is a parameter.
pub mod Access
use lowcode_wrapper.Base.{
  ℕ, Bool, true, false, not, ◌&&◌, ◌||◌, Option, none, some, List, [], ◌∷◌, ◌++◌, Text, text,
  text_eq, trim_space, has_prefix, trim_prefix, contains, is_empty, if◌then◌else◌, ltb, Result, ok,
  err, ◌>>=◌,
}
use lowcode_wrapper.Models.{Time}
use lowcode_wrapper.Postgrest.Errors.{ApiError, auth_error}

-- A secret that is not configured is the empty text.
pub record Gateway : Type 0 where
  pub anon_key : Text
  pub service_key : Text
  pub jwt_secret : Text
  pub enabled : Bool

-- `NewGatewayFromEnv`, on the values of the three environment variables.
unfoldable pub new_gateway : Text → Text → Text → Gateway
new_gateway anon_value service_value secret_value =
    let anon = trim_space anon_value in
    record {
      anon_key = anon;
      service_key = trim_space service_value;
      jwt_secret = trim_space secret_value;
      enabled = not (is_empty anon);
    }

unfoldable pub is_api_key : Gateway → Text → Bool
is_api_key g key =
    if is_empty key
    then false
    else if not (is_empty g.anon_key) && text_eq key g.anon_key
    then true
    else not (is_empty g.service_key) && text_eq key g.service_key

-- What `jwt.Parse` returns for a token that it accepts: whether its claims are a map and it is valid,
-- and the claims that the program reads.
pub record Token : Type 0 where
  pub valid : Bool
  pub expires : Option Time
  pub subject : Option Text
  pub role : Text

pub record GatewayClaims : Type 0 where
  pub subject : Text
  pub role : Text

-- The text of `invalid_jwt` is what follows `ErrInvalidJWT` in the message.
pub data GatewayError : Type 0 where
  auth_disabled missing_api_key invalid_api_key missing_bearer : GatewayError
  invalid_jwt : Text → GatewayError

abbrev pub is_expired : Time → Token → Bool
is_expired now token = elim token.expires [ none ↦ false | some at ↦ ltb at now ]

module _ (jwt : Text → Text → Result Text Token) (now : Time) where
  abbrev pub read_token : Token → Result GatewayError GatewayClaims
  read_token token =
      if not token.valid
      then err (invalid_jwt [])
      else if is_expired now token
      then err (invalid_jwt (text "token is expired"))
      else ok
          (record { subject = elim token.subject [ none ↦ [] | some s ↦ s ]; role = token.role })

  unfoldable pub parse_jwt : Gateway → Text → Result GatewayError GatewayClaims
  parse_jwt g token_string = elim (jwt g.jwt_secret token_string) [
    | err e ↦ err (invalid_jwt e)
    | ok token ↦ read_token token
  ]

  -- A key as the bearer gives no claims.
  unfoldable pub validate : Gateway → Text → Text → Result GatewayError (Option GatewayClaims)
  unfolding is_api_key parse_jwt
  validate g apikey_header bearer_header =
      let apikey = trim_space apikey_header in
      let bearer = trim_space bearer_header in
      if not g.enabled
      then err auth_disabled
      else if is_empty apikey
      then err missing_api_key
      else if not (is_api_key g apikey)
      then err invalid_api_key
      else if is_empty bearer
      then err missing_bearer
      else if is_api_key g bearer
      then ok none
      else if is_empty g.jwt_secret
      then err (invalid_jwt (text "configure DATASPAN_JWT_SECRET for user tokens"))
      else elim (parse_jwt g bearer) [ err e ↦ err e | ok claims ↦ ok (some claims) ]

unfoldable pub bearer_token : Text → Text
bearer_token header =
    let authorization = trim_space header in
    if has_prefix authorization (text "Bearer ")
    then trim_space (trim_prefix authorization (text "Bearer "))
    else []

unfoldable pub is_data_path : Text → Bool
is_data_path path = has_prefix path (text "/v1/") || has_prefix path (text "/rest/v1/")

-- `mapGatewayAuthError`; `auth_disabled` falls to its default.
unfoldable pub map_gateway_auth_error : GatewayError → ApiError
map_gateway_auth_error missing_api_key = auth_error (text "No API key found in request")
map_gateway_auth_error invalid_api_key = auth_error (text "Invalid API key")
map_gateway_auth_error missing_bearer = auth_error (text "No authorization token was found")
map_gateway_auth_error (invalid_jwt e) = auth_error (
    if contains e (text "expired")
    then text "JWT expired"
    else text "JWT cryptographic operation failed")
map_gateway_auth_error auth_disabled = auth_error (text "gateway auth disabled")

-- What `DataAuth` does with a request: it hands it on, with the claims if there are any, or answers
-- with an error.
pub data Passage : Type 0 where
  handed_on : Option GatewayClaims → Passage
  turned_away : ApiError → Passage

-- The arguments are the path and the headers `apikey` and `Authorization`.
unfoldable pub data_auth :
    (Text → Text → Result Text Token) → Time → Gateway → Text → Text → Text → Passage
unfolding validate is_data_path bearer_token map_gateway_auth_error
data_auth jwt now g path apikey authorization =
    if not (is_data_path path) || not g.enabled
    then handed_on none
    else elim (validate jwt now g apikey (bearer_token authorization)) [
      | ok claims ↦ handed_on claims
      | err auth_disabled ↦ handed_on none
      | err e ↦ turned_away (map_gateway_auth_error e)
    ]
