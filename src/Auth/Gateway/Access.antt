-- ===== src/Auth/Gateway/Access.antt =====
-- Which requests reach the data API.
use lowcode_wrapper.Base.{
  Bool, true, false, not, ◌&&◌, ◌||◌, Text, text_eq, trim_space, is_empty, Result, ok, err, ◌≡◌,
  refl, arith, Result-cases, inl, inr,
}
use lowcode_wrapper.Models.{Time}
use lowcode_wrapper.Auth.Gateway.{
  Gateway, Token, Passage, handed_on, turned_away, is_api_key, is_expired, parse_jwt, validate,
  bearer_token, is_data_path, data_auth,
}

abbrev pub is_handed_on : Passage → Bool
is_handed_on (handed_on c) = true
is_handed_on (turned_away e) = false

abbrev pub is_ok : {E A : Type 0} → Result E A → Bool
is_ok (ok a) = true
is_ok (err e) = false

-- The JWT library accepts the token as valid, and it has not expired.
abbrev pub is_good_token : Time → Result Text Token → Bool
is_good_token now (err e) = false
is_good_token now (ok token) = token.valid && not (is_expired now token)

abbrev is_key : Gateway → Text → Bool
is_key g key =
    not (is_empty key)
    && ((not (is_empty g.anon_key) && text_eq key g.anon_key)
        || (not (is_empty g.service_key) && text_eq key g.service_key))

-- What a request needs: a key, and a bearer that is a key or a good token under a configured secret.
abbrev pub has_access : (Text → Text → Result Text Token) → Time → Gateway → Text → Text → Bool
has_access jwt now g apikey bearer =
    is_key g apikey
    && (is_key g bearer
        || (not (is_empty bearer)
            && not (is_empty g.jwt_secret)
            && is_good_token now (jwt g.jwt_secret bearer)))

parse_jwt-ok :
    (jwt : Text → Text → Result Text Token) (now : Time) (g : Gateway) (s : Text)
    → is_ok (parse_jwt jwt now g s) ≡ is_good_token now (jwt g.jwt_secret s)
unfolding parse_jwt
parse_jwt-ok jwt now g s = elim (Result-cases (jwt g.jwt_secret s)) [
  | inl (token, parsed) ↦ rw (parsed, parse_jwt) (ground arith)
  | inr (e, failed) ↦ rw (failed, parse_jwt) refl
]

-- With the gateway enabled, a request for a path of the data API is handed on exactly when its apikey
-- header is the anonymous or the service key, and its bearer is such a key too or a token that the JWT
-- library accepts under the configured secret and that has not expired.
pub data_auth-handed_on :
    (jwt : Text → Text → Result Text Token) (now : Time) (g : Gateway)
    (path apikey authorization : Text)
    → g.enabled ≡ true
    → is_data_path path ≡ true
    → is_handed_on (data_auth jwt now g path apikey authorization)
      ≡ has_access jwt now g (trim_space apikey) (trim_space (bearer_token authorization))
unfolding data_auth validate is_api_key
data_auth-handed_on jwt now g path apikey authorization on guarded =
    let bearer = trim_space (bearer_token authorization) in
    let good = parse_jwt-ok jwt now g bearer in ground (arith, good)
