-- ===== src/Rest/Route/Paths.antt =====
-- The paths of tables and functions.
use lowcode_wrapper.Base.{
  ℕ, Bool, true, false, not, some, [], ◌∷◌, ◌++◌, reverse, Text, text, text_eq, has_prefix,
  trim_prefix, split, is_empty, ◌==◌, all, ◌≡◌, refl, ap, ◌∙◌, arith, all-append,
}
use mathlib.Core.List.{reverse-reverse, reverse-cons}
use lowcode_wrapper.Rest.Route.{
  Request, schema_from_request, strip_data_api_prefix, trim_slashes, trim_slashes_left,
  resource_of_parts, parse_data_api_resource,
}

abbrev pub is_plain : Text → Bool
is_plain = all (λ (c : ℕ). not (c == b'/'))

pub split-plain : (s : Text) → is_plain s ≡ true → split b'/' s ≡ s ∷ []
unfolding split
split-plain [] h = refl
split-plain (c ∷ cs) h = ground (arith, split-plain cs)

trim_slashes_left-plain : (s : Text) → is_plain s ≡ true → trim_slashes_left s ≡ s
unfolding trim_slashes_left
trim_slashes_left-plain [] h = refl
trim_slashes_left-plain (c ∷ cs) h = ground arith

is_plain-reverse : (s : Text) → is_plain s ≡ true → is_plain (reverse s) ≡ true
is_plain-reverse [] h = refl
is_plain-reverse (c ∷ cs) h =
    ap is_plain (reverse-cons c cs)
    ∙ all-append (λ (x : ℕ). not (x == b'/')) (reverse cs) (c ∷ [])
    ∙ ground (arith, is_plain-reverse cs)

pub trim_slashes-plain : (s : Text) → is_plain s ≡ true → trim_slashes s ≡ s
unfolding trim_slashes
trim_slashes-plain s h =
    ap (λ t. reverse (trim_slashes_left (reverse t))) (trim_slashes_left-plain s h)
    ∙ ap reverse (trim_slashes_left-plain (reverse s) (is_plain-reverse s h))
    ∙ reverse-reverse s

strip_data_api_prefix-prefixes :
    (s : Text)
    → (strip_data_api_prefix (text "/rest/v1/" ++ s) ≡ s)
      × (strip_data_api_prefix (text "/v1/" ++ s) ≡ s)
unfolding strip_data_api_prefix has_prefix trim_prefix
strip_data_api_prefix-prefixes [] = (refl, refl)
strip_data_api_prefix-prefixes (c ∷ s) = (refl, refl)

-- A name without a slash is one part of the path.
parse_data_api_resource-stripped :
    (r : Request) (path name : Text)
    → strip_data_api_prefix path ≡ name
    → is_plain name ≡ true
    → is_empty name ≡ false
    → text_eq name (text "rpc") ≡ false
    → parse_data_api_resource path r
      ≡ some (record { schema = schema_from_request r; table = name; rpc = [] })
unfolding parse_data_api_resource resource_of_parts
parse_data_api_resource-stripped r path name stripped plain given other =
    rw
      (
        stripped,
        parse_data_api_resource,
        trim_slashes-plain name plain,
        given,
        split-plain name plain,
        other,
      )
      refl

-- Under either prefix, the path of a name without a slash, other than `rpc`, is the path of the table
-- of that name in the schema that the profile headers give.
pub parse_data_api_resource-table :
    (r : Request) (name : Text)
    → is_plain name ≡ true
    → is_empty name ≡ false
    → text_eq name (text "rpc") ≡ false
    → (parse_data_api_resource (text "/rest/v1/" ++ name) r
        ≡ some (record { schema = schema_from_request r; table = name; rpc = [] }))
      × (parse_data_api_resource (text "/v1/" ++ name) r
          ≡ some (record { schema = schema_from_request r; table = name; rpc = [] }))
parse_data_api_resource-table r name plain given other =
    let (long, short) = strip_data_api_prefix-prefixes name in
    (
      parse_data_api_resource-stripped r _ name long plain given other,
      parse_data_api_resource-stripped r _ name short plain given other,
    )
