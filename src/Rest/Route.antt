-- ===== src/Rest/Route.antt =====
-- route.go, with the paths of handler.go.
pub mod Paths
use lowcode_wrapper.Base.{
  ℕ, Bool, true, false, not, ◌&&◌, ◌||◌, Option, none, some, List, [], ◌∷◌, ◌++◌, reverse, Text,
  text, text_eq, trim_space, has_prefix, trim_prefix, split, is_empty, if◌then◌else◌, ◌==◌,
}
use lowcode_wrapper.Postgrest.Query.{Values, get_value}

-- `http.Request`, as far as the handlers read it before the body; a missing header is the empty text.
pub record Request : Type 0 where
  pub method : Text
  pub path : Text
  pub query : Values
  pub accept_profile : Text
  pub content_profile : Text
  pub accept : Text
  pub prefer : Text

pub record DataApiResource : Type 0 where
  pub schema : Text
  pub table : Text
  pub rpc : Text

unfoldable pub is_rpc : DataApiResource → Bool
is_rpc r = not (is_empty r.rpc)

abbrev pub default_schema : Text
default_schema = text "public"

unfoldable pub schema_from_request : Request → Text
schema_from_request r =
    let profile = trim_space (
      if text_eq r.method (text "GET") || text_eq r.method (text "HEAD")
      then r.accept_profile
      else r.content_profile) in
    if is_empty profile then default_schema else profile

unfoldable pub strip_data_api_prefix : Text → Text
strip_data_api_prefix path =
    if has_prefix path (text "/rest/v1/")
    then trim_prefix path (text "/rest/v1/")
    else if has_prefix path (text "/v1/")
    then trim_prefix path (text "/v1/")
    else path

-- `strings.Trim(s, "/")`
unfoldable pub trim_slashes_left : Text → Text
trim_slashes_left [] = []
trim_slashes_left (c ∷ cs) = if c == b'/' then trim_slashes_left cs else c ∷ cs

unfoldable pub trim_slashes : Text → Text
unfolding trim_slashes_left
trim_slashes s = reverse (trim_slashes_left (reverse (trim_slashes_left s)))

-- The switch on the number of parts.
unfoldable pub resource_of_parts : Request → List Text → Option DataApiResource
unfolding schema_from_request
resource_of_parts r [] = none
resource_of_parts r (name ∷ []) =
    if text_eq name (text "rpc")
    then none
    else some (record { schema = schema_from_request r; table = name; rpc = [] })
resource_of_parts r (head ∷ name ∷ []) =
    let given = trim_space (get_value r.query (text "schema")) in
    if not (text_eq head (text "rpc"))
    then none
    else some (record {
      schema = if is_empty given then schema_from_request r else given;
      table = [];
      rpc = name;
    })
resource_of_parts r (_ ∷ _ ∷ _ ∷ _) = none

-- none is the false of the second result.
unfoldable pub parse_data_api_resource : Text → Request → Option DataApiResource
unfolding resource_of_parts strip_data_api_prefix trim_slashes
parse_data_api_resource path r =
    let tail = trim_slashes (strip_data_api_prefix path) in
    if is_empty tail then none else resource_of_parts r (split b'/' tail)

unfoldable pub is_open_api_path : Text → Bool
is_open_api_path path =
    text_eq path (text "/rest/v1")
    || text_eq path (text "/rest/v1/")
    || text_eq path (text "/v1")
    || text_eq path (text "/v1/")

unfoldable pub open_api_base_path : Text → Text
open_api_base_path path = if has_prefix path (text "/v1") then text "/v1" else text "/rest/v1"

unfoldable pub schema_filter_for_open_api : Text → Text
schema_filter_for_open_api profile =
    if is_empty profile || text_eq profile default_schema then [] else profile
