-- ===== src/Admin/Registered.antt =====
-- `Register` of internal/api/admin/handler.go over `http.ServeMux`, for paths that the mux does not
-- clean: a pattern that ends in a slash takes every path under it. The route of the imports is not among
-- them.
pub mod Closed
pub mod Asked
pub mod Performed
use lowcode_wrapper.Base.{
  Bool, List, [], ◌∷◌, ◌++◌, Text, text, text_eq, has_prefix, has_suffix, if◌then◌else◌,
}
use lowcode_wrapper.Auth.Admin.{admin_prefix}
use lowcode_wrapper.Admin.Interface.{MetaStore, Reply, reply_not_found}
use lowcode_wrapper.Admin.Handlers.{
  HttpRequest, Process, health, health_ready, credentials, credential_by_id, servers, server_by_id,
  tables, table_by_id, column_by_id, functions, function_by_id,
}

module _ {S E : Type 0} (store : MetaStore S E) (mode : Text) (p : Process) where
  abbrev pub Handler : Type 0
  Handler = HttpRequest → S → Reply × S

  -- The patterns of `Register` with their handlers.
  unfoldable pub patterns : List (Text × Handler)
  unfolding health health_ready credentials credential_by_id servers server_by_id tables table_by_id
      column_by_id functions function_by_id
  patterns =
      (text "/health", λ r s. (health p r, s))
      ∷ (text "/health/ready", λ r s. (health_ready p r, s))
      ∷ (admin_prefix ++ text "/credentials", credentials store mode p)
      ∷ (admin_prefix ++ text "/credentials/", credential_by_id store mode p)
      ∷ (admin_prefix ++ text "/servers", servers store mode p)
      ∷ (admin_prefix ++ text "/servers/", server_by_id store mode p)
      ∷ (admin_prefix ++ text "/tables", tables store mode p)
      ∷ (admin_prefix ++ text "/tables/", table_by_id store mode p)
      ∷ (admin_prefix ++ text "/columns/", column_by_id store mode p)
      ∷ (admin_prefix ++ text "/functions", functions store mode p)
      ∷ (admin_prefix ++ text "/functions/", function_by_id store mode p)
      ∷ []

  -- Whether the mux takes the path by this pattern.
  unfoldable pub is_matched : Text → Text → Bool
  unfolding has_prefix has_suffix
  is_matched pattern path =
      if has_suffix pattern (text "/") then has_prefix path pattern else text_eq path pattern

  unfoldable pub dispatch : List (Text × Handler) → Handler
  unfolding is_matched
  dispatch [] r s = (reply_not_found, s)
  dispatch ((pattern, handler) ∷ rest) r s =
      let otherwise = dispatch rest r s in
      if is_matched pattern r.path then handler r s else otherwise

  unfoldable pub serve : Handler
  unfolding dispatch patterns
  serve = dispatch patterns

-- The requests in the order in which the store meets them, each with the store as it is called then;
-- the answers with the requests, and the store after them.
unfoldable pub serve_all :
    {S E : Type 0}
    → Text
    → Process
    → List (MetaStore S E × HttpRequest)
    → S
    → List (HttpRequest × Reply) × S
unfolding serve
serve_all mode p [] s = ([], s)
serve_all mode p ((store, r) ∷ calls) s =
    let (reply, t) = serve store mode p r s in
    let (replies, u) = serve_all mode p calls t in ((r, reply) ∷ replies, u)
