-- ===== src/Rest/Tests.antt =====
-- Requests and answers of the data API.
use lowcode_wrapper.Base.{
  true, false, some, [], ◌∷◌, ◌++◌, text, text_eq, ◌≡◌, refl, if◌then◌else◌, negsuc, arith,
}
use lowcode_wrapper.Models.{str, Fields}
use lowcode_wrapper.Postgrest.Query.{Prefer}
use lowcode_wrapper.Postgrest.Headers.{parse_object_mode}
use lowcode_wrapper.Rest.Route.{
  Request, DataApiResource, parse_data_api_resource, schema_from_request,
}
use lowcode_wrapper.Rest.Route.Paths.{parse_data_api_resource-table}
use lowcode_wrapper.Rest.Body.{write_select_result, new_writer}
use lowcode_wrapper.Rest.Body.Replies.{status_of, fits, write_select_result-status}

abbrev request : Request
request = record {
  method = text "GET";
  path = text "/rest/v1/items";
  query = [];
  accept_profile = text "sales";
  content_profile = [];
  accept = [];
  prefer = [];
}

parse_data_api_resource-table_example :
    (parse_data_api_resource (text "/rest/v1/" ++ text "items") request
      ≡ some (record { schema = schema_from_request request; table = text "items"; rpc = [] }))
    × (parse_data_api_resource (text "/v1/" ++ text "items") request
        ≡ some (record { schema = schema_from_request request; table = text "items"; rpc = [] }))
unfolding text_eq
parse_data_api_resource-table_example =
    parse_data_api_resource-table request (text "items") refl refl refl

abbrev row : Fields
row = (text "id", str (text "7")) ∷ []

abbrev exact : Prefer
exact = record { representation = false; upsert = false; count_exact = true }

write_select_result-status_example :
    status_of (
      write_select_result
        (text "application/vnd.pgrst.object+json")
        []
        (row ∷ row ∷ [])
        10
        exact
        (negsuc 0)
        new_writer)
    ≡ (if fits (parse_object_mode (text "application/vnd.pgrst.object+json") []) 2
        then 200
        else 404)
write_select_result-status_example =
    write_select_result-status (text "application/vnd.pgrst.object+json") [] (row ∷ row ∷ []) 10
      exact (negsuc 0) (omega arith) (omega arith) refl

abbrev sales_items : DataApiResource
sales_items = record { schema = text "sales"; table = text "items"; rpc = [] }

abbrev remove_items : Request
remove_items = record request { method = text "DELETE"; content_profile = text "sales" }
