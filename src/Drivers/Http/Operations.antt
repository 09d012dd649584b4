-- ===== src/Drivers/Http/Operations.antt =====
-- internal/driver/http/http.go: the operations of the driver.
use lowcode_wrapper.Base.{
  ℕ, leb, Bool, true, false, not, ◌&&◌, ◌||◌, ◌==◌, any, Option, none, List, [], ◌∷◌, ◌++◌, keep,
  Text, text, text_eq, if◌then◌else◌, is_empty, Result, ok, err,
}
use lowcode_wrapper.Models.{Fields, ResolvedTable}
use lowcode_wrapper.Postgrest.Query.{filters_to_query_values}
use lowcode_wrapper.Postgrest.Mapping.{map_filters, map_row_to_remote, map_rows_from_remote}
use lowcode_wrapper.Engine.Action.{SelectRequest, RowRequest, DeleteRequest, DriverError, Call}
use lowcode_wrapper.Rest.Body.{Headers, set_header}
use lowcode_wrapper.Drivers.Sql.{driver_refusal}
use lowcode_wrapper.Auth.Outgoing.{Message, Response}
use lowcode_wrapper.Drivers.Http.{
  Web, HttpDriver, table_resource_path, apply_header_map, select_values, is_success,
  is_conflict_status, failed_status, err_if_zero, request_headers, filtered_path, exchange,
  parse_json_rows, parse_one_row, succeeded,
}

module _ {W : Type 0} (web : Web W) (d : HttpDriver) where
  unfoldable pub http_select : SelectRequest → Call W (List Fields)
  unfolding request_headers filtered_path select_values exchange parse_json_rows set_header
      map_rows_from_remote
  http_select req w =
      let path = filtered_path web d req.resolved (select_values req) in
      let (done, w') =
        exchange web d
          (record {
            method = text "GET";
            url = d.base_url ++ path;
            headers =
                set_header (text "Accept") (text "application/json")
                  (request_headers web d req.resolved);
            content = [];
          })
          w in
      (
        elim done [
          | err e ↦ err e
          | ok resp ↦
              if leb 400 resp.status
              then err (failed_status (text "select") path resp)
              else elim (parse_json_rows web d resp.content) [
                | err e ↦ err e
                | ok rows ↦ ok (map_rows_from_remote req.resolved.columns rows)
              ]
        ],
        w',
      )

  -- A request with a JSON body: the content type and the further headers, in their order.
  abbrev json_message : Text → Text → ResolvedTable → Headers → Text → Message
  json_message method path resolved more content = record {
    method = method;
    url = d.base_url ++ path;
    headers = apply_header_map more (
        set_header (text "Content-Type") (text "application/json")
          (request_headers web d resolved));
    content = content;
  }

  abbrev accept_json : Text × Text
  accept_json = (text "Accept", text "application/json")

  -- The row of an answer, where the caller wants it and there is a body.
  unfoldable pub answered_row : RowRequest → Response → Result DriverError (Option Fields)
  unfolding parse_one_row
  answered_row req resp =
      if not req.prefer_representation || is_empty resp.content
      then ok none
      else parse_one_row web d resp.content req.resolved.columns

  unfoldable pub http_insert : RowRequest → Call W (Option Fields)
  unfolding table_resource_path exchange answered_row is_success set_header request_headers
      apply_header_map map_row_to_remote
  http_insert req w = elim (web.marshal (map_row_to_remote req.resolved.columns req.row)) [
    | err e ↦ (err (driver_refusal e), w)
    | ok body ↦
        let path = table_resource_path d req.resolved in
        let prefer =
          if req.prefer_representation
          then (text "Prefer", text "return=representation") ∷ []
          else [] in
        let (done, w') =
          exchange web d (json_message (text "POST") path req.resolved (accept_json ∷ prefer) body)
            w in
        (succeeded web d (text "insert") path (answered_row req) done, w')
  ]

  -- Any success counts as one row.
  unfoldable pub http_update : RowRequest → Call W ℕ
  unfolding filtered_path exchange is_success set_header request_headers apply_header_map
      map_row_to_remote filters_to_query_values map_filters
  http_update req w =
      let keys = req.resolved.table.key_columns in
      let row =
        keep (λ e. not (any (λ k. text_eq k e.0) keys))
          (map_row_to_remote req.resolved.columns req.row) in
      elim (web.marshal row) [
        | err e ↦ (err (driver_refusal e), w)
        | ok body ↦
            let path =
              filtered_path web d req.resolved
                (filters_to_query_values [] (map_filters req.resolved.columns req.filters)) in
            let (done, w') =
              exchange web d (json_message (text "PATCH") path req.resolved [] body) w in
            (succeeded web d (text "update") path (λ resp. ok 1) done, w')
      ]

  -- After a conflict the update decides.
  unfoldable pub upsert_answer : RowRequest → Text → Response → Call W (Bool × Option Fields)
  unfolding is_success is_conflict_status parse_one_row http_update err_if_zero
  upsert_answer req path resp w =
      if is_success resp.status
      then (
        elim (req.prefer_representation && not (is_empty resp.content)) [
          | true ↦ elim (parse_one_row web d resp.content req.resolved.columns) [
            | err e ↦ err e
            | ok row ↦ ok (resp.status == 201, row)
          ]
          | false ↦ ok (resp.status == 201, none)
        ],
        w,
      )
      else if not (is_conflict_status resp.status resp.content)
      then (err (failed_status (text "upsert") path resp), w)
      else let (done, w') = http_update req w in
        (elim (err_if_zero done) [ err e ↦ err e | ok _ ↦ ok (false, none) ], w')

  unfoldable pub http_upsert : RowRequest → Call W (Bool × Option Fields)
  unfolding table_resource_path exchange upsert_answer set_header request_headers apply_header_map
      map_row_to_remote
  http_upsert req w = elim (web.marshal (map_row_to_remote req.resolved.columns req.row)) [
    | err e ↦ (err (driver_refusal e), w)
    | ok body ↦
        let path = table_resource_path d req.resolved in
        let prefer =
          if req.prefer_representation
          then text "return=representation,resolution=merge-duplicates"
          else text "return=minimal,resolution=merge-duplicates" in
        let (done, w') =
          exchange web d
            (json_message (text "POST") path req.resolved
              (accept_json ∷ (text "Prefer", prefer) ∷ []) body)
            w in
        elim done [ err e ↦ (err e, w') | ok resp ↦ upsert_answer req path resp w' ]
  ]

  unfoldable pub http_delete : DeleteRequest → Call W ℕ
  unfolding filtered_path exchange is_success request_headers filters_to_query_values map_filters
  http_delete req w =
      let path =
        filtered_path web d req.resolved
          (filters_to_query_values [] (map_filters req.resolved.columns req.filters)) in
      let (done, w') =
        exchange web d
          (record {
            method = text "DELETE";
            url = d.base_url ++ path;
            headers = request_headers web d req.resolved;
            content = [];
          })
          w in
      (succeeded web d (text "delete") path (λ resp. ok 1) done, w')
