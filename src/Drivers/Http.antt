-- ===== src/Drivers/Http.antt =====
-- internal/driver/http: the requests that the driver sends and what it makes of the answers. net/http with
-- its URLs and the JSON library are the argument `web`; the names of headers are in their canonical form. Invoke is not modelled.
pub mod Opened
pub mod Operations
pub mod Parameters
pub mod Reordered
pub mod Upstream
use lowcode_wrapper.Base.{
  ℕ, suc, ltb, leb, Bool, true, false, not, ◌&&◌, ◌||◌, ◌==◌, any, Option, none, some, or_else,
  List, [], ◌∷◌, ◌++◌, keep, Text, text, text_eq, trim_space, trim_prefix, to_lower, contains,
  if◌then◌else◌, is_empty, Result, ok, err,
}
use lowcode_wrapper.Models.{Fields, Column, ResolvedTable, remote_table_name}
use lowcode_wrapper.Postgrest.Query.{Values, OrderSpec, set_value, filters_to_query_values}
use lowcode_wrapper.Postgrest.Mapping.{map_filters, map_row_to_remote, map_rows_from_remote}
use lowcode_wrapper.Engine.Action.{SelectRequest, RowRequest, DeleteRequest, DriverError, Call}
use lowcode_wrapper.Rest.Route.{trim_slashes}
use lowcode_wrapper.Auth.Outgoing.{Message, Response, Client, HttpAuth, apply_http_auth}
use lowcode_wrapper.Rest.Body.{Headers, set_header}
use lowcode_wrapper.Drivers.Sql.{decimal, join, driver_refusal}

pub record Web (W : Type 0) : Type 0 where
  pub client : Client W
  pub marshal : Fields → Result Text Text
  pub read_rows : Text → Option (List Fields)
  pub read_row : Text → Option Fields
  -- The headers in the options of a table; `none` where they cannot be read.
  pub header_options : Text → Option Headers

pub record HttpDriver : Type 0 where
  pub auth : Option HttpAuth
  pub base_url : Text
  pub base_path : Text
  pub headers : Headers

unfoldable pub table_resource_path : HttpDriver → ResolvedTable → Text
unfolding remote_table_name trim_slashes trim_prefix
table_resource_path d resolved =
    let schema = resolved.table.schema_name in
    let name = remote_table_name resolved.table in
    let remote =
      if not (is_empty schema) && not (text_eq schema (text "public"))
      then schema ++ (b'/' ∷ name)
      else name in
    let based =
      if is_empty d.base_path
      then remote
      else trim_slashes d.base_path ++ (b'/' ∷ trim_prefix remote (text "/")) in
    b'/' ∷ trim_prefix (trim_space based) (text "/")

-- The body of the loop of `applyHeaderMaps`, and the loop.
unfoldable pub apply_header_map : Headers → Headers → Headers
unfolding set_header
apply_header_map [] sent = sent
apply_header_map ((k, v) ∷ headers) sent =
    let key = trim_space k in
    let value = trim_space v in
    apply_header_map headers
      (if is_empty key || is_empty value then sent else set_header key value sent)

-- `url.Values.Add` on the entries.
unfoldable pub add_value : Text → Text → Values → Values
add_value key v [] = (key, v ∷ []) ∷ []
add_value key v ((k, vs) ∷ values) =
    let rest = add_value key v values in
    if text_eq k key then (k, vs ++ v ∷ []) ∷ values else (k, vs) ∷ rest

unfoldable pub add_orders : List OrderSpec → Values → Values
unfolding add_value
add_orders [] q = q
add_orders (o ∷ order) q =
    add_orders order
      (add_value (text "order") (o.column ++ (if o.desc then text ".desc" else text ".asc")) q)

-- `limit` and `offset`, unless they are 0.
unfoldable pub set_number : Text → ℕ → Values → Values
unfolding set_value
set_number key n q = if ltb 0 n then set_value key (decimal n) q else q

-- The parameters of `Select`, in the order in which they are set; `q.Encode` then sorts them by key.
unfoldable pub select_values : SelectRequest → Values
unfolding filters_to_query_values map_filters set_value add_orders set_number
select_values req =
    let filters = filters_to_query_values [] (map_filters req.resolved.columns req.filters) in
    let selected =
      if is_empty req.select
      then filters
      else set_value (text "select") (join (text ",") req.select) filters in
    set_number (text "offset") req.offset
      (set_number (text "limit") req.limit (add_orders req.order selected))

unfoldable pub is_success : ℕ → Bool
is_success status = leb 200 status && ltb status 300

unfoldable pub is_conflict_status : ℕ → Text → Bool
is_conflict_status code content =
    let s = to_lower content in
    code == 409
    || code == 422
    || contains s (text "duplicate")
    || contains s (text "unique")
    || contains s (text "already exists")

-- The error for a status that is no success.
abbrev pub failed_status : Text → Text → Response → DriverError
failed_status what path resp = driver_refusal (
    text "http "
    ++ (what ++ (b' ' ∷ path ++ (text ": " ++ (resp.status_line ++ (b' ' ∷ resp.content))))))

unfoldable pub err_if_zero : Result DriverError ℕ → Result DriverError (Unit {0})
err_if_zero (err e) = err e
err_if_zero (ok n) =
    if n == 0
    then err (driver_refusal (text "upsert conflict but update affected 0 rows"))
    else ok tt

module _ {W : Type 0} (web : Web W) (d : HttpDriver) where
  -- The headers of the driver and of the table.
  unfoldable pub request_headers : ResolvedTable → Headers
  unfolding apply_header_map
  request_headers resolved =
      apply_header_map (or_else (web.header_options resolved.table.options) [])
        (apply_header_map d.headers [])

  unfoldable pub with_query : Text → Values → Text
  with_query path q = if is_empty q then path else path ++ (b'?' ∷ web.client.encode q)

  -- The path of the table with the filters of a request.
  unfoldable pub filtered_path : ResolvedTable → Values → Text
  unfolding with_query table_resource_path
  filtered_path resolved q = with_query (table_resource_path d resolved) q

  -- From the request to the answer.
  unfoldable pub exchange : Message → Call W Response
  unfolding apply_http_auth
  exchange message w = elim (web.client.refuse message) [
    | some e ↦ (err (driver_refusal e), w)
    | none ↦
        let (signed, w') = apply_http_auth web.client d.auth message w in
        elim signed [
          | err e ↦ (err (driver_refusal e), w')
          | ok full ↦
              let (answered, w'') = web.client.send full w' in
              (elim answered [ err e ↦ err (driver_refusal e) | ok resp ↦ ok resp ], w'')
        ]
  ]

  unfoldable pub parse_json_rows : Text → Result DriverError (List Fields)
  parse_json_rows content = elim (web.read_rows content) [
    | some rows ↦ ok rows
    | none ↦ elim (web.read_row content) [
      | some row ↦ ok (row ∷ [])
      | none ↦ err (driver_refusal (text "invalid json response"))
    ]
  ]

  abbrev pub first_row : List Fields → Option Fields
  first_row [] = none
  first_row (row ∷ rows) = some row

  unfoldable pub parse_one_row : Text → List Column → Result DriverError (Option Fields)
  unfolding parse_json_rows map_rows_from_remote
  parse_one_row content cols = elim (parse_json_rows content) [
    | err e ↦ err e
    | ok rows ↦ ok (first_row (map_rows_from_remote cols rows))
  ]

  -- An answer whose status is a success, and what is made of it.
  abbrev pub succeeded :
      {A : Type 0}
      → Text
      → Text
      → (Response → Result DriverError A)
      → Result DriverError Response
      → Result DriverError A
  succeeded what path next (err e) = err e
  succeeded what path next (ok resp) =
      if is_success resp.status then next resp else err (failed_status what path resp)
