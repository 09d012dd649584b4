-- ===== src/Rest/Handlers.antt =====
-- handler.go and errors.go: the handlers of the data API over the operations of the engine. A body
-- that was read is a parameter, with what the JSON library makes of it.
pub mod Answers
use lowcode_wrapper.Base.{
  ℕ, Bool, true, false, ◌&&◌, not, Option, none, some, List, [], ◌∷◌, Text, text, text_eq,
  if◌then◌else◌, is_empty, contains, is_some, Result, ok, err, ℤ, pos, negsuc,
}
use lowcode_wrapper.Models.{Time, Value, Fields}
use lowcode_wrapper.Postgrest.Query.{Query, Prefer, Values, get_value, parse_prefer}
use lowcode_wrapper.Postgrest.Groups.{parse_query, rejects_select}
use lowcode_wrapper.Postgrest.Errors.{
  ApiError, ErrorContext, Failure, map_failure, internal_error, invalid_body, unsupported_method,
  embed_not_supported, invalid_rpc_method, invalid_path,
}
use lowcode_wrapper.Engine.Action.{Services, EngineState, Action, plain_failure}
use lowcode_wrapper.Engine.Operations.{
  select, count, insert, insert_many, update, delete, RpcResult, invoke_rpc,
}
use lowcode_wrapper.Rest.Route.{Request, is_rpc, parse_data_api_resource}
use lowcode_wrapper.Rest.Body.{
  Payload, no_body, row_body, rows_body, error_body, rpc_body, Writer, new_writer, write_header,
  write_json, Written, written, refused, panicked, write_select_result, write_mutation_no_content,
  write_mutation_rows,
}

-- `WriteError` on an API error, and on another one; the log is left out.
unfoldable pub write_api_error : ApiError → Writer → Writer
unfolding write_json
write_api_error e w = write_json e.status (error_body e) w

unfoldable pub write_error : Failure → ErrorContext → Writer → Writer
unfolding write_api_error map_failure
write_error e ctx w = write_api_error (map_failure e ctx) w

abbrev pub table_context : Text → Text → ErrorContext
table_context schema table = record { schema = schema; table = table; rpc = [] }

-- What is written of the answer to a select; a panic leaves the writer.
abbrev pub finish_select : Written → Writer
finish_select (written w) = w
finish_select (refused e) = write_api_error e new_writer
finish_select panicked = new_writer

module _ {W : Type 0} (sv : Services W) (now : Time) where
  unfoldable pub handle_select :
      Request → Text → Text → Query → Prefer → EngineState W → Writer × EngineState W
  unfolding select count write_error write_select_result
  handle_select r schema table q prefer st =
      let ctx = table_context schema table in
      let (got, st1) = select sv now schema table q st in
      elim got [
        | err e ↦ (write_error e ctx new_writer, st1)
        | ok rows ↦
            if prefer.count_exact
            then (let (counted, st2) = count sv now schema table q st1 in
                elim counted [
                  | err e ↦ (write_error e ctx new_writer, st2)
                  | ok total ↦ (
                    finish_select (
                        write_select_result r.accept r.prefer rows q.offset prefer (pos total)
                          new_writer),
                    st2,
                  )
                ])
            else (
              finish_select (
                  write_select_result r.accept r.prefer rows q.offset prefer (negsuc 0) new_writer),
              st1,
            )
      ]

  -- After the change, with `return=representation` the rows are selected again.
  unfoldable pub answer_mutation :
      Text → Text → Query → Prefer → EngineState W → Writer × EngineState W
  unfolding select write_error write_mutation_rows write_mutation_no_content
  answer_mutation schema table q prefer st =
      if prefer.representation
      then (let (got, st1) = select sv now schema table q st in
          elim got [
            | err e ↦ (write_error e (table_context schema table) new_writer, st1)
            | ok rows ↦ (write_mutation_rows rows new_writer, st1)
          ])
      else (write_mutation_no_content new_writer, st)

  unfoldable pub handle_update :
      Result Failure Fields → Text → Text → Query → Prefer → EngineState W → Writer × EngineState W
  unfolding update write_error answer_mutation
  handle_update (err e) schema table q prefer st =
      (write_error e (table_context schema table) new_writer, st)
  handle_update (ok row) schema table q prefer st =
      let (done, st1) = update sv now schema table q row st in
      elim done [
        | err e ↦ (write_error e (table_context schema table) new_writer, st1)
        | ok n ↦ answer_mutation schema table q prefer st1
      ]

  unfoldable pub handle_delete :
      Text → Text → Query → Prefer → EngineState W → Writer × EngineState W
  unfolding delete write_error answer_mutation
  handle_delete schema table q prefer st =
      let (done, st1) = delete sv now schema table q st in
      elim done [
        | err e ↦ (write_error e (table_context schema table) new_writer, st1)
        | ok n ↦ answer_mutation schema table q prefer st1
      ]

  -- A row or rows to insert, as `decodeInsertBody` gives them.
  unfoldable pub handle_insert :
      Result Failure (List Fields × Bool)
      → Text
      → Text
      → Prefer
      → EngineState W
      → Writer × EngineState W
  unfolding insert insert_many write_error write_api_error write_json
  handle_insert (err e) schema table prefer st =
      (write_error e (table_context schema table) new_writer, st)
  handle_insert (ok ([], single)) schema table prefer st =
      (write_api_error (invalid_body none) new_writer, st)
  handle_insert (ok (row ∷ rows, false)) schema table prefer st =
      let (done, st1) = insert_many sv now schema table (row ∷ rows) prefer st in
      elim done [
        | err e ↦ (write_error e (table_context schema table) new_writer, st1)
        | ok ret ↦ (
          if prefer.representation
              then write_json 201 (rows_body ret) new_writer
              else write_header 201 new_writer,
          st1,
        )
      ]
  handle_insert (ok (row ∷ rows, true)) schema table prefer st =
      let (done, st1) = insert sv now schema table row prefer st in
      elim done [
        | err e ↦ (write_error e (table_context schema table) new_writer, st1)
        | ok none ↦ (write_header 201 new_writer, st1)
        | ok (some ret) ↦ (
          if prefer.representation
              then write_json 201 (row_body ret) new_writer
              else write_header 201 new_writer,
          st1,
        )
      ]

  -- What the handlers read of a body, if they do.
  pub record Bodies : Type 0 where
    pub row : Result Failure Fields
    pub rows : Result Failure (List Fields × Bool)

  -- The part of `handle` for a table.
  unfoldable pub handle_table :
      Request → Bodies → Text → Text → EngineState W → Writer × EngineState W
  unfolding parse_query parse_prefer rejects_select get_value handle_select handle_insert
      handle_update handle_delete write_api_error
  handle_table r bodies schema table st =
      let q = parse_query r.query in
      let prefer = parse_prefer r.prefer in
      if rejects_select q.select (get_value r.query (text "select"))
      then (write_api_error embed_not_supported new_writer, st)
      else if text_eq r.method (text "GET")
      then handle_select r schema table q prefer st
      else if text_eq r.method (text "POST")
      then handle_insert bodies.rows schema table prefer st
      else if text_eq r.method (text "PATCH")
      then handle_update bodies.row schema table q prefer st
      else if text_eq r.method (text "DELETE")
      then handle_delete schema table q prefer st
      else (write_api_error (unsupported_method r.method) new_writer, st)

  -- The parameters of a function: the first value of each, but for `schema`.
  abbrev pub rpc_query : Values → List (Text × Text)
  rpc_query [] = []
  rpc_query ((k, []) ∷ values) = rpc_query values
  rpc_query ((k, v ∷ vs) ∷ values) =
      let rest = rpc_query values in if text_eq k (text "schema") then rest else (k, v) ∷ rest

  -- The body is an empty object where the request has none.
  unfoldable pub handle_rpc :
      Request → Result Failure Fields → Text → Text → EngineState W → Writer × EngineState W
  unfolding invoke_rpc write_error write_api_error write_json
  handle_rpc r body schema name st =
      let ctx : ErrorContext = record { schema = schema; table = []; rpc = name } in
      if not (text_eq r.method (text "POST"))
      then (write_api_error invalid_rpc_method new_writer, st)
      else elim body [
        | err e ↦ (write_error e ctx new_writer, st)
        | ok fields ↦
            let (done, st1) = invoke_rpc sv now schema name fields (rpc_query r.query) st in
            elim done [
              | err e ↦ (write_error e ctx new_writer, st1)
              | ok result ↦ (write_json 200 (rpc_body result) new_writer, st1)
            ]
      ]

  -- `handle` for a path that is not that of the OpenAPI document.
  unfoldable pub handle : Request → Bodies → EngineState W → Writer × EngineState W
  unfolding parse_data_api_resource is_rpc handle_rpc handle_table write_api_error
  handle r bodies st = elim (parse_data_api_resource r.path r) [
    | none ↦ (write_api_error invalid_path new_writer, st)
    | some res ↦
        if is_rpc res
        then handle_rpc r bodies.row res.schema res.rpc st
        else handle_table r bodies res.schema res.table st
  ]
