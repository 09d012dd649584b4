-- ===== src/FileStore/Functions.antt =====
-- store.go and crud.go: functions.
use lowcode_wrapper.Base.{
  Bool, ◌&&◌, ◌||◌, not, none, some, List, [], ◌∷◌, ◌++◌, map, Text, text, text_eq, text_lt, ◌==◌,
  if◌then◌else◌, is_empty, any, find, locate, remove_at, set, or_else, Result, ok, err,
}
use lowcode_wrapper.Base.Sort.{sort_slice}
use lowcode_wrapper.Models.{
  Uuid, Function, ResolvedFunction, CreateFunctionRequest, UpdateFunctionRequest,
}
use lowcode_wrapper.FileStore.Records.{
  FunctionRecord, Snapshot, StoreError, not_found, required, function_exists, server_disabled, Env,
  Outcome, with_lock, raw_to_node, server_model, function_model, server_name_of, schema_or_public,
  options_or_empty,
}
use lowcode_wrapper.FileStore.Tables.{last_name}

abbrev pub same_function : Text → Text → FunctionRecord → Bool
same_function schema name rec = text_eq rec.schema_name schema && text_eq rec.name name

abbrev pub function_less : Function → Function → Bool
function_less a b =
    if text_eq a.schema_name b.schema_name
    then text_lt a.name b.name
    else text_lt a.schema_name b.schema_name

module _ (env : Env) where
  unfoldable pub function_of_request : Uuid → Uuid → CreateFunctionRequest → FunctionRecord
  function_of_request id server_id req = record {
    id = id;
    server_id = server_id;
    schema_name = schema_or_public req.schema_name;
    name = req.name;
    operation = req.operation;
    remote_path = req.remote_path;
    method = req.method;
    options = raw_to_node env (options_or_empty req.options);
  }

  -- The body of `CreateFunction`.
  unfoldable pub insert_function :
      Uuid → CreateFunctionRequest → Snapshot → Result StoreError (Function × Snapshot)
  unfolding function_of_request
  insert_function id req s =
      let schema = schema_or_public req.schema_name in
      elim (find (λ srv. text_eq srv.name req.server_name) s.servers) [
        | none ↦ err not_found
        | some srv ↦
            if any (same_function schema req.name) s.functions
            then err (function_exists schema req.name)
            else let fn : Function = record {
              id = id;
              server_id = srv.id;
              schema_name = schema;
              name = req.name;
              operation = req.operation;
              remote_path = req.remote_path;
              method = req.method;
              options = options_or_empty req.options;
              server_name = req.server_name;
            } in
              ok
                (fn, record s { functions = s.functions ++ function_of_request id srv.id req ∷ [] })
      ]

  unfoldable pub create_function : Uuid → CreateFunctionRequest → Snapshot → Outcome Function
  unfolding insert_function with_lock
  create_function id req s =
      if is_empty req.server_name || is_empty req.name || is_empty req.operation
      then (err (required (text "serverName, name and operation")), s)
      else with_lock env (insert_function id req) s

  unfoldable pub list_functions : Snapshot → List Function
  unfolding last_name
  list_functions s =
      sort_slice function_less
        (map (λ rec. function_model env (last_name s.servers rec.server_id) rec) s.functions)

  unfoldable pub get_function_by_id : Uuid → Snapshot → Result StoreError Function
  get_function_by_id id s = elim (find (λ rec. rec.id == id) s.functions) [
    | none ↦ err not_found
    | some rec ↦ ok (function_model env (server_name_of s.servers rec.server_id) rec)
  ]

  unfoldable pub changed_function : UpdateFunctionRequest → FunctionRecord → FunctionRecord
  changed_function req rec = record rec {
    operation = or_else req.operation rec.operation;
    remote_path = or_else req.remote_path rec.remote_path;
    method = or_else req.method rec.method;
    options = if is_empty req.options then rec.options else raw_to_node env req.options;
  }

  unfoldable pub replace_function :
      Uuid → UpdateFunctionRequest → Snapshot → Result StoreError (Function × Snapshot)
  unfolding changed_function
  replace_function id req s = elim (locate (λ rec. rec.id == id) s.functions) [
    | none ↦ err not_found
    | some (i, old) ↦
        let rec = changed_function req old in
        ok (
          function_model env (server_name_of s.servers rec.server_id) rec,
          record s { functions = set s.functions i rec },
        )
  ]

  unfoldable pub update_function : Uuid → UpdateFunctionRequest → Snapshot → Outcome Function
  unfolding replace_function with_lock
  update_function id req = with_lock env (replace_function id req)

  unfoldable pub drop_function : Uuid → Snapshot → Result StoreError (Unit {0} × Snapshot)
  drop_function id s = elim (locate (λ rec. rec.id == id) s.functions) [
    | none ↦ err not_found
    | some (i, _) ↦ ok (tt, record s { functions = remove_at s.functions i })
  ]

  unfoldable pub delete_function : Uuid → Snapshot → Outcome (Unit {0})
  unfolding drop_function with_lock
  delete_function id = with_lock env (drop_function id)

  unfoldable pub resolve_function : Text → Text → Snapshot → Result StoreError ResolvedFunction
  resolve_function schema name s = elim (find (same_function schema name) s.functions) [
    | none ↦ err not_found
    | some fn ↦ elim (find (λ srv. srv.id == fn.server_id) s.servers) [
      | none ↦ err not_found
      | some srv ↦
          if not srv.enabled
          then err (server_disabled srv.name)
          else ok
              (record { function = function_model env srv.name fn; server = server_model env srv })
    ]
  ]
