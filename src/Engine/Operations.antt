-- ===== src/Engine/Operations.antt =====
-- engine.go, with count.go of internal/driver: the operations on tables and functions. Each runs at a
-- time and over the services; calls of one another are as in the source.
pub mod Missing
use lowcode_wrapper.Base.{
  ℕ, Bool, true, false, ◌||◌, Option, none, some, List, [], ◌∷◌, ◌++◌, map, any, Text, text,
  text_eq, if◌then◌else◌, is_empty, length, Result, ok, err,
}
use lowcode_wrapper.Models.{Time, Value, Fields, Server, ResolvedTable, ResolvedFunction}
use lowcode_wrapper.FileStore.Records.{StoreError}
use lowcode_wrapper.FileStore.Credentials.{server_credential}
use lowcode_wrapper.FileStore.Tables.{resolve_table}
use lowcode_wrapper.FileStore.Functions.{resolve_function}
use lowcode_wrapper.Postgrest.Query.{Query, Prefer, Filter, eq}
use lowcode_wrapper.Postgrest.Errors.{Failure, quote}
use lowcode_wrapper.Engine.Pool.{get, pooled}
use lowcode_wrapper.Engine.Breaker.{allow, success, fail}
use lowcode_wrapper.Engine.MetaCache.{cached_table, cached_function}
use lowcode_wrapper.Engine.Action.{
  SelectRequest, RowRequest, DeleteRequest, InvokeRequest, DriverError, Call, Drivers, Services,
  EngineState, Action, give, stop, ◌>>=◌, plain_failure, store_failure, wrap_not_supported,
}

-- What `InvokeRPC` returns: rows, a row that may be nil, the number of rows under "affected", or what
-- the driver answers.
pub data RpcResult : Type 0 where
  rows_result : List Fields → RpcResult
  row_result : Option Fields → RpcResult
  affected : ℕ → RpcResult
  answer : Value → RpcResult

abbrev pub from_store : {A : Type 0} → Result StoreError A → Result Failure A
from_store (ok a) = ok a
from_store (err e) = err (store_failure e)

abbrev pub no_query : Query
no_query = record { select = []; filters = []; or_groups = []; order = []; limit = 0; offset = 0 }

-- The query and the preferences of `invokeTableOp`: an equality for each entry of the query.
abbrev pub query_of : List (Text × Text) → Query
query_of query = record no_query {
  filters = map (λ (e : Text × Text). record { column = e.0; op = eq; value = e.1 }) query;
}

abbrev pub prefer_of : Text → Prefer
prefer_of op = record {
  representation = true;
  upsert = text_eq op (text "upsert");
  count_exact = false;
}

module _ {W : Type 0} (sv : Services W) (now : Time) where
  -- `resolveTable`, with the cache if there is one.
  unfoldable pub find_table : Text → Text → Action W ResolvedTable
  find_table schema table st = elim st.meta [
    | none ↦ (from_store (resolve_table sv.env schema table st.store), st)
    | some c ↦
        let (found, c') = cached_table sv.digest sv.env now schema table st.store c in
        (from_store found, record st { meta = some c' })
  ]

  unfoldable pub find_function : Text → Text → Action W ResolvedFunction
  find_function schema name st = elim st.meta [
    | none ↦ (from_store (resolve_function sv.env schema name st.store), st)
    | some c ↦
        let (found, c') = cached_function sv.digest sv.env now schema name st.store c in
        (from_store found, record st { meta = some c' })
  ]

  -- The function that `DriverFor` gives to the pool, with the pool's `Get` around it.
  unfoldable pub connect : Server → Option Fields → Action W ℕ
  unfolding get pooled allow success fail
  connect srv cred st =
      let version = sv.version srv cred in
      elim (pooled st.pool.items srv.id version) [
        | some drv ↦ (ok drv, st)
        | none ↦
            let (granted, b) = allow now st.breaker in
            if granted
            then (let (made, w) = sv.drivers.connect srv cred st.world in
                elim made [
                  | err e ↦ (err e.failure, record st { breaker = fail now b; world = w })
                  | ok _ ↦
                      let (given, p) = get srv.id version true st.pool in
                      elim given [
                        | some (drv, _) ↦
                            (ok drv, record st { breaker = success b; pool = p; world = w })
                        | none ↦
                            (err (plain_failure []), record st { breaker = success b; world = w })
                      ]
                ])
            else (err (plain_failure (text "circuit breaker open")), record st { breaker = b })
      ]

  unfoldable pub driver_for : Server → Action W ℕ
  unfolding connect
  driver_for srv st = elim (server_credential sv.env (some srv) st.store) [
    | err e ↦ (err (store_failure e), st)
    | ok cred ↦ connect srv cred st
  ]

  -- A method of the driver; `wrap` is what becomes of its error.
  abbrev pub use_driver : {A : Type 0} → (DriverError → Failure) → Call W A → Action W A
  use_driver wrap call st =
      let (done, w) = call st.world in
      (elim done [ ok a ↦ ok a | err e ↦ err (wrap e) ], record st { world = w })

  abbrev pub plain : DriverError → Failure
  plain e = e.failure

  unfoldable pub select : Text → Text → Query → Action W (List Fields)
  unfolding find_table driver_for
  select schema table q = do
    resolved ← find_table schema table
    drv ← driver_for resolved.server
    use_driver plain (
        sv.drivers.select drv (record {
          resolved = resolved;
          select = q.select;
          filters = q.filters;
          or_groups = q.or_groups;
          order = q.order;
          limit = q.limit;
          offset = q.offset;
        }))

  abbrev pub count_request : ResolvedTable → Query → SelectRequest
  count_request resolved q = record {
    resolved = resolved;
    select = [];
    filters = q.filters;
    or_groups = q.or_groups;
    order = [];
    limit = 0;
    offset = 0;
  }

  -- `driver.Count`: the driver's own count, or the length of what it selects.
  unfoldable pub driver_count : ℕ → SelectRequest → Action W ℕ
  driver_count drv req = elim (sv.drivers.count drv) [
    | some own ↦ use_driver plain (own req)
    | none ↦ do
      rows ←
          use_driver plain
            (sv.drivers.select drv (record req { select = []; limit = 0; offset = 0 }))
      give (length rows)
  ]

  unfoldable pub count : Text → Text → Query → Action W ℕ
  unfolding find_table driver_for driver_count
  count schema table q = do
    resolved ← find_table schema table
    drv ← driver_for resolved.server
    driver_count drv (count_request resolved q)

  unfoldable pub insert : Text → Text → Fields → Prefer → Action W (Option Fields)
  unfolding find_table driver_for
  insert schema table row prefer = do
    resolved ← find_table schema table
    drv ← driver_for resolved.server
    let req : RowRequest = record {
      resolved = resolved;
      row = row;
      filters = [];
      or_groups = [];
      prefer_representation = prefer.representation;
      prefer_upsert = prefer.upsert;
      returning = [];
    }
    if prefer.upsert
        then (do
          (created, ret) ←
              use_driver (wrap_not_supported (text "upsert") resolved.server.protocol)
                (sv.drivers.upsert drv req)
          give ret)
        else use_driver (wrap_not_supported (text "insert") resolved.server.protocol)
            (sv.drivers.insert drv req)

  abbrev pub kept_rows : Bool → Option Fields → List Fields → List Fields
  kept_rows true (some row) rows = row ∷ rows
  kept_rows _ _ rows = rows

  -- The rows that were inserted before one fails stay.
  unfoldable pub insert_many : Text → Text → List Fields → Prefer → Action W (List Fields)
  unfolding insert
  insert_many schema table [] prefer = give []
  insert_many schema table (row ∷ rows) prefer = do
    ret ← insert schema table row prefer
    rest ← insert_many schema table rows prefer
    give (kept_rows prefer.representation ret rest)

  unfoldable pub update : Text → Text → Query → Fields → Action W ℕ
  unfolding find_table driver_for
  update schema table q row = do
    resolved ← find_table schema table
    drv ← driver_for resolved.server
    use_driver (wrap_not_supported (text "update") resolved.server.protocol) (
        sv.drivers.update drv (record {
          resolved = resolved;
          row = row;
          filters = q.filters;
          or_groups = q.or_groups;
          prefer_representation = false;
          prefer_upsert = false;
          returning = [];
        }))

  unfoldable pub delete : Text → Text → Query → Action W ℕ
  unfolding find_table driver_for
  delete schema table q = do
    resolved ← find_table schema table
    drv ← driver_for resolved.server
    use_driver (wrap_not_supported (text "delete") resolved.server.protocol) (
        sv.drivers.delete drv
          (record { resolved = resolved; filters = q.filters; or_groups = q.or_groups }))

  -- The switch of `invokeTableOp`.
  unfoldable pub run_table_op :
      Text → Text → Text → Fields → List (Text × Text) → Action W RpcResult
  unfolding select insert update delete
  run_table_op op schema table body query =
      let q = query_of query in
      if is_empty table
      then stop
          (plain_failure (text "function options.tableName required for operation " ++ quote op))
      else if text_eq op (text "select")
      then (do rows ← select schema table q; give (rows_result rows))
      else if text_eq op (text "insert") || text_eq op (text "upsert")
      then (do row ← insert schema table body (prefer_of op); give (row_result row))
      else if text_eq op (text "update")
      then (do n ← update schema table q body; give (affected n))
      else if text_eq op (text "delete")
      then (do n ← delete schema table q; give (affected n))
      else stop (plain_failure (text "unsupported table operation " ++ quote op))

  unfoldable pub invoke_table_op :
      ResolvedFunction → Fields → List (Text × Text) → Action W RpcResult
  unfolding run_table_op
  invoke_table_op rf body query = elim (sv.table_options rf.function.options) [
    | err e ↦ stop (plain_failure e)
    | ok (given, table) ↦
        let schema = if is_empty given then rf.function.schema_name else given in
        run_table_op rf.function.operation schema table body query
  ]

  abbrev pub table_ops : List Text
  table_ops = text "select" ∷ text "insert" ∷ text "update" ∷ text "upsert" ∷ text "delete" ∷ []

  -- The switch of `InvokeRPC` on the function's operation.
  unfoldable pub run_function :
      ResolvedFunction → ℕ → Fields → List (Text × Text) → Action W RpcResult
  unfolding invoke_table_op
  run_function rf drv body query =
      let op = rf.function.operation in
      if text_eq op (text "invoke")
      then (do
        v ←
            use_driver (wrap_not_supported (text "invoke") rf.server.protocol)
              (sv.drivers.invoke drv (record { resolved = rf; body = body; query = query }))
        give (answer v))
      else if any (text_eq op) table_ops
      then invoke_table_op rf body query
      else stop (plain_failure (text "unknown function operation " ++ quote op))

  unfoldable pub invoke_rpc : Text → Text → Fields → List (Text × Text) → Action W RpcResult
  unfolding find_function driver_for run_function
  invoke_rpc schema name body query = do
    rf ← find_function schema name
    drv ← driver_for rf.server
    run_function rf drv body query
