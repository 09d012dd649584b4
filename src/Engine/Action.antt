-- ===== src/Engine/Action.antt =====
-- What the operations of the engine run in: the engine's state with the world of the drivers, and an
-- error or a result. The drivers are an interface, `driver.Driver` of internal/driver/driver.go.
use lowcode_wrapper.Base.{
  ℕ, Bool, true, false, Option, none, some, List, ◌++◌, Text, text, text_eq, if◌then◌else◌, Result,
  ok, err,
}
use lowcode_wrapper.Models.{Value, Fields, Server, ResolvedTable, ResolvedFunction}
use lowcode_wrapper.FileStore.Records.{
  Snapshot, StoreError, not_found, required, credential_exists, server_exists, column_exists,
  table_exists, function_exists, credential_referenced, server_disabled, both_credentials, external,
  Env,
}
use lowcode_wrapper.Postgrest.Query.{Filter, OrderSpec}
use lowcode_wrapper.Postgrest.Errors.{Failure, quote}
use lowcode_wrapper.Engine.Pool.{Pool}
use lowcode_wrapper.Engine.Breaker.{Breaker}
use lowcode_wrapper.Engine.MetaCache.{MetaCache, Digest}

pub record SelectRequest : Type 0 where
  pub resolved : ResolvedTable
  pub select : List Text
  pub filters : List Filter
  pub or_groups : List (List Filter)
  pub order : List OrderSpec
  pub limit : ℕ
  pub offset : ℕ

pub record RowRequest : Type 0 where
  pub resolved : ResolvedTable
  pub row : Fields
  pub filters : List Filter
  pub or_groups : List (List Filter)
  pub prefer_representation : Bool
  pub prefer_upsert : Bool
  pub returning : List Text

pub record DeleteRequest : Type 0 where
  pub resolved : ResolvedTable
  pub filters : List Filter
  pub or_groups : List (List Filter)

pub record InvokeRequest : Type 0 where
  pub resolved : ResolvedFunction
  pub body : Fields
  pub query : List (Text × Text)

-- An error of a driver, and whether `ErrNotSupported` is in its chain.
pub record DriverError : Type 0 where
  pub failure : Failure
  pub not_supported : Bool

-- A call of a driver, in a world of foreign systems.
abbrev pub Call : Type 0 → Type 0 → Type 0
Call W A = W → Result DriverError A × W

-- The drivers by their handles: `driver.New` first, then the methods; a row that may be nil is an
-- option, and `count` is there for the drivers that implement `Counter`.
pub record Drivers (W : Type 0) : Type 0 where
  pub connect : Server → Option Fields → Call W (Unit {0})
  pub select : ℕ → SelectRequest → Call W (List Fields)
  pub count : ℕ → Option (SelectRequest → Call W ℕ)
  pub insert : ℕ → RowRequest → Call W (Option Fields)
  pub update : ℕ → RowRequest → Call W ℕ
  pub upsert : ℕ → RowRequest → Call W (Bool × Option Fields)
  pub delete : ℕ → DeleteRequest → Call W ℕ
  pub invoke : ℕ → InvokeRequest → Call W Value

-- `version` is `driverConfigVersion`; `table_options` reads `tableSchema` and `tableName` out of the
-- options of a function.
pub record Services (W : Type 0) : Type 0 where
  pub env : Env
  pub digest : Digest
  pub version : Server → Option Fields → Text
  pub drivers : Drivers W
  pub table_options : Text → Result Text (Text × Text)

-- `Engine`, with the store and the world; it always has a breaker and a pool.
pub record EngineState (W : Type 0) : Type 0 where
  pub store : Snapshot
  pub breaker : Breaker
  pub pool : Pool
  pub meta : Option MetaCache
  pub world : W

abbrev pub Action : Type 0 → Type 0 → Type 0
Action W A = EngineState W → Result Failure A × EngineState W

abbrev pub give : {W A : Type 0} → A → Action W A
give a st = (ok a, st)

abbrev pub stop : {W A : Type 0} → Failure → Action W A
stop e st = (err e, st)

abbrev pub go_on :
    {W A B : Type 0}
    → (A → Action W B)
    → Result Failure A × EngineState W
    → Result Failure B × EngineState W
go_on next (ok a, st) = next a st
go_on next (err e, st) = (err e, st)

infixl 5 ◌>>=◌
abbrev pub ◌>>=◌ : {W A B : Type 0} → Action W A → (A → Action W B) → Action W B
(m >>= next) st = go_on next (m st)

-- An error that is only a message.
abbrev pub plain_failure : Text → Failure
plain_failure message = record {
  message = message;
  api = none;
  is_not_found = false;
  malformed = false;
  unsupported = none;
}

-- The messages of the store's errors.
unfoldable pub store_message : StoreError → Text
store_message not_found = text "not found"
store_message (required what) =
    what ++ (if text_eq what (text "name") then text " is required" else text " are required")
store_message (credential_exists name) = text "credential " ++ quote name ++ text " already exists"
store_message (server_exists name) = text "server " ++ quote name ++ text " already exists"
store_message (column_exists name) = text "column " ++ quote name ++ text " already exists"
store_message (table_exists schema name) =
    text "table " ++ schema ++ text "." ++ name ++ text " already exists"
store_message (function_exists schema name) =
    text "function " ++ schema ++ text "." ++ name ++ text " already exists"
store_message (credential_referenced name) =
    text "credential is referenced by server " ++ quote name
store_message (server_disabled name) = text "server " ++ quote name ++ text " is disabled"
store_message both_credentials = text "provide either credentialRef or inline credential, not both"
store_message (external e) = e

abbrev pub is_missing : StoreError → Bool
is_missing not_found = true
is_missing _ = false

-- A store's error as the `error` that `MapError` looks into.
unfoldable pub store_failure : StoreError → Failure
unfolding store_message
store_failure e = record (plain_failure (store_message e)) { is_not_found = is_missing e }

-- `WrapNotSupported` on an error; the operation and the protocol make the new error.
unfoldable pub wrap_not_supported : Text → Text → DriverError → Failure
wrap_not_supported op protocol e =
    if e.not_supported
    then record (plain_failure (op ++ text " is not supported for protocol " ++ quote protocol)) {
      unsupported = some (record { operation = op; protocol = protocol });
    }
    else e.failure
