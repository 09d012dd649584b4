-- ===== src/Admin/Handlers.antt =====
-- internal/api/admin/handler.go. The store's state is passed on; the JSON decoder, `uuid.Parse`, the
-- variables of the process, `Ping` and the version are arguments.
pub mod Guarded
use lowcode_wrapper.Base.{
  ℕ, Bool, true, false, not, Option, none, some, List, [], ◌∷◌, ◌++◌, Text, text, text_eq,
  has_prefix, if◌then◌else◌, Result, ok, err,
}
use lowcode_wrapper.Models.{
  Uuid, Fields, CreateServerRequest, UpdateServerRequest, CreateTableRequest, UpdateTableRequest,
  CreateColumnRequest, UpdateColumnRequest, CreateFunctionRequest, UpdateFunctionRequest,
}
use lowcode_wrapper.Auth.Admin.{admin_prefix}
use lowcode_wrapper.Admin.Interface.{
  Change, MetaStore, mode_file, load_config, Body, credential_of, server_of, servers_of, table_of,
  tables_of, created_table, column_of, columns_of, function_of, functions_of, members, message_of,
  Reply, reply_json, reply_text, reply_not_found, no_content, write_admin_error,
}
use lowcode_wrapper.Admin.Paths.{parse_admin_id_tail, parse_admin_id}

-- A request with the bytes of its body.
pub record HttpRequest : Type 0 where
  pub method : Text
  pub path : Text
  pub content : Text

-- `DecodeJSON` into the records of the requests.
pub record Decoders : Type 0 where
  pub credential : Text → Result Text (Text × Fields)
  pub server : Text → Result Text CreateServerRequest
  pub server_change : Text → Result Text UpdateServerRequest
  pub table : Text → Result Text CreateTableRequest
  pub table_change : Text → Result Text UpdateTableRequest
  pub column : Text → Result Text CreateColumnRequest
  pub column_change : Text → Result Text UpdateColumnRequest
  pub function : Text → Result Text CreateFunctionRequest
  pub function_change : Text → Result Text UpdateFunctionRequest

pub record Process : Type 0 where
  pub parse_uuid : Text → Option Uuid
  pub decode : Decoders
  pub getenv : Text → Text
  -- `none` where the store of this mode answers.
  pub ping : Text → Option Text
  pub version : Text

abbrev pub method_not_allowed : Reply
method_not_allowed = reply_text 405 (text "method not allowed")

unfoldable pub admin_write_denied : Text → Bool
admin_write_denied mode = text_eq mode mode_file

abbrev pub write_denied : Reply
write_denied = reply_json 405 (
    message_of (
      text
        "admin write API is not available when DATASPAN_STORE_MODE=file; edit drivers.yaml instead"))

unfoldable pub health : Process → HttpRequest → Reply
health p r =
    if not (text_eq r.method (text "GET"))
    then method_not_allowed
    else reply_json 200 (members ((text "status", text "ok") ∷ (text "version", p.version) ∷ []))

unfoldable pub health_ready : Process → HttpRequest → Reply
unfolding load_config
health_ready p r =
    if not (text_eq r.method (text "GET"))
    then method_not_allowed
    else elim (load_config p.getenv) [
      | err e ↦ reply_json 503 (members ((text "status", text "error") ∷ (text "error", e) ∷ []))
      | ok cfg ↦ elim (p.ping cfg.mode) [
        | some e ↦ reply_json 503 (
            members
              ((text "status", text "error") ∷ (text "store", cfg.mode) ∷ (text "error", e) ∷ []))
        | none ↦ reply_json 200 (
            members (
              (text "status", text "ready")
              ∷ (text "store", cfg.mode)
              ∷ (text "version", p.version)
              ∷ []))
      ]
    ]

module _ {S E : Type 0} (store : MetaStore S E) (mode : Text) (p : Process) where
  -- What a result becomes, under the status of a success.
  unfoldable pub answer_result : {A : Type 0} → ℕ → (A → Body) → Result E A → Reply
  unfolding write_admin_error
  answer_result status body (ok a) = reply_json status (body a)
  answer_result status body (err e) = write_admin_error (store.is_not_found e) (store.message e)

  -- A write with a body: the check of the mode, the decoder, the operation.
  unfoldable pub write :
      {B A : Type 0}
      → (Text → Result Text B)
      → (B → Change S E A)
      → ℕ
      → (A → Body)
      → Text
      → S
      → Reply × S
  unfolding admin_write_denied answer_result write_admin_error
  write decode change status body content s =
      if admin_write_denied mode then (write_denied, s) else elim (decode content) [
        | err e ↦ (write_admin_error false e, s)
        | ok req ↦ let (done, t) = change req s in (answer_result status body done, t)
      ]

  -- A deletion: the check of the mode and the operation.
  unfoldable pub erase : Change S E (Unit {0}) → S → Reply × S
  unfolding admin_write_denied write_admin_error
  erase change s =
      if admin_write_denied mode
      then (write_denied, s)
      else let (done, t) = change s in
        (
          elim done [
            | ok _ ↦ no_content
            | err e ↦ write_admin_error (store.is_not_found e) (store.message e)
          ],
          t,
        )

  abbrev read : {A : Type 0} → (A → Body) → Result E A → S → Reply × S
  read body result s = (answer_result 200 body result, s)

  unfoldable pub credentials : HttpRequest → S → Reply × S
  unfolding write
  credentials r s =
      if not (text_eq r.method (text "POST"))
      then (method_not_allowed, s)
      else write p.decode.credential (λ (name, fields). store.create_credential name fields) 201
          credential_of r.content s

  unfoldable pub credential_by_id : HttpRequest → S → Reply × S
  unfolding erase parse_admin_id admin_write_denied
  credential_by_id r s =
      if not (text_eq r.method (text "DELETE"))
      then (method_not_allowed, s)
      else if admin_write_denied mode
      then (write_denied, s)
      else elim (parse_admin_id p.parse_uuid r.path (admin_prefix ++ text "/credentials/")) [
        | none ↦ (reply_not_found, s)
        | some id ↦ erase (store.delete_credential id) s
      ]

  -- The switch of `servers`, `tables`, `functions` and `tableColumns`.
  abbrev pub list_or_create : Text → (S → Reply × S) → (S → Reply × S) → S → Reply × S
  list_or_create method list create s =
      if text_eq method (text "GET")
      then list s
      else if text_eq method (text "POST")
      then create s
      else (method_not_allowed, s)

  -- The switch of the handlers for one entry.
  abbrev pub get_or_change :
      Text → (S → Reply × S) → (S → Reply × S) → (S → Reply × S) → S → Reply × S
  get_or_change method get patch delete s =
      if text_eq method (text "GET")
      then get s
      else if text_eq method (text "PATCH")
      then patch s
      else if text_eq method (text "DELETE")
      then delete s
      else (method_not_allowed, s)

  unfoldable pub servers : HttpRequest → S → Reply × S
  unfolding answer_result write
  servers r =
      list_or_create r.method (λ s. read servers_of (store.list_servers s) s)
        (write p.decode.server store.create_server 201 server_of r.content)

  unfoldable pub server_by_id : HttpRequest → S → Reply × S
  unfolding answer_result write erase parse_admin_id
  server_by_id r s = elim (parse_admin_id p.parse_uuid r.path (admin_prefix ++ text "/servers/")) [
    | none ↦ (reply_not_found, s)
    | some id ↦
        get_or_change r.method (λ t. read server_of (store.get_server_by_id id t) t)
          (write p.decode.server_change (store.update_server id) 200 server_of r.content)
          (erase (store.delete_server id)) s
  ]

  unfoldable pub tables : HttpRequest → S → Reply × S
  unfolding answer_result write
  tables r =
      list_or_create r.method (λ s. read tables_of (store.list_tables s) s)
        (write p.decode.table store.create_table 201 created_table r.content)

  unfoldable pub table_columns : HttpRequest → Uuid → S → Reply × S
  unfolding answer_result write
  table_columns r table_id =
      list_or_create r.method (λ s. read columns_of (store.list_columns_by_table_id table_id s) s)
        (write p.decode.column (store.create_column table_id) 201 column_of r.content)

  -- `tableByID` after the path: the entry itself, or what follows it.
  unfoldable pub table_at : HttpRequest → Uuid → List Text → S → Reply × S
  unfolding answer_result write erase table_columns
  table_at r id [] s =
      get_or_change r.method (λ t. read table_of (store.get_table_by_id id t) t)
        (write p.decode.table_change (store.update_table id) 200 table_of r.content)
        (erase (store.delete_table id)) s
  table_at r id (part ∷ []) s =
      if text_eq part (text "columns") then table_columns r id s else (reply_not_found, s)
  table_at r id (part ∷ more ∷ tail) s = (reply_not_found, s)

  unfoldable pub table_by_id : HttpRequest → S → Reply × S
  unfolding table_at parse_admin_id_tail
  table_by_id r s =
      elim (parse_admin_id_tail p.parse_uuid r.path (admin_prefix ++ text "/tables/")) [
        | none ↦ (reply_not_found, s)
        | some (id, tail) ↦ table_at r id tail s
      ]

  unfoldable pub column_by_id : HttpRequest → S → Reply × S
  unfolding answer_result write erase parse_admin_id
  column_by_id r s = elim (parse_admin_id p.parse_uuid r.path (admin_prefix ++ text "/columns/")) [
    | none ↦ (reply_not_found, s)
    | some id ↦
        get_or_change r.method (λ t. read column_of (store.get_column_by_id id t) t)
          (write p.decode.column_change (store.update_column id) 200 column_of r.content)
          (erase (store.delete_column id)) s
  ]

  unfoldable pub functions : HttpRequest → S → Reply × S
  unfolding answer_result write
  functions r =
      list_or_create r.method (λ s. read functions_of (store.list_functions s) s)
        (write p.decode.function store.create_function 201 function_of r.content)

  unfoldable pub function_by_id : HttpRequest → S → Reply × S
  unfolding answer_result write erase parse_admin_id
  function_by_id r s =
      elim (parse_admin_id p.parse_uuid r.path (admin_prefix ++ text "/functions/")) [
        | none ↦ (reply_not_found, s)
        | some id ↦
            get_or_change r.method (λ t. read function_of (store.get_function_by_id id t) t)
              (write p.decode.function_change (store.update_function id) 200 function_of r.content)
              (erase (store.delete_function id)) s
      ]
