-- ===== src/Admin/Registered/Asked.antt =====
-- What the admin API promises, in the words of its clients: which request of internal/api/admin/handler.go
-- asks for which operation of the store, and what an operation does and answers.
use lowcode_wrapper.Base.{ℕ, true, false, some, ◌++◌, Text, text, is_empty, Result, ok, err, ◌≡◌}
use lowcode_wrapper.Models.{
  Uuid, Fields, CreateServerRequest, UpdateServerRequest, CreateTableRequest, UpdateTableRequest,
  CreateColumnRequest, UpdateColumnRequest, CreateFunctionRequest, UpdateFunctionRequest,
}
use lowcode_wrapper.Rest.Route.Paths.{is_plain}
use lowcode_wrapper.Admin.Interface.{
  MetaStore, Body, credential_of, server_of, table_of, created_table, column_of, function_of, Reply,
  reply_json, no_content, write_admin_error,
}
use lowcode_wrapper.Admin.Handlers.{HttpRequest, Process}

-- The operations of the store that change it.
pub data Operation : Type 0 where
  new_credential : Text → Fields → Operation
  erase_credential : Uuid → Operation
  new_server : CreateServerRequest → Operation
  change_server : Uuid → UpdateServerRequest → Operation
  erase_server : Uuid → Operation
  new_table : CreateTableRequest → Operation
  change_table : Uuid → UpdateTableRequest → Operation
  erase_table : Uuid → Operation
  new_column : Uuid → CreateColumnRequest → Operation
  change_column : Uuid → UpdateColumnRequest → Operation
  erase_column : Uuid → Operation
  new_function : CreateFunctionRequest → Operation
  change_function : Uuid → UpdateFunctionRequest → Operation
  erase_function : Uuid → Operation

abbrev pub ask : Text → Text → Text → HttpRequest
ask method rest content = record {
  method = method;
  path = text "/admin/api" ++ rest;
  content = content;
}

module _ (p : Process) where
  -- A part of a path that is read as an id.
  pub record IsId (part : Text) (id : Uuid) : Type 0 where
    pub plain : is_plain part ≡ true
    pub given : is_empty part ≡ false
    pub parsed : p.parse_uuid part ≡ some id

  -- The request for each operation: a `POST` of a collection, with a body, and a `PATCH`, with a body,
  -- or a `DELETE` of one entry. Columns are created under their table.
  pub data Asks : HttpRequest → Operation → Type 0 where
    post_credential :
        {content name : Text} {fields : Fields}
        → p.decode.credential content ≡ ok (name, fields)
        → Asks (ask (text "POST") (text "/credentials") content) (new_credential name fields)
    delete_credential :
        {content part : Text} {id : Uuid}
        → IsId part id
        → Asks (ask (text "DELETE") (text "/credentials/" ++ part) content) (erase_credential id)
    post_server :
        {content : Text} {req : CreateServerRequest}
        → p.decode.server content ≡ ok req
        → Asks (ask (text "POST") (text "/servers") content) (new_server req)
    patch_server :
        {content part : Text} {id : Uuid} {req : UpdateServerRequest}
        → IsId part id
        → p.decode.server_change content ≡ ok req
        → Asks (ask (text "PATCH") (text "/servers/" ++ part) content) (change_server id req)
    delete_server :
        {content part : Text} {id : Uuid}
        → IsId part id
        → Asks (ask (text "DELETE") (text "/servers/" ++ part) content) (erase_server id)
    post_table :
        {content : Text} {req : CreateTableRequest}
        → p.decode.table content ≡ ok req
        → Asks (ask (text "POST") (text "/tables") content) (new_table req)
    patch_table :
        {content part : Text} {id : Uuid} {req : UpdateTableRequest}
        → IsId part id
        → p.decode.table_change content ≡ ok req
        → Asks (ask (text "PATCH") (text "/tables/" ++ part) content) (change_table id req)
    delete_table :
        {content part : Text} {id : Uuid}
        → IsId part id
        → Asks (ask (text "DELETE") (text "/tables/" ++ part) content) (erase_table id)
    post_column :
        {content part : Text} {id : Uuid} {req : CreateColumnRequest}
        → IsId part id
        → p.decode.column content ≡ ok req
        → Asks
            (ask (text "POST") (text "/tables/" ++ (part ++ text "/columns")) content)
            (new_column id req)
    patch_column :
        {content part : Text} {id : Uuid} {req : UpdateColumnRequest}
        → IsId part id
        → p.decode.column_change content ≡ ok req
        → Asks (ask (text "PATCH") (text "/columns/" ++ part) content) (change_column id req)
    delete_column :
        {content part : Text} {id : Uuid}
        → IsId part id
        → Asks (ask (text "DELETE") (text "/columns/" ++ part) content) (erase_column id)
    post_function :
        {content : Text} {req : CreateFunctionRequest}
        → p.decode.function content ≡ ok req
        → Asks (ask (text "POST") (text "/functions") content) (new_function req)
    patch_function :
        {content part : Text} {id : Uuid} {req : UpdateFunctionRequest}
        → IsId part id
        → p.decode.function_change content ≡ ok req
        → Asks (ask (text "PATCH") (text "/functions/" ++ part) content) (change_function id req)
    delete_function :
        {content part : Text} {id : Uuid}
        → IsId part id
        → Asks (ask (text "DELETE") (text "/functions/" ++ part) content) (erase_function id)

module _ {S E : Type 0} (store : MetaStore S E) where
  -- An entry with a status, or the error; and no content, or the error.
  abbrev pub answered : {A : Type 0} → ℕ → (A → Body) → Result E A × S → Reply × S
  answered status body (ok a, t) = (reply_json status (body a), t)
  answered status body (err e, t) = (write_admin_error (store.is_not_found e) (store.message e), t)

  abbrev pub erased : Result E (Unit {0}) × S → Reply × S
  erased (ok _, t) = (no_content, t)
  erased (err e, t) = (write_admin_error (store.is_not_found e) (store.message e), t)

  -- The one call of the store that an operation is, and the answer.
  unfoldable pub perform : Operation → S → Reply × S
  perform (new_credential name fields) s =
      answered 201 credential_of (store.create_credential name fields s)
  perform (erase_credential id) s = erased (store.delete_credential id s)
  perform (new_server req) s = answered 201 server_of (store.create_server req s)
  perform (change_server id req) s = answered 200 server_of (store.update_server id req s)
  perform (erase_server id) s = erased (store.delete_server id s)
  perform (new_table req) s = answered 201 created_table (store.create_table req s)
  perform (change_table id req) s = answered 200 table_of (store.update_table id req s)
  perform (erase_table id) s = erased (store.delete_table id s)
  perform (new_column id req) s = answered 201 column_of (store.create_column id req s)
  perform (change_column id req) s = answered 200 column_of (store.update_column id req s)
  perform (erase_column id) s = erased (store.delete_column id s)
  perform (new_function req) s = answered 201 function_of (store.create_function req s)
  perform (change_function id req) s = answered 200 function_of (store.update_function id req s)
  perform (erase_function id) s = erased (store.delete_function id s)
