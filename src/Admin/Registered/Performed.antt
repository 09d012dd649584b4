-- ===== src/Admin/Registered/Performed.antt =====
-- `Register` and the handlers of internal/api/admin/handler.go, where writes are allowed, against what
-- the requests ask for.
use lowcode_wrapper.Base.{
  ℕ, false, some, [], ◌∷◌, ◌++◌, Text, text, text_eq, has_prefix, has_suffix, trim_prefix, Result,
  ok, err, ◌≡◌, refl,
}
use lowcode_wrapper.Models.{Uuid, CreateColumnRequest}
use lowcode_wrapper.Admin.Interface.{
  Change, MetaStore, Body, credential_of, server_of, table_of, created_table, column_of,
  function_of, no_content, write_admin_error,
}
use lowcode_wrapper.Admin.Paths.{parse_admin_id_tail, parse_admin_id}
use lowcode_wrapper.Admin.Paths.Parsed.{parse_admin_id_tail-id, parse_admin_id_tail-columns}
use lowcode_wrapper.Admin.Handlers.{
  HttpRequest, Process, admin_write_denied, answer_result, write, erase, credentials,
  credential_by_id, servers, server_by_id, tables, table_columns, table_at, table_by_id,
  column_by_id, functions, function_by_id,
}
use lowcode_wrapper.Admin.Registered.{serve, dispatch, patterns, is_matched}
use lowcode_wrapper.Admin.Registered.Asked.{
  Operation, ask, IsId, Asks, answered, erased, perform, post_credential, delete_credential,
  post_server, patch_server, delete_server, post_table, patch_table, delete_table, post_column,
  patch_column, delete_column, post_function, patch_function, delete_function,
}

module _ {S E : Type 0} (store : MetaStore S E) (mode : Text) (p : Process)
    (allowed : admin_write_denied mode ≡ false) (s : S) where
  write-answered :
      {B A : Type 0} (decode : Text → Result Text B) (change : B → Change S E A) (status : ℕ)
      (body : A → Body) (content : Text) (req : B)
      → decode content ≡ ok req
      → write store mode p decode change status body content s
        ≡ answered store status body (change req s)
  unfolding write answer_result
  write-answered {B} {A} decode change status body content req decoded =
      rw (write, allowed, decoded) (split (change req s))
    where
      split :
          (done : Result E A × S)
          → (answer_result store mode p status body done.0, done.1)
            ≡ answered store status body done
      split (ok a, t) = refl
      split (err e, t) = refl

  erase-erased :
      (change : Change S E (Unit {0})) → erase store mode p change s ≡ erased store (change s)
  unfolding erase
  erase-erased change = rw (erase, allowed) (split (change s))
    where
      split :
          (done : Result E (Unit {0}) × S)
          → (
            elim done.0 [
              | ok _ ↦ no_content
              | err e ↦ write_admin_error (store.is_not_found e) (store.message e)
            ],
            done.1,
          )
            ≡ erased store done
      split (ok _, t) = refl
      split (err e, t) = refl

  module _ (part : Text) (id : Uuid) (h : IsId p part id) where
    parsed-id :
        (path prefix : Text)
        → trim_prefix path prefix ≡ part
        → parse_admin_id p.parse_uuid path prefix ≡ some id
    unfolding parse_admin_id
    parsed-id path prefix stripped =
        rw
          (
            parse_admin_id_tail-id p.parse_uuid part id h.plain h.given h.parsed path prefix
                stripped,
            parse_admin_id,
          )
          refl

    parsed-tail :
        (path prefix : Text)
        → trim_prefix path prefix ≡ part
        → parse_admin_id_tail p.parse_uuid path prefix ≡ some (id, [])
    parsed-tail = parse_admin_id_tail-id p.parse_uuid part id h.plain h.given h.parsed

  serve-post_column :
      (content part : Text) (id : Uuid) (req : CreateColumnRequest)
      → IsId p part id
      → p.decode.column content ≡ ok req
      → serve store mode p
          (ask (text "POST") (text "/tables/" ++ (part ++ text "/columns")) content)
          s
        ≡ answered store 201 column_of (store.create_column id req s)
  unfolding serve dispatch patterns is_matched has_prefix has_suffix text_eq trim_prefix table_by_id
      table_at table_columns
  serve-post_column content [] id req h d = let no = h.given in cc
  serve-post_column content (c ∷ w) id req h d =
      let tail =
        parse_admin_id_tail-columns p.parse_uuid c w id h.plain h.parsed
          (text "/admin/api/tables/" ++ (c ∷ (w ++ text "/columns"))) (text "/admin/api/tables/")
          refl in
      rw (table_by_id, tail)
        (write-answered p.decode.column (store.create_column id) 201 column_of content req d)

  -- Where writes are allowed, and for any store with the interface, every request for an operation, in the form that `Asks` lists, makes the
  -- store perform just this operation, once and with the values of its path and body. It is answered
  -- with the entry and status 201 for a new one and 200 for a changed one, with status 204 for a
  -- deletion, and where the operation fails with its error and status 404 or 400.
  pub serve-perform :
      (r : HttpRequest) (op : Operation) → Asks p r op → serve store mode p r s ≡ perform store op s
  unfolding serve dispatch patterns is_matched has_prefix has_suffix text_eq trim_prefix perform
      credentials credential_by_id servers server_by_id tables table_by_id table_at column_by_id
      functions function_by_id
  serve-perform r op (post_credential {content} {name} {fields} d) =
      write-answered p.decode.credential (λ (name, fields). store.create_credential name fields) 201
        credential_of content (name, fields) d
  serve-perform r op (delete_credential {part = part} {id = id} h) =
      rw
        (
          allowed,
          parsed-id part id h (text "/admin/api/credentials/" ++ part)
              (text "/admin/api/credentials/") refl,
        )
        (erase-erased (store.delete_credential id))
  serve-perform r op (post_server {content} {req} d) =
      write-answered p.decode.server store.create_server 201 server_of content req d
  serve-perform r op (patch_server {content} {part} {id} {req} h d) =
      rw
        (parsed-id part id h (text "/admin/api/servers/" ++ part) (text "/admin/api/servers/") refl)
        (write-answered p.decode.server_change (store.update_server id) 200 server_of content req d)
  serve-perform r op (delete_server {part = part} {id = id} h) =
      rw
        (parsed-id part id h (text "/admin/api/servers/" ++ part) (text "/admin/api/servers/") refl)
        (erase-erased (store.delete_server id))
  serve-perform r op (post_table {content} {req} d) =
      write-answered p.decode.table store.create_table 201 created_table content req d
  serve-perform r op (patch_table {content} {part} {id} {req} h d) =
      rw
        (parsed-tail part id h (text "/admin/api/tables/" ++ part) (text "/admin/api/tables/") refl)
        (write-answered p.decode.table_change (store.update_table id) 200 table_of content req d)
  serve-perform r op (delete_table {part = part} {id = id} h) =
      rw
        (parsed-tail part id h (text "/admin/api/tables/" ++ part) (text "/admin/api/tables/") refl)
        (erase-erased (store.delete_table id))
  serve-perform r op (post_column {content} {part} {id} {req} h d) =
      serve-post_column content part id req h d
  serve-perform r op (patch_column {content} {part} {id} {req} h d) =
      rw
        (parsed-id part id h (text "/admin/api/columns/" ++ part) (text "/admin/api/columns/") refl)
        (write-answered p.decode.column_change (store.update_column id) 200 column_of content req d)
  serve-perform r op (delete_column {part = part} {id = id} h) =
      rw
        (parsed-id part id h (text "/admin/api/columns/" ++ part) (text "/admin/api/columns/") refl)
        (erase-erased (store.delete_column id))
  serve-perform r op (post_function {content} {req} d) =
      write-answered p.decode.function store.create_function 201 function_of content req d
  serve-perform r op (patch_function {content} {part} {id} {req} h d) =
      rw
        (parsed-id part id h (text "/admin/api/functions/" ++ part) (text "/admin/api/functions/")
          refl)
        (write-answered p.decode.function_change (store.update_function id) 200 function_of content
          req d)
  serve-perform r op (delete_function {part = part} {id = id} h) =
      rw
        (parsed-id part id h (text "/admin/api/functions/" ++ part) (text "/admin/api/functions/")
          refl)
        (erase-erased (store.delete_function id))
