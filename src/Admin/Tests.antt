-- ===== src/Admin/Tests.antt =====
-- Requests to the admin API over a small file store.
use lowcode_wrapper.Base.{
  ◌+◌, true, all, some, none, ok, err, List, [], ◌∷◌, text, text_eq, if◌then◌else◌, ◌≡◌, refl,
}
use lowcode_wrapper.FileStore.Records.{Snapshot, StoreError}
use lowcode_wrapper.FileStore.Samples.{plain, local, items, with_items}
use lowcode_wrapper.Admin.Interface.{MetaStore, mode_db, mode_file}
use lowcode_wrapper.Admin.Store.{Moment, file_store}
use lowcode_wrapper.Admin.Handlers.{HttpRequest, Process}
use lowcode_wrapper.Admin.Handlers.{admin_write_denied}
use lowcode_wrapper.Admin.Registered.{serve, serve_all}
use lowcode_wrapper.Admin.Registered.Closed.{serve_all-file, is_read_or_refused}
use lowcode_wrapper.Admin.Registered.Asked.{perform, erase_table, delete_table}
use lowcode_wrapper.Admin.Registered.Performed.{serve-perform}

-- Every body is that of one server or one table.
abbrev process : Process
process = record {
  parse_uuid = λ w. if text_eq w (text "two") then some 2 else none;
  decode = record {
    credential = λ content. err (text "EOF");
    server = λ content. ok local;
    server_change = λ content. err (text "EOF");
    table = λ content. ok items;
    table_change = λ content. err (text "EOF");
    column = λ content. err (text "EOF");
    column_change = λ content. err (text "EOF");
    function = λ content. err (text "EOF");
    function_change = λ content. err (text "EOF");
  };
  getenv = λ name. [];
  ping = λ mode. none;
  version = text "0.1";
}

abbrev later : Moment
later = record { now = 9; fresh = λ n. 20 + n }

abbrev erase_items : HttpRequest
erase_items = record { method = text "DELETE"; path = text "/admin/api/tables/two"; content = [] }

abbrev list_items : HttpRequest
list_items = record erase_items { method = text "GET" }

abbrev file_calls : List (MetaStore Snapshot StoreError × HttpRequest)
file_calls = (file_store plain later, erase_items) ∷ (file_store plain later, list_items) ∷ []

serve_all-file_example :
    ((serve_all mode_file process file_calls with_items).1 ≡ with_items)
    × (all is_read_or_refused (serve_all mode_file process file_calls with_items).0 ≡ true)
serve_all-file_example = serve_all-file process file_calls with_items

-- The theorem is for any store with the operations of the interface; here the one over a file.
serve-perform_example :
    serve (file_store plain later) mode_db process erase_items with_items
    ≡ perform (file_store plain later) (erase_table 2) with_items
unfolding admin_write_denied text_eq
serve-perform_example =
    serve-perform (file_store plain later) mode_db process refl with_items erase_items
      (erase_table 2) (delete_table (record { plain = refl; given = refl; parsed = refl }))
