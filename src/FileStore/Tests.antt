-- ===== src/FileStore/Tests.antt =====
-- A small metadata store, tests of its operations, and the theorems at it.
use lowcode_wrapper.Base.{
  trim_space, ◌+◌, true, false, none, ◌≡◌, ◌↔◌, refl, all, any, map, List, [], ◌∷◌, ok, err, text,
  text_eq,
}
use lowcode_wrapper.Base.Sort.{sort_slice}
use lowcode_wrapper.FileStore.Records.{
  not_found, both_credentials, empty_snapshot, table_model, server_model, column_model, column_less,
}
use lowcode_wrapper.FileStore.Credentials.{create_credential, delete_credential}
use lowcode_wrapper.FileStore.Servers.{
  inline_name, create_server, create_server_with, delete_server,
}
use lowcode_wrapper.FileStore.Tables.{
  create_table, delete_table, resolve_table, same_table, table_of_request, new_columns,
}
use lowcode_wrapper.FileStore.Invariant.{IsValid, IsValid-empty}
use lowcode_wrapper.FileStore.Requests.{
  Request, new_credential, new_server, new_table, erase_server, run,
}
use lowcode_wrapper.FileStore.Requests.Reach.{run-IsValid}
use lowcode_wrapper.FileStore.Inline.{
  Refused, create_server-inline-leftover, create_server-inline-Refused,
}
use lowcode_wrapper.FileStore.Resolve.{
  resolve_table-create_table, resolve_table-not_found_iff, resolve_table-delete_table,
}
use lowcode_wrapper.FileStore.Cascade.{without_server, delete_server-cascade}
use lowcode_wrapper.FileStore.Samples.{plain, local, with_secret, items, base, with_items}
use lowcode_wrapper.FileStore.References.{reference_held, delete_credential-held}

base-IsValid : IsValid base
unfolding text_eq
base-IsValid = record {
  tables_owned = refl;
  functions_owned = refl;
  columns_owned = refl;
  credential_names = refl;
  server_names = refl;
  table_names = refl;
  function_names = refl;
}

with_items-IsValid : IsValid with_items
unfolding text_eq
with_items-IsValid = record {
  tables_owned = refl;
  functions_owned = refl;
  columns_owned = refl;
  credential_names = refl;
  server_names = refl;
  table_names = refl;
  function_names = refl;
}

inline_runs : (create_server plain 7 8 0 with_secret empty_snapshot).0 ≡ err both_credentials
unfolding create_server create_server_with create_credential trim_space
inline_runs = refl

abbrev script : List Request
script =
    new_credential 7 0 (text "shared") []
    ∷ new_server 0 1 0 local
    ∷ new_table 2 (λ i. 10 + i) items
    ∷ erase_server 1
    ∷ []

run-IsValid_example : IsValid (run plain script empty_snapshot)
run-IsValid_example = run-IsValid plain script empty_snapshot IsValid-empty

resolve_table-create_table_example :
    resolve_table plain
      (text "public")
      (text "items")
      (create_table plain 2 (λ i. 10 + i) items base).1
    ≡ ok (record {
      table = table_model plain (text "local") (table_of_request plain 2 1 items);
      server = server_model plain (record {
        id = 1;
        name = text "local";
        protocol = text "file";
        options = text "{}";
        credential_ref = none;
        enabled = true;
        updated_at = 0;
      });
      columns =
          sort_slice column_less (map column_model (new_columns (λ i. 10 + i) 2 0 items.columns));
    })
unfolding text_eq
resolve_table-create_table_example =
    resolve_table-create_table plain 2 (λ i. 10 + i) items base-IsValid _ refl refl refl refl refl
      refl

delete_server-cascade_example : (delete_server plain 1 with_items).1 ≡ without_server with_items 1 0
delete_server-cascade_example = delete_server-cascade plain 1 with_items 0 _ refl

create_server-inline-leftover_example :
    (create_server plain 7 8 0 with_secret empty_snapshot).1 ≡ record empty_snapshot {
      credentials =
          record { id = 7; name = inline_name with_secret; payload = text "sealed"; created_at = 0 }
          ∷ [];
    }
unfolding text_eq
create_server-inline-leftover_example =
    create_server-inline-leftover plain 7 8 0 with_secret empty_snapshot _ refl refl refl refl refl

create_server-inline-Refused_example :
    Refused (create_server plain 7 8 0 with_secret empty_snapshot)
create_server-inline-Refused_example =
    create_server-inline-Refused plain 7 8 0 with_secret empty_snapshot refl

resolve_table-not_found_iff_example :
    (resolve_table plain (text "public") (text "items") with_items ≡ err not_found)
    ↔ (any (same_table (text "public") (text "items")) with_items.tables ≡ false)
resolve_table-not_found_iff_example =
    resolve_table-not_found_iff plain (text "public") (text "items") with_items with_items-IsValid

resolve_table-delete_table_example :
    resolve_table plain (text "public") (text "items") (delete_table plain 2 with_items).1
    ≡ err not_found
unfolding text_eq
resolve_table-delete_table_example =
    resolve_table-delete_table plain (text "public") (text "items") with_items _ with_items-IsValid
      refl refl

delete_credential-held_example :
    all
      (reference_held (delete_credential plain 5 with_items).1.credentials)
      (delete_credential plain 5 with_items).1.servers
    ≡ true
delete_credential-held_example = delete_credential-held plain 5 with_items refl
