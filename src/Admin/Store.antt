-- ===== src/Admin/Store.antt =====
-- The file store (internal/store/file) behind the interface of the handlers.
use lowcode_wrapper.Base.{ℕ, ◌+◌, ok}
use lowcode_wrapper.Models.{Uuid, Time}
use lowcode_wrapper.FileStore.Records.{Snapshot, StoreError, Env}
use lowcode_wrapper.FileStore.Credentials as Credentials
use lowcode_wrapper.FileStore.Servers as Servers
use lowcode_wrapper.FileStore.Tables as Tables
use lowcode_wrapper.FileStore.Columns as Columns
use lowcode_wrapper.FileStore.Functions as Functions
use lowcode_wrapper.Engine.Action.{store_message, is_missing}
use lowcode_wrapper.Admin.Interface.{MetaStore}

-- What an operation draws: the time, and the UUIDs in their order.
pub record Moment : Type 0 where
  pub now : Time
  pub fresh : ℕ → Uuid

-- A call of the store that draws from `m`.
unfoldable pub file_store : Env → Moment → MetaStore Snapshot StoreError
unfolding store_message
file_store env m = record {
  create_credential = Credentials.create_credential env (m.fresh 0) m.now;
  delete_credential = Credentials.delete_credential env;
  create_server = Servers.create_server env (m.fresh 0) (m.fresh 1) m.now;
  list_servers = λ s. ok (Servers.list_servers env s);
  get_server_by_id = Servers.get_server_by_id env;
  update_server = λ id. Servers.update_server env id m.now;
  delete_server = Servers.delete_server env;
  create_table = Tables.create_table env (m.fresh 0) (λ n. m.fresh (n + 1));
  list_tables = λ s. ok (Tables.list_tables env s);
  get_table_by_id = Tables.get_table_by_id env;
  update_table = Tables.update_table env;
  delete_table = Tables.delete_table env;
  list_columns_by_table_id = Columns.list_columns_by_table_id;
  get_column_by_id = Columns.get_column_by_id;
  create_column = Columns.create_column env (m.fresh 0);
  update_column = Columns.update_column env;
  delete_column = Columns.delete_column env;
  create_function = Functions.create_function env (m.fresh 0);
  list_functions = λ s. ok (Functions.list_functions env s);
  get_function_by_id = Functions.get_function_by_id env;
  update_function = Functions.update_function env;
  delete_function = Functions.delete_function env;
  is_not_found = is_missing;
  message = store_message;
}
