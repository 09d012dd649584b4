-- ===== src/Engine/Operations/Missing.antt =====
-- Requests for tables that are not registered.
use lowcode_wrapper.Base.{false, none, List, ◌∷◌, Text, any, err, ◌≡◌, ap}
use lowcode_wrapper.Models.{Time, Fields}
use lowcode_wrapper.FileStore.Records.{not_found}
use lowcode_wrapper.FileStore.Tables.{same_table}
use lowcode_wrapper.FileStore.Resolve.{resolve_table-missing}
use lowcode_wrapper.Postgrest.Query.{Query, Prefer}
use lowcode_wrapper.Engine.Action.{Services, EngineState, go_on, store_failure}
use lowcode_wrapper.Engine.Operations.{
  find_table, select, count, insert, insert_many, update, delete, no_query,
}

module _ {W : Type 0} (sv : Services W) (now : Time) where
  pub find_table-missing :
      (schema table : Text) (st : EngineState W)
      → st.meta ≡ none
      → any (same_table schema table) st.store.tables ≡ false
      → find_table sv now schema table st ≡ (err (store_failure not_found), st)
  unfolding find_table
  find_table-missing schema table st uncached missing =
      rw (uncached, find_table, resolve_table-missing sv.env schema table st.store missing)
        (ap (λ m. (err (store_failure not_found), record st { meta = m })) uncached)

  -- Without a cache, an operation on a table that is not registered fails with the store's not-found
  -- error and leaves the whole state as it is: no driver is created or called, and the breaker does not
  -- count it.
  pub select-missing :
      (schema table : Text) (q : Query) (row : Fields) (prefer : Prefer) (st : EngineState W)
      → st.meta ≡ none
      → any (same_table schema table) st.store.tables ≡ false
      → (select sv now schema table q st ≡ (err (store_failure not_found), st))
        × (count sv now schema table q st ≡ (err (store_failure not_found), st))
        × (insert sv now schema table row prefer st ≡ (err (store_failure not_found), st))
        × (update sv now schema table q row st ≡ (err (store_failure not_found), st))
        × (delete sv now schema table q st ≡ (err (store_failure not_found), st))
  unfolding select count insert update delete
  select-missing schema table q row prefer st uncached missing =
      let gone = find_table-missing schema table st uncached missing in
      (
        ap (go_on _) gone,
        ap (go_on _) gone,
        ap (go_on _) gone,
        ap (go_on _) gone,
        ap (go_on _) gone,
      )

  pub insert_many-missing :
      (schema table : Text) (row : Fields) (rows : List Fields) (prefer : Prefer)
      (st : EngineState W)
      → st.meta ≡ none
      → any (same_table schema table) st.store.tables ≡ false
      → insert_many sv now schema table (row ∷ rows) prefer st ≡ (err (store_failure not_found), st)
  unfolding insert_many
  insert_many-missing schema table row rows prefer st uncached missing =
      let (_, _, ins, _, _) = select-missing schema table no_query row prefer st uncached missing in
      ap (go_on _) ins
