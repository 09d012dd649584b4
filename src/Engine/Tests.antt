-- ===== src/Engine/Tests.antt =====
-- A pool, a breaker and a cache at work.
use lowcode_wrapper.Base.{
  ℕ, err, true, false, not, some, List, [], ◌∷◌, text, text_eq, ◌≡◌, refl, pos, ok,
}
use lowcode_wrapper.Engine.Pool.{
  Pool, new_pool, pooled, get, open_driver, bring, item_of, install, put_item,
}
use lowcode_wrapper.Engine.Pool.Accounts.{
  Reachable, start, after, created, brought, accounts, Reachable-accounts,
}
use lowcode_wrapper.Engine.Pool.Reuse.{get-get}
use lowcode_wrapper.Engine.Breaker.{allow}
use lowcode_wrapper.Engine.Breaker.Streaks.{Call, ask, failed, streak, allow-streak}
use lowcode_wrapper.FileStore.Samples.{plain, with_items, items_resolved, to_integer}
use lowcode_wrapper.Base.Sort.{sort_slice}
use lowcode_wrapper.FileStore.Records.{
  table_model, server_model, column_model, columns_for_table, node_to_raw,
}
use lowcode_wrapper.FileStore.Tables.{resolve_table}
use lowcode_wrapper.FileStore.Columns.{update_column}
use lowcode_wrapper.Engine.MetaCache.{MetaCache, cached_table, store_revision}
use lowcode_wrapper.Engine.MetaCache.Staleness.{cached_table-changed, cached_table-stale}
use lowcode_wrapper.FileStore.Records.{not_found}
use lowcode_wrapper.Postgrest.Query.{Prefer}
use lowcode_wrapper.Engine.Action.{EngineState, store_failure}
use lowcode_wrapper.Engine.Operations.{no_query, select, count, insert, update, delete}
use lowcode_wrapper.Engine.Operations.Missing.{select-missing}
use lowcode_wrapper.Engine.Samples.{digest, services, at_rest}

-- Two calls for one server race: each creates a driver, and both bring theirs to the pool.
abbrev raced : Pool
raced = bring 7 (text "v1") 0 0 (bring 7 (text "v1") 0 1 (open_driver (open_driver new_pool)))

raced-Reachable : Reachable raced
unfolding open_driver bring install item_of put_item
raced-Reachable =
    after (after (after (after start created) created) (brought 7 (text "v1") 0 1 refl))
      (brought 7 (text "v1") 0 0 refl)

Reachable-accounts_example : accounts 0 raced ≡ 1
unfolding open_driver bring install item_of put_item text_eq
Reachable-accounts_example = Reachable-accounts raced-Reachable 0

abbrev one : Pool
one = (get 7 (text "v1") true new_pool).1

get-get_example : get 7 (text "v1") false one ≡ (some (0, false), one)
unfolding get pooled item_of install put_item open_driver
get-get_example = get-get 7 (text "v1") true false new_pool 0 true refl

abbrev before : List Call
before = failed 3 ∷ failed 4 ∷ ask 9 ∷ []

allow-streak_example :
    ((streak (pos 2) (pos 100) before (20 ∷ []) 30).is_open ≡ true)
    × ((allow 140 (streak (pos 2) (pos 100) before (20 ∷ []) 30)).0 ≡ true)
    × ((allow 140 (streak (pos 2) (pos 100) before (20 ∷ []) 30)).1.is_open
        ≡ not (allow 140 (streak (pos 2) (pos 100) before (20 ∷ []) 30)).0)
    × ((allow 140 (streak (pos 2) (pos 100) before (20 ∷ []) 30)).1.failures ≡ 0)
allow-streak_example = allow-streak (pos 2) (pos 100) before (20 ∷ []) 30 140

abbrev cold : MetaCache
cold = record { ttl = 50; rev = []; tables = []; funcs = [] }

cached_table-changed_example :
    (cached_table digest plain 100 (text "public") (text "items") with_items cold).0
    ≡ resolve_table plain (text "public") (text "items") with_items
unfolding store_revision text_eq
cached_table-changed_example =
    cached_table-changed digest plain 100 (text "public") (text "items") with_items cold refl

cached_table-stale_example :
    (cached_table digest plain 140
      (text "public")
      (text "items")
      (update_column plain 3 to_integer with_items).1
      (cached_table digest plain 100 (text "public") (text "items") with_items cold).1).0
    ≡ ok items_resolved
unfolding store_revision text_eq resolve_table table_model server_model column_model
    columns_for_table node_to_raw sort_slice
cached_table-stale_example =
    cached_table-stale digest plain 100 140 (text "public") (text "items") with_items cold
      items_resolved 3 to_integer refl refl refl

abbrev no_prefer : Prefer
no_prefer = record { representation = false; upsert = false; count_exact = false }

abbrev filled : EngineState ℕ
filled = record at_rest { store = with_items }

select-missing_example :
    (select services 5 (text "public") (text "orders") no_query filled
      ≡ (err (store_failure not_found), filled))
    × (count services 5 (text "public") (text "orders") no_query filled
        ≡ (err (store_failure not_found), filled))
    × (insert services 5 (text "public") (text "orders") [] no_prefer filled
        ≡ (err (store_failure not_found), filled))
    × (update services 5 (text "public") (text "orders") no_query [] filled
        ≡ (err (store_failure not_found), filled))
    × (delete services 5 (text "public") (text "orders") no_query filled
        ≡ (err (store_failure not_found), filled))
unfolding text_eq
select-missing_example =
    select-missing services 5 (text "public") (text "orders") no_query [] no_prefer filled refl refl
