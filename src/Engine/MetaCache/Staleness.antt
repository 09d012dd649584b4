-- ===== src/Engine/MetaCache/Staleness.antt =====
-- When the cache answers what the store answers, and when it does not.
use lowcode_wrapper.Base.{
  ◌+◌, false, some, List, [], ◌∷◌, Text, text_eq, text_eq_iff, text_eq_refl, ltb, ok, ◌≡◌, refl,
  sym, ap, ◌∙◌, arith, Option-cases, inl, inr, locate, set, ◌==◌,
}
use lowcode_wrapper.Models.{Uuid, Time, ResolvedTable, UpdateColumnRequest}
use lowcode_wrapper.FileStore.Records.{Snapshot, Env, ColumnRecord}
use lowcode_wrapper.FileStore.Tables.{resolve_table, list_tables}
use lowcode_wrapper.FileStore.Columns.{update_column, replace_column, changed_column}
use lowcode_wrapper.FileStore.Servers.{list_servers}
use lowcode_wrapper.FileStore.Functions.{list_functions}
use lowcode_wrapper.FileStore.Invariant.{state_after, with_lock-state}
use lowcode_wrapper.Engine.MetaCache.{
  Entry, Entries, MetaCache, Digest, meta_cache_key, get_entry, put_entry, store_revision,
  sync_revision, cached_table, keep_table,
}

get_entry-put_entry :
    {A : Type 0} (now : Time) (key : Text) (e : Entry A) (entries : Entries A)
    → ltb e.expires now ≡ false
    → get_entry now key (put_entry key e entries) ≡ some e.value
unfolding get_entry put_entry
get_entry-put_entry now key e [] h = ground (arith, text_eq_refl key)
get_entry-put_entry now key e ((k, old) ∷ entries) h =
    ground (arith, get_entry-put_entry now key e entries h)

-- `UpdateColumn` writes the columns at most.
update_column-columns :
    (env : Env) (id : Uuid) (req : UpdateColumnRequest) (s : Snapshot)
    → (cols : List ColumnRecord) × ((update_column env id req s).1 ≡ record s { columns = cols })
unfolding update_column replace_column
update_column-columns env id req s =
    elim (Option-cases (locate (λ (rec : ColumnRecord). rec.id == id) s.columns)) [
      | inl missing ↦ (s.columns, rw (with_lock-state, state_after, missing) refl)
      | inr ((i, old), at) ↦
          (set s.columns i (changed_column req old), rw (with_lock-state, state_after, at) refl)
    ]

module _ (d : Digest) (env : Env) where
  sync_revision-changed :
      (s : Snapshot) (c : MetaCache)
      → text_eq c.rev (store_revision d env s) ≡ false
      → sync_revision d env s c ≡ record c { rev = store_revision d env s; tables = []; funcs = [] }
  unfolding sync_revision
  sync_revision-changed s c h = rw (h, sync_revision) refl

  sync_revision-same :
      (s : Snapshot) (c : MetaCache) → c.rev ≡ store_revision d env s → sync_revision d env s c ≡ c
  unfolding sync_revision
  sync_revision-same s c h =
      rw ((text_eq_iff c.rev (store_revision d env s)).1 h, sync_revision) refl

  -- When the store's revision is not the one that the cache was filled under, the answer is the
  -- store's own.
  pub cached_table-changed :
      (now : Time) (schema table : Text) (s : Snapshot) (c : MetaCache)
      → text_eq c.rev (store_revision d env s) ≡ false
      → (cached_table d env now schema table s c).0 ≡ resolve_table env schema table s
  unfolding cached_table get_entry
  cached_table-changed now schema table s c h = rw (sync_revision-changed s c h, cached_table) refl

  store_revision-columns :
      (s : Snapshot) (cols : List ColumnRecord)
      → store_revision d env (record s { columns = cols }) ≡ store_revision d env s
  unfolding store_revision list_servers list_tables list_functions
  store_revision-columns s cols = refl

  -- The revision reads no column.
  store_revision-update_column :
      (id : Uuid) (req : UpdateColumnRequest) (s : Snapshot)
      → store_revision d env (update_column env id req s).1 ≡ store_revision d env s
  store_revision-update_column id req s =
      let (cols, written) = update_column-columns env id req s in
      ap (store_revision d env) written ∙ store_revision-columns s cols

  -- What the cache holds after an answer of the store.
  cached_table-kept :
      (now : Time) (schema table : Text) (s : Snapshot) (c : MetaCache) (rt : ResolvedTable)
      → text_eq c.rev (store_revision d env s) ≡ false
      → resolve_table env schema table s ≡ ok rt
      → (cached_table d env now schema table s c).1 ≡ record c {
        rev = store_revision d env s;
        tables =
            put_entry
              (meta_cache_key schema table)
              (record { value = rt; expires = now + c.ttl })
              [];
        funcs = [];
      }
  unfolding cached_table get_entry
  cached_table-kept now schema table s c rt h e =
      rw (sync_revision-changed s c h, cached_table, e)
        (ap (λ x. keep_table d env now (meta_cache_key schema table) x (ok rt))
          (sync_revision-changed s c h))

  cached_table-hit :
      (now : Time) (schema table : Text) (s : Snapshot) (c : MetaCache) (rt : ResolvedTable)
      → c.rev ≡ store_revision d env s
      → get_entry now (meta_cache_key schema table) c.tables ≡ some rt
      → (cached_table d env now schema table s c).0 ≡ ok rt
  unfolding cached_table
  cached_table-hit now schema table s c rt h found =
      rw (sync_revision-same s c h, cached_table, found) refl

  -- A table that was read into the cache is answered as it was then until its entry expires, although
  -- one of its columns is updated in between: `UpdateColumn` leaves the store's revision as it is.
  pub cached_table-stale :
      (now later : Time) (schema table : Text) (s : Snapshot) (c : MetaCache) (rt : ResolvedTable)
      (id : Uuid) (req : UpdateColumnRequest)
      → text_eq c.rev (store_revision d env s) ≡ false
      → resolve_table env schema table s ≡ ok rt
      → ltb (now + c.ttl) later ≡ false
      → (cached_table d env later schema table
          (update_column env id req s).1
          (cached_table d env now schema table s c).1).0
        ≡ ok rt
  cached_table-stale now later schema table s c rt id req h e fresh =
      rw (cached_table-kept now schema table s c rt h e) (
        cached_table-hit later schema table (update_column env id req s).1 _ rt
          (sym (store_revision-update_column id req s))
          (get_entry-put_entry later (meta_cache_key schema table)
            (record { value = rt; expires = now + c.ttl }) [] fresh))
