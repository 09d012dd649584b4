-- ===== src/Engine/MetaCache.antt =====
-- meta_cache.go: the cache of resolved tables and functions before the store, here the file store.
pub mod Staleness
use lowcode_wrapper.Base.{
  ℕ, zero, ◌+◌, Bool, true, false, Option, none, some, or_else, List, [], ◌∷◌, ◌++◌, map, Text,
  text, text_eq, if◌then◌else◌, ltb, length, Result, ok, err, pos,
}
use lowcode_wrapper.Models.{Uuid, Time, Server, Table, Function, ResolvedTable, ResolvedFunction}
use lowcode_wrapper.FileStore.Records.{Snapshot, StoreError, Env}
use lowcode_wrapper.FileStore.Servers.{list_servers}
use lowcode_wrapper.FileStore.Tables.{list_tables, resolve_table}
use lowcode_wrapper.FileStore.Functions.{list_functions, resolve_function}
use lowcode_wrapper.Postgrest.Headers.{itoa}

pub record Entry (A : Type 0) : Type 0 where
  pub value : A
  pub expires : Time

abbrev pub Entries : Type 0 → Type 0
Entries A = List (Text × Entry A)

pub record MetaCache : Type 0 where
  pub ttl : ℕ
  pub rev : Text
  pub tables : Entries ResolvedTable
  pub funcs : Entries ResolvedFunction

-- The cache that is made for a TTL above zero; without one there is none.
unfoldable pub new_meta_cache : ℕ → Option MetaCache
new_meta_cache ttl =
    if ltb 0 ttl then some (record { ttl = ttl; rev = []; tables = []; funcs = [] }) else none

unfoldable pub meta_cache_key : Text → Text → Text
meta_cache_key schema name = schema ++ zero ∷ name

-- A read of one of the maps: an entry that has expired is passed over.
unfoldable pub get_entry : {A : Type 0} → Time → Text → Entries A → Option A
get_entry now key [] = none
get_entry now key ((k, e) ∷ entries) =
    if text_eq k key
    then (if ltb e.expires now then none else some e.value)
    else get_entry now key entries

unfoldable pub put_entry : {A : Type 0} → Text → Entry A → Entries A → Entries A
put_entry key e [] = (key, e) ∷ []
put_entry key e ((k, old) ∷ entries) =
    let rest = put_entry key e entries in
    if text_eq k key then (k, e) ∷ entries else (k, old) ∷ rest

-- What the revision takes from outside: the digest (SHA-256, cut and in hexadecimal), the bytes of
-- a UUID, and the format of a time.
pub record Digest : Type 0 where
  pub sum : Text → Text
  pub uuid_bytes : Uuid → Text
  pub format_time : Time → Text

module _ (d : Digest) (env : Env) where
  abbrev pub counted : Text → ℕ → Text
  counted name n = name ++ text ":" ++ or_else (itoa (pos n)) [] ++ text "|"

  abbrev pub server_bytes : List Server → Text
  server_bytes [] = []
  server_bytes (srv ∷ servers) =
      d.uuid_bytes srv.id ++ d.format_time srv.updated_at ++ server_bytes servers

  abbrev pub table_bytes : List Table → Text
  table_bytes [] = []
  table_bytes (tbl ∷ tables) = d.uuid_bytes tbl.id ++ table_bytes tables

  abbrev pub function_bytes : List Function → Text
  function_bytes [] = []
  function_bytes (fn ∷ functions) = d.uuid_bytes fn.id ++ function_bytes functions

  unfoldable pub store_revision : Snapshot → Text
  store_revision s =
      let servers = list_servers env s in
      let tables = list_tables env s in
      let functions = list_functions env s in
      d.sum (
        counted (text "s") (length servers)
        ++ server_bytes servers
        ++ counted (text "t") (length tables)
        ++ table_bytes tables
        ++ counted (text "f") (length functions)
        ++ function_bytes functions)

  -- `syncRevision`
  unfoldable pub sync_revision : Snapshot → MetaCache → MetaCache
  unfolding store_revision
  sync_revision s c =
      let rev = store_revision s in
      if text_eq c.rev rev then c else record c { rev = rev; tables = []; funcs = [] }

  -- `putTable` after the store's answer; an error is not kept.
  abbrev pub keep_table : Time → Text → MetaCache → Result StoreError ResolvedTable → MetaCache
  keep_table now key c (err e) = c
  keep_table now key c (ok rt) = record c {
    tables = put_entry key (record { value = rt; expires = now + c.ttl }) c.tables;
  }

  abbrev pub keep_function :
      Time → Text → MetaCache → Result StoreError ResolvedFunction → MetaCache
  keep_function now key c (err e) = c
  keep_function now key c (ok rf) = record c {
    funcs = put_entry key (record { value = rf; expires = now + c.ttl }) c.funcs;
  }

  -- `resolveTable` with a cache: the answer and the cache after it.
  unfoldable pub cached_table :
      Time → Text → Text → Snapshot → MetaCache → Result StoreError ResolvedTable × MetaCache
  unfolding sync_revision get_entry put_entry meta_cache_key
  cached_table now schema table s old =
      let c = sync_revision s old in
      let key = meta_cache_key schema table in
      elim (get_entry now key c.tables) [
        | some rt ↦ (ok rt, c)
        | none ↦ (
          resolve_table env schema table s,
          keep_table now key c (resolve_table env schema table s),
        )
      ]

  unfoldable pub cached_function :
      Time → Text → Text → Snapshot → MetaCache → Result StoreError ResolvedFunction × MetaCache
  unfolding sync_revision get_entry put_entry meta_cache_key
  cached_function now schema name s old =
      let c = sync_revision s old in
      let key = meta_cache_key schema name in
      elim (get_entry now key c.funcs) [
        | some rf ↦ (ok rf, c)
        | none ↦ (
          resolve_function env schema name s,
          keep_function now key c (resolve_function env schema name s),
        )
      ]
