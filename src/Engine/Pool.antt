-- ===== src/Engine/Pool.antt =====
-- driver_pool.go. A driver is its handle: the pool only hands it on and closes it. The map of the
-- pool is an association list.
pub mod Accounts
pub mod Reuse
use lowcode_wrapper.Base.{
  ℕ, suc, ◌+◌, Bool, true, false, Option, none, some, List, [], ◌∷◌, ◌++◌, map, Text, text_eq,
  if◌then◌else◌, ◌==◌, find, remove_at, is_empty,
}
use lowcode_wrapper.Models.{Uuid}

pub record PooledDriver : Type 0 where
  pub version : Text
  pub drv : ℕ

abbrev pub Items : Type 0
Items = List (Uuid × PooledDriver)

-- The pool with the drivers of the process: those that a call of `Get` has created and not yet
-- brought to the pool, those that were closed, in that order, and the next handle.
pub record Pool : Type 0 where
  pub items : Items
  pub in_hand : List ℕ
  pub closed : List ℕ
  pub next : ℕ

abbrev pub new_pool : Pool
new_pool = record { items = []; in_hand = []; closed = []; next = 0 }

-- `p.items[id]`
unfoldable pub item_of : Items → Uuid → Option PooledDriver
item_of [] id = none
item_of ((k, item) ∷ items) id = if k == id then some item else item_of items id

-- `p.items[id] = item`
unfoldable pub put_item : Items → Uuid → PooledDriver → Items
put_item [] id item = (id, item) ∷ []
put_item ((k, old) ∷ items) id item =
    let rest = put_item items id item in if k == id then (k, item) ∷ items else (k, old) ∷ rest

-- The first locked part of `Get`: the driver of that version, if the pool has it.
unfoldable pub pooled : Items → Uuid → Text → Option ℕ
unfolding item_of
pooled items id version = elim (item_of items id) [
  | none ↦ none
  | some item ↦ if text_eq item.version version then some item.drv else none
]

-- `driver.Close` of the pool's driver or of the new one.
abbrev pub close : ℕ → Pool → Pool
close drv p = record p { closed = p.closed ++ drv ∷ [] }

-- The second locked part of `Get`, with the driver that `create` returned; the Boolean says whether
-- that driver is the one in the pool now.
unfoldable pub install : Uuid → Text → ℕ → Pool → (ℕ × Bool) × Pool
unfolding item_of put_item
install id version drv p =
    let fresh : PooledDriver = record { version = version; drv = drv } in
    elim (item_of p.items id) [
      | none ↦ ((drv, true), record p { items = put_item p.items id fresh })
      | some item ↦
          if text_eq item.version version
          then ((item.drv, false), close drv p)
          else ((drv, true), close item.drv (record p { items = put_item p.items id fresh }))
    ]

-- `create` made a driver for a call of `Get`.
unfoldable pub open_driver : Pool → Pool
open_driver p = record p { in_hand = p.next ∷ p.in_hand; next = suc p.next }

-- The call of `Get` brings the driver at that place of the list to the pool.
unfoldable pub bring : Uuid → Text → ℕ → ℕ → Pool → Pool
unfolding install
bring id version i drv p = (install id version drv (record p { in_hand = remove_at p.in_hand i })).1

-- `Get` of a call that no other interrupts; `created` says whether `create` succeeds, and the result
-- is none when it fails.
unfoldable pub get : Uuid → Text → Bool → Pool → Option (ℕ × Bool) × Pool
unfolding pooled install open_driver
get id version created p = elim (pooled p.items id version) [
  | some drv ↦ (some (drv, false), p)
  | none ↦
      if created
      then (let q = open_driver p in
          let (given, t) = install id version p.next (record q { in_hand = p.in_hand }) in
          (some given, t))
      else (none, p)
]

-- `Close`
unfoldable pub close_pool : Pool → Pool
close_pool p = record p {
  items = [];
  closed = p.closed ++ map (λ (e : Uuid × PooledDriver). (e.1).drv) p.items;
}
