-- ===== src/Engine/Pool/Accounts.antt =====
-- Calls of `Get` and `Close` in any order: where every driver is.
use lowcode_wrapper.Base.{
  ℕ, zero, suc, ◌+◌, none, some, List, [], ◌∷◌, ◌++◌, map, Text, text_eq, if◌then◌else◌, ◌==◌, ltb,
  ◌≡◌, refl, arith, get_elem?, remove_at, Option-cases, Bool-cases, inl, inr,
}
use lowcode_wrapper.Models.{Uuid}
use lowcode_wrapper.Engine.Pool.{
  Pool, PooledDriver, Items, new_pool, item_of, put_item, install, open_driver, bring, close_pool,
}

-- The steps of the calls of `Get` that run at the same time, as the lock orders them: a driver is
-- created, one that is in hand is brought to the pool, or the pool is closed. A call that finds its
-- driver changes nothing.
pub data Step : Pool → Pool → Type 0 where
  created : {p : Pool} → Step p (open_driver p)
  brought :
      {p : Pool} (id : Uuid) (version : Text) (i drv : ℕ)
      → get_elem? p.in_hand i ≡ some drv
      → Step p (bring id version i drv p)
  shut : {p : Pool} → Step p (close_pool p)

pub data Reachable : Pool → Type 0 where
  start : Reachable new_pool
  after : {p q : Pool} → Reachable p → Step p q → Reachable q

abbrev pub times : ℕ → List ℕ → ℕ
times h [] = 0
times h (x ∷ xs) = (if x == h then 1 else 0) + times h xs

abbrev pub drivers_of : Items → List ℕ
drivers_of = map (λ (e : Uuid × PooledDriver). (e.1).drv)

-- How often a driver is in hand, in the pool, or among the closed ones.
abbrev pub accounts : ℕ → Pool → ℕ
accounts h p = times h p.in_hand + times h (drivers_of p.items) + times h p.closed

abbrev pub expected : ℕ → Pool → ℕ
expected h p = if ltb h p.next then 1 else 0

times-append : (h : ℕ) (xs ys : List ℕ) → times h (xs ++ ys) ≡ times h xs + times h ys
times-append h [] ys = omega arith
times-append h (x ∷ xs) ys = ground (arith, times-append h xs ys)

times-remove_at :
    (h i x : ℕ) (xs : List ℕ)
    → get_elem? xs i ≡ some x
    → times h xs ≡ (if x == h then 1 else 0) + times h (remove_at xs i)
times-remove_at h i x [] e = cc
times-remove_at h zero x (y ∷ ys) e = ground arith
times-remove_at h (suc i) x (y ∷ ys) e = ground (arith, times-remove_at h i x ys)

put_item-none :
    (h : ℕ) (items : Items) (id : Uuid) (item : PooledDriver)
    → item_of items id ≡ none
    → times h (drivers_of (put_item items id item))
      ≡ (if item.drv == h then 1 else 0) + times h (drivers_of items)
unfolding item_of put_item
put_item-none h [] id item e = refl
put_item-none h ((k, old) ∷ items) id item e = ground (arith, put_item-none h items id item)

put_item-some :
    (h : ℕ) (items : Items) (id : Uuid) (item old : PooledDriver)
    → item_of items id ≡ some old
    → (if old.drv == h then 1 else 0) + times h (drivers_of (put_item items id item))
      ≡ (if item.drv == h then 1 else 0) + times h (drivers_of items)
unfolding item_of put_item
put_item-some h [] id item old e = cc
put_item-some h ((k, x) ∷ items) id item old e = ground (arith, put_item-some h items id item old)

-- The driver that `install` is given goes to the pool or is closed; so does the one it replaces.
install-accounts :
    (h : ℕ) (id : Uuid) (version : Text) (drv : ℕ) (p : Pool)
    → accounts h (install id version drv p).1 ≡ (if drv == h then 1 else 0) + accounts h p
unfolding install
install-accounts h id version drv p = elim (Option-cases (item_of p.items id)) [
  | inl absent ↦
      let put = put_item-none h p.items id (record { version = version; drv = drv }) absent in
      rw (absent, install) (ground (arith, put))
  | inr (item, found) ↦
      let put = put_item-some h p.items id (record { version = version; drv = drv }) item found in
      elim (Bool-cases (text_eq item.version version)) [
        | inl same ↦ rw (found, install, same) (ground (arith, times-append h p.closed (drv ∷ [])))
        | inr other ↦
            rw (found, install, other)
              (ground (arith, put, times-append h p.closed (item.drv ∷ [])))
      ]
]

Step-accounts :
    {p q : Pool}
    → Step p q
    → ((h : ℕ) → accounts h p ≡ expected h p)
    → (h : ℕ) → accounts h q ≡ expected h q
unfolding open_driver bring close_pool
Step-accounts created v h = ground (arith, v h)
Step-accounts {p} (brought id version i drv at) v h =
    let q : Pool = record p { in_hand = remove_at p.in_hand i } in
    let moved = install-accounts h id version drv q in
    ground (arith, moved, times-remove_at h i drv p.in_hand at, v h)
Step-accounts {p} shut v h = ground (arith, times-append h p.closed (drivers_of p.items), v h)

-- However the calls of `Get` and `Close` interleave, every driver that was ever created stands at
-- exactly one place: with the call that created it, in the pool, or among the closed ones. So none is
-- lost, none is pooled twice, and none is closed twice or closed while it is in the pool.
pub Reachable-accounts : {p : Pool} → Reachable p → (h : ℕ) → accounts h p ≡ expected h p
Reachable-accounts start h = ground arith
Reachable-accounts (after r st) h = Step-accounts st (Reachable-accounts r) h
