-- ===== src/Engine/Pool/Reuse.antt =====
-- What a call of `Get` leaves for the calls after it.
use lowcode_wrapper.Base.{
  ℕ, suc, Bool, false, some, [], ◌∷◌, Text, text_eq, text_eq_refl, ◌==◌, ◌≡◌, refl, ◌∙◌, arith,
  Option-cases, Bool-cases, inl, inr,
}
use lowcode_wrapper.Models.{Uuid}
use lowcode_wrapper.Engine.Pool.{
  Pool, PooledDriver, Items, item_of, put_item, pooled, install, get, open_driver,
}

item_of-put_item :
    (items : Items) (id : Uuid) (item : PooledDriver)
    → item_of (put_item items id item) id ≡ some item
unfolding item_of put_item
item_of-put_item [] id item = ground arith
item_of-put_item ((k, old) ∷ items) id item = ground (arith, item_of-put_item items id item)

item_of-put_item_other :
    (items : Items) (id other : Uuid) (item : PooledDriver)
    → (id == other) ≡ false
    → item_of (put_item items id item) other ≡ item_of items other
unfolding item_of put_item
item_of-put_item_other [] id other item h = ground arith
item_of-put_item_other ((k, old) ∷ items) id other item h =
    ground (arith, item_of-put_item_other items id other item h)

pooled-put_item :
    (items : Items) (id : Uuid) (version : Text) (drv : ℕ)
    → pooled (put_item items id (record { version = version; drv = drv })) id version ≡ some drv
unfolding pooled
pooled-put_item items id version drv = ground (
  arith,
  item_of-put_item items id (record { version = version; drv = drv }),
  text_eq_refl version,
)

pooled-put_item_other :
    (items : Items) (id other : Uuid) (v : Text) (item : PooledDriver)
    → (id == other) ≡ false
    → pooled (put_item items id item) other v ≡ pooled items other v
unfolding pooled
pooled-put_item_other items id other v item h =
    ground (arith, item_of-put_item_other items id other item h)

pooled-install :
    (id : Uuid) (version : Text) (drv : ℕ) (p : Pool)
    → pooled (install id version drv p).1.items id version ≡ some (install id version drv p).0.0
unfolding pooled install
pooled-install id version drv p = elim (Option-cases (item_of p.items id)) [
  | inl absent ↦ rw (absent, install) (pooled-put_item p.items id version drv)
  | inr (item, found) ↦ elim (Bool-cases (text_eq item.version version)) [
    | inl same ↦ rw (found, install, same) (rw (found, pooled, same) refl)
    | inr differs ↦ rw (found, install, differs) (pooled-put_item p.items id version drv)
  ]
]

pooled-install_other :
    (id other : Uuid) (version v : Text) (drv : ℕ) (p : Pool)
    → (id == other) ≡ false
    → pooled (install id version drv p).1.items other v ≡ pooled p.items other v
unfolding pooled install
pooled-install_other id other version v drv p h = elim (Option-cases (item_of p.items id)) [
  | inl absent ↦ rw (absent, install) (pooled-put_item_other p.items id other v _ h)
  | inr (item, found) ↦ elim (Bool-cases (text_eq item.version version)) [
    | inl same ↦ rw (found, install, same) refl
    | inr differs ↦ rw (found, install, differs) (pooled-put_item_other p.items id other v _ h)
  ]
]

get-pooled :
    (id : Uuid) (version : Text) (created : Bool) (p : Pool) (drv : ℕ)
    → pooled p.items id version ≡ some drv
    → get id version created p ≡ (some (drv, false), p)
unfolding get
get-pooled id version created p drv found = rw (found, get) refl

pooled-get_hit :
    (id : Uuid) (version : Text) (created : Bool) (p : Pool) (d drv : ℕ) (made : Bool)
    → pooled p.items id version ≡ some d
    → (get id version created p).0 ≡ some (drv, made)
    → pooled (get id version created p).1.items id version ≡ some drv
pooled-get_hit id version created p d drv made found e =
    let hit = get-pooled id version created p d found in
    let same : some (d, false) ≡ some (drv, made) = rw hit at e in
    rw hit (ground (arith, found, same))

pooled-get :
    (id : Uuid) (version : Text) (created : Bool) (p : Pool) (drv : ℕ) (made : Bool)
    → (get id version created p).0 ≡ some (drv, made)
    → pooled (get id version created p).1.items id version ≡ some drv
unfolding get open_driver
pooled-get id version created p drv made e = elim (Option-cases (pooled p.items id version)) [
  | inr (d, found) ↦ pooled-get_hit id version created p d drv made found e
  | inl absent ↦ elim (Bool-cases created) [
    | inr failed ↦ cc (rw (absent, get, failed) at e)
    | inl opened ↦
        let t : Pool = record p { next = suc p.next } in
        let here = pooled-install id version p.next t in
        let given : some (install id version p.next t).0 ≡ some (drv, made) =
          rw (absent, get, opened) at e in
        rw (absent, get, opened) (here ∙ ground (arith, given))
  ]
]

-- After a call of `Get` that returned a driver, a call for the same server and the same version of
-- its configuration returns that driver again, creates none and leaves the pool as it is, whether or
-- not a driver could be created then.
pub get-get :
    (id : Uuid) (version : Text) (created again : Bool) (p : Pool) (drv : ℕ) (made : Bool)
    → (get id version created p).0 ≡ some (drv, made)
    → get id version again (get id version created p).1
      ≡ (some (drv, false), (get id version created p).1)
get-get id version created again p drv made e =
    get-pooled id version again _ drv (pooled-get id version created p drv made e)

-- A call of `Get` for one server leaves what the pool has for every other server.
pub get-isolated :
    (id other : Uuid) (version v : Text) (created : Bool) (p : Pool)
    → (id == other) ≡ false
    → pooled (get id version created p).1.items other v ≡ pooled p.items other v
unfolding get open_driver
get-isolated id other version v created p h = elim (Option-cases (pooled p.items id version)) [
  | inr (drv, found) ↦ rw (found, get) refl
  | inl absent ↦ elim (Bool-cases created) [
    | inr failed ↦ rw (absent, get, failed) refl
    | inl opened ↦
        rw (absent, get, opened)
          (pooled-install_other id other version v p.next (record p { next = suc p.next }) h)
  ]
]
