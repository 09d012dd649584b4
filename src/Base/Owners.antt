-- ===== src/Base/Owners.antt =====
-- Records that name an owner by its id, and what keeps each one's owner in place.
use Prim.Native.Nat.{ℕ}
use mathlib.Core.Path.{◌≡◌, refl, ◌∙◌}
use mathlib.Core.Bool.{Bool, true, false, not, ◌||◌}
use mathlib.Core.List.{List, [], ◌∷◌, ◌++◌, map}
use mathlib.Core.Option.{some}
use native.Mathlib.Omega.{arith}
use lowcode_wrapper.Base.Tests.{◌==◌, ==_iff}
use lowcode_wrapper.Base.Lists.{set, remove_at, any, all, keep}
use lowcode_wrapper.Base.Search.{
  locate, locate_holds, any-append, all-append, all_imp, any-set, any-remove_at,
}

module _ {ℓ} {A : Type ℓ} where
  any-keep_split :
      (p q : A → Bool) (xs : List A)
      → any q xs ≡ (any q (keep p xs) || any q (keep (λ x. not (p x)) xs))
  any-keep_split p q [] = refl
  any-keep_split p q (x ∷ xs) = ground (arith, any-keep_split p q xs)

  any-map {κ} :
      {B : Type κ} (f : A → B) (q : B → Bool) (xs : List A)
      → any q (map f xs) ≡ any (λ x. q (f x)) xs
  any-map f q [] = refl
  any-map f q (x ∷ xs) = ground (arith, any-map f q xs)

  all-keep_imp :
      (p q r : A → Bool) (xs : List A)
      → ((x : A) → p x ≡ true → q x ≡ true → r x ≡ true)
      → all q xs ≡ true
      → all r (keep p xs) ≡ true
  all-keep_imp p q r [] f h = refl
  all-keep_imp p q r (x ∷ xs) f h = ground (arith, f x, all-keep_imp p q r xs f)

module _ {ℓ κ} {A : Type ℓ} {B : Type κ} (id : A → ℕ) (key : B → ℕ) where
  -- An owner of `x` is listed.
  abbrev pub has_owner : List A → B → Bool
  has_owner owners x = any (λ o. id o == key x) owners

  abbrev pub owned : List A → List B → Bool
  owned owners = all (has_owner owners)

  pub owned-append_owners :
      (owners more : List A) (xs : List B)
      → owned owners xs ≡ true
      → owned (owners ++ more) xs ≡ true
  owned-append_owners owners more xs =
      all_imp (has_owner owners) (has_owner (owners ++ more)) xs
        (λ x h. ground (arith, any-append (λ o. id o == key x) owners more))

  pub owned-append :
      (owners : List A) (xs ys : List B)
      → owned owners xs ≡ true
      → owned owners ys ≡ true
      → owned owners (xs ++ ys) ≡ true
  owned-append owners xs ys h k = ground (arith, all-append (has_owner owners) xs ys)

  pub owned-set_owner :
      (p : A → Bool) (owners : List A) (i : ℕ) (o v : A) (xs : List B)
      → locate p owners ≡ some (i, o)
      → id v ≡ id o
      → owned owners xs ≡ true
      → owned (set owners i v) xs ≡ true
  owned-set_owner p owners i o v xs e same =
      all_imp (has_owner owners) (has_owner (set owners i v)) xs
        (λ x h. any-set p (λ w. id w == key x) owners i o v e (rw same) ∙ h)

  -- The owner that goes is the one with id `k`, and no record that stays names `k`.
  pub owned-remove_owner :
      (k : ℕ) (p : B → Bool) (owners : List A) (i : ℕ) (o : A) (xs : List B)
      → locate (λ w. id w == k) owners ≡ some (i, o)
      → ((x : B) → p x ≡ true → (key x == k) ≡ false)
      → owned owners xs ≡ true
      → owned (remove_at owners i) (keep p xs) ≡ true
  owned-remove_owner k p owners i o xs e apart =
      all-keep_imp p (has_owner owners) (has_owner (remove_at owners i)) xs (λ x kept h.
        any-remove_at (λ w. id w == k) (λ w. id w == key x) owners i o e
          (ground (arith, apart x, ==_iff (id o) k, ==_iff (id o) (key x), located))
        ∙ h)
    where
      located : (id o == k) ≡ true
      located = locate_holds (λ w. id w == k) owners i o e

  -- The owners that go are those that `goes` marks, and with them each record that names one.
  pub owned-keep_owners :
      (goes : A → Bool) (owners : List A) (xs : List B)
      → owned owners xs ≡ true
      → owned
          (keep (λ o. not (goes o)) owners)
          (keep (λ x. not (any (λ k. k == key x) (map id (keep goes owners)))) xs)
        ≡ true
  owned-keep_owners goes owners xs =
      all-keep_imp (λ x. not (any (λ k. k == key x) (map id (keep goes owners)))) (has_owner owners)
        (has_owner (keep (λ o. not (goes o)) owners)) xs
        (λ x kept h. ground (
          arith,
          any-keep_split goes (λ o. id o == key x) owners,
          any-map id (λ k. k == key x) (keep goes owners),
        ))
