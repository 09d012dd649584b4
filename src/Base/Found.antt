-- ===== src/Base/Found.antt =====
-- What `find` and `keep` see in a list that was extended or cut.
use Prim.Native.Nat.{ℕ, suc}
use mathlib.Core.Path.{◌≡◌, refl}
use mathlib.Core.Bool.{Bool, true, false}
use mathlib.Core.List.{List, [], ◌∷◌, ◌++◌}
use mathlib.Core.Option.{some}
use mathlib.Core.Logic.{inl, inr}
use native.Mathlib.Omega.{arith}
use lowcode_wrapper.Base.Tests.{◌==◌, is_some, Bool-cases}
use lowcode_wrapper.Base.Lists.{any, all, find, keep}
use lowcode_wrapper.Base.Search.{locate, distinct}

module _ {ℓ} {A : Type ℓ} where
  pub is_some-find : (p : A → Bool) (xs : List A) → is_some (find p xs) ≡ any p xs
  is_some-find p [] = refl
  is_some-find p (x ∷ xs) = ground (arith, is_some-find p xs)

  pub find_holds : (p : A → Bool) (xs : List A) (x : A) → find p xs ≡ some x → p x ≡ true
  find_holds p [] x e = cc
  find_holds p (y ∷ ys) x e = ground (arith, find_holds p ys x)

  pub find-append_miss :
      (p : A → Bool) (xs ys : List A) → any p xs ≡ false → find p (xs ++ ys) ≡ find p ys
  find-append_miss p [] ys h = refl
  find-append_miss p (x ∷ xs) ys h = ground (arith, find-append_miss p xs ys)

  pub keep-append : (p : A → Bool) (xs ys : List A) → keep p (xs ++ ys) ≡ keep p xs ++ keep p ys
  keep-append p [] ys = refl
  keep-append p (x ∷ xs) ys = ground (arith, keep-append p xs ys)

  pub keep_none : (p : A → Bool) (xs : List A) → any p xs ≡ false → keep p xs ≡ []
  keep_none p [] h = refl
  keep_none p (x ∷ xs) h = ground (arith, keep_none p xs)

  pub keep-all : (p : A → Bool) (xs : List A) → all p xs ≡ true → keep p xs ≡ xs
  keep-all p [] h = refl
  keep-all p (x ∷ xs) h = ground (arith, keep-all p xs)

  pub any_of_all :
      (p q : A → Bool) (xs : List A)
      → ((x : A) → p x ≡ true → q x ≡ false)
      → all p xs ≡ true
      → any q xs ≡ false
  any_of_all p q [] f h = refl
  any_of_all p q (x ∷ xs) f h = ground (arith, f x, any_of_all p q xs f)

  pub find-all :
      (p q : A → Bool) (xs : List A) (x : A) → find p xs ≡ some x → all q xs ≡ true → q x ≡ true
  find-all p q [] x e h = cc
  find-all p q (y ∷ ys) x e h = ground (arith, find-all p q ys x)

  pub find-any :
      (p q : A → Bool) (xs : List A) (x : A) → find p xs ≡ some x → q x ≡ true → any q xs ≡ true
  find-any p q [] x e h = cc
  find-any p q (y ∷ ys) x e h = ground (arith, find-any p q ys x)

  -- Where the ids are distinct, the record of an id is the one found by another test.
  pub find_by_id :
      (id : A → ℕ) (p : A → Bool) (xs : List A) (x : A)
      → distinct (λ a b. id b == id a) xs ≡ true
      → find p xs ≡ some x
      → find (λ y. id y == id x) xs ≡ some x
  find_by_id id p [] x d e = cc
  find_by_id id p (y ∷ ys) x d e =
      ground (arith, find-any p (λ b. id b == id y) ys x, find_by_id id p ys x)

  pub locate_of_find :
      (p : A → Bool) (xs : List A) (x : A)
      → find p xs ≡ some x
      → (i : ℕ) × (locate p xs ≡ some (i, x))
  locate_of_find p [] x e = cc
  locate_of_find p (y ∷ ys) x e = elim (Bool-cases (p y)) [
    | inl here ↦ (0, ground arith)
    | inr later ↦ let (i, at) = locate_of_find p ys x (ground arith) in (suc i, ground arith)
  ]
