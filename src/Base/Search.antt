-- ===== src/Base/Search.antt =====
-- The first match with its place, and what the searches see after a change of the list.
use Prim.Native.Nat.{ℕ, zero, suc}
use mathlib.Core.Path.{◌≡◌, refl}
use mathlib.Core.Bool.{Bool, true, false, not, ◌&&◌, ◌||◌}
use mathlib.Core.List.{List, [], ◌∷◌, ◌++◌}
use mathlib.Core.Option.{Option, none, some}
use native.Mathlib.Omega.{arith}
use lowcode_wrapper.Base.Tests.{if◌then◌else◌}
use lowcode_wrapper.Base.Lists.{set, remove_at, any, all, keep}

module _ {ℓ} {A : Type ℓ} where
  -- The loop that leaves `idx` at the first match, with the element `xs[idx]`; `none` is -1.
  abbrev pub locate : (A → Bool) → List A → Option (ℕ × A)
  locate p [] = none
  locate p (x ∷ xs) =
      if p x
      then some (0, x)
      else elim (locate p xs) [ none ↦ none | some (i, y) ↦ some (suc i, y) ]

  -- No two elements are the same by the test.
  abbrev pub distinct : (A → A → Bool) → List A → Bool
  distinct same [] = true
  distinct same (x ∷ xs) = not (any (same x) xs) && distinct same xs

module _ {ℓ} {A : Type ℓ} where
  pub any-append : (q : A → Bool) (xs ys : List A) → any q (xs ++ ys) ≡ (any q xs || any q ys)
  any-append q [] ys = refl
  any-append q (x ∷ xs) ys = ground (arith, any-append q xs ys)

  pub all-append : (q : A → Bool) (xs ys : List A) → all q (xs ++ ys) ≡ (all q xs && all q ys)
  all-append q [] ys = refl
  all-append q (x ∷ xs) ys = ground (arith, all-append q xs ys)

  pub all_imp :
      (p q : A → Bool) (xs : List A)
      → ((x : A) → p x ≡ true → q x ≡ true)
      → all p xs ≡ true
      → all q xs ≡ true
  all_imp p q [] f h = refl
  all_imp p q (x ∷ xs) f h = ground (arith, f x, all_imp p q xs f)

  pub all-any :
      (p q : A → Bool) (xs : List A)
      → all p xs ≡ true
      → any q xs ≡ true
      → any (λ x. p x && q x) xs ≡ true
  all-any p q [] h k = k
  all-any p q (x ∷ xs) h k = ground (arith, all-any p q xs)

  -- A located element satisfies the test, and whatever all elements do.
  pub locate_holds :
      (p : A → Bool) (xs : List A) (i : ℕ) (x : A) → locate p xs ≡ some (i, x) → p x ≡ true
  locate_holds p [] i x e = cc
  locate_holds p (y ∷ ys) zero x e = ground (arith, locate_holds p ys zero x)
  locate_holds p (y ∷ ys) (suc i) x e = ground (arith, locate_holds p ys i x)

  pub locate-all :
      (p q : A → Bool) (xs : List A) (i : ℕ) (x : A)
      → locate p xs ≡ some (i, x)
      → all q xs ≡ true
      → q x ≡ true
  locate-all p q [] i x e h = cc
  locate-all p q (y ∷ ys) zero x e h = ground (arith, locate-all p q ys zero x)
  locate-all p q (y ∷ ys) (suc i) x e h = ground (arith, locate-all p q ys i x)

  pub any-locate : (p : A → Bool) (xs : List A) → locate p xs ≡ none → any p xs ≡ false
  any-locate p [] e = refl
  any-locate p (x ∷ xs) e = ground (arith, any-locate p xs)

  pub any-set :
      (p q : A → Bool) (xs : List A) (i : ℕ) (x v : A)
      → locate p xs ≡ some (i, x)
      → q v ≡ q x
      → any q (set xs i v) ≡ any q xs
  any-set p q [] i x v e h = cc
  any-set p q (y ∷ ys) zero x v e h = ground arith
  any-set p q (y ∷ ys) (suc i) x v e h = ground (arith, any-set p q ys i x v)

  pub any-remove_at :
      (p q : A → Bool) (xs : List A) (i : ℕ) (x : A)
      → locate p xs ≡ some (i, x)
      → q x ≡ false
      → any q (remove_at xs i) ≡ any q xs
  any-remove_at p q [] i x e h = cc
  any-remove_at p q (y ∷ ys) zero x e h = ground arith
  any-remove_at p q (y ∷ ys) (suc i) x e h = ground (arith, any-remove_at p q ys i x)

  pub all-set :
      (q : A → Bool) (xs : List A) (i : ℕ) (v : A)
      → all q xs ≡ true
      → q v ≡ true
      → all q (set xs i v) ≡ true
  all-set q [] i v h k = refl
  all-set q (y ∷ ys) zero v h k = ground arith
  all-set q (y ∷ ys) (suc i) v h k = ground (arith, all-set q ys i v)

  pub all-remove_at :
      (q : A → Bool) (xs : List A) (i : ℕ) → all q xs ≡ true → all q (remove_at xs i) ≡ true
  all-remove_at q [] zero h = refl
  all-remove_at q [] (suc i) h = refl
  all-remove_at q (y ∷ ys) zero h = ground arith
  all-remove_at q (y ∷ ys) (suc i) h = ground (arith, all-remove_at q ys i)

  pub all-keep : (p q : A → Bool) (xs : List A) → all q xs ≡ true → all q (keep p xs) ≡ true
  all-keep p q [] h = refl
  all-keep p q (x ∷ xs) h = ground (arith, all-keep p q xs)

  -- What is kept satisfies the test.
  pub all-keep_self : (p : A → Bool) (xs : List A) → all p (keep p xs) ≡ true
  all-keep_self p [] = refl
  all-keep_self p (x ∷ xs) = ground (arith, all-keep_self p xs)

  pub any-keep_le : (p q : A → Bool) (xs : List A) → any q xs ≡ false → any q (keep p xs) ≡ false
  any-keep_le p q [] h = refl
  any-keep_le p q (x ∷ xs) h = ground (arith, any-keep_le p q xs)

  pub any-remove_at_le :
      (q : A → Bool) (xs : List A) (i : ℕ) → any q xs ≡ false → any q (remove_at xs i) ≡ false
  any-remove_at_le q [] zero h = refl
  any-remove_at_le q [] (suc i) h = refl
  any-remove_at_le q (x ∷ xs) zero h = ground arith
  any-remove_at_le q (x ∷ xs) (suc i) h = ground (arith, any-remove_at_le q xs i)

  -- Elements that satisfy `q` are all kept, so a search for one sees no difference.
  pub any-keep :
      (p q : A → Bool) (xs : List A)
      → ((x : A) → q x ≡ true → p x ≡ true)
      → any q (keep p xs) ≡ any q xs
  any-keep p q [] f = refl
  any-keep p q (x ∷ xs) f = ground (arith, f x, any-keep p q xs f)

  pub any_ext : (p q : A → Bool) (xs : List A) → ((x : A) → p x ≡ q x) → any p xs ≡ any q xs
  any_ext p q [] f = refl
  any_ext p q (x ∷ xs) f = ground (arith, f x, any_ext p q xs f)

  pub distinct-concat :
      (same : A → A → Bool) (xs : List A) (v : A)
      → ((x y : A) → same x y ≡ same y x)
      → any (same v) xs ≡ false
      → distinct same xs ≡ true
      → distinct same (xs ++ v ∷ []) ≡ true
  distinct-concat same [] v sym h d = refl
  distinct-concat same (x ∷ xs) v sym h d =
      ground (arith, sym x v, any-append (same x) xs (v ∷ []), distinct-concat same xs v sym)

  pub distinct-keep :
      (same : A → A → Bool) (p : A → Bool) (xs : List A)
      → distinct same xs ≡ true
      → distinct same (keep p xs) ≡ true
  distinct-keep same p [] d = refl
  distinct-keep same p (x ∷ xs) d =
      ground (arith, any-keep_le p (same x) xs, distinct-keep same p xs)

  pub distinct-remove_at :
      (same : A → A → Bool) (xs : List A) (i : ℕ)
      → distinct same xs ≡ true
      → distinct same (remove_at xs i) ≡ true
  distinct-remove_at same [] zero d = refl
  distinct-remove_at same [] (suc i) d = refl
  distinct-remove_at same (x ∷ xs) zero d = ground arith
  distinct-remove_at same (x ∷ xs) (suc i) d =
      ground (arith, any-remove_at_le (same x) xs i, distinct-remove_at same xs i)

  -- A change that keeps what the test reads keeps the elements distinct.
  pub distinct-set :
      (same : A → A → Bool) (p : A → Bool) (xs : List A) (i : ℕ) (x v : A)
      → locate p xs ≡ some (i, x)
      → ((y : A) → same y v ≡ same y x)
      → ((y : A) → same v y ≡ same x y)
      → distinct same xs ≡ true
      → distinct same (set xs i v) ≡ true
  distinct-set same p [] i x v e f g d = cc
  distinct-set same p (y ∷ ys) zero x v e f g d = ground (arith, any_ext (same v) (same x) ys g)
  distinct-set same p (y ∷ ys) (suc i) x v e f g d =
      ground (arith, f y, any-set p (same y) ys i x v, distinct-set same p ys i x v)

  any_located :
      (same : A → A → Bool) (p : A → Bool) (xs : List A) (i : ℕ) (x y : A)
      → locate p xs ≡ some (i, x)
      → any (same y) xs ≡ false
      → same y x ≡ false
  any_located same p [] i x y e h = cc
  any_located same p (z ∷ zs) zero x y e h = ground (arith, any_located same p zs zero x y)
  any_located same p (z ∷ zs) (suc i) x y e h = ground (arith, any_located same p zs i x y)

  -- Where all are distinct, the one taken out has no double.
  pub distinct_removed :
      (same : A → A → Bool) (p : A → Bool) (xs : List A) (i : ℕ) (x : A)
      → locate p xs ≡ some (i, x)
      → ((a b : A) → same a b ≡ same b a)
      → distinct same xs ≡ true
      → any (same x) (remove_at xs i) ≡ false
  distinct_removed same p [] i x e f d = cc
  distinct_removed same p (y ∷ ys) zero x e f d = ground arith
  distinct_removed same p (y ∷ ys) (suc i) x e f d =
      ground (arith, f x y, distinct_removed same p ys i x, any_located same p ys i x y)
