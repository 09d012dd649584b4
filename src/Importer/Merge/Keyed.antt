-- ===== src/Importer/Merge/Keyed.antt =====
-- What one loop of the merge leaves in its map.
use lowcode_wrapper.Base.{
  Bool, true, false, Option, none, some, List, [], ◌∷◌, ◌++◌, all, find, is_empty, Text, text_eq,
  text_eq_iff, text_eq_refl, if◌then◌else◌, ◌≡◌, refl, sym, ap, ◌∙◌, arith, Bool-cases, inl, inr,
}
use lowcode_wrapper.Importer.Merge.{put, put_all, values}

abbrev pub or_found : {A : Type 0} → Option A → Option A → Option A
or_found none d = d
or_found (some a) d = some a

abbrev pub find_last : {A : Type 0} → (A → Bool) → List A → Option A
find_last p [] = none
find_last p (x ∷ xs) = or_found (find_last p xs) (if p x then some x else none)

pub or_found_assoc :
    {A : Type 0} (a b c : Option A) → or_found (or_found a b) c ≡ or_found a (or_found b c)
or_found_assoc none b c = refl
or_found_assoc (some a) b c = refl

pub or_found-none : {A : Type 0} (a : Option A) → or_found a none ≡ a
or_found-none none = refl
or_found-none (some a) = refl

pub find_last-append :
    {A : Type 0} (p : A → Bool) (xs ys : List A)
    → find_last p (xs ++ ys) ≡ or_found (find_last p ys) (find_last p xs)
find_last-append p [] ys = sym (or_found-none (find_last p ys))
find_last-append p (x ∷ xs) ys =
    rw (find_last-append p xs ys)
      (or_found_assoc (find_last p ys) (find_last p xs) (if p x then some x else none))

empty_ne : (a b : Text) → is_empty a ≡ true → is_empty b ≡ false → text_eq a b ≡ false
unfolding text_eq
empty_ne [] [] e n = ground arith
empty_ne [] (y ∷ b) e n = refl
empty_ne (x ∷ a) b e n = ground arith

module _ {A : Type 0} (key : A → Text) where
  -- Every entry stands under its own key.
  abbrev pub keyed : List (Text × A) → Bool
  keyed = all (λ e. text_eq e.0 (key e.1))

  abbrev pub has_key : Text → A → Bool
  has_key k x = text_eq (key x) k

  pub put-keyed : (v : A) (m : List (Text × A)) → keyed m ≡ true → keyed (put (key v) v m) ≡ true
  unfolding put
  put-keyed v [] h = rw (text_eq_refl (key v)) refl
  put-keyed v ((j, w) ∷ m) h = ground (arith, put-keyed v m)

  find-put :
      (k : Text) (v : A) (m : List (Text × A))
      → keyed m ≡ true
      → find (has_key k) (values (put (key v) v m))
        ≡ or_found (if has_key k v then some v else none) (find (has_key k) (values m))
  unfolding put
  find-put k v [] h = sym (or_found-none (if has_key k v then some v else none))
  find-put k v ((j, w) ∷ m) h = ground (
    arith,
    find-put k v m,
    text_eq_iff j (key v),
    text_eq_iff j (key w),
    text_eq_iff (key v) k,
    text_eq_iff (key w) k,
  )

  no_key : (k : Text) (x : A) → is_empty k ≡ false → is_empty (key x) ≡ true → has_key k x ≡ false
  no_key k x n e = empty_ne (key x) k e n

  pub put_all-keyed :
      (xs : List A) (m : List (Text × A)) → keyed m ≡ true → keyed (put_all key xs m) ≡ true
  unfolding put_all
  put_all-keyed [] m h = h
  put_all-keyed (x ∷ xs) m h = elim (Bool-cases (is_empty (key x))) [
    | inl skipped ↦ rw skipped (put_all-keyed xs m h)
    | inr stored ↦ rw stored (put_all-keyed xs (put (key x) x m) (put-keyed x m h))
  ]

  pub find-put_all :
      (k : Text) (xs : List A) (m : List (Text × A))
      → is_empty k ≡ false
      → keyed m ≡ true
      → find (has_key k) (values (put_all key xs m))
        ≡ or_found (find_last (has_key k) xs) (find (has_key k) (values m))
  unfolding put_all
  find-put_all k [] m n h = refl
  find-put_all k (x ∷ xs) m n h = elim (Bool-cases (is_empty (key x))) [
    | inl skipped ↦
        rw (skipped, no_key k x n skipped)
          (find-put_all k xs m n h
            ∙ ap (λ o. or_found o (find (has_key k) (values m)))
                (sym (or_found-none (find_last (has_key k) xs))))
    | inr stored ↦ rw stored (
        find-put_all k xs (put (key x) x m) n (put-keyed x m h)
        ∙ ap (or_found (find_last (has_key k) xs)) (find-put k x m h)
        ∙ sym (
            or_found_assoc (find_last (has_key k) xs) (if has_key k x then some x else none)
              (find (has_key k) (values m))))
  ]
