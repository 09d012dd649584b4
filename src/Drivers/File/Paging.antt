-- ===== src/Drivers/File/Paging.antt =====
-- The page of a list of rows.
use lowcode_wrapper.Base.{
  ℕ, zero, suc, Bool, true, List, [], ◌∷◌, map, take, drop, length, leb, all, ◌==◌, if◌then◌else◌,
  ◌≡◌, refl, ap, ◌∙◌, arith, Bool-cases, inl, inr,
}
use lowcode_wrapper.Drivers.File.{page}

-- From the offset, as many as the limit, or all with a limit of 0.
abbrev pub slice : {A : Type 0} → ℕ → ℕ → List A → List A
slice offset limit rows = if limit == 0 then drop offset rows else take limit (drop offset rows)

module _ {A : Type 0} where
  drop_past : (n : ℕ) (xs : List A) → leb (length xs) n ≡ true → drop n xs ≡ []
  drop_past zero [] h = refl
  drop_past (suc n) [] h = refl
  drop_past zero (x ∷ xs) h = ground arith
  drop_past (suc n) (x ∷ xs) h = drop_past n xs (ground arith)

  take_past : (n : ℕ) (xs : List A) → leb (length xs) n ≡ true → take n xs ≡ xs
  take_past zero [] h = refl
  take_past (suc n) [] h = refl
  take_past zero (x ∷ xs) h = ground arith
  take_past (suc n) (x ∷ xs) h = ap (λ ys. x ∷ ys) (take_past n xs (ground arith))

  all-drop : (p : A → Bool) (n : ℕ) (xs : List A) → all p xs ≡ true → all p (drop n xs) ≡ true
  all-drop p zero xs h = h
  all-drop p (suc n) [] h = refl
  all-drop p (suc n) (x ∷ xs) h = all-drop p n xs (ground arith)

  all-take : (p : A → Bool) (n : ℕ) (xs : List A) → all p xs ≡ true → all p (take n xs) ≡ true
  all-take p zero xs h = refl
  all-take p (suc n) [] h = refl
  all-take p (suc n) (x ∷ xs) h = ground (arith, all-take p n xs)

  pub all-slice :
      (p : A → Bool) (offset limit : ℕ) (xs : List A)
      → all p xs ≡ true
      → all p (slice offset limit xs) ≡ true
  all-slice p offset limit xs h = elim (Bool-cases (limit == 0)) [
    | inl endless ↦ rw endless (all-drop p offset xs h)
    | inr limited ↦ rw limited (all-take p limit (drop offset xs) (all-drop p offset xs h))
  ]

  -- The driver's page is the slice from the offset with as many rows as the limit, or all of them with
  -- a limit of 0, for every offset and limit: past the end it is empty.
  pub page-slice : (offset limit : ℕ) (xs : List A) → page offset limit xs ≡ slice offset limit xs
  unfolding page
  page-slice offset limit xs =
      ground (arith, drop_past offset xs, take_past limit (drop offset xs), take_past limit xs)

module _ {A B : Type 0} (f : A → B) where
  drop-map : (n : ℕ) (xs : List A) → drop n (map f xs) ≡ map f (drop n xs)
  drop-map zero xs = refl
  drop-map (suc n) [] = refl
  drop-map (suc n) (x ∷ xs) = drop-map n xs

  take-map : (n : ℕ) (xs : List A) → take n (map f xs) ≡ map f (take n xs)
  take-map zero xs = refl
  take-map (suc n) [] = refl
  take-map (suc n) (x ∷ xs) = ap (λ ys. f x ∷ ys) (take-map n xs)

  pub slice-map :
      (offset limit : ℕ) (xs : List A)
      → slice offset limit (map f xs) ≡ map f (slice offset limit xs)
  slice-map offset limit xs = elim (Bool-cases (limit == 0)) [
    | inl endless ↦ rw endless (drop-map offset xs)
    | inr limited ↦
        rw limited (ap (take limit) (drop-map offset xs) ∙ take-map limit (drop offset xs))
  ]
