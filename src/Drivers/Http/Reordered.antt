-- ===== src/Drivers/Http/Reordered.antt =====
-- The parameters of a URL in another order: an encoded query is sorted by its keys, and a loop over a map
-- takes the keys in any order.
use mathlib.Core.List.{Permᴰ}
use mathlib.Core.List.Permᴰ
use mathlib.Core.Path.{subst}
use lowcode_wrapper.Base.{
  ℕ, ltb, Bool, true, false, List, [], ◌∷◌, ◌++◌, map, all, Text, text, text_eq, text_eq_iff,
  text_eq_refl, if◌then◌else◌, ◌≡◌, refl, sym, ap, ◌∙◌, arith, Bool-cases, inl, inr,
}
use lowcode_wrapper.Postgrest.Query.{
  Values, Filter, OrderSpec, reserved, get_value, set_value, parse_filter, parse_filters,
}
use lowcode_wrapper.Drivers.Http.{add_value, add_orders, set_number}
use lowcode_wrapper.Drivers.Http.Parameters.{is_free, entry, reserved-eq}

-- What each element gives, in order.
abbrev pub flat : {A B : Type 0} → (A → List B) → List A → List B
flat g [] = []
flat g (x ∷ xs) = g x ++ flat g xs

swap_blocks : {A : Type 0} (xs ys t : List A) → Permᴰ (xs ++ (ys ++ t)) (ys ++ (xs ++ t))
swap_blocks [] ys t = Permᴰ.refl (ys ++ t)
swap_blocks (x ∷ xs) ys t =
    Permᴰ.trans (Permᴰ.cons refl (swap_blocks xs ys t)) (Permᴰ.symm (Permᴰ.middle x ys (xs ++ t)))

flat-Perm : {A B : Type 0} (g : A → List B) {l m : List A} → Permᴰ l m → Permᴰ (flat g l) (flat g m)
flat-Perm g Permᴰ.nil = Permᴰ.nil
flat-Perm g (Permᴰ.cons {a} {b} {l₁} {l₂} e d) =
    subst (λ y. Permᴰ (g a ++ flat g l₁) (g y ++ flat g l₂)) e
      (Permᴰ.append_left (g a) (flat-Perm g d))
flat-Perm g (Permᴰ.swap {a} {b} {a'} {b'} {l} e f) =
    subst (λ y. Permᴰ (g a ++ (g b ++ flat g l)) (g y ++ (g b' ++ flat g l))) f
      (subst (λ y. Permᴰ (g a ++ (g b ++ flat g l)) (g b ++ (g y ++ flat g l))) e
        (swap_blocks (g a) (g b) (flat g l)))
flat-Perm g (Permᴰ.trans d e) = Permᴰ.trans (flat-Perm g d) (flat-Perm g e)

abbrev pub at_most_one : {A : Type 0} → List A → Bool
at_most_one [] = true
at_most_one (x ∷ []) = true
at_most_one (x ∷ y ∷ xs) = false

Permᴰ-nil : {A : Type 0} {l m : List A} → Permᴰ l m → m ≡ [] → l ≡ []
Permᴰ-nil Permᴰ.nil h = h
Permᴰ-nil (Permᴰ.cons e d) h = cc
Permᴰ-nil (Permᴰ.swap e f) h = cc
Permᴰ-nil (Permᴰ.trans d e) h = Permᴰ-nil d (Permᴰ-nil e h)

at_most_one-nil : {A : Type 0} (x : A) (xs : List A) → at_most_one (x ∷ xs) ≡ true → xs ≡ []
at_most_one-nil x [] h = refl
at_most_one-nil x (y ∷ xs) h = cc

Permᴰ-single : {A : Type 0} {l m : List A} → Permᴰ l m → at_most_one m ≡ true → l ≡ m
Permᴰ-single Permᴰ.nil h = refl
Permᴰ-single (Permᴰ.cons {a} {b} {l₁} {l₂} e d) h =
    let nothing = at_most_one-nil b l₂ h in
    ap (λ x. x ∷ l₁) e ∙ ap (λ r. b ∷ r) (Permᴰ-nil d nothing ∙ sym nothing)
Permᴰ-single (Permᴰ.swap e f) h = cc
Permᴰ-single (Permᴰ.trans d e) h =
    let second = Permᴰ-single e h in Permᴰ-single d (ap at_most_one second ∙ h) ∙ second

filters_of : Text × List Text → List Filter
filters_of (key, []) = []
filters_of (key, v ∷ vs) = if reserved key then [] else parse_filter key v ∷ []

parse_filters-flat : (q : Values) → parse_filters q ≡ flat filters_of q
unfolding parse_filters filters_of
parse_filters-flat [] = refl
parse_filters-flat ((key, []) ∷ q) = parse_filters-flat q
parse_filters-flat ((key, v ∷ vs) ∷ q) = elim (Bool-cases (reserved key)) [
  | inl taken ↦ rw taken (parse_filters-flat q)
  | inr free ↦ rw free (ap (λ fs. parse_filter key v ∷ fs) (parse_filters-flat q))
]

pub parse_filters-Perm : (p q : Values) → Permᴰ p q → Permᴰ (parse_filters p) (parse_filters q)
parse_filters-Perm p q d = rw (parse_filters-flat p, parse_filters-flat q) (flat-Perm filters_of d)

-- The entries under a key.
module _ (key : Text) where
  abbrev here : Text × List Text → Values
  here e = if text_eq e.0 key then e ∷ [] else []

  abbrev pub entries_under : Values → Values
  entries_under = flat here

  abbrev first_value : Values → Text
  first_value [] = []
  first_value ((k, []) ∷ q) = []
  first_value ((k, v ∷ vs) ∷ q) = v

  get_value-entries_under : (q : Values) → get_value q key ≡ first_value (entries_under q)
  unfolding get_value
  get_value-entries_under [] = refl
  get_value-entries_under ((k, []) ∷ q) = elim (Bool-cases (text_eq k key)) [
    | inl same ↦ rw (get_value, same) refl
    | inr different ↦ rw (get_value, different) (get_value-entries_under q)
  ]
  get_value-entries_under ((k, v ∷ vs) ∷ q) = elim (Bool-cases (text_eq k key)) [
    | inl same ↦ rw (get_value, same) refl
    | inr different ↦ rw (get_value, different) (get_value-entries_under q)
  ]

  -- A key with one entry at most has the same value in every order.
  pub get_value-Perm :
      (p q : Values)
      → Permᴰ p q
      → at_most_one (entries_under q) ≡ true
      → get_value p key ≡ get_value q key
  get_value-Perm p q d h =
      get_value-entries_under p
      ∙ ap first_value (Permᴰ-single (flat-Perm here d) h)
      ∙ sym (get_value-entries_under q)

  module _ (other : Text) (apart : text_eq other key ≡ false) where
    pub entries_under-set_other :
        (v : Text) (q : Values) → entries_under (set_value other v q) ≡ entries_under q
    unfolding set_value
    entries_under-set_other v [] = rw apart refl
    entries_under-set_other v ((k, vs) ∷ q) = elim (Bool-cases (text_eq k other)) [
      | inl same ↦
          let clear : text_eq k key ≡ false = rw ((text_eq_iff k other).0 same) apart in
          rw (same, clear) refl
      | inr different ↦ rw different (ap (λ r. here (k, vs) ++ r) (entries_under-set_other v q))
    ]

    entries_under-add_other :
        (v : Text) (q : Values) → entries_under (add_value other v q) ≡ entries_under q
    unfolding add_value
    entries_under-add_other v [] = rw apart refl
    entries_under-add_other v ((k, vs) ∷ q) = elim (Bool-cases (text_eq k other)) [
      | inl same ↦
          let clear : text_eq k key ≡ false = rw ((text_eq_iff k other).0 same) apart in
          rw (same, clear) refl
      | inr different ↦ rw different (ap (λ r. here (k, vs) ++ r) (entries_under-add_other v q))
    ]

    pub entries_under-set_number :
        (n : ℕ) (q : Values) → entries_under (set_number other n q) ≡ entries_under q
    unfolding set_number
    entries_under-set_number n q = elim (Bool-cases (ltb 0 n)) [
      | inl given ↦ rw given (entries_under-set_other _ q)
      | inr zero ↦ rw zero refl
    ]

  entries_under-set_value :
      (v : Text) (q : Values)
      → entries_under q ≡ []
      → entries_under (set_value key v q) ≡ (key, v ∷ []) ∷ []
  unfolding set_value
  entries_under-set_value v [] h = rw (text_eq_refl key) refl
  entries_under-set_value v ((k, vs) ∷ q) h = elim (Bool-cases (text_eq k key)) [
    | inl same ↦ let no : (k, vs) ∷ entries_under q ≡ [] = rw same at h in cc
    | inr different ↦
        let rest : entries_under q ≡ [] = rw different at h in
        rw (different, different) (entries_under-set_value v q rest)
  ]

  -- A number is one entry at most.
  pub set_number-single :
      (n : ℕ) (q : Values)
      → entries_under q ≡ []
      → at_most_one (entries_under (set_number key n q)) ≡ true
  unfolding set_number
  set_number-single n q h = elim (Bool-cases (ltb 0 n)) [
    | inl given ↦ rw given (ap at_most_one (entries_under-set_value _ q h))
    | inr zero ↦ rw zero (ap at_most_one h)
  ]

  pub entries_under-add_orders :
      text_eq (text "order") key ≡ false
      → (order : List OrderSpec) (q : Values) → entries_under (add_orders order q) ≡ entries_under q
  unfolding add_orders
  entries_under-add_orders apart [] q = refl
  entries_under-add_orders apart (o ∷ order) q =
      entries_under-add_orders apart order _ ∙ entries_under-add_other (text "order") apart _ q

  pub entries_under-entries :
      (fs : List Filter)
      → reserved key ≡ true
      → all is_free fs ≡ true
      → entries_under (map entry fs) ≡ []
  entries_under-entries [] r h = refl
  entries_under-entries (f ∷ fs) r h = elim (Bool-cases (text_eq f.column key)) [
    | inl same ↦ absurd (clash (reserved-eq f.column key same r))
    | inr different ↦ rw different (entries_under-entries fs r (ground arith))
  ]
    where
      clash : reserved f.column ≡ true → ⊥
      clash taken = ground arith
