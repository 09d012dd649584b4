-- ===== src/Auth/Merge/Lookup.antt =====
-- What the merged options hold under each key.
use lowcode_wrapper.Base.{
  Bool, true, false, ◌&&◌, ◌||◌, Option, none, some, is_some, List, [], ◌∷◌, Text, text_eq,
  text_eq_iff, text_eq_refl, if◌then◌else◌, ◌≡◌, refl, sym, ap, ◌∙◌, Bool-cases, inl, inr,
}
use lowcode_wrapper.Models.{Value, Fields}
use lowcode_wrapper.Postgrest.Match.{field}
use lowcode_wrapper.Auth.Merge.{
  set_field, secret_keys, is_usable, set_if_usable, take_secrets, is_listed, is_secret, fill_rest,
  merge_credential_into_options,
}

field-set_field : (key : Text) (v : Value) (m : Fields) → field key (set_field key v m) ≡ some v
unfolding field set_field
field-set_field key v [] = rw (text_eq_refl key) refl
field-set_field key v ((k, old) ∷ m) = elim (Bool-cases (text_eq k key)) [
  | inl same ↦ rw (same, same) refl
  | inr different ↦ rw (different, different) (field-set_field key v m)
]

field-set_other :
    (key other : Text) (v : Value) (m : Fields)
    → text_eq key other ≡ false
    → field other (set_field key v m) ≡ field other m
unfolding field set_field
field-set_other key other v [] h = rw h refl
field-set_other key other v ((k, old) ∷ m) h = elim (Bool-cases (text_eq k key)) [
  | inl same ↦
      let apart : text_eq k other ≡ false = rw ((text_eq_iff k key).0 same) h in
      rw (same, apart) refl
  | inr different ↦ elim (Bool-cases (text_eq k other)) [
    | inl found ↦ rw (different, found) refl
    | inr missed ↦ rw (different, missed) (field-set_other key other v m h)
  ]
]

-- One secret: the credential's where it can be used.
field-set_if_usable :
    (key : Text) (o : Option Value) (m : Fields)
    → field key (set_if_usable key o m) ≡ (if is_usable o then o else field key m)
field-set_if_usable key none m = refl
field-set_if_usable key (some v) m = elim (Bool-cases (is_usable (some v))) [
  | inl usable ↦ rw usable (field-set_field key v m)
  | inr useless ↦ rw useless refl
]

field-set_if_other :
    (key other : Text) (o : Option Value) (m : Fields)
    → text_eq key other ≡ false
    → field other (set_if_usable key o m) ≡ field other m
field-set_if_other key other none m h = refl
field-set_if_other key other (some v) m h = elim (Bool-cases (is_usable (some v))) [
  | inl usable ↦ rw usable (field-set_other key other v m h)
  | inr useless ↦ rw useless refl
]

pick :
    {A : Type 0} (listed usable : Bool) (c o : A)
    → (if listed && usable then c else (if usable then c else o)) ≡ (if usable then c else o)
pick true true c o = refl
pick true false c o = refl
pick false true c o = refl
pick false false c o = refl

field-take_secrets :
    (keys : List Text) (key : Text) (cred out : Fields)
    → field key (take_secrets keys cred out)
      ≡ (if is_listed keys key && is_usable (field key cred) then field key cred else field key out)
unfolding take_secrets
field-take_secrets [] key cred out = refl
field-take_secrets (k ∷ keys) key cred out =
    field-take_secrets keys key cred (set_if_usable k (field k cred) out)
    ∙ elim (Bool-cases (text_eq k key)) [
      | inl same ↦
          let e = (text_eq_iff k key).0 same in
          let here : field key (set_if_usable k (field k cred) out)
              ≡ (if is_usable (field key cred) then field key cred else field key out) =
            ap (λ j. field key (set_if_usable j (field j cred) out)) e
            ∙ field-set_if_usable key (field key cred) out in
          rw (same, here) (pick (is_listed keys key) (is_usable (field key cred)) _ _)
      | inr different ↦ rw (different, field-set_if_other k key (field k cred) out different) refl
    ]

-- What is there, or else the other.
abbrev pub or_other : Option Value → Option Value → Option Value
or_other none o = o
or_other (some v) o = some v

or_other-some : (o p : Option Value) → is_some o ≡ true → or_other o p ≡ o
or_other-some none p h = cc
or_other-some (some v) p h = refl

or_other-none : (o : Option Value) → or_other o none ≡ o
or_other-none none = refl
or_other-none (some v) = refl

none-is_some : (o : Option Value) → is_some o ≡ false → o ≡ none
none-is_some none h = refl
none-is_some (some v) h = cc

-- A step of the last loop at another key.
field-step :
    (k key : Text) (v : Value) (held : Bool) (out : Fields)
    → text_eq k key ≡ false
    → field key (if held then out else set_field k v out) ≡ field key out
field-step k key v true out h = refl
field-step k key v false out h = field-set_other k key v out h

fill_rest-secret :
    (key : Text) (cred out : Fields)
    → is_secret key ≡ true
    → field key (fill_rest cred out) ≡ field key out
unfolding fill_rest
fill_rest-secret key [] out h = refl
fill_rest-secret key ((k, v) ∷ cred) out h =
    fill_rest-secret key cred _ h ∙ elim (Bool-cases (text_eq k key)) [
      | inl same ↦
          let known : is_secret k ≡ true = rw ((text_eq_iff k key).0 same) h in rw known refl
      | inr different ↦ field-step k key v (is_secret k || is_some (field k out)) out different
    ]

fill_rest-other :
    (key : Text) (cred out : Fields)
    → is_secret key ≡ false
    → field key (fill_rest cred out) ≡ or_other (field key out) (field key cred)
unfolding fill_rest field
fill_rest-other key [] out h = sym (or_other-none (field key out))
fill_rest-other key ((k, v) ∷ cred) out h = elim (Bool-cases (text_eq k key)) [
  | inr different ↦
      fill_rest-other key cred _ h
      ∙ rw (different, field-step k key v (is_secret k || is_some (field k out)) out different) refl
  | inl same ↦
      let e = (text_eq_iff k key).0 same in
      let free : is_secret k ≡ false = rw e h in
      elim (Bool-cases (is_some (field k out))) [
        | inl held ↦
            let there : is_some (field key out) ≡ true =
              ap (λ j. is_some (field j out)) (sym e) ∙ held in
            fill_rest-other key cred _ h
            ∙ rw (free, held, same)
                (or_other-some (field key out) (field key cred) there
                  ∙ sym (or_other-some (field key out) (some v) there))
        | inr missing ↦
            let nothing : field key out ≡ none =
              none-is_some (field key out) (ap (λ j. is_some (field j out)) (sym e) ∙ missing) in
            let now : field key (set_field k v out) ≡ some v =
              ap (λ j. field j (set_field k v out)) (sym e) ∙ field-set_field k v out in
            fill_rest-other key cred _ h ∙ rw (free, missing, same, now, nothing) refl
      ]
]

-- Whatever the options and the credential: under the name of a secret the merged options hold the
-- credential's field where it is there, not null and not blank, and else the option; under any other key
-- they hold the option where there is one, and else the credential's field.
pub field-merge_credential_into_options :
    (key : Text) (opts cred : Fields)
    → field key (merge_credential_into_options opts cred) ≡ (
        if is_secret key
        then (if is_usable (field key cred) then field key cred else field key opts)
        else or_other (field key opts) (field key cred))
unfolding merge_credential_into_options is_secret
field-merge_credential_into_options key opts cred =
    let taken = field-take_secrets secret_keys key cred opts in
    elim (Bool-cases (is_secret key)) [
      | inl secret ↦
          fill_rest-secret key cred (take_secrets secret_keys cred opts) secret
          ∙ taken
          ∙ rw secret refl
      | inr other ↦
          fill_rest-other key cred (take_secrets secret_keys cred opts) other
          ∙ ap (λ o. or_other o (field key cred)) taken
          ∙ rw other refl
    ]
