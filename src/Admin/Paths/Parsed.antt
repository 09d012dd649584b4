-- ===== src/Admin/Paths/Parsed.antt =====
-- The ids that are read from the paths.
use mathlib.Core.List.{reverse-reverse, reverse-append, append_assoc}
use lowcode_wrapper.Base.{
  ℕ, true, false, Option, some, [], ◌∷◌, ◌++◌, reverse, Text, text, split, trim_prefix, is_empty,
  ◌==◌, ◌≡◌, refl, sym, ap, ◌∙◌, arith,
}
use lowcode_wrapper.Models.{Uuid}
use lowcode_wrapper.Rest.Route.{trim_slashes, trim_slashes_left}
use lowcode_wrapper.Rest.Route.Paths.{is_plain, split-plain, trim_slashes-plain}
use lowcode_wrapper.Admin.Paths.{parse_admin_id_tail, id_of_parts}

split-part : (w v : Text) → is_plain w ≡ true → split b'/' (w ++ (b'/' ∷ v)) ≡ w ∷ split b'/' v
unfolding split
split-part [] v h = refl
split-part (c ∷ w) v h = ground (arith, split-part w v)

trim_slashes_left-other :
    (c : ℕ) (w : Text) → (c == b'/') ≡ false → trim_slashes_left (c ∷ w) ≡ c ∷ w
unfolding trim_slashes_left
trim_slashes_left-other c w h = rw h refl

-- A text that starts and ends without a slash.
trim_slashes-ends :
    (c d : ℕ) (w : Text)
    → (c == b'/') ≡ false
    → (d == b'/') ≡ false
    → trim_slashes (c ∷ (w ++ d ∷ [])) ≡ c ∷ (w ++ d ∷ [])
unfolding trim_slashes
trim_slashes-ends c d w h k =
    let whole = c ∷ (w ++ d ∷ []) in
    let backwards : reverse whole ≡ d ∷ reverse (c ∷ w) = reverse-append (c ∷ w) (d ∷ []) in
    ap (λ t. reverse (trim_slashes_left (reverse t))) (trim_slashes_left-other c (w ++ d ∷ []) h)
    ∙ ap (λ t. reverse (trim_slashes_left t)) backwards
    ∙ ap reverse (trim_slashes_left-other d (reverse (c ∷ w)) k ∙ sym backwards)
    ∙ reverse-reverse whole

module _ (parse_uuid : Text → Option Uuid) (w : Text) (id : Uuid) (plain : is_plain w ≡ true)
    (given : is_empty w ≡ false) (read : parse_uuid w ≡ some id) where
  -- The path of the id alone.
  pub parse_admin_id_tail-id :
      (path prefix : Text)
      → trim_prefix path prefix ≡ w
      → parse_admin_id_tail parse_uuid path prefix ≡ some (id, [])
  unfolding parse_admin_id_tail
  parse_admin_id_tail-id path prefix stripped =
      rw (stripped, trim_slashes-plain w plain, given, split-plain w plain, id_of_parts, read) refl

module _ (parse_uuid : Text → Option Uuid) (c : ℕ) (w : Text) (id : Uuid)
    (plain : is_plain (c ∷ w) ≡ true) (read : parse_uuid (c ∷ w) ≡ some id) where
  -- The path of the columns of the id.
  pub parse_admin_id_tail-columns :
      (path prefix : Text)
      → trim_prefix path prefix ≡ c ∷ (w ++ text "/columns")
      → parse_admin_id_tail parse_uuid path prefix ≡ some (id, text "columns" ∷ [])
  unfolding parse_admin_id_tail split
  parse_admin_id_tail-columns path prefix stripped =
      let trimmed : trim_slashes (c ∷ (w ++ text "/columns")) ≡ c ∷ (w ++ text "/columns") =
        ap (λ t. trim_slashes (c ∷ t)) (sym (append_assoc w (text "/column") (text "s")))
        ∙ trim_slashes-ends c b's' (w ++ text "/column") (ground arith) refl
        ∙ ap (λ t. c ∷ t) (append_assoc w (text "/column") (text "s")) in
      rw (stripped, trimmed, split-part (c ∷ w) (text "columns") plain, id_of_parts, read) refl
