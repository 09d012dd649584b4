-- ===== src/Base/Trim.antt =====
-- `strings.TrimSpace` twice.
use mathlib.Core.Path.{◌≡◌, refl, ap, ◌∙◌}
use mathlib.Core.List.{[], ◌∷◌}
use native.Mathlib.Omega.{arith}
use mathlib.Core.Bool.{true, not}
use lowcode_wrapper.Base.Lists.{all}
use lowcode_wrapper.Base.Bytes.{Text, is_space, trim_left, trim_right, trim_space}

trim_right-trim_right : (s : Text) → trim_right (trim_right s) ≡ trim_right s
unfolding trim_right
trim_right-trim_right [] = refl
trim_right-trim_right (c ∷ s) = ground (arith, trim_right-trim_right s)

trim_left-trim_right_left :
    (s : Text) → trim_left (trim_right (trim_left s)) ≡ trim_right (trim_left s)
unfolding trim_left trim_right
trim_left-trim_right_left [] = refl
trim_left-trim_right_left (c ∷ s) = ground (arith, trim_left-trim_right_left s)

pub trim_space-trim_space : (s : Text) → trim_space (trim_space s) ≡ trim_space s
unfolding trim_space
trim_space-trim_space s =
    ap trim_right (trim_left-trim_right_left s) ∙ trim_right-trim_right (trim_left s)

trim_left-plain : (s : Text) → all (λ c. not (is_space c)) s ≡ true → trim_left s ≡ s
unfolding trim_left
trim_left-plain [] h = refl
trim_left-plain (c ∷ s) h = ground arith

trim_right-plain : (s : Text) → all (λ c. not (is_space c)) s ≡ true → trim_right s ≡ s
unfolding trim_right
trim_right-plain [] h = refl
trim_right-plain (c ∷ s) h = ground (arith, trim_right-plain s)

-- A text without spaces.
pub trim_space-plain : (s : Text) → all (λ c. not (is_space c)) s ≡ true → trim_space s ≡ s
unfolding trim_space
trim_space-plain s h = ap trim_right (trim_left-plain s h) ∙ trim_right-plain s h
