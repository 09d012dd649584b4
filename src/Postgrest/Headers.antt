-- ===== src/Postgrest/Headers.antt =====
-- accept.go and range.go: the mode that the headers ask for, and the Content-Range header.
pub mod Range
use lowcode_wrapper.Base.{
  ℕ, zero, suc, ◌+◌, ◌/◌, ◌%◌, ◌^◌, Bool, true, false, Option, none, some, List, [], ◌∷◌, ◌++◌,
  Text, text, to_lower, contains, if◌then◌else◌, ◌==◌, ◌||◌, ℤ, pos, negsuc,
}

abbrev pub media_object_json : Text
media_object_json = text "application/vnd.pgrst.object+json"

abbrev pub media_array_json : Text
media_array_json = text "application/json"

pub data ObjectMode : Type 0 where
  object_mode_array object_mode_single object_mode_maybe_single : ObjectMode

-- The arguments are the headers `Accept` and `Prefer`.
unfoldable pub parse_object_mode : Text → Text → ObjectMode
parse_object_mode accept_header prefer_header =
    let accept = to_lower accept_header in
    if contains accept media_object_json
    then (if contains accept (text "missing=return_null")
          || contains (to_lower prefer_header) (text "missing=return_null")
        then object_mode_maybe_single
        else object_mode_single)
    else object_mode_array

-- The loop of `itoa`, which fills the buffer from its end; `i` bytes of it are free, and to write
-- with none free panics.
unfoldable pub fill_digits : ℕ → ℕ → Text → Option Text
fill_digits i zero b = some b
fill_digits zero (suc n) b = none
fill_digits (suc i) (suc n) b = fill_digits i (suc n / 10) ((b'0' + suc n % 10) ∷ b)

-- `-n` for an `n` below 0, as far as the loop sees: -2^63 stays below 0, and the loop ends at once.
abbrev magnitude : ℕ → ℕ
magnitude n = if suc n == 2 ^ 63 then 0 else suc n

-- The sign takes a byte of the buffer's 20 as well; a sign without room panics.
unfoldable pub itoa : ℤ → Option Text
unfolding fill_digits
itoa (pos zero) = some (text "0")
itoa (pos (suc n)) = fill_digits 20 (suc n) []
itoa (negsuc n) = elim (fill_digits 19 (magnitude n) []) [ none ↦ none | some b ↦ some (b'-' ∷ b) ]

unfoldable pub format_content_range : ℤ → ℤ → ℤ → Option Text
unfolding itoa
format_content_range from to total = elim (itoa from) [
  | none ↦ none
  | some a ↦ elim (itoa to) [
    | none ↦ none
    | some b ↦ elim (itoa total) [
      | none ↦ none
      | some c ↦ some (a ++ text "-" ++ b ++ text "/" ++ c)
    ]
  ]
]
