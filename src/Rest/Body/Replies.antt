-- ===== src/Rest/Body/Replies.antt =====
-- The status and the headers of the answer to a select.
use lowcode_wrapper.Base.{
  ℕ, ◌+◌, ◌-◌, ◌^◌, ◌<◌, Bool, true, ◌||◌, none, some, List, [], ◌∷◌, ◌++◌, Text, text,
  if◌then◌else◌, leb, ltb, ◌==◌, length, ℤ, pos, negsuc, ◌≡◌, refl, ◌∙◌, arith, Option-cases,
  Bool-cases, inl, inr,
}
use lowcode_wrapper.Models.{Fields}
use lowcode_wrapper.Postgrest.Query.{Prefer}
use lowcode_wrapper.Postgrest.Errors.{single_not_found, multiple_rows}
use lowcode_wrapper.Postgrest.Headers.{
  ObjectMode, object_mode_array, object_mode_single, object_mode_maybe_single, parse_object_mode,
  format_content_range,
}
use lowcode_wrapper.Postgrest.Headers.Range.{format_content_range-read}
use lowcode_wrapper.Rest.Body.{
  Writer, Written, written, refused, panicked, new_writer, mode_error, range_end, total_or,
  write_rows, write_select_result,
}

-- The status of the answer: what was sent, or the status of the error; 0 for a panic.
abbrev pub status_of : Written → ℕ
status_of (written w) = elim w.sent [ none ↦ 0 | some (status, headers) ↦ status ]
status_of (refused e) = e.status
status_of panicked = 0

-- How many rows a mode takes.
abbrev pub fits : ObjectMode → ℕ → Bool
fits object_mode_array n = true
fits object_mode_single n = n == 1
fits object_mode_maybe_single n = leb n 1

mode_error-status :
    (mode : ObjectMode) (n : ℕ)
    → (elim (mode_error mode n) as (λ _. ℕ) [ none ↦ 200 | some e ↦ e.status ])
      ≡ (if fits mode n then 200 else 404)
unfolding mode_error single_not_found multiple_rows
mode_error-status object_mode_array n = refl
mode_error-status object_mode_single n = ground arith
mode_error-status object_mode_maybe_single n = ground arith

abbrev sent_status : Writer → ℕ
sent_status w = elim w.sent [ none ↦ 0 | some (status, headers) ↦ status ]

write_rows-status :
    (mode : ObjectMode) (rows : List Fields) (w : Writer)
    → w.sent ≡ none
    → sent_status (write_rows mode rows w) ≡ 200
unfolding write_rows
write_rows-status object_mode_array rows w h = rw h refl
write_rows-status object_mode_single [] w h = rw h refl
write_rows-status object_mode_single (r ∷ rows) w h = rw h refl
write_rows-status object_mode_maybe_single [] w h = rw h refl
write_rows-status object_mode_maybe_single (r ∷ rows) w h = rw h refl

abbrev pub is_int : ℤ → Bool
is_int (pos n) = ltb n (2 ^ 63)
is_int (negsuc n) = ltb n (2 ^ 63)

range_end-int : (offset n : ℕ) → offset < 2 ^ 63 → range_end offset n < 2 ^ 63
unfolding range_end
range_end-int offset n h = elim (Bool-cases (n == 0 || leb (2 ^ 63) (offset + n - 1))) [
  | inl wraps ↦ rw wraps h
  | inr fine ↦ rw fine (ground (arith, fine))
]

total_or-int :
    (total : ℤ) (n : ℕ)
    → is_int total ≡ true
    → n < 2 ^ 63
    → (t : ℕ) × (total_or total n ≡ pos t) × (t < 2 ^ 63)
total_or-int (pos t) n h k = (t, refl, ground arith)
total_or-int (negsuc t) n h k = (n, refl, k)

-- The range header is always made.
range_made :
    (offset n : ℕ) (total : ℤ)
    → offset < 2 ^ 63
    → n < 2 ^ 63
    → is_int total ≡ true
    → (range : Text) × (format_content_range
          (pos offset)
          (pos (range_end offset n))
          (total_or total n)
        ≡ some range)
range_made offset n total o k h =
    let (t, is_pos, small) = total_or-int total n h k in
    let (a, b, c, made, _, _, _) =
      format_content_range-read offset (range_end offset n) t o (range_end-int offset n o) small in
    (a ++ text "-" ++ b ++ text "/" ++ c, rw is_pos made)

-- The answer to a select is sent with status 200 exactly when the number of rows fits what the
-- headers ask for: one row for a single object, at most one for a single object that may be missing,
-- any number for an array; otherwise it is an error with status 404. This holds with and without an
-- exact count, and making the range header never panics while the offset, the number of rows and the
-- total are 64-bit numbers.
pub write_select_result-status :
    (accept prefer_header : Text) (rows : List Fields) (offset : ℕ) (prefer : Prefer) (total : ℤ)
    → offset < 2 ^ 63
    → length rows < 2 ^ 63
    → is_int total ≡ true
    → status_of (write_select_result accept prefer_header rows offset prefer total new_writer)
      ≡ (if fits (parse_object_mode accept prefer_header) (length rows) then 200 else 404)
unfolding write_select_result
write_select_result-status accept prefer_header rows offset prefer total o k h =
    let mode = parse_object_mode accept prefer_header in
    let n = length rows in
    let (range, made) = range_made offset n total o k h in
    let status = mode_error-status mode n in
    elim (Option-cases (mode_error mode n)) [
      | inr (e, wrong) ↦ rw (wrong, write_select_result) (rw wrong at status)
      | inl right ↦ elim (Bool-cases prefer.count_exact) [
        | inl counts ↦
            rw (right, write_select_result, counts, made)
              (write_rows-status mode rows _ refl ∙ (rw right at status))
        | inr plain ↦
            rw (right, write_select_result, plain)
              (write_rows-status mode rows _ refl ∙ (rw right at status))
      ]
    ]
