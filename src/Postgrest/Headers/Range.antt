-- ===== src/Postgrest/Headers/Range.antt =====
-- What a reader of the Content-Range header finds in it.
use lowcode_wrapper.Base.{
  ℕ, zero, suc, ◌+◌, ◌-◌, ◌*◌, ◌/◌, ◌%◌, ◌^◌, ◌<◌, Bool, true, false, ◌&&◌, some, is_some, ltb, [],
  ◌∷◌, ◌++◌, Text, text, ◌≡◌, refl, arith, leb, ◌==◌, pos, Option-cases, inl, inr, ◌∙◌,
}
use lowcode_wrapper.Postgrest.Query.{digits_value, atoi_from_zero}
use lowcode_wrapper.Postgrest.Headers.{fill_digits, itoa, format_content_range}

-- The digit and the quotient by ten give the number back.
digit-value : (n : ℕ) (b : Text) → digits_value (n / 10) ((b'0' + n % 10) ∷ b) ≡ digits_value n b
unfolding digits_value
digit-value n b =
    let low : leb b'0' (b'0' + n % 10) ≡ true = ground arith in
    let high : leb (b'0' + n % 10) b'9' ≡ true = ground arith in
    let whole : n / 10 * 10 + (b'0' + n % 10 - b'0') ≡ n = omega arith in
    ground (arith, low, high, whole)

fill_digits-value :
    (i n : ℕ) (b r : Text) → fill_digits i n b ≡ some r → digits_value 0 r ≡ digits_value n b
unfolding fill_digits digits_value
fill_digits-value i zero b r e = ground arith
fill_digits-value zero (suc n) b r e = cc
fill_digits-value (suc i) (suc n) b r e =
    fill_digits-value i (suc n / 10) ((b'0' + suc n % 10) ∷ b) r e ∙ digit-value (suc n) b

fill_digits-room : (i n : ℕ) (b : Text) → n < 10 ^ i → is_some (fill_digits i n b) ≡ true
unfolding fill_digits
fill_digits-room i zero b h = refl
fill_digits-room zero (suc n) b h = ground arith
fill_digits-room (suc i) (suc n) b h =
    fill_digits-room i (suc n / 10) ((b'0' + suc n % 10) ∷ b) (omega arith)

abbrev starts_with_digit : Text → Bool
starts_with_digit [] = false
starts_with_digit (c ∷ cs) = leb b'0' c && leb c b'9'

fill_digits-head :
    (i n : ℕ) (b r : Text)
    → fill_digits i n b ≡ some r
    → starts_with_digit b ≡ true
    → starts_with_digit r ≡ true
unfolding fill_digits
fill_digits-head i zero b r e h = ground arith
fill_digits-head zero (suc n) b r e h = cc
fill_digits-head (suc i) (suc n) b r e h =
    fill_digits-head i (suc n / 10) ((b'0' + suc n % 10) ∷ b) r e (ground arith)

-- A text that starts with a digit carries no sign.
atoi_from_zero-digits :
    (s : Text) (n : ℕ)
    → starts_with_digit s ≡ true
    → digits_value 0 s ≡ some n
    → n < 2 ^ 63
    → atoi_from_zero s ≡ some n
unfolding atoi_from_zero
atoi_from_zero-digits [] n h e l = cc
atoi_from_zero-digits (c ∷ cs) n h e l =
    let plus : c == b'+' ≡ false = ground arith in
    let minus : c == b'-' ≡ false = ground arith in
    let small : ltb n (2 ^ 63) ≡ true = ground arith in
    rw (plus, minus, atoi_from_zero, e, minus, small) refl

-- The first step writes a digit, and a digit stays first.
itoa-head : (n : ℕ) (s : Text) → fill_digits 20 (suc n) [] ≡ some s → starts_with_digit s ≡ true
unfolding fill_digits
itoa-head n s e = fill_digits-head 19 (suc n / 10) ((b'0' + suc n % 10) ∷ []) s e (ground arith)

-- A number below 2^63 is printed within the buffer, and `strconv.Atoi` reads it back.
pub atoi_from_zero-itoa :
    (n : ℕ) → n < 2 ^ 63 → (s : Text) × (itoa (pos n) ≡ some s) × (atoi_from_zero s ≡ some n)
unfolding itoa atoi_from_zero digits_value
atoi_from_zero-itoa zero h = (text "0", refl, refl)
atoi_from_zero-itoa (suc n) h = elim (Option-cases (fill_digits 20 (suc n) [])) [
  | inl full ↦ absurd (ground (arith, fill_digits-room 20 (suc n) []))
  | inr (s, printed) ↦ (
    s,
    printed,
    atoi_from_zero-digits s (suc n) (itoa-head n s printed)
        (fill_digits-value 20 (suc n) [] s printed) h,
  )
]

-- Numbers below 2^63 always make a Content-Range header; it is three texts around a dash and a
-- slash, and they read back as the numbers.
pub format_content_range-read :
    (from to total : ℕ)
    → from < 2 ^ 63
    → to < 2 ^ 63
    → total < 2 ^ 63
    → (a b c : Text) × (format_content_range (pos from) (pos to) (pos total)
        ≡ some (a ++ text "-" ++ b ++ text "/" ++ c))
      × (atoi_from_zero a ≡ some from)
      × (atoi_from_zero b ≡ some to)
      × (atoi_from_zero c ≡ some total)
unfolding format_content_range
format_content_range-read from to total p q r =
    let (a, print_a, read_a) = atoi_from_zero-itoa from p in
    let (b, print_b, read_b) = atoi_from_zero-itoa to q in
    let (c, print_c, read_c) = atoi_from_zero-itoa total r in
    (a, b, c, rw (print_a, format_content_range, print_b, print_c) refl, read_a, read_b, read_c)
