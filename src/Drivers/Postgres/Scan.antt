-- ===== src/Drivers/Postgres/Scan.antt =====
-- A reader of statements: the numbers of the placeholders in a text of SQL, in their order, outside of
-- quoted names.
use lowcode_wrapper.Base.{
  ℕ, zero, suc, ◌+◌, ◌/◌, ◌%◌, Bool, true, not, ◌&&◌, ◌==◌, leb, or_else, List, [], ◌∷◌, ◌++◌, all,
  Text, if◌then◌else◌, ◌≡◌, refl, sym, ap, ◌∙◌, arith,
}
use mathlib.Core.List.{append_assoc, append-nil}
use lowcode_wrapper.Postgrest.Headers.{fill_digits, itoa}
use lowcode_wrapper.Postgrest.Errors.{quote, quote_byte, quote_bytes}
use lowcode_wrapper.Drivers.Sql.{decimal, join}
use lowcode_wrapper.Drivers.Postgres.{placeholder}

abbrev pub is_digit : ℕ → Bool
is_digit c = leb b'0' c && leb c b'9'

-- Where the reader stands: between names, in a quoted name, or in the number of a placeholder.
pub data Mode : Type 0 where
  outside inside : Mode
  number : Text → Mode

abbrev enter : ℕ → Mode
enter c = if c == 34 then inside else if c == b'$' then number [] else outside

unfoldable pub scan : Mode → Text → List Text
scan outside [] = []
scan inside [] = []
scan (number n) [] = n ∷ []
scan outside (c ∷ s) = scan (enter c) s
scan inside (c ∷ s) = scan (if c == 34 then outside else inside) s
scan (number n) (c ∷ s) =
    let more = scan (number (n ++ c ∷ [])) s in
    let done = n ∷ scan (enter c) s in if is_digit c then more else done

-- No digit stands at the head.
abbrev pub ends : Text → Bool
ends [] = true
ends (c ∷ s) = not (is_digit c)

-- What the reader finds in `w`, whatever follows it but a digit.
abbrev pub Reads : Text → List Text → Type 0
Reads w ns = (rest : Text) → ends rest ≡ true → scan outside (w ++ rest) ≡ ns ++ scan outside rest

pub ends-append : (v rest : Text) → ends v ≡ true → ends rest ≡ true → ends (v ++ rest) ≡ true
ends-append [] rest h k = k
ends-append (c ∷ v) rest h k = h

pub Reads-append :
    (w v : Text) (ns ms : List Text)
    → Reads w ns
    → Reads v ms
    → ends v ≡ true
    → Reads (w ++ v) (ns ++ ms)
Reads-append w v ns ms h k e rest r =
    ap (scan outside) (append_assoc w v rest)
    ∙ h (v ++ rest) (ends-append v rest e r)
    ∙ ap (λ q. ns ++ q) (k rest r)
    ∙ sym (append_assoc ns ms (scan outside rest))

-- Neither a quote nor a dollar.
abbrev pub is_plain : ℕ → Bool
is_plain c = not (c == 34) && not (c == b'$')

scan-plain : (w rest : Text) → all is_plain w ≡ true → scan outside (w ++ rest) ≡ scan outside rest
unfolding scan
scan-plain [] rest h = refl
scan-plain (c ∷ w) rest h = ground (arith, scan-plain w rest)

pub Reads-plain : (w : Text) → all is_plain w ≡ true → Reads w []
Reads-plain w h rest r = scan-plain w rest h

-- A plain text before any other.
pub Reads-after :
    (w v : Text) (ns : List Text) → all is_plain w ≡ true → Reads v ns → Reads (w ++ v) ns
Reads-after w v ns p h rest r =
    ap (scan outside) (append_assoc w v rest) ∙ scan-plain w (v ++ rest) p ∙ h rest r

scan-number :
    (ds n rest : Text)
    → all is_digit ds ≡ true
    → ends rest ≡ true
    → scan (number n) (ds ++ rest) ≡ (n ++ ds) ∷ scan outside rest
unfolding scan
scan-number [] n [] h r = ap (λ m. m ∷ []) (sym (append-nil n))
scan-number [] n (c ∷ rest) h r = rw (append-nil n) (ground arith)
scan-number (d ∷ ds) n rest h r =
    let one : is_digit d ≡ true = ground arith in
    let all_of : all is_digit ds ≡ true = ground arith in
    rw one (
      scan-number ds (n ++ d ∷ []) rest all_of r
      ∙ ap (λ m. m ∷ scan outside rest) (append_assoc n (d ∷ []) ds))

fill_digits-digits :
    (i n : ℕ) (b : Text)
    → all is_digit b ≡ true
    → all is_digit (or_else (fill_digits i n b) []) ≡ true
unfolding fill_digits
fill_digits-digits i zero b h = h
fill_digits-digits zero (suc n) b h = refl
fill_digits-digits (suc i) (suc n) b h =
    fill_digits-digits i (suc n / 10) ((b'0' + suc n % 10) ∷ b) (ground arith)

pub decimal-digits : (n : ℕ) → all is_digit (decimal n) ≡ true
unfolding itoa
decimal-digits zero = refl
decimal-digits (suc n) = fill_digits-digits 20 (suc n) [] refl

pub Reads-placeholder : (i : ℕ) → Reads (placeholder i) (decimal i ∷ [])
unfolding scan
Reads-placeholder i rest r = scan-number (decimal i) [] rest (decimal-digits i) r

-- A byte that `%q` writes as it is.
abbrev pub is_bare : ℕ → Bool
is_bare c = leb 32 c && not (c == 34) && not (c == 92) && not (c == 127)

quote_bytes-bare : (s : Text) → all is_bare s ≡ true → quote_bytes s ≡ s
quote_bytes-bare [] h = refl
quote_bytes-bare (c ∷ s) h =
    let one : quote_byte c ≡ c ∷ [] = ground arith in
    let rest : all is_bare s ≡ true = ground arith in rw (one, quote_bytes-bare s rest) refl

scan-inside :
    (s rest : Text) → all is_bare s ≡ true → scan inside (s ++ (34 ∷ rest)) ≡ scan outside rest
unfolding scan
scan-inside [] rest h = refl
scan-inside (c ∷ s) rest h = ground (arith, scan-inside s rest)

pub Reads-quote : (s : Text) → all is_bare s ≡ true → Reads (quote s) []
unfolding quote scan
Reads-quote s h rest r =
    ap (λ q. scan inside ((q ++ 34 ∷ []) ++ rest)) (quote_bytes-bare s h)
    ∙ ap (scan inside) (append_assoc s (34 ∷ []) rest)
    ∙ scan-inside s rest h

abbrev pub concat : List (List Text) → List Text
concat [] = []
concat (x ∷ xs) = x ++ concat xs

-- Each text reads as the list at its place, and starts with no digit.
abbrev pub AllRead : List Text → List (List Text) → Type 0
AllRead [] [] = Unit
AllRead (w ∷ ws) (n ∷ ns) = Reads w n × (ends w ≡ true) × AllRead ws ns
AllRead _ _ = ⊥

pub ends-join :
    (sep : Text) (ws : List Text) (ns : List (List Text))
    → ends sep ≡ true
    → AllRead ws ns
    → ends (join sep ws) ≡ true
ends-join sep [] [] e h = refl
ends-join sep [] (n ∷ ns) e h = elim h [ ]
ends-join sep (w ∷ ws) [] e h = elim h [ ]
ends-join sep (w ∷ []) (n ∷ m ∷ ns) e h = elim h.2 [ ]
ends-join sep (w ∷ v ∷ ws) (n ∷ []) e h = elim h.2 [ ]
ends-join sep (w ∷ []) (n ∷ []) e h = h.1
ends-join sep (w ∷ v ∷ ws) (n ∷ m ∷ ns) e h =
    ends-append w (sep ++ join sep (v ∷ ws)) h.1
      (ends-append sep (join sep (v ∷ ws)) e (ends-join sep (v ∷ ws) (m ∷ ns) e h.2))

pub Reads-join :
    (sep : Text) (ws : List Text) (ns : List (List Text))
    → all is_plain sep ≡ true
    → ends sep ≡ true
    → AllRead ws ns
    → Reads (join sep ws) (concat ns)
Reads-join sep [] [] p e h rest r = refl
Reads-join sep [] (n ∷ ns) p e h rest r = elim h [ ]
Reads-join sep (w ∷ ws) [] p e h rest r = elim h [ ]
Reads-join sep (w ∷ []) (n ∷ m ∷ ns) p e h rest r = elim h.2 [ ]
Reads-join sep (w ∷ v ∷ ws) (n ∷ []) p e h rest r = elim h.2 [ ]
Reads-join sep (w ∷ []) (n ∷ []) p e h rest r =
    h.0 rest r ∙ ap (λ q. q ++ scan outside rest) (sym (append-nil n))
Reads-join sep (w ∷ v ∷ ws) (n ∷ m ∷ ns) p e h rest r =
    Reads-append w (sep ++ join sep (v ∷ ws)) n (concat (m ∷ ns)) h.0
      (Reads-append sep (join sep (v ∷ ws)) [] (concat (m ∷ ns)) (Reads-plain sep p)
        (Reads-join sep (v ∷ ws) (m ∷ ns) p e h.2) (ends-join sep (v ∷ ws) (m ∷ ns) e h.2))
      (ends-append sep (join sep (v ∷ ws)) e (ends-join sep (v ∷ ws) (m ∷ ns) e h.2)) rest r
