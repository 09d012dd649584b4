-- ===== src/Postgrest/Groups/Splitting.antt =====
-- What `splitTopLevel` does to its text.
use mathlib.Core.List.{append-nil}
use lowcode_wrapper.Base.{
  ℕ, ◌+◌, ◌-◌, Bool, ◌||◌, List, [], ◌∷◌, ◌++◌, Text, ◌≡◌, ◌≢◌, refl, arith, ◌==◌, ==_iff,
  push_head, true, false, ◌&&◌, not, if◌then◌else◌, ltb, all, ap, sym, ◌∙◌,
}
use lowcode_wrapper.Postgrest.Groups.{split_from, split_top_level}

-- `strings.Join`
abbrev pub join : ℕ → List Text → Text
join sep [] = []
join sep (s ∷ []) = s
join sep (s ∷ t ∷ ts) = s ++ (sep ∷ join sep (t ∷ ts))

abbrev pub is_paren : ℕ → Bool
is_paren c = c == b'(' || c == b')'

-- Text put before the first piece.
abbrev pub push_text : Text → List Text → List Text
push_text [] ss = ss
push_text (c ∷ cs) ss = push_head c (push_text cs ss)

join-push_head : (sep c : ℕ) (ss : List Text) → join sep (push_head c ss) ≡ c ∷ join sep ss
join-push_head sep c [] = refl
join-push_head sep c (s ∷ []) = refl
join-push_head sep c (s ∷ t ∷ ts) = refl

push_head-ne-nil : (c : ℕ) (ss : List Text) → push_head c ss ≢ []
push_head-ne-nil c [] e = cc
push_head-ne-nil c (s ∷ ss) e = cc

split_from-ne-nil : (sep depth : ℕ) (s : Text) → split_from sep depth s ≢ []
unfolding split_from
split_from-ne-nil sep depth [] e = cc
split_from-ne-nil sep depth (c ∷ cs) e = ground (
  arith,
  push_head-ne-nil c (split_from sep (depth + 1) cs),
  push_head-ne-nil c (split_from sep (depth - 1) cs),
  push_head-ne-nil c (split_from sep depth cs),
)

join-cons_nil :
    (sep depth : ℕ) (s : Text)
    → join sep ([] ∷ split_from sep depth s) ≡ sep ∷ join sep (split_from sep depth s)
join-cons_nil sep depth s = join_nil (split_from sep depth s) (split_from-ne-nil sep depth s)
  where
    join_nil : (ss : List Text) → ss ≢ [] → join sep ([] ∷ ss) ≡ sep ∷ join sep ss
    join_nil [] h = absurd (h refl)
    join_nil (t ∷ ts) h = refl

join-split_from : (sep depth : ℕ) (s : Text) → join sep (split_from sep depth s) ≡ s
unfolding split_from
join-split_from sep depth [] = refl
join-split_from sep depth (c ∷ cs) = ground (
  arith,
  ==_iff c sep,
  join-push_head sep c (split_from sep (depth + 1) cs),
  join-push_head sep c (split_from sep (depth - 1) cs),
  join-push_head sep c (split_from sep depth cs),
  join-cons_nil sep depth cs,
  join-split_from sep (depth + 1) cs,
  join-split_from sep (depth - 1) cs,
  join-split_from sep depth cs,
)

-- Balanced parentheses, and no separator outside of them, from a depth on.
abbrev pub is_piece : ℕ → ℕ → Text → Bool
is_piece sep depth [] = depth == 0
is_piece sep depth (c ∷ cs) =
    let deeper = is_piece sep (depth + 1) cs in
    let out = is_piece sep (depth - 1) cs in
    let on = is_piece sep depth cs in
    if c == b'('
    then deeper
    else if c == b')'
    then ltb 0 depth && out
    else not (c == sep && depth == 0) && on

split_from-piece :
    (sep depth : ℕ) (p rest : Text)
    → is_piece sep depth p ≡ true
    → split_from sep depth (p ++ rest) ≡ push_text p (split_from sep 0 rest)
unfolding split_from
split_from-piece sep depth [] rest h = ap (λ d. split_from sep d rest) ((==_iff depth 0).0 h)
split_from-piece sep depth (c ∷ p) rest h = ground (
  arith,
  split_from-piece sep (depth + 1) p rest,
  split_from-piece sep (depth - 1) p rest,
  split_from-piece sep depth p rest,
)

push_text-cons : (p t : Text) (ts : List Text) → push_text p (t ∷ ts) ≡ (p ++ t) ∷ ts
push_text-cons [] t ts = refl
push_text-cons (c ∷ p) t ts = ap (push_head c) (push_text-cons p t ts)

split_from-separator :
    (sep : ℕ) (s : Text)
    → is_paren sep ≡ false
    → split_from sep 0 (sep ∷ s) ≡ [] ∷ split_from sep 0 s
unfolding split_from
split_from-separator sep s h = ground (arith, ==_iff sep sep)

split_join :
    (sep : ℕ) (p : Text) (ps : List Text)
    → is_paren sep ≡ false
    → all (is_piece sep 0) (p ∷ ps) ≡ true
    → split_from sep 0 (join sep (p ∷ ps)) ≡ p ∷ ps
unfolding split_from
split_join sep p [] h k =
    ap (split_from sep 0) (sym (append-nil p))
    ∙ split_from-piece sep 0 p [] (ground (arith, k))
    ∙ push_text-cons p [] []
    ∙ ap (λ q. q ∷ []) (append-nil p)
split_join sep p (q ∷ qs) h k =
    split_from-piece sep 0 p (sep ∷ join sep (q ∷ qs)) (ground (arith, k))
    ∙ ap (push_text p) (
        split_from-separator sep (join sep (q ∷ qs)) h
        ∙ ap (λ ts. [] ∷ ts) (split_join sep q qs h (ground (arith, k))))
    ∙ push_text-cons p [] (q ∷ qs)
    ∙ ap (λ t. t ∷ q ∷ qs) (append-nil p)

-- Pieces with balanced parentheses and no separator outside of these, joined by a separator that
-- is no parenthesis, are split again into the same pieces; and the pieces of any text, joined by
-- the separator, are that text.
pub split_top_level-join :
    (sep : ℕ) (p : Text) (ps : List Text) (s : Text)
    → is_paren sep ≡ false
    → all (is_piece sep 0) (p ∷ ps) ≡ true
    → (split_top_level sep (join sep (p ∷ ps)) ≡ p ∷ ps) × (join sep (split_top_level sep s) ≡ s)
unfolding split_top_level
split_top_level-join sep p ps s h k = (split_join sep p ps h k, join-split_from sep 0 s)
