-- ===== src/Engine/Breaker/Streaks.antt =====
-- Failures in a row, and what the breaker lets through.
use lowcode_wrapper.Base.{
  ℕ, ◌+◌, true, not, ◌&&◌, List, [], ◌∷◌, if◌then◌else◌, ltb, leb, length, ℤ, pos, negsuc, ◌≡◌,
  refl, ◌∙◌, arith,
}
use lowcode_wrapper.Models.{Time}
use lowcode_wrapper.Engine.Breaker.{Breaker, positive_or, new_breaker, allow, success, fail}

pub data Call : Type 0 where
  ask : Time → Call
  succeed : Call
  failed : Time → Call

unfoldable pub take_call : Call → Breaker → Breaker
take_call (ask now) b = (allow now b).1
take_call succeed b = success b
take_call (failed now) b = fail now b

unfoldable pub take_calls : List Call → Breaker → Breaker
take_calls [] b = b
take_calls (c ∷ cs) b = take_calls cs (take_call c b)

abbrev pub fail_all : List Time → Breaker → Breaker
fail_all [] b = b
fail_all (t ∷ ts) b = fail_all ts (fail t b)

-- Open means as many failures as are allowed, and some are.
abbrev pub IsCounted : Breaker → Type 0
IsCounted b = (b.is_open ≡ leb b.max_fails b.failures) × (ltb 0 b.max_fails ≡ true)

take_call-IsCounted : (c : Call) (b : Breaker) → IsCounted b → IsCounted (take_call c b)
unfolding take_call allow success fail
take_call-IsCounted (ask now) b v = ground arith
take_call-IsCounted succeed b v = ground arith
take_call-IsCounted (failed now) b v = ground arith

take_calls-IsCounted : (cs : List Call) (b : Breaker) → IsCounted b → IsCounted (take_calls cs b)
unfolding take_calls
take_calls-IsCounted [] b v = v
take_calls-IsCounted (c ∷ cs) b v =
    take_calls-IsCounted cs (take_call c b) (take_call-IsCounted c b v)

new_breaker-IsCounted : (m c : ℤ) → IsCounted (new_breaker m c)
unfolding new_breaker
new_breaker-IsCounted (pos n) c = ground arith
new_breaker-IsCounted (negsuc n) c = ground arith

-- The limit and the cooldown are those of the start.
abbrev SameLimits : Breaker → Breaker → Type 0
SameLimits a b = (a.max_fails ≡ b.max_fails) × (a.cooldown ≡ b.cooldown)

take_call-SameLimits : (c : Call) (b : Breaker) → SameLimits (take_call c b) b
unfolding take_call allow success fail
take_call-SameLimits (ask now) b = ground arith
take_call-SameLimits succeed b = ground arith
take_call-SameLimits (failed now) b = ground arith

take_calls-SameLimits : (cs : List Call) (b : Breaker) → SameLimits (take_calls cs b) b
unfolding take_calls
take_calls-SameLimits [] b = (refl, refl)
take_calls-SameLimits (c ∷ cs) b =
    let (m, w) = take_calls-SameLimits cs (take_call c b) in
    let (m', w') = take_call-SameLimits c b in (m ∙ m', w ∙ w')

fail_all-SameLimits : (ts : List Time) (b : Breaker) → SameLimits (fail_all ts b) b
unfolding fail
fail_all-SameLimits [] b = (refl, refl)
fail_all-SameLimits (t ∷ ts) b = ground (arith, fail_all-SameLimits ts (fail t b))

fail_all-failures :
    (ts : List Time) (b : Breaker) → (fail_all ts b).failures ≡ b.failures + length ts
unfolding fail
fail_all-failures [] b = ground arith
fail_all-failures (t ∷ ts) b = ground (arith, fail_all-failures ts (fail t b))

fail_all-count :
    (ts : List Time) (b : Breaker)
    → IsCounted b
    → ((fail_all ts b).is_open ≡ leb b.max_fails (b.failures + length ts))
unfolding fail
fail_all-count [] b v = ground arith
fail_all-count (t ∷ ts) b v = ground (arith, fail_all-count ts (fail t b))

success-IsCounted : (b : Breaker) → IsCounted b → IsCounted (success b)
unfolding success
success-IsCounted b v = ground arith

abbrev pub streak : ℤ → ℤ → List Call → List Time → Time → Breaker
streak m c cs ts t = fail t (fail_all ts (success (take_calls cs (new_breaker m c))))

-- A breaker without failures, after failures in a row of which the last is at time `t`.
module _ (b : Breaker) (limit wait : ℕ) (ts : List Time) (t now : Time) (none_yet : b.failures ≡ 0)
    (limited : b.max_fails ≡ limit) (cooled : b.cooldown ≡ wait) (v : IsCounted b) where
  abbrev after : Breaker
  after = fail t (fail_all ts b)

  allow-fail_all :
      (after.is_open ≡ leb limit (length ts + 1))
      × ((allow now after).0 ≡ (if leb limit (length ts + 1) then ltb (t + wait) now else true))
      × ((allow now after).1.is_open ≡ not (allow now after).0)
      × ((allow now after).1.failures
          ≡ (if leb limit (length ts + 1) && ltb (t + wait) now then 0 else length ts + 1))
  unfolding allow fail
  allow-fail_all =
      let same = fail_all-SameLimits ts b in
      let counted = fail_all-count ts b v in
      let failures = fail_all-failures ts b in
      ground (arith, same, counted, failures, none_yet, limited, cooled)

-- The breaker for a configured limit and cooldown, whatever was asked and reported before a success,
-- and after failures in a row since then, the last of them at time `t`. It is open exactly where
-- they are at least as many as the limit; an open one lets a call through only after the cooldown from `t`,
-- is then closed and counts from zero again; one that is not open lets every call through. A limit
-- that is not above zero is 5, and a cooldown that is not above zero is 30 seconds.
pub allow-streak :
    (m c : ℤ) (cs : List Call) (ts : List Time) (t now : Time)
    → ((streak m c cs ts t).is_open ≡ leb (positive_or 5 m) (length ts + 1))
      × ((allow now (streak m c cs ts t)).0 ≡ (
          if leb (positive_or 5 m) (length ts + 1)
          then ltb (t + positive_or 30000000000 c) now
          else true))
      × ((allow now (streak m c cs ts t)).1.is_open ≡ not (allow now (streak m c cs ts t)).0)
      × ((allow now (streak m c cs ts t)).1.failures ≡ (
          if leb (positive_or 5 m) (length ts + 1) && ltb (t + positive_or 30000000000 c) now
          then 0
          else length ts + 1))
unfolding success new_breaker
allow-streak m c cs ts t now =
    let b = take_calls cs (new_breaker m c) in
    let v = take_calls-IsCounted cs (new_breaker m c) (new_breaker-IsCounted m c) in
    let (limited, cooled) = take_calls-SameLimits cs (new_breaker m c) in
    allow-fail_all (success b) (positive_or 5 m) (positive_or 30000000000 c) ts t now refl limited
      cooled (success-IsCounted b v)
