-- ===== src/Engine/Breaker.antt =====
-- observability/middleware.go: the circuit breaker. Times and durations count nanoseconds.
pub mod Streaks
use lowcode_wrapper.Base.{
  ℕ, suc, ◌+◌, Bool, true, false, Option, none, some, List, [], ◌∷◌, if◌then◌else◌, ltb, leb, ℤ,
  pos, negsuc, int_lt,
}
use lowcode_wrapper.Models.{Time}

pub record Breaker : Type 0 where
  pub failures : ℕ
  pub is_open : Bool
  pub until : Time
  pub max_fails : ℕ
  pub cooldown : ℕ

-- A value that is not above zero is replaced by the default.
abbrev pub positive_or : ℕ → ℤ → ℕ
positive_or def (pos n) = if ltb 0 n then n else def
positive_or def (negsuc n) = def

unfoldable pub new_breaker : ℤ → ℤ → Breaker
new_breaker max_fails cooldown = record {
  failures = 0;
  is_open = false;
  until = 0;
  max_fails = positive_or 5 max_fails;
  cooldown = positive_or 30000000000 cooldown;
}

-- `Allow` at a time; false is `errBreakerOpen`.
unfoldable pub allow : Time → Breaker → Bool × Breaker
allow now b =
    if b.is_open
    then (if ltb b.until now
        then (true, record b { is_open = false; failures = 0 })
        else (false, b))
    else (true, b)

unfoldable pub success : Breaker → Breaker
success b = record b { failures = 0; is_open = false }

unfoldable pub fail : Time → Breaker → Breaker
fail now b =
    let failures = b.failures + 1 in
    if leb b.max_fails failures
    then record b { failures = failures; is_open = true; until = now + b.cooldown }
    else record b { failures = failures }
