-- ===== src/Breaker.antt =====
-- `_CircuitBreaker` (backend/app/services/mcp_proxy_service.py). Its two dictionaries are functions
-- of the server: the count of failures, 0 where there is none, and the moment of opening.
pub mod Laws
use ai_iam_platform.Prelude.{
  ℕ, suc, ◌+◌, ◌-◌, ◌*◌, Bool, true, false, Option, none, some, ◌==◌, ℕ_eq, if◌then◌else◌, leb,
}
use ai_iam_platform.Model.{Ident, micros}

-- `settings.MCP_CIRCUIT_BREAKER_FAILURE_THRESHOLD`, and `…_COOLDOWN_SECONDS` in microseconds.
abbrev pub failure_threshold : ℕ
failure_threshold = 5

abbrev pub cooldown : ℕ
cooldown = 30 * micros

pub record Breaker : Type 0 where
  pub failures : Ident → ℕ
  pub opened_at : Ident → Option ℕ

-- `d[server_id] = value`
unfoldable pub assign : {A : Type 0} → (Ident → A) → Ident → A → Ident → A
assign d s v j = if s == j then v else d j

unfoldable pub reset : Breaker → Ident → Breaker
unfolding assign
reset b s = record { failures = assign b.failures s 0; opened_at = assign b.opened_at s none }

-- `time.monotonic() - opened_at >= cooldown`, for a clock that does not run backwards.
unfoldable pub check_cooldown : Breaker → Ident → ℕ → Option ℕ → Bool × Breaker
unfolding reset
check_cooldown b s now none = (false, b)
check_cooldown b s now (some opened) =
    if leb cooldown (now - opened) then (false, reset b s) else (true, b)

unfoldable pub is_open : Breaker → Ident → ℕ → Bool × Breaker
unfolding check_cooldown
is_open b s now = check_cooldown b s now (b.opened_at s)

unfoldable pub record_success : Breaker → Ident → Breaker
unfolding reset
record_success b s = reset b s

unfoldable pub record_failure : Breaker → Ident → ℕ → Breaker
unfolding assign
record_failure b s now =
    let count = b.failures s + 1 in
    record {
      failures = assign b.failures s count;
      opened_at =
          if leb failure_threshold count then assign b.opened_at s (some now) else b.opened_at;
    }
