-- ===== src/RateLimit/Request.antt =====
-- The arguments of `check_rate_limit`, the same for every backend.
use nexus_gate.Prelude.{ℕ, String, ◌≢◌}
use nexus_gate.Text.{◌<>◌}

pub record LimitRequest : Type 0 where
  pub limits_key : String
  pub window : ℕ
  pub limit : ℕ
  pub penalty_key : String
  pub burst : ℕ
  pub penalty_cooldown : ℕ
  pub penalty_threshold : ℕ

abbrev pub count_key : LimitRequest → String
count_key p = p.limits_key <> ":count"

abbrev pub expiry_key : LimitRequest → String
expiry_key p = p.limits_key <> ":expiry"

abbrev pub violations_key : LimitRequest → String
violations_key p = "rl:violations:" <> p.limits_key

-- The four entries of a request do not meet.
pub record IsProper (p : LimitRequest) : Type 0 where
  pub count_expiry : count_key p ≢ expiry_key p
  pub penalty_count : p.penalty_key ≢ count_key p
  pub penalty_expiry : p.penalty_key ≢ expiry_key p
  pub violations_count : violations_key p ≢ count_key p
  pub violations_expiry : violations_key p ≢ expiry_key p
