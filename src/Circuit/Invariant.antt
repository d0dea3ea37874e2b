-- ===== src/Circuit/Invariant.antt =====
-- What is true of every circuit of src/security/circuit_breaker.py between two calls.
use nexus_gate.Prelude.{ℕ, ◌≤◌, ◌<◌, ◌≡◌, ◌≢◌, Option, none, some, arith}
use nexus_gate.Circuit.{
  closed, opened, half_open, Circuit, CircuitConfig, fresh, get_or_fresh, check, succeed, fail,
}

-- Both thresholds are positive, as config/schema.py has them by default.
pub record IsSane (cfg : CircuitConfig) : Type 0 where
  pub trips : 0 < cfg.failure_threshold
  pub heals : 0 < cfg.success_threshold

pub record IsSound (cfg : CircuitConfig) (c : Circuit) : Type 0 where
  pub below : c.state ≡ closed → c.failures < cfg.failure_threshold
  pub reached : c.state ≢ closed → cfg.failure_threshold ≤ c.failures
  pub stamped : c.state ≡ opened → c.tripped_at ≢ none
  pub on_trial : c.state ≡ half_open → c.successes < cfg.success_threshold

module _ (cfg : CircuitConfig) (sane : IsSane cfg) where
  pub fresh-IsSound : IsSound cfg fresh
  fresh-IsSound = record {
    below = λ _. sane.trips;
    reached = λ h. absurd (ground arith);
    stamped = λ h. cc;
    on_trial = λ h. cc;
  }

  pub get_or_fresh-IsSound :
      (o : Option Circuit)
      → ((c : Circuit) → o ≡ some c → IsSound cfg c)
      → IsSound cfg (get_or_fresh o)
  get_or_fresh-IsSound none h = fresh-IsSound
  get_or_fresh-IsSound (some c) h = ground (arith, h c)

  pub check-IsSound : (now : ℕ) (c : Circuit) → IsSound cfg c → IsSound cfg (check cfg now c).0
  unfolding check
  check-IsSound now c h = ground arith

  pub succeed-IsSound : (c : Circuit) → IsSound cfg c → IsSound cfg (succeed cfg c).0
  unfolding succeed
  succeed-IsSound c h = ground arith

  pub fail-IsSound : (now : ℕ) (c : Circuit) → IsSound cfg c → IsSound cfg (fail cfg now c).0
  unfolding fail
  fail-IsSound now c h = ground arith
