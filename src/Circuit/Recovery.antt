-- ===== src/Circuit/Recovery.antt =====
-- How many failures trip a circuit, and how many successes heal it.
use nexus_gate.Prelude.{
  ℕ, ◌+◌, ◌≤◌, ◌<◌, ◌≡◌, refl, sym, subst, String, true, ◌⊎◌, inl, inr, All, Bool-cases, List, [],
  ◌∷◌, arith, ◌==◌, string_eq, if◌then◌else◌, ap, ◌∙◌,
}
use nexus_gate.Sql.{Table}
use nexus_gate.Circuit.{
  closed, opened, half_open, Circuit, CircuitConfig, succeed, fail, Circuits, record_failure,
}
use nexus_gate.Circuit.Invariant.{IsSane, IsSound}
use nexus_gate.Circuit.Tasks.{Reach, AllSound, Reach-AllSound, found-IsSound}
use nexus_gate.Circuit.Trip.{
  Call, ask, good, bad, key_of, IsTrippedAt, act, call, calls, circuit_of, circuit_of-call,
  circuit_of-call_self,
}

-- The circuit of one key alone, under the calls of its key.
unfoldable pub run_one : CircuitConfig → String → List Call → Circuit → Circuit
run_one cfg key [] c = c
run_one cfg key (e ∷ es) c = run_one cfg key es (if key_of e == key then act cfg e c else c)

-- Under any list of calls, questions, successes and failures of all keys, with the circuit breaker
-- enabled and no task writing or restart in between, the store of all circuits behaves, for each key,
-- as a machine of that key alone.
pub circuit_of-calls-run_one :
    (db : Table String Circuit) (cfg : CircuitConfig) (key : String)
    → cfg.enabled ≡ true
    → (es : List Call) (s : Circuits db)
    → circuit_of db cfg key (calls db cfg es s) ≡ run_one cfg key es (circuit_of db cfg key s)
unfolding calls run_one
circuit_of-calls-run_one db cfg key on [] s = refl
circuit_of-calls-run_one db cfg key on (e ∷ es) s =
    circuit_of-calls-run_one db cfg key on es (call db cfg e s)
    ∙ ap (run_one cfg key es) (circuit_of-call db cfg e key s on)

-- The calls of a key among many.
unfoldable pub own : String → List Call → ℕ
own key [] = 0
own key (e ∷ es) = (if key_of e == key then 1 else 0) + own key es

abbrev pub IsGood : Call → Type 0
IsGood (good key) = Unit
IsGood _ = ⊥

abbrev pub IsBad : Call → Type 0
IsBad (bad now key) = Unit
IsBad _ = ⊥

-- On trial with so many successes, below the threshold; or healed, with the threshold reached.
abbrev pub Trial : CircuitConfig → ℕ → Circuit → Type 0
Trial cfg n c =
    ((c.state ≡ half_open) × (c.successes ≡ n) × (n < cfg.success_threshold))
    ⊎ ((c.state ≡ closed) × (c.failures ≡ 0) × (cfg.success_threshold ≤ n))

-- So many failures: closed below the threshold, and open from the threshold on.
abbrev pub Trouble : CircuitConfig → ℕ → Circuit → Type 0
Trouble cfg n c =
    (c.failures ≡ n)
    × (((c.state ≡ closed) × (n < cfg.failure_threshold))
        ⊎ ((c.state ≡ opened) × (cfg.failure_threshold ≤ n)))

good-Trial :
    (cfg : CircuitConfig) (e : Call) (n : ℕ) (c : Circuit)
    → IsGood e
    → Trial cfg n c
    → Trial cfg (1 + n) (act cfg e c)
unfolding succeed
good-Trial cfg (good key) n c g h = ground arith
good-Trial cfg (bad now key) n c g h = absurd g
good-Trial cfg (ask now key) n c g h = absurd g

bad-Trouble :
    (cfg : CircuitConfig) (e : Call) (n : ℕ) (c : Circuit)
    → IsBad e
    → Trouble cfg n c
    → Trouble cfg (1 + n) (act cfg e c)
unfolding fail
bad-Trouble cfg (bad now key) n c g h = ground arith
bad-Trouble cfg (good key) n c g h = absurd g
bad-Trouble cfg (ask now key) n c g h = absurd g

-- A count that each call of a key raises by one.
run_one-count :
    (P : ℕ → Circuit → Type 0) (Allowed : Call → Type 0) (cfg : CircuitConfig) (key : String)
    → ((e : Call) (n : ℕ) (c : Circuit) → Allowed e → P n c → P (1 + n) (act cfg e c))
    → (es : List Call) (n : ℕ) (c : Circuit) → All (λ e. (key_of e == key) ≡ true → Allowed e) es
    → P n c
    → P (own key es + n) (run_one cfg key es c)
unfolding run_one own
run_one-count P Allowed cfg key step [] n c ok h = subst (λ k. P k c) (omega arith) h
run_one-count P Allowed cfg key step (e ∷ es) n c (ok, oks) h =
    elim (Bool-cases (key_of e == key)) [
      | inl mine ↦ rw mine (
          subst (λ k. P k (run_one cfg key es (act cfg e c))) (omega arith)
            (run_one-count P Allowed cfg key step es (1 + n) _ oks (step e n c (ok mine) h)))
      | inr other ↦ rw other (
          subst (λ k. P k (run_one cfg key es c)) (omega arith)
            (run_one-count P Allowed cfg key step es n c oks h))
    ]

module _ (db : Table String Circuit) (cfg : CircuitConfig) (key : String) (on : cfg.enabled ≡ true)
    (es : List Call) (s : Circuits db) where
  -- A circuit on trial whose calls all succeed stays on trial and counts them while they are
  -- fewer than the success threshold, and is closed with no failures from then on, if the
  -- circuit breaker is enabled. Calls of other keys may come in between.
  pub calls-Trial :
      (n : ℕ)
      → All (λ e. (key_of e == key) ≡ true → IsGood e) es
      → Trial cfg n (circuit_of db cfg key s)
      → Trial cfg (own key es + n) (circuit_of db cfg key (calls db cfg es s))
  calls-Trial n ok h =
      subst (Trial cfg (own key es + n)) (sym (circuit_of-calls-run_one db cfg key on es s))
        (run_one-count (Trial cfg) IsGood cfg key (good-Trial cfg) es n _ ok h)

  -- A circuit whose calls all fail is closed while the failures are fewer than the failure
  -- threshold, and open from then on, if the circuit breaker is enabled. Calls of other keys may
  -- come in between.
  pub calls-Trouble :
      (n : ℕ)
      → All (λ e. (key_of e == key) ≡ true → IsBad e) es
      → Trouble cfg n (circuit_of db cfg key s)
      → Trouble cfg (own key es + n) (circuit_of db cfg key (calls db cfg es s))
  calls-Trouble n ok h =
      subst (Trouble cfg (own key es + n)) (sym (circuit_of-calls-run_one db cfg key on es s))
        (run_one-count (Trouble cfg) IsBad cfg key (bad-Trouble cfg) es n _ ok h)

fail_on_trial :
    (cfg : CircuitConfig) (now : ℕ) (c : Circuit)
    → c.state ≡ half_open
    → IsSound cfg c
    → IsTrippedAt now (fail cfg now c).0
unfolding fail
fail_on_trial cfg now c trial h = ground arith

-- In every state that calls, tasks and restarts can reach from a sound one, a single failure of a
-- circuit on trial trips it again at once, if the circuit breaker is enabled and its thresholds
-- are positive.
pub Reach-trial_failure :
    (db : Table String Circuit) (cfg : CircuitConfig) (key : String) (now : ℕ) {s t : Circuits db}
    → cfg.enabled ≡ true
    → IsSane cfg
    → AllSound db cfg s
    → Reach db cfg s t
    → (circuit_of db cfg key t).state ≡ half_open
    → IsTrippedAt now (circuit_of db cfg key (record_failure db cfg now key t))
unfolding call
Reach-trial_failure db cfg key now {t} on sane h r trial =
    let sound = found-IsSound db cfg sane key t (Reach-AllSound db cfg sane r h) in
    subst (IsTrippedAt now) (sym (circuit_of-call_self db cfg (bad now key) t on))
      (fail_on_trial cfg now _ trial sound)
