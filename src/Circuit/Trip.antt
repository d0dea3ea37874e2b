-- ===== src/Circuit/Trip.antt =====
-- How calls move one circuit, whatever happens to the others: src/security/circuit_breaker.py.
use nexus_gate.Prelude.{
  ℕ, ◌+◌, ◌≤◌, ◌<◌, ◌≡◌, String, Bool, true, false, some, List, [], ◌∷◌, arith, All, ap, ◌∙◌,
  eq_refl, subst, sym, if-both, lookup, insert, lookup-insert, string_eq, eq_iff, ◌==◌,
  if◌then◌else◌,
}
use nexus_gate.Sql.{Table}
use nexus_gate.Circuit.{
  opened, half_open, Circuit, CircuitConfig, get_or_fresh, check, succeed, fail, Circuits,
  get_circuit_cache, write_back, is_open, record_success, record_failure,
}

-- A call that a request makes on the circuit of a key.
pub data Call : Type 0 where
  ask : (now : ℕ) → String → Call
  good : String → Call
  bad : (now : ℕ) → String → Call

abbrev pub key_of : Call → String
key_of (ask now key) = key
key_of (good key) = key
key_of (bad now key) = key

-- What the call does to its circuit.
abbrev pub act : CircuitConfig → Call → Circuit → Circuit
act cfg (ask now key) c = (check cfg now c).0
act cfg (good key) c = (succeed cfg c).0
act cfg (bad now key) c = (fail cfg now c).0

module _ (db : Table String Circuit) (cfg : CircuitConfig) where
  unfoldable pub call : Call → Circuits db → Circuits db
  call (ask now key) s = (is_open db cfg now key s).0
  call (good key) s = record_success db cfg key s
  call (bad now key) s = record_failure db cfg now key s

  unfoldable pub calls : List Call → Circuits db → Circuits db
  calls [] s = s
  calls (e ∷ es) s = calls es (call e s)

  abbrev pub circuit_of : String → Circuits db → Circuit
  circuit_of key s = get_or_fresh (lookup key s.cache)

  circuit_of-write_back :
      (key j : String) (c : Circuit) (changed : Bool) (s : Circuits db)
      → circuit_of j (write_back db key c changed (get_circuit_cache db key s).1)
        ≡ (if key == j then c else circuit_of j s)
  unfolding get_circuit_cache
  circuit_of-write_back key j c true s = ground (
    arith,
    lookup-insert key j c (insert key (circuit_of key s) s.cache),
    lookup-insert key j (circuit_of key s) s.cache,
  )
  circuit_of-write_back key j c false s = ground (
    arith,
    lookup-insert key j c (insert key (circuit_of key s) s.cache),
    lookup-insert key j (circuit_of key s) s.cache,
  )

  -- A call changes the circuit of its own key, as `act` says, and no other.
  pub circuit_of-call :
      (e : Call) (j : String) (s : Circuits db)
      → cfg.enabled ≡ true
      → circuit_of j (call e s)
        ≡ (if key_of e == j then act cfg e (circuit_of j s) else circuit_of j s)
  unfolding call is_open record_success record_failure
  circuit_of-call (ask now key) j s on = ground (
    arith,
    eq_iff key j,
    circuit_of-write_back key j (check cfg now (circuit_of key s)).0
        (check cfg now (circuit_of key s)).1 s,
  )
  circuit_of-call (good key) j s on = ground (
    arith,
    eq_iff key j,
    circuit_of-write_back key j (succeed cfg (circuit_of key s)).0
        (succeed cfg (circuit_of key s)).1 s,
  )
  circuit_of-call (bad now key) j s on = ground (
    arith,
    eq_iff key j,
    circuit_of-write_back key j (fail cfg now (circuit_of key s)).0
        (fail cfg now (circuit_of key s)).1 s,
  )

  pub circuit_of-call_self :
      (e : Call) (s : Circuits db)
      → cfg.enabled ≡ true
      → circuit_of (key_of e) (call e s) ≡ act cfg e (circuit_of (key_of e) s)
  circuit_of-call_self e s on = rw (circuit_of-call e (key_of e) s on, eq_refl (key_of e))

  -- A property of circuits that calls of a class keep holds along a run of them, whatever is
  -- called on other keys in between.
  pub circuit_of-calls :
      (P : Circuit → Type 0) (Allowed : Call → Type 0) (j : String)
      → cfg.enabled ≡ true
      → ((e : Call) (c : Circuit) → Allowed e → P c → P (act cfg e c))
      → (es : List Call) (s : Circuits db) → All Allowed es
      → P (circuit_of j s)
      → P (circuit_of j (calls es s))
  unfolding calls
  circuit_of-calls P Allowed j on keep [] s ok h = h
  circuit_of-calls P Allowed j on keep (e ∷ es) s (ok, oks) h =
      circuit_of-calls P Allowed j on keep es (call e s) oks
        (subst P (sym (circuit_of-call e j s on)) (if-both P (key_of e == j) (keep e _ ok h) h))

-- The circuit has tripped at a time.
abbrev pub IsTrippedAt : ℕ → Circuit → Type 0
IsTrippedAt t c = (c.state ≡ opened) × (c.tripped_at ≡ some t)

-- A call that happens before a time.
abbrev pub Before : ℕ → Call → Type 0
Before until (ask now key) = now < until
Before until (good key) = Unit
Before until (bad now key) = now < until

act-IsTrippedAt :
    (cfg : CircuitConfig) (t : ℕ) (e : Call) (c : Circuit)
    → Before (t + cfg.timeout) e
    → IsTrippedAt t c
    → IsTrippedAt t (act cfg e c)
unfolding check succeed fail
act-IsTrippedAt cfg t (ask now key) c early h = ground arith
act-IsTrippedAt cfg t (good key) c early h = ground arith
act-IsTrippedAt cfg t (bad now key) c early h = ground arith

check_early :
    (cfg : CircuitConfig) (t now : ℕ) (c : Circuit)
    → now < t + cfg.timeout
    → IsTrippedAt t c
    → (check cfg now c).2 ≡ true
unfolding check
check_early cfg t now c early h = ground arith

check_late :
    (cfg : CircuitConfig) (t now : ℕ) (c : Circuit)
    → 0 < t
    → t + cfg.timeout ≤ now
    → IsTrippedAt t c
    → check cfg now c ≡ (record c { state = half_open; successes = 0 }, true, false)
unfolding check
check_late cfg t now c pos late h = ground arith

module _ (db : Table String Circuit) (cfg : CircuitConfig) (key : String) (t now : ℕ)
    (on : cfg.enabled ≡ true) where
  is_open-answer :
      (s : Circuits db) → (is_open db cfg now key s).1 ≡ (check cfg now (circuit_of db cfg key s)).2
  unfolding is_open get_circuit_cache
  is_open-answer s = simp on

  -- A circuit that tripped at `t` rejects every request before `t + timeout`, whatever successes,
  -- failures and questions on any key come in between, if the circuit breaker is enabled.
  pub calls-is_open_early :
      (es : List Call) (s : Circuits db)
      → IsTrippedAt t (circuit_of db cfg key s)
      → All (Before (t + cfg.timeout)) es
      → now < t + cfg.timeout
      → (is_open db cfg now key (calls db cfg es s)).1 ≡ true
  calls-is_open_early es s h before early =
      let still =
        circuit_of-calls db cfg (IsTrippedAt t) (Before (t + cfg.timeout)) key on
          (act-IsTrippedAt cfg t) es s before h in
      is_open-answer (calls db cfg es s) ∙ check_early cfg t now _ early still

  -- From `t + timeout` on, for a trip at a time above 0, a question lets the request through and
  -- puts the circuit on trial, with no success counted yet, if the circuit breaker is enabled.
  pub is_open_late :
      (s : Circuits db)
      → IsTrippedAt t (circuit_of db cfg key s)
      → 0 < t
      → t + cfg.timeout ≤ now
      → ((is_open db cfg now key s).1 ≡ false)
        × ((circuit_of db cfg key (is_open db cfg now key s).0).state ≡ half_open)
        × ((circuit_of db cfg key (is_open db cfg now key s).0).successes ≡ 0)
  unfolding call
  is_open_late s h pos late =
      let e = check_late cfg t now (circuit_of db cfg key s) pos late h in
      let c = circuit_of-call db cfg (ask now key) key s on in
      (
        is_open-answer s ∙ ap (λ r. r.2) e,
        ground (arith, eq_refl key, c, e),
        ground (arith, eq_refl key, c, e),
      )
