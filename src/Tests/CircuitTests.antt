-- ===== src/Tests/CircuitTests.antt =====
-- src/security/circuit_breaker.py at concrete inputs.
use nexus_gate.Prelude.{
  ◌+◌, subst, Bool-cases, ◌≡◌, refl, inl, inr, true, false, some, List, [], ◌∷◌, arith, String,
  lookup, insert, string_eq, ◌==◌,
}
use nexus_gate.Sql.{Table, dict_table}
use nexus_gate.Circuit.{
  closed, opened, half_open, Circuit, CircuitConfig, Task, check, succeed, fail, Circuits,
  get_circuit_cache, is_open, record_success, record_failure, get_state,
}
use nexus_gate.Circuit.Invariant.{IsSane, IsSound}
use nexus_gate.Circuit.Tasks.{Step, Reach, AllSound, Reach-AllSound, stale_write-reopens}
use nexus_gate.Circuit.Trip.{
  Call, call, calls, circuit_of, IsTrippedAt, calls-is_open_early, is_open_late,
}
use nexus_gate.Circuit.Recovery.{
  Trial, Trouble, own, calls-Trial, calls-Trouble, circuit_of-calls-run_one, run_one,
  Reach-trial_failure,
}

abbrev db : Table String Circuit
db = dict_table

abbrev cfg : CircuitConfig
cfg = record { enabled = true; failure_threshold = 2; success_threshold = 2; timeout = 30 }

abbrev start : Circuits db
start = record { cache = []; table = []; tasks = [] }

-- Two failures trip the circuit, the other one is not touched.
abbrev storm : List Call
storm = Call.bad 10 "db" ∷ Call.good "fs" ∷ Call.bad 11 "db" ∷ []

program : Unit {0}
unfolding call calls is_open record_success record_failure get_circuit_cache check succeed fail
    lookup insert own
program = tt

storm_trips : (is_open db cfg 40 "db" (calls db cfg storm start)).1 ≡ true
unfolding program
storm_trips = refl

storm_over : (is_open db cfg 41 "db" (calls db cfg storm start)).1 ≡ false
unfolding program
storm_over = refl

storm_other : (is_open db cfg 40 "fs" (calls db cfg storm start)).1 ≡ false
unfolding program
storm_other = refl

sane : IsSane cfg
sane = record { trips = omega arith; heals = omega arith }

start-AllSound : AllSound db cfg start
unfolding lookup
start-AllSound = record {
  cached = λ k c e. absurd (ground arith);
  stored = λ k c e. absurd (ground arith);
  queued = tt;
}

abbrev tripped : Circuit
tripped = record {
  state = opened;
  failures = 2;
  successes = 0;
  last_failure_time = some 11;
  tripped_at = some 11;
}

abbrev stormy : Circuits db
stormy = record start { cache = ("db", tripped) ∷ [] }

calls-is_open_early_example : (is_open db cfg 40 "db" (calls db cfg storm stormy)).1 ≡ true
unfolding lookup
calls-is_open_early_example =
    calls-is_open_early db cfg "db" 11 40 refl storm stormy (refl, refl)
      (omega arith, (tt, (omega arith, tt))) (omega arith)

is_open_late_example :
    ((is_open db cfg 41 "db" stormy).1 ≡ false)
    × ((circuit_of db cfg "db" (is_open db cfg 41 "db" stormy).0).state ≡ half_open)
    × ((circuit_of db cfg "db" (is_open db cfg 41 "db" stormy).0).successes ≡ 0)
unfolding lookup
is_open_late_example =
    is_open_late db cfg "db" 11 41 refl stormy (refl, refl) (omega arith) (omega arith)

abbrev trial : Circuit
trial = record tripped { state = half_open }

abbrev trying : Circuits db
trying = record start { cache = ("db", trial) ∷ [] }

abbrev healing : List Call
healing = Call.good "db" ∷ Call.bad 50 "fs" ∷ Call.good "db" ∷ []

calls-Trial_example :
    Trial cfg (own "db" healing + 0) (circuit_of db cfg "db" (calls db cfg healing trying))
unfolding lookup
calls-Trial_example =
    calls-Trial db cfg "db" refl healing trying 0 (λ _. tt, (λ h. cc, (λ _. tt, tt)))
      (inl (refl, refl, omega arith))

calls-Trouble_example :
    Trouble cfg
      (own "db" (Call.bad 3 "db" ∷ []) + 0)
      (circuit_of db cfg "db" (calls db cfg (Call.bad 3 "db" ∷ []) start))
unfolding lookup
calls-Trouble_example =
    calls-Trouble db cfg "db" refl (Call.bad 3 "db" ∷ []) start 0 (λ _. tt, tt)
      (refl, inl (refl, omega arith))

circuit_of-calls-run_one_example :
    circuit_of db cfg "db" (calls db cfg storm start)
    ≡ run_one cfg "db" storm (circuit_of db cfg "db" start)
circuit_of-calls-run_one_example = circuit_of-calls-run_one db cfg "db" refl storm start

abbrev failed : Circuits db
failed = record_failure db cfg 10 "db" start

Reach-AllSound_example : AllSound db cfg failed
Reach-AllSound_example =
    Reach-AllSound db cfg sane (Reach.next Reach.here (Step.bad 10 "db" start)) start-AllSound

trial-IsSound : IsSound cfg trial
trial-IsSound = record {
  below = λ h. cc;
  reached = λ _. omega arith;
  stamped = λ h. cc;
  on_trial = λ _. omega arith;
}

trying-AllSound : AllSound db cfg trying
unfolding lookup
trying-AllSound = record {
  cached = λ k c e. elim (Bool-cases ("db" == k)) [
    | inl same ↦ let is : trial ≡ c = ground arith in subst (IsSound cfg) is trial-IsSound
    | inr other ↦ absurd (ground arith)
  ];
  stored = λ k c e. absurd (ground arith);
  queued = tt;
}

Reach-trial_failure_example :
    IsTrippedAt 60 (circuit_of db cfg "db" (record_failure db cfg 60 "db" trying))
unfolding lookup
Reach-trial_failure_example =
    Reach-trial_failure db cfg "db" 60 refl sane trying-AllSound Reach.here refl

abbrev late_task : Task
late_task = record { key = "db"; circuit = trial; saved = true }

abbrev almost : Circuit
almost = record trial { successes = 1 }

abbrev racing : Circuits db
racing = record { cache = ("db", almost) ∷ []; table = []; tasks = late_task ∷ [] }

stale_write-reopens_example :
    ((get_state db "db" (record_success db cfg "db" racing)).1 ≡ closed)
    × ((u : Circuits db) × Step db cfg (record_success db cfg "db" racing) u
        × ((get_state db "db" u).1 ≡ half_open))
unfolding lookup
stale_write-reopens_example =
    stale_write-reopens db cfg "db" almost racing late_task [] refl refl refl (omega arith) refl
      refl refl refl
