-- ===== src/Circuit/Tasks.antt =====
-- The circuits of all keys, with the tasks of `_persist_state` finishing in any order between the
-- calls of src/security/circuit_breaker.py.
use nexus_gate.Prelude.{
  ℕ, ◌+◌, ◌≤◌, ◌≡◌, String, Bool, true, false, some, List, [], ◌∷◌, ◌++◌, arith, All, All-append,
  All-left, All-right, Option-cases, Bool-cases, if_not-both, inl, inr, lookup, string_eq, insert,
  subst, ◌==◌, lookup-insert_cases, lookup-insert_self,
}
use nexus_gate.Sql.{Table}
use nexus_gate.Circuit.{
  closed, half_open, Circuit, CircuitConfig, Task, fresh, get_or_fresh, succeed, Circuits,
  persist_state, write_back, get_circuit_cache, is_open, record_success, record_failure, save_row,
  publish, get_state, load_circuit_breakers,
}
use nexus_gate.Circuit.Invariant.{
  IsSane, IsSound, fresh-IsSound, check-IsSound, succeed-IsSound, fail-IsSound,
}

module _ (db : Table String Circuit) where
  -- One call, one half of a task, or a restart of the process, which forgets the tasks.
  pub data Step (cfg : CircuitConfig) : Circuits db → Circuits db → Type 0 where
    ask : (now : ℕ) (key : String) (s : Circuits db) → Step cfg s (is_open db cfg now key s).0
    good : (key : String) (s : Circuits db) → Step cfg s (record_success db cfg key s)
    bad : (now : ℕ) (key : String) (s : Circuits db) → Step cfg s (record_failure db cfg now key s)
    begin_reset : (key : String) (s : Circuits db) → Step cfg s (persist_state db true key fresh s)
    save :
        (xs ys : List Task) (t : Task) (s : Circuits db)
        → s.tasks ≡ xs ++ t ∷ ys
        → t.saved ≡ false
        → Step cfg s (record (save_row db t.key t.circuit s) {
          tasks = xs ++ record t { saved = true } ∷ ys;
        })
    write :
        (xs ys : List Task) (t : Task) (s : Circuits db)
        → s.tasks ≡ xs ++ t ∷ ys
        → t.saved ≡ true
        → Step cfg s (record (publish db t.key t.circuit s) { tasks = xs ++ ys })
    restart : (s : Circuits db) → Step cfg s (record (load_circuit_breakers db s) { tasks = [] })

  pub data Reach (cfg : CircuitConfig) (s : Circuits db) : Circuits db → Type 0 where
    here : Reach cfg s s
    next : {t u : Circuits db} → Reach cfg s t → Step cfg t u → Reach cfg s u

  pub record AllSound (cfg : CircuitConfig) (s : Circuits db) : Type 0 where
    pub cached : (key : String) (c : Circuit) → lookup key s.cache ≡ some c → IsSound cfg c
    pub stored : (key : String) (c : Circuit) → db.select key s.table ≡ some c → IsSound cfg c
    pub queued : All (λ t. IsSound cfg t.circuit) s.tasks

  module _ (cfg : CircuitConfig) (sane : IsSane cfg) where
    pub found-IsSound :
        (key : String) (s : Circuits db)
        → AllSound cfg s
        → IsSound cfg (get_or_fresh (lookup key s.cache))
    found-IsSound key s h = elim (Option-cases (lookup key s.cache)) [
      | inl e ↦ rw e (fresh-IsSound cfg sane)
      | inr (c, e) ↦ rw e (h.cached key c e)
    ]

    -- A sound circuit may be written into the cache.
    cache-AllSound :
        (key : String) (c : Circuit) (s : Circuits db) (tasks : List Task)
        → IsSound cfg c
        → AllSound cfg s
        → All (λ t. IsSound cfg t.circuit) tasks
        → AllSound cfg (record s { cache = insert key c s.cache; tasks = tasks })
    cache-AllSound key c s tasks ok h hs = record {
      cached = λ j d e. elim (lookup-insert_cases key j c s.cache e) [
        | inl same ↦ subst (IsSound cfg) same ok
        | inr old ↦ h.cached j d old
      ];
      stored = h.stored;
      queued = hs;
    }

    write_back-AllSound :
        (key : String) (c : Circuit) (changed : Bool) (s : Circuits db)
        → IsSound cfg c
        → AllSound cfg s
        → AllSound cfg (write_back db key c changed s)
    write_back-AllSound key c true s ok h =
        cache-AllSound key c s _ ok h (All-append _ s.tasks _ h.queued (ok, tt))
    write_back-AllSound key c false s ok h = cache-AllSound key c s s.tasks ok h h.queued

    -- The two writes of a call: the circuit that is looked up, and what becomes of it.
    call-AllSound :
        (key : String) (c' : Circuit) (changed : Bool) (s : Circuits db)
        → (IsSound cfg (get_or_fresh (lookup key s.cache)) → IsSound cfg c')
        → AllSound cfg s
        → AllSound cfg (write_back db key c' changed (get_circuit_cache db key s).1)
    unfolding get_circuit_cache
    call-AllSound key c' changed s keep h =
        let found = found-IsSound key s h in
        write_back-AllSound key c' changed _ (keep found)
          (cache-AllSound key _ s s.tasks found h h.queued)

    Step-AllSound : {s t : Circuits db} → Step cfg s t → AllSound cfg s → AllSound cfg t
    unfolding is_open record_success record_failure save_row publish load_circuit_breakers
        get_circuit_cache
    Step-AllSound (ask now key s) h =
        if_not-both (λ (r : Circuits db × Bool). AllSound cfg r.0) cfg.enabled h
          (call-AllSound key _ _ s (check-IsSound cfg sane now _) h)
    Step-AllSound (good key s) h =
        if_not-both (AllSound cfg) cfg.enabled h
          (call-AllSound key _ _ s (succeed-IsSound cfg sane _) h)
    Step-AllSound (bad now key s) h =
        if_not-both (AllSound cfg) cfg.enabled h
          (call-AllSound key _ _ s (fail-IsSound cfg sane now _) h)
    Step-AllSound (begin_reset key s) h = record {
      cached = h.cached;
      stored = h.stored;
      queued = All-append _ s.tasks _ h.queued (fresh-IsSound cfg sane, tt);
    }
    Step-AllSound (save xs ys t s e f) h =
        let q = subst (All (λ t. IsSound cfg t.circuit)) e h.queued in
        let ok = (All-right _ xs (t ∷ ys) q).0 in
        record {
          cached = h.cached;
          stored = λ j d found. elim (Bool-cases (t.key == j)) [
            | inl same ↦
                subst (IsSound cfg) (ground (arith, db.select-replace t.key j t.circuit s.table)) ok
            | inr other ↦ h.stored j d (ground (arith, db.select-replace t.key j t.circuit s.table))
          ];
          queued = All-append _ xs _ (All-left _ xs _ q) (ok, (All-right _ xs (t ∷ ys) q).1);
        }
    Step-AllSound (write xs ys t s e f) h =
        let q = subst (All (λ t. IsSound cfg t.circuit)) e h.queued in
        cache-AllSound t.key t.circuit s (xs ++ ys) (All-right _ xs (t ∷ ys) q).0 h
          (All-append _ xs ys (All-left _ xs _ q) (All-right _ xs (t ∷ ys) q).1)
    Step-AllSound (restart s) h = record {
      cached = λ j d found. h.stored j d (ground (arith, db.lookup-rows j s.table));
      stored = h.stored;
      queued = tt;
    }

    -- Whatever the order in which calls, the halves of tasks and restarts happen, every circuit in
    -- the cache, in the table and in a waiting task stays sound, if all of them are at the start and
    -- both thresholds of the settings are above 0.
    pub Reach-AllSound : {s t : Circuits db} → Reach cfg s t → AllSound cfg s → AllSound cfg t
    Reach-AllSound here h = h
    Reach-AllSound (next r st) h = Step-AllSound st (Reach-AllSound r h)

  -- A circuit on trial closes at a success that reaches the threshold; if the task of its earlier
  -- half-opening has committed its row and not yet written the cache, the next step can be that
  -- write, and the closed circuit is on trial again.
  pub stale_write-reopens :
      (cfg : CircuitConfig) (key : String) (c : Circuit) (s : Circuits db) (t : Task)
      (ys : List Task)
      → cfg.enabled ≡ true
      → lookup key s.cache ≡ some c
      → c.state ≡ half_open
      → cfg.success_threshold ≤ c.successes + 1
      → s.tasks ≡ t ∷ ys
      → t.key ≡ key
      → t.saved ≡ true
      → t.circuit.state ≡ half_open
      → ((get_state db key (record_success db cfg key s)).1 ≡ closed)
        × ((u : Circuits db) × Step cfg (record_success db cfg key s) u
            × ((get_state db key u).1 ≡ half_open))
  unfolding record_success get_state publish succeed
  stale_write-reopens cfg key c s t ys on found trial enough queued same saved stale =
      let r = record_success db cfg key s in
      let waiting = ys ++ record { key = key; circuit = (succeed cfg c).0; saved = false } ∷ [] in
      let closes = lookup-insert_self key (succeed cfg c).0 (insert key c s.cache) in
      let reopens = lookup-insert_self t.key t.circuit r.cache in
      (
        ground (arith, closes),
        (
          record (publish db t.key t.circuit r) { tasks = [] ++ waiting },
          write [] waiting t r (ground (arith, closes)) saved,
          ground (arith, reopens),
        ),
      )
