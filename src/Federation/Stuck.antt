-- ===== src/Federation/Stuck.antt =====
-- What becomes in src/api/federation/sync.py of a node whose circuit has opened.
use nexus_gate.Prelude.{
  ℕ, ◌+◌, ◌≤◌, String, true, false, some, List, [], ◌∷◌, ◌≡◌, ◌≢◌, refl, ◌∙◌, sym, ap, subst, arith,
  contains, lookup, string_eq, lookup-insert_self, lookup-insert_ne, eq_iff, ◌==◌, Bool-cases, inl,
  inr, le→leb,
}
use nexus_gate.Federation.{
  FederationConfig, Reply, unreachable, healthy, malformed, Sync, failures_of, at_least,
  circuit_is_open, circuit_record_failure, circuit_record_success, set_state, failed_state, receive,
  poll_node, poll_all, nodes_to_poll, sync_round,
}

-- The entries of one node are the same in two states.
abbrev pub Same : String → Sync → Sync → Type 0
Same node_id s t =
    (lookup node_id t.nodes ≡ lookup node_id s.nodes)
    × (lookup node_id t.circuit ≡ lookup node_id s.circuit)

Same-trans :
    (node_id : String) (s t u : Sync) → Same node_id s t → Same node_id t u → Same node_id s u
Same-trans node_id s t u (a, b) (c, d) = (c ∙ a, d ∙ b)

-- A reply of another node changes nothing of a node.
pub receive-other :
    (cfg : FederationConfig) (now : ℕ) (other node_id : String) (reply : Reply) (s : Sync)
    → other ≢ node_id
    → Same node_id s (receive cfg now other reply s)
unfolding receive circuit_record_failure circuit_record_success set_state
receive-other cfg now other node_id (healthy d dbs fss) s ne =
    (lookup-insert_ne other node_id _ s.nodes ne, lookup-insert_ne other node_id _ s.circuit ne)
receive-other cfg now other node_id unreachable s ne =
    (lookup-insert_ne other node_id _ s.nodes ne, lookup-insert_ne other node_id _ s.circuit ne)
receive-other cfg now other node_id malformed s ne = (refl, refl)

module _ (cfg : FederationConfig) (node_id : String) where
  abbrev pub IsOpen : Sync → Type 0
  IsOpen s = circuit_is_open node_id cfg.circuit_breaker_threshold s ≡ true

  poll_node-stuck :
      (now : ℕ) (other : String) (reply : Reply) (s : Sync)
      → IsOpen s
      → Same node_id s (poll_node cfg now other reply s)
  unfolding poll_node
  poll_node-stuck now other reply s opened = elim (Bool-cases (other == node_id)) [
    | inl same ↦ ground (arith, eq_iff other node_id)
    | inr differs ↦
        let ne : other ≢ node_id = λ e. ground (arith, eq_iff other node_id) in
        ground (arith, receive-other cfg now other node_id reply s ne)
  ]

  Same-IsOpen : (s t : Sync) → Same node_id s t → IsOpen s → IsOpen t
  unfolding circuit_is_open
  Same-IsOpen s t (a, b) opened = ap (at_least cfg.circuit_breaker_threshold) b ∙ opened

  poll_all-stuck :
      (now : ℕ) (replies : String → Reply) (ids : List String) (s : Sync)
      → IsOpen s
      → Same node_id s (poll_all cfg now replies ids s)
  unfolding poll_all
  poll_all-stuck now replies [] s opened = (refl, refl)
  poll_all-stuck now replies (i ∷ ids) s opened =
      let t = poll_node cfg now i (replies i) s in
      let first = poll_node-stuck now i (replies i) s opened in
      Same-trans node_id s t (poll_all cfg now replies ids t) first
        (poll_all-stuck now replies ids t (Same-IsOpen s t first opened))

-- Rounds of the task, each at its time and with the replies that the nodes would give.
unfoldable pub run_rounds : FederationConfig → List (ℕ × (String → Reply)) → Sync → Sync
run_rounds cfg [] s = s
run_rounds cfg ((now, replies) ∷ rounds) s = run_rounds cfg rounds (sync_round cfg now replies s)

rounds-stuck :
    (cfg : FederationConfig) (node_id : String) (rounds : List (ℕ × (String → Reply))) (s : Sync)
    → IsOpen cfg node_id s
    → Same node_id s (run_rounds cfg rounds s)
unfolding run_rounds sync_round
rounds-stuck cfg node_id [] s opened = (refl, refl)
rounds-stuck cfg node_id ((now, replies) ∷ rounds) s opened =
    let t = sync_round cfg now replies s in
    let first = poll_all-stuck cfg node_id now replies (nodes_to_poll cfg now s) s opened in
    Same-trans node_id s t (run_rounds cfg rounds t) first
      (rounds-stuck cfg node_id rounds t (Same-IsOpen cfg node_id s t first opened))

pub poll-receive :
    (cfg : FederationConfig) (node_id : String) (now : ℕ) (reply : Reply) (s : Sync)
    → contains cfg.servers node_id ≡ true
    → circuit_is_open node_id cfg.circuit_breaker_threshold s ≡ false
    → poll_node cfg now node_id reply s ≡ receive cfg now node_id reply s
unfolding poll_node
poll-receive cfg node_id now reply s known closed = rw (known, closed) refl

receive_failure :
    (cfg : FederationConfig) (node_id : String) (now : ℕ) (s : Sync)
    → let failures = failures_of (lookup node_id s.circuit) + 1 in
      let t = receive cfg now node_id unreachable s in
      cfg.circuit_breaker_threshold ≤ failures
      → (lookup node_id t.nodes ≡ some (failed_state cfg now failures)) × IsOpen cfg node_id t
unfolding receive circuit_record_failure set_state circuit_is_open
receive_failure cfg node_id now s reached =
    let failures = failures_of (lookup node_id s.circuit) + 1 in
    (
      lookup-insert_self node_id (failed_state cfg now failures) s.nodes,
      ap (at_least cfg.circuit_breaker_threshold) (lookup-insert_self node_id failures s.circuit)
          ∙ le→leb cfg.circuit_breaker_threshold failures reached,
    )

failed_poll :
    (cfg : FederationConfig) (node_id : String) (now : ℕ) (s : Sync)
    → contains cfg.servers node_id ≡ true
    → circuit_is_open node_id cfg.circuit_breaker_threshold s ≡ false
    → let failures = failures_of (lookup node_id s.circuit) + 1 in
      let t = poll_node cfg now node_id unreachable s in
      cfg.circuit_breaker_threshold ≤ failures
      → (lookup node_id t.nodes ≡ some (failed_state cfg now failures)) × IsOpen cfg node_id t
failed_poll cfg node_id now s known closed reached =
    subst
      (λ t.
        (lookup node_id t.nodes
          ≡ some (failed_state cfg now (failures_of (lookup node_id s.circuit) + 1)))
        × IsOpen cfg node_id t)
      (sym (poll-receive cfg node_id now unreachable s known closed))
      (receive_failure cfg node_id now s reached)

-- A node of the configuration whose failed poll brings its failures to the threshold keeps the state
-- that is written then through all later rounds, whatever it would reply: it is never polled again.
pub down-stays :
    (cfg : FederationConfig) (node_id : String) (now : ℕ) (rounds : List (ℕ × (String → Reply)))
    (s : Sync)
    → contains cfg.servers node_id ≡ true
    → circuit_is_open node_id cfg.circuit_breaker_threshold s ≡ false
    → let failures = failures_of (lookup node_id s.circuit) + 1 in
      cfg.circuit_breaker_threshold ≤ failures
      → lookup node_id (run_rounds cfg rounds (poll_node cfg now node_id unreachable s)).nodes
        ≡ some (failed_state cfg now failures)
down-stays cfg node_id now rounds s known closed reached =
    let failures = failures_of (lookup node_id s.circuit) + 1 in
    let t = poll_node cfg now node_id unreachable s in
    let (written, opened) = failed_poll cfg node_id now s known closed reached in
    (rounds-stuck cfg node_id rounds t opened).0 ∙ written
