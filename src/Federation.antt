-- ===== src/Federation.antt =====
-- src/api/federation/sync.py and src/api/federation/state.py: the states of the remote nodes, the
-- failures counted for each, and the rounds of the task that polls them.
pub mod Stuck
pub mod Schedule
pub mod Proxy
use nexus_gate.Prelude.{
  ℕ, ◌+◌, ◌*◌, ◌^◌, ◌≤◌, String, Bool, true, false, not, ◌&&◌, ◌||◌, Option, none, some, List, [],
  ◌∷◌, ◌++◌, leb, if◌then◌else◌, contains, lookup, insert, string_eq, min, ◌==◌,
}
use nexus_gate.Sql.{Table}
use nexus_gate.Filter.{Fields, done}

pub data NodeStatus : Type 0 where
  unknown up degraded down : NodeStatus

-- `FederationNodeState`. A dictionary of checks is JSON.
pub record NodeState : Type 0 where
  pub status : NodeStatus
  pub latency_ms : ℕ
  pub last_check : ℕ
  pub consecutive_failures : ℕ
  pub next_retry_at : ℕ
  pub databases : Fields
  pub storages : Fields

pub record FederationConfig : Type 0 where
  pub servers : List String
  pub circuit_breaker_threshold : ℕ
  pub backoff_max : ℕ
  pub sync_interval : ℕ

-- What a poll comes to: an answer in the form that is read, a time-out or an HTTP error, or an
-- answer of another form, whose exception the caller drops.
pub data Reply : Type 0 where
  healthy : (duration_ms : ℕ) → (databases storages : Fields) → Reply
  unreachable malformed : Reply

-- `_nodes` of the state manager and `_CIRCUIT_STATE`.
pub record Sync : Type 0 where
  pub nodes : List (String × NodeState)
  pub circuit : List (String × ℕ)

abbrev pub failures_of : Option ℕ → ℕ
failures_of none = 0
failures_of (some n) = n

abbrev pub at_least : ℕ → Option ℕ → Bool
at_least threshold none = false
at_least threshold (some n) = leb threshold n

unfoldable pub circuit_is_open : String → ℕ → Sync → Bool
circuit_is_open node_id threshold s = at_least threshold (lookup node_id s.circuit)

unfoldable pub circuit_record_failure : String → Sync → Sync × ℕ
circuit_record_failure node_id s =
    let failures = failures_of (lookup node_id s.circuit) + 1 in
    (record s { circuit = insert node_id failures s.circuit }, failures)

unfoldable pub circuit_record_success : String → Sync → Sync
circuit_record_success node_id s = record s { circuit = insert node_id 0 s.circuit }

unfoldable pub set_state : String → NodeState → Sync → Sync
set_state node_id st s = record s { nodes = insert node_id st s.nodes }

abbrev pub fresh_state : NodeState
fresh_state = record {
  status = unknown;
  latency_ms = 0;
  last_check = 0;
  consecutive_failures = 0;
  next_retry_at = 0;
  databases = done;
  storages = done;
}

abbrev pub failed_state : FederationConfig → ℕ → ℕ → NodeState
failed_state cfg now failures = record {
  status = if leb cfg.circuit_breaker_threshold failures then down else degraded;
  latency_ms = 0;
  last_check = now;
  consecutive_failures = failures;
  next_retry_at = now + min (2 ^ failures) cfg.backoff_max;
  databases = done;
  storages = done;
}

-- What is done with a reply.
unfoldable pub receive : FederationConfig → ℕ → String → Reply → Sync → Sync
unfolding circuit_record_failure circuit_record_success set_state
receive cfg now node_id (healthy duration_ms databases storages) s =
    circuit_record_success node_id (
      set_state node_id
        (record {
          status = up;
          latency_ms = duration_ms;
          last_check = now;
          consecutive_failures = 0;
          next_retry_at = 0;
          databases = databases;
          storages = storages;
        })
        s)
receive cfg now node_id unreachable s =
    let (s', failures) = circuit_record_failure node_id s in
    set_state node_id (failed_state cfg now failures) s'
receive cfg now node_id malformed s = s

unfoldable pub poll_node : FederationConfig → ℕ → String → Reply → Sync → Sync
unfolding circuit_is_open receive
poll_node cfg now node_id reply s =
    if not (contains cfg.servers node_id)
    then s
    else if circuit_is_open node_id cfg.circuit_breaker_threshold s
    then s
    else receive cfg now node_id reply s

abbrev pub is_unknown : NodeStatus → Bool
is_unknown unknown = true
is_unknown _ = false

abbrev pub is_up : NodeStatus → Bool
is_up up = true
is_up _ = false

abbrev pub is_degraded : NodeStatus → Bool
is_degraded degraded = true
is_degraded _ = false

abbrev pub is_due : ℕ → NodeState → Bool
is_due now st = is_unknown st.status || leb st.next_retry_at now

unfoldable pub get_next_retry_nodes : ℕ → List (String × NodeState) → List String
get_next_retry_nodes now [] = []
get_next_retry_nodes now ((node_id, st) ∷ nodes) =
    let rest = get_next_retry_nodes now nodes in if is_due now st then node_id ∷ rest else rest

unfoldable pub get_healthy_nodes : List (String × NodeState) → List String
get_healthy_nodes [] = []
get_healthy_nodes ((node_id, st) ∷ nodes) =
    let rest = get_healthy_nodes nodes in if is_up st.status then node_id ∷ rest else rest

abbrev pub is_stale : FederationConfig → ℕ → Option NodeState → Bool
is_stale cfg now none = false
is_stale cfg now (some st) = is_up st.status && leb (st.last_check + cfg.sync_interval) now

-- The loop that adds the nodes whose interval is over.
unfoldable pub add_stale :
    FederationConfig → ℕ → List (String × NodeState) → List String → List String → List String
add_stale cfg now nodes [] to_poll = to_poll
add_stale cfg now nodes (node_id ∷ servers) to_poll = add_stale cfg now nodes servers (
    if is_stale cfg now (lookup node_id nodes) && not (contains to_poll node_id)
    then to_poll ++ node_id ∷ []
    else to_poll)

unfoldable pub nodes_to_poll : FederationConfig → ℕ → Sync → List String
unfolding get_next_retry_nodes add_stale
nodes_to_poll cfg now s = add_stale cfg now s.nodes cfg.servers (get_next_retry_nodes now s.nodes)

-- The polls of one round; no two touch the same entry.
unfoldable pub poll_all : FederationConfig → ℕ → (String → Reply) → List String → Sync → Sync
unfolding poll_node
poll_all cfg now replies [] s = s
poll_all cfg now replies (node_id ∷ ids) s =
    poll_all cfg now replies ids (poll_node cfg now node_id (replies node_id) s)

unfoldable pub sync_round : FederationConfig → ℕ → (String → Reply) → Sync → Sync
unfolding nodes_to_poll poll_all
sync_round cfg now replies s = poll_all cfg now replies (nodes_to_poll cfg now s) s

-- Nodes that are new get a state before the first round.
unfoldable pub seed : List String → Sync → Sync
unfolding set_state
seed [] s = s
seed (node_id ∷ servers) s =
    seed servers
      (elim (lookup node_id s.nodes) [ none ↦ set_state node_id fresh_state s | some st ↦ s ])

abbrev pub degraded_now : Option NodeState → Bool
degraded_now none = false
degraded_now (some st) = is_degraded st.status

unfoldable pub any_degraded : List String → Sync → Bool
any_degraded [] s = false
any_degraded (node_id ∷ ids) s = degraded_now (lookup node_id s.nodes) || any_degraded ids s

unfoldable pub sleep_time : FederationConfig → List String → Sync → ℕ
unfolding any_degraded
sleep_time cfg polled s = min cfg.sync_interval (if any_degraded polled s then 5 else 30)

-- The state manager's table. A row that does not read is left out by `load`.
module _ (db : Table String (Option NodeState)) where
  unfoldable pub persist : List (String × NodeState) → db.State → db.State
  persist [] table = table
  persist ((node_id, st) ∷ nodes) table = persist nodes (db.replace node_id (some st) table)

  unfoldable pub load_rows : List (String × Option NodeState) → Sync → Sync
  unfolding set_state
  load_rows [] s = s
  load_rows ((node_id, none) ∷ rows) s = load_rows rows s
  load_rows ((node_id, some st) ∷ rows) s = load_rows rows (set_state node_id st s)

  unfoldable pub load : db.State → Sync → Sync
  unfolding load_rows
  load table s = load_rows (db.rows table) (record s { nodes = [] })
