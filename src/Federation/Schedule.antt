-- ===== src/Federation/Schedule.antt =====
-- Which nodes src/api/federation/sync.py polls in a round.
use nexus_gate.Prelude.{
  ℕ, ◌+◌, String, Bool, true, false, not, ◌&&◌, ◌||◌, Option, none, some, List, [], ◌∷◌, ◌++◌, ◌≡◌,
  refl, ◌∙◌, sym, ap, subst, arith, leb, min, ◌^◌, lookup-insert, if◌then◌else◌, contains, lookup,
  insert, string_eq, lookup-insert_self, eq_iff, ◌==◌, Bool-cases, inl, inr,
}
use nexus_gate.Sql.{IsDistinct}
use nexus_gate.Filter.{Fields}
use nexus_gate.Federation.{
  FederationConfig, NodeState, Reply, unreachable, healthy, Sync, failures_of, is_due, is_stale,
  get_next_retry_nodes, add_stale, nodes_to_poll, circuit_is_open, receive, poll_node, failed_state,
  circuit_record_failure, circuit_record_success, set_state,
}
use nexus_gate.Federation.Stuck.{poll-receive}

contains-append :
    (xs ys : List String) (s : String) → contains (xs ++ ys) s ≡ (contains xs s || contains ys s)
contains-append [] ys s = refl
contains-append (x ∷ xs) ys s = ground (arith, contains-append xs ys s)

-- What the first scan takes: the nodes whose own entry is due.
abbrev due_now : ℕ → Option NodeState → Bool
due_now now none = false
due_now now (some st) = is_due now st

retry-absent :
    (now : ℕ) (node_id : String) (nodes : List (String × NodeState))
    → lookup node_id nodes ≡ none
    → contains (get_next_retry_nodes now nodes) node_id ≡ false
unfolding lookup get_next_retry_nodes
retry-absent now node_id [] h = refl
retry-absent now node_id ((j, st) ∷ nodes) h =
    ground (arith, eq_iff j node_id, retry-absent now node_id nodes)

push-contains :
    (d : Bool) (j node_id : String) (rest : List String)
    → contains (if d then j ∷ rest else rest) node_id
      ≡ ((d && j == node_id) || contains rest node_id)
push-contains true j node_id rest = refl
push-contains false j node_id rest = refl

only : (d : Bool) → ((d && true) || false) ≡ d
only true = refl
only false = refl

skip : (d c : Bool) → ((d && false) || c) ≡ c
skip true c = refl
skip false c = refl

-- On a state manager's dictionary the scan finds a node exactly if its entry is due.
retry_iff :
    (now : ℕ) (node_id : String) (nodes : List (String × NodeState))
    → IsDistinct nodes
    → contains (get_next_retry_nodes now nodes) node_id ≡ due_now now (lookup node_id nodes)
unfolding lookup get_next_retry_nodes
retry_iff now node_id [] distinct = refl
retry_iff now node_id ((j, st) ∷ nodes) (fresh, distinct) = elim (Bool-cases (j == node_id)) [
  | inl same ↦
      let here : j ≡ node_id = (eq_iff j node_id).0 same in
      let gone = retry-absent now node_id nodes (ap (λ i. lookup i nodes) (sym here) ∙ fresh) in
      push-contains (is_due now st) j node_id (get_next_retry_nodes now nodes)
      ∙ rw (same, gone) (only (is_due now st))
  | inr other ↦
      push-contains (is_due now st) j node_id (get_next_retry_nodes now nodes)
      ∙ rw other (skip (is_due now st) _ ∙ retry_iff now node_id nodes distinct)
]

add_one :
    (stale : Bool) (to_poll : List String) (i node_id : String)
    → contains (if stale && not (contains to_poll i) then to_poll ++ i ∷ [] else to_poll) node_id
      ≡ (contains to_poll node_id || (i == node_id && stale))
add_one stale to_poll i node_id =
    ground (arith, contains-append to_poll (i ∷ []) node_id, eq_iff i node_id)

regroup :
    (p e si sn m : Bool)
    → (e ≡ true → si ≡ sn)
    → ((p || (e && si)) || (m && sn)) ≡ (p || ((e || m) && sn))
regroup p true si sn m h = rw (h refl) (ground arith)
regroup p false si sn m h = ground arith

add_stale_iff :
    (cfg : FederationConfig) (now : ℕ) (nodes : List (String × NodeState))
    (servers to_poll : List String) (node_id : String)
    → contains (add_stale cfg now nodes servers to_poll) node_id ≡ (
        contains to_poll node_id
        || (contains servers node_id && is_stale cfg now (lookup node_id nodes)))
unfolding add_stale
add_stale_iff cfg now nodes [] to_poll node_id = ground arith
add_stale_iff cfg now nodes (i ∷ servers) to_poll node_id =
    let stale = is_stale cfg now (lookup i nodes) in
    add_stale_iff cfg now nodes servers _ node_id
    ∙ ap (λ b. b || (contains servers node_id && is_stale cfg now (lookup node_id nodes)))
        (add_one stale to_poll i node_id)
    ∙ regroup (contains to_poll node_id) (i == node_id) stale
        (is_stale cfg now (lookup node_id nodes)) (contains servers node_id)
        (λ e. ap (λ k. is_stale cfg now (lookup k nodes)) ((eq_iff i node_id).0 e))

-- What the whole round takes.
abbrev wanted : FederationConfig → ℕ → Bool → Option NodeState → Bool
wanted cfg now known o = due_now now o || (known && is_stale cfg now o)

-- A round polls a node exactly if it has a state and that has never been polled, or its time for a
-- retry has come, or the node is of the configuration, up, and was last polled an interval ago.
pub nodes_to_poll_iff :
    (cfg : FederationConfig) (now : ℕ) (s : Sync) (node_id : String)
    → IsDistinct s.nodes
    → contains (nodes_to_poll cfg now s) node_id
      ≡ wanted cfg now (contains cfg.servers node_id) (lookup node_id s.nodes)
unfolding nodes_to_poll
nodes_to_poll_iff cfg now s node_id distinct =
    add_stale_iff cfg now s.nodes cfg.servers (get_next_retry_nodes now s.nodes) node_id
    ∙ ap (λ b. b || (contains cfg.servers node_id && is_stale cfg now (lookup node_id s.nodes)))
        (retry_iff now node_id s.nodes distinct)

insert-IsDistinct :
    {V : Type 0} (k : String) (v : V) (m : List (String × V))
    → IsDistinct m
    → IsDistinct (insert k v m)
unfolding insert lookup
insert-IsDistinct k v [] h = (refl, tt)
insert-IsDistinct k v ((j, w) ∷ m) (fresh, h) = elim (Bool-cases (j == k)) [
  | inl same ↦ let e : j ≡ k = (eq_iff j k).0 same in ground (arith, same, ap (λ i. lookup i m) e)
  | inr other ↦
      ground
        (arith, other, insert-IsDistinct k v m h, lookup-insert k j v m, eq_iff j k, eq_iff k j)
]

failed-wanted :
    (cfg : FederationConfig) (now later failures : ℕ)
    → wanted cfg later true (some (failed_state cfg now failures))
      ≡ leb (now + min (2 ^ failures) cfg.backoff_max) later
failed-wanted cfg now later failures =
    elim (Bool-cases (leb cfg.circuit_breaker_threshold failures)) [
      | inl over ↦ rw over (ground arith)
      | inr under ↦ rw under (ground arith)
    ]

module _ (cfg : FederationConfig) (now later : ℕ) (node_id : String) (s : Sync)
    (distinct : IsDistinct s.nodes) (known : contains cfg.servers node_id ≡ true)
    (closed : circuit_is_open node_id cfg.circuit_breaker_threshold s ≡ false) where
  after_state :
      (reply : Reply) (st : NodeState)
      → (receive cfg now node_id reply s).nodes ≡ insert node_id st s.nodes
      → contains (nodes_to_poll cfg later (poll_node cfg now node_id reply s)) node_id
        ≡ wanted cfg later true (some st)
  after_state reply st written =
      let t = poll_node cfg now node_id reply s in
      let e : t.nodes ≡ insert node_id st s.nodes =
        ap (λ u. u.nodes) (poll-receive cfg node_id now reply s known closed) ∙ written in
      nodes_to_poll_iff cfg later t node_id
        (subst (λ m. IsDistinct m) (sym e) (insert-IsDistinct node_id st s.nodes distinct))
      ∙ rw known (
          ap (λ m. wanted cfg later true (lookup node_id m)) e
          ∙ ap (wanted cfg later true) (lookup-insert_self node_id st s.nodes))

  -- A configured node in a dictionary of states, whose circuit was closed and which has just answered a poll, is due in the round
  -- that comes next, whenever that is and whatever the interval, since its time for a retry is 0.
  pub healthy-polled :
      (duration_ms : ℕ) (databases storages : Fields)
      → contains
          (nodes_to_poll cfg later
            (poll_node cfg now node_id (healthy duration_ms databases storages) s))
          node_id
        ≡ true
  unfolding receive circuit_record_success set_state
  healthy-polled duration_ms databases storages =
      after_state (healthy duration_ms databases storages) _ refl ∙ ground arith

  -- A node that has not answered is polled again exactly in the rounds at which its back-off is
  -- over: two to the power of its failures in a row, and at most the maximum.
  pub failed-polled :
      let backoff = min (2 ^ (failures_of (lookup node_id s.circuit) + 1)) cfg.backoff_max in
      contains (nodes_to_poll cfg later (poll_node cfg now node_id unreachable s)) node_id
      ≡ leb (now + backoff) later
  unfolding receive circuit_record_failure set_state
  failed-polled =
      after_state unreachable (failed_state cfg now (failures_of (lookup node_id s.circuit) + 1))
        refl
      ∙ failed-wanted cfg now later _
