-- ===== src/Tests/FederationTests.antt =====
-- Polls of remote nodes at concrete inputs.
use nexus_gate.Prelude.{
  ◌≡◌, refl, true, String, some, [], ◌∷◌, lookup, insert, string_eq, contains, arith,
}
use nexus_gate.Filter.{done}
use nexus_gate.Federation.{
  FederationConfig, Sync, Reply, unreachable, healthy, fresh_state, failed_state, poll_node,
  nodes_to_poll, circuit_is_open, get_next_retry_nodes, add_stale, receive, circuit_record_failure,
  circuit_record_success, set_state,
}
use nexus_gate.Federation.Stuck.{run_rounds, down-stays}
use nexus_gate.Federation.Schedule.{healthy-polled}

abbrev mesh : FederationConfig
mesh = record {
  servers = "a" ∷ "b" ∷ [];
  circuit_breaker_threshold = 2;
  backoff_max = 60;
  sync_interval = 30;
}

-- The node "a" has failed once.
abbrev failed_once : Sync
failed_once = record {
  nodes = ("a", failed_state mesh 10 1) ∷ ("b", fresh_state) ∷ [];
  circuit = ("a", 1) ∷ [];
}

abbrev all_well : String → Reply
all_well node_id = healthy 5 done done

program : Unit {0}
unfolding lookup insert circuit_is_open get_next_retry_nodes add_stale nodes_to_poll receive
    poll_node circuit_record_failure circuit_record_success set_state
program = tt

down-stays_example :
    lookup "a"
      (run_rounds mesh
        ((100, all_well) ∷ (1000, all_well) ∷ [])
        (poll_node mesh 20 "a" unreachable failed_once)).nodes
    ≡ some (failed_state mesh 20 2)
unfolding program
down-stays_example =
    down-stays mesh "a" 20 ((100, all_well) ∷ (1000, all_well) ∷ []) failed_once refl refl
      (ground arith)

healthy-polled_example :
    contains (nodes_to_poll mesh 22 (poll_node mesh 20 "a" (healthy 5 done done) failed_once)) "a"
    ≡ true
unfolding program
healthy-polled_example =
    healthy-polled mesh 20 22 "a" failed_once (refl, (refl, tt)) refl refl 5 done done
