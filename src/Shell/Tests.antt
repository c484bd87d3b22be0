-- ===== src/Shell/Tests.antt =====
-- A concrete shell, and the theorems about its lines at concrete inputs.
use matter_hub.Prelude.{
  ℕ, ◌+◌, ◌%◌, ◌^◌, ◌≡◌, ◌≢◌, refl, List, [], ◌∷◌, ◌++◌, codes, true, false, Option, none, some,
  arith,
}
use matter_hub.Chip.{other}
use matter_hub.Interaction.{toggle, subscription_with, no_reports}
use matter_hub.Reports.Tests.{peer}
use matter_hub.Interaction.Tests.{table}
use matter_hub.OrderedMap.{find, text_eq_iff, text_key}
use matter_hub.Bindings.Tests.{lights, dark, with_peer}
use matter_hub.Clusters.Tests.{ones}
use matter_hub.Subscriptions.Tests.{fives}
use matter_hub.Discovery.Tests.{
  shell, ids, house, births, online, accepted, quiet_fresh, one_known, some_part, some_server,
}
use matter_hub.Prelude.Int.{pos, to_unsigned}
use matter_hub.Interaction.{peer_id_for_node}
use matter_hub.Mqtt.{client_publish}
use matter_hub.Discovery.{DescriptionManager, reads, publishes}
use matter_hub.Discovery.Walk.{run}
use matter_hub.Discovery.Described.{readings, IsDescription}
use matter_hub.Discovery.Commands.{
  Discovery, describe_worker_function, on_connection_request_completed,
}
use matter_hub.Discovery.Birth.{Birth, publish_to_mqtt_compact}
use matter_hub.Discovery.Birth.Expected.{ShowsEndpoints, device_topic}
use matter_hub.Shell.Described.{line_describes}
use matter_hub.Shell.Delivered.{cluster_line, line_delivers}
use matter_hub.Clusters.{
  Clusters, cluster_command_worker_function, on_connected_callback_cluster_command_on_off,
  on_response,
}
use matter_hub.Shell.{
  groups_engine, Handler, Table, EngineLibrary, ShellState, Libraries, switch, describe,
}
use matter_hub.Shell.Handlers.{act, run_line}
use matter_hub.Shell.Words.{path, words_to}
use matter_hub.Shell.Lines.{words_to-act}
use matter_hub.Shell.Help.{listed, help_lists}
use matter_hub.Outcome.{ret}
use matter_hub.Heap.{object_at}
use matter_hub.Bindings.{BindingTableEntry, Sent, to_device, to_group}
use matter_hub.Bindings.Notified.{Reaches}
use matter_hub.Bindings.Queue.{run_queue}
use matter_hub.Shell.Bound.{Target, one_light, one_group, entry_for, after_lines, bound_by_line}

abbrev table_lookup : Table → List ℕ → Option Handler
table_lookup t name = find name t

lookup_none : (name : List ℕ) → table_lookup [] name ≡ none
unfolding find
lookup_none name = refl

lookup_head : (name : List ℕ) (h : Handler) (t : Table) → table_lookup ((name, h) ∷ t) name ≡ some h
unfolding find
lookup_head name h t = rw ((text_eq_iff name name).1 refl) refl

lookup_tail :
    (name key : List ℕ) (h : Handler) (t : Table)
    → key ≢ name
    → table_lookup ((key, h) ∷ t) name ≡ table_lookup t name
unfolding find
lookup_tail name key h t differs = ground (arith, text_eq_iff key name)

abbrev engine : EngineLibrary
engine = record {
  lookup = table_lookup;
  not_found = other 1;
  lookup_empty = lookup_none;
  lookup_first = lookup_head;
  lookup_later = lookup_tail;
}

abbrev libraries : Libraries
libraries = record {
  engine = engine;
  binding = lights;
  connection = table;
  cluster = ones;
  subscribing = fives;
  describing = shell;
}

abbrev idle : ShellState
idle = record {
  bindings = dark;
  clusters = record { objects = []; queue = []; sessions = []; sent = []; released = [] };
  subscriptions = record {
    objects = [];
    queue = [];
    sessions = [];
    subscriptions = (subscription_with peer 1 6 0 30 600, no_reports) ∷ [];
    released = [];
  };
  discovery = record { objects = []; queue = []; sessions = []; managers = [] };
  mqtt_queue = [];
  printed = [];
}

words_to-act_example :
    run_line libraries (words_to (switch toggle) ++ []) idle ≡ act libraries (switch toggle) [] idle
words_to-act_example = words_to-act libraries (switch toggle) [] idle

help_lists_example :
    (run_line libraries (path groups_engine) idle ≡ listed groups_engine idle)
    × (run_line libraries ((path groups_engine ++ codes "help" ∷ []) ++ codes "me" ∷ []) idle
        ≡ listed groups_engine idle)
help_lists_example = help_lists libraries groups_engine (codes "me" ∷ []) idle

abbrev new_light : Target
new_light = one_light (codes "1") (codes "1") (codes "1")

abbrev new_entry : BindingTableEntry
new_entry = entry_for libraries new_light

bound_by_line_example :
    (sent earlier after : List Sent) × Reaches toggle false
      (with_peer (dark.table ++ new_entry ∷ []))
      sent
    × (sent ≡ earlier ++ to_device 7 1 toggle ∷ after)
    × (run_queue lights table (after_lines libraries new_light toggle idle).bindings
        ≡ ret (record dark { table = dark.table ++ new_entry ∷ []; sent = [] ++ sent }))
unfolding object_at to_unsigned
bound_by_line_example =
    bound_by_line libraries (λ e. omega arith) (λ e. omega arith) (λ e. omega arith) new_light
      toggle idle (some peer) 7 (with_peer dark.table) [] refl refl refl (peer, refl, refl) refl
      ((λ e. (peer, 7, refl, refl)), ((λ e. cc), ((λ e. (peer, 7, refl, refl)), tt)))

abbrev new_group : Target
new_group = one_group (codes "1") (codes "1")

-- A group is notified without a device.
group_bound :
    (sent earlier after : List Sent) × Reaches toggle true
      (with_peer (dark.table ++ entry_for libraries new_group ∷ []))
      sent
    × (sent ≡ earlier ++ to_group 1 1 toggle ∷ after)
    × (run_queue lights table (after_lines libraries new_group toggle idle).bindings
        ≡ ret (record dark {
          table = dark.table ++ entry_for libraries new_group ∷ [];
          sent = [] ++ sent;
        }))
unfolding object_at to_unsigned
group_bound =
    bound_by_line libraries (λ e. omega arith) (λ e. omega arith) (λ e. omega arith) new_group
      toggle idle none 7 (with_peer dark.table) [] refl refl refl tt refl
      ((λ e. (peer, 7, refl, refl)), ((λ e. cc), ((λ e. cc), tt)))

line_describes_example :
    (scheduled started : Discovery) × (first m : DescriptionManager) × (dbirth : Birth)
    × (describe_worker_function table
          (some 1)
          (run_line libraries (words_to describe ++ codes "1" ∷ codes "1" ∷ []) idle).0.discovery
        ≡ ret scheduled)
    × (scheduled.sessions
        ≡ [] ++ (peer_id_for_node table (to_unsigned 64 (pos 1)) (to_unsigned 64 (pos 1)), 1) ∷ [])
    × (on_connection_request_completed ids 1 peer scheduled ≡ ret started)
    × (started.managers ≡ [] ++ reads first ∷ [])
    × (started.objects ≡ [])
    × (run ids house (1 + readings m.endpoints) (reads first) ≡ ret (publishes m))
    × IsDescription ids house m.endpoints
    × (dbirth.timestamp ≡ 100)
    × (dbirth.seq ≡ 5)
    × ShowsEndpoints m.endpoints dbirth.endpoints
    × ((publish_to_mqtt_compact births 100 m (5, online)).1.calls
        ≡ [] ++ client_publish (device_topic (pos 3) 333) (some (births.print dbirth)) ∷ [])
    × ((publish_to_mqtt_compact births 100 m (5, online)).0 ≡ (5 + 1) % 2 ^ 32)
line_describes_example =
    line_describes libraries ids house peer 7 births 100 5 online (codes "1") (codes "1") idle refl
      accepted quiet_fresh one_known some_part some_server refl refl

line_delivers_example :
    (scheduled connected_to : Clusters) × (cluster_command_worker_function table true
        (some 1)
        (run_line libraries
          (cluster_line libraries toggle (codes "1") (codes "1") (codes "1"))
          idle).0.clusters
      ≡ ret scheduled)
    × (on_connected_callback_cluster_command_on_off table 1 peer scheduled ≡ ret connected_to)
    × (connected_to.sent
        ≡ []
          ++ record {
            session = 7;
            endpoint_id = to_unsigned 16 (pos 1);
            command = toggle;
            address = 1;
          }
            ∷ [])
    × ((on_response 1 connected_to).objects ≡ [])
unfolding object_at
line_delivers_example =
    line_delivers libraries peer 7 toggle (codes "1") (codes "1") (codes "1") idle refl
      (λ e. omega arith) (λ e. omega arith) (λ e. omega arith) refl one_known
