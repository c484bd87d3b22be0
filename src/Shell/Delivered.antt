-- ===== src/Shell/Delivered.antt =====
-- The lines of the shell that switch one device, up to the device's response.
use matter_hub.Prelude.{ℕ, ◌≡◌, ◌≢◌, ap, List, [], ◌∷◌, ◌++◌, true, false, none, some, ◌==◌}
use matter_hub.Prelude.Int.{to_unsigned}
use matter_hub.Outcome.{ret}
use matter_hub.Chip.{Device}
use matter_hub.Heap.{object_at}
use matter_hub.Interaction.{peer_id_for_node, OnOffCommand}
use matter_hub.Clusters.{
  Clusters, cluster_command_on_off_on_off_toggle_handler, cluster_command_worker_function,
  on_connected_callback_cluster_command_on_off, on_response,
}
use matter_hub.Clusters.Delivery.{command_delivered}
use matter_hub.Shell.{cluster_switch, ShellState, Libraries}
use matter_hub.Shell.Handlers.{act, run_line}
use matter_hub.Shell.Words.{words_to}
use matter_hub.Shell.Lines.{words_to-act}

module _ (l : Libraries) where
  -- A line with the words of a fabric, a node and an endpoint.
  abbrev pub cluster_line : OnOffCommand → List ℕ → List ℕ → List ℕ → List (List ℕ)
  cluster_line command f n e = words_to (cluster_switch command) ++ f ∷ n ∷ e ∷ []

  line_switches :
      (command : OnOffCommand) (f n e : List ℕ) (s : ShellState)
      → (run_line l (cluster_line command f n e) s).0.clusters
        ≡ cluster_command_on_off_on_off_toggle_handler l.cluster l.connection command
            (f ∷ n ∷ e ∷ [])
            s.clusters
  unfolding act
  line_switches command f n e s =
      ap (λ r. r.0.clusters) (words_to-act l (cluster_switch command) (f ∷ n ∷ e ∷ []) s)

  -- After the line `cluster onoff` with a command and the words of a fabric, a node and an endpoint,
  -- for a fresh address, a node that has a peer, a device with a session, and three command ids that
  -- differ: the worker and the connection run one after the other without a fault, and exactly one
  -- command is sent, the one that the line names, to the endpoint that its last word names. After the
  -- response no object of the command is left.
  pub line_delivers :
      (device : Device) (session : ℕ) (command : OnOffCommand) (f n e : List ℕ) (s : ShellState)
      → device.secure_session ≡ some session
      → l.connection.off_id ≢ l.connection.on_id
      → l.connection.off_id ≢ l.connection.toggle_id
      → l.connection.on_id ≢ l.connection.toggle_id
      → object_at (l.cluster.new_address s.clusters.objects) s.clusters.objects ≡ none
      → (peer_id_for_node l.connection
            (to_unsigned 64 (l.cluster.atoi f))
            (to_unsigned 64 (l.cluster.atoi n))
          == l.connection.undefined_node_id)
        ≡ false
      → (scheduled connected_to : Clusters) × (cluster_command_worker_function l.connection true
            (some (l.cluster.new_address s.clusters.objects))
            (run_line l (cluster_line command f n e) s).0.clusters
          ≡ ret scheduled)
        × (on_connected_callback_cluster_command_on_off l.connection
              (l.cluster.new_address s.clusters.objects)
              device
              scheduled
            ≡ ret connected_to)
        × (connected_to.sent
            ≡ s.clusters.sent
              ++ record {
                session = session;
                endpoint_id = to_unsigned 16 (l.cluster.atoi e);
                command = command;
                address = l.cluster.new_address s.clusters.objects;
              }
                ∷ [])
        × ((on_response (l.cluster.new_address s.clusters.objects) connected_to).objects
            ≡ s.clusters.objects)
  line_delivers device session command f n e s connected off_on off_toggle on_toggle fresh known =
      let (scheduled, connected_to, worked, answered, sent, left) =
        command_delivered l.cluster l.connection device session connected off_on off_toggle
          on_toggle f n e command s.clusters fresh known in
      (scheduled, connected_to, rw (line_switches command f n e s) worked, answered, sent, left)
