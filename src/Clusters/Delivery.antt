-- ===== src/Clusters/Delivery.antt =====
-- A cluster command from the command line to the device's response.
use matter_hub.Prelude.{
  ℕ, ◌≡◌, refl, ◌≢◌, ◌∙◌, List, [], ◌∷◌, ◌++◌, true, false, none, some, ◌==◌, arith,
}
use matter_hub.Prelude.Int.{to_unsigned}
use matter_hub.Outcome.{ret}
use matter_hub.Chip.{Device}
use matter_hub.Reports.{secure_session}
use matter_hub.Heap.{object_at, object_at-cons, delete-cons}
use matter_hub.Interaction.{ConnectionLibrary, peer_id_for_node, OnOffCommand, off, on, toggle}
use matter_hub.Clusters.{
  ClusterCommandData, Clusters, ClusterLibrary, cluster_command_data_on_off_parser, id_of,
  cluster_command_on_off_on_off_toggle_handler, cluster_command_worker_function, invoke,
  on_connected_callback_cluster_command_on_off, on_failure_callback_cluster_command_on_off,
  on_response,
}

module _ (lib : ClusterLibrary) (c : ConnectionLibrary) (device : Device) (session : ℕ)
    (connected : device.secure_session ≡ some session) (off_on : c.off_id ≢ c.on_id)
    (off_toggle : c.off_id ≢ c.toggle_id) (on_toggle : c.on_id ≢ c.toggle_id) where
  abbrev data_of : List ℕ → List ℕ → List ℕ → OnOffCommand → ClusterCommandData
  data_of f n e command = cluster_command_data_on_off_parser lib f n e (id_of c command)

  invoke_connected :
      (address e : ℕ) (command : OnOffCommand) (s : Clusters)
      → invoke device address e command s
        ≡ ret (record s {
          sent =
              s.sent
              ++ record { session = session; endpoint_id = e; command = command; address = address }
                ∷ [];
        })
  unfolding invoke secure_session
  invoke_connected address e command s = rw connected refl

  switch_lem :
      (address : ℕ) (f n e : List ℕ) (command : OnOffCommand) (s : Clusters)
      → object_at address s.objects ≡ some (data_of f n e command)
      → on_connected_callback_cluster_command_on_off c address device s
        ≡ invoke device address (to_unsigned 16 (lib.atoi e)) command s
  unfolding on_connected_callback_cluster_command_on_off cluster_command_data_on_off_parser id_of
  switch_lem address f n e off s live = rw live (ground arith)
  switch_lem address f n e on s live = rw live (ground arith)
  switch_lem address f n e toggle s live = rw live (ground arith)

  -- For a command line of three words, a fresh address, a node that has a peer, a device with a
  -- session, and three command ids that differ: the handler, the worker and the connection run one
  -- after the other without a fault, and exactly one command is sent, the handler's own, to the
  -- endpoint that the third word names. After the response no object of the command is left.
  pub command_delivered :
      (f n e : List ℕ) (command : OnOffCommand) (s : Clusters)
      → object_at (lib.new_address s.objects) s.objects ≡ none
      → (peer_id_for_node c (to_unsigned 64 (lib.atoi f)) (to_unsigned 64 (lib.atoi n))
          == c.undefined_node_id)
        ≡ false
      → (scheduled connected_to : Clusters) × (cluster_command_worker_function c true
            (some (lib.new_address s.objects))
            (cluster_command_on_off_on_off_toggle_handler lib c command (f ∷ n ∷ e ∷ []) s)
          ≡ ret scheduled)
        × (on_connected_callback_cluster_command_on_off c
              (lib.new_address s.objects)
              device
              scheduled
            ≡ ret connected_to)
        × (connected_to.sent
            ≡ s.sent
              ++ record {
                session = session;
                endpoint_id = to_unsigned 16 (lib.atoi e);
                command = command;
                address = lib.new_address s.objects;
              }
                ∷ [])
        × ((on_response (lib.new_address s.objects) connected_to).objects ≡ s.objects)
  unfolding cluster_command_on_off_on_off_toggle_handler cluster_command_worker_function on_response
      cluster_command_data_on_off_parser
  command_delivered f n e command s fresh known =
      let address = lib.new_address s.objects in
      let d : ClusterCommandData = data_of f n e command in
      let scheduled : Clusters = record {
        objects = (address, d) ∷ s.objects;
        queue = s.queue ++ address ∷ [];
        sessions = s.sessions ++ (peer_id_for_node c d.fabric_id d.node_id, address) ∷ [];
        sent = s.sent;
        released = s.released;
      } in
      let live : object_at address scheduled.objects ≡ some d =
        object_at-cons address d s.objects in
      (
        scheduled,
        record scheduled {
          sent =
              s.sent
              ++ record {
                session = session;
                endpoint_id = d.endpoint_id;
                command = command;
                address = address;
              }
                ∷ [];
        },
        rw (object_at-cons address d s.objects) (rw known refl),
        switch_lem address f n e command scheduled live
            ∙ invoke_connected address d.endpoint_id command scheduled,
        refl,
        delete-cons address d s.objects fresh,
      )

-- When no connection is made for a command of three words, of a node that has a peer, the command's
-- data stays on the heap: the handler and the worker run without a fault, the failure releases the
-- peer's session, no command is sent, and the data is live at its address as before.
failed_connection_leaks :
    (lib : ClusterLibrary) (c : ConnectionLibrary) (f n e : List ℕ) (command : OnOffCommand)
    (s : Clusters)
    → let address = lib.new_address s.objects in
      let d : ClusterCommandData = cluster_command_data_on_off_parser lib f n e (id_of c command) in
      let peer = peer_id_for_node c d.fabric_id d.node_id in
      (peer == c.undefined_node_id) ≡ false
      → (scheduled : Clusters) × (cluster_command_worker_function c true
            (some address)
            (cluster_command_on_off_on_off_toggle_handler lib c command (f ∷ n ∷ e ∷ []) s)
          ≡ ret scheduled)
        × (scheduled.sessions ≡ s.sessions ++ (peer, address) ∷ [])
        × ((on_failure_callback_cluster_command_on_off address peer scheduled).released
            ≡ s.released ++ peer ∷ [])
        × ((on_failure_callback_cluster_command_on_off address peer scheduled).sent ≡ s.sent)
        × (object_at address
              (on_failure_callback_cluster_command_on_off address peer scheduled).objects
            ≡ some d)
unfolding cluster_command_on_off_on_off_toggle_handler cluster_command_worker_function
    on_failure_callback_cluster_command_on_off
failed_connection_leaks lib c f n e command s known =
    let address = lib.new_address s.objects in
    let d : ClusterCommandData = cluster_command_data_on_off_parser lib f n e (id_of c command) in
    (
      record s {
        objects = (address, d) ∷ s.objects;
        queue = s.queue ++ address ∷ [];
        sessions = s.sessions ++ (peer_id_for_node c d.fabric_id d.node_id, address) ∷ [];
      },
      rw (object_at-cons address d s.objects) (rw known refl),
      refl,
      refl,
      refl,
      object_at-cons address d s.objects,
    )
