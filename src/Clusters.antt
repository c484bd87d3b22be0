-- ===== src/Clusters.antt =====
-- src/main/ClusterCommands.cpp: the shell commands that switch a device on, off or over, from the
-- command line to the response of the device.
pub mod Delivery
pub mod Tests
use matter_hub.Prelude.{
  ℕ, ◌≡◌, refl, ◌≢◌, List, [], ◌∷◌, ◌++◌, Bool, true, false, Option, none, some, ◌==◌,
  if◌then◌else◌, arith,
}
use matter_hub.Prelude.Int.{ℤ, to_unsigned}
use matter_hub.Outcome.{Outcome, ret, fault, dangling_pointer, or_fault, ◌>>=◌}
use matter_hub.Chip.{Device}
use matter_hub.Reports.{secure_session}
use matter_hub.Heap.{object_at, delete, object_at-cons, delete-cons}
use matter_hub.Interaction.{ConnectionLibrary, peer_id_for_node, OnOffCommand, off, on, toggle}

-- shell::ClusterCommandData, less its callbacks, which point back to it.
pub record ClusterCommandData : Type 0 where
  pub fabric_id : ℕ
  pub node_id : ℕ
  pub endpoint_id : ℕ
  pub command_id : ℕ
  pub cluster_id : ℕ

-- A call of InvokeCommandRequest; its response callbacks hold the address of the command's data.
pub record Invoked : Type 0 where
  pub session : ℕ
  pub endpoint_id : ℕ
  pub command : OnOffCommand
  pub address : ℕ

-- The live objects, the scheduled addresses, the sessions that are asked for, with the address that
-- their callbacks get, the commands that were sent, and the peers whose session was released.
pub record Clusters : Type 0 where
  pub objects : List (ℕ × ClusterCommandData)
  pub queue : List ℕ
  pub sessions : List (ℕ × ℕ)
  pub sent : List Invoked
  pub released : List ℕ

-- The allocator's next address, `atoi`, and the id of the OnOff cluster.
pub record ClusterLibrary : Type 0 where
  pub new_address : List (ℕ × ClusterCommandData) → ℕ
  pub atoi : List ℕ → ℤ
  pub on_off_cluster_id : ℕ

-- ClusterCommandDataOnOffParser
pub cluster_command_data_on_off_parser :
    ClusterLibrary → List ℕ → List ℕ → List ℕ → ℕ → ClusterCommandData
cluster_command_data_on_off_parser lib fabric node endpoint command_id = record {
  fabric_id = to_unsigned 64 (lib.atoi fabric);
  node_id = to_unsigned 64 (lib.atoi node);
  endpoint_id = to_unsigned 16 (lib.atoi endpoint);
  command_id = command_id;
  cluster_id = lib.on_off_cluster_id;
}

-- The id of each command in the SDK.
unfoldable pub id_of : ConnectionLibrary → OnOffCommand → ℕ
id_of c off = c.off_id
id_of c on = c.on_id
id_of c toggle = c.toggle_id

-- ClusterCommandOnOffOnHandler and its two kin, which differ in the command's id.
pub cluster_command_on_off_on_off_toggle_handler :
    ClusterLibrary → ConnectionLibrary → OnOffCommand → List (List ℕ) → Clusters → Clusters
unfolding cluster_command_data_on_off_parser id_of
cluster_command_on_off_on_off_toggle_handler lib c command (fabric ∷ node ∷ endpoint ∷ []) s =
    let address = lib.new_address s.objects in
    record s {
      objects =
          (address, cluster_command_data_on_off_parser lib fabric node endpoint (id_of c command))
          ∷ s.objects;
      queue = s.queue ++ address ∷ [];
    }
cluster_command_on_off_on_off_toggle_handler lib c command _ s = s

-- ClusterCommandWorkerFunction; a null context is `none`, and `has_manager` says that the server
-- has a session manager.
pub cluster_command_worker_function :
    ConnectionLibrary → Bool → Option ℕ → Clusters → Outcome Clusters
unfolding object_at
cluster_command_worker_function c has_manager none s = ret s
cluster_command_worker_function c false (some address) s = ret s
cluster_command_worker_function c true (some address) s = do
  d ← or_fault (object_at address s.objects) dangling_pointer
  let peer = peer_id_for_node c d.fabric_id d.node_id
  ret (
      if peer == c.undefined_node_id
      then s
      else record s { sessions = s.sessions ++ (peer, address) ∷ [] })

-- One case of the switch in the next function.
invoke : Device → ℕ → ℕ → OnOffCommand → Clusters → Outcome Clusters
unfolding secure_session
invoke device address endpoint_id command s = do
  session ← secure_session device
  let request : Invoked = record {
    session = session;
    endpoint_id = endpoint_id;
    command = command;
    address = address;
  }
  ret (record s { sent = s.sent ++ request ∷ [] })

-- onConnectedCallbackClusterCommandOnOff
pub on_connected_callback_cluster_command_on_off :
    ConnectionLibrary → ℕ → Device → Clusters → Outcome Clusters
unfolding object_at invoke
on_connected_callback_cluster_command_on_off c address device s = do
  d ← or_fault (object_at address s.objects) dangling_pointer
  (if d.command_id == c.on_id
      then invoke device address d.endpoint_id on s
      else if d.command_id == c.off_id
      then invoke device address d.endpoint_id off s
      else if d.command_id == c.toggle_id
      then invoke device address d.endpoint_id toggle s
      else ret s)

-- `onSuccess` and `onFailure` of that function: both delete the command's data.
pub on_response : ℕ → Clusters → Clusters
unfolding delete
on_response address s = record s { objects = delete address s.objects }

-- onFailureCallbackClusterCommandOnOff: it does not look at its context, the command's data.
pub on_failure_callback_cluster_command_on_off : ℕ → ℕ → Clusters → Clusters
on_failure_callback_cluster_command_on_off address peer s = record s {
  released = s.released ++ peer ∷ [];
}
