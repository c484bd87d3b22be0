-- ===== src/Bindings.antt =====
-- src/main/BindingHandler.cpp and its header: the shell commands that bind the switch to lights and
-- groups and that switch what is bound, and the handler that the binding manager calls.
pub mod Shell
pub mod Notified
pub mod Switching
pub mod Queue
pub mod Bound
pub mod Tests
use matter_hub.Prelude.{
  ℕ, ◌≡◌, List, [], ◌∷◌, ◌++◌, Bool, true, false, ◌&&◌, Option, none, some, ◌==◌, if◌then◌else◌,
}
use matter_hub.Prelude.Int.{ℤ, to_unsigned}
use matter_hub.Outcome.{Outcome, ret, dangling_pointer, null_pointer, or_fault, ◌>>=◌}
use matter_hub.Chip.{ChipError, no_error, invalid_argument, Device}
use matter_hub.Heap.{object_at, delete}
use matter_hub.Reports.{secure_session}
use matter_hub.Interaction.{ConnectionLibrary, OnOffCommand, off, on, toggle}
use matter_hub.Clusters.{id_of}

pub record BindingCommandData : Type 0 where
  pub local_endpoint_id : ℕ
  pub command_id : ℕ
  pub cluster_id : ℕ
  pub is_group : Bool

-- The SDK's types of bindings; the code names two of them.
pub data BindingType : Type 0 where
  unicast_binding multicast_binding other_binding : BindingType

-- EmberBindingTableEntry
pub record BindingTableEntry : Type 0 where
  pub type : BindingType
  pub fabric_index : ℕ
  pub local : ℕ
  pub cluster_id : Option ℕ
  pub remote : ℕ
  pub node_id : ℕ
  pub group_id : ℕ

-- A call of InvokeCommandRequest or of InvokeGroupCommandRequest.
pub data Sent : Type 0 where
  to_device to_group : ℕ → ℕ → OnOffCommand → Sent

-- What is scheduled: a worker with the address of its data.
pub data Work : Type 0 where
  switch_worker binding_worker : ℕ → Work

-- The live objects of the two kinds, the work queue, the binding table and what was sent.
pub record Bindings : Type 0 where
  pub commands : List (ℕ × BindingCommandData)
  pub entries : List (ℕ × BindingTableEntry)
  pub queue : List Work
  pub table : List BindingTableEntry
  pub sent : List Sent

-- The allocator, `atoi`, the id of the OnOff cluster, what a new object holds; and of the SDK the
-- table after AddBindingEntry, and the calls of the handler that NotifyBoundClusterChanged makes at
-- once for a local endpoint and a cluster, each with a binding and the device, `none` for a null
-- pointer.
pub record BindingLibrary : Type 0 where
  pub new_command : List (ℕ × BindingCommandData) → ℕ
  pub new_entry : List (ℕ × BindingTableEntry) → ℕ
  pub blank_entry : BindingTableEntry
  pub atoi : List ℕ → ℤ
  pub on_off_cluster_id : ℕ
  pub add_binding_entry : BindingTableEntry → List BindingTableEntry → List BindingTableEntry
  pub notified : List BindingTableEntry → ℕ → ℕ → List (BindingTableEntry × Option Device)

send_to_device : BindingTableEntry → Option Device → OnOffCommand → Bindings → Outcome Bindings
unfolding secure_session
send_to_device binding peer_device command s = do
  device ← or_fault peer_device null_pointer
  session ← secure_session device
  ret (record s { sent = s.sent ++ to_device session binding.remote command ∷ [] })

-- ProcessOnOffUnicastBindingCommand
process_on_off_unicast_binding_command :
    ConnectionLibrary → ℕ → BindingTableEntry → Option Device → Bindings → Outcome Bindings
unfolding send_to_device
process_on_off_unicast_binding_command c command_id binding peer_device s =
    if command_id == c.toggle_id
    then send_to_device binding peer_device toggle s
    else if command_id == c.on_id
    then send_to_device binding peer_device on s
    else if command_id == c.off_id
    then send_to_device binding peer_device off s
    else ret s

send_to_group : BindingTableEntry → OnOffCommand → Bindings → Bindings
send_to_group binding command s = record s {
  sent = s.sent ++ to_group binding.fabric_index binding.group_id command ∷ [];
}

-- ProcessOnOffGroupBindingCommand
process_on_off_group_binding_command :
    ConnectionLibrary → ℕ → BindingTableEntry → Bindings → Bindings
unfolding send_to_group
process_on_off_group_binding_command c command_id binding s =
    if command_id == c.toggle_id
    then send_to_group binding toggle s
    else if command_id == c.on_id
    then send_to_group binding on s
    else if command_id == c.off_id
    then send_to_group binding off s
    else s

module _ (lib : BindingLibrary) (c : ConnectionLibrary) where
  -- LightSwitchChangedHandler, where a null context is `none`; the data is read only for the two
  -- types of bindings.
  pub light_switch_changed_handler :
      BindingTableEntry → Option Device → Option ℕ → Bindings → Outcome Bindings
  unfolding object_at process_on_off_unicast_binding_command process_on_off_group_binding_command
  light_switch_changed_handler binding peer_device none s = ret s
  light_switch_changed_handler binding peer_device (some address) s = elim binding.type [
    | other_binding ↦ ret s
    | multicast_binding ↦ do
      d ← or_fault (object_at address s.commands) dangling_pointer
      ret (
          if d.is_group && (d.cluster_id == lib.on_off_cluster_id)
          then process_on_off_group_binding_command c d.command_id binding s
          else s)
    | unicast_binding ↦ do
      d ← or_fault (object_at address s.commands) dangling_pointer
      (if d.is_group
          then ret s
          else if d.cluster_id == lib.on_off_cluster_id
          then process_on_off_unicast_binding_command c d.command_id binding peer_device s
          else ret s)
  ]

  -- The calls of NotifyBoundClusterChanged, in their order.
  pub notify_all : Option ℕ → List (BindingTableEntry × Option Device) → Bindings → Outcome Bindings
  unfolding light_switch_changed_handler
  notify_all context [] s = ret s
  notify_all context ((binding, peer_device) ∷ calls) s =
      light_switch_changed_handler binding peer_device context s >>= notify_all context calls

  -- SwitchWorkerFunction
  pub switch_worker_function : Option ℕ → Bindings → Outcome Bindings
  unfolding object_at delete notify_all
  switch_worker_function none s = ret s
  switch_worker_function (some address) s = do
    d ← or_fault (object_at address s.commands) dangling_pointer
    s' ← notify_all (some address) (lib.notified s.table d.local_endpoint_id d.cluster_id) s
    ret (record s' { commands = delete address s'.commands })

  -- BindingWorkerFunction
  pub binding_worker_function : Option ℕ → Bindings → Outcome Bindings
  unfolding object_at delete
  binding_worker_function none s = ret s
  binding_worker_function (some address) s = do
    entry ← or_fault (object_at address s.entries) dangling_pointer
    ret (record s {
      table = lib.add_binding_entry entry s.table;
      entries = delete address s.entries;
    })
