-- ===== src/Bindings/Tests.antt =====
-- A concrete binding table, and the theorems about switch commands at concrete inputs.
use matter_hub.Prelude.{◌+◌, ◌≡◌, refl, List, [], ◌∷◌, ◌++◌, length, false, Option, none, some}
use matter_hub.Prelude.Int.{pos}
use matter_hub.Outcome.{ret, fault, dangling_pointer}
use matter_hub.Chip.{Device}
use matter_hub.Reports.Tests.{peer}
use matter_hub.Interaction.{toggle}
use matter_hub.Interaction.Tests.{table}
use matter_hub.Bindings.{
  BindingType, BindingTableEntry, Bindings, BindingLibrary, unicast_binding, multicast_binding,
  other_binding, to_device, light_switch_changed_handler, switch_worker_function,
}
use matter_hub.Bindings.Shell.{command_data}
use matter_hub.Bindings.Notified.{HasSessions}
use matter_hub.Bindings.Switching.{switch_dangles}

abbrev blank : BindingTableEntry
blank = record {
  type = other_binding;
  fabric_index = 0;
  local = 0;
  cluster_id = none;
  remote = 0;
  node_id = 0;
  group_id = 0;
}

abbrev lamp : BindingTableEntry
lamp = record blank {
  type = unicast_binding;
  fabric_index = 1;
  local = 1;
  cluster_id = some 6;
  remote = 3;
  node_id = 333;
}

abbrev room : BindingTableEntry
room = record blank {
  type = multicast_binding;
  fabric_index = 1;
  local = 1;
  cluster_id = some 6;
  group_id = 77;
}

-- Every binding is notified, and the peer is at hand for each.
-- The binding manager has no device for a group.
abbrev peer_of : BindingType → Option Device
peer_of multicast_binding = none
peer_of t = some peer

abbrev pub with_peer : List BindingTableEntry → List (BindingTableEntry × Option Device)
with_peer [] = []
with_peer (b ∷ bs) = (b, peer_of b.type) ∷ with_peer bs

abbrev pub lights : BindingLibrary
lights = record {
  new_command = λ os. length os + 1;
  new_entry = λ os. length os + 1;
  blank_entry = blank;
  atoi = λ s. pos 1;
  on_off_cluster_id = 6;
  add_binding_entry = λ entry bs. bs ++ entry ∷ [];
  notified = λ bs endpoint cluster. with_peer bs;
}

abbrev pub dark : Bindings
dark = record { commands = []; entries = []; queue = []; table = lamp ∷ room ∷ []; sent = [] }

pub dark_sessions : HasSessions (with_peer dark.table)
dark_sessions = ((λ e. (peer, 7, refl, refl)), ((λ e. cc), tt))

-- A toggle command is scheduled.
abbrev scheduled : Bindings
scheduled = record dark { commands = (1, command_data lights table toggle false) ∷ [] }

scheduled_runs :
    switch_worker_function lights table (some 1) scheduled
    ≡ ret (record dark { sent = to_device 7 3 toggle ∷ [] })
unfolding switch_worker_function command_data
scheduled_runs = refl

switch_dangles_example :
    light_switch_changed_handler lights table lamp
      (some peer)
      (some 1)
      (record dark { sent = to_device 7 3 toggle ∷ [] })
    ≡ fault dangling_pointer
switch_dangles_example =
    switch_dangles lights table 1 lamp (some peer) scheduled
      (record dark { sent = to_device 7 3 toggle ∷ [] }) scheduled_runs (λ e. cc)
