-- ===== src/Bindings/Shell.antt =====
-- src/main/BindingHandler.cpp: the handlers of the shell commands.
use matter_hub.Prelude.{ℕ, List, [], ◌∷◌, ◌++◌, Bool, true, false, some}
use matter_hub.Prelude.Int.{to_unsigned}
use matter_hub.Chip.{ChipError, no_error, invalid_argument}
use matter_hub.Interaction.{ConnectionLibrary, OnOffCommand}
use matter_hub.Clusters.{id_of}
use matter_hub.Bindings.{
  BindingCommandData, BindingTableEntry, Bindings, BindingLibrary, unicast_binding,
  multicast_binding, switch_worker, binding_worker,
}

module _ (lib : BindingLibrary) (c : ConnectionLibrary) where
  -- The allocation and the scheduling of a switch command.
  unfoldable pub schedule_switch : BindingCommandData → Bindings → Bindings
  schedule_switch d s =
      let address = lib.new_command s.commands in
      record s {
        commands = (address, d) ∷ s.commands;
        queue = s.queue ++ switch_worker address ∷ [];
      }

  unfoldable pub command_data : OnOffCommand → Bool → BindingCommandData
  unfolding id_of
  command_data command is_group = record {
    local_endpoint_id = 1;
    command_id = id_of c command;
    cluster_id = lib.on_off_cluster_id;
    is_group = is_group;
  }

  -- OnSwitchCommandHandler, OffSwitchCommandHandler and ToggleSwitchCommandHandler
  unfoldable pub on_off_toggle_switch_command_handler : OnOffCommand → Bindings → Bindings
  unfolding schedule_switch command_data
  on_off_toggle_switch_command_handler command s = schedule_switch (command_data command false) s

  -- GroupOnSwitchCommandHandler, GroupOffSwitchCommandHandler and GroupToggleSwitchCommandHandler
  unfoldable pub group_on_off_toggle_switch_command_handler : OnOffCommand → Bindings → Bindings
  unfolding schedule_switch command_data
  group_on_off_toggle_switch_command_handler command s =
      schedule_switch (command_data command true) s

  unfoldable pub schedule_binding : BindingTableEntry → Bindings → Bindings
  schedule_binding entry s =
      let address = lib.new_entry s.entries in
      record s {
        entries = (address, entry) ∷ s.entries;
        queue = s.queue ++ binding_worker address ∷ [];
      }

  unfoldable pub group_entry : List ℕ → List ℕ → BindingTableEntry
  group_entry fabric group = record lib.blank_entry {
    type = multicast_binding;
    fabric_index = to_unsigned 8 (lib.atoi fabric);
    group_id = to_unsigned 16 (lib.atoi group);
    local = 1;
    cluster_id = some 6;
  }

  -- BindingGroupBindCommandHandler
  unfoldable pub binding_group_bind_command_handler :
      List (List ℕ) → Bindings → Bindings × ChipError
  unfolding schedule_binding group_entry
  binding_group_bind_command_handler (fabric ∷ group ∷ []) s =
      (schedule_binding (group_entry fabric group) s, no_error)
  binding_group_bind_command_handler _ s = (s, invalid_argument)

  unfoldable pub unicast_entry : List ℕ → List ℕ → List ℕ → BindingTableEntry
  unicast_entry fabric node remote = record lib.blank_entry {
    type = unicast_binding;
    fabric_index = to_unsigned 8 (lib.atoi fabric);
    node_id = to_unsigned 64 (lib.atoi node);
    local = 1;
    remote = to_unsigned 16 (lib.atoi remote);
    cluster_id = some 6;
  }

  -- BindingUnicastBindCommandHandler
  unfoldable pub binding_unicast_bind_command_handler :
      List (List ℕ) → Bindings → Bindings × ChipError
  unfolding schedule_binding unicast_entry
  binding_unicast_bind_command_handler (fabric ∷ node ∷ remote ∷ []) s =
      (schedule_binding (unicast_entry fabric node remote) s, no_error)
  binding_unicast_bind_command_handler _ s = (s, invalid_argument)
