-- ===== src/Shell/Bound.antt =====
-- Two lines of the shell, one that binds the switch and one that switches, with the work queue after
-- them.
use matter_hub.Prelude.{
  ℕ, ◌≡◌, refl, ◌≢◌, ap, ◌∙◌, List, [], ◌∷◌, ◌++◌, Bool, true, false, Option, none, some,
}
use matter_hub.Outcome.{ret}
use matter_hub.Chip.{Device}
use matter_hub.Prelude.Int.{to_unsigned}
use matter_hub.Heap.{object_at}
use matter_hub.Interaction.{OnOffCommand}
use matter_hub.Bindings.{
  BindingTableEntry, unicast_binding, multicast_binding, Sent, to_device, to_group,
}
use matter_hub.Bindings.Shell.{
  group_entry, unicast_entry, schedule_binding, binding_group_bind_command_handler,
  binding_unicast_bind_command_handler,
}
use matter_hub.Bindings.Notified.{Reaches, HasSessions}
use matter_hub.Bindings.Queue.{run_queue}
use matter_hub.Bindings.Bound.{type_for, sent_for, HasSession, handler_for, bound_then_switched}
use matter_hub.Shell.{Leaf, bind_group, bind_unicast, switch, group_switch, ShellState, Libraries}
use matter_hub.Shell.Handlers.{act, run_line}
use matter_hub.Shell.Words.{words_to}
use matter_hub.Shell.Lines.{words_to-act}

-- What a line binds: a light by the words for its fabric, node and endpoint, or a group by those for
-- its fabric and number.
pub data Target : Type 0 where
  one_light : List ℕ → List ℕ → List ℕ → Target
  one_group : List ℕ → List ℕ → Target

abbrev pub for_group : Target → Bool
for_group (one_light fabric node remote) = false
for_group (one_group fabric group) = true

abbrev pub bind_line : Target → List (List ℕ)
bind_line (one_light fabric node remote) = words_to bind_unicast ++ fabric ∷ node ∷ remote ∷ []
bind_line (one_group fabric group) = words_to bind_group ++ fabric ∷ group ∷ []

abbrev pub switch_leaf : Bool → OnOffCommand → Leaf
switch_leaf true command = group_switch command
switch_leaf false command = switch command

abbrev pub switch_line : Bool → OnOffCommand → List (List ℕ)
switch_line is_group command = words_to (switch_leaf is_group command) ++ []

module _ (l : Libraries) where
  -- The binding that the words of a line mean: each word's number is cut down to the width of its
  -- field, the local endpoint is 1, the cluster is 6, and what a line has no word for is as in a new
  -- object.
  abbrev pub entry_for : Target → BindingTableEntry
  entry_for (one_light fabric node remote) = record {
    type = unicast_binding;
    fabric_index = to_unsigned 8 (l.binding.atoi fabric);
    local = 1;
    cluster_id = some 6;
    remote = to_unsigned 16 (l.binding.atoi remote);
    node_id = to_unsigned 64 (l.binding.atoi node);
    group_id = l.binding.blank_entry.group_id;
  }
  entry_for (one_group fabric group) = record {
    type = multicast_binding;
    fabric_index = to_unsigned 8 (l.binding.atoi fabric);
    local = 1;
    cluster_id = some 6;
    remote = l.binding.blank_entry.remote;
    node_id = l.binding.blank_entry.node_id;
    group_id = to_unsigned 16 (l.binding.atoi group);
  }

  -- The call that switches the target: one to the session of a light, at the endpoint of its word, or
  -- one to the fabric and the group of the two words.
  abbrev pub call_for : Target → ℕ → OnOffCommand → Sent
  call_for (one_light fabric node remote) session command =
      to_device session (to_unsigned 16 (l.binding.atoi remote)) command
  call_for (one_group fabric group) session command =
      to_group (to_unsigned 8 (l.binding.atoi fabric)) (to_unsigned 16 (l.binding.atoi group))
        command

  entry_for-type : (t : Target) → (entry_for t).type ≡ type_for (for_group t)
  entry_for-type (one_light fabric node remote) = refl
  entry_for-type (one_group fabric group) = refl

  sent_for-call :
      (t : Target) (session : ℕ) (command : OnOffCommand)
      → sent_for (for_group t) session (entry_for t) command ≡ call_for t session command
  sent_for-call (one_light fabric node remote) session command = refl
  sent_for-call (one_group fabric group) session command = refl

  abbrev pub after_lines : Target → OnOffCommand → ShellState → ShellState
  after_lines t command s =
      (run_line l (switch_line (for_group t) command) (run_line l (bind_line t) s).0).0

  -- Two lines run the two handlers.
  lines_act :
      (first second : Leaf) (words words' : List (List ℕ)) (s : ShellState)
      → (run_line l (words_to second ++ words') (run_line l (words_to first ++ words) s).0).0
        ≡ (act l second words' (act l first words s).0).0
  lines_act first second words words' s =
      ap (λ r. (run_line l (words_to second ++ words') r.0).0) (words_to-act l first words s)
      ∙ ap (λ r. r.0) (words_to-act l second words' (act l first words s).0)

  lines_schedule :
      (t : Target) (command : OnOffCommand) (s : ShellState)
      → after_lines t command s ≡ record s {
        bindings =
            handler_for l.binding l.connection
              (for_group t)
              command
              (schedule_binding l.binding l.connection (entry_for t) s.bindings);
      }
  unfolding act binding_unicast_bind_command_handler binding_group_bind_command_handler
      unicast_entry group_entry
  lines_schedule (one_light fabric node remote) command s =
      lines_act bind_unicast (switch command) (fabric ∷ node ∷ remote ∷ []) [] s
  lines_schedule (one_group fabric group) command s =
      lines_act bind_group (group_switch command) (fabric ∷ group ∷ []) [] s

module _ (l : Libraries) (off_on : l.connection.off_id ≢ l.connection.on_id)
    (off_toggle : l.connection.off_id ≢ l.connection.toggle_id)
    (on_toggle : l.connection.on_id ≢ l.connection.toggle_id) where
  -- After a line that binds a light or a group and a line that switches lights or groups, in the
  -- words that lead to these handlers, the platform runs its work queue without a fault: the table is
  -- what AddBindingEntry makes of it with the binding that the words mean; the command has gone, in
  -- the order of the bindings, exactly to the bound lights, for a light, or to the bound groups, for
  -- a group, the new one among them, at the endpoint of its word or by its fabric and group; the
  -- queue is empty, and the live objects are those from before. The allocator gives fresh addresses,
  -- the three command ids differ, the work queue is empty before, and the binding manager notifies of
  -- the new binding, a light with a device that has a session, as the device of every notified light
  -- has, and a group with any device or none.
  pub bound_by_line :
      (t : Target) (command : OnOffCommand) (s : ShellState) (peer : Option Device) (session : ℕ)
      (before calls : List (BindingTableEntry × Option Device))
      → s.bindings.queue ≡ []
      → object_at (l.binding.new_entry s.bindings.entries) s.bindings.entries ≡ none
      → object_at (l.binding.new_command s.bindings.commands) s.bindings.commands ≡ none
      → HasSession (for_group t) peer session
      → l.binding.notified
          (l.binding.add_binding_entry (entry_for l t) s.bindings.table)
          1
          l.binding.on_off_cluster_id
        ≡ before ++ (entry_for l t, peer) ∷ calls
      → HasSessions (before ++ (entry_for l t, peer) ∷ calls)
      → (sent earlier after : List Sent) × Reaches command
          (for_group t)
          (before ++ (entry_for l t, peer) ∷ calls)
          sent
        × (sent ≡ earlier ++ call_for l t session command ∷ after)
        × (run_queue l.binding l.connection (after_lines l t command s).bindings
            ≡ ret (record s.bindings {
              queue = [];
              table = l.binding.add_binding_entry (entry_for l t) s.bindings.table;
              sent = s.bindings.sent ++ sent;
            }))
  bound_by_line t command s peer session before calls empty free fresh connected known sessions =
      rw (lines_schedule l t command s, ← sent_for-call l t session command)
        (bound_then_switched l.binding l.connection off_on off_toggle on_toggle (for_group t)
          command (entry_for l t) s.bindings peer session before calls empty free fresh
          (entry_for-type l t) connected known sessions)
