-- ===== src/Bindings/Bound.antt =====
-- A binding that src/main/BindingHandler.cpp adds and a switch command after it, both in the work
-- queue: what the bound light or group gets.
use matter_hub.Prelude.{
  ℕ, ◌≡◌, refl, ◌≢◌, ap, ◌∙◌, List, [], ◌∷◌, ◌++◌, Bool, true, false, Option, none, some, subst,
}
use matter_hub.Outcome.{ret, ◌>>=◌}
use matter_hub.Chip.{Device}
use matter_hub.Heap.{object_at, object_at-cons, delete-cons}
use matter_hub.Interaction.{ConnectionLibrary, OnOffCommand}
use matter_hub.Bindings.{
  BindingType, BindingTableEntry, Bindings, BindingLibrary, unicast_binding, multicast_binding,
  Sent, to_device, to_group, switch_worker_function, binding_worker_function,
}
use matter_hub.Bindings.Shell.{
  command_data, schedule_switch, schedule_binding, on_off_toggle_switch_command_handler,
  group_on_off_toggle_switch_command_handler,
}
use matter_hub.Bindings.Notified.{
  Reaches, HasSessions, group_reached, device_reached, group_passed, device_passed, other_passed,
}
use matter_hub.Bindings.Queue.{run_work, run_works, run_queue, run_oldest}

-- The type of a binding of a group or of a light, and the call that a command makes for it.
abbrev pub type_for : Bool → BindingType
type_for true = multicast_binding
type_for false = unicast_binding

abbrev pub sent_for : Bool → ℕ → BindingTableEntry → OnOffCommand → Sent
sent_for true session b command = to_group b.fabric_index b.group_id command
sent_for false session b command = to_device session b.remote command

-- The peer that the binding manager notifies with: any for a group, also none, and a device with the
-- session for a light.
abbrev pub HasSession : Bool → Option Device → ℕ → Type 0
HasSession true peer session = Unit
HasSession false peer session =
    (device : Device) × (peer ≡ some device) × (device.secure_session ≡ some session)

abbrev pub handler_for :
    BindingLibrary → ConnectionLibrary → Bool → OnOffCommand → Bindings → Bindings
handler_for lib c true command s = group_on_off_toggle_switch_command_handler lib c command s
handler_for lib c false command s = on_off_toggle_switch_command_handler lib c command s

module _ (command : OnOffCommand) (b : BindingTableEntry) (peer : Option Device) (session : ℕ) where
  -- What a binding sends of the type that the command is for.
  reached_first :
      (is_group : Bool) (calls : List (BindingTableEntry × Option Device)) (sent : List Sent)
      → HasSession is_group peer session
      → b.type ≡ type_for is_group
      → Reaches command is_group ((b, peer) ∷ calls) sent
      → (after : List Sent) × (sent ≡ sent_for is_group session b command ∷ after)
  reached_first false calls sent (device, is, connected) t
        (device_reached b' d device' session' {sent = after} u g same has r) =
      (after, cc)
  reached_first true calls sent connected t (device_reached b' d device' session' u g same has r) =
      cc
  reached_first true calls sent connected t (group_reached b' d {sent = after} m g r) =
      (after, refl)
  reached_first false calls sent connected t (group_reached b' d m g r) = cc
  reached_first true calls sent connected t (group_passed b' d m g r) = cc
  reached_first false calls sent connected t (group_passed b' d m g r) = cc
  reached_first true calls sent connected t (device_passed b' d m g r) = cc
  reached_first false calls sent connected t (device_passed b' d m g r) = cc
  reached_first true calls sent connected t (other_passed b' d m r) = cc
  reached_first false calls sent connected t (other_passed b' d m r) = cc

  reached_split :
      (is_group : Bool) (before calls : List (BindingTableEntry × Option Device)) (sent : List Sent)
      → HasSession is_group peer session
      → b.type ≡ type_for is_group
      → Reaches command is_group (before ++ (b, peer) ∷ calls) sent
      → (earlier after : List Sent) × (sent
          ≡ earlier ++ sent_for is_group session b command ∷ after)
  reached_split g [] calls sent connected t r =
      let (after, e) = reached_first g calls sent connected t r in ([], after, e)
  reached_split g ((b0, d0) ∷ before) calls sent connected t
        (group_reached b' d {sent = rest} m e r) =
      let (earlier, after, same) = reached_split g before calls rest connected t r in
      (
        to_group b'.fabric_index b'.group_id command ∷ earlier,
        after,
        ap (λ x. to_group b'.fabric_index b'.group_id command ∷ x) same,
      )
  reached_split g ((b0, d0) ∷ before) calls sent connected t
        (device_reached b' d device' session' {sent = rest} u e same' has r) =
      let (earlier, after, same) = reached_split g before calls rest connected t r in
      (
        to_device session' b'.remote command ∷ earlier,
        after,
        ap (λ x. to_device session' b'.remote command ∷ x) same,
      )
  reached_split g ((b0, d0) ∷ before) calls sent connected t (group_passed b' d m e r) =
      reached_split g before calls sent connected t r
  reached_split g ((b0, d0) ∷ before) calls sent connected t (device_passed b' d m e r) =
      reached_split g before calls sent connected t r
  reached_split g ((b0, d0) ∷ before) calls sent connected t (other_passed b' d m r) =
      reached_split g before calls sent connected t r

module _ (lib : BindingLibrary) (c : ConnectionLibrary) where
  handler_for-schedules :
      (is_group : Bool) (command : OnOffCommand) (s : Bindings)
      → handler_for lib c is_group command s
        ≡ schedule_switch lib c (command_data lib c command is_group) s
  unfolding on_off_toggle_switch_command_handler group_on_off_toggle_switch_command_handler
  handler_for-schedules true command s = refl
  handler_for-schedules false command s = refl

  -- The worker of a binding that was allocated last.
  binding_runs :
      (entry : BindingTableEntry) (s : Bindings)
      → object_at (lib.new_entry s.entries) s.entries ≡ none
      → binding_worker_function lib c
          (some (lib.new_entry s.entries))
          (record s { entries = (lib.new_entry s.entries, entry) ∷ s.entries })
        ≡ ret (record s { table = lib.add_binding_entry entry s.table })
  unfolding binding_worker_function
  binding_runs entry s fresh =
      let address = lib.new_entry s.entries in
      rw (object_at-cons address entry s.entries, delete-cons address entry s.entries fresh) refl

  -- The two workers, one after the other.
  queue_runs :
      (is_group : Bool) (command : OnOffCommand) (entry : BindingTableEntry) (s : Bindings)
      → s.queue ≡ []
      → object_at (lib.new_entry s.entries) s.entries ≡ none
      → run_queue lib c (handler_for lib c is_group command (schedule_binding lib c entry s))
        ≡ switch_worker_function lib c (some (lib.new_command s.commands)) (record s {
          commands = (lib.new_command s.commands, command_data lib c command is_group) ∷ s.commands;
          queue = [];
          table = lib.add_binding_entry entry s.table;
        })
          >>= ret
  unfolding run_queue run_works run_work schedule_binding schedule_switch
  queue_runs is_group command entry s empty free =
      rw
        (
          handler_for-schedules is_group command (schedule_binding lib c entry s),
          empty,
          binding_runs entry
              (record s {
                commands =
                    (lib.new_command s.commands, command_data lib c command is_group) ∷ s.commands;
                queue = [];
              })
              free,
        )
        refl

module _ (lib : BindingLibrary) (c : ConnectionLibrary) (off_on : c.off_id ≢ c.on_id)
    (off_toggle : c.off_id ≢ c.toggle_id) (on_toggle : c.on_id ≢ c.toggle_id) where
  -- A binding and a switch command after it, both scheduled: the work queue adds the binding and then
  -- sends the command to what is bound, the new binding among them.
  pub bound_then_switched :
      (is_group : Bool) (command : OnOffCommand) (entry : BindingTableEntry) (s : Bindings)
      (peer : Option Device) (session : ℕ) (before calls : List (BindingTableEntry × Option Device))
      → s.queue ≡ []
      → object_at (lib.new_entry s.entries) s.entries ≡ none
      → object_at (lib.new_command s.commands) s.commands ≡ none
      → entry.type ≡ type_for is_group
      → HasSession is_group peer session
      → lib.notified (lib.add_binding_entry entry s.table) 1 lib.on_off_cluster_id
        ≡ before ++ (entry, peer) ∷ calls
      → HasSessions (before ++ (entry, peer) ∷ calls)
      → (sent earlier after : List Sent) × Reaches command is_group
          (before ++ (entry, peer) ∷ calls)
          sent
        × (sent ≡ earlier ++ sent_for is_group session entry command ∷ after)
        × (run_queue lib c (handler_for lib c is_group command (schedule_binding lib c entry s))
            ≡ ret (record s {
              queue = [];
              table = lib.add_binding_entry entry s.table;
              sent = s.sent ++ sent;
            }))
  bound_then_switched is_group command entry s peer session before calls empty free fresh t
        connected known sessions =
      let (sent, reached, ran, _) =
        run_oldest lib c off_on off_toggle on_toggle command is_group (lib.new_command s.commands)
          [] s.commands (record s { queue = []; table = lib.add_binding_entry entry s.table }) fresh
          tt (rw known sessions) in
      let reached' = subst (λ calls'. Reaches command is_group calls' sent) known reached in
      let (earlier, after, split) =
        reached_split command entry peer session is_group before calls sent connected t reached' in
      (
        sent,
        earlier,
        after,
        reached',
        split,
        queue_runs lib c is_group command entry s empty free ∙ rw ran refl,
      )
