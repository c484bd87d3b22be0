-- ===== src/Bindings/Notified.antt =====
-- What the notified bindings of a switch command send.
use matter_hub.Prelude.{
  ℕ, ◌≡◌, refl, ◌≢◌, ◌⊎◌, inl, inr, ◌∙◌, List, [], ◌∷◌, ◌++◌, append_assoc, append-nil, Bool, true,
  false, Option, some, arith,
}
use matter_hub.Outcome.{ret}
use matter_hub.Chip.{Device}
use matter_hub.Heap.{object_at}
use matter_hub.Reports.{secure_session}
use matter_hub.Interaction.{ConnectionLibrary, OnOffCommand, off, on, toggle}
use matter_hub.Clusters.{id_of}
use matter_hub.Bindings.{
  BindingType, BindingTableEntry, Bindings, BindingLibrary, unicast_binding, multicast_binding,
  other_binding, Sent, to_device, to_group, send_to_device, send_to_group,
  process_on_off_unicast_binding_command, process_on_off_group_binding_command,
  light_switch_changed_handler, notify_all,
}
use matter_hub.Bindings.Shell.{command_data}

-- What a command sends for the bindings that are notified: to each group if it is a group command,
-- to each device if it is not, in the order of the bindings, and nothing else.
pub data Reaches (command : OnOffCommand) (is_group : Bool)
    : List (BindingTableEntry × Option Device) → List Sent → Type 0 where
  nothing_bound : Reaches command is_group [] []
  group_reached :
      (b : BindingTableEntry) (d : Option Device) {calls : List (BindingTableEntry × Option Device)}
      {sent : List Sent}
      → b.type ≡ multicast_binding
      → is_group ≡ true
      → Reaches command is_group calls sent
      → Reaches command is_group
          ((b, d) ∷ calls)
          (to_group b.fabric_index b.group_id command ∷ sent)
  device_reached :
      (b : BindingTableEntry) (d : Option Device) (device : Device) (session : ℕ)
      {calls : List (BindingTableEntry × Option Device)} {sent : List Sent}
      → b.type ≡ unicast_binding
      → is_group ≡ false
      → d ≡ some device
      → device.secure_session ≡ some session
      → Reaches command is_group calls sent
      → Reaches command is_group ((b, d) ∷ calls) (to_device session b.remote command ∷ sent)
  group_passed :
      (b : BindingTableEntry) (d : Option Device) {calls : List (BindingTableEntry × Option Device)}
      {sent : List Sent}
      → b.type ≡ multicast_binding
      → is_group ≡ false
      → Reaches command is_group calls sent
      → Reaches command is_group ((b, d) ∷ calls) sent
  device_passed :
      (b : BindingTableEntry) (d : Option Device) {calls : List (BindingTableEntry × Option Device)}
      {sent : List Sent}
      → b.type ≡ unicast_binding
      → is_group ≡ true
      → Reaches command is_group calls sent
      → Reaches command is_group ((b, d) ∷ calls) sent
  other_passed :
      (b : BindingTableEntry) (d : Option Device) {calls : List (BindingTableEntry × Option Device)}
      {sent : List Sent}
      → b.type ≡ other_binding
      → Reaches command is_group calls sent
      → Reaches command is_group ((b, d) ∷ calls) sent

-- Every binding of a device comes with a device that has a session.
abbrev pub HasSessions : List (BindingTableEntry × Option Device) → Type 0
HasSessions [] = Unit
HasSessions ((b, d) ∷ calls) =
    (b.type ≡ unicast_binding
      → (device : Device) × (session : ℕ) × (d ≡ some device)
        × (device.secure_session ≡ some session))
    × HasSessions calls

pub BindingType-cases :
    (t : BindingType) → (t ≡ unicast_binding) ⊎ ((t ≡ multicast_binding) ⊎ (t ≡ other_binding))
BindingType-cases unicast_binding = inl refl
BindingType-cases multicast_binding = inr (inl refl)
BindingType-cases other_binding = inr (inr refl)

module _ (lib : BindingLibrary) (c : ConnectionLibrary) (off_on : c.off_id ≢ c.on_id)
    (off_toggle : c.off_id ≢ c.toggle_id) (on_toggle : c.on_id ≢ c.toggle_id) where
  unicast_lem :
      (command : OnOffCommand) (b : BindingTableEntry) (d : Option Device) (s : Bindings)
      → process_on_off_unicast_binding_command c (id_of c command) b d s
        ≡ send_to_device b d command s
  unfolding process_on_off_unicast_binding_command id_of
  unicast_lem off b d s = ground arith
  unicast_lem on b d s = ground arith
  unicast_lem toggle b d s = ground arith

  group_lem :
      (command : OnOffCommand) (b : BindingTableEntry) (s : Bindings)
      → process_on_off_group_binding_command c (id_of c command) b s ≡ send_to_group b command s
  unfolding process_on_off_group_binding_command id_of
  group_lem off b s = ground arith
  group_lem on b s = ground arith
  group_lem toggle b s = ground arith

  module _ (command : OnOffCommand) (address : ℕ) (b : BindingTableEntry) (d : Option Device)
      (s : Bindings) where
    handle_group :
        object_at address s.commands ≡ some (command_data lib c command true)
        → b.type ≡ multicast_binding
        → light_switch_changed_handler lib c b d (some address) s ≡ ret (send_to_group b command s)
    unfolding light_switch_changed_handler command_data
    handle_group live is_multicast =
        rw is_multicast (rw live (rw (group_lem command b s) (ground arith)))

    handle_device :
        object_at address s.commands ≡ some (command_data lib c command false)
        → b.type ≡ unicast_binding
        → light_switch_changed_handler lib c b d (some address) s ≡ send_to_device b d command s
    unfolding light_switch_changed_handler command_data
    handle_device live is_unicast =
        rw is_unicast (rw live (rw (unicast_lem command b d s) (ground arith)))

    pass_group :
        object_at address s.commands ≡ some (command_data lib c command false)
        → b.type ≡ multicast_binding
        → light_switch_changed_handler lib c b d (some address) s ≡ ret s
    unfolding light_switch_changed_handler command_data
    pass_group live is_multicast = rw is_multicast (rw live refl)

    pass_device :
        object_at address s.commands ≡ some (command_data lib c command true)
        → b.type ≡ unicast_binding
        → light_switch_changed_handler lib c b d (some address) s ≡ ret s
    unfolding light_switch_changed_handler command_data
    pass_device live is_unicast = rw is_unicast (rw live refl)

    pass_other :
        b.type ≡ other_binding → light_switch_changed_handler lib c b d (some address) s ≡ ret s
    unfolding light_switch_changed_handler
    pass_other is_other = rw is_other refl

  pub notify_all-Reaches :
      (command : OnOffCommand) (is_group : Bool) (address : ℕ)
      (calls : List (BindingTableEntry × Option Device)) (s : Bindings)
      → object_at address s.commands ≡ some (command_data lib c command is_group)
      → HasSessions calls
      → (sent : List Sent) × Reaches command is_group calls sent
        × (notify_all lib c (some address) calls s ≡ ret (record s { sent = s.sent ++ sent }))
  unfolding notify_all light_switch_changed_handler command_data send_to_device send_to_group
      secure_session
  notify_all-Reaches command is_group address [] s live sessions =
      ([], nothing_bound, rw (append-nil s.sent) refl)
  notify_all-Reaches command true address ((b, d) ∷ calls) s live (session, sessions) =
      elim (BindingType-cases b.type) [
        | inl is_unicast ↦
            let (sent, reached, ran) =
              notify_all-Reaches command true address calls s live sessions in
            (
              sent,
              device_passed b d is_unicast refl reached,
              rw (pass_device command address b d s live is_unicast) ran,
            )
        | inr (inl is_multicast) ↦
            let (sent, reached, ran) =
              notify_all-Reaches command true address calls (send_to_group b command s) live
                sessions in
            (
              to_group b.fabric_index b.group_id command ∷ sent,
              group_reached b d is_multicast refl reached,
              rw (handle_group command address b d s live is_multicast)
                  (ran ∙ rw (append_assoc s.sent) refl),
            )
        | inr (inr is_other) ↦
            let (sent, reached, ran) =
              notify_all-Reaches command true address calls s live sessions in
            (
              sent,
              other_passed b d is_other reached,
              rw (pass_other command address b d s is_other) ran,
            )
      ]
  notify_all-Reaches command false address ((b, d) ∷ calls) s live (session, sessions) =
      elim (BindingType-cases b.type) [
        | inl is_unicast ↦
            let (device, number, given, connected) = session is_unicast in
            let (sent, reached, ran) =
              notify_all-Reaches command false address calls
                (record s { sent = s.sent ++ to_device number b.remote command ∷ [] }) live
                sessions in
            (
              to_device number b.remote command ∷ sent,
              device_reached b d device number is_unicast refl given connected reached,
              rw (handle_device command address b d s live is_unicast) (
                  rw (given, send_to_device)
                    (rw (connected, secure_session) (ran ∙ rw (append_assoc s.sent) refl))),
            )
        | inr (inl is_multicast) ↦
            let (sent, reached, ran) =
              notify_all-Reaches command false address calls s live sessions in
            (
              sent,
              group_passed b d is_multicast refl reached,
              rw (pass_group command address b d s live is_multicast) ran,
            )
        | inr (inr is_other) ↦
            let (sent, reached, ran) =
              notify_all-Reaches command false address calls s live sessions in
            (
              sent,
              other_passed b d is_other reached,
              rw (pass_other command address b d s is_other) ran,
            )
      ]
