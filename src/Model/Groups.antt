-- ===== src/Model/Groups.antt =====
-- src/main/include/InteractionModel.h: commands and writes to a group, and commands by identity.
use matter_hub.Prelude.{
  ℕ, ◌≡◌, refl, ◌⊎◌, inl, inr, List, [], ◌∷◌, ◌++◌, Bool, true, false, Option, none, some,
  Bool-cases, Option-cases,
}
use matter_hub.Outcome.{Outcome, ret, fault, empty_optional, ◌>>=◌}
use matter_hub.Chip.{ChipError, incorrect_state, Device, failed}
use matter_hub.Reports.{ReportLibrary, AttributePathParams, secure_session}
use matter_hub.Reports.Attributes.{attribute_path}
use matter_hub.Model.{CommandPath, Commands, CommandLibrary, send_command}

-- The path of a command to a group, the fabric of its session, and the value.
pub record GroupCommand (V : Type 0) : Type 0 where
  pub group_id : ℕ
  pub fabric_index : ℕ
  pub cluster_id : ℕ
  pub command_id : ℕ
  pub value : V

pub record GroupWrite (V : Type 0) : Type 0 where
  pub group_id : ℕ
  pub fabric_index : ℕ
  pub path : AttributePathParams
  pub value : V
  pub data_version : Option ℕ

-- Whether the engine has an exchange manager, the answers of AddRequestData, EncodeAttribute and
-- the two requests, and the fabric of a session.
pub record GroupLibrary (V : Type 0) : Type 0 where
  pub has_exchange_manager : Bool
  pub add_request_data : GroupCommand V → ChipError
  pub send_group_command_request : GroupCommand V → ChipError
  pub encode_attribute : GroupWrite V → ChipError
  pub send_write_request : GroupWrite V → ChipError
  pub fabric_index : ℕ → ℕ

module _ {V : Type 0} (lib : GroupLibrary V) where
  -- InteractionModelCommands::SendGroupCommand, with the requests that went out.
  pub commands_send_group_command :
      GroupCommand V → List (GroupCommand V) → List (GroupCommand V) × ChipError
  unfolding failed
  commands_send_group_command command sent = elim lib.has_exchange_manager [
    | false ↦ (sent, incorrect_state)
    | true ↦ elim (failed (lib.add_request_data command)) [
      | true ↦ (sent, lib.add_request_data command)
      | false ↦ (sent ++ command ∷ [], lib.send_group_command_request command)
    ]
  ]

  -- InteractionModelWriter::WriteGroupAttribute
  pub writer_write_group_attribute :
      GroupWrite V → List (GroupWrite V) → List (GroupWrite V) × ChipError
  unfolding failed
  writer_write_group_attribute write sent = elim lib.has_exchange_manager [
    | false ↦ (sent, incorrect_state)
    | true ↦ elim (failed (lib.encode_attribute write)) [
      | true ↦ (sent, lib.encode_attribute write)
      | false ↦ (sent ++ write ∷ [], lib.send_write_request write)
    ]
  ]

  module _ (get_device : List ℕ → Option Device) (identity : List ℕ) where
    -- InteractionModel::SendGroupCommand
    pub send_group_command :
        ℕ → ℕ → ℕ → V → List (GroupCommand V) → Outcome (List (GroupCommand V) × ChipError)
    unfolding secure_session commands_send_group_command
    send_group_command group_id cluster_id command_id value sent = elim (get_device identity) [
      | none ↦ ret (sent, incorrect_state)
      | some device ↦ do
        session ← secure_session device
        let command : GroupCommand V = record {
          group_id = group_id;
          fabric_index = lib.fabric_index session;
          cluster_id = cluster_id;
          command_id = command_id;
          value = value;
        }
        ret (commands_send_group_command command sent)
    ]

    -- InteractionModel::WriteGroupAttribute; the endpoint of the path stays at its default.
    pub write_group_attribute :
        ReportLibrary
        → ℕ
        → ℕ
        → ℕ
        → V
        → Option ℕ
        → List (GroupWrite V)
        → Outcome (List (GroupWrite V) × ChipError)
    unfolding secure_session writer_write_group_attribute
    write_group_attribute reports group_id cluster_id attribute_id value data_version sent =
        elim (get_device identity) [
          | none ↦ ret (sent, incorrect_state)
          | some device ↦ do
            session ← secure_session device
            let write : GroupWrite V = record {
              group_id = group_id;
              fabric_index = lib.fabric_index session;
              path = attribute_path reports cluster_id attribute_id reports.invalid_endpoint_id;
              value = value;
              data_version = data_version;
            }
            ret (writer_write_group_attribute write sent)
        ]

-- InteractionModel::SendCommand, which sends once.
pub send_command_by_identity :
    {V : Type 0}
    → CommandLibrary V
    → (List ℕ → Option Device)
    → List ℕ
    → CommandPath
    → V
    → Option ℕ
    → Option Bool
    → Commands
    → Outcome (Commands × ChipError)
unfolding send_command
send_command_by_identity lib get_device identity path value timeout suppress s =
    elim (get_device identity) [
      | none ↦ ret (s, incorrect_state)
      | some device ↦ send_command lib device path value timeout suppress none s
    ]

module _ {V : Type 0} (lib : GroupLibrary V) (get_device : List ℕ → Option Device)
    (identity : List ℕ) (group_id cluster_id command_id : ℕ) (value : V)
    (sent : List (GroupCommand V)) where
  abbrev command_of : ℕ → GroupCommand V
  command_of session = record {
    group_id = group_id;
    fabric_index = lib.fabric_index session;
    cluster_id = cluster_id;
    command_id = command_id;
    value = value;
  }

  -- A group command by identity ends in one of five ways, each exactly under its conditions. For an
  -- unknown device it answers the error of an incorrect state and sends nothing; for a device without
  -- a session it aborts; without an exchange manager it answers the error of an incorrect state and
  -- sends nothing; if the request's data is refused it answers that error and sends nothing; and
  -- otherwise exactly one request goes out, to the group, on the fabric of the device's session, with
  -- the cluster, the command and the value, and the result is the answer to it.
  pub send_group_command_cases :
      ((get_device identity ≡ none)
        × (send_group_command lib get_device identity group_id cluster_id command_id value sent
            ≡ ret (sent, incorrect_state)))
      ⊎ ((device : Device) × (get_device identity ≡ some device)
          × (((device.secure_session ≡ none)
                × (send_group_command lib get_device identity group_id cluster_id command_id value
                      sent
                    ≡ fault empty_optional))
              ⊎ ((session : ℕ) × (device.secure_session ≡ some session)
                  × (((lib.has_exchange_manager ≡ false)
                        × (send_group_command lib get_device identity group_id cluster_id command_id
                              value sent
                            ≡ ret (sent, incorrect_state)))
                      ⊎ (((lib.has_exchange_manager ≡ true)
                            × (failed (lib.add_request_data (command_of session)) ≡ true)
                            × (send_group_command lib get_device identity group_id cluster_id
                                  command_id value sent
                                ≡ ret (sent, lib.add_request_data (command_of session))))
                          ⊎ ((lib.has_exchange_manager ≡ true)
                              × (failed (lib.add_request_data (command_of session)) ≡ false)
                              × (send_group_command lib get_device identity group_id cluster_id
                                    command_id value sent
                                  ≡ ret (
                                    sent ++ command_of session ∷ [],
                                    lib.send_group_command_request (command_of session),
                                  ))))))))
  unfolding send_group_command commands_send_group_command secure_session failed
  send_group_command_cases = elim (Option-cases (get_device identity)) [
    | inl unknown ↦ inl (unknown, rw (unknown, send_group_command) refl)
    | inr (device, known) ↦ elim (Option-cases device.secure_session) [
      | inl apart ↦ inr (
        device,
        known,
        inl (apart, rw (known, send_group_command) (rw (apart, secure_session) refl)),
      )
      | inr (session, connected) ↦ elim (Bool-cases lib.has_exchange_manager) [
        | inr without ↦ inr (
          device,
          known,
          inr (
            session,
            connected,
            inl (
              without,
              rw (known, send_group_command)
                  (rw (connected, secure_session) (rw (without, commands_send_group_command) refl)),
            ),
          ),
        )
        | inl with_one ↦ elim (Bool-cases (failed (lib.add_request_data (command_of session)))) [
          | inl refused ↦ inr (
            device,
            known,
            inr (
              session,
              connected,
              inr (
                  inl (
                    with_one,
                    refused,
                    rw (known, send_group_command)
                        (rw (connected, secure_session)
                          (rw (with_one, commands_send_group_command)
                            (rw (refused, commands_send_group_command) refl))),
                  )),
            ),
          )
          | inr added ↦ inr (
            device,
            known,
            inr (
              session,
              connected,
              inr (
                  inr (
                    with_one,
                    added,
                    rw (known, send_group_command)
                        (rw (connected, secure_session)
                          (rw (with_one, commands_send_group_command)
                            (rw (added, commands_send_group_command) refl))),
                  )),
            ),
          )
        ]
      ]
    ]
  ]
