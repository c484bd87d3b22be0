-- ===== src/Model/Tests.antt =====
-- The theorems about InteractionModel at concrete inputs.
use matter_hub.Prelude.{
  ℕ, ◌+◌, ◌++◌, ◌⊎◌, ◌≡◌, refl, List, [], ◌∷◌, codes, true, false, Option, none, some,
}
use matter_hub.Outcome.{Outcome, ret, fault, empty_optional}
use matter_hub.Chip.{ChipError, no_error, incorrect_state, no_memory, internal, failed, Device}
use matter_hub.Reports.{ReadPrepareParams, InteractionType, send}
use matter_hub.Reports.Attributes.{attribute_path}
use matter_hub.Reports.Attributes.Requests.{IsRequest}
use matter_hub.Reports.Tests.{sdk, peer, idle}
use matter_hub.Model.Groups.{
  GroupCommand, GroupLibrary, send_group_command, send_group_command_cases,
}
use matter_hub.Model.Answers.{
  InteractionModel, StatusLibrary, Callback, attribute_data, event_data, read_error, read_done,
  command_response, command_done, call_all, answers, shutdown, IsQuiet, call_all-answers,
  shutdown-IsQuiet,
}
use matter_hub.Model.{
  subscribe_attribute, CommandPath, CommandSender, Commands, CommandLibrary, send_command,
  WriteRequest, WriteLibrary, write_attribute,
}
use matter_hub.Model.Requests.{subscribe_attribute_requests, write_attribute_requests}
use matter_hub.Model.Repeats.{Sent, send_command-Sent}
use matter_hub.Interaction.{WriteValue}

-- Every identity names the one device.
abbrev one_device : List ℕ → Option Device
one_device identity = some peer

subscribe_attribute_requests_example :
    (p : ReadPrepareParams) × IsRequest sdk 7
      (1 ∷ [])
      (6 ∷ [])
      (0 ∷ [])
      InteractionType.subscribe
      5
      60
      (some true)
      none
      none
      1
      p
    × (subscribe_attribute sdk one_device (codes "lamp") 1 6 0 5 60 true none none idle
        ≡ ret (send sdk InteractionType.subscribe p idle))
    × (subscribe_attribute sdk one_device (codes "lamp") 1 6 0 5 60 true (some 4) none idle
        ≡ fault empty_optional)
subscribe_attribute_requests_example =
    subscribe_attribute_requests sdk one_device (codes "lamp") peer 7 refl refl 1 6 0 5 60 true none
      4 idle

abbrev writer : WriteLibrary ℕ
writer = record { encode_attribute = λ w. no_error; send_write_request = λ w session. no_error }

write_attribute_requests_example :
    (request : WriteRequest ℕ) × (error : ChipError) × (write_attribute sdk writer one_device
        (codes "lamp")
        1
        6
        0
        9
        none
        (some true)
        (some 4)
        none
      ≡ ret (some request, error))
    × (request.path ≡ attribute_path sdk 6 0 1)
    × (request.value ≡ 9)
    × (request.timeout ≡ none)
    × (request.suppress_response ≡ false)
    × (request.data_version ≡ none)
write_attribute_requests_example =
    write_attribute_requests sdk writer one_device (codes "lamp") peer 7 refl refl 1 6 0 9 none
      (some true) (some 4) none

-- The third sender finds no memory.
abbrev two_fit : List CommandSender → ChipError
two_fit (c ∷ d ∷ cs) = no_memory
two_fit cs = no_error

abbrev commands : CommandLibrary ℕ
commands = record {
  add_request_data = λ cs c value timeout suppress. two_fit cs;
  send_command_request = λ cs c session. no_error;
}

abbrev toggle : CommandPath
toggle = record { endpoint_id = 1; cluster_id = 6; command_id = 2 }

abbrev none_in_flight : Commands
none_in_flight = record { command_senders = []; continued = 0 }

send_command-Sent_example :
    Sent toggle none 3 none_in_flight
      (send_command commands peer toggle 0 none none (some 3) none_in_flight)
send_command-Sent_example =
    send_command-Sent commands peer toggle 0 none none 7 refl 3 none_in_flight

abbrev toggling : CommandSender
toggling = record { path = toggle; is_timed = false }

abbrev two_in_flight : Commands
two_in_flight = record { command_senders = toggling ∷ toggling ∷ []; continued = 0 }

abbrev groups : GroupLibrary ℕ
groups = record {
  has_exchange_manager = true;
  add_request_data = λ command. no_error;
  send_group_command_request = λ command. no_error;
  encode_attribute = λ write. no_error;
  send_write_request = λ write. no_error;
  fabric_index = λ session. session + 1;
}

abbrev to_room : GroupCommand ℕ
to_room = record { group_id = 77; fabric_index = 7 + 1; cluster_id = 6; command_id = 2; value = 0 }

-- The command of the room on the fabric of a session.
abbrev on_session : ℕ → GroupCommand ℕ
on_session session = record to_room { fabric_index = session + 1 }

abbrev sent_to_room : Outcome (List (GroupCommand ℕ) × ChipError)
sent_to_room = send_group_command groups (λ identity. some peer) (codes "lamp") 77 6 2 0 []

send_group_command_cases_example :
    ((some peer ≡ none) × (sent_to_room ≡ ret ([], incorrect_state)))
    ⊎ ((device : Device) × (some peer ≡ some device)
        × (((device.secure_session ≡ none) × (sent_to_room ≡ fault empty_optional))
            ⊎ ((session : ℕ) × (device.secure_session ≡ some session)
                × (((groups.has_exchange_manager ≡ false)
                      × (sent_to_room ≡ ret ([], incorrect_state)))
                    ⊎ (((groups.has_exchange_manager ≡ true)
                          × (failed (groups.add_request_data (on_session session)) ≡ true)
                          × (sent_to_room ≡ ret ([], groups.add_request_data (on_session session))))
                        ⊎ ((groups.has_exchange_manager ≡ true)
                            × (failed (groups.add_request_data (on_session session)) ≡ false)
                            × (sent_to_room
                                ≡ ret (
                                  [] ++ on_session session ∷ [],
                                  groups.send_group_command_request (on_session session),
                                ))))))))
send_group_command_cases_example =
    send_group_command_cases groups (λ identity. some peer) (codes "lamp") 77 6 2 0 []

abbrev statuses : StatusLibrary ℕ
statuses = record { default_status = 0; status_of = λ e. 1 }

abbrev busy : InteractionModel ℕ ℕ ℕ
busy = record {
  reports = record {
    read_clients = record { address = 8; interaction_type = InteractionType.read } ∷ [];
    requests = [];
  };
  commands = record {
    command_senders =
        record {
          path = record { endpoint_id = 1; cluster_id = 6; command_id = 2 };
          is_timed = false;
        }
        ∷ [];
    continued = 0;
  };
  write_client = none;
  responses = [];
}

abbrev callbacks : List (Callback ℕ ℕ)
callbacks =
    attribute_data (some 5) 4
    ∷ event_data (some 6) none
    ∷ read_error internal
    ∷ read_done 8
    ∷ command_response 3 none
    ∷ command_done
    ∷ []

call_all-answers_example :
    (call_all statuses callbacks busy).responses ≡ [] ++ answers statuses callbacks
call_all-answers_example = call_all-answers statuses callbacks busy

shutdown-IsQuiet_example : IsQuiet statuses (call_all statuses callbacks (shutdown statuses busy))
shutdown-IsQuiet_example = shutdown-IsQuiet statuses callbacks busy

-- An SDK that refuses to encode every write.
abbrev no_writer : WriteLibrary (WriteValue ℕ)
no_writer = record { encode_attribute = λ w. internal; send_write_request = λ w session. no_error }
