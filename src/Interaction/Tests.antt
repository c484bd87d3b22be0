-- ===== src/Interaction/Tests.antt =====
-- The theorems about interactions at concrete inputs.
use matter_hub.Prelude.{List, ◌++◌, ℕ, ◌≡◌, refl, [], ◌∷◌, true, false, ◌==◌, none, some}
use matter_hub.Outcome.{ret, fault, dangling_pointer}
use matter_hub.Chip.{no_error}
use matter_hub.Interaction.{
  WriteValue, reading, Work, ConnectionLibrary, request_connection, no_reports,
}
use matter_hub.Interaction.Callbacks.{
  ReportedPath, Listener, Report, attribute_report, receive_all, good, given, this,
}
use matter_hub.Interaction.Callbacks.Received.{receive_all-good}
use matter_hub.Heap.{object_at}
use matter_hub.Interaction.Failures.{
  connection_helper, command_data, Connections, run_worker, on_connection_request_failure,
  failed_connection_dangles,
}

-- A fabric table with the fabrics 1 and 2, whose peers have the ids of their nodes.
abbrev pub table : ConnectionLibrary
table = record {
  peer_id_for_node = λ fabric node. elim (fabric == 1) [ true ↦ some node | false ↦ none ];
  undefined_node_id = 0;
  off_id = 0;
  on_id = 1;
  toggle_id = 2;
}

abbrev kept : WriteValue ℕ → WriteValue ℕ
kept v = v

abbrev lamp : Work ℕ
lamp = record { fabric_id = 1; node_id = 333; interaction = reading 1 6 0 }

-- Three reports, of which the second has no data.
abbrev lamp_path : ReportedPath
lamp_path = record { endpoint_id = 1; cluster_id = 6; attribute_id = 0 }

abbrev reports : List (Report ℕ)
reports =
    attribute_report lamp_path (some 1) no_error
    ∷ attribute_report lamp_path none no_error
    ∷ attribute_report lamp_path (some 0) no_error
    ∷ []

abbrev listener : Listener ℕ ℕ
listener = record {
  error = no_error;
  callback = some 4;
  context = none;
  calls = [];
  reports = no_reports;
  is_deleted = false;
}

receive_all-good_example :
    ((c : ℕ)
      → listener.context ≡ some c
      → (receive_all reports listener).calls ≡ [] ++ good 4 (given c) reports)
    × (listener.context ≡ none → (receive_all reports listener).calls ≡ [] ++ good 4 this reports)
receive_all-good_example = receive_all-good reports 4 listener refl

-- The ConnectionHelper at 1, and the data of a command for node 333 at 2.
abbrev to_333 : Work ℕ
to_333 = record { fabric_id = 1; node_id = 333; interaction = reading 1 6 0 }

abbrev both_live : Connections ℕ
both_live = record {
  live = (1, connection_helper) ∷ (2, command_data to_333) ∷ [];
  sessions = [];
  released = [];
}

helper_live : object_at 1 both_live.live ≡ some connection_helper
unfolding object_at
helper_live = refl

command_live : object_at 2 both_live.live ≡ some (command_data to_333)
unfolding object_at
command_live = refl

peer_333 : request_connection table to_333 ≡ (some 333, no_error)
unfolding request_connection
peer_333 = refl

failed_connection_dangles_example :
    (asked : Connections ℕ) × (run_worker table 1 (some 2) both_live ≡ ret asked)
    × (asked.sessions ≡ [] ++ (333, 2, 1) ∷ [])
    × (object_at 1 (on_connection_request_failure 1 333 asked).live ≡ none)
    × (object_at 2 (on_connection_request_failure 1 333 asked).live ≡ some (command_data to_333))
    × (run_worker table 1 (some 2) (on_connection_request_failure 1 333 asked)
        ≡ fault dangling_pointer)
failed_connection_dangles_example =
    failed_connection_dangles table 1 2 2 333 to_333 both_live helper_live command_live peer_333
