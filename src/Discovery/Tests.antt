-- ===== src/Discovery/Tests.antt =====
-- A concrete device, and the theorems about discoveries at concrete inputs.
use matter_hub.Prelude.{
  ℕ, ◌+◌, ◌^◌, ◌<◌, ◌≤◌, suc, ◌≡◌, refl, ◌≢◌, inl, [], ◌∷◌, length, true, false, none, some, ◌==◌,
  if◌then◌else◌, arith,
}
use matter_hub.Prelude.Int.{pos, negsuc, to_unsigned}
use matter_hub.Outcome.{ret, fault, end_iterator, ◌>>=◌}
use matter_hub.OrderedMap.{find, first_key}
use matter_hub.OrderedMap.Ids.{elem, emplace_all}
use matter_hub.Chip.{no_error}
use matter_hub.Reports.{ReadPrepareParams}
use matter_hub.Reports.Tests.{sdk, peer}
use matter_hub.Heap.{object_at}
use matter_hub.Interaction.{peer_id_for_node}
use matter_hub.Interaction.Tests.{table}
use matter_hub.Mqtt.{Manager}
use matter_hub.Discovery.{
  part_list_read, server_list_read, new_endpoint, call_back, endpoint_at,
  on_part_list_read_callback, DescriptionManager, reads, publishes, DiscoveryLibrary,
  new_description_manager,
}
use matter_hub.Discovery.Walk.{run, sent, read_attribute_sends}
use matter_hub.Discovery.Steps.{Answers}
use matter_hub.Discovery.Described.{readings, IsDescription, discovery-IsDescription}
use matter_hub.Discovery.Commands.{
  Discovery, DescribeLibrary, empty_manager, first_reading, manager_starts,
}
use matter_hub.Discovery.WellFormed.{IsSound}
use matter_hub.Discovery.Invariant.{started, called, Reachable-IsWellFormed}
use matter_hub.Discovery.Empty.{discovery_faults}
use matter_hub.Discovery.Birth.{BirthLibrary, int_array, int_array_cases}

abbrev pub ids : DiscoveryLibrary
ids = record {
  reports = sdk;
  descriptor_id = 29;
  parts_list_id = 3;
  server_list_id = 1;
  attribute_list_id = 65531;
  accepted_command_list_id = 65529;
}

-- A device with two endpoints, the second of which it names twice.
abbrev pub house : Answers
house e k a =
    if e == 0
    then 2 ∷ 1 ∷ 2 ∷ []
    else if a == 1
    then (if e == 1 then 29 ∷ 6 ∷ [] else 29 ∷ [])
    else if a == 65531
    then 0 ∷ 16384 ∷ []
    else 1 ∷ 2 ∷ []

pub some_part : house 0 29 3 ≢ []
some_part h = cc

pub some_server : (e : ℕ) → elem e (2 ∷ 1 ∷ 2 ∷ []) ≡ true → house e 29 1 ≢ []
some_server e h nil = ground arith

pub accepted : (p : ReadPrepareParams) → sdk.send_request p ≡ no_error
accepted p = refl

discovery-IsDescription_example :
    (m : DescriptionManager) × ((new_description_manager ids peer
        >>= run ids house (1 + readings m.endpoints))
      ≡ ret (publishes m))
    × IsDescription ids house m.endpoints
    × (m.device ≡ peer)
discovery-IsDescription_example =
    discovery-IsDescription ids house peer 7 refl accepted some_part some_server

abbrev bare : Answers
bare e k a = []

discovery_faults_example :
    (n : ℕ) × ((new_description_manager ids peer >>= run ids bare n) ≡ fault end_iterator)
discovery_faults_example = discovery_faults ids bare peer 7 refl accepted (inl refl)

abbrev pub births : BirthLibrary
births = record { print = λ b. b.seq ∷ b.timestamp ∷ []; hub_id = pos 3 }

abbrev pub online : Manager ℕ
online = record {
  initialised = true;
  connected = true;
  topic_callbacks = [];
  stored_commands = [];
  calls = [];
  freed = [];
}

int_array_cases_example :
    (4294049777 < 2 ^ 31 → int_array (4294049777 ∷ []) ≡ pos 4294049777 ∷ [])
    × (2 ^ 31 ≤ 4294049777
        → (n : ℕ) × (int_array (4294049777 ∷ []) ≡ negsuc n ∷ []) × (4294049777 + suc n ≡ 2 ^ 32))
int_array_cases_example = int_array_cases 4294049777 (omega arith)

-- Every word is read as 1, and new objects stand above the others.
abbrev pub shell : DescribeLibrary
shell = record { new_address = λ os. length os + 1; atoi = λ s. pos 1 }

abbrev pub quiet : Discovery
quiet = record { objects = []; queue = []; sessions = []; managers = [] }

pub quiet_fresh : object_at 1 quiet.objects ≡ none
unfolding object_at
quiet_fresh = refl

pub one_known :
    (peer_id_for_node table (to_unsigned 64 (pos 1)) (to_unsigned 64 (pos 1)) == 0) ≡ false
unfolding peer_id_for_node to_unsigned
one_known = refl

abbrev begun : DescriptionManager
begun = record (empty_manager ids peer 7 refl accepted) {
  last_sub = some (first_reading ids peer 7 refl accepted);
}

-- The manager after its first answer.
abbrev with_parts : DescriptionManager
with_parts = record begun {
  endpoints = (1, new_endpoint 1) ∷ (2, new_endpoint 2) ∷ [];
  current_endpoint = some 1;
  last_sub = some (sent ids peer 7 refl accepted 1 29 1 server_list_read);
}

parts_called : call_back ids part_list_read (2 ∷ 1 ∷ []) begun ≡ ret (reads with_parts)
unfolding call_back on_part_list_read_callback emplace_all first_key endpoint_at find
parts_called =
    rw
      (read_attribute_sends ids peer 7 refl accepted 1 29 1 server_list_read
        (record begun {
          endpoints = (1, new_endpoint 1) ∷ (2, new_endpoint 2) ∷ [];
          current_endpoint = some 1;
        })
        refl)
      refl

Reachable-IsWellFormed_example : IsSound with_parts
Reachable-IsWellFormed_example = Reachable-IsWellFormed ids (reads with_parts) (
    called part_list_read (2 ∷ 1 ∷ []) (reads begun) (reads with_parts)
      (started peer (reads begun) (manager_starts ids peer 7 refl accepted)) parts_called)
