-- ===== src/Reports/Tests.antt =====
-- A concrete Matter SDK, and the theorems about read and subscribe requests at concrete inputs.
use matter_hub.Prelude.{ℕ, ◌+◌, ◌<◌, ◌≤◌, ◌≡◌, refl, List, [], ◌∷◌, true, false, none, some, arith}
use matter_hub.Outcome.{ret}
use matter_hub.Chip.{no_error, invalid_argument, Device}
use matter_hub.Reports.{
  ReportLibrary, Reports, ReadPrepareParams, ReadClient, read, subscribe, AttributePathParams,
  EventPathParams, send,
}
use matter_hub.Reports.Attributes.{counts, counts_in_range, paths_count, report_attribute}
use matter_hub.Reports.Attributes.Requests.{
  IsRequest, clusters_endpoints, report_attribute-IsRequest, report_attribute_refuses,
}
use matter_hub.Reports.Events.{event_counts, event_counts_in_range, event_paths_count, report_event}
use matter_hub.Reports.Events.Requests.{IsEventRequest, report_event-IsEventRequest}
use matter_hub.Reports.Clients.{holds, IsFresh, ReportCall, sends, cleans_up}

-- An address above all that are in use.
abbrev pub next_address : List ReadClient → ℕ
next_address [] = 1
next_address (c ∷ cs) = c.address + next_address cs

holds_above : (b : ℕ) (cs : List ReadClient) → next_address cs ≤ b → holds b cs ≡ false
holds_above b [] h = refl
holds_above b (c ∷ cs) h = ground (arith, holds_above b cs, next_address_pos cs)
  where
    next_address_pos : (cs : List ReadClient) → 0 < next_address cs
    next_address_pos [] = omega arith
    next_address_pos (c ∷ cs) = omega (arith, next_address_pos cs)

abbrev any_path : AttributePathParams
any_path = record { cluster_id = 4294967295; attribute_id = 4294967295; endpoint_id = 65535 }

abbrev any_event : EventPathParams
any_event = record { cluster_id = 4294967295; event_id = 4294967295; endpoint_id = 65535 }

abbrev blank : ℕ → ReadPrepareParams
blank session = record {
  session = session;
  event_path_params_list = none;
  event_path_params_list_size = 0;
  event_number = none;
  attribute_path_params_list = none;
  attribute_path_params_list_size = 0;
  is_fabric_filtered = true;
  data_version_filter_list = none;
  data_version_filter_list_size = 0;
  min_interval_floor_seconds = 0;
  max_interval_ceiling_seconds = 0;
  keep_subscriptions = false;
}

abbrev pub sdk : ReportLibrary
sdk = record {
  invalid_cluster_id = 4294967295;
  invalid_attribute_id = 4294967295;
  invalid_event_id = 4294967295;
  invalid_endpoint_id = 65535;
  default_attribute_path = any_path;
  default_event_path = any_event;
  default_filter = record { endpoint_id = 65535; cluster_id = 4294967295; data_version = none };
  prepare_params = blank;
  prepared_session = λ session. refl;
  new_address = next_address;
  send_request = λ p. no_error;
}

sdk-IsFresh : IsFresh sdk
sdk-IsFresh cs = holds_above (next_address cs) cs (omega arith)

abbrev pub peer : Device
peer = record { node_id = 333; secure_session = some 7 }

abbrev pub idle : Reports
idle = record { read_clients = []; requests = [] }

two_endpoints_fit : paths_count (counts (1 ∷ 2 ∷ []) (6 ∷ []) (0 ∷ []) none) ≡ some 2
unfolding paths_count
two_endpoints_fit = refl

two_endpoints_in_range : counts_in_range (counts (1 ∷ 2 ∷ []) (6 ∷ []) (0 ∷ []) none) ≡ true
unfolding counts_in_range
two_endpoints_in_range = refl

report_attribute-IsRequest_example :
    (p : ReadPrepareParams) × IsRequest sdk 7
      (1 ∷ 2 ∷ [])
      (6 ∷ [])
      (0 ∷ [])
      subscribe
      1
      10
      (some true)
      none
      none
      2
      p
    × (report_attribute sdk peer
          (1 ∷ 2 ∷ [])
          (6 ∷ [])
          (0 ∷ [])
          subscribe
          1
          10
          (some true)
          none
          none
          idle
        ≡ ret (send sdk subscribe p idle))
report_attribute-IsRequest_example =
    report_attribute-IsRequest sdk peer (1 ∷ 2 ∷ []) (6 ∷ []) (0 ∷ []) subscribe 1 10 (some true)
      none none idle 2 7 two_endpoints_in_range two_endpoints_fit tt refl

report_attribute_refuses_example :
    report_attribute sdk peer (1 ∷ 2 ∷ []) (6 ∷ 8 ∷ 29 ∷ []) (0 ∷ []) read 0 0 none none none idle
    ≡ ret (idle, invalid_argument)
report_attribute_refuses_example =
    report_attribute_refuses sdk peer (1 ∷ 2 ∷ []) (6 ∷ 8 ∷ 29 ∷ []) (0 ∷ []) read 0 0 none none
      none idle (clusters_endpoints (omega arith) (omega arith) (omega arith))

two_events_fit : event_paths_count (event_counts (1 ∷ []) (6 ∷ []) (0 ∷ 1 ∷ [])) ≡ some 2
unfolding event_paths_count
two_events_fit = refl

two_events_in_range : event_counts_in_range (event_counts (1 ∷ []) (6 ∷ []) (0 ∷ 1 ∷ [])) ≡ true
unfolding event_counts_in_range
two_events_in_range = refl

report_event-IsEventRequest_example :
    (p : ReadPrepareParams) × IsEventRequest sdk 7
      (1 ∷ [])
      (6 ∷ [])
      (0 ∷ 1 ∷ [])
      read
      0
      0
      none
      (some 5)
      none
      2
      p
    × (report_event sdk peer (1 ∷ []) (6 ∷ []) (0 ∷ 1 ∷ []) read 0 0 none (some 5) none idle
        ≡ ret (send sdk read p idle))
report_event-IsEventRequest_example =
    report_event-IsEventRequest sdk peer (1 ∷ []) (6 ∷ []) (0 ∷ 1 ∷ []) read 0 0 none (some 5) none
      idle 2 7 two_events_in_range two_events_fit refl

abbrev busy : Reports
busy = record { read_clients = record { address = 4; interaction_type = read } ∷ []; requests = [] }

abbrev calls : List ReportCall
calls = sends read (blank 7) ∷ cleans_up 4 ∷ sends subscribe (blank 7) ∷ []
