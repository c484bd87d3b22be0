-- ===== src/Reports/Events.antt =====
-- InteractionModelReports::ReportEvent of src/main/InteractionModel.cpp, with the calls that
-- src/main/include/InteractionModel.h makes of it.
pub mod Requests
use matter_hub.Prelude.{
  ℕ, ◌+◌, List, [], length, replicate, Bool, true, false, ◌&&◌, ◌||◌, Option, none, some, ltb, leb,
  ◌==◌, if◌then◌else◌,
}
use matter_hub.Outcome.{Outcome, ret, ◌>>=◌, at, store, for_range}
use matter_hub.Chip.{ChipError, invalid_argument, Device}
use matter_hub.Reports.{
  ReportLibrary, Reports, InteractionType, read, subscribe, EventPathParams, ReadPrepareParams,
  max_allowed_paths, set_fabric_filtered, set_intervals, send, secure_session,
}

pub record EventCounts : Type 0 where
  pub clusters : ℕ
  pub events : ℕ
  pub endpoints : ℕ

in_range : ℕ → Bool
in_range n = ltb 0 n && leb n max_allowed_paths

unfoldable pub event_counts_in_range : EventCounts → Bool
unfolding in_range
event_counts_in_range c = in_range c.clusters && in_range c.events && in_range c.endpoints

pub same_ids_count : EventCounts → Bool
same_ids_count c = c.clusters == c.events && c.clusters == c.endpoints

pub several_clusters : EventCounts → Bool
several_clusters c = ltb 1 c.clusters && c.events == 1 && c.endpoints == 1

pub several_events : EventCounts → Bool
several_events c = ltb 1 c.events && c.clusters == 1 && c.endpoints == 1

pub several_endpoints : EventCounts → Bool
several_endpoints c = ltb 1 c.endpoints && c.clusters == 1 && c.events == 1

unfoldable pub event_paths_count : EventCounts → Option ℕ
unfolding same_ids_count several_clusters several_events several_endpoints
event_paths_count c =
    if same_ids_count c
    then some c.clusters
    else if several_clusters c
    then some c.clusters
    else if several_events c
    then some c.events
    else if several_endpoints c
    then some c.endpoints
    else none

pub event_path : ReportLibrary → ℕ → ℕ → ℕ → EventPathParams
event_path lib cluster_id event_id endpoint_id = record {
  cluster_id =
      if cluster_id == lib.invalid_cluster_id
      then lib.default_event_path.cluster_id
      else cluster_id;
  event_id = if event_id == lib.invalid_event_id then lib.default_event_path.event_id else event_id;
  endpoint_id =
      if endpoint_id == lib.invalid_endpoint_id
      then lib.default_event_path.endpoint_id
      else endpoint_id;
}

module _ (lib : ReportLibrary) (c : EventCounts) (endpoint_ids cluster_ids event_ids : List ℕ) where
  pub event_step : ℕ → List EventPathParams → Outcome (List EventPathParams)
  unfolding same_ids_count several_clusters several_events several_endpoints
  event_step i paths = do
    cluster_id ← at cluster_ids (if same_ids_count c || several_clusters c then i else 0)
    event_id ← at event_ids (if same_ids_count c || several_events c then i else 0)
    endpoint_id ← at endpoint_ids (if same_ids_count c || several_endpoints c then i else 0)
    store paths i (event_path lib cluster_id event_id endpoint_id)

  pub fill_event_paths : ℕ → Outcome (List EventPathParams)
  fill_event_paths n = for_range n 0 event_step (replicate max_allowed_paths lib.default_event_path)

pub event_params :
    ReadPrepareParams → List EventPathParams → ℕ → Option Bool → Option ℕ → ReadPrepareParams
unfolding set_fabric_filtered
event_params p paths n fabric_filtered event_number =
    set_fabric_filtered fabric_filtered (record p {
      event_path_params_list = some paths;
      event_path_params_list_size = n;
      event_number = event_number;
      attribute_path_params_list = none;
      attribute_path_params_list_size = 0;
    })

abbrev pub event_counts : List ℕ → List ℕ → List ℕ → EventCounts
event_counts endpoint_ids cluster_ids event_ids = record {
  clusters = length cluster_ids;
  events = length event_ids;
  endpoints = length endpoint_ids;
}

module _ (lib : ReportLibrary) (d : Device) (endpoint_ids cluster_ids event_ids : List ℕ) where
  pub report_event :
      InteractionType
      → ℕ
      → ℕ
      → Option Bool
      → Option ℕ
      → Option Bool
      → Reports
      → Outcome (Reports × ChipError)
  unfolding event_counts_in_range event_paths_count
  report_event type min_interval max_interval fabric_filtered event_number keep r =
      let c = event_counts endpoint_ids cluster_ids event_ids in
      if event_counts_in_range c
      then elim (event_paths_count c) [
        | none ↦ ret (r, invalid_argument)
        | some n ↦ do
          paths ← fill_event_paths lib c endpoint_ids cluster_ids event_ids n
          session ← secure_session d
          ret (
              send lib type
                (set_intervals type min_interval max_interval keep
                  (event_params (lib.prepare_params session) paths n fabric_filtered event_number))
                r)
      ]
      else ret (r, invalid_argument)

  -- The members ReadEvent and SubscribeEvent of the same class.
  unfoldable pub read_event : Option Bool → Option ℕ → Reports → Outcome (Reports × ChipError)
  unfolding report_event
  read_event fabric_filtered event_number = report_event read 0 0 fabric_filtered event_number none

  unfoldable pub subscribe_event :
      ℕ → ℕ → Option Bool → Option ℕ → Option Bool → Reports → Outcome (Reports × ChipError)
  unfolding report_event
  subscribe_event min_interval max_interval fabric_filtered event_number keep =
      report_event subscribe min_interval max_interval fabric_filtered event_number keep
