-- ===== src/Reports/Events/Requests.antt =====
-- ReportEvent: the loop has no index out of range, every path of the request has the ids that
-- belong to it, and a refused call changes nothing.
use matter_hub.Prelude.{
  ℕ, ◌+◌, ◌<◌, ◌≤◌, ◌≡◌, ◌∙◌, ◌⊎◌, List, length, get_elem?, set, length-set, length-replicate,
  get_elem?-set_self, get_elem?-set_ne, Bool, true, false, ◌||◌, Option, none, some, arith,
  below_suc,
}
use matter_hub.Outcome.{ret, for_range_lem}
use matter_hub.Chip.{Device}
use matter_hub.Reports.{
  ReportLibrary, Reports, ReadPrepareParams, InteractionType, subscribe, EventPathParams,
  max_allowed_paths, set_intervals, send, secure_session,
}
use matter_hub.Reports.Attributes.Broadcast.{Written, broadcast, broadcast-index, store_lem}
use matter_hub.Reports.Events.{
  EventCounts, event_counts, event_counts_in_range, event_paths_count, same_ids_count,
  several_clusters, several_events, several_endpoints, event_path, event_step, fill_event_paths,
  event_params, report_event,
}

module _ (c : EventCounts) (n : ℕ) (e : event_paths_count c ≡ some n) where
  clusters_index :
      ((same_ids_count c || several_clusters c ≡ true) × (c.clusters ≡ n))
      ⊎ ((same_ids_count c || several_clusters c ≡ false) × (c.clusters ≡ 1))
  unfolding event_paths_count
  clusters_index = ground arith

  events_index :
      ((same_ids_count c || several_events c ≡ true) × (c.events ≡ n))
      ⊎ ((same_ids_count c || several_events c ≡ false) × (c.events ≡ 1))
  unfolding event_paths_count
  events_index = ground arith

  endpoints_index :
      ((same_ids_count c || several_endpoints c ≡ true) × (c.endpoints ≡ n))
      ⊎ ((same_ids_count c || several_endpoints c ≡ false) × (c.endpoints ≡ 1))
  unfolding event_paths_count
  endpoints_index = ground arith

  event_paths_count-le : event_counts_in_range c ≡ true → n ≤ max_allowed_paths
  unfolding event_paths_count event_counts_in_range
  event_paths_count-le h = ground arith

-- A path names a cluster, an event and an endpoint.
pub record NamesEvent (lib : ReportLibrary) (c v e : ℕ) (path : EventPathParams) : Type 0 where
  pub cluster : Written lib.invalid_cluster_id lib.default_event_path.cluster_id c path.cluster_id
  pub event : Written lib.invalid_event_id lib.default_event_path.event_id v path.event_id
  pub endpoint :
      Written lib.invalid_endpoint_id lib.default_event_path.endpoint_id e path.endpoint_id

event_path-NamesEvent :
    (lib : ReportLibrary) (c v e : ℕ) → NamesEvent lib c v e (event_path lib c v e)
unfolding event_path
event_path-NamesEvent lib c v e = record {
  cluster = (λ h. ground arith, λ h. ground arith);
  event = (λ h. ground arith, λ h. ground arith);
  endpoint = (λ h. ground arith, λ h. ground arith);
}

module _ (lib : ReportLibrary) (endpoint_ids cluster_ids event_ids : List ℕ) (n : ℕ)
    (room : n ≤ max_allowed_paths)
    (accepted : event_paths_count (event_counts endpoint_ids cluster_ids event_ids) ≡ some n) where
  abbrev request_counts : EventCounts
  request_counts = event_counts endpoint_ids cluster_ids event_ids

  -- Path `j` has the ids that belong to `j`.
  abbrev EventPathAt : List EventPathParams → ℕ → Type 0
  EventPathAt paths j =
      (c v e : ℕ) × (broadcast cluster_ids j ≡ some c)
      × (broadcast event_ids j ≡ some v)
      × (broadcast endpoint_ids j ≡ some e)
      × (path : EventPathParams) × (get_elem? paths j ≡ some path)
      × NamesEvent lib c v e path

  abbrev EventFilled : ℕ → List EventPathParams → Type 0
  EventFilled k paths = (length paths ≡ max_allowed_paths) × ((j : ℕ) → j < k → EventPathAt paths j)

  event_step-EventFilled :
      (k : ℕ) (s : List EventPathParams)
      → k < n
      → EventFilled k s
      → (t : List EventPathParams) × (event_step lib request_counts endpoint_ids cluster_ids
            event_ids k s
          ≡ ret t)
        × EventFilled (k + 1) t
  unfolding event_step
  event_step-EventFilled k paths lt (len_paths, before) =
      let (c, read_c, at_c) =
        broadcast-index cluster_ids _ n k lt (clusters_index request_counts n accepted) in
      let (v, read_v, at_v) =
        broadcast-index event_ids _ n k lt (events_index request_counts n accepted) in
      let (e, read_e, at_e) =
        broadcast-index endpoint_ids _ n k lt (endpoints_index request_counts n accepted) in
      let path : EventPathParams = event_path lib c v e in
      (
        set paths k path,
        rw (read_c, read_v, read_e) (store_lem paths k path (omega arith)),
        (
          length-set paths k path ∙ len_paths,
          λ j.
              below_suc (EventPathAt (set paths k path)) k j
                (λ i lt'.
                  let (c', v', e', bc, bv, be, path', get, named) = before i lt' in
                  (
                    c',
                    v',
                    e',
                    bc,
                    bv,
                    be,
                    path',
                    get_elem?-set_ne paths k i path (omega arith) ∙ get,
                    named,
                  ))
                (
                  c,
                  v,
                  e,
                  at_c,
                  at_v,
                  at_e,
                  path,
                  get_elem?-set_self paths k path (omega arith),
                  event_path-NamesEvent lib c v e,
                ),
        ),
      )

  fill_event_paths-EventFilled :
      (s : List EventPathParams) × (fill_event_paths lib request_counts endpoint_ids cluster_ids
          event_ids n
        ≡ ret s)
      × EventFilled n s
  unfolding fill_event_paths
  fill_event_paths-EventFilled =
      for_range_lem EventFilled _ n 0 n (omega arith) event_step-EventFilled _
        (length-replicate max_allowed_paths lib.default_event_path, λ j lt. absurd (omega arith))

-- The request that the caller of ReportEvent means: on its session, `n` event paths, path `j`
-- naming the ids that belong to `j`, the event number that is given, every option that is given, and no attribute
-- paths.
pub record IsEventRequest (lib : ReportLibrary) (session : ℕ)
    (endpoint_ids cluster_ids event_ids : List ℕ) (type : InteractionType)
    (min_interval max_interval : ℕ) (fabric_filtered : Option Bool) (event_number : Option ℕ)
    (keep : Option Bool) (n : ℕ) (p : ReadPrepareParams) : Type 0 where
  pub on_session : p.session ≡ session
  pub paths : List EventPathParams
  pub path_list : p.event_path_params_list ≡ some paths
  pub path_size : p.event_path_params_list_size ≡ n
  pub number : p.event_number ≡ event_number
  pub no_attributes : p.attribute_path_params_list ≡ none
  pub no_attribute_count : p.attribute_path_params_list_size ≡ 0
  pub fabric : (b : Bool) → fabric_filtered ≡ some b → p.is_fabric_filtered ≡ b
  pub min_floor : type ≡ subscribe → p.min_interval_floor_seconds ≡ min_interval
  pub max_ceiling : type ≡ subscribe → p.max_interval_ceiling_seconds ≡ max_interval
  pub kept : (b : Bool) → type ≡ subscribe → keep ≡ some b → p.keep_subscriptions ≡ b
  pub path_at :
      (j : ℕ)
      → j < n
      → (c v e : ℕ) × (broadcast cluster_ids j ≡ some c)
        × (broadcast event_ids j ≡ some v)
        × (broadcast endpoint_ids j ≡ some e)
        × (path : EventPathParams) × (get_elem? paths j ≡ some path)
        × NamesEvent lib c v e path

-- A call of ReportEvent whose id counts are in range and fit, with a session, does not fault, and
-- so accesses no list out of range: on that session it sends the request with an event path for each
-- id that is meant, a list with one id standing for it at every path, and with every option that is
-- given.
pub report_event-IsEventRequest :
    (lib : ReportLibrary) (d : Device) (endpoint_ids cluster_ids event_ids : List ℕ)
    (type : InteractionType) (min_interval max_interval : ℕ) (fabric_filtered : Option Bool)
    (event_number : Option ℕ) (keep : Option Bool) (r : Reports) (n session : ℕ)
    → event_counts_in_range (event_counts endpoint_ids cluster_ids event_ids) ≡ true
    → event_paths_count (event_counts endpoint_ids cluster_ids event_ids) ≡ some n
    → d.secure_session ≡ some session
    → (p : ReadPrepareParams) × IsEventRequest lib session endpoint_ids cluster_ids event_ids type
        min_interval max_interval fabric_filtered event_number keep n p
      × (report_event lib d endpoint_ids cluster_ids event_ids type min_interval max_interval
            fabric_filtered event_number keep r
          ≡ ret (send lib type p r))
unfolding report_event event_params set_intervals secure_session
report_event-IsEventRequest lib d endpoint_ids cluster_ids event_ids type min_interval max_interval
      fabric_filtered event_number keep r n session in_range accepted connected =
    let room : n ≤ max_allowed_paths =
      event_paths_count-le (event_counts endpoint_ids cluster_ids event_ids) n accepted in_range in
    let (paths, filled, (_, path_at)) =
      fill_event_paths-EventFilled lib endpoint_ids cluster_ids event_ids n room accepted in
    (
      set_intervals type min_interval max_interval keep
          (event_params (lib.prepare_params session) paths n fabric_filtered event_number),
      record {
        on_session = ground (arith, lib.prepared_session session);
        paths = paths;
        path_list = ground arith;
        path_size = ground arith;
        number = ground arith;
        no_attributes = ground arith;
        no_attribute_count = ground arith;
        fabric = λ b h. ground arith;
        min_floor = λ h. ground arith;
        max_ceiling = λ h. ground arith;
        kept = λ b h k. ground arith;
        path_at = path_at;
      },
      rw (in_range, accepted, filled, connected),
    )
