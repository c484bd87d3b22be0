-- ===== src/Reports/Attributes/Requests.antt =====
-- ReportAttribute as a whole: what it sends, what it refuses, and what it throws on.
use matter_hub.Prelude.{
  ℕ, ◌<◌, ◌≤◌, ◌≡◌, refl, ◌⊎◌, inl, inr, ◌≢◌, List, [], ◌∷◌, Bool, true, false, Option, none, some,
  arith, Bool-cases,
}
use matter_hub.Outcome.{ret, fault, out_of_range, for_range, empty_optional}
use matter_hub.Chip.{invalid_argument, Device}
use matter_hub.Reports.{
  ReportLibrary, Reports, ReadPrepareParams, InteractionType, subscribe, AttributePathParams,
  DataVersionFilter, max_allowed_paths, set_intervals, send, secure_session,
}
use matter_hub.Reports.Attributes.{
  Counts, counts, counts_in_range, paths_count, path_step, fill_paths, store_filter,
  attribute_params, report_attribute,
}
use matter_hub.Reports.Attributes.Broadcast.{paths_count-le, HasVersions, PathAt}
use matter_hub.Reports.Attributes.Fill.{fill_paths-Filled}

-- The request that the caller of ReportAttribute means: on its session, `n` paths, path `j` naming
-- the ids and the data version that belong to `j`, and every option that is given.
pub record IsRequest (lib : ReportLibrary) (session : ℕ)
    (endpoint_ids cluster_ids attribute_ids : List ℕ) (type : InteractionType)
    (min_interval max_interval : ℕ) (fabric_filtered : Option Bool)
    (data_versions : Option (List ℕ)) (keep : Option Bool) (n : ℕ) (p : ReadPrepareParams)
    : Type 0 where
  pub on_session : p.session ≡ session
  pub paths : List AttributePathParams
  pub filters : List DataVersionFilter
  pub path_list : p.attribute_path_params_list ≡ some paths
  pub path_size : p.attribute_path_params_list_size ≡ n
  pub filter_list : data_versions ≢ none → p.data_version_filter_list ≡ some filters
  pub filter_size : data_versions ≢ none → p.data_version_filter_list_size ≡ n
  pub no_events : p.event_path_params_list ≡ none
  pub fabric : (b : Bool) → fabric_filtered ≡ some b → p.is_fabric_filtered ≡ b
  pub min_floor : type ≡ subscribe → p.min_interval_floor_seconds ≡ min_interval
  pub max_ceiling : type ≡ subscribe → p.max_interval_ceiling_seconds ≡ max_interval
  pub kept : (b : Bool) → type ≡ subscribe → keep ≡ some b → p.keep_subscriptions ≡ b
  pub path_at :
      (j : ℕ)
      → j < n
      → PathAt lib endpoint_ids cluster_ids attribute_ids data_versions paths filters j

-- A call whose id counts are in range and fit, with a session and no empty list of data versions,
-- does not fault, and so accesses no list out of range: on that session it sends the request with a
-- path for each id that is meant, a list with one id standing for it at every path, and with every
-- option that is given.
pub report_attribute-IsRequest :
    (lib : ReportLibrary) (d : Device) (endpoint_ids cluster_ids attribute_ids : List ℕ)
    (type : InteractionType) (min_interval max_interval : ℕ) (fabric_filtered : Option Bool)
    (data_versions : Option (List ℕ)) (keep : Option Bool) (r : Reports) (n session : ℕ)
    → counts_in_range (counts endpoint_ids cluster_ids attribute_ids data_versions) ≡ true
    → paths_count (counts endpoint_ids cluster_ids attribute_ids data_versions) ≡ some n
    → HasVersions data_versions
    → d.secure_session ≡ some session
    → (p : ReadPrepareParams) × IsRequest lib session endpoint_ids cluster_ids attribute_ids type
        min_interval max_interval fabric_filtered data_versions keep n p
      × (report_attribute lib d endpoint_ids cluster_ids attribute_ids type min_interval
            max_interval fabric_filtered data_versions keep r
          ≡ ret (send lib type p r))
unfolding report_attribute attribute_params set_intervals secure_session
report_attribute-IsRequest lib d endpoint_ids cluster_ids attribute_ids type min_interval
      max_interval fabric_filtered data_versions keep r n session in_range accepted some_version
      connected =
    let room : n ≤ max_allowed_paths =
      paths_count-le (counts endpoint_ids cluster_ids attribute_ids data_versions) n accepted
        in_range in
    let ((paths, filters), filled, (_, _, path_at)) =
      fill_paths-Filled lib endpoint_ids cluster_ids attribute_ids n room data_versions accepted
        some_version in
    (
      set_intervals type min_interval max_interval keep (
          attribute_params (lib.prepare_params session) (paths, filters) n fabric_filtered
            data_versions),
      record {
        on_session = ground (arith, lib.prepared_session session);
        paths = paths;
        filters = filters;
        path_list = ground arith;
        path_size = ground arith;
        filter_list = ground arith;
        filter_size = ground arith;
        no_events = ground arith;
        fabric = λ b h. ground arith;
        min_floor = λ h. ground arith;
        max_ceiling = λ h. ground arith;
        kept = λ b h k. ground arith;
        path_at = path_at;
      },
      rw (in_range, accepted, filled, connected),
    )

-- Without a session a request within the limits aborts.
pub report_attribute-without :
    (lib : ReportLibrary) (d : Device) (endpoint_ids cluster_ids attribute_ids : List ℕ)
    (type : InteractionType) (min_interval max_interval : ℕ) (fabric_filtered : Option Bool)
    (data_versions : Option (List ℕ)) (keep : Option Bool) (r : Reports) (n : ℕ)
    → counts_in_range (counts endpoint_ids cluster_ids attribute_ids data_versions) ≡ true
    → paths_count (counts endpoint_ids cluster_ids attribute_ids data_versions) ≡ some n
    → HasVersions data_versions
    → d.secure_session ≡ none
    → report_attribute lib d endpoint_ids cluster_ids attribute_ids type min_interval max_interval
        fabric_filtered data_versions keep r
      ≡ fault empty_optional
unfolding report_attribute secure_session
report_attribute-without lib d endpoint_ids cluster_ids attribute_ids type min_interval max_interval
      fabric_filtered data_versions keep r n in_range accepted some_version without =
    let room : n ≤ max_allowed_paths =
      paths_count-le (counts endpoint_ids cluster_ids attribute_ids data_versions) n accepted
        in_range in
    let (_, filled, _) =
      fill_paths-Filled lib endpoint_ids cluster_ids attribute_ids n room data_versions accepted
        some_version in
    rw (in_range, accepted, filled, without)

-- Id counts that no broadcast can serve: a list without an id, a list with more than ten, or two
-- lists of different lengths with several ids each.
pub data Mismatched (c : Counts) : Type 0 where
  no_clusters : c.clusters ≡ 0 → Mismatched c
  no_attributes : c.attributes ≡ 0 → Mismatched c
  no_endpoints : c.endpoints ≡ 0 → Mismatched c
  many_clusters : max_allowed_paths < c.clusters → Mismatched c
  many_attributes : max_allowed_paths < c.attributes → Mismatched c
  many_endpoints : max_allowed_paths < c.endpoints → Mismatched c
  many_versions : max_allowed_paths < c.versions → Mismatched c
  clusters_attributes : 1 < c.clusters → 1 < c.attributes → c.clusters ≢ c.attributes → Mismatched c
  clusters_endpoints : 1 < c.clusters → 1 < c.endpoints → c.clusters ≢ c.endpoints → Mismatched c
  attributes_endpoints :
      1 < c.attributes → 1 < c.endpoints → c.attributes ≢ c.endpoints → Mismatched c

Mismatched-guard :
    (c : Counts) → Mismatched c → (counts_in_range c ≡ false) ⊎ (paths_count c ≡ none)
unfolding counts_in_range paths_count
Mismatched-guard c (no_clusters h) = inl (ground arith)
Mismatched-guard c (no_attributes h) = inl (ground arith)
Mismatched-guard c (no_endpoints h) = inl (ground arith)
Mismatched-guard c (many_clusters h) = inl (ground arith)
Mismatched-guard c (many_attributes h) = inl (ground arith)
Mismatched-guard c (many_endpoints h) = inl (ground arith)
Mismatched-guard c (many_versions h) = inl (ground arith)
Mismatched-guard c (clusters_attributes h k e) = inr (ground arith)
Mismatched-guard c (clusters_endpoints h k e) = inr (ground arith)
Mismatched-guard c (attributes_endpoints h k e) = inr (ground arith)

-- A call without ids of one of the three kinds, with more than ten of a kind or of data versions,
-- or with two kinds that are both given more than once and in different numbers, is refused with
-- CHIP_ERROR_INVALID_ARGUMENT: nothing is sent, and the read clients stay as they are.
pub report_attribute_refuses :
    (lib : ReportLibrary) (d : Device) (endpoint_ids cluster_ids attribute_ids : List ℕ)
    (type : InteractionType) (min_interval max_interval : ℕ) (fabric_filtered : Option Bool)
    (data_versions : Option (List ℕ)) (keep : Option Bool) (r : Reports)
    → Mismatched (counts endpoint_ids cluster_ids attribute_ids data_versions)
    → report_attribute lib d endpoint_ids cluster_ids attribute_ids type min_interval max_interval
        fabric_filtered data_versions keep r
      ≡ ret (r, invalid_argument)
unfolding report_attribute
report_attribute_refuses lib d endpoint_ids cluster_ids attribute_ids type min_interval max_interval
      fabric_filtered data_versions keep r h =
    let c : Counts = counts endpoint_ids cluster_ids attribute_ids data_versions in
    elim (Mismatched-guard c h) [
      | inl out ↦ rw out
      | inr unfit ↦ elim (Bool-cases (counts_in_range c)) [
        | inl fits ↦ rw (fits, unfit)
        | inr out ↦ rw out
      ]
    ]

-- For one id of each kind, a list of data versions that is given and empty passes the checks, and
-- then its first element is read: the call throws `std::out_of_range`.
report_attribute_throws :
    (lib : ReportLibrary) (d : Device) (endpoint_id cluster_id attribute_id : ℕ)
    (type : InteractionType) (min_interval max_interval : ℕ) (fabric_filtered : Option Bool)
    (keep : Option Bool) (r : Reports)
    → report_attribute lib d
        (endpoint_id ∷ [])
        (cluster_id ∷ [])
        (attribute_id ∷ [])
        type
        min_interval
        max_interval
        fabric_filtered
        (some [])
        keep
        r
      ≡ fault out_of_range
unfolding report_attribute fill_paths path_step store_filter for_range
report_attribute_throws lib d endpoint_id cluster_id attribute_id type min_interval max_interval
      fabric_filtered keep r =
    refl
