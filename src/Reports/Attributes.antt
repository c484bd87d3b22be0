-- ===== src/Reports/Attributes.antt =====
-- InteractionModelReports::ReportAttribute of src/main/InteractionModel.cpp, with the calls that
-- src/main/include/InteractionModel.h makes of it.
pub mod Broadcast
pub mod Fill
pub mod Requests
use matter_hub.Prelude.{
  ℕ, ◌+◌, List, [], length, replicate, Bool, true, false, ◌&&◌, ◌||◌, Option, none, some, ltb, leb,
  ◌==◌, if◌then◌else◌,
}
use matter_hub.Outcome.{Outcome, ret, ◌>>=◌, at, store, for_range}
use matter_hub.Chip.{ChipError, invalid_argument, Device}
use matter_hub.Reports.{
  ReportLibrary, Reports, InteractionType, read, subscribe, AttributePathParams, DataVersionFilter,
  ReadPrepareParams, max_allowed_paths, set_fabric_filtered, set_intervals, send, secure_session,
}

pub record Counts : Type 0 where
  pub clusters : ℕ
  pub attributes : ℕ
  pub endpoints : ℕ
  pub versions : ℕ

-- The VerifyOrReturnError lines.
in_range : ℕ → Bool
in_range n = ltb 0 n && leb n max_allowed_paths

unfoldable pub counts_in_range : Counts → Bool
unfolding in_range
counts_in_range c =
    in_range c.clusters
    && in_range c.attributes
    && in_range c.endpoints
    && leb c.versions max_allowed_paths

pub has_same_ids_count : Counts → Bool
has_same_ids_count c =
    c.clusters == c.attributes
    && c.clusters == c.endpoints
    && (c.versions == 0 || c.clusters == c.versions)

pub multiple_clusters : Counts → Bool
multiple_clusters c =
    ltb 1 c.clusters
    && c.attributes == 1
    && c.endpoints == 1
    && (c.versions == 0 || c.versions == 1)

pub multiple_attributes : Counts → Bool
multiple_attributes c =
    ltb 1 c.attributes
    && c.clusters == 1
    && c.endpoints == 1
    && (c.versions == 0 || c.versions == 1)

pub multiple_endpoints : Counts → Bool
multiple_endpoints c =
    ltb 1 c.endpoints
    && c.clusters == 1
    && c.attributes == 1
    && (c.versions == 0 || c.versions == 1)

pub multiple_data_versions : Counts → Bool
multiple_data_versions c =
    ltb 1 c.versions && c.clusters == 1 && c.attributes == 1 && c.endpoints == 1

-- `none` is the last `else`, which returns CHIP_ERROR_INVALID_ARGUMENT.
unfoldable pub paths_count : Counts → Option ℕ
unfolding has_same_ids_count multiple_clusters multiple_attributes multiple_endpoints
    multiple_data_versions
paths_count c =
    if has_same_ids_count c
    then some c.clusters
    else if multiple_clusters c
    then some c.clusters
    else if multiple_attributes c
    then some c.attributes
    else if multiple_endpoints c
    then some c.endpoints
    else if multiple_data_versions c
    then some c.versions
    else none

abbrev pub versions_count : Option (List ℕ) → ℕ
versions_count none = 0
versions_count (some vs) = length vs

module _ (lib : ReportLibrary) where
  -- An id is written over the default of the path unless it is the invalid one.
  pub attribute_path : ℕ → ℕ → ℕ → AttributePathParams
  attribute_path cluster_id attribute_id endpoint_id = record {
    cluster_id =
        if cluster_id == lib.invalid_cluster_id
        then lib.default_attribute_path.cluster_id
        else cluster_id;
    attribute_id =
        if attribute_id == lib.invalid_attribute_id
        then lib.default_attribute_path.attribute_id
        else attribute_id;
    endpoint_id =
        if endpoint_id == lib.invalid_endpoint_id
        then lib.default_attribute_path.endpoint_id
        else endpoint_id;
  }

module _ (lib : ReportLibrary) (c : Counts) (endpoint_ids cluster_ids attribute_ids : List ℕ)
    (data_versions : Option (List ℕ)) where
  -- The block under `if (dataVersions.HasValue())` in the loop.
  store_filter :
      Option (List ℕ) → ℕ → ℕ → ℕ → List DataVersionFilter → Outcome (List DataVersionFilter)
  unfolding has_same_ids_count multiple_data_versions
  store_filter none i endpoint_id cluster_id filters = ret filters
  store_filter (some versions) i endpoint_id cluster_id filters = do
    version ← at versions (if has_same_ids_count c || multiple_data_versions c then i else 0)
    store filters i
        (record { endpoint_id = endpoint_id; cluster_id = cluster_id; data_version = some version })

  -- The body of the loop over the paths, on the two arrays.
  pub path_step :
      ℕ
      → List AttributePathParams × List DataVersionFilter
      → Outcome (List AttributePathParams × List DataVersionFilter)
  unfolding has_same_ids_count multiple_clusters multiple_attributes multiple_endpoints store_filter
  path_step i (paths, filters) = do
    cluster_id ← at cluster_ids (if has_same_ids_count c || multiple_clusters c then i else 0)
    attribute_id ← at attribute_ids (if has_same_ids_count c || multiple_attributes c then i else 0)
    endpoint_id ← at endpoint_ids (if has_same_ids_count c || multiple_endpoints c then i else 0)
    paths' ← store paths i (attribute_path lib cluster_id attribute_id endpoint_id)
    filters' ← store_filter data_versions i endpoint_id cluster_id filters
    ret (paths', filters')

  pub fill_paths : ℕ → Outcome (List AttributePathParams × List DataVersionFilter)
  fill_paths n = for_range n 0 path_step (
    replicate max_allowed_paths lib.default_attribute_path,
    replicate max_allowed_paths lib.default_filter,
  )

-- The request that the arrays are put into.
set_filters : Option (List ℕ) → List DataVersionFilter → ℕ → ReadPrepareParams → ReadPrepareParams
set_filters none filters n p = p
set_filters (some vs) filters n p = record p {
  data_version_filter_list = some filters;
  data_version_filter_list_size = n;
}

pub attribute_params :
    ReadPrepareParams
    → List AttributePathParams × List DataVersionFilter
    → ℕ
    → Option Bool
    → Option (List ℕ)
    → ReadPrepareParams
unfolding set_filters set_fabric_filtered
attribute_params p (paths, filters) n fabric_filtered data_versions =
    set_filters data_versions filters n (
      set_fabric_filtered fabric_filtered (record p {
        event_path_params_list = none;
        event_path_params_list_size = 0;
        attribute_path_params_list = some paths;
        attribute_path_params_list_size = n;
      }))

abbrev pub counts : List ℕ → List ℕ → List ℕ → Option (List ℕ) → Counts
counts endpoint_ids cluster_ids attribute_ids data_versions = record {
  clusters = length cluster_ids;
  attributes = length attribute_ids;
  endpoints = length endpoint_ids;
  versions = versions_count data_versions;
}

module _ (lib : ReportLibrary) (d : Device) (endpoint_ids cluster_ids attribute_ids : List ℕ) where
  pub report_attribute :
      InteractionType
      → ℕ
      → ℕ
      → Option Bool
      → Option (List ℕ)
      → Option Bool
      → Reports
      → Outcome (Reports × ChipError)
  unfolding counts_in_range paths_count
  report_attribute type min_interval max_interval fabric_filtered data_versions keep r =
      let c = counts endpoint_ids cluster_ids attribute_ids data_versions in
      if counts_in_range c
      then elim (paths_count c) [
        | none ↦ ret (r, invalid_argument)
        | some n ↦ do
          arrays ← fill_paths lib c endpoint_ids cluster_ids attribute_ids data_versions n
          session ← secure_session d
          ret (
              send lib type
                (set_intervals type min_interval max_interval keep (
                  attribute_params (lib.prepare_params session) arrays n fabric_filtered
                    data_versions))
                r)
      ]
      else ret (r, invalid_argument)

  -- The members ReadAttribute and SubscribeAttribute of the same class.
  unfoldable pub read_attribute :
      Option Bool → Option (List ℕ) → Reports → Outcome (Reports × ChipError)
  unfolding report_attribute
  read_attribute fabric_filtered data_versions =
      report_attribute read 0 0 fabric_filtered data_versions none

  unfoldable pub subscribe_attribute :
      ℕ → ℕ → Option Bool → Option (List ℕ) → Option Bool → Reports → Outcome (Reports × ChipError)
  unfolding report_attribute
  subscribe_attribute min_interval max_interval fabric_filtered data_versions keep =
      report_attribute subscribe min_interval max_interval fabric_filtered data_versions keep
