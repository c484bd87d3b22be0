-- ===== src/Reports/Attributes/Fill.antt =====
-- The loop of ReportAttribute: no index is out of range, no array overflows, and every path is
-- filled with the ids and the data version that belong to it.
use matter_hub.Prelude.{
  ℕ, ◌+◌, ◌<◌, ◌≤◌, ◌≡◌, refl, ◌∙◌, List, length, set, length-set, length-replicate,
  get_elem?-set_self, get_elem?-set_ne, Option, none, some, arith, below_suc,
}
use matter_hub.Outcome.{ret, for_range_lem}
use matter_hub.Reports.{ReportLibrary, AttributePathParams, DataVersionFilter, max_allowed_paths}
use matter_hub.Reports.Attributes.{
  Counts, counts, paths_count, attribute_path, path_step, fill_paths, store_filter,
}
use matter_hub.Reports.Attributes.Broadcast.{
  broadcast-index, clusters_index, attributes_index, endpoints_index, versions_index, FilterAt,
  FilterAt-set, attribute_path-NamesPath, HasVersions, PathAt, Filled, store_lem,
}

module _ (lib : ReportLibrary) (endpoint_ids cluster_ids attribute_ids : List ℕ) (n : ℕ)
    (room : n ≤ max_allowed_paths) where
  abbrev FilterStep :
      Option (List ℕ) → ℕ → ℕ → ℕ → List DataVersionFilter → List DataVersionFilter → Type 0
  FilterStep versions k e c filters filters' =
      (store_filter lib (counts endpoint_ids cluster_ids attribute_ids versions) endpoint_ids
          cluster_ids attribute_ids versions versions k e c filters
        ≡ ret filters')
      × (length filters' ≡ max_allowed_paths)
      × FilterAt versions filters' k c e
      × ((j c' e' : ℕ)
          → j < k
          → FilterAt versions filters j c' e'
          → FilterAt versions filters' j c' e')

  filter_step :
      (versions : Option (List ℕ)) (k e c : ℕ) (filters : List DataVersionFilter)
      → paths_count (counts endpoint_ids cluster_ids attribute_ids versions) ≡ some n
      → HasVersions versions
      → k < n
      → length filters ≡ max_allowed_paths
      → (filters' : List DataVersionFilter) × FilterStep versions k e c filters filters'
  unfolding store_filter
  filter_step none k e c filters accepted some_version lt len =
      (filters, (refl, len, tt, λ j c' e' before p. p))
  filter_step (some versions) k e c filters accepted some_version lt len =
      let index = versions_index _ n accepted some_version in
      let (v, read, at) = broadcast-index versions _ n k lt index in
      let filter : DataVersionFilter = record {
        endpoint_id = e;
        cluster_id = c;
        data_version = some v;
      } in
      (
        set filters k filter,
        (
          rw read (store_lem filters k filter (omega arith)),
          length-set filters k filter ∙ len,
          (v, at, get_elem?-set_self filters k filter (omega arith)),
          λ j c' e' before p. FilterAt-set (some versions) filters k j c' e' filter (omega arith) p,
        ),
      )

  module _ (data_versions : Option (List ℕ))
      (accepted : paths_count (counts endpoint_ids cluster_ids attribute_ids data_versions)
        ≡ some n)
      (some_version : HasVersions data_versions) where
    abbrev request_counts : Counts
    request_counts = counts endpoint_ids cluster_ids attribute_ids data_versions

    abbrev IsFilled : ℕ → List AttributePathParams × List DataVersionFilter → Type 0
    IsFilled = Filled lib endpoint_ids cluster_ids attribute_ids data_versions

    path_step-Filled :
        (k : ℕ) (s : List AttributePathParams × List DataVersionFilter)
        → k < n
        → IsFilled k s
        → (t : List AttributePathParams × List DataVersionFilter) × (path_step lib request_counts
              endpoint_ids cluster_ids attribute_ids data_versions k s
            ≡ ret t)
          × IsFilled (k + 1) t
    unfolding path_step
    path_step-Filled k (paths, filters) lt (len_paths, len_filters, before) =
        let (c, read_c, at_c) =
          broadcast-index cluster_ids _ n k lt (clusters_index request_counts n accepted) in
        let (a, read_a, at_a) =
          broadcast-index attribute_ids _ n k lt (attributes_index request_counts n accepted) in
        let (e, read_e, at_e) =
          broadcast-index endpoint_ids _ n k lt (endpoints_index request_counts n accepted) in
        let (filters', (stored, len, here, kept)) =
          filter_step data_versions k e c filters accepted some_version lt len_filters in
        let path : AttributePathParams = attribute_path lib c a e in
        (
          (set paths k path, filters'),
          rw (read_c, read_a, read_e, store_lem paths k path (omega arith), stored),
          (
            length-set paths k path ∙ len_paths,
            len,
            λ j.
                below_suc
                  (PathAt lib endpoint_ids cluster_ids attribute_ids data_versions _ filters') k j
                  (λ i lt'.
                    let (c', a', e', bc, ba, be, path', get, named, filter) = before i lt' in
                    (
                      c',
                      a',
                      e',
                      bc,
                      ba,
                      be,
                      path',
                      get_elem?-set_ne paths k i path (omega arith) ∙ get,
                      named,
                      kept i c' e' lt' filter,
                    ))
                  (
                    c,
                    a,
                    e,
                    at_c,
                    at_a,
                    at_e,
                    path,
                    get_elem?-set_self paths k path (omega arith),
                    attribute_path-NamesPath lib c a e,
                    here,
                  ),
          ),
        )

    -- The loop ends without a fault, with every path filled.
    pub fill_paths-Filled :
        (s : List AttributePathParams × List DataVersionFilter) × (fill_paths lib request_counts
            endpoint_ids cluster_ids attribute_ids data_versions n
          ≡ ret s)
        × IsFilled n s
    unfolding fill_paths
    fill_paths-Filled = for_range_lem IsFilled _ n 0 n (omega arith) path_step-Filled _ (
      length-replicate max_allowed_paths lib.default_attribute_path,
      length-replicate max_allowed_paths lib.default_filter,
      λ j lt. absurd (omega arith),
    )
