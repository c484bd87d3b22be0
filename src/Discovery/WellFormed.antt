-- ===== src/Discovery/WellFormed.antt =====
-- The shape of a manager's maps, iterators that point into them, and the callbacks for the lists of
-- endpoints and clusters, which keep both.
use matter_hub.Prelude.{
  ℕ, ◌≡◌, refl, ◌∙◌, List, [], true, Option, none, some, Option-cases, inl, inr,
}
use matter_hub.Outcome.{
  ret, or_fault, end_iterator, ◌>>=◌, Ensures, Ensures-bind, Ensures-or_fault, Ensures_lem,
}
use matter_hub.OrderedMap.{nat_key, find, first_key, next_key, update}
use matter_hub.OrderedMap.Ids.{IsIncreasing, elem, keys, emplace_all, IsIncreasing-insert_all}
use matter_hub.OrderedMap.Kept.{
  All, keys-emplace_all, All-emplace_all, keys-update, All-update, All-find, find-update,
  find-emplace_all, first_key-elem, next_key-elem,
}
use matter_hub.Chip.{Device}
use matter_hub.Interaction.{do_read, subscription_of, no_reports}
use matter_hub.Discovery.{
  Cluster, Endpoint, new_cluster, new_endpoint, Callback, part_list_read, server_list_read,
  attributes_read, DescriptionManager, Progress, reads, publishes, DiscoveryLibrary, endpoint_at,
  change_cluster, read_attribute, new_description_manager, on_part_list_read_callback,
  on_server_list_read_callback,
}

-- An entry of `mEndpoints`: the ids are the keys, and the clusters are in order.
abbrev pub IsCluster : ℕ → Cluster → Type 0
IsCluster k cluster = cluster.id ≡ k

abbrev pub IsEndpoint : ℕ → Endpoint → Type 0
IsEndpoint e endpoint =
    (endpoint.id ≡ e) × IsIncreasing (keys endpoint.clusters) × All IsCluster endpoint.clusters

-- The iterators: none, or at an element.
abbrev pub PointsToEndpoint : Option ℕ → List (ℕ × Endpoint) → Type 0
PointsToEndpoint none es = Unit
PointsToEndpoint (some e) es = elem e (keys es) ≡ true

abbrev pub PointsToCluster : Option (ℕ × ℕ) → List (ℕ × Endpoint) → Type 0
PointsToCluster none es = Unit
PointsToCluster (some (e, k)) es =
    (endpoint : Endpoint) × (find e es ≡ some endpoint) × (elem k (keys endpoint.clusters) ≡ true)

pub record IsWellFormed (es : List (ℕ × Endpoint)) (current_endpoint : Option ℕ)
    (current_cluster : Option (ℕ × ℕ)) : Type 0 where
  pub ordered : IsIncreasing (keys es)
  pub entries : All IsEndpoint es
  pub endpoint_there : PointsToEndpoint current_endpoint es
  pub cluster_there : PointsToCluster current_cluster es

abbrev pub IsSound : DescriptionManager → Type 0
IsSound m = IsWellFormed m.endpoints m.current_endpoint m.current_cluster

abbrev pub manager_of : Progress → DescriptionManager
manager_of (reads m) = m
manager_of (publishes m) = m

abbrev pub IsSoundOf : Progress → Type 0
IsSoundOf p = IsSound (manager_of p)

module _ (lib : DiscoveryLibrary) where
  pub then_reads :
      (e k a : ℕ) (callback : Callback) (m : DescriptionManager)
      → IsSound m
      → Ensures IsSoundOf (read_attribute lib e k a callback m >>= (λ m'. ret (reads m')))
  unfolding read_attribute
  then_reads e k a callback m h =
      Ensures-bind IsSound IsSoundOf (read_attribute lib e k a callback m) (λ m'. ret (reads m'))
        (Ensures-bind (λ r. Unit) IsSound
          (do_read lib.reports (subscription_of m.device e k a) no_reports) _ (Ensures_lem _)
          (λ r _. h))
        (λ m' h'. h')

  pub new_description_manager-IsSound :
      (device : Device) → Ensures IsSoundOf (new_description_manager lib device)
  unfolding new_description_manager
  new_description_manager-IsSound device =
      then_reads 0 lib.descriptor_id lib.parts_list_id part_list_read
        (record {
          device = device;
          endpoints = [];
          current_endpoint = none;
          current_cluster = none;
          last_sub = none;
        })
        (record { ordered = tt; entries = tt; endpoint_there = tt; cluster_there = tt })

  first_key-PointsToEndpoint : (es : List (ℕ × Endpoint)) → PointsToEndpoint (first_key es) es
  first_key-PointsToEndpoint es = elim (Option-cases (first_key es)) [
    | inl e ↦ rw e tt
    | inr (k, e) ↦ rw e (first_key-elem k es e)
  ]

  pub next_key-PointsToEndpoint :
      (e : ℕ) (es : List (ℕ × Endpoint)) → PointsToEndpoint (next_key e es) es
  next_key-PointsToEndpoint e es = elim (Option-cases (next_key e es)) [
    | inl h ↦ rw h tt
    | inr (k, h) ↦ rw h (next_key-elem e k es h)
  ]

  more_endpoints :
      (ids : List ℕ) (es : List (ℕ × Endpoint)) (ck : Option (ℕ × ℕ))
      → IsIncreasing (keys es)
      → PointsToCluster ck es
      → PointsToCluster ck (emplace_all new_endpoint ids es)
  more_endpoints ids es none increasing there = tt
  more_endpoints ids es (some (e, k)) increasing (endpoint, found, inside) =
      (endpoint, find-emplace_all e endpoint new_endpoint ids es increasing found, inside)

  pub on_part_list_read_callback-IsSound :
      (ids : List ℕ) (m : DescriptionManager)
      → IsSound m
      → Ensures IsSoundOf (on_part_list_read_callback lib ids m)
  unfolding on_part_list_read_callback new_endpoint
  on_part_list_read_callback-IsSound ids m h =
      let es : List (ℕ × Endpoint) = emplace_all new_endpoint ids m.endpoints in
      Ensures-bind (λ r. Unit) IsSoundOf (endpoint_at (first_key es) es) _ (Ensures_lem _)
        (λ r _.
          then_reads r.0 lib.descriptor_id lib.server_list_id server_list_read
            (record m { endpoints = es; current_endpoint = first_key es })
            (record {
              ordered =
                  rw (keys-emplace_all new_endpoint ids m.endpoints)
                    (IsIncreasing-insert_all ids (keys m.endpoints) h.ordered);
              entries =
                  All-emplace_all IsEndpoint new_endpoint ids m.endpoints (λ i. (refl, tt, tt))
                    h.entries;
              endpoint_there = first_key-PointsToEndpoint es;
              cluster_there =
                  more_endpoints ids m.endpoints m.current_cluster h.ordered h.cluster_there;
            }))

  endpoint_found :
      (o : Option ℕ) (es : List (ℕ × Endpoint))
      → Ensures (λ r. find r.0 es ≡ some r.1) (endpoint_at o es)
  unfolding endpoint_at
  endpoint_found none es = tt
  endpoint_found (some e) es =
      Ensures-bind (λ endpoint. find e es ≡ some endpoint) (λ r. find r.0 es ≡ some r.1)
        (or_fault (find e es) end_iterator) _ (Ensures-or_fault (find e es) end_iterator)
        (λ endpoint found. found)

  pub owner_found :
      (e : ℕ) (es : List (ℕ × Endpoint))
      → Ensures (λ r. (find r.0 es ≡ some r.1) × (r.0 ≡ e)) (endpoint_at (some e) es)
  unfolding endpoint_at
  owner_found e es =
      Ensures-bind (λ endpoint. find e es ≡ some endpoint)
        (λ r. (find r.0 es ≡ some r.1) × (r.0 ≡ e)) (or_fault (find e es) end_iterator) _
        (Ensures-or_fault (find e es) end_iterator) (λ endpoint found. (found, refl))

  keep_PointsToEndpoint :
      (e : ℕ) (f : Endpoint → Endpoint) (ce : Option ℕ) (es : List (ℕ × Endpoint))
      → PointsToEndpoint ce es
      → PointsToEndpoint ce (update e f es)
  keep_PointsToEndpoint e f none es h = tt
  keep_PointsToEndpoint e f (some i) es h = rw (keys-update e f es) h

  -- New clusters for one endpoint, with the iterator at the first.
  pub on_server_list_read_callback-IsSound :
      (ids : List ℕ) (m : DescriptionManager)
      → IsSound m
      → Ensures IsSoundOf (on_server_list_read_callback lib ids m)
  unfolding on_server_list_read_callback new_cluster
  on_server_list_read_callback-IsSound ids m h =
      Ensures-bind (λ r. find r.0 m.endpoints ≡ some r.1) IsSoundOf
        (endpoint_at m.current_endpoint m.endpoints) _
        (endpoint_found m.current_endpoint m.endpoints)
        (λ r found.
          let ks : List (ℕ × Cluster) = emplace_all new_cluster ids r.1.clusters in
          let (same, increasing, all) = All-find IsEndpoint r.0 r.1 m.endpoints h.entries found in
          let increasing' : IsIncreasing (keys ks) =
            rw (keys-emplace_all new_cluster ids r.1.clusters)
              (IsIncreasing-insert_all ids (keys r.1.clusters) increasing) in
          let all' : All IsCluster ks =
            All-emplace_all IsCluster new_cluster ids r.1.clusters (λ i. refl) all in
          Ensures-bind (λ k. first_key ks ≡ some k) IsSoundOf (or_fault (first_key ks) end_iterator)
            _ (Ensures-or_fault (first_key ks) end_iterator)
            (λ k first.
              then_reads r.1.id k lib.attribute_list_id attributes_read
                (record m {
                  endpoints = update r.0 (λ E. record E { clusters = ks }) m.endpoints;
                  current_cluster = some (r.0, k);
                })
                (record {
                  ordered =
                      rw (keys-update r.0 (λ E. record E { clusters = ks }) m.endpoints) h.ordered;
                  entries =
                      All-update IsEndpoint r.0 (λ E. record E { clusters = ks }) m.endpoints
                        (λ j v (id_same, _, _). (id_same, increasing', all')) h.entries;
                  endpoint_there =
                      keep_PointsToEndpoint r.0 (λ E. record E { clusters = ks }) m.current_endpoint
                        m.endpoints h.endpoint_there;
                  cluster_there = (
                    record r.1 { clusters = ks },
                    find-update r.0 (λ E. record E { clusters = ks }) r.1 m.endpoints found,
                    first_key-elem k ks first,
                  );
                })))

  -- A change of the current cluster that leaves its id.
  pub change_cluster-IsSound :
      (owner k : ℕ) (f : Cluster → Cluster) (m : DescriptionManager)
      → ((cluster : Cluster) → (f cluster).id ≡ cluster.id)
      → IsSound m
      → m.current_cluster ≡ some (owner, k)
      → Ensures
          (λ es. IsWellFormed es m.current_endpoint (some (owner, k)))
          (change_cluster (owner, k) f m.endpoints)
  unfolding change_cluster
  change_cluster-IsSound owner k f m same h at_cluster =
      let g : Endpoint → Endpoint = λ E. record E { clusters = update k f E.clusters } in
      let (endpoint, there, inside) = rw at_cluster at h.cluster_there in
      Ensures-bind (λ E. find owner m.endpoints ≡ some E)
        (λ es. IsWellFormed es m.current_endpoint (some (owner, k)))
        (or_fault (find owner m.endpoints) end_iterator) _
        (Ensures-or_fault (find owner m.endpoints) end_iterator)
        (λ E found.
          Ensures-bind (λ cluster. Unit)
            (λ es. IsWellFormed es m.current_endpoint (some (owner, k)))
            (or_fault (find k E.clusters) end_iterator) _ (Ensures_lem _)
            (λ cluster _. record {
              ordered = rw (keys-update owner g m.endpoints) h.ordered;
              entries =
                  All-update IsEndpoint owner g m.endpoints
                    (λ j v (id_same, increasing, all). (
                      id_same,
                      rw (keys-update k f v.clusters) increasing,
                      All-update IsCluster k f v.clusters (λ i c e. same c ∙ e) all,
                    ))
                    h.entries;
              endpoint_there =
                  keep_PointsToEndpoint owner g m.current_endpoint m.endpoints h.endpoint_there;
              cluster_there = (
                g endpoint,
                find-update owner g endpoint m.endpoints there,
                rw (keys-update k f endpoint.clusters) inside,
              );
            }))
