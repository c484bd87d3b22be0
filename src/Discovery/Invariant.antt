-- ===== src/Discovery/Invariant.antt =====
-- What every sequence of callbacks keeps, whatever the lists are and in whatever order they come.
use matter_hub.Prelude.{ℕ, ◌≡◌, refl, subst, List, Option, none, some, Option-cases, inl, inr}
use matter_hub.Outcome.{
  ret, or_fault, end_iterator, Ensures, Ensures-bind, Ensures-or_fault, Ensures_lem,
}
use matter_hub.OrderedMap.{nat_key, find, next_key}
use matter_hub.OrderedMap.Kept.{next_key-elem}
use matter_hub.Chip.{Device}
use matter_hub.Discovery.{
  Endpoint, Callback, part_list_read, server_list_read, attributes_read, commands_read,
  DescriptionManager, Progress, DiscoveryLibrary, endpoint_at, advance_cluster, change_cluster,
  push_attributes, push_commands, new_description_manager, on_attributes_read_callback,
  after_last_cluster, after_cluster, on_commands_read_callback, call_back,
}
use matter_hub.Discovery.WellFormed.{
  PointsToCluster, IsWellFormed, IsSound, IsSoundOf, manager_of, then_reads,
  new_description_manager-IsSound, next_key-PointsToEndpoint, on_part_list_read_callback-IsSound,
  on_server_list_read_callback-IsSound, owner_found, change_cluster-IsSound,
}

-- What a manager comes to: it starts with a device, and the callbacks run on it.
pub data Reachable (lib : DiscoveryLibrary) : Progress → Type 0 where
  started :
      (device : Device) (p : Progress)
      → new_description_manager lib device ≡ ret p
      → Reachable lib p
  called :
      (callback : Callback) (ids : List ℕ) (p q : Progress)
      → Reachable lib p
      → call_back lib callback ids (manager_of p) ≡ ret q
      → Reachable lib q

module _ (lib : DiscoveryLibrary) where
  on_attributes_read_callback-IsSound :
      (ids : List ℕ) (m : DescriptionManager)
      → IsSound m
      → Ensures IsSoundOf (on_attributes_read_callback lib ids m)
  unfolding on_attributes_read_callback push_attributes
  on_attributes_read_callback-IsSound ids m h =
      Ensures-bind (λ c. m.current_cluster ≡ some c) IsSoundOf
        (or_fault m.current_cluster end_iterator) _
        (Ensures-or_fault m.current_cluster end_iterator)
        (λ c at_cluster.
          Ensures-bind (λ es. IsWellFormed es m.current_endpoint (some c)) IsSoundOf
            (change_cluster c (push_attributes ids) m.endpoints) _
            (change_cluster-IsSound lib c.0 c.1 (push_attributes ids) m (λ cluster. refl) h
              at_cluster)
            (λ es h'.
              Ensures-bind (λ r. Unit) IsSoundOf (endpoint_at m.current_endpoint es) _
                (Ensures_lem _)
                (λ r _.
                  then_reads lib r.0 c.1 lib.accepted_command_list_id commands_read
                    (record m { endpoints = es }) (rw at_cluster h'))))

  advance_PointsToCluster :
      (owner k : ℕ) (endpoint : Endpoint) (es : List (ℕ × Endpoint))
      → find owner es ≡ some endpoint
      → PointsToCluster (advance_cluster (owner, k) endpoint) es
  unfolding advance_cluster
  advance_PointsToCluster owner k endpoint es found =
      elim (Option-cases (next_key k endpoint.clusters)) [
        | inl e ↦ rw (e, advance_cluster) tt
        | inr (k', e) ↦
            rw (e, advance_cluster) (endpoint, found, next_key-elem k k' endpoint.clusters e)
      ]

  after_last_cluster-IsSound :
      (next : Option ℕ) (m : DescriptionManager)
      → IsSound m
      → Ensures IsSoundOf (after_last_cluster lib next m)
  unfolding after_last_cluster
  after_last_cluster-IsSound none m h = h
  after_last_cluster-IsSound (some e) m h =
      then_reads lib e lib.descriptor_id lib.server_list_id server_list_read m h

  after_cluster-IsSound :
      (e : ℕ) (c : Option (ℕ × ℕ)) (m : DescriptionManager)
      → IsSound m
      → PointsToCluster c m.endpoints
      → Ensures IsSoundOf (after_cluster lib e c m)
  unfolding after_cluster
  after_cluster-IsSound e none m h there =
      after_last_cluster-IsSound (next_key e m.endpoints)
        (record m { current_cluster = none; current_endpoint = next_key e m.endpoints })
        (record {
          ordered = h.ordered;
          entries = h.entries;
          endpoint_there = next_key-PointsToEndpoint lib e m.endpoints;
          cluster_there = tt;
        })
  after_cluster-IsSound e (some (owner, k)) m h there =
      then_reads lib e k lib.attribute_list_id attributes_read
        (record m { current_cluster = some (owner, k) })
        (record {
          ordered = h.ordered;
          entries = h.entries;
          endpoint_there = h.endpoint_there;
          cluster_there = there;
        })

  on_commands_read_callback-IsSound :
      (ids : List ℕ) (m : DescriptionManager)
      → IsSound m
      → Ensures IsSoundOf (on_commands_read_callback lib ids m)
  unfolding on_commands_read_callback push_commands
  on_commands_read_callback-IsSound ids m h =
      Ensures-bind (λ c. m.current_cluster ≡ some c) IsSoundOf
        (or_fault m.current_cluster end_iterator) _
        (Ensures-or_fault m.current_cluster end_iterator)
        (λ c at_cluster.
          Ensures-bind (λ es. IsWellFormed es m.current_endpoint (some c)) IsSoundOf
            (change_cluster c (push_commands ids) m.endpoints) _
            (change_cluster-IsSound lib c.0 c.1 (push_commands ids) m (λ cluster. refl) h
              at_cluster)
            (λ es h'.
              Ensures-bind (λ r. (find r.0 es ≡ some r.1) × (r.0 ≡ c.0)) IsSoundOf
                (endpoint_at (some c.0) es) _ (owner_found lib c.0 es)
                (λ r (found, same).
                  Ensures-bind (λ q. Unit) IsSoundOf (endpoint_at m.current_endpoint es) _
                    (Ensures_lem _)
                    (λ q _.
                      after_cluster-IsSound q.0 (advance_cluster c r.1)
                        (record m { endpoints = es }) (rw at_cluster h')
                        (advance_PointsToCluster c.0 c.1 r.1 es (rw same at found))))))

  call_back-IsSound :
      (callback : Callback) (ids : List ℕ) (m : DescriptionManager)
      → IsSound m
      → Ensures IsSoundOf (call_back lib callback ids m)
  unfolding call_back
  call_back-IsSound part_list_read = on_part_list_read_callback-IsSound lib
  call_back-IsSound server_list_read = on_server_list_read_callback-IsSound lib
  call_back-IsSound attributes_read = on_attributes_read_callback-IsSound
  call_back-IsSound commands_read = on_commands_read_callback-IsSound

  -- In every state that a manager comes to, whatever lists its callbacks get and in whatever order
  -- they are called, the endpoints and the clusters of each stand under their own ids in increasing
  -- order, and the two iterators point to elements of the maps or to none.
  pub Reachable-IsWellFormed : (p : Progress) → Reachable lib p → IsSound (manager_of p)
  Reachable-IsWellFormed p (started device _ starts) =
      subst (Ensures IsSoundOf) starts (new_description_manager-IsSound lib device)
  Reachable-IsWellFormed q (called callback ids p _ reached ends) =
      subst (Ensures IsSoundOf) ends
        (call_back-IsSound callback ids (manager_of p) (Reachable-IsWellFormed p reached))
