-- ===== src/Discovery/Walks.antt =====
-- The readings for one endpoint, and for the parts list.
use matter_hub.Prelude.{
  ℕ, ◌+◌, ◌≡◌, refl, ap, ◌∙◌, List, [], ◌∷◌, ◌++◌, append_assoc, Option, none, some, arith,
}
use matter_hub.Outcome.{ret}
use matter_hub.OrderedMap.{nat_key, first_key}
use matter_hub.OrderedMap.Ids.{
  IsMissing, IsIncreasing, find-middle, update-middle, entries, insert_all, emplace_all-entries,
  emplace_all,
}
use matter_hub.Chip.{no_error, Device}
use matter_hub.Reports.{ReadPrepareParams}
use matter_hub.Discovery.{
  Cluster, Endpoint, new_cluster, new_endpoint, part_list_read, server_list_read, attributes_read,
  commands_read, Reading, Progress, reads, DiscoveryLibrary, call_back, endpoint_at,
  on_part_list_read_callback, on_server_list_read_callback,
}
use matter_hub.Discovery.Walk.{run, run-then, reads_on}
use matter_hub.Discovery.Steps.{
  Answers, described_cluster, servers_of, AllMissing, AllMissing-snoc, asks, manager, at_cluster,
  after_endpoint, add_cluster, add_endpoint, attributes_step, commands_step_more,
  commands_step_last,
}

-- The number of readings for the clusters of one endpoint.
abbrev pub cluster_readings : List ℕ → ℕ
cluster_readings [] = 2
cluster_readings (k ∷ ks) = 2 + cluster_readings ks

pub last_of : ℕ → List ℕ → ℕ
last_of k [] = k
last_of k (j ∷ js) = last_of j js

module _ (lib : DiscoveryLibrary) (answer : Answers) (device : Device) (session : ℕ)
    (connected : device.secure_session ≡ some session)
    (accepts : (p : ReadPrepareParams) → lib.reports.send_request p ≡ no_error) where
  abbrev pub clusters_done :
      List (ℕ × Endpoint) → ℕ → List (ℕ × Cluster) → ℕ → List ℕ → List ℕ → Progress
  clusters_done done e ks k more todo =
      after_endpoint lib answer device session connected accepts
        (add_endpoint lib answer device session connected accepts done e
          (ks ++ entries (described_cluster lib answer e) (k ∷ more)))
        todo
        (asks lib answer device session connected accepts e (last_of k more)
          lib.accepted_command_list_id commands_read)

  pub clusters_walk :
      (done : List (ℕ × Endpoint)) (e : ℕ) (todo : List ℕ) (ks : List (ℕ × Cluster)) (k : ℕ)
      (more : List ℕ)
      → IsMissing e done
      → IsIncreasing (k ∷ more)
      → AllMissing (k ∷ more) ks
      → run lib answer
          (cluster_readings more)
          (at_cluster lib answer device session connected accepts done e ks k more todo)
        ≡ ret (clusters_done done e ks k more todo)
  unfolding entries last_of
  clusters_walk done e todo ks k [] outside (below, _) (fresh, _) =
      run-then lib answer 1 1 2 _ _ _ refl
        (attributes_step lib answer device session connected accepts done e ks k [] todo outside
          fresh)
        (commands_step_last lib answer device session connected accepts done e ks k todo outside
          fresh)
  clusters_walk done e todo ks k (k' ∷ more) outside (below, increasing) (fresh, others) =
      run-then lib answer 1 (1 + cluster_readings more) (2 + cluster_readings more) _ _ _
        (omega arith)
        (attributes_step lib answer device session connected accepts done e ks k (k' ∷ more) todo
          outside fresh)
        (run-then lib answer 1 (cluster_readings more) (1 + cluster_readings more) _ _ _ refl
          (commands_step_more lib answer device session connected accepts done e ks k k' more todo
            outside fresh)
          (clusters_walk done e todo
              (add_cluster lib answer device session connected accepts e ks k) k' more outside
              increasing
              (AllMissing-snoc k (described_cluster lib answer e k) (k' ∷ more) ks below others)
            ∙ rw (append_assoc ks) refl))

  pub server_step :
      (done : List (ℕ × Endpoint)) (e : ℕ) (todo : List ℕ) (last : Option Reading) (k : ℕ)
      (more : List ℕ)
      → IsMissing e done
      → servers_of lib answer e ≡ k ∷ more
      → run lib answer 1
          (after_endpoint lib answer device session connected accepts done (e ∷ todo) last)
        ≡ ret (at_cluster lib answer device session connected accepts done e [] k more todo)
  unfolding run call_back on_server_list_read_callback endpoint_at servers_of entries first_key
  server_step done e todo last k more outside serves =
      let built : emplace_all new_cluster (answer e lib.descriptor_id lib.server_list_id) []
          ≡ entries new_cluster (k ∷ more) =
        emplace_all-entries new_cluster (answer e lib.descriptor_id lib.server_list_id) []
        ∙ ap (entries new_cluster) serves in
      rw (find-middle e _ _ done outside) (
        rw built (
          rw (update-middle e _ _ _ done outside) (
            reads_on lib device session connected accepts answer e k lib.attribute_list_id
              attributes_read _ refl)))

  pub part_list_step :
      (e : ℕ) (todo : List ℕ) (last : Option Reading)
      → insert_all (answer 0 lib.descriptor_id lib.parts_list_id) [] ≡ e ∷ todo
      → run lib answer 1 (
          reads (
            manager lib answer device session connected accepts [] none none (
              asks lib answer device session connected accepts 0 lib.descriptor_id lib.parts_list_id
                part_list_read)))
        ≡ ret (after_endpoint lib answer device session connected accepts [] (e ∷ todo) last)
  unfolding run call_back on_part_list_read_callback endpoint_at new_endpoint entries first_key
      insert_all
  part_list_step e todo last listed =
      let built : emplace_all new_endpoint (answer 0 lib.descriptor_id lib.parts_list_id) []
          ≡ entries new_endpoint (e ∷ todo) =
        emplace_all-entries new_endpoint (answer 0 lib.descriptor_id lib.parts_list_id) []
        ∙ ap (entries new_endpoint) listed in
      rw built (
        rw (find-middle e _ _ [] tt) (
          reads_on lib device session connected accepts answer e lib.descriptor_id
            lib.server_list_id server_list_read _ refl))
