-- ===== src/Discovery/Described.antt =====
-- A discovery ends with the description of the device.
use matter_hub.Prelude.{
  ℕ, ◌+◌, ◌*◌, ◌≡◌, refl, ◌∙◌, ◌≢◌, List, [], ◌∷◌, ◌++◌, append_assoc, append-nil, List-cases, inl,
  inr, Option, none, some, length, arith, true, false, if◌then◌else◌,
}
use matter_hub.Outcome.{ret, ◌>>=◌}
use matter_hub.OrderedMap.{nat_key, find}
use matter_hub.OrderedMap.Ids.{
  IsMissing, IsIncreasing, entries, insert_all, elem, keys, keys-entries, length-entries,
  elem-insert_all, IsIncreasing-insert_all, insert_all-nil, find-entries,
}
use matter_hub.Chip.{no_error, Device}
use matter_hub.Reports.{ReadPrepareParams}
use matter_hub.Discovery.{
  Endpoint, part_list_read, Reading, DescriptionManager, reads, publishes, DiscoveryLibrary,
  new_description_manager, commands_read,
}
use matter_hub.Discovery.Walk.{run, run-then, read_attribute_sends}
use matter_hub.Discovery.Steps.{
  Answers, described_cluster, described_endpoint, servers_of, AllMissing, AllMissing-snoc,
  AllMissing-nil, asks, manager, after_endpoint,
}
use matter_hub.Discovery.Walks.{
  cluster_readings, last_of, clusters_walk, server_step, part_list_step,
}

-- One reading for the clusters of each endpoint, and two for each cluster.
abbrev pub readings : List (ℕ × Endpoint) → ℕ
readings [] = 0
readings ((e, endpoint) ∷ es) = 1 + 2 * length endpoint.clusters + readings es

cluster_readings-length : (k : ℕ) (ks : List ℕ) → cluster_readings ks ≡ 2 * length (k ∷ ks)
cluster_readings-length k [] = refl
cluster_readings-length k (j ∷ ks) = omega (arith, cluster_readings-length j ks)

-- What a device says of itself: an entry for each endpoint in the parts list of endpoint 0 and no
-- other, in increasing order; for each the clusters of its server list and no others, in increasing
-- order; and for each of these the device's lists of attributes and of accepted commands.
pub record IsDescription (lib : DiscoveryLibrary) (answer : Answers) (es : List (ℕ × Endpoint))
    : Type 0 where
  pub ordered : IsIncreasing (keys es)
  pub absent :
      (e : ℕ) → elem e (answer 0 lib.descriptor_id lib.parts_list_id) ≡ false → find e es ≡ none
  pub present :
      (e : ℕ)
      → elem e (answer 0 lib.descriptor_id lib.parts_list_id) ≡ true
      → (endpoint : Endpoint) × (find e es ≡ some endpoint)
        × (endpoint.id ≡ e)
        × IsIncreasing (keys endpoint.clusters)
        × ((k : ℕ)
            → find k endpoint.clusters ≡ (
                if elem k (answer e lib.descriptor_id lib.server_list_id)
                then some (record {
                  id = k;
                  attributes = answer e k lib.attribute_list_id;
                  commands = answer e k lib.accepted_command_list_id;
                })
                else none))

module _ (lib : DiscoveryLibrary) (answer : Answers) where
  servers_of-IsIncreasing : (e : ℕ) → IsIncreasing (servers_of lib answer e)
  unfolding servers_of
  servers_of-IsIncreasing e =
      IsIncreasing-insert_all (answer e lib.descriptor_id lib.server_list_id) [] tt

  -- Inserting one by one keeps what is listed.
  pub elem-listed : (k : ℕ) (ids : List ℕ) → elem k (insert_all ids []) ≡ elem k ids
  unfolding elem
  elem-listed k ids = ground (arith, elem-insert_all k ids [])

  abbrev pub parts : List ℕ
  parts = answer 0 lib.descriptor_id lib.parts_list_id

  abbrev description : List (ℕ × Endpoint)
  description = entries (described_endpoint lib answer) (insert_all parts [])

  description-find :
      (e : ℕ)
      → find e description ≡ (if elem e parts then some (described_endpoint lib answer e) else none)
  description-find e =
      rw (find-entries (described_endpoint lib answer) e (insert_all parts []), elem-listed e parts)
        refl

  description-IsDescription : IsDescription lib answer description
  unfolding described_endpoint described_cluster servers_of
  description-IsDescription = record {
    ordered =
        rw (keys-entries (described_endpoint lib answer) (insert_all parts []))
          (IsIncreasing-insert_all parts [] tt);
    absent = λ e h. rw (description-find e, h) refl;
    present = λ e h. (
      described_endpoint lib answer e,
      rw (description-find e, h) refl,
      refl,
      rw (keys-entries (described_cluster lib answer e) (servers_of lib answer e))
          (servers_of-IsIncreasing e),
      λ k.
          rw
            (
              find-entries (described_cluster lib answer e) k (servers_of lib answer e),
              elem-listed k (answer e lib.descriptor_id lib.server_list_id),
            )
            refl,
    );
  }

module _ (lib : DiscoveryLibrary) (answer : Answers) (device : Device) (session : ℕ)
    (connected : device.secure_session ≡ some session)
    (accepts : (p : ReadPrepareParams) → lib.reports.send_request p ≡ no_error) where
  pub endpoint_walk :
      (done : List (ℕ × Endpoint)) (e : ℕ) (todo : List ℕ) (last : Option Reading)
      → IsMissing e done
      → servers_of lib answer e ≢ []
      → (last' : Option Reading) × (run lib answer
            (1 + 2 * length (entries (described_cluster lib answer e) (servers_of lib answer e)))
            (after_endpoint lib answer device session connected accepts done (e ∷ todo) last)
          ≡ ret (
              after_endpoint lib answer device session connected accepts
                (done ++ (e, described_endpoint lib answer e) ∷ [])
                todo
                last'))
  unfolding described_endpoint
  endpoint_walk done e todo last outside serves = elim (List-cases (servers_of lib answer e)) [
    | inl nothing ↦ absurd (serves nothing)
    | inr (k, more, some_servers) ↦ (
      asks lib answer device session connected accepts e (last_of k more)
          lib.accepted_command_list_id commands_read,
      run-then lib answer 1 (cluster_readings more) _ _ _ _
          (rw (some_servers, length-entries (described_cluster lib answer e) (k ∷ more))
            (omega (arith, cluster_readings-length k more)))
          (server_step lib answer device session connected accepts done e todo last k more outside
            some_servers)
          (clusters_walk lib answer device session connected accepts done e todo [] k more outside
              (rw some_servers at (servers_of-IsIncreasing lib answer e))
              (AllMissing-nil _ (k ∷ more))
            ∙ rw some_servers refl),
    )
  ]

  endpoints_walk :
      (ids : List ℕ) (done : List (ℕ × Endpoint)) (last : Option Reading)
      → IsIncreasing ids
      → AllMissing ids done
      → ((i : ℕ) → elem i ids ≡ true → servers_of lib answer i ≢ [])
      → (last' : Option Reading) × (run lib answer
            (readings (entries (described_endpoint lib answer) ids))
            (after_endpoint lib answer device session connected accepts done ids last)
          ≡ ret (
              publishes (
                manager lib answer device session connected accepts
                  (done ++ entries (described_endpoint lib answer) ids)
                  none
                  none
                  last')))
  unfolding entries described_endpoint elem run
  endpoints_walk [] done last increasing outside serves = (last, rw (append-nil done) refl)
  endpoints_walk (e ∷ ids) done last (below, increasing) (outside, others) serves =
      let (first, walked) = endpoint_walk done e ids last outside (serves e (ground arith)) in
      let (last', finished) =
        endpoints_walk ids (done ++ (e, described_endpoint lib answer e) ∷ []) first increasing
          (AllMissing-snoc e (described_endpoint lib answer e) ids done below others)
          (λ i h. serves i (ground arith)) in
      (last', run-then lib answer _ _ _ _ _ _ refl walked (finished ∙ rw (append_assoc done) refl))

  pub asks_parts :
      new_description_manager lib device
      ≡ ret (
          reads (
            manager lib answer device session connected accepts [] none none (
              asks lib answer device session connected accepts 0 lib.descriptor_id lib.parts_list_id
                part_list_read)))
  unfolding new_description_manager
  asks_parts =
      rw
        (read_attribute_sends lib device session connected accepts 0 lib.descriptor_id
          lib.parts_list_id part_list_read
          (manager lib answer device session connected accepts [] none none none) refl)
        refl

  pub parts_answered :
      parts lib answer ≢ []
      → run lib answer 1 (
          reads (
            manager lib answer device session connected accepts [] none none (
              asks lib answer device session connected accepts 0 lib.descriptor_id lib.parts_list_id
                part_list_read)))
        ≡ ret (
            after_endpoint lib answer device session connected accepts []
              (insert_all (parts lib answer) [])
              none)
  parts_answered some_part = elim (List-cases (insert_all (parts lib answer) [])) [
    | inl nothing ↦ absurd (insert_all-nil (parts lib answer) some_part nothing)
    | inr (e, todo, listed) ↦
        rw listed (part_list_step lib answer device session connected accepts e todo none listed)
  ]

  -- A discovery of a connected device that accepts every request ends, and what the manager is
  -- then scheduled to publish describes the device. This is stated for a device that lists at least
  -- one endpoint and, for each endpoint that it lists, at least one cluster. The number of answers
  -- is one for the parts list, one for each endpoint and two for each cluster.
  pub discovery-IsDescription :
      answer 0 lib.descriptor_id lib.parts_list_id ≢ []
      → ((e : ℕ)
          → elem e (answer 0 lib.descriptor_id lib.parts_list_id) ≡ true
          → answer e lib.descriptor_id lib.server_list_id ≢ [])
      → (m : DescriptionManager) × ((new_description_manager lib device
            >>= run lib answer (1 + readings m.endpoints))
          ≡ ret (publishes m))
        × IsDescription lib answer m.endpoints
        × (m.device ≡ device)
  unfolding servers_of
  discovery-IsDescription some_part serves =
      let (last, walked) =
        endpoints_walk (insert_all (parts lib answer) []) [] none
          (IsIncreasing-insert_all (parts lib answer) [] tt) (AllMissing-nil _ _)
          (λ i h.
            insert_all-nil _ (serves i (rw (elem-listed lib answer i (parts lib answer)) at h))) in
      (
        manager lib answer device session connected accepts (description lib answer) none none last,
        rw asks_parts (run-then lib answer 1 _ _ _ _ _ refl (parts_answered some_part) walked),
        description-IsDescription lib answer,
        refl,
      )
