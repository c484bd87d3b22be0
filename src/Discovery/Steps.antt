-- ===== src/Discovery/Steps.antt =====
-- What a discovery finds: the description of a device; and what one answer does to a manager that
-- walks over its map.
use matter_hub.Prelude.{
  ℕ, ◌≡◌, refl, ◌≢◌, List, [], ◌∷◌, ◌++◌, append_assoc, Option, none, some, arith,
}
use matter_hub.Outcome.{ret}
use matter_hub.OrderedMap.{nat_key, first_key}
use matter_hub.OrderedMap.Ids.{
  IsMissing, IsBelow, find-middle, update-middle, next_key-middle, entries, insert_all,
}
use matter_hub.Chip.{no_error, Device}
use matter_hub.Reports.{ReadPrepareParams}
use matter_hub.Discovery.{
  Cluster, Endpoint, new_cluster, new_endpoint, Callback, server_list_read, attributes_read,
  commands_read, Reading, DescriptionManager, Progress, reads, publishes, DiscoveryLibrary,
  call_back, endpoint_at, change_cluster, push_attributes, push_commands, advance_cluster,
  after_cluster, after_last_cluster, on_attributes_read_callback, on_commands_read_callback,
}
use matter_hub.Discovery.Walk.{run, sent, reads_on}

-- A device that answers each path with a list of ids.
abbrev pub Answers : Type 0
Answers = ℕ → ℕ → ℕ → List ℕ

module _ (lib : DiscoveryLibrary) (answer : Answers) where
  unfoldable pub described_cluster : ℕ → ℕ → Cluster
  described_cluster e k = record {
    id = k;
    attributes = answer e k lib.attribute_list_id;
    commands = answer e k lib.accepted_command_list_id;
  }

  unfoldable pub servers_of : ℕ → List ℕ
  unfolding insert_all
  servers_of e = insert_all (answer e lib.descriptor_id lib.server_list_id) []

  unfoldable pub described_endpoint : ℕ → Endpoint
  unfolding entries
  described_endpoint e = record { id = e; clusters = entries (described_cluster e) (servers_of e) }

-- None of the ids is a key of the map.
abbrev pub AllMissing {ℓ} : {V : Type ℓ} → List ℕ → List (ℕ × V) → Type 0
AllMissing [] m = Unit
AllMissing (k ∷ ks) m = IsMissing k m × AllMissing ks m

IsMissing-snoc {ℓ} :
    {V : Type ℓ} (j k : ℕ) (v : V) (m : List (ℕ × V))
    → k ≢ j
    → IsMissing j m
    → IsMissing j (m ++ (k, v) ∷ [])
IsMissing-snoc j k v [] ne h = (ne, tt)
IsMissing-snoc j k v (e ∷ m) ne (h, rest) = (h, IsMissing-snoc j k v m ne rest)

pub AllMissing-snoc {ℓ} :
    {V : Type ℓ} (k : ℕ) (v : V) (ks : List ℕ) (m : List (ℕ × V))
    → IsBelow k ks
    → AllMissing ks m
    → AllMissing ks (m ++ (k, v) ∷ [])
AllMissing-snoc k v [] m below h = tt
AllMissing-snoc k v (j ∷ ks) m (lt, below) (missing, h) =
    (IsMissing-snoc j k v m (λ e. omega arith) missing, AllMissing-snoc k v ks m below h)

pub AllMissing-nil {ℓ} : (V : Type ℓ) (ks : List ℕ) → AllMissing {V = V} ks []
AllMissing-nil V [] = tt
AllMissing-nil V (k ∷ ks) = (tt, AllMissing-nil V ks)

advance_cluster-more :
    (e id k : ℕ) (v : Cluster) (k' : ℕ) (v' : Cluster) (rest done : List (ℕ × Cluster))
    → IsMissing k done
    → advance_cluster (e, k) (record { id = id; clusters = done ++ (k, v) ∷ (k', v') ∷ rest })
      ≡ some (e, k')
unfolding advance_cluster first_key
advance_cluster-more e id k v k' v' rest done fresh =
    rw (next_key-middle k v _ done fresh, advance_cluster) refl

advance_cluster-last :
    (e id k : ℕ) (v : Cluster) (done : List (ℕ × Cluster))
    → IsMissing k done
    → advance_cluster (e, k) (record { id = id; clusters = done ++ (k, v) ∷ [] }) ≡ none
unfolding advance_cluster first_key
advance_cluster-last e id k v done fresh =
    rw (next_key-middle k v _ done fresh, advance_cluster) refl

module _ (lib : DiscoveryLibrary) (answer : Answers) (device : Device) (session : ℕ)
    (connected : device.secure_session ≡ some session)
    (accepts : (p : ReadPrepareParams) → lib.reports.send_request p ≡ no_error) where
  abbrev pub asks : ℕ → ℕ → ℕ → Callback → Option Reading
  asks e k a callback = some (sent lib device session connected accepts e k a callback)

  -- The endpoints while the clusters of `e` are `ks`.
  abbrev pub walking : List (ℕ × Endpoint) → ℕ → List (ℕ × Cluster) → List ℕ → List (ℕ × Endpoint)
  walking done e ks todo = done ++ (e, record { id = e; clusters = ks }) ∷ entries new_endpoint todo

  abbrev pub manager :
      List (ℕ × Endpoint) → Option ℕ → Option (ℕ × ℕ) → Option Reading → DescriptionManager
  manager es ce ck last = record {
    device = device;
    endpoints = es;
    current_endpoint = ce;
    current_cluster = ck;
    last_sub = last;
  }

  -- Cluster `k` of endpoint `e` is read next.
  abbrev pub at_cluster :
      List (ℕ × Endpoint) → ℕ → List (ℕ × Cluster) → ℕ → List ℕ → List ℕ → Progress
  at_cluster done e ks k more todo = reads (
      manager (walking done e (ks ++ (k, new_cluster k) ∷ entries new_cluster more) todo) (some e)
        (some (e, k)) (asks e k lib.attribute_list_id attributes_read))

  -- The clusters of `e` are done.
  abbrev pub after_endpoint : List (ℕ × Endpoint) → List ℕ → Option Reading → Progress
  after_endpoint done [] last = publishes (manager done none none last)
  after_endpoint done (e ∷ todo) last = reads (
      manager (walking done e [] todo) (some e) none
        (asks e lib.descriptor_id lib.server_list_id server_list_read))

  -- The attributes of cluster `k` are there, and its commands are read next.
  abbrev pub at_commands :
      List (ℕ × Endpoint) → ℕ → List (ℕ × Cluster) → ℕ → List ℕ → List ℕ → Progress
  at_commands done e ks k more todo =
      let cluster : Cluster = record {
        id = k;
        attributes = answer e k lib.attribute_list_id;
        commands = [];
      } in
      reads (
        manager (walking done e (ks ++ (k, cluster) ∷ entries new_cluster more) todo) (some e)
          (some (e, k)) (asks e k lib.accepted_command_list_id commands_read))

  abbrev pub add_cluster : ℕ → List (ℕ × Cluster) → ℕ → List (ℕ × Cluster)
  add_cluster e ks k = ks ++ (k, described_cluster lib answer e k) ∷ []

  abbrev pub add_endpoint : List (ℕ × Endpoint) → ℕ → List (ℕ × Cluster) → List (ℕ × Endpoint)
  add_endpoint done e ks = done ++ (e, record { id = e; clusters = ks }) ∷ []

  pub attributes_step :
      (done : List (ℕ × Endpoint)) (e : ℕ) (ks : List (ℕ × Cluster)) (k : ℕ) (more todo : List ℕ)
      → IsMissing e done
      → IsMissing k ks
      → run lib answer 1 (at_cluster done e ks k more todo)
        ≡ ret (at_commands done e ks k more todo)
  unfolding run call_back on_attributes_read_callback change_cluster endpoint_at push_attributes
      new_cluster
  attributes_step done e ks k more todo outside fresh = rw (find-middle e _ _ done outside) (
      rw (find-middle k _ _ ks fresh) (
        rw (update-middle e _ _ _ done outside) (
          rw (find-middle e _ _ done outside) (
            rw (update-middle k _ _ _ ks fresh) (
              reads_on lib device session connected accepts answer e k lib.accepted_command_list_id
                commands_read _ refl)))))

  pub commands_step_more :
      (done : List (ℕ × Endpoint)) (e : ℕ) (ks : List (ℕ × Cluster)) (k k' : ℕ) (more todo : List ℕ)
      → IsMissing e done
      → IsMissing k ks
      → run lib answer 1 (at_commands done e ks k (k' ∷ more) todo)
        ≡ ret (at_cluster done e (add_cluster e ks k) k' more todo)
  unfolding run call_back on_commands_read_callback change_cluster endpoint_at push_commands
      new_cluster after_cluster described_cluster entries first_key
  commands_step_more done e ks k k' more todo outside fresh = rw (find-middle e _ _ done outside) (
      rw (find-middle k _ _ ks fresh) (
        rw (update-middle e _ _ _ done outside) (
          rw (find-middle e _ _ done outside) (
            rw (update-middle k _ _ _ ks fresh) (
              rw (advance_cluster-more e _ k _ k' _ _ ks fresh) (
                rw (append_assoc ks) (
                  reads_on lib device session connected accepts answer e k' lib.attribute_list_id
                    attributes_read _ refl)))))))

  pub commands_step_last :
      (done : List (ℕ × Endpoint)) (e : ℕ) (ks : List (ℕ × Cluster)) (k : ℕ) (todo : List ℕ)
      → IsMissing e done
      → IsMissing k ks
      → run lib answer 1 (at_commands done e ks k [] todo)
        ≡ ret (
            after_endpoint
              (add_endpoint done e (add_cluster e ks k))
              todo
              (asks e k lib.accepted_command_list_id commands_read))
  unfolding run call_back on_commands_read_callback change_cluster endpoint_at push_commands
      new_cluster after_cluster described_cluster entries first_key after_last_cluster new_endpoint
  commands_step_last done e ks k [] outside fresh = rw (find-middle e _ _ done outside) (
      rw (find-middle k _ _ ks fresh) (
        rw (update-middle e _ _ _ done outside) (
          rw (find-middle e _ _ done outside) (
            rw (update-middle k _ _ _ ks fresh) (
              rw (advance_cluster-last e _ k _ ks fresh)
                (rw (next_key-middle e _ _ done outside) refl))))))
  commands_step_last done e ks k (e' ∷ todo) outside fresh = rw (find-middle e _ _ done outside) (
      rw (find-middle k _ _ ks fresh) (
        rw (update-middle e _ _ _ done outside) (
          rw (find-middle e _ _ done outside) (
            rw (update-middle k _ _ _ ks fresh) (
              rw (advance_cluster-last e _ k _ ks fresh) (
                rw (next_key-middle e _ _ done outside) (
                  rw (append_assoc done) (
                    reads_on lib device session connected accepts answer e' lib.descriptor_id
                      lib.server_list_id server_list_read _ refl))))))))
