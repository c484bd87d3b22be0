-- ===== src/Discovery.antt =====
-- src/main/DiscoverCommands.cpp and its header: the callbacks of a DescriptionManager, which read
-- the endpoints of a device, the clusters of each, and the attributes and commands of each cluster.
pub mod Walk
pub mod Steps
pub mod Walks
pub mod Described
pub mod Empty
pub mod WellFormed
pub mod Invariant
pub mod Commands
pub mod Birth
pub mod Tests
use matter_hub.Prelude.{ℕ, ◌≡◌, List, [], ◌∷◌, ◌++◌, Option, none, some, ◌==◌, if◌then◌else◌}
use matter_hub.Outcome.{Outcome, ret, or_fault, end_iterator, ◌>>=◌}
use matter_hub.OrderedMap.{nat_key, find, first_key, next_key, update}
use matter_hub.OrderedMap.Ids.{emplace_all}
use matter_hub.Chip.{Device}
use matter_hub.Reports.{ReportLibrary, Reports}
use matter_hub.Interaction.{subscription_of, do_read, no_reports}

-- shell::Cluster and shell::Endpoint
pub record Cluster : Type 0 where
  pub id : ℕ
  pub attributes : List ℕ
  pub commands : List ℕ

pub record Endpoint : Type 0 where
  pub id : ℕ
  pub clusters : List (ℕ × Cluster)

pub new_cluster : ℕ → Cluster
new_cluster id = record { id = id; attributes = []; commands = [] }

pub new_endpoint : ℕ → Endpoint
new_endpoint id = record { id = id; clusters = [] }

-- The four callbacks.
pub data Callback : Type 0 where
  part_list_read server_list_read attributes_read commands_read : Callback

-- The Subscription of a call of ReadAttribute: the path that it reads, its callback, and its
-- read clients and requests.
pub record Reading : Type 0 where
  pub endpoint_id : ℕ
  pub cluster_id : ℕ
  pub attribute_id : ℕ
  pub callback : Callback
  pub reports : Reports

-- DescriptionManager. The iterators are `none` where they point to no element; the one of the
-- clusters names the endpoint whose map it belongs to.
pub record DescriptionManager : Type 0 where
  pub device : Device
  pub endpoints : List (ℕ × Endpoint)
  pub current_endpoint : Option ℕ
  pub current_cluster : Option (ℕ × ℕ)
  pub last_sub : Option Reading

-- A manager that reads, or that is scheduled for PublishToMqttCompact.
pub data Progress : Type 0 where
  reads publishes : DescriptionManager → Progress

-- The ids of the Descriptor cluster and of the attributes that are read.
pub record DiscoveryLibrary : Type 0 where
  pub reports : ReportLibrary
  pub descriptor_id : ℕ
  pub parts_list_id : ℕ
  pub server_list_id : ℕ
  pub attribute_list_id : ℕ
  pub accepted_command_list_id : ℕ

-- `currentEndpoint->first` and `currentEndpoint->second`
pub endpoint_at : Option ℕ → List (ℕ × Endpoint) → Outcome (ℕ × Endpoint)
endpoint_at none es = or_fault none end_iterator
endpoint_at (some e) es = do endpoint ← or_fault (find e es) end_iterator; ret (e, endpoint)

-- `currentCluster++`
pub advance_cluster : ℕ × ℕ → Endpoint → Option (ℕ × ℕ)
advance_cluster (e, k) endpoint = elim (next_key k endpoint.clusters) [
  | none ↦ none
  | some k' ↦ some (e, k')
]

-- A change of `currentCluster->second`, which the iterator has to point to.
pub change_cluster :
    ℕ × ℕ → (Cluster → Cluster) → List (ℕ × Endpoint) → Outcome (List (ℕ × Endpoint))
change_cluster (e, k) f es = do
  endpoint ← or_fault (find e es) end_iterator
  _ ← or_fault (find k endpoint.clusters) end_iterator
  ret (update e (λ E. record E { clusters = update k f E.clusters }) es)

pub push_attributes : List ℕ → Cluster → Cluster
push_attributes ids cluster = record cluster { attributes = cluster.attributes ++ ids }

pub push_commands : List ℕ → Cluster → Cluster
push_commands ids cluster = record cluster { commands = cluster.commands ++ ids }

module _ (lib : DiscoveryLibrary) where
  -- DescriptionManager::ReadAttribute; its error is only left out of the log.
  pub read_attribute : ℕ → ℕ → ℕ → Callback → DescriptionManager → Outcome DescriptionManager
  unfolding do_read subscription_of
  read_attribute e k a callback m = do
    (r, error) ← do_read lib.reports (subscription_of m.device e k a) no_reports
    ret (record m {
      last_sub = some (record {
        endpoint_id = e;
        cluster_id = k;
        attribute_id = a;
        callback = callback;
        reports = r;
      });
    })

  -- The constructor, which calls init.
  pub new_description_manager : Device → Outcome Progress
  new_description_manager device = do
    m ← read_attribute 0 lib.descriptor_id lib.parts_list_id part_list_read (record {
      device = device;
      endpoints = [];
      current_endpoint = none;
      current_cluster = none;
      last_sub = none;
    })
    ret (reads m)

  -- onPartListReadCallback, with the ids of the list.
  pub on_part_list_read_callback : List ℕ → DescriptionManager → Outcome Progress
  unfolding emplace_all new_endpoint endpoint_at
  on_part_list_read_callback ids m = do
    let es : List (ℕ × Endpoint) = emplace_all new_endpoint ids m.endpoints
    (e, endpoint) ← endpoint_at (first_key es) es
    m' ←
        read_attribute e lib.descriptor_id lib.server_list_id server_list_read
          (record m { endpoints = es; current_endpoint = first_key es })
    ret (reads m')

  -- onServerListReadCallback
  pub on_server_list_read_callback : List ℕ → DescriptionManager → Outcome Progress
  unfolding emplace_all new_cluster endpoint_at
  on_server_list_read_callback ids m = do
    (e, endpoint) ← endpoint_at m.current_endpoint m.endpoints
    let ks : List (ℕ × Cluster) = emplace_all new_cluster ids endpoint.clusters
    k ← or_fault (first_key ks) end_iterator
    m' ← read_attribute endpoint.id k lib.attribute_list_id attributes_read (record m {
      endpoints = update e (λ E. record E { clusters = ks }) m.endpoints;
      current_cluster = some (e, k);
    })
    ret (reads m')

  -- onAttributesReadCallback
  pub on_attributes_read_callback : List ℕ → DescriptionManager → Outcome Progress
  unfolding change_cluster push_attributes endpoint_at
  on_attributes_read_callback ids m = do
    (owner, k) ← or_fault m.current_cluster end_iterator
    es ← change_cluster (owner, k) (push_attributes ids) m.endpoints
    (e, endpoint) ← endpoint_at m.current_endpoint es
    m' ← read_attribute e k lib.accepted_command_list_id commands_read (record m { endpoints = es })
    ret (reads m')

  -- The branch of onCommandsReadCallback after the last cluster of an endpoint.
  after_last_cluster : Option ℕ → DescriptionManager → Outcome Progress
  after_last_cluster none m = ret (publishes m)
  after_last_cluster (some e) m = do
    m' ← read_attribute e lib.descriptor_id lib.server_list_id server_list_read m
    ret (reads m')

  after_cluster : ℕ → Option (ℕ × ℕ) → DescriptionManager → Outcome Progress
  unfolding after_last_cluster
  after_cluster e none m =
      let next : Option ℕ = next_key e m.endpoints in
      after_last_cluster next (record m { current_cluster = none; current_endpoint = next })
  after_cluster e (some (owner, k)) m = do
    m' ←
        read_attribute e k lib.attribute_list_id attributes_read
          (record m { current_cluster = some (owner, k) })
    ret (reads m')

  -- onCommandsReadCallback
  pub on_commands_read_callback : List ℕ → DescriptionManager → Outcome Progress
  unfolding change_cluster push_commands endpoint_at after_cluster
  on_commands_read_callback ids m = do
    (owner, k) ← or_fault m.current_cluster end_iterator
    es ← change_cluster (owner, k) (push_commands ids) m.endpoints
    (o, clusters_of) ← endpoint_at (some owner) es
    (e, endpoint) ← endpoint_at m.current_endpoint es
    after_cluster e (advance_cluster (owner, k) clusters_of) (record m { endpoints = es })

  -- The call that `mCallback` stands for.
  pub call_back : Callback → List ℕ → DescriptionManager → Outcome Progress
  unfolding on_part_list_read_callback on_server_list_read_callback on_attributes_read_callback
      on_commands_read_callback
  call_back part_list_read = on_part_list_read_callback
  call_back server_list_read = on_server_list_read_callback
  call_back attributes_read = on_attributes_read_callback
  call_back commands_read = on_commands_read_callback
