-- ===== src/Discovery/Birth.antt =====
-- PublishToMqttCompact of src/main/DiscoverCommands.cpp: the description goes to the broker as a
-- DBIRTH message.
pub mod Expected
use matter_hub.Prelude.{
  ℕ, suc, ◌+◌, ◌-◌, ◌%◌, ◌^◌, ◌<◌, ◌≤◌, ◌≡◌, refl, ◌≢◌, ◌↔◌, List, [], ◌∷◌, ◌++◌, map, codes, true,
  false, some, ltb, take, Bool-cases, inl, inr, arith,
}
use matter_hub.Prelude.Int.{ℤ, pos, negsuc, to_signed, to_unsigned}
use matter_hub.Outcome.{ret, ◌>>=◌}
use matter_hub.OrderedMap.Ids.{elem}
use matter_hub.Chip.{no_error, Device}
use matter_hub.Reports.{ReadPrepareParams}
use matter_hub.Text.{decimal, decimal_int, snprintf, slash}
use matter_hub.Mqtt.{
  Manager, MqttCommandData, publish, client_publish, get_instance, publish_command,
}
use matter_hub.Text.Split.{join}
use matter_hub.Telemetry.{heap_string}
use matter_hub.Discovery.{
  Cluster, Endpoint, DescriptionManager, publishes, DiscoveryLibrary, new_description_manager,
}
use matter_hub.Discovery.Walk.{run}
use matter_hub.Discovery.Steps.{Answers}
use matter_hub.Discovery.Described.{readings, IsDescription, discovery-IsDescription}

-- What goes into the JSON objects of the message.
pub record BirthCluster : Type 0 where
  pub id : ℕ
  pub attributes : List ℤ
  pub commands : List ℤ

pub record BirthEndpoint : Type 0 where
  pub id : ℕ
  pub clusters : List BirthCluster

pub record Birth : Type 0 where
  pub timestamp : ℕ
  pub endpoints : List BirthEndpoint
  pub seq : ℕ

-- cJSON_PrintUnformatted and CONFIG_MATTERHUBID
pub record BirthLibrary : Type 0 where
  pub print : Birth → List ℕ
  pub hub_id : ℤ

-- `cJSON_CreateIntArray((int *)ids.data(), ids.size())`, on unsigned ids of 32 bits
pub int_array : List ℕ → List ℤ
unfolding to_signed
int_array ids = map (λ i. to_signed 32 (pos i)) ids

-- The two loops; the ids are the keys of the maps.
pub birth_clusters : List (ℕ × Cluster) → List BirthCluster
unfolding int_array
birth_clusters [] = []
birth_clusters ((k, cluster) ∷ ks) =
    record {
      id = k;
      attributes = int_array cluster.attributes;
      commands = int_array cluster.commands;
    }
    ∷ birth_clusters ks

pub birth_endpoints : List (ℕ × Endpoint) → List BirthEndpoint
unfolding birth_clusters
birth_endpoints [] = []
birth_endpoints ((e, endpoint) ∷ es) =
    record { id = e; clusters = birth_clusters endpoint.clusters } ∷ birth_endpoints es

-- "spBv1.0/matterhub/DBIRTH/%d/%llu"
pub birth_topic : ℤ → ℕ → List ℕ
unfolding snprintf
birth_topic hub_id node_id =
    snprintf 256
      (codes "spBv1.0/matterhub/DBIRTH/" ++ (decimal_int hub_id ++ (slash ++ decimal node_id)))

-- PublishToMqttCompact, with the reading of the clock and the counter `sSeq`, an unsigned int. It
-- calls Publish itself, and then deletes the manager.
pub publish_to_mqtt_compact :
    {C : Type 0} → BirthLibrary → ℕ → DescriptionManager → ℕ × Manager C → ℕ × Manager C
unfolding birth_endpoints birth_topic
publish_to_mqtt_compact lib timestamp m (seq, s) =
    let dbirth : Birth = record {
      timestamp = timestamp;
      endpoints = birth_endpoints m.endpoints;
      seq = seq;
    } in
    let message : MqttCommandData = record {
      task = publish;
      topic = heap_string (birth_topic lib.hub_id m.device.node_id);
      payload = some (heap_string (lib.print dbirth));
    } in
    ((seq + 1) % 2 ^ 32, publish_command message (get_instance s))

-- A device that has a session and accepts every request, with at least one endpoint and at least
-- one cluster on each: its discovery ends, and with a manager of the MQTT client that is set up and
-- connected, exactly one message goes to the broker. Its endpoints are those of a description of
-- the device, it carries the counter, which then goes up by one, and its two strings are freed.
pub discovery_publishes :
    {C : Type 0} (lib : DiscoveryLibrary) (answer : Answers) (device : Device) (session : ℕ)
    (birth : BirthLibrary) (timestamp seq : ℕ) (s : Manager C)
    → device.secure_session ≡ some session
    → ((p : ReadPrepareParams) → lib.reports.send_request p ≡ no_error)
    → answer 0 lib.descriptor_id lib.parts_list_id ≢ []
    → ((e : ℕ)
        → elem e (answer 0 lib.descriptor_id lib.parts_list_id) ≡ true
        → answer e lib.descriptor_id lib.server_list_id ≢ [])
    → s.initialised ≡ true
    → s.connected ≡ true
    → (m : DescriptionManager) × ((new_description_manager lib device
          >>= run lib answer (1 + readings m.endpoints))
        ≡ ret (publishes m))
      × IsDescription lib answer m.endpoints
      × (publish_to_mqtt_compact birth timestamp m (seq, s) ≡ (
        (seq + 1) % 2 ^ 32,
        record s {
          calls =
              s.calls
              ++ client_publish (birth_topic birth.hub_id device.node_id) (
                  some (
                    birth.print (record {
                      timestamp = timestamp;
                      endpoints = birth_endpoints m.endpoints;
                      seq = seq;
                    })))
                ∷ [];
          freed =
              s.freed
              ++ heap_string (
                  birth.print (record {
                    timestamp = timestamp;
                    endpoints = birth_endpoints m.endpoints;
                    seq = seq;
                  }))
                ∷ heap_string (birth_topic birth.hub_id device.node_id)
                ∷ [];
        },
      ))
unfolding publish_to_mqtt_compact publish_command get_instance
discovery_publishes lib answer device session birth timestamp seq s connected accepts parts serves
      up online =
    let (m, ended, described, same) =
      discovery-IsDescription lib answer device session connected accepts parts serves in
    (m, ended, described, rw (same, up) (rw online refl))

-- Without a connection of a manager that is set up, a discovery leaves nothing of its message: no
-- call, nothing stored, nothing freed. The counter goes up all the same.
pub birth_lost :
    {C : Type 0} (birth : BirthLibrary) (timestamp seq : ℕ) (m : DescriptionManager) (s : Manager C)
    → s.initialised ≡ true
    → s.connected ≡ false
    → publish_to_mqtt_compact birth timestamp m (seq, s) ≡ ((seq + 1) % 2 ^ 32, s)
unfolding publish_to_mqtt_compact publish_command get_instance
birth_lost birth timestamp seq m s up offline = rw up (rw offline refl)

-- An id of 32 bits is in the message as it is, unless it is 2 ^ 31 or more: then the negative number
-- stands in its place that is 2 ^ 32 less.
pub int_array_cases :
    (id : ℕ)
    → id < 2 ^ 32
    → (id < 2 ^ 31 → int_array (id ∷ []) ≡ pos id ∷ [])
      × (2 ^ 31 ≤ id → (n : ℕ) × (int_array (id ∷ []) ≡ negsuc n ∷ []) × (id + suc n ≡ 2 ^ 32))
unfolding int_array to_signed to_unsigned
int_array_cases id h =
    (λ small. ground arith, λ large. (2 ^ 32 - suc id, ground arith, omega arith))
