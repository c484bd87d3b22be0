-- ===== src/Shell/Described.antt =====
-- The line `discover describe` of the shell, up to the message that the broker gets.
use matter_hub.Prelude.{
  ℕ, ◌+◌, ◌%◌, ◌^◌, ◌≡◌, refl, ◌≢◌, ap, List, [], ◌∷◌, ◌++◌, true, false, none, some, ◌==◌,
}
use matter_hub.Prelude.Int.{to_unsigned}
use matter_hub.Outcome.{ret}
use matter_hub.OrderedMap.Ids.{elem}
use matter_hub.Chip.{no_error, Device}
use matter_hub.Heap.{object_at}
use matter_hub.Reports.{ReadPrepareParams}
use matter_hub.Interaction.{peer_id_for_node}
use matter_hub.Mqtt.{Manager, client_publish}
use matter_hub.Discovery.{DescriptionManager, reads, publishes, DiscoveryLibrary}
use matter_hub.Discovery.Walk.{run}
use matter_hub.Discovery.Steps.{Answers}
use matter_hub.Discovery.Described.{readings, IsDescription}
use matter_hub.Discovery.Commands.{
  Discovery, discover_describe_handler, describe_worker_function, on_connection_request_completed,
  describe_starts,
}
use matter_hub.Discovery.Birth.{
  Birth, BirthLibrary, birth_endpoints, publish_to_mqtt_compact, discovery_publishes,
}
use matter_hub.Discovery.Birth.Expected.{
  ShowsEndpoints, birth_endpoints-Shows, device_topic, birth_topic-device_topic,
}
use matter_hub.Shell.{describe, ShellState, Libraries}
use matter_hub.Shell.Handlers.{act, run_line}
use matter_hub.Shell.Words.{words_to}
use matter_hub.Shell.Lines.{words_to-act}

module _ (l : Libraries) where
  line_discovers :
      (fabric node : List ℕ) (s : ShellState)
      → (run_line l (words_to describe ++ fabric ∷ node ∷ []) s).0.discovery
        ≡ discover_describe_handler l.describing (fabric ∷ node ∷ []) s.discovery
  unfolding act
  line_discovers fabric node s =
      ap (λ r. r.0.discovery) (words_to-act l describe (fabric ∷ node ∷ []) s)

  -- The line `discover describe` with the words of a fabric and a node, for a fresh address, a node
  -- that has a peer, and a device with a session that accepts every request, names an endpoint and
  -- names a cluster of each endpoint: without a fault the worker asks for one session, with the peer
  -- of the two words, and when it connects, one manager starts and no object of the command is left.
  -- As the device answers, that manager ends, and what it then has describes the device. What it
  -- gives a manager of the MQTT client that is set up and connected is one message, on the topic of
  -- the hub and the device, with the time, the counter, and every endpoint of that description with
  -- its clusters, their attributes and their commands, in which an id of 2 ^ 31 or more stands as the
  -- number that is 2 ^ 32 less. The counter then goes up by one, modulo 2 ^ 32.
  pub line_describes :
      {C : Type 0} (d : DiscoveryLibrary) (answer : Answers) (device : Device) (session : ℕ)
      (birth : BirthLibrary) (timestamp seq : ℕ) (q : Manager C) (fabric node : List ℕ)
      (s : ShellState)
      → device.secure_session ≡ some session
      → ((p : ReadPrepareParams) → d.reports.send_request p ≡ no_error)
      → object_at (l.describing.new_address s.discovery.objects) s.discovery.objects ≡ none
      → (peer_id_for_node l.connection
            (to_unsigned 64 (l.describing.atoi fabric))
            (to_unsigned 64 (l.describing.atoi node))
          == l.connection.undefined_node_id)
        ≡ false
      → answer 0 d.descriptor_id d.parts_list_id ≢ []
      → ((e : ℕ)
          → elem e (answer 0 d.descriptor_id d.parts_list_id) ≡ true
          → answer e d.descriptor_id d.server_list_id ≢ [])
      → q.initialised ≡ true
      → q.connected ≡ true
      → (scheduled started : Discovery) × (first m : DescriptionManager) × (dbirth : Birth)
        × (describe_worker_function l.connection
              (some (l.describing.new_address s.discovery.objects))
              (run_line l (words_to describe ++ fabric ∷ node ∷ []) s).0.discovery
            ≡ ret scheduled)
        × (scheduled.sessions
            ≡ s.discovery.sessions
              ++ (
                peer_id_for_node l.connection
                    (to_unsigned 64 (l.describing.atoi fabric))
                    (to_unsigned 64 (l.describing.atoi node)),
                l.describing.new_address s.discovery.objects,
              )
                ∷ [])
        × (on_connection_request_completed d
              (l.describing.new_address s.discovery.objects)
              device
              scheduled
            ≡ ret started)
        × (started.managers ≡ s.discovery.managers ++ reads first ∷ [])
        × (started.objects ≡ s.discovery.objects)
        × (run d answer (1 + readings m.endpoints) (reads first) ≡ ret (publishes m))
        × IsDescription d answer m.endpoints
        × (dbirth.timestamp ≡ timestamp)
        × (dbirth.seq ≡ seq)
        × ShowsEndpoints m.endpoints dbirth.endpoints
        × ((publish_to_mqtt_compact birth timestamp m (seq, q)).1.calls
            ≡ q.calls
              ++ client_publish
                  (device_topic birth.hub_id device.node_id)
                  (some (birth.print dbirth))
                ∷ [])
        × ((publish_to_mqtt_compact birth timestamp m (seq, q)).0 ≡ (seq + 1) % 2 ^ 32)
  line_describes d answer device session birth timestamp seq q fabric node s connected accepts fresh
        known parts serves up online =
      let (
        scheduled, started, first, r, worked, asked, completed, managed, _, _, _, _, _, left, made,
      ) =
        describe_starts d device session connected accepts l.describing l.connection fabric node
          s.discovery fresh known in
      let (m, ended, described, sent) =
        discovery_publishes d answer device session birth timestamp seq q connected accepts parts
          serves up online in
      (
        scheduled,
        started,
        first,
        m,
        record { timestamp = timestamp; endpoints = birth_endpoints m.endpoints; seq = seq },
        rw (line_discovers fabric node s) worked,
        asked,
        completed,
        managed,
        left,
        rw made at ended,
        described,
        refl,
        refl,
        birth_endpoints-Shows m.endpoints,
        rw (← birth_topic-device_topic birth.hub_id device.node_id) (ap (λ z. z.1.calls) sent),
        ap (λ z. z.0) sent,
      )
