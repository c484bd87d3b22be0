-- ===== src/Discovery/Commands.antt =====
-- src/main/DiscoverCommands.cpp: `discover describe`, from the command line to the first reading.
use matter_hub.Prelude.{
  ℕ, ◌≡◌, refl, List, [], ◌∷◌, ◌++◌, Option, none, some, ◌==◌, false, if◌then◌else◌,
}
use matter_hub.Prelude.Int.{ℤ, to_unsigned}
use matter_hub.Outcome.{Outcome, ret, dangling_pointer, or_fault, ◌>>=◌}
use matter_hub.Chip.{no_error, Device}
use matter_hub.Reports.{ReadPrepareParams}
use matter_hub.Heap.{object_at, delete, object_at-cons, delete-cons}
use matter_hub.Interaction.{ConnectionLibrary, peer_id_for_node}
use matter_hub.Discovery.{
  part_list_read, Reading, DescriptionManager, Progress, reads, DiscoveryLibrary,
  new_description_manager,
}
use matter_hub.Discovery.Walk.{in_flight, sent, read_attribute_sends}

-- shell::DiscoverCommandData, less its callback, which points back to it.
pub record DiscoverCommandData : Type 0 where
  pub fabric_id : ℕ
  pub node_id : ℕ

-- The live objects, the addresses that are scheduled for DescribeWorkerFunction, the sessions that
-- are asked for, with the address that their callbacks get, and the managers that were started.
pub record Discovery : Type 0 where
  pub objects : List (ℕ × DiscoverCommandData)
  pub queue : List ℕ
  pub sessions : List (ℕ × ℕ)
  pub managers : List Progress

-- The allocator's next address and `atoi`.
pub record DescribeLibrary : Type 0 where
  pub new_address : List (ℕ × DiscoverCommandData) → ℕ
  pub atoi : List ℕ → ℤ

-- DiscoverDescribeHandler; with other arguments the help text goes to the shell.
pub discover_describe_handler : DescribeLibrary → List (List ℕ) → Discovery → Discovery
discover_describe_handler lib (fabric ∷ node ∷ []) s =
    let address = lib.new_address s.objects in
    let entry : DiscoverCommandData = record {
      fabric_id = to_unsigned 64 (lib.atoi fabric);
      node_id = to_unsigned 64 (lib.atoi node);
    } in
    record s { objects = (address, entry) ∷ s.objects; queue = s.queue ++ address ∷ [] }
discover_describe_handler lib _ s = s

-- DescribeWorkerFunction, where a null context is `none`; the error of RequestConnection is not
-- read.
pub describe_worker_function : ConnectionLibrary → Option ℕ → Discovery → Outcome Discovery
unfolding object_at
describe_worker_function c none s = ret s
describe_worker_function c (some address) s = do
  d ← or_fault (object_at address s.objects) dangling_pointer
  let peer = peer_id_for_node c d.fabric_id d.node_id
  ret (
      if peer == c.undefined_node_id
      then s
      else record s { sessions = s.sessions ++ (peer, address) ∷ [] })

-- onConnectionRequestCompleted
pub on_connection_request_completed : DiscoveryLibrary → ℕ → Device → Discovery → Outcome Discovery
unfolding delete
on_connection_request_completed lib address device s = do
  p ← new_description_manager lib device
  ret (record s { managers = s.managers ++ p ∷ []; objects = delete address s.objects })

module _ (d : DiscoveryLibrary) (device : Device) (session : ℕ)
    (connected : device.secure_session ≡ some session)
    (accepts : (p : ReadPrepareParams) → d.reports.send_request p ≡ no_error) where
  abbrev pub empty_manager : DescriptionManager
  empty_manager = record {
    device = device;
    endpoints = [];
    current_endpoint = none;
    current_cluster = none;
    last_sub = none;
  }

  abbrev pub first_reading : Reading
  first_reading =
      sent d device session connected accepts 0 d.descriptor_id d.parts_list_id part_list_read

  pub manager_starts :
      new_description_manager d device
      ≡ ret (reads (record empty_manager { last_sub = some first_reading }))
  unfolding new_description_manager
  manager_starts =
      rw
        (read_attribute_sends d device session connected accepts 0 d.descriptor_id d.parts_list_id
          part_list_read empty_manager refl)
        refl

  -- For a command line of two words, a fresh address, a node that has a peer, and a device that has
  -- a session and accepts every request: the handler and the worker ask for one session, with the
  -- peer of the two words. The connection then starts one manager, whose reading of the parts list
  -- of endpoint 0 is in flight, and leaves no object of the command; the manager is the one that the
  -- constructor makes for the device.
  pub describe_starts :
      (lib : DescribeLibrary) (c : ConnectionLibrary) (fabric node : List ℕ) (s : Discovery)
      → object_at (lib.new_address s.objects) s.objects ≡ none
      → (peer_id_for_node c (to_unsigned 64 (lib.atoi fabric)) (to_unsigned 64 (lib.atoi node))
          == c.undefined_node_id)
        ≡ false
      → (scheduled started : Discovery) × (m : DescriptionManager) × (r : Reading)
        × (describe_worker_function c
              (some (lib.new_address s.objects))
              (discover_describe_handler lib (fabric ∷ node ∷ []) s)
            ≡ ret scheduled)
        × (scheduled.sessions
            ≡ s.sessions
              ++ (
                peer_id_for_node c
                    (to_unsigned 64 (lib.atoi fabric))
                    (to_unsigned 64 (lib.atoi node)),
                lib.new_address s.objects,
              )
                ∷ [])
        × (on_connection_request_completed d (lib.new_address s.objects) device scheduled
            ≡ ret started)
        × (started.managers ≡ s.managers ++ reads m ∷ [])
        × (in_flight m ≡ some r)
        × (r.endpoint_id ≡ 0)
        × (r.cluster_id ≡ d.descriptor_id)
        × (r.attribute_id ≡ d.parts_list_id)
        × (r.callback ≡ part_list_read)
        × (started.objects ≡ s.objects)
        × (new_description_manager d device ≡ ret (reads m))
  unfolding discover_describe_handler describe_worker_function on_connection_request_completed
  describe_starts lib c fabric node s fresh known =
      let address = lib.new_address s.objects in
      let entry : DiscoverCommandData = record {
        fabric_id = to_unsigned 64 (lib.atoi fabric);
        node_id = to_unsigned 64 (lib.atoi node);
      } in
      let scheduled : Discovery = record {
        objects = (address, entry) ∷ s.objects;
        queue = s.queue ++ address ∷ [];
        sessions = s.sessions ++ (peer_id_for_node c entry.fabric_id entry.node_id, address) ∷ [];
        managers = s.managers;
      } in
      let m : DescriptionManager = record empty_manager { last_sub = some first_reading } in
      (
        scheduled,
        record scheduled { managers = s.managers ++ reads m ∷ []; objects = s.objects },
        m,
        first_reading,
        rw (object_at-cons address entry s.objects) (rw known refl),
        refl,
        rw (manager_starts, delete-cons address entry s.objects fresh) refl,
        refl,
        refl,
        refl,
        refl,
        refl,
        refl,
        refl,
        manager_starts,
      )
