-- ===== src/Interaction.antt =====
-- src/main/InteractionModelHelper.cpp with its headers, src/main/ConnectionHelper.cpp and the
-- requests of src/main/include/Subscription.h: from a call of InteractionModelHelper to what goes
-- to the device.
pub mod Delivery
pub mod Failures
pub mod Callbacks
pub mod Tests
use matter_hub.Prelude.{
  ℕ, ◌≡◌, List, [], ◌∷◌, ◌++◌, Bool, true, Option, none, some, ◌==◌, if◌then◌else◌,
}
use matter_hub.Prelude.Int.{ℤ}
use matter_hub.Outcome.{Outcome, ret, ◌>>=◌}
use matter_hub.Chip.{ChipError, no_error, invalid_argument, Device}
use matter_hub.Reports.{ReportLibrary, Reports, secure_session}
use matter_hub.Reports.Attributes.{read_attribute, subscribe_attribute}

-- The values that `write` is instantiated at, by their C++ type. `D` is the type of doubles, and
-- `float_value d` is `d` rounded to a float.
pub data WriteValue (D : Type 0) : Type 0 where
  int_value int16_value int32_value int64_value : ℤ → WriteValue D
  uint8_value uint16_value uint32_value uint64_value : ℕ → WriteValue D
  bool_value : Bool → WriteValue D
  float_value double_value : D → WriteValue D

-- SubscribeCommandData, CommandCommandData, ReadCommandData and WriteCommandData of
-- src/main/include/InteractionModelCommands.h, less the fields of their base.
pub data Interaction (D : Type 0) : Type 0 where
  subscription : ℕ → ℕ → ℕ → ℕ → ℕ → Interaction D
  invocation : ℕ → ℕ → ℕ → Interaction D
  reading : ℕ → ℕ → ℕ → Interaction D
  writing : ℕ → ℕ → ℕ → WriteValue D → Interaction D

-- What is scheduled, with the fields of BaseCommandData.
pub record Work (D : Type 0) : Type 0 where
  pub fabric_id : ℕ
  pub node_id : ℕ
  pub interaction : Interaction D

module _ {D : Type 0} where
  -- `ScheduleWork`: the work queue is first in, first out.
  schedule : ℕ → Interaction D → List (Work D) → List (Work D)
  schedule node_id i queue =
      queue ++ record { fabric_id = 1; node_id = node_id; interaction = i } ∷ []

  unfoldable pub subscribe : ℕ → ℕ → ℕ → ℕ → ℕ → ℕ → List (Work D) → List (Work D)
  unfolding schedule
  subscribe node_id endpoint_id cluster_id attribute_id min_interval max_interval =
      schedule node_id (subscription endpoint_id cluster_id attribute_id min_interval max_interval)

  unfoldable pub command : ℕ → ℕ → ℕ → ℕ → List (Work D) → List (Work D)
  unfolding schedule
  command node_id endpoint_id cluster_id command_id =
      schedule node_id (invocation endpoint_id cluster_id command_id)

  unfoldable pub read : ℕ → ℕ → ℕ → ℕ → List (Work D) → List (Work D)
  unfolding schedule
  read node_id endpoint_id cluster_id attribute_id =
      schedule node_id (reading endpoint_id cluster_id attribute_id)

  unfoldable pub write : ℕ → ℕ → ℕ → ℕ → WriteValue D → List (Work D) → List (Work D)
  unfolding schedule
  write node_id endpoint_id cluster_id attribute_id value =
      schedule node_id (writing endpoint_id cluster_id attribute_id value)

-- The Matter SDK as ConnectionHelper and the callbacks see it: the peer of a node on a fabric, by
-- its node id, `none` for a fabric that is not in the table (the fabric's id is as the command has
-- it, before it is narrowed to a FabricIndex); the undefined node id; and the ids of
-- the OnOff commands.
pub record ConnectionLibrary : Type 0 where
  pub peer_id_for_node : ℕ → ℕ → Option ℕ
  pub undefined_node_id : ℕ
  pub off_id : ℕ
  pub on_id : ℕ
  pub toggle_id : ℕ

-- PeerIdForNode, as the node id of the peer: `chip::PeerId()` has the undefined one.
unfoldable pub peer_id_for_node : ConnectionLibrary → ℕ → ℕ → ℕ
peer_id_for_node lib fabric node = elim (lib.peer_id_for_node fabric node) [
  | none ↦ lib.undefined_node_id
  | some peer ↦ peer
]

-- ConnectionHelper::RequestConnection: the peer that a session is asked for, and the result.
unfoldable pub request_connection : {D : Type 0} → ConnectionLibrary → Work D → Option ℕ × ChipError
unfolding peer_id_for_node
request_connection lib w =
    let peer = peer_id_for_node lib w.fabric_id w.node_id in
    if peer == lib.undefined_node_id then (none, invalid_argument) else (some peer, no_error)

-- InteractionModelHelperWorkerFunction, where a null context is `none`.
unfoldable pub worker_function : {D : Type 0} → ConnectionLibrary → Option (Work D) → Option ℕ
unfolding request_connection
worker_function lib none = none
worker_function lib (some w) = (request_connection lib w).0

-- The Subscription of src/main/include/Subscription.h, as far as it asks for reports.
pub record Subscription : Type 0 where
  pub device : Device
  pub endpoint_id : List ℕ
  pub cluster_id : List ℕ
  pub attribute_id : List ℕ
  pub min_interval : ℕ
  pub max_interval : ℕ

-- The constructor with intervals, and the one without.
unfoldable pub subscription_with : Device → ℕ → ℕ → ℕ → ℕ → ℕ → Subscription
subscription_with device endpoint_id cluster_id attribute_id min_interval max_interval = record {
  device = device;
  endpoint_id = endpoint_id ∷ [];
  cluster_id = cluster_id ∷ [];
  attribute_id = attribute_id ∷ [];
  min_interval = min_interval;
  max_interval = max_interval;
}

unfoldable pub subscription_of : Device → ℕ → ℕ → ℕ → Subscription
subscription_of device endpoint_id cluster_id attribute_id = record {
  device = device;
  endpoint_id = endpoint_id ∷ [];
  cluster_id = cluster_id ∷ [];
  attribute_id = attribute_id ∷ [];
  min_interval = 1;
  max_interval = 10;
}

module _ (lib : ReportLibrary) where
  -- DoSubscribe and Read
  unfoldable pub do_subscribe : Subscription → Reports → Outcome (Reports × ChipError)
  do_subscribe s =
      subscribe_attribute lib s.device s.endpoint_id s.cluster_id s.attribute_id s.min_interval
        s.max_interval (some true) none none

  unfoldable pub do_read : Subscription → Reports → Outcome (Reports × ChipError)
  do_read s = read_attribute lib s.device s.endpoint_id s.cluster_id s.attribute_id (some true) none

-- The three commands of the OnOff cluster.
pub data OnOffCommand : Type 0 where
  off on toggle : OnOffCommand

-- What a connected callback asks of the device. A Subscription starts with no read client of its
-- own, and its requests and its error are the result; `written` is what DoWrite is called with.
pub data Delivered (D : Type 0) : Type 0 where
  reported : Reports → ChipError → Delivered D
  invoked : ℕ → ℕ → OnOffCommand → Delivered D
  unsupported : Delivered D
  written : ℕ → ℕ → ℕ → WriteValue D → Delivered D

abbrev pub no_reports : Reports
no_reports = record { read_clients = []; requests = [] }

module _ {D : Type 0} (lib : ReportLibrary) (c : ConnectionLibrary) where
  abbrev pub as_report : Reports × ChipError → Delivered D
  as_report (r, e) = reported r e

  -- onConnectedCallbackRead
  on_connected_callback_read : Device → ℕ → ℕ → ℕ → Outcome (Delivered D)
  unfolding do_read subscription_of
  on_connected_callback_read device endpoint_id cluster_id attribute_id = do
    result ← do_read lib (subscription_of device endpoint_id cluster_id attribute_id) no_reports
    ret (as_report result)

  -- onConnectedCallbackSubscribe; the intervals of the command are not read.
  on_connected_callback_subscribe : Device → ℕ → ℕ → ℕ → ℕ → ℕ → Outcome (Delivered D)
  unfolding do_subscribe subscription_of
  on_connected_callback_subscribe device endpoint_id cluster_id attribute_id min_interval
        max_interval =
      do
        result ←
            do_subscribe lib (subscription_of device endpoint_id cluster_id attribute_id) no_reports
        ret (as_report result)

  -- onConnectedCallbackCommand; the cluster of the command is not read.
  on_connected_callback_command : Device → ℕ → ℕ → ℕ → Outcome (Delivered D)
  on_connected_callback_command device endpoint_id cluster_id command_id =
      let invoke : OnOffCommand → Outcome (Delivered D) = λ request.
        secure_session device >>= (λ session. ret (invoked session endpoint_id request)) in
      if command_id == c.off_id
      then invoke off
      else if command_id == c.on_id
      then invoke on
      else if command_id == c.toggle_id
      then invoke toggle
      else ret unsupported

  -- The callback that the constructor of each command's data registers. `recall` is what the
  -- reference to the written value reads: WriteCommandData keeps a reference to a local variable of
  -- `handleWrite`, which has returned by then.
  unfoldable pub on_connected :
      (recall : WriteValue D → WriteValue D) → Device → Interaction D → Outcome (Delivered D)
  unfolding on_connected_callback_read on_connected_callback_subscribe on_connected_callback_command
  on_connected recall device (subscription e k a lo hi) =
      on_connected_callback_subscribe device e k a lo hi
  on_connected recall device (invocation e k i) = on_connected_callback_command device e k i
  on_connected recall device (reading e k a) = on_connected_callback_read device e k a
  on_connected recall device (writing e k a v) = ret (written e k a (recall v))
