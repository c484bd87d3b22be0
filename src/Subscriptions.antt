-- ===== src/Subscriptions.antt =====
-- src/main/SubscribeCommands.cpp and src/main/SubscriptionManager.cpp with their headers: the shell
-- command that subscribes to an attribute, from the command line to the manager's list of
-- subscriptions. The command's data is passed by its address, so the objects on the heap are part
-- of the state.
pub mod Lifetimes
pub mod Tests
use matter_hub.Prelude.{
  ℕ, ◌≡◌, List, [], ◌∷◌, ◌++◌, Bool, true, false, Option, none, some, ◌==◌, if◌then◌else◌,
}
use matter_hub.Prelude.Int.{ℤ, to_unsigned}
use matter_hub.Outcome.{Outcome, ret, fault, dangling_pointer, or_fault, ◌>>=◌}
use matter_hub.Chip.{ChipError, no_error, invalid_argument, Device}
use matter_hub.Reports.{ReportLibrary, Reports}
use matter_hub.Heap.{object_at, delete}
use matter_hub.Interaction.{
  ConnectionLibrary, peer_id_for_node, Subscription, subscription_with, do_subscribe, no_reports,
}

-- shell::SubscribeCommandData; of its two callbacks, the contexts that they are called with.
pub record SubscribeCommandData : Type 0 where
  pub fabric_id : ℕ
  pub node_id : ℕ
  pub endpoint_id : ℕ
  pub cluster_id : ℕ
  pub attribute_id : ℕ
  pub min_interval : ℕ
  pub max_interval : ℕ
  pub on_connected_callback : ℕ
  pub on_connection_failure_callback : ℕ

abbrev pub Objects : Type 0
Objects = List (ℕ × SubscribeCommandData)

-- The objects that are live, by address; the addresses that are scheduled for the worker; the peers
-- that a session is asked for, with the address of the data whose two callbacks are registered for
-- it; `mSubscriptions`; and the peers whose session was released.
pub record Subscriptions : Type 0 where
  pub objects : Objects
  pub queue : List ℕ
  pub sessions : List (ℕ × ℕ)
  pub subscriptions : List (Subscription × Reports)
  pub released : List ℕ

-- The allocator's next address and what a new object holds, and `atoi`.
pub record ShellLibrary : Type 0 where
  pub new_address : Objects → ℕ
  pub uninitialised : SubscribeCommandData
  pub atoi : List ℕ → ℤ

-- The assignments of SubscribeSubscribeCommandHandler, for seven arguments, each cut down to the
-- width of its field.
pub parsed :
    ShellLibrary
    → List ℕ
    → List ℕ
    → List ℕ
    → List ℕ
    → List ℕ
    → List ℕ
    → List ℕ
    → SubscribeCommandData
parsed lib fabric node endpoint cluster attribute lo hi = record {
  fabric_id = to_unsigned 64 (lib.atoi fabric);
  node_id = to_unsigned 64 (lib.atoi node);
  endpoint_id = to_unsigned 16 (lib.atoi endpoint);
  cluster_id = to_unsigned 32 (lib.atoi cluster);
  attribute_id = to_unsigned 32 (lib.atoi attribute);
  min_interval = to_unsigned 16 (lib.atoi lo);
  max_interval = to_unsigned 16 (lib.atoi hi);
  on_connected_callback = lib.uninitialised.on_connected_callback;
  on_connection_failure_callback = lib.uninitialised.on_connection_failure_callback;
}

-- Of the session manager: the device of a peer that is connected, and what is left of the
-- registered callbacks when those of the data at an address are destroyed. A callback that is
-- destroyed is no longer registered, and the others stay.
pub record SessionManager : Type 0 where
  pub established : ℕ → Option Device
  pub cancel : ℕ → List (ℕ × ℕ) → List (ℕ × ℕ)
  pub cancelled :
      (address peer : ℕ) (sessions : List (ℕ × ℕ))
      → cancel address sessions ≡ sessions
      → cancel address (sessions ++ (peer, address) ∷ []) ≡ sessions

-- Platform::New with the constructor, which gives both callbacks the new address.
allocate : ShellLibrary → SubscribeCommandData → Subscriptions → Subscriptions
allocate lib d s =
    let address = lib.new_address s.objects in
    let made : SubscribeCommandData = record d {
      on_connected_callback = address;
      on_connection_failure_callback = address;
    } in
    record s { objects = (address, made) ∷ s.objects }

-- Platform::Delete, which destroys the two callbacks with the rest of the data.
pub delete_data : SessionManager → ℕ → Subscriptions → Subscriptions
unfolding delete
delete_data manager address s = record s {
  objects = delete address s.objects;
  sessions = manager.cancel address s.sessions;
}

-- SubscribeSubscribeCommandHandler; the help text goes to the shell.
unfoldable pub subscribe_subscribe_command_handler :
    ShellLibrary → List (List ℕ) → Subscriptions → Subscriptions
unfolding allocate parsed
subscribe_subscribe_command_handler lib
      (fabric ∷ node ∷ endpoint ∷ cluster ∷ attribute ∷ lo ∷ hi ∷ []) s =
    record (allocate lib (parsed lib fabric node endpoint cluster attribute lo hi) s) {
      queue = s.queue ++ lib.new_address s.objects ∷ [];
    }
subscribe_subscribe_command_handler lib _ s = allocate lib lib.uninitialised s

-- onConnectedCallbackSubscribeRequest
pub keep_subscription : ChipError → Subscription → Reports → Subscriptions → Subscriptions
keep_subscription no_error sub r s = record s { subscriptions = s.subscriptions ++ (sub, r) ∷ [] }
keep_subscription e sub r s = s

pub on_connected_callback_subscribe_request :
    ReportLibrary → ℕ → Device → Subscriptions → Outcome Subscriptions
unfolding object_at keep_subscription do_subscribe subscription_with
on_connected_callback_subscribe_request lib address device s = do
  d ← or_fault (object_at address s.objects) dangling_pointer
  let sub : Subscription =
      subscription_with device d.endpoint_id d.cluster_id d.attribute_id d.min_interval
        d.max_interval
  (r, e) ← do_subscribe lib sub no_reports
  ret (keep_subscription e sub r s)

-- SendSubscribeRequest. The session manager calls back at once for a peer that is connected,
-- and registers the callbacks of the data otherwise.
pub send_subscribe_request :
    ReportLibrary
    → ConnectionLibrary
    → SessionManager
    → ℕ
    → SubscribeCommandData
    → Subscriptions
    → Outcome (Subscriptions × ChipError)
unfolding peer_id_for_node on_connected_callback_subscribe_request
send_subscribe_request lib c manager address d s =
    elim (peer_id_for_node c d.fabric_id d.node_id == c.undefined_node_id) [
      | true ↦ ret (s, invalid_argument)
      | false ↦ elim (manager.established (peer_id_for_node c d.fabric_id d.node_id)) [
        | none ↦ ret (
          record s {
            sessions = s.sessions ++ (peer_id_for_node c d.fabric_id d.node_id, address) ∷ [];
          },
          no_error,
        )
        | some device ↦ do
          s' ← on_connected_callback_subscribe_request lib d.on_connected_callback device s
          ret (s', no_error)
      ]
    ]

-- RegisterSubscription
pub register_subscription :
    ReportLibrary
    → ConnectionLibrary
    → SessionManager
    → ℕ
    → SubscribeCommandData
    → Subscriptions
    → Outcome (Subscriptions × ChipError)
unfolding send_subscribe_request
register_subscription lib c manager address d s = do
  (s', e) ← send_subscribe_request lib c manager address d s
  ret (s', no_error)

-- SubscribeWorkerFunction, where a null context is `none`.
pub subscribe_worker_function :
    ReportLibrary
    → ConnectionLibrary
    → SessionManager
    → Option ℕ
    → Subscriptions
    → Outcome Subscriptions
unfolding object_at delete_data register_subscription
subscribe_worker_function lib c manager none s = ret s
subscribe_worker_function lib c manager (some address) s = do
  d ← or_fault (object_at address s.objects) dangling_pointer
  (s', e) ← register_subscription lib c manager address d s
  ret (delete_data manager address s')

-- onFailureCallbackSubscribeRequest: it does not look at its context, the command's data.
pub on_failure_callback_subscribe_request : ℕ → ℕ → Subscriptions → Subscriptions
on_failure_callback_subscribe_request address peer s = record s {
  released = s.released ++ peer ∷ [];
}
