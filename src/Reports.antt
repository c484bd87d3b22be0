-- ===== src/Reports.antt =====
-- src/main/include/InteractionModel.h and src/main/InteractionModel.cpp, class
-- InteractionModelReports: the data of a read or subscribe request, and the read clients that are
-- in flight.
pub mod Attributes
pub mod Events
pub mod Clients
pub mod Tests
use matter_hub.Prelude.{ℕ, ◌≡◌, List, [], ◌∷◌, ◌++◌, Bool, Option, none, some, ◌==◌, if◌then◌else◌}
use matter_hub.Outcome.{Outcome, ret, ◌>>=◌, or_fault, empty_optional}
use matter_hub.Chip.{ChipError, no_error, Device}

-- constexpr uint8_t kMaxAllowedPaths
abbrev pub max_allowed_paths : ℕ
max_allowed_paths = 10

pub data InteractionType : Type 0 where
  read subscribe : InteractionType

pub record AttributePathParams : Type 0 where
  pub cluster_id : ℕ
  pub attribute_id : ℕ
  pub endpoint_id : ℕ

pub record EventPathParams : Type 0 where
  pub cluster_id : ℕ
  pub event_id : ℕ
  pub endpoint_id : ℕ

pub record DataVersionFilter : Type 0 where
  pub endpoint_id : ℕ
  pub cluster_id : ℕ
  pub data_version : Option ℕ

-- A null pointer to a list is `none`.
pub record ReadPrepareParams : Type 0 where
  pub session : ℕ
  pub event_path_params_list : Option (List EventPathParams)
  pub event_path_params_list_size : ℕ
  pub event_number : Option ℕ
  pub attribute_path_params_list : Option (List AttributePathParams)
  pub attribute_path_params_list_size : ℕ
  pub is_fabric_filtered : Bool
  pub data_version_filter_list : Option (List DataVersionFilter)
  pub data_version_filter_list_size : ℕ
  pub min_interval_floor_seconds : ℕ
  pub max_interval_ceiling_seconds : ℕ
  pub keep_subscriptions : Bool

-- A ReadClient that a `unique_ptr` holds, by its address.
pub record ReadClient : Type 0 where
  pub address : ℕ
  pub interaction_type : InteractionType

-- The member `mReadClients`, and the requests that were handed to `ReadClient::SendRequest`.
pub record Reports : Type 0 where
  pub read_clients : List ReadClient
  pub requests : List ReadPrepareParams

-- The Matter SDK: its invalid ids, the values of its default constructors, the parameters that are
-- made from a session and hold it, and what the allocator and `SendRequest` answer.
pub record ReportLibrary : Type 0 where
  pub invalid_cluster_id : ℕ
  pub invalid_attribute_id : ℕ
  pub invalid_event_id : ℕ
  pub invalid_endpoint_id : ℕ
  pub default_attribute_path : AttributePathParams
  pub default_event_path : EventPathParams
  pub default_filter : DataVersionFilter
  pub prepare_params : ℕ → ReadPrepareParams
  pub prepared_session : (session : ℕ) → (prepare_params session).session ≡ session
  pub new_address : List ReadClient → ℕ
  pub send_request : ReadPrepareParams → ChipError

-- `if (o.HasValue()) { field = o.Value(); }` for the two Boolean fields.
pub set_fabric_filtered : Option Bool → ReadPrepareParams → ReadPrepareParams
set_fabric_filtered none p = p
set_fabric_filtered (some b) p = record p { is_fabric_filtered = b }

pub set_keep_subscriptions : Option Bool → ReadPrepareParams → ReadPrepareParams
set_keep_subscriptions none p = p
set_keep_subscriptions (some b) p = record p { keep_subscriptions = b }

-- The block under `if (interactionType == ReadClient::InteractionType::Subscribe)`.
pub set_intervals : InteractionType → ℕ → ℕ → Option Bool → ReadPrepareParams → ReadPrepareParams
unfolding set_keep_subscriptions
set_intervals read min_interval max_interval keep p = p
set_intervals subscribe min_interval max_interval keep p = set_keep_subscriptions keep (record p {
  min_interval_floor_seconds = min_interval;
  max_interval_ceiling_seconds = max_interval;
})

-- The end of ReportAttribute and of ReportEvent: the new client sends the request, and is kept only
-- if that succeeds.
unfoldable pub keep_client : ChipError → ReadClient → Reports → Reports × ChipError
keep_client no_error client r =
    (record r { read_clients = r.read_clients ++ client ∷ [] }, no_error)
keep_client e client r = (r, e)

unfoldable pub send :
    ReportLibrary → InteractionType → ReadPrepareParams → Reports → Reports × ChipError
unfolding keep_client
send lib type p r =
    let client : ReadClient = record {
      address = lib.new_address r.read_clients;
      interaction_type = type;
    } in
    keep_client (lib.send_request p) client (record r { requests = r.requests ++ p ∷ [] })

-- `device->GetSecureSession().Value()`
unfoldable pub secure_session : Device → Outcome ℕ
secure_session d = or_fault d.secure_session empty_optional

-- CleanupReadClient: `remove_if` by address, then `erase`.
unfoldable pub remove_client : ℕ → List ReadClient → List ReadClient
remove_client address [] = []
remove_client address (c ∷ cs) =
    let rest = remove_client address cs in if c.address == address then rest else c ∷ rest

unfoldable pub cleanup_read_client : ℕ → Reports → Reports
unfolding remove_client
cleanup_read_client address r = record r { read_clients = remove_client address r.read_clients }

-- Shutdown
unfoldable pub shutdown : Reports → Reports
shutdown r = record r { read_clients = [] }
