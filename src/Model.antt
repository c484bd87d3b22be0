-- ===== src/Model.antt =====
-- src/main/InteractionModel.cpp and src/main/include/InteractionModel.h: the requests that the
-- class InteractionModel makes for a device by its identity, and the command senders and the write
-- client that it keeps. `get_device` is its pure virtual GetDevice.
pub mod Connected
pub mod Requests
pub mod Repeats
pub mod Groups
pub mod Answers
pub mod Tests
use matter_hub.Prelude.{
  ℕ, zero, suc, ◌≡◌, List, [], ◌∷◌, ◌++◌, Bool, true, false, Option, none, some, if◌then◌else◌,
}
use matter_hub.Outcome.{Outcome, ret, fault, empty_optional, ◌>>=◌}
use matter_hub.Chip.{ChipError, no_error, incorrect_state, Device, failed}
use matter_hub.Reports.{ReportLibrary, Reports, AttributePathParams, secure_session}
use matter_hub.Reports.Attributes.{
  attribute_path, read_attribute as reports_read_attribute,
  subscribe_attribute as reports_subscribe_attribute,
}
use matter_hub.Reports.Events.{
  read_event as reports_read_event, subscribe_event as reports_subscribe_event,
}

-- `dataVersions.Value().push_back(dataVersion.Value())`, where `dataVersions` has no value.
push_version : Option ℕ → Outcome (Option (List ℕ))
push_version none = ret none
push_version (some version) = fault empty_optional

module _ (lib : ReportLibrary) (get_device : List ℕ → Option Device) (identity : List ℕ)
    (endpoint_id cluster_id : ℕ) where
  pub read_attribute : ℕ → Bool → Option ℕ → Reports → Outcome (Reports × ChipError)
  unfolding push_version reports_read_attribute
  read_attribute attribute_id fabric_filtered data_version r = elim (get_device identity) [
    | none ↦ ret (r, incorrect_state)
    | some device ↦ do
      data_versions ← push_version data_version
      reports_read_attribute lib device (endpoint_id ∷ []) (cluster_id ∷ []) (attribute_id ∷ [])
          (some fabric_filtered) data_versions r
  ]

  pub subscribe_attribute :
      ℕ → ℕ → ℕ → Bool → Option ℕ → Option Bool → Reports → Outcome (Reports × ChipError)
  unfolding push_version reports_subscribe_attribute
  subscribe_attribute attribute_id min_interval max_interval fabric_filtered data_version keep r =
      elim (get_device identity) [
        | none ↦ ret (r, incorrect_state)
        | some device ↦ do
          data_versions ← push_version data_version
          reports_subscribe_attribute lib device (endpoint_id ∷ []) (cluster_id ∷ [])
              (attribute_id ∷ []) min_interval max_interval (some fabric_filtered) data_versions
              keep r
      ]

  pub read_event : ℕ → Bool → Option ℕ → Reports → Outcome (Reports × ChipError)
  unfolding reports_read_event
  read_event event_id fabric_filtered event_number r = elim (get_device identity) [
    | none ↦ ret (r, incorrect_state)
    | some device ↦
        reports_read_event lib device (endpoint_id ∷ []) (cluster_id ∷ []) (event_id ∷ [])
          (some fabric_filtered) event_number r
  ]

  pub subscribe_event :
      ℕ → ℕ → ℕ → Bool → Option ℕ → Option Bool → Reports → Outcome (Reports × ChipError)
  unfolding reports_subscribe_event
  subscribe_event event_id min_interval max_interval fabric_filtered event_number keep r =
      elim (get_device identity) [
        | none ↦ ret (r, incorrect_state)
        | some device ↦
            reports_subscribe_event lib device (endpoint_id ∷ []) (cluster_id ∷ []) (event_id ∷ [])
              min_interval max_interval (some fabric_filtered) event_number keep r
      ]

-- The command path of a CommandSender, and whether it was made for a timed interaction.
pub record CommandPath : Type 0 where
  pub endpoint_id : ℕ
  pub cluster_id : ℕ
  pub command_id : ℕ

pub record CommandSender : Type 0 where
  pub path : CommandPath
  pub is_timed : Bool

-- `mCommandSender`, and how often ContinueOnChipMainThread was called.
pub record Commands : Type 0 where
  pub command_senders : List CommandSender
  pub continued : ℕ

-- What AddRequestData and SendCommandRequest answer, given the senders that are in flight.
pub record CommandLibrary (V : Type 0) : Type 0 where
  pub add_request_data : List CommandSender → CommandSender → V → Option ℕ → Bool → ChipError
  pub send_command_request : List CommandSender → CommandSender → ℕ → ChipError

abbrev pub has_value : Option ℕ → Bool
has_value none = false
has_value (some n) = true

abbrev pub value_or {ℓ} : {A : Type ℓ} → Option A → A → A
value_or none a = a
value_or (some b) a = b

module _ {V : Type 0} (lib : CommandLibrary V) (device : Device) (path : CommandPath) (value : V)
    (timeout : Option ℕ) (suppress : Option Bool) where
  -- The loop `while (repeat--)` of InteractionModelCommands::SendCommand.
  send_loop : ℕ → Commands → Outcome (Commands × ChipError)
  unfolding failed
  send_loop zero s = ret (s, no_error)
  send_loop (suc repeat) s =
      let sender : CommandSender = record { path = path; is_timed = has_value timeout } in
      let added : ChipError =
        lib.add_request_data s.command_senders sender value timeout (value_or suppress false) in
      elim (failed added) [
        | true ↦ ret (s, added)
        | false ↦ do
          session ← secure_session device
          let sent : ChipError = lib.send_command_request s.command_senders sender session
          elim (failed sent) [
            | true ↦ ret (s, sent)
            | false ↦
                send_loop repeat (record s { command_senders = s.command_senders ++ sender ∷ [] })
          ]
      ]

  pub send_command : Option ℕ → Commands → Outcome (Commands × ChipError)
  unfolding send_loop
  send_command repeat_count s = send_loop (value_or repeat_count 1) s

-- OnDone of a CommandSender: the first sender goes, whichever is done.
first_erased : List CommandSender → List CommandSender
first_erased [] = []
first_erased (c ∷ cs) = cs

continued_if_none : List CommandSender → ℕ → ℕ
continued_if_none [] n = suc n
continued_if_none (c ∷ cs) n = n

pub on_done : Commands → Commands
unfolding first_erased continued_if_none
on_done s =
    let left = first_erased s.command_senders in
    record { command_senders = left; continued = continued_if_none left s.continued }

-- `mWriteClient`, with what it was made with and what it encodes.
pub record WriteRequest (V : Type 0) : Type 0 where
  pub path : AttributePathParams
  pub value : V
  pub timeout : Option ℕ
  pub suppress_response : Bool
  pub data_version : Option ℕ

-- What EncodeAttribute and SendWriteRequest answer.
pub record WriteLibrary (V : Type 0) : Type 0 where
  pub encode_attribute : WriteRequest V → ChipError
  pub send_write_request : WriteRequest V → ℕ → ChipError

module _ {V : Type 0} (lib : ReportLibrary) (w : WriteLibrary V) where
  -- InteractionModelWriter::WriteAttribute
  pub writer_write_attribute :
      Device
      → ℕ
      → ℕ
      → ℕ
      → V
      → Option ℕ
      → Option Bool
      → Option ℕ
      → Outcome (Option (WriteRequest V) × ChipError)
  unfolding failed
  writer_write_attribute device endpoint_id cluster_id attribute_id value timeout suppress
        data_version =
      let request : WriteRequest V = record {
        path = attribute_path lib cluster_id attribute_id endpoint_id;
        value = value;
        timeout = timeout;
        suppress_response = value_or suppress false;
        data_version = data_version;
      } in
      elim (failed (w.encode_attribute request)) [
        | true ↦ ret (some request, w.encode_attribute request)
        | false ↦ do
          session ← secure_session device
          ret (some request, w.send_write_request request session)
      ]

  -- InteractionModel::WriteAttribute
  pub write_attribute :
      (List ℕ → Option Device)
      → List ℕ
      → ℕ
      → ℕ
      → ℕ
      → V
      → Option ℕ
      → Option Bool
      → Option ℕ
      → Option (WriteRequest V)
      → Outcome (Option (WriteRequest V) × ChipError)
  unfolding writer_write_attribute
  write_attribute get_device identity endpoint_id cluster_id attribute_id value timeout suppress
        data_version client =
      elim (get_device identity) [
        | none ↦ ret (client, incorrect_state)
        | some device ↦
            writer_write_attribute device endpoint_id cluster_id attribute_id value timeout none
              none
      ]
