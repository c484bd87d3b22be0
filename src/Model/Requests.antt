-- ===== src/Model/Requests.antt =====
-- What InteractionModel asks of the device that an identity names.
use matter_hub.Prelude.{
  ℕ, ◌≡◌, refl, List, [], ◌∷◌, Bool, false, Option, none, some, Bool-cases, inl, inr,
}
use matter_hub.Outcome.{ret, fault, empty_optional}
use matter_hub.Chip.{ChipError, Device, failed}
use matter_hub.Reports.{
  ReportLibrary, Reports, ReadPrepareParams, InteractionType, send, secure_session,
}
use matter_hub.Reports.Attributes.{
  attribute_path, read_attribute as reports_read_attribute,
  subscribe_attribute as reports_subscribe_attribute,
}
use matter_hub.Reports.Attributes.Requests.{IsRequest, report_attribute-IsRequest}
use matter_hub.Interaction.Delivery.{single_in_range, single_path}
use matter_hub.Model.{
  push_version, read_attribute, subscribe_attribute, WriteRequest, WriteLibrary,
  writer_write_attribute, write_attribute,
}

module _ (lib : ReportLibrary) (get_device : List ℕ → Option Device) (identity : List ℕ)
    (device : Device) (session : ℕ) (known : get_device identity ≡ some device)
    (connected : device.secure_session ≡ some session) (e k a : ℕ) where
  -- For a known and connected device, SubscribeAttribute without a data version sends one request,
  -- for the one path, with the given intervals and filter. With any data version it aborts.
  pub subscribe_attribute_requests :
      (lo hi : ℕ) (filtered : Bool) (keep : Option Bool) (version : ℕ) (r : Reports)
      → (p : ReadPrepareParams) × IsRequest lib session
          (e ∷ [])
          (k ∷ [])
          (a ∷ [])
          InteractionType.subscribe
          lo
          hi
          (some filtered)
          none
          keep
          1
          p
        × (subscribe_attribute lib get_device identity e k a lo hi filtered none keep r
            ≡ ret (send lib InteractionType.subscribe p r))
        × (subscribe_attribute lib get_device identity e k a lo hi filtered (some version) keep r
            ≡ fault empty_optional)
  unfolding subscribe_attribute push_version reports_subscribe_attribute
  subscribe_attribute_requests lo hi filtered keep version r =
      let (p, means, sent) =
        report_attribute-IsRequest lib device (e ∷ []) (k ∷ []) (a ∷ []) InteractionType.subscribe
          lo hi (some filtered) none keep r 1 session (single_in_range e k a) (single_path e k a) tt
          connected in
      (p, means, rw (known, subscribe_attribute) sent, rw (known, subscribe_attribute) refl)

  -- For a known and connected device, ReadAttribute without a data version sends one request, for
  -- the one path, with the given filter. With any data version it aborts.
  read_attribute_requests :
      (filtered : Bool) (version : ℕ) (r : Reports)
      → (p : ReadPrepareParams) × IsRequest lib session
          (e ∷ [])
          (k ∷ [])
          (a ∷ [])
          InteractionType.read
          0
          0
          (some filtered)
          none
          none
          1
          p
        × (read_attribute lib get_device identity e k a filtered none r
            ≡ ret (send lib InteractionType.read p r))
        × (read_attribute lib get_device identity e k a filtered (some version) r
            ≡ fault empty_optional)
  unfolding read_attribute push_version reports_read_attribute
  read_attribute_requests filtered version r =
      let (p, means, sent) =
        report_attribute-IsRequest lib device (e ∷ []) (k ∷ []) (a ∷ []) InteractionType.read 0 0
          (some filtered) none none r 1 session (single_in_range e k a) (single_path e k a) tt
          connected in
      (p, means, rw (known, read_attribute) sent, rw (known, read_attribute) refl)

-- WriteAttribute, for a known and connected device, keeps a client for the path, the value and the
-- timeout that it is given, but neither for its option to suppress the response nor for its data
-- version: the request asks for a response and has no data version, whatever was asked for.
pub write_attribute_requests :
    {V : Type 0} (lib : ReportLibrary) (w : WriteLibrary V) (get_device : List ℕ → Option Device)
    (identity : List ℕ) (device : Device) (session : ℕ)
    → get_device identity ≡ some device
    → device.secure_session ≡ some session
    → (e k a : ℕ) (value : V) (timeout : Option ℕ) (suppress : Option Bool) (version : Option ℕ)
      (client : Option (WriteRequest V))
    → (request : WriteRequest V) × (error : ChipError) × (write_attribute lib w get_device identity
          e k a value timeout suppress version client
        ≡ ret (some request, error))
      × (request.path ≡ attribute_path lib k a e)
      × (request.value ≡ value)
      × (request.timeout ≡ timeout)
      × (request.suppress_response ≡ false)
      × (request.data_version ≡ none)
unfolding write_attribute writer_write_attribute secure_session
write_attribute_requests {V} lib w get_device identity device session known connected e k a value
      timeout suppress version client =
    let request : WriteRequest V = record {
      path = attribute_path lib k a e;
      value = value;
      timeout = timeout;
      suppress_response = false;
      data_version = none;
    } in
    elim (Bool-cases (failed (w.encode_attribute request))) [
      | inl h ↦ (
        request,
        w.encode_attribute request,
        rw (known, write_attribute) (rw (h, writer_write_attribute) refl),
        refl,
        refl,
        refl,
        refl,
        refl,
      )
      | inr h ↦ (
        request,
        w.send_write_request request session,
        rw (known, write_attribute)
            (rw (h, writer_write_attribute) (rw (connected, secure_session) refl)),
        refl,
        refl,
        refl,
        refl,
        refl,
      )
    ]
