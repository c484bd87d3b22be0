-- ===== src/Model/Connected.antt =====
-- src/main/include/WriteInteraction.h and src/main/include/InteractionModelHelperWriteTemplates.h:
-- the object that makes a write that the cloud asked for, from the connection to its OnDone.
use matter_hub.Prelude.{
  ℕ, ◌≡◌, refl, List, [], ◌∷◌, ◌++◌, Bool, false, Option, none, some, Bool-cases, inl, inr,
}
use matter_hub.Outcome.{Outcome, ret, fault, or_fault, null_pointer, dangling_pointer, ◌>>=◌}
use matter_hub.Chip.{ChipError, no_error, Device, failed}
use matter_hub.Heap.{object_at, delete, object_at-cons, delete-cons}
use matter_hub.Reports.{ReportLibrary, secure_session}
use matter_hub.Reports.Attributes.{attribute_path}
use matter_hub.Interaction.{
  WriteValue, writing, Work, write, ConnectionLibrary, request_connection, written, on_connected,
}
use matter_hub.Model.{WriteLibrary, WriteRequest, value_or, writer_write_attribute}

-- WriteAttribute. The class keeps its timeout and its option to suppress the response as references,
-- which start from an empty value: `timeout` and `suppress_response` are what these then read, and
-- `value` is what the reference to the value reads. `write_client` is the client of the base class.
pub record WriteAttribute (D : Type 0) : Type 0 where
  pub device : Device
  pub endpoint_id : ℕ
  pub cluster_id : ℕ
  pub attribute_id : ℕ
  pub value : WriteValue D
  pub timeout : Option ℕ
  pub suppress_response : Option Bool
  pub write_client : Option (WriteRequest (WriteValue D))

-- The constructor of WriteAttribute.
unfoldable pub write_attribute_with :
    {D : Type 0} → Device → ℕ → ℕ → ℕ → WriteValue D → Option ℕ → Option Bool → WriteAttribute D
write_attribute_with device endpoint_id cluster_id attribute_id value timeout suppress = record {
  device = device;
  endpoint_id = endpoint_id;
  cluster_id = cluster_id;
  attribute_id = attribute_id;
  value = value;
  timeout = timeout;
  suppress_response = suppress;
  write_client = none;
}

-- OnDone of the object at an address.
pub on_done : {D : Type 0} → ℕ → List (ℕ × WriteAttribute D) → Outcome (List (ℕ × WriteAttribute D))
on_done this objects = do
  attr ← or_fault (object_at this objects) dangling_pointer
  ret (delete this objects)

module _ {D : Type 0} (lib : ReportLibrary) (w : WriteLibrary (WriteValue D)) where
  -- WriteAttribute::DoWrite, with what WriteAttribute of the base class answers, which it drops. The
  -- data version is not passed on.
  pub do_write : WriteAttribute D → Outcome (WriteAttribute D × ChipError)
  do_write o = do
    (client, error) ←
        writer_write_attribute lib w o.device o.endpoint_id o.cluster_id o.attribute_id o.value
          o.timeout o.suppress_response none
    ret (record o { write_client = client }, error)

  -- onConnectedCallbackWrite, with the endpoint, the cluster, the attribute and the value that it
  -- reads from its context. `allocated` is the address that Platform::New returns, if it finds
  -- memory; the live objects stand at their addresses.
  pub on_connected_callback_write :
      Option ℕ
      → Option ℕ
      → Option Bool
      → Device
      → ℕ
      → ℕ
      → ℕ
      → WriteValue D
      → List (ℕ × WriteAttribute D)
      → Outcome (List (ℕ × WriteAttribute D))
  unfolding do_write write_attribute_with
  on_connected_callback_write allocated timeout suppress peer_device endpoint_id cluster_id
        attribute_id value objects =
      do
        address ← or_fault allocated null_pointer
        (attr, error) ← do_write (
            write_attribute_with peer_device endpoint_id cluster_id attribute_id value timeout
              suppress)
        ret ((address, attr) ∷ objects)

  abbrev request_of :
      ℕ → ℕ → ℕ → WriteValue D → Option ℕ → Option Bool → WriteRequest (WriteValue D)
  request_of e k a v timeout suppress = record {
    path = attribute_path lib k a e;
    value = v;
    timeout = timeout;
    suppress_response = value_or suppress false;
    data_version = none;
  }

  writer_requests :
      (device : Device) (session e k a : ℕ) (v : WriteValue D) (timeout : Option ℕ)
      (suppress : Option Bool)
      → device.secure_session ≡ some session
      → (error : ChipError) × (writer_write_attribute lib w device e k a v timeout suppress none
          ≡ ret (some (request_of e k a v timeout suppress), error))
  unfolding writer_write_attribute secure_session
  writer_requests device session e k a v timeout suppress connected =
      let request = request_of e k a v timeout suppress in
      elim (Bool-cases (failed (w.encode_attribute request))) [
        | inl h ↦ (w.encode_attribute request, rw (h, writer_write_attribute) refl)
        | inr h ↦ (
          w.send_write_request request session,
          rw (h, writer_write_attribute) (rw (connected, secure_session) refl),
        )
      ]

  -- A write that is scheduled, of a node that has a peer, once the peer is connected and has a
  -- session: the callback hands the path on with what it then reads through the reference to the
  -- value. With memory at a free address it puts one object there and leaves the others; whatever
  -- the SDK answers, that object holds a client with the path, this value, the timeout and the
  -- suppression that the class holds, and no data version. OnDone of the object restores the live
  -- objects, and a second OnDone of it uses an object that is not there. Without memory the callback
  -- uses a null pointer.
  write_connected :
      (c : ConnectionLibrary) (recall : WriteValue D → WriteValue D) (device : Device)
      (session node e k a peer address : ℕ) (v : WriteValue D) (timeout : Option ℕ)
      (suppress : Option Bool) (queue : List (Work D)) (objects : List (ℕ × WriteAttribute D))
      → device.secure_session ≡ some session
      → request_connection c
          (record { fabric_id = 1; node_id = node; interaction = writing e k a v })
        ≡ (some peer, no_error)
      → object_at address objects ≡ none
      → (work : Work D) × (attr : WriteAttribute D) × (request : WriteRequest (WriteValue D))
        × (write node e k a v queue ≡ queue ++ work ∷ [])
        × (request_connection c work ≡ (some peer, no_error))
        × (on_connected lib c recall device work.interaction ≡ ret (written e k a (recall v)))
        × (on_connected_callback_write
              (some address)
              timeout
              suppress
              device
              e
              k
              a
              (recall v)
              objects
            ≡ ret ((address, attr) ∷ objects))
        × (attr.write_client ≡ some request)
        × (request.path ≡ attribute_path lib k a e)
        × (request.value ≡ recall v)
        × (request.timeout ≡ timeout)
        × (request.suppress_response ≡ value_or suppress false)
        × (request.data_version ≡ none)
        × (on_done address ((address, attr) ∷ objects) ≡ ret objects)
        × (on_done address objects ≡ fault dangling_pointer)
        × (on_connected_callback_write none timeout suppress device e k a (recall v) objects
            ≡ fault null_pointer)
  unfolding write on_connected do_write write_attribute_with on_connected_callback_write on_done
  write_connected c recall device session node e k a peer address v timeout suppress queue objects
        connected known free =
      let (error, made) =
        writer_requests device session e k a (recall v) timeout suppress connected in
      let attr : WriteAttribute D =
        record (write_attribute_with device e k a (recall v) timeout suppress) {
          write_client = some (request_of e k a (recall v) timeout suppress);
        } in
      (
        record { fabric_id = 1; node_id = node; interaction = writing e k a v },
        attr,
        request_of e k a (recall v) timeout suppress,
        refl,
        known,
        refl,
        rw made refl,
        refl,
        refl,
        refl,
        refl,
        refl,
        refl,
        rw (object_at-cons address attr objects, delete-cons address attr objects free) refl,
        rw free refl,
        refl,
      )
