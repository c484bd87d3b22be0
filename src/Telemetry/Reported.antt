-- ===== src/Telemetry/Reported.antt =====
-- From the device to the broker: what a read client reports goes through the class Subscription of
-- src/main/include/Subscription.h and onAttributeReadCallback of src/main/include/CloudConnector.h to
-- the MQTT manager.
use matter_hub.Prelude.{
  ℕ, zero, suc, ◌≡◌, refl, ap, ◌∙◌, inl, inr, List, [], ◌∷◌, ◌++◌, append-nil, append_assoc, true,
  false, none, some, ◌==◌, Bool-cases,
}
use matter_hub.Mqtt.{Manager, ClientCall, client_publish}
use matter_hub.Interaction.Callbacks.{ReportedPath, this, Call, Listener, Report, receive_all, good}
use matter_hub.Interaction.Callbacks.Received.{receive_all-good}
use matter_hub.Telemetry.{
  Reader, Ddata, TelemetryLibrary, AttributePath, data_topic, ddata_of, heap_string,
  on_attribute_read_callback,
}
use matter_hub.Telemetry.Expected.{
  IsMessage, report_topic, data_topic-report_topic, ddata_of-IsMessage,
}
use matter_hub.Telemetry.Messages.{message, report_published}

-- The one callback that the cloud connector gives to its subscriptions and readings.
pub data CloudCallback : Type 0 where
  attribute_read : CloudCallback

abbrev pub path_of : ReportedPath → AttributePath
path_of p = record {
  endpoint_id = p.endpoint_id;
  cluster_id = p.cluster_id;
  attribute_id = p.attribute_id;
}

module _ {D : Type 0} (lib : TelemetryLibrary D) (node : ℕ) (clock : ℕ → ℕ × ℕ) where
  -- The calls of onAttributeReadCallback for the subscription of a node. `clock` has the two
  -- readings of the clock in each of them.
  unfoldable pub publish_calls :
      {C : Type 0} → ℕ → List (Call (Reader D) CloudCallback) → Manager C → Manager C
  publish_calls i [] m = m
  publish_calls i (call ∷ calls) m = publish_calls (suc i) calls (
      on_attribute_read_callback lib node (path_of call.path) call.payload (clock i).0 (clock i).1
        m)

  -- What the code sends: a message for each call whose element has a type.
  abbrev messages : ℕ → List (Call (Reader D) CloudCallback) → List ClientCall
  messages i [] = []
  messages i (call ∷ calls) = elim (call.payload.control_byte == lib.control_byte_not_specified) [
    | true ↦ messages (suc i) calls
    | false ↦
        client_publish (data_topic lib.hub_id node) (
          some (
            lib.print (
              ddata_of (lib.element_type call.payload.control_byte) (path_of call.path) call.payload
                (clock i).0 (clock i).1)))
        ∷ messages (suc i) calls
  ]

  -- The messages that are due for the calls from number `i` on, as Expected describes them.
  pub data Published : ℕ → List (Call (Reader D) CloudCallback) → List ClientCall → Type 0 where
    none_due : {i : ℕ} → Published i [] []
    untyped :
        {i : ℕ} (call : Call (Reader D) CloudCallback)
        {calls : List (Call (Reader D) CloudCallback)} {cs : List ClientCall}
        → (call.payload.control_byte == lib.control_byte_not_specified) ≡ true
        → Published (suc i) calls cs
        → Published i (call ∷ calls) cs
    published :
        {i : ℕ} (call : Call (Reader D) CloudCallback)
        {calls : List (Call (Reader D) CloudCallback)} {cs : List ClientCall} (d : Ddata D)
        → (call.payload.control_byte == lib.control_byte_not_specified) ≡ false
        → IsMessage
            (lib.element_type call.payload.control_byte)
            (path_of call.path)
            call.payload
            (clock i).0
            (clock i).1
            d
        → Published (suc i) calls cs
        → Published i
            (call ∷ calls)
            (client_publish (report_topic lib.hub_id node) (some (lib.print d)) ∷ cs)

  messages-Published :
      (i : ℕ) (calls : List (Call (Reader D) CloudCallback)) → Published i calls (messages i calls)
  messages-Published i [] = none_due
  messages-Published i (call ∷ calls) =
      let type = lib.element_type call.payload.control_byte in
      elim (Bool-cases (call.payload.control_byte == lib.control_byte_not_specified)) [
        | inl unknown ↦
            rw (unknown, messages) (untyped call unknown (messages-Published (suc i) calls))
        | inr known ↦
            rw (known, messages)
              (rw (data_topic-report_topic lib.hub_id node) (
                published call
                  (ddata_of type (path_of call.path) call.payload (clock i).0 (clock i).1) known
                  (ddata_of-IsMessage (path_of call.path) call.payload (clock i).0 (clock i).1 type)
                  (messages-Published (suc i) calls)))
      ]

  -- A report without a type changes nothing.
  ignored :
      {C : Type 0} (call : Call (Reader D) CloudCallback) (first second : ℕ) (m : Manager C)
      → (call.payload.control_byte == lib.control_byte_not_specified) ≡ true
      → on_attribute_read_callback lib node (path_of call.path) call.payload first second m ≡ m
  unfolding on_attribute_read_callback
  ignored call first second m unknown = rw unknown refl

  -- What any other leaves.
  abbrev after_report : {C : Type 0} → Call (Reader D) CloudCallback → ℕ → ℕ → Manager C → Manager C
  after_report call first second m = record m {
    calls =
        m.calls
        ++ client_publish (data_topic lib.hub_id node)
            (some (message lib node (path_of call.path) call.payload first second m))
          ∷ [];
    freed =
        m.freed
        ++ heap_string (message lib node (path_of call.path) call.payload first second m)
          ∷ heap_string (data_topic lib.hub_id node)
          ∷ [];
  }

  publish_calls-cons :
      {C : Type 0} (i : ℕ) (call : Call (Reader D) CloudCallback)
      (calls : List (Call (Reader D) CloudCallback)) (m m' : Manager C)
      → on_attribute_read_callback lib node
          (path_of call.path)
          call.payload
          (clock i).0
          (clock i).1
          m
        ≡ m'
      → publish_calls i (call ∷ calls) m ≡ publish_calls (suc i) calls m'
  unfolding publish_calls
  publish_calls-cons i call calls m m' e = ap (publish_calls (suc i) calls) e

  publish_calls-messages :
      {C : Type 0} (i : ℕ) (calls : List (Call (Reader D) CloudCallback)) (m : Manager C)
      → m.initialised ≡ true
      → m.connected ≡ true
      → (publish_calls i calls m).calls ≡ m.calls ++ messages i calls
  unfolding publish_calls
  publish_calls-messages i [] m up online = rw (append-nil m.calls) refl
  publish_calls-messages i (call ∷ calls) m up online =
      elim (Bool-cases (call.payload.control_byte == lib.control_byte_not_specified)) [
        | inl unknown ↦
            rw
              (publish_calls-cons i call calls m m (ignored call (clock i).0 (clock i).1 m unknown))
              (rw (unknown, messages) (publish_calls-messages (suc i) calls m up online))
        | inr known ↦
            let m' = after_report call (clock i).0 (clock i).1 m in
            rw
              (publish_calls-cons i call calls m m' (
                report_published lib node (path_of call.path) call.payload (clock i).0 (clock i).1 m
                  up online known))
              (publish_calls-messages (suc i) calls m' up online
                ∙ rw (known, messages) (append_assoc m.calls _ (messages (suc i) calls)))
      ]

  -- While reports come in for a subscription or a reading of the cloud connector, a manager that is set
  -- up and connected sends exactly one message for each attribute report that has data of a known
  -- type and no error, in their order: under the topic of the hub and the node, with the three ids of
  -- the path as its name, the type and the value that are read, and the two readings of the clock. All
  -- other reports send nothing.
  pub reports_reach_broker :
      {C : Type 0} (rs : List (Report (Reader D))) (s : Listener (Reader D) CloudCallback)
      (m : Manager C)
      → s.callback ≡ some attribute_read
      → s.context ≡ none
      → s.calls ≡ []
      → m.initialised ≡ true
      → m.connected ≡ true
      → (cs : List ClientCall) × Published zero (good attribute_read this rs) cs
        × ((publish_calls zero (receive_all rs s).calls m).calls ≡ m.calls ++ cs)
  reports_reach_broker rs s m given own none_yet up online = (
    messages zero (good attribute_read this rs),
    messages-Published zero (good attribute_read this rs),
    rw ((receive_all-good rs attribute_read s given).1 own)
        (rw none_yet (publish_calls-messages zero (good attribute_read this rs) m up online)),
  )
