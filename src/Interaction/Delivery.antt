-- ===== src/Interaction/Delivery.antt =====
-- What reaches the device for each kind of interaction.
use matter_hub.Prelude.{ℕ, ◌≡◌, refl, ◌≢◌, ◌↔◌, [], ◌∷◌, true, none, some, arith}
use matter_hub.Outcome.{ret}
use matter_hub.Chip.{no_error, Device}
use matter_hub.Reports.{ReportLibrary, ReadPrepareParams, InteractionType, send, secure_session}
use matter_hub.Reports.Attributes.{
  counts, counts_in_range, paths_count, read_attribute, subscribe_attribute,
}
use matter_hub.Reports.Attributes.Requests.{IsRequest, report_attribute-IsRequest}
use matter_hub.Clusters.{id_of}
use matter_hub.Interaction.{
  OnOffCommand, WriteValue, subscription, invocation, reading, Work, ConnectionLibrary,
  request_connection, invoked, unsupported, off, on, toggle, no_reports, as_report, on_connected,
  on_connected_callback_command,
}

-- One id of each kind is always accepted, as one path.
pub single_in_range : (e k a : ℕ) → counts_in_range (counts (e ∷ []) (k ∷ []) (a ∷ []) none) ≡ true
unfolding counts_in_range
single_in_range e k a = refl

pub single_path : (e k a : ℕ) → paths_count (counts (e ∷ []) (k ∷ []) (a ∷ []) none) ≡ some 1
unfolding paths_count
single_path e k a = refl

module _ {D : Type 0} (lib : ReportLibrary) (c : ConnectionLibrary)
    (recall : WriteValue D → WriteValue D) (device : Device) (session : ℕ)
    (connected : device.secure_session ≡ some session) where
  -- A subscription asks a connected device for one path, that of its endpoint, cluster and
  -- attribute, and always with the intervals 1 and 10, whatever intervals were asked for.
  pub subscription_delivered :
      (e k a lo hi : ℕ)
      → (p : ReadPrepareParams) × IsRequest lib session
          (e ∷ [])
          (k ∷ [])
          (a ∷ [])
          InteractionType.subscribe
          1
          10
          (some true)
          none
          none
          1
          p
        × (on_connected lib c recall device (subscription e k a lo hi)
            ≡ ret (as_report lib c (send lib InteractionType.subscribe p no_reports)))
  unfolding on_connected subscribe_attribute
  subscription_delivered e k a lo hi =
      let (p, means, sent) =
        report_attribute-IsRequest lib device (e ∷ []) (k ∷ []) (a ∷ []) InteractionType.subscribe 1
          10 (some true) none none no_reports 1 session (single_in_range e k a) (single_path e k a)
          tt connected in
      (p, means, rw sent)

  -- A reading asks a connected device for one path, that of its endpoint, cluster and attribute,
  -- without intervals.
  pub reading_delivered :
      (e k a : ℕ)
      → (p : ReadPrepareParams) × IsRequest lib session
          (e ∷ [])
          (k ∷ [])
          (a ∷ [])
          InteractionType.read
          0
          0
          (some true)
          none
          none
          1
          p
        × (on_connected lib c recall device (reading e k a)
            ≡ ret (as_report lib c (send lib InteractionType.read p no_reports)))
  unfolding on_connected read_attribute
  reading_delivered e k a =
      let (p, means, sent) =
        report_attribute-IsRequest lib device (e ∷ []) (k ∷ []) (a ∷ []) InteractionType.read 0 0
          (some true) none none no_reports 1 session (single_in_range e k a) (single_path e k a) tt
          connected in
      (p, means, rw sent)

  -- A command whose id is none of the three is dropped.
  pub unknown_dropped :
      (e k i : ℕ)
      → i ≢ c.off_id
      → i ≢ c.on_id
      → i ≢ c.toggle_id
      → on_connected lib c recall device (invocation e k i) ≡ ret unsupported
  unfolding on_connected on_connected_callback_command
  unknown_dropped e k i x y z = ground arith

  module _ (off_on : c.off_id ≢ c.on_id) (off_toggle : c.off_id ≢ c.toggle_id)
      (on_toggle : c.on_id ≢ c.toggle_id) where
    pub command_invoked :
        (e k : ℕ) (o : OnOffCommand)
        → on_connected lib c recall device (invocation e k (id_of c o)) ≡ ret (invoked session e o)
    unfolding on_connected on_connected_callback_command secure_session id_of
    command_invoked e k off = ground (arith, connected)
    command_invoked e k on = ground (arith, connected)
    command_invoked e k toggle = ground (arith, connected)

    -- A command goes to its endpoint as the OnOff command of its id, whatever its cluster is, and is
    -- dropped if its id is none of the three. The ids of Off, On and Toggle are distinct.
    invocation_delivered :
        (e k i : ℕ)
        → i ≢ c.off_id
        → i ≢ c.on_id
        → i ≢ c.toggle_id
        → ((o : OnOffCommand)
            → on_connected lib c recall device (invocation e k (id_of c o))
              ≡ ret (invoked session e o))
          × (on_connected lib c recall device (invocation e k i) ≡ ret unsupported)
    invocation_delivered e k i x y z = (command_invoked e k, unknown_dropped e k i x y z)

-- RequestConnection asks for a session exactly if the fabric's table has a peer with a defined node
-- id, and then for that peer; in all other cases it fails with CHIP_ERROR_INVALID_ARGUMENT.
request_connection_iff :
    {D : Type 0} (c : ConnectionLibrary) (w : Work D) (peer : ℕ)
    → (request_connection c w ≡ (some peer, no_error))
      ↔ ((c.peer_id_for_node w.fabric_id w.node_id ≡ some peer) × (peer ≢ c.undefined_node_id))
unfolding request_connection
request_connection_iff c w peer = (λ h. ground arith, λ h. ground arith)
