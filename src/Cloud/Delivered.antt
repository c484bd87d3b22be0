-- ===== src/Cloud/Delivered.antt =====
-- What the work that a message of the cloud schedules asks of a device that connects.
use matter_hub.Prelude.{
  ℕ, ◌≡◌, refl, ◌≢◌, ◌⊎◌, inl, inr, List, [], ◌∷◌, map, true, false, Option, none, some, ◌==◌,
  Bool-cases, arith,
}
use matter_hub.Outcome.{Outcome, ret, ◌>>=◌}
use matter_hub.Chip.{Device}
use matter_hub.OrderedMap.{text_key}
use matter_hub.Reports.{ReportLibrary, ReadPrepareParams, InteractionType, send}
use matter_hub.Reports.Attributes.Requests.{IsRequest}
use matter_hub.Interaction.{
  WriteValue, invocation, Work, ConnectionLibrary, request_connection, peer_id_for_node,
  worker_function, OnOffCommand, off, on, toggle, Delivered, invoked, unsupported, no_reports,
  as_report, on_connected,
}
use matter_hub.Interaction.Delivery.{
  subscription_delivered, reading_delivered, command_invoked, unknown_dropped,
}
use matter_hub.Clusters.{id_of}
use matter_hub.Mqtt.{Invocation}
use matter_hub.Cloud.Commands.{Action, cmd, read, subscribe, Wish, interaction_for, work_of}

-- A callback for a topic: what it does with a topic, a message and the work queue.
abbrev pub Callback : Type 0 → Type 0
Callback D = List ℕ → List ℕ → List (Work D) → Outcome (List (Work D))

module _ {D : Type 0} where
  -- The calls of the callbacks, one after the other.
  unfoldable pub call_back :
      List (Invocation (Callback D)) → List (Work D) → Outcome (List (Work D))
  call_back [] queue = ret queue
  call_back (call ∷ calls) queue = call.callback call.topic call.message queue >>= call_back calls

  -- The work queue: each work asks for a session with its peer, and a device that connects is asked
  -- what the work is for. `devices` are those that connect.
  unfoldable pub run_interactions :
      ReportLibrary
      → ConnectionLibrary
      → (WriteValue D → WriteValue D)
      → (ℕ → Option Device)
      → List (Work D)
      → Outcome (List (Delivered D))
  run_interactions lib c recall devices [] = ret []
  run_interactions lib c recall devices (w ∷ ws) =
      let rest = run_interactions lib c recall devices ws in
      elim (worker_function c (some w)) [
        | none ↦ rest
        | some peer ↦ elim (devices peer) [
          | none ↦ rest
          | some device ↦ do
            d ← on_connected lib c recall device w.interaction
            ds ← rest
            ret (d ∷ ds)
        ]
      ]

-- Every command of a message is one of the OnOff cluster.
abbrev pub OnlyOnOff : ℕ → List Wish → Type 0
OnlyOnOff on_off_id [] = Unit
OnlyOnOff on_off_id (w ∷ ws) = (w.action ≡ cmd → w.cluster ≡ on_off_id) × OnlyOnOff on_off_id ws

-- What the device is asked for each wish of a message; what is invoked is a command of the OnOff
-- cluster, whose id is `on_off_id`.
pub data Meets {D : Type 0} (lib : ReportLibrary) (c : ConnectionLibrary) (on_off_id session : ℕ)
    : Wish → Delivered D → Type 0 where
  invokes :
      (w : Wish) (o : OnOffCommand)
      → w.action ≡ cmd
      → w.cluster ≡ on_off_id
      → w.specific ≡ id_of c o
      → Meets lib c on_off_id session w (invoked session w.endpoint o)
  ignores :
      (w : Wish)
      → w.action ≡ cmd
      → ((o : OnOffCommand) → w.specific ≢ id_of c o)
      → Meets lib c on_off_id session w unsupported
  reads :
      (w : Wish) (p : ReadPrepareParams)
      → w.action ≡ read
      → IsRequest lib session
          (w.endpoint ∷ [])
          (w.cluster ∷ [])
          (w.specific ∷ [])
          InteractionType.read
          0
          0
          (some true)
          none
          none
          1
          p
      → Meets lib c on_off_id session w
          (as_report lib c (send lib InteractionType.read p no_reports))
  subscribes :
      (w : Wish) (p : ReadPrepareParams)
      → w.action ≡ subscribe
      → IsRequest lib session
          (w.endpoint ∷ [])
          (w.cluster ∷ [])
          (w.specific ∷ [])
          InteractionType.subscribe
          1
          10
          (some true)
          none
          none
          1
          p
      → Meets lib c on_off_id session w
          (as_report lib c (send lib InteractionType.subscribe p no_reports))

-- One answer for each wish, in their order.
abbrev pub AllMeet :
    {D : Type 0}
    → ReportLibrary
    → ConnectionLibrary
    → ℕ
    → ℕ
    → List Wish
    → List (Delivered D)
    → Type 0
AllMeet lib c on_off_id session [] [] = Unit
AllMeet lib c on_off_id session [] (d ∷ ds) = ⊥
AllMeet lib c on_off_id session (w ∷ ws) [] = ⊥
AllMeet lib c on_off_id session (w ∷ ws) (d ∷ ds) =
    Meets lib c on_off_id session w d × AllMeet lib c on_off_id session ws ds

differs :
    (c : ConnectionLibrary) (i : ℕ) (o : OnOffCommand)
    → i ≢ c.off_id
    → i ≢ c.on_id
    → i ≢ c.toggle_id
    → i ≢ id_of c o
unfolding id_of
differs c i off x y z = x
differs c i on x y z = y
differs c i toggle x y z = z

id_cases :
    (c : ConnectionLibrary) (i : ℕ)
    → ((o : OnOffCommand) × (i ≡ id_of c o)) ⊎ ((o : OnOffCommand) → i ≢ id_of c o)
unfolding id_of
id_cases c i = elim (Bool-cases (i == c.off_id)) [
  | inl is_off ↦ inl (off, ground arith)
  | inr not_off ↦ elim (Bool-cases (i == c.on_id)) [
    | inl is_on ↦ inl (on, ground arith)
    | inr not_on ↦ elim (Bool-cases (i == c.toggle_id)) [
      | inl is_toggle ↦ inl (toggle, ground arith)
      | inr not_toggle ↦ inr (λ o. differs c i o (ground arith) (ground arith) (ground arith))
    ]
  ]
]

module _ {D : Type 0} (lib : ReportLibrary) (c : ConnectionLibrary) (on_off_id : ℕ)
    (recall : WriteValue D → WriteValue D) (device : Device) (session : ℕ)
    (connected : device.secure_session ≡ some session) (off_on : c.off_id ≢ c.on_id)
    (off_toggle : c.off_id ≢ c.toggle_id) (on_toggle : c.on_id ≢ c.toggle_id) where
  command-Meets :
      (w : Wish)
      → w.action ≡ cmd
      → w.cluster ≡ on_off_id
      → (d : Delivered D) × (on_connected lib c recall device
            (invocation w.endpoint w.cluster w.specific)
          ≡ ret d)
        × Meets lib c on_off_id session w d
  unfolding id_of
  command-Meets w is_cmd is_on_off = elim (id_cases c w.specific) [
    | inl (o, is_id) ↦ (
      invoked session w.endpoint o,
      rw is_id (
          command_invoked lib c recall device session connected off_on off_toggle on_toggle
            w.endpoint w.cluster o),
      invokes w o is_cmd is_on_off is_id,
    )
    | inr no_id ↦ (
      unsupported,
      unknown_dropped lib c recall device session connected w.endpoint w.cluster w.specific
          (no_id off) (no_id on) (no_id toggle),
      ignores w is_cmd no_id,
    )
  ]

  action-Meets :
      (a : Action) (w : Wish)
      → w.action ≡ a
      → (w.action ≡ cmd → w.cluster ≡ on_off_id)
      → (d : Delivered D) × (on_connected lib c recall device
            (interaction_for a w.endpoint w.cluster w.specific)
          ≡ ret d)
        × Meets lib c on_off_id session w d
  action-Meets cmd w e only = command-Meets w e (only e)
  action-Meets read w e only =
      let (p, means, asked) =
        reading_delivered lib c recall device session connected w.endpoint w.cluster w.specific in
      (as_report lib c (send lib InteractionType.read p no_reports), asked, reads w p e means)
  action-Meets subscribe w e only =
      let (p, means, asked) =
        subscription_delivered lib c recall device session connected w.endpoint w.cluster w.specific
          1 10 in
      (
        as_report lib c (send lib InteractionType.subscribe p no_reports),
        asked,
        subscribes w p e means,
      )

  module _ (devices : ℕ → Option Device) (node peer : ℕ)
      (known : c.peer_id_for_node 1 node ≡ some peer)
      (defined : (peer == c.undefined_node_id) ≡ false) (answers : devices peer ≡ some device) where
    has_peer : (w : Wish) → worker_function c (some (work_of {D = D} node w)) ≡ some peer
    unfolding worker_function request_connection peer_id_for_node
    has_peer w =
        rw (known, worker_function, request_connection, peer_id_for_node) (rw (defined) refl)

    pub wishes-AllMeet :
        (ws : List Wish)
        → OnlyOnOff on_off_id ws
        → (ds : List (Delivered D)) × (run_interactions lib c recall devices (map (work_of node) ws)
            ≡ ret ds)
          × AllMeet lib c on_off_id session ws ds
    unfolding run_interactions
    wishes-AllMeet [] only = ([], refl, tt)
    wishes-AllMeet (w ∷ ws) (first, only) =
        let (d, asked, meets) = action-Meets w.action w refl first in
        let (ds, ran, all) = wishes-AllMeet ws only in
        (
          d ∷ ds,
          rw (has_peer w, run_interactions) (rw (answers, run_interactions) (rw (asked, ran) refl)),
          (meets, all),
        )
