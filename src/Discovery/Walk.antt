-- ===== src/Discovery/Walk.antt =====
-- The answers of a device, one after the other, and the map that the readings walk over.
use matter_hub.Prelude.{
  ℕ, zero, suc, ◌+◌, ◌≡◌, refl, sym, ap, ◌∙◌, List, [], ◌∷◌, Option, none, some, true, arith,
}
use matter_hub.Outcome.{Outcome, ret, fault, ◌>>=◌}
use matter_hub.Chip.{no_error, Device}
use matter_hub.Reports.{ReadPrepareParams, InteractionType, send, keep_client}
use matter_hub.Reports.Attributes
use matter_hub.Reports.Attributes.Requests.{report_attribute-IsRequest}
use matter_hub.Interaction.{subscription_of, do_read, no_reports}
use matter_hub.Interaction.Delivery.{single_in_range, single_path}
use matter_hub.Discovery.{
  Callback, Reading, DescriptionManager, Progress, reads, publishes, DiscoveryLibrary, call_back,
  read_attribute,
}

-- A reading that is in flight: its read client was kept.
abbrev pub in_flight : DescriptionManager → Option Reading
in_flight m = elim m.last_sub [
  | none ↦ none
  | some r ↦ elim r.reports.read_clients [ [] ↦ none | c ∷ cs ↦ some r ]
]

bind_assoc :
    {A B C : Type 0} (o : Outcome A) (h : A → Outcome C) (f : A → Outcome B) (g : B → Outcome C)
    → ((a : A) → h a ≡ (f a >>= g))
    → (o >>= h) ≡ (o >>= f >>= g)
bind_assoc (ret a) h f g e = e a
bind_assoc (fault x) h f g e = refl

module _ (lib : DiscoveryLibrary) (answer : ℕ → ℕ → ℕ → List ℕ) where
  -- A device that answers each path with a list: what comes next.
  abbrev pub next : Progress → Outcome Progress
  next (publishes m) = ret (publishes m)
  next (reads m) = elim (in_flight m) [
    | none ↦ ret (reads m)
    | some r ↦ call_back lib r.callback (answer r.endpoint_id r.cluster_id r.attribute_id) m
  ]

  unfoldable pub run : ℕ → Progress → Outcome Progress
  run zero p = ret p
  run (suc n) p = next p >>= run n

  run-add : (n k : ℕ) (p : Progress) → run (n + k) p ≡ (run n p >>= run k)
  unfolding run
  run-add zero k p = ap (λ n. run n p) (omega arith)
  run-add (suc n) k p =
      let e : suc n + k ≡ suc (n + k) = omega arith in
      ap (λ i. run i p) e ∙ bind_assoc (next p) (run (n + k)) (run n) (run k) (run-add n k)

  pub run-then :
      (n k j : ℕ) (p q : Progress) (r : Outcome Progress)
      → n + k ≡ j
      → run n p ≡ ret q
      → run k q ≡ r
      → run j p ≡ r
  run-then n k j p q r e first second =
      ap (λ i. run i p) (sym e) ∙ (run-add n k p ∙ rw first second)

module _ (lib : DiscoveryLibrary) (device : Device) (session : ℕ)
    (connected : device.secure_session ≡ some session)
    (accepts : (p : ReadPrepareParams) → lib.reports.send_request p ≡ no_error) where
  -- The request for one path, and the reading that sends it.
  abbrev request : ℕ → ℕ → ℕ → ReadPrepareParams
  request e k a =
      (report_attribute-IsRequest lib.reports device (e ∷ []) (k ∷ []) (a ∷ []) InteractionType.read
        0 0 (some true) none none no_reports 1 session (single_in_range e k a) (single_path e k a)
        tt connected).0

  abbrev pub sent : ℕ → ℕ → ℕ → Callback → Reading
  sent e k a callback = record {
    endpoint_id = e;
    cluster_id = k;
    attribute_id = a;
    callback = callback;
    reports = record {
      read_clients =
          record { address = lib.reports.new_address []; interaction_type = InteractionType.read }
          ∷ [];
      requests = request e k a ∷ [];
    };
  }

  pub read_attribute_sends :
      (e k a : ℕ) (callback : Callback) (m : DescriptionManager)
      → m.device ≡ device
      → read_attribute lib e k a callback m
        ≡ ret (record m { last_sub = some (sent e k a callback) })
  unfolding read_attribute do_read subscription_of send keep_client Attributes.read_attribute
  read_attribute_sends e k a callback m same =
      let (p, means, done) =
        report_attribute-IsRequest lib.reports device (e ∷ []) (k ∷ []) (a ∷ [])
          InteractionType.read 0 0 (some true) none none no_reports 1 session
          (single_in_range e k a) (single_path e k a) tt connected in
      rw same (rw done (rw (accepts p) refl))

  pub reads_on :
      (answer : ℕ → ℕ → ℕ → List ℕ) (e k a : ℕ) (callback : Callback) (m : DescriptionManager)
      → m.device ≡ device
      → (read_attribute lib e k a callback m >>= (λ m'. ret (reads m')) >>= run lib answer 0)
        ≡ ret (reads (record m { last_sub = some (sent e k a callback) }))
  unfolding run
  reads_on answer e k a callback m same = rw (read_attribute_sends e k a callback m same) refl
