-- ===== src/Discovery/Empty.antt =====
-- Empty lists: a callback reads the first element of its map without a test.
use matter_hub.Prelude.{
  ℕ, ◌+◌, ◌≡◌, refl, ◌⊎◌, List, [], ◌∷◌, ◌++◌, List-cases, inl, inr, Option, none, some, true,
  arith, ◌==◌, Bool-cases,
}
use matter_hub.Outcome.{fault, end_iterator, ◌>>=◌}
use matter_hub.OrderedMap.{nat_key, first_key}
use matter_hub.OrderedMap.Ids.{
  IsMissing, IsIncreasing, emplace_all, insert_all, elem, find-middle, IsIncreasing-insert_all,
  insert_all-nil, cons-nonempty, elem-nonempty,
}
use matter_hub.Chip.{no_error, Device}
use matter_hub.Reports.{ReadPrepareParams}
use matter_hub.Discovery.{
  Endpoint, part_list_read, Reading, reads, DiscoveryLibrary, call_back, on_part_list_read_callback,
  on_server_list_read_callback, endpoint_at, new_description_manager,
}
use matter_hub.Discovery.Walk.{run, run-then}
use matter_hub.Discovery.Steps.{
  Answers, described_endpoint, servers_of, AllMissing, AllMissing-snoc, AllMissing-nil, asks,
  manager, after_endpoint,
}
use matter_hub.Discovery.Described.{endpoint_walk, asks_parts, parts_answered, parts, elem-listed}

module _ (lib : DiscoveryLibrary) (answer : Answers) (device : Device) (session : ℕ)
    (connected : device.secure_session ≡ some session)
    (accepts : (p : ReadPrepareParams) → lib.reports.send_request p ≡ no_error) where
  no_servers :
      (done : List (ℕ × Endpoint)) (e : ℕ) (todo : List ℕ) (last : Option Reading)
      → IsMissing e done
      → answer e lib.descriptor_id lib.server_list_id ≡ []
      → run lib answer 1
          (after_endpoint lib answer device session connected accepts done (e ∷ todo) last)
        ≡ fault end_iterator
  unfolding run call_back on_server_list_read_callback endpoint_at emplace_all first_key
  no_servers done e todo last outside nothing =
      rw (find-middle e _ _ done outside) (rw nothing refl)

  no_parts :
      answer 0 lib.descriptor_id lib.parts_list_id ≡ []
      → run lib answer 1 (
          reads (
            manager lib answer device session connected accepts [] none none (
              asks lib answer device session connected accepts 0 lib.descriptor_id lib.parts_list_id
                part_list_read)))
        ≡ fault end_iterator
  unfolding run call_back on_part_list_read_callback endpoint_at emplace_all first_key
  no_parts nothing = rw nothing refl

  -- The endpoint without clusters is not one that has some.
  in_rest :
      (e i : ℕ) (ids : List ℕ) (k : ℕ) (more : List ℕ)
      → elem e (i ∷ ids) ≡ true
      → answer e lib.descriptor_id lib.server_list_id ≡ []
      → answer i lib.descriptor_id lib.server_list_id ≡ k ∷ more
      → elem e ids ≡ true
  unfolding elem
  in_rest e i ids k more here nothing some_here = elim (Bool-cases (i == e)) [
    | inl h ↦
        let same : i ≡ e = ground arith in
        absurd (cons-nonempty k more _ (rw same at some_here) nothing)
    | inr h ↦ ground arith
  ]

  walk_ends :
      (ids : List ℕ) (done : List (ℕ × Endpoint)) (last : Option Reading) (e : ℕ)
      → IsIncreasing ids
      → AllMissing ids done
      → elem e ids ≡ true
      → answer e lib.descriptor_id lib.server_list_id ≡ []
      → (n : ℕ) × (run lib answer n
            (after_endpoint lib answer device session connected accepts done ids last)
          ≡ fault end_iterator)
  unfolding elem servers_of
  walk_ends [] done last e increasing outside here nothing = absurd (ground arith)
  walk_ends (i ∷ ids) done last e (below, increasing) (outside, others) here nothing =
      elim (List-cases (answer i lib.descriptor_id lib.server_list_id)) [
        | inl none_here ↦ (1, no_servers done i ids last outside none_here)
        | inr (k, more, some_here) ↦
            let (next, walked) =
              endpoint_walk lib answer device session connected accepts done i ids last outside (
                insert_all-nil (answer i lib.descriptor_id lib.server_list_id) (
                  cons-nonempty k more (answer i lib.descriptor_id lib.server_list_id)
                    some_here)) in
            let (n, ended) =
              walk_ends ids (done ++ (i, described_endpoint lib answer i) ∷ []) next e increasing
                (AllMissing-snoc i (described_endpoint lib answer i) ids done below others)
                (in_rest e i ids k more here nothing some_here) nothing in
            (_ + n, run-then lib answer _ n _ _ _ _ refl walked ended)
      ]

  -- The discovery of a connected device that accepts every request runs into the end of a map if
  -- the parts list is empty, or if the server list of an endpoint in it is: after some answer a
  -- callback reads the first element of an empty map.
  pub discovery_faults :
      (answer 0 lib.descriptor_id lib.parts_list_id ≡ [])
        ⊎ ((e : ℕ) × (elem e (answer 0 lib.descriptor_id lib.parts_list_id) ≡ true)
            × (answer e lib.descriptor_id lib.server_list_id ≡ []))
      → (n : ℕ) × ((new_description_manager lib device >>= run lib answer n) ≡ fault end_iterator)
  discovery_faults (inl nothing) =
      (1, rw (asks_parts lib answer device session connected accepts) (no_parts nothing))
  discovery_faults (inr (e, here, nothing)) =
      let (n, ended) =
        walk_ends (insert_all (parts lib answer) []) [] none e
          (IsIncreasing-insert_all (parts lib answer) [] tt) (AllMissing-nil _ _)
          (rw (elem-listed lib answer e (parts lib answer)) here) nothing in
      (
        1 + n,
        rw (asks_parts lib answer device session connected accepts) (
            run-then lib answer 1 n _ _ _ _ refl
              (parts_answered lib answer device session connected accepts
                (elem-nonempty e (parts lib answer) here))
              ended),
      )
