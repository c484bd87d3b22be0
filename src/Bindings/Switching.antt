-- ===== src/Bindings/Switching.antt =====
-- What is left of a switch command's data after its worker, in src/main/BindingHandler.cpp.
use matter_hub.Prelude.{ℕ, ◌≡◌, refl, ◌≢◌, inl, inr, ap, List, [], Option, none, some, Option-cases}
use matter_hub.Outcome.{Fault, Outcome, ret, fault, dangling_pointer, ◌>>=◌}
use matter_hub.Chip.{Device}
use matter_hub.Heap.{object_at, delete, object_at-delete}
use matter_hub.Interaction.{ConnectionLibrary}
use matter_hub.Bindings.{
  BindingCommandData, BindingTableEntry, Bindings, BindingLibrary, other_binding,
  light_switch_changed_handler, notify_all, switch_worker_function,
}
use matter_hub.Bindings.Notified.{BindingType-cases}

-- What an outcome leaves of the commands' data.
commands_of : Outcome Bindings → List (ℕ × BindingCommandData)
commands_of (ret s) = s.commands
commands_of (fault e) = []

module _ (lib : BindingLibrary) (c : ConnectionLibrary) (address : ℕ) where
  handler_dangles :
      (b : BindingTableEntry) (d : Option Device) (s : Bindings)
      → b.type ≢ other_binding
      → object_at address s.commands ≡ none
      → light_switch_changed_handler lib c b d (some address) s ≡ fault dangling_pointer
  unfolding light_switch_changed_handler
  handler_dangles b d s named gone = elim (BindingType-cases b.type) [
    | inl is_unicast ↦ rw is_unicast (rw gone refl)
    | inr (inl is_multicast) ↦ rw is_multicast (rw gone refl)
    | inr (inr is_other) ↦ absurd (named is_other)
  ]

  ret-ne-fault : (e : Fault) (t : Bindings) → fault e ≢ ret t
  ret-ne-fault e t h = cc

  ending_deletes :
      (o : Outcome Bindings) (t : Bindings)
      → (o >>= (λ s'. ret (record s' { commands = delete address s'.commands }))) ≡ ret t
      → object_at address t.commands ≡ none
  unfolding commands_of
  ending_deletes (ret s) t ran =
      let same : delete address s.commands ≡ t.commands = ap commands_of ran in
      rw (← same) (object_at-delete address s.commands)
  ending_deletes (fault e) t ran = absurd (ret-ne-fault e t ran)

  worker_deletes :
      (s t : Bindings)
      → switch_worker_function lib c (some address) s ≡ ret t
      → object_at address t.commands ≡ none
  unfolding switch_worker_function
  worker_deletes s t ran = elim (Option-cases (object_at address s.commands)) [
    | inl gone ↦ absurd (ret-ne-fault dangling_pointer t (rw gone at ran))
    | inr (d, live) ↦
        ending_deletes
          (notify_all lib c (some address) (lib.notified s.table d.local_endpoint_id d.cluster_id)
            s)
          t (rw live at ran)
  ]

  -- SwitchWorkerFunction deletes the command's data: when the binding manager calls the handler
  -- later with that data, for a device whose session was not there at once or for a group, the
  -- handler reads an object that is gone. This holds for every run of the worker that ends without
  -- a fault and for every binding of one of the two types that the handler knows.
  pub switch_dangles :
      (b : BindingTableEntry) (d : Option Device) (s t : Bindings)
      → switch_worker_function lib c (some address) s ≡ ret t
      → b.type ≢ other_binding
      → light_switch_changed_handler lib c b d (some address) t ≡ fault dangling_pointer
  switch_dangles b d s t ran named = handler_dangles b d t named (worker_deletes s t ran)
