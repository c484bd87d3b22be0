-- ===== src/Interaction/Failures.antt =====
-- src/main/ConnectionHelper.cpp with the objects that its callbacks point to: the singleton and the
-- commands' data, at their addresses.
use matter_hub.Prelude.{ℕ, ◌≡◌, ◌≢◌, refl, List, [], ◌∷◌, ◌++◌, Option, none, some, ◌∙◌}
use matter_hub.Outcome.{Outcome, ◌>>=◌, ret, fault, dangling_pointer, or_fault}
use matter_hub.Chip.{no_error}
use matter_hub.Heap.{object_at, delete, object_at-delete, object_at-delete_other}
use matter_hub.Interaction.{Work, ConnectionLibrary, request_connection}

-- What is live at an address: the ConnectionHelper, or a BaseCommandData.
pub data Held (D : Type 0) : Type 0 where
  connection_helper : Held D
  command_data : Work D → Held D

-- The live objects; the sessions that are asked for, each with its peer and the contexts of its two
-- callbacks, the one for a connection and the one for a failure; and the released peers.
pub record Connections (D : Type 0) : Type 0 where
  pub live : List (ℕ × Held D)
  pub sessions : List (ℕ × ℕ × ℕ)
  pub released : List ℕ

module _ {D : Type 0} where
  command_at : Option (Held D) → Option (Work D)
  command_at (some (command_data w)) = some w
  command_at (some connection_helper) = none
  command_at none = none

  -- InteractionModelHelperWorkerFunction with RequestConnection, where `helper` is the address that
  -- GetInstance yields, and a null context is `none`. RequestConnection reads the fields of both
  -- objects; its failure callback has the ConnectionHelper as context.
  pub run_worker : ConnectionLibrary → ℕ → Option ℕ → Connections D → Outcome (Connections D)
  unfolding command_at
  run_worker lib helper none s = ret s
  run_worker lib helper (some address) s = do
    this ← or_fault (object_at helper s.live) dangling_pointer
    w ← or_fault (command_at (object_at address s.live)) dangling_pointer
    ret (elim (request_connection lib w).0 [
      | none ↦ s
      | some peer ↦ record s { sessions = s.sessions ++ (peer, address, helper) ∷ [] }
    ])

  -- onConnectionRequestFailure
  pub on_connection_request_failure : ℕ → ℕ → Connections D → Connections D
  on_connection_request_failure context peer s = record s {
    released = s.released ++ peer ∷ [];
    live = delete context s.live;
  }

  helper_apart :
      (a b : ℕ) (w : Work D) (os : List (ℕ × Held D))
      → object_at a os ≡ some connection_helper
      → object_at b os ≡ some (command_data w)
      → a ≢ b
  helper_apart a b w os h k e = cc

  -- A failed connection destroys the ConnectionHelper. The worker asks for a session for a command whose
  -- node has a peer, both objects being live; when this connection fails, the callback, called with
  -- the context it was registered with, leaves the command's data on the heap, and the
  -- ConnectionHelper is gone: the next run of the worker for a command, whichever it is, uses an
  -- object that is no longer there.
  pub failed_connection_dangles :
      (lib : ConnectionLibrary) (helper address next peer : ℕ) (w : Work D) (s : Connections D)
      → object_at helper s.live ≡ some connection_helper
      → object_at address s.live ≡ some (command_data w)
      → request_connection lib w ≡ (some peer, no_error)
      → (asked : Connections D) × (run_worker lib helper (some address) s ≡ ret asked)
        × (asked.sessions ≡ s.sessions ++ (peer, address, helper) ∷ [])
        × (object_at helper (on_connection_request_failure helper peer asked).live ≡ none)
        × (object_at address (on_connection_request_failure helper peer asked).live
            ≡ some (command_data w))
        × (run_worker lib helper (some next) (on_connection_request_failure helper peer asked)
            ≡ fault dangling_pointer)
  unfolding run_worker on_connection_request_failure
  failed_connection_dangles lib helper address next peer w s h a known = (
    record s { sessions = s.sessions ++ (peer, address, helper) ∷ [] },
    rw (h, a, known) refl,
    refl,
    object_at-delete helper s.live,
    object_at-delete_other helper address s.live (helper_apart helper address w s.live h a) ∙ a,
    rw (object_at-delete helper s.live) refl,
  )
