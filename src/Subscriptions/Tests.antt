-- ===== src/Subscriptions/Tests.antt =====
-- The theorems about the subscribe command at concrete inputs.
use matter_hub.Prelude.{
  ℕ, ◌+◌, ◌≡◌, ap, ◌∙◌, List, ◌++◌, if◌then◌else◌, arith, [], ◌∷◌, length, ◌==◌, some,
}
use matter_hub.Prelude.Int.{pos}
use matter_hub.Outcome.{Outcome}
use matter_hub.Reports.Tests.{sdk, peer}
use matter_hub.Interaction.Tests.{table}
use matter_hub.Subscriptions.{
  SubscribeCommandData, Subscriptions, ShellLibrary, SessionManager, subscribe_worker_function,
}

abbrev pub lamp : SubscribeCommandData
lamp = record {
  fabric_id = 1;
  node_id = 333;
  endpoint_id = 1;
  cluster_id = 6;
  attribute_id = 0;
  min_interval = 30;
  max_interval = 600;
  on_connected_callback = 8;
  on_connection_failure_callback = 8;
}

-- The registrations without those of an address.
without : ℕ → List (ℕ × ℕ) → List (ℕ × ℕ)
without address [] = []
without address ((peer, a) ∷ sessions) =
    if a == address then without address sessions else (peer, a) ∷ without address sessions

without-last :
    (address peer : ℕ) (sessions : List (ℕ × ℕ))
    → without address (sessions ++ (peer, address) ∷ []) ≡ without address sessions
unfolding without
without-last address peer [] = ground arith
without-last address peer ((p, a) ∷ sessions) =
    ap (λ rest. if a == address then rest else (p, a) ∷ rest) (without-last address peer sessions)

without-append :
    (address peer : ℕ) (sessions : List (ℕ × ℕ))
    → without address sessions ≡ sessions
    → without address (sessions ++ (peer, address) ∷ []) ≡ sessions
without-append address peer sessions alone = without-last address peer sessions ∙ alone

abbrev scheduled : Subscriptions
scheduled = record {
  objects = (8, lamp) ∷ [];
  queue = [];
  sessions = [];
  subscriptions = [];
  released = [];
}

-- The peer of every node is connected.
abbrev met : SessionManager
met = record { established = λ p. some peer; cancel = without; cancelled = without-append }

abbrev worked : Outcome Subscriptions
worked = subscribe_worker_function sdk table met (some 8) scheduled

-- Every argument is read as 5, and new objects stand above the others.
abbrev pub fives : ShellLibrary
fives = record { new_address = λ os. length os + 1; uninitialised = lamp; atoi = λ s. pos 5 }
