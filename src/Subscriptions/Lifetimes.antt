-- ===== src/Subscriptions/Lifetimes.antt =====
-- How long the command's data lives, and what a connection makes of it.
use matter_hub.Prelude.{ℕ, ◌+◌, ◌≡◌, refl, ◌≢◌, List, [], ◌∷◌, length, arith}
use matter_hub.Reports.{Reports}
use matter_hub.Subscriptions.{
  Subscriptions, ShellLibrary, allocate, subscribe_subscribe_command_handler,
}

-- With a number of arguments other than seven nothing is scheduled, but one object more stays on
-- the heap.
wrong_arguments_leak :
    (lib : ShellLibrary) (arguments : List (List ℕ)) (s : Subscriptions)
    → length arguments ≢ 7
    → ((subscribe_subscribe_command_handler lib arguments s).queue ≡ s.queue)
      × ((subscribe_subscribe_command_handler lib arguments s).sessions ≡ s.sessions)
      × (length (subscribe_subscribe_command_handler lib arguments s).objects
          ≡ length s.objects + 1)
unfolding subscribe_subscribe_command_handler allocate
wrong_arguments_leak lib [] s h = (refl, refl, omega arith)
wrong_arguments_leak lib (a ∷ []) s h = (refl, refl, omega arith)
wrong_arguments_leak lib (a ∷ b ∷ []) s h = (refl, refl, omega arith)
wrong_arguments_leak lib (a ∷ b ∷ c ∷ []) s h = (refl, refl, omega arith)
wrong_arguments_leak lib (a ∷ b ∷ c ∷ d ∷ []) s h = (refl, refl, omega arith)
wrong_arguments_leak lib (a ∷ b ∷ c ∷ d ∷ e ∷ []) s h = (refl, refl, omega arith)
wrong_arguments_leak lib (a ∷ b ∷ c ∷ d ∷ e ∷ f ∷ []) s h = (refl, refl, omega arith)
wrong_arguments_leak lib (a ∷ b ∷ c ∷ d ∷ e ∷ f ∷ g ∷ []) s h = absurd (h refl)
wrong_arguments_leak lib (a ∷ b ∷ c ∷ d ∷ e ∷ f ∷ g ∷ i ∷ rest) s h = (refl, refl, omega arith)
