-- ===== src/Model/Answers.antt =====
-- src/main/InteractionModel.cpp: the callbacks of the class InteractionModel, which pass answers on
-- to its pure virtual OnResponse, and its Shutdown.
use matter_hub.Prelude.{
  ℕ, suc, ◌≡◌, refl, sym, ◌∙◌, List, [], ◌∷◌, ◌++◌, append-nil, append_assoc, Option, none, some,
}
use matter_hub.Chip.{ChipError}
use matter_hub.Reports.{Reports, cleanup_read_client, shutdown as shutdown_reports}
use matter_hub.Model.{Commands, WriteRequest, on_done}

-- The parts that InteractionModel inherits, with the number of calls of ContinueOnChipMainThread in
-- `commands`, and the calls of OnResponse: `S` is StatusIB, and `D` is what a TLVReader reads, with
-- `none` for a null pointer.
pub record InteractionModel (V S D : Type 0) : Type 0 where
  pub reports : Reports
  pub commands : Commands
  pub write_client : Option (WriteRequest V)
  pub responses : List (S × Option D)

-- The default constructor of StatusIB and the one from an error.
pub record StatusLibrary (S : Type 0) : Type 0 where
  pub default_status : S
  pub status_of : ChipError → S

-- The calls of the three callback interfaces.
pub data Callback (S D : Type 0) : Type 0 where
  attribute_data : Option D → S → Callback S D
  event_data : Option D → Option S → Callback S D
  read_error write_error command_error : ChipError → Callback S D
  read_done : ℕ → Callback S D
  subscription_established write_done command_done : Callback S D
  write_response : S → Callback S D
  command_response : S → Option D → Callback S D

-- `status == nullptr ? StatusIB() : *status`
status_or_default : {S : Type 0} → StatusLibrary S → Option S → S
status_or_default lib none = lib.default_status
status_or_default lib (some status) = status

-- The data or the error that a callback brings, with its status.
pub answer : {S D : Type 0} → StatusLibrary S → Callback S D → List (S × Option D)
answer lib (attribute_data payload status) = (status, payload) ∷ []
answer lib (event_data payload none) = (lib.default_status, payload) ∷ []
answer lib (event_data payload (some status)) = (status, payload) ∷ []
answer lib (read_error e) = (lib.status_of e, none) ∷ []
answer lib (write_error e) = (lib.status_of e, none) ∷ []
answer lib (command_error e) = (lib.status_of e, none) ∷ []
answer lib (write_response status) = (status, none) ∷ []
answer lib (command_response status payload) = (status, payload) ∷ []
answer lib (read_done address) = []
answer lib subscription_established = []
answer lib write_done = []
answer lib command_done = []

pub answers : {S D : Type 0} → StatusLibrary S → List (Callback S D) → List (S × Option D)
answers lib [] = []
answers lib (c ∷ cs) = answer lib c ++ answers lib cs

-- InteractionModelCommands::Shutdown, which resets every sender and clears the list.
unfoldable pub shutdown_commands : Commands → Commands
shutdown_commands c = record c { command_senders = [] }

-- InteractionModelWriter::Shutdown
unfoldable pub shutdown_writer : {V : Type 0} → Option (WriteRequest V) → Option (WriteRequest V)
shutdown_writer client = none

module _ {V S D : Type 0} (lib : StatusLibrary S) where
  pub on_response : S → Option D → InteractionModel V S D → InteractionModel V S D
  on_response status payload s = record s { responses = s.responses ++ (status, payload) ∷ [] }

  continue_on_chip_main_thread : InteractionModel V S D → InteractionModel V S D
  continue_on_chip_main_thread s = record s {
    commands = record s.commands { continued = suc s.commands.continued };
  }

  -- OnDone of a ReadClient
  pub on_read_done : ℕ → InteractionModel V S D → InteractionModel V S D
  unfolding continue_on_chip_main_thread cleanup_read_client
  on_read_done address s =
      continue_on_chip_main_thread (record s { reports = cleanup_read_client address s.reports })

  -- OnDone of a WriteClient
  pub on_write_done : InteractionModel V S D → InteractionModel V S D
  unfolding continue_on_chip_main_thread
  on_write_done s = continue_on_chip_main_thread (record s { write_client = none })

  -- OnDone of a CommandSender
  pub on_command_done : InteractionModel V S D → InteractionModel V S D
  unfolding on_done
  on_command_done s = record s { commands = on_done s.commands }

  pub call : Callback S D → InteractionModel V S D → InteractionModel V S D
  unfolding on_response status_or_default on_read_done on_write_done on_command_done
      continue_on_chip_main_thread
  call (attribute_data payload status) s = on_response status payload s
  call (event_data payload status) s = on_response (status_or_default lib status) payload s
  call (read_error e) s = on_response (lib.status_of e) none s
  call (read_done address) s = on_read_done address s
  call subscription_established s = continue_on_chip_main_thread s
  call (write_response status) s = on_response status none s
  call (write_error e) s = on_response (lib.status_of e) none s
  call write_done s = on_write_done s
  call (command_response status payload) s = on_response status payload s
  call (command_error e) s = on_response (lib.status_of e) none s
  call command_done s = on_command_done s

  pub call_all : List (Callback S D) → InteractionModel V S D → InteractionModel V S D
  unfolding call
  call_all [] s = s
  call_all (c ∷ cs) s = call_all cs (call c s)

  -- InteractionModel::Shutdown
  pub shutdown : InteractionModel V S D → InteractionModel V S D
  unfolding shutdown_reports shutdown_commands shutdown_writer
  shutdown s = record s {
    reports = shutdown_reports s.reports;
    write_client = shutdown_writer s.write_client;
    commands = shutdown_commands s.commands;
  }

  -- Nothing is in flight.
  abbrev pub IsQuiet : InteractionModel V S D → Type 0
  IsQuiet s =
      (s.reports.read_clients ≡ []) × (s.write_client ≡ none) × (s.commands.command_senders ≡ [])

  call-IsQuiet : (c : Callback S D) (s : InteractionModel V S D) → IsQuiet s → IsQuiet (call c s)
  unfolding call on_done
  call-IsQuiet (attribute_data payload status) s h = h
  call-IsQuiet (event_data payload status) s h = h
  call-IsQuiet (read_error e) s h = h
  call-IsQuiet (write_error e) s h = h
  call-IsQuiet (command_error e) s h = h
  call-IsQuiet (read_done address) s (reads, writes, commands) = (rw reads refl, writes, commands)
  call-IsQuiet subscription_established s h = h
  call-IsQuiet write_done s (reads, _, commands) = (reads, refl, commands)
  call-IsQuiet command_done s (reads, writes, commands) = (reads, writes, rw commands refl)
  call-IsQuiet (write_response status) s h = h
  call-IsQuiet (command_response status payload) s h = h

  call_all-IsQuiet :
      (cs : List (Callback S D)) (s : InteractionModel V S D) → IsQuiet s → IsQuiet (call_all cs s)
  unfolding call_all
  call_all-IsQuiet [] s h = h
  call_all-IsQuiet (c ∷ cs) s h = call_all-IsQuiet cs (call c s) (call-IsQuiet c s h)

  -- After Shutdown no read client, no write client and no command sender is left, and no sequence
  -- of callbacks that come late brings one back.
  pub shutdown-IsQuiet :
      (cs : List (Callback S D)) (s : InteractionModel V S D) → IsQuiet (call_all cs (shutdown s))
  unfolding shutdown
  shutdown-IsQuiet cs s = call_all-IsQuiet cs (shutdown s) (refl, refl, refl)

  call-answer :
      (c : Callback S D) (s : InteractionModel V S D)
      → (call c s).responses ≡ s.responses ++ answer lib c
  unfolding call answer
  call-answer (attribute_data payload status) s = refl
  call-answer (event_data payload none) s = refl
  call-answer (event_data payload (some status)) s = refl
  call-answer (read_error e) s = refl
  call-answer (write_error e) s = refl
  call-answer (command_error e) s = refl
  call-answer (write_response status) s = refl
  call-answer (command_response status payload) s = refl
  call-answer (read_done address) s = sym (append-nil s.responses)
  call-answer subscription_established s = sym (append-nil s.responses)
  call-answer write_done s = sym (append-nil s.responses)
  call-answer command_done s = sym (append-nil s.responses)

  -- OnResponse gets exactly the data, the responses and the errors that the callbacks of the three
  -- interfaces bring, in their order and with their status: the default one for an event without,
  -- and one made of the error, without data, for an error.
  pub call_all-answers :
      (cs : List (Callback S D)) (s : InteractionModel V S D)
      → (call_all cs s).responses ≡ s.responses ++ answers lib cs
  unfolding call_all answers
  call_all-answers [] s = sym (append-nil s.responses)
  call_all-answers (c ∷ cs) s =
      call_all-answers cs (call c s)
      ∙ rw (call-answer c s) (append_assoc s.responses (answer lib c) (answers lib cs))
