-- ===== src/Model/Repeats.antt =====
-- A command that is repeated, and the continuation after the last of its responses.
use mathlib.Core.List.{append_assoc}
use matter_hub.Prelude.{
  ℕ, zero, suc, ◌<◌, ◌≤◌, ◌≡◌, refl, sym, ap, ◌∙◌, ◌≢◌, List, [], ◌∷◌, ◌++◌, append-nil, length,
  Bool, true, false, Option, some, Bool-cases, inl, inr, ◌⊎◌, arith,
}
use matter_hub.Outcome.{Outcome, ret, ◌>>=◌}
use matter_hub.Chip.{ChipError, no_error, Device, failed}
use matter_hub.Reports.{secure_session}
use matter_hub.Model.{
  CommandPath, CommandSender, Commands, CommandLibrary, has_value, value_or, send_loop,
  send_command, first_erased, continued_if_none, on_done,
}

-- Every one of the senders is for the path, and timed exactly with a timeout.
abbrev pub AllSend : CommandPath → Option ℕ → List CommandSender → Type 0
AllSend path timeout [] = Unit
AllSend path timeout (c ∷ cs) =
    (c.path ≡ path) × (c.is_timed ≡ has_value timeout) × AllSend path timeout cs

-- What a run of n rounds adds to the senders, and its error.
pub record Sent (path : CommandPath) (timeout : Option ℕ) (n : ℕ) (s : Commands)
    (result : Outcome (Commands × ChipError)) : Type 0 where
  pub added : List CommandSender
  pub error : ChipError
  pub returns : result ≡ ret (record s { command_senders = s.command_senders ++ added }, error)
  pub same_path : AllSend path timeout added
  pub counted :
      ((error ≡ no_error) × (length added ≡ n)) ⊎ ((error ≢ no_error) × (length added < n))

failed-ne : (e : ChipError) → failed e ≡ true → e ≢ no_error
unfolding failed
failed-ne e h k = ground (arith, h, k)

module _ {V : Type 0} (lib : CommandLibrary V) (device : Device) (path : CommandPath) (value : V)
    (timeout : Option ℕ) (suppress : Option Bool) (session : ℕ)
    (connected : device.secure_session ≡ some session) where
  given : secure_session device ≡ ret session
  unfolding secure_session
  given = rw connected refl

  send_loop-Sent :
      (n : ℕ) (s : Commands)
      → Sent path timeout n s (send_loop lib device path value timeout suppress n s)
  unfolding send_loop
  send_loop-Sent zero s = record {
    added = [];
    error = no_error;
    returns = simp append-nil;
    same_path = tt;
    counted = inl (refl, refl);
  }
  send_loop-Sent (suc n) s =
      let sender : CommandSender = record { path = path; is_timed = has_value timeout } in
      let added : ChipError =
        lib.add_request_data s.command_senders sender value timeout (value_or suppress false) in
      let sent : ChipError = lib.send_command_request s.command_senders sender session in
      elim (Bool-cases (failed added)) [
        | inl h ↦ record {
          added = [];
          error = added;
          returns = rw (h, send_loop) (simp append-nil);
          same_path = tt;
          counted = inr (failed-ne added h, omega arith);
        }
        | inr ok ↦ elim (Bool-cases (failed sent)) [
          | inl h ↦ record {
            added = [];
            error = sent;
            returns = rw (ok, send_loop) (rw given (rw (h, ◌>>=◌) (simp append-nil)));
            same_path = tt;
            counted = inr (failed-ne sent h, omega arith);
          }
          | inr done ↦
              let rest =
                send_loop-Sent n
                  (record s { command_senders = s.command_senders ++ sender ∷ [] }) in
              record {
                added = sender ∷ rest.added;
                error = rest.error;
                returns =
                    rw (ok, send_loop)
                      (rw given (rw (done, ◌>>=◌) (rest.returns ∙ simp append_assoc)));
                same_path = (refl, refl, rest.same_path);
                counted = elim rest.counted [
                  | inl (e, l) ↦ inl (e, ap suc l)
                  | inr (e, l) ↦ inr (e, omega arith)
                ];
              }
        ]
      ]

  -- To a connected device, SendCommand with a count n returns for every behaviour of the SDK: it
  -- adds senders for its path after those that are there, exactly n if it returns no error and
  -- fewer otherwise.
  pub send_command-Sent :
      (n : ℕ) (s : Commands)
      → Sent path timeout n s (send_command lib device path value timeout suppress (some n) s)
  unfolding send_command
  send_command-Sent n s = send_loop-Sent n s

done_times : ℕ → Commands → Commands
unfolding on_done
done_times zero s = s
done_times (suc k) s = done_times k (on_done s)

done_times_lem :
    (k : ℕ) (cs : List CommandSender) (m : ℕ)
    → ((suc k < length cs
          → (done_times (suc k) (record { command_senders = cs; continued = m })).continued ≡ m)
        × (suc k ≡ length cs
            → (done_times (suc k) (record { command_senders = cs; continued = m })).continued
              ≡ suc m))
unfolding done_times on_done first_erased continued_if_none
done_times_lem k [] m = (λ h. absurd (omega arith), λ h. absurd (omega arith))
done_times_lem zero (c ∷ []) m = (λ h. absurd (omega arith), λ h. refl)
done_times_lem (suc k) (c ∷ []) m = (λ h. absurd (omega arith), λ h. absurd (omega arith))
done_times_lem zero (c ∷ d ∷ cs) m = (λ h. refl, λ h. absurd (omega arith))
done_times_lem (suc k) (c ∷ d ∷ cs) m =
    let (before, last) = done_times_lem k (d ∷ cs) m in
    (λ h. before (omega arith), λ h. last (omega arith))

-- With n + 1 senders in flight, the first responses, n at most, do not continue the main thread,
-- and after the last response it has been continued once.
done_continues_once :
    (k n : ℕ) (s : Commands)
    → length s.command_senders ≡ suc n
    → k ≤ n
    → ((done_times k s).continued ≡ s.continued)
      × ((done_times (suc n) s).continued ≡ suc s.continued)
unfolding done_times
done_continues_once zero n s e h =
    (refl, (done_times_lem n s.command_senders s.continued).1 (sym e))
done_continues_once (suc k) n s e h = (
  (done_times_lem k s.command_senders s.continued).0 (omega arith),
  (done_times_lem n s.command_senders s.continued).1 (sym e),
)
