-- ===== src/Reports/Clients.antt =====
-- The read clients in flight: `send` adds one, `CleanupReadClient` takes one away, by its address.
use matter_hub.Prelude.{
  ℕ, ◌≡◌, refl, List, [], ◌∷◌, ◌++◌, Bool, false, not, ◌&&◌, ◌||◌, ◌==◌, arith, append-nil,
}
use matter_hub.Chip.{no_error}
use matter_hub.Reports.{
  ReportLibrary, Reports, ReadPrepareParams, ReadClient, InteractionType, keep_client, send,
  remove_client, cleanup_read_client, shutdown,
}

abbrev pub holds : ℕ → List ReadClient → Bool
holds address [] = false
holds address (c ∷ cs) = c.address == address || holds address cs

-- No address is held twice.
abbrev pub IsDistinct : List ReadClient → Type 0
IsDistinct [] = Unit
IsDistinct (c ∷ cs) = (holds c.address cs ≡ false) × IsDistinct cs

-- An address is held after CleanupReadClient exactly if it was before and is another one.
holds-remove_client :
    (a b : ℕ) (cs : List ReadClient) → holds b (remove_client a cs) ≡ (holds b cs && not (a == b))
unfolding remove_client
holds-remove_client a b [] = refl
holds-remove_client a b (c ∷ cs) = ground (arith, holds-remove_client a b cs)

remove_client_missing :
    (a : ℕ) (cs : List ReadClient) → holds a cs ≡ false → remove_client a cs ≡ cs
unfolding remove_client
remove_client_missing a [] h = refl
remove_client_missing a (c ∷ cs) h = ground (arith, remove_client_missing a cs)

remove_client-append :
    (a : ℕ) (cs ds : List ReadClient)
    → remove_client a (cs ++ ds) ≡ remove_client a cs ++ remove_client a ds
unfolding remove_client
remove_client-append a [] ds = refl
remove_client-append a (c ∷ cs) ds = ground (arith, remove_client-append a cs ds)

remove_client_self : (c : ReadClient) → remove_client c.address (c ∷ []) ≡ []
unfolding remove_client
remove_client_self c = ground arith

remove_client_last :
    (c : ReadClient) (cs : List ReadClient)
    → holds c.address cs ≡ false
    → remove_client c.address (cs ++ c ∷ []) ≡ cs
remove_client_last c cs h =
    rw
      (
        remove_client-append c.address cs (c ∷ []),
        remove_client_missing c.address cs h,
        remove_client_self c,
      )
      (append-nil cs)

remove_client-IsDistinct :
    (a : ℕ) (cs : List ReadClient) → IsDistinct cs → IsDistinct (remove_client a cs)
unfolding remove_client
remove_client-IsDistinct a [] d = tt
remove_client-IsDistinct a (c ∷ cs) (h, d) =
    ground (arith, remove_client-IsDistinct a cs d, holds-remove_client a c.address cs)

holds-append :
    (b : ℕ) (cs : List ReadClient) (c : ReadClient)
    → holds b (cs ++ c ∷ []) ≡ (holds b cs || c.address == b)
holds-append b [] c = ground arith
holds-append b (x ∷ cs) c = ground (arith, holds-append b cs c)

append-IsDistinct :
    (cs : List ReadClient) (c : ReadClient)
    → holds c.address cs ≡ false
    → IsDistinct cs
    → IsDistinct (cs ++ c ∷ [])
append-IsDistinct [] c h d = (refl, tt)
append-IsDistinct (x ∷ cs) c h (hx, d) =
    ground (arith, append-IsDistinct cs c, holds-append x.address cs c)

-- The allocator hands out no address that a live client has.
abbrev pub IsFresh : ReportLibrary → Type 0
IsFresh lib = (cs : List ReadClient) → holds (lib.new_address cs) cs ≡ false

-- A request that was sent and then cleaned up leaves the other read clients as they were, in their
-- order, if the allocator hands out fresh addresses and the
-- request is sent without an error.
cleanup-send :
    (lib : ReportLibrary) (type : InteractionType) (p : ReadPrepareParams) (r : Reports)
    → IsFresh lib
    → lib.send_request p ≡ no_error
    → (cleanup_read_client (lib.new_address r.read_clients) (send lib type p r).0).read_clients
      ≡ r.read_clients
unfolding cleanup_read_client send keep_client
cleanup-send lib type p r fresh sent = rw sent (
    remove_client_last
      (record { address = lib.new_address r.read_clients; interaction_type = type }) r.read_clients
      (fresh r.read_clients))

-- What the stack asks of the class, in any order.
pub data ReportCall : Type 0 where
  sends : InteractionType → ReadPrepareParams → ReportCall
  cleans_up : ℕ → ReportCall
  shuts_down : ReportCall

unfoldable pub report_step : ReportLibrary → Reports → ReportCall → Reports
unfolding send cleanup_read_client shutdown
report_step lib r (sends type p) = (send lib type p r).0
report_step lib r (cleans_up address) = cleanup_read_client address r
report_step lib r shuts_down = shutdown r

pub report_run : ReportLibrary → Reports → List ReportCall → Reports
unfolding report_step
report_run lib r [] = r
report_run lib r (c ∷ cs) = report_run lib (report_step lib r c) cs

send-IsDistinct :
    (lib : ReportLibrary) (type : InteractionType) (p : ReadPrepareParams) (r : Reports)
    → IsFresh lib
    → IsDistinct r.read_clients
    → IsDistinct (send lib type p r).0.read_clients
unfolding send keep_client
send-IsDistinct lib type p r fresh d = ground (
  arith,
  append-IsDistinct r.read_clients
      (record { address = lib.new_address r.read_clients; interaction_type = type })
      (fresh r.read_clients) d,
)

report_step-IsDistinct :
    (lib : ReportLibrary) (r : Reports) (c : ReportCall)
    → IsFresh lib
    → IsDistinct r.read_clients
    → IsDistinct (report_step lib r c).read_clients
unfolding report_step cleanup_read_client shutdown
report_step-IsDistinct lib r (sends type p) fresh d = send-IsDistinct lib type p r fresh d
report_step-IsDistinct lib r (cleans_up address) fresh d =
    remove_client-IsDistinct address r.read_clients d
report_step-IsDistinct lib r shuts_down fresh d = tt

-- If the allocator hands out fresh addresses and no two read clients share an address at first,
-- then after any sequence of requests, clean-ups and shutdowns no two of them do.
report_run-IsDistinct :
    (lib : ReportLibrary) (r : Reports) (cs : List ReportCall)
    → IsFresh lib
    → IsDistinct r.read_clients
    → IsDistinct (report_run lib r cs).read_clients
unfolding report_run
report_run-IsDistinct lib r [] fresh d = d
report_run-IsDistinct lib r (c ∷ cs) fresh d =
    report_run-IsDistinct lib (report_step lib r c) cs fresh
      (report_step-IsDistinct lib r c fresh d)
