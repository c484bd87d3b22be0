-- ===== src/Mqtt/Fates/Tests.antt =====
-- The fates of the commands of a concrete history.
use matter_hub.Prelude.{ℕ, codes, ◌≡◌, refl, List, [], ◌∷◌}
use matter_hub.Mqtt.{event_connected, event_disconnected}
use matter_hub.Mqtt.Invariant.{Happening, commanded, subscribed, notified, happen_all}
use matter_hub.Mqtt.Tests.{offline, sub, unsub, pub_to, unsub_not_publish}
use matter_hub.Mqtt.Fates.{sent_over, kept_over, Accounts}
use matter_hub.Mqtt.Fates.Accounted.{happen_all-Accounts}

-- The connection comes up twice, and is lost twice.
abbrev up_and_down : List (Happening ℕ)
up_and_down =
    subscribed (sub (codes "a")) 5
    ∷ commanded (pub_to (codes "a") (codes "lost"))
    ∷ notified event_connected
    ∷ commanded (pub_to (codes "a") (codes "x"))
    ∷ notified event_disconnected
    ∷ commanded (unsub (codes "a"))
    ∷ notified event_connected
    ∷ notified event_disconnected
    ∷ commanded (sub (codes "c"))
    ∷ []

happen_all-Accounts_example : Accounts offline up_and_down (happen_all offline up_and_down)
happen_all-Accounts_example =
    happen_all-Accounts offline up_and_down (refl, tt)
      (record {
        up = refl;
        nothing_waits = λ e. cc;
        no_publication = (unsub_not_publish (codes "old"), tt);
      })

sent_up_and_down :
    sent_over offline up_and_down
    ≡ unsub (codes "old")
      ∷ sub (codes "a")
      ∷ pub_to (codes "a") (codes "x")
      ∷ unsub (codes "a")
      ∷ []
unfolding sent_over
sent_up_and_down = refl

kept_up_and_down : kept_over offline up_and_down ≡ sub (codes "c") ∷ []
unfolding kept_over
kept_up_and_down = refl
