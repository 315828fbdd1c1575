-- ===== src/Sensor/Tests/Network.antt =====
-- The node that joins a network, at concrete lines of a client.
use embeded_linux_gateway.Prelude.{◌≡◌, false, some, [], ◌∷◌, arith, replicate, ◌==◌}
use embeded_linux_gateway.Server.{codes}
use embeded_linux_gateway.Sensor.Wifi.Joining.{Joining, join}
use embeded_linux_gateway.Sensor.Wifi.Joining.Attempts.{
  Attempt, lines, tried, any_succeeds, join-tried,
}

-- A network that does not answer, and one that does at the fourth test.
abbrev silent : Attempt
silent = record { ssid = codes "ab"; pass = codes "cd"; rest = []; answers = λ i. false }

abbrev home : Attempt
home = record { ssid = codes "abc"; pass = codes "d"; rest = []; answers = λ i. i == 3 }

join-tried_example :
    (t : Joining) × (join 12
        (lines (silent ∷ home ∷ []))
        (record { ssid = replicate 50 0; pass = replicate 50 0; begun = []; connected = false })
      ≡ some t)
    × (t.begun ≡ tried (silent ∷ home ∷ []) [])
    × (t.connected ≡ any_succeeds (silent ∷ home ∷ []))
join-tried_example = join-tried 12 (silent ∷ home ∷ []) (omega arith) (
  (omega arith, ground arith, ground arith, (omega arith, ground arith, ground arith, tt)),
  omega arith,
  (omega arith, ground arith, (omega arith, ground arith, tt)),
  omega arith,
  omega arith,
  (
    (
      omega arith,
      ground arith,
      ground arith,
      (omega arith, ground arith, ground arith, (omega arith, ground arith, ground arith, tt)),
    ),
    omega arith,
    (omega arith, ground arith, tt),
    omega arith,
    omega arith,
    tt,
  ),
)
