-- ===== src/Sensor/Wifi.antt =====
-- src/esp/hostpost.ino/hostpost/hostpost.ino: the node that is told a network's name and password, joins it, and
-- publishes its values itself.
pub mod Credentials
pub mod Publishing
pub mod Readings
pub mod Joining
use embeded_linux_gateway.Prelude.{
  ℕ, zero, suc, ◌+◌, ◌-◌, ◌%◌, ◌^◌, ◌&&◌, Bool, true, false, Option, none, some, List, [], ◌∷◌,
  ◌++◌, ℤ, pos, ltb, leb, ◌==◌, if◌then◌else◌, get_or, set, length, replicate, overlay, c_string,
}
use embeded_linux_gateway.Server.{codes}
use embeded_linux_gateway.Mqtt.{Message}
use embeded_linux_gateway.Sensor.{Printing, joined}

-- The inner loop: the rest of the line behind the '.' at `j` goes to `pass`. `temp[i]` past the end is 0.
-- A write past the end of an array is left out: the loops are for an object `temp` of at most 50 bytes.
unfoldable pub copy_pass : ℕ → ℕ → ℕ → List ℕ → List ℕ → List ℕ
copy_pass zero k j temp pass = pass
copy_pass (suc n) k j temp pass =
    let c = get_or temp (k + j + 1) 0 in
    let rest = copy_pass n (k + 1) j temp (set pass k c) in
    if c == b'\n' then set pass k 0 else rest

-- The outer loop with `n` rounds left; `size` is `sizeof(temp)`, the size of the `String` object.
unfoldable pub split : ℕ → ℕ → ℕ → List ℕ → List ℕ × List ℕ → List ℕ × List ℕ
unfolding copy_pass
split size zero j temp s = s
split size (suc n) j temp s =
    let (ssid, pass) = s in
    let c = get_or temp j 0 in
    let rest = split size n (j + 1) temp (set ssid j (if c == b'\n' then 0 else c), pass) in
    if c == b'.' then (ssid, copy_pass size 0 j temp pass) else rest

-- `for (int j=0; j< sizeof(temp); j++)` on what a client has sent.
unfoldable pub credentials : ℕ → List ℕ → List ℕ × List ℕ → List ℕ × List ℕ
unfolding split
credentials size temp s = split size size 0 temp s

-- `SetUpWifi` from the `i`-th test of `WiFi.status()` on, with `checkWifi` at `i`; the tests end at the 21st.
unfoldable pub set_up_wifi : ℕ → ℕ → (ℕ → Bool) → Option Bool
set_up_wifi zero check_wifi connected = none
set_up_wifi (suc fuel) check_wifi connected =
    let rest = set_up_wifi fuel (check_wifi + 1) connected in
    if connected check_wifi then some true else if ltb 20 (check_wifi + 1) then some false else rest

abbrev pub id_node : ℤ
id_node = pos 94

-- `lastMsg`, and the messages published with the time of each, the latest first.
pub record Station : Type 0 where
  pub last_msg : ℕ
  pub published : List (ℕ × Message)

-- `now - lastMsg`, which wraps around at 32 bits; from 2 ^ 31 on it is negative.
abbrev pub elapsed : ℕ → ℕ → ℕ
elapsed now last_msg = (now + 2 ^ 32 - last_msg) % 2 ^ 32

module _ (printing : Printing) where
  open printing use {Float, show, show_float}

  pub record Values : Type 0 where
    pub temp : Float
    pub hum : Float
    pub gas : ℤ
    pub pres : Float

  abbrev pub pieces : Values → List (List ℕ)
  pieces v =
      codes "{\"id\":"
      ∷ show id_node
      ∷ codes ",\"t\":\""
      ∷ show_float v.temp
      ∷ codes "\",\"h\":\""
      ∷ show_float v.hum
      ∷ codes "\",\"g\":"
      ∷ show v.gas
      ∷ codes ",\"p\":"
      ∷ show_float v.pres
      ∷ codes "}"
      ∷ []

  unfoldable pub string_data : Values → List ℕ
  string_data v = joined (pieces v)

  -- A round of `while(1)` when `millis()` is `now`; `none` is a write past the end of `temp[60]`, by the text and its 0.
  unfoldable pub loop_round : ℕ → Values → Station → Option Station
  loop_round now v s =
      let temp = overlay (string_data v) (replicate 60 0) in
      let late = ltb 2000 (elapsed now s.last_msg) && ltb (elapsed now s.last_msg) (2 ^ 31) in
      if leb (length (string_data v) + 1) 60
      then some (
          if late
          then record {
            last_msg = now;
            published =
                (
                  now,
                  record {
                    topic = "data_wifi";
                    payload = c_string temp;
                    qos = 0;
                    retained = false;
                  },
                )
                ∷ s.published;
          }
          else s)
      else none

  -- Rounds in sequence.
  unfoldable pub rounds : List (ℕ × Values) → Station → Option Station
  rounds [] s = some s
  rounds ((now, v) ∷ later) s = elim (loop_round now v s) [ none ↦ none | some t ↦ rounds later t ]
